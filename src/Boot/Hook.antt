-- ===== src/Boot/Hook.antt =====
-- Proofs on src/growlight.c: when a boot script is written, and what is in it.
use growlight.Prelude.{
  ◌≡◌, refl, ◌∙◌, ap, sym, Bool, true, false, not, ◌&&◌, inl, inr, ◌⊎◌, Option, some, arith, ◌==◌,
  if◌then◌else◌,
}
use growlight.Text.{Text}
use growlight.Device.{Layout, layout_is, Partition}
use growlight.Target.{targeted_p, target_root_p}
use growlight.Boot.{
  Script, Stdio, write_postbase_hook, bios_script, uefi_script, prepare_bios_boot,
  prepare_uefi_boot,
}

-- A return of 0 leaves the whole text in a file that its owner alone may read, write and run.
write_postbase_hook-whole :
    (io : Stdio) (t : Text) (s : Option Script)
    → (write_postbase_hook io t s).0 ≡ false
    → (write_postbase_hook io t s).1 ≡ some (record { text = t; mode = 0o700 })
unfolding write_postbase_hook
write_postbase_hook-whole io t s h = ground (arith, h)

-- A partition from which the BIOS boots: the root of the target, with one of two types.
record IsBiosBootable (target : Option Text) (d : Partition) : Type 0 where
  pub partition : layout_is d.dev.layout Layout.layout_partition ≡ true
  pub root : target_root_p target d.dev ≡ true
  pub role : (d.ptype ≡ 0xef02) ⊎ (d.ptype ≡ 0x8300)

-- An EFI system partition that is mounted at the target or at a path that starts with it.
pub record IsUefiBootable (target : Option Text) (d : Partition) : Type 0 where
  pub partition : layout_is d.dev.layout Layout.layout_partition ≡ true
  pub targeted : targeted_p target d.dev ≡ true
  pub role : d.ptype ≡ 0xef00

-- Three tests that return, one after the other.
passes_or_stops {ℓ} :
    {A : Type ℓ} (p q r : Bool) (x y : A)
    → ((if not p then x else if not q then x else if r then x else y) ≡ x)
      ⊎ ((p ≡ true)
          × (q ≡ true)
          × (r ≡ false)
          × ((if not p then x else if not q then x else if r then x else y) ≡ y))
passes_or_stops false q r x y = inl refl
passes_or_stops true false r x y = inl refl
passes_or_stops true true true x y = inl refl
passes_or_stops true true false x y = inr (refl, refl, refl, refl)

-- Either the state is as it was and the return is -1, or the tests hold and the script is written.
bios_cases :
    (io : Stdio) (target : Option Text) (d : Partition) (s : Option Script)
    → (prepare_bios_boot io target d s ≡ (true, s))
      ⊎ (IsBiosBootable target d
          × (prepare_bios_boot io target d s
              ≡ write_postbase_hook io (bios_script d.parent.name) s))
unfolding prepare_bios_boot
bios_cases io target d s =
    elim (passes_or_stops (layout_is d.dev.layout Layout.layout_partition)
      (target_root_p target d.dev) (not (d.ptype == 0xef02) && not (d.ptype == 0x8300)) (true, s)
      (write_postbase_hook io (bios_script d.parent.name) s)) [
        | inl e ↦ inl e
        | inr (a, b, c, e) ↦ inr (record { partition = a; root = b; role = ground (arith, c) }, e)
      ]

uefi_cases :
    (io : Stdio) (target : Option Text) (d : Partition) (s : Option Script)
    → (prepare_uefi_boot io target d s ≡ (true, s))
      ⊎ (IsUefiBootable target d
          × (prepare_uefi_boot io target d s ≡ write_postbase_hook io (uefi_script d.dev.name) s))
unfolding prepare_uefi_boot
uefi_cases io target d s =
    elim (passes_or_stops (layout_is d.dev.layout Layout.layout_partition) (d.ptype == 0xef00)
      (not (targeted_p target d.dev)) (true, s)
      (write_postbase_hook io (uefi_script d.dev.name) s)) [
        | inl e ↦ inl e
        | inr (a, b, c, e) ↦
            inr
              (record { partition = a; targeted = ground (arith, c); role = ground (arith, b) }, e)
      ]

-- What a script that was written is, for a function that either stops or writes.
writes :
    (io : Stdio) (t : Text) (s : Option Script) (r : Bool × Option Script) {P : Type 0}
    → (r ≡ (true, s)) ⊎ (P × (r ≡ write_postbase_hook io t s))
    → r.0 ≡ false
    → P × (r.1 ≡ some (record { text = t; mode = 0o700 }))
writes io t s r (inl e) h = absurd (ground (arith, e, h))
writes io t s r (inr (p, e)) h =
    (p, ap (λ x. x.1) e ∙ write_postbase_hook-whole io t s (sym (ap (λ x. x.0) e) ∙ h))

-- A return of 0 from `prepare_bios_boot` means a partition at the root of the target, with the type of a
-- BIOS boot partition or of a Linux file system; the script, which its owner may run, then installs the
-- boot loader on the disk that holds the partition.
prepare_bios_boot-IsBiosBootable :
    (io : Stdio) (target : Option Text) (d : Partition) (s : Option Script)
    → (prepare_bios_boot io target d s).0 ≡ false
    → IsBiosBootable target d
      × ((prepare_bios_boot io target d s).1
          ≡ some (record { text = bios_script d.parent.name; mode = 0o700 }))
prepare_bios_boot-IsBiosBootable io target d s h =
    writes io (bios_script d.parent.name) s (prepare_bios_boot io target d s)
      (bios_cases io target d s) h

-- A return of 0 from `prepare_uefi_boot` means an EFI system partition that is mounted at the target or
-- at a path that starts with it; the script, which its owner may run, then names the partition itself.
pub prepare_uefi_boot-IsUefiBootable :
    (io : Stdio) (target : Option Text) (d : Partition) (s : Option Script)
    → (prepare_uefi_boot io target d s).0 ≡ false
    → IsUefiBootable target d
      × ((prepare_uefi_boot io target d s).1
          ≡ some (record { text = uefi_script d.dev.name; mode = 0o700 }))
prepare_uefi_boot-IsUefiBootable io target d s h =
    writes io (uefi_script d.dev.name) s (prepare_uefi_boot io target d s)
      (uefi_cases io target d s) h
