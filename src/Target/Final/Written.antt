-- ===== src/Target/Final/Written.antt =====
-- What the two files hold when a target is finalized.
use growlight.Prelude.{
  ℕ, ◌≡◌, ◌≤◌, ◌+◌, leb, refl, ap, subst, ◌⊎◌, ◌∙◌, Bool, Bool-cases, inl, inr, true, false, Option,
  none, some, ◌++◌, arith, length, length-append,
}
use growlight.Text.{Text, codes, drop}
use growlight.Target.{Host, System, set_target}
use growlight.Target.Modes.{IsIdle, RefusesNull, set_target-IsIdle}
use growlight.Target.Fstab.{dump_targets}
use growlight.Target.Final.Modules.{lacks_driver, dump_controller_modules-lacks}
use growlight.Target.Final.{
  Disk, Finish, fstab_path, modules_path, set_file, make_dir, put_file, finish_modules,
  finish_files, dump_controller_modules, finalize_target,
}

-- The paths fit, no call on a directory or file fails, and a writing puts the text over the beginning
-- of the file, which is opened without O_TRUNC: what stood behind it stays.
pub record Works (k : Disk) (target : Text) : Type 0 where
  pub short : length target ≤ 4076
  pub makes : (p : Text) → k.mkdir p ≡ false
  pub opens : (p : Text) → k.openat p ≡ true
  pub puts : (p old text : Text) → k.put p old text ≡ (false, text ++ drop (length text) old)

abbrev pub over : (text old : Text) → Text
over text old = text ++ drop (length text) old

put_file_lem :
    (k : Disk) (target path text : Text) (r : Finish) (after : Finish → Option (Bool × Finish))
    → Works k target
    → put_file k path text r after ≡ after (set_file path (over text (r.files path)) r)
unfolding put_file
put_file_lem k target path text r after w = rw (put_file, w.puts path (r.files path) text) refl

make_dir_lem :
    (k : Disk) (target path : Text) (r : Finish) (after : Option (Bool × Finish))
    → Works k target
    → length path ≤ 4096
    → make_dir k path r after ≡ after
unfolding make_dir
make_dir_lem k target path r after w h = ground (arith, w.makes path)

finish_modules_lem :
    (k : Disk) (target modules : Text) (s : System) (r : Finish)
    → Works k target
    → dump_controller_modules s ≡ some modules
    → finish_modules k s r
      ≡ some (
        false,
        record (set_file modules_path (over modules (r.files modules_path)) r) { finalized = true },
      )
unfolding finish_modules
finish_modules_lem k target modules s r w e =
    rw (finish_modules, w.opens modules_path, e)
      (put_file_lem k target modules_path modules r
        (λ r'. some (false, record r' { finalized = true })) w)

-- What is left when both files are written.
abbrev pub final_files : (fstab modules : Text) → Finish → Finish
final_files fstab modules r =
    let r1 = set_file fstab_path (over fstab (r.files fstab_path)) r in
    record (set_file modules_path (over modules (r1.files modules_path)) r1) { finalized = true }

finish_files-modules :
    (k : Disk) (target : Text) (s : System) (r : Finish) (fstab : Text)
    → Works k target
    → dump_targets s ≡ some fstab
    → finish_files k s r
      ≡ finish_modules k s (set_file fstab_path (over fstab (r.files fstab_path)) r)
unfolding finish_files
finish_files-modules k target s r fstab w e =
    rw (finish_files, w.opens fstab_path, e)
      (put_file_lem k target fstab_path fstab r (finish_modules k s) w)

finalize_target-files :
    (k : Disk) (target : Text) (fd : ℕ) (s : System) (r : Finish)
    → Works k target
    → s.growlight_target ≡ some target
    → s.targfd ≡ some fd
    → finalize_target k s r ≡ finish_files k s r
unfolding finalize_target
finalize_target-files k target fd s r w t o =
    simp (finalize_target, t, o)
      (make_dir_lem k target (target ++ codes "/etc") r _ w
          (omega (arith, length-append target (codes "/etc"), w.short))
        ∙ make_dir_lem k target (target ++ codes "/etc/initramfs-tools") r _ w
            (omega (arith, length-append target (codes "/etc/initramfs-tools"), w.short)))

-- With a target and its directory open, on a disk that works, and where both dumps are defined: the run
-- succeeds, marks the target as finalized, and writes the dump of the mounts over etc/fstab and the dump
-- of the modules over etc/initramfs-tools/modules, each keeping what the file held behind the length of
-- its text.
pub finalize_target_lem :
    (k : Disk) (target : Text) (fd : ℕ) (s : System) (r : Finish) (fstab modules : Text)
    → Works k target
    → s.growlight_target ≡ some target
    → s.targfd ≡ some fd
    → dump_targets s ≡ some fstab
    → dump_controller_modules s ≡ some modules
    → finalize_target k s r ≡ some (false, final_files fstab modules r)
finalize_target_lem k target fd s r fstab modules w t o e m =
    finalize_target-files k target fd s r w t o
    ∙ finish_files-modules k target s r fstab w e
    ∙ finish_modules_lem k target modules s _ w m

-- As long as a controller has no driver, as that of the virtual devices, which is always in the tables,
-- has none, no target can be finalized: with its directory open, on a disk that works, the run reads a
-- null pointer.
pub finalize_target-lacks :
    (k : Disk) (target : Text) (fd : ℕ) (s : System) (r : Finish) (fstab : Text)
    → Works k target
    → s.growlight_target ≡ some target
    → s.targfd ≡ some fd
    → dump_targets s ≡ some fstab
    → lacks_driver s.controllers ≡ true
    → finalize_target k s r ≡ none
unfolding finish_modules
finalize_target-lacks k target fd s r fstab w t o e l =
    finalize_target-files k target fd s r w t o
    ∙ finish_files-modules k target s r fstab w e
    ∙ rw (finish_modules, w.opens modules_path, dump_controller_modules-lacks s fd o l) refl

-- A target that is set while none is set and no directory is open cannot be finalized before another
-- call opens its directory, also where a device is mounted at it.
pub finalize_target-set_target :
    (h : Host) (k : Disk) (path real : Text) (s : System) (r : Finish)
    → RefusesNull h
    → IsIdle s
    → h.realpath path ≡ some real
    → finalize_target k (set_target h (some path) s).1 r ≡ some (true, r)
unfolding finalize_target
finalize_target-set_target h k path real s r null i e =
    ap (λ o. finalize_target k o.1 r) (set_target-IsIdle h null path real s i e) ∙ simp i.unopened

-- A run that fails leaves the flag as it was.
abbrev Keeps : Finish → Option (Bool × Finish) → Type 0
Keeps r none = Unit
Keeps r (some (failed, r')) = (failed ≡ true) → r'.finalized ≡ r.finalized

put_file-Keeps :
    (k : Disk) (path text : Text) (r r' : Finish) (after : Finish → Option (Bool × Finish))
    → r'.finalized ≡ r.finalized
    → ((t : Finish) → t.finalized ≡ r.finalized → Keeps r (after t))
    → Keeps r (put_file k path text r' after)
unfolding put_file
put_file-Keeps k path text r r' after same h =
    elim (Bool-cases (k.put path (r'.files path) text).0) [
      | inl e ↦ rw (put_file, e) (λ f. same)
      | inr e ↦ rw (put_file, e) (h _ same)
    ]

make_dir-Keeps :
    (k : Disk) (path : Text) (r : Finish) (after : Option (Bool × Finish))
    → Keeps r after
    → Keeps r (make_dir k path r after)
unfolding make_dir
make_dir-Keeps k path r after h = elim (Bool-cases (leb (4096 + 1) (length path))) [
  | inl e ↦ rw (make_dir, e) (λ f. refl)
  | inr e ↦ elim (Bool-cases (k.mkdir path)) [
    | inl e' ↦ rw (make_dir, e, e') (λ f. refl)
    | inr e' ↦ rw (make_dir, e, e') h
  ]
]

done-Keeps : (r t : Finish) → Keeps r (some (false, record t { finalized = true }))
done-Keeps r t e = ground arith

finish_modules-Keeps :
    (k : Disk) (s : System) (r r' : Finish)
    → r'.finalized ≡ r.finalized
    → Keeps r (finish_modules k s r')
unfolding finish_modules
finish_modules-Keeps k s r r' h =
    by_dump (Bool-cases (k.openat modules_path)) (dump_controller_modules s) refl
  where
    by_dump :
        (k.openat modules_path ≡ true) ⊎ (k.openat modules_path ≡ false)
        → (o : Option Text) → dump_controller_modules s ≡ o
        → Keeps r (finish_modules k s r')
    by_dump (inl e) none d = rw (finish_modules, e, d) tt
    by_dump (inl e) (some modules) d =
        rw (finish_modules, e, d)
          (put_file-Keeps k modules_path modules r r'
            (λ t. some (false, record t { finalized = true })) h (λ t i. done-Keeps r t))
    by_dump (inr e) o d = rw (finish_modules, e) (λ f. h)

finish_files-Keeps : (k : Disk) (s : System) (r : Finish) → Keeps r (finish_files k s r)
unfolding finish_files
finish_files-Keeps k s r = by_dump (Bool-cases (k.openat fstab_path)) (dump_targets s) refl
  where
    by_dump :
        (k.openat fstab_path ≡ true) ⊎ (k.openat fstab_path ≡ false)
        → (o : Option Text) → dump_targets s ≡ o
        → Keeps r (finish_files k s r)
    by_dump (inl e) none d = rw (finish_files, e, d) tt
    by_dump (inl e) (some text) d =
        rw (finish_files, e, d)
          (put_file-Keeps k fstab_path text r r (finish_modules k s) refl
            (λ t h. finish_modules-Keeps k s r t h))
    by_dump (inr e) o d = rw (finish_files, e) (λ f. refl)

finalize_target-Keeps : (k : Disk) (s : System) (r : Finish) → Keeps r (finalize_target k s r)
unfolding finalize_target
finalize_target-Keeps k s r = by_state s.growlight_target s.targfd refl refl
  where
    by_state :
        (t : Option Text) (fd : Option ℕ)
        → s.growlight_target ≡ t
        → s.targfd ≡ fd
        → Keeps r (finalize_target k s r)
    by_state none fd e f = simp (finalize_target, e) (λ f. refl)
    by_state (some t) none e f = simp (finalize_target, e, f) (λ f. refl)
    by_state (some t) (some fd) e f =
        simp (finalize_target, e, f)
          (make_dir-Keeps k (t ++ codes "/etc") r _ (
            make_dir-Keeps k (t ++ codes "/etc/initramfs-tools") r (finish_files k s r)
              (finish_files-Keeps k s r)))

-- A run that fails, at whichever call, does not mark the target as finalized.
pub finalize_target-abort :
    (k : Disk) (s : System) (r r' : Finish)
    → finalize_target k s r ≡ some (true, r')
    → r'.finalized ≡ r.finalized
finalize_target-abort k s r r' e = subst (Keeps r) e (finalize_target-Keeps k s r) refl
