-- ===== src/Swap/Lines/Read.antt =====
-- The lines that the kernel prints to /proc/swaps, read back.
use growlight.Prelude.{
  ℕ, ◌+◌, ◌*◌, ◌%◌, ◌<◌, ◌^◌, ◌≡◌, ◌∙◌, refl, ap, sym, true, false, Option, some, List, [], ◌∷◌,
  ◌++◌, arith, ◌==◌,
}
use growlight.Text.{Text, codes, text_eq, is_graph, is_space, span}
use growlight.Text.Words.{graph-not-space, IsWord, Passes, span-append}
use growlight.Text.Numbers.{print_nat, print_nat-first, print_nat-Passes}
use growlight.Text.Strtoull.{strtoull-print_nat}
use growlight.Device.{Device, SwapPrio}
use growlight.Devices.{Controller, find_device, lookup_device, update_device}
use growlight.Devices.Update.{omap, find_device-update_device_same}
use growlight.Swap.{swap_maxprio}
use growlight.Swap.Lines.{take_swap, token, swap_type, swap_size, swap_device, swap_line}

-- A line: the name, spaces, the type, and the size and what else follows, each behind a tab.
abbrev pub print_swap : (name pad type : Text) → (kb : ℕ) → (rest : Text) → Text
print_swap name pad type kb rest = name ++ 32 ∷ (pad ++ (type ++ 9 ∷ (print_nat kb ++ 9 ∷ rest)))

token-append : (w r : Text) → IsWord w → token (w ++ 9 ∷ r) ≡ some (w, 9 ∷ r)
unfolding token is_graph
token-append [] r h = absurd (h.1 refl)
token-append (c ∷ w) r h = rw (span-append is_graph w 9 r h.0.1 refl) refl

skip-spaces :
    (pad w r : Text) → Passes is_space pad → IsWord w → (span is_space (pad ++ (w ++ r))).1 ≡ w ++ r
skip-spaces pad [] r p h = absurd (h.1 refl)
skip-spaces pad (c ∷ w) r p h =
    ap (λ s. s.1) (span-append is_space pad c (w ++ r) p (graph-not-space c h.0.0))

swap_type-print :
    (name pad type r : Text)
    → Passes is_graph name
    → Passes is_space pad
    → IsWord type
    → swap_type (name ++ 32 ∷ (pad ++ (type ++ 9 ∷ r))) ≡ some (name, type, 9 ∷ r)
unfolding swap_type is_graph
swap_type-print name pad type r n p t =
    rw
      (
        swap_type,
        span-append is_graph name 32 (pad ++ (type ++ 9 ∷ r)) n refl,
        skip-spaces pad type (9 ∷ r) p t,
        token-append type r t,
      )
      refl

digit-graph : (d : ℕ) → d < 10 → is_graph (48 + d) ≡ true
unfolding is_graph
digit-graph d h = ground arith

print_nat-IsWord : (n : ℕ) → 0 < n → IsWord (print_nat n)
print_nat-IsWord n h =
    let (d, t, same, low, high) = print_nat-first n h in
    (print_nat-Passes is_graph n digit-graph, λ e. ground (arith, sym same ∙ e))

swap_size-print :
    (n : ℕ) (r : Text) → 0 < n → swap_size (9 ∷ (print_nat n ++ 9 ∷ r)) ≡ some (print_nat n)
unfolding swap_size
swap_size-print n r h = rw (token-append (print_nat n) r (print_nat-IsWord n h)) refl

not-zero : (n : ℕ) → 0 < n → (n == 0) ≡ false
not-zero n h = ground arith

-- The priority and the type of a device, before and after: a device that was no swap becomes an active
-- one with the priority 0, and another keeps both.
abbrev pub IsActivated : SwapPrio → (old new : Device) → Type 0
IsActivated SwapPrio.swap_invalid old new =
    (new.swapprio ≡ SwapPrio.swap_prio 0) × (new.mnttype ≡ some (codes "swap"))
IsActivated SwapPrio.swap_inactive old new =
    (new.swapprio ≡ SwapPrio.swap_inactive) × (new.mnttype ≡ old.mnttype)
IsActivated (SwapPrio.swap_prio p) old new =
    (new.swapprio ≡ SwapPrio.swap_prio p) × (new.mnttype ≡ old.mnttype)

-- What a line of that many kilobytes makes of a device.
pub record HasSwap (kb : ℕ) (old new : Device) : Type 0 where
  pub name : new.name ≡ old.name
  pub size : new.mntsize ≡ (1024 * kb) % 2 ^ 64
  pub state : IsActivated old.swapprio old new

take_swap_of :
    (kb : ℕ) (d : Device) (p : SwapPrio)
    → d.swapprio ≡ p
    → take_swap kb d ≡ record d {
      mntsize = (kb * 1024) % 2 ^ 64;
      mnttype = elim p [ SwapPrio.swap_invalid ↦ some (codes "swap") | _ ↦ d.mnttype ];
      swapprio = elim p [ SwapPrio.swap_invalid ↦ swap_maxprio | _ ↦ d.swapprio ];
    }
take_swap_of kb d SwapPrio.swap_invalid e = rw e refl
take_swap_of kb d SwapPrio.swap_inactive e = rw e refl
take_swap_of kb d (SwapPrio.swap_prio p) e = rw e refl

take_swap-name : (kb : ℕ) (d : Device) → (take_swap kb d).name ≡ d.name
take_swap-name kb d = ap (λ e. e.name) (take_swap_of kb d d.swapprio refl)

take_swap-size : (kb : ℕ) (d : Device) → (take_swap kb d).mntsize ≡ (1024 * kb) % 2 ^ 64
take_swap-size kb d = omega (arith, ap (λ e. e.mntsize) (take_swap_of kb d d.swapprio refl))

take_swap-IsActivated :
    (kb : ℕ) (d : Device) (p : SwapPrio) → d.swapprio ≡ p → IsActivated p d (take_swap kb d)
take_swap-IsActivated kb d SwapPrio.swap_invalid e =
    let same = take_swap_of kb d SwapPrio.swap_invalid e in
    (ap (λ x. x.swapprio) same, ap (λ x. x.mnttype) same)
take_swap-IsActivated kb d SwapPrio.swap_inactive e =
    let same = take_swap_of kb d SwapPrio.swap_inactive e in
    (ap (λ x. x.swapprio) same ∙ e, ap (λ x. x.mnttype) same)
take_swap-IsActivated kb d (SwapPrio.swap_prio p) e =
    let same = take_swap_of kb d (SwapPrio.swap_prio p) e in
    (ap (λ x. x.swapprio) same ∙ e, ap (λ x. x.mnttype) same)

take_swap-HasSwap : (kb : ℕ) (d : Device) → HasSwap kb d (take_swap kb d)
take_swap-HasSwap kb d = record {
  name = take_swap-name kb d;
  size = take_swap-size kb d;
  state = take_swap-IsActivated kb d d.swapprio refl;
}

module _ (create_new_device : Text → List Controller → Option Device × List Controller) where
  swap_device-print :
      (name : Text) (kb : ℕ) (cs : List Controller) (d : Device)
      → lookup_device create_new_device name cs ≡ (some d, cs)
      → 0 < kb
      → kb < 2 ^ 64
      → swap_device create_new_device name (print_nat kb) cs
        ≡ (false, update_device d.name (take_swap kb) cs)
  unfolding swap_device
  swap_device-print name kb cs d l p q =
      rw (swap_device, l, strtoull-print_nat kb p q, not-zero kb p)
        (ap (λ r. (false, update_device d.name (take_swap kb) r.1)) l)

  swap_line_of :
      (line name type r size : Text) (cs : List Controller)
      → swap_type line ≡ some (name, type, r)
      → text_eq type (codes "file") ≡ false
      → swap_size r ≡ some size
      → swap_line create_new_device line cs ≡ some (swap_device create_new_device name size cs)
  unfolding swap_line
  swap_line_of line name type r size cs t f z = ground (arith, t, f, z)

  swap_line-print :
      (name pad type rest : Text) (kb : ℕ) (cs : List Controller) (d : Device)
      → Passes is_graph name
      → Passes is_space pad
      → IsWord type
      → text_eq type (codes "file") ≡ false
      → lookup_device create_new_device name cs ≡ (some d, cs)
      → 0 < kb
      → kb < 2 ^ 64
      → swap_line create_new_device (print_swap name pad type kb rest) cs
        ≡ some (false, update_device d.name (take_swap kb) cs)
  swap_line-print name pad type rest kb cs d n p t f l low high =
      swap_line_of (print_swap name pad type kb rest) name type (9 ∷ (print_nat kb ++ 9 ∷ rest))
        (print_nat kb) cs (swap_type-print name pad type (print_nat kb ++ 9 ∷ rest) n p t) f
        (swap_size-print kb rest low)
      ∙ ap some (swap_device-print name kb cs d l low high)

  -- The line that the kernel prints for a swap with a name of graphic bytes that is no file, of a size of 1 to 2 ^ 64 - 1 kB, where the
  -- device is in the tables under its name: the line is taken without an error, and the device that is
  -- found under that name afterwards has the size times 1024, modulo 2 ^ 64. If it was not known as a swap
  -- it is an active one, with the type "swap"; otherwise its state and its type are as they were.
  pub swap_line-print_swap :
      (name pad type rest : Text) (kb : ℕ) (cs : List Controller) (d : Device)
      → Passes is_graph name
      → Passes is_space pad
      → IsWord type
      → text_eq type (codes "file") ≡ false
      → lookup_device create_new_device name cs ≡ (some d, cs)
      → find_device d.name cs ≡ some d
      → 0 < kb
      → kb < 2 ^ 64
      → (cs' : List Controller) × (swap_line create_new_device (print_swap name pad type kb rest) cs
          ≡ some (false, cs'))
        × ((d' : Device) × (find_device d.name cs' ≡ some d') × HasSwap kb d d')
  swap_line-print_swap name pad type rest kb cs d n p t f l found low high = (
    update_device d.name (take_swap kb) cs,
    swap_line-print name pad type rest kb cs d n p t f l low high,
    (
      take_swap kb d,
      find_device-update_device_same (take_swap kb) (take_swap-name kb) d.name cs
          ∙ ap (omap (take_swap kb)) found,
      take_swap-HasSwap kb d,
    ),
  )
