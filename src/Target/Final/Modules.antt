-- ===== src/Target/Final/Modules.antt =====
-- The text of etc/initramfs-tools/modules.
use growlight.Prelude.{
  ℕ, ◌≡◌, ◌⊎◌, ◌∙◌, refl, ap, sym, Bool, Bool-cases, inl, inr, true, false, not, Option, none, some,
  List, [], ◌∷◌, ◌++◌, ◌==◌, arith, if◌then◌else◌, append_assoc,
}
use growlight.Prelude.Maybe.{◌>>=◌}
use growlight.Text.{Text, starts_with, span}
use growlight.Text.Words.{Passes, span-append}
use growlight.Devices.{Controller}
use growlight.Target.{System}
use growlight.Target.Final.{c_string, contains, module_bytes, dump_controller_modules}

-- A text without a zero byte.
abbrev pub IsString : Text → Type 0
IsString = Passes (λ c. not (c == 0))

abbrev pub HaveStrings : List Controller → Type 0
HaveStrings [] = Unit
HaveStrings (c ∷ cs) = ((d : Text) × (c.driver ≡ some d) × IsString d) × HaveStrings cs

-- The first name of a driver that is not empty.
abbrev pub first_driver : List Controller → Text
first_driver [] = []
first_driver (c ∷ cs) = elim c.driver [
  | none ↦ first_driver cs
  | some d ↦ elim d [ [] ↦ first_driver cs | b ∷ s ↦ b ∷ s ]
]

c_string-append : (d r : Text) → IsString d → c_string (d ++ 0 ∷ r) ≡ d
unfolding c_string
c_string-append d r h = ap (λ w. w.0) (span-append (λ c. not (c == 0)) d 0 r h refl)

contains-nil : (s : Text) → contains s [] ≡ true
unfolding contains starts_with
contains-nil [] = refl
contains-nil (c ∷ s) = refl

-- What is seen of the bytes.
abbrev seen : Option Text → Option Text
seen o = o >>= λ out. some (c_string (out ++ 0 ∷ []))

module_bytes-step :
    (c : Controller) (cs : List Controller) (out driver : Text)
    → c.driver ≡ some driver
    → module_bytes (c ∷ cs) out
      ≡ module_bytes cs
          (if contains (c_string (out ++ 0 ∷ [])) driver then out else out ++ (driver ++ 0 ∷ []))
unfolding module_bytes
module_bytes-step c cs out driver e = rw (module_bytes, e) refl

-- Behind the first text nothing is seen.
module_bytes-first :
    (cs : List Controller) (d r : Text)
    → IsString d
    → HaveStrings cs
    → seen (module_bytes cs (d ++ 0 ∷ r)) ≡ some d
unfolding module_bytes
module_bytes-first [] d r h k =
    ap some (ap c_string (append_assoc d (0 ∷ r) (0 ∷ [])) ∙ c_string-append d (r ++ 0 ∷ []) h)
module_bytes-first (c ∷ cs) d r h ((driver, e, i), k) =
    ap seen (module_bytes-step c cs (d ++ 0 ∷ r) driver e)
    ∙ by_seen (λ t. module_bytes-first cs d t h k)
        (Bool-cases (contains (c_string ((d ++ 0 ∷ r) ++ 0 ∷ [])) driver))
  where
    by_seen :
        ((t : Text) → seen (module_bytes cs (d ++ 0 ∷ t)) ≡ some d)
        → (contains (c_string ((d ++ 0 ∷ r) ++ 0 ∷ [])) driver ≡ true)
          ⊎ (contains (c_string ((d ++ 0 ∷ r) ++ 0 ∷ [])) driver ≡ false)
        → seen (
            module_bytes cs (
              if contains (c_string ((d ++ 0 ∷ r) ++ 0 ∷ [])) driver
              then d ++ 0 ∷ r
              else (d ++ 0 ∷ r) ++ (driver ++ 0 ∷ [])))
          ≡ some d
    by_seen ih (inl f) = rw f (ih r)
    by_seen ih (inr f) = rw f (
        ap (λ t. seen (module_bytes cs t)) (append_assoc d (0 ∷ r) (driver ++ 0 ∷ []))
        ∙ ih (r ++ (driver ++ 0 ∷ [])))

not-contains : (b : ℕ) (d : Text) → contains (c_string (0 ∷ [])) (b ∷ d) ≡ false
unfolding contains starts_with c_string span
not-contains b d = refl

module_bytes_lem :
    (cs : List Controller) → HaveStrings cs → seen (module_bytes cs []) ≡ some (first_driver cs)
unfolding module_bytes
module_bytes_lem [] h = ap some (c_string-append [] [] tt)
module_bytes_lem (c ∷ cs) ((driver, e, i), k) =
    ap seen (module_bytes-step c cs [] driver e) ∙ by_driver (module_bytes_lem cs k) driver e i
  where
    by_driver :
        seen (module_bytes cs []) ≡ some (first_driver cs)
        → (d : Text) → c.driver ≡ some d
        → IsString d
        → seen (module_bytes cs (if contains (c_string (0 ∷ [])) d then [] else d ++ 0 ∷ []))
          ≡ some (first_driver (c ∷ cs))
    by_driver ih [] f j = rw f ih
    by_driver ih (b ∷ d) f j = rw f (module_bytes-first cs (b ∷ d) [] j k)

-- With a directory open, and a driver for every controller, the text that is written for the modules
-- holds one name: that of the first controller with a driver.
pub dump_controller_modules_lem :
    (s : System) (fd : ℕ)
    → s.targfd ≡ some fd
    → HaveStrings s.controllers
    → dump_controller_modules s ≡ some (first_driver s.controllers)
unfolding dump_controller_modules
dump_controller_modules_lem s fd e h =
    rw (dump_controller_modules, e) (module_bytes_lem s.controllers h)

abbrev pub lacks_driver : List Controller → Bool
lacks_driver [] = false
lacks_driver (c ∷ cs) = elim c.driver [ none ↦ true | some d ↦ lacks_driver cs ]

lacks-some :
    (c : Controller) (cs : List Controller) (d : Text)
    → c.driver ≡ some d
    → lacks_driver (c ∷ cs) ≡ lacks_driver cs
lacks-some c cs d e = rw e refl

module_bytes-lacks :
    (cs : List Controller) (out : Text) → lacks_driver cs ≡ true → module_bytes cs out ≡ none
unfolding module_bytes
module_bytes-lacks [] out h = ground arith
module_bytes-lacks (c ∷ cs) out h = by_driver (λ t k. module_bytes-lacks cs t k) c.driver refl h
  where
    by_driver :
        ((t : Text) → lacks_driver cs ≡ true → module_bytes cs t ≡ none)
        → (o : Option Text) → c.driver ≡ o
        → lacks_driver (c ∷ cs) ≡ true
        → module_bytes (c ∷ cs) out ≡ none
    by_driver ih none e k = rw (module_bytes, e) refl
    by_driver ih (some d) e k = rw (module_bytes, e) (ih _ (sym (lacks-some c cs d e) ∙ k))

-- With a directory open, a controller without a driver is a null pointer that is read.
pub dump_controller_modules-lacks :
    (s : System) (fd : ℕ)
    → s.targfd ≡ some fd
    → lacks_driver s.controllers ≡ true
    → dump_controller_modules s ≡ none
unfolding dump_controller_modules
dump_controller_modules-lacks s fd e h =
    rw (dump_controller_modules, e, module_bytes-lacks s.controllers [] h) refl
