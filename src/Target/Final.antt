-- ===== src/Target/Final.antt =====
-- `dump_controller_modules` and `finalize_target` of src/target.c. The calls on directories and files are
-- parameters; `none` stands for a read behind the mount options of a device, as in the dump of the
-- mounts, or for a null pointer that is read.
pub mod Modules
pub mod Written
use growlight.Prelude.{
  ℕ, ◌+◌, Bool, true, false, not, Option, none, some, List, [], ◌∷◌, ◌++◌, ltb, leb, ◌==◌,
  if◌then◌else◌, length,
}
use growlight.Prelude.Maybe.{◌>>=◌}
use growlight.Text.{Text, codes, text_eq, starts_with, span}
use growlight.Devices.{Controller}
use growlight.Target.{System}
use growlight.Target.Fstab.{dump_targets}

-- The text up to the first zero byte.
unfoldable pub c_string : Text → Text
unfolding span
c_string s = (span (λ c. not (c == 0)) s).0

-- strstr(s, t) != NULL
unfoldable pub contains : Text → Text → Bool
unfolding starts_with
contains [] t = starts_with [] t
contains (c ∷ s) t = let rest = contains s t in if starts_with (c ∷ s) t then true else rest

-- The loop over the controllers, with the bytes up to `off`, behind which a zero byte stands. The
-- newline of the format has no room in the count of bytes that is passed. `none` is the search for a
-- null pointer.
unfoldable pub module_bytes : List Controller → (out : Text) → Option Text
unfolding contains c_string
module_bytes [] out = some out
module_bytes (c ∷ cs) out = elim c.driver [
  | none ↦ none
  | some driver ↦
      module_bytes cs
        (if contains (c_string (out ++ 0 ∷ [])) driver then out else out ++ (driver ++ 0 ∷ []))
]

unfoldable pub dump_controller_modules : System → Option Text
unfolding module_bytes
dump_controller_modules s = elim s.targfd [
  | none ↦ some []
  | some fd ↦ module_bytes s.controllers [] >>= λ out. some (c_string (out ++ 0 ∷ []))
]

abbrev pub path_max : ℕ
path_max = 4096

-- What `mkdir`, the opening of a file (`openat` with `fdopen`) and the writing of a text into an open
-- file answer. `mkdir` fails for another reason than that the path is there. The writing answers whether
-- it failed, and gives what the file holds after it.
pub record Disk : Type 0 where
  pub mkdir : Text → Bool
  pub openat : Text → Bool
  pub put : (path old text : Text) → Bool × Text

-- The files below the target root, and `finalized`.
pub record Finish : Type 0 where
  pub files : Text → Text
  pub finalized : Bool

abbrev pub fstab_path : Text
fstab_path = codes "etc/fstab"

abbrev pub modules_path : Text
modules_path = codes "etc/initramfs-tools/modules"

abbrev pub set_file : Text → Text → Finish → Finish
set_file path text r = record r { files = λ p. if text_eq p path then text else r.files p }

-- A directory below the target, and what comes after it.
unfoldable pub make_dir :
    Disk → (path : Text) → Finish → Option (Bool × Finish) → Option (Bool × Finish)
make_dir k path r after =
    if leb (path_max + 1) (length path)
    then some (true, r)
    else if k.mkdir path
    then some (true, r)
    else after

-- A file that is opened and written, and what comes after it.
unfoldable pub put_file :
    Disk → (path text : Text) → Finish → (Finish → Option (Bool × Finish)) → Option (Bool × Finish)
put_file k path text r after =
    let (failed, content) = k.put path (r.files path) text in
    if failed then some (true, set_file path content r) else after (set_file path content r)

-- The second file, and the flag.
unfoldable pub finish_modules : Disk → System → Finish → Option (Bool × Finish)
unfolding put_file
finish_modules k s r =
    if not (k.openat modules_path)
    then some (true, r)
    else dump_controller_modules s >>= λ modules.
        put_file k modules_path modules r (λ r'. some (false, record r' { finalized = true }))

unfoldable pub finish_files : Disk → System → Finish → Option (Bool × Finish)
unfolding put_file finish_modules
finish_files k s r =
    if not (k.openat fstab_path)
    then some (true, r)
    else dump_targets s >>= λ fstab. put_file k fstab_path fstab r (finish_modules k s)

unfoldable pub finalize_target : Disk → System → Finish → Option (Bool × Finish)
unfolding make_dir finish_files
finalize_target k s r = elim s.growlight_target [
  | none ↦ some (true, r)
  | some target ↦ elim s.targfd [
    | none ↦ some (true, r)
    | some fd ↦
        make_dir k (target ++ codes "/etc") r
          (make_dir k (target ++ codes "/etc/initramfs-tools") r (finish_files k s r))
  ]
]
