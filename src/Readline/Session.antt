-- ===== src/Readline/Session.antt =====
-- src/readline/readline.c: the table of the commands, `help`, and the loop `tty_ui`. The lines that
-- `ncdirect_readline` gives are a list; the lock around a handler and the colours are left out.
use growlight.Prelude.{Bool, true, false, Option, none, some, List, [], ◌∷◌, if◌then◌else◌}
use growlight.Text.{Text, codes, text_eq}
use growlight.Readline.{Locale, Backend, Call, Done, ignore, usage, ◌>>◌, wcscase_eq}
use growlight.Readline.Tokens.{Tokens, tokenize}
use growlight.Readline.Listing.{each}
use growlight.Readline.Handlers.Passing
use growlight.Readline.Handlers.Disks
use growlight.Readline.Handlers.Parts
use growlight.Readline.Handlers.Filesystems
use growlight.Readline.Handlers.General

-- The functions that the table points to.
pub data Fxn : Type 0 where
  adapter blockdev partition fs swap mdadm dm zpool zfs target map unmap stats mounts : Fxn
  uefiboot biosboot diags grubmap benchmark troubleshoot version help quit : Fxn

unfoldable pub fxns : List (Text × Fxn)
fxns =
    (codes "adapter", Fxn.adapter)
    ∷ (codes "blockdev", Fxn.blockdev)
    ∷ (codes "partition", Fxn.partition)
    ∷ (codes "fs", Fxn.fs)
    ∷ (codes "swap", Fxn.swap)
    ∷ (codes "mdadm", Fxn.mdadm)
    ∷ (codes "dm", Fxn.dm)
    ∷ (codes "zpool", Fxn.zpool)
    ∷ (codes "zfs", Fxn.zfs)
    ∷ (codes "target", Fxn.target)
    ∷ (codes "map", Fxn.map)
    ∷ (codes "unmap", Fxn.unmap)
    ∷ (codes "stats", Fxn.stats)
    ∷ (codes "mounts", Fxn.mounts)
    ∷ (codes "uefiboot", Fxn.uefiboot)
    ∷ (codes "biosboot", Fxn.biosboot)
    ∷ (codes "diags", Fxn.diags)
    ∷ (codes "grubmap", Fxn.grubmap)
    ∷ (codes "benchmark", Fxn.benchmark)
    ∷ (codes "troubleshoot", Fxn.troubleshoot)
    ∷ (codes "version", Fxn.version)
    ∷ (codes "help", Fxn.help)
    ∷ (codes "quit", Fxn.quit)
    ∷ (codes "exit", Fxn.quit)
    ∷ []

-- The loop over the table, with the test of a name.
unfoldable pub find_fxn : (Text → Bool) → List (Text × Fxn) → Option (Text × Fxn)
find_fxn p [] = none
find_fxn p (e ∷ es) = if p e.0 then some e else find_fxn p es

module _ {ℓ} {W : Type ℓ} (b : Backend W) where
  -- The name is compared letter for letter.
  unfoldable pub help_with : List Text → Done W
  unfolding ignore usage each fxns find_fxn
  help_with [] = ignore b Call.print_header >> each (λ e. ignore b (Call.print_command e.0)) fxns
  help_with (cmd ∷ []) = elim (find_fxn (λ n. text_eq n cmd) fxns) [
    | none ↦ usage b
    | some e ↦ ignore b (Call.print_command cmd)
  ]
  help_with (cmd ∷ more ∷ args) = usage b

  unfoldable pub run_fxn : Fxn → Locale → List Text → Done W
  unfolding help_with
  run_fxn Fxn.adapter l args = Passing.adapter b l args
  run_fxn Fxn.blockdev l args = Disks.blockdev b l args
  run_fxn Fxn.partition l args = Parts.partition b l args
  run_fxn Fxn.fs l args = Filesystems.fs b l args
  run_fxn Fxn.swap l args = Disks.swap b l args
  run_fxn Fxn.mdadm l args = Passing.mdadm b args
  run_fxn Fxn.dm l args = Passing.dm b args
  run_fxn Fxn.zpool l args = Passing.zpool b args
  run_fxn Fxn.zfs l args = Passing.zfs b args
  run_fxn Fxn.target l args = General.target b l args
  run_fxn Fxn.map l args = Filesystems.map b l args
  run_fxn Fxn.unmap l args = Filesystems.unmap b l args
  run_fxn Fxn.stats l args = General.stats b args
  run_fxn Fxn.mounts l args = Filesystems.mounts b args
  run_fxn Fxn.uefiboot l args = General.uefiboot b args
  run_fxn Fxn.biosboot l args = General.biosboot b args
  run_fxn Fxn.diags l args = General.diags b l args
  run_fxn Fxn.grubmap l args = General.grubmap b args
  run_fxn Fxn.benchmark l args = Disks.benchmark b l args
  run_fxn Fxn.troubleshoot l args = General.troubleshoot b args
  run_fxn Fxn.version l args = General.version b args
  run_fxn Fxn.help l args = help_with args
  run_fxn Fxn.quit l args = General.quit b args

  -- The handler of an entry, or the message that the command is unknown.
  abbrev pub run_entry : Locale → List Text → Option (Text × Fxn) → Done W
  run_entry l args none = usage b
  run_entry l args (some e) = run_fxn e.1 l args

  -- The first word picks the handler, without regard to case.
  unfoldable pub dispatch : Locale → (cmd : Text) → List Text → Done W
  unfolding find_fxn fxns wcscase_eq
  dispatch l cmd args = run_entry l args (find_fxn (λ n. wcscase_eq l n cmd) fxns)

  -- The world, and whether the prompt shows a failure.
  pub record Session : Type ℓ where
    pub world : W
    pub failed : Bool

  abbrev pub is_none : Option (Unit {0}) → Bool
  is_none none = true
  is_none (some u) = false

  -- One line: where it goes on, and whether the loop is left. `none` is a walk behind the end of an array.
  unfoldable pub run_line : Locale → Text → Session → Option (Session × Bool)
  unfolding tokenize dispatch
  run_line l line s = elim (tokenize l line) [
    | none ↦ none
    | some t ↦ elim t [
      | Tokens.refused ↦ some (s, false)
      | Tokens.overrun ↦ none
      | Tokens.tokens ts ↦ elim ts [
        | [] ↦ some (s, false)
        | cmd ∷ args ↦
            let (r, w) = dispatch l cmd args s.world in
            some (record { world = w; failed = is_none r }, b.lights_off w)
      ]
    ]
  ]

  -- The lines are read until the lights are off or the input ends.
  unfoldable pub tty_ui : Locale → List Text → Session → Option Session
  unfolding run_line
  tty_ui l [] s = some s
  tty_ui l (line ∷ lines) s = elim (run_line l line s) [
    | none ↦ none
    | some r ↦ if r.1 then some r.0 else tty_ui l lines r.0
  ]
