-- ===== src/Fs/Tests.antt =====
-- Runs of making a file system, and of the commands for the shell.
use growlight.Prelude.{◌≡◌, refl, true, false, none, some, [], ◌∷◌, arith, inl}
use growlight.Prelude.Maybe.{◌>>=◌}
use growlight.Text.{Text, codes}
use growlight.Device.{Device, Layout}
use growlight.Devices.Tests.{sda, sda1, sda2}
use growlight.Popen.{Shell, Conversion, sanitize_cmd}
use growlight.Popen.Escape.{SingleByte, IsPlain, marked, exposed, sanitize_cmd-exposed}
use growlight.Fs.{make_filesystem}
use growlight.Fs.Made.{
  made, make_filesystem-Leaves, make_filesystem_guarded, make_filesystem-striped,
}

-- A conversion of single bytes.
abbrev ascii : Text → Conversion
ascii [] = Conversion.ended
ascii (c ∷ s) = Conversion.char c 1

ascii-SingleByte : SingleByte ascii
ascii-SingleByte = record { at_end = refl; at_byte = λ c s h. refl }

-- A shell in which every command fails.
abbrev broken_shell : Shell
broken_shell = record { mbrtowc = ascii; run = λ c. true }

abbrev array : Device
array = record sda { name = codes "md0"; layout = Layout.layout_mdadm; stride = 16; swidth = 48 }

make_filesystem-striped_example :
    (make_filesystem broken_shell (λ p. false) array true (codes "ext4") none).0
    ≡ (false, record array { mnttype = some (codes "ext4") })
make_filesystem-striped_example =
    make_filesystem-striped broken_shell (λ p. false) array true none refl refl refl refl refl refl
      refl

make_filesystem_guarded_example :
    make_filesystem broken_shell (λ p. false) sda1 true (codes "ext4") none ≡ ((true, sda1), [])
make_filesystem_guarded_example =
    make_filesystem_guarded broken_shell (λ p. false) sda1 true (codes "ext4") none (inl refl)

make_filesystem-Leaves_example :
    (make_filesystem broken_shell (λ p. false) sda2 true (codes "xfs") none).0.1
    ≡ made
        (codes "xfs")
        sda2
        (make_filesystem broken_shell (λ p. false) sda2 true (codes "xfs") none).0.0
make_filesystem-Leaves_example =
    make_filesystem-Leaves broken_shell (λ p. false) sda2 true (codes "xfs") none

abbrev command : Text
command = codes "a ($b) \"c(d)\""

command-IsPlain : IsPlain command
command-IsPlain = omega arith

-- The shell reads a(b) as a\(b\), where it stands in quotes.
label_marked : marked false (codes "mkfs -L \"a(b)\"") ≡ codes "mkfs -L a\\(b\\)"
label_marked = refl

sanitize_cmd-exposed_example :
    (sanitize_cmd ascii command >>= λ t. some (exposed false t)) ≡ some false
sanitize_cmd-exposed_example = sanitize_cmd-exposed ascii command ascii-SingleByte command-IsPlain
