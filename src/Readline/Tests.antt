-- ===== src/Readline/Tests.antt =====
-- Runs of the line-mode interface in a one-byte locale, against a program that only takes notes.
use growlight.Prelude.{
  ℕ, ◌+◌, ◌<◌, ◌≤◌, ◌≡◌, refl, Bool, true, false, ◌&&◌, none, some, List, [], ◌∷◌, ◌++◌, arith, leb,
  length, if◌then◌else◌,
}
use growlight.Text.{Text, codes, is_space, is_graph}
use growlight.Text.Words.{passes_sound}
use growlight.Text.Numbers.{print_nat}
use growlight.Popen.{Conversion, Shell}
use growlight.Fs.{make_filesystem}
use growlight.Device.{Layout}
use growlight.Devices.Tests.{sda1}
use growlight.Readline.{Locale, Backend, Call, lookup_wdevice}
use growlight.Readline.Numbers.{extract_partition_spec}
use growlight.Readline.Tokens.{Tokens, tokenize}
use growlight.Readline.Ranges.{extract_partition_spec_cases}
use growlight.Readline.Rounds.{IsAscii, is_bare, tokenize-spaced}
use growlight.Readline.Lexing.{IsAnswer, has_trouble, tokenize-Nonempty}
use growlight.Readline.Quotes.{is_quotable, tokenize-make_filesystem}
use growlight.Readline.Commands.{tty_ui-quit}
use growlight.Readline.Session.{Session, tty_ui}
use growlight.Readline.Refused.{partition-add}
use growlight.Readline.Scope.{Concerns}
use growlight.Readline.Handlers.Parts.{partition}

abbrev read_byte : Text → Conversion
read_byte [] = Conversion.ended
read_byte (c ∷ s) = Conversion.char c 1

abbrev ascii : Locale
ascii = record {
  mbrtowc = read_byte;
  iswspace = is_space;
  iswgraph = is_graph;
  towlower = λ c. if leb 65 c && leb c 90 then c + 32 else c;
  narrow = λ s. s;
}

ascii-IsAscii : IsAscii ascii
ascii-IsAscii = record {
  single = record { at_end = refl; at_byte = λ c s h. refl };
  spaces = λ c h. refl;
  graphs = λ c h. refl;
}

-- The calls, the last one first, and whether the lights are off.
record Notes : Type 0 where
  calls : List Call
  off : Bool

abbrev notes : Notes
notes = record { calls = []; off = false }

abbrev console : Backend Notes
console = record {
  call = λ c w. (false, record w { calls = c ∷ w.calls });
  complain = λ w. w;
  lookup_controller = λ n w. (some n, w);
  lookup_device = λ n w. (some n, w);
  get_controllers = λ w. [];
  is_virtual = λ c. false;
  growlight_target = λ w. none;
  layout_of = λ d w. Layout.layout_none;
  is_nvme = λ d w. false;
  uninit = 0;
  lights_off = λ w. w.off;
  set_lights_off = λ w. record w { off = true };
  lights_off-set_lights_off = λ w. refl;
}

abbrev sh : Shell
sh = record { mbrtowc = read_byte; run = λ cmd. false }

extract_partition_spec_cases_example :
    (extract_partition_spec ascii (print_nat 2048)
      ≡ some (record { size = some 2048; fsec = none; lsec = none }))
    × (extract_partition_spec ascii (b':' ∷ print_nat 2048)
        ≡ some (record { size = none; fsec = none; lsec = some 2048 }))
    × (extract_partition_spec ascii (print_nat 2048 ++ b':' ∷ codes "4096") ≡ none)
unfolding print_nat
extract_partition_spec_cases_example =
    extract_partition_spec_cases ascii 2048 (codes "4096") (λ s. refl) (omega arith) (omega arith)
      (omega arith)

tokenize-spaced_example :
    tokenize ascii (codes "swap on sda2")
    ≡ some (Tokens.tokens (codes "swap" ∷ codes "on" ∷ codes "sda2" ∷ []))
unfolding is_bare is_graph
tokenize-spaced_example =
    tokenize-spaced ascii (codes "swap") (codes "on" ∷ codes "sda2" ∷ []) ascii-IsAscii
      (passes_sound is_bare (codes "swap") refl, λ e. ground arith)
      (
        (passes_sound is_bare (codes "on") refl, λ e. ground arith),
        ((passes_sound is_bare (codes "sda2") refl, λ e. ground arith), tt),
      )

read_byte_lem :
    (s : Text) (w conv : ℕ) → read_byte s ≡ Conversion.char w conv → (0 < conv) × (conv ≤ length s)
read_byte_lem [] w conv e = cc
read_byte_lem (c ∷ s) w conv e = ground arith

tokenize-Nonempty_example :
    (t : Tokens) × (tokenize ascii (codes " fs a b") ≡ some t)
    × IsAnswer (has_trouble ascii 8 (codes " fs a b")) t
tokenize-Nonempty_example =
    tokenize-Nonempty ascii (codes " fs a b") (λ s w conv e. read_byte_lem s w conv e)

-- A quote that is not closed: behind a word the array of the words is walked without an end.
open_quote : tokenize ascii (codes "\"a b") ≡ some Tokens.refused
unfolding tokenize is_graph is_space
open_quote = refl

open_quote_overrun : tokenize ascii (codes "fs \"a b") ≡ some Tokens.overrun
unfolding tokenize is_graph is_space
open_quote_overrun = refl

tokenize-make_filesystem_example :
    (tokenize ascii (codes "\"a b\"") ≡ some (Tokens.tokens (codes "\"a b\"" ∷ [])))
    × (make_filesystem sh (λ s. false) sda1 true (codes "ext4") (some (codes "\"a b\""))
        ≡ ((true, sda1), []))
unfolding is_quotable is_graph is_space
tokenize-make_filesystem_example =
    tokenize-make_filesystem ascii (codes "a b") sh (λ s. false) sda1 true (codes "ext4")
      ascii-IsAscii (passes_sound is_quotable (codes "a b") refl)

abbrev start : Session console
start = record { world = notes; failed = false }

tty_ui-quit_example :
    tty_ui console ascii (codes "stats" ∷ codes "quit" ∷ codes "swap off sda2" ∷ []) start
    ≡ tty_ui console ascii (codes "stats" ∷ codes "quit" ∷ []) start
tty_ui-quit_example =
    tty_ui-quit console ascii (codes "stats" ∷ []) (codes "swap off sda2" ∷ []) start ascii-IsAscii
      (λ c h. ground arith)

partition-add_example :
    partition console ascii
      (codes "add" ∷ codes "sda" ∷ codes "2048:4095" ∷ codes "root" ∷ codes "8300" ∷ [])
      notes
    ≡ (none, (lookup_wdevice console ascii (codes "sda") notes).1)
unfolding print_nat
partition-add_example =
    partition-add console ascii (codes "sda") (codes "root") (codes "8300") (codes "4095") 2048
      notes (λ s. refl) (omega arith) (omega arith) (omega arith)

-- The calls so far are for one device.
abbrev AllFor : Text → List Call → Type 0
AllFor d [] = Unit
AllFor d (c ∷ cs) = Concerns d c × AllFor d cs
