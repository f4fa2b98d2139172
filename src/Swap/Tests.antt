-- ===== src/Swap/Tests.antt =====
-- Runs on swaps.
use growlight.Prelude.{◌≡◌, refl, false, some, List, arith}
use growlight.Text.{codes, text_eq, is_graph, is_space}
use growlight.Text.Words.{word_sound, passes_sound}
use growlight.Device.{Device}
use growlight.Devices.{Controller, find_device, lookup_device, prefix_size, strip_prefix}
use growlight.Devices.Tests.{sda2, tables, find_nothing}
use growlight.Popen.{Shell, Conversion}
use growlight.Swap.Lines.{swap_line}
use growlight.Swap.Lines.Read.{HasSwap, print_swap, swap_line-print_swap}

-- A shell in which every command succeeds.
abbrev shell : Shell
shell = record { mbrtowc = λ s. Conversion.ended; run = λ c. false }

swap_line-print_swap_example :
    (cs' : List Controller) × (swap_line find_nothing
        (print_swap (codes "/dev/sda2") (codes "   ") (codes "partition") 2048 (codes "0\t-2"))
        tables
      ≡ some (false, cs'))
    × ((d' : Device) × (find_device (codes "sda2") cs' ≡ some d') × HasSwap 2048 sda2 d')
unfolding is_graph is_space text_eq lookup_device find_device strip_prefix prefix_size
swap_line-print_swap_example =
    swap_line-print_swap find_nothing (codes "/dev/sda2") (codes "   ") (codes "partition")
      (codes "0\t-2") 2048 tables sda2 (passes_sound is_graph (codes "/dev/sda2") refl)
      (passes_sound is_space (codes "   ") refl) (word_sound _ _ refl) refl refl refl (omega arith)
      (omega arith)
