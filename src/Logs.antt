-- ===== src/Logs.antt =====
-- The ring of the last diagnostics in src/growlight.c: `add_log` and `get_logs`. The lock is held over
-- each, so that they run one after the other. A failed allocation is left out.
pub mod Recent
mod Tests
use growlight.Prelude.{
  ℕ, zero, suc, ◌+◌, ◌-◌, Bool, true, false, ◌||◌, Option, none, some, List, [], ◌∷◌, ltb, ◌==◌,
  if◌then◌else◌,
}
use growlight.Text.{Text}

abbrev pub maximum_log_entries : ℕ
maximum_log_entries = 1024

-- `logent`
pub record LogEntry : Type 0 where
  pub msg : Text
  pub when : ℕ

-- `rblast` and `logs`, whose entries without a message are `none`.
pub record Logs : Type 0 where
  pub rblast : ℕ
  pub entries : ℕ → Option LogEntry

abbrev pub no_logs : Logs
no_logs = record { rblast = 0; entries = λ i. none }

unfoldable pub add_log : LogEntry → Logs → Logs
add_log e l =
    let rb = if l.rblast + 1 == maximum_log_entries then 0 else l.rblast + 1 in
    record { rblast = rb; entries = λ i. if i == rb then some e else l.entries i }

-- The loop from position `rb` on, with `k` entries still wanted.
unfoldable pub collect : Logs → (k rb : ℕ) → List LogEntry
collect l zero rb = []
collect l (suc k) rb =
    let rest = collect l k (if rb == 0 then maximum_log_entries - 1 else rb - 1) in
    elim (l.entries rb) [ none ↦ [] | some e ↦ e ∷ rest ]

-- The messages that are copied, of which the source returns the count.
unfoldable pub get_logs : Logs → ℕ → Option (List LogEntry)
unfolding collect
get_logs l n = if n == 0 || ltb maximum_log_entries n then none else some (collect l n l.rblast)
