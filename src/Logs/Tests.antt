-- ===== src/Logs/Tests.antt =====
-- Runs of the ring of diagnostics.
use growlight.Prelude.{◌≡◌, some, List, [], ◌∷◌}
use growlight.Logs.{LogEntry, no_logs, get_logs}
use growlight.Logs.Recent.{add_all, get_logs-add_all}

abbrev three_logs : List LogEntry
three_logs =
    record { msg = 97 ∷ []; when = 1 }
    ∷ record { msg = 98 ∷ []; when = 2 }
    ∷ record { msg = 99 ∷ []; when = 2 }
    ∷ []

get_logs-add_all_example :
    get_logs (add_all three_logs no_logs) 2
    ≡ some (record { msg = 99 ∷ []; when = 2 } ∷ record { msg = 98 ∷ []; when = 2 } ∷ [])
get_logs-add_all_example = get_logs-add_all three_logs 2
