-- ===== src/Logs/Recent.antt =====
-- What the ring stands for: the list of all messages, the newest first, of which it keeps 1024.
use growlight.Prelude.{
  ℕ, zero, suc, ◌+◌, ◌-◌, ◌%◌, ◌≤◌, ◌<◌, ◌≡◌, ◌≢◌, refl, ap, ◌∙◌, ◌⊎◌, inl, inr, ◌||◌, ltb, leb,
  Bool-cases, leb_sound, leb-false, true, false, Option, none, some, List, [], ◌∷◌, ◌==◌,
  if◌then◌else◌, arith, get_elem?, take,
}
use growlight.Logs.{LogEntry, Logs, no_logs, add_log, collect, get_logs}

-- Going back from `rb`, the ring holds the first `k` of these messages.
abbrev pub IsWindow : Logs → (rb k : ℕ) → List LogEntry → Type 0
IsWindow l rb k h = (j : ℕ) → j < k → l.entries ((rb + 1024 - j) % 1024) ≡ get_elem? h j

-- The ring of a history.
pub record Shows (l : Logs) (h : List LogEntry) : Type 0 where
  pub within : l.rblast < 1024
  pub window : IsWindow l l.rblast 1024 h

abbrev pub next : ℕ → ℕ
next r = if r + 1 == 1024 then 0 else r + 1

next_zero : (r : ℕ) → r < 1024 → (next r + 1024 - 0) % 1024 ≡ next r
next_zero r h = ground arith

next-suc :
    (r j : ℕ) → r < 1024 → suc j < 1024 → (next r + 1024 - suc j) % 1024 ≡ (r + 1024 - j) % 1024
next-suc r j h k = ground arith

next_other : (r j : ℕ) → r < 1024 → suc j < 1024 → (next r + 1024 - suc j) % 1024 ≢ next r
next_other r j h k = ground arith

add_log-new :
    (e : LogEntry) (l : Logs) (i : ℕ) → i ≡ next l.rblast → (add_log e l).entries i ≡ some e
unfolding add_log
add_log-new e l i h = ground (arith, h)

add_log-old :
    (e : LogEntry) (l : Logs) (i : ℕ) → i ≢ next l.rblast → (add_log e l).entries i ≡ l.entries i
unfolding add_log
add_log-old e l i h = ground (arith, h)

add_log-rblast : (e : LogEntry) (l : Logs) → (add_log e l).rblast ≡ next l.rblast
unfolding add_log
add_log-rblast e l = refl

pub no_logs-Shows : Shows no_logs []
no_logs-Shows = record { within = omega arith; window = λ j p. refl }

-- A new message goes in front of the history.
pub add_log-Shows :
    (e : LogEntry) (l : Logs) (h : List LogEntry) → Shows l h → Shows (add_log e l) (e ∷ h)
unfolding add_log
add_log-Shows e l h s = record { within = ground (arith, s.within); window = λ j p. older j p }
  where
    older :
        (j : ℕ)
        → j < 1024
        → (add_log e l).entries ((next l.rblast + 1024 - j) % 1024) ≡ get_elem? (e ∷ h) j
    older zero p = add_log-new e l _ (next_zero l.rblast s.within)
    older (suc j) p =
        add_log-old e l _ (next_other l.rblast j s.within p)
        ∙ ap l.entries (next-suc l.rblast j s.within p)
        ∙ s.window j (omega arith)

abbrev pub prev : ℕ → ℕ
prev r = if r == 0 then 1023 else r - 1

prev_at :
    (r j : ℕ) → r < 1024 → suc j < 1025 → (prev r + 1024 - j) % 1024 ≡ (r + 1024 - suc j) % 1024
prev_at r j h k = ground arith

collect-none : (l : Logs) (k rb : ℕ) → l.entries rb ≡ none → collect l (suc k) rb ≡ []
unfolding collect
collect-none l k rb e = rw (collect, e) refl

collect-some :
    (l : Logs) (k rb : ℕ) (e : LogEntry)
    → l.entries rb ≡ some e
    → collect l (suc k) rb ≡ e ∷ collect l k (prev rb)
unfolding collect
collect-some l k rb e h = rw (collect, h) refl

collect_step :
    (l : Logs) (k rb : ℕ) (h : List LogEntry)
    → rb < 1024
    → suc k ≤ 1024
    → IsWindow l rb (suc k) h
    → ((t : List LogEntry) → IsWindow l (prev rb) k t → collect l k (prev rb) ≡ take k t)
    → collect l (suc k) rb ≡ take (suc k) h
collect_step l k rb [] low high w ih =
    collect-none l k rb (ap l.entries (omega arith) ∙ w 0 (omega arith))
collect_step l k rb (e ∷ h) low high w ih =
    collect-some l k rb e (ap l.entries (omega arith) ∙ w 0 (omega arith))
    ∙ ap (λ t. e ∷ t)
        (ih h (λ j p. ap l.entries (prev_at rb j low (omega arith)) ∙ w (suc j) (omega arith)))

collect_lem :
    (l : Logs) (k rb : ℕ) (h : List LogEntry)
    → rb < 1024
    → k ≤ 1024
    → IsWindow l rb k h
    → collect l k rb ≡ take k h
unfolding collect
collect_lem l zero rb h low high w = refl
collect_lem l (suc k) rb h low high w =
    collect_step l k rb h low high w
      (λ t v. collect_lem l k (prev rb) t (ground arith) (omega arith) v)

-- All messages of a run, the oldest first, from the empty ring.
abbrev pub add_all : List LogEntry → Logs → Logs
add_all [] l = l
add_all (e ∷ es) l = add_all es (add_log e l)

abbrev pub reverse_onto : List LogEntry → List LogEntry → List LogEntry
reverse_onto [] h = h
reverse_onto (e ∷ es) h = reverse_onto es (e ∷ h)

add_all-Shows :
    (es : List LogEntry) (l : Logs) (h : List LogEntry)
    → Shows l h
    → Shows (add_all es l) (reverse_onto es h)
add_all-Shows [] l h s = s
add_all-Shows (e ∷ es) l h s = add_all-Shows es (add_log e l) (e ∷ h) (add_log-Shows e l h s)

-- What a request for n messages promises.
abbrev pub last_logs : List LogEntry → ℕ → Option (List LogEntry)
last_logs h n = if n == 0 || ltb 1024 n then none else some (take n h)

get_logs-Shows :
    (l : Logs) (h : List LogEntry) (n : ℕ)
    → n ≤ 1024
    → collect l n l.rblast ≡ take n h
    → get_logs l n ≡ last_logs h n
unfolding get_logs
get_logs-Shows l h n p e = ground (arith, e)

get_logs-high : (l : Logs) (h : List LogEntry) (n : ℕ) → 1024 < n → get_logs l n ≡ last_logs h n
unfolding get_logs
get_logs-high l h n p = ground arith

get_logs_lem : (l : Logs) (h : List LogEntry) (n : ℕ) → Shows l h → get_logs l n ≡ last_logs h n
get_logs_lem l h n s = by_size (Bool-cases (leb n 1024))
  where
    by_size : (leb n 1024 ≡ true) ⊎ (leb n 1024 ≡ false) → get_logs l n ≡ last_logs h n
    by_size (inl p) = get_logs-Shows l h n (leb_sound n 1024 p) (
        collect_lem l n l.rblast h s.within (leb_sound n 1024 p)
          (λ j q. s.window j (omega (arith, leb_sound n 1024 p))))
    by_size (inr p) = get_logs-high l h n (leb-false n 1024 p)

-- The ring implements the list of all messages: after any sequence of messages into the empty ring, a
-- request for n of them, n from 1 to 1024, gives the last n, the newest first (all of them if there are
-- fewer), and any other request is refused.
pub get_logs-add_all :
    (es : List LogEntry) (n : ℕ)
    → get_logs (add_all es no_logs) n ≡ last_logs (reverse_onto es []) n
get_logs-add_all es n =
    get_logs_lem (add_all es no_logs) (reverse_onto es []) n
      (add_all-Shows es no_logs [] no_logs-Shows)
