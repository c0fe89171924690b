-- ===== src/EventLog/Recent.antt =====
-- A dump has the last events, the newest first.
use game_lift.Prelude.{
  ℕ, zero, suc, ◌+◌, ◌-◌, ◌%◌, ◌≤◌, ◌<◌, min, ◌≡◌, refl, ap, sym, ltb, ap₂, ◌∙◌, List, [], ◌∷◌,
  ◌++◌, if◌then◌else◌, arith, length, take, length-take, take-take, subst, append-nil, append_assoc,
}
use mathlib.Core.List.{reverse, reverse-append}
use game_lift.EventLog.{
  LogEvent, EventLogger, new_log, event_log, event_log_all, dump_from, event_log_dump_out,
  max_log_size,
}

-- The events of a history, the newest first, lie where a dump looks for them.
Holds : EventLogger → ℕ → List LogEvent → Type 0
Holds s i [] = Unit {0}
Holds s i (e ∷ es) =
    (s.log_events ((s.current_log_index - i) % max_log_size) ≡ e) × Holds s (i + 1) es

-- What is written does not touch the events that are younger than a round.
Holds-event_log :
    (e : LogEvent) (s : EventLogger) (i : ℕ) (es : List LogEvent)
    → 0 < i
    → i + length es ≤ s.current_log_index + 1
    → i + length es ≤ max_log_size
    → Holds s i es
    → Holds (event_log e s) (i + 1) es
unfolding Holds event_log
Holds-event_log e s i [] p h k old = tt
Holds-event_log e s i (x ∷ es) p h k old = (
  ground (arith, old.0),
  Holds-event_log e s (i + 1) es (omega arith) (omega arith) (omega arith) old.1,
)

Holds-take : (s : EventLogger) (k i : ℕ) (es : List LogEvent) → Holds s i es → Holds s i (take k es)
unfolding Holds
Holds-take s zero i es h = tt
Holds-take s (suc k) i [] h = tt
Holds-take s (suc k) i (e ∷ es) h = (h.0, Holds-take s k (i + 1) es h.1)

-- The log after a history, whose newest event comes first.
record IsRecent (s : EventLogger) (h : List LogEvent) : Type 0 where
  counted : s.current_log_index ≡ length h
  held : Holds s 1 (take max_log_size h)

event_log-count :
    (e : LogEvent) (s : EventLogger) → (event_log e s).current_log_index ≡ s.current_log_index + 1
unfolding event_log
event_log-count e s = refl

event_log-newest :
    (e : LogEvent) (s : EventLogger)
    → (event_log e s).log_events (((event_log e s).current_log_index - 1) % max_log_size) ≡ e
unfolding event_log
event_log-newest e s = ground arith

new_log-IsRecent : (storage : ℕ → LogEvent) → IsRecent (new_log storage) []
unfolding new_log Holds
new_log-IsRecent storage = record { counted = refl; held = tt }

event_log-IsRecent :
    (e : LogEvent) (s : EventLogger) (h : List LogEvent)
    → IsRecent s h
    → IsRecent (event_log e s) (e ∷ h)
unfolding Holds
event_log-IsRecent e s h r = record {
  counted = event_log-count e s ∙ omega (arith, r.counted);
  held = (
    event_log-newest e s,
    Holds-event_log e s 1 (take 65535 h) (omega arith)
        (omega (arith, r.counted, length-take 65535 h)) (omega (arith, length-take 65535 h))
        (subst (Holds s 1) (take-take 65535 65536 h (omega arith))
          (Holds-take s 65535 1 (take 65536 h) r.held)),
  );
}

event_log_all-IsRecent :
    (es : List LogEvent) (s : EventLogger) (h : List LogEvent)
    → IsRecent s h
    → IsRecent (event_log_all es s) (reverse es ++ h)
unfolding event_log_all
event_log_all-IsRecent [] s h r = r
event_log_all-IsRecent (e ∷ es) s h r =
    subst (IsRecent (event_log_all es (event_log e s)))
      (sym (append_assoc (reverse es) (e ∷ []) h)
        ∙ ap (λ xs. xs ++ h) (sym (reverse-append (e ∷ []) es)))
      (event_log_all-IsRecent es (event_log e s) (e ∷ h) (event_log-IsRecent e s h r))

dump_from-Holds :
    (s : EventLogger) (i : ℕ) (es : List LogEvent) → Holds s i es → dump_from s i (length es) ≡ es
unfolding dump_from Holds
dump_from-Holds s i [] h = refl
dump_from-Holds s i (e ∷ es) h = ap₂ (◌∷◌) h.0 (dump_from-Holds s (i + 1) es h.1)

count-eq-min : (n : ℕ) → (if ltb n max_log_size then n else max_log_size) ≡ min max_log_size n
count-eq-min n = ground arith

dump-IsRecent :
    (s : EventLogger) (h : List LogEvent)
    → IsRecent s h
    → event_log_dump_out s ≡ take max_log_size h
unfolding event_log_dump_out
dump-IsRecent s h r =
    ap (dump_from s 1) (
      count-eq-min s.current_log_index
      ∙ ap (min max_log_size) r.counted
      ∙ sym (length-take max_log_size h))
    ∙ dump_from-Holds s 1 (take max_log_size h) r.held

-- Whatever was in the array before, a dump prints the last 65536 events of any history, or all if
-- there are fewer, each once, the newest first.
pub event_log_dump_out-recent :
    (es : List LogEvent) (storage : ℕ → LogEvent)
    → event_log_dump_out (event_log_all es (new_log storage)) ≡ take max_log_size (reverse es)
event_log_dump_out-recent es storage =
    dump-IsRecent (event_log_all es (new_log storage)) (reverse es ++ [])
      (event_log_all-IsRecent es (new_log storage) [] (new_log-IsRecent storage))
    ∙ ap (take max_log_size) (append-nil (reverse es))
