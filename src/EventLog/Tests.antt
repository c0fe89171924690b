-- ===== src/EventLog/Tests.antt =====
-- A log of two events.
use game_lift.Prelude.{ℕ, ◌≡◌, refl, [], ◌∷◌, take}
use mathlib.Core.List.{reverse}
use game_lift.EventLog.{LogEvent, new_log, event_log_all, event_log_dump_out, max_log_size}
use game_lift.EventLog.Recent.{event_log_dump_out-recent}

-- An event of thread 3.
abbrev event : ℕ → LogEvent
event n = record { thread_id = 3; additional_info = n; message = 0 }

two_events :
    event_log_dump_out (event_log_all (event 5 ∷ event 6 ∷ []) (new_log event))
    ≡ event 6 ∷ event 5 ∷ []
unfolding event_log_dump_out event_log_all new_log
two_events = refl

event_log_dump_out-recent_example :
    event_log_dump_out (event_log_all (event 5 ∷ event 6 ∷ []) (new_log event))
    ≡ take max_log_size (reverse (event 5 ∷ event 6 ∷ []))
event_log_dump_out-recent_example = event_log_dump_out-recent (event 5 ∷ event 6 ∷ []) event
