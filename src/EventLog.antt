-- ===== src/EventLog.antt =====
-- GameLiftGameServer/GameLiftGameServer/Log.h and .cpp: the events of the program, of which the last
-- ones are kept in an array that is written round and round.
pub mod Recent
mod Tests
use game_lift.Prelude.{ℕ, zero, suc, ◌+◌, ◌-◌, ◌%◌, List, [], ◌∷◌, ◌==◌, ltb, if◌then◌else◌}

-- `MAX_LOG_SIZE`
abbrev pub max_log_size : ℕ
max_log_size = 65536

-- `struct LogEvent`; a message is named by a number.
pub record LogEvent : Type 0 where
  pub thread_id : ℕ
  pub additional_info : ℕ
  pub message : ℕ

-- `gLogEvents` and `gCurrentLogIndex`.
pub record EventLogger : Type 0 where
  pub log_events : ℕ → LogEvent
  pub current_log_index : ℕ

-- Before any event; what the array holds is not looked at.
unfoldable pub new_log : (ℕ → LogEvent) → EventLogger
new_log storage = record { log_events = storage; current_log_index = 0 }

-- `EventLog`, by a thread. The index is a count of events, which stays far below 2 ^ 63.
unfoldable pub event_log : LogEvent → EventLogger → EventLogger
event_log e s = record {
  log_events = λ i. if i == s.current_log_index % max_log_size then e else s.log_events i;
  current_log_index = s.current_log_index + 1;
}

unfoldable pub event_log_all : List LogEvent → EventLogger → EventLogger
unfolding event_log
event_log_all [] s = s
event_log_all (e ∷ es) s = event_log_all es (event_log e s)

-- The loop of `EventLogDumpOut`: `left` more events, from the one at `i` before the index.
unfoldable pub dump_from : EventLogger → ℕ → ℕ → List LogEvent
dump_from s i zero = []
dump_from s i (suc left) =
    s.log_events ((s.current_log_index - i) % max_log_size) ∷ dump_from s (i + 1) left

-- `EventLogDumpOut`: the events that it prints.
unfoldable pub event_log_dump_out : EventLogger → List LogEvent
unfolding dump_from
event_log_dump_out s =
    dump_from s 1
      (if ltb s.current_log_index max_log_size then s.current_log_index else max_log_size)
