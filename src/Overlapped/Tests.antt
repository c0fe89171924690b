-- ===== src/Overlapped/Tests.antt =====
-- Runs of a session that sends.
use game_lift.Prelude.{◌≡◌, refl, true, false, List, [], ◌∷◌, arith, replicate}
use game_lift.Server.State.{ok}
use game_lift.Overlapped.{
  dr_active, Session, new_session, on_connect, Act, post, post_late, completion, close, act_all,
}
use game_lift.Overlapped.Flight.{IsSending}
use game_lift.Overlapped.Sending.{act_all-IsSending}

-- Two packets; the first is sent in part; then the session is closed, and a late packet comes.
abbrev acts : List Act
acts =
    post true (1 ∷ 2 ∷ 3 ∷ [])
    ∷ post true (4 ∷ 5 ∷ [])
    ∷ completion true true 2
    ∷ completion true true 9
    ∷ close dr_active
    ∷ post_late false (6 ∷ [])
    ∷ completion false false 0
    ∷ []

act_all-IsSending_example :
    (s : Session) × (act_all acts (on_connect (new_session (replicate 8 0) 8)) ≡ ok s) × IsSending s
act_all-IsSending_example = act_all-IsSending acts (replicate 8 0) 8 refl (omega arith)
