-- ===== src/Server/Broadcast.antt =====
-- `GameLiftManager::BroadcastMessage`.
use game_lift.Prelude.{ℕ, true, false, List, [], ◌∷◌}
use game_lift.Server.State.{World, Services, Result, ok, fault, dead_iterator, member}
use game_lift.Server.Session.{send_or_disconnect}

module _ (env : Services) (pkt : List ℕ) where
  -- One turn of the loop.
  abbrev pub broadcast_to : World → ℕ → World
  broadcast_to w s = send_or_disconnect env w s pkt

  -- The range-for: if the turn erased the element that the iterator stands at, the step to the
  -- next one is undefined.
  unfoldable pub broadcast_from : World → List ℕ → Result World
  unfolding send_or_disconnect
  broadcast_from w [] = ok w
  broadcast_from w (s ∷ rest) =
      let w' = broadcast_to w s in
      elim (member s w'.manager.player_sessions) [
        | true ↦ broadcast_from w' rest
        | false ↦ fault dead_iterator
      ]

  unfoldable pub broadcast_message : World → Result World
  unfolding broadcast_from
  broadcast_message w = broadcast_from w w.manager.player_sessions
