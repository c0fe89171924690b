-- ===== src/TcpClient/Tests.antt =====
-- The game client on concrete runs.
use game_lift.Prelude.{
  ℕ, ◌*◌, ◌≤◌, ◌≡◌, refl, true, some, [], ◌∷◌, arith, length, length-replicate, replicate, take,
}
use game_lift.Packet.{move_reply, encode_server, move_result}
use game_lift.TcpClient.{buf_size, new_client, sent, socket_error, send}
use game_lift.TcpClient.Sending.{send-IsPart, send_short}
use game_lift.TcpClient.Stream.{Shown, network_thread-stream}

send-IsPart_example :
    let s = send (sent 2 ∷ sent 1 ∷ socket_error ∷ []) (1 ∷ 2 ∷ 3 ∷ 4 ∷ 5 ∷ 6 ∷ 7 ∷ []) in
    (s.wire ≡ take (length s.wire) (1 ∷ 2 ∷ 3 ∷ 4 ∷ 5 ∷ 6 ∷ 7 ∷ []))
    × (length s.wire ≤ 7)
    × (s.answer ≡ some true → 7 ≤ 2 * length s.wire)
send-IsPart_example =
    send-IsPart (sent 2 ∷ sent 1 ∷ socket_error ∷ []) (1 ∷ 2 ∷ 3 ∷ 4 ∷ 5 ∷ 6 ∷ 7 ∷ [])

send_short_example :
    ((send (sent 2 ∷ sent 1 ∷ []) (1 ∷ 2 ∷ 3 ∷ [])).answer ≡ some true)
    × ((send (sent 2 ∷ sent 1 ∷ []) (1 ∷ 2 ∷ 3 ∷ [])).wire ≡ 1 ∷ 2 ∷ [])
send_short_example = send_short 2 (sent 1 ∷ []) (1 ∷ 2 ∷ 3 ∷ []) (omega arith) (omega arith)

-- A move in two pieces, of which the last byte is still to come.
network_thread-stream_example :
    Shown
      ((16 ∷ 0 ∷ 22 ∷ []) ∷ [] ∷ (0 ∷ replicate 11 7) ∷ [])
      (7 ∷ [])
      (new_client (replicate buf_size 0))
      (move_reply (replicate 12 7) ∷ [])
unfolding encode_server move_result
network_thread-stream_example =
    network_thread-stream ((16 ∷ 0 ∷ 22 ∷ []) ∷ [] ∷ (0 ∷ replicate 11 7) ∷ []) (7 ∷ [])
      (replicate buf_size 0) (move_reply (replicate 12 7) ∷ [])
      (length-replicate buf_size (let z : ℕ = 0 in z))
      (omega arith, (omega arith, (omega arith, tt))) (refl, tt) refl
