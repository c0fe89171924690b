-- ===== src/TcpClient/Stream.antt =====
-- The packets of the server reach the client as a stream of bytes, cut anywhere: each complete packet
-- is shown once, in order.
use game_lift.Prelude.{
  ℕ, ◌≤◌, ◌≡◌, refl, sym, ap, subst, ◌∙◌, inl, List, [], ◌∷◌, ◌++◌, append_assoc, arith, length,
}
use game_lift.Buffer.{init}
use game_lift.Buffer.Inv.{contents, init-IsValid}
use game_lift.Buffer.Half.{init-IsHalf}
use game_lift.Packet.{ServerPacket}
use game_lift.Server.State.{ok}
use game_lift.Server.Stream.Serve.{IsIncomplete}
use game_lift.TcpClient.{TcpClient, buf_size, new_client, network_thread}
use game_lift.TcpClient.Cut.{reply_all, AllReply}
use game_lift.TcpClient.Rounds.{game}
use game_lift.TcpClient.Turns.{views, views-append, Ready, network_turn-Advances}

abbrev pub joined : List (List ℕ) → List ℕ
joined [] = []
joined (x ∷ xs) = x ++ joined xs

-- What `recv` gives with a buffer of 4096 bytes.
abbrev pub AllFew : List (List ℕ) → Type 0
AllFew [] = Unit {0}
AllFew (x ∷ xs) = (length x ≤ 4096) × AllFew xs

-- What the thread leaves when `ys` is still to come.
abbrev pub Shown : List (List ℕ) → List ℕ → TcpClient → List ServerPacket → Type 0
Shown chunks ys c todo =
    (now later : List ServerPacket) × (c' : TcpClient) × (todo ≡ now ++ later)
    × (network_thread chunks c ≡ ok c')
    × (game c' ≡ views (game c) now)
    × (contents c'.recv_buffer ++ ys ≡ reply_all later)
    × IsIncomplete (contents c'.recv_buffer)

network_thread-Shown :
    (chunks : List (List ℕ)) (ys : List ℕ) (c : TcpClient) (todo : List ServerPacket)
    → Ready c (joined chunks ++ ys) todo
    → AllFew chunks
    → Shown chunks ys c todo
unfolding network_thread
network_thread-Shown [] ys c todo r few = ([], todo, c, refl, refl, refl, r.stream, r.incomplete)
network_thread-Shown (x ∷ xs) ys c todo r few =
    let (now, later, c1, split, run, ready, shown) =
      network_turn-Advances x (joined xs ++ ys) c todo
        (subst (λ zs. Ready c zs todo) (append_assoc x (joined xs) ys) r) few.0 in
    let (now', later', c', split', run', shown', ahead, rest) =
      network_thread-Shown xs ys c1 later ready few.1 in
    (
      now ++ now',
      later',
      c',
      split ∙ ap (λ ps. now ++ ps) split' ∙ sym (append_assoc now now' later'),
      rw run run',
      shown' ∙ ap (λ g. views g now') shown ∙ sym (views-append now now' (game c)),
      ahead,
      rest,
    )

-- From its constructor on, while the server sends a stream of well-formed packets, however `recv`
-- cuts the bytes that have arrived into pieces, empty ones included: no assertion of the client
-- fails, the buffer always has room, `processPacket` returns in every turn, each packet that has
-- arrived completely is shown once and in order, and the bytes of the next one are kept.
pub network_thread-stream :
    (chunks : List (List ℕ)) (ys storage : List ℕ) (ps : List ServerPacket)
    → length storage ≡ buf_size
    → AllFew chunks
    → AllReply ps
    → joined chunks ++ ys ≡ reply_all ps
    → Shown chunks ys (new_client storage) ps
unfolding new_client init
network_thread-stream chunks ys storage ps whole few good stream =
    network_thread-Shown chunks ys (new_client storage) ps
      (record {
        well = record {
          valid = init-IsValid storage buf_size whole (omega arith);
          half = init-IsHalf storage buf_size;
        };
        whole_buffer = refl;
        incomplete = inl (omega arith);
        small = omega arith;
        good = good;
        stream = stream;
      })
      few
