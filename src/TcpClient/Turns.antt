-- ===== src/TcpClient/Turns.antt =====
-- One turn of the network thread: the packets that are complete are shown, the rest is kept.
use game_lift.Prelude.{
  ℕ, zero, suc, ◌≤◌, ◌<◌, ◌≡◌, refl, sym, ap, subst, ◌∙◌, true, List, [], ◌∷◌, ◌++◌, append_assoc,
  arith, length, length-append,
}
use game_lift.Buffer.{CircularBuffer, write, get_stored_size}
use game_lift.Buffer.Inv.{IsValid, contents, length-contents_stored}
use game_lift.Buffer.Fill.{Put, room, write_fits}
use game_lift.Buffer.Half.{write-IsHalf, room-IsHalf}
use game_lift.Packet.{chat_size, ServerPacket, encode_server}
use game_lift.Packet.Reply.{server_size, header_size-le_server, length-encode_server}
use game_lift.Server.State.{ok, ◌>>=◌}
use game_lift.Server.Stream.Serve.{IsIncomplete}
use game_lift.TcpClient.{TcpClient, buf_size, process_packet, rounds_for, network_turn}
use game_lift.TcpClient.Cut.{reply_all, AllReply, Cut, cut}
use game_lift.TcpClient.Rounds.{
  Game, game, view_game, view, consume, IsWell, packet_round-view, consumed, packet_round_waits,
}

-- What a list of packets means to the game.
abbrev pub views : Game → List ServerPacket → Game
views g [] = g
views g (p ∷ ps) = views (view_game g p) ps

pub views-append :
    (ps qs : List ServerPacket) (g : Game) → views g (ps ++ qs) ≡ views (views g ps) qs
views-append [] qs g = refl
views-append (p ∷ ps) qs g = views-append ps qs (view_game g p)

-- A client that has shown the packets of a list, and keeps these bytes.
record Shows (c : TcpClient) (ps : List ServerPacket) (tail : List ℕ) (c' : TcpClient)
    : Type 0 where
  well : IsWell c'
  kept : contents c'.recv_buffer ≡ tail
  same_capacity : c'.recv_buffer.capacity ≡ c.recv_buffer.capacity
  shown : game c' ≡ views (game c) ps

process_packet-Shows :
    (fuel : ℕ) (ps : List ServerPacket) (tail : List ℕ) (c : TcpClient)
    → IsWell c
    → AllReply ps
    → contents c.recv_buffer ≡ reply_all ps ++ tail
    → IsIncomplete tail
    → length ps < fuel
    → (c' : TcpClient) × (process_packet fuel c ≡ ok c') × Shows c ps tail c'
unfolding process_packet
process_packet-Shows zero ps tail c w good here rest h = absurd (omega arith)
process_packet-Shows (suc fuel) [] tail c w good here rest h = (
  c,
  rw (packet_round_waits c w (subst IsIncomplete (sym here) rest), process_packet) refl,
  record { well = w; kept = here; same_capacity = refl; shown = refl },
)
process_packet-Shows (suc fuel) (p ∷ ps) tail c w good here rest h =
    let split = here ∙ append_assoc (encode_server p) (reply_all ps) tail in
    let c1 = view (consume c (server_size p)) p in
    let (well, kept, capacity, shown) = consumed c p (reply_all ps ++ tail) w good.0 split in
    let (c', run, s) = process_packet-Shows fuel ps tail c1 well good.1 kept rest (omega arith) in
    (
      c',
      rw (packet_round-view c p (reply_all ps ++ tail) w good.0 split, process_packet, ◌>>=◌) run,
      record {
        well = s.well;
        kept = s.kept;
        same_capacity = s.same_capacity ∙ capacity;
        shown = s.shown ∙ ap (λ g. views g ps) shown;
      },
    )

length-reply_all : (ps : List ServerPacket) → AllReply ps → length ps ≤ length (reply_all ps)
length-reply_all [] good = omega arith
length-reply_all (p ∷ ps) good = omega (
  arith,
  length-append (encode_server p) (reply_all ps),
  length-encode_server p good.0,
  header_size-le_server p,
  length-reply_all ps good.1,
)

-- What `networkThread` keeps from turn to turn, when `todo` is the rest of the stream from the bytes
-- in the buffer on.
pub record Ready (c : TcpClient) (ys : List ℕ) (todo : List ServerPacket) : Type 0 where
  pub well : IsWell c
  pub whole_buffer : c.recv_buffer.capacity ≡ buf_size
  pub incomplete : IsIncomplete (contents c.recv_buffer)
  pub small : length (contents c.recv_buffer) < chat_size
  pub good : AllReply todo
  pub stream : contents c.recv_buffer ++ ys ≡ reply_all todo

-- The buffer has room for what one `recv` gives.
room-Ready :
    {c : TcpClient} {ys : List ℕ} {todo : List ServerPacket}
    → Ready c ys todo
    → 4096 ≤ room c.recv_buffer
room-Ready {c} r = omega (
  arith,
  r.whole_buffer,
  room-IsHalf r.well.valid r.well.half,
  length-contents_stored r.well.valid,
  r.small,
)

network_turn-process_packet :
    (x : List ℕ) (c : TcpClient)
    → 0 < length x
    → (write c.recv_buffer x).0 ≡ true
    → let c1 = record c { recv_buffer = (write c.recv_buffer x).1 } in
      network_turn x c ≡ process_packet (rounds_for c1) c1
unfolding network_turn rounds_for
network_turn-process_packet x c some_there done = ground (arith, done)

rounds_enough :
    {b : CircularBuffer} {xs ys : List ℕ} {todo : List ServerPacket}
    → IsValid b
    → contents b ≡ xs
    → (k : Cut xs ys todo) → length k.now ≤ get_stored_size b
rounds_enough v same k = omega (
  arith,
  length-contents_stored v,
  ap length same,
  ap length k.whole,
  length-append (reply_all k.now) k.tail,
  length-reply_all k.now k.good_now,
)

-- What a turn does that puts `x` into the buffer and completes the packets `k.now`.
abbrev pub Advances : List ℕ → List ℕ → TcpClient → List ServerPacket → Type 0
Advances x ys c todo =
    (now later : List ServerPacket) × (c' : TcpClient) × (todo ≡ now ++ later)
    × (network_turn x c ≡ ok c')
    × Ready c' ys later
    × (game c' ≡ views (game c) now)

turn :
    (x ys : List ℕ) (c : TcpClient) (todo : List ServerPacket)
    → Ready c (x ++ ys) todo
    → 0 < length x
    → ((write c.recv_buffer x).0 ≡ true) × Put c.recv_buffer x (write c.recv_buffer x).1
    → Cut (contents c.recv_buffer ++ x) ys todo
    → Advances x ys c todo
unfolding rounds_for
turn x ys c todo r some_there (done, p) k =
    let c1 = record c { recv_buffer = (write c.recv_buffer x).1 } in
    let (c', run, s) =
      process_packet-Shows (rounds_for c1) k.now k.tail c1
        (record { valid = p.valid; half = write-IsHalf x r.well.valid r.well.half }) k.good_now
        (p.whole ∙ k.whole) k.incomplete (omega (arith, rounds_enough p.valid p.whole k)) in
    (
      k.now,
      k.later,
      c',
      k.split,
      network_turn-process_packet x c some_there done ∙ run,
      record {
        well = s.well;
        whole_buffer = s.same_capacity ∙ p.same_capacity ∙ r.whole_buffer;
        incomplete = subst IsIncomplete (sym s.kept) k.incomplete;
        small = rw s.kept k.small;
        good = k.good_later;
        stream = ap (λ zs. zs ++ ys) s.kept ∙ k.ahead;
      },
      s.shown,
    )

-- A turn shows the packets that it completes.
pub network_turn-Advances :
    (x ys : List ℕ) (c : TcpClient) (todo : List ServerPacket)
    → Ready c (x ++ ys) todo
    → length x ≤ 4096
    → Advances x ys c todo
unfolding network_turn
network_turn-Advances [] ys c todo r few = ([], todo, c, refl, refl, r, refl)
network_turn-Advances (b ∷ bs) ys c todo r few =
    turn (b ∷ bs) ys c todo r (omega arith)
      (write_fits (b ∷ bs) r.well.valid (omega (arith, room-Ready r, few)))
      (cut (contents c.recv_buffer ++ (b ∷ bs)) ys todo r.good
        (append_assoc (contents c.recv_buffer) (b ∷ bs) ys ∙ r.stream))
