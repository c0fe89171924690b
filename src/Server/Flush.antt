-- ===== src/Server/Flush.antt =====
-- `ClientSession::SendFlush`: the loop that writes what is buffered to the socket.
pub mod Laws
use game_lift.Prelude.{
  ℕ, ◌+◌, min, Bool, true, false, Option, none, some, List, [], ◌∷◌, ◌++◌, ◌==◌, if◌then◌else◌,
  slice,
}
use game_lift.Buffer.{CircularBuffer, get_contiguous_bytes, get_buffer_start, remove}
use game_lift.Server.State.{ClientSession}

-- What `write` does: it takes up to so many of the bytes that it is given, or none and says why.
pub data Sending : Type 0 where
  takes : ℕ → Sending
  would_block : Sending
  failed : Sending

-- The outcome of the loop: what it returns (`none`: it still runs when the results of `write` are
-- used up), the buffer, and the bytes that the socket took.
pub record Flushed : Type 0 where
  pub answer : Option Bool
  pub buffer : CircularBuffer
  pub wire : List ℕ

-- The bytes at `GetBufferStart`.
unfoldable pub offered : CircularBuffer → ℕ → List ℕ
offered b n = elim (get_buffer_start b) [ none ↦ [] | some p ↦ slice b.buffer p n ]

-- One successful `write`, and `Remove`.
abbrev pub taken_by : CircularBuffer → ℕ → ℕ
taken_by b n = min n (get_contiguous_bytes b)

unfoldable pub flush_loop : List Sending → CircularBuffer → Flushed
unfolding offered
flush_loop [] b = record {
  answer = if get_contiguous_bytes b == 0 then some true else none;
  buffer = b;
  wire = [];
}
flush_loop (takes n ∷ rest) b =
    let later = flush_loop rest (remove b (taken_by b n)) in
    if get_contiguous_bytes b == 0
    then record { answer = some true; buffer = b; wire = [] }
    else record later { wire = offered b (taken_by b n) ++ later.wire }
flush_loop (would_block ∷ rest) b = record { answer = some true; buffer = b; wire = [] }
flush_loop (failed ∷ rest) b = record {
  answer = some (get_contiguous_bytes b == 0);
  buffer = b;
  wire = [];
}

unfoldable pub send_flush : List Sending → ClientSession → Flushed
unfolding flush_loop
send_flush results c =
    if c.connected
    then flush_loop results c.send_buffer
    else record { answer = some false; buffer = c.send_buffer; wire = [] }
