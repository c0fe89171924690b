-- ===== src/Buffer/Refine.antt =====
-- Every sequence of calls on a valid buffer is one that the queue of its bytes allows.
use game_lift.Prelude.{
  ℕ, ◌≤◌, ◌<◌, ◌≡◌, refl, sym, subst, ap, ◌∙◌, ◌⊎◌, inl, inr, Option, none, some, List, [], ◌∷◌,
  arith, if◌then◌else◌, length, take, length-take, append-nil, drop_of_length_le,
}
use mathlib.Core.Option
use native.Mathlib.Decide.{dec_le}
use game_lift.Buffer.{
  CircularBuffer, Outcome, refused, taken, aborted, peek, read, remove, write, get_stored_size,
}
use game_lift.Buffer.Inv.{length-contents_stored, IsValid, contents}
use game_lift.Buffer.Drain.{Took, read_lem, read_refused, peek-eq-read, remove_lem, remove_all}
use game_lift.Buffer.Fill.{
  store, room, opened, store-Put, Put, write_lem, room_in_bounds, room-drained,
}
use game_lift.Buffer.Queue.{
  Op, put, receive, get, look, skip, Reply, done, failed, bytes, Step, put_done, put_failed,
  receive_done, get_bytes, get_failed, look_bytes, look_failed, skip_done, Run, stop, go_on,
}

-- What a caller sees of `Read` and `Peek`; an abort has no reply, and is shown not to occur.
reply : Outcome → Option Reply
reply refused = some failed
reply (taken xs) = some (bytes xs)
reply aborted = none

exec : CircularBuffer → Op → Option Reply × CircularBuffer
unfolding reply
exec r (put ys) = let (ok, r') = write r ys in (some (if ok then done else failed), r')
exec r (receive ys) = (some done, store (opened r) (take (room r) ys))
exec r (get n) = let (out, r') = read r n in (reply out, r')
exec r (look n) = (reply (peek r n), r)
exec r (skip n) = (some done, remove r n)

-- One call is one step of the queue.
record Refines (r : CircularBuffer) (op : Op) (out : Option Reply × CircularBuffer) : Type 0 where
  answer : Reply
  answered : out.0 ≡ some answer
  valid : IsValid out.1
  same_capacity : out.1.capacity ≡ r.capacity
  step : Step r.capacity (contents r) op answer (contents out.1)

refusal :
    {r : CircularBuffer} (ys : List ℕ)
    → IsValid r
    → room r < length ys
    → (r.capacity < length ys) ⊎ (0 < length (contents r))
refusal {r} ys v over = elim (dec_le 1 (length (contents r))) [
  | yes holds ↦ inr holds
  | no empty ↦ inl (
      omega
        (arith, room-drained v (omega (arith, length-contents_stored v)), length-contents_stored v))
]

exec_put : {r : CircularBuffer} (ys : List ℕ) → IsValid r → Refines r (put ys) (exec r (put ys))
unfolding exec
exec_put {r} ys v = elim (write_lem ys v) [
  | inl (fits, ok, p) ↦ record {
    answer = done;
    answered = rw ok;
    valid = p.valid;
    same_capacity = p.same_capacity;
    step =
        subst (Step r.capacity (contents r) (put ys) done) (sym p.whole)
          (put_done ys (omega (arith, room_in_bounds v, length-contents_stored v)));
  }
  | inr (over, no_room, p) ↦ record {
    answer = failed;
    answered = rw no_room;
    valid = p.valid;
    same_capacity = p.same_capacity;
    step =
        subst (Step r.capacity (contents r) (put ys) failed)
          (sym (p.whole ∙ append-nil (contents r))) (put_failed ys (refusal ys v over));
  }
]

exec-receive :
    {r : CircularBuffer} (ys : List ℕ) → IsValid r → Refines r (receive ys) (exec r (receive ys))
unfolding exec
exec-receive {r} ys v =
    let fits : length (take (room r) ys) ≤ room r = omega (arith, length-take (room r) ys) in
    let p : Put r (take (room r) ys) (store (opened r) (take (room r) ys)) =
      store-Put (take (room r) ys) v fits in
    record {
      answer = done;
      answered = refl;
      valid = p.valid;
      same_capacity = p.same_capacity;
      step =
          subst (Step r.capacity (contents r) (receive ys) done) (sym p.whole)
            (receive_done ys (room r) (omega (arith, room_in_bounds v, length-contents_stored v)));
    }

exec_get : {r : CircularBuffer} (n : ℕ) → IsValid r → Refines r (get n) (exec r (get n))
unfolding exec
exec_get {r} n v = elim (dec_le n (get_stored_size r)) [
  | yes fits ↦
      let (out, t) = read_lem n v fits in
      record {
        answer = bytes (take n (contents r));
        answered = ap reply out;
        valid = t.valid;
        same_capacity = t.same_capacity;
        step =
            subst (Step r.capacity (contents r) (get n) (bytes (take n (contents r)))) (sym t.rest)
              (get_bytes n (omega (arith, length-contents_stored v)));
      }
  | no over ↦ rw (read_refused r n (omega arith)) (record {
    answer = failed;
    answered = refl;
    valid = v;
    same_capacity = refl;
    step = get_failed n (omega (arith, length-contents_stored v));
  })
]

exec_look : {r : CircularBuffer} (n : ℕ) → IsValid r → Refines r (look n) (exec r (look n))
unfolding exec
exec_look {r} n v = elim (dec_le n (get_stored_size r)) [
  | yes fits ↦ record {
    answer = bytes (take n (contents r));
    answered = ap reply (peek-eq-read n v ∙ (read_lem n v fits).0);
    valid = v;
    same_capacity = refl;
    step = look_bytes n (omega (arith, length-contents_stored v));
  }
  | no over ↦ record {
    answer = failed;
    answered = ap reply (peek-eq-read n v ∙ ap (λ o. o.0) (read_refused r n (omega arith)));
    valid = v;
    same_capacity = refl;
    step = look_failed n (omega (arith, length-contents_stored v));
  }
]

-- `Remove` of any length from a valid buffer drops that many of the oldest bytes, or all of them,
-- and leaves a valid buffer.
pub remove-Took : {r : CircularBuffer} (n : ℕ) → IsValid r → Took r n (remove r n)
remove-Took {r} n v = elim (dec_le n (get_stored_size r)) [
  | yes fits ↦ remove_lem n v fits
  | no over ↦
      let t : Took r (get_stored_size r) (remove r (get_stored_size r)) =
        remove_lem (get_stored_size r) v (omega arith) in
      rw (remove_all n v (omega arith)) (record {
        valid = t.valid;
        rest =
            t.rest
            ∙ drop_of_length_le (get_stored_size r) (contents r)
                (omega (arith, length-contents_stored v))
            ∙ sym (drop_of_length_le n (contents r) (omega (arith, length-contents_stored v)));
        same_capacity = t.same_capacity;
      })
]

exec_skip : {r : CircularBuffer} (n : ℕ) → IsValid r → Refines r (skip n) (exec r (skip n))
unfolding exec
exec_skip {r} n v =
    let t : Took r n (remove r n) = remove-Took n v in
    record {
      answer = done;
      answered = refl;
      valid = t.valid;
      same_capacity = t.same_capacity;
      step = subst (Step r.capacity (contents r) (skip n) done) (sym t.rest) (skip_done n);
    }

exec-Refines : {r : CircularBuffer} (op : Op) → IsValid r → Refines r op (exec r op)
exec-Refines (put ys) v = exec_put ys v
exec-Refines (receive ys) v = exec-receive ys v
exec-Refines (get n) v = exec_get n v
exec-Refines (look n) v = exec_look n v
exec-Refines (skip n) v = exec_skip n v

-- A sequence of calls, up to one that aborts.
pub exec_all : CircularBuffer → List Op → Option (List Reply × CircularBuffer)
exec_all r [] = some ([], r)
exec_all r (op ∷ ops) =
    let (answer, r') = exec r op in
    let rest = exec_all r' ops in
    elim answer [ none ↦ none | some a ↦ Option.map (λ out. (a ∷ out.0, out.1)) rest ]

pub record RunRefines (r : CircularBuffer) (ops : List Op) : Type 0 where
  pub answers : List Reply
  pub final : CircularBuffer
  pub returns : exec_all r ops ≡ some (answers, final)
  pub valid : IsValid final
  pub allowed : Run r.capacity (contents r) ops answers (contents final)

-- Any sequence of calls on a valid buffer runs to its end with no assertion failing, keeps the
-- buffer valid, and gives replies and a final content that the queue of the stored bytes allows.
pub exec_all-RunRefines : (ops : List Op) {r : CircularBuffer} → IsValid r → RunRefines r ops
unfolding exec_all
exec_all-RunRefines [] {r} v = record {
  answers = [];
  final = r;
  returns = refl;
  valid = v;
  allowed = stop;
}
exec_all-RunRefines (op ∷ ops) {r} v =
    let s : Refines r op (exec r op) = exec-Refines op v in
    let t : RunRefines (exec r op).1 ops = exec_all-RunRefines ops s.valid in
    record {
      answers = s.answer ∷ t.answers;
      final = t.final;
      returns = ground (arith, s.answered, t.returns);
      valid = t.valid;
      allowed = go_on s.step (
          subst (λ c. Run c (contents (exec r op).1) ops t.answers (contents t.final))
            s.same_capacity t.allowed);
    }
