-- ===== src/Pool/Exclusive.antt =====
-- However the threads interleave, an object is in one place.
use game_lift.Prelude.{
  ℕ, ◌+◌, ◌≤◌, ◌<◌, ◌≡◌, refl, Option, none, some, List, [], ◌∷◌, ◌++◌, arith, length,
  length-replicate, total, total-append, total-around, total-replicate,
}
use native.Mathlib.Decide.{ℕ_discrete}
use game_lift.Pool.{
  Pc, idle, popping, pushing, ObjectPool, pool_max_size, get_or_none, set, slot, new_pool,
  prepare_allocation, begin_new, finish_new, popped, begin_delete, finish_delete, put_back,
}
use game_lift.Pool.Copies.{
  is, in_slot, in_hand, copies, length-set, total-set, total-map-some, length-map-some,
}

-- One atomic operation of a thread. `_aligned_malloc` returns memory that is in no place.
pub data Step (s : ObjectPool) : ObjectPool → Type 0 where
  new_position :
      (before behind : List Pc)
      → s.threads ≡ before ++ (idle ∷ behind)
      → Step s (record (begin_new s) { threads = before ++ (popping s.head_pos ∷ behind) })
  new_exchange :
      (fresh : ℕ) (before : List Pc) (pos : ℕ) (behind : List Pc)
      → s.threads ≡ before ++ (popping pos ∷ behind)
      → copies fresh s ≡ 0
      → Step s (record (finish_new fresh pos s) { threads = before ++ (idle ∷ behind) })
  delete_position :
      (first : List ℕ) (obj : ℕ) (last : List ℕ) (before behind : List Pc)
      → s.held ≡ first ++ (obj ∷ last)
      → s.threads ≡ before ++ (idle ∷ behind)
      → Step s (record (begin_delete (first ++ last) s) {
        threads = before ++ (pushing s.tail_pos obj ∷ behind);
      })
  delete_exchange :
      (before : List Pc) (pos obj : ℕ) (behind : List Pc)
      → s.threads ≡ before ++ (pushing pos obj ∷ behind)
      → Step s (record (finish_delete pos obj s) { threads = before ++ (idle ∷ behind) })

-- What `n` threads reach, with `PrepareAllocation` before them or not.
pub data Reach (n : ℕ) : ObjectPool → Type 0 where
  start : Reach n (new_pool n)
  prepared :
      (addresses : List ℕ)
      → length addresses ≡ pool_max_size
      → ((a : ℕ) → total (is a) addresses ≤ 1)
      → Reach n (prepare_allocation addresses (new_pool n))
  later : {s t : ObjectPool} → Reach n s → Step s t → Reach n t

-- An address is in one place at most; it was allocated once more than it was freed if it is there,
-- and as often if it is not.
abbrev pub IsKept : ℕ → ObjectPool → Type 0
IsKept a s = (copies a s ≤ 1) × (total (is a) s.mallocs ≡ total (is a) s.frees + copies a s)

record Inv (s : ObjectPool) : Type 0 where
  size : length s.pool ≡ pool_max_size
  kept : (a : ℕ) → IsKept a s

-- The hands of all threads, around one that moves.
hands :
    (a : ℕ) {ts : List Pc} (before : List Pc) (p : Pc) (behind : List Pc)
    → ts ≡ before ++ (p ∷ behind)
    → total (in_hand a) ts ≡ in_hand a p + (total (in_hand a) before + total (in_hand a) behind)
hands a before p behind e = rw e (total-around (in_hand a) before p behind)

fresh_once :
    (a fresh : ℕ) (s : ObjectPool)
    → copies fresh s ≡ 0
    → copies a s ≤ 1
    → is a fresh + copies a s ≤ 1
fresh_once a fresh s none_yet h = elim (ℕ_discrete a fresh) [
  | yes e ↦ rw e (ground (arith, none_yet))
  | no ne ↦ ground (arith, ne, h)
]

module _ {s : ObjectPool} (i : Inv s) (before behind : List Pc) where
  new_position-Inv :
      s.threads ≡ before ++ (idle ∷ behind)
      → Inv (record (begin_new s) { threads = before ++ (popping s.head_pos ∷ behind) })
  unfolding begin_new
  new_position-Inv e = record {
    size = i.size;
    kept = λ a.
        let now = total-around (in_hand a) before (popping s.head_pos) behind in
        (
          omega (arith, now, hands a before idle behind e, (i.kept a).0),
          omega (arith, now, hands a before idle behind e, (i.kept a).1),
        );
  }

  delete_position-Inv :
      (first : List ℕ) (obj : ℕ) (last : List ℕ)
      → s.held ≡ first ++ (obj ∷ last)
      → s.threads ≡ before ++ (idle ∷ behind)
      → Inv (record (begin_delete (first ++ last) s) {
        threads = before ++ (pushing s.tail_pos obj ∷ behind);
      })
  unfolding begin_delete
  delete_position-Inv first obj last own e = record {
    size = i.size;
    kept = λ a.
        let now : total (in_hand a) (before ++ (pushing s.tail_pos obj ∷ behind))
            ≡ is a obj + (total (in_hand a) before + total (in_hand a) behind) =
          total-around (in_hand a) before (pushing s.tail_pos obj) behind in
        let had : total (is a) s.held ≡ is a obj + (total (is a) first + total (is a) last) =
          rw own (total-around (is a) first obj last) in
        (
          omega (
            arith,
            now,
            had,
            total-append (is a) first last,
            hands a before idle behind e,
            (i.kept a).0,
          ),
          omega (
            arith,
            now,
            had,
            total-append (is a) first last,
            hands a before idle behind e,
            (i.kept a).1,
          ),
        );
  }

  in_range : (pos : ℕ) → slot pos < length s.pool
  in_range pos = omega (arith, i.size)

  -- The slot, when its value is exchanged.
  exchanged :
      (a pos : ℕ) (v : Option ℕ)
      → total (in_slot a) (set s.pool (slot pos) v) + in_slot a (get_or_none s.pool (slot pos))
        ≡ total (in_slot a) s.pool + in_slot a v
  exchanged a pos v = total-set (in_slot a) s.pool (slot pos) v (in_range pos)

  popped-Inv :
      (fresh pos : ℕ) (v : Option ℕ)
      → get_or_none s.pool (slot pos) ≡ v
      → s.threads ≡ before ++ (popping pos ∷ behind)
      → copies fresh s ≡ 0
      → Inv (record (popped fresh pos v s) { threads = before ++ (idle ∷ behind) })
  unfolding popped total
  popped-Inv fresh pos none got e unused = record {
    size = omega (arith, i.size, length-set s.pool (slot pos) none);
    kept = λ a.
        let slots = exchanged a pos none in
        let was : in_slot a (get_or_none s.pool (slot pos)) ≡ 0 = rw got refl in
        let now = total-around (in_hand a) before idle behind in
        (
          omega (
            arith,
            slots,
            was,
            now,
            hands a before (popping pos) behind e,
            fresh_once a fresh s unused (i.kept a).0,
          ),
          omega (arith, slots, was, now, hands a before (popping pos) behind e, (i.kept a).1),
        );
  }
  popped-Inv fresh pos (some v) got e unused = record {
    size = omega (arith, i.size, length-set s.pool (slot pos) none);
    kept = λ a.
        let slots = exchanged a pos none in
        let was : in_slot a (get_or_none s.pool (slot pos)) ≡ is a v = rw got refl in
        let now = total-around (in_hand a) before idle behind in
        (
          omega (arith, slots, was, now, hands a before (popping pos) behind e, (i.kept a).0),
          omega (arith, slots, was, now, hands a before (popping pos) behind e, (i.kept a).1),
        );
  }

  put_back-Inv :
      (pos obj : ℕ) (v : Option ℕ)
      → get_or_none s.pool (slot pos) ≡ v
      → s.threads ≡ before ++ (pushing pos obj ∷ behind)
      → Inv (record (put_back pos obj v s) { threads = before ++ (idle ∷ behind) })
  unfolding put_back total
  put_back-Inv pos obj none got e = record {
    size = omega (arith, i.size, length-set s.pool (slot pos) (some obj));
    kept = λ a.
        let slots = exchanged a pos (some obj) in
        let was : in_slot a (get_or_none s.pool (slot pos)) ≡ 0 = rw got refl in
        let now = total-around (in_hand a) before idle behind in
        (
          omega (arith, slots, was, now, hands a before (pushing pos obj) behind e, (i.kept a).0),
          omega (arith, slots, was, now, hands a before (pushing pos obj) behind e, (i.kept a).1),
        );
  }
  put_back-Inv pos obj (some v) got e = record {
    size = omega (arith, i.size, length-set s.pool (slot pos) (some obj));
    kept = λ a.
        let slots = exchanged a pos (some obj) in
        let was : in_slot a (get_or_none s.pool (slot pos)) ≡ is a v = rw got refl in
        let now = total-around (in_hand a) before idle behind in
        (
          omega (arith, slots, was, now, hands a before (pushing pos obj) behind e, (i.kept a).0),
          omega (arith, slots, was, now, hands a before (pushing pos obj) behind e, (i.kept a).1),
        );
  }

Step-Inv : {s t : ObjectPool} → Step s t → Inv s → Inv t
unfolding finish_new finish_delete
Step-Inv (new_position before behind e) i = new_position-Inv i before behind e
Step-Inv {s} (new_exchange fresh before pos behind e unused) i =
    popped-Inv i before behind fresh pos (get_or_none s.pool (slot pos)) refl e unused
Step-Inv (delete_position first obj last before behind own e) i =
    delete_position-Inv i before behind first obj last own e
Step-Inv {s} (delete_exchange before pos obj behind e) i =
    put_back-Inv i before behind pos obj (get_or_none s.pool (slot pos)) refl e

new_pool-Inv : (n : ℕ) → Inv (new_pool n)
unfolding new_pool total
new_pool-Inv n = record {
  size = length-replicate {A = Option ℕ} pool_max_size none;
  kept = λ a.
      let slots = total-replicate (in_slot a) pool_max_size none refl in
      let none_in_hand = total-replicate (in_hand a) n idle refl in
      (omega (arith, slots, none_in_hand), omega (arith, slots, none_in_hand));
}

prepare_allocation-Inv :
    (n : ℕ) (addresses : List ℕ)
    → length addresses ≡ pool_max_size
    → ((a : ℕ) → total (is a) addresses ≤ 1)
    → Inv (prepare_allocation addresses (new_pool n))
unfolding new_pool prepare_allocation total
prepare_allocation-Inv n addresses h once = record {
  size = omega (arith, length-map-some addresses);
  kept = λ a.
      let slots = total-map-some a addresses in
      let none_in_hand = total-replicate (in_hand a) n idle refl in
      let all = total-append (is a) addresses [] in
      (omega (arith, slots, none_in_hand, once a), omega (arith, slots, none_in_hand, all));
}

Reach-Inv : {n : ℕ} {s : ObjectPool} → Reach n s → Inv s
Reach-Inv {n} start = new_pool-Inv n
Reach-Inv {n} (prepared addresses h once) = prepare_allocation-Inv n addresses h once
Reach-Inv (later r st) = Step-Inv st (Reach-Inv r)

-- In every state that any number of threads reach, each address is in one place at most: with one
-- caller of `operator new`, in one slot of the pool, or with one thread that gives it back. It is
-- nowhere exactly when it was freed as often as it was allocated; otherwise it was freed once less.
-- So no object has two owners, none is freed while someone has it or twice, and none is lost.
pub exclusive : {n : ℕ} {s : ObjectPool} → Reach n s → (a : ℕ) → IsKept a s
exclusive r a = (Reach-Inv r).kept a
