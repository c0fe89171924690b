-- ===== src/Lock/Exclusion.antt =====
-- The flag counts the threads that have added to it, and no thread writes beside another.
use game_lift.Prelude.{
  total, total-around, ℕ, ◌+◌, ◌*◌, ◌^◌, ◌≤◌, ◌≡◌, refl, sym, subst, transport, ◌⊎◌, List, ◌∷◌,
  ◌++◌, arith, length, length-append, length-replicate,
}
use game_lift.Lock.{
  Pc, idle, write_poll, write_try, write_undo, write_drain, writing, read_poll, read_try, read_undo,
  reading, Choice, to_write, to_read, advance, FastSpinlock, new_lock, Step, turn, Reach, start,
  later,
}
use game_lift.Lock.Counts.{
  total-idle, total-le-total, total-le-length, flags, ones, claims, writers, readers,
}

-- The write field of the flag has eleven bits, and each thread adds to it at most once.
abbrev pub max_threads : ℕ
max_threads = 2047

-- What the numbers of threads at each place, among `n`, have to do with the flag `x`.
pub record Numbers (n x w r c e h : ℕ) : Type 0 where
  pub few : n ≤ max_threads
  pub flag : x ≡ 2 ^ 20 * w + r
  pub all : (w ≤ n) × (r ≤ n)
  pub sole : c ≤ 1
  pub ordered : (e ≤ c) × (c ≤ w) × (h ≤ r)
  pub apart : (e ≡ 0) ⊎ (h ≡ 0)

pub record Inv (n : ℕ) (s : FastSpinlock) : Type 0 where
  pub size : length s.threads ≡ n
  pub numbers :
      Numbers n s.lock_flag
        (total flags s.threads)
        (total ones s.threads)
        (total claims s.threads)
        (total writers s.threads)
        (total readers s.threads)

-- One operation of one thread keeps the numbers right; the other threads count `w` to `h`.
advance-Numbers :
    (d : Choice) (p : Pc) (n x w r c e h : ℕ)
    → w + 1 ≤ n
    → r + 1 ≤ n
    → Numbers n x (flags p + w) (ones p + r) (claims p + c) (writers p + e) (readers p + h)
    → (e ≤ c) × (c ≤ w) × (h ≤ r)
    → let (y, q) = advance d x p in
      Numbers n y (flags q + w) (ones q + r) (claims q + c) (writers q + e) (readers q + h)
unfolding advance
advance-Numbers to_write idle n x w r c e h a b v o = ground arith
advance-Numbers to_read idle n x w r c e h a b v o = ground arith
advance-Numbers d write_poll n x w r c e h a b v o = ground arith
advance-Numbers d write_try n x w r c e h a b v o = ground arith
advance-Numbers d write_undo n x w r c e h a b v o = ground arith
advance-Numbers d write_drain n x w r c e h a b v o = ground arith
advance-Numbers d writing n x w r c e h a b v o = ground arith
advance-Numbers d read_poll n x w r c e h a b v o = ground arith
advance-Numbers d read_try n x w r c e h a b v o = ground arith
advance-Numbers d read_undo n x w r c e h a b v o = ground arith
advance-Numbers d reading n x w r c e h a b v o = ground arith

writers-le-claims : (p : Pc) → writers p ≤ claims p
writers-le-claims writing = omega arith
writers-le-claims p = omega arith

claims-le-flags : (p : Pc) → claims p ≤ flags p
claims-le-flags writing = omega arith
claims-le-flags p = omega arith

readers-le-ones : (p : Pc) → readers p ≤ ones p
readers-le-ones reading = omega arith
readers-le-ones p = omega arith

flags-le-one : (p : Pc) → flags p ≤ 1
flags-le-one writing = omega arith
flags-le-one p = omega arith

ones-le-one : (p : Pc) → ones p ≤ 1
ones-le-one reading = omega arith
ones-le-one p = omega arith

-- The numbers of a list of threads, given those of the threads around one of them.
Numbers-around :
    (n x : ℕ) (ps : List Pc) (p : Pc) (qs : List Pc)
    → (Numbers n x
        (total flags (ps ++ (p ∷ qs)))
        (total ones (ps ++ (p ∷ qs)))
        (total claims (ps ++ (p ∷ qs)))
        (total writers (ps ++ (p ∷ qs)))
        (total readers (ps ++ (p ∷ qs))))
      ≡ Numbers n x
          (flags p + (total flags ps + total flags qs))
          (ones p + (total ones ps + total ones qs))
          (claims p + (total claims ps + total claims qs))
          (writers p + (total writers ps + total writers qs))
          (readers p + (total readers ps + total readers qs))
Numbers-around n x ps p qs =
    rw
      (
        total-around flags ps p qs,
        total-around ones ps p qs,
        total-around claims ps p qs,
        total-around writers ps p qs,
        total-around readers ps p qs,
      )
      refl

turn-Inv :
    {n x : ℕ} (d : Choice) (ps : List Pc) (p : Pc) (qs : List Pc)
    → Inv n (record { lock_flag = x; threads = ps ++ (p ∷ qs) })
    → Inv n (record { lock_flag = (advance d x p).0; threads = ps ++ ((advance d x p).1 ∷ qs) })
turn-Inv {n} {x} d ps p qs inv =
    let others : length ps + length qs + 1 ≡ n =
      omega (arith, inv.size, length-append ps (p ∷ qs)) in
    record {
      size = omega (arith, others, length-append ps ((advance d x p).1 ∷ qs));
      numbers = transport (sym (Numbers-around n (advance d x p).0 ps (advance d x p).1 qs)) (
          advance-Numbers d p n x (total flags ps + total flags qs) (total ones ps + total ones qs)
            (total claims ps + total claims qs) (total writers ps + total writers qs)
            (total readers ps + total readers qs)
            (omega (
              arith,
              others,
              total-le-length flags flags-le-one ps,
              total-le-length flags flags-le-one qs,
            ))
            (omega (
              arith,
              others,
              total-le-length ones ones-le-one ps,
              total-le-length ones ones-le-one qs,
            ))
            (transport (Numbers-around n x ps p qs) inv.numbers)
            (omega (
              arith,
              total-le-total writers claims writers-le-claims ps,
              total-le-total writers claims writers-le-claims qs,
              total-le-total claims flags claims-le-flags ps,
              total-le-total claims flags claims-le-flags qs,
              total-le-total readers ones readers-le-ones ps,
              total-le-total readers ones readers-le-ones qs,
            )));
    }

Step-Inv : {n : ℕ} {s t : FastSpinlock} → Step s t → Inv n s → Inv n t
Step-Inv {n} {s} (turn d ps p qs e) inv = turn-Inv d ps p qs (
    subst (λ ts. Inv n (record { lock_flag = s.lock_flag; threads = ts })) e
      (record { size = inv.size; numbers = inv.numbers }))

new_lock-Inv : (n : ℕ) → n ≤ max_threads → Inv n (new_lock n)
unfolding new_lock
new_lock-Inv n h = record {
  size = length-replicate n idle;
  numbers =
      rw
        (
          total-idle flags n refl,
          total-idle ones n refl,
          total-idle claims n refl,
          total-idle writers n refl,
          total-idle readers n refl,
        )
        (omega arith);
}

pub Reach-Inv : {n : ℕ} {s : FastSpinlock} → n ≤ max_threads → Reach n s → Inv n s
Reach-Inv {n} h start = new_lock-Inv n h
Reach-Inv h (later r st) = Step-Inv st (Reach-Inv h r)

-- With at most 2047 threads, in every state that is reached, at most one thread writes, and no
-- thread reads while one writes.
pub exclusion :
    {n : ℕ} {s : FastSpinlock}
    → n ≤ max_threads
    → Reach n s
    → (total writers s.threads ≤ 1)
      × ((total writers s.threads ≡ 0) ⊎ (total readers s.threads ≡ 0))
exclusion h r =
    let inv = Reach-Inv h r in
    (omega (arith, inv.numbers.ordered, inv.numbers.sole), inv.numbers.apart)

-- With at most 2047 threads, in every state that is reached, the flag is the write flag times the
-- threads that have added it, plus the threads that have added one.
pub lock_flag-counts :
    {n : ℕ} {s : FastSpinlock}
    → n ≤ max_threads
    → Reach n s
    → s.lock_flag ≡ 2 ^ 20 * total flags s.threads + total ones s.threads
lock_flag-counts h r = (Reach-Inv h r).numbers.flag
