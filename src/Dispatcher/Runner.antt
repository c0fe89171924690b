-- ===== src/Dispatcher/Runner.antt =====
-- About the thread that runs the tasks of an object, and the references to it.
use game_lift.Prelude.{
  ℕ, ◌+◌, ◌-◌, ◌≤◌, ◌≡◌, refl, sym, ap, ◌∙◌, min, Bool, true, false, Bool-cases, inl, inr, List, [],
  ◌∷◌, ◌++◌, append_assoc, ◌==◌, arith, length, length-append, total, total-around, total-replicate,
  nil_of_length,
}
use game_lift.Dispatcher.{
  Pc, outside, registering, registering_first, adding_ref, deferred, flushing, executing, releasing,
  AsyncExecutable, new_executable, advance, pop_task, task_done, steps, Reach, start, later,
}

-- Who has counted a task that is not pushed yet, who runs one, who must see to it that all are run,
-- and who holds a reference.
abbrev pub entering : Pc → ℕ
entering registering = 1
entering registering_first = 1
entering p = 0

abbrev pub running : Pc → ℕ
running executing = 1
running p = 0

abbrev pub owners : Pc → ℕ
owners outside = 0
owners registering = 0
owners releasing = 0
owners p = 1

abbrev pub holders : Pc → ℕ
holders deferred = 1
holders flushing = 1
holders executing = 1
holders releasing = 1
holders p = 0

record Inv (s : AsyncExecutable) : Type 0 where
  counted :
      s.remain_task_count ≡ total entering s.threads + length s.job_queue + total running s.threads
  owned : total owners s.threads ≡ min 1 s.remain_task_count
  referred : total holders s.threads ≡ s.ref_count
  order : s.pushed ≡ s.taken ++ s.job_queue

module _ {s : AsyncExecutable} (i : Inv s) (before behind : List Pc) where
  -- A thread goes from `p` to `p'`, and the object becomes `t`.
  moves :
      (p p' : Pc) (t : AsyncExecutable)
      → s.threads ≡ before ++ (p ∷ behind)
      → (t.remain_task_count + entering p + length s.job_queue + running p
          ≡ s.remain_task_count + entering p' + length t.job_queue + running p')
      → (min 1 t.remain_task_count + owners p ≡ min 1 s.remain_task_count + owners p')
      → (t.ref_count + holders p ≡ s.ref_count + holders p')
      → t.pushed ≡ t.taken ++ t.job_queue
      → Inv (record t { threads = before ++ (p' ∷ behind) })
  moves p p' t e count own refs order =
      let was : (f : Pc → ℕ) → total f s.threads ≡ f p + (total f before + total f behind) =
        λ f. ap (total f) e ∙ total-around f before p behind in
      let now : (f : Pc → ℕ)
          → total f (before ++ (p' ∷ behind)) ≡ f p' + (total f before + total f behind) =
        λ f. total-around f before p' behind in
      record {
        counted =
            omega (arith, i.counted, was entering, now entering, was running, now running, count);
        owned = omega (arith, i.owned, was owners, now owners, own);
        referred = omega (arith, i.referred, was holders, now holders, refs);
        order = order;
      }

  there : (f : Pc → ℕ) (p : Pc) → s.threads ≡ before ++ (p ∷ behind) → f p ≤ total f s.threads
  there f p e = omega (arith, ap (total f) e, total-around f before p behind)

  pushed_order : (task : ℕ) → s.pushed ++ (task ∷ []) ≡ s.taken ++ (s.job_queue ++ (task ∷ []))
  pushed_order task =
      ap (λ xs. xs ++ (task ∷ [])) i.order ∙ append_assoc s.taken s.job_queue (task ∷ [])

  pop_task-Inv :
      (tasks : List ℕ)
      → s.job_queue ≡ tasks
      → s.threads ≡ before ++ (flushing ∷ behind)
      → Inv (record (pop_task tasks s).1 { threads = before ++ ((pop_task tasks s).0 ∷ behind) })
  unfolding pop_task
  pop_task-Inv [] same e = moves flushing flushing s e refl refl refl i.order
  pop_task-Inv (task ∷ rest) same e =
      moves flushing executing (record s { job_queue = rest; taken = s.taken ++ (task ∷ []) }) e
        (omega (arith, ap length same)) refl refl
        (i.order ∙ ap (λ xs. s.taken ++ xs) same ∙ sym (append_assoc s.taken (task ∷ []) rest))

  task_done-Inv :
      s.threads ≡ before ++ (executing ∷ behind)
      → Inv (record (task_done s).1 { threads = before ++ ((task_done s).0 ∷ behind) })
  unfolding task_done
  task_done-Inv e =
      let some_left : 1 ≤ s.remain_task_count =
        omega (arith, i.counted, there running executing e) in
      elim (Bool-cases (s.remain_task_count == 1)) [
        | inl last ↦
            let one : s.remain_task_count ≡ 1 = ground (arith, last) in
            rw last (
              moves executing releasing (record s { remain_task_count = s.remain_task_count - 1 }) e
                (omega arith) (omega arith) refl i.order)
        | inr more ↦
            let two : 2 ≤ s.remain_task_count = ground (arith, more, some_left) in
            rw more (
              moves executing flushing (record s { remain_task_count = s.remain_task_count - 1 }) e
                (omega arith) (omega arith) refl i.order)
      ]

  advance-Inv :
      (occupied : Bool) (task : ℕ) (p : Pc)
      → s.threads ≡ before ++ (p ∷ behind)
      → Inv (record (advance occupied task p s).1 {
        threads = before ++ ((advance occupied task p s).0 ∷ behind);
      })
  unfolding advance
  advance-Inv occupied task outside e = elim (Bool-cases (s.remain_task_count == 0)) [
    | inl first ↦
        let none_yet : s.remain_task_count ≡ 0 = ground (arith, first) in
        rw first (
          moves outside registering_first (record s { remain_task_count = s.remain_task_count + 1 })
            e (omega arith) (omega arith) refl i.order)
    | inr other ↦
        let some_yet : 1 ≤ s.remain_task_count = ground (arith, other) in
        rw other (
          moves outside registering (record s { remain_task_count = s.remain_task_count + 1 }) e
            (omega arith) (omega arith) refl i.order)
  ]
  advance-Inv occupied task registering e =
      moves registering outside
        (record s { job_queue = s.job_queue ++ (task ∷ []); pushed = s.pushed ++ (task ∷ []) }) e
        (omega (arith, length-append s.job_queue (task ∷ []))) refl refl (pushed_order task)
  advance-Inv occupied task registering_first e =
      moves registering_first adding_ref
        (record s { job_queue = s.job_queue ++ (task ∷ []); pushed = s.pushed ++ (task ∷ []) }) e
        (omega (arith, length-append s.job_queue (task ∷ []))) refl refl (pushed_order task)
  advance-Inv true task adding_ref e =
      moves adding_ref deferred (record s { ref_count = s.ref_count + 1 }) e refl refl (omega arith)
        i.order
  advance-Inv false task adding_ref e =
      moves adding_ref flushing (record s { ref_count = s.ref_count + 1 }) e refl refl (omega arith)
        i.order
  advance-Inv occupied task deferred e = moves deferred flushing s e refl refl refl i.order
  advance-Inv occupied task flushing e = pop_task-Inv s.job_queue refl e
  advance-Inv occupied task executing e = task_done-Inv e
  advance-Inv occupied task releasing e =
      let held : 1 ≤ s.ref_count = omega (arith, i.referred, there holders releasing e) in
      moves releasing outside (record s { ref_count = s.ref_count - 1 }) e refl refl (omega arith)
        i.order

Reach-Inv : {n : ℕ} {s : AsyncExecutable} → Reach n s → Inv s
unfolding new_executable
Reach-Inv {n} start = record {
  counted =
      omega
        (arith, total-replicate entering n outside refl, total-replicate running n outside refl);
  owned = omega (arith, total-replicate owners n outside refl);
  referred = omega (arith, total-replicate holders n outside refl);
  order = refl;
}
Reach-Inv (later r (steps occupied task before p behind e)) =
    advance-Inv (Reach-Inv r) before behind occupied task p e

running-le-owners : (ts : List Pc) → total running ts ≤ total owners ts
unfolding total
running-le-owners [] = omega arith
running-le-owners (p ∷ ts) = omega (arith, one p, running-le-owners ts)
  where
    one : (q : Pc) → running q ≤ owners q
    one outside = omega arith
    one registering = omega arith
    one registering_first = omega arith
    one adding_ref = omega arith
    one deferred = omega arith
    one flushing = omega arith
    one executing = omega arith
    one releasing = omega arith

-- In every interleaving of any number of threads: one thread at most runs a task of the object; the
-- tasks are taken in the order in which they were pushed, each once; while a task is counted, one
-- thread has to see to it that all of them are run, and when no thread has to, no task is left. The
-- reference count is the number of threads between their `AddRefForThis` and their
-- `ReleaseRefForThis`.
pub one_runner :
    {n : ℕ} {s : AsyncExecutable}
    → Reach n s
    → (total running s.threads ≤ 1)
      × (s.pushed ≡ s.taken ++ s.job_queue)
      × (1 ≤ s.remain_task_count → total owners s.threads ≡ 1)
      × (total owners s.threads ≡ 0 → s.job_queue ≡ [])
      × (s.ref_count ≡ total holders s.threads)
one_runner {s} r =
    let i = Reach-Inv r in
    (
      omega (arith, i.owned, running-le-owners s.threads),
      i.order,
      λ some_left. omega (arith, i.owned, some_left),
      λ none_there. nil_of_length s.job_queue (omega (arith, i.owned, i.counted, none_there)),
      sym i.referred,
    )
