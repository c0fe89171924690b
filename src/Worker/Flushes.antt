-- ===== src/Worker/Flushes.antt =====
-- About the loop of `Flush`.
use game_lift.Prelude.{
  ℕ, zero, suc, ◌+◌, ◌≤◌, ◌<◌, ◌≡◌, refl, sym, ap, subst, ◌∙◌, Bool-cases, inl, inr, some, List, [],
  ◌∷◌, ◌==◌, if◌then◌else◌, arith, length, total, total-append, get_or,
}
use game_lift.Worker.{
  Job, calls_of, AsyncExecutable, new_executable, WorkerThread, at, modify, popped, task_done,
  and_then, on_execute, flush_turn, do_task, flush,
}
use game_lift.Worker.Work.{
  nodes, nodes_calls, IsFitCalls, AllFit, work, nothing, one, waiting, work-modify, is, Keeps,
  Keeps-trans, Keeps-modify,
}
use game_lift.Worker.Inv.{Inv}
use game_lift.Worker.Steps.{calls-IsFit, Inv-popped, Inv-task_done_more, Inv-task_done_last}
use game_lift.Worker.Nested.{nodes_lem, on_execute_lem}

pub get_or_beyond :
    (xs : List AsyncExecutable) (i : ℕ)
    → 1 ≤ (get_or xs i new_executable).remain_task_count
    → i < length xs
unfolding get_or
get_or_beyond [] i h = absurd (omega arith)
get_or_beyond (x ∷ xs) zero h = omega arith
get_or_beyond (x ∷ xs) (suc i) h = omega (arith, get_or_beyond xs i h)

-- Taking a job out of the queue moves it from one side of the account to the other.
work-popped :
    (g f : Job → ℕ) (j : Job) (rest : List Job) (o : ℕ) (w : WorkerThread)
    → o < length w.objects
    → (at w o).job_queue ≡ j ∷ rest
    → work g f (modify (popped j rest) o w) + f j + total f (nodes_calls (calls_of j))
      ≡ work g f w + g j
unfolding total
work-popped g f j rest o w fits q = omega (
  arith,
  work-modify g f (popped j rest) o w fits,
  ap (total (λ x. total f (nodes x))) q,
  total-append g (at w o).taken (j ∷ []),
  ap (total f) (nodes_lem j),
)

flush_next :
    (fuel o : ℕ) (j : Job) (rest : List Job) (w w1 : WorkerThread)
    → (at w o).job_queue ≡ j ∷ rest
    → on_execute (do_task fuel) (calls_of j) (modify (popped j rest) o w) ≡ some w1
    → flush (suc fuel) o w ≡ (
        if (at w1 o).remain_task_count == 1
        then some (modify task_done o w1)
        else flush fuel o (modify task_done o w1))
unfolding flush flush_turn
flush_next fuel o j rest w w1 q ran =
    ap (λ x. flush_turn (flush fuel o) (do_task fuel) o x w) q
    ∙ ap
        (λ m. and_then m (λ w'.
          if (at w' o).remain_task_count == 1
          then some (modify task_done o w')
          else flush fuel o (modify task_done o w')))
        ran

-- What a run of the jobs that wait does.
pub record Runs (hd : List ℕ) (least : ℕ) (w w' : WorkerThread) : Type 0 where
  pub holds : Inv [] [] hd w'
  pub keeps : Keeps w w'
  pub balance : (f : Job → ℕ) → work f f w' ≡ work f f w
  pub less : waiting w' + least ≤ waiting w

module _ (c o : ℕ) (hd : List ℕ) where
  -- One job runs, with what it calls for.
  flush_step :
      (fuel : ℕ) (j : Job) (rest : List Job) (w : WorkerThread)
      → w.current_executer ≡ some c
      → Inv [] (o ∷ []) hd w
      → (at w o).job_queue ≡ j ∷ rest
      → (o < length w.objects)
      → (w1 : WorkerThread) × (on_execute
            (do_task (suc fuel))
            (calls_of j)
            (modify (popped j rest) o w)
          ≡ some w1)
        × Inv (o ∷ []) (o ∷ []) hd w1
        × Keeps w w1
        × ((f : Job → ℕ) → work f f w1 ≡ work f f w)
        × (waiting w1 + 1 ≡ waiting w)
  flush_step fuel j rest w cur v q fits =
      let k0 = Keeps-modify (popped j rest) o w in
      let fit : IsFitCalls (length w.objects) (calls_of j) =
        calls-IsFit (length w.objects) j (subst (AllFit (length w.objects)) q (v.all o).fits).0 in
      let (w1, ran, v1, k1, work1) =
        on_execute_lem c fuel (calls_of j) (modify (popped j rest) o w) (k0.current ∙ cur)
          (Inv-popped o fits j rest v q)
          (subst (λ n. IsFitCalls n (calls_of j)) (sym k0.size) fit) in
      (
        w1,
        ran,
        v1,
        Keeps-trans k0 k1,
        λ f. omega (arith, work1 f f, work-popped f f j rest o w fits q),
        omega (arith, work1 nothing one, work-popped nothing one j rest o w fits q),
      )

  pub flush_lem :
      (fuel : ℕ) (q : List Job) (w : WorkerThread)
      → w.current_executer ≡ some c
      → Inv [] (o ∷ []) hd w
      → (at w o).job_queue ≡ q
      → waiting w < fuel
      → (w' : WorkerThread) × (flush fuel o w ≡ some w') × Runs hd 1 w w'
  unfolding total
  flush_lem zero q w cur v same h = absurd (omega arith)
  flush_lem (suc fuel) [] w cur v same h =
      absurd (omega (arith, (v.all o).counted, (v.all o).owned, ap length same, is_here))
    where
      is_here : is o o ≡ 1
      is_here = ground arith
  flush_lem (suc zero) (j ∷ rest) w cur v same h =
      let fits = get_or_beyond w.objects o (omega (arith, (v.all o).counted, ap length same)) in
      absurd (omega (arith, work-popped nothing one j rest o w fits same))
  flush_lem (suc (suc fuel)) (j ∷ rest) w cur v same h =
      let fits = get_or_beyond w.objects o (omega (arith, (v.all o).counted, ap length same)) in
      let (w1, ran, v1, k1, balance1, less1) = flush_step fuel j rest w cur v same fits in
      let fits1 : o < length w1.objects = omega (arith, fits, k1.size) in
      let w2 = modify task_done o w1 in
      let k2 = Keeps-trans k1 (Keeps-modify task_done o w1) in
      let balance2 : (f : Job → ℕ) → work f f w2 ≡ work f f w =
        λ f. omega (arith, balance1 f, work-modify f f task_done o w1 fits1) in
      let less2 : waiting w2 + 1 ≡ waiting w =
        omega (arith, less1, work-modify nothing one task_done o w1 fits1) in
      elim (Bool-cases ((at w1 o).remain_task_count == 1)) [
        | inl last ↦ (
          w2,
          flush_next (suc fuel) o j rest w w1 same ran ∙ rw last refl,
          record {
            holds = Inv-task_done_last o fits1 v1 (ground (arith, last));
            keeps = k2;
            balance = balance2;
            less = omega (arith, less2);
          },
        )
        | inr more ↦
            let v2 = Inv-task_done_more o fits1 v1 (λ e. ground (arith, e, more)) in
            let (w3, done, r) =
              flush_lem (suc fuel) (at w2 o).job_queue w2 (k2.current ∙ cur) v2 refl
                (omega (arith, less2)) in
            (
              w3,
              flush_next (suc fuel) o j rest w w1 same ran ∙ rw more done,
              record {
                holds = r.holds;
                keeps = Keeps-trans k2 r.keeps;
                balance = λ f. r.balance f ∙ balance2 f;
                less = omega (arith, less2, r.less);
              },
            )
      ]
