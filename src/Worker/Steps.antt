-- ===== src/Worker/Steps.antt =====
-- About each step of a thread, and the invariant.
use game_lift.Prelude.{
  ℕ, ◌+◌, ◌<◌, ◌≡◌, ◌≢◌, refl, sym, ap, ◌∙◌, subst, Bool-cases, inl, inr, Option, List, [], ◌∷◌,
  ◌++◌, append_assoc, leb, arith, length, length-append, total, total-append, total-push_by,
}
use game_lift.Worker.{
  Job, job, object_of, calls_of, AsyncExecutable, TimerJobElement, WorkerThread, at, modify,
  register, register_first, popped, task_done, add_ref_for_this, release_ref_for_this, push,
  push_timer_job,
}
use game_lift.Worker.Work.{IsFit, IsFitCalls, AllFit, AllFit-append, is, times, Keeps-modify}
use game_lift.Worker.Inv.{timed, AllTimed, Holds, Inv, at-modify_self, at-modify_other, change}

size-modify :
    (f : AsyncExecutable → AsyncExecutable) (o : ℕ) (w : WorkerThread)
    → length (modify f o w).objects ≡ length w.objects
size-modify f o w = (Keeps-modify f o w).size

is_other : (i o : ℕ) → o ≢ i → is i o ≡ 0
is_other i o ne = ground (arith, ne)

is_self : (o : ℕ) → is o o ≡ 1
is_self o = ground arith

pub times_after : (i o : ℕ) (os : List ℕ) → times i (os ++ (o ∷ [])) ≡ times i os + is i o
unfolding total
times_after i o os = omega (arith, total-append (is i) os (o ∷ []))

module _ {r ow hd : List ℕ} {w : WorkerThread} (v : Inv r ow hd w) (o : ℕ)
    (fits : o < length w.objects) where
  -- A job is pushed to an object that has some.
  pub Inv-register :
      (j : Job)
      → IsFit (length w.objects) j
      → (at w o).remain_task_count ≢ 0
      → Inv r ow hd (modify (register j) o w)
  unfolding modify
  Inv-register j fit some_left =
      let h = v.all o in
      change v o (size-modify (register j) o w) v.timers
        (λ i ne. (at-modify_other (register j) o i w fits ne, refl, refl, refl))
        (subst (Holds (length w.objects) _ _ _) (sym (at-modify_self (register j) o w fits))
          (record {
            counted = omega (arith, h.counted, length-append (at w o).job_queue (j ∷ []));
            owned = omega (arith, h.owned, some_left);
            referred = h.referred;
            order =
                ap (λ xs. xs ++ (j ∷ [])) h.order
                ∙ append_assoc (at w o).taken (at w o).job_queue (j ∷ []);
            fits = AllFit-append (length w.objects) (at w o).job_queue (j ∷ []) h.fits (fit, tt);
          }))

  -- The first job of an object is pushed; the object waits in the list, or it is the thread's own.
  pub Inv-register_first :
      (j : Job) (es ow' hd' : List ℕ) (c : Option ℕ)
      → IsFit (length w.objects) j
      → (at w o).remain_task_count ≡ 0
      → ((i : ℕ)
          → (times i es + times i ow' ≡ times i w.executer_list + times i ow + is i o)
            × (times i es + times i hd' ≡ times i w.executer_list + times i hd + is i o))
      → Inv r ow' hd'
          (record (modify (register_first j) o w) { executer_list = es; current_executer = c })
  unfolding modify
  Inv-register_first j es ow' hd' c fit no_left lists =
      let h = v.all o in
      change v o (size-modify (register_first j) o w) v.timers
        (λ i ne. (
          at-modify_other (register_first j) o i w fits ne,
          refl,
          omega (arith, (lists i).0, is_other i o ne),
          omega (arith, (lists i).1, is_other i o ne),
        ))
        (subst (Holds (length w.objects) _ _ _) (sym (at-modify_self (register_first j) o w fits))
          (record {
            counted = omega (arith, h.counted, length-append (at w o).job_queue (j ∷ []));
            owned = omega (arith, h.owned, no_left, (lists o).0, is_self o);
            referred = omega (arith, h.referred, (lists o).1, is_self o);
            order =
                ap (λ xs. xs ++ (j ∷ [])) h.order
                ∙ append_assoc (at w o).taken (at w o).job_queue (j ∷ []);
            fits = AllFit-append (length w.objects) (at w o).job_queue (j ∷ []) h.fits (fit, tt);
          }))

module _ {hd : List ℕ} {w : WorkerThread} (o : ℕ) (fits : o < length w.objects) where
  pub Inv-popped :
      (j : Job) (rest : List Job)
      → Inv [] (o ∷ []) hd w
      → (at w o).job_queue ≡ j ∷ rest
      → Inv (o ∷ []) (o ∷ []) hd (modify (popped j rest) o w)
  unfolding modify total
  Inv-popped j rest v q =
      let h = v.all o in
      change v o (size-modify (popped j rest) o w) v.timers
        (λ i ne. (
          at-modify_other (popped j rest) o i w fits ne,
          omega (arith, is_other i o ne),
          refl,
          refl,
        ))
        (subst (Holds (length w.objects) _ _ _) (sym (at-modify_self (popped j rest) o w fits))
          (record {
            counted = omega (arith, h.counted, ap length q, is_self o);
            owned = h.owned;
            referred = h.referred;
            order =
                h.order
                ∙ ap (λ xs. (at w o).taken ++ xs) q
                ∙ sym (append_assoc (at w o).taken (j ∷ []) rest);
            fits = (subst (AllFit (length w.objects)) q h.fits).1;
          }))

  -- The job was not the last one.
  pub Inv-task_done_more :
      Inv (o ∷ []) (o ∷ []) hd w
      → (at w o).remain_task_count ≢ 1
      → Inv [] (o ∷ []) hd (modify task_done o w)
  unfolding modify total
  Inv-task_done_more v more =
      let h = v.all o in
      change v o (size-modify task_done o w) v.timers
        (λ i ne.
          (at-modify_other task_done o i w fits ne, omega (arith, is_other i o ne), refl, refl))
        (subst (Holds (length w.objects) _ _ _) (sym (at-modify_self task_done o w fits)) (record {
          counted = omega (arith, h.counted, is_self o);
          owned = omega (arith, h.owned, h.counted, is_self o, more);
          referred = h.referred;
          order = h.order;
          fits = h.fits;
        }))

  -- It was, so `Flush` ends.
  pub Inv-task_done_last :
      Inv (o ∷ []) (o ∷ []) hd w
      → (at w o).remain_task_count ≡ 1
      → Inv [] [] hd (modify task_done o w)
  unfolding modify total
  Inv-task_done_last v last =
      let h = v.all o in
      change v o (size-modify task_done o w) v.timers
        (λ i ne. (
          at-modify_other task_done o i w fits ne,
          omega (arith, is_other i o ne),
          omega (arith, is_other i o ne),
          refl,
        ))
        (subst (Holds (length w.objects) _ _ _) (sym (at-modify_self task_done o w fits)) (record {
          counted = omega (arith, h.counted, is_self o);
          owned = omega (arith, h.owned, last, is_self o);
          referred = h.referred;
          order = h.order;
          fits = h.fits;
        }))

  -- A reference is given up, of a holder or of the timer, whose queue is `q` then.
  pub Inv-release :
      {hd' : List ℕ} (c : Option ℕ) (q : List TimerJobElement)
      → Inv [] [] hd w
      → AllTimed (length w.objects) q
      → ((i : ℕ) → times i hd + timed i w.timer_job_queue ≡ times i hd' + timed i q + is i o)
      → Inv [] [] hd'
          (record (modify release_ref_for_this o w) { current_executer = c; timer_job_queue = q })
  unfolding modify
  Inv-release c q v timers lists =
      let h = v.all o in
      change v o (size-modify release_ref_for_this o w) timers
        (λ i ne. (
          at-modify_other release_ref_for_this o i w fits ne,
          refl,
          refl,
          omega (arith, lists i, is_other i o ne),
        ))
        (subst (Holds (length w.objects) _ _ _) (sym (at-modify_self release_ref_for_this o w fits))
          (record {
            counted = h.counted;
            owned = h.owned;
            referred = omega (arith, h.referred, lists o, is_self o);
            order = h.order;
            fits = h.fits;
          }))

timed-push :
    (i : ℕ) (e : TimerJobElement) (q : List TimerJobElement)
    → timed i (push e q) ≡ timed i q + is i (object_of e.task)
unfolding push
timed-push i e q = total-push_by (λ x. x.execution_tick) (λ x. is i (object_of x.task)) e q

AllTimed-push :
    (n : ℕ) (e : TimerJobElement) (q : List TimerJobElement)
    → IsFit n e.task
    → AllTimed n q
    → AllTimed n (push e q)
unfolding push
AllTimed-push n e [] h k = (h, tt)
AllTimed-push n e (x ∷ q) h k = elim (Bool-cases (leb x.execution_tick e.execution_tick)) [
  | inl le ↦ rw le (k.0, AllTimed-push n e q h k.1)
  | inr gt ↦ rw gt (h, k)
]

pub object-IsFit : (n : ℕ) (j : Job) → IsFit n j → object_of j < n
unfolding IsFit
object-IsFit n (job o name calls) h = h.0

pub calls-IsFit : (n : ℕ) (j : Job) → IsFit n j → IsFitCalls n (calls_of j)
unfolding IsFit
calls-IsFit n (job o name calls) h = h.1

pub Inv-push_timer_job :
    {r ow hd : List ℕ} {w : WorkerThread} (after : ℕ) (j : Job)
    → Inv r ow hd w
    → IsFit (length w.objects) j
    → Inv r ow hd (push_timer_job after j w)
unfolding push_timer_job modify
Inv-push_timer_job {w} after j v fit =
    let o = object_of j in
    let fits : o < length w.objects = object-IsFit (length w.objects) j fit in
    let e : TimerJobElement = record { task = j; execution_tick = after + w.tick_count } in
    let h = v.all o in
    change v o (size-modify add_ref_for_this o w)
      (AllTimed-push (length w.objects) e w.timer_job_queue fit v.timers)
      (λ i ne. (
        at-modify_other add_ref_for_this o i w fits ne,
        refl,
        refl,
        omega (arith, timed-push i e w.timer_job_queue, is_other i o ne),
      ))
      (subst (Holds (length w.objects) _ _ _) (sym (at-modify_self add_ref_for_this o w fits))
        (record {
          counted = h.counted;
          owned = h.owned;
          referred = omega (arith, h.referred, timed-push o e w.timer_job_queue, is_self o);
          order = h.order;
          fits = h.fits;
        }))
