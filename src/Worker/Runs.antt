-- ===== src/Worker/Runs.antt =====
-- About the loops of `Flush` and `DoTask`.
use game_lift.Prelude.{
  ℕ, zero, suc, ◌+◌, ◌<◌, ◌≡◌, refl, ap, ◌∙◌, some, List, [], ◌∷◌, arith, length, total,
}
use game_lift.Worker.{
  WorkerThread, at, modify, release_ref_for_this, and_then, drain_turn, flush, drain,
}
use game_lift.Worker.Work.{
  nothing, one, waiting, work-modify, is, times, Keeps-refl, Keeps-trans, Keeps-modify,
}
use game_lift.Worker.Inv.{Inv}
use game_lift.Worker.Steps.{Inv-release}
use game_lift.Worker.Flushes.{get_or_beyond, Runs, flush_lem}

drain_next :
    (fuel o : ℕ) (rest : List ℕ) (w w1 : WorkerThread)
    → w.executer_list ≡ o ∷ rest
    → flush fuel o (record w { executer_list = rest }) ≡ some w1
    → drain (suc fuel) w ≡ drain fuel (modify release_ref_for_this o w1)
unfolding drain drain_turn
drain_next fuel o rest w w1 list ran =
    ap (λ x. drain_turn (drain fuel) (flush fuel) x w) list
    ∙ ap (λ m. and_then m (λ w'. drain fuel (modify release_ref_for_this o w'))) ran

module _ (c : ℕ) (hd : List ℕ) where
  -- An object leaves the list, and is held by the loop.
  take_waiting :
      (o : ℕ) (rest : List ℕ) (w : WorkerThread)
      → w.executer_list ≡ o ∷ rest
      → Inv [] [] hd w
      → Inv [] (o ∷ []) (o ∷ hd) (record w { executer_list = rest })
  unfolding total
  take_waiting o rest w list v = record {
    all = λ i. record {
      counted = (v.all i).counted;
      owned = omega (arith, (v.all i).owned, ap (times i) list);
      referred = omega (arith, (v.all i).referred, ap (times i) list);
      order = (v.all i).order;
      fits = (v.all i).fits;
    };
    timers = v.timers;
  }

  drain_lem :
      (fuel : ℕ) (list : List ℕ) (w : WorkerThread)
      → w.current_executer ≡ some c
      → Inv [] [] hd w
      → w.executer_list ≡ list
      → waiting w + 1 < fuel
      → (w' : WorkerThread) × (drain fuel w ≡ some w') × Runs hd 0 w w' × (w'.executer_list ≡ [])
  unfolding total modify
  drain_lem zero list w cur v same h = absurd (omega arith)
  drain_lem (suc fuel) [] w cur v same h = (
    w,
    done,
    record { holds = v; keeps = Keeps-refl w; balance = λ f. refl; less = omega arith },
    same,
  )
    where
      done : drain (suc fuel) w ≡ some w
      done = unfold drain drain_turn in ap (λ x. drain_turn (drain fuel) (flush fuel) x w) same
  drain_lem (suc fuel) (o ∷ rest) w cur v same h =
      let w0 : WorkerThread = record w { executer_list = rest } in
      let (w1, ran, r1) =
        flush_lem c o (o ∷ hd) fuel (at w0 o).job_queue w0 cur (take_waiting o rest w same v) refl
          (omega (arith, h)) in
      let fits : o < length w1.objects = omega (
        arith,
        r1.keeps.size,
        get_or_beyond w.objects o (omega (arith, (v.all o).owned, ap (times o) same, is_here)),
      ) in
      let w2 = modify release_ref_for_this o w1 in
      let v2 : Inv [] [] hd w2 =
        Inv-release o fits w1.current_executer w1.timer_job_queue r1.holds r1.holds.timers
          (λ i. omega arith) in
      let k2 = Keeps-trans r1.keeps (Keeps-modify release_ref_for_this o w1) in
      let (w3, done, r3, none_left) =
        drain_lem fuel w2.executer_list w2 (k2.current ∙ cur) v2 refl
          (omega (arith, r1.less, h, work-modify nothing one release_ref_for_this o w1 fits)) in
      (
        w3,
        drain_next fuel o rest w w1 same ran ∙ done,
        record {
          holds = r3.holds;
          keeps = record {
            size = (Keeps-trans k2 r3.keeps).size;
            current = (Keeps-trans k2 r3.keeps).current;
            tick = (Keeps-trans k2 r3.keeps).tick;
            timer = (Keeps-trans k2 r3.keeps).timer;
          };
          balance = λ f.
              omega
                (arith, r3.balance f, work-modify f f release_ref_for_this o w1 fits, r1.balance f);
          less =
              omega
                (arith, r3.less, work-modify nothing one release_ref_for_this o w1 fits, r1.less);
        },
        none_left,
      )
    where
      is_here : is o o ≡ 1
      is_here = ground arith

-- What `DoTask` does for the first job of a thread: `Flush`, and the loop over the others.
pub flush-drain :
    (c o fuel : ℕ) (hd : List ℕ) (w : WorkerThread)
    → w.current_executer ≡ some c
    → Inv [] (o ∷ []) hd w
    → waiting w + 1 < fuel
    → (w' : WorkerThread) × (and_then (flush fuel o w) (drain fuel) ≡ some w')
      × Runs hd 1 w w'
      × (w'.executer_list ≡ [])
flush-drain c o fuel hd w cur v h =
    let (w1, flushed, r1) =
      flush_lem c o hd fuel (at w o).job_queue w cur v refl (omega (arith, h)) in
    let (w2, drained, r2, none_left) =
      drain_lem c hd fuel w1.executer_list w1 (r1.keeps.current ∙ cur) r1.holds refl
        (omega (arith, h, r1.less)) in
    (
      w2,
      ap (λ r. and_then r (drain fuel)) flushed ∙ drained,
      record {
        holds = r2.holds;
        keeps = Keeps-trans r1.keeps r2.keeps;
        balance = λ f. r2.balance f ∙ r1.balance f;
        less = omega (arith, r1.less, r2.less);
      },
      none_left,
    )
