-- ===== src/Dummy/Games/Prepares.antt =====
-- About `PreparePlayerSessions`, and the players that it leaves.
use game_lift.Prelude.{
  ℕ, zero, suc, ◌+◌, ◌<◌, ◌≡◌, refl, Bool, true, false, Bool-cases, inl, inr, List, [], ◌∷◌, ◌++◌,
  arith, length, length-append,
}
use game_lift.Dummy.State.{PlayerSession, new_player}
use game_lift.Dummy.Counted.Runs.{IsFresh}
use game_lift.Dummy.Games.{Service, prepare_from}

abbrev pub AllFresh : List PlayerSession → Type 0
AllFresh [] = Unit {0}
AllFresh (s ∷ ss) = IsFresh s × AllFresh ss

new_player-IsFresh : (xs ys : List ℕ) → IsFresh (new_player xs ys)
unfolding new_player
new_player-IsFresh xs ys = record {
  no_reference_yet = refl;
  off = refl;
  none_in_flight = refl;
  no_timers = refl;
  not_held = refl;
  none_sent = refl;
  not_released = refl;
}

AllFresh-append : (xs ys : List PlayerSession) → AllFresh xs → AllFresh ys → AllFresh (xs ++ ys)
AllFresh-append [] ys h k = k
AllFresh-append (x ∷ xs) ys h k = (h.0, AllFresh-append xs ys h.1 k)

-- What `PreparePlayerSessions` leaves: players that are new, all of them or too few.
pub record Prepared (n : ℕ) (r : Bool × List PlayerSession) : Type 0 where
  pub all_fresh : AllFresh r.1
  pub enough : r.0 ≡ true → length r.1 ≡ n
  pub too_few : r.0 ≡ false → length r.1 < n

pub prepare_from-Prepared :
    (svc : Service) (left i : ℕ) (ready : List PlayerSession)
    → AllFresh ready
    → Prepared (length ready + left) (prepare_from svc left i ready)
unfolding prepare_from
prepare_from-Prepared svc zero i ready h = record {
  all_fresh = h;
  enough = λ _. omega arith;
  too_few = λ e. cc e;
}
prepare_from-Prepared svc (suc left) i ready h =
    let client = new_player (svc.storage i).0 (svc.storage i).1 in
    let more = ready ++ (client ∷ []) in
    let r = prepare_from-Prepared svc left (i + 1) more (
      AllFresh-append ready (client ∷ []) h
        (new_player-IsFresh (svc.storage i).0 (svc.storage i).1, tt)) in
    elim (Bool-cases (svc.prepares i)) [
      | inl prepared ↦ rw prepared (record {
        all_fresh = r.all_fresh;
        enough = λ e. omega (arith, r.enough e, length-append ready (client ∷ []));
        too_few = λ e. omega (arith, r.too_few e, length-append ready (client ∷ []));
      })
      | inr broken ↦
          rw broken (record { all_fresh = h; enough = λ e. cc e; too_few = λ _. omega arith })
    ]
