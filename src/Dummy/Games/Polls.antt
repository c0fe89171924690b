-- ===== src/Dummy/Games/Polls.antt =====
-- About `CheckGameSessionPlacement`, and the questions that it asks.
use game_lift.Prelude.{
  ℕ, zero, suc, ◌+◌, ◌≤◌, ◌<◌, ◌≡◌, refl, ap, ap₂, subst, ◌∙◌, true, false, Option, none, some,
  List, arith,
}
use game_lift.Dummy.Games.{
  Place, PlacementState, pending, is_fulfilled, placed, GameSession, Service,
  check_game_session_placement, placement_started, start_game_session_placement,
}

-- The service answers, and the placement is not fulfilled.
abbrev pub NotYet : Option (PlacementState × Place) → Type 0
NotYet none = ⊥
NotYet (some (state, p)) = is_fulfilled state ≡ false

module _ (svc : Service) (gs : GameSession) where
  check-again :
      (fuel n : ℕ) (o : Option (PlacementState × Place))
      → svc.describes_placement n ≡ o
      → NotYet o
      → check_game_session_placement svc (suc fuel) n gs
        ≡ check_game_session_placement svc fuel (n + 1) gs
  unfolding check_game_session_placement
  check-again fuel n none e h = absurd h
  check-again fuel n (some (state, p)) e h = ground (arith, e, h)

  check_skips :
      (j fuel n : ℕ)
      → ((m : ℕ) → m < j → NotYet (svc.describes_placement (n + m)))
      → check_game_session_placement svc (j + fuel) n gs
        ≡ check_game_session_placement svc fuel (n + j) gs
  check_skips zero fuel n h =
      ap₂ (λ f m. check_game_session_placement svc f m gs) (omega arith) (omega arith)
  check_skips (suc j) fuel n h =
      let here : NotYet (svc.describes_placement n) =
        subst (λ m. NotYet (svc.describes_placement m)) (omega arith) (h 0 (omega arith)) in
      ap (λ f. check_game_session_placement svc f n gs) (omega arith)
      ∙ check-again (j + fuel) n (svc.describes_placement n) refl here
      ∙ check_skips j fuel (n + 1) (λ m lt.
        subst (λ k. NotYet (svc.describes_placement k)) (omega arith)
          (h (suc m) (omega (arith, lt))))
      ∙ ap (λ m. check_game_session_placement svc fuel m gs) (omega arith)

  check_ends :
      (fuel n : ℕ) (o : Option (PlacementState × Place))
      → svc.describes_placement n ≡ o
      → (o ≡ none → check_game_session_placement svc (suc fuel) n gs ≡ some (false, gs))
        × ((q : PlacementState × Place)
            → o ≡ some q
            → is_fulfilled q.0 ≡ true
            → check_game_session_placement svc (suc fuel) n gs ≡ some (true, placed gs q.1))
  unfolding check_game_session_placement
  check_ends fuel n o e = (
    λ failure. ground (arith, e, failure),
    λ (state, p) found good. ground (arith, e, found, good),
  )

-- `StartGameSessionPlacement` when the new placement is pending, and the first `k` questions about it
-- are answered, but it is not fulfilled, be it that it has failed, was cancelled or timed out. If it is
-- fulfilled at the next question, then the call returns true, with the place that the service gave and
-- in its region; if that question fails, then it returns false; and until then it does not return, but
-- asks again.
pub start_placement_lem :
    (svc : Service) (region : List ℕ) (gs : GameSession) (p : Place) (k : ℕ)
    → svc.starts_placement ≡ some (pending, p)
    → ((n : ℕ) → n < k → NotYet (svc.describes_placement n))
    → ((q : PlacementState × Place)
        → svc.describes_placement k ≡ some q
        → is_fulfilled q.0 ≡ true
        → (fuel : ℕ)
        → start_game_session_placement svc (k + suc fuel) region gs ≡ some (true, placed gs q.1))
      × (svc.describes_placement k ≡ none
          → (fuel : ℕ)
          → start_game_session_placement svc (k + suc fuel) region gs
            ≡ some (false, record gs { region = region }))
      × ((fuel : ℕ) → fuel ≤ k → start_game_session_placement svc fuel region gs ≡ none)
start_placement_lem svc region gs p k started not_yet =
    let gs' : GameSession = record gs { region = region } in
    let skips = λ (fuel : ℕ).
      check_skips svc gs' k (suc fuel) 0
        (λ m lt. subst (λ i. NotYet (svc.describes_placement i)) (omega arith) (not_yet m lt))
      ∙ ap (λ i. check_game_session_placement svc (suc fuel) i gs') (omega arith) in
    (
      λ q found good fuel.
          begins (k + suc fuel)
          ∙ skips fuel
          ∙ (check_ends svc gs' fuel k (svc.describes_placement k) refl).1 q found good,
      λ failure fuel.
          begins (k + suc fuel)
          ∙ skips fuel
          ∙ (check_ends svc gs' fuel k (svc.describes_placement k) refl).0 failure,
      λ fuel few.
          begins fuel
          ∙ ap (λ f. check_game_session_placement svc f 0 gs') (omega arith)
          ∙ check_skips svc gs' fuel 0 0 (λ m lt.
            subst (λ i. NotYet (svc.describes_placement i)) (omega arith)
              (not_yet m (omega (arith, lt, few))))
          ∙ ends (0 + fuel),
    )
  where
    begins :
        (fuel : ℕ)
        → start_game_session_placement svc fuel region gs
          ≡ check_game_session_placement svc fuel 0 (record gs { region = region })
    begins fuel = unfold start_game_session_placement placement_started in ground (arith, started)

    ends : (n : ℕ) → check_game_session_placement svc 0 n (record gs { region = region }) ≡ none
    ends n = unfold check_game_session_placement in refl
