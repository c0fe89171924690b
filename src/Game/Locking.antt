-- ===== src/Game/Locking.antt =====
-- The manager's lock is free again whenever a call returns, and no call but a broadcast waits for a
-- lock that its own thread holds.
use game_lift.Prelude.{
  ℕ, ◌≡◌, refl, Bool, true, false, List, [], ◌∷◌, Option, none, some, not, ◌&&◌, leb, if◌then◌else◌,
}
use game_lift.Packet.{max_player_per_game, login_result}
use game_lift.Server.State.{Result, ok, fault, accept_player, remove_player}
use game_lift.Overlapped
use game_lift.Overlapped.{DisconnectReason, dr_unauth, dr_logout, Session}
use game_lift.Game.State.{
  GameLiftManager, World, Services, Ending, returns, ends, hangs, fails, ◌>>=◌,
}
use game_lift.Game.Manager.{
  leave, enter, entered, left, check_terminate_game_session, accept_locked, accept_player_session,
  remove_locked, remove_player_session,
}
use game_lift.Game.Player.{
  has_player, put_session, put_id, on_disconnect, disconnect, posted, post_send, finish_login,
  player_login, player_logout,
}

-- A call does not wait for ever, and what it returns is free, as `f` tells.
abbrev pub Frees : {A : Type 0} → (A → Bool) → Ending A → Type 0
Frees f (returns a) = f a ≡ false
Frees f (ends code m) = Unit {0}
Frees f hangs = ⊥
Frees f (fails e) = Unit {0}

bind-Frees :
    {A : Type 0} {B : Type 0} (f : A → Bool) (g : B → Bool) (r : Ending A) (k : A → Ending B)
    → Frees f r
    → ((a : A) → f a ≡ false → Frees g (k a))
    → Frees g (r >>= k)
bind-Frees f g (returns a) k h later = later a h
bind-Frees f g (ends code m) k h later = tt
bind-Frees f g hangs k h later = h
bind-Frees f g (fails e) k h later = tt

if-Frees :
    {A : Type 0} (f : A → Bool) (b : Bool) (x y : Ending A)
    → Frees f x
    → Frees f y
    → Frees f (if b then x else y)
if-Frees f true x y h k = h
if-Frees f false x y h k = k

-- What holds of the lock does not matter while it is held.
abbrev held_inside : GameLiftManager → Bool
held_inside m = false

enter-Frees : (m : GameLiftManager) → m.locked ≡ false → Frees held_inside (enter m)
unfolding enter
enter-Frees m free = rw free refl

entered-Frees :
    (s : ℕ) (g : Option (List ℕ)) (m : GameLiftManager) → Frees held_inside (entered s g m)
unfolding entered
entered-Frees s none m = tt
entered-Frees s (some players) m = refl

left-Frees : (s : ℕ) (g : Option (List ℕ)) (m : GameLiftManager) → Frees held_inside (left s g m)
unfolding left
left-Frees s none m = tt
left-Frees s (some players) m = refl

check_terminate-Frees : (m : GameLiftManager) → Frees held_inside (check_terminate_game_session m)
unfolding check_terminate_game_session
check_terminate-Frees m =
    if-Frees held_inside
      ((leb max_player_per_game m.accepted_count && leb max_player_per_game m.removed_count)
        && m.activated)
      _ _ tt refl

module _ (env : Services) where
  accept_locked-Frees :
      (m : GameLiftManager) (s : ℕ) (id : List ℕ)
      → Frees (λ r. r.1.locked) (accept_locked env m s id)
  unfolding accept_locked
  accept_locked-Frees m s id =
      let asked = record m { calls = accept_player id ∷ m.calls } in
      if-Frees (λ r. r.1.locked) (env.accepts m.calls id) _ _
        (bind-Frees held_inside (λ r. r.1.locked) (entered s m.game_session asked)
          (λ m'. returns (true, leave m')) (entered-Frees s m.game_session asked) (λ m' h. refl))
        refl

  accept_player_session-Frees :
      (m : GameLiftManager) (s : ℕ) (id : List ℕ)
      → m.locked ≡ false
      → Frees (λ r. r.1.locked) (accept_player_session env m s id)
  unfolding accept_player_session
  accept_player_session-Frees m s id free =
      bind-Frees held_inside (λ r. r.1.locked) (enter m) (λ held. accept_locked env held s id)
        (enter-Frees m free) (λ held h. accept_locked-Frees held s id)

  remove_locked-Frees :
      (m : GameLiftManager) (s : ℕ) (id : List ℕ)
      → Frees (λ m'. m'.locked) (remove_locked env m s id)
  unfolding remove_locked
  remove_locked-Frees m s id =
      let asked = record m { calls = remove_player id ∷ m.calls } in
      bind-Frees held_inside (λ m'. m'.locked)
        (if env.removes m.calls id then left s m.game_session asked else returns asked)
        (λ m'. check_terminate_game_session m' >>= λ m''. returns (leave m''))
        (if-Frees held_inside (env.removes m.calls id) _ _ (left-Frees s m.game_session asked) refl)
        (λ m' h.
          bind-Frees held_inside (λ m''. m''.locked) (check_terminate_game_session m')
            (λ m''. returns (leave m'')) (check_terminate-Frees m') (λ m'' k. refl))

  remove_player_session-Frees :
      (m : GameLiftManager) (s : ℕ) (id : List ℕ)
      → m.locked ≡ false
      → Frees (λ m'. m'.locked) (remove_player_session env m s id)
  unfolding remove_player_session
  remove_player_session-Frees m s id free =
      bind-Frees held_inside (λ m'. m'.locked) (enter m) (λ held. remove_locked env held s id)
        (enter-Frees m free) (λ held h. remove_locked-Frees held s id)

  on_disconnect-Frees :
      (w : World) (s : ℕ)
      → w.manager.locked ≡ false
      → Frees (λ w'. w'.manager.locked) (on_disconnect env w s)
  unfolding on_disconnect
  on_disconnect-Frees w s free =
      if-Frees (λ w'. w'.manager.locked) (has_player (w.players s)) _ _
        (bind-Frees (λ m. m.locked) (λ w'. w'.manager.locked)
          (remove_player_session env w.manager s (w.players s).player_session_id)
          (λ m. returns (put_id (record w { manager = m }) s []))
          (remove_player_session-Frees w.manager s (w.players s).player_session_id free) (λ m h. h))
        free

  disconnect-Frees :
      (dr : DisconnectReason) (w : World) (s : ℕ)
      → w.manager.locked ≡ false
      → Frees (λ w'. w'.manager.locked) (disconnect env dr w s)
  unfolding disconnect
  disconnect-Frees dr w s free =
      if-Frees (λ w'. w'.manager.locked) (w.players s).session.connected _ _
        (on_disconnect-Frees (put_session w s (Overlapped.disconnect dr (w.players s).session)) s
          free)
        free

  posted-Frees :
      (w : World) (s : ℕ) (r : Result (Bool × Session))
      → w.manager.locked ≡ false
      → Frees (λ a. a.1.manager.locked) (posted env w s r)
  unfolding posted
  posted-Frees w s (fault e) free = tt
  posted-Frees w s (ok (sent, c)) free =
      if-Frees (λ a. a.1.manager.locked) ((w.players s).session.connected && not c.connected) _ _
        (bind-Frees (λ w'. w'.manager.locked) (λ a. a.1.manager.locked)
          (on_disconnect env (put_session w s c) s) (λ w'. returns (sent, w'))
          (on_disconnect-Frees (put_session w s c) s free) (λ w' h. h))
        free

  finish_login-Frees :
      (accepted : Bool) (w : World) (s : ℕ) (id : List ℕ)
      → w.manager.locked ≡ false
      → Frees (λ w'. w'.manager.locked) (finish_login env accepted w s id)
  unfolding finish_login post_send
  finish_login-Frees false w s id free = disconnect-Frees dr_unauth w s free
  finish_login-Frees true w s id free =
      let w' = put_id w s id in
      let c = (w'.players s).session in
      bind-Frees (λ a. a.1.manager.locked) (λ w''. w''.manager.locked)
        (post_send env w' s (login_result id)) (λ r. returns r.1)
        (posted-Frees w' s (Overlapped.post_send (env.takes s c) (login_result id) c) free)
        (λ r h. h)

  -- From a state in which the manager's lock is free, a login, a logout and a disconnect, whatever the
  -- services answer, never wait for the lock in vain; and if they return, the lock is free again.
  pub calls-Frees :
      (w : World) (s : ℕ) (id : List ℕ) (dr : DisconnectReason)
      → w.manager.locked ≡ false
      → Frees (λ w'. w'.manager.locked) (player_login env w s id)
        × Frees (λ w'. w'.manager.locked) (player_logout env w s id)
        × Frees (λ w'. w'.manager.locked) (disconnect env dr w s)
  unfolding player_login player_logout
  calls-Frees w s id dr free = (
    bind-Frees (λ r. r.1.locked) (λ w'. w'.manager.locked)
        (accept_player_session env w.manager s id)
        (λ r. finish_login env r.0 (record w { manager = r.1 }) s id)
        (accept_player_session-Frees w.manager s id free)
        (λ r h. finish_login-Frees r.0 (record w { manager = r.1 }) s id h),
    bind-Frees (λ m. m.locked) (λ w'. w'.manager.locked) (remove_player_session env w.manager s id)
        (λ m. disconnect env dr_logout (put_id (record w { manager = m }) s []) s)
        (remove_player_session-Frees w.manager s id free)
        (λ m h. disconnect-Frees dr_logout (put_id (record w { manager = m }) s []) s h),
    disconnect-Frees dr w s free,
  )
