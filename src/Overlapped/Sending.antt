-- ===== src/Overlapped/Sending.antt =====
-- What a session of the Windows server sends, whatever happens to it.
use game_lift.Prelude.{ℕ, ◌^◌, ◌<◌, ◌≡◌, refl, List, [], ◌∷◌, arith, length}
use game_lift.Buffer.{init, get_stored_size}
use game_lift.Buffer.Inv.{contents, init-IsValid}
use game_lift.Server.State.{ok}
use game_lift.Overlapped.{
  Session, new_session, on_connect, post_locked, post_send, do_iocp_job, Act, post, post_late,
  completion, close, act, act_all,
}
use game_lift.Overlapped.Flight.{
  IsSending, disconnect-IsSending, Yields, Yields-bind, Yields-then, Yields-post, Yields-ok,
}
use game_lift.Overlapped.Steps.{post_locked-IsSending, completed-IsSending}

act-IsSending : (a : Act) {s : Session} → IsSending s → Yields (λ s'. s') (act a s)
unfolding act post_send do_iocp_job
act-IsSending (post accepted bytes) {s} i =
    Yields-bind (λ r. r.1) (post_send accepted bytes s)
      (Yields-post s.connected (post_locked accepted bytes s)
        (post_locked-IsSending accepted bytes i) i)
act-IsSending (post_late accepted bytes) {s} i =
    Yields-bind (λ r. r.1) (post_locked accepted bytes s) (post_locked-IsSending accepted bytes i)
act-IsSending (completion accepted succeeded n) {s} i =
    completed-IsSending accepted succeeded n s.in_flight i refl i.stored.in_place
act-IsSending (close dr) i = disconnect-IsSending dr i.stored

act_all-Yields : (acts : List Act) {s : Session} → IsSending s → Yields (λ s'. s') (act_all acts s)
unfolding act_all
act_all-Yields [] i = i
act_all-Yields (a ∷ more) {s} i =
    Yields-then (act a s) (act_all more) (act-IsSending a i) (λ s' h. act_all-Yields more h)

contents-init : (storage : List ℕ) (size : ℕ) → contents (init storage size) ≡ []
unfolding init
contents-init storage size = refl

get_stored_size-init : (storage : List ℕ) (size : ℕ) → get_stored_size (init storage size) ≡ 0
unfolding init get_stored_size
get_stored_size-init storage size = refl

fresh-IsSending :
    (storage : List ℕ) (size : ℕ)
    → length storage ≡ size
    → size < 2 ^ 63
    → IsSending (on_connect (new_session storage size))
unfolding on_connect new_session
fresh-IsSending storage size h k = record {
  stored = record {
    valid = init-IsValid storage size h k;
    in_place = omega arith;
    no_loss = contents-init storage size;
  };
  moving = λ e f. (refl, get_stored_size-init storage size);
}

-- A session is made on storage of the size that it is told, and connects. Whatever is posted then, by
-- threads that test the connection before they wait for the lock or not, whatever the system takes
-- and sends, and whoever closes the session: no assertion fails; the system has at most one send,
-- which points at the oldest bytes; what was sent, followed by what is buffered, is what was posted;
-- and while the session is connected and has bytes, a send is on its way.
pub act_all-IsSending :
    (acts : List Act) (storage : List ℕ) (size : ℕ)
    → length storage ≡ size
    → size < 2 ^ 63
    → (s : Session) × (act_all acts (on_connect (new_session storage size)) ≡ ok s) × IsSending s
act_all-IsSending acts storage size h k =
    Yields-ok (act_all acts (on_connect (new_session storage size)))
      (act_all-Yields acts (fresh-IsSending storage size h k))
