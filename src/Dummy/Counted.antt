-- ===== src/Dummy/Counted.antt =====
-- About the reference count of a dummy player's session, and what refers to the session.
pub mod Sessions
pub mod Players
pub mod Completions
pub mod Runs
use game_lift.Prelude.{
  ℕ, suc, ◌+◌, ◌-◌, ◌≤◌, ◌≡◌, refl, sym, ap, subst, ◌∙◌, Bool, true, false, Bool-cases, ◌⊎◌, inl,
  inr, List, [], ◌∷◌, ltb, ◌==◌, if◌then◌else◌, arith, length, total,
}
use game_lift.Dummy.State.{
  Context, io_send, io_recv, io_recv_zero, io_disconnect, io_connect, PlayerSession, System, Crash,
  no_reference, nothing_sent, already_connected, socket_option, buffer_assertion, text_overrun,
  past_the_end, still_running, Ending, returns, crashes, ◌>>=◌,
}
use game_lift.Dummy.Ensures.{Ensures}
use game_lift.Dummy.Session.{add_ref, release_ref, start_io}

-- The crashes that are not about the count of references, of sends or of connections.
abbrev pub IsOther : Crash → Type 0
IsOther no_reference = ⊥
IsOther nothing_sent = ⊥
IsOther already_connected = ⊥
IsOther socket_option = Unit {0}
IsOther buffer_assertion = Unit {0}
IsOther text_overrun = Unit {0}
IsOther past_the_end = Unit {0}
IsOther still_running = Unit {0}

abbrev pub Safe {ℓ} : {A : Type ℓ} → (A → Type 0) → Ending A → Type 0
Safe = Ensures IsOther

-- Which contexts connect or disconnect, and which send.
abbrev pub linking : Context → ℕ
linking (io_send len) = 0
linking (io_recv at len) = 0
linking io_recv_zero = 0
linking (io_disconnect dr) = 1
linking io_connect = 1

abbrev pub sending : Context → ℕ
sending (io_send len) = 1
sending (io_recv at len) = 0
sending io_recv_zero = 0
sending (io_disconnect dr) = 0
sending io_connect = 0

abbrev pub linked : Bool → ℕ
linked true = 1
linked false = 0

-- What the counts are about.
pub record Counts : Type 0 where
  pub connected : Bool
  pub ref_count : ℕ
  pub send_requested_count : ℕ
  pub in_flight : List Context
  pub timers : ℕ
  pub held : ℕ
  pub released : ℕ

abbrev pub counts : PlayerSession → Counts
counts s = record {
  connected = s.connected;
  ref_count = s.ref_count;
  send_requested_count = s.send_requested_count;
  in_flight = s.in_flight;
  timers = s.timers;
  held = s.held;
  released = s.released;
}

-- What a session is between two calls, where `extra` references, `links` contexts that connect or
-- disconnect and `sends` contexts that send are in the hands of a running call.
pub record Inv (extra links sends : ℕ) (s : Counts) : Type 0 where
  pub refs : s.ref_count ≡ length s.in_flight + s.timers + s.held + extra
  pub phase : total linking s.in_flight + linked s.connected + links ≤ s.held
  pub once : s.held ≤ 1
  pub sent : total sending s.in_flight + sends ≤ s.send_requested_count
  pub unreleased : s.released ≡ 0

abbrev pub IsCounted : ℕ → ℕ → ℕ → PlayerSession → Type 0
IsCounted extra links sends s = Inv extra links sends (counts s)

pub release_ref-Safe :
    (x l n : ℕ) (s : PlayerSession)
    → IsCounted (suc x) l n s
    → Safe (IsCounted x l n) (release_ref s)
unfolding release_ref
release_ref-Safe x l n s v =
    let some_left : 1 ≤ s.ref_count = omega (arith, v.refs) in
    let positive : ltb 0 s.ref_count ≡ true = ground (arith, some_left) in
    let nonzero : (s.ref_count == 0) ≡ false = ground (arith, some_left) in
    rw positive (
      rw nonzero (record {
        refs = omega (arith, v.refs);
        phase = v.phase;
        once = v.once;
        sent = v.sent;
        unreleased = v.unreleased;
      }))

-- The session when the system has taken a new context, and when it has not.
abbrev pub taken_io : Context → PlayerSession → PlayerSession
taken_io c s = record s {
  calls = s.calls + 1;
  ref_count = s.ref_count + 1;
  in_flight = c ∷ s.in_flight;
}

abbrev pub refused_io : PlayerSession → PlayerSession
refused_io s = record s { calls = s.calls + 1; ref_count = s.ref_count + 1 - 1 }

pub start_io-cases :
    (env : System) (c : Context) (s : PlayerSession)
    → (start_io env c s ≡ returns (true, taken_io c s))
      ⊎ (start_io env c s ≡ returns (false, refused_io s))
unfolding start_io add_ref release_ref
start_io-cases env c s = elim (Bool-cases (env.accepts s.calls)) [
  | inl yes_ ↦ inl (rw yes_ refl)
  | inr no_ ↦
      let positive : ltb 0 (s.ref_count + 1) ≡ true = ground arith in
      let nonzero : (s.ref_count + 1 == 0) ≡ false = ground arith in
      inr (rw (no_, positive, nonzero) refl)
]

-- A context that does not send; `m` is what is in the caller's hands before.
pub start_io-Safe :
    (env : System) (c : Context) (x m l n : ℕ) (s : PlayerSession)
    → IsCounted x m n s
    → m ≡ linking c + l
    → sending c ≡ 0
    → Safe (λ r. IsCounted x l n r.1) (start_io env c s)
unfolding total
start_io-Safe env c x m l n s v links none_sent = elim (start_io-cases env c s) [
  | inl took ↦ subst (Safe (λ r. IsCounted x l n r.1)) (sym took) (record {
    refs = omega (arith, v.refs);
    phase = omega (arith, v.phase, links);
    once = v.once;
    sent = omega (arith, v.sent, none_sent);
    unreleased = v.unreleased;
  })
  | inr refused ↦ subst (Safe (λ r. IsCounted x l n r.1)) (sym refused) (record {
    refs = omega (arith, v.refs);
    phase = omega (arith, v.phase, links);
    once = v.once;
    sent = v.sent;
    unreleased = v.unreleased;
  })
]
