-- ===== src/Server/State.antt =====
-- The objects of the server: the sessions, the table of clients and the manager; the services that
-- the code calls; the ways in which it can fail to return.
use game_lift.Prelude.{
  ℕ, ◌≡◌, ap, Bool, true, false, Option, none, some, List, [], ◌∷◌, ◌==◌, if◌then◌else◌,
}
use game_lift.Buffer.{CircularBuffer}

-- `class ClientSession`; a `std::string` is its bytes. The client's address is only printed.
pub record ClientSession : Type 0 where
  pub player_session_id : List ℕ
  pub connected : Bool
  pub logon : Bool
  pub socket : ℕ
  pub send_buffer : CircularBuffer
  pub recv_buffer : CircularBuffer

-- The calls of the GameLift SDK that change what the service knows.
pub data Call : Type 0 where
  accept_player : List ℕ → Call
  remove_player : List ℕ → Call
  activate_game : Call
  terminate_game : Call
  process_ending : Call

-- `class GameLiftManager`. The set of sessions is a list with no repetition; the order in which
-- `std::set` keeps them is that of their addresses. The counts are `int`s, whose overflow has no
-- meaning; no count can come to 2 ^ 31 in fewer calls than that.
pub record GameLiftManager : Type 0 where
  pub activated : Bool
  pub accepted_count : ℕ
  pub removed_count : ℕ
  pub player_sessions : List ℕ
  -- the calls of the SDK made so far, the last one first
  pub calls : List Call

-- A session object is named by a number, and `clients` is `mClientList`: socket and session.
pub record World : Type 0 where
  pub sessions : ℕ → ClientSession
  pub clients : List (ℕ × ℕ)
  pub manager : GameLiftManager

-- What is not code of the repository: the outcomes of the SDK's calls, given the calls before, and
-- of `setsockopt` on a socket.
pub record Services : Type 0 where
  pub accepts : List Call → List ℕ → Bool
  pub removes : List Call → List ℕ → Bool
  pub lingers : ℕ → Bool

-- Where the code has no defined result, or does not return.
pub data Fault : Type 0 where
  -- a range-for goes on from an element that was erased
  dead_iterator : Fault
  -- a `char` array without a zero byte is read as a string
  unterminated : Fault
  -- `CRASH_ASSERT` or `assert` fails
  assertion : Fault
  -- a null pointer is read through
  null_session : Fault
  -- the rounds that the model allows are used up
  still_running : Fault

pub data Result {ℓ} (A : Type ℓ) : Type ℓ where
  ok : A → Result A
  fault : Fault → Result A

ok_or {ℓ} : {A : Type ℓ} → A → Result A → A
ok_or a (ok b) = b
ok_or a (fault e) = a

pub ok-injective {ℓ} : {A : Type ℓ} {a b : A} → ok a ≡ ok b → a ≡ b
unfolding ok_or
ok-injective {a} e = ap (ok_or a) e

infixl 5 ◌>>=◌
abbrev pub ◌>>=◌ {ℓ κ} : {A : Type ℓ} {B : Type κ} → Result A → (A → Result B) → Result B
ok a >>= f = f a
fault e >>= f = fault e

abbrev pub or_fault {ℓ} : {A : Type ℓ} → Option A → Fault → Result A
or_fault none e = fault e
or_fault (some a) e = ok a

-- Writes to one session object.
abbrev pub update {ℓ} : {A : Type ℓ} → (ℕ → A) → ℕ → A → ℕ → A
update f i a j = if i == j then a else f j

abbrev pub put_session : World → ℕ → ClientSession → World
put_session w s c = record w { sessions = update w.sessions s c }

abbrev pub member : ℕ → List ℕ → Bool
member s [] = false
member s (t ∷ ts) = if s == t then true else member s ts

-- `std::set::insert` and `std::set::erase`.
unfoldable pub insert : ℕ → List ℕ → List ℕ
insert s ts = if member s ts then ts else s ∷ ts

unfoldable pub erase : ℕ → List ℕ → List ℕ
erase s [] = []
erase s (t ∷ ts) = if s == t then ts else t ∷ erase s ts

-- `std::map` from sockets to sessions.
unfoldable pub find_client : ℕ → List (ℕ × ℕ) → Option ℕ
find_client k [] = none
find_client k ((j, s) ∷ m) = if k == j then some s else find_client k m

-- `insert` keeps an entry that is there.
unfoldable pub insert_client : ℕ → ℕ → List (ℕ × ℕ) → List (ℕ × ℕ)
insert_client k s [] = (k, s) ∷ []
insert_client k s ((j, t) ∷ m) = if k == j then (j, t) ∷ m else (j, t) ∷ insert_client k s m

unfoldable pub erase_client : ℕ → List (ℕ × ℕ) → List (ℕ × ℕ)
erase_client k [] = []
erase_client k ((j, s) ∷ m) = if k == j then m else (j, s) ∷ erase_client k m
