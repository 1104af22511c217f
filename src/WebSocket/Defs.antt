-- ===== src/WebSocket/Defs.antt =====
-- src/core/websocket_handler.cpp: the state of a WebSocketHandler with its Impl, and the code's
-- view of Boost.URL, Boost.Asio and Boost.Beast.
use flowdriver.Base.{ℕ, Text, List, [], ◌∷◌, Option, none, some, Bool, false}
use flowdriver.Types.{Header, Error}
use flowdriver.Rest.Defs.{Failure}

-- A parsed URL; `port` is `none` where has_port says no.
pub record Uri : Type 0 where
  pub scheme : Text
  pub host : Text
  pub port : Option Text
  pub path : Text
  pub query : Text

-- The calls on the resolver and the stream, in which `secure` is the alternative of the variant;
-- `starts_read` is async_read.
pub data Call : Type 0 where
  resolves : Text → Text → Call
  sets_server_name : Text → Call
  connects tls_handshakes : Call
  handshakes : Bool → Text → Text → List Header → Call
  writes : Bool → Text → Call
  reads starts_read closes : Bool → Call

-- The libraries and the network: any answers, which may depend on all the calls so far, the latest
-- first. `found` says that the resolver's results are not empty, `message` is what a read has read.
pub record Net : Type 0 where
  pub parse_uri : Text → Option Uri
  pub attempt : List Call → Option Failure
  pub found : List Call → Bool
  pub message : List Call → Text

-- The signals, and the calls of callbacks that replaced those of the constructor.
pub data Notice : Type 0 where
  connected disconnected : Notice
  message_received error_occurred : Text → Notice
  message_handed : Text → Notice
  error_handed : Error → Notice

-- `stream` is the stream in ws_, if its pointer is not null: true with TLS, false without.
-- `reading` says that an async_read of it is pending, and `aborted` counts those of destroyed
-- streams. `custom_messages` says that setMessageHandler was called, `error_handler` that
-- setErrorHandler was.
pub record Handler : Type 0 where
  pub stream : Option Bool
  pub reading : Bool
  pub aborted : ℕ
  pub custom_messages : Bool
  pub error_handler : Bool
  pub calls : List Call
  pub notices : List Notice

-- The constructor.
abbrev pub init : Handler
init = record {
  stream = none;
  reading = false;
  aborted = 0;
  custom_messages = false;
  error_handler = false;
  calls = [];
  notices = [];
}

pub data Exception : Type 0 where
  failure : Failure → Exception
  error : Error → Exception

-- `misused` is a second read of a stream while one is pending, which Boost.Beast forbids.
pub data Outcome {ℓ} (A : Type ℓ) : Type ℓ where
  ok : A → Outcome A
  throws : Exception → Outcome A
  misused : Outcome A

-- An exception leaves the handler as it was when it was thrown.
abbrev pub M : Type 0 → Type 0
M A = Handler → Outcome A × Handler

abbrev pub and_then : {A B : Type 0} → Outcome A → (A → M B) → M B
and_then (ok a) f h = f a h
and_then (throws x) f h = (throws x, h)
and_then misused f h = (misused, h)

infixl 5 ◌>>=◌ ◌>>◌
abbrev pub ◌>>=◌ : {A B : Type 0} → M A → (A → M B) → M B
◌>>=◌ m f h = and_then (m h).0 f (m h).1

abbrev pub ◌>>◌ : {B : Type 0} → M (Unit {0}) → M B → M B
m >> k = m >>= λ _. k

abbrev pub return : {A : Type 0} → A → M A
return a h = (ok a, h)

abbrev pub throw : {A : Type 0} → Exception → M A
throw x h = (throws x, h)

abbrev pub modify : (Handler → Handler) → M (Unit {0})
modify f h = (ok tt, f h)

abbrev pub notify : Notice → M (Unit {0})
notify n = modify λ h. record h { notices = n ∷ h.notices }

-- A call that cannot fail.
abbrev pub note : Call → M (Unit {0})
note c = modify λ h. record h { calls = c ∷ h.calls }

abbrev answered : Option Failure → M (Unit {0})
answered none h = (ok tt, h)
answered (some f) h = (throws (failure f), h)

module _ (n : Net) where
  -- A call that throws what the network answers.
  unfoldable pub call : Call → M (Unit {0})
  call c h = answered (n.attempt (c ∷ h.calls)) (record h { calls = c ∷ h.calls })
