-- ===== src/Zeromq/Defs.antt =====
-- src/include/core/zeromq_handler.hpp: the state of a ZeroMQHandler, and the code's view of libzmq.
use flowdriver.Base.{ℕ, Text, List, [], ◌∷◌, Option, none, Bool, false, ℤ, pos}
use flowdriver.Types.{Error}

pub data Pattern : Type 0 where
  req_rep pub_sub push_pull dealer_router : Pattern

pub data Role : Type 0 where
  requester replier publisher subscriber pusher puller dealer router : Role

pub data ConnectionStatus : Type 0 where
  disconnected connecting connected error : ConnectionStatus

pub data SocketType : Type 0 where
  req rep publish subscribe push pull dealer router : SocketType

-- zmq::sockopt, and an option by its number, with the bytes of its value.
pub data SockOpt : Type 0 where
  linger : ℕ → SockOpt
  routing_id : Text → SockOpt
  rcvtimeo sndtimeo : ℤ → SockOpt
  immediate rcvhwm sndhwm reconnect_ivl : ℕ → SockOpt
  subscribes : Text → SockOpt
  raw : ℕ → Text → SockOpt

-- A call of libzmq; `sends m more` has the flag ZMQ_SNDMORE if `more`, `receives wait` does not
-- wait if `wait` is false.
pub data Call : Type 0 where
  creates : SocketType → Call
  sets : SockOpt → Call
  binds connects unbinds disconnects : Text → Call
  closes : Call
  sends : Text → Bool → Call
  receives : Bool → Call

-- zmq::error_t
pub record ZmqError : Type 0 where
  pub num : ℕ
  pub what : Text

pub data SendAnswer : Type 0 where
  sent would_block : SendAnswer
  failed : ZmqError → SendAnswer

pub data RecvAnswer : Type 0 where
  received : Text → RecvAnswer
  nothing : RecvAnswer
  failed : ZmqError → RecvAnswer

-- libzmq and the network behind it: any answers, which may depend on all the calls so far, the
-- latest first. `attempt` answers the calls that return nothing and may throw; `more` is the
-- option ZMQ_RCVMORE; `random` is the decimal text of a draw from the generator.
pub record Zmq : Type 0 where
  pub attempt : List Call → Option ZmqError
  pub send : List Call → SendAnswer
  pub recv : List Call → RecvAnswer
  pub more : List Call → Bool
  pub random : List Call → Text

-- What zmq::poll says of the one socket.
pub data PollAnswer : Type 0 where
  idle readable : PollAnswer
  failed : ZmqError → PollAnswer

-- The signals of a ZeroMQHandler.
pub data Signal : Type 0 where
  message_received error_occurred : Text → Signal
  connection_status_changed : Signal

-- `poll_thread` says that m_pollThread is not null. `calls` and `signals` are the libzmq calls
-- made and the signals emitted so far, the latest first.
pub record Handler : Type 0 where
  pub status : ConnectionStatus
  pub socket : Option SocketType
  pub pattern : Pattern
  pub role : Role
  pub endpoint : Text
  pub timeout : ℤ
  pub running : Bool
  pub poll_thread : Bool
  pub dealer_id : Text
  pub identity : Text
  pub router_queues : List (Text × List Text)
  pub messages_received : ℕ
  pub bytes_received : ℕ
  pub calls : List Call
  pub signals : List Signal

-- The constructor.
abbrev pub init : Handler
init = record {
  status = disconnected;
  socket = none;
  pattern = req_rep;
  role = requester;
  endpoint = [];
  timeout = pos 500;
  running = false;
  poll_thread = false;
  dealer_id = [];
  identity = [];
  router_queues = [];
  messages_received = 0;
  bytes_received = 0;
  calls = [];
  signals = [];
}

pub data Exception : Type 0 where
  zmq_error : ZmqError → Exception
  error : Error → Exception

-- `crash` is a call of a member of a null m_socket; `out_of_fuel` is no outcome of the code: a loop
-- of the model was given too few rounds.
pub data Outcome {ℓ} (A : Type ℓ) : Type ℓ where
  ok : A → Outcome A
  throws : Exception → Outcome A
  crash out_of_fuel : Outcome A

-- An exception leaves the handler as it was when it was thrown.
abbrev pub M : Type 0 → Type 0
M A = Handler → Outcome A × Handler

abbrev pub continue : {A B : Type 0} → Outcome A → (A → M B) → M B
continue (ok a) f h = f a h
continue (throws x) f h = (throws x, h)
continue crash f h = (crash, h)
continue out_of_fuel f h = (out_of_fuel, h)

infixl 5 ◌>>=◌ ◌>>◌
abbrev pub ◌>>=◌ : {A B : Type 0} → M A → (A → M B) → M B
◌>>=◌ m f h = continue (m h).0 f (m h).1

abbrev pub ◌>>◌ : {B : Type 0} → M (Unit {0}) → M B → M B
m >> k = m >>= λ _. k

abbrev pub return : {A : Type 0} → A → M A
return a h = (ok a, h)

abbrev pub throw : {A : Type 0} → Error → M A
throw e h = (throws (error e), h)

abbrev pub get : M Handler
get h = (ok h, h)

abbrev pub modify : (Handler → Handler) → M (Unit {0})
modify f h = (ok tt, f h)

abbrev pub emit : Signal → M (Unit {0})
emit s = modify λ h. record h { signals = s ∷ h.signals }

abbrev pub rescue : {A : Type 0} → Outcome A → (ZmqError → M A) → M A
rescue (throws (zmq_error e)) f h = f e h
rescue o f h = (o, h)

-- `try { m } catch (const zmq::error_t& e) { f e }`
abbrev pub catch_zmq : {A : Type 0} → M A → (ZmqError → M A) → M A
catch_zmq m f h = rescue (m h).0 f (m h).1

abbrev pub absorb : Outcome (Unit {0}) → M (Unit {0})
absorb (throws x) h = (ok tt, h)
absorb o h = (o, h)

-- `try { m } catch (const std::exception& e) {}`
abbrev pub catch_all : M (Unit {0}) → M (Unit {0})
catch_all m h = absorb (m h).0 (m h).1
