-- ===== src/Manager/Defs.antt =====
-- The state of a RequestManager, its signals, and what is around it.
use flowdriver.Base.{ℕ, Text, codes, List, ◌∷◌, Option, none, some, Bool, ◌==◌, if◌then◌else◌}
use flowdriver.Types.{Header, Error, RequestConfig, RequestResult}
use flowdriver.Zeromq.Defs.{Zmq, Handler as ZmqHandler}
use flowdriver.WebSocket.Defs.{Net, Handler as SocketHandler}
use flowdriver.Grpc.Defs.{Grpc, Handler as GrpcHandler}
use flowdriver.Auth.Model.{AuthModel}

-- A response, as the QVariantMap that the signals carry; an entry that is not set is `none`.
pub record Response : Type 0 where
  pub status_code : ℕ
  pub body : Text
  pub error : Option Text
  pub headers : Option (List Header)
  pub content_type : Option Text

-- A message, as such a map.
abbrev pub message : Text → Response
message body = record {
  status_code = 200;
  body = body;
  error = none;
  headers = none;
  content_type = none;
}

-- convertResultToVariantMap
abbrev pub convert_result : RequestResult → Response
convert_result r = record {
  status_code = r.status_code;
  body = r.body;
  error = some r.error;
  headers = some r.headers;
  content_type = none;
}

pub data Signal : Type 0 where
  loading_changed protocol_changed current_role_changed connection_status_changed : Signal
  connected disconnected auth_model_changed grpc_services_changed grpc_endpoint_changed : Signal
  grpc_use_ssl_changed proto_file_path_changed export_completed messages_cleared : Signal
  response_received : Response → Signal
  error_occurred message_sent : Text → Signal
  export_requested : Text → Response → Signal

-- m_currentRequest: no future, or that of a request which a RestHandler executes.
pub data Future : Type 0 where
  invalid : Future
  pending : ℕ → RequestConfig → Future

-- Each handler has the number of its allocation for its address. `timers` counts the single shots
-- of checkRequest to come, and `signals` are those emitted so far, the latest first. The signals of
-- the ZeroMQ handler and of the WebSocket handler are taken from them when they are emitted, and
-- `retired` are the ZeroMQ handlers as their destructor left them, the latest first.
pub record Manager : Type 0 where
  pub is_loading : Bool
  pub current_protocol : Text
  pub current_role : Text
  pub handler : Option ℕ
  pub current_request : Future
  pub zmq : Option (ℕ × ZmqHandler)
  pub rest : Option ℕ
  pub ws : Option (ℕ × SocketHandler)
  pub retired : List ZmqHandler
  pub is_connected : Bool
  pub auth_model : Option AuthModel
  pub grpc : Option (ℕ × GrpcHandler)
  pub last_response : Option Response
  pub grpc_services : List Text
  pub grpc_endpoint : Text
  pub grpc_use_ssl : Bool
  pub current_grpc_service : Text
  pub current_grpc_method : Text
  pub grpc_service_methods : List (Text × List Text)
  pub proto_file_path : Text
  pub allocated : ℕ
  pub timers : ℕ
  pub signals : List Signal

-- What the manager meets: libzmq, gRPC, Qt's base64 encoder, the exceptions that the constructors of
-- the handlers and std::async may throw, and what a WebSocket meets.
pub record World : Type 0 where
  pub zmq : Zmq
  pub grpc : Grpc
  pub base64 : Text → Text
  pub constructs : ℕ → Option Text
  pub launches : RequestConfig → Option Text
  pub websocket : Net

-- What an operation may let out to the event loop: an Error, or another exception of that text.
pub data Thrown : Type 0 where
  error : Error → Thrown
  exception : Text → Thrown

-- An operation returns, or lets an exception out, or is undefined: it uses a
-- null or a dangling pointer, or reads a stream while another read of it is pending.
pub data Run : Type 0 where
  done : Manager → Run
  escapes : Thrown → Run
  crashes : Run

abbrev pub emit : Signal → Manager → Manager
emit s m = record m { signals = s ∷ m.signals }

abbrev pub complain : Text → Manager → Manager
complain t = emit (error_occurred t)

-- The protocols that the manager knows.
pub data ProtocolName : Type 0 where
  rest web_socket zeromq grpc other : ProtocolName

unfoldable pub protocol_name : Text → ProtocolName
protocol_name p =
    if p == codes "REST"
    then rest
    else if p == codes "WebSocket"
    then web_socket
    else if p == codes "ZeroMQ"
    then zeromq
    else if p == codes "gRPC"
    then grpc
    else other
