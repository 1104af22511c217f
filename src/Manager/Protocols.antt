-- ===== src/Manager/Protocols.antt =====
-- src/models/request_manager.cpp: the constructor, initializeProtocolHandler and setCurrentProtocol,
-- and what the manager does with the signals of its ZeroMQ handler.
use flowdriver.Base.{
  ℕ, suc, Text, codes, List, [], ◌∷◌, ◌++◌, Option, none, some, Bool, false, ◌==◌, is_empty,
  if◌then◌else◌, ◌||◌,
}
use flowdriver.Zeromq.Defs.{
  Handler as ZmqHandler, Signal as ZmqSignal, message_received,
  connection_status_changed as zmq_status_changed, error_occurred as zmq_error_occurred,
  init as zmq_init,
}
use flowdriver.Zeromq.Configure
use flowdriver.WebSocket.Defs.{init as ws_init}
use flowdriver.Grpc.Defs.{init as grpc_init}
use flowdriver.Auth.Model.{AuthModel}
use flowdriver.Manager.Defs.{
  World, Manager, Signal, ProtocolName, rest, web_socket, zeromq, grpc, protocol_name, message,
  emit, complain, protocol_changed, current_role_changed, connection_status_changed,
  auth_model_changed, response_received, error_occurred, invalid,
}
use flowdriver.Manager.GrpcCalls.{load_grpc_proto_file}

-- The roles whose messages are shown.
unfoldable pub receives : Text → Bool
receives role =
    role == codes "REPLIER"
    || role == codes "SUBSCRIBER"
    || role == codes "PULLER"
    || role == codes "ROUTER"

-- The signals connected to the ZeroMQ handler, the latest first.
unfoldable pub forwarded : Text → List ZmqSignal → List Signal
forwarded role [] = []
forwarded role (message_received t ∷ ss) =
    if receives role then response_received (message t) ∷ forwarded role ss else forwarded role ss
forwarded role (zmq_error_occurred t ∷ ss) = error_occurred t ∷ forwarded role ss
forwarded role (zmq_status_changed ∷ ss) = forwarded role ss

-- The ZeroMQ handler after a call, its signals passed on. Those of the polling thread are queued by Qt
-- until the event loop delivers them, and m_currentRole is read at the delivery: a step of the thread
-- stands here at the moment of the delivery.
abbrev pub keep_zmq : ℕ → ZmqHandler → Manager → Manager
keep_zmq id h m = record m {
  zmq = some (id, record h { signals = [] });
  signals = forwarded m.current_role h.signals ++ m.signals;
}

-- m_zmqHandler->cancel()
abbrev pub cancel_zmq : World → Option (ℕ × ZmqHandler) → Manager → Manager
cancel_zmq w none m = m
cancel_zmq w (some (id, h)) m = keep_zmq id (Configure.close w.zmq h).1 m

-- m_zmqHandler.reset(): the destructor closes the handler.
abbrev pub reset_zmq : World → Option (ℕ × ZmqHandler) → Manager → Manager
reset_zmq w none m = m
reset_zmq w (some (id, h)) m =
    let m' = cancel_zmq w (some (id, h)) m in
    elim m'.zmq [ none ↦ m' | some p ↦ record m' { zmq = none; retired = p.1 ∷ m'.retired } ]

-- The handlers of ZeroMQ, WebSocket and REST are cancelled and destroyed.
unfoldable pub release_handlers : World → Manager → Manager
release_handlers w m =
    let cancelled = cancel_zmq w m.zmq m in
    let m' = reset_zmq w cancelled.zmq cancelled in record m' { ws = none; rest = none }

-- A handler is allocated, unless its constructor throws.
abbrev constructed : (ℕ → Manager → Manager) → ℕ → Option Text → Manager → Manager
constructed f id none m =
    emit protocol_changed (f id (record m { handler = some id; allocated = suc id }))
constructed f id (some what) m =
    complain (codes "Failed to initialize protocol: " ++ what) (record m { allocated = suc id })

unfoldable pub construct : World → ProtocolName → Manager → Manager
construct w rest m =
    constructed (λ id m. record m { rest = some id }) m.allocated (w.constructs m.allocated) m
construct w web_socket m =
    constructed (λ id m. record m { ws = some (id, ws_init) }) m.allocated
      (w.constructs m.allocated) m
construct w zeromq m =
    constructed (λ id m. record m { zmq = some (id, zmq_init) }) m.allocated
      (w.constructs m.allocated) m
construct w _ m = emit protocol_changed m

-- initializeProtocolHandler
unfoldable pub initialize : World → Manager → Manager
initialize w m =
    construct w (protocol_name m.current_protocol)
      (record (release_handlers w m) { handler = none; is_connected = false })

-- The constructor.
unfoldable pub init : World → Manager
init w = initialize w record {
  is_loading = false;
  current_protocol = codes "REST";
  current_role = codes "DEALER";
  handler = none;
  current_request = invalid;
  zmq = none;
  rest = none;
  ws = none;
  retired = [];
  is_connected = false;
  auth_model = none;
  grpc = none;
  last_response = none;
  grpc_services = [];
  grpc_endpoint = codes "localhost:50051";
  grpc_use_ssl = false;
  current_grpc_service = [];
  current_grpc_method = [];
  grpc_service_methods = [];
  proto_file_path = [];
  allocated = 0;
  timers = 0;
  signals = [];
}

abbrev pub reload : World → Manager → Manager
reload w m = if is_empty m.proto_file_path then m else load_grpc_proto_file w m.proto_file_path m

abbrev pub enter : World → ProtocolName → Manager → Manager
enter w grpc m = reload w (record m {
  grpc = some (m.allocated, grpc_init);
  handler = some m.allocated;
  allocated = suc m.allocated;
})
enter w _ m = initialize w m

-- The protocol changes: the old handlers go, the new one is made. The future stays: a request in
-- flight then has a handler that is no more, which its thread may still use. Such a state is seen by
-- the number of the handler, which is not that of the REST handler of the manager.
unfoldable pub switch_protocol : World → Text → Manager → Manager
switch_protocol w protocol m =
    let m' = release_handlers w m in
    emit connection_status_changed (
      emit protocol_changed (
        enter w (protocol_name protocol)
          (record m' { grpc = none; current_protocol = protocol; is_connected = false })))

unfoldable pub set_current_protocol : World → Text → Manager → Manager
set_current_protocol w protocol m =
    if m.current_protocol == protocol then m else switch_protocol w protocol m

unfoldable pub set_current_role : Text → Manager → Manager
set_current_role role m =
    if m.current_role == role
    then m
    else emit current_role_changed (record m { current_role = role })

-- A model is given by its address: `same` says that it is the one that is set.
unfoldable pub set_auth_model : Bool → Option AuthModel → Manager → Manager
set_auth_model same model m =
    if same then m else emit auth_model_changed (record m { auth_model = model })
