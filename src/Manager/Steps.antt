-- ===== src/Manager/Steps.antt =====
-- What can happen to a RequestManager: the calls of the interface, and the events that Qt's loop
-- brings.
use flowdriver.Base.{
  ℕ, Text, List, [], ◌∷◌, Option, Bool, true, false, not, zero, suc, ◌≡◌, ◌||◌, ◌&&◌, if◌then◌else◌,
  none, some,
}
use flowdriver.Types.{Header}
use flowdriver.Auth.Model.{AuthModel}
use flowdriver.Zeromq.Defs.{Signal as ZmqSignal}
use flowdriver.WebSocket.Defs.{Notice, Handler as SocketHandler}
use flowdriver.WebSocket.Exchange.{Completion, on_read, on_aborted}
use flowdriver.Manager.Notices.{on_socket}
use flowdriver.Manager.Defs.{World, Manager, Run, done, Future, invalid, pending}
use flowdriver.Manager.Protocols.{init, set_current_protocol, set_current_role, set_auth_model}
use flowdriver.Manager.GrpcCalls.{
  load_grpc_proto_file, set_grpc_service, set_grpc_method, set_grpc_endpoint, set_grpc_use_ssl,
  set_proto_file_path, execute_grpc_request,
}
use flowdriver.Manager.Requests.{
  execute_request, cancel_request, check_request, connect_web_socket, disconnect,
  send_web_socket_message, Answer, is_at, is_id,
}
use flowdriver.Manager.Messages.{
  connect_zmq, execute_zmq_request, on_zmq_signal, export_response, clear_messages,
}

pub data Event : Type 0 where
  protocol_chosen role_chosen : Text → Event
  auth_model_given : Bool → Option AuthModel → Event
  request : Text → Text → List Header → Text → Event
  cancelled cleared disconnection : Event
  socket_read : Completion → Event
  socket_aborted : Text → Event
  timer : Answer → Event
  socket_url message format : Text → Event
  zmq_signal : ZmqSignal → Event
  zmq_endpoint : Text → Text → Text → Event
  zmq_request : Text → Text → Text → Text → Event
  proto_loaded service_chosen method_chosen endpoint_chosen proto_chosen : Text → Event
  ssl_chosen : Bool → Event
  grpc_request : (ℕ → Text) → Text → Event

unfoldable pub is_due : ℕ → Bool
is_due zero = false
is_due (suc n) = true

-- A timer can fire only where one is due.
unfoldable pub step : World → Event → Manager → Run
step w (protocol_chosen p) m = done (set_current_protocol w p m)
step w (role_chosen r) m = done (set_current_role r m)
step w (auth_model_given same a) m = done (set_auth_model same a m)
step w (request method url headers body) m = execute_request w method url headers body m
step w cancelled m = cancel_request w m
step w cleared m = done (clear_messages m)
step w disconnection m = done (disconnect w m)
step w (socket_read c) m = done (on_socket (on_read c) m.ws m)
step w (socket_aborted t) m = done (on_socket (on_aborted t) m.ws m)
step w (timer a) m = if is_due m.timers then done (check_request a m) else done m
step w (socket_url url) m = done (connect_web_socket w url m)
step w (message t) m = send_web_socket_message w t m
step w (format f) m = done (export_response f m)
step w (zmq_signal s) m = done (on_zmq_signal s m)
step w (zmq_endpoint endpoint pattern role) m = connect_zmq w endpoint pattern role m
step w (zmq_request method endpoint role body) m = execute_zmq_request w method endpoint role body m
step w (proto_loaded path) m = done (load_grpc_proto_file w path m)
step w (service_chosen s) m = done (set_grpc_service s m)
step w (method_chosen t) m = set_grpc_method t m
step w (endpoint_chosen e) m = done (set_grpc_endpoint e m)
step w (proto_chosen path) m = done (set_proto_file_path w path m)
step w (ssl_chosen on) m = done (set_grpc_use_ssl on m)
step w (grpc_request decimal body) m = execute_grpc_request w decimal body m

-- The managers that the constructor and any events lead to; what is around may differ at each event.
pub data Reachable : Manager → Type 0 where
  starts : (w : World) → Reachable (init w)
  steps :
      {m m' : Manager} (w : World) (e : Event) → Reachable m → step w e m ≡ done m' → Reachable m'

-- m_handler is null, or it is the address of a handler that the manager owns.
unfoldable pub is_owned : Option ℕ → Manager → Bool
is_owned none m = true
is_owned (some k) m = is_at k m.zmq || is_at k m.grpc || is_id k m.rest || is_at k m.ws

unfoldable pub is_pending : Future → Bool
is_pending invalid = false
is_pending (pending id config) = true

-- While the manager is loading, a request is in flight and a check of it is due.
unfoldable pub is_awaited : Bool → ℕ → Future → Bool
is_awaited loading timers f = not loading || is_pending f && is_due timers

-- The WebSocket handler has no signal that was not passed on.
abbrev pub is_silent : List Notice → Bool
is_silent [] = true
is_silent (x ∷ xs) = false

abbrev pub is_quiet : Option (ℕ × SocketHandler) → Bool
is_quiet none = true
is_quiet (some (id, h)) = is_silent h.notices

-- `is_kept a`: besides that, `a` holds of the parts of the state that a request is awaited with.
unfoldable pub waits : (Bool → ℕ → Future → Bool) → Manager → Bool
waits a m = a m.is_loading m.timers m.current_request && is_quiet m.ws

unfoldable pub is_kept : (Bool → ℕ → Future → Bool) → Manager → Bool
is_kept a m = is_owned m.handler m && waits a m

unfoldable pub is_sound : Manager → Bool
is_sound m = is_kept is_awaited m
