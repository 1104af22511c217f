-- ===== src/Manager/Requests.antt =====
-- src/models/request_manager.cpp: REST requests and the connection of a WebSocket.
use flowdriver.Base.{
  ℕ, suc, ◌-◌, Text, codes, List, [], ◌++◌, Option, none, some, Bool, true, false, not, ◌==◌, ◌||◌,
  ◌&&◌, is_empty, nat_eq, if◌then◌else◌, starts_with,
}
use flowdriver.Types.{Header, RequestConfig, RequestResult, default_config}
use flowdriver.Auth.Model.{AuthModel, get_auth_headers}
use flowdriver.Grpc.Services.{cancel}
use flowdriver.Manager.Defs.{
  World, Manager, Thrown, Run, done, escapes, crashes, Future, invalid, pending, emit, complain,
  convert_result, loading_changed, response_received, connection_status_changed, disconnected,
  message_sent,
}
use flowdriver.WebSocket.Defs.{Handler, Outcome, ok, throws, misused}
use flowdriver.WebSocket.Connect
use flowdriver.WebSocket.Exchange
use flowdriver.Manager.Notices.{keep_ws, cancel_ws}
use flowdriver.Manager.Protocols.{cancel_zmq, set_current_protocol}

unfoldable pub is_valid_method : Text → Bool
is_valid_method m =
    m == codes "GET"
    || m == codes "POST"
    || m == codes "PUT"
    || m == codes "DELETE"
    || m == codes "PATCH"
    || m == codes "HEAD"
    || m == codes "OPTIONS"

-- What validateRestRequest complains of, if anything.
unfoldable pub validate_rest_request : Text → Text → Option Text
validate_rest_request method url =
    if is_empty url
    then some (codes "URL cannot be empty")
    else if not (starts_with url (codes "http://")) && not (starts_with url (codes "https://"))
    then some (codes "URL must start with http:// or https://")
    else if not (is_valid_method method)
    then some (codes "Invalid HTTP method: " ++ method)
    else none

unfoldable pub prepare_config : Text → Text → List Header → Text → RequestConfig
prepare_config method url headers body = record default_config {
  method = method;
  url = url;
  headers = headers;
  body = body;
}

unfoldable pub auth_headers : World → Option AuthModel → List Header
auth_headers w none = []
auth_headers w (some a) = get_auth_headers w.base64 a

abbrev pub with_auth : World → Option AuthModel → RequestConfig → RequestConfig
with_auth w a config = record config { headers = config.headers ++ auth_headers w a }

abbrev pub finish : Manager → Manager
finish m = emit loading_changed (record m { is_loading = false })

-- std::async starts the request, and the first check of it is due; or it throws.
abbrev pub launched : ℕ → RequestConfig → Option Text → Manager → Manager
launched id config none m = record m { current_request = pending id config; timers = suc m.timers }
launched id config (some what) m = complain (codes "Error: " ++ what) (finish m)

abbrev pub launch : World → Option ℕ → RequestConfig → Manager → Run
launch w none config m = crashes
launch w (some id) config m = done (launched id config (w.launches config) m)

unfoldable pub start_request : World → RequestConfig → Manager → Run
start_request w config m =
    let m' =
      set_current_protocol w (codes "REST")
        (emit loading_changed (record m { is_loading = true })) in
    launch w m'.rest (with_auth w m'.auth_model config) m'

abbrev pub validated : World → RequestConfig → Option Text → Manager → Run
validated w config none m = start_request w config m
validated w config (some what) m = done (complain what m)

unfoldable pub execute_request : World → Text → Text → List Header → Text → Manager → Run
execute_request w method url headers body m =
    if m.is_loading
    then done (complain (codes "A request is already in progress") m)
    else validated w (prepare_config method url headers body) (validate_rest_request method url) m

-- Whose address it is.
abbrev pub is_at : {A : Type 0} → ℕ → Option (ℕ × A) → Bool
is_at k none = false
is_at k (some p) = nat_eq p.0 k

abbrev pub is_id : ℕ → Option ℕ → Bool
is_id k none = false
is_id k (some id) = nat_eq id k

abbrev pub cancel_grpc : Manager → Manager
cancel_grpc m = elim m.grpc [ none ↦ m | some p ↦ record m { grpc = some (p.0, cancel p.1) } ]

-- The virtual call of cancel: that of RestHandler does nothing.
unfoldable pub cancel_handler : World → ℕ → Manager → Run
cancel_handler w k m =
    if is_at k m.zmq
    then done (cancel_zmq w m.zmq m)
    else if is_at k m.grpc
    then done (cancel_grpc m)
    else if is_at k m.ws
    then done (cancel_ws m.ws m)
    else if is_id k m.rest
    then done m
    else crashes

abbrev pub cancelled : Run → Run
cancelled (done m) = done (finish m)
cancelled r = r

abbrev pub cancel_by : World → Option ℕ → Manager → Run
cancel_by w none m = done m
cancel_by w (some k) m = if m.is_loading then cancelled (cancel_handler w k m) else done m

unfoldable pub cancel_request : World → Manager → Run
cancel_request w m = cancel_by w m.handler m

-- What the future answers to wait_for and get.
pub data Answer : Type 0 where
  not_ready : Answer
  completes : RequestResult → Answer
  raises : Text → Answer

-- The future is ready: get leaves none.
abbrev got : Answer → Manager → Manager
got not_ready m = record m { timers = suc m.timers }
got (completes r) m = finish (
    emit (response_received (convert_result r))
      (record m { current_request = invalid; last_response = some (convert_result r) }))
got (raises what) m =
    finish (complain (codes "Error: " ++ what) (record m { current_request = invalid }))

abbrev checked : Answer → Future → Manager → Manager
checked a invalid m = finish m
checked a (pending id config) m = got a m

-- A timer fires and checkRequest runs.
unfoldable pub check_request : Answer → Manager → Manager
check_request a m = checked a m.current_request (record m { timers = m.timers - 1 })

-- What connect of the handler lets out is complained of; it lets nothing out.
abbrev pub socket_outcome : Outcome (Unit {0}) → Manager → Manager
socket_outcome (ok a) m = m
socket_outcome (throws x) m = complain (codes "Failed to establish WebSocket connection") m
socket_outcome misused m = m

abbrev pub connect_by : World → RequestConfig → ℕ → Handler → Manager → Manager
connect_by w config id h m =
    let r = Connect.connect w.websocket config h in socket_outcome r.0 (keep_ws id r.1 m)

abbrev pub connect_with : World → Text → Option (ℕ × Handler) → Manager → Manager
connect_with w url none m = complain (codes "WebSocket handler not initialized") m
connect_with w url (some (id, h)) m =
    if not (starts_with url (codes "ws://")) && not (starts_with url (codes "wss://"))
    then complain (codes "WebSocket URL must start with ws:// or wss://") m
    else connect_by w (with_auth w m.auth_model (record default_config { url = url })) id h m

unfoldable pub connect_web_socket : World → Text → Manager → Manager
connect_web_socket w url m = connect_with w url m.ws m

unfoldable pub disconnect : World → Manager → Manager
disconnect w m = emit disconnected (
    emit connection_status_changed
      (record (cancel_zmq w m.zmq (cancel_ws m.ws m)) { is_connected = false }))

-- The future is dropped: its destructor waits for the exchange, and what that returns or throws is
-- lost.
abbrev pub socket_sent : Text → Outcome RequestResult → Manager → Run
socket_sent message (ok r) m = done (emit (message_sent message) m)
socket_sent message (throws x) m = done (emit (message_sent message) m)
socket_sent message misused m = crashes

abbrev pub sent_by : World → Option Text → Text → ℕ → Handler → Manager → Run
sent_by w none message id h m =
    let r = Exchange.execute w.websocket (record default_config { body = message }) h in
    socket_sent message r.0 (keep_ws id r.1 m)
sent_by w (some what) message id h m = escapes (Thrown.exception what)

-- The dynamic_cast succeeds where m_handler is the WebSocket handler.
abbrev pub send_by : World → Text → Option ℕ → Option (ℕ × Handler) → Manager → Run
send_by w message none ws m = done m
send_by w message (some k) none m = done m
send_by w message (some k) (some (id, h)) m =
    if nat_eq id k
    then sent_by w (w.launches (record default_config { body = message })) message id h m
    else done m

unfoldable pub send_web_socket_message : World → Text → Manager → Run
send_web_socket_message w message m =
    if not m.is_connected
    then done (complain (codes "Not connected") m)
    else send_by w message m.handler m.ws m
