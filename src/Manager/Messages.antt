-- ===== src/Manager/Messages.antt =====
-- src/models/request_manager.cpp: ZeroMQ requests and the export of a response; the conversions of
-- its header.
use flowdriver.Base.{
  ℕ, Text, codes, [], ◌∷◌, ◌++◌, Option, none, some, true, ◌==◌, ◌&&◌, not, is_empty, if◌then◌else◌,
}
use flowdriver.Types.{RequestConfig, RequestResult, default_config}
use flowdriver.Zeromq.Defs.{
  Pattern, Role, Handler, Outcome, ok, throws, crash, out_of_fuel, Exception, req_rep, pub_sub,
  push_pull, dealer_router, Signal as ZmqSignal,
}
use flowdriver.Zeromq.Configure
use flowdriver.Zeromq.Execute
use flowdriver.Manager.Defs.{
  World, Manager, Response, message, Thrown, Run, done, escapes, crashes, emit, complain,
  response_received, message_sent, connection_status_changed, connected, export_requested,
  messages_cleared,
}
use flowdriver.Manager.Protocols.{forwarded, keep_zmq}

unfoldable pub convert_pattern : Text → Option Pattern
convert_pattern p =
    if p == codes "REQ-REP"
    then some req_rep
    else if p == codes "PUB-SUB"
    then some pub_sub
    else if p == codes "PUSH-PULL"
    then some push_pull
    else if p == codes "DEALER-ROUTER"
    then some dealer_router
    else none

unfoldable pub convert_role : Text → Option Role
convert_role r =
    if r == codes "REQUESTER"
    then some Role.requester
    else if r == codes "REPLIER"
    then some Role.replier
    else if r == codes "PUBLISHER"
    then some Role.publisher
    else if r == codes "SUBSCRIBER"
    then some Role.subscriber
    else if r == codes "PUSHER"
    then some Role.pusher
    else if r == codes "PULLER"
    then some Role.puller
    else if r == codes "DEALER"
    then some Role.dealer
    else if r == codes "ROUTER"
    then some Role.router
    else none

-- A signal of the ZeroMQ handler, from its polling thread.
unfoldable pub on_zmq_signal : ZmqSignal → Manager → Manager
on_zmq_signal s m = record m { signals = forwarded m.current_role (s ∷ []) ++ m.signals }

-- The outcome of a call of the ZeroMQ handler, whose Errors are caught. The calls here have no loop,
-- so that `out_of_fuel` does not occur.
abbrev pub zmq_outcome : {A : Type 0} → (A → Manager → Manager) → Outcome A → Manager → Run
zmq_outcome k (ok a) m = done (k a m)
zmq_outcome k (throws (Exception.error e)) m = done (complain e.what m)
zmq_outcome k (throws (Exception.zmq_error e)) m = escapes (Thrown.exception e.what)
zmq_outcome k crash m = crashes
zmq_outcome k out_of_fuel m = crashes

-- A requester shows the reply.
abbrev pub show_reply : Text → RequestResult → Manager → Manager
show_reply role r m =
    if not (is_empty r.body) && role == codes "REQUESTER"
    then emit (response_received (message r.body)) m
    else m

abbrev pub execute_with : World → RequestConfig → Text → Option (ℕ × Handler) → Manager → Run
execute_with w config role none m = done (complain (codes "ZMQ handler not initialized") m)
execute_with w config role (some (id, h)) m =
    let r = Execute.execute w.zmq config h in
    zmq_outcome (show_reply role) r.0 (keep_zmq id r.1 (emit (message_sent config.body) m))

unfoldable pub execute_zmq_request : World → Text → Text → Text → Text → Manager → Run
execute_zmq_request w method endpoint role body m =
    execute_with w (record default_config { method = method; url = endpoint; body = body }) role
      m.zmq m

abbrev pub established : Text → Manager → Manager
established role m =
    emit connected
      (emit connection_status_changed (record m { current_role = role; is_connected = true }))

abbrev pub connect_as :
    World → Option Pattern → Option Role → Option (ℕ × Handler) → Text → Text → Manager → Run
connect_as w none r p endpoint role m = done (complain (codes "Invalid ZeroMQ pattern") m)
connect_as w (some p) none q endpoint role m = done (complain (codes "Invalid ZeroMQ role") m)
connect_as w (some p) (some r) none endpoint role m =
    done (complain (codes "ZMQ handler not initialized") m)
connect_as w (some p) (some r) (some (id, h)) endpoint role m =
    let s = Configure.configure w.zmq p r endpoint h in
    zmq_outcome (λ _. established role) s.0 (keep_zmq id s.1 m)

unfoldable pub connect_zmq : World → Text → Text → Text → Manager → Run
connect_zmq w endpoint pattern role m =
    connect_as w (convert_pattern pattern) (convert_role role) m.zmq endpoint role m

-- The handler of a message, which the code does not connect either.
unfoldable pub handle_zmq_message : Text → Manager → Manager
handle_zmq_message t m =
    emit (response_received (record (message t) { content_type = some (codes "application/json") }))
      m

-- The handler of the signal of an error, which the code does not connect.
unfoldable pub handle_zmq_error : Text → Manager → Manager
handle_zmq_error error m = complain (codes "ZMQ Error: " ++ error) m

abbrev export_last : Text → Option Response → Manager → Manager
export_last format none m = complain (codes "No response to export") m
export_last format (some r) m =
    if is_empty r.body
    then complain (codes "No response to export") m
    else emit (export_requested format r) m

unfoldable pub export_response : Text → Manager → Manager
export_response format m = export_last format m.last_response m

unfoldable pub clear_messages : Manager → Manager
clear_messages m = emit messages_cleared m
