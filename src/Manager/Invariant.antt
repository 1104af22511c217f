-- ===== src/Manager/Invariant.antt =====
-- src/models/request_manager.cpp: what holds of every manager between two events.
use flowdriver.Base.{true, if◌then◌else◌, ◌≡◌, refl, subst}
use flowdriver.Manager.Defs.{World, Manager, Run, done}
use flowdriver.Manager.Requests.{check_request, Answer}
use flowdriver.Manager.Messages.{connect_zmq, execute_zmq_request}
use flowdriver.Manager.Steps.{
  Event, socket_url, message, socket_read, socket_aborted, protocol_chosen, request, cancelled,
  timer, zmq_endpoint, zmq_request, proto_loaded, service_chosen, method_chosen, proto_chosen,
  grpc_request, step, Reachable, starts, steps, is_awaited, is_sound, is_due,
}
use flowdriver.Manager.Sound
use flowdriver.WebSocket.Exchange.{on_read, on_aborted}
use flowdriver.Manager.Sockets.{connect_web_socket_lem, socket_lem, send_web_socket_message_lem}
use flowdriver.Manager.Kept.{
  sound_after, is_simple, check_lem, simple_lem, init_lem, zmq_request_lem, connect_lem, method_lem,
  grpc_lem, cancel_lem, proto_lem,
}
use flowdriver.Manager.Launching.{guard_lem, request_lem}

timer_lem :
    (a : Answer)
    → (m : Manager) → is_sound m ≡ true
    → sound_after (if is_due m.timers then done (check_request a m) else done m) ≡ true
unfolding sound_after
timer_lem a m e = guard_lem (is_due m.timers) _ _ (check_lem a m e) e

pub after_lem : (r : Run) → {m : Manager} → r ≡ done m → sound_after r ≡ true → is_sound m ≡ true
unfolding sound_after
after_lem r q e = subst (λ r. sound_after r ≡ true) q e

pub step_lem :
    (w : World) → (x : Event) → (m : Manager) → is_sound m ≡ true → sound_after (step w x m) ≡ true
unfolding step sound_after is_sound connect_zmq execute_zmq_request is_simple
step_lem w (protocol_chosen p) m e = Sound.set_protocol_lem is_awaited w p m e
step_lem w (request t u hs b) m e = request_lem w t u hs b m e
step_lem w cancelled m e = cancel_lem w m e
step_lem w (timer a) m e = timer_lem a m e
step_lem w (zmq_endpoint u p r) m e = connect_lem w _ _ _ u r m refl e
step_lem w (zmq_request t u r b) m e = zmq_request_lem w _ r _ m refl e
step_lem w (proto_loaded p) m e = Sound.load_lem is_awaited w p m e
step_lem w (service_chosen t) m e = Sound.set_grpc_service_lem is_awaited t m e
step_lem w (method_chosen t) m e = method_lem t m e
step_lem w (proto_chosen p) m e = proto_lem w p m e
step_lem w (grpc_request d b) m e = grpc_lem w d b m e
step_lem w (socket_url u) m e = connect_web_socket_lem w u m e
step_lem w (message t) m e = send_web_socket_message_lem w t m e
step_lem w (socket_read c) m e = socket_lem (on_read c) m e
step_lem w (socket_aborted t) m e = socket_lem (on_aborted t) m e
step_lem w x m e = simple_lem x w m refl e

-- In every manager that events lead to from the constructor, in surroundings that may differ at
-- each event: m_handler is null or the address of a handler that the manager owns, while it is
-- loading, a request is in flight and a check of it is due, and every signal of its WebSocket
-- handler was passed on.
pub Reachable-is_sound : {m : Manager} → Reachable m → is_sound m ≡ true
Reachable-is_sound (starts w) = init_lem w
Reachable-is_sound (steps w x r q) = after_lem _ q (step_lem w x _ (Reachable-is_sound r))
