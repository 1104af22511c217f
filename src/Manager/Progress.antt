-- ===== src/Manager/Progress.antt =====
-- src/models/request_manager.cpp: the events that a manager always handles.
use flowdriver.Base.{Bool, true, not, ◌==◌, ◌||◌, if◌then◌else◌, ◌≡◌, refl, inl, inr, Bool-cases}
use flowdriver.Manager.Defs.{World, Manager, done}
use flowdriver.Manager.Requests.{check_request, Answer}
use flowdriver.Manager.Requests.{cancel_request}
use flowdriver.Manager.Messages.{convert_pattern, convert_role}
use flowdriver.Zeromq.Receive.{poll_round}
use flowdriver.Manager.Steps.{
  Event, step, is_due, protocol_chosen, role_chosen, auth_model_given, request, cancelled, cleared,
  disconnection, socket_read, socket_aborted, timer, socket_url, message, format, zmq_signal,
  zmq_endpoint, zmq_request, proto_loaded, service_chosen, method_chosen, endpoint_chosen,
  proto_chosen, ssl_chosen, grpc_request, is_sound, is_awaited,
}
use flowdriver.Manager.Parts.{is_there, parts, runs_on}
use flowdriver.Manager.Tidy.{IsTidy}
use flowdriver.Manager.Polling.{Runs, starts, steps, polls, Runs-IsTidy}
use flowdriver.Manager.Kept.{init_lem}
use flowdriver.Manager.Invariant.{step_lem, after_lem as sound_after_lem}
use flowdriver.Manager.Stepping.{after_lem}
use flowdriver.Manager.Serving.{IsBacked, lets_finish, step-IsBacked}
use flowdriver.Manager.Sound
use flowdriver.Manager.Calling.{is_live}
use flowdriver.Manager.Cancelling.{cancel_sound_lem}
use flowdriver.Manager.Restful.{IsDone, has_rest, request_lem}
use flowdriver.Manager.Returning.{
  fits, can_select, message_lem, endpoint_lem, method_lem, grpc_lem, zmq_lem, returns_lem,
}

-- What the event asks of the manager. For another protocol: no REST request in flight. For a request: a REST handler, or that one can be made. For a
-- message: no connected WebSocket handler. For connectZMQ: a role of the pattern, or unknown words.
-- For a gRPC method: a selected, live service that has it, where it is not the shown one and there
-- is a handler. For a gRPC call: a live selection. The other events ask nothing.
unfoldable pub is_safe : World → Event → Manager → Bool
is_safe w (protocol_chosen p) m = lets_finish (protocol_chosen p) m
is_safe w (request method url headers body) m = has_rest w m
is_safe w (message t) m = not m.is_connected || not (is_there m.ws)
is_safe w (zmq_endpoint endpoint pattern role) m =
    fits (convert_pattern pattern) (convert_role role)
is_safe w (method_chosen t) m = (m.current_grpc_method == t) || can_select t m.grpc
is_safe w (grpc_request decimal body) m = is_live m.grpc
is_safe w e m = true

timer_lem :
    (a : Answer)
    → (m : Manager) → IsDone (if is_due m.timers then done (check_request a m) else done m)
timer_lem a m = elim (Bool-cases (is_due m.timers)) [
  | inl q ↦ rw (q, if◌then◌else◌) (_, refl)
  | inr q ↦ rw (q, if◌then◌else◌) (_, refl)
]

step-IsDone :
    (w : World)
    → (e : Event) → (m : Manager) → is_sound m ≡ true
    → IsTidy (parts m)
    → is_safe w e m ≡ true
    → IsDone (step w e m)
unfolding step is_safe
step-IsDone w (protocol_chosen p) m s t q = (_, refl)
step-IsDone w (role_chosen r) m s t q = (_, refl)
step-IsDone w (auth_model_given same a) m s t q = (_, refl)
step-IsDone w (request a u hs b) m s t q = request_lem w a u hs b m t q
step-IsDone w cancelled m s t q = returns_lem _ (cancel_request w m) (cancel_sound_lem w m s)
step-IsDone w cleared m s t q = (_, refl)
step-IsDone w disconnection m s t q = (_, refl)
step-IsDone w (socket_read c) m s t q = (_, refl)
step-IsDone w (socket_aborted x) m s t q = (_, refl)
step-IsDone w (timer a) m s t q = timer_lem a m
step-IsDone w (socket_url u) m s t q = (_, refl)
step-IsDone w (message x) m s t q = message_lem w x m q
step-IsDone w (format f) m s t q = (_, refl)
step-IsDone w (zmq_signal x) m s t q = (_, refl)
step-IsDone w (zmq_endpoint u p r) m s t q = endpoint_lem w u p r m q
step-IsDone w (zmq_request a u r b) m s t q = zmq_lem w a u r b m
step-IsDone w (proto_loaded p) m s t q = (_, refl)
step-IsDone w (service_chosen x) m s t q = (_, refl)
step-IsDone w (method_chosen x) m s t q = method_lem x m q
step-IsDone w (endpoint_chosen x) m s t q = (_, refl)
step-IsDone w (proto_chosen p) m s t q = (_, refl)
step-IsDone w (ssl_chosen on) m s t q = (_, refl)
step-IsDone w (grpc_request d b) m s t q = grpc_lem w d b m q

safe-lets_finish :
    (w : World) → (e : Event) → (m : Manager) → is_safe w e m ≡ true → lets_finish e m ≡ true
unfolding is_safe lets_finish
safe-lets_finish w (protocol_chosen p) m q = q
safe-lets_finish w e m q = refl

pub Runs-is_sound : {m : Manager} → Runs m → is_sound m ≡ true
unfolding is_sound
Runs-is_sound (starts w) = init_lem w
Runs-is_sound (steps w e r q) = sound_after_lem _ q (step_lem w e _ (Runs-is_sound r))
Runs-is_sound (polls {m} w fuel a id h r q p e) =
    Sound.zmq_kept_lem is_awaited id h (poll_round w.zmq fuel a h).1 m q (Runs-is_sound r)

-- A manager that events and rounds of the polling thread lead to from the constructor, and whose
-- request in flight, if there is one, runs on its REST handler, handles every event that is safe: the
-- operation returns, lets no exception out and uses no null and no dangling pointer, and what it
-- leaves is such a manager again: a request in flight still runs on its REST handler, which no
-- operation has destroyed under it. Safe are all events but: the choice of another protocol, while a
-- REST request is in flight; a request, where no REST handler is there or can be made; a message,
-- while the manager is connected and has a WebSocket handler; connectZMQ with the words for a
-- pattern and a role that is not one of it; the choice of a gRPC method that is not the shown one,
-- while the gRPC handler has no selected, live service with such a method; and a gRPC call with a
-- selection that is not live.
pub step-Runs :
    (w : World)
    → (e : Event) → {m : Manager} → Runs m
    → is_safe w e m ≡ true
    → runs_on m.current_request m.rest ≡ true
    → (m' : Manager) × (step w e m ≡ done m')
      × Runs m'
      × (runs_on m'.current_request m'.rest ≡ true)
step-Runs w e {m} r q b =
    let (m', d) = step-IsDone w e m (Runs-is_sound r) (Runs-IsTidy r) q in
    let s = step-IsBacked w e m (Runs-IsTidy r) (safe-lets_finish w e m q) b in
    (m', d, steps w e r d, after_lem w IsBacked (step w e m) d s)
