-- ===== src/Manager/Stepping.antt =====
-- src/models/request_manager.cpp: a property of the handlers that every event keeps.
use flowdriver.Base.{
  ℕ, Text, List, Option, none, some, Bool, true, false, if◌then◌else◌, ◌≡◌, refl, subst, arith,
}
use flowdriver.Types.{RequestConfig, Header}
use flowdriver.WebSocket.Defs as Socket
use flowdriver.WebSocket.Exchange.{on_read, on_aborted}
use flowdriver.WebSocket.Plain
use flowdriver.Manager.Defs.{World, Manager, Run, done, escapes, crashes, emit, loading_changed}
use flowdriver.Manager.Protocols.{set_current_role, set_auth_model}
use flowdriver.Manager.Notices.{cancel_ws}
use flowdriver.Manager.GrpcCalls.{set_grpc_endpoint, set_grpc_use_ssl}
use flowdriver.Manager.Requests.{
  launched, launch, validated, start_request, execute_request, cancel_handler, cancel_request,
  check_request, disconnect, Answer, is_at, cancel_by, cancelled, cancel_grpc, is_id,
}
use flowdriver.Manager.Messages.{
  connect_zmq, execute_zmq_request, on_zmq_signal, export_response, clear_messages,
}
use flowdriver.Manager.Steps.{
  Event, step, is_due, protocol_chosen, request, cancelled as cancellation, timer, zmq_endpoint,
  zmq_request, proto_loaded, service_chosen, method_chosen, proto_chosen, grpc_request, socket_url,
  message, socket_read, socket_aborted, disconnection, role_chosen, auth_model_given, cleared,
  format, zmq_signal, endpoint_chosen, ssl_chosen,
}
use flowdriver.Manager.Parts.{
  Parts, parts, load_lem, service_lem, proto_lem, connect_web_socket_lem, on_socket_lem,
}
use flowdriver.Manager.Leaving.{
  Leaves, LeavesParts, IsKept, IsHandled, same_lem, same_run_lem, check_lem, grpc_lem, method_lem,
  message_lem, execute_lem, connect_lem, cancel_zmq_lem,
}

launched_lem :
    (id : ℕ)
    → (c : RequestConfig) → (o : Option Text) → (m : Manager)
    → parts (launched id c o m)
      ≡ record (parts m) { is_backed = (parts (launched id c o m)).is_backed }
launched_lem id c none m = refl
launched_lem id c (some x) m = refl

cancel_grpc_lem : (m : Manager) → parts (cancel_grpc m) ≡ parts m
cancel_grpc_lem m = ground arith

cancel_ws_lem :
    (o : Option (ℕ × Socket.Handler)) → (m : Manager) → m.ws ≡ o → parts (cancel_ws o m) ≡ parts m
cancel_ws_lem none m q = refl
cancel_ws_lem (some (id, h)) m q = simp (q, Plain.cancel_lem h) refl

zmq_lem : (o : Option (ℕ × Socket.Handler)) → (m : Manager) → (cancel_ws o m).zmq ≡ m.zmq
zmq_lem none m = refl
zmq_lem (some (id, h)) m = refl

-- The events that neither call a handler nor start a request.
unfoldable is_plain : Event → Bool
is_plain (role_chosen r) = true
is_plain (auth_model_given same a) = true
is_plain cleared = true
is_plain (format f) = true
is_plain (zmq_signal s) = true
is_plain (endpoint_chosen p) = true
is_plain (ssl_chosen on) = true
is_plain _ = false

plain_lem :
    (x : Event)
    → (w : World) → (m : Manager) → is_plain x ≡ true
    → LeavesParts (parts m) (step w x m)
unfolding is_plain step LeavesParts set_current_role set_auth_model clear_messages export_response
    on_zmq_signal set_grpc_endpoint set_grpc_use_ssl
plain_lem x w m p = ground arith

-- The events that neither switch the protocol nor have a part in a REST request.
unfoldable pub is_other : Event → Bool
is_other (protocol_chosen p) = false
is_other (request a u hs b) = false
is_other (timer a) = false
is_other _ = true

module _ (w : World) (P : Parts → Type 0) where
  pub choice_lem :
      (b : Bool) → (r s : Run) → Leaves P r → Leaves P s → Leaves P (if b then r else s)
  choice_lem true r s p q = p
  choice_lem false r s p q = q

  pub after_lem : (r : Run) → {m : Manager} → r ≡ done m → Leaves P r → P (parts m)
  unfolding Leaves
  after_lem r q t = subst (Leaves P) q t

module _ (w : World) (P : Parts → Type 0) (i : IsHandled w P) where
  cancelled_lem : (r : Run) → Leaves P r → Leaves P (cancelled r)
  unfolding Leaves
  cancelled_lem (done m) t = t
  cancelled_lem (escapes x) t = tt
  cancelled_lem crashes t = tt

  cancel_handler_lem : (k : ℕ) → (m : Manager) → P (parts m) → Leaves P (cancel_handler w k m)
  unfolding cancel_handler Leaves
  cancel_handler_lem k m t =
      choice_lem w P (is_at k m.zmq) _ _ (cancel_zmq_lem w P i m.zmq m refl t) (
        choice_lem w P (is_at k m.grpc) _ _ (same_lem P _ _ (cancel_grpc_lem m) t) (
          choice_lem w P (is_at k m.ws) _ _ (same_lem P _ _ (cancel_ws_lem m.ws m refl) t)
            (choice_lem w P (is_id k m.rest) _ _ t tt)))

  cancel_lem : (o : Option ℕ) → (m : Manager) → P (parts m) → Leaves P (cancel_by w o m)
  unfolding Leaves
  cancel_lem none m t = t
  cancel_lem (some k) m t =
      choice_lem w P m.is_loading _ _ (cancelled_lem _ (cancel_handler_lem k m t)) t

  disconnect_lem : (m : Manager) → P (parts m) → P (parts (disconnect w m))
  unfolding disconnect
  disconnect_lem m t =
      cancel_zmq_lem w P i m.zmq (cancel_ws m.ws m) (zmq_lem m.ws m)
        (same_lem P _ _ (cancel_ws_lem m.ws m refl) t)

  pub other_lem :
      (x : Event) → (m : Manager) → is_other x ≡ true → P (parts m) → Leaves P (step w x m)
  unfolding step Leaves is_plain is_other connect_zmq execute_zmq_request cancel_request
  other_lem (protocol_chosen p) m o t = cc
  other_lem (request a u hs b) m o t = cc
  other_lem cancellation m o t = cancel_lem m.handler m t
  other_lem disconnection m o t = disconnect_lem m t
  other_lem (timer a) m o t = cc
  other_lem (zmq_endpoint u p r) m o t = connect_lem w P i _ _ _ u r m refl t
  other_lem (zmq_request a u r b) m o t = execute_lem w P i _ r _ m refl t
  other_lem (proto_loaded p) m o t = same_lem P _ _ (load_lem w p m) t
  other_lem (service_chosen s) m o t = same_lem P _ _ (service_lem s m) t
  other_lem (proto_chosen p) m o t = same_lem P _ _ (proto_lem w p m) t
  other_lem (socket_url u) m o t = same_lem P _ _ (connect_web_socket_lem w u m) t
  other_lem (socket_read c) m o t =
      same_lem P _ _ (on_socket_lem (on_read c) (Plain.on_read_lem c) m.ws m refl) t
  other_lem (socket_aborted a) m o t =
      same_lem P _ _ (on_socket_lem (on_aborted a) (Plain.on_aborted_lem a) m.ws m refl) t
  other_lem (method_chosen a) m o t = same_run_lem P m _ (method_lem a m) t
  other_lem (grpc_request d b) m o t = same_run_lem P m _ (grpc_lem w d b m) t
  other_lem (message a) m o t = same_run_lem P m _ (message_lem w a m) t
  other_lem x m o t = same_run_lem P m (step w x m) (plain_lem x w m refl) t

module _ (w : World) (P : Parts → Type 0) (i : IsKept w P) where
  launch_lem :
      (o : Option ℕ) → (c : RequestConfig) → (m : Manager) → P (parts m) → Leaves P (launch w o c m)
  unfolding Leaves
  launch_lem none c m t = tt
  launch_lem (some id) c m t = same_lem P _ _ (launched_lem id c _ m) (i.starts _ _ t)

  start_lem : (c : RequestConfig) → (m : Manager) → P (parts m) → Leaves P (start_request w c m)
  unfolding start_request
  start_lem c m t =
      launch_lem _ _ _ (i.switches _ (emit loading_changed (record m { is_loading = true })) t)

  validated_lem :
      (c : RequestConfig)
      → (o : Option Text) → (m : Manager) → P (parts m)
      → Leaves P (validated w c o m)
  unfolding Leaves
  validated_lem c none m t = start_lem c m t
  validated_lem c (some x) m t = t

  request_lem :
      (method url : Text)
      → (headers : List Header) → (body : Text) → (m : Manager) → P (parts m)
      → Leaves P (execute_request w method url headers body m)
  unfolding execute_request Leaves
  request_lem method url headers body m t =
      choice_lem w P m.is_loading _ _ t (validated_lem _ _ m t)

  timer_lem :
      (a : Answer)
      → (m : Manager) → P (parts m)
      → Leaves P (if is_due m.timers then done (check_request a m) else done m)
  unfolding Leaves
  timer_lem a m t =
      choice_lem w P (is_due m.timers) _ _ (same_lem P _ _ (check_lem a m) (i.starts _ _ t)) t

  pub step_lem : (x : Event) → (m : Manager) → P (parts m) → Leaves P (step w x m)
  unfolding step Leaves is_other
  step_lem (protocol_chosen p) m t = i.switches p m t
  step_lem (request a u hs b) m t = request_lem a u hs b m t
  step_lem (timer a) m t = timer_lem a m t
  step_lem x m t = other_lem w P i.handled x m refl t
