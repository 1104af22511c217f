-- ===== src/Manager/Switching.antt =====
-- src/models/request_manager.cpp: a switch of the protocol leaves the handlers in order.
use flowdriver.Base.{
  Bool, ℕ, Text, Option, none, some, true, false, ◌==◌, if◌then◌else◌, ◌≡◌, refl, sym, ap, subst,
  arith, inl, inr, Bool-cases, Option-cases, All,
}
use flowdriver.Zeromq.Defs.{Handler, init as init_handler}
use flowdriver.Manager.Defs.{
  World, Manager, ProtocolName, rest, web_socket, zeromq, grpc, other, protocol_name,
}
use flowdriver.Manager.Protocols.{
  initialize, init, construct, release_handlers, set_current_protocol, switch_protocol, cancel_zmq,
  reset_zmq, enter,
}
use flowdriver.Manager.Parts.{Parts, parts, reload_lem}
use flowdriver.Manager.Tidy.{IsDestroyed, IsTidy, IsLeft, close-IsDestroyed, cancel_zmq-IsTidy}

-- What is left of the ZeroMQ handlers alone.
reset_zmq_lem :
    (w : World)
    → (o : Option (ℕ × Handler)) → (m : Manager) → m.zmq ≡ o
    → IsTidy (parts m)
    → ((reset_zmq w o m).zmq ≡ none) × All IsDestroyed (reset_zmq w o m).retired
reset_zmq_lem w none m q t = (q, t.are_destroyed)
reset_zmq_lem w (some (id, h)) m q t = (refl, (close-IsDestroyed w h, t.are_destroyed))

release-IsLeft :
    (w : World) → (m : Manager) → IsTidy (parts m) → IsLeft (parts (release_handlers w m))
unfolding release_handlers
release-IsLeft w m t =
    let r = reset_zmq_lem w _ (cancel_zmq w m.zmq m) refl (cancel_zmq-IsTidy w m.zmq m refl t) in
    record { no_zmq = r.0; no_rest = refl; no_web_socket = refl; left_destroyed = r.1 }

left-IsTidy : (p : Parts) → IsLeft p → IsTidy p
left-IsTidy p l = record {
  is_served = rw l.no_zmq tt;
  is_zeromq = inl l.no_zmq;
  is_rest = inl l.no_rest;
  is_web_socket = inl l.no_web_socket;
  are_destroyed = l.left_destroyed;
}

rest_lem :
    (b : Bool)
    → (p : Parts) → protocol_name p.current_protocol ≡ rest
    → IsLeft p
    → IsTidy (record p { has_rest = true; is_backed = b })
rest_lem b p q l = record {
  is_served = rw l.no_zmq tt;
  is_zeromq = inl l.no_zmq;
  is_rest = inr q;
  is_web_socket = inl l.no_web_socket;
  are_destroyed = l.left_destroyed;
}

web_socket_lem :
    (p : Parts)
    → protocol_name p.current_protocol ≡ web_socket
    → IsLeft p
    → IsTidy (record p { web_socket = some false })
web_socket_lem p q l = record {
  is_served = rw l.no_zmq tt;
  is_zeromq = inl l.no_zmq;
  is_rest = inl l.no_rest;
  is_web_socket = inr (refl, q);
  are_destroyed = l.left_destroyed;
}

zeromq_lem :
    (id : ℕ)
    → (p : Parts) → protocol_name p.current_protocol ≡ zeromq
    → IsLeft p
    → IsTidy (record p { zmq = some (id, init_handler) })
zeromq_lem id p q l = record {
  is_served = (inr (record { not_running = refl; no_thread = refl; unusable = inl refl }), refl);
  is_zeromq = inr q;
  is_rest = inl l.no_rest;
  is_web_socket = inl l.no_web_socket;
  are_destroyed = l.left_destroyed;
}

construct-IsTidy :
    (w : World)
    → (p : ProtocolName) → (m : Manager) → protocol_name m.current_protocol ≡ p
    → IsLeft (parts m)
    → IsTidy (parts (construct w p m))
unfolding construct
construct-IsTidy w rest m q l = elim (Option-cases (w.constructs m.allocated)) [
  | inl e ↦ simp e (rest_lem _ (parts m) q l)
  | inr (x, e) ↦ simp e (left-IsTidy _ l)
]
construct-IsTidy w web_socket m q l = elim (Option-cases (w.constructs m.allocated)) [
  | inl e ↦ simp e (web_socket_lem (parts m) q l)
  | inr (x, e) ↦ simp e (left-IsTidy _ l)
]
construct-IsTidy w zeromq m q l = elim (Option-cases (w.constructs m.allocated)) [
  | inl e ↦ simp e (zeromq_lem m.allocated (parts m) q l)
  | inr (x, e) ↦ simp e (left-IsTidy _ l)
]
construct-IsTidy w grpc m q l = left-IsTidy _ l
construct-IsTidy w other m q l = left-IsTidy _ l

release_lem :
    (w : World) → (m : Manager) → (release_handlers w m).current_protocol ≡ m.current_protocol
unfolding release_handlers
release_lem w m = ground arith

initialize-IsTidy : (w : World) → (m : Manager) → IsTidy (parts m) → IsTidy (parts (initialize w m))
unfolding initialize
initialize-IsTidy w m t =
    construct-IsTidy w _ _ (ap protocol_name (release_lem w m)) (release-IsLeft w m t)

-- What leaves the handlers and the protocol alone.
pub same-IsTidy : (p q : Parts) → q ≡ p → IsTidy p → IsTidy q
same-IsTidy p q e t = subst IsTidy (sym e) t

enter-IsTidy :
    (w : World)
    → (p : ProtocolName) → (m : Manager) → IsTidy (parts m)
    → IsTidy (parts (enter w p m))
enter-IsTidy w rest m t = initialize-IsTidy w m t
enter-IsTidy w web_socket m t = initialize-IsTidy w m t
enter-IsTidy w zeromq m t = initialize-IsTidy w m t
enter-IsTidy w grpc m t = same-IsTidy _ _ (reload_lem w _) t
enter-IsTidy w other m t = initialize-IsTidy w m t

moved-IsTidy :
    (p : Parts) → (protocol : Text) → IsLeft p → IsTidy (record p { current_protocol = protocol })
moved-IsTidy p protocol l = left-IsTidy _ (record {
  no_zmq = l.no_zmq;
  no_rest = l.no_rest;
  no_web_socket = l.no_web_socket;
  left_destroyed = l.left_destroyed;
})

switch-IsTidy :
    (w : World)
    → (p : Text) → (m : Manager) → IsTidy (parts m)
    → IsTidy (parts (switch_protocol w p m))
unfolding switch_protocol
switch-IsTidy w p m t =
    let m' = release_handlers w m in
    enter-IsTidy w _ (record m' { grpc = none; current_protocol = p; is_connected = false })
      (moved-IsTidy (parts m') p (release-IsLeft w m t))

pub set_current_protocol-IsTidy :
    (w : World)
    → (p : Text) → (m : Manager) → IsTidy (parts m)
    → IsTidy (parts (set_current_protocol w p m))
unfolding set_current_protocol
set_current_protocol-IsTidy w p m t = elim (Bool-cases (m.current_protocol == p)) [
  | inl q ↦ rw (q, if◌then◌else◌) t
  | inr q ↦ rw (q, if◌then◌else◌) (switch-IsTidy w p m t)
]

pub init-IsTidy : (w : World) → IsTidy (parts (init w))
unfolding init
init-IsTidy w = initialize-IsTidy w _ (
    left-IsTidy _
      (record { no_zmq = refl; no_rest = refl; no_web_socket = refl; left_destroyed = tt }))
