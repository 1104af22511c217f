-- ===== src/Manager/Sound.antt =====
-- src/models/request_manager.cpp: what holds of every manager between two events.
use flowdriver.Base.{
  ℕ, suc, Text, List, [], ◌∷◌, Option, Bool, true, false, if◌then◌else◌, none, some, ◌≡◌, refl,
  arith, is_empty, inl, inr, Bool-cases, ◌==◌,
}
use flowdriver.Manager.Defs.{
  World, Manager, Future, Signal, emit, ProtocolName, rest, web_socket, zeromq, grpc, other,
}
use flowdriver.Manager.Protocols.{
  initialize, construct, release_handlers, set_current_protocol, switch_protocol, cancel_zmq,
  keep_zmq, enter, reload,
}
use flowdriver.Zeromq.Defs.{Handler as ZmqHandler}
use flowdriver.Grpc.Defs.{Handler, init as grpc_init}
use flowdriver.Grpc.Services.{get_available_services}
use flowdriver.Types.{Error}
use flowdriver.Manager.GrpcCalls.{
  ensured, choose_first, services_loaded, load_into, with_grpc, caught, load_grpc_proto_file,
  set_grpc_service,
}
use flowdriver.Manager.Steps.{is_owned, waits, is_kept}

module _ (a : Bool → ℕ → Future → Bool) where
  pub set_grpc_service_lem :
      (s : Text) → (m : Manager) → is_kept a m ≡ true → is_kept a (set_grpc_service s m) ≡ true
  unfolding set_grpc_service is_kept is_owned waits
  set_grpc_service_lem s m e = ground arith

  pub cancel_zmq_lem :
      (w : World) → (m : Manager) → is_kept a m ≡ true → is_kept a (cancel_zmq w m.zmq m) ≡ true
  unfolding is_kept is_owned waits
  cancel_zmq_lem w m e = ground arith

  pub ensured_lem : (m : Manager) → is_kept a m ≡ true → is_kept a (ensured m.grpc m) ≡ true
  unfolding is_kept is_owned waits
  ensured_lem m e = ground arith

  pub choose_first_lem :
      (ss : List Text) → (m : Manager) → is_kept a m ≡ true → is_kept a (choose_first ss m) ≡ true
  choose_first_lem [] m e = e
  choose_first_lem (s ∷ ss) m e = set_grpc_service_lem s m e

  pub emit_lem : (x : Signal) → (m : Manager) → is_kept a m ≡ true → is_kept a (emit x m) ≡ true
  unfolding is_kept is_owned waits
  emit_lem x m e = ground arith

  pub kept_lem :
      (services : List Text)
      → (methods : List (Text × List Text)) → (m : Manager) → is_kept a m ≡ true
      → is_kept a (record m { grpc_services = services; grpc_service_methods = methods }) ≡ true
  unfolding is_kept is_owned waits
  kept_lem services methods m e = ground arith

  pub services_loaded_lem :
      (h : Handler) → (m : Manager) → is_kept a m ≡ true → is_kept a (services_loaded h m) ≡ true
  services_loaded_lem h m e =
      emit_lem _ _ (choose_first_lem (get_available_services h) _ (kept_lem _ _ m e))

  pub with_grpc_lem :
      (id : ℕ)
      → (g h : Handler) → (m : Manager) → m.grpc ≡ some (id, g)
      → is_kept a m ≡ true
      → is_kept a (with_grpc h id m) ≡ true
  unfolding is_kept is_owned waits
  with_grpc_lem id g h m q e = ground arith

  pub loaded_lem :
      (r : Option Error)
      → (h : Handler) → (m : Manager) → is_kept a m ≡ true
      → is_kept a (caught r (services_loaded h) m) ≡ true
  loaded_lem none h m e = services_loaded_lem h m e
  loaded_lem (some x) h m e = emit_lem _ m e

  pub load_into_lem :
      (w : World)
      → (path : Text) → (o : Option (ℕ × Handler)) → (m : Manager) → m.grpc ≡ o
      → is_kept a m ≡ true
      → is_kept a (load_into w path o m) ≡ true
  load_into_lem w path none m q e = e
  load_into_lem w path (some (id, h)) m q e = loaded_lem _ _ _ (with_grpc_lem id h _ m q e)

  pub load_lem :
      (w : World)
      → (path : Text) → (m : Manager) → is_kept a m ≡ true
      → is_kept a (load_grpc_proto_file w path m) ≡ true
  unfolding load_grpc_proto_file
  load_lem w path m e = load_into_lem w path _ _ refl (ensured_lem m e)

  -- Where no handler is in use, it matters only what is awaited.
  pub release_lem :
      (w : World) → (m : Manager) → waits a m ≡ true → waits a (release_handlers w m) ≡ true
  unfolding release_handlers waits
  release_lem w m e = ground arith

  pub construct_lem :
      (w : World)
      → (p : ProtocolName) → (m : Manager) → waits a m ≡ true
      → m.handler ≡ none
      → is_kept a (construct w p m) ≡ true
  unfolding construct is_kept is_owned waits
  construct_lem w rest m e n = ground arith
  construct_lem w web_socket m e n = ground arith
  construct_lem w zeromq m e n = ground arith
  construct_lem w grpc m e n = ground arith
  construct_lem w other m e n = ground arith

  pub awaited_lem : (m : Manager) → is_kept a m ≡ true → waits a m ≡ true
  unfolding is_kept
  awaited_lem m e = ground arith

  pub initialize_lem :
      (w : World) → (m : Manager) → waits a m ≡ true → is_kept a (initialize w m) ≡ true
  unfolding initialize waits
  initialize_lem w m e = construct_lem w _ _ (release_lem w m e) refl

  pub reload_lem : (w : World) → (m : Manager) → is_kept a m ≡ true → is_kept a (reload w m) ≡ true
  reload_lem w m e = elim (Bool-cases (is_empty m.proto_file_path)) [
    | inl q ↦ rw (q, if◌then◌else◌) e
    | inr q ↦ rw (q, if◌then◌else◌) (load_lem w _ m e)
  ]

  pub new_grpc_lem :
      (m : Manager)
      → waits a m ≡ true
      → is_kept a (record m {
        grpc = some (m.allocated, grpc_init);
        handler = some m.allocated;
        allocated = suc m.allocated;
      })
        ≡ true
  unfolding is_kept is_owned waits
  new_grpc_lem m e = ground arith

  pub enter_grpc_lem :
      (w : World) → (m : Manager) → waits a m ≡ true → is_kept a (enter w grpc m) ≡ true
  enter_grpc_lem w m e = reload_lem w _ (new_grpc_lem m e)

  pub enter_lem :
      (w : World)
      → (p : ProtocolName) → (m : Manager) → waits a m ≡ true
      → is_kept a (enter w p m) ≡ true
  enter_lem w rest m e = initialize_lem w m e
  enter_lem w web_socket m e = initialize_lem w m e
  enter_lem w zeromq m e = initialize_lem w m e
  enter_lem w grpc m e = enter_grpc_lem w m e
  enter_lem w other m e = initialize_lem w m e

  pub left_lem :
      (p : Text)
      → (m : Manager) → waits a m ≡ true
      → waits a (record m { grpc = none; current_protocol = p; is_connected = false }) ≡ true
  unfolding waits
  left_lem p m e = e

  pub switch_lem :
      (w : World)
      → (p : Text) → (m : Manager) → waits a m ≡ true
      → is_kept a (switch_protocol w p m) ≡ true
  unfolding switch_protocol
  switch_lem w p m e =
      emit_lem _ _ (emit_lem _ _ (enter_lem w _ _ (left_lem p _ (release_lem w m e))))

  pub set_protocol_lem :
      (w : World)
      → (p : Text) → (m : Manager) → is_kept a m ≡ true
      → is_kept a (set_current_protocol w p m) ≡ true
  unfolding set_current_protocol
  set_protocol_lem w p m e = elim (Bool-cases (m.current_protocol == p)) [
    | inl q ↦ rw (q, if◌then◌else◌) e
    | inr q ↦ rw (q, if◌then◌else◌) (switch_lem w p m (awaited_lem m e))
  ]

  pub zmq_kept_lem :
      (k : ℕ)
      → (g h : ZmqHandler) → (m : Manager) → m.zmq ≡ some (k, g)
      → is_kept a m ≡ true
      → is_kept a (keep_zmq k h m) ≡ true
  unfolding is_kept is_owned waits
  zmq_kept_lem k g h m q e = ground arith
