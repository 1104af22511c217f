-- ===== src/Manager/Parts.antt =====
-- src/models/request_manager.cpp: the calls that leave the ZeroMQ handlers and the protocol alone.
use flowdriver.Base.{
  ℕ, Text, codes, List, [], ◌∷◌, Bool, true, false, Option, none, some, ◌&&◌, not, ◌==◌, is_empty,
  starts_with, nat_eq, if◌then◌else◌, ◌≡◌, refl, ◌∙◌, arith, inl, inr, Bool-cases,
}
use flowdriver.Types.{Error}
use flowdriver.Zeromq.Defs.{Handler as ZmqHandler}
use flowdriver.WebSocket.Defs.{Handler as SocketHandler, Notice, Outcome, ok, throws, misused}
use flowdriver.WebSocket.Plain
use flowdriver.Grpc.Defs.{Handler as GrpcHandler}
use flowdriver.Grpc.Services.{get_available_services}
use flowdriver.Manager.Defs.{World, Manager, Future, invalid, pending}
use flowdriver.Manager.Notices.{
  on_notice, told, keep_ws, on_socket, on_web_socket_connected, on_web_socket_disconnected,
}
use flowdriver.Manager.GrpcCalls.{
  ensured, choose_first, services_loaded, load_into, caught, load_grpc_proto_file, set_grpc_service,
  reloaded, set_proto_file_path,
}
use flowdriver.Manager.Protocols.{reload}
use flowdriver.Manager.Requests.{socket_outcome, connect_with, connect_web_socket}

-- Whether there is a handler.
abbrev pub is_there : {A : Type 0} → Option A → Bool
is_there none = false
is_there (some x) = true

-- Whether a callback for messages was set on the handler.
abbrev pub callbacks : Option (ℕ × SocketHandler) → Option Bool
callbacks none = none
callbacks (some (id, h)) = some h.custom_messages

-- The request in flight, if there is one, runs on the REST handler of the manager. Where it does not,
-- its handler was destroyed while the thread of std::async may still use it.
abbrev pub runs_on : Future → Option ℕ → Bool
runs_on invalid o = true
runs_on (pending id config) none = false
runs_on (pending id config) (some k) = nat_eq id k

-- The handler of ZeroMQ, those that were destroyed, whether there is a handler of REST and the
-- request in flight runs on it, the callback of that of WebSocket, and the protocol.
pub record Parts : Type 0 where
  pub zmq : Option (ℕ × ZmqHandler)
  pub retired : List ZmqHandler
  pub has_rest : Bool
  pub is_backed : Bool
  pub web_socket : Option Bool
  pub current_protocol : Text

abbrev pub parts : Manager → Parts
parts m = record {
  zmq = m.zmq;
  retired = m.retired;
  has_rest = is_there m.rest;
  is_backed = runs_on m.current_request m.rest;
  web_socket = callbacks m.ws;
  current_protocol = m.current_protocol;
}

pub service_lem : (s : Text) → (m : Manager) → parts (set_grpc_service s m) ≡ parts m
unfolding set_grpc_service
service_lem s m = ground arith

ensured_lem : (o : Option (ℕ × GrpcHandler)) → (m : Manager) → parts (ensured o m) ≡ parts m
ensured_lem none m = refl
ensured_lem (some p) m = refl

choose_first_lem : (ss : List Text) → (m : Manager) → parts (choose_first ss m) ≡ parts m
choose_first_lem [] m = refl
choose_first_lem (s ∷ ss) m = service_lem s m

services_loaded_lem : (h : GrpcHandler) → (m : Manager) → parts (services_loaded h m) ≡ parts m
services_loaded_lem h m = choose_first_lem (get_available_services h) _

loaded_lem :
    (r : Option Error)
    → (h : GrpcHandler) → (m : Manager) → parts (caught r (services_loaded h) m) ≡ parts m
loaded_lem none h m = services_loaded_lem h m
loaded_lem (some x) h m = refl

load_into_lem :
    (w : World)
    → (path : Text) → (o : Option (ℕ × GrpcHandler)) → (m : Manager)
    → parts (load_into w path o m) ≡ parts m
load_into_lem w path none m = refl
load_into_lem w path (some (id, h)) m = loaded_lem _ _ _

pub load_lem :
    (w : World) → (path : Text) → (m : Manager) → parts (load_grpc_proto_file w path m) ≡ parts m
unfolding load_grpc_proto_file
load_lem w path m = load_into_lem w path _ _ ∙ ensured_lem m.grpc m

pub reload_lem : (w : World) → (m : Manager) → parts (reload w m) ≡ parts m
reload_lem w m = elim (Bool-cases (is_empty m.proto_file_path)) [
  | inl q ↦ rw (q, if◌then◌else◌) refl
  | inr q ↦ rw (q, if◌then◌else◌) (load_lem w _ m)
]

reloaded_lem :
    (w : World)
    → (p : Text) → (o : Option (ℕ × GrpcHandler)) → (m : Manager)
    → parts (reloaded w p o m) ≡ parts m
reloaded_lem w p none m = refl
reloaded_lem w p (some h) m = load_lem w p m

pub proto_lem :
    (w : World) → (p : Text) → (m : Manager) → parts (set_proto_file_path w p m) ≡ parts m
unfolding set_proto_file_path
proto_lem w p m = elim (Bool-cases (m.proto_file_path == p)) [
  | inl q ↦ rw (q, if◌then◌else◌) refl
  | inr q ↦ rw (q, if◌then◌else◌) (reloaded_lem w p _ _)
]

on_notice_lem : (x : Notice) → (m : Manager) → parts (on_notice x m) ≡ parts m
unfolding on_notice on_web_socket_connected on_web_socket_disconnected
on_notice_lem x m = ground arith

told_lem : (xs : List Notice) → (m : Manager) → parts (told xs m) ≡ parts m
unfolding told
told_lem [] m = refl
told_lem (x ∷ xs) m = on_notice_lem x (told xs m) ∙ told_lem xs m

with_ws_lem :
    (id : ℕ)
    → (h k : SocketHandler) → (m : Manager) → m.ws ≡ some (id, h)
    → k.custom_messages ≡ h.custom_messages
    → parts (record m { ws = some (id, k) }) ≡ parts m
with_ws_lem id h k m q c = simp (q, c) refl

pub keep_ws_lem :
    (id : ℕ)
    → (h k : SocketHandler) → (m : Manager) → m.ws ≡ some (id, h)
    → k.custom_messages ≡ h.custom_messages
    → parts (keep_ws id k m) ≡ parts m
keep_ws_lem id h k m q c = told_lem k.notices _ ∙ with_ws_lem id h (record k { notices = [] }) m q c

pub on_socket_lem :
    (f : SocketHandler → SocketHandler)
    → ((h : SocketHandler) → (f h).custom_messages ≡ h.custom_messages)
    → (o : Option (ℕ × SocketHandler)) → (m : Manager) → m.ws ≡ o
    → parts (on_socket f o m) ≡ parts m
on_socket_lem f c none m q = refl
on_socket_lem f c (some (id, h)) m q = keep_ws_lem id h (f h) m q (c h)

outcome_lem : (o : Outcome (Unit {0})) → (m : Manager) → parts (socket_outcome o m) ≡ parts m
outcome_lem (ok x) m = refl
outcome_lem (throws x) m = refl
outcome_lem misused m = refl

connect_with_lem :
    (w : World)
    → (url : Text) → (o : Option (ℕ × SocketHandler)) → (m : Manager) → m.ws ≡ o
    → parts (connect_with w url o m) ≡ parts m
connect_with_lem w url none m q = refl
connect_with_lem w url (some (id, h)) m q =
    elim (Bool-cases
      (not (starts_with url (codes "ws://")) && not (starts_with url (codes "wss://")))) [
        | inl b ↦ rw (b, if◌then◌else◌) refl
        | inr b ↦
            rw (b, if◌then◌else◌)
              (outcome_lem _ _ ∙ keep_ws_lem id h _ m q (Plain.connect_lem w.websocket _ h))
      ]

pub connect_web_socket_lem :
    (w : World) → (url : Text) → (m : Manager) → parts (connect_web_socket w url m) ≡ parts m
unfolding connect_web_socket
connect_web_socket_lem w url m = connect_with_lem w url m.ws m refl
