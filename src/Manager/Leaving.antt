-- ===== src/Manager/Leaving.antt =====
-- src/models/request_manager.cpp: what the calls of a handler leave of the handlers.
use flowdriver.Base.{
  ℕ, Text, Option, none, some, Bool, not, nat_eq, if◌then◌else◌, ◌≡◌, ◌≢◌, refl, sym, subst, [],
  arith, inl, inr, Bool-cases,
}
use flowdriver.Types.{RequestConfig, RequestResult}
use flowdriver.Zeromq.Defs.{
  Handler, Outcome, ok, throws, crash, out_of_fuel, Exception, Pattern, Role,
}
use flowdriver.Zeromq.Execute
use flowdriver.WebSocket.Defs as Socket
use flowdriver.WebSocket.Plain
use flowdriver.Manager.Defs.{World, Manager, Run, done, escapes, crashes}
use flowdriver.Manager.GrpcCalls.{set_grpc_method, run_grpc, execute_grpc_request}
use flowdriver.Manager.Requests.{
  check_request, Answer, socket_sent, sent_by, send_by, send_web_socket_message,
}
use flowdriver.Manager.Messages.{zmq_outcome, show_reply, established, connect_as, execute_with}
use flowdriver.Manager.Parts.{Parts, parts, keep_ws_lem}
use flowdriver.Manager.Protocols.{set_current_protocol, cancel_zmq}
use flowdriver.Zeromq.Configure

-- What the operation leaves, where it returns.
unfoldable pub Leaves : (Parts → Type 0) → Run → Type 0
Leaves P (done m) = P (parts m)
Leaves P _ = Unit

-- The operation leaves the handlers and the protocol alone, where it returns.
unfoldable pub LeavesParts : Parts → Run → Type 0
LeavesParts p (done m) = parts m ≡ p
LeavesParts p _ = Unit

-- The parts after a call of the ZeroMQ handler.
abbrev pub with_zmq : ℕ → Handler → Parts → Parts
with_zmq id h p = record p { zmq = some (id, record h { signals = [] }) }

-- What a property needs that every event without a REST request or a switch keeps: the calls of the
-- ZeroMQ handler keep it.
pub record IsHandled (w : World) (P : Parts → Type 0) : Type 0 where
  pub closes :
      (id : ℕ)
      → (h : Handler) → (p : Parts) → p.zmq ≡ some (id, h)
      → P p
      → P (with_zmq id (Configure.close w.zmq h).1 p)
  pub executes :
      (c : RequestConfig)
      → (id : ℕ) → (h : Handler) → (p : Parts) → p.zmq ≡ some (id, h)
      → P p
      → P (with_zmq id (Execute.execute w.zmq c h).1 p)
  pub configures :
      (a : Pattern)
      → (r : Role) → (e : Text) → (id : ℕ) → (h : Handler) → (p : Parts) → p.zmq ≡ some (id, h)
      → (Configure.configure w.zmq a r e h).0 ≢ crash
      → P p
      → P (with_zmq id (Configure.configure w.zmq a r e h).1 p)

-- What a property needs that every event keeps: besides, the switches of the protocol keep it, and
-- the request in flight has no part in it.
pub record IsKept (w : World) (P : Parts → Type 0) : Type 0 where
  pub switches : (t : Text) → (m : Manager) → P (parts m) → P (parts (set_current_protocol w t m))
  pub starts : (b : Bool) → (p : Parts) → P p → P (record p { is_backed = b })
  pub handled : IsHandled w P

pub check_lem :
    (a : Answer)
    → (m : Manager)
    → parts (check_request a m)
      ≡ record (parts m) { is_backed = (parts (check_request a m)).is_backed }
unfolding check_request
check_lem a m = ground arith

pub grpc_lem :
    (w : World)
    → (decimal : ℕ → Text) → (body : Text) → (m : Manager)
    → LeavesParts (parts m) (execute_grpc_request w decimal body m)
unfolding execute_grpc_request run_grpc LeavesParts
grpc_lem w decimal body m = ground arith

pub method_lem : (t : Text) → (m : Manager) → LeavesParts (parts m) (set_grpc_method t m)
unfolding set_grpc_method LeavesParts
method_lem t m = ground arith

socket_sent_lem :
    (t : Text)
    → (o : Socket.Outcome RequestResult) → (p : Parts) → (m : Manager) → parts m ≡ p
    → LeavesParts p (socket_sent t o m)
unfolding LeavesParts
socket_sent_lem t (Socket.ok r) p m e = e
socket_sent_lem t (Socket.throws x) p m e = e
socket_sent_lem t Socket.misused p m e = tt

sent_by_lem :
    (w : World)
    → (o : Option Text) → (t : Text) → (id : ℕ) → (h : Socket.Handler) → (m : Manager)
    → m.ws ≡ some (id, h)
    → LeavesParts (parts m) (sent_by w o t id h m)
unfolding LeavesParts
sent_by_lem w none t id h m q =
    socket_sent_lem t _ _ _ (keep_ws_lem id h _ m q (Plain.execute_lem w.websocket _ h))
sent_by_lem w (some x) t id h m q = tt

send_by_lem :
    (w : World)
    → (t : Text) → (k : Option ℕ) → (o : Option (ℕ × Socket.Handler)) → (m : Manager) → m.ws ≡ o
    → LeavesParts (parts m) (send_by w t k o m)
unfolding LeavesParts
send_by_lem w t none o m q = refl
send_by_lem w t (some k) none m q = refl
send_by_lem w t (some k) (some (id, h)) m q = elim (Bool-cases (nat_eq id k)) [
  | inl b ↦ rw (b, if◌then◌else◌) (sent_by_lem w _ t id h m q)
  | inr b ↦ rw (b, if◌then◌else◌) refl
]

pub message_lem :
    (w : World) → (t : Text) → (m : Manager) → LeavesParts (parts m) (send_web_socket_message w t m)
unfolding send_web_socket_message LeavesParts
message_lem w t m = elim (Bool-cases (not m.is_connected)) [
  | inl b ↦ rw (b, if◌then◌else◌) refl
  | inr b ↦ rw (b, if◌then◌else◌) (send_by_lem w t m.handler m.ws m refl)
]

reply_lem :
    (role : Text) → (r : RequestResult) → (m : Manager) → parts (show_reply role r m) ≡ parts m
reply_lem role r m = ground arith

module _ (P : Parts → Type 0) where
  pub same_lem : (p q : Parts) → q ≡ p → P p → P q
  same_lem p q e t = subst P (sym e) t

  pub same_run_lem : (m : Manager) → (r : Run) → LeavesParts (parts m) r → P (parts m) → Leaves P r
  unfolding LeavesParts Leaves
  same_run_lem m (done m') e t = same_lem _ _ e t
  same_run_lem m (escapes x) e t = tt
  same_run_lem m crashes e t = tt

  -- The end of a call of the handler, which is shown.
  shown_lem :
      {A : Type 0}
      → (k : A → Manager → Manager) → (o : Outcome A) → (m : Manager) → (o ≢ crash → P (parts m))
      → ((x : A) → parts (k x m) ≡ parts m)
      → Leaves P (zmq_outcome k o m)
  unfolding Leaves
  shown_lem k (ok x) m t f = same_lem _ _ (f x) (t (λ c. cc))
  shown_lem k (throws (Exception.error x)) m t f = t (λ c. cc)
  shown_lem k (throws (Exception.zmq_error x)) m t f = tt
  shown_lem k crash m t f = tt
  shown_lem k out_of_fuel m t f = tt

module _ (w : World) (P : Parts → Type 0) (i : IsHandled w P) where
  pub cancel_zmq_lem :
      (o : Option (ℕ × Handler))
      → (m : Manager) → m.zmq ≡ o
      → P (parts m)
      → P (parts (cancel_zmq w o m))
  cancel_zmq_lem none m q t = t
  cancel_zmq_lem (some (id, h)) m q t = i.closes id h (parts m) q t

  pub execute_lem :
      (c : RequestConfig)
      → (role : Text) → (o : Option (ℕ × Handler)) → (m : Manager) → m.zmq ≡ o
      → P (parts m)
      → Leaves P (execute_with w c role o m)
  unfolding Leaves
  execute_lem c role none m q t = t
  execute_lem c role (some (id, h)) m q t =
      shown_lem P (show_reply role) _ _ (λ _. i.executes c id h (parts m) q t)
        (λ r. reply_lem role r _)

  pub connect_lem :
      (p : Option Pattern)
      → (r : Option Role) → (o : Option (ℕ × Handler)) → (endpoint role : Text) → (m : Manager)
      → m.zmq ≡ o
      → P (parts m)
      → Leaves P (connect_as w p r o endpoint role m)
  unfolding Leaves
  connect_lem none r o endpoint role m q t = t
  connect_lem (some p) none o endpoint role m q t = t
  connect_lem (some p) (some r) none endpoint role m q t = t
  connect_lem (some p) (some r) (some (id, h)) endpoint role m q t =
      shown_lem P (λ _. established role) _ _ (λ n. i.configures p r endpoint id h (parts m) q n t)
        (λ _. refl)
