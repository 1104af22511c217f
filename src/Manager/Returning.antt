-- ===== src/Manager/Returning.antt =====
-- src/models/request_manager.cpp: when the calls return.
use flowdriver.Base.{
  ℕ, Text, Option, none, some, Bool, true, false, not, ◌==◌, ◌||◌, ◌&&◌, nat_eq, if◌then◌else◌, ◌≡◌,
  refl, arith, inl, inr, Bool-cases,
}
use flowdriver.Types.{RequestConfig}
use flowdriver.Zeromq.Defs.{
  Handler, Pattern, Role, Outcome, ok, throws, crash, out_of_fuel, Exception,
}
use flowdriver.Zeromq.Roles.{listed}
use flowdriver.Zeromq.Configure.{available_roles}
use flowdriver.Zeromq.Effects.{Ends}
use flowdriver.Zeromq.Configured.{IsConfigured, IsRefused, configure-Ends}
use flowdriver.Grpc.Defs.{Service, Handler as GrpcHandler}
use flowdriver.Grpc.Services.{set_method}
use flowdriver.WebSocket.Defs.{Handler as SocketHandler}
use flowdriver.Manager.Defs.{World, Manager, Run, done, escapes, crashes}
use flowdriver.Manager.GrpcCalls.{set_grpc_method, execute_grpc_request}
use flowdriver.Manager.Requests.{send_by, send_web_socket_message}
use flowdriver.Manager.Messages.{
  connect_as, zmq_outcome, connect_zmq, execute_zmq_request, convert_pattern, convert_role,
}
use flowdriver.Manager.Parts.{is_there}
use flowdriver.Manager.Calling.{is_live, CallEnds, execute_grpc_request-CallEnds}
use flowdriver.Manager.Messaging.{RequestEnds, execute_zmq_request-RequestEnds}
use flowdriver.Manager.Cancelling.{Returns}
use flowdriver.Manager.Restful.{IsDone}

-- The words are not both known, or they name a pattern and a role of it.
unfoldable pub fits : Option Pattern → Option Role → Bool
fits (some p) (some r) = listed r (available_roles p)
fits p r = true

abbrev finds : Text → ℕ → Option (ℕ × Service) → Bool
finds method pool none = false
finds method pool (some (k, s)) = nat_eq k pool && is_there (s.find_method method)

-- The selected service is live and has the method.
unfoldable pub can_select : Text → Option (ℕ × GrpcHandler) → Bool
can_select method none = true
can_select method (some (id, h)) = finds method h.pool h.current_service

send_lem :
    (w : World)
    → (text : Text) → (k : Option ℕ) → (o : Option (ℕ × SocketHandler)) → (m : Manager)
    → is_there o ≡ false
    → IsDone (send_by w text k o m)
send_lem w text none o m e = (_, refl)
send_lem w text (some k) none m e = (_, refl)
send_lem w text (some k) (some p) m e = cc

pub message_lem :
    (w : World)
    → (text : Text) → (m : Manager) → (not m.is_connected || not (is_there m.ws)) ≡ true
    → IsDone (send_web_socket_message w text m)
unfolding send_web_socket_message
message_lem w text m e = elim (Bool-cases (not m.is_connected)) [
  | inl q ↦ rw (q, if◌then◌else◌) (_, refl)
  | inr q ↦ rw (q, if◌then◌else◌) (send_lem w text m.handler m.ws m (ground arith))
]

outcome_lem :
    {A : Type 0}
    → (k : A → Manager → Manager) → (o : Outcome A) → (h : Handler) → (m : Manager) → (p : Pattern)
    → (r : Role) → (e : Text) → Ends (λ _. IsConfigured p r e) (IsRefused p r e) o h
    → IsDone (zmq_outcome k o m)
outcome_lem k (ok a) h m p r e c = (_, refl)
outcome_lem k (throws (Exception.error x)) h m p r e c = (_, refl)
outcome_lem k (throws (Exception.zmq_error x)) h m p r e c = absurd c.reported
outcome_lem k crash h m p r e c = absurd c
outcome_lem k out_of_fuel h m p r e c = absurd c

connect_lem :
    (w : World)
    → (p : Option Pattern) → (r : Option Role) → (o : Option (ℕ × Handler)) → (endpoint role : Text)
    → (m : Manager) → fits p r ≡ true
    → IsDone (connect_as w p r o endpoint role m)
unfolding fits
connect_lem w none r o endpoint role m e = (_, refl)
connect_lem w (some p) none o endpoint role m e = (_, refl)
connect_lem w (some p) (some r) none endpoint role m e = (_, refl)
connect_lem w (some p) (some r) (some (id, h)) endpoint role m e =
    outcome_lem _ _ _ _ p r endpoint (configure-Ends w.zmq p r endpoint h e)

pub endpoint_lem :
    (w : World)
    → (endpoint pattern role : Text) → (m : Manager)
    → fits (convert_pattern pattern) (convert_role role) ≡ true
    → IsDone (connect_zmq w endpoint pattern role m)
unfolding connect_zmq
endpoint_lem w endpoint pattern role m e = connect_lem w _ _ m.zmq endpoint role m e

-- The call returns, as a test.
abbrev is_done : Run → Bool
is_done (done m) = true
is_done r = false

returned_lem : (r : Run) → is_done r ≡ true → IsDone r
returned_lem (done m) e = (m, refl)
returned_lem (escapes x) e = cc
returned_lem crashes e = cc

chosen_lem :
    (text : Text)
    → (m : Manager) → ((m.current_grpc_method == text) || can_select text m.grpc) ≡ true
    → is_done (set_grpc_method text m) ≡ true
unfolding set_grpc_method set_method can_select
chosen_lem text m e = ground arith

pub method_lem :
    (text : Text)
    → (m : Manager) → ((m.current_grpc_method == text) || can_select text m.grpc) ≡ true
    → IsDone (set_grpc_method text m)
method_lem text m e = returned_lem _ (chosen_lem text m e)

called_lem :
    (w : World)
    → (decimal : ℕ → Text) → (body : Text) → (m : Manager) → (r : Run) → is_live m.grpc ≡ true
    → CallEnds w decimal body m r
    → IsDone r
unfolding CallEnds
called_lem w decimal body m (done m') l c = (m', refl)
called_lem w decimal body m (escapes x) l c = absurd c
called_lem w decimal body m crashes l c = cc

pub grpc_lem :
    (w : World)
    → (decimal : ℕ → Text) → (body : Text) → (m : Manager) → is_live m.grpc ≡ true
    → IsDone (execute_grpc_request w decimal body m)
grpc_lem w decimal body m l =
    called_lem w decimal body m _ l (execute_grpc_request-CallEnds w decimal body m)

answered_lem :
    (w : World)
    → (config : RequestConfig) → (role : Text) → (m : Manager) → (o : Option (ℕ × Handler))
    → (r : Run) → RequestEnds w config role m o r
    → IsDone r
unfolding RequestEnds
answered_lem w config role m o (done m') e = (m', refl)
answered_lem w config role m none (escapes x) e = absurd e
answered_lem w config role m (some p) (escapes x) e = absurd e
answered_lem w config role m none crashes e = absurd e
answered_lem w config role m (some p) crashes e = absurd e

pub zmq_lem :
    (w : World)
    → (method endpoint role body : Text) → (m : Manager)
    → IsDone (execute_zmq_request w method endpoint role body m)
zmq_lem w method endpoint role body m =
    answered_lem w _ role m m.zmq _ (execute_zmq_request-RequestEnds w method endpoint role body m)

pub returns_lem : (p : Manager → Type 0) → (r : Run) → Returns p r → IsDone r
unfolding Returns
returns_lem p (done m) e = (m, refl)
returns_lem p (escapes x) e = absurd e
returns_lem p crashes e = absurd e
