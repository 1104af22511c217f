-- ===== src/Manager/Kept.antt =====
-- src/models/request_manager.cpp: the calls keep what holds between two events.
use flowdriver.Base.{
  ℕ, Text, Option, Bool, true, false, if◌then◌else◌, none, some, ◌≡◌, refl, arith, inl, inr,
  Bool-cases, ◌==◌,
}
use flowdriver.Manager.Defs.{World, Manager, Run, done}
use flowdriver.Manager.Protocols.{init, set_current_role, set_auth_model}
use flowdriver.Zeromq.Defs.{Handler as ZmqHandler}
use flowdriver.Manager.GrpcCalls.{
  reloaded, set_grpc_method, set_grpc_endpoint, set_grpc_use_ssl, set_proto_file_path, run_grpc,
  execute_grpc_request,
}
use flowdriver.Types.{RequestConfig, RequestResult}
use flowdriver.Manager.Requests.{cancel_handler, cancel_request, check_request, disconnect, Answer}
use flowdriver.Zeromq.Defs.{
  Outcome, ok, throws, crash, out_of_fuel, Exception, Handler as ZmqHandler, Pattern, Role,
}
use flowdriver.Grpc.Defs.{Handler as GrpcHandler}
use flowdriver.Manager.Messages.{
  zmq_outcome, show_reply, established, connect_as, execute_with, on_zmq_signal, export_response,
  clear_messages,
}
use flowdriver.Manager.Steps.{
  Event, role_chosen, auth_model_given, cleared, disconnection, format, zmq_signal, endpoint_chosen,
  ssl_chosen, step, is_owned, is_pending, is_awaited, is_sound, is_due, waits, is_kept,
}
use flowdriver.WebSocket.Connect
use flowdriver.Manager.Sound
use flowdriver.Zeromq.Execute
use flowdriver.Zeromq.Configure
use flowdriver.Manager.Defs.{message_sent}

-- What the operation leaves, where it returns.
unfoldable pub sound_after : Run → Bool
sound_after (done m) = is_sound m
sound_after _ = true

pub check_lem :
    (a : Answer) → (m : Manager) → is_sound m ≡ true → is_sound (check_request a m) ≡ true
unfolding check_request is_sound is_kept waits is_owned is_awaited is_pending is_due
check_lem a m e = ground arith

-- The events that neither make a handler nor start a request.
unfoldable pub is_simple : Event → Bool
is_simple (role_chosen r) = true
is_simple (auth_model_given same a) = true
is_simple cleared = true
is_simple disconnection = true
is_simple (format f) = true
is_simple (zmq_signal s) = true
is_simple (endpoint_chosen p) = true
is_simple (ssl_chosen on) = true
is_simple _ = false

pub simple_lem :
    (e : Event)
    → (w : World) → (m : Manager) → is_simple e ≡ true
    → is_sound m ≡ true
    → sound_after (step w e m) ≡ true
unfolding is_simple step sound_after set_current_role set_auth_model clear_messages disconnect
    export_response on_zmq_signal set_grpc_endpoint set_grpc_use_ssl is_sound is_kept waits is_owned
    Connect.cancel Connect.close
simple_lem e w m s q = ground arith

pub init_lem : (w : World) → is_sound (init w) ≡ true
unfolding init is_sound is_awaited waits
init_lem w = Sound.initialize_lem is_awaited w _ refl

pub shown_lem :
    {A : Type 0}
    → (k : A → Manager → Manager) → (o : Outcome A) → (m : Manager) → is_sound m ≡ true
    → ((x : A) → is_sound (k x m) ≡ true)
    → sound_after (zmq_outcome k o m) ≡ true
unfolding sound_after is_sound
shown_lem k (ok x) m e f = f x
shown_lem k (throws (Exception.error x)) m e f = Sound.emit_lem is_awaited _ m e
shown_lem k (throws (Exception.zmq_error x)) m e f = refl
shown_lem k crash m e f = refl
shown_lem k out_of_fuel m e f = refl

pub reply_lem :
    (role : Text)
    → (r : RequestResult) → (m : Manager) → is_sound m ≡ true
    → is_sound (show_reply role r m) ≡ true
unfolding is_sound is_kept waits is_owned
reply_lem role r m e = ground arith

pub established_lem :
    (role : Text) → (m : Manager) → is_sound m ≡ true → is_sound (established role m) ≡ true
unfolding is_sound is_kept waits is_owned
established_lem role m e = ground arith

pub zmq_request_lem :
    (w : World)
    → (c : RequestConfig) → (role : Text) → (o : Option (ℕ × ZmqHandler)) → (m : Manager)
    → m.zmq ≡ o
    → is_sound m ≡ true
    → sound_after (execute_with w c role o m) ≡ true
unfolding is_sound sound_after
zmq_request_lem w c role none m q e = Sound.emit_lem is_awaited _ m e
zmq_request_lem w c role (some (id, h)) m q e =
    let kept =
      Sound.zmq_kept_lem is_awaited id h (Execute.execute w.zmq c h).1 _ q
        (Sound.emit_lem is_awaited (message_sent c.body) m e) in
    shown_lem (show_reply role) _ _ kept (λ r. reply_lem role r _ kept)

pub connect_lem :
    (w : World)
    → (p : Option Pattern) → (r : Option Role) → (o : Option (ℕ × ZmqHandler))
    → (endpoint role : Text) → (m : Manager) → m.zmq ≡ o
    → is_sound m ≡ true
    → sound_after (connect_as w p r o endpoint role m) ≡ true
unfolding is_sound sound_after
connect_lem w none r o endpoint role m q e = Sound.emit_lem is_awaited _ m e
connect_lem w (some p) none o endpoint role m q e = Sound.emit_lem is_awaited _ m e
connect_lem w (some p) (some r) none endpoint role m q e = Sound.emit_lem is_awaited _ m e
connect_lem w (some p) (some r) (some (id, h)) endpoint role m q e =
    let kept =
      Sound.zmq_kept_lem is_awaited id h (Configure.configure w.zmq p r endpoint h).1 m q e in
    shown_lem (λ _. established role) _ _ kept (λ _. established_lem role _ kept)

pub method_lem :
    (t : Text) → (m : Manager) → is_sound m ≡ true → sound_after (set_grpc_method t m) ≡ true
unfolding set_grpc_method sound_after is_sound is_kept waits is_owned
method_lem t m e = ground arith

pub grpc_lem :
    (w : World)
    → (decimal : ℕ → Text) → (body : Text) → (m : Manager) → is_sound m ≡ true
    → sound_after (execute_grpc_request w decimal body m) ≡ true
unfolding execute_grpc_request run_grpc sound_after is_sound is_kept waits is_owned is_awaited
grpc_lem w decimal body m e = ground arith

pub cancel_lem :
    (w : World) → (m : Manager) → is_sound m ≡ true → sound_after (cancel_request w m) ≡ true
unfolding cancel_request cancel_handler sound_after is_sound is_kept waits is_owned is_awaited
    Connect.cancel Connect.close
cancel_lem w m e = ground arith

pub reloaded_lem :
    (w : World)
    → (p : Text) → (o : Option (ℕ × GrpcHandler)) → (m : Manager) → is_sound m ≡ true
    → is_sound (reloaded w p o m) ≡ true
unfolding is_sound
reloaded_lem w p none m e = e
reloaded_lem w p (some h) m e = Sound.load_lem is_awaited w p m e

pub path_lem :
    (p : Text)
    → (m : Manager) → is_sound m ≡ true
    → is_sound (record m { proto_file_path = p }) ≡ true
unfolding is_sound is_kept waits is_owned
path_lem p m e = ground arith

pub proto_lem :
    (w : World)
    → (p : Text) → (m : Manager) → is_sound m ≡ true
    → is_sound (set_proto_file_path w p m) ≡ true
unfolding set_proto_file_path is_sound
proto_lem w p m e = elim (Bool-cases (m.proto_file_path == p)) [
  | inl q ↦ rw (q, if◌then◌else◌) e
  | inr q ↦
      rw (q, if◌then◌else◌) (Sound.emit_lem is_awaited _ _ (reloaded_lem w p _ _ (path_lem p m e)))
]
