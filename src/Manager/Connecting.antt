-- ===== src/Manager/Connecting.antt =====
-- src/models/request_manager.cpp: connectZMQ.
use flowdriver.Base.{ℕ, Text, false, some, ◌≡◌, refl, Bool-cases, inl, inr, ◌↔◌, ◌≢◌}
use flowdriver.Zeromq.Defs.{
  Handler as ZmqHandler, Pattern, Role, Outcome, ok, throws, crash, out_of_fuel, Exception,
}
use flowdriver.Zeromq.Configured
use flowdriver.Zeromq.Roles.{listed}
use flowdriver.Zeromq.Effects.{Ends}
use flowdriver.Zeromq.Configure.{available_roles}
use flowdriver.Manager.Defs.{World, Manager, crashes}
use flowdriver.Manager.Messages.{
  connect_zmq, connect_as, convert_pattern, convert_role, zmq_outcome,
}

-- A call that ends otherwise does not crash.
zmq_ends_lem :
    {A : Type 0}
    → (k : A → Manager → Manager) → (o : Outcome A) → (h : ZmqHandler) → (m : Manager)
    → (P : A → ZmqHandler → Type 0) → (Q : Exception → ZmqHandler → Type 0) → Ends P Q o h
    → zmq_outcome k o m ≢ crashes
zmq_ends_lem k (ok a) h m P Q e = λ c. cc
zmq_ends_lem k (throws (Exception.error x)) h m P Q e = λ c. cc
zmq_ends_lem k (throws (Exception.zmq_error x)) h m P Q e = λ c. cc
zmq_ends_lem k crash h m P Q e = absurd e
zmq_ends_lem k out_of_fuel h m P Q e = absurd e

connect_lem :
    (w : World)
    → (endpoint role : Text) → (m : Manager) → (id : ℕ) → (h : ZmqHandler) → (p : Pattern)
    → (r : Role)
    → (connect_as w (some p) (some r) (some (id, h)) endpoint role m ≡ crashes)
      ↔ (listed r (available_roles p) ≡ false)
connect_lem w endpoint role m id h p r = (
  λ c. elim (Bool-cases (listed r (available_roles p))) [
    | inl a ↦ absurd (zmq_ends_lem _ _ _ _ _ _ (Configured.configure-Ends w.zmq p r endpoint h a) c)
    | inr a ↦ a
  ],
  λ a. simp ((Configured.configure-eq-crash_iff w.zmq p r endpoint h).1 a) refl,
)

-- connectZMQ, where there is a ZeroMQ handler and the words for the pattern and the role are known,
-- uses a null socket exactly when the role is not one of the pattern's.
pub connect_zmq-crashes_iff :
    (w : World)
    → (endpoint pattern role : Text) → (m : Manager) → (id : ℕ) → (h : ZmqHandler) → (p : Pattern)
    → (r : Role) → m.zmq ≡ some (id, h)
    → convert_pattern pattern ≡ some p
    → convert_role role ≡ some r
    → (connect_zmq w endpoint pattern role m ≡ crashes) ↔ (listed r (available_roles p) ≡ false)
unfolding connect_zmq
connect_zmq-crashes_iff w endpoint pattern role m id h p r z cp cr =
    simp (z, cp, cr) (connect_lem w endpoint role m id h p r)
