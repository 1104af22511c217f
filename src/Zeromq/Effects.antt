-- ===== src/Zeromq/Effects.antt =====
-- What the operations on the socket leave alone.
use flowdriver.Base.{◌≡◌, Text, some, Bool, List, [], ◌∷◌, arith}
use flowdriver.Zeromq.Defs.{
  Pattern, Role, ConnectionStatus, SocketType, SockOpt, Call, Zmq, Handler, Exception, zmq_error,
  error, Outcome, ok, throws, crash, out_of_fuel, M, ◌>>=◌, continue, sets,
}
use flowdriver.Zeromq.Socket.{create, call, set_options}

-- The part of the state that only close, configure and the thread's start and stop change, but for
-- the socket.
pub record Setup : Type 0 where
  pub status : ConnectionStatus
  pub pattern : Pattern
  pub role : Role
  pub endpoint : Text
  pub running : Bool
  pub poll_thread : Bool

abbrev pub setup : Handler → Setup
setup h = record {
  status = h.status;
  pattern = h.pattern;
  role = h.role;
  endpoint = h.endpoint;
  running = h.running;
  poll_thread = h.poll_thread;
}

-- The set-up and the socket stay.
abbrev pub Kept : Handler → Handler → Type 0
Kept h h' = (setup h' ≡ setup h) × (h'.socket ≡ h.socket)

-- A result: a success with `Q`, or an exception with `E`; no crash, and the fuel was enough.
abbrev pub Ends :
    {A : Type 0}
    → (A → Handler → Type 0)
    → (Exception → Handler → Type 0)
    → Outcome A
    → Handler
    → Type 0
Ends Q E (ok a) h = Q a h
Ends Q E (throws x) h = E x h
Ends Q E crash h = ⊥
Ends Q E out_of_fuel h = ⊥

Ends-continue :
    {A B : Type 0} (P : A → Handler → Type 0) (Q : B → Handler → Type 0)
    (E : Exception → Handler → Type 0) (f : A → M B) (o : Outcome A) (h : Handler)
    → Ends P E o h
    → ((a : A) (h' : Handler) → P a h' → Ends Q E (f a h').0 (f a h').1)
    → Ends Q E (continue o f h).0 (continue o f h).1
Ends-continue P Q E f (ok a) h p k = k a h p
Ends-continue P Q E f (throws x) h p k = p
Ends-continue P Q E f crash h p k = p
Ends-continue P Q E f out_of_fuel h p k = p

-- The rule of sequencing.
pub Ends-bind :
    {A B : Type 0} (P : A → Handler → Type 0) (Q : B → Handler → Type 0)
    (E : Exception → Handler → Type 0) (m : M A) (f : A → M B) (h : Handler)
    → Ends P E (m h).0 (m h).1
    → ((a : A) (h' : Handler) → P a h' → Ends Q E (f a h').0 (f a h').1)
    → Ends Q E ((m >>= f) h).0 ((m >>= f) h).1
Ends-bind P Q E m f h p k = Ends-continue P Q E f (m h).0 (m h).1 p k

abbrev pub IsZmq : Exception → Type 0
IsZmq (zmq_error e) = Unit
IsZmq (error e) = ⊥

-- With the socket of type `k`, in a state set up as `s`.
abbrev pub Holds : Setup → SocketType → Handler → Type 0
Holds s k h = (setup h ≡ s) × (h.socket ≡ some k)

-- The calls succeed with the socket in place, or fail by an error of libzmq; the set-up stays.
abbrev pub Runs : Setup → SocketType → Outcome (Unit {0}) → Handler → Type 0
Runs s k = Ends (λ _. Holds s k) (λ x h. IsZmq x × (setup h ≡ s))

module _ (z : Zmq) where
  pub call-Runs :
      (c : Call) (s : Setup) (k : SocketType) (h : Handler)
      → Holds s k h
      → Runs s k (call z c h).0 (call z c h).1
  unfolding call
  call-Runs c s k h (e, f) = ground arith

  pub create-Runs :
      (k : SocketType) (s : Setup) (h : Handler)
      → setup h ≡ s
      → Runs s k (create z k h).0 (create z k h).1
  unfolding create
  create-Runs k s h e = ground arith

  pub set_options-Runs :
      (os : List SockOpt) (s : Setup) (k : SocketType) (h : Handler)
      → Holds s k h
      → Runs s k (set_options z os h).0 (set_options z os h).1
  unfolding set_options
  set_options-Runs [] s k h p = p
  set_options-Runs (o ∷ os) s k h p =
      Ends-bind (λ _. Holds s k) (λ _. Holds s k) (λ x h'. IsZmq x × (setup h' ≡ s))
        (call z (sets o)) (λ _. set_options z os) h (call-Runs (sets o) s k h p)
        (λ _ h' q. set_options-Runs os s k h' q)
