-- ===== src/Zeromq/Settings.antt =====
-- src/core/zeromq_handler.cpp: the options of the socket that are in effect.
use flowdriver.Base.{ℕ, ℤ, Text, List, [], ◌∷◌, Option, none, some, inl, inr, Option-cases}
use flowdriver.Zeromq.Defs.{
  Pattern, SocketType, SockOpt, Call, Zmq, Handler, Outcome, ok, throws, crash, out_of_fuel, M,
  ◌>>=◌, continue, linger, routing_id, rcvtimeo, sndtimeo, immediate, rcvhwm, sndhwm, reconnect_ivl,
  subscribes, raw, creates, sets,
}
use flowdriver.Zeromq.Socket.{create, call, set_options}

-- What the options of a socket were set to last; the topics of a subscriber add up.
pub record Settings : Type 0 where
  pub lingers : Option ℕ
  pub receive_timeout : Option ℤ
  pub send_timeout : Option ℤ
  pub is_immediate : Option ℕ
  pub receive_limit : Option ℕ
  pub send_limit : Option ℕ
  pub reconnect_interval : Option ℕ
  pub routing : Option Text
  pub topics : List Text

abbrev pub blank : Settings
blank = record {
  lingers = none;
  receive_timeout = none;
  send_timeout = none;
  is_immediate = none;
  receive_limit = none;
  send_limit = none;
  reconnect_interval = none;
  routing = none;
  topics = [];
}

-- An option that is set by its number is not looked into.
unfoldable pub set : SockOpt → Settings → Settings
set (linger n) s = record s { lingers = some n }
set (routing_id t) s = record s { routing = some t }
set (rcvtimeo t) s = record s { receive_timeout = some t }
set (sndtimeo t) s = record s { send_timeout = some t }
set (immediate n) s = record s { is_immediate = some n }
set (rcvhwm n) s = record s { receive_limit = some n }
set (sndhwm n) s = record s { send_limit = some n }
set (reconnect_ivl n) s = record s { reconnect_interval = some n }
set (subscribes t) s = record s { topics = t ∷ s.topics }
set (raw n t) s = s

unfoldable pub set_all : List SockOpt → Settings → Settings
set_all [] s = s
set_all (o ∷ os) s = set_all os (set o s)

-- The settings after the calls, the latest one first: those of the socket that was made last.
unfoldable pub settings : List Call → Settings
settings [] = blank
settings (creates k ∷ cs) = blank
settings (sets o ∷ cs) = set o (settings cs)
settings (_ ∷ cs) = settings cs

-- What matters for the settings.
pub record View : Type 0 where
  pub effective : Settings
  pub socket : Option SocketType
  pub pattern : Pattern
  pub timeout : ℤ
  pub dealer_id : Text

abbrev pub view : Handler → View
view h = record {
  effective = settings h.calls;
  socket = h.socket;
  pattern = h.pattern;
  timeout = h.timeout;
  dealer_id = h.dealer_id;
}

-- Where the operation returns, what it leaves has the property.
abbrev pub Leaves : {A : Type 0} → (View → Type 0) → Outcome A → Handler → Type 0
Leaves Q (ok a) h = Q (view h)
Leaves Q o h = Unit

continue-Leaves :
    {A B : Type 0} (P Q : View → Type 0) (o : Outcome A) (f : A → M B) (h : Handler)
    → Leaves P o h
    → ((a : A) (k : Handler) → P (view k) → Leaves Q (f a k).0 (f a k).1)
    → Leaves Q (continue o f h).0 (continue o f h).1
continue-Leaves P Q (ok a) f h e n = n a h e
continue-Leaves P Q (throws x) f h e n = tt
continue-Leaves P Q crash f h e n = tt
continue-Leaves P Q out_of_fuel f h e n = tt

pub bind-Leaves :
    {A B : Type 0} (P Q : View → Type 0) (m : M A) (f : A → M B) (h : Handler)
    → Leaves P (m h).0 (m h).1
    → ((a : A) (k : Handler) → P (view k) → Leaves Q (f a k).0 (f a k).1)
    → Leaves Q ((m >>= f) h).0 ((m >>= f) h).1
bind-Leaves P Q m f h e n = continue-Leaves P Q (m h).0 f (m h).1 e n

-- The views after an option, after options, and after a socket was made.
abbrev pub with_option : SockOpt → View → View
with_option o v = record v { effective = set o v.effective }

abbrev pub with_options : List SockOpt → View → View
with_options os v = record v { effective = set_all os v.effective }

abbrev pub with_socket : SocketType → View → View
with_socket k v = record v { effective = blank; socket = some k }

module _ (z : Zmq) (Q : View → Type 0) where
  call-Leaves :
      (o : SockOpt) (h : Handler)
      → Q (with_option o (view h))
      → Leaves Q (call z (sets o) h).0 (call z (sets o) h).1
  unfolding call settings
  call-Leaves o h x = elim (Option-cases h.socket) [
    | inl q ↦ simp q tt
    | inr (k, q) ↦ elim (Option-cases (z.attempt (sets o ∷ h.calls))) [
      | inl a ↦ simp (q, a) (simp q at x)
      | inr (y, a) ↦ simp (q, a) tt
    ]
  ]

  pub create-Leaves :
      (k : SocketType) (h : Handler)
      → Q (with_socket k (view h))
      → Leaves Q (create z k h).0 (create z k h).1
  unfolding create settings
  create-Leaves k h x = elim (Option-cases (z.attempt (creates k ∷ h.calls))) [
    | inl a ↦ simp a x
    | inr (y, a) ↦ simp a tt
  ]

module _ (z : Zmq) where
  pub set_options-Leaves :
      (Q : View → Type 0) (os : List SockOpt) (h : Handler)
      → Q (with_options os (view h))
      → Leaves Q (set_options z os h).0 (set_options z os h).1
  unfolding set_options set_all
  set_options-Leaves Q [] h x = x
  set_options-Leaves Q (o ∷ os) h x =
      bind-Leaves (λ v. Q (with_options os v)) Q (call z (sets o)) (λ _. set_options z os) h
        (call-Leaves z (λ v. Q (with_options os v)) o h x) (λ _ k q. set_options-Leaves Q os k q)
