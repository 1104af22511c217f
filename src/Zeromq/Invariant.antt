-- ===== src/Zeromq/Invariant.antt =====
-- src/core/zeromq_handler.cpp: what holds of a handler whatever was called and received before.
use flowdriver.Base.{
  ℕ, ℤ, ◌≡◌, ◌≢◌, refl, ◌∙◌, sym, ap, Text, none, some, Bool, true, false, List, [], ◌∷◌, ◌⊎◌, inl,
  inr, arith, map, Bool-cases,
}
use flowdriver.Types.{RequestConfig}
use flowdriver.Zeromq.Defs.{
  Pattern, Role, SockOpt, Call, Zmq, Handler, init, Outcome, ok, throws, crash, out_of_fuel, M,
  continue, sets, connected, PollAnswer, rcvtimeo, sndtimeo, subscribes, raw,
}
use flowdriver.Zeromq.Socket.{call, set_options, send}
use flowdriver.Zeromq.Configure.{
  close, configure, set_timeout, subscribe, subscribe_to, set_option, available_roles,
}
use flowdriver.Zeromq.Execute.{execute, send_message}
use flowdriver.Zeromq.Receive.{poll_round}
use flowdriver.Zeromq.Effects.{Setup, Kept, Ends}
use flowdriver.Zeromq.Closed.{close-IsClosed}
use flowdriver.Zeromq.Roles.{listed, Available, socket_type}
use flowdriver.Zeromq.Configured.{configure-Ends, configure-eq-crash_iff, IsConfigured, IsRefused}
use flowdriver.Zeromq.Requests.{execute-Ends, IsError}
use flowdriver.Zeromq.Replies.{EndsWithin, poll_round_returns}

-- The thread polls: the handler is connected, with the socket of its role, and the role is one of
-- its pattern.
pub record IsPolling (h : Handler) : Type 0 where
  pub is_running : h.running ≡ true
  pub has_thread : h.poll_thread ≡ true
  pub is_connected : h.status ≡ connected
  pub is_available : Available h.pattern h.role
  pub has_socket : h.socket ≡ some (socket_type h.role)

-- No thread polls, and the handler has no socket or is not connected.
pub record IsStopped (h : Handler) : Type 0 where
  pub not_running : h.running ≡ false
  pub no_thread : h.poll_thread ≡ false
  pub unusable : (h.socket ≡ none) ⊎ (h.status ≢ connected)

abbrev pub IsSound : Handler → Type 0
IsSound h = IsPolling h ⊎ IsStopped h

-- What depends on the set-up and the socket alone.
pub Kept-IsSound : (h h' : Handler) → Kept h h' → IsSound h → IsSound h'
Kept-IsSound h h' (k, f) (inl p) = inl (record {
  is_running = ap (λ (s : Setup). s.running) k ∙ p.is_running;
  has_thread = ap (λ (s : Setup). s.poll_thread) k ∙ p.has_thread;
  is_connected = ap (λ (s : Setup). s.status) k ∙ p.is_connected;
  is_available = ap (λ (s : Setup). listed s.role (available_roles s.pattern)) k ∙ p.is_available;
  has_socket = f ∙ (p.has_socket ∙ ap (λ (s : Setup). some (socket_type s.role)) (sym k));
})
Kept-IsSound h h' (k, f) (inr p) = inr (record {
  not_running = ap (λ (s : Setup). s.running) k ∙ p.not_running;
  no_thread = ap (λ (s : Setup). s.poll_thread) k ∙ p.no_thread;
  unusable = elim p.unusable [
    | inl e ↦ inl (f ∙ e)
    | inr n ↦ inr (λ e. n (ap (λ (s : Setup). s.status) (sym k) ∙ e))
  ];
})

continue-Kept :
    {A B : Type 0} (o : Outcome A) (f : A → M B) (h g : Handler)
    → Kept h g
    → ((a : A) (k : Handler) → Kept k (f a k).1)
    → Kept h (continue o f g).1
continue-Kept (ok a) f h g k t = let n = t a g in (n.0 ∙ k.0, n.1 ∙ k.1)
continue-Kept (throws x) f h g k t = k
continue-Kept crash f h g k t = k
continue-Kept out_of_fuel f h g k t = k

configured_lem :
    (p : Pattern) (r : Role) (e : Text) (o : Outcome (Unit {0})) (h : Handler)
    → Available p r
    → Ends (λ _. IsConfigured p r e) (IsRefused p r e) o h
    → IsSound h
configured_lem p r e (ok x) h a c = inl (record {
  is_running = c.is_running;
  has_thread = c.has_thread;
  is_connected = c.is_connected;
  is_available = rw (c.has_pattern, c.has_role) a;
  has_socket = c.has_socket ∙ ap (λ r. some (socket_type r)) (sym c.has_role);
})
configured_lem p r e (throws x) h a c = inr (record {
  not_running = c.not_running;
  no_thread = c.no_thread;
  unusable = inr c.not_connected;
})
configured_lem p r e crash h a c = absurd c
configured_lem p r e out_of_fuel h a c = absurd c

pub executed_lem :
    {A : Type 0} (h : Handler) (o : Outcome A) (h' : Handler)
    → Ends (λ _. Kept h) (λ x k. IsError x × Kept h k) o h'
    → Kept h h'
executed_lem h (ok a) h' k = k
executed_lem h (throws x) h' k = k.1
executed_lem h crash h' k = absurd k
executed_lem h out_of_fuel h' k = absurd k

module _ (z : Zmq) where
  -- The handlers that the constructor, the calls and the rounds of the polling thread lead to: a
  -- call that returns or throws, and a round with the fuel for the frames that wait.
  pub data Reachable : Handler → Type 0 where
    starts : Reachable init
    configures :
        {h : Handler} (p : Pattern) (r : Role) (e : Text)
        → Reachable h
        → (configure z p r e h).0 ≢ crash
        → Reachable (configure z p r e h).1
    closes : {h : Handler} → Reachable h → Reachable (close z h).1
    times : {h : Handler} (t : ℤ) → Reachable h → Reachable (set_timeout z t h).1
    subscribes_to : {h : Handler} (ts : List Text) → Reachable h → Reachable (subscribe z ts h).1
    sets_option :
        {h : Handler} (n : ℕ) (value : Text) → Reachable h → Reachable (set_option z n value h).1
    executes : {h : Handler} (c : RequestConfig) → Reachable h → Reachable (execute z c h).1
    sends :
        {h : Handler} (m : Text) (more : Bool) → Reachable h → Reachable (send_message z m more h).1
    polls :
        {h : Handler} (fuel : ℕ) (a : PollAnswer)
        → Reachable h
        → EndsWithin z h.calls fuel
        → Reachable (poll_round z fuel a h).1

  pub configure-IsSound :
      (p : Pattern) (r : Role) (e : Text) (h : Handler)
      → (configure z p r e h).0 ≢ crash
      → IsSound (configure z p r e h).1
  configure-IsSound p r e h n = elim (Bool-cases (listed r (available_roles p))) [
    | inl a ↦ configured_lem p r e _ _ a (configure-Ends z p r e h a)
    | inr a ↦ absurd (n ((configure-eq-crash_iff z p r e h).1 a))
  ]

  pub close-IsSound : (h : Handler) → IsSound (close z h).1
  close-IsSound h =
      let c = (close-IsClosed z h).1 in
      inr (record {
        not_running = c.not_running;
        no_thread = c.no_thread;
        unusable = inl c.no_socket;
      })

  -- A call on the socket keeps it, whatever libzmq answers.
  call-Kept : (c : Call) (h : Handler) → Kept h (call z c h).1
  unfolding call
  call-Kept c h = ground arith

  set_options-Kept : (os : List SockOpt) (h : Handler) → Kept h (set_options z os h).1
  unfolding set_options
  set_options-Kept [] h = (refl, refl)
  set_options-Kept (o ∷ os) h =
      continue-Kept (call z (sets o) h).0 (λ _. set_options z os) h _ (call-Kept (sets o) h)
        (λ a g. set_options-Kept os g)

  pub set_timeout-Kept : (t : ℤ) (h : Handler) → Kept h (set_timeout z t h).1
  unfolding set_timeout
  set_timeout-Kept t h =
      ground (arith, set_options-Kept (rcvtimeo t ∷ sndtimeo t ∷ []) (record h { timeout = t }))

  subscribe_to-Kept : (ts : List Text) (h : Handler) → Kept h (subscribe_to z ts h).1
  unfolding subscribe_to
  subscribe_to-Kept [] h = set_options-Kept (subscribes [] ∷ []) h
  subscribe_to-Kept (t ∷ ts) h = set_options-Kept (map subscribes (t ∷ ts)) h

  pub subscribe-Kept : (ts : List Text) (h : Handler) → Kept h (subscribe z ts h).1
  unfolding subscribe
  subscribe-Kept ts h = ground (arith, subscribe_to-Kept ts h)

  pub set_option-Kept : (n : ℕ) (value : Text) (h : Handler) → Kept h (set_option z n value h).1
  unfolding set_option
  set_option-Kept n value h = ground (arith, call-Kept (sets (raw n value)) h)

  pub send_message-Kept :
      (m : Text) (more : Bool) (h : Handler) → Kept h (send_message z m more h).1
  unfolding send_message send
  send_message-Kept m more h = ground arith

  -- Whatever is called and received, a handler either polls, connected and with the socket of its
  -- role, or it is stopped: no thread polls, and it has no socket or is not connected. Calls of
  -- configure that use a null socket are left out.
  pub Reachable-IsSound : {h : Handler} → Reachable h → IsSound h
  Reachable-IsSound starts =
      inr (record { not_running = refl; no_thread = refl; unusable = inl refl })
  Reachable-IsSound (configures {h} p r e x n) = configure-IsSound p r e h n
  Reachable-IsSound (closes {h} x) = close-IsSound h
  Reachable-IsSound (times {h} t x) = Kept-IsSound h _ (set_timeout-Kept t h) (Reachable-IsSound x)
  Reachable-IsSound (subscribes_to {h} ts x) =
      Kept-IsSound h _ (subscribe-Kept ts h) (Reachable-IsSound x)
  Reachable-IsSound (sets_option {h} n value x) =
      Kept-IsSound h _ (set_option-Kept n value h) (Reachable-IsSound x)
  Reachable-IsSound (executes {h} c x) =
      Kept-IsSound h _ (executed_lem h _ _ (execute-Ends z c h)) (Reachable-IsSound x)
  Reachable-IsSound (sends {h} m more x) =
      Kept-IsSound h _ (send_message-Kept m more h) (Reachable-IsSound x)
  Reachable-IsSound (polls {h} fuel a x w) =
      Kept-IsSound h _ (poll_round_returns z fuel a h w).1 (Reachable-IsSound x)
