-- ===== src/Zeromq/Effective.antt =====
-- src/core/zeromq_handler.cpp: which options a successful configure leaves in effect.
use flowdriver.Base.{
  ℤ, Text, some, ◌≡◌, refl, sym, ap, subst, arith, inl, inr, Bool-cases, if◌then◌else◌,
}
use flowdriver.Zeromq.Defs.{
  Pattern, Role, ConnectionStatus, Zmq, Handler, Outcome, ok, throws, crash, out_of_fuel, Exception,
  M, ◌>>◌, req_rep, pub_sub, push_pull, dealer_router, rescue, connected,
}
use flowdriver.Zeromq.Socket.{call}
use flowdriver.Zeromq.Configure.{
  binding, attach, configure, configure_socket, open_socket, pattern_timeout,
  set_common_socket_options, set_connection_status, start_polling, stop_polling,
}
use flowdriver.Zeromq.Roles.{Available, socket_type}
use flowdriver.Zeromq.Effects.{Setup, Ends}
use flowdriver.Zeromq.Configured.{
  status_lem, refuse, configure_lem, IsConfigured, IsRefused, configure-Ends,
}
use flowdriver.Zeromq.Settings.{Settings, set, set_all, settings, View, view, Leaves, bind-Leaves}
use flowdriver.Zeromq.Made.{
  topics_of, routing_of, IsReady, with_common, common-Leaves, socket-Leaves,
}

abbrev pub common : Text → Role → ℤ → Settings
common name r t = record {
  lingers = some 0;
  receive_timeout = some t;
  send_timeout = some t;
  is_immediate = some 1;
  receive_limit = some 1000;
  send_limit = some 1000;
  reconnect_interval = some 100;
  routing = routing_of r name;
  topics = topics_of r;
}

-- The options in effect are the common ones, for the timeout of the handler, which is that of the
-- pattern, where it has one.
abbrev pub IsTuned : Pattern → Role → View → Type 0
IsTuned p r v =
    (v.effective ≡ common v.dealer_id r v.timeout) × (v.timeout ≡ pattern_timeout p v.timeout)

same-Leaves :
    {A : Type 0}
    → (Q : View → Type 0) → (o : Outcome A) → (k h : Handler) → view k ≡ view h
    → Q (view h)
    → Leaves Q o k
same-Leaves Q (ok a) k h e x = subst Q (sym e) x
same-Leaves Q (throws y) k h e x = tt
same-Leaves Q crash k h e x = tt
same-Leaves Q out_of_fuel k h e x = tt

timeout_lem :
    (p : Pattern)
    → (v : View) → v.pattern ≡ p
    → pattern_timeout v.pattern v.timeout ≡ pattern_timeout p (pattern_timeout v.pattern v.timeout)
timeout_lem req_rep v q = simp q refl
timeout_lem pub_sub v q = simp q refl
timeout_lem push_pull v q = simp q refl
timeout_lem dealer_router v q = simp q refl

both_lem :
    {A : Type 0} (P : A → Handler → Type 0) (E : Exception → Handler → Type 0) (Q : View → Type 0)
    (o : Outcome A) (h : Handler)
    → Ends P E o h
    → Leaves Q o h
    → Ends (λ a k. P a k × Q (view k)) E o h
both_lem P E Q (ok a) h p q = (p, q)
both_lem P E Q (throws x) h p q = p
both_lem P E Q crash h p q = absurd p
both_lem P E Q out_of_fuel h p q = absurd p

module _ (z : Zmq) where
  attach_lem : (r : Role) (e : Text) (h : Handler) → view (attach z r e h).1 ≡ view h
  unfolding attach call settings
  attach_lem r e h = elim (Bool-cases (binding r)) [
    | inl b ↦ simp (b, if◌then◌else◌) (ground arith)
    | inr b ↦ simp (b, if◌then◌else◌) (ground arith)
  ]

  finish : M (Unit {0})
  finish = start_polling >> set_connection_status connected

  finish_lem : (h : Handler) → view (finish h).1 ≡ view h
  unfolding finish start_polling stop_polling set_connection_status
  finish_lem h = ground arith

  settled_lem : (p : Pattern) (r : Role) (v : View) → IsReady p r v → IsTuned p r (with_common v)
  unfolding set_all set
  settled_lem p r v (s, q, t, o) = (ground arith, timeout_lem p v q)

  open-Leaves :
      (p : Pattern) (r : Role) (e : Text) (h : Handler)
      → Available p r
      → h.pattern ≡ p
      → Leaves (IsTuned p r) (open_socket z p r e h).0 (open_socket z p r e h).1
  unfolding open_socket finish
  open-Leaves p r e h a q =
      let P = IsReady p r in
      let Q = IsTuned p r in
      bind-Leaves P Q (configure_socket z p r)
        (λ _. set_common_socket_options z >> (attach z r e >> finish)) h (socket-Leaves z p r h a q)
        (λ _ h1 x.
          bind-Leaves Q Q (set_common_socket_options z) (λ _. attach z r e >> finish) h1
            (common-Leaves z Q (socket_type r) h1 x.0 (settled_lem p r (view h1) x))
            (λ _ h2 y.
              bind-Leaves Q Q (attach z r e) (λ _. finish) h2
                (same-Leaves Q _ _ h2 (attach_lem r e h2) y)
                (λ _ h3 w. same-Leaves Q _ _ h3 (finish_lem h3) w)))

  caught_lem :
      (Q : View → Type 0) (p : Pattern) (r : Role) (e : Text) (o : Outcome (Unit {0})) (h : Handler)
      → Leaves Q o h
      → Leaves Q (rescue o (refuse z p r e) h).0 (rescue o (refuse z p r e) h).1
  unfolding refuse
  caught_lem Q p r e (ok a) h x = x
  caught_lem Q p r e (throws (Exception.error y)) h x = tt
  caught_lem Q p r e (throws (Exception.zmq_error y)) h x =
      simp (status_lem z p r e ConnectionStatus.error h).0 tt
  caught_lem Q p r e crash h x = tt
  caught_lem Q p r e out_of_fuel h x = tt

  options_lem :
      (p : Pattern) (r : Role) (e : Text) (h : Handler)
      → Available p r
      → Leaves (IsTuned p r) (configure z p r e h).0 (configure z p r e h).1
  options_lem p r e h a = configure_lem z p r e (Leaves (IsTuned p r)) h (λ k q f.
      caught_lem (IsTuned p r) p r e _ _ (open-Leaves p r e k a (ap (λ (s : Setup). s.pattern) q)))

  -- For a role of the pattern, configure does not crash. Either it throws an Error with the code
  -- ZMQ_ERROR, and then it is not connected and nothing polls. Or it returns, connected, with the
  -- socket of the role, the polling thread and the given settings, and its last call of libzmq binds
  -- the wildcard endpoint (binding roles) or connects the given one (the others). Then the options
  -- in effect on the socket are the same for every role: no linger, 1000 messages in each direction,
  -- 100 ms to reconnect, only completed connections, and the timeout of the handler for sending and
  -- receiving, which is 30 s for REQ-REP. Only a subscriber has a topic, the empty one, and only a
  -- dealer an identity, its name; the linger, the timeout and the interval that a role sets for
  -- itself are lost.
  pub configure-IsTuned :
      (p : Pattern) (r : Role) (e : Text) (h : Handler)
      → Available p r
      → Ends
          (λ _ k. IsConfigured p r e k × IsTuned p r (view k))
          (IsRefused p r e)
          (configure z p r e h).0
          (configure z p r e h).1
  configure-IsTuned p r e h a =
      both_lem (λ _. IsConfigured p r e) (IsRefused p r e) (IsTuned p r) (configure z p r e h).0 _
        (configure-Ends z p r e h a) (options_lem p r e h a)
