-- ===== src/Zeromq/Configured.antt =====
-- What configure does with a role of its pattern, and with another.
use flowdriver.Base.{
  ◌≢◌, ◌↔◌, ◌≡◌, ◌∙◌, Text, none, some, true, false, List, [], ◌∷◌, ◌⊎◌, inl, inr, arith,
  Bool-cases,
}
use flowdriver.Types.{ErrorCode}
use flowdriver.Zeromq.Defs.{
  Pattern, Role, ConnectionStatus, Call, Zmq, ZmqError, Handler, Exception, zmq_error, error,
  Outcome, ok, throws, crash, out_of_fuel, M, ◌>>◌, throw, rescue, catch_zmq, connected,
  disconnected,
}
use flowdriver.Zeromq.Socket.{call}
use flowdriver.Zeromq.Configure.{
  close, available_roles, set_connection_status, set_common_socket_options, setup_req_rep,
  setup_pub_sub, setup_push_pull, setup_dealer_router, configure_socket, attachment, attach,
  open_socket, configure, start_polling, stop_polling,
}
use flowdriver.Zeromq.Effects.{Setup, setup, Ends, Ends-bind, IsZmq, Holds, Runs}
use flowdriver.Zeromq.Closed.{close-IsClosed}
use flowdriver.Zeromq.Roles.{listed, Available, socket_type, configure_socket-Runs, common-Runs}

abbrev pub IsLatest : Call → List Call → Type 0
IsLatest c [] = ⊥
IsLatest c (d ∷ earlier) = d ≡ c

abbrev pub IsZmqError : Exception → Type 0
IsZmqError (zmq_error e) = ⊥
IsZmqError (error e) = e.code ≡ ErrorCode.zmq_error

-- What a successful configure leaves.
pub record IsConfigured (p : Pattern) (r : Role) (e : Text) (h : Handler) : Type 0 where
  pub is_connected : h.status ≡ connected
  pub has_socket : h.socket ≡ some (socket_type r)
  pub is_running : h.running ≡ true
  pub has_thread : h.poll_thread ≡ true
  pub has_pattern : h.pattern ≡ p
  pub has_role : h.role ≡ r
  pub has_endpoint : h.endpoint ≡ e
  pub attached : IsLatest (attachment r e) h.calls

-- What a failed configure leaves, with the exception that it throws.
pub record IsRefused (p : Pattern) (r : Role) (e : Text) (x : Exception) (h : Handler)
    : Type 0 where
  pub not_connected : h.status ≢ connected
  pub not_running : h.running ≡ false
  pub no_thread : h.poll_thread ≡ false
  pub has_pattern : h.pattern ≡ p
  pub has_role : h.role ≡ r
  pub has_endpoint : h.endpoint ≡ e
  pub reported : IsZmqError x

abbrev fresh : Pattern → Role → Text → Setup
fresh p r e = record {
  status = disconnected;
  pattern = p;
  role = r;
  endpoint = e;
  running = false;
  poll_thread = false;
}

-- The end of the `try` of configure: an error of libzmq or an Error, in the fresh set-up.
abbrev Attaches : Pattern → Role → Text → Outcome (Unit {0}) → Handler → Type 0
Attaches p r e =
    Ends (λ _. IsConfigured p r e) (λ x h. (setup h ≡ fresh p r e) × (IsZmq x ⊎ IsZmqError x))

module _ (z : Zmq) (p : Pattern) (r : Role) (e : Text) where
  finish : M (Unit {0})
  finish = start_polling >> set_connection_status connected

  finish_lem :
      (h : Handler)
      → Holds (fresh p r e) (socket_type r) h
      → IsLatest (attachment r e) h.calls
      → ((finish h).0 ≡ ok tt) × IsConfigured p r e (finish h).1
  unfolding finish start_polling stop_polling set_connection_status
  finish_lem h (q, f) c = ground arith

  attach_lem :
      (h : Handler)
      → Holds (fresh p r e) (socket_type r) h
      → Ends
          (λ _ h'. Holds (fresh p r e) (socket_type r) h' × IsLatest (attachment r e) h'.calls)
          (λ x h'. (setup h' ≡ fresh p r e) × (IsZmq x ⊎ IsZmqError x))
          (attach z r e h).0
          (attach z r e h).1
  unfolding attach call
  attach_lem h (q, f) = ground arith

  -- The end of the `try`, with what it may leave behind.
  abbrev Left : Exception → Handler → Type 0
  Left x h = (setup h ≡ fresh p r e) × (IsZmq x ⊎ IsZmqError x)

  Left-of_Runs :
      (o : Outcome (Unit {0})) (h : Handler)
      → Runs (fresh p r e) (socket_type r) o h
      → Ends (λ _. Holds (fresh p r e) (socket_type r)) Left o h
  Left-of_Runs (ok a) h q = q
  Left-of_Runs (throws x) h q = (q.1, inl q.0)
  Left-of_Runs crash h q = q
  Left-of_Runs out_of_fuel h q = q

  unfoldable pub refuse : ZmqError → M (Unit {0})
  refuse x = do
    set_connection_status ConnectionStatus.error
    throw (record { code = ErrorCode.zmq_error; what = x.what })

  caught :
      (o : Outcome (Unit {0})) (h : Handler)
      → Attaches p r e o h
      → Ends (λ _. IsConfigured p r e) (IsRefused p r e) (rescue o refuse h).0 (rescue o refuse h).1
  unfolding refuse set_connection_status
  caught (ok a) h q = q
  caught (throws (error x)) h (q, t) = ground arith
  caught (throws (zmq_error x)) h (q, t) = ground arith
  caught crash h q = absurd q
  caught out_of_fuel h q = absurd q

  open_socket_lem :
      (h : Handler)
      → Available p r
      → setup h ≡ fresh p r e
      → Attaches p r e (open_socket z p r e h).0 (open_socket z p r e h).1
  unfolding open_socket finish
  open_socket_lem h a q =
      let S = λ (_ : Unit {0}) (h' : Handler). Holds (fresh p r e) (socket_type r) h' in
      let Q = λ (_ : Unit {0}) (h' : Handler). IsConfigured p r e h' in
      Ends-bind S Q Left (configure_socket z p r)
        (λ _. set_common_socket_options z >> (attach z r e >> finish)) h
        (Left-of_Runs _ _ (configure_socket-Runs z (fresh p r e) p r h a q))
        (λ _ h1 q1.
          Ends-bind S Q Left (set_common_socket_options z) (λ _. attach z r e >> finish) h1
            (Left-of_Runs _ _ (common-Runs z (fresh p r e) (socket_type r) h1 q1))
            (λ _ h2 q2.
              Ends-bind _ Q Left (attach z r e) (λ _. finish) h2 (attach_lem h2 q2)
                (λ _ h3 q3. let (done, made) = finish_lem h3 q3.0 q3.1 in rw done made)))

  pub status_lem :
      (s : ConnectionStatus) (h : Handler)
      → ((set_connection_status s h).0 ≡ ok tt)
        × (setup (set_connection_status s h).1 ≡ record (setup h) { status = s })
        × ((set_connection_status s h).1.socket ≡ h.socket)
  unfolding set_connection_status
  status_lem s h = ground arith

  -- configure, as far as its `try`.
  pub configure_lem :
      (R : Outcome (Unit {0}) → Handler → Type 0) (h : Handler)
      → ((h' : Handler)
          → setup h' ≡ fresh p r e
          → h'.socket ≡ none
          → R
              (catch_zmq (open_socket z p r e) (refuse) h').0
              (catch_zmq (open_socket z p r e) (refuse) h').1)
      → R (configure z p r e h).0 (configure z p r e h).1
  unfolding configure refuse
  configure_lem R h k =
      let (closed, c) = close-IsClosed z h in
      let (set, q, f) = status_lem disconnected (close z h).1 in
      rw closed (rw set (k _ (ground arith) (f ∙ c.no_socket)))

  -- For a role of the pattern, configure does not crash. Either it returns, connected, with the
  -- socket of the role, the polling thread and the given settings, and its last call of libzmq
  -- binds the wildcard endpoint (binding roles) or connects the given one (the others); or it
  -- throws an Error with the code ZMQ_ERROR, and then it is not connected and nothing polls.
  pub configure-Ends :
      (h : Handler)
      → Available p r
      → Ends
          (λ _. IsConfigured p r e)
          (IsRefused p r e)
          (configure z p r e h).0
          (configure z p r e h).1
  configure-Ends h a =
      configure_lem (Ends (λ _. IsConfigured p r e) (IsRefused p r e)) h
        (λ h' q f. caught _ _ (open_socket_lem h' a q))

  unavailable_lem :
      (h : Handler) → listed r (available_roles p) ≡ false → configure_socket z p r h ≡ (ok tt, h)
  unfolding configure_socket setup_req_rep setup_pub_sub setup_push_pull setup_dealer_router
  unavailable_lem h a = ground arith

  open_unavailable :
      (h : Handler)
      → listed r (available_roles p) ≡ false
      → h.socket ≡ none
      → (catch_zmq (open_socket z p r e) refuse h).0 ≡ crash
  unfolding open_socket set_common_socket_options attach call
  open_unavailable h a f = ground (arith, unavailable_lem h a)

  configure_crashes :
      (h : Handler) → listed r (available_roles p) ≡ false → (configure z p r e h).0 ≡ crash
  configure_crashes h a = configure_lem (λ o _. o ≡ crash) h (λ h' q f. open_unavailable h' a f)

  pub not_crash :
      (o : Outcome (Unit {0})) (h : Handler)
      → Ends (λ _. IsConfigured p r e) (IsRefused p r e) o h
      → o ≢ crash
  not_crash (ok a) h q = λ c. cc
  not_crash (throws x) h q = λ c. cc
  not_crash crash h q = absurd q
  not_crash out_of_fuel h q = absurd q

  -- configure calls a member of the null socket exactly when the role is not one of the pattern's
  -- available roles.
  pub configure-eq-crash_iff :
      (h : Handler) → ((configure z p r e h).0 ≡ crash) ↔ (listed r (available_roles p) ≡ false)
  configure-eq-crash_iff h = (
    λ c. elim (Bool-cases (listed r (available_roles p))) [
      | inl a ↦ absurd (not_crash _ _ (configure-Ends h a) c)
      | inr a ↦ a
    ],
    configure_crashes h,
  )
