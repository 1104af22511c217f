-- ===== src/Zeromq/Requests.antt =====
-- What execute sends, receives and answers.
use flowdriver.Base.{
  ◌≡◌, ◌≢◌, refl, Text, none, some, true, false, List, [], ◌∷◌, inl, inr, arith, ◌++◌, codes,
  is_empty, Option-cases, if◌then◌else◌,
}
use flowdriver.Types.{ErrorCode, RequestConfig, RequestResult}
use flowdriver.Zeromq.Defs.{
  Pattern, Role, SocketType, Call, Zmq, ZmqError, Handler, Exception, zmq_error, error, Outcome, ok,
  throws, crash, out_of_fuel, M, sends, receives, received, RecvAnswer, rescue, message_received,
  req_rep,
}
use flowdriver.Zeromq.Socket.{send, recv}
use flowdriver.Zeromq.Execute.{
  create_result, publish, deal, route, request, await_reply, dispatch, execute,
}
use flowdriver.Zeromq.Effects.{Kept, Ends}

abbrev pub IsError : Exception → Type 0
IsError (error e) = Unit
IsError (zmq_error e) = ⊥

abbrev refuse : ZmqError → M RequestResult
refuse e h = (throws (error (record { code = ErrorCode.zmq_error; what = e.what })), h)

rescue_ok :
    (o : Outcome RequestResult) (h : Handler) (res : RequestResult)
    → (rescue o refuse h).0 ≡ ok res
    → (o ≡ ok res) × ((rescue o refuse h).1 ≡ h)
rescue_ok (ok a) h res e = (e, refl)
rescue_ok (throws (error x)) h res e = cc
rescue_ok (throws (zmq_error x)) h res e = cc
rescue_ok crash h res e = cc
rescue_ok out_of_fuel h res e = cc

rescue-Ends :
    (h : Handler) (o : Outcome RequestResult) (h' : Handler)
    → Ends (λ _. Kept h) (λ _. Kept h) o h'
    → Ends
        (λ _. Kept h)
        (λ x h''. IsError x × Kept h h'')
        (rescue o refuse h').0
        (rescue o refuse h').1
rescue-Ends h (ok a) h' k = k
rescue-Ends h (throws (error x)) h' k = (tt, k)
rescue-Ends h (throws (zmq_error x)) h' k = (tt, k)
rescue-Ends h crash h' k = k
rescue-Ends h out_of_fuel h' k = k

-- The frames that a role sends for a body, the latest first; the router's identity goes first.
abbrev frames : Role → Text → Text → List Call
frames Role.subscriber identity body = []
frames Role.router identity body =
    sends body false ∷ sends (if is_empty identity then codes "Game" else identity) true ∷ []
frames _ identity body = sends body false ∷ []

-- The roles that wait for an answer.
abbrev waits : Pattern → Role → List Call
waits req_rep Role.requester = receives true ∷ []
waits p Role.dealer = receives true ∷ []
waits p r = []

abbrev received_or : Text → RecvAnswer → Text
received_or body (received m) = m
received_or body _ = body

-- The body of the result: the answer, where the role waits for one and one came.
abbrev answer : Zmq → Pattern → Role → Text → List Call → Text
answer z req_rep Role.requester body calls = received_or body (z.recv calls)
answer z p Role.dealer body calls = received_or body (z.recv calls)
answer z p r body calls = body

-- What a successful request did: the frames of the role went out after the earlier calls, and then
-- the answer was waited for, if the role waits; one signal, with the body sent; a status 200.
pub record IsDone (z : Zmq) (p : Pattern) (r : Role) (body : Text) (before : Handler)
    (res : RequestResult) (after : Handler) : Type 0 where
  pub may_send : r ≢ Role.subscriber
  pub status : res.status_code ≡ 200
  pub calls : after.calls ≡ waits p r ++ (frames r before.identity body ++ before.calls)
  pub signals : after.signals ≡ message_received body ∷ before.signals
  pub answered : res.body ≡ answer z p r body after.calls

module _ (z : Zmq) where
  dispatch-IsDone :
      (p : Pattern) (r : Role) (body : Text) (h : Handler) (res : RequestResult)
      → (dispatch z p r body h).0 ≡ ok res
      → IsDone z p r body h res (dispatch z p r body h).1
  unfolding dispatch publish deal route request await_reply create_result send recv
  dispatch-IsDone p Role.subscriber body h res e = cc
  dispatch-IsDone p Role.publisher body h res e = ground arith
  dispatch-IsDone p Role.dealer body h res e = ground arith
  dispatch-IsDone p Role.router body h res e = ground arith
  dispatch-IsDone req_rep Role.requester body h res e = ground arith
  dispatch-IsDone p r body h res e = ground arith

  execute_lem :
      (config : RequestConfig) (h : Handler) (k : SocketType)
      → h.socket ≡ some k
      → execute z config h
        ≡ (let r = dispatch z h.pattern h.role config.body h in rescue r.0 refuse r.1)
  unfolding execute
  execute_lem config h k f = simp (f, execute)

  -- A request succeeds only on an open socket whose role is not SUBSCRIBER. Then the status is 200,
  -- the body went out as the role's frames (the router's behind the identity of a client) and was
  -- signalled once, and the result's body is the answer that a REQ-REP requester or a dealer got
  -- (a dealer that got none: the body sent), and the body sent for the other roles.
  pub execute-IsDone :
      (config : RequestConfig) (h : Handler) (res : RequestResult)
      → (execute z config h).0 ≡ ok res
      → (h.socket ≢ none) × IsDone z h.pattern h.role config.body h res (execute z config h).1
  unfolding execute
  execute-IsDone config h res e = elim (Option-cases h.socket) [
    | inl f ↦ ground arith
    | inr (k, f) ↦
        let (o, same) =
          rescue_ok (dispatch z h.pattern h.role config.body h).0
            (dispatch z h.pattern h.role config.body h).1 res (simp (f, execute) at e) in
        (
          λ g. ground arith,
          simp (f, execute) (rw same (dispatch-IsDone h.pattern h.role config.body h res o)),
        )
  ]

  -- With an open socket a request does not crash, and keeps the set-up and the socket.
  dispatch-Ends :
      (p : Pattern) (r : Role) (body : Text) (h : Handler) (k : SocketType)
      → h.socket ≡ some k
      → Ends (λ _. Kept h) (λ _. Kept h) (dispatch z p r body h).0 (dispatch z p r body h).1
  unfolding dispatch publish deal route request await_reply create_result send recv
  dispatch-Ends p Role.subscriber body h k f = ground arith
  dispatch-Ends p Role.publisher body h k f = ground arith
  dispatch-Ends p Role.dealer body h k f = ground arith
  dispatch-Ends p Role.router body h k f = ground arith
  dispatch-Ends req_rep Role.requester body h k f = ground arith
  dispatch-Ends p r body h k f = ground arith

  -- execute returns, or throws an Error and no exception of libzmq, whatever libzmq answers; it
  -- never calls a null socket, and the status, the settings and the socket stay.
  pub execute-Ends :
      (config : RequestConfig) (h : Handler)
      → Ends
          (λ _. Kept h)
          (λ x h'. IsError x × Kept h h')
          (execute z config h).0
          (execute z config h).1
  unfolding execute
  execute-Ends config h = elim (Option-cases h.socket) [
    | inl f ↦ ground arith
    | inr (k, f) ↦
        rw (execute_lem config h k f)
          (rescue-Ends h _ _ (dispatch-Ends h.pattern h.role config.body h k f))
  ]
