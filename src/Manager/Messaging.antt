-- ===== src/Manager/Messaging.antt =====
-- src/models/request_manager.cpp: how executeZMQRequest ends.
use flowdriver.Base.{
  ℕ, Text, codes, List, [], ◌∷◌, ◌++◌, Option, none, some, ◌≡◌, refl, inl, inr, Bool-cases, not,
  ◌&&◌, ◌==◌, is_empty, if◌then◌else◌,
}
use flowdriver.Types.{RequestConfig, RequestResult, default_config}
use flowdriver.Zeromq.Defs.{Handler, Outcome, ok, throws, crash, out_of_fuel, zmq_error, error}
use flowdriver.Zeromq.Execute
use flowdriver.Zeromq.Effects.{Kept, Ends}
use flowdriver.Zeromq.Requests.{execute-Ends, IsError}
use flowdriver.Manager.Defs.{
  World, Manager, Signal, Run, done, escapes, crashes, complain, emit, message, message_sent,
  error_occurred, response_received,
}
use flowdriver.Manager.Protocols.{forwarded, keep_zmq}
use flowdriver.Manager.Messages.{execute_zmq_request, execute_with, zmq_outcome, show_reply}

-- The reply that a requester shows.
abbrev pub reply : Text → RequestResult → List Signal
reply role r =
    if not (is_empty r.body) && role == codes "REQUESTER"
    then response_received (message r.body) ∷ []
    else []

-- What is told of an outcome.
abbrev pub told_of : Text → Outcome RequestResult → List Signal
told_of role (ok r) = reply role r
told_of role (throws (error x)) = error_occurred x.what ∷ []
told_of role _ = []

-- The end of a request of the handler `h`, with the outcome `o` and the handler `k` after it.
abbrev pub IsRequested :
    Text → Text → Manager → ℕ → Handler → Outcome RequestResult → Handler → Manager → Type 0
IsRequested role body m id h o k m' =
    Kept h k
    × (m' ≡ record m {
      zmq = some (id, record k { signals = [] });
      signals =
          told_of role o ++ (forwarded m.current_role k.signals ++ message_sent body ∷ m.signals);
    })

unfoldable pub RequestEnds :
    World → RequestConfig → Text → Manager → Option (ℕ × Handler) → Run → Type 0
RequestEnds w config role m none (done m') = m' ≡ complain (codes "ZMQ handler not initialized") m
RequestEnds w config role m (some (id, h)) (done m') =
    let r = Execute.execute w.zmq config h in IsRequested role config.body m id h r.0 r.1 m'
RequestEnds w config role m o r = ⊥

-- What zmq_outcome makes of the outcome.
unfoldable Concludes :
    Text → Text → Manager → ℕ → Handler → Outcome RequestResult → Handler → Run → Type 0
Concludes role body m id h o k (done m') = IsRequested role body m id h o k m'
Concludes role body m id h o k r = ⊥

outcome_lem :
    (role body : Text)
    → (m : Manager) → (id : ℕ) → (h : Handler) → (o : Outcome RequestResult) → (k : Handler)
    → Ends (λ _. Kept h) (λ x k. IsError x × Kept h k) o k
    → Concludes role body m id h o k
        (zmq_outcome (show_reply role) o (keep_zmq id k (emit (message_sent body) m)))
unfolding Concludes
outcome_lem role body m id h (ok r) k e =
    elim (Bool-cases (not (is_empty r.body) && role == codes "REQUESTER")) [
      | inl q ↦ rw (q, if◌then◌else◌) (e, refl)
      | inr q ↦ rw (q, if◌then◌else◌) (e, refl)
    ]
outcome_lem role body m id h (throws (error x)) k e = (e.1, refl)
outcome_lem role body m id h (throws (zmq_error x)) k e = absurd e.0
outcome_lem role body m id h crash k e = absurd e
outcome_lem role body m id h out_of_fuel k e = absurd e

concluded_lem :
    (w : World)
    → (config : RequestConfig) → (role : Text) → (id : ℕ) → (h : Handler) → (m : Manager)
    → (r : Run)
    → (let e = Execute.execute w.zmq config h in Concludes role config.body m id h e.0 e.1 r)
    → RequestEnds w config role m (some (id, h)) r
unfolding RequestEnds Concludes
concluded_lem w config role id h m (done m') c = c
concluded_lem w config role id h m (escapes x) c = absurd c
concluded_lem w config role id h m crashes c = absurd c

execute_lem :
    (w : World)
    → (config : RequestConfig) → (role : Text) → (o : Option (ℕ × Handler)) → (m : Manager)
    → RequestEnds w config role m o (execute_with w config role o m)
unfolding RequestEnds
execute_lem w config role none m = refl
execute_lem w config role (some (id, h)) m =
    concluded_lem w config role id h m _
      (outcome_lem role config.body m id h _ _ (execute-Ends w.zmq config h))

-- executeZMQRequest returns: it lets no exception out and uses no null socket, whatever libzmq
-- answers. Without a ZeroMQ handler it tells one error and changes nothing else. Else it signals
-- that the body was sent, passes the handler's signals on, and then shows the reply, where the
-- given role is REQUESTER and the reply is not empty, or tells the error of the request; the
-- handler keeps its set-up and its socket, and nothing else of the manager changes.
pub execute_zmq_request-RequestEnds :
    (w : World)
    → (method endpoint role body : Text) → (m : Manager)
    → let config = record default_config { method = method; url = endpoint; body = body } in
      RequestEnds w config role m m.zmq (execute_zmq_request w method endpoint role body m)
unfolding execute_zmq_request
execute_zmq_request-RequestEnds w method endpoint role body m =
    execute_lem w (record default_config { method = method; url = endpoint; body = body }) role
      m.zmq m
