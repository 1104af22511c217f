-- ===== src/Manager/Session.antt =====
-- src/models/request_manager.cpp: a whole session, from the constructor on.
use flowdriver.Base.{List, [], ◌∷◌, Bool, true, false, ◌&&◌, ◌≡◌, refl, subst, arith, All}
use flowdriver.Manager.Defs.{World, Manager, Run, done}
use flowdriver.Manager.Protocols.{init}
use flowdriver.Manager.Messages.{convert_pattern, convert_role}
use flowdriver.Manager.Steps.{
  Event, step, message, protocol_chosen, zmq_endpoint, method_chosen, grpc_request, is_sound,
}
use flowdriver.Manager.Parts.{parts, runs_on}
use flowdriver.Manager.Serving.{lets_finish, init-IsBacked}
use flowdriver.Manager.Tidy.{IsTidy}
use flowdriver.Manager.Stepping.{after_lem, step_lem}
use flowdriver.Manager.Polling.{Runs, starts, Runs-IsTidy}
use flowdriver.Manager.Returning.{fits}
use flowdriver.Manager.Progress.{is_safe, step-Runs, Runs-is_sound}
use flowdriver.Manager.Staffed.{
  IsCalm, IsStaffed, IsStaffed-IsKept, init-IsStaffed, IsStaffed-has_rest,
}

-- The events of a session, the first one first, each with what is around then. A session ends
-- where an operation does not return.
abbrev continue : (Manager → Run) → Run → Run
continue f (done m) = f m
continue f r = r

unfoldable pub run : List (World × Event) → Manager → Run
run [] m = done m
run (x ∷ xs) m = continue (run xs) (step x.0 x.1 m)

abbrev goes_on : (Manager → Bool) → Run → Bool
goes_on f (done m) = f m
goes_on f r = true

-- While a REST request is in flight, the session does not change to another protocol.
unfoldable pub lets_finish_all : List (World × Event) → Manager → Bool
lets_finish_all [] m = true
lets_finish_all (x ∷ xs) m = lets_finish x.1 m && goes_on (lets_finish_all xs) (step x.0 x.1 m)

-- All events but the messages of a WebSocket, the choice of a gRPC method and gRPC calls; a pattern
-- and a role that are chosen for ZeroMQ are words that are not known, or fit.
unfoldable pub is_calm : Event → Bool
is_calm (message t) = false
is_calm (zmq_endpoint endpoint pattern role) = fits (convert_pattern pattern) (convert_role role)
is_calm (method_chosen t) = false
is_calm (grpc_request decimal body) = false
is_calm e = true

calm-is_safe :
    (w : World)
    → IsCalm w
    → (e : Event) → (m : Manager) → IsStaffed (parts m)
    → is_calm e ≡ true
    → lets_finish e m ≡ true
    → is_safe w e m ≡ true
unfolding is_safe is_calm
calm-is_safe w c (protocol_chosen p) m t q l = l
calm-is_safe w c (Event.request a u hs b) m t q l = IsStaffed-has_rest w c m t
calm-is_safe w c (message x) m t q l = cc
calm-is_safe w c (zmq_endpoint u p r) m t q l = q
calm-is_safe w c (method_chosen x) m t q l = cc
calm-is_safe w c (grpc_request d b) m t q l = cc
calm-is_safe w c e m t q l = refl

-- What a session leaves: it comes to its end, with the manager in order.
abbrev pub IsOrderly : Run → Type 0
IsOrderly r =
    (m : Manager) × (r ≡ done m)
    × (is_sound m ≡ true)
    × IsTidy (parts m)
    × IsStaffed (parts m)
    × (runs_on m.current_request m.rest ≡ true)

abbrev pub AreCalm : List (World × Event) → Type 0
AreCalm xs = All (λ x. IsCalm x.0 × (is_calm x.1 ≡ true)) xs

orderly_lem :
    {m : Manager}
    → Runs m
    → IsStaffed (parts m)
    → runs_on m.current_request m.rest ≡ true
    → IsOrderly (done m)
orderly_lem {m} r t b = (m, refl, Runs-is_sound r, Runs-IsTidy r, t, b)

and_lem : (a b : Bool) → (a && b) ≡ true → (a ≡ true) × (b ≡ true)
and_lem a b e = ground arith

run_lem :
    (xs : List (World × Event))
    → AreCalm xs
    → {m : Manager} → Runs m
    → IsStaffed (parts m)
    → lets_finish_all xs m ≡ true
    → runs_on m.current_request m.rest ≡ true
    → IsOrderly (run xs m)
unfolding run lets_finish_all
run_lem [] a {m} r t l b = orderly_lem r t b
run_lem (x ∷ xs) (c, a) {m} r t l b =
    let (l1, l2) = and_lem _ _ l in
    let (m', d, r', b') = step-Runs x.0 x.1 r (calm-is_safe x.0 c.0 x.1 m t c.1 l1) b in
    let t' =
      after_lem x.0 IsStaffed _ d (step_lem x.0 IsStaffed (IsStaffed-IsKept x.0 c.0) x.1 m t) in
    rw d (run_lem xs a r' t' (subst (λ r. goes_on (lets_finish_all xs) r ≡ true) d l2) b')

-- A session of any length from the constructor on, in surroundings that may differ at each event,
-- where no constructor of a handler throws, without messages of a WebSocket, choices of a gRPC
-- method and gRPC calls, and without a change to another protocol while a REST request is in flight;
-- patterns and roles that are chosen for ZeroMQ fit or are unknown words. Whatever else the user
-- does, and whatever the network, libzmq and std::async answer: every operation returns, with no
-- exception and no null or dangling pointer. At the end m_handler is null or owned, a request in
-- flight runs on the REST handler of the manager and is awaited while the manager is loading, a
-- handler of ZeroMQ, of REST or of WebSocket is there only under its protocol, and under REST there
-- is one, and a polling thread is that of the ZeroMQ handler in use.
pub run-IsOrderly :
    (w : World)
    → (xs : List (World × Event)) → IsCalm w
    → AreCalm xs
    → lets_finish_all xs (init w) ≡ true
    → IsOrderly (run xs (init w))
run-IsOrderly w xs c a l = run_lem xs a (starts w) (init-IsStaffed w c) l (init-IsBacked w)
