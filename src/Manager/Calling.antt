-- ===== src/Manager/Calling.antt =====
-- src/models/request_manager.cpp: how executeGrpcRequest ends.
use flowdriver.Base.{
  ℕ, Text, codes, List, [], ◌∷◌, ◌++◌, Option, none, some, Bool, true, false, not, ◌&&◌, ◌≡◌, ◌≢◌,
  refl, arith, is_empty, nat_eq, if◌then◌else◌, inl, inr, ◌⊎◌, ◌==◌, Bool-cases, subst, sym,
}
use flowdriver.Types.{RequestConfig, RequestResult, default_config}
use flowdriver.Grpc.Defs.{Handler, Method, Service, Grpc, Outcome, ok, throws, crash}
use flowdriver.Grpc.Services.{set_method}
use flowdriver.Grpc.Execute
use flowdriver.Manager.Defs.{
  World, Manager, Signal, Run, done, escapes, crashes, emit, complain, convert_result,
  loading_changed, response_received, error_occurred,
}
use flowdriver.Manager.GrpcCalls.{
  run_grpc, execute_grpc_request, grpc_answered, set_grpc_method, choose_method, with_grpc,
}

-- Nothing keeps the manager from a call.
unfoldable pub can_call : Manager → Bool
can_call m = elim m.grpc [
  | none ↦ false
  | some p ↦ not (is_empty m.grpc_endpoint) && not m.is_loading
]

abbrev pub is_live_service : ℕ → Option (ℕ × Service) → Bool
is_live_service pool none = false
is_live_service pool (some (k, s)) = nat_eq k pool

-- A selected method and the selected service have descriptors of the present importer.
abbrev pub is_live_selection : ℕ → Option (ℕ × Method) → Option (ℕ × Service) → Bool
is_live_selection pool none s = true
is_live_selection pool (some (k, m)) s = nat_eq k pool && is_live_service pool s

unfoldable pub is_live : Option (ℕ × Handler) → Bool
is_live none = true
is_live (some (id, h)) = is_live_selection h.pool h.current_method h.current_service

-- The error that goes with a result: none for the status 200.
abbrev pub complaint : (ℕ → Text) → RequestResult → List Signal
complaint decimal r =
    if nat_eq r.status_code 200
    then []
    else if is_empty r.error
    then error_occurred (codes "gRPC request failed with status code: " ++ decimal r.status_code)
      ∷ []
    else error_occurred r.error ∷ []

-- The end of a call of the handler, by its outcome. A result is kept and shown, after its error; an
-- Error is told, and the last response stays.
unfoldable pub Concludes : (ℕ → Text) → Manager → Manager → Outcome RequestResult → Type 0
Concludes decimal m m' (ok r) =
    (m'.last_response ≡ some (convert_result r))
    × (m'.signals
        ≡ loading_changed
          ∷ response_received (convert_result r)
          ∷ (complaint decimal r ++ loading_changed ∷ m.signals))
Concludes decimal m m' (throws e) =
    (m'.last_response ≡ m.last_response)
    × (m'.signals ≡ loading_changed ∷ error_occurred e.what ∷ loading_changed ∷ m.signals)
Concludes decimal m m' crash = ⊥

-- Why a call is refused: there is no handler, no endpoint, or a request is in progress.
abbrev pub refused : Option (ℕ × Handler) → Bool → Text
refused none b = codes "gRPC handler not initialized"
refused (some p) true = codes "gRPC endpoint not set"
refused (some p) false = codes "Request already in progress"

abbrev pub refusal : Manager → Text
refusal m = refused m.grpc (is_empty m.grpc_endpoint)

-- The configuration of a call: the body, {} for an empty one, and the endpoint.
abbrev pub asked : Text → Manager → RequestConfig
asked body m = record default_config {
  body = if is_empty body then codes "{}" else body;
  url = m.grpc_endpoint;
}

-- The outcome and the handler that the call of the manager's handler leads to.
abbrev pub IsCalled : World → (ℕ → Text) → Text → Manager → Manager → Type 0
IsCalled w decimal body m m' =
    (id : ℕ) × (h : Handler) × (m.grpc ≡ some (id, h))
    × (let r = Execute.execute w.grpc (asked body m) h in
        Concludes decimal m m' r.0 × (m'.grpc ≡ some (id, r.1)))

unfoldable pub CallEnds : World → (ℕ → Text) → Text → Manager → Run → Type 0
CallEnds w decimal body m (done m') =
    ((can_call m ≡ false) × (m' ≡ complain (refusal m) m))
    ⊎ ((can_call m ≡ true)
        × (is_live m.grpc ≡ true)
        × (m'.is_loading ≡ false)
        × IsCalled w decimal body m m')
CallEnds w decimal body m (escapes e) = ⊥
CallEnds w decimal body m crashes = (can_call m ≡ true) × (is_live m.grpc ≡ false)

-- A call of the handler crashes exactly where its selection is not live.
unfoldable pub Lives : Bool → Outcome RequestResult → Type 0
Lives live (ok r) = live ≡ true
Lives live (throws e) = live ≡ true
Lives live crash = live ≡ false

execute-Lives :
    (g : Grpc)
    → (config : RequestConfig) → (h : Handler)
    → Lives
        (is_live_selection h.pool h.current_method h.current_service)
        (Execute.execute g config h).0
unfolding Lives Execute.execute Execute.execute_method
execute-Lives g config h = ground arith

module _ (w : World) (decimal : ℕ → Text) (body : Text) where
  -- What follows the call of the handler.
  answered_lem :
      (m s : Manager)
      → (id : ℕ) → (h : Handler) → (o : Outcome RequestResult) → (k : Handler)
      → Execute.execute w.grpc (asked body m) h ≡ (o, k)
      → m.grpc ≡ some (id, h)
      → can_call m ≡ true
      → s.signals ≡ loading_changed ∷ m.signals
      → s.last_response ≡ m.last_response
      → s.grpc ≡ some (id, k)
      → Lives (is_live m.grpc) o
      → CallEnds w decimal body m (grpc_answered decimal o s)
  unfolding CallEnds Lives Concludes
  answered_lem m s id h (ok r) k x q c e f g l =
      inr (c, l, refl, (id, h, q, rw x ((refl, ground arith), ground arith)))
  answered_lem m s id h (throws t) k x q c e f g l =
      inr (c, l, refl, (id, h, q, rw x ((f, ground arith), g)))
  answered_lem m s id h crash k x q c e f g l = (c, l)

  called_lem :
      (id : ℕ)
      → (h : Handler) → (m : Manager) → m.grpc ≡ some (id, h)
      → can_call m ≡ true
      → let r = Execute.execute w.grpc (asked body m) h in
        CallEnds w decimal body m (
          grpc_answered decimal r.0
            (with_grpc r.1 id (emit loading_changed (record m { is_loading = true }))))
  unfolding is_live
  called_lem id h m q c =
      let r = Execute.execute w.grpc (asked body m) h in
      answered_lem m (with_grpc r.1 id (emit loading_changed (record m { is_loading = true }))) id h
        r.0 r.1 refl q c refl refl refl
        (subst (λ o. Lives (is_live o) r.0) (sym q) (execute-Lives w.grpc (asked body m) h))

  run_lem :
      (o : Option (ℕ × Handler))
      → (m : Manager) → m.grpc ≡ o
      → CallEnds w decimal body m (run_grpc w decimal body o m)
  unfolding run_grpc CallEnds can_call is_live
  run_lem none m q = inl (ground arith, rw q refl)
  run_lem (some (id, h)) m q = elim (Bool-cases (is_empty m.grpc_endpoint)) [
    | inl e ↦ simp (e, if◌then◌else◌) (inl (ground arith, rw q refl))
    | inr e ↦ elim (Bool-cases m.is_loading) [
      | inl l ↦ simp (e, l, if◌then◌else◌) (inl (ground arith, rw q refl))
      | inr l ↦ simp (e, l, if◌then◌else◌) (called_lem id h m q (ground arith))
    ]
  ]

  -- executeGrpcRequest lets no exception out. Without a handler or an endpoint, or while a request
  -- is in progress, it signals the one error that says so and changes nothing else. Else it calls
  -- the handler with the body, {} for an empty one, and the endpoint, and keeps the handler as the
  -- call left it; it ends not loading, and between the two changes of the loading state either the
  -- result of the call is kept and shown, after its error if its status is not 200, or the Error
  -- that the call threw is told and the last response stays. It uses a dead descriptor exactly where
  -- a method is selected and it or the service is not one of the file that was loaded last.
  pub execute_grpc_request-CallEnds :
      (m : Manager) → CallEnds w decimal body m (execute_grpc_request w decimal body m)
  unfolding execute_grpc_request
  execute_grpc_request-CallEnds m = run_lem m.grpc m refl

not-crashes :
    (w : World)
    → (decimal : ℕ → Text) → (body : Text) → (m : Manager) → (r : Run) → CallEnds w decimal body m r
    → is_live m.grpc ≡ true
    → r ≢ crashes
unfolding CallEnds
not-crashes w decimal body m (done m') c l = λ e. cc
not-crashes w decimal body m (escapes x) c l = absurd c
not-crashes w decimal body m crashes c l = cc

dead_lem :
    (w : World)
    → (decimal : ℕ → Text) → (body : Text) → (m : Manager) → (r : Run) → CallEnds w decimal body m r
    → can_call m ≡ true
    → is_live m.grpc ≡ false
    → r ≡ crashes
unfolding CallEnds
dead_lem w decimal body m (done m') (inl (c, _)) t l = cc
dead_lem w decimal body m (done m') (inr (_, c, _, _)) t l = cc
dead_lem w decimal body m (escapes x) c t l = absurd c
dead_lem w decimal body m crashes c t l = refl

-- Where the selection is not live, a call that is made crashes.
pub dead-crashes :
    (w : World)
    → (decimal : ℕ → Text) → (body : Text) → (m : Manager) → can_call m ≡ true
    → is_live m.grpc ≡ false
    → execute_grpc_request w decimal body m ≡ crashes
dead-crashes w decimal body m c l =
    dead_lem w decimal body m _ (execute_grpc_request-CallEnds w decimal body m) c l

method_set-is_live :
    (method : Text)
    → (id : ℕ) → (h : Handler) → (m m' : Manager) → choose_method method (some (id, h)) m ≡ done m'
    → is_live m'.grpc ≡ true
unfolding is_live set_method
method_set-is_live method id h m m' e = ground arith

choose_method-is_live :
    (method : Text)
    → (o : Option (ℕ × Handler)) → (m m' : Manager) → m.grpc ≡ o
    → choose_method method o m ≡ done m'
    → is_live m'.grpc ≡ true
unfolding is_live
choose_method-is_live method none m m' q e = ground arith
choose_method-is_live method (some (id, h)) m m' q e = method_set-is_live method id h m m' e

-- After a setGrpcMethod that chose another method and returned, executeGrpcRequest uses no dead
-- descriptor, whatever was loaded and chosen before.
pub set_grpc_method-executes :
    (w : World)
    → (decimal : ℕ → Text) → (method body : Text) → (m m' : Manager)
    → (m.current_grpc_method == method) ≡ false
    → set_grpc_method method m ≡ done m'
    → execute_grpc_request w decimal body m' ≢ crashes
unfolding set_grpc_method
set_grpc_method-executes w decimal method body m m' n e =
    not-crashes w decimal body m' _ (execute_grpc_request-CallEnds w decimal body m')
      (choose_method-is_live method m.grpc _ m' refl (simp (n, if◌then◌else◌) at e))
