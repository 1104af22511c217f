-- ===== src/Manager/Starting.antt =====
-- src/models/request_manager.cpp: how executeRequest starts a request.
use flowdriver.Base.{
  ℕ, Text, codes, List, [], ◌∷◌, ◌++◌, Option, Bool, true, false, none, some, ◌≡◌, refl, sym, subst,
  ap, ◌∙◌, arith, if◌then◌else◌, Bool-cases, inl, inr, ◌==◌, ◌⊎◌, Option-cases, eq_iff,
}
use flowdriver.Auth.Model.{AuthModel, get_auth_headers}
use flowdriver.Types.{Header, RequestConfig, default_config}
use flowdriver.Manager.Defs.{
  World, Manager, Run, done, escapes, crashes, emit, Future, pending, loading_changed, ProtocolName,
  Signal, error_occurred, rest, web_socket, zeromq, grpc, other, protocol_name,
}
use flowdriver.Manager.Protocols.{
  set_current_protocol, switch_protocol, construct, initialize, release_handlers,
}
use flowdriver.Manager.Requests.{
  launch, start_request, execute_request, validate_rest_request, prepare_config, with_auth,
  auth_headers,
}

abbrev pub RunsOn : RequestConfig → Option ℕ → Future → Type 0
RunsOn config none f = ⊥
RunsOn config (some id) f = f ≡ pending id config

-- A request runs on the live REST handler of the manager, with this configuration.
abbrev pub IsStarted : RequestConfig → Manager → Type 0
IsStarted config m =
    (m.current_protocol ≡ codes "REST")
    × (m.is_loading ≡ true)
    × RunsOn config m.rest m.current_request

-- std::async failed: no request was started, and the failure is told after the end of the loading.
abbrev pub IsIdle : RequestConfig → World → Manager → Manager → Type 0
IsIdle config w m m' =
    (what : Text) × (w.launches config ≡ some what)
    × (m'.is_loading ≡ false)
    × (m'.current_request ≡ m.current_request)
    × (before : List Signal) × (m'.signals
        ≡ error_occurred (codes "Error: " ++ what) ∷ loading_changed ∷ before)

-- What of the manager stays.
abbrev pub rest_of : Manager → Option AuthModel × Future × Bool
rest_of m = (m.auth_model, m.current_request, m.is_loading)

pub release_lem :
    (w : World)
    → (m : Manager)
    → (rest_of (release_handlers w m) ≡ rest_of m)
      × ((release_handlers w m).current_protocol ≡ m.current_protocol)
unfolding release_handlers
release_lem w m = ground arith

construct_lem :
    (w : World)
    → (p : ProtocolName) → (m : Manager)
    → (rest_of (construct w p m) ≡ rest_of m)
      × ((construct w p m).current_protocol ≡ m.current_protocol)
unfolding construct
construct_lem w rest m = ground arith
construct_lem w web_socket m = ground arith
construct_lem w zeromq m = ground arith
construct_lem w grpc m = (refl, refl)
construct_lem w other m = (refl, refl)

pub initialize_lem :
    (w : World)
    → (m : Manager)
    → (rest_of (initialize w m) ≡ rest_of m)
      × ((initialize w m).current_protocol ≡ m.current_protocol)
unfolding initialize
initialize_lem w m =
    let c = construct_lem w _ _ in let r = release_lem w m in (c.0 ∙ r.0, c.1 ∙ r.1)

switch_lem :
    (w : World)
    → (m : Manager)
    → (rest_of (switch_protocol w (codes "REST") m) ≡ rest_of m)
      × ((switch_protocol w (codes "REST") m).current_protocol ≡ codes "REST")
unfolding switch_protocol protocol_name ◌==◌
switch_lem w m = let c = initialize_lem w _ in (c.0 ∙ (release_lem w m).0, c.1)

to_rest_lem :
    (w : World)
    → (m : Manager)
    → (rest_of (set_current_protocol w (codes "REST") m) ≡ rest_of m)
      × ((set_current_protocol w (codes "REST") m).current_protocol ≡ codes "REST")
unfolding set_current_protocol
to_rest_lem w m = elim (Bool-cases (m.current_protocol == codes "REST")) [
  | inl q ↦ simp (q, if◌then◌else◌) (refl, (eq_iff _ _).0 q)
  | inr q ↦ rw (q, if◌then◌else◌) (switch_lem w m)
]

-- What becomes of a valid request: it runs, or std::async failed; or there is no REST handler to
-- use.
unfoldable pub RequestEnds : RequestConfig → World → Manager → Run → Type 0
RequestEnds config w m (done m') =
    ((w.launches config ≡ none) × IsStarted config m') ⊎ IsIdle config w m m'
RequestEnds config w m (escapes e) = ⊥
RequestEnds config w m crashes =
    (set_current_protocol w (codes "REST")
      (emit loading_changed (record m { is_loading = true }))).rest
    ≡ none

launch_lem :
    (w : World)
    → (c : RequestConfig) → (n m : Manager) → (o : Option ℕ) → m.rest ≡ o
    → m.is_loading ≡ true
    → m.current_protocol ≡ codes "REST"
    → m.current_request ≡ n.current_request
    → m
      ≡ set_current_protocol w
          (codes "REST")
          (emit loading_changed (record n { is_loading = true }))
    → RequestEnds c w n (launch w o c m)
unfolding RequestEnds
launch_lem w c n m none q l p f e = ap (λ m. m.rest) (sym e) ∙ q
launch_lem w c n m (some id) q l p f e = elim (Option-cases (w.launches c)) [
  | inl x ↦ rw (x) (inl (refl, (p, l, subst (λ o. RunsOn c o (pending id c)) (sym q) refl)))
  | inr (t, x) ↦ rw (x) (inr (t, refl, refl, f, _, refl))
]

loading : Manager → Manager
loading m = emit loading_changed (record m { is_loading = true })

start_lem :
    (w : World)
    → (c : RequestConfig) → (m : Manager)
    → RequestEnds (with_auth w m.auth_model c) w m (start_request w c m)
unfolding start_request loading
start_lem w c m =
    let q = to_rest_lem w (loading m) in
    let a = ap (λ p. p.0) q.0 in
    subst (λ x. RequestEnds (with_auth w x c) w m (start_request w c m)) a
      (launch_lem w _ m _ _ refl (ap (λ p. p.2) q.0) q.1 (ap (λ p. p.1) q.0) refl)

-- The headers that the authentication model, if there is one, answers.
abbrev pub answered : (Text → Text) → Option AuthModel → List Header
answered base64 none = []
answered base64 (some a) = get_auth_headers base64 a

pub answered_lem : (w : World) → (o : Option AuthModel) → auth_headers w o ≡ answered w.base64 o
unfolding auth_headers
answered_lem w none = refl
answered_lem w (some a) = refl

-- The configuration of a request: what was given, and the headers of the authentication after the
-- given ones.
abbrev pub asked : Text → Text → List Header → Text → World → Manager → RequestConfig
asked method url headers body w m = record default_config {
  method = method;
  url = url;
  body = body;
  headers = headers ++ answered w.base64 m.auth_model;
}

asked_lem :
    (method url : Text)
    → (headers : List Header) → (body : Text) → (w : World) → (m : Manager)
    → with_auth w m.auth_model (prepare_config method url headers body)
      ≡ asked method url headers body w m
unfolding prepare_config
asked_lem method url headers body w m = rw (answered_lem w m.auth_model) refl

-- When the manager is not loading and the method and the URL are valid, executeRequest lets no
-- exception out. Where it returns, std::async started the request, with the given method, URL and
-- body and with the given headers and those of the authentication after them: it runs on the REST
-- handler of the manager, whose protocol is then REST and which is loading; or std::async failed
-- with such a request, and the manager is not loading, has the future it had, and tells the end of
-- the loading and then the failure. Where it uses a null pointer, the switch to REST has left no
-- REST handler.
pub execute_request-RequestEnds :
    (w : World)
    → (method url : Text) → (headers : List Header) → (body : Text) → (m : Manager)
    → m.is_loading ≡ false
    → validate_rest_request method url ≡ none
    → RequestEnds
        (asked method url headers body w m)
        w
        m
        (execute_request w method url headers body m)
unfolding execute_request
execute_request-RequestEnds w method url headers body m l v =
    subst (λ c. RequestEnds c w m (execute_request w method url headers body m))
      (asked_lem method url headers body w m) (simp (l, v, if◌then◌else◌) (start_lem w _ m))
