-- ===== src/Manager/Serving.antt =====
-- src/models/request_manager.cpp: the request in flight and the REST handler that it runs on.
use flowdriver.Base.{
  ℕ, suc, Text, codes, List, Option, none, some, Bool, true, false, not, ◌==◌, ◌||◌, nat_eq,
  if◌then◌else◌, ◌≡◌, refl, ◌∙◌, ap, subst, sym, arith, inl, inr, Bool-cases,
}
use flowdriver.Types.{RequestConfig, Header}
use flowdriver.Grpc.Defs.{init as grpc_init}
use flowdriver.Manager.Defs.{
  World, Manager, Future, invalid, pending, ProtocolName, protocol_name, emit, loading_changed,
}
use flowdriver.Manager.Protocols.{
  init, initialize, release_handlers, enter, reload, switch_protocol, set_current_protocol,
}
use flowdriver.Manager.Requests.{
  check_request, Answer, launched, launch, validated, start_request, execute_request,
}
use flowdriver.Manager.Steps.{Event, step, is_due, is_pending, protocol_chosen, request, timer}
use flowdriver.Manager.Parts.{Parts, parts, runs_on, is_there, reload_lem}
use flowdriver.Manager.Leaving.{Leaves, IsHandled}
use flowdriver.Manager.Tidy.{IsTidy}
use flowdriver.Manager.Stepping.{choice_lem, other_lem, is_other}
use flowdriver.Manager.Starting.{release_lem, initialize_lem}

abbrev pub IsBacked : Parts → Type 0
IsBacked p = p.is_backed ≡ true

-- The event does not change the protocol while a request is in flight.
unfoldable pub lets_finish : Event → Manager → Bool
lets_finish (protocol_chosen p) m = (m.current_protocol == p) || not (is_pending m.current_request)
lets_finish e m = true

nothing-IsBacked : (m : Manager) → m.current_request ≡ invalid → IsBacked (parts m)
nothing-IsBacked m e = rw e refl

initialize-IsBacked :
    (w : World) → (m : Manager) → m.current_request ≡ invalid → IsBacked (parts (initialize w m))
initialize-IsBacked w m e =
    nothing-IsBacked (initialize w m) (ap (λ p. p.1) (initialize_lem w m).0 ∙ e)

reload-IsBacked :
    (w : World) → (m : Manager) → m.current_request ≡ invalid → IsBacked (parts (reload w m))
reload-IsBacked w m e = subst IsBacked (sym (reload_lem w m)) (nothing-IsBacked m e)

enter-IsBacked :
    (w : World)
    → (p : ProtocolName) → (m : Manager) → m.current_request ≡ invalid
    → IsBacked (parts (enter w p m))
enter-IsBacked w ProtocolName.rest m e = initialize-IsBacked w m e
enter-IsBacked w ProtocolName.web_socket m e = initialize-IsBacked w m e
enter-IsBacked w ProtocolName.zeromq m e = initialize-IsBacked w m e
enter-IsBacked w ProtocolName.grpc m e =
    reload-IsBacked w
      (record m {
        grpc = some (m.allocated, grpc_init);
        handler = some m.allocated;
        allocated = suc m.allocated;
      })
      e
enter-IsBacked w ProtocolName.other m e = initialize-IsBacked w m e

switch-IsBacked :
    (w : World)
    → (p : Text) → (m : Manager) → m.current_request ≡ invalid
    → IsBacked (parts (switch_protocol w p m))
unfolding switch_protocol
switch-IsBacked w p m e =
    enter-IsBacked w (protocol_name p)
      (record (release_handlers w m) { grpc = none; current_protocol = p; is_connected = false })
      (ap (λ p. p.1) (release_lem w m).0 ∙ e)

invalid_lem : (f : Future) → is_pending f ≡ false → f ≡ invalid
unfolding is_pending
invalid_lem invalid e = refl
invalid_lem (pending id c) e = cc

pub chosen_lem :
    (w : World)
    → (p : Text) → (m : Manager)
    → ((m.current_protocol == p) || not (is_pending m.current_request)) ≡ true
    → IsBacked (parts m)
    → IsBacked (parts (set_current_protocol w p m))
unfolding set_current_protocol
chosen_lem w p m l b = elim (Bool-cases (m.current_protocol == p)) [
  | inl q ↦ rw (q, if◌then◌else◌) b
  | inr q ↦ rw (q, if◌then◌else◌) (switch-IsBacked w p m (invalid_lem _ (ground arith)))
]

unbacked_lem : (f : Future) → (o : Option ℕ) → is_there o ≡ false → runs_on f o ≡ true → f ≡ invalid
unbacked_lem invalid o n b = refl
unbacked_lem (pending id c) none n b = cc
unbacked_lem (pending id c) (some k) n b = cc

pub named_lem : (p : Text) → protocol_name p ≡ ProtocolName.rest → (p == codes "REST") ≡ true
unfolding protocol_name
named_lem p e = ground arith

to_rest_lem :
    (w : World)
    → (m : Manager) → IsTidy (parts m)
    → IsBacked (parts m)
    → IsBacked (parts (set_current_protocol w (codes "REST") m))
unfolding set_current_protocol
to_rest_lem w m t b = elim (Bool-cases (m.current_protocol == codes "REST")) [
  | inl q ↦ rw (q, if◌then◌else◌) b
  | inr q ↦ elim t.is_rest [
    | inl n ↦
        rw (q, if◌then◌else◌)
          (switch-IsBacked w (codes "REST") m (unbacked_lem m.current_request m.rest n b))
    | inr n ↦ let x = named_lem m.current_protocol n in cc
  ]
]

nat_eq_refl : (n : ℕ) → nat_eq n n ≡ true
nat_eq_refl n = ground arith

launched_lem :
    (id : ℕ)
    → (c : RequestConfig) → (o : Option Text) → (m : Manager) → m.rest ≡ some id
    → IsBacked (parts m)
    → IsBacked (parts (launched id c o m))
launched_lem id c none m q b = rw q (nat_eq_refl id)
launched_lem id c (some x) m q b = b

launch_lem :
    (w : World)
    → (o : Option ℕ) → (c : RequestConfig) → (m : Manager) → m.rest ≡ o
    → IsBacked (parts m)
    → Leaves IsBacked (launch w o c m)
unfolding Leaves
launch_lem w none c m q b = tt
launch_lem w (some id) c m q b = launched_lem id c (w.launches c) m q b

validated_lem :
    (w : World)
    → (c : RequestConfig) → (o : Option Text) → (m : Manager) → IsTidy (parts m)
    → IsBacked (parts m)
    → Leaves IsBacked (validated w c o m)
unfolding start_request Leaves
validated_lem w c none m t b =
    launch_lem w _ _ _ refl
      (to_rest_lem w (emit loading_changed (record m { is_loading = true })) t b)
validated_lem w c (some x) m t b = b

request_lem :
    (w : World)
    → (method url : Text) → (headers : List Header) → (body : Text) → (m : Manager)
    → IsTidy (parts m)
    → IsBacked (parts m)
    → Leaves IsBacked (execute_request w method url headers body m)
unfolding execute_request Leaves
request_lem w method url headers body m t b =
    choice_lem w IsBacked m.is_loading _ _ b (validated_lem w _ _ m t b)

check_lem : (a : Answer) → (m : Manager) → IsBacked (parts m) → IsBacked (parts (check_request a m))
unfolding check_request
check_lem a m b = ground arith

IsBacked-IsHandled : (w : World) → IsHandled w IsBacked
IsBacked-IsHandled w = record {
  closes = λ id h p q b. b;
  executes = λ c id h p q b. b;
  configures = λ a r e id h p q n b. b;
}

-- Every event that does not change the protocol under a request in flight leaves the request on the
-- REST handler of the manager.
pub step-IsBacked :
    (w : World)
    → (e : Event) → (m : Manager) → IsTidy (parts m)
    → lets_finish e m ≡ true
    → IsBacked (parts m)
    → Leaves IsBacked (step w e m)
unfolding step Leaves lets_finish is_other
step-IsBacked w (protocol_chosen p) m t l b = chosen_lem w p m l b
step-IsBacked w (request a u hs body) m t l b = request_lem w a u hs body m t b
step-IsBacked w (timer a) m t l b = choice_lem w IsBacked (is_due m.timers) _ _ (check_lem a m b) b
step-IsBacked w e m t l b = other_lem w IsBacked (IsBacked-IsHandled w) e m refl b

pub init-IsBacked : (w : World) → IsBacked (parts (init w))
unfolding init
init-IsBacked w = initialize-IsBacked w _ refl
