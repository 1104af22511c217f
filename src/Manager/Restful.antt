-- ===== src/Manager/Restful.antt =====
-- src/models/request_manager.cpp: when executeRequest returns.
use flowdriver.Base.{
  ℕ, Text, codes, List, Option, none, some, Bool, true, false, not, ◌==◌, ◌||◌, ◌&&◌, if◌then◌else◌,
  ◌≡◌, refl, ◌∙◌, ap, arith, inl, inr, Bool-cases,
}
use flowdriver.Types.{RequestConfig, Header}
use flowdriver.Manager.Defs.{
  World, Manager, Run, done, emit, loading_changed, ProtocolName, protocol_name,
}
use flowdriver.Manager.Protocols.{
  set_current_protocol, switch_protocol, initialize, construct, release_handlers,
}
use flowdriver.Manager.Requests.{launch, validated, start_request, execute_request}
use flowdriver.Manager.Parts.{is_there, parts}
use flowdriver.Manager.Tidy.{IsTidy}

-- The call returns.
abbrev pub IsDone : Run → Type 0
IsDone r = (m : Manager) × (r ≡ done m)

-- A REST handler is there, or it can be made.
unfoldable pub has_rest : World → Manager → Bool
has_rest w m =
    is_there m.rest
    || not (m.current_protocol == codes "REST") && not (is_there (w.constructs m.allocated))

allocated_lem : (w : World) → (m : Manager) → (release_handlers w m).allocated ≡ m.allocated
unfolding release_handlers
allocated_lem w m = ground arith

construct_lem :
    (w : World)
    → (m : Manager) → w.constructs m.allocated ≡ none
    → is_there (construct w ProtocolName.rest m).rest ≡ true
unfolding construct
construct_lem w m e = rw e refl

pub initialize_lem :
    (w : World)
    → (m : Manager) → protocol_name m.current_protocol ≡ ProtocolName.rest
    → w.constructs m.allocated ≡ none
    → is_there (initialize w m).rest ≡ true
unfolding initialize
initialize_lem w m p e = simp p (
    construct_lem w (record (release_handlers w m) { handler = none; is_connected = false })
      (ap w.constructs (allocated_lem w m) ∙ e))

switch_lem :
    (w : World)
    → (m : Manager) → w.constructs m.allocated ≡ none
    → is_there (switch_protocol w (codes "REST") m).rest ≡ true
unfolding switch_protocol protocol_name ◌==◌
switch_lem w m e =
    initialize_lem w
      (record (release_handlers w m) {
        grpc = none;
        current_protocol = codes "REST";
        is_connected = false;
      })
      refl (ap w.constructs (allocated_lem w m) ∙ e)

named_lem : (p : Text) → protocol_name p ≡ ProtocolName.rest → (p == codes "REST") ≡ true
unfolding protocol_name
named_lem p e = ground arith

to_rest_lem :
    (w : World)
    → (m : Manager) → IsTidy (parts m)
    → has_rest w m ≡ true
    → is_there (set_current_protocol w (codes "REST") m).rest ≡ true
unfolding has_rest set_current_protocol
to_rest_lem w m t e = elim (Bool-cases (m.current_protocol == codes "REST")) [
  | inl q ↦ simp (q, if◌then◌else◌) (ground arith)
  | inr q ↦ elim t.is_rest [
    | inl n ↦ rw (q, if◌then◌else◌) (switch_lem w m (ground arith))
    | inr n ↦ let x = named_lem m.current_protocol n in cc
  ]
]

launch_lem :
    (w : World)
    → (o : Option ℕ) → (c : RequestConfig) → (m : Manager) → is_there o ≡ true
    → IsDone (launch w o c m)
launch_lem w none c m e = cc
launch_lem w (some id) c m e = (_, refl)

validated_lem :
    (w : World)
    → (c : RequestConfig) → (o : Option Text) → (m : Manager) → IsTidy (parts m)
    → has_rest w m ≡ true
    → IsDone (validated w c o m)
unfolding start_request has_rest
validated_lem w c none m t e =
    launch_lem w _ _ _ (to_rest_lem w (emit loading_changed (record m { is_loading = true })) t e)
validated_lem w c (some x) m t e = (_, refl)

pub request_lem :
    (w : World)
    → (method url : Text) → (headers : List Header) → (body : Text) → (m : Manager)
    → IsTidy (parts m)
    → has_rest w m ≡ true
    → IsDone (execute_request w method url headers body m)
unfolding execute_request
request_lem w method url headers body m t e = elim (Bool-cases m.is_loading) [
  | inl q ↦ simp (q, if◌then◌else◌) (_, refl)
  | inr q ↦ simp (q, if◌then◌else◌) (validated_lem w _ _ m t e)
]
