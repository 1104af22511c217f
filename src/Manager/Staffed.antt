-- ===== src/Manager/Staffed.antt =====
-- src/models/request_manager.cpp: under REST there is a REST handler, where constructors do not
-- throw.
use flowdriver.Base.{
  ℕ, Text, codes, none, true, false, ◌==◌, if◌then◌else◌, ◌≡◌, refl, ◌∙◌, sym, ap, subst, Bool,
  arith, inl, inr, Bool-cases,
}
use flowdriver.Manager.Defs.{World, Manager, ProtocolName, protocol_name}
use flowdriver.Manager.Protocols.{
  init, initialize, construct, release_handlers, set_current_protocol, switch_protocol, enter,
}
use flowdriver.Manager.Parts.{Parts, parts, reload_lem}
use flowdriver.Manager.Leaving.{IsKept}
use flowdriver.Manager.Restful.{has_rest, initialize_lem}

-- No constructor of a handler throws.
abbrev pub IsCalm : World → Type 0
IsCalm w = (n : ℕ) → w.constructs n ≡ none

abbrev pub IsStaffed : Parts → Type 0
IsStaffed p = protocol_name p.current_protocol ≡ ProtocolName.rest → p.has_rest ≡ true

construct_lem :
    (w : World)
    → (p : ProtocolName) → (m : Manager) → (construct w p m).current_protocol ≡ m.current_protocol
unfolding construct
construct_lem w ProtocolName.rest m = ground arith
construct_lem w ProtocolName.web_socket m = ground arith
construct_lem w ProtocolName.zeromq m = ground arith
construct_lem w ProtocolName.grpc m = refl
construct_lem w ProtocolName.other m = refl

release_lem :
    (w : World) → (m : Manager) → (release_handlers w m).current_protocol ≡ m.current_protocol
unfolding release_handlers
release_lem w m = ground arith

kept_lem : (w : World) → (m : Manager) → (initialize w m).current_protocol ≡ m.current_protocol
unfolding initialize
kept_lem w m = construct_lem w _ _ ∙ release_lem w m

initialize-IsStaffed : (w : World) → IsCalm w → (m : Manager) → IsStaffed (parts (initialize w m))
initialize-IsStaffed w c m n =
    initialize_lem w m (sym (ap protocol_name (kept_lem w m)) ∙ n) (c m.allocated)

same-IsStaffed : (p q : Parts) → q ≡ p → IsStaffed p → IsStaffed q
same-IsStaffed p q e t = subst IsStaffed (sym e) t

grpc_lem :
    (p : Text)
    → (b : Bool) → protocol_name p ≡ ProtocolName.grpc
    → protocol_name p ≡ ProtocolName.rest
    → b ≡ true
grpc_lem p b q n = cc

enter-IsStaffed :
    (w : World)
    → IsCalm w
    → (p : ProtocolName) → (m : Manager) → protocol_name m.current_protocol ≡ p
    → IsStaffed (parts (enter w p m))
enter-IsStaffed w c ProtocolName.rest m q = initialize-IsStaffed w c m
enter-IsStaffed w c ProtocolName.web_socket m q = initialize-IsStaffed w c m
enter-IsStaffed w c ProtocolName.zeromq m q = initialize-IsStaffed w c m
enter-IsStaffed w c ProtocolName.grpc m q =
    same-IsStaffed _ _ (reload_lem w _) (grpc_lem m.current_protocol _ q)
enter-IsStaffed w c ProtocolName.other m q = initialize-IsStaffed w c m

switch-IsStaffed :
    (w : World) → IsCalm w → (p : Text) → (m : Manager) → IsStaffed (parts (switch_protocol w p m))
unfolding switch_protocol
switch-IsStaffed w c p m =
    enter-IsStaffed w c (protocol_name p)
      (record (release_handlers w m) { grpc = none; current_protocol = p; is_connected = false })
      refl

set_current_protocol-IsStaffed :
    (w : World)
    → IsCalm w
    → (p : Text) → (m : Manager) → IsStaffed (parts m)
    → IsStaffed (parts (set_current_protocol w p m))
unfolding set_current_protocol
set_current_protocol-IsStaffed w c p m t = elim (Bool-cases (m.current_protocol == p)) [
  | inl q ↦ rw (q, if◌then◌else◌) t
  | inr q ↦ rw (q, if◌then◌else◌) (switch-IsStaffed w c p m)
]

pub IsStaffed-IsKept : (w : World) → IsCalm w → IsKept w IsStaffed
IsStaffed-IsKept w c = record {
  switches = set_current_protocol-IsStaffed w c;
  starts = λ b p t. t;
  handled = record {
    closes = λ id h p q t. t;
    executes = λ d id h p q t. t;
    configures = λ a r e id h p q n t. t;
  };
}

pub init-IsStaffed : (w : World) → IsCalm w → IsStaffed (parts (init w))
unfolding init
init-IsStaffed w c = initialize-IsStaffed w c _

named_lem : (p : Text) → (p == codes "REST") ≡ true → protocol_name p ≡ ProtocolName.rest
unfolding protocol_name
named_lem p e = ground arith

-- Then a request finds a REST handler, or one can be made.
pub IsStaffed-has_rest :
    (w : World) → IsCalm w → (m : Manager) → IsStaffed (parts m) → has_rest w m ≡ true
unfolding has_rest
IsStaffed-has_rest w c m t = elim (Bool-cases (m.current_protocol == codes "REST")) [
  | inl q ↦ let x = t (named_lem m.current_protocol q) in ground arith
  | inr q ↦ let x = c m.allocated in ground arith
]
