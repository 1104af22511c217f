-- ===== src/Manager/Orphans.antt =====
-- src/models/request_manager.cpp: what a switch of protocols leaves of a request in flight.
use flowdriver.Base.{
  ℕ, suc, Text, codes, Option, none, some, Bool, true, false, not, ◌||◌, ◌≡◌, ◌≢◌, ◌↔◌, refl, ap,
  sym, ◌∙◌, arith, inl, inr, Bool-cases, eq_iff, ◌==◌, if◌then◌else◌,
}
use flowdriver.Grpc.Defs.{init as grpc_init}
use flowdriver.Types.{RequestConfig}
use flowdriver.Manager.Defs.{
  World, Manager, Future, invalid, pending, ProtocolName, rest, web_socket, zeromq, grpc, other,
  protocol_name,
}
use flowdriver.Manager.Protocols.{
  release_handlers, construct, initialize, enter, switch_protocol, set_current_protocol,
}
use flowdriver.Manager.Steps.{is_pending}
use flowdriver.Manager.Parts.{parts, runs_on, is_there, reload_lem}
use flowdriver.Manager.Tidy.{IsTidy}
use flowdriver.Manager.Polling.{Runs, Runs-IsTidy}
use flowdriver.Manager.Serving.{chosen_lem, named_lem}

-- The protocols with neither a REST nor a gRPC handler.
unfoldable pub is_plain : ProtocolName → Bool
is_plain web_socket = true
is_plain zeromq = true
is_plain other = true
is_plain _ = false

-- The request is in flight, and no REST handler is there.
abbrev pub IsOrphan : Future → Manager → Type 0
IsOrphan f m = (m.current_request ≡ f) × (m.rest ≡ none)

release_lem : (w : World) → (m : Manager) → IsOrphan m.current_request (release_handlers w m)
unfolding release_handlers
release_lem w m = ground arith

construct_lem :
    (w : World)
    → (p : ProtocolName) → (m : Manager) → (f : Future) → is_plain p ≡ true
    → IsOrphan f m
    → IsOrphan f (construct w p m)
unfolding construct is_plain
construct_lem w rest m f e o = cc
construct_lem w web_socket m f e o = ground arith
construct_lem w zeromq m f e o = ground arith
construct_lem w grpc m f e o = cc
construct_lem w other m f e o = o

initialize_lem :
    (w : World)
    → (m : Manager) → is_plain (protocol_name m.current_protocol) ≡ true
    → IsOrphan m.current_request (initialize w m)
unfolding initialize
initialize_lem w m e = construct_lem w _ _ m.current_request e (release_lem w m)

enter_lem :
    (w : World)
    → (p : ProtocolName) → (m : Manager) → protocol_name m.current_protocol ≡ p
    → is_plain p ≡ true
    → IsOrphan m.current_request (enter w p m)
unfolding is_plain
enter_lem w rest m q e = cc
enter_lem w web_socket m q e = initialize_lem w m (ap is_plain q)
enter_lem w zeromq m q e = initialize_lem w m (ap is_plain q)
enter_lem w grpc m q e = cc
enter_lem w other m q e = initialize_lem w m (ap is_plain q)

switch_lem :
    (w : World)
    → (p : Text) → (m : Manager) → is_plain (protocol_name p) ≡ true
    → IsOrphan m.current_request (switch_protocol w p m)
unfolding switch_protocol
switch_lem w p m e =
    let o = enter_lem w (protocol_name p) _ refl e in (o.0 ∙ (release_lem w m).0, o.1)

lost_lem :
    (id : ℕ)
    → (c : RequestConfig) → (f : Future) → (o : Option ℕ) → f ≡ pending id c
    → o ≡ none
    → runs_on f o ≡ false
lost_lem id c f o e n = rw (e, n) refl

enter-lost :
    (w : World)
    → (k : ProtocolName) → (m : Manager) → (id : ℕ) → (c : RequestConfig)
    → protocol_name m.current_protocol ≡ k
    → k ≢ rest
    → IsOrphan (pending id c) m
    → runs_on (enter w k m).current_request (enter w k m).rest ≡ false
unfolding is_plain
enter-lost w rest m id c q r o = absurd (r refl)
enter-lost w web_socket m id c q r o =
    let x = enter_lem w web_socket m q refl in lost_lem id c _ _ (x.0 ∙ o.0) x.1
enter-lost w zeromq m id c q r o =
    let x = enter_lem w zeromq m q refl in lost_lem id c _ _ (x.0 ∙ o.0) x.1
enter-lost w grpc m id c q r o =
    let m' = record m {
      grpc = some (m.allocated, grpc_init);
      handler = some m.allocated;
      allocated = suc m.allocated;
    } in
    ap (λ p. p.is_backed) (reload_lem w m') ∙ lost_lem id c m.current_request m.rest o.0 o.1
enter-lost w other m id c q r o =
    let x = enter_lem w other m q refl in lost_lem id c _ _ (x.0 ∙ o.0) x.1

switch-lost :
    (w : World)
    → (p : Text) → (m : Manager) → (id : ℕ) → (c : RequestConfig) → m.current_request ≡ pending id c
    → protocol_name p ≢ rest
    → runs_on (switch_protocol w p m).current_request (switch_protocol w p m).rest ≡ false
unfolding switch_protocol
switch-lost w p m id c f r =
    let o = release_lem w m in
    enter-lost w (protocol_name p)
      (record (release_handlers w m) { grpc = none; current_protocol = p; is_connected = false }) id
      c refl r (o.0 ∙ f, o.1)

-- A request that runs is on the handler of REST, so that the protocol is REST.
running_lem :
    (m : Manager)
    → (f : Future) → (o : Option ℕ) → m.rest ≡ o
    → IsTidy (parts m)
    → is_pending f ≡ true
    → runs_on f o ≡ true
    → (m.current_protocol == codes "REST") ≡ true
unfolding is_pending
running_lem m invalid o q t e b = cc
running_lem m (pending id c) none q t e b = cc
running_lem m (pending id c) (some k) q t e b = elim t.is_rest [
  | inl n ↦ let x = ap is_there q in cc
  | inr n ↦ named_lem m.current_protocol n
]

not_rest_lem : (p q : Text) → (q == codes "REST") ≡ true → (q == p) ≡ false → protocol_name p ≢ rest
not_rest_lem p q e n r =
    let x = (eq_iff p (codes "REST")).0 (named_lem p r) in
    let y = (eq_iff q (codes "REST")).0 e in let z = (eq_iff q p).1 (y ∙ sym x) in cc

pending_lem :
    (f : Future) → is_pending f ≡ true → (id : ℕ) × (c : RequestConfig) × (f ≡ pending id c)
unfolding is_pending
pending_lem invalid e = cc
pending_lem (pending id c) e = (id, c, refl)

lost_switch_lem :
    (w : World)
    → (p : Text) → (m : Manager) → IsTidy (parts m)
    → runs_on m.current_request m.rest ≡ true
    → (m.current_protocol == p) ≡ false
    → is_pending m.current_request ≡ true
    → runs_on (switch_protocol w p m).current_request (switch_protocol w p m).rest ≡ false
lost_switch_lem w p m t b n e =
    let (id, c, f) = pending_lem m.current_request e in
    switch-lost w p m id c f
      (not_rest_lem p m.current_protocol (running_lem m m.current_request m.rest refl t e b) n)

kept_lem :
    (w : World)
    → (p : Text) → (m : Manager) → IsTidy (parts m)
    → runs_on m.current_request m.rest ≡ true
    → (let m' = set_current_protocol w p m in runs_on m'.current_request m'.rest ≡ true)
    → ((m.current_protocol == p) || not (is_pending m.current_request)) ≡ true
unfolding set_current_protocol
kept_lem w p m t b e = elim (Bool-cases (m.current_protocol == p)) [
  | inl q ↦ ground arith
  | inr q ↦ elim (Bool-cases (is_pending m.current_request)) [
    | inl x ↦ let l = lost_switch_lem w p m t b q x in let y = simp (q, if◌then◌else◌) at e in cc
    | inr x ↦ ground arith
  ]
]

-- A manager that events and rounds of the polling thread lead to from the constructor, and whose
-- request in flight, if there is one, runs on its REST handler. After setCurrentProtocol that is
-- still so exactly where the protocol is the one that was set or no request was in flight. Else the
-- REST handler is destroyed while the thread of the request may still use it, whatever the protocol
-- is changed to.
pub set_current_protocol-runs_on_iff :
    (w : World)
    → (p : Text) → {m : Manager} → Runs m
    → runs_on m.current_request m.rest ≡ true
    → (let m' = set_current_protocol w p m in runs_on m'.current_request m'.rest ≡ true)
      ↔ (((m.current_protocol == p) || not (is_pending m.current_request)) ≡ true)
set_current_protocol-runs_on_iff w p {m} r b =
    (kept_lem w p m (Runs-IsTidy r) b, λ l. chosen_lem w p m l b)
