-- ===== src/Manager/Forgotten.antt =====
-- src/models/request_manager.cpp: what the manager shows of gRPC and its handler no longer has.
use flowdriver.Base.{
  ℕ, suc, Text, codes, List, [], ◌∷◌, Option, none, some, Bool, false, ◌≡◌, refl, arith, is_empty,
  if◌then◌else◌, inl, inr, ◌==◌, eq_refl, Bool-cases, ap, ◌∙◌,
}
use flowdriver.Manager.Stale.{set_grpc_method_same}
use flowdriver.Types.{Error}
use flowdriver.Grpc.Execute
use flowdriver.Grpc.Defs.{Handler, init}
use flowdriver.Grpc.Services.{set_service, load_proto_file, get_available_services}
use flowdriver.Manager.Defs.{
  World, loading_changed, error_occurred, complain, protocol_name, Manager, Run, done,
}
use flowdriver.Manager.Protocols.{release_handlers, reload, switch_protocol, set_current_protocol}
use flowdriver.Manager.GrpcCalls.{
  set_grpc_endpoint, set_grpc_use_ssl, ensured, execute_grpc_request, run_grpc, set_grpc_method,
  set_grpc_service, load_grpc_proto_file, load_into, services_loaded, choose_first, with_grpc,
  caught,
}

-- A handler as the constructor makes it, but for the file and the service.
unfoldable pub IsFresh : Option (ℕ × Handler) → Type 0
IsFresh none = ⊥
IsFresh (some (id, h)) =
    (h.endpoint ≡ codes "localhost:50051")
    × (h.use_ssl ≡ false)
    × (h.channel ≡ none)
    × (h.current_method ≡ none)

-- A new handler, and what the manager shows of the old one.
unfoldable pub Forgets : Manager → Manager → Type 0
Forgets m m' =
    IsFresh m'.grpc
    × (m'.grpc_endpoint ≡ m.grpc_endpoint)
    × (m'.grpc_use_ssl ≡ m.grpc_use_ssl)
    × (m'.current_grpc_method ≡ m.current_grpc_method)
    × (m'.is_loading ≡ m.is_loading)

set_grpc_service-Forgets :
    (s : Text) → (m m' : Manager) → Forgets m m' → Forgets m (set_grpc_service s m')
unfolding set_grpc_service set_service Forgets IsFresh
set_grpc_service-Forgets s m m' f = ground arith

choose_first-Forgets :
    (ss : List Text) → (m m' : Manager) → Forgets m m' → Forgets m (choose_first ss m')
choose_first-Forgets [] m m' f = f
choose_first-Forgets (s ∷ ss) m m' f = set_grpc_service-Forgets s m m' f

ensured-Forgets : (m m' : Manager) → Forgets m m' → Forgets m (ensured m'.grpc m')
unfolding Forgets IsFresh
ensured-Forgets m m' f = ground arith

import-Forgets :
    (w : World)
    → (path : Text) → (id : ℕ) → (h : Handler) → (m m' : Manager) → m'.grpc ≡ some (id, h)
    → Forgets m m'
    → Forgets m (with_grpc (load_proto_file w.grpc path h).1 id m')
unfolding load_proto_file Forgets IsFresh
import-Forgets w path id h m m' q f = ground arith

complain-Forgets : (t : Text) → (m m' : Manager) → Forgets m m' → Forgets m (complain t m')
unfolding Forgets
complain-Forgets t m m' f = f

services_loaded-Forgets :
    (h : Handler) → (m m' : Manager) → Forgets m m' → Forgets m (services_loaded h m')
unfolding Forgets
services_loaded-Forgets h m m' f = choose_first-Forgets (get_available_services h) m _ f

caught-Forgets :
    (o : Option Error)
    → (h : Handler) → (m m' : Manager) → Forgets m m'
    → Forgets m (caught o (services_loaded h) m')
caught-Forgets none h m m' f = services_loaded-Forgets h m m' f
caught-Forgets (some e) h m m' f = complain-Forgets e.what m m' f

load_into-Forgets :
    (w : World)
    → (path : Text) → (o : Option (ℕ × Handler)) → (m m' : Manager) → m'.grpc ≡ o
    → Forgets m m'
    → Forgets m (load_into w path o m')
load_into-Forgets w path none m m' q f = f
load_into-Forgets w path (some (id, h)) m m' q f =
    caught-Forgets _ _ m _ (import-Forgets w path id h m m' q f)

load-Forgets :
    (w : World)
    → (path : Text) → (m m' : Manager) → Forgets m m'
    → Forgets m (load_grpc_proto_file w path m')
unfolding load_grpc_proto_file
load-Forgets w path m m' f = load_into-Forgets w path _ m _ refl (ensured-Forgets m m' f)

reload-Forgets : (w : World) → (m m' : Manager) → Forgets m m' → Forgets m (reload w m')
reload-Forgets w m m' f = elim (Bool-cases (is_empty m'.proto_file_path)) [
  | inl q ↦ rw (q, if◌then◌else◌) f
  | inr q ↦ rw (q, if◌then◌else◌) (load-Forgets w _ m m' f)
]

-- The manager with its new gRPC handler, before the file is loaded again.
entered : World → Manager → Manager
entered w m =
    let m' = release_handlers w m in
    record m' {
      grpc = some (m'.allocated, init);
      handler = some m'.allocated;
      allocated = suc m'.allocated;
      current_protocol = codes "gRPC";
      is_connected = false;
    }

entered-Forgets : (w : World) → (m : Manager) → Forgets m (entered w m)
unfolding entered release_handlers Forgets IsFresh
entered-Forgets w m = ground arith

switch-Forgets : (w : World) → (m : Manager) → Forgets m (switch_protocol w (codes "gRPC") m)
unfolding switch_protocol protocol_name ◌==◌ Forgets entered
switch-Forgets w m = reload-Forgets w m (entered w m) (entered-Forgets w m)

set_grpc_endpoint_same :
    (e : Text) → (m : Manager) → m.grpc_endpoint ≡ e → set_grpc_endpoint e m ≡ m
unfolding set_grpc_endpoint
set_grpc_endpoint_same e m q = ground (arith, eq_refl e)

set_grpc_use_ssl_same : (b : Bool) → (m : Manager) → m.grpc_use_ssl ≡ b → set_grpc_use_ssl b m ≡ m
unfolding set_grpc_use_ssl
set_grpc_use_ssl_same b m q = ground arith

to_grpc-Forgets :
    (w : World)
    → (m : Manager) → (m.current_protocol == codes "gRPC") ≡ false
    → Forgets m (set_current_protocol w (codes "gRPC") m)
unfolding set_current_protocol
to_grpc-Forgets w m n = simp (n, if◌then◌else◌) (switch-Forgets w m)

-- A switch to gRPC from another protocol makes a handler with the endpoint localhost:50051, without
-- SSL, without a channel and without a method, while the endpoint, the SSL flag and the method that
-- the manager shows stay; and to set the shown ones again changes nothing.
pub set_current_protocol-Forgets :
    (w : World)
    → (m : Manager) → (m.current_protocol == codes "gRPC") ≡ false
    → let m' = set_current_protocol w (codes "gRPC") m in
      Forgets m m'
      × (set_grpc_endpoint m.grpc_endpoint m' ≡ m')
      × (set_grpc_use_ssl m.grpc_use_ssl m' ≡ m')
      × (set_grpc_method m.current_grpc_method m' ≡ done m')
unfolding Forgets
set_current_protocol-Forgets w m n =
    let f = to_grpc-Forgets w m n in
    (f, set_grpc_endpoint_same _ _ f.1, set_grpc_use_ssl_same _ _ f.2, set_grpc_method_same _ _ f.3)

-- The call told that no method is selected.
unfoldable pub IsUnselected : Manager → Run → Type 0
IsUnselected m (done m') =
    (m'.last_response ≡ m.last_response)
    × (m'.signals
        ≡ loading_changed
          ∷ error_occurred (codes "No method selected")
          ∷ loading_changed
          ∷ m.signals)
IsUnselected m r = ⊥

fresh_lem :
    (w : World)
    → (decimal : ℕ → Text) → (body : Text) → (o : Option (ℕ × Handler)) → (m : Manager) → IsFresh o
    → is_empty m.grpc_endpoint ≡ false
    → m.is_loading ≡ false
    → IsUnselected m (run_grpc w decimal body o m)
unfolding run_grpc IsFresh IsUnselected Execute.execute
fresh_lem w decimal body none m f e l = absurd f
fresh_lem w decimal body (some (id, h)) m f e l = ground arith

-- After a switch to gRPC from another protocol, with an endpoint shown and no request in progress,
-- executeGrpcRequest tells that no method is selected, and the last response stays.
pub set_current_protocol-IsUnselected :
    (w : World)
    → (decimal : ℕ → Text) → (body : Text) → (m : Manager)
    → (m.current_protocol == codes "gRPC") ≡ false
    → is_empty m.grpc_endpoint ≡ false
    → m.is_loading ≡ false
    → let m' = set_current_protocol w (codes "gRPC") m in
      IsUnselected m' (execute_grpc_request w decimal body m')
unfolding Forgets execute_grpc_request
set_current_protocol-IsUnselected w decimal body m n e l =
    let f = to_grpc-Forgets w m n in
    fresh_lem w decimal body _ _ f.0 (ap is_empty f.1 ∙ e) (f.4 ∙ l)
