-- ===== src/Manager/Stale.antt =====
-- src/models/request_manager.cpp: a .proto file that is loaded again.
use flowdriver.Base.{ℕ, Text, List, ◌∷◌, map, some, false, ◌≡◌, refl, arith, is_empty, eq_refl}
use flowdriver.Grpc.Defs.{Handler, Method, ProtoFile, Service}
use flowdriver.Grpc.Services.{load_proto_file, get_available_services, get_service_methods}
use flowdriver.Manager.Defs.{World, Manager, done, crashes, emit, grpc_services_changed}
use flowdriver.Manager.Calling.{can_call, is_live, dead-crashes}
use flowdriver.Manager.GrpcCalls.{
  execute_grpc_request, set_grpc_method, set_grpc_service, load_grpc_proto_file, with_grpc,
}

-- The same choice again changes nothing.
set_grpc_service_same :
    (s : Text) → (m : Manager) → m.current_grpc_service ≡ s → set_grpc_service s m ≡ m
unfolding set_grpc_service
set_grpc_service_same s m e = ground (arith, eq_refl s)

pub set_grpc_method_same :
    (t : Text) → (m : Manager) → m.current_grpc_method ≡ t → set_grpc_method t m ≡ done m
unfolding set_grpc_method
set_grpc_method_same t m e = ground (arith, eq_refl t)

-- The manager after a load whose first service is the one that is chosen.
abbrev reloaded : World → Text → ℕ → Handler → Manager → Manager
reloaded w path id h m =
    let g = (load_proto_file w.grpc path h).1 in
    let services = get_available_services g in
    emit grpc_services_changed (record (with_grpc g id m) {
      grpc_services = services;
      grpc_service_methods = map (λ s. (s, get_service_methods g s)) services;
    })

load_lem :
    (w : World)
    → (path : Text) → (id : ℕ) → (h : Handler) → (m : Manager) → (f : ProtoFile) → (s : Service)
    → (ss : List Service) → m.grpc ≡ some (id, h)
    → w.grpc.import path ≡ some f
    → f.services ≡ s ∷ ss
    → m.current_grpc_service ≡ s.full_name
    → load_grpc_proto_file w path m ≡ reloaded w path id h m
unfolding load_grpc_proto_file load_proto_file get_available_services set_grpc_service
load_lem w path id h m f s ss q i l c = ground (arith, eq_refl s.full_name)

reloaded-crashes :
    (w : World)
    → (decimal : ℕ → Text) → (path body : Text) → (id : ℕ) → (h : Handler) → (m : Manager)
    → (t : Method) → h.current_method ≡ some (h.pool, t)
    → is_empty m.grpc_endpoint ≡ false
    → m.is_loading ≡ false
    → execute_grpc_request w decimal body (reloaded w path id h m) ≡ crashes
unfolding can_call is_live load_proto_file
reloaded-crashes w decimal path body id h m t k e l =
    dead-crashes w decimal body (reloaded w path id h m) (ground arith) (ground arith)

-- A .proto file is loaded whose first service has the name of the chosen one, as when the file is
-- loaded again, while a method of the present file is selected. Then to choose the same service and
-- the same method once more changes nothing, and executeGrpcRequest uses a dead descriptor.
pub load_grpc_proto_file-crashes :
    (w : World)
    → (decimal : ℕ → Text) → (path body : Text) → (id : ℕ) → (h : Handler) → (m : Manager)
    → (t : Method) → (f : ProtoFile) → (s : Service) → (ss : List Service) → m.grpc ≡ some (id, h)
    → h.current_method ≡ some (h.pool, t)
    → w.grpc.import path ≡ some f
    → f.services ≡ s ∷ ss
    → m.current_grpc_service ≡ s.full_name
    → is_empty m.grpc_endpoint ≡ false
    → m.is_loading ≡ false
    → let m' = load_grpc_proto_file w path m in
      (set_grpc_service m.current_grpc_service m' ≡ m')
      × (set_grpc_method m.current_grpc_method m' ≡ done m')
      × (execute_grpc_request w decimal body m' ≡ crashes)
load_grpc_proto_file-crashes w decimal path body id h m t f s ss q k i l c e n =
    rw (load_lem w path id h m f s ss q i l c) (
      set_grpc_service_same _ _ refl,
      set_grpc_method_same _ _ refl,
      reloaded-crashes w decimal path body id h m t k e n,
    )
