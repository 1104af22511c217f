-- ===== src/Manager/Selecting.antt =====
-- src/models/request_manager.cpp: loadGrpcProtoFile with the handler of src/core/grpc_handler.cpp.
use flowdriver.Base.{
  ℕ, Text, List, ◌∷◌, map, Option, none, some, false, ◌≡◌, ◌≢◌, refl, ◌∙◌, ap, arith, if◌then◌else◌,
  ◌==◌, eq_refl, Lacks, get_elem?, All-get_elem?,
}
use flowdriver.Grpc.Defs.{Handler, Method, ProtoFile, Service}
use flowdriver.Grpc.Services.{
  load_proto_file, get_available_services, get_service_methods, set_service, set_method, resolve,
}
use flowdriver.Grpc.Lookup.{IsProto, named, resolve_dotted}
use flowdriver.Manager.Defs.{World, Manager, done, crashes, grpc_services_changed}
use flowdriver.Manager.Calling.{set_grpc_method-executes}
use flowdriver.Manager.GrpcCalls.{
  load_grpc_proto_file, get_grpc_methods, set_grpc_service, set_grpc_method, choose_method,
  with_grpc, execute_grpc_request, insert, value_or,
}

-- The first service that a file lists, by its full name.
resolve_first :
    (f : ProtoFile)
    → (s : Service) → (ss : List Service) → IsProto f
    → Lacks b'.' f.package_name
    → f.services ≡ s ∷ ss
    → resolve f s.full_name ≡ some s
unfolding named
resolve_first f s ss p l e =
    let full = All-get_elem? _ f.services 0 s p.full (ap (λ ts. get_elem? ts 0) e) in
    ap (resolve f) full
    ∙ (resolve_dotted f f.package_name s.name p l
        ∙ (ap (named s.name) e ∙ ground (arith, eq_refl s.name)))

-- The handler after the load.
abbrev pub Selects : Service → ProtoFile → Option (ℕ × Handler) → Type 0
Selects s f none = ⊥
Selects s f (some (id, h)) = (h.current_file ≡ some f) × (h.current_service ≡ some (h.pool, s))

-- What a load leaves.
abbrev pub IsSelected : Service → ProtoFile → Manager → Manager → Type 0
IsSelected s f m m' =
    Selects s f m'.grpc
    × (m'.current_grpc_service ≡ s.full_name)
    × (m'.grpc_services ≡ map (λ t. t.full_name) f.services)
    × (get_grpc_methods s.full_name m' ≡ map (λ t. t.name) s.methods)
    × (m'.signals ≡ grpc_services_changed ∷ m.signals)
    × (m'.current_grpc_method ≡ m.current_grpc_method)

load_lem :
    (w : World)
    → (path : Text) → (id : ℕ) → (h : Handler) → (m : Manager) → (f : ProtoFile) → (s : Service)
    → (ss : List Service) → m.grpc ≡ some (id, h)
    → w.grpc.import path ≡ some f
    → f.services ≡ s ∷ ss
    → resolve f s.full_name ≡ some s
    → (m.current_grpc_service == s.full_name) ≡ false
    → IsSelected s f m (load_grpc_proto_file w path m)
unfolding load_grpc_proto_file load_proto_file get_available_services get_service_methods
    set_grpc_service set_service get_grpc_methods insert value_or
load_lem w path id h m f s ss q i e r n = ground (arith, eq_refl s.full_name)

-- The service and the method are the handler's, with live descriptors.
abbrev pub IsChosen : Service → Method → Option (ℕ × Handler) → Type 0
IsChosen s c none = ⊥
IsChosen s c (some (id, h)) =
    (h.current_service ≡ some (h.pool, s)) × (h.current_method ≡ some (h.pool, c))

choose_lem :
    (t : Text)
    → (c : Method) → (s : Service) → (f : ProtoFile) → (o : Option (ℕ × Handler)) → (m : Manager)
    → Selects s f o
    → s.find_method t ≡ some c
    → (m' : Manager) × (choose_method t o m ≡ done m') × IsChosen s c m'.grpc
unfolding set_method
choose_lem t c s f none m e k = absurd e
choose_lem t c s f (some (id, h)) m (x, e) k =
    (with_grpc (record h { current_method = some (h.pool, c) }) id m, ground arith, (e, refl))

method_lem :
    (t : Text)
    → (c : Method) → (s : Service) → (f : ProtoFile) → (m : Manager) → Selects s f m.grpc
    → s.find_method t ≡ some c
    → (m.current_grpc_method == t) ≡ false
    → (m' : Manager) × (set_grpc_method t m ≡ done m') × IsChosen s c m'.grpc
unfolding set_grpc_method
method_lem t c s f m e k n = simp (n, if◌then◌else◌) (choose_lem t c s f m.grpc _ e k)

-- From a .proto file, with a descriptor as Protocol Buffers documents it, to a call. The manager
-- has a gRPC handler, and the file that it loads lists a service first that is not the chosen one,
-- in a package of one segment. Then the service is chosen, the services and its methods are those
-- of the file, and one change of the services is signalled. To choose a method that the service has
-- and that is not the shown one returns, both descriptors are live, and executeGrpcRequest uses no
-- dead descriptor.
pub load_grpc_proto_file-IsSelected :
    (w : World)
    → (decimal : ℕ → Text) → (path method body : Text) → (id : ℕ) → (h : Handler) → (m : Manager)
    → (f : ProtoFile) → (s : Service) → (ss : List Service) → (c : Method) → m.grpc ≡ some (id, h)
    → w.grpc.import path ≡ some f
    → IsProto f
    → Lacks b'.' f.package_name
    → f.services ≡ s ∷ ss
    → s.find_method method ≡ some c
    → (m.current_grpc_service == s.full_name) ≡ false
    → (m.current_grpc_method == method) ≡ false
    → let m' = load_grpc_proto_file w path m in
      IsSelected s f m m'
      × (m'' : Manager) × (set_grpc_method method m' ≡ done m'')
      × IsChosen s c m''.grpc
      × (execute_grpc_request w decimal body m'' ≢ crashes)
load_grpc_proto_file-IsSelected w decimal path method body id h m f s ss c q i p l e k n u =
    let m' = load_grpc_proto_file w path m in
    let t = load_lem w path id h m f s ss q i e (resolve_first f s ss p l e) n in
    let v = ap (λ x. x == method) t.5 ∙ u in
    let (m'', chosen, live) = method_lem method c s f m' t.0 k v in
    (t, m'', chosen, live, set_grpc_method-executes w decimal method body m' m'' v chosen)
