-- ===== src/Grpc/Dangling.antt =====
-- When a selected service and method can be called, and when their descriptors are gone.
use flowdriver.Base.{◌≡◌, ◌≢◌, Text, none, some, arith}
use flowdriver.Types.{RequestConfig}
use flowdriver.Grpc.Defs.{Method, ProtoFile, Grpc, Handler, ok, crash}
use flowdriver.Grpc.Services.{resolve, set_service, set_method, load_proto_file}
use flowdriver.Grpc.Execute.{execute}

-- After a successful setService and setMethod, execute reaches its descriptors: it answers a result
-- or throws an Error.
pub selected_executes :
    (g : Grpc) (service method : Text) (config : RequestConfig) (h h' h'' : Handler)
    → set_service service h ≡ (none, h')
    → set_method method h' ≡ (ok tt, h'')
    → (execute g config h'').0 ≢ crash
unfolding set_service set_method execute
selected_executes g service method config h h' h'' e e' = ground arith

-- Loading a .proto file, whether it succeeds or not, destroys the descriptors in use: with a method
-- selected before, execute then uses a dangling descriptor.
pub load_proto_file_dangles :
    (g : Grpc) (path : Text) (config : RequestConfig) (m : Method) (h : Handler)
    → h.current_method ≡ some (h.pool, m)
    → (execute g config (load_proto_file g path h).1).0 ≡ crash
unfolding load_proto_file execute
load_proto_file_dangles g path config m h e = ground arith

-- A setService that does not find its service leaves the service null and the method selected: the
-- next execute uses the null service.
pub failed_set_service_crashes :
    (g : Grpc) (service : Text) (config : RequestConfig) (f : ProtoFile) (m : Method) (h : Handler)
    → h.current_file ≡ some f
    → resolve f service ≡ none
    → h.current_method ≡ some (h.pool, m)
    → (execute g config (set_service service h).1).0 ≡ crash
unfolding set_service execute
failed_set_service_crashes g service config f m h e r k = ground arith
