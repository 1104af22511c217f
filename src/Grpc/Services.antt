-- ===== src/Grpc/Services.antt =====
-- src/core/grpc_handler.cpp: loading a .proto file, the services and methods, and the channel.
use flowdriver.Base.{
  ℕ, suc, ◌+◌, Text, codes, List, [], ◌∷◌, ◌++◌, map, Option, none, some, Bool, find, drop,
  is_empty, nat_eq, if◌then◌else◌,
}
use flowdriver.Types.{Header, Error, ErrorCode}
use flowdriver.Grpc.Defs.{Method, Service, ProtoFile, Grpc, Handler, Outcome, ok, throws, crash}

abbrev pub failure : {A : Type 0} → ErrorCode → Text → Outcome A
failure c t = throws (record { code = c; what = t })

-- The Error that a method throws; `none` where it returns.
abbrev invalid_argument : Text → Option Error
invalid_argument t = some (record { code = ErrorCode.invalid_argument; what = t })

abbrev loaded : Option ProtoFile → Option Error
loaded none = invalid_argument (codes "Failed to load proto file: Failed to import proto file")
loaded (some f) = none

-- A new importer takes the place of the old one, whose descriptors go with it. The error of a failed
-- import is caught by the handler below it, which wraps its message.
unfoldable pub load_proto_file : Grpc → Text → Handler → Option Error × Handler
load_proto_file g path h =
    (loaded (g.import path), record h { pool = suc h.pool; current_file = g.import path })

abbrev services_of : Option ProtoFile → List Text
services_of none = []
services_of (some f) = map (λ s. s.full_name) f.services

unfoldable pub get_available_services : Handler → List Text
get_available_services h = services_of h.current_file

-- The second try, for a name that was not found as it is.
abbrev second_try : ProtoFile → Text → Option ℕ → Option Service
second_try f service (some dot) = f.find_service (drop (dot + 1) service)
second_try f service none =
    if is_empty f.package_name then none else f.find_service (f.package_name ++ b'.' ∷ service)

abbrev or_else : Option Service → Option Service → Option Service
or_else (some s) o = some s
or_else none o = o

-- The lookup that setService and getServiceMethods share.
unfoldable pub resolve : ProtoFile → Text → Option Service
resolve f service = or_else (f.find_service service) (second_try f service (find b'.' service))

abbrev method_names : Option Service → List Text
method_names none = []
method_names (some s) = map (λ m. m.name) s.methods

abbrev methods_in : Option ProtoFile → Text → List Text
methods_in none service = []
methods_in (some f) service = method_names (resolve f service)

unfoldable pub get_service_methods : Handler → Text → List Text
get_service_methods h service = methods_in h.current_file service

abbrev keep_service : Handler → Text → Option Service → Option Error × Handler
keep_service h service none =
    (invalid_argument (codes "Service not found: " ++ service), record h { current_service = none })
keep_service h service (some s) = (none, record h { current_service = some (h.pool, s) })

abbrev service_in : Handler → Text → Option ProtoFile → Option Error × Handler
service_in h service none = (invalid_argument (codes "No proto file loaded"), h)
service_in h service (some f) = keep_service h service (resolve f service)

-- m_current_service is overwritten before it is tested.
unfoldable pub set_service : Text → Handler → Option Error × Handler
set_service service h = service_in h service h.current_file

abbrev keep_method : Handler → Text → Option Method → Outcome (Unit {0}) × Handler
keep_method h method none = (
  failure ErrorCode.invalid_config (codes "Method not found: " ++ method),
  record h { current_method = none },
)
keep_method h method (some m) = (ok tt, record h { current_method = some (h.pool, m) })

abbrev method_in : Handler → Text → Option (ℕ × Service) → Outcome (Unit {0}) × Handler
method_in h method none = (failure ErrorCode.invalid_state (codes "No service selected"), h)
method_in h method (some (pool, s)) =
    if nat_eq pool h.pool then keep_method h method (s.find_method method) else (crash, h)

unfoldable pub set_method : Text → Handler → Outcome (Unit {0}) × Handler
set_method method h = method_in h method h.current_service

unfoldable pub create_channel : Handler → Handler
create_channel h = record h { channel = some (record { target = h.endpoint; ssl = h.use_ssl }) }

unfoldable pub set_endpoint : Text → Handler → Handler
unfolding create_channel
set_endpoint endpoint h = create_channel (record h { endpoint = endpoint })

unfoldable pub set_use_ssl : Bool → Handler → Handler
unfolding create_channel
set_use_ssl on h = create_channel (record h { use_ssl = on })

unfoldable pub cancel : Handler → Handler
unfolding create_channel
cancel h = create_channel (record h { channel = none })

-- The maps of the list, each with its entries "name" and "value", where it has them.
abbrev metadata_of : List (Option Text × Option Text) → List Header
metadata_of [] = []
metadata_of ((some n, some v) ∷ hs) = record { name = n; value = v } ∷ metadata_of hs
metadata_of (_ ∷ hs) = metadata_of hs

unfoldable pub set_auth_metadata : List (Option Text × Option Text) → Handler → Handler
set_auth_metadata hs h = record h { auth_headers = metadata_of hs }
