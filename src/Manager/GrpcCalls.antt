-- ===== src/Manager/GrpcCalls.antt =====
-- src/models/request_manager.cpp: the operations on the gRPC handler.
use flowdriver.Base.{
  ℕ, suc, Text, codes, List, [], ◌∷◌, ◌++◌, map, Option, none, some, Bool, true, false, not, ◌==◌,
  is_empty, nat_eq, if◌then◌else◌,
}
use flowdriver.Types.{Error, RequestConfig, RequestResult, default_config}
use flowdriver.Grpc.Defs.{Handler, Outcome, ok, throws, crash, init}
use flowdriver.Grpc.Services.{
  load_proto_file, get_available_services, get_service_methods, set_service, set_method,
  set_endpoint, set_use_ssl,
}
use flowdriver.Grpc.Execute
use flowdriver.Manager.Defs.{
  World, Manager, Thrown, Run, done, escapes, crashes, emit, complain, convert_result,
  loading_changed, grpc_services_changed, grpc_endpoint_changed, grpc_use_ssl_changed,
  proto_file_path_changed, response_received,
}

-- QMap: the value of a key, and the map with a value set.
unfoldable pub value_or : Text → List Text → List (Text × List Text) → List Text
value_or k d [] = d
value_or k d ((j, v) ∷ m) = if j == k then v else value_or k d m

unfoldable pub insert : Text → List Text → List (Text × List Text) → List (Text × List Text)
insert k v [] = (k, v) ∷ []
insert k v ((j, w) ∷ m) = if j == k then (k, v) ∷ m else (j, w) ∷ insert k v m

-- The caught Error of a call of the handler is signalled; else the call goes on.
abbrev pub caught : Option Error → (Manager → Manager) → Manager → Manager
caught none k m = k m
caught (some e) k m = complain e.what m

abbrev pub with_grpc : Handler → ℕ → Manager → Manager
with_grpc h id m = record m { grpc = some (id, h) }

-- The methods of the chosen service are read and kept.
abbrev service_set : Text → Handler → Manager → Manager
service_set service h m = record m {
  grpc_service_methods = insert service (get_service_methods h service) m.grpc_service_methods;
}

abbrev pub choose_service : Text → Option (ℕ × Handler) → Manager → Manager
choose_service service none m = m
choose_service service (some (id, h)) m =
    let r = set_service service h in caught r.0 (service_set service r.1) (with_grpc r.1 id m)

unfoldable pub set_grpc_service : Text → Manager → Manager
set_grpc_service service m =
    if m.current_grpc_service == service
    then m
    else choose_service service m.grpc (record m { current_grpc_service = service })

-- A gRPC handler is made where there is none.
abbrev pub ensured : Option (ℕ × Handler) → Manager → Manager
ensured none m = record m {
  grpc = some (m.allocated, init);
  handler = some m.allocated;
  allocated = suc m.allocated;
}
ensured (some p) m = m

abbrev pub choose_first : List Text → Manager → Manager
choose_first [] m = m
choose_first (s ∷ ss) m = set_grpc_service s m

-- After a load: the services, the methods of each, and the first service chosen.
abbrev pub services_loaded : Handler → Manager → Manager
services_loaded h m =
    let services = get_available_services h in
    let kept = record m {
      grpc_services = services;
      grpc_service_methods = map (λ s. (s, get_service_methods h s)) services;
    } in
    emit grpc_services_changed (choose_first services kept)

abbrev pub load_into : World → Text → Option (ℕ × Handler) → Manager → Manager
load_into w path none m = m
load_into w path (some (id, h)) m =
    let r = load_proto_file w.grpc path h in caught r.0 (services_loaded r.1) (with_grpc r.1 id m)

unfoldable pub load_grpc_proto_file : World → Text → Manager → Manager
load_grpc_proto_file w path m = let m' = ensured m.grpc m in load_into w path m'.grpc m'

unfoldable pub get_grpc_methods : Text → Manager → List Text
get_grpc_methods service m = value_or service [] m.grpc_service_methods

-- The Error of setMethod is not caught.
abbrev pub method_set : ℕ → Outcome (Unit {0}) → Handler → Manager → Run
method_set id (ok _) h m = done (with_grpc h id m)
method_set id (throws e) h m = escapes (Thrown.error e)
method_set id crash h m = crashes

abbrev pub choose_method : Text → Option (ℕ × Handler) → Manager → Run
choose_method method none m = done m
choose_method method (some (id, h)) m = let r = set_method method h in method_set id r.0 r.1 m

unfoldable pub set_grpc_method : Text → Manager → Run
set_grpc_method method m =
    if m.current_grpc_method == method
    then done m
    else choose_method method m.grpc (record m { current_grpc_method = method })

abbrev endpoint_set : Text → Option (ℕ × Handler) → Manager → Manager
endpoint_set endpoint none m = m
endpoint_set endpoint (some (id, h)) m =
    emit grpc_endpoint_changed (with_grpc (set_endpoint endpoint h) id m)

unfoldable pub set_grpc_endpoint : Text → Manager → Manager
set_grpc_endpoint endpoint m =
    if m.grpc_endpoint == endpoint
    then m
    else endpoint_set endpoint m.grpc (record m { grpc_endpoint = endpoint })

abbrev ssl_set : Bool → Option (ℕ × Handler) → Manager → Manager
ssl_set on none m = m
ssl_set on (some (id, h)) m = with_grpc (set_use_ssl on h) id m

abbrev bool_eq : Bool → Bool → Bool
bool_eq true b = b
bool_eq false b = not b

unfoldable pub set_grpc_use_ssl : Bool → Manager → Manager
set_grpc_use_ssl on m =
    if bool_eq m.grpc_use_ssl on
    then m
    else emit grpc_use_ssl_changed (ssl_set on m.grpc (record m { grpc_use_ssl = on }))

abbrev pub reloaded : World → Text → Option (ℕ × Handler) → Manager → Manager
reloaded w path none m = m
reloaded w path (some p) m = load_grpc_proto_file w path m

unfoldable pub set_proto_file_path : World → Text → Manager → Manager
set_proto_file_path w path m =
    if m.proto_file_path == path
    then m
    else emit proto_file_path_changed (reloaded w path m.grpc (record m { proto_file_path = path }))

-- The text of the error of a call that failed; the decimal text of its code is Qt's.
abbrev failure_text : (ℕ → Text) → RequestResult → Text
failure_text decimal r =
    if is_empty r.error
    then codes "gRPC request failed with status code: " ++ decimal r.status_code
    else r.error

abbrev pub report_failure : (ℕ → Text) → RequestResult → Manager → Manager
report_failure decimal r m =
    if nat_eq r.status_code 200 then m else complain (failure_text decimal r) m

abbrev finish_loading : Manager → Manager
finish_loading m = emit loading_changed (record m { is_loading = false })

abbrev pub grpc_answered : (ℕ → Text) → Outcome RequestResult → Manager → Run
grpc_answered decimal (ok r) m =
    let m' = report_failure decimal r m in
    done (
      finish_loading (
        emit (response_received (convert_result r))
          (record m' { last_response = some (convert_result r) })))
grpc_answered decimal (throws e) m = done (finish_loading (complain e.what m))
grpc_answered decimal crash m = crashes

abbrev pub grpc_config : Text → Text → RequestConfig
grpc_config body url = record default_config {
  body = if is_empty body then codes "{}" else body;
  url = url;
}

unfoldable pub run_grpc : World → (ℕ → Text) → Text → Option (ℕ × Handler) → Manager → Run
run_grpc w decimal body none m = done (complain (codes "gRPC handler not initialized") m)
run_grpc w decimal body (some (id, h)) m =
    if is_empty m.grpc_endpoint
    then done (complain (codes "gRPC endpoint not set") m)
    else if m.is_loading
    then done (complain (codes "Request already in progress") m)
    else (let started = emit loading_changed (record m { is_loading = true }) in
        let r = Execute.execute w.grpc (grpc_config body m.grpc_endpoint) h in
        grpc_answered decimal r.0 (with_grpc r.1 id started))

unfoldable pub execute_grpc_request : World → (ℕ → Text) → Text → Manager → Run
unfolding run_grpc
execute_grpc_request w decimal body m = run_grpc w decimal body m.grpc m
