-- ===== src/Grpc/Execute.antt =====
-- src/core/grpc_handler.cpp, execute and executeMethod.
use flowdriver.Base.{
  ℕ, Text, codes, List, ◌++◌, Option, none, some, is_empty, nat_eq, if◌then◌else◌,
}
use flowdriver.Types.{Header, ErrorCode, RequestConfig, RequestResult, default_result}
use flowdriver.Grpc.Defs.{
  Method, Service, Channel, Grpc, Handler, Encoded, binary, bad_json, unserializable, Decoded, json,
  unparsable, unprintable, Reply, replied, refused, Outcome, ok, crash,
}
use flowdriver.Grpc.Services.{failure, create_channel}

-- The name of a method in a call.
abbrev pub method_path : Service → Method → Text
method_path s m = codes "/" ++ (s.full_name ++ (codes "/" ++ m.name))

-- The request's JSON: an empty object if there is no body.
abbrev pub json_request : Text → Text
json_request body = if is_empty body then codes "{}" else body

abbrev decoded : Decoded → Outcome RequestResult
decoded (json text) = ok (record default_result { body = text; status_code = 200 })
decoded unparsable = failure ErrorCode.invalid_argument (codes "Failed to parse response")
decoded unprintable =
    failure ErrorCode.invalid_argument (codes "Failed to convert response to JSON")

abbrev pub answered : Grpc → Method → Reply → Outcome RequestResult
answered g m (replied bytes) = decoded (g.decode m bytes)
answered g m (refused code message) =
    ok (record default_result { error = message; status_code = code })

abbrev pub encoded :
    Grpc → Channel → Service → Method → List Header → Encoded → Outcome RequestResult
encoded g c s m metadata (binary request) =
    answered g m (g.call c (method_path s m) metadata request)
encoded g c s m metadata (bad_json status) =
    failure ErrorCode.invalid_argument (codes "Failed to parse request JSON: " ++ status)
encoded g c s m metadata unserializable =
    failure ErrorCode.invalid_argument (codes "Failed to serialize request")

-- The method was tested; the service is used untested.
abbrev pub on_service :
    Grpc → RequestConfig → Handler → Channel → Method → Option (ℕ × Service) → Outcome RequestResult
on_service g config h c m none = crash
on_service g config h c m (some (pool, s)) =
    if nat_eq pool h.pool
    then encoded g c s m (h.auth_headers ++ config.headers) (g.encode m (json_request config.body))
    else crash

abbrev pub on_method : Grpc → RequestConfig → Handler → Channel → ℕ × Method → Outcome RequestResult
on_method g config h c (pool, m) =
    if nat_eq pool h.pool then on_service g config h c m h.current_service else crash

unfoldable pub execute_method :
    Grpc → RequestConfig → Handler → Option Channel → ℕ × Method → Outcome RequestResult
execute_method g config h none pm = crash
execute_method g config h (some c) pm = on_method g config h c pm

-- A channel is made where there is none.
abbrev pub with_channel : Option Channel → Handler → Handler
with_channel none h = create_channel h
with_channel (some c) h = h

abbrev pub execute_selected :
    Grpc → RequestConfig → Handler → Option (ℕ × Method) → Outcome RequestResult × Handler
execute_selected g config h none =
    (failure ErrorCode.invalid_argument (codes "No method selected"), h)
execute_selected g config h (some pm) =
    let h' = with_channel h.channel h in (execute_method g config h' h'.channel pm, h')

unfoldable pub execute : Grpc → RequestConfig → Handler → Outcome RequestResult × Handler
unfolding execute_method create_channel
execute g config h = execute_selected g config h h.current_method
