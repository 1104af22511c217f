-- ===== src/Grpc/Serialize.antt =====
-- src/core/grpc_handler.cpp: serializeRequest and deserializeResponse, which nothing calls.
use flowdriver.Base.{ℕ, Text, codes, ◌++◌, Option, none, some, nat_eq, if◌then◌else◌}
use flowdriver.Types.{ErrorCode}
use flowdriver.Grpc.Defs.{Method, Handler, Outcome, ok, crash}
use flowdriver.Grpc.Services.{failure}

-- A JSON text parsed and printed again, or the text of the parse error.
pub data Reprinted : Type 0 where
  printed parse_error : Text → Reprinted

-- nlohmann::json's dump() and dump(2), and the bytes of a new message of a method's input type that
-- JsonStringToMessage has filled as far as it could: its status is not read.
pub record Codec : Type 0 where
  pub dump : Text → Reprinted
  pub dump_indented : Text → Reprinted
  pub fill : Method → Text → Text

-- The method is used untested.
abbrev filled : Codec → Handler → Text → Option (ℕ × Method) → Outcome Text
filled c h json none = crash
filled c h json (some (pool, m)) = if nat_eq pool h.pool then ok (c.fill m json) else crash

abbrev serialized : Codec → Handler → Reprinted → Outcome Text
serialized c h (printed json) = filled c h json h.current_method
serialized c h (parse_error e) =
    failure ErrorCode.parse_error (codes "Failed to parse JSON request: " ++ e)

unfoldable pub serialize_request : Codec → Handler → Text → Outcome Text
serialize_request c h json_request = serialized c h (c.dump json_request)

abbrev deserialized : Reprinted → Outcome Text
deserialized (printed json) = ok json
deserialized (parse_error e) =
    failure ErrorCode.parse_error (codes "Failed to format response JSON: " ++ e)

-- Of the text that MessageToJsonString made of the message.
unfoldable pub deserialize_response : Codec → Text → Outcome Text
deserialize_response c json_string = deserialized (c.dump_indented json_string)
