-- ===== src/Rest/Defs.antt =====
-- src/core/rest_handler.cpp, executeAsync of RestHandler::Impl, and the code's view of Boost.Asio
-- and Boost.Beast.
use flowdriver.Base.{
  ℕ, Text, codes, List, [], ◌∷◌, Option, none, some, Bool, true, false, ◌==◌, is_empty, take,
  if◌then◌else◌,
}
use flowdriver.Types.{Header, Error, ErrorCode, RequestConfig, RequestResult, default_result}
use flowdriver.Url.{parse_url}

-- An http::request: the text that its verb is read from, the target, the fields in the order in
-- which they are set (a later one replaces an earlier one of its name), the body, and whether
-- prepare_payload was called.
pub record Request : Type 0 where
  pub method : Text
  pub target : Text
  pub fields : List Header
  pub body : Text
  pub prepared : Bool

-- A call that may throw; `writes` and `reads` say whether the stream is the encrypted one.
pub data Call : Type 0 where
  resolves : Text → Text → Call
  sets_server_name : Text → Call
  connects handshakes shuts_down : Call
  writes : Bool → Request → Call
  reads : Bool → Call

-- beast::system_error, or another std::exception.
pub data Failure : Type 0 where
  system_error exception : Text → Failure

-- An http::response.
pub record Response : Type 0 where
  pub result_int : ℕ
  pub fields : List Header
  pub body : Text

-- The libraries and the network: what a call does after the earlier ones, the latest first (the call
-- itself is the first), and the response that was read.
pub record Net : Type 0 where
  pub attempt : List Call → Option Failure
  pub response : List Call → Response

pub data Outcome : Type 0 where
  ok : RequestResult → Outcome
  throws : Error → Outcome

unfoldable pub is_https : Text → Bool
is_https url = take 8 url == codes "https://"

-- The request, with its fields: the host, the user agent, and those of the configuration.
unfoldable pub request_of : RequestConfig → Request
request_of config = record {
  method = config.method;
  target = (parse_url config.url).2;
  fields =
      record { name = codes "Host"; value = (parse_url config.url).0 }
      ∷ record { name = codes "User-Agent"; value = codes "FlowDriver/1.0" }
      ∷ config.headers;
  body = config.body;
  prepared = if is_empty config.body then false else true;
}

-- The calls up to the response, with and without TLS.
unfoldable pub calls_of : Bool → Text → Request → List Call
calls_of true host req =
    sets_server_name host ∷ connects ∷ handshakes ∷ writes true req ∷ reads true ∷ []
calls_of false host req = connects ∷ writes false req ∷ reads false ∷ []

-- The calls in turn, up to the first that throws.
unfoldable pub perform : Net → List Call → List Call → Option Failure × List Call
perform n [] made = (none, made)
perform n (c ∷ cs) made = elim (n.attempt (c ∷ made)) [
  | none ↦ perform n cs (c ∷ made)
  | some f ↦ (some f, c ∷ made)
]

unfoldable pub error_of : Failure → Error
error_of (system_error what) = record { code = ErrorCode.network_error; what = what }
error_of (exception what) = record { code = ErrorCode.unknown; what = what }

unfoldable pub result_of : Response → RequestResult
result_of r = record default_result {
  status_code = r.result_int;
  body = r.body;
  headers = r.fields;
}

-- A failed shutdown of TLS is only logged.
abbrev pub shut : Bool → List Call → List Call
shut true made = shuts_down ∷ made
shut false made = made

abbrev pub concluded : Net → Bool → Option Failure → List Call → Outcome × List Call
concluded n secure none made = (ok (result_of (n.response made)), shut secure made)
concluded n secure (some f) made = (throws (error_of f), made)

unfoldable pub execute : Net → RequestConfig → Outcome × List Call
execute n config =
    let (host, port, target) = parse_url config.url in
    let secure = is_https config.url in
    let r = perform n (resolves host port ∷ calls_of secure host (request_of config)) [] in
    concluded n secure r.0 r.1
