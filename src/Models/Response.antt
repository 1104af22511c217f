-- ===== src/Models/Response.antt =====
-- src/models/response_model.cpp and its header: the response on display. The functions of Qt on
-- texts and numbers and the JSON formatter are parameters.
use Prim.Native.Nat.{◌/◌}
use flowdriver.Base.{
  ℕ, ◌+◌, ℤ, pos, Text, codes, List, [], ◌∷◌, ◌++◌, Option, none, some, ◌==◌, ◌||◌, ltb,
  starts_with, if◌then◌else◌,
}
use flowdriver.Types.{Header}

-- A QVariantMap with the entries that updateResponse reads; an entry that is not set is `none`.
pub record ResponseMap : Type 0 where
  pub status_code : Option ℤ
  pub body : Option Text
  pub headers : Option (List Header)
  pub error : Option Text
  pub time : Option ℤ

-- `headers` and `cookies` are maps of a name and a value, `response_time` is in microseconds, and
-- `changes` counts the signals responseChanged.
pub record ResponseModel : Type 0 where
  pub status_code : ℤ
  pub body : Text
  pub headers : List Header
  pub cookies : List Header
  pub error : Text
  pub response_time : ℤ
  pub changes : ℕ

-- The constructor.
abbrev pub init : ResponseModel
init = record {
  status_code = pos 0;
  body = [];
  headers = [];
  cookies = [];
  error = [];
  response_time = pos 0;
  changes = 0;
}

-- QVariantMap's operator[], converted: an entry that is not set is 0 or empty.
abbrev pub value_or {ℓ} : {A : Type ℓ} → A → Option A → A
value_or a none = a
value_or a (some b) = b

unfoldable pub update_response : ResponseMap → ResponseModel → ResponseModel
update_response r m = record m {
  status_code = value_or (pos 0) r.status_code;
  body = value_or [] r.body;
  headers = value_or [] r.headers;
  error = value_or [] r.error;
  response_time = value_or m.response_time r.time;
  changes = m.changes + 1;
}

unfoldable pub clear : ResponseModel → ResponseModel
clear m = record m {
  body = [];
  status_code = pos 0;
  headers = [];
  cookies = [];
  response_time = pos 0;
  error = [];
  changes = m.changes + 1;
}

-- RESPONSE_TIMEOUT
abbrev pub response_timeout : ℕ
response_timeout = 1000

-- QString::toLower, trimmed and split, and QString::number of an integer, and of a float with two
-- decimals, which has the value of an integer here.
pub record Qt : Type 0 where
  pub lower : Text → Text
  pub trimmed : Text → Text
  pub split : ℕ → Text → List Text
  pub number : ℤ → Text
  pub number_fixed : ℕ → Text

-- The last letters are a Greek mu, of two bytes, and an s.
abbrev pub microseconds : Text
microseconds = codes " " ++ 206 ∷ 188 ∷ codes "s"

abbrev pub time_text : Qt → ℤ → Text
time_text qt (pos n) =
    if ltb response_timeout n
    then qt.number_fixed (n / response_timeout) ++ codes " ms"
    else qt.number (pos n) ++ microseconds
time_text qt t = qt.number t ++ microseconds

unfoldable pub get_time : Qt → ResponseModel → Text
get_time qt m = time_text qt m.response_time

-- Text that is no JSON stays as it is.
unfoldable pub format_json : (Text → Option Text) → Text → Text
format_json pretty t = value_or t (pretty t)

unfoldable pub get_formatted_body : (Text → Option Text) → ResponseModel → Text
get_formatted_body pretty m =
    if starts_with m.body (codes "{") || starts_with m.body (codes "[")
    then format_json pretty m.body
    else m.body

unfoldable pub parse_headers : List Header → ResponseModel → ResponseModel
parse_headers headers m = record m { headers = headers }

module _ (qt : Qt) where
  -- A name and a value; what stands behind a second `=` is dropped.
  abbrev pub cookie_of : List Text → List Header → List Header
  cookie_of (name ∷ value ∷ rest) cookies =
      record { name = qt.trimmed name; value = qt.trimmed value } ∷ cookies
  cookie_of _ cookies = cookies

  abbrev pub cookie_in : List Text → List Header → List Header
  cookie_in [] cookies = cookies
  cookie_in (part ∷ parts) cookies = cookie_of (qt.split 61 part) cookies

  unfoldable pub cookies_of : List Header → List Header
  cookies_of [] = []
  cookies_of (h ∷ hs) =
      if qt.lower h.name == codes "set-cookie"
      then cookie_in (qt.split 59 h.value) (cookies_of hs)
      else cookies_of hs

  unfoldable pub parse_cookies : List Header → ResponseModel → ResponseModel
  parse_cookies headers m = record m { cookies = cookies_of headers }
