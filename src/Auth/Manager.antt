-- ===== src/Auth/Manager.antt =====
-- src/core/auth_manager.cpp. The base64 encoder of Boost.Beast is a parameter.
use flowdriver.Base.{
  Text, codes, List, [], ◌∷◌, ◌++◌, Option, none, some, Bool, false, if◌then◌else◌,
}
use flowdriver.Types.{Header, AuthType}

-- AuthManager::Impl. A refresh callback is the token that its next call would answer.
pub record Manager : Type 0 where
  pub auth_type : AuthType
  pub credentials : Text
  pub token : Text
  pub refresh_callback : Option Text
  pub api_key_name : Text
  pub api_key_value : Text
  pub api_key_in_header : Bool

-- The constructor; it leaves m_api_key_in_header unset, and no method reads it before setApiKey.
abbrev pub init : Manager
init = record {
  auth_type = AuthType.none;
  credentials = [];
  token = [];
  refresh_callback = none;
  api_key_name = [];
  api_key_value = [];
  api_key_in_header = false;
}

unfoldable pub set_basic_auth : Manager → Text → Text → Manager
set_basic_auth m username password = record m {
  auth_type = AuthType.basic;
  credentials = username ++ b':' ∷ password;
}

unfoldable pub set_bearer_token : Manager → Text → Option Text → Manager
set_bearer_token m token callback = record m {
  auth_type = AuthType.bearer;
  token = token;
  refresh_callback = callback;
}

unfoldable pub set_api_key : Manager → Text → Text → Bool → Manager
set_api_key m name value in_header = record m {
  auth_type = AuthType.api_key;
  api_key_name = name;
  api_key_value = value;
  api_key_in_header = in_header;
}

abbrev pub authorization : Text → Text → Header
authorization kind value = record { name = codes "Authorization"; value = kind ++ value }

-- The expiry check is not implemented: it always answers false.
abbrev should_refresh_token : Manager → Bool
should_refresh_token m = false

abbrev refreshed : Manager → Option Text → Manager
refreshed m none = m
refreshed m (some t) = if should_refresh_token m then record m { token = t } else m

abbrev apply_typed : (Text → Text) → AuthType → Manager → List Header → Manager × List Header
apply_typed base64 AuthType.basic m hs =
    (m, hs ++ authorization (codes "Basic ") (base64 m.credentials) ∷ [])
apply_typed base64 AuthType.bearer m hs =
    let m' = refreshed m m.refresh_callback in
    (m', hs ++ authorization (codes "Bearer ") m'.token ∷ [])
apply_typed base64 AuthType.api_key m hs = (
  m,
  if m.api_key_in_header
      then hs ++ record { name = m.api_key_name; value = m.api_key_value } ∷ []
      else hs,
)
apply_typed base64 AuthType.none m hs = (m, hs)

-- The headers are changed in place: the new ones are returned.
unfoldable pub apply_auth : (Text → Text) → Manager → List Header → Manager × List Header
apply_auth base64 m hs = apply_typed base64 m.auth_type m hs
