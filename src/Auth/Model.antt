-- ===== src/Auth/Model.antt =====
-- src/models/auth_model.cpp and its header. The base64 encoder of Qt is a parameter.
use flowdriver.Base.{
  Text, codes, List, [], ◌∷◌, ◌++◌, not, ◌&&◌, ◌==◌, is_empty, ℤ, pos, int_eq, if◌then◌else◌,
}
use flowdriver.Types.{Header}
use flowdriver.Auth.Manager.{authorization}

pub data Signal : Type 0 where
  auth_type_changed username_changed password_changed token_changed : Signal
  api_key_name_changed api_key_value_changed api_key_location_changed : Signal

-- `signals` are those emitted so far, the latest first.
pub record AuthModel : Type 0 where
  pub auth_type : ℤ
  pub username : Text
  pub password : Text
  pub token : Text
  pub api_key_name : Text
  pub api_key_value : Text
  pub api_key_location : ℤ
  pub signals : List Signal

abbrev pub init : AuthModel
init = record {
  auth_type = pos 0;
  username = [];
  password = [];
  token = [];
  api_key_name = [];
  api_key_value = [];
  api_key_location = pos 0;
  signals = [];
}

unfoldable pub set_auth_type : ℤ → AuthModel → AuthModel
set_auth_type type m =
    if int_eq m.auth_type type
    then m
    else record m { auth_type = type; signals = auth_type_changed ∷ m.signals }

unfoldable pub set_username : Text → AuthModel → AuthModel
set_username username m =
    if m.username == username
    then m
    else record m { username = username; signals = username_changed ∷ m.signals }

unfoldable pub set_password : Text → AuthModel → AuthModel
set_password password m =
    if m.password == password
    then m
    else record m { password = password; signals = password_changed ∷ m.signals }

unfoldable pub set_token : Text → AuthModel → AuthModel
set_token token m =
    if m.token == token then m else record m { token = token; signals = token_changed ∷ m.signals }

unfoldable pub set_api_key_name : Text → AuthModel → AuthModel
set_api_key_name name m =
    if m.api_key_name == name
    then m
    else record m { api_key_name = name; signals = api_key_name_changed ∷ m.signals }

unfoldable pub set_api_key_value : Text → AuthModel → AuthModel
set_api_key_value value m =
    if m.api_key_value == value
    then m
    else record m { api_key_value = value; signals = api_key_value_changed ∷ m.signals }

unfoldable pub set_api_key_location : ℤ → AuthModel → AuthModel
set_api_key_location location m =
    if int_eq m.api_key_location location
    then m
    else record m { api_key_location = location; signals = api_key_location_changed ∷ m.signals }

-- The seven setters, in turn.
unfoldable pub clear : AuthModel → AuthModel
clear m = set_api_key_location (pos 0) (
    set_api_key_value [] (
      set_api_key_name []
        (set_token [] (set_password [] (set_username [] (set_auth_type (pos 0) m))))))

unfoldable pub get_auth_headers : (Text → Text) → AuthModel → List Header
get_auth_headers base64 m =
    if int_eq m.auth_type (pos 1)
    then authorization (codes "Basic ") (base64 (m.username ++ b':' ∷ m.password)) ∷ []
    else if int_eq m.auth_type (pos 2)
    then (if is_empty m.token then [] else authorization (codes "Bearer ") m.token ∷ [])
    else if int_eq m.auth_type (pos 3)
    then (if not (is_empty m.api_key_value)
          && not (is_empty m.api_key_name)
          && int_eq m.api_key_location (pos 0)
        then record { name = m.api_key_name; value = m.api_key_value } ∷ []
        else [])
    else []
