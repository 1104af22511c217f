-- ===== src/Auth/Agreement.antt =====
-- The two implementations of authentication agree, and AuthModel's clear.
use flowdriver.Base.{
  Bool, not, ◌&&◌, is_empty, Text, List, [], ◌++◌, none, true, if◌then◌else◌, ℤ, pos, int_eq, ◌≡◌,
  arith, append-nil, eq_iff, ◌↔◌,
}
use flowdriver.Types.{Header}
use flowdriver.Auth.Manager.{Manager, set_basic_auth, set_bearer_token, set_api_key, apply_auth}
use flowdriver.Auth.Manager
use flowdriver.Auth.Model.{
  AuthModel, init, get_auth_headers, clear, set_auth_type, set_username, set_password, set_token,
  set_api_key_name, set_api_key_value, set_api_key_location,
}

-- The AuthManager that is given the settings of an AuthModel.
abbrev pub manager_of : AuthModel → Manager
manager_of m =
    if int_eq m.auth_type (pos 1)
    then set_basic_auth Manager.init m.username m.password
    else if int_eq m.auth_type (pos 2)
    then set_bearer_token Manager.init m.token none
    else if int_eq m.auth_type (pos 3)
    then set_api_key Manager.init m.api_key_name m.api_key_value (int_eq m.api_key_location (pos 0))
    else Manager.init

-- The texts that the chosen type of authentication needs are there.
unfoldable pub is_filled : AuthModel → Bool
is_filled m =
    if int_eq m.auth_type (pos 2)
    then not (is_empty m.token)
    else if int_eq m.auth_type (pos 3)
    then not (is_empty m.api_key_name) && not (is_empty m.api_key_value)
    else true

-- With the settings filled in and one base64 encoder, the AuthManager appends to a request's headers
-- exactly the headers that the AuthModel answers, and stays as it was.
pub apply_auth-get_auth_headers :
    (base64 : Text → Text) (m : AuthModel) (hs : List Header)
    → is_filled m ≡ true
    → apply_auth base64 (manager_of m) hs ≡ (manager_of m, hs ++ get_auth_headers base64 m)
unfolding apply_auth set_basic_auth set_bearer_token set_api_key get_auth_headers is_filled
apply_auth-get_auth_headers base64 m hs f = ground (arith, append-nil hs)

-- What clear leaves: every setting at its initial value, so no header.
pub record IsCleared (m : AuthModel) : Type 0 where
  pub auth_type : m.auth_type ≡ pos 0
  pub username : m.username ≡ []
  pub password : m.password ≡ []
  pub token : m.token ≡ []
  pub api_key_name : m.api_key_name ≡ []
  pub api_key_value : m.api_key_value ≡ []
  pub api_key_location : m.api_key_location ≡ pos 0

-- The settings, without the signals.
record Settings : Type 0 where
  auth_type : ℤ
  username : Text
  password : Text
  token : Text
  api_key_name : Text
  api_key_value : Text
  api_key_location : ℤ

abbrev settings : AuthModel → Settings
settings m = record {
  auth_type = m.auth_type;
  username = m.username;
  password = m.password;
  token = m.token;
  api_key_name = m.api_key_name;
  api_key_value = m.api_key_value;
  api_key_location = m.api_key_location;
}

int_eq_iff : (a b : ℤ) → (int_eq a b ≡ true) ↔ (a ≡ b)
int_eq_iff a b = ground arith

settings-set_auth_type :
    (v : ℤ) (m : AuthModel)
    → (settings (set_auth_type v m) ≡ record (settings m) { auth_type = v })
      × (m.auth_type ≡ v → set_auth_type v m ≡ m)
unfolding set_auth_type
settings-set_auth_type v m = ground (arith, int_eq_iff m.auth_type v)

settings-set_username :
    (v : Text) (m : AuthModel)
    → (settings (set_username v m) ≡ record (settings m) { username = v })
      × (m.username ≡ v → set_username v m ≡ m)
unfolding set_username
settings-set_username v m = ground (arith, eq_iff m.username v)

settings-set_password :
    (v : Text) (m : AuthModel)
    → (settings (set_password v m) ≡ record (settings m) { password = v })
      × (m.password ≡ v → set_password v m ≡ m)
unfolding set_password
settings-set_password v m = ground (arith, eq_iff m.password v)

settings-set_token :
    (v : Text) (m : AuthModel)
    → (settings (set_token v m) ≡ record (settings m) { token = v })
      × (m.token ≡ v → set_token v m ≡ m)
unfolding set_token
settings-set_token v m = ground (arith, eq_iff m.token v)

settings-set_api_key_name :
    (v : Text) (m : AuthModel)
    → (settings (set_api_key_name v m) ≡ record (settings m) { api_key_name = v })
      × (m.api_key_name ≡ v → set_api_key_name v m ≡ m)
unfolding set_api_key_name
settings-set_api_key_name v m = ground (arith, eq_iff m.api_key_name v)

settings-set_api_key_value :
    (v : Text) (m : AuthModel)
    → (settings (set_api_key_value v m) ≡ record (settings m) { api_key_value = v })
      × (m.api_key_value ≡ v → set_api_key_value v m ≡ m)
unfolding set_api_key_value
settings-set_api_key_value v m = ground (arith, eq_iff m.api_key_value v)

settings-set_api_key_location :
    (v : ℤ) (m : AuthModel)
    → (settings (set_api_key_location v m) ≡ record (settings m) { api_key_location = v })
      × (m.api_key_location ≡ v → set_api_key_location v m ≡ m)
unfolding set_api_key_location
settings-set_api_key_location v m = ground (arith, int_eq_iff m.api_key_location v)

IsCleared-of_settings : (m : AuthModel) → settings m ≡ settings init → IsCleared m
IsCleared-of_settings m e = ground arith

settings-clear : (m : AuthModel) → settings (clear m) ≡ settings init
unfolding clear
settings-clear m =
    let a = set_auth_type (pos 0) m in
    let u = set_username [] a in
    let p = set_password [] u in
    let t = set_token [] p in
    let n = set_api_key_name [] t in
    let v = set_api_key_value [] n in
    cc (
      (settings-set_auth_type (pos 0) m).0,
      (settings-set_username [] a).0,
      (settings-set_password [] u).0,
      (settings-set_token [] p).0,
      (settings-set_api_key_name [] t).0,
      (settings-set_api_key_value [] n).0,
      (settings-set_api_key_location (pos 0) v).0,
    )

clear_of_IsCleared : (m : AuthModel) → IsCleared m → clear m ≡ m
unfolding clear
clear_of_IsCleared m c = rw (
  (settings-set_auth_type (pos 0) m).1 c.auth_type,
  (settings-set_username [] m).1 c.username,
  (settings-set_password [] m).1 c.password,
  (settings-set_token [] m).1 c.token,
  (settings-set_api_key_name [] m).1 c.api_key_name,
  (settings-set_api_key_value [] m).1 c.api_key_value,
  (settings-set_api_key_location (pos 0) m).1 c.api_key_location,
)

no_headers : (base64 : Text → Text) (m : AuthModel) → IsCleared m → get_auth_headers base64 m ≡ []
unfolding get_auth_headers
no_headers base64 m c = ground arith

-- clear resets every setting, so that no header is answered; a second clear changes nothing and
-- emits nothing.
pub clear-IsCleared :
    (base64 : Text → Text) (m : AuthModel)
    → IsCleared (clear m) × (get_auth_headers base64 (clear m) ≡ []) × (clear (clear m) ≡ clear m)
clear-IsCleared base64 m =
    let c = IsCleared-of_settings (clear m) (settings-clear m) in
    (c, no_headers base64 (clear m) c, clear_of_IsCleared (clear m) c)
