-- ===== src/Tests/Auths.antt =====
-- src/models/auth_model.cpp and src/core/auth_manager.cpp at concrete settings.
use flowdriver.Base.{codes, List, [], ◌∷◌, ◌++◌, pos, ◌≡◌, refl}
use flowdriver.Types.{Header}
use flowdriver.Auth.Manager.{apply_auth}
use flowdriver.Auth.Model.{AuthModel, init, get_auth_headers}
use flowdriver.Auth.Agreement.{manager_of, is_filled, apply_auth-get_auth_headers}

abbrev bearer : AuthModel
bearer = record init { auth_type = pos 2; token = codes "t0k" }

abbrev accept : List Header
accept = record { name = codes "Accept"; value = codes "*/*" } ∷ []

apply_auth-get_auth_headers_example :
    apply_auth (λ t. t) (manager_of bearer) accept
    ≡ (manager_of bearer, accept ++ get_auth_headers (λ t. t) bearer)
unfolding is_filled
apply_auth-get_auth_headers_example = apply_auth-get_auth_headers (λ t. t) bearer accept refl
