-- ===== src/Manager/Validation.antt =====
-- src/models/request_manager.cpp: what validateRestRequest lets through.
use flowdriver.Base.{
  Text, codes, List, [], ◌∷◌, ◌++◌, none, Bool, true, false, ◌||◌, ◌≡◌, ◌↔◌, ◌⊎◌, inl, inr, arith,
  starts_with, starts_with_iff, ◌==◌,
}
use flowdriver.Manager.Requests.{is_valid_method, validate_rest_request}

-- The text occurs in the list.
unfoldable pub contains : Text → List Text → Bool
contains t [] = false
contains t (x ∷ xs) = t == x || contains t xs

abbrev pub valid_methods : List Text
valid_methods =
    codes "GET"
    ∷ codes "POST"
    ∷ codes "PUT"
    ∷ codes "DELETE"
    ∷ codes "PATCH"
    ∷ codes "HEAD"
    ∷ codes "OPTIONS"
    ∷ []

-- The URL has one of the schemes, and the method is a valid one.
abbrev HasScheme : Text → Type 0
HasScheme url =
    (starts_with url (codes "http://") ≡ true) ⊎ (starts_with url (codes "https://") ≡ true)

empty_lem :
    (method : Text)
    → (validate_rest_request method [] ≡ none)
      ↔ (HasScheme [] × (contains method valid_methods ≡ true))
unfolding validate_rest_request starts_with
empty_lem method = ground arith

accepts_lem :
    (method url : Text)
    → (validate_rest_request method url ≡ none)
      ↔ (HasScheme url × (contains method valid_methods ≡ true))
unfolding validate_rest_request is_valid_method contains
accepts_lem method [] = empty_lem method
accepts_lem method (x ∷ url) = ground arith

-- Something stands behind `http://` or `https://`.
abbrev pub IsHttp : Text → Type 0
IsHttp url =
    ((t : Text) × (url ≡ codes "http://" ++ t)) ⊎ ((t : Text) × (url ≡ codes "https://" ++ t))

scheme_iff : (url : Text) → HasScheme url ↔ IsHttp url
scheme_iff url =
    let h = starts_with_iff url (codes "http://") in
    let s = starts_with_iff url (codes "https://") in
    (
      λ e. elim e [ inl x ↦ inl (h.0 x) | inr y ↦ inr (s.0 y) ],
      λ e. elim e [ inl x ↦ inl (h.1 x) | inr y ↦ inr (s.1 y) ],
    )

-- validateRestRequest lets a request through exactly when its URL is a text behind `http://` or
-- `https://` and its method is one of the seven.
pub validate_rest_request-none_iff :
    (method url : Text)
    → (validate_rest_request method url ≡ none)
      ↔ (IsHttp url × (contains method valid_methods ≡ true))
validate_rest_request-none_iff method url =
    let a = accepts_lem method url in
    let s = scheme_iff url in (λ e. let (x, y) = a.0 e in (s.0 x, y), λ (x, y). a.1 (s.1 x, y))
