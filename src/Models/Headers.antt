-- ===== src/Models/Headers.antt =====
-- src/models/headers_model.cpp and its header.
use flowdriver.Base.{
  ℕ, Text, List, [], ◌∷◌, ◌++◌, Option, none, some, Bool, true, false, ℤ, pos, length, get_elem?,
  set, remove_at,
}
use flowdriver.Types.{Header}
use flowdriver.Models.View.{
  Notice, rows_inserted, rows_removed, data_changed, model_reset, changed, row_at,
}

-- The roles of a header; every other role of Qt is `other`.
pub data HeaderRole : Type 0 where
  name value other : HeaderRole

-- `notices` are the signals emitted so far, the latest first.
pub record HeadersModel : Type 0 where
  pub headers : List Header
  pub notices : List (Notice HeaderRole)

-- A QModelIndex is the row of a valid index, or none.
unfoldable pub row_count : Option ℕ → HeadersModel → ℕ
row_count (some parent) m = 0
row_count none m = length m.headers

abbrev role_text : HeaderRole → Header → Option Text
role_text name h = some h.name
role_text value h = some h.value
role_text other h = none

abbrev text_of : HeaderRole → Option Header → Option Text
text_of r none = none
text_of r (some h) = role_text r h

-- An invalid QVariant is `none`.
unfoldable pub data_at : Option ℕ → HeaderRole → HeadersModel → Option Text
data_at none role m = none
data_at (some row) role m = text_of role (get_elem? m.headers row)

-- The header is written in place; views hear of the roles, then the model's own signal follows.
abbrev written : ℕ → Header → List HeaderRole → HeadersModel → HeadersModel
written i h roles m = record m {
  headers = set m.headers i h;
  notices = changed ∷ data_changed i roles ∷ m.notices;
}

abbrev pub set_role : ℕ → Text → HeaderRole → Option Header → HeadersModel → Bool × HeadersModel
set_role row t role none m = (false, m)
set_role row t name (some h) m = (true, written row (record h { name = t }) (name ∷ []) m)
set_role row t value (some h) m = (true, written row (record h { value = t }) (value ∷ []) m)
set_role row t other (some h) m = (false, m)

unfoldable pub set_data : Option ℕ → Text → HeaderRole → HeadersModel → Bool × HeadersModel
set_data none t role m = (false, m)
set_data (some row) t role m = set_role row t role (get_elem? m.headers row) m

unfoldable pub append : Text → Text → HeadersModel → HeadersModel
append n v m = record m {
  headers = m.headers ++ record { name = n; value = v } ∷ [];
  notices = changed ∷ rows_inserted (length m.headers) (length m.headers) ∷ m.notices;
}

unfoldable pub add_header : HeadersModel → HeadersModel
add_header m = record m {
  headers = m.headers ++ record { name = []; value = [] } ∷ [];
  notices = changed ∷ rows_inserted (length m.headers) (length m.headers) ∷ m.notices;
}

abbrev removed : ℕ → HeadersModel → HeadersModel
removed i m = record m {
  headers = remove_at m.headers i;
  notices = changed ∷ rows_removed i i ∷ m.notices;
}

abbrev pub remove_found : ℤ → Option Header → HeadersModel → HeadersModel
remove_found (pos i) (some h) m = removed i m
remove_found _ _ m = m

unfoldable pub remove_header : ℤ → HeadersModel → HeadersModel
remove_header i m = remove_found i (row_at m.headers i) m

unfoldable pub remove : ℤ → HeadersModel → HeadersModel
remove i m = remove_found i (row_at m.headers i) m

unfoldable pub clear : HeadersModel → HeadersModel
clear m = record m { headers = []; notices = changed ∷ model_reset ∷ m.notices }

abbrev pub update_found : ℤ → Text → Text → Option Header → HeadersModel → HeadersModel
update_found (pos i) n v (some h) m =
    written i (record { name = n; value = v }) (name ∷ value ∷ []) m
update_found _ n v _ m = m

unfoldable pub update_value : ℤ → Text → Text → HeadersModel → HeadersModel
update_value i n v m = update_found i n v (row_at m.headers i) m
