-- ===== src/Models/Query.antt =====
-- src/models/query_model.cpp and its header. QUrlQuery::toString is a parameter.
use flowdriver.Base.{
  ℕ, Text, List, [], ◌∷◌, ◌++◌, Option, none, some, ℤ, pos, length, get_elem?, set, remove_at, ◌==◌,
  is_empty, if◌then◌else◌,
}
use flowdriver.Models.View.{Notice, rows_inserted, rows_removed, data_changed, model_reset, row_at}

pub record QueryItem : Type 0 where
  pub key : Text
  pub value : Text

pub data QueryRole : Type 0 where
  key value other : QueryRole

pub record QueryModel : Type 0 where
  pub queries : List QueryItem
  pub notices : List (Notice QueryRole)

unfoldable pub row_count : Option ℕ → QueryModel → ℕ
row_count (some parent) m = 0
row_count none m = length m.queries

abbrev role_text : QueryRole → QueryItem → Option Text
role_text key q = some q.key
role_text value q = some q.value
role_text other q = none

abbrev text_of : QueryRole → Option QueryItem → Option Text
text_of r none = none
text_of r (some q) = role_text r q

unfoldable pub data_at : Option ℕ → QueryRole → QueryModel → Option Text
data_at none role m = none
data_at (some row) role m = text_of role (get_elem? m.queries row)

unfoldable pub add_query : QueryModel → QueryModel
add_query m = record m {
  queries = m.queries ++ record { key = []; value = [] } ∷ [];
  notices = rows_inserted (length m.queries) (length m.queries) ∷ m.notices;
}

abbrev pub remove_found : ℤ → Option QueryItem → QueryModel → QueryModel
remove_found (pos i) (some q) m = record m {
  queries = remove_at m.queries i;
  notices = rows_removed i i ∷ m.notices;
}
remove_found _ _ m = m

unfoldable pub remove_query : ℤ → QueryModel → QueryModel
remove_query i m = remove_found i (row_at m.queries i) m

abbrev pub written : ℕ → QueryItem → QueryRole → QueryModel → QueryModel
written i q role m = record m {
  queries = set m.queries i q;
  notices = data_changed i (role ∷ []) ∷ m.notices;
}

abbrev pub key_found : ℤ → Text → Option QueryItem → QueryModel → QueryModel
key_found (pos i) t (some q) m = if q.key == t then m else written i (record q { key = t }) key m
key_found _ t _ m = m

unfoldable pub set_key : ℤ → Text → QueryModel → QueryModel
set_key i t m = key_found i t (row_at m.queries i) m

abbrev pub value_found : ℤ → Text → Option QueryItem → QueryModel → QueryModel
value_found (pos i) t (some q) m =
    if q.value == t then m else written i (record q { value = t }) value m
value_found _ t _ m = m

unfoldable pub set_value : ℤ → Text → QueryModel → QueryModel
set_value i t m = value_found i t (row_at m.queries i) m

unfoldable pub query_items : List QueryItem → List QueryItem
query_items [] = []
query_items (q ∷ qs) = if is_empty q.key then query_items qs else q ∷ query_items qs

unfoldable pub build_query_string : (List QueryItem → Text) → QueryModel → Text
build_query_string to_string m = to_string (query_items m.queries)

unfoldable pub clear : QueryModel → QueryModel
clear m = record m { queries = []; notices = model_reset ∷ m.notices }
