-- ===== src/Models/ShownQuery.antt =====
-- src/models/query_model.cpp: a view that follows the signals shows the query.
use flowdriver.Base.{
  ℕ, Text, [], ◌∷◌, Option, none, some, Bool, true, false, ℤ, pos, negsuc, ◌≡◌, refl, get_elem?,
  ◌==◌, if◌then◌else◌,
}
use flowdriver.Models.View.{
  see, see_all, rows_inserted, rows_removed, data_changed, model_reset, see-append, see-remove_at,
  see-set, row_at,
}
use flowdriver.Models.Query.{
  QueryModel, QueryItem, QueryRole, remove_found, key_found, value_found, written, add_query,
  remove_query, set_key, set_value, clear,
}
use flowdriver.Models.Shown.{IsShown}

pub data QueryEdit : Type 0 where
  added cleared : QueryEdit
  removed : ℤ → QueryEdit
  keyed valued : ℤ → Text → QueryEdit

unfoldable pub edit_query : QueryEdit → QueryModel → QueryModel
edit_query added m = add_query m
edit_query cleared m = clear m
edit_query (removed i) m = remove_query i m
edit_query (keyed i t) m = set_key i t m
edit_query (valued i t) m = set_value i t m

abbrev pub read_query : QueryRole → QueryItem → QueryItem → QueryItem
read_query QueryRole.key row kept = record kept { key = row.key }
read_query QueryRole.value row kept = record kept { value = row.value }
read_query QueryRole.other row kept = kept

abbrev Follows : QueryModel → QueryModel → Type 0
Follows m m' = IsShown read_query m.queries m.notices m'.queries m'.notices

removed_lem : (i : ℤ) → (o : Option QueryItem) → (m : QueryModel) → Follows m (remove_found i o m)
unfolding see_all see
removed_lem (pos i) (some q) m = (rows_removed i i ∷ [], refl, see-remove_at read_query m.queries i)
removed_lem (pos i) none m = ([], refl, refl)
removed_lem (negsuc i) o m = ([], refl, refl)

changed_lem :
    (same : Bool)
    → (i : ℕ) → (q old : QueryItem) → (r : QueryRole) → (m : QueryModel)
    → get_elem? m.queries i ≡ some old
    → read_query r q old ≡ q
    → Follows m (if same then m else written i q r m)
unfolding see_all see
changed_lem true i q old r m e f = ([], refl, refl)
changed_lem false i q old r m e f =
    (data_changed i (r ∷ []) ∷ [], refl, see-set read_query m.queries i (r ∷ []) q old e f)

keyed_lem :
    (i : ℤ)
    → (t : Text) → (o : Option QueryItem) → (m : QueryModel) → row_at m.queries i ≡ o
    → Follows m (key_found i t o m)
unfolding see_all row_at
keyed_lem (pos i) t (some q) m e =
    changed_lem (q.key == t) i (record q { key = t }) q QueryRole.key m e refl
keyed_lem (pos i) t none m e = ([], refl, refl)
keyed_lem (negsuc i) t o m e = ([], refl, refl)

valued_lem :
    (i : ℤ)
    → (t : Text) → (o : Option QueryItem) → (m : QueryModel) → row_at m.queries i ≡ o
    → Follows m (value_found i t o m)
unfolding see_all row_at
valued_lem (pos i) t (some q) m e =
    changed_lem (q.value == t) i (record q { value = t }) q QueryRole.value m e refl
valued_lem (pos i) t none m e = ([], refl, refl)
valued_lem (negsuc i) t o m e = ([], refl, refl)

-- Whatever edit is made of a QueryModel, also at an index out of range: a view that showed its query
-- items and follows the signals of the edit shows its query items again.
pub edit_query-IsShown :
    (e : QueryEdit)
    → (m : QueryModel)
    → IsShown read_query m.queries m.notices (edit_query e m).queries (edit_query e m).notices
unfolding edit_query add_query clear remove_query set_key set_value see_all see
edit_query-IsShown added m = (rows_inserted _ _ ∷ [], refl, see-append read_query m.queries _)
edit_query-IsShown cleared m = (model_reset ∷ [], refl, refl)
edit_query-IsShown (removed i) m = removed_lem i _ m
edit_query-IsShown (keyed i t) m = keyed_lem i t _ m refl
edit_query-IsShown (valued i t) m = valued_lem i t _ m refl
