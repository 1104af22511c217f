-- ===== src/Models/Shown.antt =====
-- src/models/headers_model.cpp and src/models/query_model.cpp: a view that follows the signals shows
-- the rows of the model.
use flowdriver.Base.{
  ℕ, Text, List, [], ◌∷◌, ◌++◌, Option, none, some, ℤ, pos, negsuc, ◌≡◌, refl, get_elem?,
}
use flowdriver.Types.{Header}
use flowdriver.Models.View.{
  Notice, see, see_all, changed, rows_inserted, rows_removed, data_changed, model_reset, see-append,
  see-remove_at, see-set, row_at,
}
use flowdriver.Models.Headers.{
  remove_found, update_found, set_role, HeadersModel, HeaderRole, set_data, append, add_header,
  remove_header, remove, clear, update_value,
}

pub data HeaderEdit : Type 0 where
  added cleared : HeaderEdit
  appended : Text → Text → HeaderEdit
  removed dropped : ℤ → HeaderEdit
  updated : ℤ → Text → Text → HeaderEdit
  entered : Option ℕ → Text → HeaderRole → HeaderEdit

unfoldable pub edit_headers : HeaderEdit → HeadersModel → HeadersModel
edit_headers added m = add_header m
edit_headers cleared m = clear m
edit_headers (appended n v) m = append n v m
edit_headers (removed i) m = remove_header i m
edit_headers (dropped i) m = remove i m
edit_headers (updated i n v) m = update_value i n v m
edit_headers (entered row t role) m = (set_data row t role m).1

abbrev pub read_header : HeaderRole → Header → Header → Header
read_header HeaderRole.name row kept = record kept { name = row.name }
read_header HeaderRole.value row kept = record kept { value = row.value }
read_header HeaderRole.other row kept = kept

-- The signals that came since; a view that showed the old rows shows the new ones after them.
abbrev pub IsShown :
    {Role Row : Type 0}
    → (Role → Row → Row → Row)
    → List Row
    → List (Notice Role)
    → List Row
    → List (Notice Role)
    → Type 0
IsShown {Role} read old before new after =
    (ns : List (Notice Role)) × (after ≡ ns ++ before) × (see_all read new ns old ≡ new)

unchanged_lem :
    {Role Row : Type 0}
    → (read : Role → Row → Row → Row) → (rows : List Row) → (ns : List (Notice Role))
    → IsShown read rows ns rows ns
unfolding see_all
unchanged_lem read rows ns = ([], refl, refl)

removed_lem :
    (i : ℤ)
    → (o : Option Header) → (m : HeadersModel)
    → IsShown read_header m.headers m.notices
        (remove_found i o m).headers
        (remove_found i o m).notices
unfolding see_all see
removed_lem (pos i) (some h) m =
    (changed ∷ rows_removed i i ∷ [], refl, see-remove_at read_header m.headers i)
removed_lem (pos i) none m = ([], refl, refl)
removed_lem (negsuc i) o m = ([], refl, refl)

updated_lem :
    (i : ℤ)
    → (n v : Text) → (o : Option Header) → (m : HeadersModel) → row_at m.headers i ≡ o
    → IsShown read_header m.headers m.notices
        (update_found i n v o m).headers
        (update_found i n v o m).notices
unfolding see_all see row_at
updated_lem (pos i) n v (some h) m e = (
  changed ∷ data_changed i (HeaderRole.name ∷ HeaderRole.value ∷ []) ∷ [],
  refl,
  see-set read_header m.headers i (HeaderRole.name ∷ HeaderRole.value ∷ []) _ h e refl,
)
updated_lem (pos i) n v none m e = ([], refl, refl)
updated_lem (negsuc i) n v o m e = ([], refl, refl)

entered_lem :
    (i : ℕ)
    → (t : Text) → (r : HeaderRole) → (o : Option Header) → (m : HeadersModel)
    → get_elem? m.headers i ≡ o
    → IsShown read_header m.headers m.notices
        (set_role i t r o m).1.headers
        (set_role i t r o m).1.notices
unfolding see_all see
entered_lem i t HeaderRole.name (some h) m e = (
  changed ∷ data_changed i (HeaderRole.name ∷ []) ∷ [],
  refl,
  see-set read_header m.headers i (HeaderRole.name ∷ []) _ h e refl,
)
entered_lem i t HeaderRole.value (some h) m e = (
  changed ∷ data_changed i (HeaderRole.value ∷ []) ∷ [],
  refl,
  see-set read_header m.headers i (HeaderRole.value ∷ []) _ h e refl,
)
entered_lem i t HeaderRole.other (some h) m e = ([], refl, refl)
entered_lem i t r none m e = ([], refl, refl)

-- Whatever edit is made of a HeadersModel, also at an index out of range: a view that showed its
-- headers and follows the signals of the edit shows its headers again.
pub edit_headers-IsShown :
    (e : HeaderEdit)
    → (m : HeadersModel)
    → IsShown read_header m.headers m.notices (edit_headers e m).headers (edit_headers e m).notices
unfolding edit_headers add_header clear append remove_header remove update_value set_data see_all
    see
edit_headers-IsShown added m =
    (changed ∷ rows_inserted _ _ ∷ [], refl, see-append read_header m.headers _)
edit_headers-IsShown cleared m = (changed ∷ model_reset ∷ [], refl, refl)
edit_headers-IsShown (appended n v) m =
    (changed ∷ rows_inserted _ _ ∷ [], refl, see-append read_header m.headers _)
edit_headers-IsShown (removed i) m = removed_lem i _ m
edit_headers-IsShown (dropped i) m = removed_lem i _ m
edit_headers-IsShown (updated i n v) m = updated_lem i n v _ m refl
edit_headers-IsShown (entered none t r) m = ([], refl, refl)
edit_headers-IsShown (entered (some i) t r) m = entered_lem i t r _ m refl
