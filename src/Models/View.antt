-- ===== src/Models/View.antt =====
-- What Qt documents of a view on a QAbstractListModel: it keeps the rows as it read them last, and
-- reads anew what a signal names.
use flowdriver.Base.{
  ℕ, zero, suc, ◌-◌, List, [], ◌∷◌, ◌++◌, Option, none, some, ℤ, pos, negsuc, ◌≡◌, refl, ap, length,
  get_elem?, set, remove_at, take, drop, drop-length-append, arith,
}

-- The pairs of beginInsertRows and endInsertRows, of beginRemoveRows and endRemoveRows (the first
-- and the last row) and of beginResetModel and endResetModel; dataChanged of one row; and a signal
-- of the model's own, which views do not see.
pub data Notice (Role : Type 0) : Type 0 where
  rows_inserted rows_removed : ℕ → ℕ → Notice Role
  data_changed : ℕ → List Role → Notice Role
  model_reset changed : Notice Role

-- The row at an index that may be negative.
unfoldable pub row_at : {A : Type 0} → List A → ℤ → Option A
row_at rows (pos i) = get_elem? rows i
row_at rows (negsuc i) = none

module _ {Role Row : Type 0} (read : Role → Row → Row → Row) where
  -- The kept row, with the parts of some roles read from the row of the model.
  abbrev pub read_roles : List Role → Row → Row → Row
  read_roles [] row kept = kept
  read_roles (r ∷ rs) row kept = read_roles rs row (read r row kept)

  abbrev pub reread : List Role → ℕ → Option Row → Option Row → List Row → List Row
  reread rs i (some row) (some kept) rows = set rows i (read_roles rs row kept)
  reread rs i _ _ rows = rows

  -- What the view keeps after a signal, where the model has these rows.
  unfoldable pub see : List Row → Notice Role → List Row → List Row
  see rows (rows_inserted first last) kept =
      take first kept ++ (take (suc last - first) (drop first rows) ++ drop first kept)
  see rows (rows_removed first last) kept = take first kept ++ drop (suc last) kept
  see rows (data_changed i rs) kept = reread rs i (get_elem? rows i) (get_elem? kept i) kept
  see rows model_reset kept = rows
  see rows changed kept = kept

  -- After several, the latest first.
  unfoldable pub see_all : List Row → List (Notice Role) → List Row → List Row
  see_all rows [] kept = kept
  see_all rows (n ∷ ns) kept = see rows n (see_all rows ns kept)

take_all : {A : Type 0} → (xs : List A) → take (length xs) xs ≡ xs
take_all [] = refl
take_all (x ∷ xs) = ap (◌∷◌ x) (take_all xs)

drop_all : {A : Type 0} → (xs : List A) → drop (length xs) xs ≡ []
drop_all [] = refl
drop_all (x ∷ xs) = drop_all xs

take_drop_lem :
    {A : Type 0} → (xs : List A) → (i : ℕ) → take i xs ++ drop (suc i) xs ≡ remove_at xs i
take_drop_lem [] zero = refl
take_drop_lem [] (suc i) = refl
take_drop_lem (x ∷ xs) zero = refl
take_drop_lem (x ∷ xs) (suc i) = ap (◌∷◌ x) (take_drop_lem xs i)

one_row : (n : ℕ) → suc n - n ≡ 1
one_row n = omega arith

pub set_found :
    {A : Type 0}
    → (xs : List A) → (i : ℕ) → (x y : A) → get_elem? xs i ≡ some y
    → get_elem? (set xs i x) i ≡ some x
set_found [] i x y e = cc
set_found (z ∷ xs) zero x y e = refl
set_found (z ∷ xs) (suc i) x y e = set_found xs i x y e

module _ {Role Row : Type 0} (read : Role → Row → Row → Row) where
  -- The three changes that the models make are seen.
  pub see-append :
      (rows : List Row)
      → (x : Row)
      → see read (rows ++ x ∷ []) (rows_inserted (length rows) (length rows)) rows ≡ rows ++ x ∷ []
  unfolding see
  see-append rows x =
      rw (take_all rows, drop-length-append rows (x ∷ []), drop_all rows, one_row (length rows))
        refl

  pub see-remove_at :
      (rows : List Row)
      → (i : ℕ) → see read (remove_at rows i) (rows_removed i i) rows ≡ remove_at rows i
  unfolding see
  see-remove_at rows i = take_drop_lem rows i

  pub see-set :
      (rows : List Row)
      → (i : ℕ) → (rs : List Role) → (row old : Row) → get_elem? rows i ≡ some old
      → read_roles read rs row old ≡ row
      → see read (set rows i row) (data_changed i rs) rows ≡ set rows i row
  unfolding see
  see-set rows i rs row old e f = rw (set_found rows i row old e, e, f) refl
