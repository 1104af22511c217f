-- ===== src/Manager/Saving.antt =====
-- src/models/request_manager.cpp: the file of a response saved as CSV, and how a save ends.
use flowdriver.Base.{
  ◌≡◌, refl, ap, ◌∙◌, ℕ, Text, codes, List, [], ◌∷◌, ◌++◌, map, append_assoc, append-nil, some,
  Bool, true, false, nat_eq, ◌==◌, if◌then◌else◌, All, Lacks, arith,
}
use flowdriver.Manager.Defs.{Manager, Response, emit, export_completed}
use flowdriver.Manager.Export.{
  Json, Written, complete, separator, write_cells, write_rows, write_csv, format_of, Saved,
  finished, csv_written, save_response_to_file,
}

-- A character in front of the first cell of the first row.
abbrev in_cell : ℕ → List (List Text) → List (List Text)
in_cell c ((cell ∷ cells) ∷ rows) = ((c ∷ cell) ∷ cells) ∷ rows
in_cell c _ = ((c ∷ []) ∷ []) ∷ []

-- A new first cell of the first row.
abbrev cons_cell : Text → List (List Text) → List (List Text)
cons_cell t [] = (t ∷ []) ∷ []
cons_cell t (cells ∷ rows) = (t ∷ cells) ∷ rows

-- The rows of a text: their cells end at commas, and they at newlines.
unfoldable pub read_rows : Text → List (List Text)
read_rows [] = []
read_rows (c ∷ s) =
    if nat_eq c 10
    then ([] ∷ []) ∷ read_rows s
    else if nat_eq c 44
    then cons_cell [] (read_rows s)
    else in_cell c (read_rows s)

-- A text without commas and newlines.
abbrev pub IsCell : Text → Type 0
IsCell t = Lacks 44 t × Lacks 10 t

read_last : (t s : Text) → IsCell t → read_rows (t ++ 10 ∷ s) ≡ (t ∷ []) ∷ read_rows s
unfolding read_rows
read_last [] s h = refl
read_last (c ∷ t) s h = ground (arith, read_last t s (h.0.1, h.1.1))

read_cell : (t s : Text) → IsCell t → read_rows (t ++ 44 ∷ s) ≡ cons_cell t (read_rows s)
unfolding read_rows
read_cell [] s h = refl
read_cell (c ∷ t) s h = ground (arith, read_cell t s (h.0.1, h.1.1))

-- The text of a row.
abbrev joined : Bool → List Text → Text
joined first [] = []
joined first (t ∷ ts) = separator first ++ (t ++ joined false ts)

write_cells_lem :
    (first : Bool) → (ts : List Text) → write_cells first (map some ts) ≡ complete (joined first ts)
unfolding write_cells
write_cells_lem first [] = refl
write_cells_lem first (t ∷ ts) = rw (write_cells_lem false ts) refl

-- A row with a cell, and none with a comma or a newline.
unfoldable pub IsRow : List Text → Type 0
IsRow [] = ⊥
IsRow (t ∷ ts) = All IsCell (t ∷ ts)

read_joined :
    (t : Text)
    → (ts : List Text) → (s : Text) → All IsCell (t ∷ ts)
    → read_rows ((t ++ joined false ts) ++ 10 ∷ s) ≡ (t ∷ ts) ∷ read_rows s
read_joined t [] s h = ap (λ u. read_rows (u ++ 10 ∷ s)) (append-nil t) ∙ read_last t s h.0
read_joined t (u ∷ us) s h =
    ap read_rows (append_assoc t (44 ∷ (u ++ joined false us)) (10 ∷ s))
    ∙ (read_cell t ((u ++ joined false us) ++ 10 ∷ s) h.0
        ∙ ap (cons_cell t) (read_joined u us s h.1))

-- The text of a table.
abbrev lines_of : List (List Text) → Text
lines_of [] = []
lines_of (row ∷ rows) = joined true row ++ 10 ∷ lines_of rows

read_rows-lines_of : (rows : List (List Text)) → All IsRow rows → read_rows (lines_of rows) ≡ rows
unfolding read_rows IsRow
read_rows-lines_of [] h = refl
read_rows-lines_of ([] ∷ rows) h = absurd h.0
read_rows-lines_of ((t ∷ ts) ∷ rows) h =
    read_joined t ts (lines_of rows) h.0 ∙ ap (◌∷◌ (t ∷ ts)) (read_rows-lines_of rows h.1)

module _ {J : Type 0} (lib : Json J) (shown : J → Text)
    (prints : (v : J) → lib.dump v ≡ some (shown v)) where
  abbrev pub keys_of : J → List Text
  keys_of item = map (λ i. i.0) (lib.items item)

  abbrev pub cells_of : J → List Text
  cells_of item = map (λ i. shown i.1) (lib.items item)

  keys_lem : (is : List (Text × J)) → map (λ i. some i.0) is ≡ map some (map (λ i. i.0) is)
  keys_lem [] = refl
  keys_lem (i ∷ is) = ap (◌∷◌ (some i.0)) (keys_lem is)

  values_lem :
      (is : List (Text × J)) → map (λ i. lib.dump i.1) is ≡ map some (map (λ i. shown i.1) is)
  values_lem [] = refl
  values_lem (i ∷ is) = rw (prints i.1, values_lem is) refl

  write_rows_lem :
      (items : List J) → write_rows lib items ≡ complete (lines_of (map cells_of items))
  unfolding write_rows
  write_rows_lem [] = refl
  write_rows_lem (item ∷ items) =
      rw (values_lem (lib.items item), write_cells_lem true (cells_of item), write_rows_lem items)
        refl

  -- The rows of the table of an array: the keys of the first object, and the values of each item.
  abbrev pub table_of : J → List J → List (List Text)
  table_of item items = keys_of item ∷ map cells_of (item ∷ items)

  write_csv_lem :
      (body : Text)
      → (j item : J) → (items : List J) → lib.parse body ≡ some j
      → lib.is_array j ≡ true
      → lib.elements j ≡ item ∷ items
      → lib.is_object item ≡ true
      → write_csv lib body ≡ complete (lines_of (table_of item items))
  unfolding write_csv
  write_csv_lem body j item items p a e o =
      rw
        (
          p,
          a,
          e,
          o,
          keys_lem (lib.items item),
          write_cells_lem true (keys_of item),
          write_rows_lem (item ∷ items),
        )
        refl

  csv_written_lem :
      (w : Written) → (t : Text) → (m : Manager) → w ≡ complete t → csv_written w m ≡ finished t m
  csv_written_lem w t m e = rw e refl

  -- A response whose body is an array of an object first, saved as CSV to a file that can be
  -- opened, where the library prints every value: the file is read back as the keys of the first
  -- object and the values of every item, a row each, when every such row has a cell and no key and
  -- no printed value has a comma or a newline. The manager tells that the export is complete, and
  -- nothing else.
  pub save_response_to_file-read_rows :
      (decimal : ℕ → Text)
      → (r : Response) → (m : Manager) → (j item : J) → (items : List J) → lib.parse r.body ≡ some j
      → lib.is_array j ≡ true
      → lib.elements j ≡ item ∷ items
      → lib.is_object item ≡ true
      → All IsRow (table_of item items)
      → ((save_response_to_file lib decimal true (codes "CSV") r m).manager
          ≡ emit export_completed m)
        × ((t : Text) × ((save_response_to_file lib decimal true (codes "CSV") r m).file ≡ some t)
            × (read_rows t ≡ table_of item items))
  unfolding save_response_to_file format_of ◌==◌
  save_response_to_file-read_rows decimal r m j item items p a e o h =
      let w = csv_written_lem _ _ m (write_csv_lem r.body j item items p a e o) in
      (
        ap (λ (s : Saved). s.manager) w,
        (
          lines_of (table_of item items),
          ap (λ (s : Saved). s.file) w,
          read_rows-lines_of (table_of item items) h,
        ),
      )
