-- ===== src/Tests/Exports.antt =====
-- src/models/request_manager.cpp: responses saved to files, with a library of three kinds of values.
use flowdriver.Base.{
  ℕ, ◌+◌, Text, codes, List, [], ◌∷◌, map, some, Bool, true, false, ◌==◌, ◌≡◌, refl, ◌||◌, nat_eq,
  All, arith,
}
use flowdriver.Manager.Defs.{message, emit, complain, export_completed}
use flowdriver.Manager.Protocols.{init}
use flowdriver.Manager.Export.{
  Json, format_of, save_response_to_file, write_csv, write_rows, write_cells,
}
use flowdriver.Manager.Saving.{IsRow, IsCell, table_of, read_rows, save_response_to_file-read_rows}
use flowdriver.Tests.Managers.{world}

data Sample : Type 0 where
  digit : ℕ → Sample
  point : ℕ → ℕ → Sample
  points : List (ℕ × ℕ) → Sample

abbrev shown : Sample → Text
shown (digit n) = (48 + n) ∷ []
shown _ = codes "?"

abbrev elements : Sample → List Sample
elements (points ps) = map (λ p. point p.0 p.1) ps
elements _ = []

abbrev items : Sample → List (Text × Sample)
items (point a b) = (codes "x", digit a) ∷ (codes "y", digit b) ∷ []
items _ = []

abbrev is_points : Sample → Bool
is_points (points ps) = true
is_points _ = false

abbrev is_point : Sample → Bool
is_point (point a b) = true
is_point _ = false

abbrev two_points : Sample
two_points = points ((1, 2) ∷ (3, 4) ∷ [])

abbrev library : Json Sample
library = record {
  parse = λ t. some two_points;
  dump = λ v. some (shown v);
  is_array = is_points;
  is_object = is_point;
  elements = elements;
  items = items;
}

abbrev digits : ℕ → Text
digits n = (48 + n) ∷ []

saved_csv :
    (save_response_to_file library digits true (codes "CSV") (message []) (init world)).file
    ≡ some (codes "x,y\n1,2\n3,4\n")
unfolding save_response_to_file format_of ◌==◌ write_csv write_cells write_rows
saved_csv = refl

-- A file that is not written is told to be complete, behind the error.
saved_pdf :
    (save_response_to_file library digits true (codes "PDF") (message []) (init world)).manager
    ≡ emit export_completed (complain (codes "PDF export not implemented yet") (init world))
unfolding save_response_to_file format_of ◌==◌
saved_pdf = refl

two_cells :
    (a b : ℕ)
    → (nat_eq a 44 || nat_eq a 10 || (nat_eq b 44 || nat_eq b 10)) ≡ false
    → All IsCell ((a ∷ []) ∷ (b ∷ []) ∷ [])
two_cells a b h = ground arith

save_response_to_file-read_rows_example :
    ((save_response_to_file library digits true (codes "CSV") (message []) (init world)).manager
      ≡ emit export_completed (init world))
    × ((t : Text) × ((save_response_to_file library digits true
            (codes "CSV")
            (message [])
            (init world)).file
          ≡ some t)
        × (read_rows t ≡ table_of library shown (λ v. refl) (point 1 2) (point 3 4 ∷ [])))
unfolding IsRow
save_response_to_file-read_rows_example =
    save_response_to_file-read_rows library shown (λ v. refl) digits (message []) (init world)
      two_points (point 1 2) (point 3 4 ∷ []) refl refl refl refl
      (two_cells 120 121 refl, (two_cells 49 50 refl, (two_cells 51 52 refl, tt)))
