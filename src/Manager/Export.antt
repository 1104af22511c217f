-- ===== src/Manager/Export.antt =====
-- src/models/request_manager.cpp: saveResponseToFile. The file system, nlohmann::json and the
-- decimals of Qt are parameters.
use flowdriver.Base.{
  ℕ, Text, codes, List, [], ◌∷◌, ◌++◌, map, Option, none, some, Bool, true, false, ◌==◌,
  if◌then◌else◌,
}
use flowdriver.Types.{Header}
use flowdriver.Manager.Defs.{Manager, Response, emit, complain, export_completed}

-- What the code uses of nlohmann::json: `parse` and `dump` may throw, `elements` are what a loop
-- over a value visits, and `items` what one over its items() does.
pub record Json (J : Type 0) : Type 0 where
  pub parse : Text → Option J
  pub dump : J → Option Text
  pub is_array : J → Bool
  pub is_object : J → Bool
  pub elements : J → List J
  pub items : J → List (Text × J)

-- What was written to a stream, up to an exception or without one.
pub data Written : Type 0 where
  complete cut : Text → Written

abbrev pub text_of : Written → Text
text_of (complete t) = t
text_of (cut t) = t

-- `out << t`, and then the rest.
abbrev pub write : Text → Written → Written
write t (complete u) = complete (t ++ u)
write t (cut u) = cut (t ++ u)

-- One part, and then the next.
abbrev pub then_write : Written → Written → Written
then_write (complete t) w = write t w
then_write (cut t) w = cut t

abbrev pub separator : Bool → Text
separator first = if first then [] else codes ","

-- The cells of a row; `none` is one that cannot be printed.
unfoldable pub write_cells : Bool → List (Option Text) → Written
write_cells first [] = complete []
write_cells first (none ∷ cells) = cut (separator first)
write_cells first (some t ∷ cells) = write (separator first) (write t (write_cells false cells))

-- `format == …`
pub data Format : Type 0 where
  json csv html pdf other : Format

unfoldable pub format_of : Text → Format
format_of f =
    if f == codes "JSON"
    then json
    else if f == codes "CSV"
    then csv
    else if f == codes "HTML"
    then html
    else if f == codes "PDF"
    then pdf
    else other

abbrev pub headers_of : Option (List Header) → List Header
headers_of none = []
headers_of (some hs) = hs

unfoldable pub list_items : List Header → Text
list_items [] = []
list_items (h ∷ hs) =
    codes "<li><strong>"
    ++ h.name
    ++ codes ":</strong> "
    ++ h.value
    ++ codes "</li>\n"
    ++ list_items hs

module _ {J : Type 0} (lib : Json J) where
  abbrev pub values : J → List (Option Text)
  values item = map (λ i. lib.dump i.1) (lib.items item)

  unfoldable pub write_rows : List J → Written
  write_rows [] = complete []
  write_rows (item ∷ items) =
      then_write (write_cells true (values item)) (write (codes "\n") (write_rows items))

  abbrev pub write_table : List J → Written
  write_table [] = complete []
  write_table (item ∷ items) =
      if lib.is_object item
      then then_write (write_cells true (map (λ i. some i.0) (lib.items item)))
          (write (codes "\n") (write_rows (item ∷ items)))
      else complete []

  abbrev pub write_parsed : Option J → Written
  write_parsed none = cut []
  write_parsed (some j) = if lib.is_array j then write_table (lib.elements j) else complete []

  unfoldable pub write_csv : Text → Written
  write_csv body = write_parsed (lib.parse body)

-- The page, with the response as it is.
unfoldable pub write_html : (ℕ → Text) → Response → Text
write_html decimal r =
    codes "<!DOCTYPE html>\n<html>\n<head>\n"
    ++ codes "<title>FlowDriver Response</title>\n"
    ++ codes
        "<style>body{font-family:sans-serif;margin:20px}pre{background:#f5f5f5;padding:10px;border-radius:5px}</style>\n"
    ++ codes "</head>\n<body>\n"
    ++ codes "<h1>Response</h1>\n"
    ++ codes "<h2>Status: "
    ++ decimal r.status_code
    ++ codes "</h2>\n"
    ++ codes "<h3>Headers:</h3>\n<ul>\n"
    ++ list_items (headers_of r.headers)
    ++ codes "</ul>\n<h3>Body:</h3>\n"
    ++ codes "<pre>"
    ++ r.body
    ++ codes "</pre>\n"
    ++ codes "</body>\n</html>"

-- The file's text, if it was opened, and the manager.
pub record Saved : Type 0 where
  pub file : Option Text
  pub manager : Manager

abbrev pub finished : Text → Manager → Saved
finished t m = record { file = some t; manager = emit export_completed m }

abbrev pub csv_written : Written → Manager → Saved
csv_written (complete t) m = finished t m
csv_written (cut t) m = finished t (complain (codes "Failed to parse JSON for CSV export") m)

module _ {J : Type 0} (lib : Json J) (decimal : ℕ → Text) where
  abbrev pub save_as : Format → Response → Manager → Saved
  save_as json r m = finished r.body m
  save_as csv r m = csv_written (write_csv lib r.body) m
  save_as html r m = finished (write_html decimal r) m
  save_as pdf r m = finished [] (complain (codes "PDF export not implemented yet") m)
  save_as other r m = finished [] m

  -- `opens`: the file can be opened for writing.
  unfoldable pub save_response_to_file : Bool → Text → Response → Manager → Saved
  save_response_to_file opens format r m =
      if opens
      then save_as (format_of format) r m
      else record { file = none; manager = complain (codes "Failed to open file for writing") m }
