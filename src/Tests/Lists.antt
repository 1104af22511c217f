-- ===== src/Tests/Lists.antt =====
-- src/models/headers_model.cpp, query_model.cpp and body_model.cpp at concrete values.
use flowdriver.Base.{Text, codes, [], ◌∷◌, some, ◌≡◌, refl}
use flowdriver.Models.Headers.{HeadersModel, HeaderRole}
use flowdriver.Models.Query.{QueryModel, query_items}
use flowdriver.Models.Body.{BodyModel, Parsed, indented}
use flowdriver.Models.Shown.{
  IsShown, HeaderEdit, entered, edit_headers, read_header, edit_headers-IsShown,
}

abbrev two_headers : HeadersModel
two_headers = record {
  headers =
      record { name = codes "Accept"; value = codes "*/*" } ∷ record { name = []; value = [] } ∷ [];
  notices = [];
}

abbrev enter : HeaderEdit
enter = entered (some 1) (codes "Host") HeaderRole.name

edit_headers-IsShown_example :
    IsShown read_header two_headers.headers two_headers.notices
      (edit_headers enter two_headers).headers
      (edit_headers enter two_headers).notices
edit_headers-IsShown_example = edit_headers-IsShown enter two_headers

abbrev one_item : QueryModel
one_item = record {
  queries =
      record { key = codes "q"; value = codes "x" } ∷ record { key = []; value = codes "y" } ∷ [];
  notices = [];
}

-- An item with no key is left out.
built : query_items one_item.queries ≡ record { key = codes "q"; value = codes "x" } ∷ []
unfolding query_items
built = refl

-- Every text is the JSON text `{}`.
abbrev braces : Text → Parsed
braces t = indented (codes "{}")

abbrev padded : BodyModel
padded = record { content = codes "{ }"; content_type = []; signals = [] }
