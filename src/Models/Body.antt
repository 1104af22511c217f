-- ===== src/Models/Body.antt =====
-- src/models/body_model.cpp and its header. Qt's parser and printer of JSON are a parameter.
use flowdriver.Base.{
  Text, codes, List, [], ◌∷◌, ◌++◌, ◌==◌, is_empty, if◌then◌else◌, ◌≡◌, arith, eq_refl, eq_iff,
  false,
}

pub data BodySignal : Type 0 where
  content_changed content_type_changed : BodySignal
  error_occurred : Text → BodySignal

-- `signals` are those emitted so far, the latest first.
pub record BodyModel : Type 0 where
  pub content : Text
  pub content_type : Text
  pub signals : List BodySignal

-- The constructor; it leaves no default of the header.
abbrev pub init : BodyModel
init = record { content = []; content_type = []; signals = [] }

-- QJsonDocument: the indented text, or the text of the error.
pub data Parsed : Type 0 where
  indented invalid : Text → Parsed

unfoldable pub set_content : Text → BodyModel → BodyModel
set_content t m =
    if m.content == t then m else record m { content = t; signals = content_changed ∷ m.signals }

unfoldable pub set_content_type : Text → BodyModel → BodyModel
set_content_type t m =
    if m.content_type == t
    then m
    else record m { content_type = t; signals = content_type_changed ∷ m.signals }

unfoldable pub clear : BodyModel → BodyModel
clear m = set_content_type [] (set_content [] m)

abbrev formatted : Parsed → BodyModel → BodyModel
formatted (indented t) m = set_content t m
formatted (invalid e) m = record m {
  signals = error_occurred (codes "Invalid JSON: " ++ e) ∷ m.signals;
}

unfoldable pub format_json : (Text → Parsed) → BodyModel → BodyModel
format_json json m = if is_empty m.content then m else formatted (json m.content) m

-- Formatting valid JSON, where the indented text is indented to itself, a second time changes
-- nothing and emits nothing; the content is the indented text, and the content type stays.
pub format_json_twice :
    (json : Text → Parsed)
    → (m : BodyModel) → (t : Text) → (is_empty m.content ≡ false)
    → json m.content ≡ indented t
    → json t ≡ indented t
    → (format_json json (format_json json m) ≡ format_json json m)
      × ((format_json json m).content ≡ t)
      × ((format_json json m).content_type ≡ m.content_type)
unfolding format_json set_content
format_json_twice json m t n e f = ground (arith, eq_refl t, (eq_iff m.content t).0)
