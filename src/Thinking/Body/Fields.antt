-- ===== src/Thinking/Body/Fields.antt =====
-- What the code relies on of gjson and sjson, and what a series of edits leaves in the fields.
use aistudio_gemini_gateway.Base.{
  ◌≡◌, ◌∙◌, refl, true, false, Option, none, some, List, [], ◌∷◌, Text, text_eq, ◌==◌, is_empty,
  if◌then◌else◌, ℤ,
}
use aistudio_gemini_gateway.Thinking.Body.{Field, path, Json}

-- A body is editable if it is a JSON object in which the objects on the paths, where they are present,
-- are objects. On such bodies, setting and removing one field changes that field alone.
pub record JsonLaws {Value : Type 0} (json : Json Value) (Editable : Text → Type 0) : Type 0 where
  pub editable_valid : (b : Text) → Editable b → json.is_valid b ≡ true
  pub editable_given : (b : Text) → Editable b → is_empty b ≡ false
  pub set_editable :
      (b : Text) (f : Field) (v : Value) → Editable b → Editable (json.set b (path f) v)
  pub remove_editable : (b : Text) (f : Field) → Editable b → Editable (json.remove b (path f))
  pub get_set :
      (b : Text) (f g : Field) (v : Value)
      → Editable b
      → json.get (json.set b (path f) v) (path g)
        ≡ (if path f == path g then some v else json.get b (path g))
  pub get_remove :
      (b : Text) (f g : Field)
      → Editable b
      → json.get (json.remove b (path f)) (path g)
        ≡ (if path f == path g then none else json.get b (path g))
  pub string_back : (s : Text) → json.as_string (json.of_string s) ≡ s
  pub int_back : (n : ℤ) → json.as_int (json.of_int n) ≡ n

pub data Edit (Value : Type 0) : Type 0 where
  put : Field → Value → Edit Value
  drop_field : Field → Edit Value

module _ {Value : Type 0} (json : Json Value) where
  -- The edits, the last one first.
  abbrev pub edited : List (Edit Value) → Text → Text
  edited [] body = body
  edited (put f v ∷ edits) body = json.set (edited edits body) (path f) v
  edited (drop_field f ∷ edits) body = json.remove (edited edits body) (path f)

  -- What they make of a field.
  abbrev pub left_in : Field → List (Edit Value) → Option Value → Option Value
  left_in g [] before = before
  left_in g (put f v ∷ edits) before = if path f == path g then some v else left_in g edits before
  left_in g (drop_field f ∷ edits) before =
      if path f == path g then none else left_in g edits before

  module _ {Editable : Text → Type 0} (laws : JsonLaws json Editable) (body : Text)
      (editable : Editable body) where
    pub edited-Editable : (edits : List (Edit Value)) → Editable (edited edits body)
    edited-Editable [] = editable
    edited-Editable (put f v ∷ edits) = laws.set_editable _ f v (edited-Editable edits)
    edited-Editable (drop_field f ∷ edits) = laws.remove_editable _ f (edited-Editable edits)

    pub get-edited :
        (g : Field) (edits : List (Edit Value))
        → json.get (edited edits body) (path g) ≡ left_in g edits (json.get body (path g))
    get-edited g [] = refl
    get-edited g (put f v ∷ edits) =
        laws.get_set _ f g v (edited-Editable edits) ∙ rw (get-edited g edits) refl
    get-edited g (drop_field f ∷ edits) =
        laws.get_remove _ f g (edited-Editable edits) ∙ rw (get-edited g edits) refl
