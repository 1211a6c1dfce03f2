-- ===== src/Placeholders.antt =====
-- internal/utils/template.go: the fields that a text is rendered with.
use kannon.Base.{Bool, Option, none, some, List, [], ◌∷◌, ◌++◌, Text, text, nat_eq, list_eq, put}

-- What regexp and net/url answer: a pattern, if it compiles, as the replacement of its matches in a
-- text by a template; the pattern of a placeholder that is left; the escaping of a query component.
pub record Patterns : Type 0 where
  pub compile : Text → Option (Text → Text → Text)
  pub holds_placeholder : Text → Bool
  pub query_escape : Text → Text

abbrev pub Fields : Type 0
Fields = List (Text × Text)

-- the pattern of one field's placeholder
abbrev pub placeholder : Text → Text
placeholder key = text "\\{\\{ *" ++ (key ++ text " *\\}\\}")

-- `replaceCustomFields`, over the fields in the order in which the map gives them
unfoldable pub replace_with : Patterns → (Text → Text) → Fields → Text → Text
replace_with o escape [] str = str
replace_with o escape ((key, value) ∷ fields) str =
    replace_with o escape fields (elim (o.compile (placeholder key)) [
      | none ↦ str
      | some replace ↦ replace str (escape value)
    ])

-- `ReplaceCustomFields`
unfoldable pub replace_custom_fields : Patterns → Text → Fields → Text
replace_custom_fields o str fields = replace_with o (λ v. v) fields str

-- `ReplaceCustomFieldsInURL`
unfoldable pub replace_custom_fields_in_url : Patterns → Text → Fields → Text
replace_custom_fields_in_url o str fields = replace_with o o.query_escape fields str

unfoldable pub put_all : Fields → Fields → Fields
put_all [] m = m
put_all ((k, v) ∷ fields) m = put_all fields (put k v m)

-- `EffectiveFields`
unfoldable pub effective_fields : Text → Fields → Fields
effective_fields email fields = put_all fields ((text "email", email) ∷ [])
