-- ===== src/Authz/Principal.antt =====
-- internal/authz/principal.go and attribution.go: who is asking, and a claim about who asked them.
use kannon.Base.{
  ℕ, not, List, [], ◌∷◌, ◌++◌, map, Option, none, some, Text, text, byte_len, trim_space,
  valid_string, is_control, join, ltb, ◌==◌, nat_eq, list_eq, if◌then◌else◌,
}
use kannon.Authz.Grant
use kannon.Authz.Grant.{Grant}

-- a Go string type; the empty one is no claim
abbrev pub Attribution : Type 0
Attribution = Text

abbrev pub max_attribution_length : ℕ
max_attribution_length = 256

pub data AttributionError : Type 0 where
  names_nobody invalid_encoding : AttributionError
  over_limit : ℕ → AttributionError
  control_character : ℕ → AttributionError

pub data AttributionResult : Type 0 where
  ok : Attribution → AttributionResult
  err : AttributionError → AttributionResult

-- the loop over the runes of a claim
unfoldable pub check_control : Attribution → Text → AttributionResult
check_control claim [] = ok claim
check_control claim (r ∷ rest) =
    if is_control r then err (control_character r) else check_control claim rest

-- the tests of `ParseAttribution` on the trimmed claim
unfoldable pub check_claim : Text → AttributionResult
unfolding check_control
check_claim claim =
    if claim == []
    then err names_nobody
    else if ltb max_attribution_length (byte_len claim)
    then err (over_limit (byte_len claim))
    else if not (valid_string claim)
    then err invalid_encoding
    else check_control claim claim

unfoldable pub parse_attribution : Text → AttributionResult
unfolding check_claim
parse_attribution s = check_claim (trim_space s)

pub record Principal : Type 0 where
  pub id : Text
  pub grants : List Grant
  pub attribution : Attribution

-- the zero value
abbrev pub zero_principal : Principal
zero_principal = record { id = []; grants = []; attribution = [] }

-- `none` is the error: the identifier is blank
unfoldable pub new_principal : Text → List Grant → Option Principal
new_principal id grants =
    if trim_space id == []
    then none
    else some (record { id = id; grants = grants; attribution = [] })

unfoldable pub with_attribution : Principal → Attribution → Principal
with_attribution p a = record p { attribution = a }

-- `String`, for display
unfoldable pub string : Principal → Text
unfolding Grant.string
string p =
    let claim = if p.attribution == [] then [] else text " claiming " ++ p.attribution in
    p.id ++ (text " [" ++ (join (text ", ") (map Grant.string p.grants) ++ (text "]" ++ claim)))
