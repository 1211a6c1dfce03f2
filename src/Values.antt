-- ===== src/Values.antt =====
-- internal/values/domain_name.go: domain names in canonical form.
pub mod Canonical
use kannon.Base.{
  ℕ, ◌+◌, ◌≡◌, Bool, true, false, not, ◌&&◌, ◌||◌, List, [], ◌∷◌, map, Text, text, byte_len,
  has_prefix, has_suffix, contains_text, trim_space, ltb, leb, ◌==◌, nat_eq, list_eq, any,
  if◌then◌else◌,
}

-- The field is private in the source: only `parse` and the zero value build one.
pub record DomainName : Type 0 where
  pub s : Text

pub data ParseError : Type 0 where
  required too_long edge_dot empty_label no_dot : ParseError
  disallowed : ℕ → ParseError

pub data ParseResult : Type 0 where
  ok : DomainName → ParseResult
  err : ParseError → ParseResult

abbrev pub max_length : ℕ
max_length = 254

-- `unicode.ToLower`; the table of the runes past ASCII is a parameter.
unfoldable pub lower_rune : (ℕ → ℕ) → ℕ → ℕ
lower_rune other r = if leb b'A' r && leb r b'Z' then r + 32 else if ltb r 0x80 then r else other r

-- `strings.ToLower`
unfoldable pub to_lower : (ℕ → ℕ) → Text → Text
unfolding lower_rune
to_lower other = map (lower_rune other)

unfoldable pub is_allowed : ℕ → Bool
is_allowed r =
    if leb b'a' r && leb r b'z'
    then true
    else if leb b'0' r && leb r b'9'
    then true
    else if r == b'-' || r == b'.' || r == b'_'
    then true
    else false

-- the loop over the runes of `Parse`, which reports the first that is not allowed
unfoldable pub check_runes : Text → Text → ParseResult
check_runes whole [] = ok (record { s = whole })
check_runes whole (r ∷ rest) =
    if not (is_allowed r) then err (disallowed r) else check_runes whole rest

-- the tests of `Parse` on the lower-cased text
unfoldable pub validate : Text → ParseResult
validate s =
    if s == []
    then err required
    else if ltb max_length (byte_len s)
    then err too_long
    else if has_prefix s (text ".") || has_suffix s (text ".")
    then err edge_dot
    else if contains_text s (text "..")
    then err empty_label
    else if not (contains_text s (text "."))
    then err no_dot
    else check_runes s s

unfoldable pub parse : (ℕ → ℕ) → Text → ParseResult
parse other s = validate (to_lower other (trim_space s))

-- `String`
unfoldable pub string : DomainName → Text
string n = n.s

unfoldable pub is_zero : DomainName → Bool
is_zero n = n.s == []
