-- ===== src/Base/Strings.antt =====
-- Go strings. A Go string is a run of bytes; the model has its UTF-8 runes, and a byte `b` that is
-- no part of one is the number `0x110000 + b`, past the last rune. So equal strings are equal lists.
use Prim.Native.Nat.{ℕ, ◌+◌}
use Prim.Native.Char.{code}
use Prim.Native.String.{String}
use mathlib.Core.Bool.{Bool, true, false, ◌&&◌, ◌||◌}
use mathlib.Core.List.{List, [], ◌∷◌, ◌++◌, reverse}
use kannon.Base.Tests.{ltb, leb, ◌==◌, nat_eq, list_eq, if◌then◌else◌}

abbrev pub Text : Type 0
Text = List ℕ

-- A literal of the source.
abbrev pub text : String → Text
text String.[] = []
text (String.◌∷◌ c s) = code c ∷ text s

-- How many bytes UTF-8 takes for a rune; a stray byte is one.
unfoldable pub rune_len : ℕ → ℕ
rune_len r =
    if ltb r 0x80
    then 1
    else if ltb r 0x800
    then 2
    else if ltb r 0x10000
    then 3
    else if ltb r 0x110000
    then 4
    else 1

-- `len(s)`: bytes, not runes
unfoldable pub byte_len : Text → ℕ
unfolding rune_len
byte_len [] = 0
byte_len (r ∷ s) = rune_len r + byte_len s

-- `strings.HasPrefix`
unfoldable pub has_prefix : Text → Text → Bool
has_prefix s [] = true
has_prefix [] (q ∷ p) = false
has_prefix (r ∷ s) (q ∷ p) = r == q && has_prefix s p

-- `strings.Contains`
unfoldable pub contains_text : Text → Text → Bool
unfolding has_prefix
contains_text [] p = has_prefix [] p
contains_text (r ∷ s) p = has_prefix (r ∷ s) p || contains_text s p

-- `strings.HasSuffix`
unfoldable pub has_suffix : Text → Text → Bool
has_suffix [] p = p == []
has_suffix (r ∷ s) p = (r ∷ s) == p || has_suffix s p

-- `unicode.IsSpace`: the White_Space property
unfoldable pub is_space : ℕ → Bool
is_space r =
    leb 0x09 r && leb r 0x0d
    || r == 0x20
    || r == 0x85
    || r == 0xa0
    || r == 0x1680
    || leb 0x2000 r && leb r 0x200a
    || r == 0x2028
    || r == 0x2029
    || r == 0x202f
    || r == 0x205f
    || r == 0x3000

unfoldable pub trim_left : Text → Text
trim_left [] = []
trim_left (r ∷ s) = if is_space r then trim_left s else r ∷ s

-- `strings.TrimSpace`
unfoldable pub trim_space : Text → Text
trim_space s = reverse (trim_left (reverse (trim_left s)))

-- `utf8.ValidString`
unfoldable pub valid_string : Text → Bool
valid_string [] = true
valid_string (r ∷ s) = ltb r 0x110000 && valid_string s

-- `unicode.IsControl`: the category Cc
unfoldable pub is_control : ℕ → Bool
is_control r = leb r 0x1f || leb 0x7f r && leb r 0x9f

-- `strings.Join`
unfoldable pub join : Text → List Text → Text
join sep [] = []
join sep (p ∷ []) = p
join sep (p ∷ q ∷ ps) = p ++ (sep ++ join sep (q ∷ ps))
