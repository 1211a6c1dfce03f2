-- ===== src/Tracking/Identity.antt =====
-- internal/tracking/identity.go: the identity that a tracking token carries.
use kannon.Base.{
  ℕ, ◌+◌, ◌-◌, ◌/◌, ◌%◌, Bool, false, not, ◌&&◌, ◌||◌, Option, none, some, List, [], ◌∷◌, ◌++◌, map,
  Text, text, ltb, ◌==◌, nat_eq, list_eq, if◌then◌else◌,
}
use kannon.Values.{lower_rune}

-- `ReservedNamespace`
unfoldable pub reserved_namespace : Text → Text
reserved_namespace domain = text "track" ++ (text "." ++ domain)

-- `AnonymousIdentity`
unfoldable pub anonymous_identity : Text → Text
anonymous_identity domain = text "anonymous" ++ (text "@" ++ reserved_namespace domain)

unfoldable pub hex_digit : ℕ → ℕ
hex_digit n = if ltb n 10 then b'0' + n else b'a' + (n - 10)

-- `hex.EncodeToString`
unfoldable pub hex : List ℕ → Text
hex [] = []
hex (b ∷ raw) = hex_digit (b / 16) ∷ hex_digit (b % 16) ∷ hex raw

-- the address of a pseudonym, from the bytes that are drawn
unfoldable pub pseudonym_of : List ℕ → Text → Text
pseudonym_of raw domain = hex raw ++ (text "@" ++ reserved_namespace domain)

-- `NewPseudonym`, where `none` is the error of the random source
unfoldable pub new_pseudonym : Option (List ℕ) → Text → Option Text
new_pseudonym none domain = none
new_pseudonym (some raw) domain = some (pseudonym_of raw domain)

unfoldable pub cut_after : ℕ → Option (Text × Text) → Option (Text × Text)
cut_after r none = none
cut_after r (some (before, after)) = some (r ∷ before, after)

-- `strings.Cut` by one rune
unfoldable pub cut : ℕ → Text → Option (Text × Text)
cut c [] = none
cut c (r ∷ s) = let rest = cut c s in if r == c then some ([], s) else cut_after r rest

-- `strings.EqualFold`: the fold of the runes past ASCII is a parameter.
unfoldable pub equal_fold : (ℕ → ℕ) → Text → Text → Bool
equal_fold fold s t = map (lower_rune fold) s == map (lower_rune fold) t

-- `InReservedNamespace`
unfoldable pub in_reserved_namespace : (ℕ → ℕ) → Text → Text → Bool
in_reserved_namespace fold identity domain = elim (cut b'@' identity) [
  | none ↦ false
  | some (local, host) ↦ not (local == []) && equal_fold fold host (reserved_namespace domain)
]

-- `NamesNobody`
unfoldable pub names_nobody : (ℕ → ℕ) → Text → Text → Bool
names_nobody fold identity domain =
    identity == [] || equal_fold fold identity (anonymous_identity domain)

-- `IsPseudonym`
unfoldable pub is_pseudonym : (ℕ → ℕ) → Text → Text → Bool
is_pseudonym fold identity domain =
    in_reserved_namespace fold identity domain && not (names_nobody fold identity domain)
