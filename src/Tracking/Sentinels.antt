-- ===== src/Tracking/Sentinels.antt =====
-- internal/tracking/identity.go: pseudonyms and the sentinel of nobody.
use kannon.Base.{
  ℕ, suc, ◌+◌, ◌/◌, ◌%◌, ◌≡◌, refl, sym, ap, ◌∙◌, true, false, some, List, [], ◌∷◌, ◌++◌, map, Text,
  ◌==◌, nat_eq, list_eq, list_beq, list_beq_iff, length, length-append, equals_self, arith, inl,
  inr, Bool-cases,
}
use kannon.Values.{lower_rune}
use kannon.Tracking.Identity.{
  reserved_namespace, anonymous_identity, hex_digit, hex, pseudonym_of, cut, cut_after, equal_fold,
  in_reserved_namespace, names_nobody, is_pseudonym,
}

hex_digit-at : (n : ℕ) → (hex_digit n == b'@') ≡ false
unfolding hex_digit
hex_digit-at n = ground arith

length-hex : (raw : List ℕ) → length (hex raw) ≡ length raw + length raw
unfolding hex
length-hex [] = omega arith
length-hex (b ∷ raw) = omega (arith, length-hex raw)

length-map : (f : ℕ → ℕ) (s : Text) → length (map f s) ≡ length s
length-map f [] = refl
length-map f (r ∷ s) = ap suc (length-map f s)

cut-hex : (raw : List ℕ) (host : Text) → cut b'@' (hex raw ++ b'@' ∷ host) ≡ some (hex raw, host)
unfolding cut cut_after hex
cut-hex [] host = refl
cut-hex (b ∷ raw) host =
    rw (hex_digit-at (b / 16)) (rw (hex_digit-at (b % 16)) (rw (cut-hex raw host) refl))

hex-empty : (raw : List ℕ) → length raw ≡ 16 → (hex raw == []) ≡ false
unfolding hex list_beq
hex-empty [] h = absurd (omega (arith, h))
hex-empty (b ∷ raw) h = refl

-- Texts of different lengths do not fold to the same.
equal_fold-length :
    (fold : ℕ → ℕ) (s t : Text) → (length s ≡ length t → ⊥) → equal_fold fold s t ≡ false
unfolding equal_fold
equal_fold-length fold s t h = elim (Bool-cases (equal_fold fold s t)) [
  | inr e ↦ e
  | inl e ↦ absurd (
      h (
        sym (length-map (lower_rune fold) s)
        ∙ ap length ((list_beq_iff (map (lower_rune fold) s) (map (lower_rune fold) t)).0 e)
        ∙ length-map (lower_rune fold) t))
]

module _ (fold : ℕ → ℕ) (raw : List ℕ) (domain : Text) (drawn : length raw ≡ 16) where
  pseudonym-reserved : in_reserved_namespace fold (pseudonym_of raw domain) domain ≡ true
  unfolding in_reserved_namespace pseudonym_of equal_fold
  pseudonym-reserved =
      rw (cut-hex raw (reserved_namespace domain), in_reserved_namespace)
        (rw (hex-empty raw drawn) (equals_self (map (lower_rune fold) (reserved_namespace domain))))

  length-pseudonym_of : length (pseudonym_of raw domain) ≡ 33 + length (reserved_namespace domain)
  unfolding pseudonym_of
  length-pseudonym_of =
      omega
        (arith, length-append (hex raw) (b'@' ∷ reserved_namespace domain), length-hex raw, drawn)

  pseudonym-anonymous :
      equal_fold fold (pseudonym_of raw domain) (anonymous_identity domain) ≡ false
  unfolding anonymous_identity
  pseudonym-anonymous =
      equal_fold-length fold (pseudonym_of raw domain) (anonymous_identity domain)
        (λ e. omega (arith, length-pseudonym_of, e))

  pseudonym-empty : (pseudonym_of raw domain == []) ≡ false
  pseudonym-empty = empty (pseudonym_of raw domain) length-pseudonym_of
    where
      empty : (s : Text) → length s ≡ 33 + length (reserved_namespace domain) → (s == []) ≡ false
      empty [] e = absurd (omega (arith, e))
      empty (r ∷ s) e = unfold list_beq in refl

  -- The address that `NewPseudonym` makes of 16 bytes, whichever they are, may be minted as a
  -- pseudonym of its Domain.
  pub is_pseudonym-pseudonym_of : is_pseudonym fold (pseudonym_of raw domain) domain ≡ true
  unfolding is_pseudonym names_nobody
  is_pseudonym-pseudonym_of =
      rw pseudonym-reserved (rw pseudonym-empty (rw pseudonym-anonymous refl))
