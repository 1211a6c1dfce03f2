-- ===== src/Templates/Identity.antt =====
-- The identifiers of internal/templates/templates.go and the Domain that they carry.
use kannon.Base.{
  ℕ, ◌+◌, ◌≡◌, ◌≢◌, refl, ◌∙◌, [], ◌∷◌, ◌++◌, Text, text, All, All-append, arith, nat_eq,
}
use kannon.Values
use kannon.Values.{DomainName, ParseResult, is_allowed}
use kannon.Values.Canonical.{parse-HasForm, IsAllowed}
use kannon.Templates.{
  id_separator, new_template_id, count_rune, after_separator, domain_from_id, domain_of,
}

-- A text without a separator.
abbrev pub NoSeparator : Text → Type 0
NoSeparator s = All (λ (r : ℕ). r ≢ id_separator) s

count-append : (c : ℕ) (s t : Text) → count_rune c (s ++ t) ≡ count_rune c s + count_rune c t
unfolding count_rune
count-append c [] t = ground arith
count-append c (r ∷ s) t = ground (arith, count-append c s t)

count-NoSeparator : (s : Text) → NoSeparator s → count_rune id_separator s ≡ 0
unfolding count_rune
count-NoSeparator [] h = refl
count-NoSeparator (r ∷ s) h = ground (arith, h.0, count-NoSeparator s h.1)

count_one : (s : Text) → count_rune id_separator (id_separator ∷ s) ≡ 1 + count_rune id_separator s
unfolding count_rune
count_one s = refl

pub after-append : (s t : Text) → NoSeparator s → after_separator (s ++ (id_separator ∷ t)) ≡ t
unfolding after_separator
after-append [] t h = refl
after-append (r ∷ s) t h = ground (arith, h.0, after-append s t h.1)

allowed-NoSeparator : (s : Text) → All IsAllowed s → NoSeparator s
unfolding is_allowed
allowed-NoSeparator [] h = tt
allowed-NoSeparator (r ∷ s) h = ((λ e. ground arith), allowed-NoSeparator s h.1)

pub canonical-NoSeparator :
    (other : ℕ → ℕ) (d : DomainName) → Values.parse other d.s ≡ ParseResult.ok d → NoSeparator d.s
canonical-NoSeparator other d h = allowed-NoSeparator d.s (parse-HasForm other d.s d h).runes

-- the part of an identifier before its separator
abbrev pub stem : Text → Text
stem generated = text "template_" ++ generated

pub stem-NoSeparator : (generated : Text) → NoSeparator generated → NoSeparator (stem generated)
stem-NoSeparator generated h =
    All-append (λ (r : ℕ). r ≢ id_separator) (text "template_") generated prefix h
  where
    prefix : NoSeparator (text "template_")
    prefix = ground arith

-- The Domain of an identifier is the one that it was made for: for a canonical Domain, and generated
-- text without a separator.
pub domain_from_id-new_template_id :
    (other : ℕ → ℕ) (generated : Text) (d : DomainName)
    → NoSeparator generated
    → Values.parse other d.s ≡ ParseResult.ok d
    → domain_from_id other (new_template_id generated d) ≡ domain_of d
unfolding domain_from_id new_template_id Values.string
domain_from_id-new_template_id other generated d h canonical =
    let named = after-append (stem generated) d.s (stem-NoSeparator generated h) in
    rw (once, named) (rw canonical refl)
  where
    once : count_rune id_separator (stem generated ++ (id_separator ∷ d.s)) ≡ 1
    once =
        count-append id_separator (stem generated) (id_separator ∷ d.s)
        ∙ ground (
          arith,
          count-NoSeparator (stem generated) (stem-NoSeparator generated h),
          count-NoSeparator d.s (canonical-NoSeparator other d canonical),
          count_one d.s,
        )
