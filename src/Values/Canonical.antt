-- ===== src/Values/Canonical.antt =====
-- The form that `Parse` of internal/values/domain_name.go gives a domain name.
use mathlib.Core.List.{reverse, reverse-reverse, reverse-cons}
use kannon.Base.{
  ℕ, ◌≤◌, ◌≡◌, ◌≢◌, refl, ap, ◌∙◌, inl, inr, true, false, [], ◌∷◌, Text, text, All, All-append,
  byte_len, has_prefix, has_suffix, contains_text, is_space, trim_space, trim_left, arith, ◌==◌,
  nat_eq, list_eq, list_beq_iff, Bool-cases,
}
use kannon.Values.{
  DomainName, ok, max_length, lower_rune, to_lower, is_allowed, check_runes, validate, parse,
}

abbrev pub IsAllowed : ℕ → Type 0
IsAllowed r = is_allowed r ≡ true

check_runes_ok :
    (whole rest : Text) {n : DomainName}
    → check_runes whole rest ≡ ok n
    → (n.s ≡ whole) × All IsAllowed rest
unfolding check_runes
check_runes_ok whole [] h = ground arith
check_runes_ok whole (r ∷ rest) h = elim (Bool-cases (is_allowed r)) [
  | inl e ↦
      let (same, all) = check_runes_ok whole rest (rw (e, check_runes) at h) in (same, (e, all))
  | inr e ↦ ground arith
]

-- What a parsed domain name promises: it is not empty and fits its column, is made of lower-case
-- letters, digits, `-`, `.` and `_` alone, and has a dot, though neither at an end nor two in a row.
pub record HasForm (n : DomainName) : Type 0 where
  pub present : n.s ≢ []
  pub fits : byte_len n.s ≤ max_length
  pub runes : All IsAllowed n.s
  pub dotted : contains_text n.s (text ".") ≡ true
  pub labels : contains_text n.s (text "..") ≡ false
  pub no_first_dot : has_prefix n.s (text ".") ≡ false
  pub no_last_dot : has_suffix n.s (text ".") ≡ false

record Passed (s : Text) (n : DomainName) : Type 0 where
  present : (s == []) ≡ false
  fits : byte_len s ≤ max_length
  dotted : contains_text s (text ".") ≡ true
  labels : contains_text s (text "..") ≡ false
  no_first_dot : has_prefix s (text ".") ≡ false
  no_last_dot : has_suffix s (text ".") ≡ false
  checked : check_runes s s ≡ ok n

validate_ok : (s : Text) (n : DomainName) → validate s ≡ ok n → Passed s n
unfolding validate
validate_ok s n h = ground arith

form_of : (s : Text) (n : DomainName) → Passed s n → n.s ≡ s → All IsAllowed s → HasForm n
form_of s n p same all = record {
  present = λ e. ground (arith, list_beq_iff s [], p.present, same, e);
  fits = rw same p.fits;
  runes = rw same all;
  dotted = rw same p.dotted;
  labels = rw same p.labels;
  no_first_dot = rw same p.no_first_dot;
  no_last_dot = rw same p.no_last_dot;
}

-- What `Parse` returns has the canonical form.
pub parse-HasForm : (other : ℕ → ℕ) (s : Text) (n : DomainName) → parse other s ≡ ok n → HasForm n
unfolding parse
parse-HasForm other s n h =
    let passed = validate_ok (to_lower other (trim_space s)) n h in
    let (same, all) = check_runes_ok _ _ passed.checked in
    form_of (to_lower other (trim_space s)) n passed same all

allowed_not_space : (r : ℕ) → is_allowed r ≡ true → is_space r ≡ false
unfolding is_allowed is_space
allowed_not_space r h = ground arith

lower_of_allowed : (other : ℕ → ℕ) (r : ℕ) → is_allowed r ≡ true → lower_rune other r ≡ r
unfolding is_allowed lower_rune
lower_of_allowed other r h = ground arith

to_lower_of_allowed : (other : ℕ → ℕ) (s : Text) → All IsAllowed s → to_lower other s ≡ s
unfolding to_lower
to_lower_of_allowed other [] h = refl
to_lower_of_allowed other (r ∷ s) h =
    cc (lower_of_allowed other r h.0, to_lower_of_allowed other s h.1)

trim_left_of_allowed : (s : Text) → All IsAllowed s → trim_left s ≡ s
unfolding trim_left
trim_left_of_allowed [] h = refl
trim_left_of_allowed (r ∷ s) h = rw (allowed_not_space r h.0)

All-reverse : (s : Text) → All IsAllowed s → All IsAllowed (reverse s)
All-reverse [] h = tt
All-reverse (r ∷ s) h =
    rw reverse-cons (All-append IsAllowed (reverse s) (r ∷ []) (All-reverse s h.1) (h.0, tt))

trim_space_of_allowed : (s : Text) → All IsAllowed s → trim_space s ≡ s
unfolding trim_space
trim_space_of_allowed s h =
    rw (trim_left_of_allowed s h)
      (rw (trim_left_of_allowed (reverse s) (All-reverse s h)) (reverse-reverse s))

-- A name that `Parse` returned parses to itself, whatever the table of Unicode's lower case holds.
pub parse-parse :
    (other : ℕ → ℕ) (s : Text) (n : DomainName) → parse other s ≡ ok n → parse other n.s ≡ ok n
unfolding parse
parse-parse other s n h =
    let all = (parse-HasForm other s n (unfold parse in h)).runes in
    rw (trim_space_of_allowed n.s all) (
      rw (to_lower_of_allowed other n.s all) (
        ap validate (check_runes_ok _ _ (validate_ok (to_lower other (trim_space s)) n h).checked).0
        ∙ h))

not-contains_dot :
    (t : Text) → contains_text t (text ".") ≡ false → (n : DomainName) → HasForm n → n.s ≢ t
not-contains_dot t h n f e = ground arith

-- A parsed name differs from every text without a dot.
pub parse-ne-undotted :
    (other : ℕ → ℕ) (s : Text) (n : DomainName) (t : Text)
    → parse other s ≡ ok n
    → contains_text t (text ".") ≡ false
    → n.s ≢ t
parse-ne-undotted other s n t h d = not-contains_dot t d n (parse-HasForm other s n h)
