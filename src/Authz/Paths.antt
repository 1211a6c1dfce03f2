-- ===== src/Authz/Paths.antt =====
-- What an Anchor with a suffix reaches, as a statement on paths: `extend` of internal/authz/anchor.go
-- before `covers` of internal/authz/resource.go.
use mathlib.Core.Path.{subst}
use kannon.Base.{
  ◌≡◌, ◌≢◌, refl, sym, ap, ◌⊎◌, inl, inr, ◌↔◌, true, false, List, [], ◌∷◌, ◌++◌, map, Text, All,
  Bool-cases, list_beq_iff, nat_eq, list_eq, arith, ◌==◌, length,
}
use kannon.Authz.Resource.{Resource, PatternSegment, Pattern, covers, literal_segment}
use kannon.Authz.Anchor.{Anchor, extend, all_named}
use kannon.Authz.Anchor
use kannon.Authz.Coverage.{
  IsNamed, IsWellFormed, Matches, Above, Covers, by_root, by_path, covers-Covers, Covers-covers,
}

-- The pattern matches the path segment by segment: a wildcard matches any, a literal its own text.
abbrev pub MatchesAll : List PatternSegment → List Text → Type 0
MatchesAll [] [] = Unit
MatchesAll [] (t ∷ ts) = ⊥
MatchesAll (p ∷ ps) [] = ⊥
MatchesAll (p ∷ ps) (t ∷ ts) = Matches p t × MatchesAll ps ts

-- An Anchor that a Grant can stand on: the root, or a path that names something at every level.
abbrev pub Stands : Anchor → Type 0
Stands a =
    (a.root ≡ true)
    ⊎ ((a.segments ≢ []) × All (λ (p : PatternSegment). IsNamed p.literal) a.segments)

-- The path is one that the Anchor's segments match, then the suffix, then any tail.
pub record LiesUnder (a : Anchor) (suffix : List Text) (r : Resource) : Type 0 where
  pub front : List Text
  pub tail : List Text
  pub path : r.segments ≡ front ++ suffix ++ tail
  pub matched : MatchesAll a.segments front

-- What an Anchor with a suffix reaches: everything from the root, and what lies under its path.
abbrev pub Reaches : Anchor → List Text → Resource → Type 0
Reaches a suffix r =
    IsWellFormed r
    × (((a.root ≡ true) × (suffix ≡ []))
        ⊎ (Stands a × (a.segments ++ map literal_segment suffix ≢ []) × LiesUnder a suffix r))

Above-tail :
    (suffix ts : List Text)
    → Above (map literal_segment suffix) ts
    → (tail : List Text) × (ts ≡ suffix ++ tail)
unfolding literal_segment
Above-tail [] ts h = (ts, refl)
Above-tail (s ∷ suffix) [] h = absurd h
Above-tail (s ∷ suffix) (t ∷ ts) (inl w, h) = absurd (ground arith)
Above-tail (s ∷ suffix) (t ∷ ts) (inr e, h) =
    let (tail, path) = Above-tail suffix ts h in (tail, cc (e, path))

tail-Above : (suffix tail : List Text) → Above (map literal_segment suffix) (suffix ++ tail)
unfolding literal_segment
tail-Above [] tail = tt
tail-Above (s ∷ suffix) tail = (inr refl, tail-Above suffix tail)

Above-MatchesAll :
    (ps : List PatternSegment) (suffix ts : List Text)
    → Above (ps ++ map literal_segment suffix) ts
    → (front : List Text) × (tail : List Text) × (ts ≡ front ++ suffix ++ tail)
      × MatchesAll ps front
Above-MatchesAll [] suffix ts h = let (tail, path) = Above-tail suffix ts h in ([], tail, path, tt)
Above-MatchesAll (p ∷ ps) suffix [] h = absurd h
Above-MatchesAll (p ∷ ps) suffix (t ∷ ts) (m, h) =
    let (front, tail, path, matched) = Above-MatchesAll ps suffix ts h in
    (t ∷ front, tail, ap (λ (x : List Text). t ∷ x) path, (m, matched))

MatchesAll-Above :
    (ps : List PatternSegment) (suffix front tail : List Text)
    → MatchesAll ps front
    → Above (ps ++ map literal_segment suffix) (front ++ suffix ++ tail)
MatchesAll-Above [] suffix [] tail h = tail-Above suffix tail
MatchesAll-Above [] suffix (t ∷ front) tail h = absurd h
MatchesAll-Above (p ∷ ps) suffix [] tail h = absurd h
MatchesAll-Above (p ∷ ps) suffix (t ∷ front) tail (m, h) =
    (m, MatchesAll-Above ps suffix front tail h)

all_named-All :
    (ps : List PatternSegment)
    → (all_named ps ≡ true) ↔ All (λ (p : PatternSegment). IsNamed p.literal) ps
unfolding all_named
all_named-All [] = ((λ _. tt), (λ _. refl))
all_named-All (p ∷ ps) = elim (Bool-cases (p.literal == [])) [
  | inl e ↦ (
    (λ h. absurd (ground (arith, rw e at h))),
    (λ h. absurd (h.0 ((list_beq_iff p.literal []).0 e))),
  )
  | inr e ↦ (
    (λ h. (
      (λ q. ground (arith, e, (list_beq_iff p.literal []).1 q)),
      (all_named-All ps).0 (rw e at h),
    )),
    (λ h. rw e ((all_named-All ps).1 h.1)),
  )
]

length-zero {ℓ} : {A : Type ℓ} (xs : List A) → (length xs == 0) ≡ true → xs ≡ []
length-zero [] h = refl
length-zero (x ∷ xs) h = absurd (ground arith)

length-nonzero {ℓ} : {A : Type ℓ} (xs : List A) → (length xs == 0) ≡ false → xs ≢ []
length-nonzero [] h e = ground arith
length-nonzero (x ∷ xs) h e = cc

well_formed-IsNamed :
    (a : Anchor)
    → Anchor.is_well_formed a ≡ true
    → (a.segments ≢ []) × All (λ (p : PatternSegment). IsNamed p.literal) a.segments
unfolding Anchor.is_well_formed
well_formed-IsNamed a w = elim (Bool-cases (length a.segments == 0)) [
  | inl z ↦ absurd (ground (arith, z, w))
  | inr z ↦ (length-nonzero a.segments z, (all_named-All a.segments).0 (ground (arith, z, w)))
]

named-well_formed :
    (a : Anchor)
    → a.segments ≢ []
    → All (λ (p : PatternSegment). IsNamed p.literal) a.segments
    → Anchor.is_well_formed a ≡ true
unfolding Anchor.is_well_formed
named-well_formed a n h = elim (Bool-cases (length a.segments == 0)) [
  | inl z ↦ absurd (n (length-zero a.segments z))
  | inr z ↦ rw z ((all_named-All a.segments).1 h)
]

module _ (a : Anchor) (suffix : List Text) where
  extend_everywhere :
      a.root ≡ true
      → (length suffix == 0) ≡ true
      → extend a suffix ≡ record { everything = true; segments = [] }
  unfolding extend
  extend_everywhere e z = rw (z, extend) (rw e refl)

  extend_from_root :
      a.root ≡ true
      → (length suffix == 0) ≡ false
      → extend a suffix
        ≡ record { everything = false; segments = a.segments ++ map literal_segment suffix }
  unfolding extend
  extend_from_root e z = rw (z, extend) (rw e refl)

  extend_onwards :
      a.root ≡ false
      → Anchor.is_well_formed a ≡ true
      → extend a suffix
        ≡ record { everything = false; segments = a.segments ++ map literal_segment suffix }
  unfolding extend
  extend_onwards e w = rw (w, extend) (rw e refl)

  extend_nowhere :
      a.root ≡ false
      → Anchor.is_well_formed a ≡ false
      → extend a suffix ≡ record { everything = false; segments = [] }
  unfolding extend
  extend_nowhere e w = rw (w, extend) (rw e refl)

  -- What the pattern of a path covers lies under it.
  onwards-Reaches :
      (r : Resource)
      → Stands a
      → Covers
          (record { everything = false; segments = a.segments ++ map literal_segment suffix })
          r
      → Reaches a suffix r
  onwards-Reaches r s (by_root w e) = absurd (ground arith)
  onwards-Reaches r s (by_path w n above) =
      let (front, tail, path, matched) = Above-MatchesAll a.segments suffix r.segments above in
      (w, inr (s, n, record { front = front; tail = tail; path = path; matched = matched }))

  Reaches-onwards :
      (r : Resource)
      → IsWellFormed r
      → a.segments ++ map literal_segment suffix ≢ []
      → LiesUnder a suffix r
      → covers
          (record { everything = false; segments = a.segments ++ map literal_segment suffix })
          r
        ≡ true
  Reaches-onwards r w n l =
      Covers-covers
        (record { everything = false; segments = a.segments ++ map literal_segment suffix }) r
        (by_path w n (
          subst (Above (a.segments ++ map literal_segment suffix)) (sym l.path)
            (MatchesAll-Above a.segments suffix l.front l.tail l.matched)))

  everywhere-covers :
      (r : Resource)
      → IsWellFormed r
      → covers (record { everything = true; segments = [] }) r ≡ true
  everywhere-covers r w =
      Covers-covers (record { everything = true; segments = [] }) r (by_root w refl)

  everywhere-IsWellFormed :
      (r : Resource) → Covers (record { everything = true; segments = [] }) r → IsWellFormed r
  everywhere-IsWellFormed r (by_root w e) = w
  everywhere-IsWellFormed r (by_path w n above) = w

  nowhere-Covers : (r : Resource) → ¬ Covers (record { everything = false; segments = [] }) r
  nowhere-Covers r (by_root w e) = ground arith
  nowhere-Covers r (by_path w n above) = n refl

  pub covers-Reaches : (r : Resource) → covers (extend a suffix) r ≡ true → Reaches a suffix r
  covers-Reaches r h = elim (Bool-cases a.root) [
    | inl e ↦ elim (Bool-cases (length suffix == 0)) [
      | inl z ↦
          (everywhere-IsWellFormed r (read (extend_everywhere e z)), inl (e, length-zero suffix z))
      | inr z ↦ onwards-Reaches r (inl e) (read (extend_from_root e z))
    ]
    | inr e ↦ elim (Bool-cases (Anchor.is_well_formed a)) [
      | inl w ↦ onwards-Reaches r (inr (well_formed-IsNamed a w)) (read (extend_onwards e w))
      | inr w ↦ absurd (nowhere-Covers r (read (extend_nowhere e w)))
    ]
  ]
    where
      read : {p : Pattern} → extend a suffix ≡ p → Covers p r
      read {p} e = covers-Covers p r (subst (λ (q : Pattern). covers q r ≡ true) e h)

  from_root-covers :
      (r : Resource)
      → a.root ≡ true
      → IsWellFormed r
      → a.segments ++ map literal_segment suffix ≢ []
      → LiesUnder a suffix r
      → covers (extend a suffix) r ≡ true
  from_root-covers r e w n l = elim (Bool-cases (length suffix == 0)) [
    | inl z ↦
        subst (λ (q : Pattern). covers q r ≡ true) (sym (extend_everywhere e z))
          (everywhere-covers r w)
    | inr z ↦
        subst (λ (q : Pattern). covers q r ≡ true) (sym (extend_from_root e z))
          (Reaches-onwards r w n l)
  ]

  pub Reaches-covers : (r : Resource) → Reaches a suffix r → covers (extend a suffix) r ≡ true
  Reaches-covers r (w, inl (e, none_left)) =
      subst (λ (q : Pattern). covers q r ≡ true) (sym (extend_everywhere e (rw none_left refl)))
        (everywhere-covers r w)
  Reaches-covers r (w, inr (inl e, n, l)) = from_root-covers r e w n l
  Reaches-covers r (w, inr (inr (m, named), n, l)) = elim (Bool-cases a.root) [
    | inl e ↦ from_root-covers r e w n l
    | inr e ↦
        subst (λ (q : Pattern). covers q r ≡ true)
          (sym (extend_onwards e (named-well_formed a m named))) (Reaches-onwards r w n l)
  ]
