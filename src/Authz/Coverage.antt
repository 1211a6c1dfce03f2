-- ===== src/Authz/Coverage.antt =====
-- What the one matcher, `covers` of internal/authz/resource.go, decides.
use kannon.Base.{
  ◌≤◌, ◌≡◌, ◌≢◌, refl, ◌⊎◌, inl, inr, true, false, List, [], ◌∷◌, ◌++◌, map, Text, All, All-append,
  any, contains, length, arith, ◌==◌, nat_eq, list_eq, list_beq_iff, Bool-cases,
}
use kannon.Authz.Resource.{
  Resource, PatternSegment, Pattern, literal_segment, is_well_formed, covers_segments, covers,
}

abbrev pub IsNamed : Text → Type 0
IsNamed t = t ≢ []

-- A Resource that names something at every level.
pub record IsWellFormed (r : Resource) : Type 0 where
  pub nonempty : r.segments ≢ []
  pub named : All IsNamed r.segments

abbrev pub Matches : PatternSegment → Text → Type 0
Matches p t = (p.wildcard ≡ true) ⊎ (p.literal ≡ t)

-- The pattern matches the path, or a path above it.
abbrev pub Above : List PatternSegment → List Text → Type 0
Above [] rs = Unit
Above (p ∷ ps) [] = ⊥
Above (p ∷ ps) (r ∷ rs) = Matches p r × Above ps rs

pub data Covers (p : Pattern) (r : Resource) : Type 0 where
  by_root : IsWellFormed r → p.everything ≡ true → Covers p r
  by_path : IsWellFormed r → p.segments ≢ [] → Above p.segments r.segments → Covers p r

IsNamed-of_contains : (rs : List Text) → contains rs [] ≡ false → All IsNamed rs
unfolding contains any
IsNamed-of_contains [] h = tt
IsNamed-of_contains (r ∷ rs) h =
    ((λ e. ground (arith, list_beq_iff r [])), IsNamed-of_contains rs (ground arith))

contains_of_named : (rs : List Text) → All IsNamed rs → contains rs [] ≡ false
unfolding contains any
contains_of_named [] h = refl
contains_of_named (r ∷ rs) h = elim (Bool-cases (r == [])) [
  | inl e ↦ absurd (h.0 ((list_beq_iff r []).0 e))
  | inr e ↦ rw e (contains_of_named rs h.1)
]

pub IsWellFormed-of_test : (r : Resource) → is_well_formed r ≡ true → IsWellFormed r
unfolding is_well_formed
IsWellFormed-of_test r h = record {
  nonempty = λ e. ground (arith, list_beq_iff r.segments []);
  named = IsNamed-of_contains r.segments (ground arith);
}

pub IsWellFormed-well_formed : (r : Resource) → IsWellFormed r → is_well_formed r ≡ true
unfolding is_well_formed
IsWellFormed-well_formed r w = elim (Bool-cases (r.segments == [])) [
  | inl e ↦ absurd (w.nonempty ((list_beq_iff r.segments []).0 e))
  | inr e ↦ rw e (rw (contains_of_named r.segments w.named))
]

pub covers_segments-Above :
    (ps : List PatternSegment) (rs : List Text) → covers_segments ps rs ≡ true → Above ps rs
unfolding covers_segments
covers_segments-Above [] rs h = tt
covers_segments-Above (p ∷ ps) [] h = ground arith
covers_segments-Above (p ∷ ps) (r ∷ rs) h =
    (ground (arith, list_beq_iff p.literal r), covers_segments-Above ps rs (ground arith))

pub Above-covers_segments :
    (ps : List PatternSegment) (rs : List Text) → Above ps rs → covers_segments ps rs ≡ true
unfolding covers_segments
Above-covers_segments [] rs h = refl
Above-covers_segments (p ∷ ps) [] h = absurd h
Above-covers_segments (p ∷ ps) (r ∷ rs) (m, h) =
    ground (arith, list_beq_iff p.literal r, Above-covers_segments ps rs h)

Above-length : (ps : List PatternSegment) (rs : List Text) → Above ps rs → length ps ≤ length rs
Above-length [] rs h = omega arith
Above-length (p ∷ ps) [] h = absurd h
Above-length (p ∷ ps) (r ∷ rs) (m, h) = omega (arith, Above-length ps rs h)

length-ne-zero {ℓ} : {A : Type ℓ} (xs : List A) → (length xs == 0) ≡ false → xs ≢ []
length-ne-zero [] h e = ground arith
length-ne-zero (x ∷ xs) h e = cc

well_formed_of_covers : (p : Pattern) (r : Resource) → covers p r ≡ true → is_well_formed r ≡ true
unfolding covers
well_formed_of_covers p r h = ground arith

path_of_covers :
    (p : Pattern) (r : Resource)
    → p.everything ≡ false
    → covers p r ≡ true
    → ((length p.segments == 0) ≡ false) × (covers_segments p.segments r.segments ≡ true)
unfolding covers
path_of_covers p r e h = ground arith

pub covers-Covers : (p : Pattern) (r : Resource) → covers p r ≡ true → Covers p r
covers-Covers p r h =
    let w = IsWellFormed-of_test r (well_formed_of_covers p r h) in
    elim (Bool-cases p.everything) [
      | inl e ↦ by_root w e
      | inr e ↦
          let (nonzero, above) = path_of_covers p r e h in
          by_path w (length-ne-zero p.segments nonzero)
            (covers_segments-Above p.segments r.segments above)
    ]

zero-length {ℓ} : {A : Type ℓ} (xs : List A) → xs ≢ [] → (length xs == 0) ≡ false
zero-length [] h = absurd (h refl)
zero-length (x ∷ xs) h = ground arith

pub Covers-covers : (p : Pattern) (r : Resource) → Covers p r → covers p r ≡ true
unfolding covers
Covers-covers p r (by_root w e) = rw (IsWellFormed-well_formed r w, e) refl
Covers-covers p r (by_path w n a) = ground (
  arith,
  IsWellFormed-well_formed r w,
  zero-length p.segments n,
  Above-length p.segments r.segments a,
  Above-covers_segments p.segments r.segments a,
)

Above-append :
    (ps : List PatternSegment) (rs tail : List Text) → Above ps rs → Above ps (rs ++ tail)
Above-append [] rs tail h = tt
Above-append (p ∷ ps) [] tail h = absurd h
Above-append (p ∷ ps) (r ∷ rs) tail (m, h) = (m, Above-append ps rs tail h)

-- A longer pattern reaches no more than the pattern that it extends.
pub Above-shorter :
    (ps qs : List PatternSegment) (rs : List Text) → Above (ps ++ qs) rs → Above ps rs
Above-shorter [] qs rs h = tt
Above-shorter (p ∷ ps) qs [] h = absurd h
Above-shorter (p ∷ ps) qs (r ∷ rs) (m, h) = (m, Above-shorter ps qs rs h)

-- The path `rs` followed by the literal segments `qs` is reached through any pattern above `rs`.
pub Above-trans :
    (ps qs : List PatternSegment) (rs ts : List Text)
    → Above ps rs
    → Above (map literal_segment rs ++ qs) ts
    → Above ps ts
unfolding literal_segment
Above-trans [] qs rs ts a b = tt
Above-trans (p ∷ ps) qs [] ts a b = absurd a
Above-trans (p ∷ ps) qs (r ∷ rs) [] a b = absurd b
Above-trans (p ∷ ps) qs (r ∷ rs) (t ∷ ts) (m, a) (n, b) =
    (ground arith, Above-trans ps qs rs ts a b)

-- The same below a pattern as long as the path: the suffix is reached too.
pub Above-trans_suffix :
    (ps qs : List PatternSegment) (rs ts : List Text)
    → length ps ≡ length rs
    → Above ps rs
    → Above (map literal_segment rs ++ qs) ts
    → Above (ps ++ qs) ts
unfolding literal_segment
Above-trans_suffix [] qs [] ts l a b = b
Above-trans_suffix [] qs (r ∷ rs) ts l a b = absurd (omega arith)
Above-trans_suffix (p ∷ ps) qs [] ts l a b = absurd a
Above-trans_suffix (p ∷ ps) qs (r ∷ rs) [] l a b = absurd b
Above-trans_suffix (p ∷ ps) qs (r ∷ rs) (t ∷ ts) l (m, a) (n, b) =
    (ground arith, Above-trans_suffix ps qs rs ts (omega arith) a b)

unfoldable pub extend_path : Resource → List Text → Resource
extend_path r tail = record { segments = r.segments ++ tail }

IsWellFormed-extend_path :
    (r : Resource) (tail : List Text)
    → IsWellFormed r
    → All IsNamed tail
    → IsWellFormed (extend_path r tail)
unfolding extend_path
IsWellFormed-extend_path r tail w h = record {
  nonempty = append-ne-nil r.segments w.nonempty;
  named = All-append IsNamed r.segments tail w.named h;
}
  where
    append-ne-nil : (xs : List Text) → xs ≢ [] → xs ++ tail ≢ []
    append-ne-nil [] n e = n refl
    append-ne-nil (x ∷ xs) n e = cc

-- Prefix domination: what covers a path covers every named path beneath it.
pub covers-extend_path :
    (p : Pattern) (r : Resource) (tail : List Text)
    → covers p r ≡ true
    → All IsNamed tail
    → covers p (extend_path r tail) ≡ true
covers-extend_path p r tail h n = Covers-covers p (extend_path r tail) (go (covers-Covers p r h))
  where
    go : Covers p r → Covers p (extend_path r tail)
    go (by_root w e) = by_root (IsWellFormed-extend_path r tail w n) e
    go (by_path w m a) =
        by_path (IsWellFormed-extend_path r tail w n) m
          (unfold extend_path in Above-append p.segments r.segments tail a)
