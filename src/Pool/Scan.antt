-- ===== src/Pool/Scan.antt =====
-- The two cases of an update with a limit at the first row of its scan (the locking subqueries of
-- internal/db/pool.sql.go).
use kannon.Base.{
  ℕ, zero, suc, ◌≤◌, ◌≡◌, refl, sym, ap, ◌∙◌, ◌⊎◌, inl, inr, Bool, true, false, List, [], ◌∷◌,
  length, arith, All, All-map, Some, In, Bool-cases,
}
use mathlib.Core.Path.{subst}
use kannon.Pool.{Row, update_limit, keep_row, take_row}

module _ (p : Row → Bool) (change : Row → Row) (n : ℕ) (r : Row) (rows : List Row) where
  pub update_limit_hit :
      p r ≡ true
      → update_limit p change (suc n) (r ∷ rows)
        ≡ take_row (change r) (update_limit p change n rows)
  unfolding update_limit
  update_limit_hit e = rw (e, update_limit) refl

  pub update_limit_miss :
      p r ≡ false
      → update_limit p change (suc n) (r ∷ rows) ≡ keep_row r (update_limit p change (suc n) rows)
  unfolding update_limit
  update_limit_miss e = rw (e, update_limit) refl

module _ (p : Row → Bool) (change : Row → Row) where
  -- The limit is kept.
  pub length-returned :
      (n : ℕ) (rows : List Row) → length (update_limit p change n rows).returned ≤ n
  unfolding update_limit keep_row take_row
  length-returned n [] = omega arith
  length-returned zero (r ∷ rows) = omega arith
  length-returned (suc n) (r ∷ rows) = elim (Bool-cases (p r)) [
    | inl e ↦
        subst (λ c. length c.returned ≤ suc n) (sym (update_limit_hit p change n r rows e))
          (omega (arith, length-returned n rows))
    | inr e ↦
        subst (λ c. length c.returned ≤ suc n) (sym (update_limit_miss p change n r rows e))
          (length-returned (suc n) rows)
  ]

  -- A row of the table that qualified, as the update leaves it.
  abbrev pub IsChanged : List Row → Row → Type 0
  IsChanged rows y = Some (λ r. (p r ≡ true) × (change r ≡ y)) rows

  -- What is returned are qualifying rows, changed.
  pub returned-IsChanged :
      (n : ℕ) (rows : List Row) → All (IsChanged rows) (update_limit p change n rows).returned
  unfolding update_limit keep_row take_row
  returned-IsChanged n [] = tt
  returned-IsChanged zero (r ∷ rows) = tt
  returned-IsChanged (suc n) (r ∷ rows) = elim (Bool-cases (p r)) [
    | inl e ↦
        subst (λ c. All (IsChanged (r ∷ rows)) c.returned)
          (sym (update_limit_hit p change n r rows e))
          (
            inl (e, refl),
            All-map (update_limit p change n rows).returned (λ y h. inr h)
                (returned-IsChanged n rows),
          )
    | inr e ↦
        subst (λ c. All (IsChanged (r ∷ rows)) c.returned)
          (sym (update_limit_miss p change n r rows e))
          (All-map (update_limit p change (suc n) rows).returned (λ y h. inr h)
            (returned-IsChanged (suc n) rows))
  ]

  -- What is returned stands so in the table.
  pub returned-In :
      (n : ℕ) (rows : List Row)
      → All (In (update_limit p change n rows).table) (update_limit p change n rows).returned
  unfolding update_limit keep_row take_row
  returned-In n [] = tt
  returned-In zero (r ∷ rows) = tt
  returned-In (suc n) (r ∷ rows) = elim (Bool-cases (p r)) [
    | inl e ↦
        subst (λ c. All (In c.table) c.returned) (sym (update_limit_hit p change n r rows e))
          (
            inl refl,
            All-map (update_limit p change n rows).returned (λ y h. inr h) (returned-In n rows),
          )
    | inr e ↦
        subst (λ c. All (In c.table) c.returned) (sym (update_limit_miss p change n r rows e))
          (All-map (update_limit p change (suc n) rows).returned (λ y h. inr h)
            (returned-In (suc n) rows))
  ]

  -- With a limit that the table does not reach, every qualifying row is returned.
  pub In-returned :
      (n : ℕ) (rows : List Row) (r : Row)
      → length rows ≤ n
      → In rows r
      → p r ≡ true
      → In (update_limit p change n rows).returned (change r)
  unfolding update_limit keep_row take_row
  In-returned n [] r h m k = absurd m
  In-returned zero (q ∷ rows) r h m k = absurd (not_below (length rows) h)
    where
      not_below : (x : ℕ) → suc x ≤ 0 → ⊥
      not_below x b = omega arith
  In-returned (suc n) (q ∷ rows) r h m k =
      go m (Bool-cases (p q)) (λ later. In-returned n rows r (omega arith) later k)
        (λ later. In-returned (suc n) rows r (omega arith) later k)
    where
      go :
          In (q ∷ rows) r
          → (p q ≡ true) ⊎ (p q ≡ false)
          → (In rows r → In (update_limit p change n rows).returned (change r))
          → (In rows r → In (update_limit p change (suc n) rows).returned (change r))
          → In (update_limit p change (suc n) (q ∷ rows)).returned (change r)
      go (inl same) (inl e) hit miss =
          subst (λ c. In c.returned (change r)) (sym (update_limit_hit p change n q rows e))
            (inl (ap change same))
      go (inl same) (inr e) hit miss = absurd (differ (p q) e (ap p same ∙ k))
        where
          differ : (b : Bool) → b ≡ false → b ≡ true → ⊥
          differ b x y = ground arith
      go (inr later) (inl e) hit miss =
          subst (λ c. In c.returned (change r)) (sym (update_limit_hit p change n q rows e))
            (inr (hit later))
      go (inr later) (inr e) hit miss =
          subst (λ c. In c.returned (change r)) (sym (update_limit_miss p change n q rows e))
            (miss later)

  -- A property that the change gives, and every row has, is left in the table.
  pub update_limit-All :
      (P : Row → Type 0) (gives : (r : Row) → P (change r)) (n : ℕ) (rows : List Row)
      → All P rows
      → All P (update_limit p change n rows).table
  unfolding update_limit keep_row take_row
  update_limit-All P gives n [] h = tt
  update_limit-All P gives zero (r ∷ rows) h = h
  update_limit-All P gives (suc n) (r ∷ rows) h = elim (Bool-cases (p r)) [
    | inl e ↦
        subst (λ c. All P c.table) (sym (update_limit_hit p change n r rows e))
          (gives r, update_limit-All P gives n rows h.1)
    | inr e ↦
        subst (λ c. All P c.table) (sym (update_limit_miss p change n r rows e))
          (h.0, update_limit-All P gives (suc n) rows h.1)
  ]
