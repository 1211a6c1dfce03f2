-- ===== src/Base/Tables.antt =====
-- What a statement does to the list of a table's rows: the row that it finds, those that it updates
-- or deletes, and those that it selects.
use mathlib.Core.Path.{◌≡◌, refl, sym, ap, ◌∙◌}
use mathlib.Core.Logic.{◌⊎◌, inl, inr}
use mathlib.Core.Bool.{Bool, true, false}
use mathlib.Core.List.{List, [], ◌∷◌, ◌++◌}
use mathlib.Core.Option.{Option, none, some}
use native.Mathlib.Omega.{arith}
use kannon.Base.Tests.{Comparable, ◌==◌, if◌then◌else◌, Bool-cases, Option-cases}
use kannon.Base.Lists.{any, In, Some-any, In-Some}

module _ {R : Type 0} where
  unfoldable pub find_first : (R → Bool) → List R → Option R
  find_first p [] = none
  find_first p (r ∷ rows) = if p r then some r else find_first p rows

  unfoldable pub update_rows : (R → Bool) → (R → R) → List R → List R
  update_rows p change [] = []
  update_rows p change (r ∷ rows) = (if p r then change r else r) ∷ update_rows p change rows

  unfoldable pub delete_rows : (R → Bool) → List R → List R
  delete_rows p [] = []
  delete_rows p (r ∷ rows) = if p r then delete_rows p rows else r ∷ delete_rows p rows

  unfoldable pub select_rows : (R → Bool) → List R → List R
  select_rows p [] = []
  select_rows p (r ∷ rows) = if p r then r ∷ select_rows p rows else select_rows p rows

  pub find_first-some :
      (p : R → Bool) (rows : List R) {r : R} → find_first p rows ≡ some r → In rows r × (p r ≡ true)
  unfolding find_first
  find_first-some p [] e = absurd (ground arith)
  find_first-some p (x ∷ rows) {r} e = elim (Bool-cases (p x)) [
    | inl h ↦ let same : x ≡ r = ground arith in (inl same, rw (← same) h)
    | inr h ↦ let (m, q) = find_first-some p rows {r = r} (rw h at e) in (inr m, q)
  ]

  pub any-find_first :
      (p : R → Bool) (rows : List R) → find_first p rows ≡ none → any p rows ≡ false
  unfolding find_first any
  any-find_first p [] e = refl
  any-find_first p (x ∷ rows) e = elim (Bool-cases (p x)) [
    | inl h ↦ absurd (ground arith)
    | inr h ↦ rw h (any-find_first p rows (rw h at e))
  ]

  pub find_first-append :
      (p : R → Bool) (rows : List R) (r : R)
      → find_first p (rows ++ r ∷ [])
        ≡ elim (find_first p rows) [ none ↦ if p r then some r else none | some x ↦ some x ]
  unfolding find_first
  find_first-append p [] r = refl
  find_first-append p (x ∷ rows) r = elim (Bool-cases (p x)) [
    | inl h ↦ rw h refl
    | inr h ↦ rw h (find_first-append p rows r)
  ]

  pub find_first-append_hit :
      (p : R → Bool) (rows : List R) (r : R)
      → find_first p rows ≡ none
      → p r ≡ true
      → find_first p (rows ++ r ∷ []) ≡ some r
  find_first-append_hit p rows r e h = rw (find_first-append p rows r) (rw e (rw h refl))

  pub find_first-append_miss :
      (p : R → Bool) (rows : List R) (r : R)
      → p r ≡ false
      → find_first p (rows ++ r ∷ []) ≡ find_first p rows
  find_first-append_miss p rows r h =
      rw (find_first-append p rows r) (elim (Option-cases (find_first p rows)) [
        | inl e ↦ rw e (rw h refl)
        | inr (x, e) ↦ rw e refl
      ])

  -- A change that a test does not see.
  abbrev pub Keeps : (R → Bool) → (R → R) → Type 0
  Keeps q change = (r : R) → q (change r) ≡ q r

  pub any-update_rows :
      (q p : R → Bool) (change : R → R) (rows : List R)
      → Keeps q change
      → any q (update_rows p change rows) ≡ any q rows
  unfolding update_rows any
  any-update_rows q p change [] k = refl
  any-update_rows q p change (r ∷ rows) k = elim (Bool-cases (p r)) [
    | inl h ↦ rw h (rw (k r) (rw (any-update_rows q p change rows k) refl))
    | inr h ↦ rw h (rw (any-update_rows q p change rows k) refl)
  ]

  abbrev pub map_found : (R → R) → Option R → Option R
  map_found change none = none
  map_found change (some r) = some (change r)

  pub find_first-update_rows :
      (q p : R → Bool) (change : R → R) (rows : List R)
      → Keeps q change
      → find_first q (update_rows p change rows)
        ≡ map_found (λ r. if p r then change r else r) (find_first q rows)
  unfolding update_rows find_first
  find_first-update_rows q p change [] k = refl
  find_first-update_rows q p change (r ∷ rows) k = elim (Bool-cases (q r)) [
    | inl found ↦ rw (kept, found) refl
    | inr missed ↦ rw (kept, missed) (find_first-update_rows q p change rows k)
  ]
    where
      kept : q (if p r then change r else r) ≡ q r
      kept = elim (Bool-cases (p r)) [ inl h ↦ rw h (k r) | inr h ↦ rw h refl ]

  pub any-append_row :
      (q : R → Bool) (rows : List R) (r : R)
      → any q rows ≡ false
      → q r ≡ false
      → any q (rows ++ r ∷ []) ≡ false
  unfolding any
  any-append_row q [] r h k = ground arith
  any-append_row q (x ∷ rows) r h k = ground (arith, any-append_row q rows r)

  -- No two rows agree on a column.
  abbrev pub UniqueBy : {K : Type 0} ⦃c : Comparable K⦄ → (R → K) → List R → Type 0
  UniqueBy f [] = Unit
  UniqueBy f (r ∷ rows) = (any (λ x. f x == f r) rows ≡ false) × UniqueBy f rows

  pub UniqueBy-append :
      {K : Type 0} ⦃c : Comparable K⦄ (f : R → K) (rows : List R) (r : R)
      → UniqueBy f rows
      → any (λ x. f x == f r) rows ≡ false
      → UniqueBy f (rows ++ r ∷ [])
  unfolding any
  UniqueBy-append f [] r u h = (refl, tt)
  UniqueBy-append ⦃c⦄ f (x ∷ rows) r u h = (
    any-append_row (λ y. f y == f x) rows r u.0
        (ground (arith, c.equals_iff (f x) (f r), c.equals_iff (f r) (f x))),
    UniqueBy-append f rows r u.1 (ground arith),
  )

  pub UniqueBy-update_rows :
      {K : Type 0} ⦃c : Comparable K⦄ (f : R → K) (p : R → Bool) (change : R → R) (rows : List R)
      → ((r : R) → f (change r) ≡ f r)
      → UniqueBy f rows
      → UniqueBy f (update_rows p change rows)
  unfolding update_rows
  UniqueBy-update_rows f p change [] k u = tt
  UniqueBy-update_rows {K} ⦃c⦄ f p change (r ∷ rows) k u = elim (Bool-cases (p r)) [
    | inl h ↦ rw h (rw (k r) (kept, UniqueBy-update_rows f p change rows k u.1))
    | inr h ↦ rw h (kept, UniqueBy-update_rows f p change rows k u.1)
  ]
    where
      kept : any (λ x. f x == f r) (update_rows p change rows) ≡ false
      kept =
          any-update_rows (λ x. f x == f r) p change rows (λ x. ap (λ (y : K). y == f r) (k x))
          ∙ u.0

  -- The row that has a value in such a column is the first that a search for the value finds.
  pub find_first-UniqueBy :
      {K : Type 0} ⦃c : Comparable K⦄ (f : R → K) (q : R → Bool) (rows : List R) (r : R)
      → UniqueBy f rows
      → ((x : R) → q x ≡ true → f x ≡ f r)
      → In rows r
      → q r ≡ true
      → find_first q rows ≡ some r
  unfolding find_first
  find_first-UniqueBy f q [] r u same m h = absurd m
  find_first-UniqueBy f q (x ∷ rows) r u same (inl e) h = rw e (rw h refl)
  find_first-UniqueBy ⦃c⦄ f q (x ∷ rows) r u same (inr m) h = elim (Bool-cases (q x)) [
    | inr miss ↦ rw miss (find_first-UniqueBy f q rows r u.1 same m h)
    | inl hit ↦ absurd (cc (u.0, twice hit))
  ]
    where
      twice : q x ≡ true → any (λ y. f y == f x) rows ≡ true
      twice hit =
          Some-any (λ y. f y == f x) rows
            (In-Some (λ y. (f y == f x) ≡ true) rows r m
              ((c.equals_iff (f r) (f x)).1 (sym (same x hit))))

  pub any-append_left :
      (q : R → Bool) (rows new_rows : List R) → any q rows ≡ true → any q (rows ++ new_rows) ≡ true
  unfolding any
  any-append_left q [] new_rows h = absurd (cc h)
  any-append_left q (x ∷ rows) new_rows h = elim (Bool-cases (q x)) [
    | inl e ↦ rw e refl
    | inr e ↦ rw e (any-append_left q rows new_rows (rw e at h))
  ]

  pub In-append_cases : (rows : List R) (r x : R) → In (rows ++ r ∷ []) x → In rows x ⊎ (r ≡ x)
  In-append_cases [] r x (inl e) = inr e
  In-append_cases [] r x (inr m) = absurd m
  In-append_cases (y ∷ rows) r x (inl e) = inl (inl e)
  In-append_cases (y ∷ rows) r x (inr m) = elim (In-append_cases rows r x m) [
    | inl k ↦ inl (inr k)
    | inr e ↦ inr e
  ]

  -- the row that an updated one was
  pub In-update_rows :
      (p : R → Bool) (change : R → R) (rows : List R) (y : R)
      → In (update_rows p change rows) y
      → (x : R) × In rows x × ((if p x then change x else x) ≡ y)
  unfolding update_rows
  In-update_rows p change [] y m = absurd m
  In-update_rows p change (x ∷ rows) y (inl e) = (x, inl refl, e)
  In-update_rows p change (x ∷ rows) y (inr m) =
      let (z, held, same) = In-update_rows p change rows y m in (z, inr held, same)

  pub UniqueBy-eq :
      {K : Type 0} ⦃c : Comparable K⦄ (f : R → K) (rows : List R) (a b : R)
      → UniqueBy f rows
      → In rows a
      → In rows b
      → f a ≡ f b
      → a ≡ b
  UniqueBy-eq ⦃c⦄ f rows a b u m n e = some_eq (
      sym (
        find_first-UniqueBy f q rows a u (λ x h. (c.equals_iff (f x) (f a)).0 h) m
          ((c.equals_iff (f a) (f a)).1 refl))
      ∙ find_first-UniqueBy f q rows b u (λ x h. (c.equals_iff (f x) (f a)).0 h ∙ e) n
          ((c.equals_iff (f b) (f a)).1 (sym e)))
    where
      q : R → Bool
      q x = f x == f a

      some_eq : some a ≡ some b → a ≡ b
      some_eq h = cc h

  -- What a change of some rows leaves of the rows that it does not change.
  pub select-update_rows :
      (q p : R → Bool) (change : R → R) (rows : List R)
      → ((r : R) → In rows r → p r ≡ true → (q r ≡ false) × (q (change r) ≡ false))
      → select_rows q (update_rows p change rows) ≡ select_rows q rows
  unfolding select_rows update_rows
  select-update_rows q p change [] h = refl
  select-update_rows q p change (r ∷ rows) h =
      let rest = select-update_rows q p change rows (λ x m. h x (inr m)) in
      elim (Bool-cases (p r)) [
        | inl e ↦ let (before, after) = h r (inl refl) e in rw e (rw (before, after) rest)
        | inr e ↦ rw e (elim (Bool-cases (q r)) [
          | inl k ↦ rw k (ap (λ (x : List R). r ∷ x) rest)
          | inr k ↦ rw k rest
        ])
      ]

  pub select-delete_rows :
      (q p : R → Bool) (rows : List R)
      → ((r : R) → In rows r → p r ≡ true → q r ≡ false)
      → select_rows q (delete_rows p rows) ≡ select_rows q rows
  unfolding select_rows delete_rows
  select-delete_rows q p [] h = refl
  select-delete_rows q p (r ∷ rows) h =
      let rest = select-delete_rows q p rows (λ x m. h x (inr m)) in
      elim (Bool-cases (p r)) [
        | inl e ↦ rw e (rw (h r (inl refl) e) rest)
        | inr e ↦ rw e (elim (Bool-cases (q r)) [
          | inl k ↦ rw k (ap (λ (x : List R). r ∷ x) rest)
          | inr k ↦ rw k rest
        ])
      ]
