-- ===== src/Authz/Attenuation.antt =====
-- The loops of `Attenuate` (internal/authz/attenuate.go): which Grants they make.
use mathlib.Core.Path.{subst}
use kannon.Base.{
  ◌≡◌, refl, inl, inr, true, List, [], ◌∷◌, ◌++◌, All, All-map, All-append, All-In, Some-map,
  Some-append_left, Some-append_right, In, In-All, nat_eq, list_eq, list_beq_iff, contains,
  contains-Some, any, any-Some, Bool-cases,
}
use kannon.Authz.Resource.{Resource, equal}
use kannon.Authz.Anchor.{anchor_of}
use kannon.Authz.Role.{RoleName}
use kannon.Authz.Grant.{Grant}
use kannon.Authz.Attenuate.{
  Taken, Narrowing, narrows, take_grant, take_grants, narrow_to, narrow_all,
}
use kannon.Authz.Narrowing.{narrowed_grant}

-- A narrowed Grant has a Resource that was asked for, and a Grant that narrows to it.
pub record ComesFrom (grants : List Grant) (asked : List Resource) (n : Grant) : Type 0 where
  pub resource : Resource
  pub was_asked : In asked resource
  pub source : Grant
  pub held : In grants source
  pub does_narrow : narrows resource source ≡ true
  pub made : n ≡ narrowed_grant source resource

module _ (grants : List Grant) (asked : List Resource) where
  take_grant-ComesFrom :
      (r : Resource) (g : Grant) (t : Taken)
      → In asked r
      → In grants g
      → All (ComesFrom grants asked) t.narrowed
      → All (ComesFrom grants asked) (take_grant r g t).narrowed
  unfolding take_grant
  take_grant-ComesFrom r g t ir ig h = elim (Bool-cases (contains t.roles g.role)) [
    | inl e ↦ rw e h
    | inr e ↦ elim (Bool-cases (narrows r g)) [
      | inl d ↦
          rw (e, d)
            (All-append (ComesFrom grants asked) t.narrowed (narrowed_grant g r ∷ []) h (
              record {
                resource = r;
                was_asked = ir;
                source = g;
                held = ig;
                does_narrow = d;
                made = refl;
              },
              tt,
            ))
      | inr d ↦ rw (e, d) h
    ]
  ]

  take_grants-ComesFrom :
      (r : Resource) (gs : List Grant) (t : Taken)
      → In asked r
      → All (In grants) gs
      → All (ComesFrom grants asked) t.narrowed
      → All (ComesFrom grants asked) (take_grants r gs t).narrowed
  unfolding take_grants
  take_grants-ComesFrom r [] t ir ig h = h
  take_grants-ComesFrom r (g ∷ gs) t ir ig h =
      take_grants-ComesFrom r gs (take_grant r g t) ir ig.1 (take_grant-ComesFrom r g t ir ig.0 h)

  narrow_to-ComesFrom :
      (r : Resource) (n : Narrowing)
      → In asked r
      → All (ComesFrom grants asked) n.narrowed
      → All (ComesFrom grants asked) (narrow_to grants r n).narrowed
  unfolding narrow_to
  narrow_to-ComesFrom r n ir h = elim (Bool-cases (any (equal r) n.asked)) [
    | inl e ↦ rw e h
    | inr e ↦ rw e (
        take_grants-ComesFrom r grants (record { roles = []; narrowed = n.narrowed }) ir
          (All-In grants) h)
  ]

  pub narrow_all-ComesFrom :
      (rs : List Resource) (n : Narrowing)
      → All (In asked) rs
      → All (ComesFrom grants asked) n.narrowed
      → All (ComesFrom grants asked) (narrow_all grants rs n).narrowed
  unfolding narrow_all
  narrow_all-ComesFrom [] n ir h = h
  narrow_all-ComesFrom (r ∷ rs) n ir h =
      narrow_all-ComesFrom rs (narrow_to grants r n) ir.1 (narrow_to-ComesFrom r n ir.0 h)

-- The other way: every Grant that narrows to a Resource has its narrowed Grant.
abbrev HasRole : Resource → List Grant → RoleName → Type 0
HasRole r ns role = In ns (record { role = role; anchor = anchor_of r })

take_grant_keeps :
    (r : Resource) (g : Grant) (t : Taken) (x : Grant)
    → In t.narrowed x
    → In (take_grant r g t).narrowed x
unfolding take_grant
take_grant_keeps r g t x h = elim (Bool-cases (contains t.roles g.role)) [
  | inl e ↦ rw e h
  | inr e ↦ elim (Bool-cases (narrows r g)) [
    | inl d ↦ rw (e, d) (Some-append_left _ t.narrowed (narrowed_grant g r ∷ []) h)
    | inr d ↦ rw (e, d) h
  ]
]

take_grant-HasRole :
    (r : Resource) (g : Grant) (t : Taken)
    → All (HasRole r t.narrowed) t.roles
    → All (HasRole r (take_grant r g t).narrowed) (take_grant r g t).roles
unfolding take_grant
take_grant-HasRole r g t h = elim (Bool-cases (contains t.roles g.role)) [
  | inl e ↦ rw e h
  | inr e ↦ elim (Bool-cases (narrows r g)) [
    | inl d ↦
        rw (e, d)
          (All-append (HasRole r (t.narrowed ++ (narrowed_grant g r ∷ []))) t.roles (g.role ∷ [])
            (All-map t.roles (λ role k. Some-append_left _ t.narrowed (narrowed_grant g r ∷ []) k)
              h)
            (Some-append_right _ t.narrowed (narrowed_grant g r ∷ []) (inl refl), tt))
    | inr d ↦ rw (e, d) h
  ]
]

take_grant_takes :
    (r : Resource) (g : Grant) (t : Taken)
    → All (HasRole r t.narrowed) t.roles
    → narrows r g ≡ true
    → HasRole r (take_grant r g t).narrowed g.role
unfolding take_grant
take_grant_takes r g t h d = elim (Bool-cases (contains t.roles g.role)) [
  | inl e ↦ rw e (In-All (HasRole r t.narrowed) t.roles g.role (contains-Some t.roles g.role e) h)
  | inr e ↦ rw (e, d) (Some-append_right _ t.narrowed (narrowed_grant g r ∷ []) (inl refl))
]

take_grants_keeps :
    (r : Resource) (gs : List Grant) (t : Taken) (x : Grant)
    → In t.narrowed x
    → In (take_grants r gs t).narrowed x
unfolding take_grants
take_grants_keeps r [] t x h = h
take_grants_keeps r (g ∷ gs) t x h =
    take_grants_keeps r gs (take_grant r g t) x (take_grant_keeps r g t x h)

take_grants_takes :
    (r : Resource) (gs : List Grant) (t : Taken) (g : Grant)
    → All (HasRole r t.narrowed) t.roles
    → In gs g
    → narrows r g ≡ true
    → HasRole r (take_grants r gs t).narrowed g.role
unfolding take_grants
take_grants_takes r [] t g h m d = absurd m
take_grants_takes r (x ∷ gs) t g h (inl e) d =
    take_grants_keeps r gs (take_grant r x t) (narrowed_grant g r) (
      subst (λ (y : Grant). HasRole r (take_grant r x t).narrowed y.role) e
        (take_grant_takes r x t h (rw e d)))
take_grants_takes r (x ∷ gs) t g h (inr m) d =
    take_grants_takes r gs (take_grant r x t) g (take_grant-HasRole r x t h) m d

equal-eq : (r x : Resource) → equal r x ≡ true → x ≡ r
unfolding equal
equal-eq r x h = cc ((list_beq_iff r.segments x.segments).0 h)

module _ (grants : List Grant) where
  -- Everything that narrows to `r` has been narrowed to it.
  abbrev IsDone : List Grant → Resource → Type 0
  IsDone ns r = (g : Grant) → In grants g → narrows r g ≡ true → HasRole r ns g.role

  narrow_to_keeps :
      (r : Resource) (n : Narrowing) (x : Grant)
      → In n.narrowed x
      → In (narrow_to grants r n).narrowed x
  unfolding narrow_to
  narrow_to_keeps r n x h = elim (Bool-cases (any (equal r) n.asked)) [
    | inl e ↦ rw e h
    | inr e ↦ rw e (take_grants_keeps r grants (record { roles = []; narrowed = n.narrowed }) x h)
  ]

  narrow_to_does :
      (r : Resource) (n : Narrowing)
      → All (IsDone n.narrowed) n.asked
      → IsDone (narrow_to grants r n).narrowed r
  unfolding narrow_to
  narrow_to_does r n h g ig d = elim (Bool-cases (any (equal r) n.asked)) [
    | inl e ↦ rw e (
        In-All (IsDone n.narrowed) n.asked r
          (Some-map n.asked (equal-eq r) (any-Some (equal r) n.asked e)) h g ig d)
    | inr e ↦
        rw e (take_grants_takes r grants (record { roles = []; narrowed = n.narrowed }) g tt ig d)
  ]

  narrow_to-IsDone :
      (r : Resource) (n : Narrowing)
      → All (IsDone n.narrowed) n.asked
      → All (IsDone (narrow_to grants r n).narrowed) (narrow_to grants r n).asked
  unfolding narrow_to
  narrow_to-IsDone r n h = elim (Bool-cases (any (equal r) n.asked)) [
    | inl e ↦ rw e h
    | inr e ↦
        let t : Taken = record { roles = []; narrowed = n.narrowed } in
        rw e (
          All-append (IsDone (take_grants r grants t).narrowed) n.asked (r ∷ [])
            (All-map n.asked
              (λ x done g ig d. take_grants_keeps r grants t (narrowed_grant g x) (done g ig d)) h)
            ((λ g ig d. take_grants_takes r grants t g tt ig d), tt))
  ]

  narrow_all_keeps :
      (rs : List Resource) (n : Narrowing) (x : Grant)
      → In n.narrowed x
      → In (narrow_all grants rs n).narrowed x
  unfolding narrow_all
  narrow_all_keeps [] n x h = h
  narrow_all_keeps (r ∷ rs) n x h =
      narrow_all_keeps rs (narrow_to grants r n) x (narrow_to_keeps r n x h)

  pub narrow_all_does :
      (rs : List Resource) (n : Narrowing) (r : Resource)
      → All (IsDone n.narrowed) n.asked
      → In rs r
      → IsDone (narrow_all grants rs n).narrowed r
  unfolding narrow_all
  narrow_all_does [] n r h m g ig d = absurd m
  narrow_all_does (x ∷ rs) n r h (inl e) g ig d =
      narrow_all_keeps rs (narrow_to grants x n) (narrowed_grant g r)
        (rw (← e) (narrow_to_does x n h g ig (rw e d)))
  narrow_all_does (x ∷ rs) n r h (inr m) g ig d =
      narrow_all_does rs (narrow_to grants x n) r (narrow_to-IsDone x n h) m g ig d
