-- ===== src/Authz/Intersection.antt =====
-- Attenuation against decisions: `Attenuate` of internal/authz/attenuate.go against `Can`.
use mathlib.Core.Path.{subst}
use kannon.Base.{
  ◌≡◌, refl, sym, ◌↔◌, true, List, All, All-map, All-In, Some, Some-witness, In-All, In-Some,
}
use kannon.Authz.Action.{Action}
use kannon.Authz.Resource.{Resource}
use kannon.Authz.Anchor.{anchor_of, reaches}
use kannon.Authz.Grant.{Grant}
use kannon.Authz.Principal.{Principal}
use kannon.Authz.Decide.{can, grant_permits}
use kannon.Authz.Attenuate.{narrows, attenuate, nothing_asked}
use kannon.Authz.Authority.{
  GrantPermits, can-Permits, Permits-can, grant_permits-GrantPermits, GrantPermits-grant_permits,
}
use kannon.Authz.Placement.{IsPlaced}
use kannon.Authz.Narrowing.{
  Narrows, narrowed_grant, narrows-Narrows, narrowed-GrantPermits, path_reached,
}
use kannon.Authz.Attenuation.{ComesFrom, narrow_all-ComesFrom, narrow_all_does}

-- A Grant of `p` narrows to a Resource that was asked for, and so narrowed permits `a` on `t`.
abbrev pub PermitsWithin : Principal → List Resource → Action → Resource → Type 0
PermitsWithin p rs a t =
    Some
      (λ r.
        Some (λ g. (narrows r g ≡ true) × (grant_permits a t (narrowed_grant g r) ≡ true)) p.grants)
      rs

module _ (p : Principal) (rs : List Resource) where
  grants-ComesFrom : All (ComesFrom p.grants rs) (attenuate p rs).0.grants
  unfolding attenuate
  grants-ComesFrom = narrow_all-ComesFrom p.grants rs rs nothing_asked (All-In rs) tt

  attenuate_sound :
      (a : Action) (t : Resource) → can (attenuate p rs).0 a t ≡ true → PermitsWithin p rs a t
  attenuate_sound a t h =
      let (n, m, permits) =
        Some-witness (GrantPermits a t) (attenuate p rs).0.grants
          (can-Permits (attenuate p rs).0 a t h) in
      let from = In-All (ComesFrom p.grants rs) (attenuate p rs).0.grants n m grants-ComesFrom in
      In-Some _ rs from.resource from.was_asked (
        In-Some _ p.grants from.source from.held (
          from.does_narrow,
          GrantPermits-grant_permits a t (narrowed_grant from.source from.resource)
              (subst (GrantPermits a t) from.made permits),
        ))

  attenuate_complete :
      (a : Action) (t : Resource) → PermitsWithin p rs a t → can (attenuate p rs).0 a t ≡ true
  attenuate_complete a t h =
      let (r, asked, k) = Some-witness _ rs h in
      let (g, held, both) = Some-witness _ p.grants k in
      Permits-can (attenuate p rs).0 a t (
        In-Some (GrantPermits a t) (attenuate p rs).0.grants (narrowed_grant g r)
          (unfold attenuate in narrow_all_does p.grants rs nothing_asked r tt asked g held both.0)
          (grant_permits-GrantPermits a t (narrowed_grant g r) both.1))

  -- The attenuated Principal may do `a` on `t` exactly when some Resource that was asked for is
  -- one that a Grant of the Principal narrows to, and that Grant's Role, anchored at that Resource,
  -- permits `a` on `t`.
  pub attenuate_iff :
      (a : Action) (t : Resource) → (can (attenuate p rs).0 a t ≡ true) ↔ PermitsWithin p rs a t
  attenuate_iff a t = (attenuate_sound a t, attenuate_complete a t)

narrowed-IsPlaced : (r : Resource) (g : Grant) → Narrows r g → IsPlaced (narrowed_grant g r)
narrowed-IsPlaced r g n = record { def = n.def; known = n.known; admitted = n.admitted }

from-IsPlaced :
    (grants : List Grant) (rs : List Resource) (n : Grant) → ComesFrom grants rs n → IsPlaced n
from-IsPlaced grants rs n from = subst IsPlaced (sym from.made) (
    narrowed-IsPlaced from.resource from.source
      (narrows-Narrows from.resource from.source from.does_narrow))

-- The Grants of an attenuated Principal are placed.
pub attenuate-IsPlaced :
    (p : Principal) (rs : List Resource) → All IsPlaced (attenuate p rs).0.grants
attenuate-IsPlaced p rs =
    All-map (attenuate p rs).0.grants (from-IsPlaced p.grants rs) (grants-ComesFrom p rs)

-- Attenuation never widens: of a Principal whose Grants are placed, whatever the attenuated
-- Principal may do the Principal itself may do, and it lies at or beneath a Resource that was asked
-- for. The identifier and the Attribution do not change.
pub attenuate-narrows :
    (p : Principal) (rs : List Resource) (a : Action) (t : Resource)
    → All IsPlaced p.grants
    → can (attenuate p rs).0 a t ≡ true
    → (can p a t ≡ true)
      × Some (λ r. reaches (anchor_of r) t ≡ true) rs
      × ((attenuate p rs).0.id ≡ p.id)
      × ((attenuate p rs).0.attribution ≡ p.attribution)
attenuate-narrows p rs a t placed h =
    let (r, asked, k) = Some-witness _ rs (attenuate_sound p rs a t h) in
    let (g, held, both) = Some-witness _ p.grants k in
    let n = narrows-Narrows r g both.0 in
    let permits' = grant_permits-GrantPermits a t (narrowed_grant g r) both.1 in
    (
      Permits-can p a t (
          In-Some (GrantPermits a t) p.grants g held
            (narrowed-GrantPermits a t g r n (In-All IsPlaced p.grants g held placed) permits')),
      In-Some _ rs r asked (path_reached a r t g permits'),
      unfold attenuate in refl,
      unfold attenuate in refl,
    )
