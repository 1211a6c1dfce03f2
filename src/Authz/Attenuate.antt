-- ===== src/Authz/Attenuate.antt =====
-- internal/authz/attenuate.go: narrowing a Principal to concrete Resources.
use kannon.Base.{
  Bool, false, ◌&&◌, none, some, List, [], ◌∷◌, ◌++◌, any, contains, ◌==◌, nat_eq, list_eq,
  if◌then◌else◌,
}
use kannon.Authz.Resource.{Resource, equal}
use kannon.Authz.Anchor.{anchor_of, kind, reaches}
use kannon.Authz.Role.{RoleName, lookup_role, admits_narrowing_to}
use kannon.Authz.Grant.{Grant}
use kannon.Authz.Principal.{Principal}

-- the three `continue`s of the loop over the Grants, for a Role not yet taken
unfoldable pub narrows : Resource → Grant → Bool
narrows r g = elim (lookup_role g.role) [
  | none ↦ false
  | some def ↦ reaches g.anchor r && admits_narrowing_to def.scope (kind (anchor_of r))
]

-- what the loop over the Grants has taken for one Resource
pub record Taken : Type 0 where
  pub roles : List RoleName
  pub narrowed : List Grant

unfoldable pub take_grant : Resource → Grant → Taken → Taken
take_grant r g t =
    if contains t.roles g.role
    then t
    else if narrows r g
    then record {
      roles = t.roles ++ (g.role ∷ []);
      narrowed = t.narrowed ++ (record { role = g.role; anchor = anchor_of r } ∷ []);
    }
    else t

unfoldable pub take_grants : Resource → List Grant → Taken → Taken
take_grants r [] t = t
take_grants r (g ∷ gs) t = take_grants r gs (take_grant r g t)

pub record Narrowing : Type 0 where
  pub narrowed : List Grant
  pub dropped : List Resource
  pub asked : List Resource

-- one round of the loop over the Resources
unfoldable pub narrow_to : List Grant → Resource → Narrowing → Narrowing
narrow_to grants r n =
    if any (equal r) n.asked
    then n
    else (let t = take_grants r grants (record { roles = []; narrowed = n.narrowed }) in
        record {
          narrowed = t.narrowed;
          dropped = if t.roles == [] then n.dropped ++ (r ∷ []) else n.dropped;
          asked = n.asked ++ (r ∷ []);
        })

unfoldable pub narrow_all : List Grant → List Resource → Narrowing → Narrowing
narrow_all grants [] n = n
narrow_all grants (r ∷ rs) n = narrow_all grants rs (narrow_to grants r n)

abbrev pub nothing_asked : Narrowing
nothing_asked = record { narrowed = []; dropped = []; asked = [] }

unfoldable pub attenuate : Principal → List Resource → Principal × List Resource
attenuate p resources =
    let n = narrow_all p.grants resources nothing_asked in
    (record { id = p.id; grants = n.narrowed; attribution = p.attribution }, n.dropped)
