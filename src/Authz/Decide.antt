-- ===== src/Authz/Decide.antt =====
-- internal/authz/authz.go: `Can` and `Require`.
use kannon.Base.{Bool, false, not, ◌&&◌, Option, none, some, any, if◌then◌else◌}
use kannon.Authz.Action.{Action}
use kannon.Authz.Resource.{Resource, covers}
use kannon.Authz.Anchor.{Anchor, extend}
use kannon.Authz.Role.{Rule, holds, lookup_role}
use kannon.Authz.Grant.{Grant}
use kannon.Authz.Principal.{Principal}

-- one round of the loop over a Role's rules
unfoldable pub rule_permits : Anchor → Action → Resource → Rule → Bool
rule_permits anchor a r rl = holds rl a && covers (extend anchor rl.suffix) r

-- one round of the loop over the Grants
unfoldable pub grant_permits : Action → Resource → Grant → Bool
unfolding rule_permits
grant_permits a r g = elim (lookup_role g.role) [
  | none ↦ false
  | some def ↦ any (rule_permits g.anchor a r) def.rules
]

unfoldable pub can : Principal → Action → Resource → Bool
unfolding grant_permits
can p a r = any (grant_permits a r) p.grants

pub data Forbidden : Type 0 where
  forbidden : Forbidden

-- `none` is a nil error
unfoldable pub require : Principal → Action → Resource → Option Forbidden
require p a r = if not (can p a r) then some forbidden else none
