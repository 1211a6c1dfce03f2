-- ===== src/Authz/Grant.antt =====
-- internal/authz/grant.go: a Role fixed to an Anchor.
use kannon.Base.{not, none, some, Text, text, ◌++◌, if◌then◌else◌}
use kannon.Authz.Anchor
use kannon.Authz.Anchor.{Anchor, AnchorKind, kind, is_grantable, names_domains_collection}
use kannon.Authz.Role.{RoleName, Role, AnchorScope, accepts, lookup_role}

pub record Grant : Type 0 where
  pub role : RoleName
  pub anchor : Anchor

-- The errors of `NewGrant`, with what each message reports.
pub data GrantError : Type 0 where
  unknown_role : RoleName → GrantError
  did_you_mean_all_domains : Anchor → GrantError
  not_grantable : Anchor → GrantError
  wrong_kind : RoleName → AnchorScope → AnchorKind → Anchor → GrantError

pub data GrantResult : Type 0 where
  ok : Grant → GrantResult
  err : GrantError → GrantResult

-- the part of `NewGrant` below the lookup
unfoldable pub fix_role : RoleName → Role → Anchor → GrantResult
fix_role role def anchor =
    if not (is_grantable (kind anchor))
    then (if names_domains_collection anchor
        then err (did_you_mean_all_domains anchor)
        else err (not_grantable anchor))
    else if not (accepts def.scope (kind anchor))
    then err (wrong_kind role def.scope (kind anchor) anchor)
    else ok (record { role = role; anchor = anchor })

unfoldable pub new_grant : RoleName → Anchor → GrantResult
unfolding fix_role
new_grant role anchor = elim (lookup_role role) [
  | none ↦ err (unknown_role role)
  | some def ↦ fix_role role def anchor
]

-- `String`, for display
unfoldable pub string : Grant → Text
unfolding Anchor.string
string g = g.role ++ (text " on " ++ Anchor.string g.anchor)
