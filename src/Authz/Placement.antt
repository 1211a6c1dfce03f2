-- ===== src/Authz/Placement.antt =====
-- Grants whose Role fits the kind of their Anchor: internal/authz/grant.go and role.go.
use kannon.Base.{
  ◌≡◌, refl, ◌⊎◌, inl, inr, true, Option, none, some, [], All, arith, nat_eq, list_eq, list_beq_iff,
}
use kannon.Authz.Anchor.{Anchor, AnchorKind, kind, is_grantable}
use kannon.Authz.Role.{
  RoleName, Role, Rule, role_admin, role_sender, AnchorScope, scope_any, scope_domain, scope_root,
  scope_undeclared, admin, sender, lookup_role, find_role, catalogue, admits_narrowing_to, accepts,
}
use kannon.Authz.Grant.{Grant, new_grant, fix_role, ok}
use kannon.Authz.Authority.{IsRole}

-- A Grant whose Role may stand on the kind of its Anchor: what `NewGrant` and `Attenuate` make.
pub record IsPlaced (g : Grant) : Type 0 where
  pub def : Role
  pub known : IsRole g.role def
  pub admitted : admits_narrowing_to def.scope (kind g.anchor) ≡ true

accepts-admits :
    (s : AnchorScope) (k : AnchorKind) → accepts s k ≡ true → admits_narrowing_to s k ≡ true
unfolding accepts admits_narrowing_to
accepts-admits scope_any k h = refl
accepts-admits scope_undeclared k h = ground arith
accepts-admits scope_root k h = h
accepts-admits scope_domain k h = h

fix_role-accepts :
    (role : RoleName) (def : Role) (anchor : Anchor) {g : Grant}
    → fix_role role def anchor ≡ ok g
    → (g.role ≡ role)
      × (g.anchor ≡ anchor)
      × (is_grantable (kind anchor) ≡ true)
      × (accepts def.scope (kind anchor) ≡ true)
unfolding fix_role
fix_role-accepts role def anchor h = ground arith

-- What `NewGrant` returns has the Role and the Anchor that were asked for, the Anchor is of a
-- grantable kind, and the Grant is placed.
pub new_grant-IsPlaced :
    (role : RoleName) (anchor : Anchor) {g : Grant}
    → new_grant role anchor ≡ ok g
    → (g.role ≡ role) × (g.anchor ≡ anchor) × (is_grantable (kind anchor) ≡ true) × IsPlaced g
unfolding new_grant
new_grant-IsPlaced role anchor {g} h = go (lookup_role role) refl
  where
    go :
        (o : Option Role)
        → lookup_role role ≡ o
        → (g.role ≡ role) × (g.anchor ≡ anchor) × (is_grantable (kind anchor) ≡ true) × IsPlaced g
    go none e = ground arith
    go (some def) e =
        let (same_role, same_anchor, grantable, accepted) =
          fix_role-accepts role def anchor {g = g} (ground arith) in
        (
          same_role,
          same_anchor,
          grantable,
          record {
            def = def;
            known = rw same_role e;
            admitted = rw same_anchor (accepts-admits def.scope (kind anchor) accepted);
          },
        )

-- The catalogue holds two Roles.
pub role_cases :
    (name : RoleName) (def : Role)
    → IsRole name def
    → ((name ≡ role_admin) × (def ≡ admin)) ⊎ ((name ≡ role_sender) × (def ≡ sender))
unfolding lookup_role find_role catalogue
role_cases name def h = ground (arith, list_beq_iff role_admin name, list_beq_iff role_sender name)

-- In the catalogue a rule with a suffix stands under a Domain scope.
pub suffix_scope :
    (name : RoleName) (def : Role)
    → IsRole name def
    → (All (λ (rl : Rule). rl.suffix ≡ []) def.rules) ⊎ (def.scope ≡ scope_domain)
suffix_scope name def h = elim (role_cases name def h) [
  | inl (_, e) ↦ inl (rw e (unfold admin in (refl, tt)))
  | inr (_, e) ↦ inr (rw e (unfold sender in refl))
]
