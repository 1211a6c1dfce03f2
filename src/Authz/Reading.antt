-- ===== src/Authz/Reading.antt =====
-- What a Principal may do, read off its Grants: `Can` of internal/authz/authz.go with the two Roles of
-- internal/authz/role.go and the paths of internal/authz/anchor.go and resource.go.
use mathlib.Core.Path.{subst}
use kannon.Base.{
  ◌≡◌, refl, sym, ◌⊎◌, inl, inr, ◌↔◌, true, some, [], ◌∷◌, Some, Some-map, In, list_beq,
  list_beq_iff, nat_eq, list_eq, arith,
}
use kannon.Authz.Action.{Action, create, all_actions}
use kannon.Authz.Resource.{Resource, seg_batches}
use kannon.Authz.Role.{
  Role, RoleName, role_admin, role_sender, admin, sender, at_rule, on_rule, catalogue, find_role,
  lookup_role,
}
use kannon.Authz.Grant.{Grant}
use kannon.Authz.Principal.{Principal}
use kannon.Authz.Decide.{can}
use kannon.Authz.Authority.{RulePermits, GrantPermits, can-Permits, Permits-can}
use kannon.Authz.Paths.{Reaches, covers-Reaches, Reaches-covers}

-- What a Grant confers: the Role admin every Action on what its Anchor reaches, the Role sender the
-- creation of what lies under the segment `batches` beneath its Anchor.
abbrev pub Confers : Action → Resource → Grant → Type 0
Confers a r g =
    ((g.role ≡ role_admin) × In all_actions a × Reaches g.anchor [] r)
    ⊎ ((g.role ≡ role_sender) × (a ≡ create) × Reaches g.anchor (seg_batches ∷ []) r)

role_cases :
    (name : RoleName) (def : Role)
    → lookup_role name ≡ some def
    → ((name ≡ role_admin) × (def ≡ admin)) ⊎ ((name ≡ role_sender) × (def ≡ sender))
unfolding lookup_role find_role catalogue
role_cases name def e = ground (arith, list_beq_iff admin.name name, list_beq_iff sender.name name)

GrantPermits-Confers : (a : Action) (r : Resource) (g : Grant) → GrantPermits a r g → Confers a r g
unfolding admin sender at_rule on_rule
GrantPermits-Confers a r g h = elim (role_cases g.role h.def h.known) [
  | inl (name, def) ↦
      elim (subst (λ (d : Role). Some (RulePermits g.anchor a r) d.rules) def h.rule) [
        | inl k ↦ inl (name, k.states, covers-Reaches g.anchor [] r k.reached)
        | inr k ↦ absurd k
      ]
  | inr (name, def) ↦
      elim (subst (λ (d : Role). Some (RulePermits g.anchor a r) d.rules) def h.rule) [
        | inl k ↦ inr (name, made k.states, covers-Reaches g.anchor (seg_batches ∷ []) r k.reached)
        | inr k ↦ absurd k
      ]
]
  where
    made : Some (λ b. b ≡ a) (create ∷ []) → a ≡ create
    made (inl e) = sym e
    made (inr e) = absurd e

Confers-GrantPermits : (a : Action) (r : Resource) (g : Grant) → Confers a r g → GrantPermits a r g
unfolding lookup_role find_role catalogue admin sender at_rule on_rule list_beq
Confers-GrantPermits a r g (inl (name, states, reach)) = record {
  def = admin;
  known = rw name refl;
  rule = inl (record { states = states; reached = Reaches-covers g.anchor [] r reach });
}
Confers-GrantPermits a r g (inr (name, made, reach)) = record {
  def = sender;
  known = rw name refl;
  rule = inl (record {
    states = inl (sym made);
    reached = Reaches-covers g.anchor (seg_batches ∷ []) r reach;
  });
}

-- `Can` answers true exactly when the Resource names something at every level and some Grant confers
-- the Action on it. A Grant of the Role admin confers the six Actions, on everything where it is
-- anchored at the root, and on each path that its Anchor's segments match, followed by anything. A
-- Grant of the Role sender confers `create`, on each such path that goes on with the segment
-- `batches`. An Anchor other than the root confers nothing unless it has segments, all of them named.
pub can_iff :
    (p : Principal) (a : Action) (r : Resource) → (can p a r ≡ true) ↔ Some (Confers a r) p.grants
can_iff p a r = (
  (λ h. Some-map p.grants (GrantPermits-Confers a r) (can-Permits p a r h)),
  (λ h. Permits-can p a r (Some-map p.grants (Confers-GrantPermits a r) h)),
)
