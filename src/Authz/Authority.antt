-- ===== src/Authz/Authority.antt =====
-- What a Principal's Grants confer: `Can` of internal/authz/authz.go against a declarative reading.
use kannon.Base.{
  ◌≡◌, refl, true, Option, none, some, List, Text, All, Some, Some-map, any-Some, Some-any,
  and-true, arith, nat_eq, list_eq, contains-Some, Some-contains,
}
use kannon.Authz.Action.{Action}
use kannon.Authz.Resource.{Resource, covers}
use kannon.Authz.Anchor.{Anchor, extend}
use kannon.Authz.Role.{RoleName, Role, Rule, holds, lookup_role}
use kannon.Authz.Grant.{Grant}
use kannon.Authz.Principal.{Principal}
use kannon.Authz.Decide.{can, grant_permits, rule_permits}
use kannon.Authz.Coverage.{IsNamed, extend_path, covers-extend_path}

-- The Role is in the catalogue.
abbrev pub IsRole : RoleName → Role → Type 0
IsRole name def = lookup_role name ≡ some def

abbrev pub Holds : Rule → Action → Type 0
Holds rl a = Some (λ b. b ≡ a) rl.actions

-- One rule of one Grant states the Action and reaches the Resource.
pub record RulePermits (anchor : Anchor) (a : Action) (r : Resource) (rl : Rule) : Type 0 where
  pub states : Holds rl a
  pub reached : covers (extend anchor rl.suffix) r ≡ true

pub record GrantPermits (a : Action) (r : Resource) (g : Grant) : Type 0 where
  pub def : Role
  pub known : IsRole g.role def
  pub rule : Some (RulePermits g.anchor a r) def.rules

-- Some Grant of the Principal permits it: authority is the union of the Grants.
abbrev pub Permits : Principal → Action → Resource → Type 0
Permits p a r = Some (GrantPermits a r) p.grants

rule_permits-RulePermits :
    (anchor : Anchor) (a : Action) (r : Resource) (rl : Rule)
    → rule_permits anchor a r rl ≡ true
    → RulePermits anchor a r rl
unfolding rule_permits holds
rule_permits-RulePermits anchor a r rl h =
    let (states, reached) = and-true _ _ h in
    record { states = contains-Some rl.actions a states; reached = reached }

RulePermits-rule_permits :
    (anchor : Anchor) (a : Action) (r : Resource) (rl : Rule)
    → RulePermits anchor a r rl
    → rule_permits anchor a r rl ≡ true
unfolding rule_permits holds
RulePermits-rule_permits anchor a r rl h = rw (Some-contains rl.actions a h.states) (rw h.reached)

pub grant_permits-GrantPermits :
    (a : Action) (r : Resource) (g : Grant) → grant_permits a r g ≡ true → GrantPermits a r g
unfolding grant_permits
grant_permits-GrantPermits a r g h = go (lookup_role g.role) refl
  where
    go : (o : Option Role) → lookup_role g.role ≡ o → GrantPermits a r g
    go none e = ground arith
    go (some def) e = record {
      def = def;
      known = e;
      rule =
          Some-map def.rules (rule_permits-RulePermits g.anchor a r)
            (any-Some (rule_permits g.anchor a r) def.rules (ground arith));
    }

pub GrantPermits-grant_permits :
    (a : Action) (r : Resource) (g : Grant) → GrantPermits a r g → grant_permits a r g ≡ true
unfolding grant_permits
GrantPermits-grant_permits a r g h =
    rw (h.known, grant_permits)
      (Some-any (rule_permits g.anchor a r) h.def.rules
        (Some-map h.def.rules (RulePermits-rule_permits g.anchor a r) h.rule))

pub can-Permits : (p : Principal) (a : Action) (r : Resource) → can p a r ≡ true → Permits p a r
unfolding can
can-Permits p a r h =
    Some-map p.grants (grant_permits-GrantPermits a r) (any-Some (grant_permits a r) p.grants h)

pub Permits-can : (p : Principal) (a : Action) (r : Resource) → Permits p a r → can p a r ≡ true
unfolding can
Permits-can p a r h =
    Some-any (grant_permits a r) p.grants (Some-map p.grants (GrantPermits-grant_permits a r) h)

RulePermits-extend_path :
    (anchor : Anchor) (a : Action) (r : Resource) (tail : List Text)
    → All IsNamed tail
    → (rl : Rule) → RulePermits anchor a r rl
    → RulePermits anchor a (extend_path r tail) rl
RulePermits-extend_path anchor a r tail n rl h = record {
  states = h.states;
  reached = covers-extend_path (extend anchor rl.suffix) r tail h.reached n;
}

-- Authority over a path extends to everything beneath it: what a Principal may do on a Resource it
-- may do on every path that continues it by non-empty segments.
pub can-extend_path :
    (p : Principal) (a : Action) (r : Resource) (tail : List Text)
    → can p a r ≡ true
    → All IsNamed tail
    → can p a (extend_path r tail) ≡ true
can-extend_path p a r tail h n = Permits-can p a (extend_path r tail) (
    Some-map p.grants
      (λ g k. record {
        def = k.def;
        known = k.known;
        rule = Some-map k.def.rules (RulePermits-extend_path g.anchor a r tail n) k.rule;
      })
      (can-Permits p a r h))
