-- ===== src/Authz/Role.antt =====
-- internal/authz/role.go: what a Role may do, and to which kinds of things.
use kannon.Base.{
  Bool, true, false, Option, none, some, List, [], ◌∷◌, Text, text, contains, ◌==◌, nat_eq, list_eq,
  if◌then◌else◌,
}
use kannon.Authz.Action.{Action, create, all_actions}
use kannon.Authz.Resource.{seg_batches}
use kannon.Authz.Anchor.{AnchorKind, kind_root, kind_domain, is_grantable}

abbrev pub RoleName : Type 0
RoleName = Text

abbrev pub role_admin : RoleName
role_admin = text "admin"

abbrev pub role_sender : RoleName
role_sender = text "sender"

pub data AnchorScope : Type 0 where
  scope_undeclared scope_root scope_domain scope_any : AnchorScope

abbrev pub is_root_kind : AnchorKind → Bool
is_root_kind kind_root = true
is_root_kind _ = false

abbrev pub is_domain_kind : AnchorKind → Bool
is_domain_kind kind_domain = true
is_domain_kind _ = false

unfoldable pub accepts : AnchorScope → AnchorKind → Bool
unfolding is_grantable
accepts scope_undeclared k = false
accepts scope_any k = is_grantable k
accepts scope_root k = is_root_kind k
accepts scope_domain k = is_domain_kind k

unfoldable pub admits_narrowing_to : AnchorScope → AnchorKind → Bool
admits_narrowing_to scope_any k = true
admits_narrowing_to scope_root k = is_root_kind k
admits_narrowing_to scope_domain k = is_domain_kind k
admits_narrowing_to scope_undeclared k = false

abbrev pub ChildKind : Type 0
ChildKind = List Text

-- the set of Actions as the list of its members
pub record Rule : Type 0 where
  pub actions : List Action
  pub suffix : ChildKind

-- `at`
unfoldable pub at_rule : List Action → Rule
at_rule actions = record { actions = actions; suffix = [] }

-- `on`
unfoldable pub on_rule : ChildKind → List Action → Rule
on_rule k actions = record { actions = actions; suffix = k }

unfoldable pub holds : Rule → Action → Bool
holds r a = contains r.actions a

pub record Role : Type 0 where
  pub name : RoleName
  pub scope : AnchorScope
  pub rules : List Rule

unfoldable pub admin : Role
unfolding at_rule
admin = record { name = role_admin; scope = scope_any; rules = at_rule all_actions ∷ [] }

unfoldable pub sender : Role
unfolding on_rule
sender = record {
  name = role_sender;
  scope = scope_domain;
  rules = on_rule (seg_batches ∷ []) (create ∷ []) ∷ [];
}

unfoldable pub catalogue : List Role
unfolding admin sender
catalogue = admin ∷ sender ∷ []

-- the names of the catalogue differ, so the first entry of a name is the map's
unfoldable pub find_role : RoleName → List Role → Option Role
find_role name [] = none
find_role name (r ∷ rest) = if r.name == name then some r else find_role name rest

unfoldable pub lookup_role : RoleName → Option Role
unfolding find_role catalogue
lookup_role name = find_role name catalogue

-- `none` is the error
unfoldable pub parse_role_name : Text → Option RoleName
unfolding lookup_role
parse_role_name s = elim (lookup_role s) [ none ↦ none | some r ↦ some s ]
