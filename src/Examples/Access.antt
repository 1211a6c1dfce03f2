-- ===== src/Examples/Access.antt =====
-- Access at concrete inputs: internal/authz and internal/apikeys.
use kannon.Base.{
  ℕ, ◌+◌, ◌≡◌, refl, ◌↔◌, true, false, none, some, [], ◌∷◌, Text, text, Some, any, contains,
  trim_space, trim_left, is_space, list_beq, nat_eq, list_eq,
}
use kannon.Values
use kannon.Authz.Action.{create, read}
use kannon.Authz.Resource.{
  Resource, domain, batches, templates, under, literal_segment, covers, covers_segments, equal,
}
use kannon.Authz.Resource
use kannon.Authz.Anchor
use kannon.Authz.Anchor.{
  Anchor, domain_anchor, anchor_of, extend, kind, is_grantable, all_named, first_is_literal,
  reaches,
}
use kannon.Authz.Role.{
  role_admin, role_sender, admin, catalogue, find_role, lookup_role, holds, at_rule,
  admits_narrowing_to, accepts,
}
use kannon.Authz.Grant.{Grant, new_grant, fix_role, ok}
use kannon.Authz.Principal.{new_principal, Principal}
use kannon.Authz.Decide.{can, grant_permits, rule_permits}
use kannon.Authz.Attenuate.{attenuate, narrow_all, narrow_to, narrows, take_grants, take_grant}
use kannon.Authz.Guard.{World, Operation, Result, guard}
use kannon.Authz.Reading.{Confers, can_iff}
use kannon.Authz.Placement.{IsPlaced, new_grant-IsPlaced}
use kannon.Authz.Intersection.{PermitsWithin, attenuate_iff, attenuate-narrows}
use kannon.Authz.Enforcement.{guard_lem, guarded}
use kannon.ApiKeys.{ApiKey, principal, resolved}
use kannon.ApiKeys.Authority.{Sends, principal-can_iff}
use kannon.Examples.{acme}

abbrev pub acme_admin : Grant
acme_admin = record {
  role = role_admin;
  anchor = record {
    root = false;
    segments =
        record { literal = text "domains"; wildcard = false }
        ∷ record { literal = text "acme.test"; wildcard = false }
        ∷ [];
  };
}

abbrev pub owner : Principal
owner = record { id = text "owner"; grants = acme_admin ∷ []; attribution = [] }

acme_admin-IsPlaced : IsPlaced acme_admin
unfolding lookup_role find_role catalogue admin at_rule list_beq admits_narrowing_to kind
    literal_segment
acme_admin-IsPlaced = record { def = admin; known = refl; admitted = refl }

narrowed_reads : can (attenuate owner (templates acme ∷ [])).0 read (templates acme) ≡ true
unfolding attenuate narrow_all narrow_to narrows take_grants take_grant equal anchor_of reaches kind
    admits_narrowing_to can grant_permits rule_permits lookup_role find_role catalogue admin at_rule
    holds contains any list_beq extend Anchor.is_well_formed all_named literal_segment covers
    Resource.is_well_formed covers_segments templates under Values.string first_is_literal
narrowed_reads = refl

attenuate-narrows_example :
    (can owner read (templates acme) ≡ true)
    × Some (λ r. reaches (anchor_of r) (templates acme) ≡ true) (templates acme ∷ [])
    × ((attenuate owner (templates acme ∷ [])).0.id ≡ owner.id)
    × ((attenuate owner (templates acme ∷ [])).0.attribution ≡ owner.attribution)
attenuate-narrows_example =
    attenuate-narrows owner (templates acme ∷ []) read (templates acme) (acme_admin-IsPlaced, tt)
      narrowed_reads

attenuate_iff_example :
    (can (attenuate owner (templates acme ∷ [])).0 read (templates acme) ≡ true)
    ↔ PermitsWithin owner (templates acme ∷ []) read (templates acme)
attenuate_iff_example = attenuate_iff owner (templates acme ∷ []) read (templates acme)

can_iff_example :
    (can owner read (templates acme) ≡ true)
    ↔ Some (Confers read (templates acme)) (acme_admin ∷ [])
can_iff_example = can_iff owner read (templates acme)

new_grant-acme : new_grant role_admin acme_admin.anchor ≡ ok acme_admin
unfolding new_grant fix_role lookup_role find_role catalogue admin at_rule list_beq accepts kind
    literal_segment is_grantable Anchor.is_well_formed all_named first_is_literal
new_grant-acme = refl

new_grant-IsPlaced_example :
    (acme_admin.role ≡ role_admin)
    × (acme_admin.anchor ≡ acme_admin.anchor)
    × (is_grantable (kind acme_admin.anchor) ≡ true)
    × IsPlaced acme_admin
new_grant-IsPlaced_example =
    new_grant-IsPlaced role_admin acme_admin.anchor {g = acme_admin} new_grant-acme

-- an operation that counts its calls
abbrev counting : Operation ℕ Text ℕ
counting w = (record w { state = w.state + 1 }, Result.ok w.state)

abbrev quiet : World ℕ
quiet = record { records = []; state = 4 }

guard_lem_example :
    guard 10 (some owner) read (templates acme) counting quiet
    ≡ guarded 10 (some owner) read (templates acme) counting quiet
guard_lem_example = guard_lem 10 (some owner) read (templates acme) counting quiet

abbrev pub acme_key : ApiKey
acme_key = record {
  id = text "key_1";
  key_hash = text "hash";
  key_prefix = text "k_abcdef";
  name = text "mailer";
  domain = acme;
  created_at = 5;
  expires_at = some 100;
  is_active = true;
  deactivated_at = none;
}

abbrev pub acme_sender : Principal
acme_sender = record {
  id = text "key_1@acme.test";
  grants = record { role = role_sender; anchor = domain_anchor acme } ∷ [];
  attribution = [];
}

pub acme_key-principal : principal acme_key ≡ resolved acme_sender
unfolding principal new_grant lookup_role list_beq is_grantable kind domain_anchor accepts
    new_principal trim_space trim_left is_space
acme_key-principal = refl

principal-can_iff_example :
    (can acme_sender create (batches acme) ≡ true) ↔ Sends acme create (batches acme)
principal-can_iff_example =
    principal-can_iff acme_key acme_sender create (batches acme) acme_key-principal
