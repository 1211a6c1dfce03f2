-- ===== src/Examples/Keys.antt =====
-- The key store at concrete inputs: internal/apikeys/service.go and internal/db/key_repo.go.
use kannon.Authz.Role.{admin, at_rule, catalogue, find_role, holds, lookup_role, on_rule, sender}
use kannon.Authz.Resource
use kannon.Authz.Resource.{api_key, covers, covers_segments, literal_segment, under}
use kannon.Authz.Decide.{can, grant_permits, require, rule_permits}
use kannon.Authz.Anchor.{all_named, extend, is_well_formed}
use kannon.Base.{
  ◌≡◌, refl, ◌↔◌, true, false, none, some, List, [], ◌∷◌, Text, text, list_beq, nat_eq, list_eq,
  any, find_first, update_rows, byte_len, contains, contains_text, has_prefix, has_suffix, is_space,
  trim_left, trim_space,
}
use kannon.Base.Int.{pos}
use kannon.Values
use kannon.Authz.Guard.{World, Result, guard, guard_claim, guard_principal, record_decision}
use kannon.ApiKeys.{ApiKey, is_valid, deactivate}
use kannon.ApiKeys.Store.{
  Database, KeyRow, KeyRef, fetched, get_by_id, names_id, row_to_api_key, stored_time, update,
  update_key, write_row, written_row,
}
use kannon.ApiKeys.Service.{
  Draw, validate_for_auth, create_key, get_key, list_keys_of, deactivate_key, answer,
  deactivate_unguarded, resource_of, with_rows,
}
use kannon.ApiKeys.Views.{view, IsCanonical}
use kannon.ApiKeys.Runs.{
  Call, create_call, get_call, deactivate_call, serve_all, replay, view-serve_all,
}
use kannon.ApiKeys.Invariants.{IsSound}
use kannon.ApiKeys.Authentication.{validate_for_auth_iff}
use kannon.ApiKeys.Revocation.{deactivate_key_final}
use kannon.ApiKeys.Separation.{IsForbidden, principal-IsForbidden}
use kannon.Examples.{acme}
use kannon.Examples.Access.{owner, acme_key, acme_sender, acme_key-principal}

abbrev pub disk : Database
disk = record {
  other = λ r. r;
  known_domain = λ d. true;
  stored = λ t. t;
  latest_first = λ rows. rows;
}

-- a hash of a text, for the examples
abbrev pub hash : Text → Text
hash t = text "#"

abbrev pub acme_row : KeyRow
acme_row = record {
  id = text "key_1";
  name = text "mailer";
  domain = text "acme.test";
  created_at = 5;
  expires_at = some 100;
  is_active = true;
  deactivated_at = none;
  key_hash = text "#";
  key_prefix = text "k_abcdef";
}

abbrev stored_acme : World (List KeyRow)
stored_acme = record { records = []; state = acme_row ∷ [] }

abbrev key_1 : KeyRef
key_1 = record { domain = acme; id = text "key_1" }

abbrev pub loaded : ApiKey
loaded = record acme_key { key_hash = text "#" }

pub acme-IsCanonical : IsCanonical disk acme
unfolding Values.parse Values.validate list_beq Values.to_lower trim_space trim_left is_space
    byte_len has_prefix has_suffix contains_text Values.check_runes Values.is_allowed
acme-IsCanonical = refl

one-IsSound : IsSound stored_acme.state
unfolding any
one-IsSound = ((refl, tt), (refl, tt))

abbrev draw : Draw
draw = record { now = 1; inserted_at = 2; id = text "key_2"; random = 7 ∷ 8 ∷ [] }

abbrev requests : List Call
requests =
    create_call 1 (some owner) draw acme (text "spare") none
    ∷ get_call 3 none key_1
    ∷ deactivate_call 4 (some owner) 4 key_1
    ∷ []

view-serve_all_example :
    view disk (serve_all disk hash requests stored_acme).0.state
    ≡ replay disk (serve_all disk hash requests stored_acme).1 (view disk stored_acme.state)
view-serve_all_example =
    view-serve_all disk hash requests stored_acme
      (acme-IsCanonical, (acme-IsCanonical, (acme-IsCanonical, tt)))

validate_for_auth_iff_example :
    (validate_for_auth disk hash 60 acme (text "k_secret") stored_acme.state ≡ some loaded) ↔ (
      (view disk stored_acme.state key_1 ≡ some loaded)
      × (loaded.key_hash ≡ hash (text "k_secret"))
      × (is_valid 60 loaded ≡ true))
validate_for_auth_iff_example =
    validate_for_auth_iff disk hash 60 acme (text "k_secret") stored_acme.state loaded one-IsSound
      acme-IsCanonical

deactivated_acme : deactivate_key disk hash 50 (some owner) 50 key_1 stored_acme ≡ (
  (deactivate_key disk hash 50 (some owner) 50 key_1 stored_acme).0,
  Result.ok (deactivate 50 loaded),
)
unfolding deactivate_key guard guard_principal require can any lookup_role list_beq holds contains
    covers resource_of api_key extend guard_claim deactivate_unguarded answer update with_rows
    fetched get_by_id names_id row_to_api_key stored_time update_key write_row written_row
    deactivate all_named is_well_formed grant_permits rule_permits record_decision covers_segments
    Resource.is_well_formed literal_segment under admin at_rule catalogue find_role on_rule sender
    byte_len contains_text has_prefix has_suffix is_space trim_left trim_space find_first
    update_rows Values.check_runes Values.is_allowed Values.parse Values.string Values.to_lower
    Values.validate
deactivated_acme = refl

same_hash_acme : hash (text "k_secret") ≡ (deactivate 50 loaded).key_hash
unfolding deactivate
same_hash_acme = refl

deactivate_key_final_example :
    validate_for_auth disk hash 90 acme
      (text "k_secret")
      (serve_all disk hash requests
        (deactivate_key disk hash 50 (some owner) 50 key_1 stored_acme).0).0.state
    ≡ none
deactivate_key_final_example =
    deactivate_key_final disk hash 50 (some owner) 50 key_1 stored_acme
      (deactivate_key disk hash 50 (some owner) 50 key_1 stored_acme).0 (deactivate 50 loaded)
      requests 90 acme (text "k_secret") one-IsSound acme-IsCanonical deactivated_acme
      same_hash_acme

principal-IsForbidden_example :
    IsForbidden stored_acme (create_key disk hash 6 (some acme_sender) draw acme (text "more") none)
    × IsForbidden stored_acme (get_key disk hash 6 (some acme_sender) key_1)
    × IsForbidden stored_acme (
        list_keys_of disk hash 6
          (some acme_sender)
          acme
          false
          (record { limit = pos 9; offset = pos 0 }))
    × IsForbidden stored_acme (deactivate_key disk hash 6 (some acme_sender) 6 key_1)
principal-IsForbidden_example =
    principal-IsForbidden acme_key acme_sender acme_key-principal disk hash 6 6 draw acme
      (text "more") none key_1 false (record { limit = pos 9; offset = pos 0 }) stored_acme
