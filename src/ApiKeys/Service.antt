-- ===== src/ApiKeys/Service.antt =====
-- internal/apikeys/service.go and ref.go: the operations on API Keys, each behind its check.
use kannon.Base.{ℕ, Bool, true, false, Option, none, some, List, Text}
use kannon.Values
use kannon.Values.{DomainName, ParseResult}
use kannon.Authz.Action.{create, read, list, delete}
use kannon.Authz.Resource.{Resource}
use kannon.Authz.Resource
use kannon.Authz.Principal.{Principal}
use kannon.Authz.Guard.{World, Operation, GuardError, from_operation, guard}
use kannon.Authz.Guard
use kannon.ApiKeys.{ApiKey, CreateResult, KeyError, parse_id, new_api_key, is_valid, deactivate}
use kannon.ApiKeys
use kannon.ApiKeys.Store.{
  Database, KeyRow, KeyRef, StoreError, Fetched, failed, found, refused, Pagination, create_row,
  get_by_id, get_by_key_hash, update, list_keys, count_keys,
}

pub data ServiceError : Type 0 where
  invalid : KeyError → ServiceError
  store : StoreError → ServiceError

pub data RefResult : Type 0 where
  bad_domain : Values.ParseError → RefResult
  bad_id : KeyError → RefResult
  ref : KeyRef → RefResult

-- `ParseKeyRef`
unfoldable pub parse_key_ref : (ℕ → ℕ) → Text → Text → RefResult
parse_key_ref other domain id = elim (Values.parse other domain) [
  | ParseResult.err e ↦ bad_domain e
  | ParseResult.ok d ↦ elim (parse_id id) [
    | ApiKeys.Result.err e ↦ bad_id e
    | ApiKeys.Result.ok i ↦ ref (record { domain = d; id = i })
  ]
]

-- `resourceOf`
unfoldable pub resource_of : KeyRef → Resource
resource_of r = Resource.api_key r.domain r.id

-- The table of keys as the state that the operations act on.
abbrev pub KeyOperation : Type 0 → Type 0
KeyOperation T = Operation (List KeyRow) ServiceError T

unfoldable pub with_rows : List KeyRow → World (List KeyRow) → World (List KeyRow)
with_rows rows w = record w { state = rows }

unfoldable pub answer : {T : Type 0} → Fetched T → Guard.Result ServiceError T
answer (failed e) = Guard.Result.err (from_operation (store e))
answer (found t) = Guard.Result.ok t

-- what a creation draws from the clocks and the source of randomness
pub record Draw : Type 0 where
  pub now : ℕ
  pub inserted_at : ℕ
  pub id : Text
  pub random : List ℕ

module _ (db : Database) (hash_key : Text → Text) where
  unfoldable pub insert_key : ℕ → CreateResult → KeyOperation CreateResult
  insert_key now result w = elim (create_row db now result.key w.state) [
    | none ↦ (w, Guard.Result.err (from_operation (store refused)))
    | some rows ↦ (with_rows rows w, Guard.Result.ok result)
  ]

  -- the function that `CreateKey` guards
  unfoldable pub create_unguarded : Draw → DomainName → Text → Option ℕ → KeyOperation CreateResult
  create_unguarded draw domain name expires_at w =
      elim (new_api_key hash_key draw.now draw.id draw.random domain name expires_at) [
        | ApiKeys.Result.err e ↦ (w, Guard.Result.err (from_operation (invalid e)))
        | ApiKeys.Result.ok result ↦ insert_key draw.inserted_at result w
      ]

  -- `CreateKey`
  unfoldable pub create_key :
      ℕ → Option Principal → Draw → DomainName → Text → Option ℕ → KeyOperation CreateResult
  create_key at ctx draw domain name expires_at =
      guard at ctx create (Resource.api_keys domain) (create_unguarded draw domain name expires_at)

  -- `GetKey`
  unfoldable pub get_key : ℕ → Option Principal → KeyRef → KeyOperation ApiKey
  get_key at ctx r = guard at ctx read (resource_of r) (λ w. (w, answer (get_by_id db r w.state)))

  -- the function that `ListKeys` guards
  unfoldable pub list_unguarded : DomainName → Bool → Pagination → KeyOperation (List ApiKey × ℕ)
  list_unguarded domain only_active page w = elim (list_keys db domain only_active page w.state) [
    | failed e ↦ (w, Guard.Result.err (from_operation (store e)))
    | found keys ↦ (w, Guard.Result.ok (keys, count_keys domain only_active w.state))
  ]

  -- `ListKeys`
  unfoldable pub list_keys_of :
      ℕ → Option Principal → DomainName → Bool → Pagination → KeyOperation (List ApiKey × ℕ)
  list_keys_of at ctx domain only_active page =
      guard at ctx list (Resource.api_keys domain) (list_unguarded domain only_active page)

  -- the function that `DeactivateKey` guards
  unfoldable pub deactivate_unguarded : ℕ → KeyRef → KeyOperation ApiKey
  deactivate_unguarded now r w =
      let (rows, result) = update db r (λ k. some (deactivate now k)) w.state in
      (with_rows rows w, answer result)

  -- `DeactivateKey`
  unfoldable pub deactivate_key : ℕ → Option Principal → ℕ → KeyRef → KeyOperation ApiKey
  deactivate_key at ctx now r = guard at ctx delete (resource_of r) (deactivate_unguarded now r)

  -- `ValidateForAuth`; every refusal is `ErrKeyNotFound`, here `none`
  unfoldable pub validate_for_auth : ℕ → DomainName → Text → List KeyRow → Option ApiKey
  validate_for_auth now domain key rows = elim (get_by_key_hash db domain (hash_key key) rows) [
    | failed e ↦ none
    | found k ↦ elim (is_valid now k) [ true ↦ some k | false ↦ none ]
  ]
