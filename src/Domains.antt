-- ===== src/Domains.antt =====
-- internal/domains, with the repository of internal/db/domains_repo.go over the table domains of
-- db/schema.sql: the sender Domains, their keys for signing and their ceilings on tracking.
pub mod Ceilings
use kannon.Base.{
  ℕ, zero, suc, ◌+◌, Bool, true, false, not, ◌&&◌, Option, none, some, List, [], ◌∷◌, ◌++◌, Text,
  length, leb, ◌==◌, nat_eq, list_eq, any, find_first, update_rows, if◌then◌else◌,
}
use kannon.Values
use kannon.Values.{DomainName, ParseResult}
use kannon.Tracking.{Policy, normalized}
use kannon.Storage.{StoreError, not_found, refused, not_canonical, Fetched, failed, found}
use kannon.Authz.Action.{create, read, list, update}
use kannon.Authz.Resource
use kannon.Authz.Principal.{Principal}
use kannon.Authz.Guard.{World, Operation, from_operation, guard}
use kannon.Authz.Guard

pub record Domain : Type 0 where
  pub id : ℕ
  pub domain : DomainName
  pub dkim_private_key : Text
  pub dkim_public_key : Text
  pub created_at : ℕ
  pub tracking : Policy

-- a row of the table
pub record DomainRow : Type 0 where
  pub id : ℕ
  pub domain : Text
  pub dkim_private_key : Text
  pub dkim_public_key : Text
  pub created_at : ℕ
  pub tracking : Policy

-- What is outside the code: the lower case of the runes past ASCII, the check of the column `domain`,
-- and the default of the column `tracking`.
pub record Database : Type 0 where
  pub other : ℕ → ℕ
  pub checked : Text → Bool
  pub default_tracking : Policy

-- what a creation draws: the serial identifier, the clock and the key pair, where one is generated
pub record Draw : Type 0 where
  pub id : ℕ
  pub now : ℕ
  pub keys : Option (Text × Text)

-- `rowToDomain`, with `Load`
unfoldable pub row_to_domain : (ℕ → ℕ) → DomainRow → Fetched Domain
row_to_domain other r = elim (Values.parse other r.domain) [
  | ParseResult.err e ↦ failed (not_canonical e)
  | ParseResult.ok name ↦ found (record {
    id = r.id;
    domain = name;
    dkim_private_key = r.dkim_private_key;
    dkim_public_key = r.dkim_public_key;
    created_at = r.created_at;
    tracking = normalized r.tracking;
  })
]

unfoldable pub names : Text → DomainRow → Bool
names domain r = r.domain == domain

-- `createDomain`: the width and the check of the column, and the unique name
unfoldable pub insert_domain : Database → DomainRow → List DomainRow → Option (List DomainRow)
insert_domain db r rows =
    if leb (length r.domain) 254 && db.checked r.domain && not (any (names r.domain) rows)
    then some (rows ++ r ∷ [])
    else none

-- `New` and `Create` of the repository: the row of a new Domain, if its keys were generated
unfoldable pub new_row : Database → Draw → DomainName → Text × Text → DomainRow
new_row db draw name (private_key, public_key) = record {
  id = draw.id;
  domain = Values.string name;
  dkim_private_key = private_key;
  dkim_public_key = public_key;
  created_at = draw.now;
  tracking = db.default_tracking;
}

unfoldable pub fetched : (ℕ → ℕ) → Option DomainRow → Fetched Domain
fetched other none = failed not_found
fetched other (some r) = row_to_domain other r

-- `FindByName`
unfoldable pub find_by_name : (ℕ → ℕ) → DomainName → List DomainRow → Fetched Domain
find_by_name other name rows = fetched other (find_first (names (Values.string name)) rows)

-- the write of `setDomainTracking`
unfoldable pub with_tracking : Policy → DomainRow → DomainRow
with_tracking p r = record r { tracking = p }

unfoldable pub set_domain_tracking : Policy → DomainName → List DomainRow → List DomainRow
set_domain_tracking p name rows = update_rows (names (Values.string name)) (with_tracking p) rows

unfoldable pub prepend : Domain → Fetched (List Domain) → Fetched (List Domain)
prepend d (failed e) = failed e
prepend d (found ds) = found (d ∷ ds)

-- the loop of `List`, over rows that stand in the order of their identifiers
unfoldable pub rows_to_domains : (ℕ → ℕ) → List DomainRow → Fetched (List Domain)
rows_to_domains other [] = found []
rows_to_domains other (r ∷ rows) =
    let rest = rows_to_domains other rows in
    elim (row_to_domain other r) [ failed e ↦ failed e | found d ↦ prepend d rest ]

pub data ServiceError : Type 0 where
  no_keys : ServiceError
  store : StoreError → ServiceError

abbrev pub DomainOperation : Type 0 → Type 0
DomainOperation T = Operation (List DomainRow) ServiceError T

unfoldable pub with_rows : List DomainRow → World (List DomainRow) → World (List DomainRow)
with_rows rows w = record w { state = rows }

unfoldable pub answer : {T : Type 0} → Fetched T → Guard.Result ServiceError T
answer (failed e) = Guard.Result.err (from_operation (store e))
answer (found t) = Guard.Result.ok t

module _ (db : Database) where
  -- the insertion, and the row read back
  unfoldable pub create_row : DomainRow → DomainOperation Domain
  create_row r w = elim (insert_domain db r w.state) [
    | none ↦ (w, Guard.Result.err (from_operation (store refused)))
    | some rows ↦ (with_rows rows w, answer (row_to_domain db.other r))
  ]

  -- the function that `CreateDomain` guards
  unfoldable pub create_unguarded : Draw → DomainName → DomainOperation Domain
  create_unguarded draw name w = elim draw.keys [
    | none ↦ (w, Guard.Result.err (from_operation no_keys))
    | some keys ↦ create_row (new_row db draw name keys) w
  ]

  -- `CreateDomain`
  unfoldable pub create_domain : ℕ → Option Principal → Draw → DomainName → DomainOperation Domain
  create_domain at ctx draw name = guard at ctx create Resource.domains (create_unguarded draw name)

  -- `GetDomains`
  unfoldable pub get_domains : ℕ → Option Principal → DomainOperation (List Domain)
  get_domains at ctx =
      guard at ctx list Resource.domains (λ w. (w, answer (rows_to_domains db.other w.state)))

  -- `GetDomain`
  unfoldable pub get_domain : ℕ → Option Principal → DomainName → DomainOperation Domain
  get_domain at ctx name =
      guard at ctx read (Resource.domain name)
        (λ w. (w, answer (find_by_name db.other name w.state)))

  -- the function that `SetTrackingPolicy` guards: the row that it returns is the one written
  unfoldable pub set_unguarded : DomainName → Policy → DomainOperation Domain
  set_unguarded name p w =
      let rows = set_domain_tracking (normalized p) name w.state in
      (with_rows rows w, answer (find_by_name db.other name rows))

  -- `SetTrackingPolicy`
  unfoldable pub set_tracking_policy :
      ℕ → Option Principal → DomainName → Policy → DomainOperation Domain
  set_tracking_policy at ctx name p =
      guard at ctx update (Resource.domain name) (set_unguarded name p)
