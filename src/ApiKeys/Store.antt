-- ===== src/ApiKeys/Store.antt =====
-- The table api_keys of db/schema.sql, the statements of internal/db/apikeys.sql.go on it, and the
-- repository of internal/db/key_repo.go over the statements.
use kannon.Base.{
  ℕ, ◌-◌, ◌%◌, ◌^◌, Bool, true, false, not, ◌&&◌, Option, none, some, List, [], ◌∷◌, ◌++◌, Text,
  length, leb, ◌==◌, nat_eq, list_eq, any, find_first, update_rows, select_rows, if◌then◌else◌,
}
use kannon.Base.Int.{ℤ, pos, negsuc}
use kannon.Values
use kannon.Values.{DomainName, ParseResult}
use kannon.ApiKeys.{ApiKey}
pub use kannon.Storage.{
  StoreError, not_found, aborted, refused, not_canonical, Fetched, failed, found, int32_of, page_of,
}

-- `ApiKey` of internal/db/models.go, a row
pub record KeyRow : Type 0 where
  pub id : Text
  pub name : Text
  pub domain : Text
  pub created_at : ℕ
  pub expires_at : Option ℕ
  pub is_active : Bool
  pub deactivated_at : Option ℕ
  pub key_hash : Text
  pub key_prefix : Text

-- What is outside the code: the lower case of the runes past ASCII, the Domains that the foreign key
-- admits, the instant that a timestamp column gives back for the one it is given, and the order that
-- a sort by `created_at`, the latest first, gives to rows.
pub record Database : Type 0 where
  pub other : ℕ → ℕ
  pub known_domain : Text → Bool
  pub stored : ℕ → ℕ
  pub latest_first : List KeyRow → List KeyRow

unfoldable pub stored_time : Database → Option ℕ → Option ℕ
stored_time db none = none
stored_time db (some t) = some (db.stored t)

-- `KeyRef`
pub record KeyRef : Type 0 where
  pub domain : DomainName
  pub id : Text

unfoldable pub names_id : Text → Text → KeyRow → Bool
names_id id domain r = r.id == id && r.domain == domain

unfoldable pub names_hash : Text → Text → KeyRow → Bool
names_hash key_hash domain r = r.key_hash == key_hash && r.domain == domain

-- `rowToAPIKey`, with `LoadAPIKey`
unfoldable pub row_to_api_key : Database → KeyRow → Fetched ApiKey
row_to_api_key db r = elim (Values.parse db.other r.domain) [
  | ParseResult.err e ↦ failed (not_canonical e)
  | ParseResult.ok domain ↦ found (record {
    id = r.id;
    key_hash = r.key_hash;
    key_prefix = r.key_prefix;
    name = r.name;
    domain = domain;
    created_at = r.created_at;
    expires_at = r.expires_at;
    is_active = r.is_active;
    deactivated_at = r.deactivated_at;
  })
]

-- the row that `createAPIKey` inserts at an instant, with the columns' defaults
unfoldable pub new_row : Database → ℕ → ApiKey → KeyRow
new_row db now k = record {
  id = k.id;
  name = k.name;
  domain = Values.string k.domain;
  created_at = now;
  expires_at = stored_time db k.expires_at;
  is_active = true;
  deactivated_at = none;
  key_hash = k.key_hash;
  key_prefix = k.key_prefix;
}

-- The widths of the columns, the primary key, the unique index on the hash and the foreign key.
unfoldable pub insertable : Database → List KeyRow → KeyRow → Bool
insertable db rows r =
    leb (length r.id) 512
    && leb (length r.name) 100
    && leb (length r.domain) 512
    && leb (length r.key_hash) 64
    && leb (length r.key_prefix) 10
    && not (any (λ x. x.id == r.id) rows)
    && not (any (λ x. x.key_hash == r.key_hash) rows)
    && db.known_domain r.domain

-- `Create`; `none` where the insertion is refused
unfoldable pub create_row : Database → ℕ → ApiKey → List KeyRow → Option (List KeyRow)
create_row db now k rows = elim (insertable db rows (new_row db now k)) [
  | true ↦ some (rows ++ new_row db now k ∷ [])
  | false ↦ none
]

unfoldable pub fetched : Database → Option KeyRow → Fetched ApiKey
fetched db none = failed not_found
fetched db (some r) = row_to_api_key db r

-- `GetByKeyHash`
unfoldable pub get_by_key_hash : Database → DomainName → Text → List KeyRow → Fetched ApiKey
get_by_key_hash db domain key_hash rows =
    fetched db (find_first (names_hash key_hash (Values.string domain)) rows)

-- `GetByID`, and the locked read of `Update`
unfoldable pub get_by_id : Database → KeyRef → List KeyRow → Fetched ApiKey
get_by_id db ref rows = fetched db (find_first (names_id ref.id (Values.string ref.domain)) rows)

unfoldable pub written_row : Database → ApiKey → KeyRow → KeyRow
written_row db k r = record r {
  name = k.name;
  expires_at = stored_time db k.expires_at;
  is_active = k.is_active;
  deactivated_at = stored_time db k.deactivated_at;
}

-- `updateAPIKey`, which returns the row it wrote and so fails where there is none
unfoldable pub write_row : Database → ApiKey → List KeyRow → List KeyRow × Fetched ApiKey
write_row db k rows =
    if any (names_id k.id (Values.string k.domain)) rows
    then (update_rows (names_id k.id (Values.string k.domain)) (written_row db k) rows, found k)
    else (rows, failed refused)

unfoldable pub update_key :
    Database → (ApiKey → Option ApiKey) → ApiKey → List KeyRow → List KeyRow × Fetched ApiKey
update_key db update_fn k rows = elim (update_fn k) [
  | none ↦ (rows, failed aborted)
  | some changed ↦ write_row db changed rows
]

-- `Update`; `none` of the function is its error, which aborts the transaction
unfoldable pub update :
    Database → KeyRef → (ApiKey → Option ApiKey) → List KeyRow → List KeyRow × Fetched ApiKey
update db ref update_fn rows = elim (get_by_id db ref rows) [
  | failed e ↦ (rows, failed e)
  | found k ↦ update_key db update_fn k rows
]

-- the filter of `listAPIKeysByDomain` and `countAPIKeysByDomain`
unfoldable pub listed : Text → Bool → KeyRow → Bool
listed domain only_active r = r.domain == domain && (if only_active then r.is_active else true)

unfoldable pub to_int32 : ℤ → ℤ
unfolding int32_of
to_int32 (pos n) = int32_of n
to_int32 (negsuc n) = int32_of (2 ^ 32 - 1 - n % 2 ^ 32)

pub record Pagination : Type 0 where
  pub limit : ℤ
  pub offset : ℤ

unfoldable pub prepend : ApiKey → Fetched (List ApiKey) → Fetched (List ApiKey)
prepend k (failed e) = failed e
prepend k (found ks) = found (k ∷ ks)

-- the loop of `List`, which returns the first error
unfoldable pub rows_to_keys : Database → List KeyRow → Fetched (List ApiKey)
rows_to_keys db [] = found []
rows_to_keys db (r ∷ rows) =
    let rest = rows_to_keys db rows in
    elim (row_to_api_key db r) [ failed e ↦ failed e | found k ↦ prepend k rest ]

-- `List`
unfoldable pub list_keys :
    Database → DomainName → Bool → Pagination → List KeyRow → Fetched (List ApiKey)
list_keys db domain only_active page rows =
    elim (page_of (to_int32 page.limit) (to_int32 page.offset)
      (db.latest_first (select_rows (listed (Values.string domain) only_active) rows))) [
        | none ↦ failed refused
        | some selected ↦ rows_to_keys db selected
      ]

-- `Count`
unfoldable pub count_keys : DomainName → Bool → List KeyRow → ℕ
count_keys domain only_active rows =
    length (select_rows (listed (Values.string domain) only_active) rows)
