-- ===== src/ApiKeys/Views.antt =====
-- The key store as a map from references to keys, and what each statement of
-- internal/db/key_repo.go does to that map.
use kannon.Base.{
  ℕ, ◌≡◌, refl, sym, ap, ◌∙◌, inl, inr, Bool, true, ◌&&◌, Option, none, some, List, Text, arith,
  ◌==◌, nat_eq, list_eq, list_beq_iff, Option-cases, find_first, find_first-some, In, if◌then◌else◌,
}
use kannon.Values
use kannon.Values.{DomainName, ParseResult}
use kannon.Storage.{to_option}
use kannon.ApiKeys.{ApiKey, deactivate}
use kannon.ApiKeys.Store.{
  Database, KeyRow, KeyRef, found, stored_time, row_to_api_key, names_id, fetched, get_by_id,
}

-- the entity that a row holds
abbrev pub key_at : DomainName → KeyRow → ApiKey
key_at d r = record {
  id = r.id;
  key_hash = r.key_hash;
  key_prefix = r.key_prefix;
  name = r.name;
  domain = d;
  created_at = r.created_at;
  expires_at = r.expires_at;
  is_active = r.is_active;
  deactivated_at = r.deactivated_at;
}

-- A name as `Parse` gives it.
abbrev pub IsCanonical : Database → DomainName → Type 0
IsCanonical db d = Values.parse db.other d.s ≡ ParseResult.ok d

abbrev pub Keys : Type 0
Keys = KeyRef → Option ApiKey

-- What `GetByID` tells of a table.
abbrev pub view : Database → List KeyRow → Keys
view db rows ref = to_option (get_by_id db ref rows)

-- What an operation did to the keys.
pub data Effect : Type 0 where
  minted : ℕ → ApiKey → Effect
  revoked : ℕ → KeyRef → Effect

abbrev pub refers : KeyRef → Text → Text → Bool
refers ref id domain = id == ref.id && domain == ref.domain.s

abbrev pub stored_key : Database → ApiKey → ApiKey
stored_key db k = record k {
  expires_at = stored_time db k.expires_at;
  deactivated_at = stored_time db k.deactivated_at;
}

abbrev pub map_key : (ApiKey → ApiKey) → Option ApiKey → Option ApiKey
map_key f none = none
map_key f (some k) = some (f k)

-- The map afterwards: a new key under its reference, or the named key deactivated.
abbrev pub apply : Database → Effect → Keys → Keys
apply db (minted now k) keys ref =
    if refers ref k.id k.domain.s
    then some (record k {
      created_at = now;
      expires_at = stored_time db k.expires_at;
      is_active = true;
      deactivated_at = none;
    })
    else keys ref
apply db (revoked now target) keys ref =
    if refers ref target.id target.domain.s
    then map_key (λ k. stored_key db (deactivate now k)) (keys ref)
    else keys ref

pub row_to_api_key-found :
    (db : Database) (r : KeyRow) {k : ApiKey}
    → row_to_api_key db r ≡ found k
    → (Values.parse db.other r.domain ≡ ParseResult.ok k.domain) × (k ≡ key_at k.domain r)
unfolding row_to_api_key
row_to_api_key-found db r {k} h = go (Values.parse db.other r.domain) refl
  where
    go :
        (o : ParseResult)
        → Values.parse db.other r.domain ≡ o
        → (Values.parse db.other r.domain ≡ ParseResult.ok k.domain) × (k ≡ key_at k.domain r)
    go (ParseResult.err e) q = cc (rw (q, row_to_api_key) at h)
    go (ParseResult.ok d) q =
        let same : key_at d r ≡ k = cc (rw (q, row_to_api_key) at h) in
        let named : d ≡ k.domain = ap (λ (x : ApiKey). x.domain) same in
        (q ∙ ap ParseResult.ok named, sym same ∙ ap (λ (x : DomainName). key_at x r) named)

pub row_to_api_key_of :
    (db : Database) (r : KeyRow) (d : DomainName)
    → Values.parse db.other r.domain ≡ ParseResult.ok d
    → row_to_api_key db r ≡ found (key_at d r)
unfolding row_to_api_key
row_to_api_key_of db r d h = rw (h, row_to_api_key) refl

pub names_id_iff :
    (id domain : Text) (r : KeyRow)
    → names_id id domain r ≡ true
    → (r.id ≡ id) × (r.domain ≡ domain)
unfolding names_id
names_id_iff id domain r h = ground (arith, list_beq_iff r.id id, list_beq_iff r.domain domain)

-- the row behind what `GetByID` finds
pub record Located (db : Database) (ref : KeyRef) (rows : List KeyRow) (k : ApiKey) : Type 0 where
  pub row : KeyRow
  pub first : find_first (names_id ref.id ref.domain.s) rows ≡ some row
  pub held : In rows row
  pub same_id : row.id ≡ ref.id
  pub same_domain : row.domain ≡ ref.domain.s
  pub parsed : Values.parse db.other row.domain ≡ ParseResult.ok k.domain
  pub entity : k ≡ key_at k.domain row

pub get_by_id-found :
    (db : Database) (ref : KeyRef) (rows : List KeyRow) {k : ApiKey}
    → get_by_id db ref rows ≡ found k
    → Located db ref rows k
unfolding get_by_id fetched Values.string
get_by_id-found db ref rows {k} h =
    elim (Option-cases (find_first (names_id ref.id ref.domain.s) rows)) [
      | inl e ↦ cc (rw (e, fetched) at h)
      | inr (r, e) ↦
          let (held, named) = find_first-some (names_id ref.id ref.domain.s) rows e in
          let (same_id, same_domain) = names_id_iff ref.id ref.domain.s r named in
          let (parsed, entity) = row_to_api_key-found db r {k = k} (rw (e, fetched) at h) in
          record {
            row = r;
            first = e;
            held = held;
            same_id = same_id;
            same_domain = same_domain;
            parsed = parsed;
            entity = entity;
          }
    ]
