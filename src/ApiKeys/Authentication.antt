-- ===== src/ApiKeys/Authentication.antt =====
-- What `ValidateForAuth` of internal/apikeys/service.go admits, in terms of the map of keys.
use kannon.Base.{
  ℕ, ◌≡◌, ◌↔◌, refl, sym, ap, ◌∙◌, inl, inr, true, some, List, Text, arith, Bool-cases,
  Option-cases, nat_eq, list_eq, list_beq_iff, find_first, find_first-some, find_first-UniqueBy, In,
}
use kannon.Values
use kannon.Values.{DomainName, ParseResult}
use kannon.Storage.{to_option}
use kannon.ApiKeys.{ApiKey, is_valid}
use kannon.ApiKeys.Store.{
  Database, KeyRow, Fetched, failed, found, get_by_key_hash, fetched, names_hash, names_id,
  row_to_api_key, get_by_id,
}
use kannon.ApiKeys.Service.{validate_for_auth}
use kannon.ApiKeys.Views.{
  view, key_at, IsCanonical, row_to_api_key-found, row_to_api_key_of, names_id_iff, get_by_id-found,
}
use kannon.ApiKeys.Invariants.{IsSound}

pub names_hash_iff :
    (key_hash domain : Text) (r : KeyRow)
    → names_hash key_hash domain r ≡ true
    → (r.key_hash ≡ key_hash) × (r.domain ≡ domain)
unfolding names_hash
names_hash_iff key_hash domain r h =
    ground (arith, list_beq_iff r.key_hash key_hash, list_beq_iff r.domain domain)

names_hash_of :
    (key_hash domain : Text) (r : KeyRow)
    → r.key_hash ≡ key_hash
    → r.domain ≡ domain
    → names_hash key_hash domain r ≡ true
unfolding names_hash
names_hash_of key_hash domain r h k =
    ground (arith, list_beq_iff r.key_hash key_hash, list_beq_iff r.domain domain)

names_id_of :
    (id domain : Text) (r : KeyRow) → r.id ≡ id → r.domain ≡ domain → names_id id domain r ≡ true
unfolding names_id
names_id_of id domain r h k = ground (arith, list_beq_iff r.id id, list_beq_iff r.domain domain)

-- the row behind the key that authenticated
pub record Matched (db : Database) (now : ℕ) (d : DomainName) (key_hash : Text) (rows : List KeyRow)
    (k : ApiKey) : Type 0 where
  pub row : KeyRow
  pub held : In rows row
  pub same_hash : row.key_hash ≡ key_hash
  pub same_domain : row.domain ≡ d.s
  pub parsed : Values.parse db.other row.domain ≡ ParseResult.ok k.domain
  pub entity : k ≡ key_at k.domain row
  pub valid : is_valid now k ≡ true

module _ (db : Database) (hash_key : Text → Text) where
  validate_cases :
      (now : ℕ) (d : DomainName) (key : Text) (rows : List KeyRow) {k : ApiKey}
      → validate_for_auth db hash_key now d key rows ≡ some k
      → (get_by_key_hash db d (hash_key key) rows ≡ found k) × (is_valid now k ≡ true)
  unfolding validate_for_auth
  validate_cases now d key rows {k} h = go (get_by_key_hash db d (hash_key key) rows) refl
    where
      go :
          (o : Fetched ApiKey)
          → get_by_key_hash db d (hash_key key) rows ≡ o
          → (get_by_key_hash db d (hash_key key) rows ≡ found k) × (is_valid now k ≡ true)
      go (failed e) q = absurd (cc (rw (q, validate_for_auth) at h))
      go (found x) q = elim (Bool-cases (is_valid now x)) [
        | inl v ↦
            let same : x ≡ k = cc (rw v at (rw (q, validate_for_auth) at h)) in
            (q ∙ ap found same, rw (← same) v)
        | inr v ↦ absurd (cc (rw v at (rw (q, validate_for_auth) at h)))
      ]

  pub validate_for_auth-Matched :
      (now : ℕ) (d : DomainName) (key : Text) (rows : List KeyRow) {k : ApiKey}
      → validate_for_auth db hash_key now d key rows ≡ some k
      → Matched db now d (hash_key key) rows k
  unfolding get_by_key_hash fetched Values.string
  validate_for_auth-Matched now d key rows {k} h =
      let (got, valid) = validate_cases now d key rows h in
      elim (Option-cases (find_first (names_hash (hash_key key) d.s) rows)) [
        | inl e ↦ absurd (cc (rw (e, fetched) at got))
        | inr (r, e) ↦
            let (held, named) = find_first-some (names_hash (hash_key key) d.s) rows e in
            let (same_hash, same_domain) = names_hash_iff (hash_key key) d.s r named in
            let (parsed, entity) = row_to_api_key-found db r {k = k} (rw (e, fetched) at got) in
            record {
              row = r;
              held = held;
              same_hash = same_hash;
              same_domain = same_domain;
              parsed = parsed;
              entity = entity;
              valid = valid;
            }
      ]

  validate_of_row :
      (now : ℕ) (d : DomainName) (key : Text) (rows : List KeyRow) (r : KeyRow) (k : ApiKey)
      → find_first (names_hash (hash_key key) d.s) rows ≡ some r
      → row_to_api_key db r ≡ found k
      → is_valid now k ≡ true
      → validate_for_auth db hash_key now d key rows ≡ some k
  unfolding validate_for_auth get_by_key_hash fetched Values.string
  validate_of_row now d key rows r k e f v = rw (got, validate_for_auth) (rw v refl)
    where
      got : get_by_key_hash db d (hash_key key) rows ≡ found k
      got = ap (fetched db) e ∙ f

  module _ (now : ℕ) (d : DomainName) (key : Text) (rows : List KeyRow) (k : ApiKey)
      (sound : IsSound rows) (canonical : IsCanonical db d) where
    admitted :
        validate_for_auth db hash_key now d key rows ≡ some k
        → (view db rows (record { domain = d; id = k.id }) ≡ some k)
          × (k.key_hash ≡ hash_key key)
          × (is_valid now k ≡ true)
    unfolding get_by_id fetched Values.string
    admitted h =
        let m = validate_for_auth-Matched now d key rows h in
        let same_id : k.id ≡ m.row.id = ap (λ (x : ApiKey). x.id) m.entity in
        let first : find_first (names_id k.id d.s) rows ≡ some m.row =
          find_first-UniqueBy (λ (r : KeyRow). r.id) (names_id k.id d.s) rows m.row sound.0
            (λ x e. (names_id_iff k.id d.s x e).0 ∙ same_id) m.held
            (names_id_of k.id d.s m.row (sym same_id) m.same_domain) in
        (
          ap (λ o. to_option (fetched db o)) first
              ∙ ap to_option (row_to_api_key_of db m.row k.domain m.parsed)
              ∙ ap some (sym m.entity),
          ap (λ (x : ApiKey). x.key_hash) m.entity ∙ m.same_hash,
          m.valid,
        )

    of_view :
        (o : Fetched ApiKey)
        → get_by_id db (record { domain = d; id = k.id }) rows ≡ o
        → to_option o ≡ some k
        → get_by_id db (record { domain = d; id = k.id }) rows ≡ found k
    of_view (failed e) q h = absurd (cc h)
    of_view (found x) q h = q ∙ ap found (cc h)

    admits :
        view db rows (record { domain = d; id = k.id }) ≡ some k
        → k.key_hash ≡ hash_key key
        → is_valid now k ≡ true
        → validate_for_auth db hash_key now d key rows ≡ some k
    admits h same valid =
        let l =
          get_by_id-found db (record { domain = d; id = k.id }) rows
            (of_view (get_by_id db (record { domain = d; id = k.id }) rows) refl h) in
        let hash : l.row.key_hash ≡ hash_key key =
          sym (ap (λ (x : ApiKey). x.key_hash) l.entity) ∙ same in
        validate_of_row now d key rows l.row k
          (find_first-UniqueBy (λ (r : KeyRow). r.key_hash) (names_hash (hash_key key) d.s) rows
            l.row sound.1 (λ x e. (names_hash_iff (hash_key key) d.s x e).0 ∙ sym hash) l.held
            (names_hash_of (hash_key key) d.s l.row hash l.same_domain))
          (row_to_api_key_of db l.row k.domain l.parsed ∙ ap found (sym l.entity)) valid

    -- In a table with unique identifiers and hashes, and for a canonical Domain, a text authenticates
    -- as a key exactly when `GetByID` finds that key under the Domain and the key's identifier, the
    -- key's hash is the text's, and the key is valid at that instant.
    pub validate_for_auth_iff : (validate_for_auth db hash_key now d key rows ≡ some k) ↔ (
        (view db rows (record { domain = d; id = k.id }) ≡ some k)
        × (k.key_hash ≡ hash_key key)
        × (is_valid now k ≡ true))
    validate_for_auth_iff = (admitted, (λ h. admits h.0 h.1 h.2))
