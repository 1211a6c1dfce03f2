-- ===== src/ApiKeys/Refinement.antt =====
-- What an insertion and an update of internal/db/key_repo.go do to the map of keys.
use kannon.Base.{
  ℕ, ◌≡◌, refl, sym, ap, ◌∙◌, inl, inr, true, false, Option, none, some, List, [], ◌∷◌, ◌++◌, arith,
  ◌==◌, nat_eq, list_eq, list_beq_iff, any, Some-any, In-Some, Bool-cases, Option-cases, find_first,
  find_first-some, find_first-append_hit, find_first-append_miss, find_first-update_rows, map_found,
  if◌then◌else◌, update_rows,
}
use kannon.Values
use kannon.Values.{DomainName, ParseResult}
use kannon.Storage.{to_option}
use kannon.ApiKeys.{ApiKey, deactivate}
use kannon.ApiKeys.Store.{
  Database, KeyRow, KeyRef, Fetched, failed, found, row_to_api_key, names_id, new_row, insertable,
  create_row, fetched, get_by_id, written_row, write_row, update, update_key,
}
use kannon.ApiKeys.Views.{
  key_at, IsCanonical, view, minted, revoked, refers, stored_key, map_key, apply, Located,
  get_by_id-found, row_to_api_key_of, names_id_iff,
}

abbrev fetched_of : Database → Option KeyRow → Option ApiKey
fetched_of db o = to_option (fetched db o)

id_free :
    (db : Database) (now : ℕ) (k : ApiKey) (rows : List KeyRow)
    → insertable db rows (new_row db now k) ≡ true
    → any (λ x. x.id == k.id) rows ≡ false
unfolding insertable new_row
id_free db now k rows h = ground arith

module _ (db : Database) (now : ℕ) (k : ApiKey) (rows : List KeyRow) {table : List KeyRow}
    (canonical : IsCanonical db k.domain) (inserted : create_row db now k rows ≡ some table) where
  create_row_cases :
      (insertable db rows (new_row db now k) ≡ true) × (table ≡ rows ++ new_row db now k ∷ [])
  unfolding create_row
  create_row_cases = ground arith

  free :
      (ref : KeyRef)
      → refers ref k.id k.domain.s ≡ true
      → find_first (names_id ref.id ref.domain.s) rows ≡ none
  free ref h = elim (Option-cases (find_first (names_id ref.id ref.domain.s) rows)) [
    | inl e ↦ e
    | inr (r, e) ↦
        let (held, named) = find_first-some (names_id ref.id ref.domain.s) rows e in
        let same = (names_id_iff ref.id ref.domain.s r named).0 in
        let clash : any (λ x. x.id == k.id) rows ≡ true =
          Some-any (λ x. x.id == k.id) rows
            (In-Some (λ x. (x.id == k.id) ≡ true) rows r held
              (ground (arith, list_beq_iff r.id k.id, list_beq_iff k.id ref.id))) in
        cc (id_free db now k rows create_row_cases.0, clash)
  ]

  -- The map afterwards has the new key under its reference.
  pub view-create_row :
      (ref : KeyRef) → view db table ref ≡ apply db (minted now k) (view db rows) ref
  unfolding get_by_id Values.string names_id new_row fetched
  view-create_row ref = elim (Bool-cases (refers ref k.id k.domain.s)) [
    | inl e ↦ rw e (
        ap (fetched_of db) (
          ap (find_first (names_id ref.id ref.domain.s)) create_row_cases.1
          ∙ find_first-append_hit (names_id ref.id ref.domain.s) rows (new_row db now k)
              (free ref e) e)
        ∙ ap to_option minted_key)
    | inr e ↦ rw e (
        ap (fetched_of db) (
          ap (find_first (names_id ref.id ref.domain.s)) create_row_cases.1
          ∙ find_first-append_miss (names_id ref.id ref.domain.s) rows (new_row db now k) e))
  ]
    where
      minted_key : row_to_api_key db (new_row db now k) ≡ found (key_at k.domain (new_row db now k))
      minted_key = row_to_api_key_of db (new_row db now k) k.domain canonical

write_row_cases :
    (db : Database) (k : ApiKey) (rows : List KeyRow) {table : List KeyRow} {written : ApiKey}
    → write_row db k rows ≡ (table, found written)
    → (k ≡ written) × (table ≡ update_rows (names_id k.id k.domain.s) (written_row db k) rows)
unfolding write_row Values.string
write_row_cases db k rows h = elim (Bool-cases (any (names_id k.id k.domain.s) rows)) [
  | inl e ↦ let g = rw e at h in (cc g, cc g)
  | inr e ↦ absurd (cc (rw e at h))
]

-- what a deactivation read and wrote
pub record Deactivated (db : Database) (now : ℕ) (target : KeyRef) (rows table : List KeyRow)
    (k : ApiKey) : Type 0 where
  pub before : ApiKey
  pub located : Located db target rows before
  pub after : deactivate now before ≡ k
  pub written : table ≡ update_rows (names_id k.id k.domain.s) (written_row db k) rows

ok_domain : {a b : DomainName} → ParseResult.ok a ≡ ParseResult.ok b → a ≡ b
ok_domain h = cc h

deactivate_same :
    (now : ℕ) (k : ApiKey) → ((deactivate now k).id ≡ k.id) × ((deactivate now k).domain ≡ k.domain)
unfolding deactivate
deactivate_same now k = ground arith

key_at-written_row :
    (db : Database) (now : ℕ) (d : DomainName) (r : KeyRow)
    → key_at d (written_row db (deactivate now (key_at d r)) r)
      ≡ stored_key db (deactivate now (key_at d r))
unfolding written_row deactivate
key_at-written_row db now d r = elim (Bool-cases r.is_active) [
  | inl e ↦ rw e refl
  | inr e ↦ rw e refl
]

module _ (db : Database) (now : ℕ) (target : KeyRef) (rows : List KeyRow) {table : List KeyRow}
    {k : ApiKey} (canonical : IsCanonical db target.domain)
    (updated : update db target (λ x. some (deactivate now x)) rows ≡ (table, found k)) where
  pub update_cases : Deactivated db now target rows table k
  unfolding update update_key
  update_cases = go (get_by_id db target rows) refl
    where
      go :
          (o : Fetched ApiKey)
          → get_by_id db target rows ≡ o
          → Deactivated db now target rows table k
      go (failed e) q = absurd (cc (rw (q, update) at updated))
      go (found x) q =
          let (same, written) =
            write_row_cases db (deactivate now x) rows (rw (q, update) at updated) in
          record {
            before = x;
            located = get_by_id-found db target rows q;
            after = same;
            written = rw (← same) written;
          }

  same_key : (k.id ≡ target.id) × (k.domain ≡ target.domain)
  same_key =
      let l = update_cases.located in
      let (id, domain) = deactivate_same now update_cases.before in
      (
        sym (ap (λ (x : ApiKey). x.id) update_cases.after)
            ∙ id
            ∙ ap (λ (x : ApiKey). x.id) l.entity
            ∙ l.same_id,
        sym (ap (λ (x : ApiKey). x.domain) update_cases.after)
            ∙ domain
            ∙ ok_domain (sym l.parsed ∙ ap (Values.parse db.other) l.same_domain ∙ canonical),
      )

  pub table_after : table ≡ update_rows (names_id target.id target.domain.s) (written_row db k) rows
  table_after = update_cases.written ∙ rw same_key.0 (rw same_key.1 refl)

  row_after : KeyRow → KeyRow
  row_after r = if names_id target.id target.domain.s r then written_row db k r else r

  found_after :
      (ref : KeyRef)
      → find_first (names_id ref.id ref.domain.s) table
        ≡ map_found row_after (find_first (names_id ref.id ref.domain.s) rows)
  unfolding names_id written_row row_after
  found_after ref =
      ap (find_first (names_id ref.id ref.domain.s)) table_after
      ∙ find_first-update_rows (names_id ref.id ref.domain.s) (names_id target.id target.domain.s)
          (written_row db k) rows (λ r. refl)

  seen :
      (ref : KeyRef) (r : KeyRow)
      → find_first (names_id ref.id ref.domain.s) rows ≡ some r
      → names_id target.id target.domain.s r ≡ refers ref target.id target.domain.s
  unfolding names_id
  seen ref r q =
      let (id, domain) =
        names_id_iff ref.id ref.domain.s r
          (find_first-some (names_id ref.id ref.domain.s) rows q).1 in
      ground (
        arith,
        list_beq_iff r.id target.id,
        list_beq_iff target.id ref.id,
        list_beq_iff r.domain target.domain.s,
        list_beq_iff target.domain.s ref.domain.s,
      )

  miss :
      (ref : KeyRef) (r : KeyRow)
      → refers ref target.id target.domain.s ≡ false
      → find_first (names_id ref.id ref.domain.s) rows ≡ some r
      → fetched_of db (some (row_after r)) ≡ fetched_of db (some r)
  unfolding row_after
  miss ref r e q = ap (λ x. fetched_of db (some x)) (rw (seen ref r q ∙ e) refl)

  same_row :
      (ref : KeyRef) (r : KeyRow)
      → refers ref target.id target.domain.s ≡ true
      → find_first (names_id ref.id ref.domain.s) rows ≡ some r
      → update_cases.located.row ≡ r
  same_row ref r e q =
      let same_id : target.id ≡ ref.id = ground (arith, list_beq_iff target.id ref.id) in
      let same_domain : target.domain.s ≡ ref.domain.s =
        ground (arith, list_beq_iff target.domain.s ref.domain.s) in
      let moved : find_first (names_id target.id target.domain.s) rows
          ≡ find_first (names_id ref.id ref.domain.s) rows =
        rw same_id (rw same_domain refl) in
      cc (update_cases.located.first, moved, q)

  hit_row :
      (r : KeyRow) (d : DomainName)
      → Values.parse db.other r.domain ≡ ParseResult.ok d
      → k ≡ deactivate now (key_at d r)
      → fetched_of db (some (written_row db k r))
        ≡ map_key (λ x. stored_key db (deactivate now x)) (fetched_of db (some r))
  unfolding fetched written_row
  hit_row r d parsed same =
      ap to_option (row_to_api_key_of db (written_row db k r) d parsed)
      ∙ ap some (rw same (key_at-written_row db now d r))
      ∙ sym (
          ap (λ o. map_key (λ x. stored_key db (deactivate now x)) (to_option o))
            (row_to_api_key_of db r d parsed))

  hit :
      (ref : KeyRef) (r : KeyRow)
      → refers ref target.id target.domain.s ≡ true
      → find_first (names_id ref.id ref.domain.s) rows ≡ some r
      → fetched_of db (some (row_after r))
        ≡ map_key (λ x. stored_key db (deactivate now x)) (fetched_of db (some r))
  unfolding row_after
  hit ref r e q =
      let l = update_cases.located in
      let same = same_row ref r e q in
      ap (λ x. fetched_of db (some x)) (rw (seen ref r q ∙ e) refl)
      ∙ hit_row r update_cases.before.domain (rw (← same) l.parsed) (
          sym update_cases.after
          ∙ ap (deactivate now) (l.entity ∙ ap (key_at update_cases.before.domain) same))

  -- The map afterwards has the named key deactivated, and every other key as it was.
  pub view-update :
      (ref : KeyRef) → view db table ref ≡ apply db (revoked now target) (view db rows) ref
  unfolding get_by_id Values.string fetched
  view-update ref =
      ap (fetched_of db) (found_after ref)
      ∙ go (find_first (names_id ref.id ref.domain.s) rows) refl
    where
      go :
          (o : Option KeyRow)
          → find_first (names_id ref.id ref.domain.s) rows ≡ o
          → fetched_of db (map_found row_after o) ≡ (
              if refers ref target.id target.domain.s
              then map_key (λ x. stored_key db (deactivate now x)) (fetched_of db o)
              else fetched_of db o)
      go none q = ground arith
      go (some r) q = elim (Bool-cases (refers ref target.id target.domain.s)) [
        | inl e ↦ rw e (hit ref r e q)
        | inr e ↦ rw e (miss ref r e q)
      ]
