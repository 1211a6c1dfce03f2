-- ===== src/ApiKeys/Invariants.antt =====
-- Properties of the table api_keys through runs of the operations of internal/apikeys/service.go.
use mathlib.Core.Path.{subst}
use kannon.Base.{
  ℕ, ◌≡◌, refl, sym, inl, inr, Bool, false, Option, none, some, List, [], ◌∷◌, ◌++◌, Text, arith,
  Bool-cases, any, nat_eq, list_eq, UniqueBy, UniqueBy-append, ◌==◌, UniqueBy-update_rows,
  update_rows,
}
use kannon.Values
use kannon.Values.{DomainName}
use kannon.Authz.Action.{Action}
use kannon.Authz.Resource.{Resource}
use kannon.Authz.Principal.{Principal}
use kannon.Authz.Guard.{World, guard, record_decision}
use kannon.Authz.Guard
use kannon.Authz.Enforcement.{guard_cases}
use kannon.ApiKeys.{ApiKey, CreateResult, new_api_key, deactivate}
use kannon.ApiKeys
use kannon.ApiKeys.Store.{
  Database, KeyRow, KeyRef, Fetched, failed, found, create_row, update, get_by_id, update_key,
  write_row, written_row, names_id, list_keys, insertable, new_row, Pagination,
}
use kannon.ApiKeys.Service.{
  ServiceError, KeyOperation, Draw, create_key, get_key, list_keys_of, deactivate_key,
  create_unguarded, insert_key, list_unguarded, deactivate_unguarded, with_rows,
}
use kannon.ApiKeys.Runs.{Call, create_call, get_call, list_call, deactivate_call, serve, serve_all}

-- What an insertion and a deactivation keep of a table.
pub record Kept (db : Database) (P : List KeyRow → Type 0) : Type 0 where
  pub inserted :
      (now : ℕ) (k : ApiKey) (rows table : List KeyRow)
      → create_row db now k rows ≡ some table
      → P rows
      → P table
  pub written :
      (now : ℕ) (k : ApiKey) (rows : List KeyRow)
      → P rows
      → P (
          update_rows
            (names_id (deactivate now k).id (Values.string (deactivate now k).domain))
            (written_row db (deactivate now k))
            rows)

module _ (db : Database) (hash_key : Text → Text) (P : List KeyRow → Type 0)
    (kept : Kept db P) where
  write_row_keeps :
      (now : ℕ) (k : ApiKey) (rows : List KeyRow)
      → P rows
      → P (write_row db (deactivate now k) rows).0
  unfolding write_row
  write_row_keeps now k rows h =
      elim (Bool-cases
        (any (names_id (deactivate now k).id (Values.string (deactivate now k).domain)) rows)) [
          | inl e ↦ rw e (kept.written now k rows h)
          | inr e ↦ rw e h
        ]

  update_keeps :
      (now : ℕ) (r : KeyRef) (rows : List KeyRow)
      → P rows
      → P (update db r (λ k. some (deactivate now k)) rows).0
  unfolding update update_key
  update_keeps now r rows h = go (get_by_id db r rows) refl
    where
      go :
          (o : Fetched ApiKey)
          → get_by_id db r rows ≡ o
          → P (update db r (λ k. some (deactivate now k)) rows).0
      go (failed e) q = rw (q, update) h
      go (found k) q = rw (q, update) (write_row_keeps now k rows h)

  guard_keeps :
      {T : Type 0} (at : ℕ) (ctx : Option Principal) (a : Action) (r : Resource)
      (fn : KeyOperation T) (w : World (List KeyRow))
      → ((x : World (List KeyRow)) → P x.state → P (fn x).0.state)
      → P w.state
      → P (guard at ctx a r fn w).0.state
  unfolding record_decision
  guard_keeps {T} at ctx a r fn w run h = elim (guard_cases at ctx a r fn w) [
    | inl (e, refused, same) ↦ subst P (sym same) h
    | inr (d, ran) ↦
        subst (λ (o : World (List KeyRow) × Guard.Result ServiceError T). P o.0.state) (sym ran)
          (run (record_decision d w) h)
  ]

  insert_key_keeps :
      (now : ℕ) (result : CreateResult) (w : World (List KeyRow))
      → P w.state
      → P (insert_key db hash_key now result w).0.state
  unfolding insert_key with_rows
  insert_key_keeps now result w h = go (create_row db now result.key w.state) refl
    where
      go :
          (o : Option (List KeyRow))
          → create_row db now result.key w.state ≡ o
          → P (insert_key db hash_key now result w).0.state
      go none q = rw (q, insert_key) h
      go (some rows) q = rw (q, insert_key) (kept.inserted now result.key w.state rows q h)

  create_keeps :
      (draw : Draw) (domain : DomainName) (name : Text) (expires_at : Option ℕ)
      (w : World (List KeyRow))
      → P w.state
      → P (create_unguarded db hash_key draw domain name expires_at w).0.state
  unfolding create_unguarded
  create_keeps draw domain name expires_at w h =
      go (new_api_key hash_key draw.now draw.id draw.random domain name expires_at) refl
    where
      go :
          (o : ApiKeys.Result CreateResult)
          → new_api_key hash_key draw.now draw.id draw.random domain name expires_at ≡ o
          → P (create_unguarded db hash_key draw domain name expires_at w).0.state
      go (ApiKeys.Result.err e) q = rw (q, create_unguarded) h
      go (ApiKeys.Result.ok result) q =
          rw (q, create_unguarded) (insert_key_keeps draw.inserted_at result w h)

  list_keeps :
      (domain : DomainName) (only_active : Bool) (page : Pagination) (w : World (List KeyRow))
      → P w.state
      → P (list_unguarded db hash_key domain only_active page w).0.state
  unfolding list_unguarded
  list_keeps domain only_active page w h = go (list_keys db domain only_active page w.state) refl
    where
      go :
          (o : Fetched (List ApiKey))
          → list_keys db domain only_active page w.state ≡ o
          → P (list_unguarded db hash_key domain only_active page w).0.state
      go (failed e) q = rw (q, list_unguarded) h
      go (found ks) q = rw (q, list_unguarded) h

  serve_keeps : (c : Call) (w : World (List KeyRow)) → P w.state → P (serve db hash_key c w).0.state
  unfolding create_key get_key list_keys_of deactivate_key deactivate_unguarded with_rows
  serve_keeps (create_call at ctx draw domain name expires_at) w h =
      guard_keeps at ctx _ _ _ w (λ x p. create_keeps draw domain name expires_at x p) h
  serve_keeps (get_call at ctx r) w h = guard_keeps at ctx _ _ _ w (λ x p. p) h
  serve_keeps (list_call at ctx domain only_active page) w h =
      guard_keeps at ctx _ _ _ w (λ x p. list_keeps domain only_active page x p) h
  serve_keeps (deactivate_call at ctx now r) w h =
      guard_keeps at ctx _ _ (deactivate_unguarded db hash_key now r) w
        (λ x p. update_keeps now r x.state p) h

  -- A property that insertions and deactivations keep holds through every run of requests.
  pub serve_all_keeps :
      (cs : List Call) (w : World (List KeyRow))
      → P w.state
      → P (serve_all db hash_key cs w).0.state
  serve_all_keeps [] w h = h
  serve_all_keeps (c ∷ cs) w h = serve_all_keeps cs (serve db hash_key c w).0 (serve_keeps c w h)

-- No two rows have one identifier, and no two rows have one hash.
abbrev pub IsSound : List KeyRow → Type 0
IsSound rows = UniqueBy (λ (r : KeyRow). r.id) rows × UniqueBy (λ (r : KeyRow). r.key_hash) rows

pub create_row_cases :
    (db : Database) (now : ℕ) (k : ApiKey) (rows table : List KeyRow)
    → create_row db now k rows ≡ some table
    → (any (λ x. x.id == k.id) rows ≡ false)
      × (any (λ x. x.key_hash == k.key_hash) rows ≡ false)
      × (table ≡ rows ++ new_row db now k ∷ [])
unfolding create_row insertable new_row
create_row_cases db now k rows table h = ground arith

pub IsSound-Kept : (db : Database) → Kept db IsSound
unfolding written_row new_row
IsSound-Kept db = record {
  inserted = λ now k rows table e h.
      let (ids, hashes, same) = create_row_cases db now k rows table e in
      subst IsSound (sym same) (
        UniqueBy-append (λ (r : KeyRow). r.id) rows (new_row db now k) h.0 ids,
        UniqueBy-append (λ (r : KeyRow). r.key_hash) rows (new_row db now k) h.1 hashes,
      );
  written = λ now k rows h. (
    UniqueBy-update_rows (λ (r : KeyRow). r.id) _ _ rows (λ r. refl) h.0,
    UniqueBy-update_rows (λ (r : KeyRow). r.key_hash) _ _ rows (λ r. refl) h.1,
  );
}
