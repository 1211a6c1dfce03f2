-- ===== src/ApiKeys/Revocation.antt =====
-- What `DeactivateKey` of internal/apikeys/service.go withdraws, through every later request.
use mathlib.Core.Path.{subst}
use kannon.Base.{
  ℕ, ◌≡◌, ◌≢◌, refl, sym, ap, ◌∙◌, ◌⊎◌, inl, inr, Bool, true, false, Option, none, some, List, [],
  ◌∷◌, Text, arith, Bool-cases, Option-cases, any, nat_eq, list_eq, list_beq_iff, ◌==◌, In,
  In-update_rows, In-append_cases, any-append_left, any-update_rows, UniqueBy-eq, find_first-some,
  Some-any, In-Some, if◌then◌else◌,
}
use kannon.Values
use kannon.Values.{DomainName}
use kannon.Authz.Action.{delete}
use kannon.Authz.Principal.{Principal}
use kannon.Authz.Guard.{World, GuardError, record_decision}
use kannon.Authz.Guard
use kannon.Authz.Enforcement.{guard_cases}
use kannon.ApiKeys.{ApiKey, is_valid, deactivate}
use kannon.ApiKeys.Store.{
  Database, KeyRow, KeyRef, Fetched, failed, found, create_row, update, written_row, names_id,
  new_row,
}
use kannon.ApiKeys.Service.{
  ServiceError, deactivate_key, deactivate_unguarded, validate_for_auth, with_rows, answer,
  resource_of,
}
use kannon.ApiKeys.Runs.{Call, serve_all}
use kannon.ApiKeys.Invariants.{IsSound, Kept, create_row_cases, serve_all_keeps}
use kannon.ApiKeys.Authentication.{validate_for_auth-Matched}
use kannon.ApiKeys.Views.{IsCanonical}
use kannon.ApiKeys.Refinement.{update_cases, table_after}

-- Some row has the hash, and each that has it is inactive.
pub record Revoked (key_hash : Text) (rows : List KeyRow) : Type 0 where
  pub present : any (λ r. r.key_hash == key_hash) rows ≡ true
  pub inactive : (r : KeyRow) → In rows r → r.key_hash ≡ key_hash → r.is_active ≡ false

deactivate-inactive : (now : ℕ) (k : ApiKey) → (deactivate now k).is_active ≡ false
unfolding deactivate
deactivate-inactive now k = ground arith

deactivate-key_hash : (now : ℕ) (k : ApiKey) → (deactivate now k).key_hash ≡ k.key_hash
unfolding deactivate
deactivate-key_hash now k = ground arith

written_inactive :
    (db : Database) (now : ℕ) (k : ApiKey) (p : KeyRow → Bool) (key_hash : Text) (x y : KeyRow)
    → (x.key_hash ≡ key_hash → (p x ≡ true) ⊎ (x.is_active ≡ false))
    → (if p x then written_row db (deactivate now k) x else x) ≡ y
    → y.key_hash ≡ key_hash
    → y.is_active ≡ false
unfolding written_row
written_inactive db now k p key_hash x y was e h = elim (Bool-cases (p x)) [
  | inl hit ↦ sym (ap (λ (r : KeyRow). r.is_active) (rw hit at e)) ∙ deactivate-inactive now k
  | inr miss ↦
      let same : x ≡ y = rw miss at e in
      elim (was (ap (λ (r : KeyRow). r.key_hash) same ∙ h)) [
        | inl clash ↦ absurd (cc (miss, clash))
        | inr off ↦ rw (← same) off
      ]
]

Revoked-inserted :
    (key_hash : Text) (db : Database) (now : ℕ) (k : ApiKey) (rows table : List KeyRow)
    → create_row db now k rows ≡ some table
    → Revoked key_hash rows
    → Revoked key_hash table
unfolding new_row
Revoked-inserted key_hash db now k rows table e h =
    let (ids, hashes, same) = create_row_cases db now k rows table e in
    let fresh : k.key_hash ≢ key_hash =
      λ clash. cc (hashes, ap (λ t. any (λ (r : KeyRow). r.key_hash == t) rows) clash, h.present) in
    subst (Revoked key_hash) (sym same) (record {
      present =
          any-append_left (λ r. r.key_hash == key_hash) rows (new_row db now k ∷ []) h.present;
      inactive = λ r m q. elim (In-append_cases rows (new_row db now k) r m) [
        | inl old ↦ h.inactive r old q
        | inr new ↦ absurd (fresh (ap (λ (x : KeyRow). x.key_hash) new ∙ q))
      ];
    })

Revoked-Kept : (key_hash : Text) (db : Database) → Kept db (Revoked key_hash)
unfolding written_row
Revoked-Kept key_hash db = record {
  inserted = Revoked-inserted key_hash db;
  written = λ now k rows h. record {
    present = any-update_rows (λ r. r.key_hash == key_hash) _ _ rows (λ r. refl) ∙ h.present;
    inactive = λ y m q.
        let (x, held, same) = In-update_rows _ _ rows y m in
        written_inactive db now k
          (names_id (deactivate now k).id (Values.string (deactivate now k).domain)) key_hash x y
          (λ e. inr (h.inactive x held e)) same q;
  };
}

expired_key : (now : ℕ) (k : ApiKey) → k.is_active ≡ false → is_valid now k ≡ false
unfolding is_valid
expired_key now k h = rw h refl

module _ (db : Database) (hash_key : Text → Text) where
  Revoked-refused :
      (now : ℕ) (d : DomainName) (key : Text) (rows : List KeyRow)
      → Revoked (hash_key key) rows
      → validate_for_auth db hash_key now d key rows ≡ none
  Revoked-refused now d key rows h =
      elim (Option-cases (validate_for_auth db hash_key now d key rows)) [
        | inl e ↦ e
        | inr (k, e) ↦
            let m = validate_for_auth-Matched db hash_key now d key rows e in
            let off : k.is_active ≡ false =
              ap (λ (x : ApiKey). x.is_active) m.entity ∙ h.inactive m.row m.held m.same_hash in
            absurd (cc (m.valid, expired_key now k off))
      ]

  unguarded_update :
      (now : ℕ) (r : KeyRef) (w after : World (List KeyRow)) (k : ApiKey)
      → deactivate_unguarded db hash_key now r w ≡ (after, Guard.Result.ok k)
      → update db r (λ x. some (deactivate now x)) w.state ≡ (after.state, found k)
  unfolding deactivate_unguarded with_rows answer
  unguarded_update now r w after k h = go (update db r (λ x. some (deactivate now x)) w.state) refl
    where
      go :
          (o : List KeyRow × Fetched ApiKey)
          → update db r (λ x. some (deactivate now x)) w.state ≡ o
          → update db r (λ x. some (deactivate now x)) w.state ≡ (after.state, found k)
      go (table, failed e) q = absurd (cc (rw (q, deactivate_unguarded) at h))
      go (table, found x) q =
          let done = rw (q, deactivate_unguarded) at h in
          let kept : table ≡ after.state =
            ap (λ (o : World (List KeyRow) × Guard.Result ServiceError ApiKey). o.0.state) done in
          let read : ◌≡◌ {A = Guard.Result ServiceError ApiKey} (Guard.Result.ok x)
              (Guard.Result.ok k) =
            ap (λ (o : World (List KeyRow) × Guard.Result ServiceError ApiKey). o.1) done in
          let same : x ≡ k = cc read in cc (q, kept, same)

  update_of :
      (at : ℕ) (ctx : Option Principal) (now : ℕ) (r : KeyRef) (w after : World (List KeyRow))
      (k : ApiKey)
      → deactivate_key db hash_key at ctx now r w ≡ (after, Guard.Result.ok k)
      → update db r (λ x. some (deactivate now x)) w.state ≡ (after.state, found k)
  unfolding deactivate_key record_decision
  update_of at ctx now r w after k h =
      elim (guard_cases at ctx delete (resource_of r) (deactivate_unguarded db hash_key now r) w) [
        | inl (e, refused, same) ↦ absurd (refused_result e (sym refused ∙ ap (λ x. x.1) h))
        | inr (d, ran) ↦ unguarded_update now r (record_decision d w) after k (sym ran ∙ h)
      ]
    where
      refused_result :
          (e : GuardError ServiceError)
          → ◌≡◌ {A = Guard.Result ServiceError ApiKey} (Guard.Result.err e) (Guard.Result.ok k)
          → ⊥
      refused_result e q = cc q

  update-Revoked :
      (now : ℕ) (r : KeyRef) (rows table : List KeyRow) (k : ApiKey)
      → IsSound rows
      → IsCanonical db r.domain
      → update db r (λ x. some (deactivate now x)) rows ≡ (table, found k)
      → Revoked k.key_hash table
  unfolding written_row
  update-Revoked now r rows table k sound canonical h =
      let done = update_cases db now r rows canonical h in
      let l = done.located in
      let hash : k.key_hash ≡ l.row.key_hash =
        sym (ap (λ (x : ApiKey). x.key_hash) done.after)
        ∙ deactivate-key_hash now done.before
        ∙ ap (λ (x : ApiKey). x.key_hash) l.entity in
      let named = (find_first-some (names_id r.id r.domain.s) rows l.first).1 in
      let target : (x : KeyRow)
          → In rows x
          → x.key_hash ≡ k.key_hash
          → names_id r.id r.domain.s x ≡ true =
        λ x m e.
          ap (names_id r.id r.domain.s)
            (UniqueBy-eq (λ (y : KeyRow). y.key_hash) rows x l.row sound.1 m l.held (e ∙ hash))
          ∙ named in
      subst (Revoked k.key_hash) (sym (table_after db now r rows canonical h)) (record {
        present =
            any-update_rows (λ x. x.key_hash == k.key_hash) (names_id r.id r.domain.s)
              (written_row db k) rows (λ x. refl)
            ∙ Some-any (λ x. x.key_hash == k.key_hash) rows
                (In-Some (λ x. (x.key_hash == k.key_hash) ≡ true) rows l.row l.held
                  ((list_beq_iff l.row.key_hash k.key_hash).1 (sym hash)));
        inactive = λ y m q.
            let (x, held, same) =
              In-update_rows (names_id r.id r.domain.s) (written_row db k) rows y m in
            written_inactive db now done.before (names_id r.id r.domain.s) k.key_hash x y
              (λ e. inl (target x held e))
              (subst (λ z. (if names_id r.id r.domain.s x then written_row db z x else x) ≡ y)
                (sym done.after) same)
              q;
      })

  -- Once `DeactivateKey` has returned a key, and whatever requests are served after it, no text with
  -- that key's hash authenticates, for any Domain and at any instant; where the table had unique
  -- identifiers and hashes, and the Domain was named canonically.
  pub deactivate_key_final :
      (at : ℕ) (ctx : Option Principal) (now : ℕ) (r : KeyRef) (w after : World (List KeyRow))
      (k : ApiKey) (cs : List Call) (later : ℕ) (d : DomainName) (key : Text)
      → IsSound w.state
      → IsCanonical db r.domain
      → deactivate_key db hash_key at ctx now r w ≡ (after, Guard.Result.ok k)
      → hash_key key ≡ k.key_hash
      → validate_for_auth db hash_key later d key (serve_all db hash_key cs after).0.state ≡ none
  deactivate_key_final at ctx now r w after k cs later d key sound canonical h same =
      Revoked-refused later d key (serve_all db hash_key cs after).0.state (
        rw same (
          serve_all_keeps db hash_key (Revoked k.key_hash) (Revoked-Kept k.key_hash db) cs after (
            update-Revoked now r w.state after.state k sound canonical
              (update_of at ctx now r w after k h))))
