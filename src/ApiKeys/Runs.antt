-- ===== src/ApiKeys/Runs.antt =====
-- Runs of the operations of internal/apikeys/service.go, as what they do to the map of keys.
use mathlib.Core.Path.{subst, fun_ext}
use kannon.Base.{
  ℕ, ◌≡◌, refl, sym, ap, ◌∙◌, inl, inr, Bool, Option, none, some, List, [], ◌∷◌, ◌++◌, Text, arith,
  Bool-cases, All, any, nat_eq, list_eq,
}
use kannon.Values
use kannon.Values.{DomainName}
use kannon.Authz.Action.{Action}
use kannon.Authz.Resource.{Resource}
use kannon.Authz.Principal.{Principal}
use kannon.Authz.Guard.{World, GuardError, guard, record_decision}
use kannon.Authz.Guard
use kannon.Authz.Enforcement.{guard_cases}
use kannon.ApiKeys.{ApiKey, CreateResult, new_api_key, deactivate}
use kannon.ApiKeys
use kannon.ApiKeys.Store.{
  Database, KeyRow, KeyRef, StoreError, update_key, write_row, names_id, Fetched, failed, found,
  Pagination, create_row, update, get_by_id, list_keys,
}
use kannon.ApiKeys.Service.{
  ServiceError, KeyOperation, Draw, create_key, get_key, list_keys_of, deactivate_key,
  create_unguarded, insert_key, list_unguarded, deactivate_unguarded, with_rows, answer,
}
use kannon.ApiKeys.Views.{Keys, Effect, minted, revoked, apply, view, IsCanonical}
use kannon.ApiKeys.Refinement.{view-create_row, view-update}

-- A request to the service, with the clock and the Principal of its context.
pub data Call : Type 0 where
  create_call : ℕ → Option Principal → Draw → DomainName → Text → Option ℕ → Call
  get_call : ℕ → Option Principal → KeyRef → Call
  list_call : ℕ → Option Principal → DomainName → Bool → Pagination → Call
  deactivate_call : ℕ → Option Principal → ℕ → KeyRef → Call

pub data Reply : Type 0 where
  key_made : Guard.Result ServiceError CreateResult → Reply
  key_read : Guard.Result ServiceError ApiKey → Reply
  keys_listed : Guard.Result ServiceError (List ApiKey × ℕ) → Reply
  key_deactivated : Guard.Result ServiceError ApiKey → Reply

-- the names in a request are names that `Parse` gave
abbrev pub CanonicalCall : Database → Call → Type 0
CanonicalCall db (create_call at ctx draw domain name expires_at) = IsCanonical db domain
CanonicalCall db (get_call at ctx r) = IsCanonical db r.domain
CanonicalCall db (list_call at ctx domain only_active page) = IsCanonical db domain
CanonicalCall db (deactivate_call at ctx now r) = IsCanonical db r.domain

-- What a call did to the keys, as its reply tells: a refusal and a read do nothing.
abbrev pub effects : Call → Reply → List Effect
effects (create_call at ctx draw domain name expires_at) (key_made (Guard.Result.ok result)) =
    minted draw.inserted_at result.key ∷ []
effects (deactivate_call at ctx now r) (key_deactivated (Guard.Result.ok k)) = revoked now r ∷ []
effects _ _ = []

abbrev pub replay : Database → List Effect → Keys → Keys
replay db [] keys = keys
replay db (e ∷ es) keys = replay db es (apply db e keys)

module _ (db : Database) (hash_key : Text → Text) where
  abbrev pub serve : Call → World (List KeyRow) → World (List KeyRow) × Reply
  serve (create_call at ctx draw domain name expires_at) w =
      let (after, r) = create_key db hash_key at ctx draw domain name expires_at w in
      (after, key_made r)
  serve (get_call at ctx r) w =
      let (after, k) = get_key db hash_key at ctx r w in (after, key_read k)
  serve (list_call at ctx domain only_active page) w =
      let (after, r) = list_keys_of db hash_key at ctx domain only_active page w in
      (after, keys_listed r)
  serve (deactivate_call at ctx now r) w =
      let (after, k) = deactivate_key db hash_key at ctx now r w in (after, key_deactivated k)

  -- requests one after the other, with the replies
  abbrev pub serve_all : List Call → World (List KeyRow) → World (List KeyRow) × List Effect
  serve_all [] w = (w, [])
  serve_all (c ∷ cs) w =
      let (after, reply) = serve c w in
      let (last, later) = serve_all cs after in (last, effects c reply ++ later)

  new_api_key-domain :
      (draw : Draw) (domain : DomainName) (name : Text) (expires_at : Option ℕ)
      {result : CreateResult}
      → new_api_key hash_key draw.now draw.id draw.random domain name expires_at
        ≡ ApiKeys.Result.ok result
      → result.key.domain ≡ domain
  unfolding new_api_key
  new_api_key-domain draw domain name expires_at h = ground arith

  -- The map of keys after an answer is the map before with the effects that the answer tells.
  abbrev Explained :
      {T : Type 0}
      → Call
      → (Guard.Result ServiceError T → Reply)
      → World (List KeyRow)
      → KeyOperation T
      → Type 0
  Explained c reply w fn =
      view db (fn w).0.state ≡ replay db (effects c (reply (fn w).1)) (view db w.state)

  guard-Explained :
      {T : Type 0} (c : Call) (reply : Guard.Result ServiceError T → Reply) (at : ℕ)
      (ctx : Option Principal) (a : Action) (r : Resource) (fn : KeyOperation T)
      (w : World (List KeyRow))
      → ((e : GuardError ServiceError) → effects c (reply (Guard.Result.err e)) ≡ [])
      → ((x : World (List KeyRow)) → Explained c reply x fn)
      → Explained c reply w (guard at ctx a r fn)
  unfolding record_decision
  guard-Explained {T} c reply at ctx a r fn w silent run = elim (guard_cases at ctx a r fn w) [
    | inl (e, refused, same) ↦
        ap (view db) same
        ∙ sym (
            ap
              (λ (x : Guard.Result ServiceError T).
                replay db (effects c (reply x)) (view db w.state))
              refused
            ∙ ap (λ (es : List Effect). replay db es (view db w.state)) (silent e))
    | inr (d, ran) ↦
        subst
          (λ (o : World (List KeyRow) × Guard.Result ServiceError T).
            view db o.0.state ≡ replay db (effects c (reply o.1)) (view db w.state))
          (sym ran) (run (record_decision d w))
  ]

  module _ (at : ℕ) (ctx : Option Principal) (draw : Draw) (domain : DomainName) (name : Text)
      (expires_at : Option ℕ) where
    insert_key-Explained :
        (result : CreateResult) (w : World (List KeyRow))
        → IsCanonical db result.key.domain
        → Explained
            (create_call at ctx draw domain name expires_at)
            key_made
            w
            (insert_key db hash_key draw.inserted_at result)
    unfolding insert_key with_rows
    insert_key-Explained result w canonical =
        go (create_row db draw.inserted_at result.key w.state) refl
      where
        go :
            (o : Option (List KeyRow))
            → create_row db draw.inserted_at result.key w.state ≡ o
            → Explained
                (create_call at ctx draw domain name expires_at)
                key_made
                w
                (insert_key db hash_key draw.inserted_at result)
        go none q = rw (q, insert_key) refl
        go (some rows) q =
            rw (q, insert_key)
              (fun_ext (view-create_row db draw.inserted_at result.key w.state canonical q))

    create_unguarded-Explained :
        (w : World (List KeyRow))
        → IsCanonical db domain
        → Explained
            (create_call at ctx draw domain name expires_at)
            key_made
            w
            (create_unguarded db hash_key draw domain name expires_at)
    unfolding create_unguarded
    create_unguarded-Explained w canonical =
        go (new_api_key hash_key draw.now draw.id draw.random domain name expires_at) refl
      where
        go :
            (o : ApiKeys.Result CreateResult)
            → new_api_key hash_key draw.now draw.id draw.random domain name expires_at ≡ o
            → Explained
                (create_call at ctx draw domain name expires_at)
                key_made
                w
                (create_unguarded db hash_key draw domain name expires_at)
        go (ApiKeys.Result.err e) q = rw (q, create_unguarded) refl
        go (ApiKeys.Result.ok result) q =
            rw (q, create_unguarded)
              (insert_key-Explained result w (
                subst (IsCanonical db) (sym (new_api_key-domain draw domain name expires_at q))
                  canonical))

  write_row-unchanged :
      (k : ApiKey) (rows table : List KeyRow) (e : StoreError)
      → write_row db k rows ≡ (table, failed e)
      → table ≡ rows
  unfolding write_row
  write_row-unchanged k rows table e h =
      elim (Bool-cases (any (names_id k.id (Values.string k.domain)) rows)) [
        | inl x ↦ absurd (cc (rw x at h))
        | inr x ↦ cc (rw x at h)
      ]

  update_key-unchanged :
      (f : ApiKey → Option ApiKey) (k : ApiKey) (rows table : List KeyRow) (e : StoreError)
      → update_key db f k rows ≡ (table, failed e)
      → table ≡ rows
  unfolding update_key
  update_key-unchanged f k rows table e h = go (f k) refl
    where
      go : (o : Option ApiKey) → f k ≡ o → table ≡ rows
      go none q = cc (rw (q, update_key) at h)
      go (some changed) q = write_row-unchanged changed rows table e (rw (q, update_key) at h)

  update-unchanged :
      (r : KeyRef) (f : ApiKey → Option ApiKey) (rows table : List KeyRow) (e : StoreError)
      → update db r f rows ≡ (table, failed e)
      → table ≡ rows
  unfolding update
  update-unchanged r f rows table e h = go (get_by_id db r rows) refl
    where
      go : (o : Fetched ApiKey) → get_by_id db r rows ≡ o → table ≡ rows
      go (failed x) q = cc (rw (q, update) at h)
      go (found k) q = update_key-unchanged f k rows table e (rw (q, update) at h)

  deactivate-Explained :
      (at : ℕ) (ctx : Option Principal) (now : ℕ) (r : KeyRef) (w : World (List KeyRow))
      → IsCanonical db r.domain
      → Explained
          (deactivate_call at ctx now r)
          key_deactivated
          w
          (deactivate_unguarded db hash_key now r)
  unfolding deactivate_unguarded with_rows answer
  deactivate-Explained at ctx now r w canonical =
      go (update db r (λ k. some (deactivate now k)) w.state) refl
    where
      go :
          (o : List KeyRow × Fetched ApiKey)
          → update db r (λ k. some (deactivate now k)) w.state ≡ o
          → view db o.0
            ≡ replay db
                (effects (deactivate_call at ctx now r) (key_deactivated (answer o.1)))
                (view db w.state)
      go (table, failed e) q =
          ap (view db) (update-unchanged r (λ k. some (deactivate now k)) w.state table e q)
      go (table, found k) q = fun_ext (view-update db now r w.state canonical q)

  list-Explained :
      (at : ℕ) (ctx : Option Principal) (domain : DomainName) (only_active : Bool)
      (page : Pagination) (w : World (List KeyRow))
      → Explained
          (list_call at ctx domain only_active page)
          keys_listed
          w
          (list_unguarded db hash_key domain only_active page)
  unfolding list_unguarded
  list-Explained at ctx domain only_active page w =
      go (list_keys db domain only_active page w.state) refl
    where
      go :
          (o : Fetched (List ApiKey))
          → list_keys db domain only_active page w.state ≡ o
          → Explained
              (list_call at ctx domain only_active page)
              keys_listed
              w
              (list_unguarded db hash_key domain only_active page)
      go (failed e) q = rw (q, list_unguarded) refl
      go (found ks) q = rw (q, list_unguarded) refl

  -- One request.
  serve_lem :
      (c : Call) (w : World (List KeyRow))
      → CanonicalCall db c
      → view db (serve c w).0.state ≡ replay db (effects c (serve c w).1) (view db w.state)
  unfolding create_key get_key list_keys_of deactivate_key
  serve_lem (create_call at ctx draw domain name expires_at) w canonical =
      guard-Explained (create_call at ctx draw domain name expires_at) key_made at ctx _ _ _ w
        (λ e. refl) (λ x. create_unguarded-Explained at ctx draw domain name expires_at x canonical)
  serve_lem (get_call at ctx r) w canonical =
      guard-Explained (get_call at ctx r) key_read at ctx _ _ _ w (λ e. refl) (λ x. refl)
  serve_lem (list_call at ctx domain only_active page) w canonical =
      guard-Explained (list_call at ctx domain only_active page) keys_listed at ctx _ _ _ w
        (λ e. refl) (λ x. list-Explained at ctx domain only_active page x)
  serve_lem (deactivate_call at ctx now r) w canonical =
      guard-Explained (deactivate_call at ctx now r) key_deactivated at ctx _ _ _ w (λ e. refl)
        (λ x. deactivate-Explained at ctx now r x canonical)

  replay-append :
      (es fs : List Effect) (keys : Keys)
      → replay db (es ++ fs) keys ≡ replay db fs (replay db es keys)
  replay-append [] fs keys = refl
  replay-append (e ∷ es) fs keys = replay-append es fs (apply db e keys)

  -- Whatever requests are served, one after the other, what `GetByID` then tells of each reference is
  -- what the replies say was done to a map of keys: each key that was made stands under its own Domain
  -- and identifier, each key that was deactivated is deactivated there, and a request that was refused
  -- or that reads changes nothing.
  pub view-serve_all :
      (cs : List Call) (w : World (List KeyRow))
      → All (CanonicalCall db) cs
      → view db (serve_all cs w).0.state ≡ replay db (serve_all cs w).1 (view db w.state)
  view-serve_all [] w h = refl
  view-serve_all (c ∷ cs) w h =
      view-serve_all cs (serve c w).0 h.1
      ∙ ap (replay db (serve_all cs (serve c w).0).1) (serve_lem c w h.0)
      ∙ sym
          (replay-append (effects c (serve c w).1) (serve_all cs (serve c w).0).1 (view db w.state))
