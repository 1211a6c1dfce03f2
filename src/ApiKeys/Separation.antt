-- ===== src/ApiKeys/Separation.antt =====
-- The Principal of an API Key (internal/apikeys/principal.go) before the operations on API Keys
-- (internal/apikeys/service.go).
use kannon.Base.{
  ℕ, ◌≡◌, ◌≢◌, refl, ap, inl, inr, Bool, false, Option, some, List, Text, arith, Bool-cases,
}
use kannon.Values
use kannon.Values.{DomainName}
use kannon.Authz.Action.{Action, create, read, list, delete}
use kannon.Authz.Resource.{Resource, under, batches, seg_api_keys, seg_batches}
use kannon.Authz.Resource
use kannon.Authz.Principal.{Principal}
use kannon.Authz.Decide.{can}
use kannon.Authz.Guard.{World, err, err_forbidden, guard, record_decision}
use kannon.Authz.Enforcement.{guard_lem}
use kannon.Authz.Coverage.{extend_path}
use kannon.ApiKeys.{ApiKey, principal, resolved}
use kannon.ApiKeys.Authority.{principal-can_iff, Sends}
use kannon.ApiKeys.Store.{Database, KeyRow, KeyRef, Pagination}
use kannon.ApiKeys.Service.{
  Draw, KeyOperation, create_key, get_key, list_keys_of, deactivate_key, resource_of,
}

-- the operation ran into its check: it was refused as forbidden, and the table is what it was
abbrev pub IsForbidden : {T : Type 0} → World (List KeyRow) → KeyOperation T → Type 0
IsForbidden w op = ((op w).1 ≡ err err_forbidden) × ((op w).0.state ≡ w.state)

IsForbidden-of :
    {T : Type 0} (at : ℕ) (p : Principal) (a : Action) (r : Resource) (fn : KeyOperation T)
    (w : World (List KeyRow))
    → can p a r ≡ false
    → IsForbidden w (guard at (some p) a r fn)
unfolding record_decision
IsForbidden-of at p a r fn w h = rw guard_lem (rw h (refl, refl))

module _ (k : ApiKey) (p : Principal) (of_key : principal k ≡ resolved p) where
  not-Sends : (a : Action) (r : Resource) → (Sends k.domain a r → ⊥) → can p a r ≡ false
  not-Sends a r h = elim (Bool-cases (can p a r)) [
    | inr e ↦ e
    | inl e ↦ absurd (h ((principal-can_iff k p a r of_key).0 e))
  ]

  create-ne : (d : DomainName) → Sends k.domain create (Resource.api_keys d) → ⊥
  unfolding Resource.api_keys under extend_path batches Values.string
  create-ne d h = ground (arith, ap (λ (r : Resource). r.segments) h.place)

  only_creates : (a : Action) (r : Resource) → a ≢ create → Sends k.domain a r → ⊥
  only_creates a r n h = n h.creates

  -- The Principal of an API Key can do none of the operations on API Keys, those of its own Domain
  -- included: making, reading, listing and deactivating are refused, and the table is untouched.
  pub principal-IsForbidden :
      (db : Database) (hash_key : Text → Text) (at now : ℕ) (draw : Draw) (domain : DomainName)
      (name : Text) (expires_at : Option ℕ) (ref : KeyRef) (only_active : Bool) (page : Pagination)
      (w : World (List KeyRow))
      → IsForbidden w (create_key db hash_key at (some p) draw domain name expires_at)
        × IsForbidden w (get_key db hash_key at (some p) ref)
        × IsForbidden w (list_keys_of db hash_key at (some p) domain only_active page)
        × IsForbidden w (deactivate_key db hash_key at (some p) now ref)
  unfolding create_key get_key list_keys_of deactivate_key
  principal-IsForbidden db hash_key at now draw domain name expires_at ref only_active page w = (
    IsForbidden-of at p create (Resource.api_keys domain) _ w (not-Sends _ _ (create-ne domain)),
    IsForbidden-of at p read (resource_of ref) _ w
        (not-Sends _ _ (only_creates _ _ (λ e. ground arith))),
    IsForbidden-of at p list (Resource.api_keys domain) _ w
        (not-Sends _ _ (only_creates _ _ (λ e. ground arith))),
    IsForbidden-of at p delete (resource_of ref) _ w
        (not-Sends _ _ (only_creates _ _ (λ e. ground arith))),
  )
