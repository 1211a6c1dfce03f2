-- ===== src/Validator/Silence.antt =====
-- A Delivery that the validator dropped without a stat: `handleDelivery` and `Cycle` of
-- pkg/validator/validator.go.
use mathlib.Core.Path.{subst}
use kannon.Base.{
  ℕ, suc, ◌≡◌, refl, sym, ap, ◌∙◌, inl, inr, Bool, true, false, ◌&&◌, List, [], ◌∷◌, ◌++◌, Text,
  All, All-map, In-All, any, any-false, select_rows, Bool-cases, ◌==◌, nat_eq, list_eq,
  if◌then◌else◌,
}
use kannon.Storage.{int32_of}
use kannon.Delivery.{Delivery, load}
use kannon.Stats.{Event, Outcome, accepted, rejected}
use kannon.Pool.{
  Row, has_key, pending, claim_for_validation, prepare_for_validate, update_limit,
  set_scheduled_row, set_sending_pool_scheduled, clean_pool,
}
use kannon.Pool.Scan.{returned-In}
use kannon.Pool.Keys.{any-update_limit, any-update_where, any-delete_where}
use kannon.Pool.Repository.{
  Repository, clean, set_scheduled, claim_for_validating, with_limit, row_to_delivery,
  rows_to_deliveries,
}
use kannon.Validator.{
  Outside, World, validate_email, publish, event_of, handle_delivery, handle_all, validation_cycle,
  invalid_email_address,
}
use kannon.Validator.Handling.{publish_taken, publish_refused, rejected_in_silence}

-- later cycles, each with what is outside and the rows that other workers hold
unfoldable pub cycles : List ((ℕ → Outside) × (Row → Bool)) → World → World
cycles [] w = w
cycles ((o, locked) ∷ later) w = cycles later (validation_cycle o locked w)

-- The stat names the Delivery of this key.
unfoldable pub names : Text → Text → Event → Bool
names email batch_id e = e.email == email && e.message_id == batch_id

unfoldable pub has_names : Text → Text → Delivery → Bool
has_names email batch_id d = d.email == email && d.batch_id == batch_id

module _ (email batch_id : Text) (told : List Event) where
  -- The pool has no row of the key, and these are the stats that name it.
  abbrev IsSilent : World → Type 0
  IsSilent w =
      (any (has_key email batch_id) w.rows ≡ false)
      × (select_rows (names email batch_id) w.stats ≡ told)

  select-append_other :
      (xs : List Event) (e : Event)
      → names email batch_id e ≡ false
      → select_rows (names email batch_id) (xs ++ e ∷ []) ≡ select_rows (names email batch_id) xs
  unfolding select_rows
  select-append_other [] e h = rw h refl
  select-append_other (x ∷ xs) e h =
      let rest = select-append_other xs e h in
      elim (Bool-cases (names email batch_id x)) [
        | inl k ↦ rw k (ap (λ (s : List Event). x ∷ s) rest)
        | inr k ↦ rw k rest
      ]

  publish-IsSilent :
      (o : Outside) (d : Delivery) (outcome : Outcome) (w : World)
      → has_names email batch_id d ≡ false
      → IsSilent w
      → IsSilent (publish o (event_of o.now d outcome) w)
  unfolding names has_names event_of
  publish-IsSilent o d outcome w h (gone, s) =
      elim (Bool-cases (o.takes_stat (event_of o.now d outcome))) [
        | inr b ↦
            subst IsSilent (sym (publish_refused o d w (event_of o.now d outcome) w b)) (gone, s)
        | inl a ↦
            subst IsSilent (sym (publish_taken o d w (event_of o.now d outcome) w a))
              (gone, select-append_other w.stats (event_of o.now d outcome) h ∙ s)
      ]

  handle_delivery-IsSilent :
      (o : Outside) (d : Delivery) (w : World)
      → has_names email batch_id d ≡ false
      → IsSilent w
      → IsSilent (handle_delivery o d w)
  unfolding handle_delivery set_scheduled set_sending_pool_scheduled clean clean_pool
      set_scheduled_row
  handle_delivery-IsSilent o d w h (gone, s) = branch (validate_email o d.email) o.marks o.drops
    where
      marked : World
      marked = record w { rows = set_scheduled d.batch_id d.email w.rows }

      dropped : World
      dropped = record w { rows = clean d.batch_id d.email w.rows }

      branch :
          (v m k : Bool)
          → IsSilent (
              if v
              then if m then publish o (event_of o.now d accepted) marked else w
              else if k
              then publish o (event_of o.now d (rejected invalid_email_address)) dropped
              else w)
      branch true true k = publish-IsSilent o d accepted marked h (
        any-update_where set_scheduled_row (λ r. (refl, refl)) (has_key d.email d.batch_id) w.rows
              email batch_id
            ∙ gone,
        s,
      )
      branch true false k = (gone, s)
      branch false m true =
          publish-IsSilent o d (rejected invalid_email_address) dropped h
            (any-delete_where (has_key d.email d.batch_id) (has_key email batch_id) w.rows gone, s)
      branch false m false = (gone, s)

  handle_all-IsSilent :
      (o : ℕ → Outside) (ds : List Delivery) (w : World)
      → All (λ (d : Delivery). has_names email batch_id d ≡ false) ds
      → IsSilent w
      → IsSilent (handle_all o ds w)
  unfolding handle_all
  handle_all-IsSilent o [] w h k = k
  handle_all-IsSilent o (d ∷ ds) w h k =
      handle_all-IsSilent (λ i. o (suc i)) ds (handle_delivery (o 0) d w) h.1
        (handle_delivery-IsSilent (o 0) d w h.0 k)

  rows_to_deliveries-others :
      (repo : Repository) (rows : List Row)
      → All (λ (r : Row). has_key email batch_id r ≡ false) rows
      → All (λ (d : Delivery). has_names email batch_id d ≡ false) (rows_to_deliveries repo rows)
  unfolding rows_to_deliveries row_to_delivery load has_key has_names
  rows_to_deliveries-others repo [] h = tt
  rows_to_deliveries-others repo (r ∷ rows) h = (h.0, rows_to_deliveries-others repo rows h.1)

  validation_cycle-IsSilent :
      (o : ℕ → Outside) (locked : Row → Bool) (w : World)
      → IsSilent w
      → IsSilent (validation_cycle o locked w)
  unfolding validation_cycle claim_for_validating with_limit int32_of prepare_for_validate
      claim_for_validation
  validation_cycle-IsSilent o locked w (gone, s) =
      let p = pending locked in
      let change = claim_for_validation (o 0).now in
      let claimed = update_limit p change 100 w.rows in
      let none_left =
        any-update_limit change (λ r. (refl, refl)) p 100 w.rows email batch_id ∙ gone in
      let others = any-false (has_key email batch_id) claimed.table none_left in
      handle_all-IsSilent (λ i. o (suc i)) (rows_to_deliveries (o 0).repo claimed.returned)
        (record w { rows = claimed.table })
        (rows_to_deliveries-others (o 0).repo claimed.returned (
          All-map claimed.returned
            (λ y m. In-All (λ (r : Row). has_key email batch_id r ≡ false) claimed.table y m others)
            (returned-In p change 100 w.rows)))
        (none_left, s)

  cycles-IsSilent :
      (later : List ((ℕ → Outside) × (Row → Bool))) (w : World)
      → IsSilent w
      → IsSilent (cycles later w)
  unfolding cycles
  cycles-IsSilent [] w h = h
  cycles-IsSilent ((o, locked) ∷ later) w h =
      cycles-IsSilent later (validation_cycle o locked w) (validation_cycle-IsSilent o locked w h)

-- A Delivery whose address is not valid, whose row is dropped and whose stat the broker does not take
-- is lost without a word: after any number of later cycles of the validator, whatever is outside
-- them, the pool has no row of its key, and no stat names it that did not before.
pub rejected_for_good :
    (o : Outside) (d : Delivery) (w : World) (later : List ((ℕ → Outside) × (Row → Bool)))
    → validate_email o d.email ≡ false
    → o.drops ≡ true
    → ((e : Event) → o.takes_stat e ≡ false)
    → (any (has_key d.email d.batch_id) (cycles later (handle_delivery o d w)).rows ≡ false)
      × (select_rows (names d.email d.batch_id) (cycles later (handle_delivery o d w)).stats
          ≡ select_rows (names d.email d.batch_id) w.stats)
rejected_for_good o d w later bad drops refuses =
    let (gone, same) = rejected_in_silence o d w bad drops refuses in
    cycles-IsSilent d.email d.batch_id (select_rows (names d.email d.batch_id) w.stats) later
      (handle_delivery o d w) (gone, ap (select_rows (names d.email d.batch_id)) same)
