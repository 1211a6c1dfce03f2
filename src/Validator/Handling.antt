-- ===== src/Validator/Handling.antt =====
-- What becomes of one Delivery: `handleDelivery` of pkg/validator/validator.go.
use kannon.Base.{◌≡◌, refl, ap, ◌∙◌, ◌⊎◌, true, false, List, [], ◌∷◌, ◌++◌, Text, arith, All, any}
use kannon.Delivery.{Delivery}
use kannon.Stats.{Event, rejected}
use kannon.Pool.{Row, scheduled, has_key, delete_where, clean_pool}
use kannon.Pool.Repository.{clean}
use kannon.Validator.{
  Outside, World, validate_email, publish, event_of, handle_delivery, invalid_email_address,
}

-- Every row of the key is scheduled.
abbrev pub IsPassed : Text → Text → List Row → Type 0
IsPassed email batch_id rows =
    All (λ (r : Row). (has_key email batch_id r ≡ false) ⊎ (r.status ≡ scheduled)) rows

clean-any :
    (email batch_id : Text) (rows : List Row)
    → any (has_key email batch_id) (clean batch_id email rows) ≡ false
unfolding clean clean_pool delete_where any
clean-any email batch_id [] = refl
clean-any email batch_id (r ∷ rows) = ground (arith, clean-any email batch_id rows)

module _ (o : Outside) (d : Delivery) (w : World) where
  pub publish_taken :
      (e : Event) (v : World)
      → o.takes_stat e ≡ true
      → publish o e v ≡ record v { stats = v.stats ++ e ∷ [] }
  unfolding publish
  publish_taken e v t = rw (t, publish) refl

  pub publish_refused : (e : Event) (v : World) → o.takes_stat e ≡ false → publish o e v ≡ v
  unfolding publish
  publish_refused e v t = rw (t, publish) refl

  handle_invalid :
      validate_email o d.email ≡ false
      → o.drops ≡ true
      → handle_delivery o d w
        ≡ publish o
            (event_of o.now d (rejected invalid_email_address))
            (record w { rows = clean d.batch_id d.email w.rows })
  unfolding handle_delivery
  handle_invalid v m = rw (v, handle_delivery) (rw m refl)

-- Where the row of a Delivery whose address is not valid is dropped and the broker does not take
-- the stat, no row of its key is left and no stat has been published.
pub rejected_in_silence :
    (o : Outside) (d : Delivery) (w : World)
    → validate_email o d.email ≡ false
    → o.drops ≡ true
    → ((e : Event) → o.takes_stat e ≡ false)
    → (any (has_key d.email d.batch_id) (handle_delivery o d w).rows ≡ false)
      × ((handle_delivery o d w).stats ≡ w.stats)
rejected_in_silence o d w bad drops refuses =
    let ended = event_of o.now d (rejected invalid_email_address) in
    let e =
      handle_invalid o d w bad drops
      ∙ publish_refused o d w ended (record w { rows = clean d.batch_id d.email w.rows })
          (refuses ended) in
    (
      ap (λ (x : World). any (has_key d.email d.batch_id) x.rows) e
          ∙ clean-any d.email d.batch_id w.rows,
      ap (λ (x : World). x.stats) e,
    )
