-- ===== src/Validator.antt =====
-- pkg/validator/validator.go and reclaim.go: the worker that passes the addresses of Deliveries or
-- ends them as Rejected.
pub mod Handling
pub mod Silence
use kannon.Base.{
  ℕ, suc, ◌*◌, Bool, true, false, ◌||◌, Option, none, some, List, [], ◌∷◌, ◌++◌, Text, text,
  has_suffix, if◌then◌else◌,
}
use kannon.Base.Int.{ℤ}
use kannon.Tracking.{mode_unspecified}
use kannon.Delivery.{Delivery}
use kannon.Delivery.Backoff.{minute}
use kannon.Stats.{Outcome, Event, accepted, rejected}
use kannon.Pool.{Row, Claimed, prepare_for_validate}
use kannon.Pool.Repository.{
  Repository, clean, set_scheduled, claim_for_validating, reclaim, for_validation,
  rows_to_deliveries,
}

-- What is outside the worker in one call: the regular expression of addresses, the publisher of
-- internal/publisher, whether the database answers, and the clock
pub record Outside : Type 0 where
  pub repo : Repository
  pub matches : Text → Bool
  pub takes_stat : Event → Bool
  pub marks : Bool
  pub drops : Bool
  pub now : ℤ

-- The pool, and the stats that have been published, in order
pub record World : Type 0 where
  pub rows : List Row
  pub stats : List Event

-- `ErrInvalidEmailAddress`, as its message
abbrev pub invalid_email_address : Text
invalid_email_address = text " is not a valid email"

-- `validatingStrandThreshold`
abbrev pub validating_strand_threshold : ℕ
validating_strand_threshold = 5 * minute

-- `reclaimPageSize` of internal/pool/reclaim.go
abbrev pub validating_page_size : ℕ
validating_page_size = 1000

unfoldable pub event_of : ℤ → Delivery → Outcome → Event
event_of now d outcome = record {
  message_id = d.batch_id;
  domain = d.domain;
  email = d.email;
  timestamp = now;
  outcome = outcome;
  tracking_mode = mode_unspecified;
}

module _ (o : Outside) where
  -- `validateEmail`; false is the error
  unfoldable pub validate_email : Text → Bool
  validate_email email = if has_suffix email (text "@localhost") then true else o.matches email

  -- `publisher.PublishStat`, whose failure is only logged
  unfoldable pub publish : Event → World → World
  publish e w = if o.takes_stat e then record w { stats = w.stats ++ e ∷ [] } else w

  -- `handleDelivery`; the error that it returns is only logged
  unfoldable pub handle_delivery : Delivery → World → World
  handle_delivery d w =
      if validate_email d.email
      then if o.marks
        then publish (event_of o.now d accepted)
            (record w { rows = set_scheduled d.batch_id d.email w.rows })
        else w
      else if o.drops
      then publish (event_of o.now d (rejected invalid_email_address))
          (record w { rows = clean d.batch_id d.email w.rows })
      else w

  -- `ReclaimCycle`
  unfoldable pub reclaim_validating : (Row → Bool) → World → World
  reclaim_validating locked w =
      elim (reclaim locked o.now for_validation validating_strand_threshold validating_page_size
        w.rows) [ none ↦ w | some c ↦ record w { rows = c.table } ]

-- the loop of `Cycle`; what is outside may differ from one Delivery to the next
unfoldable pub handle_all : (ℕ → Outside) → List Delivery → World → World
handle_all o [] w = w
handle_all o (d ∷ ds) w = handle_all (λ i. o (suc i)) ds (handle_delivery (o 0) d w)

-- `Cycle`, with the rows that other workers hold
unfoldable pub validation_cycle : (ℕ → Outside) → (Row → Bool) → World → World
validation_cycle o locked w = elim (claim_for_validating locked (o 0).now 100 w.rows) [
  | none ↦ w
  | some claimed ↦
      handle_all (λ i. o (suc i)) (rows_to_deliveries (o 0).repo claimed.returned)
        (record w { rows = claimed.table })
]
