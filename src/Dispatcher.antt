-- ===== src/Dispatcher.antt =====
-- pkg/dispatcher/disp.go and reclaim.go: the worker that claims Deliveries, hands their Envelopes on,
-- and acts on the stats that come back.
--
-- Logging and the deadlines of contexts are left out: a call that a deadline ends is a call that
-- fails. What is outside the worker answers or fails as a record of the model says.
pub mod Branches
pub mod Loss
pub mod Acks
pub mod Stranding
use kannon.Base.{
  ℕ, suc, ◌*◌, Bool, true, false, not, Option, none, some, List, [], ◌∷◌, ◌++◌, Text, text, ◌==◌,
  nat_eq, list_eq, if◌then◌else◌,
}
use kannon.Base.Int.{ℤ}
use kannon.Tracking.{mode_unspecified}
use kannon.Delivery.{Delivery, can_retry}
use kannon.Delivery.Backoff.{hour}
use kannon.Stats.{Outcome, Event, failed, outcome_type, type_error}
use kannon.Pool.{Row, Claimed}
use kannon.Pool.Repository.{
  Repository, get, reschedule, clean, claim_for_dispatch, reclaim, for_dispatch, rows_to_deliveries,
}

-- What is outside the worker in one call: the Envelope builder, the publisher of internal/publisher,
-- whether the database answers, and the clock.
pub record Outside (E : Type 0) : Type 0 where
  pub repo : Repository
  pub build : Delivery → Option E
  pub takes_mail : E → Bool
  pub takes_stat : Event → Bool
  pub finds : Bool
  pub reschedules : Bool
  pub drops : Bool
  pub now : ℤ

-- The pool, and what has been published, in order
pub record World (E : Type 0) : Type 0 where
  pub rows : List Row
  pub stats : List Event
  pub mail : List E

-- `not_found` is an error that wraps `ErrDeliveryNotFound`.
pub data Failure : Type 0 where
  not_found refused : Failure

pub record Done (E : Type 0) : Type 0 where
  pub world : World E
  pub failure : Option Failure

abbrev pub reason_budget_spent_dispatching : Text
reason_budget_spent_dispatching = text "retry budget exhausted while dispatching"

abbrev pub reason_budget_spent_sending : Text
reason_budget_spent_sending = text "retry budget exhausted while sending"

-- `sendingStrandThreshold`
abbrev pub sending_strand_threshold : ℕ
sending_strand_threshold = hour

-- `reclaimPageSize` of internal/pool/reclaim.go
abbrev pub reclaim_page_size : ℕ
reclaim_page_size = 1000

-- The event that `fail` publishes
unfoldable pub failed_event : ℤ → Delivery → Text → Event
failed_event now d reason = record {
  message_id = d.batch_id;
  domain = d.domain;
  email = d.email;
  timestamp = now;
  outcome = failed reason;
  tracking_mode = mode_unspecified;
}

module _ {E : Type 0} (o : Outside E) where
  -- `claimer.Reschedule`
  unfoldable pub claimer_reschedule : Delivery → World E → Done E
  claimer_reschedule d w =
      if o.reschedules
      then elim (reschedule o.repo d.batch_id d.email w.rows) [
        | none ↦ record { world = w; failure = some not_found }
        | some rows ↦ record { world = record w { rows = rows }; failure = none }
      ]
      else record { world = w; failure = some refused }

  -- `claimer.Drop`
  unfoldable pub claimer_drop : Delivery → World E → Done E
  claimer_drop d w =
      if o.drops
      then record { world = record w { rows = clean d.batch_id d.email w.rows }; failure = none }
      else record { world = w; failure = some refused }

  -- `publisher.PublishStat`
  unfoldable pub publish_stat : Event → World E → Done E
  publish_stat e w =
      if o.takes_stat e
      then record { world = record w { stats = w.stats ++ e ∷ [] }; failure = none }
      else record { world = w; failure = some refused }

  -- the rest of `fail`, after the publishing
  unfoldable pub drop_if_published : Delivery → Done E → Done E
  drop_if_published d published = elim published.failure [
    | some f ↦ record { world = published.world; failure = some refused }
    | none ↦ claimer_drop d published.world
  ]

  -- `fail`
  unfoldable pub fail : Delivery → Text → World E → Done E
  fail d reason w = drop_if_published d (publish_stat (failed_event o.now d reason) w)

  -- `retryOrFail`
  unfoldable pub retry_or_fail : Delivery → Text → World E → Done E
  retry_or_fail d reason w = if can_retry d then claimer_reschedule d w else fail d reason w

  -- `reschedule`, which only logs a failure
  unfoldable pub hand_back_or_fail : Delivery → World E → World E
  hand_back_or_fail d w = (retry_or_fail d reason_budget_spent_dispatching w).world

  -- `dispatchOne`
  unfoldable pub dispatch_one : Delivery → World E → World E
  dispatch_one d w = elim (o.build d) [
    | none ↦ hand_back_or_fail d w
    | some env ↦
        if o.takes_mail env then record w { mail = w.mail ++ env ∷ [] } else hand_back_or_fail d w
  ]

  -- `ReclaimCycle`
  unfoldable pub reclaim_cycle : (Row → Bool) → World E → World E
  reclaim_cycle locked w =
      elim (reclaim locked o.now for_dispatch sending_strand_threshold reclaim_page_size w.rows) [
        | none ↦ w
        | some c ↦ record w { rows = c.table }
      ]

  -- `claimer.Lookup` and what follows it in the three handlers of stats
  unfoldable pub with_delivery : Event → (Delivery → World E → Done E) → World E → Done E
  with_delivery e act w =
      if o.finds
      then elim (get o.repo e.message_id e.email w.rows) [
        | none ↦ record { world = w; failure = some not_found }
        | some d ↦ act d w
      ]
      else record { world = w; failure = some refused }

  -- `parseErrorsFunc`
  unfoldable pub parse_errors : Event → World E → Done E
  parse_errors e w =
      if not (outcome_type e.outcome == type_error)
      then record { world = w; failure = some refused }
      else with_delivery e (λ d. retry_or_fail d reason_budget_spent_sending) w

  -- `parsDeliveredFunc`
  unfoldable pub parse_delivered : Event → World E → Done E
  parse_delivered e w = with_delivery e claimer_drop w

  -- `parsBouncedFunc`
  unfoldable pub parse_bounced : Event → World E → Done E
  parse_bounced e w = with_delivery e claimer_drop w

-- the loop of `DispatchCycle`; what is outside may differ from one Delivery to the next
unfoldable pub dispatch_all : {E : Type 0} → (ℕ → Outside E) → List Delivery → World E → World E
dispatch_all o [] w = w
dispatch_all o (d ∷ ds) w = dispatch_all (λ i. o (suc i)) ds (dispatch_one (o 0) d w)

-- `DispatchCycle`, with the rows that other workers hold
unfoldable pub dispatch_cycle : {E : Type 0} → (ℕ → Outside E) → (Row → Bool) → World E → World E
dispatch_cycle o locked w = elim (claim_for_dispatch locked (o 0).now 20 w.rows) [
  | none ↦ w
  | some claimed ↦
      dispatch_all (λ i. o (suc i)) (rows_to_deliveries (o 0).repo claimed.returned)
        (record w { rows = claimed.table })
]

-- What is told to the queue about a message
pub data Reply : Type 0 where
  ack term nak_with_delay : Reply

-- `handleWithAck`
unfoldable pub reply_of : Option Failure → Reply
reply_of none = ack
reply_of (some not_found) = term
reply_of (some refused) = nak_with_delay
