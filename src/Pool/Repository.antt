-- ===== src/Pool/Repository.antt =====
-- internal/db/delivery_repo.go over the statements, and the Claimer of internal/pool/pool.go that
-- passes its calls on.
use kannon.Base.{
  ℕ, ◌*◌, ◌/◌, Bool, true, false, Option, none, some, List, map, Text, ◌==◌, nat_eq, if◌then◌else◌,
}
use kannon.Base.Int.{ℤ, pos, negsuc}
use kannon.Storage.{int32_of}
use kannon.Delivery.{Delivery, load, next_retry_at}
use kannon.Delivery.Backoff.{BackoffPolicy}
use kannon.Pool.{
  Row, Status, to_validate, validating, scheduled, sending, Claimed, ReclaimParams, get_pool,
  clean_pool, copy_rows, prepare_for_send, prepare_for_validate, reclaim_stranded, reschedule_pool,
  set_sending_pool_scheduled,
}

-- `deliveryRepository`, with what is outside the code: the conversion of the default backoff, and the
-- instant that a timestamp column keeps of the one it is given
pub record Repository : Type 0 where
  pub backoff : Option BackoffPolicy
  pub retry_window : ℤ
  pub overflowed : ℕ → ℤ
  pub stored : ℤ → ℤ

-- `rowToDelivery`
unfoldable pub row_to_delivery : Repository → Row → Delivery
row_to_delivery repo r = load repo.overflowed (record {
  batch_id = r.message_id;
  email = r.email;
  fields = r.fields;
  send_attempts = r.send_attempts_cnt;
  domain = r.domain;
  scheduled_time = r.scheduled_time;
  original_scheduled_time = r.original_scheduled_time;
  backoff = repo.backoff;
  retry_window = repo.retry_window;
  tracking = r.tracking;
})

-- the row that `Schedule` makes of a Delivery, with the columns' defaults
unfoldable pub new_row : Repository → Delivery → Row
new_row repo d = record {
  scheduled_time = repo.stored d.scheduled_time;
  original_scheduled_time = repo.stored d.scheduled_time;
  send_attempts_cnt = 0;
  email = d.email;
  message_id = d.batch_id;
  fields = d.fields;
  status = to_validate;
  domain = d.domain;
  tracking = d.tracking;
  claimed_at = none;
}

-- `Schedule`; `none` where the insertion is refused
unfoldable pub schedule : Repository → (Text → Bool) → List Delivery → List Row → Option (List Row)
schedule repo known ds rows = copy_rows known rows (map (new_row repo) ds)

-- a claim under a LIMIT, which the database refuses where it is negative
unfoldable pub with_limit : (ℕ → Claimed) → ℤ → Option Claimed
with_limit claim (pos limit) = some (claim limit)
with_limit claim (negsuc limit) = none

-- `ClaimForDispatch`, which is `PrepareForSend`; `none` where the limit is refused
unfoldable pub claim_for_dispatch : (Row → Bool) → ℤ → ℕ → List Row → Option Claimed
claim_for_dispatch locked now max rows =
    with_limit (λ limit. prepare_for_send locked now limit rows) (int32_of max)

-- `ClaimForValidation`, which is `PrepareForValidate`
unfoldable pub claim_for_validating : (Row → Bool) → ℤ → ℕ → List Row → Option Claimed
claim_for_validating locked now max rows =
    with_limit (λ limit. prepare_for_validate locked now limit rows) (int32_of max)

-- `Get`; `none` is `ErrDeliveryNotFound`
unfoldable pub get : Repository → Text → Text → List Row → Option Delivery
get repo batch_id email rows = elim (get_pool email batch_id rows) [
  | none ↦ none
  | some r ↦ some (row_to_delivery repo r)
]

-- `SetScheduled`
unfoldable pub set_scheduled : Text → Text → List Row → List Row
set_scheduled batch_id email rows = set_sending_pool_scheduled email batch_id rows

-- `Reschedule`; `none` is `ErrDeliveryNotFound`
unfoldable pub reschedule : Repository → Text → Text → List Row → Option (List Row)
reschedule repo batch_id email rows = elim (get repo batch_id email rows) [
  | none ↦ none
  | some d ↦ some (reschedule_pool (repo.stored (next_retry_at d)) email batch_id rows)
]

-- `Clean`
unfoldable pub clean : Text → Text → List Row → List Row
clean batch_id email rows = clean_pool email batch_id rows

-- `InFlight`, a number
abbrev pub InFlight : Type 0
InFlight = ℕ

abbrev pub for_dispatch : InFlight
for_dispatch = 1

abbrev pub for_validation : InFlight
for_validation = 2

pub record ReclaimTarget : Type 0 where
  pub from_status : Status
  pub to_status : Status
  pub bump_attempts : Bool

-- `reclaimTargets`
unfoldable pub reclaim_target : InFlight → Option ReclaimTarget
reclaim_target f =
    if f == for_dispatch
    then some (record { from_status = sending; to_status = scheduled; bump_attempts = true })
    else if f == for_validation
    then some (record { from_status = validating; to_status = to_validate; bump_attempts = false })
    else none

-- `PgIntervalFromDuration`: whole microseconds of a duration in nanoseconds
unfoldable pub interval_of : ℕ → ℤ
interval_of older_than = pos (older_than / 1000 * 1000)

-- the parameters of the statement, with the limit that int32 makes of `max`
unfoldable pub reclaim_params : ReclaimTarget → ℕ → ℕ → ReclaimParams
reclaim_params t older_than limit = record {
  to_status = t.to_status;
  bump_attempts = t.bump_attempts;
  from_status = t.from_status;
  stranded_for = interval_of older_than;
  max = limit;
}

-- `ReclaimStranded`; `none` for an unknown claim, or where the limit is refused
unfoldable pub reclaim : (Row → Bool) → ℤ → InFlight → ℕ → ℕ → List Row → Option Claimed
reclaim locked now f older_than max rows = elim (reclaim_target f) [
  | none ↦ none
  | some t ↦
      with_limit (λ limit. reclaim_stranded locked now (reclaim_params t older_than limit) rows)
        (int32_of max)
]

-- the Deliveries that a claim hands to its worker
unfoldable pub rows_to_deliveries : Repository → List Row → List Delivery
rows_to_deliveries repo rows = map (row_to_delivery repo) rows
