-- ===== src/Delivery.antt =====
-- internal/delivery: the per-Recipient transmission of a Batch, its backoff and its Retry Budget.
pub mod Backoff
pub mod Budget
use kannon.Base.{
  ℕ, Bool, true, false, Option, none, some, List, [], ◌∷◌, Text, leb, ltb, ◌*◌, ◌==◌, nat_eq,
  list_eq, if◌then◌else◌,
}
use kannon.Base.Int.{ℤ, pos, ◌+ℤ◌, ltb_ℤ}
use kannon.Tracking.{Policy, normalized}
use kannon.Delivery.Backoff.{BackoffPolicy, delay, default_backoff, hour}

-- 24 hours
abbrev pub default_retry_window : ℤ
default_retry_window = pos (24 * hour)

pub record Delivery : Type 0 where
  pub batch_id : Text
  pub email : Text
  pub fields : List (Text × Text)
  pub send_attempts : ℕ
  pub domain : Text
  pub scheduled_time : ℤ
  pub original_scheduled_time : ℤ
  pub backoff : BackoffPolicy
  pub retry_window : ℤ
  pub tracking : Policy

-- A nil BackoffPolicy is `none`.
unfoldable pub policy_or_default : (ℕ → ℤ) → Option BackoffPolicy → BackoffPolicy
policy_or_default overflowed none = default_backoff overflowed
policy_or_default overflowed (some p) = p

unfoldable pub window_or_default : ℤ → ℤ
window_or_default w = if ltb_ℤ (pos 0) w then w else default_retry_window

pub record NewParams : Type 0 where
  pub batch_id : Text
  pub email : Text
  pub fields : List (Text × Text)
  pub domain : Text
  pub scheduled_time : ℤ
  pub backoff : Option BackoffPolicy
  pub retry_window : ℤ
  pub tracking : Policy

pub data NewError : Type 0 where
  batch_id_required email_required domain_required : NewError

pub data NewResult : Type 0 where
  ok : Delivery → NewResult
  err : NewError → NewResult

-- `New`, with the conversion that the default backoff would use
unfoldable pub new : (ℕ → ℤ) → NewParams → NewResult
new overflowed p =
    if p.batch_id == []
    then err batch_id_required
    else if p.email == []
    then err email_required
    else if p.domain == []
    then err domain_required
    else ok (record {
      batch_id = p.batch_id;
      email = p.email;
      fields = p.fields;
      send_attempts = 0;
      domain = p.domain;
      scheduled_time = p.scheduled_time;
      original_scheduled_time = p.scheduled_time;
      backoff = policy_or_default overflowed p.backoff;
      retry_window = window_or_default p.retry_window;
      tracking = normalized p.tracking;
    })

pub record LoadParams : Type 0 where
  pub batch_id : Text
  pub email : Text
  pub fields : List (Text × Text)
  pub send_attempts : ℕ
  pub domain : Text
  pub scheduled_time : ℤ
  pub original_scheduled_time : ℤ
  pub backoff : Option BackoffPolicy
  pub retry_window : ℤ
  pub tracking : Policy

-- `Load`
unfoldable pub load : (ℕ → ℤ) → LoadParams → Delivery
load overflowed p = record {
  batch_id = p.batch_id;
  email = p.email;
  fields = p.fields;
  send_attempts = p.send_attempts;
  domain = p.domain;
  scheduled_time = p.scheduled_time;
  original_scheduled_time = p.original_scheduled_time;
  backoff = policy_or_default overflowed p.backoff;
  retry_window = window_or_default p.retry_window;
  tracking = p.tracking;
}

-- `NextRetryAt`; instants are nanoseconds, and `Time.Add` is exact on them
unfoldable pub next_retry_at : Delivery → ℤ
next_retry_at d = d.original_scheduled_time +ℤ delay d.backoff d.send_attempts

-- `CanRetry`
unfoldable pub can_retry : Delivery → Bool
can_retry d = ltb_ℤ (next_retry_at d) (d.original_scheduled_time +ℤ d.retry_window)
