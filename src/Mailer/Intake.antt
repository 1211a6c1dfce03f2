-- ===== src/Mailer/Intake.antt =====
-- The intake of a Batch in pkg/api/mailapi/mailer.go: which Recipients become Deliveries, and why the
-- others are refused.
use kannon.Base.{
  Bool, true, false, not, Option, none, some, List, [], ◌∷◌, ◌++◌, map, Text, ◌==◌, nat_eq, list_eq,
  any, if◌then◌else◌,
}
use kannon.Base.Int.{ℤ}
use kannon.Tracking.{Policy, no_policy, resolve}
use kannon.Tracking.Ceiling.{ceiling_violations}
use kannon.Tracking.Wire.{to_policy}
use kannon.Delivery
use kannon.Delivery.{Delivery}
use kannon.Batch.{Batch, OneClickUnsubscribe, Recipient, states_none, has_address}
use kannon.Batch
use kannon.Domains.{Domain}
use kannon.Placeholders.{Patterns, effective_fields, replace_custom_fields_in_url}
use kannon.Pool.{Row}
use kannon.Pool.Repository.{schedule}
use kannon.Mailer.{
  Outside, Tables, WireRecipient, Reason, invalid_email, tracking_above_ceiling,
  unsupported_tracking_mode, unsubscribe_url_unresolved, Rejected,
}

-- `statedRecipient`; `unreadable` tells that translating the Policy failed
pub record StatedRecipient : Type 0 where
  pub recipient : Recipient
  pub unreadable : Bool

unfoldable pub stated : WireRecipient → StatedRecipient
stated r = elim (to_policy r.tracking) [
  | none ↦ record {
    recipient = record { email = r.email; fields = r.fields; tracking = no_policy };
    unreadable = true;
  }
  | some policy ↦ record {
    recipient = record { email = r.email; fields = r.fields; tracking = policy };
    unreadable = false;
  }
]

-- a nil row reads as an empty one
unfoldable pub stated_or_empty : Option WireRecipient → StatedRecipient
stated_or_empty none = stated (record { email = []; fields = []; tracking = none })
stated_or_empty (some r) = stated r

-- `recipientsFromRequest`
unfoldable pub recipients_from_request : List (Option WireRecipient) → List StatedRecipient
recipients_from_request rs = map stated_or_empty rs

-- `unsubscribeFromRequest`
unfoldable pub unsubscribe_from_request : Option Text → OneClickUnsubscribe
unsubscribe_from_request none = record { url_template = [] }
unsubscribe_from_request (some t) = record { url_template = t }

-- `unresolvedUnsubscribeURL`; true is that the URL resolves
unfoldable pub unsubscribe_resolves : Patterns → OneClickUnsubscribe → Recipient → Bool
unsubscribe_resolves o u r =
    if states_none u
    then true
    else not (
        o.holds_placeholder
          (replace_custom_fields_in_url o u.url_template (effective_fields r.email r.fields)))

pub data Resolved : Type 0 where
  refused : Reason → Resolved
  governed : Policy → Resolved

-- `resolveRecipientTracking`
unfoldable pub resolve_recipient_tracking : Policy → Policy → StatedRecipient → Resolved
resolve_recipient_tracking domain_policy batch_policy r =
    if r.unreadable
    then refused unsupported_tracking_mode
    else elim (ceiling_violations domain_policy r.recipient.tracking) [
      | v ∷ vs ↦ refused tracking_above_ceiling
      | [] ↦ governed (resolve domain_policy batch_policy r.recipient.tracking)
    ]

-- `intake`
pub record Taken : Type 0 where
  pub deliveries : List Delivery
  pub rejected : List Rejected

abbrev pub nothing_taken : Taken
nothing_taken = record { deliveries = []; rejected = [] }

unfoldable pub reject : Text → Reason → Taken → Taken
reject email reason t = record t {
  rejected = t.rejected ++ record { email = email; reason = reason } ∷ [];
}

unfoldable pub accept : Delivery → Taken → Taken
accept d t = record t { deliveries = t.deliveries ++ d ∷ [] }

module _ (o : Outside) (domain : Domain) (b : Batch) (scheduled : ℤ) where
  -- the construction of the Delivery, whose error is a refused address
  unfoldable pub build : Recipient → Policy → Taken → Taken
  build r policy t =
      elim (Delivery.new o.repo.overflowed (record {
        batch_id = b.id;
        email = r.email;
        fields = r.fields;
        domain = b.domain;
        scheduled_time = scheduled;
        backoff = o.repo.backoff;
        retry_window = o.repo.retry_window;
        tracking = policy;
      })) [
        | Delivery.NewResult.err e ↦ reject r.email invalid_email t
        | Delivery.NewResult.ok d ↦ accept d t
      ]

  -- the body of the loop of `scheduleBatch`
  unfoldable pub take_recipient : StatedRecipient → Taken → Taken
  take_recipient s t =
      if not (has_address s.recipient)
      then reject s.recipient.email invalid_email t
      else elim (resolve_recipient_tracking domain.tracking b.tracking s) [
        | refused reason ↦ reject s.recipient.email reason t
        | governed policy ↦
            if not (unsubscribe_resolves o.patterns b.one_click_unsubscribe s.recipient)
            then reject s.recipient.email unsubscribe_url_unresolved t
            else build s.recipient policy t
      ]

  unfoldable pub take_recipients : List StatedRecipient → Taken → Taken
  take_recipients [] t = t
  take_recipients (s ∷ rs) t = take_recipients rs (take_recipient s t)

pub data Scheduled : Type 0 where
  not_created not_scheduled : Scheduled
  done : Taken → Scheduled

unfoldable pub known_message : List Batch → Text → Bool
known_message messages id = any (λ (x : Batch). x.id == id) messages

-- the insertion of the Deliveries, where it reaches the database, and what it made of the pool
unfoldable pub after_schedule : Bool → Option (List Row) → Taken → Tables → Tables × Scheduled
after_schedule false rows t w = (w, not_scheduled)
after_schedule true none t w = (w, not_scheduled)
after_schedule true (some rows) t w = (record w { pool = rows }, done t)

module _ (o : Outside) where
  unfoldable pub schedule_deliveries : Taken → List Delivery → Tables → Tables × Scheduled
  schedule_deliveries t [] w = (w, done t)
  schedule_deliveries t (d ∷ ds) w =
      after_schedule o.schedules (schedule o.repo (known_message w.messages) (d ∷ ds) w.pool) t w

  -- the creation of the Batch, where it reaches the database, and what it made of the messages
  unfoldable pub after_create : Bool → Option (List Batch) → Taken → Tables → Tables × Scheduled
  after_create false messages t w = (w, not_created)
  after_create true none t w = (w, not_created)
  after_create true (some messages) t w =
      schedule_deliveries t t.deliveries (record w { messages = messages })

  -- `scheduleBatch`
  unfoldable pub schedule_batch :
      Domain → Batch → List StatedRecipient → ℤ → Tables → Tables × Scheduled
  schedule_batch domain b recipients scheduled w =
      after_create o.creates (Batch.create b w.messages)
        (take_recipients o domain b scheduled recipients nothing_taken) w
