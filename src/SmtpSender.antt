-- ===== src/SmtpSender.antt =====
-- pkg/smtpsender/smtpsender.go and guard.go: the worker that transmits Envelopes, and its guard
-- against the redelivery of one.
--
-- The bucket of the guard is a list of keys with the instants of their claims; whether it still has a
-- claim of an instant is a parameter. The subscription, the parallel tasks and the logging are left
-- out.
pub mod Redelivery
use kannon.Base.{
  ℕ, Bool, true, false, not, ◌&&◌, ◌||◌, Option, none, some, List, [], ◌∷◌, ◌++◌, Text, ◌==◌,
  nat_eq, list_eq, contains, if◌then◌else◌,
}
use kannon.Base.Int.{ℤ}
use kannon.Delivery.Backoff.{hour}
use kannon.Tracking.{mode_unspecified}
use kannon.Stats.{Outcome, Event, delivered, bounced, errored}

-- what the worker reads of an Envelope
pub record Envelope : Type 0 where
  pub email_id : Text
  pub return_path : Text
  pub to_address : Text
  pub body : Text
  pub should_retry : Bool

-- `SenderError`
pub record SenderError : Type 0 where
  pub is_permanent : Bool
  pub code : ℕ
  pub message : Text

-- What is outside the worker in one delivery of a message: whether a guard is wired, the key that
-- `sendKey` derives, whether the bucket answers, which claims it still has by their instants, what the relay says (`none`: it took the mail), the
-- Batch and the Domain that the email id states, the broker and the clock.
pub record Outside : Type 0 where
  pub wired : Bool
  pub key : Option Text
  pub bucket_answers : Bool
  pub keeps : ℤ → Bool
  pub relay : Envelope → Option SenderError
  pub ids : Text → Option (Text × Text)
  pub takes_stat : Event → Bool
  pub now : ℤ

-- The claims of the bucket, the Envelopes handed to the relay, and the stats published, in order
pub record World : Type 0 where
  pub bucket : List (Text × ℤ)
  pub handed : List Envelope
  pub stats : List Event

pub data Reply : Type 0 where
  ack nak : Reply

pub record Handled : Type 0 where
  pub world : World
  pub reply : Reply

-- `sendGuardTTL`
abbrev pub send_guard_ttl : ℕ
send_guard_ttl = hour

-- whether the bucket still has a claim of the key
unfoldable pub is_claimed : Outside → Text → List (Text × ℤ) → Bool
is_claimed o k [] = false
is_claimed o k ((j, at) ∷ claims) = j == k && o.keeps at || is_claimed o k claims

-- `Claim`: a key that the bucket has is not created again
unfoldable pub create_key : Outside → Text → World → World × Bool
create_key o k w =
    if is_claimed o k w.bucket
    then (w, false)
    else (record w { bucket = (k, o.now) ∷ w.bucket }, true)

unfoldable pub event_of : Outside → Text × Text → Envelope → Outcome → Event
event_of o ids env outcome = record {
  message_id = ids.0;
  domain = ids.1;
  email = env.to_address;
  timestamp = o.now;
  outcome = outcome;
  tracking_mode = mode_unspecified;
}

-- the outcome that `handleSendError` states
unfoldable pub outcome_of_error : SenderError → Envelope → Outcome
outcome_of_error e env =
    if not env.should_retry || e.is_permanent
    then bounced e.is_permanent e.code e.message
    else errored e.code e.message

-- the outcome of a transmission
unfoldable pub outcome_of : Option SenderError → Envelope → Outcome
outcome_of none env = delivered
outcome_of (some e) env = outcome_of_error e env

module _ (o : Outside) where
  -- `claimSend`
  unfoldable pub claim_send : World → World × Bool
  claim_send w = if not o.wired then (w, true) else elim o.key [
    | none ↦ (w, true)
    | some k ↦ if o.bucket_answers then create_key o k w else (w, true)
  ]

  -- `PublishStat`, with what `handleMsgAck` makes of its error
  unfoldable pub publish : Event → World → Handled
  publish e w =
      if o.takes_stat e
      then record { world = record w { stats = w.stats ++ e ∷ [] }; reply = ack }
      else record { world = w; reply = nak }

  -- `handleSendSuccess` and `handleSendError`
  unfoldable pub report : Envelope → Outcome → World → Handled
  report env outcome w = elim (o.ids env.email_id) [
    | none ↦ record { world = w; reply = ack }
    | some ids ↦ publish (event_of o ids env outcome) w
  ]

  -- the transmission and its report
  unfoldable pub transmit : Envelope → World → Handled
  transmit env w =
      report env (outcome_of (o.relay env) env) (record w { handed = w.handed ++ env ∷ [] })

  -- `handleMessage` on a message that is an Envelope, and `handleMsgAck`
  unfoldable pub handle_message : Envelope → World → Handled
  handle_message env w =
      let (v, claimed) = claim_send w in
      if claimed then transmit env v else record { world = v; reply = ack }

-- The deliveries of one message, each with what is outside
unfoldable pub deliver_all : Envelope → List Outside → World → World
deliver_all env [] w = w
deliver_all env (o ∷ os) w = deliver_all env os (handle_message o env w).world
