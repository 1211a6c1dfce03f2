-- ===== src/SmtpSender/Redelivery.antt =====
-- A message that is redelivered: `claimSend` and `handleMessage` of pkg/smtpsender/smtpsender.go.
use mathlib.Core.Path.{subst}
use kannon.Base.{
  ◌≡◌, refl, ap, ◌∙◌, inl, Bool, true, false, not, ◌&&◌, ◌||◌, list_beq, Option, none, some, List,
  [], ◌∷◌, ◌++◌, Text, All, In, sym, arith, equals_self, inr, list_eq, nat_eq, if◌then◌else◌,
}
use kannon.Base.Int.{ℤ, pos, ◌+ℤ◌, ltb_ℤ}
use kannon.Stats.{
  Event, Outcome, StatType, outcome_type, type_delivered, type_bounce, type_error, delivered,
  bounced, errored,
}
use kannon.SmtpSender.{
  Outside, World, Envelope, Handled, ack, nak, create_key, is_claimed, send_guard_ttl, claim_send,
  publish, report, transmit, outcome_of, outcome_of_error, SenderError, event_of, handle_message,
  deliver_all,
}

-- The guard is wired and answers for this key.
abbrev pub IsGuarded : Text → Outside → Type 0
IsGuarded k o = (o.wired ≡ true) × (o.key ≡ some k) × (o.bucket_answers ≡ true)

module _ (o : Outside) (env : Envelope) where
  publish_keeps :
      (e : Event) (w : World)
      → ((publish o e w).world.bucket ≡ w.bucket) × ((publish o e w).world.handed ≡ w.handed)
  unfolding publish
  publish_keeps e w = go (o.takes_stat e)
    where
      Kept : Handled → Type 0
      Kept h = (h.world.bucket ≡ w.bucket) × (h.world.handed ≡ w.handed)

      go :
          (b : Bool)
          → Kept (
              if b
              then record { world = record w { stats = w.stats ++ e ∷ [] }; reply = ack }
              else record { world = w; reply = nak })
      go true = (refl, refl)
      go false = (refl, refl)

  report_keeps :
      (outcome : Outcome) (w : World)
      → ((report o env outcome w).world.bucket ≡ w.bucket)
        × ((report o env outcome w).world.handed ≡ w.handed)
  unfolding report
  report_keeps outcome w = go (o.ids env.email_id)
    where
      Kept : Handled → Type 0
      Kept h = (h.world.bucket ≡ w.bucket) × (h.world.handed ≡ w.handed)

      go :
          (x : Option (Text × Text))
          → Kept (elim x [
            | none ↦ record { world = w; reply = ack }
            | some ids ↦ publish o (event_of o ids env outcome) w
          ])
      go none = (refl, refl)
      go (some ids) = publish_keeps (event_of o ids env outcome) w

  guarded_claim : (k : Text) (w : World) → IsGuarded k o → claim_send o w ≡ create_key o k w
  unfolding claim_send create_key is_claimed
  guarded_claim k w (a, b, c) = rw (a, claim_send) (rw b (rw c refl))

  handled_again :
      (k : Text) (w : World)
      → IsGuarded k o
      → is_claimed o k w.bucket ≡ true
      → handle_message o env w ≡ record { world = w; reply = ack }
  unfolding handle_message create_key
  handled_again k w g h = rw (guarded_claim k w g, handle_message) (rw (h, create_key) refl)

  handled_first :
      (k : Text) (w : World)
      → IsGuarded k o
      → is_claimed o k w.bucket ≡ false
      → handle_message o env w ≡ transmit o env (record w { bucket = (k, o.now) ∷ w.bucket })
  unfolding handle_message create_key
  handled_first k w g h = rw (guarded_claim k w g, handle_message) (rw (h, create_key) refl)

  transmit_keeps :
      (w : World)
      → ((transmit o env w).world.bucket ≡ w.bucket)
        × ((transmit o env w).world.handed ≡ w.handed ++ env ∷ [])
  unfolding transmit
  transmit_keeps w =
      report_keeps (outcome_of (o.relay env) env) (record w { handed = w.handed ++ env ∷ [] })

-- The bucket has a claim until it is an hour old.
abbrev pub IsKept : Outside → Type 0
IsKept o = (at : ℤ) → ltb_ℤ o.now (at +ℤ pos send_guard_ttl) ≡ true → o.keeps at ≡ true

-- A delivery of the message with this key, guarded, and within an hour of a claim at an instant.
abbrev pub IsRepeated : Text → ℤ → Outside → Type 0
IsRepeated k at o = IsGuarded k o × IsKept o × (ltb_ℤ o.now (at +ℤ pos send_guard_ttl) ≡ true)

claimed_still :
    (o : Outside) (k : Text) (at : ℤ) (claims : List (Text × ℤ))
    → IsRepeated k at o
    → In claims (k, at)
    → is_claimed o k claims ≡ true
unfolding is_claimed
claimed_still o k at [] g m = absurd m
claimed_still o k at (c ∷ claims) g (inl e) =
    subst (λ (x : Text × ℤ). is_claimed o k (x ∷ claims) ≡ true) (sym e)
      (rw (equals_self k) (rw (g.1 at g.2) refl))
claimed_still o k at ((j, made) ∷ claims) g (inr m) =
    ground (arith, claimed_still o k at claims g m)

-- once the key is claimed, nothing more is handed to the relay within the hour
deliver_all_again :
    (env : Envelope) (k : Text) (at : ℤ) (os : List Outside) (w : World)
    → All (IsRepeated k at) os
    → In w.bucket (k, at)
    → deliver_all env os w ≡ w
unfolding deliver_all
deliver_all_again env k at [] w g h = refl
deliver_all_again env k at (o ∷ os) w g h =
    ap (λ (x : Handled). deliver_all env os x.world)
      (handled_again o env k w g.0.0 (claimed_still o k at w.bucket g.0 h))
    ∙ deliver_all_again env k at os w g.1 h

-- However often a message is delivered within an hour of its first delivery, if the guard answers each
-- time for its key, which the bucket does not have before and does not forget within an hour, its
-- Envelope is handed to the relay exactly once.
pub handed_once :
    (env : Envelope) (k : Text) (o : Outside) (os : List Outside) (w : World)
    → IsGuarded k o
    → is_claimed o k w.bucket ≡ false
    → All (IsRepeated k o.now) os
    → (deliver_all env (o ∷ os) w).handed ≡ w.handed ++ env ∷ []
unfolding deliver_all
handed_once env k o os w g h repeated =
    let v = record w { bucket = (k, o.now) ∷ w.bucket } in
    let first = ap (λ (x : Handled). x.world) (handled_first o env k w g h) in
    let kept = transmit_keeps o env v in
    ap (λ (x : World). (deliver_all env os x).handed) first
    ∙ (ap (λ (x : World). x.handed)
          (deliver_all_again env k o.now os (transmit o env v).world repeated
            (subst (λ (claims : List (Text × ℤ)). In claims (k, o.now)) (sym kept.0) (inl refl)))
        ∙ kept.1)

module _ (o : Outside) where
  publish_taken :
      (e : Event) (w : World)
      → o.takes_stat e ≡ true
      → publish o e w ≡ record { world = record w { stats = w.stats ++ e ∷ [] }; reply = ack }
  unfolding publish
  publish_taken e w t = rw (t, publish) refl

  report_known :
      (env : Envelope) (ids : Text × Text) (w : World)
      → o.ids env.email_id ≡ some ids
      → report o env (outcome_of (o.relay env) env) w
        ≡ publish o (event_of o ids env (outcome_of (o.relay env) env)) w
  unfolding report
  report_known env ids w t = rw (t, report) refl

-- the type of the stat of a transmission
abbrev pub type_of_answer : Option SenderError → Envelope → StatType
type_of_answer none env = type_delivered
type_of_answer (some e) env =
    if env.should_retry && not e.is_permanent then type_error else type_bounce

outcome_of_type :
    (r : Option SenderError) (env : Envelope)
    → outcome_type (outcome_of r env) ≡ type_of_answer r env
unfolding outcome_of outcome_of_error outcome_type delivered bounced errored list_beq
outcome_of_type none env = refl
outcome_of_type (some e) env = go env.should_retry e.is_permanent
  where
    go :
        (a b : Bool)
        → outcome_type (
            if not a || b
            then bounced e.is_permanent e.code e.message
            else errored e.code e.message)
          ≡ (if a && not b then type_error else type_bounce)
    go true true = refl
    go true false = refl
    go false true = refl
    go false false = refl

-- A delivery of a message that wins its claim, of an Envelope whose id names its Batch and where the
-- broker takes the stat, publishes one stat, for the address of the Envelope, and is acknowledged. The
-- stat is Delivered where the relay took the mail, an error where it refused for the time being and
-- the Envelope may be retried, and Bounced otherwise.
pub transmission_told :
    (o : Outside) (env : Envelope) (k : Text) (ids : Text × Text) (w : World)
    → IsGuarded k o
    → is_claimed o k w.bucket ≡ false
    → o.ids env.email_id ≡ some ids
    → ((e : Event) → o.takes_stat e ≡ true)
    → (e : Event) × ((handle_message o env w).world.stats ≡ w.stats ++ e ∷ [])
      × ((handle_message o env w).reply ≡ ack)
      × (e.email ≡ env.to_address)
      × (outcome_type e.outcome ≡ type_of_answer (o.relay env) env)
unfolding transmit event_of
transmission_told o env k ids w g h named takes =
    let e = event_of o ids env (outcome_of (o.relay env) env) in
    let v = record w { bucket = (k, o.now) ∷ w.bucket; handed = w.handed ++ env ∷ [] } in
    let told =
      handled_first o env k w g h
      ∙ (report_known o env ids v named ∙ publish_taken o e v (takes e)) in
    (
      e,
      ap (λ (x : Handled). x.world.stats) told,
      ap (λ (x : Handled). x.reply) told,
      refl,
      outcome_of_type (o.relay env) env,
    )
