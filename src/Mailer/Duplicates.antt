-- ===== src/Mailer/Duplicates.antt =====
-- Two Recipients with one address in one send (pkg/api/mailapi/mailer.go), before the unique index of
-- the sending pool (internal/db/delivery_repo.go, db/schema.sql).
use mathlib.Core.List.{map-append}
use kannon.Base.{
  ◌≡◌, ◌≢◌, refl, sym, ap, ◌∙◌, ◌⊎◌, inl, inr, Bool, true, false, Option, none, some, List, [], ◌∷◌,
  ◌++◌, map, Text, arith, nat_eq, list_eq, list_beq_iff, Bool-cases, any, any-append_left,
  Some-append_right, Some-any,
}
use kannon.Base.Int.{ℤ}
use kannon.Delivery.{Delivery}
use kannon.Batch.{Batch}
use kannon.Batch
use kannon.Pool.{Row, has_key, copy_rows, insertable}
use kannon.Pool.Repository.{new_row, schedule}
use kannon.Domains.{Domain}
use kannon.Mailer.{
  Outside, Tables, Reason, invalid_email, tracking_above_ceiling, unsupported_tracking_mode,
  unsubscribe_url_unresolved, Rejected,
}
use kannon.Mailer.Intake.{
  StatedRecipient, Taken, nothing_taken, take_recipients, not_scheduled, schedule_batch,
  schedule_deliveries, after_schedule, after_create, known_message,
}
use kannon.Mailer.Judgement.{
  Admissible, Accepts, Fails, Sorted, nobody, taken, turned_away, take_recipients-Sorted,
}

module _ (known : Text → Bool) where
  not_insertable :
      (rows : List Row) (r : Row)
      → any (has_key r.email r.message_id) rows ≡ true
      → insertable known rows r ≡ false
  unfolding insertable
  not_insertable rows r h = ground arith

  copy_rows_taken :
      (rows front back : List Row) (r : Row)
      → any (has_key r.email r.message_id) rows ≡ true
      → copy_rows known rows (front ++ r ∷ back) ≡ none
  unfolding copy_rows
  copy_rows_taken rows [] back r h = rw (not_insertable rows r h, copy_rows) refl
  copy_rows_taken rows (x ∷ front) back r h = elim (Bool-cases (insertable known rows x)) [
    | inr e ↦ rw (e, copy_rows) refl
    | inl e ↦
        rw (e, copy_rows)
          (copy_rows_taken (rows ++ x ∷ []) front back r
            (any-append_left (has_key r.email r.message_id) rows (x ∷ []) h))
  ]

  copy_rows_twice :
      (rows front middle back : List Row) (r q : Row)
      → has_key q.email q.message_id r ≡ true
      → copy_rows known rows (front ++ r ∷ (middle ++ q ∷ back)) ≡ none
  unfolding copy_rows
  copy_rows_twice rows [] middle back r q h = elim (Bool-cases (insertable known rows r)) [
    | inr e ↦ rw (e, copy_rows) refl
    | inl e ↦
        rw (e, copy_rows)
          (copy_rows_taken (rows ++ r ∷ []) middle back q (
            Some-any (has_key q.email q.message_id) (rows ++ r ∷ []) (
              Some-append_right (λ x. has_key q.email q.message_id x ≡ true) rows (r ∷ [])
                (inl h))))
  ]
  copy_rows_twice rows (x ∷ front) middle back r q h = elim (Bool-cases (insertable known rows x)) [
    | inr e ↦ rw (e, copy_rows) refl
    | inl e ↦ rw (e, copy_rows) (copy_rows_twice (rows ++ x ∷ []) front middle back r q h)
  ]

module _ (o : Outside) (domain : Domain) (b : Batch) (at : ℤ) where
  Admissible-not_failing :
      (s : StatedRecipient) (reason : Reason)
      → Admissible o domain b at s
      → Fails o domain b at s reason
      → ⊥
  Admissible-not_failing s invalid_email a f = cc (a.addressed, f)
  Admissible-not_failing s unsupported_tracking_mode a f = cc (a.readable, f.1)
  Admissible-not_failing s tracking_above_ceiling a f = f.2 a.within
  Admissible-not_failing s unsubscribe_url_unresolved a f = cc (a.resolves, f.3)

  -- what became of the first Recipient, and of the others
  abbrev Head : List StatedRecipient → List Delivery → List Rejected → Type 0
  Head [] ds xs = Unit
  Head (s ∷ rest) ds xs =
      ((d : Delivery) × (others : List Delivery) × (ds ≡ d ∷ others)
        × Accepts o domain b at s d
        × Sorted o domain b at rest others xs)
      ⊎ ((reason : Reason) × (others : List Rejected) × Fails o domain b at s reason
          × Sorted o domain b at rest ds others)

  Sorted-Head :
      {rs : List StatedRecipient} {ds : List Delivery} {xs : List Rejected}
      → Sorted o domain b at rs ds xs
      → Head rs ds xs
  Sorted-Head nobody = tt
  Sorted-Head (taken {d = d} {ds = ds} a h) = inl (d, ds, refl, a, h)
  Sorted-Head (turned_away {x = x} {xs = xs} e f h) = inr (x.reason, xs, f, h)

  -- the Delivery of a Recipient among the Deliveries of a send
  record Split (s : StatedRecipient) (rest : List StatedRecipient) (ds : List Delivery)
      : Type 0 where
    front : List Delivery
    delivery : Delivery
    back : List Delivery
    refusals : List Rejected
    parts : ds ≡ front ++ delivery ∷ back
    email : delivery.email ≡ s.recipient.email
    batch_id : delivery.batch_id ≡ b.id
    others : Sorted o domain b at rest back refusals

  Sorted-Split :
      (before : List StatedRecipient) (s : StatedRecipient) (rest : List StatedRecipient)
      (ds : List Delivery) (xs : List Rejected)
      → Admissible o domain b at s
      → Sorted o domain b at (before ++ s ∷ rest) ds xs
      → Split s rest ds
  Sorted-Split [] s rest ds xs a h = elim (Sorted-Head h) [
    | inl (d, others, e, accepts, k) ↦ record {
      front = [];
      delivery = d;
      back = others;
      refusals = xs;
      parts = e;
      email = accepts.email;
      batch_id = accepts.batch_id;
      others = k;
    }
    | inr (reason, others, f, k) ↦ absurd (Admissible-not_failing s reason a f)
  ]
  Sorted-Split (x ∷ before) s rest ds xs a h = elim (Sorted-Head h) [
    | inl (d, others, e, accepts, k) ↦
        let p = Sorted-Split before s rest others xs a k in
        record {
          front = d ∷ p.front;
          delivery = p.delivery;
          back = p.back;
          refusals = p.refusals;
          parts = e ∙ ap (λ (l : List Delivery). d ∷ l) p.parts;
          email = p.email;
          batch_id = p.batch_id;
          others = p.others;
        }
    | inr (reason, others, f, k) ↦ Sorted-Split before s rest ds others a k
  ]

  has_key-new_row :
      (d e : Delivery)
      → d.email ≡ e.email
      → d.batch_id ≡ e.batch_id
      → has_key (new_row o.repo e).email (new_row o.repo e).message_id (new_row o.repo d) ≡ true
  unfolding has_key new_row
  has_key-new_row d e h k =
      ground (arith, list_beq_iff d.email e.email, list_beq_iff d.batch_id e.batch_id)

  schedule_twice :
      (known : Text → Bool) (front middle back : List Delivery) (d e : Delivery) (pool : List Row)
      → d.email ≡ e.email
      → d.batch_id ≡ e.batch_id
      → schedule o.repo known (front ++ d ∷ (middle ++ e ∷ back)) pool ≡ none
  unfolding schedule
  schedule_twice known front middle back d e pool h k =
      rw (map-append (new_row o.repo) front (d ∷ (middle ++ e ∷ back))) (
        rw (map-append (new_row o.repo) middle (e ∷ back)) (
          copy_rows_twice known pool (map (new_row o.repo) front) (map (new_row o.repo) middle)
            (map (new_row o.repo) back) (new_row o.repo d) (new_row o.repo e)
            (has_key-new_row d e h k)))

  after_refusal :
      (reaches : Bool) (t : Taken) (w : Tables)
      → after_schedule reaches none t w ≡ (w, not_scheduled)
  unfolding after_schedule
  after_refusal true t w = refl
  after_refusal false t w = refl

  unscheduled :
      (t : Taken) (ds : List Delivery) (w : Tables)
      → ds ≢ []
      → schedule o.repo (known_message w.messages) ds w.pool ≡ none
      → schedule_deliveries o t ds w ≡ (w, not_scheduled)
  unfolding schedule_deliveries
  unscheduled t [] w n h = absurd (n refl)
  unscheduled t (d ∷ ds) w n h =
      ap (λ rows. after_schedule o.schedules rows t w) h ∙ after_refusal o.schedules t w

  nonempty : (front back : List Delivery) (d : Delivery) → front ++ d ∷ back ≢ []
  nonempty [] back d e = cc e
  nonempty (x ∷ front) back d e = cc e

  -- Where two admissible Recipients of a send have one address, the insertion of its Deliveries is
  -- refused as a whole: the Batch that was created stays, and no Recipient has a row in the pool.
  pub duplicate_recipients :
      (before middle after : List StatedRecipient) (s t : StatedRecipient) (w : Tables)
      → Admissible o domain b at s
      → Admissible o domain b at t
      → s.recipient.email ≡ t.recipient.email
      → b.id ≢ []
      → b.domain ≢ []
      → o.creates ≡ true
      → Batch.create b w.messages ≡ some (w.messages ++ b ∷ [])
      → schedule_batch o domain b (before ++ s ∷ (middle ++ t ∷ after)) at w
        ≡ (record w { messages = w.messages ++ b ∷ [] }, not_scheduled)
  unfolding schedule_batch after_create
  duplicate_recipients before middle after s t w a c same id named reached created =
      let r = take_recipients o domain b at (before ++ s ∷ (middle ++ t ∷ after)) nothing_taken in
      let first =
        Sorted-Split before s (middle ++ t ∷ after) r.deliveries r.rejected a
          (take_recipients-Sorted o domain b at id named (before ++ s ∷ (middle ++ t ∷ after))) in
      let second = Sorted-Split middle t after first.back first.refusals c first.others in
      let parts =
        first.parts ∙ ap (λ (l : List Delivery). first.front ++ first.delivery ∷ l) second.parts in
      ap (λ (x : Option (List Batch)). after_create o o.creates x r w) created
      ∙ ap (λ (x : Bool). after_create o x (some (w.messages ++ b ∷ [])) r w) reached
      ∙ unscheduled r r.deliveries (record w { messages = w.messages ++ b ∷ [] })
          (λ e. nonempty first.front first.back first.delivery (sym first.parts ∙ e))
          (ap
              (λ (ds : List Delivery).
                schedule o.repo (known_message (w.messages ++ b ∷ [])) ds w.pool)
              parts
            ∙ schedule_twice (known_message (w.messages ++ b ∷ [])) first.front second.front
                second.back first.delivery second.delivery w.pool
                (first.email ∙ same ∙ sym second.email) (first.batch_id ∙ sym second.batch_id))
