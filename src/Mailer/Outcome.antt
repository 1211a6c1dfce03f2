-- ===== src/Mailer/Outcome.antt =====
-- What a send that is permitted leaves behind: `createBatch` and `scheduleBatch` of
-- pkg/api/mailapi/mailer.go over the tables.
use mathlib.Core.Path.{subst}
use mathlib.Core.List.{append-nil, append_assoc}
use kannon.Base.{
  ◌≡◌, ◌≢◌, refl, sym, ap, ◌∙◌, ◌⊎◌, inl, inr, Bool, true, false, Option, none, some, List, [], ◌∷◌,
  ◌++◌, map, Text, arith, nat_eq, list_eq, list_beq_iff, Bool-cases, length, if◌then◌else◌,
}
use kannon.Base.Int.{ℤ}
use kannon.Tracking.{Policy}
use kannon.Tracking.Ceiling.{CeilingViolation}
use kannon.Delivery.{Delivery}
use kannon.Batch.{
  Batch, BatchError, Headers, NewResult, NewParams, Urls, validate, new_id, id_prefix,
}
use kannon.Batch
use kannon.Pool.{Row, copy_rows, insertable}
use kannon.Pool.Repository.{schedule, new_row}
use kannon.ApiKeys.Store.{int32_of}
use kannon.Authz.Guard.{World, from_operation}
use kannon.Authz.Guard
use kannon.Domains.{Domain}
use kannon.Templates.{Template}
use kannon.Mailer.{
  Outside, Tables, WireSender, SendTemplateReq, SendRes, SendError, Rejected, create_refused,
  schedule_refused,
}
use kannon.Mailer.Intake.{
  StatedRecipient, Taken, nothing_taken, take_recipients, Scheduled, not_created, not_scheduled,
  done, schedule_batch, after_schedule, after_create, schedule_deliveries, known_message,
  recipients_from_request,
}
use kannon.Mailer.Sending.{
  Sent, error, sent, new_batch, validate_headers, batch_of, batch_within, batch_under, batch_with,
  time_of, answer_of, create_batch,
}
use kannon.Mailer.Judgement.{Sorted, take_recipients-Sorted}

pub copy_rows-append :
    (known : Text → Bool) (rows new_rows : List Row) {table : List Row}
    → copy_rows known rows new_rows ≡ some table
    → table ≡ rows ++ new_rows
unfolding copy_rows
copy_rows-append known rows [] h = rw append-nil (ground arith)
copy_rows-append known rows (r ∷ new_rows) {table} h = elim (Bool-cases (insertable known rows r)) [
  | inl e ↦
      copy_rows-append known (rows ++ r ∷ []) new_rows {table = table} (rw (e, copy_rows) at h)
      ∙ append_assoc rows (r ∷ []) new_rows
  | inr e ↦ absurd (cc (rw (e, copy_rows) at h))
]

new_ok :
    (urls : Urls) (generated : Text) (p : NewParams) {b : Batch}
    → Batch.new urls generated p ≡ NewResult.ok b
    → (b.id ≢ []) × (b.domain ≢ [])
unfolding Batch.new new_id
new_ok urls generated p {b} h =
    ((λ e. ground arith), (λ e. ground (arith, list_beq_iff p.domain [])))

module _ (o : Outside) (domain : Domain) (t : Template) (s : WireSender)
    (req : SendTemplateReq) where
  -- a Batch that has an identifier and a Domain
  abbrev IsNamedBatch : Batch → Type 0
  IsNamedBatch b = (b.id ≢ []) × (b.domain ≢ [])

  IsNamedBatch-of :
      (p : NewParams) (r : NewResult) {b : Batch}
      → Batch.new o.urls o.batch_generated p ≡ r
      → batch_of o r ≡ sent b
      → IsNamedBatch b
  unfolding batch_of
  IsNamedBatch-of p (NewResult.err e) q h = absurd (cc h)
  IsNamedBatch-of p (NewResult.ok c) {b} q h =
      let same : c ≡ b = cc h in
      subst (λ (x : Batch). IsNamedBatch x) same (new_ok o.urls o.batch_generated p q)

  IsNamedBatch-within :
      (headers : Headers) (policy : Policy) (vs : List CeilingViolation) {b : Batch}
      → batch_within o domain t s req headers policy vs ≡ sent b
      → IsNamedBatch b
  unfolding batch_within
  IsNamedBatch-within headers policy (v ∷ vs) h = absurd (cc h)
  IsNamedBatch-within headers policy [] h = IsNamedBatch-of _ _ refl h

  IsNamedBatch-under :
      (headers : Headers) (policy : Option Policy) {b : Batch}
      → batch_under o domain t s req headers policy ≡ sent b
      → IsNamedBatch b
  unfolding batch_under
  IsNamedBatch-under headers none h = absurd (cc h)
  IsNamedBatch-under headers (some policy) h = IsNamedBatch-within headers policy _ h

  IsNamedBatch-with :
      (headers : Sent Headers) {b : Batch}
      → batch_with o domain t s req headers ≡ sent b
      → IsNamedBatch b
  unfolding batch_with
  IsNamedBatch-with (error e) h = absurd (cc h)
  IsNamedBatch-with (sent headers) h = IsNamedBatch-under headers _ h

  named_batch : {b : Batch} → new_batch o domain t s req ≡ sent b → IsNamedBatch b
  unfolding new_batch
  named_batch h = IsNamedBatch-with (validate_headers o req.headers) h

  abbrev with_message : Batch → Tables → Tables
  with_message b w = record w { messages = w.messages ++ b ∷ [] }

  abbrev with_deliveries : List Delivery → Tables → Tables
  with_deliveries ds w = record w { pool = w.pool ++ map (new_row o.repo) ds }

  -- What `scheduleBatch` may leave of the tables, with what it returns.
  abbrev Left : Batch → ℤ → List StatedRecipient → Tables → Tables × Scheduled → Type 0
  Left b at rs w x =
      ((x.1 ≡ not_created) × (x.0 ≡ w))
      ⊎ ((x.1 ≡ not_scheduled) × (x.0 ≡ with_message b w))
      ⊎ ((ds : List Delivery) × (xs : List Rejected) × Sorted o domain b at rs ds xs
          × (x.1 ≡ done (record { deliveries = ds; rejected = xs }))
          × (x.0 ≡ with_deliveries ds (with_message b w)))

  after_schedule_lem :
      (b : Batch) (at : ℤ) (rs : List StatedRecipient) (w : Tables) (ds : List Delivery)
      (xs : List Rejected) (reaches : Bool) (rows : Option (List Row))
      → Sorted o domain b at rs ds xs
      → copy_rows (known_message (with_message b w).messages) w.pool (map (new_row o.repo) ds)
        ≡ rows
      → Left b at rs w (
          after_schedule reaches rows
            (record { deliveries = ds; rejected = xs })
            (with_message b w))
  unfolding after_schedule
  after_schedule_lem b at rs w ds xs false rows h q = inr (inl (refl, refl))
  after_schedule_lem b at rs w ds xs true none h q = inr (inl (refl, refl))
  after_schedule_lem b at rs w ds xs true (some rows) h q = inr (
      inr (
        ds,
        xs,
        h,
        refl,
        ap (λ (x : List Row). record (with_message b w) { pool = x })
            (copy_rows-append _ w.pool (map (new_row o.repo) ds) q),
      ))

  schedule_deliveries_lem :
      (b : Batch) (at : ℤ) (rs : List StatedRecipient) (w : Tables) (ds : List Delivery)
      (xs : List Rejected)
      → Sorted o domain b at rs ds xs
      → Left b at rs w
          (schedule_deliveries o (record { deliveries = ds; rejected = xs }) ds (with_message b w))
  unfolding schedule_deliveries schedule
  schedule_deliveries_lem b at rs w [] xs h = inr (inr ([], xs, h, refl, rw append-nil refl))
  schedule_deliveries_lem b at rs w (d ∷ ds) xs h =
      after_schedule_lem b at rs w (d ∷ ds) xs o.schedules _ h refl

  after_create_lem :
      (b : Batch) (at : ℤ) (rs : List StatedRecipient) (w : Tables) (t : Taken) (reaches : Bool)
      (messages : Option (List Batch))
      → Sorted o domain b at rs t.deliveries t.rejected
      → Batch.create b w.messages ≡ messages
      → Left b at rs w (after_create o reaches messages t w)
  unfolding after_create Batch.create
  after_create_lem b at rs w t false messages h q = inl (refl, refl)
  after_create_lem b at rs w t true none h q = inl (refl, refl)
  after_create_lem b at rs w t true (some messages) h q =
      let same : messages ≡ w.messages ++ b ∷ [] = created (Batch.insertable w.messages b) q in
      subst
        (λ (x : List Batch).
          Left b at rs w (schedule_deliveries o t t.deliveries (record w { messages = x })))
        (sym same) (schedule_deliveries_lem b at rs w t.deliveries t.rejected h)
    where
      created :
          (ok : Bool)
          → (if ok then some (w.messages ++ b ∷ []) else none) ≡ some messages
          → messages ≡ w.messages ++ b ∷ []
      created true e = cc e
      created false e = absurd (cc e)

  schedule_batch_lem :
      (b : Batch) (at : ℤ) (rs : List StatedRecipient) (w : Tables)
      → IsNamedBatch b
      → Left b at rs w (schedule_batch o domain b rs at w)
  unfolding schedule_batch
  schedule_batch_lem b at rs w h =
      after_create_lem b at rs w (take_recipients o domain b at rs nothing_taken) o.creates _
        (take_recipients-Sorted o domain b at h.0 h.1 rs) refl

  -- What a permitted send may leave, with what it answers.
  abbrev pub Answered : World Tables → World Tables × Guard.Result SendError SendRes → Type 0
  Answered w x =
      ((e : SendError) × (x.1 ≡ Guard.Result.err (from_operation e)) × (x.0.state ≡ w.state))
      ⊎ ((b : Batch) × (new_batch o domain t s req ≡ sent b)
          × (x.1 ≡ Guard.Result.err (from_operation schedule_refused))
          × (x.0.state ≡ with_message b w.state))
      ⊎ ((b : Batch) × (ds : List Delivery) × (xs : List Rejected) × (new_batch o domain t s req
            ≡ sent b)
          × Sorted o domain b (time_of o req.scheduled_time)
              (recipients_from_request req.recipients) ds xs
          × (x.1
              ≡ Guard.Result.ok (record {
                message_id = b.id;
                template_id = t.template_id;
                scheduled_time = time_of o req.scheduled_time;
                accepted_count = int32_of (length ds);
                rejected_count = int32_of (length xs);
                rejected_recipients = xs;
              }))
          × (x.0.state ≡ with_deliveries ds (with_message b w.state)))

  -- A send that is permitted is refused as a whole and leaves the tables as they were; or its Batch is
  -- created, the insertion of its Deliveries is refused, and the answer is that error; or its Batch is
  -- created, every Recipient is accepted or refused, exactly the accepted ones have a row in the pool,
  -- and the answer counts both and names the refused.
  pub create_batch_lem : (w : World Tables) → Answered w (create_batch o domain t s req w)
  unfolding create_batch answer_of
  create_batch_lem w = go (new_batch o domain t s req) refl
    where
      go_left :
          (b : Batch)
          → new_batch o domain t s req ≡ sent b
          → (x : Tables × Scheduled)
          → Left b (time_of o req.scheduled_time) (recipients_from_request req.recipients) w.state x
          → Answered w
              (record w { state = x.0 }, answer_of o b t (time_of o req.scheduled_time) x.1)
      go_left b q x (inl (e, k)) =
          inl (create_refused, ap (answer_of o b t (time_of o req.scheduled_time)) e, k)
      go_left b q x (inr (inl (e, k))) =
          inr (inl (b, q, ap (answer_of o b t (time_of o req.scheduled_time)) e, k))
      go_left b q x (inr (inr (ds, xs, h, e, k))) =
          inr (inr (b, ds, xs, q, h, ap (answer_of o b t (time_of o req.scheduled_time)) e, k))

      go :
          (r : Sent Batch)
          → new_batch o domain t s req ≡ r
          → Answered w (create_batch o domain t s req w)
      go (error e) q = inl (e, rw (q, create_batch) refl, rw (q, create_batch) refl)
      go (sent b) q = subst (Answered w) (sym (ran b q)) (
          go_left b q
            (schedule_batch o domain b (recipients_from_request req.recipients)
              (time_of o req.scheduled_time) w.state)
            (schedule_batch_lem b (time_of o req.scheduled_time)
              (recipients_from_request req.recipients) w.state (named_batch q)))
        where
          ran :
              (b : Batch)
              → new_batch o domain t s req ≡ sent b
              → create_batch o domain t s req w ≡ (
                record w {
                  state =
                      (schedule_batch o domain b
                        (recipients_from_request req.recipients)
                        (time_of o req.scheduled_time)
                        w.state).0;
                },
                answer_of o b t
                    (time_of o req.scheduled_time)
                    (schedule_batch o domain b
                      (recipients_from_request req.recipients)
                      (time_of o req.scheduled_time)
                      w.state).1,
              )
          ran b q = rw (q, create_batch) refl
