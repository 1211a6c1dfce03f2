-- ===== src/Dispatcher/Acks.antt =====
-- What the consumers of stats tell the queue: `handleWithAck` and the three handlers of
-- pkg/dispatcher/disp.go.
use mathlib.Core.Path.{subst}
use kannon.Base.{
  ◌≡◌, ◌≢◌, ◌++◌, ◌↔◌, refl, sym, ap, ◌∙◌, ◌⊎◌, inl, inr, Bool, true, false, not, Option, none,
  some, List, [], ◌∷◌, Text, arith, ◌==◌, nat_eq, list_eq, any, list_beq, All, Bool-cases,
  Option-cases, if◌then◌else◌,
}
use kannon.Delivery.{Delivery, load, can_retry, next_retry_at}
use kannon.Stats.{Event, outcome_type, type_error}
use kannon.Pool.{reschedule_pool, Row, has_key, find_row, get_pool, delete_where, clean_pool}
use kannon.Pool.Repository.{Repository, get, reschedule, clean, row_to_delivery}
use kannon.Dispatcher.{
  Outside, World, Done, Failure, not_found, refused, ack, term, nak_with_delay, reply_of,
  claimer_drop, with_delivery, parse_errors, parse_delivered, parse_bounced, retry_or_fail, fail,
  failed_event, claimer_reschedule, reason_budget_spent_sending,
}
use kannon.Dispatcher.Branches.{
  drop_done, drop_refused, fail_told, fail_untold, reschedule_done, reschedule_refused,
}
use kannon.Dispatcher.Loss.{IsAccounted, has_key-true, retry_or_fail-IsAccounted}

module _ {E : Type 0} (o : Outside E) (e : Event) (act : Delivery → World E → Done E)
    (w : World E) where
  with_delivery_unanswered :
      o.finds ≡ false → with_delivery o e act w ≡ record { world = w; failure = some refused }
  unfolding with_delivery
  with_delivery_unanswered h = rw (h, with_delivery) refl

  with_delivery_unknown :
      o.finds ≡ true
      → get o.repo e.message_id e.email w.rows ≡ none
      → with_delivery o e act w ≡ record { world = w; failure = some not_found }
  unfolding with_delivery
  with_delivery_unknown h k = rw (h, with_delivery) (rw k refl)

  with_delivery_known :
      (d : Delivery)
      → o.finds ≡ true
      → get o.repo e.message_id e.email w.rows ≡ some d
      → with_delivery o e act w ≡ act d w
  unfolding with_delivery
  with_delivery_known d h k = rw (h, with_delivery) (rw k refl)

find_row-passes :
    (p : Row → Bool) (rows : List Row) (r : Row) → find_row p rows ≡ some r → p r ≡ true
unfolding find_row
find_row-passes p [] r h = absurd (ground arith)
find_row-passes p (q ∷ rows) r h = elim (Bool-cases (p q)) [
  | inl a ↦ ground arith
  | inr b ↦ find_row-passes p rows r (ground arith)
]

-- A Delivery that is looked up has the key that was asked for.
get-key :
    (repo : Repository) (batch_id email : Text) (rows : List Row) (d : Delivery)
    → get repo batch_id email rows ≡ some d
    → (d.email ≡ email) × (d.batch_id ≡ batch_id)
unfolding get get_pool row_to_delivery load
get-key repo batch_id email rows d h = go (find_row (has_key email batch_id) rows) refl
  where
    go :
        (x : Option Row)
        → find_row (has_key email batch_id) rows ≡ x
        → (d.email ≡ email) × (d.batch_id ≡ batch_id)
    go none k = absurd (ground arith)
    go (some r) k =
        let (p, q) =
          has_key-true email batch_id r (find_row-passes (has_key email batch_id) rows r k) in
        let same = found r k in
        (
          ap (λ (x : Delivery). x.email) (sym same) ∙ p,
          ap (λ (x : Delivery). x.batch_id) (sym same) ∙ q,
        )
      where
        found :
            (r : Row) → find_row (has_key email batch_id) rows ≡ some r → row_to_delivery repo r ≡ d
        found r k = ground arith

delete_where-any : (p : Row → Bool) (rows : List Row) → any p (delete_where p rows) ≡ false
unfolding delete_where any
delete_where-any p [] = refl
delete_where-any p (r ∷ rows) = ground (arith, delete_where-any p rows)

is_ack : (f : Option Failure) → reply_of f ≡ ack → f ≡ none
unfolding reply_of
is_ack none h = refl
is_ack (some not_found) h = absurd (ground arith)
is_ack (some refused) h = absurd (ground arith)

module _ {E : Type 0} (o : Outside E) (e : Event) (w : World E) where
  -- the Delivery of the event
  abbrev IsGone : World E → Type 0
  IsGone v = any (has_key e.email e.message_id) v.rows ≡ false

  drop_acked :
      (d : Delivery)
      → get o.repo e.message_id e.email w.rows ≡ some d
      → reply_of (claimer_drop o d w).failure ≡ ack
      → IsGone (claimer_drop o d w).world
  unfolding clean clean_pool reply_of
  drop_acked d k h =
      let (p, q) = get-key o.repo e.message_id e.email w.rows d k in
      elim (Bool-cases o.drops) [
        | inl a ↦
            subst (λ (x : Done E). IsGone x.world) (sym (drop_done o d w a))
              (gone d.email d.batch_id p q)
        | inr b ↦
            absurd
              (never (ap (λ (x : Done E). reply_of x.failure) (sym (drop_refused o d w b)) ∙ h))
      ]
    where
      gone :
          (email batch_id : Text)
          → email ≡ e.email
          → batch_id ≡ e.message_id
          → any (has_key e.email e.message_id) (delete_where (has_key email batch_id) w.rows)
            ≡ false
      gone email batch_id p q = rw p (rw q (delete_where-any (has_key e.email e.message_id) w.rows))

      never : nak_with_delay ≡ ack → ⊥
      never x = ground arith

  dropping_acked :
      reply_of (with_delivery o e (claimer_drop o) w).failure ≡ ack
      → IsGone (with_delivery o e (claimer_drop o) w).world
  unfolding reply_of
  dropping_acked h = elim (Bool-cases o.finds) [
    | inr b ↦ absurd (
        never_nak (
          ap (λ (x : Done E). reply_of x.failure)
            (sym (with_delivery_unanswered o e (claimer_drop o) w b))
          ∙ h))
    | inl a ↦ elim (Option-cases (get o.repo e.message_id e.email w.rows)) [
      | inl n ↦ absurd (
          never_term (
            ap (λ (x : Done E). reply_of x.failure)
              (sym (with_delivery_unknown o e (claimer_drop o) w a n))
            ∙ h))
      | inr (d, k) ↦
          subst (λ (x : Done E). IsGone x.world)
            (sym (with_delivery_known o e (claimer_drop o) w d a k))
            (drop_acked d k (
              ap (λ (x : Done E). reply_of x.failure)
                (sym (with_delivery_known o e (claimer_drop o) w d a k))
              ∙ h))
    ]
  ]
    where
      never_nak : nak_with_delay ≡ ack → ⊥
      never_nak x = ground arith

      never_term : term ≡ ack → ⊥
      never_term x = ground arith

-- A delivered or bounced stat that is acknowledged has taken its Delivery out of the pool: no row of
-- its key is left.
pub acked_is_gone :
    {E : Type 0} (o : Outside E) (handler : Event → World E → Done E) (e : Event) (w : World E)
    → (handler ≡ parse_delivered o) ⊎ (handler ≡ parse_bounced o)
    → reply_of (handler e w).failure ≡ ack
    → any (has_key e.email e.message_id) (handler e w).world.rows ≡ false
unfolding parse_delivered parse_bounced
acked_is_gone {E} o handler e w which h = go which
  where
    dropping : Event → World E → Done E
    dropping x v = with_delivery o x (claimer_drop o) v

    same : handler ≡ dropping → any (has_key e.email e.message_id) (handler e w).world.rows ≡ false
    same k =
        let here = ap (λ (f : Event → World E → Done E). f e w) k in
        ap (λ (x : Done E). any (has_key e.email e.message_id) x.world.rows) here
        ∙ dropping_acked o e w (ap (λ (x : Done E). reply_of x.failure) (sym here) ∙ h)

    go :
        (handler ≡ parse_delivered o) ⊎ (handler ≡ parse_bounced o)
        → any (has_key e.email e.message_id) (handler e w).world.rows ≡ false
    go (inl k) = same k
    go (inr k) = same k

module _ {E : Type 0} (o : Outside E) where
  -- The message is not terminated.
  abbrev Survives : Done E → Type 0
  Survives x = reply_of x.failure ≢ term

  acked-Survives : (v : World E) → Survives (record { world = v; failure = none })
  unfolding reply_of
  acked-Survives v h = ground arith

  refused-Survives : (v : World E) → Survives (record { world = v; failure = some refused })
  unfolding reply_of
  refused-Survives v h = ground arith

  claimer_drop-Survives : (d : Delivery) (w : World E) → Survives (claimer_drop o d w)
  claimer_drop-Survives d w = elim (Bool-cases o.drops) [
    | inl a ↦
        subst Survives (sym (drop_done o d w a))
          (acked-Survives (record w { rows = clean d.batch_id d.email w.rows }))
    | inr b ↦ subst Survives (sym (drop_refused o d w b)) (refused-Survives w)
  ]

  fail-Survives : (d : Delivery) (reason : Text) (w : World E) → Survives (fail o d reason w)
  fail-Survives d reason w = elim (Bool-cases (o.takes_stat (failed_event o.now d reason))) [
    | inl a ↦
        subst Survives (sym (fail_told o d reason w a)) (
          claimer_drop-Survives d
            (record w { stats = w.stats ++ failed_event o.now d reason ∷ [] }))
    | inr b ↦ subst Survives (sym (fail_untold o d reason w b)) (refused-Survives w)
  ]

  Rescheduled : Text → Text → List Row → Type 0
  Rescheduled batch_id email rows =
      (after : List Row) × (reschedule o.repo batch_id email rows ≡ some after)

  -- A Delivery that was looked up is there to be rescheduled.
  found-Rescheduled :
      (batch_id email : Text) (rows : List Row) (d : Delivery)
      → get o.repo batch_id email rows ≡ some d
      → Rescheduled d.batch_id d.email rows
  unfolding reschedule Rescheduled
  found-Rescheduled batch_id email rows d k =
      let (p, q) = get-key o.repo batch_id email rows d k in
      subst (λ (x : Text). Rescheduled x d.email rows) (sym q)
        (subst (λ (x : Text). Rescheduled batch_id x rows) (sym p)
          (
            reschedule_pool (o.repo.stored (next_retry_at d)) email batch_id rows,
            rw (k, reschedule) refl,
          ))

  retry_or_fail-retried :
      (d : Delivery) (reason : Text) (w : World E)
      → can_retry d ≡ true
      → retry_or_fail o d reason w ≡ claimer_reschedule o d w
  unfolding retry_or_fail
  retry_or_fail-retried d reason w h = rw (h, retry_or_fail) refl

  retry_or_fail-failed :
      (d : Delivery) (reason : Text) (w : World E)
      → can_retry d ≡ false
      → retry_or_fail o d reason w ≡ fail o d reason w
  unfolding retry_or_fail
  retry_or_fail-failed d reason w h = rw (h, retry_or_fail) refl

  claimer_reschedule-Survives :
      (d : Delivery) (w : World E)
      → Rescheduled d.batch_id d.email w.rows
      → Survives (claimer_reschedule o d w)
  unfolding Rescheduled
  claimer_reschedule-Survives d w (rows, k) = elim (Bool-cases o.reschedules) [
    | inl a ↦
        subst Survives (sym (reschedule_done o d w rows a k))
          (acked-Survives (record w { rows = rows }))
    | inr b ↦ subst Survives (sym (reschedule_refused o d w b)) (refused-Survives w)
  ]

  retry_or_fail-Survives :
      (e : Event) (reason : Text) (w : World E) (d : Delivery)
      → get o.repo e.message_id e.email w.rows ≡ some d
      → Survives (retry_or_fail o d reason w)
  retry_or_fail-Survives e reason w d k = elim (Bool-cases (can_retry d)) [
    | inr b ↦ subst Survives (sym (retry_or_fail-failed d reason w b)) (fail-Survives d reason w)
    | inl a ↦
        subst Survives (sym (retry_or_fail-retried d reason w a))
          (claimer_reschedule-Survives d w (found-Rescheduled e.message_id e.email w.rows d k))
  ]

  -- The database answers, and it has no such Delivery.
  abbrev pub IsUnknown : Event → World E → Type 0
  IsUnknown e w = (o.finds ≡ true) × (get o.repo e.message_id e.email w.rows ≡ none)

  with_delivery-term :
      (e : Event) (act : Delivery → World E → Done E) (w : World E)
      → ((d : Delivery) → get o.repo e.message_id e.email w.rows ≡ some d → Survives (act d w))
      → (reply_of (with_delivery o e act w).failure ≡ term) ↔ IsUnknown e w
  unfolding reply_of
  with_delivery-term e act w acts = (
    (λ h. elim (Bool-cases o.finds) [
      | inr b ↦
          absurd
            (subst Survives (sym (with_delivery_unanswered o e act w b)) (refused-Survives w) h)
      | inl a ↦ elim (Option-cases (get o.repo e.message_id e.email w.rows)) [
        | inl n ↦ (a, n)
        | inr (d, k) ↦
            absurd (subst Survives (sym (with_delivery_known o e act w d a k)) (acts d k) h)
      ]
    ]),
    (λ (a, n). ap (λ (x : Done E). reply_of x.failure) (with_delivery_unknown o e act w a n)),
  )

parse_errors_known :
    {E : Type 0} (o : Outside E) (e : Event) (w : World E)
    → outcome_type e.outcome ≡ type_error
    → parse_errors o e w ≡ with_delivery o e (λ d. retry_or_fail o d reason_budget_spent_sending) w
unfolding parse_errors list_beq
parse_errors_known o e w t = rw (t, parse_errors) refl

-- For an event of type error, each of the three handlers terminates its message exactly where the
-- database answers that it has no such Delivery: no failure to reschedule, to publish or to drop
-- throws an event of a Delivery away.
pub term_iff :
    {E : Type 0} (o : Outside E) (e : Event) (w : World E)
    → outcome_type e.outcome ≡ type_error
    → All
        (λ (x : Done E). (reply_of x.failure ≡ term) ↔ IsUnknown o e w)
        (parse_delivered o e w ∷ parse_bounced o e w ∷ parse_errors o e w ∷ [])
unfolding parse_delivered parse_bounced
term_iff {E} o e w t = (dropping, (dropping, (erring, tt)))
  where
    Exactly : Done E → Type 0
    Exactly x = (reply_of x.failure ≡ term) ↔ IsUnknown o e w

    dropping : Exactly (with_delivery o e (claimer_drop o) w)
    dropping = with_delivery-term o e (claimer_drop o) w (λ d k. claimer_drop-Survives o d w)

    act : Delivery → World E → Done E
    act d = retry_or_fail o d reason_budget_spent_sending

    erring : Exactly (parse_errors o e w)
    erring = subst Exactly (sym (parse_errors_known o e w t)) (
        with_delivery-term o e act w
          (λ d k. retry_or_fail-Survives o e reason_budget_spent_sending w d k))

-- Whatever fails in handling an error stat, a Delivery that was in the pool, or whose failure had
-- been published, is still in the pool or its failure has been published.
pub parse_errors-IsAccounted :
    {E : Type 0} (o : Outside E) (e : Event) (w : World E) (email batch_id : Text)
    → IsAccounted email batch_id w
    → IsAccounted email batch_id (parse_errors o e w).world
unfolding parse_errors
parse_errors-IsAccounted {E} o e w email batch_id h =
    go (not (outcome_type e.outcome == type_error)) found
  where
    act : Delivery → World E → Done E
    act d = retry_or_fail o d reason_budget_spent_sending

    go :
        (b : Bool)
        → IsAccounted email batch_id (with_delivery o e act w).world
        → IsAccounted email batch_id
            (if b
              then record { world = w; failure = some refused }
              else with_delivery o e act w).world
    go true k = h
    go false k = k

    found : IsAccounted email batch_id (with_delivery o e act w).world
    found = elim (Bool-cases o.finds) [
      | inr b ↦
          subst (λ (x : Done E). IsAccounted email batch_id x.world)
            (sym (with_delivery_unanswered o e act w b)) h
      | inl a ↦ elim (Option-cases (get o.repo e.message_id e.email w.rows)) [
        | inl n ↦
            subst (λ (x : Done E). IsAccounted email batch_id x.world)
              (sym (with_delivery_unknown o e act w a n)) h
        | inr (d, k) ↦
            subst (λ (x : Done E). IsAccounted email batch_id x.world)
              (sym (with_delivery_known o e act w d a k))
              (retry_or_fail-IsAccounted email batch_id o d reason_budget_spent_sending w h)
      ]
    ]
