-- ===== src/Dispatcher/Loss.antt =====
-- What becomes of the Deliveries of a dispatch cycle: `dispatchOne`, `retryOrFail` and `fail` of
-- pkg/dispatcher/disp.go.
use mathlib.Core.Path.{subst}
use kannon.Base.{
  ℕ, suc, ◌≡◌, refl, sym, ap, ◌∙◌, ◌⊎◌, inl, inr, Bool, true, false, Option, none, some, List, [],
  ◌∷◌, ◌++◌, Text, arith, nat_eq, list_eq, list_beq, list_beq_iff, any, or-true, Some,
  Some-append_left, Some-append_right, Bool-cases, Option-cases, if◌then◌else◌,
}
use kannon.Delivery.{Delivery, can_retry, next_retry_at}
use kannon.Stats.{Event, outcome_type, type_failed, failed}
use kannon.Pool.{
  Row, has_key, delete_where, clean_pool, reschedule_pool, prepare_for_send, due, claim_for_send,
  push_back,
}
use kannon.Pool.Keys.{any-update_limit, any-update_where}
use kannon.Storage.{int32_of}
use kannon.Pool.Repository.{
  claim_for_dispatch, with_limit, reschedule, clean, get, rows_to_deliveries,
}
use kannon.Dispatcher.Branches.{
  drop_done, drop_refused, fail_told, fail_untold, reschedule_done, reschedule_unknown,
  reschedule_refused,
}
use kannon.Dispatcher.{
  Outside, World, Done, claimer_reschedule, claimer_drop, failed_event, fail, retry_or_fail,
  hand_back_or_fail, dispatch_one, dispatch_all, dispatch_cycle, reason_budget_spent_dispatching,
}

-- a published stat that says that this Delivery failed
abbrev pub IsFailedStat : Text → Text → Event → Type 0
IsFailedStat email batch_id s =
    (s.email ≡ email) × (s.message_id ≡ batch_id) × (outcome_type s.outcome ≡ type_failed)

-- The Delivery is in the pool, or its failure has been published.
abbrev pub IsAccounted : {E : Type 0} → Text → Text → World E → Type 0
IsAccounted email batch_id w =
    (any (has_key email batch_id) w.rows ≡ true) ⊎ Some (IsFailedStat email batch_id) w.stats

pub has_key-true :
    (email batch_id : Text) (r : Row)
    → has_key email batch_id r ≡ true
    → (r.email ≡ email) × (r.message_id ≡ batch_id)
unfolding has_key
has_key-true email batch_id r h =
    ground (arith, list_beq_iff r.email email, list_beq_iff r.message_id batch_id)

-- A deletion leaves the rows of other keys.
any-delete_where :
    (email batch_id e m : Text) (rows : List Row)
    → any (has_key email batch_id) rows ≡ true
    → (any (has_key email batch_id) (delete_where (has_key e m) rows) ≡ true)
      ⊎ ((e ≡ email) × (m ≡ batch_id))
unfolding delete_where any
any-delete_where email batch_id e m [] h = absurd (ground arith)
any-delete_where email batch_id e m (r ∷ rows) h =
    go (has_key e m r) refl
      (or-true (has_key email batch_id r) (any (has_key email batch_id) rows) h)
      (any-delete_where email batch_id e m rows)
  where
    Goal : Bool → Type 0
    Goal b =
        (any (has_key email batch_id)
            (if b then delete_where (has_key e m) rows else r ∷ delete_where (has_key e m) rows)
          ≡ true)
        ⊎ ((e ≡ email) × (m ≡ batch_id))

    go :
        (b : Bool)
        → has_key e m r ≡ b
        → (has_key email batch_id r ≡ true) ⊎ (any (has_key email batch_id) rows ≡ true)
        → (any (has_key email batch_id) rows ≡ true
            → (any (has_key email batch_id) (delete_where (has_key e m) rows) ≡ true)
              ⊎ ((e ≡ email) × (m ≡ batch_id)))
        → Goal b
    go true k (inl x) rest =
        let (p, q) = has_key-true e m r k in
        let (u, v) = has_key-true email batch_id r x in inr (sym p ∙ u, sym q ∙ v)
    go true k (inr x) rest = rest x
    go false k (inl x) rest = inl (rw x refl)
    go false k (inr x) rest = elim (rest x) [ inl y ↦ inl (ground (arith, y)) | inr y ↦ inr y ]

module _ {E : Type 0} (email batch_id : Text) where
  reschedule-any :
      (o : Outside E) (d : Delivery) (rows table : List Row)
      → reschedule o.repo d.batch_id d.email rows ≡ some table
      → any (has_key email batch_id) table ≡ any (has_key email batch_id) rows
  unfolding reschedule reschedule_pool push_back
  reschedule-any o d rows table e = go (get o.repo d.batch_id d.email rows) refl
    where
      go :
          (x : Option Delivery)
          → get o.repo d.batch_id d.email rows ≡ x
          → any (has_key email batch_id) table ≡ any (has_key email batch_id) rows
      go none k = absurd (ground arith)
      go (some found) k =
          ap (any (has_key email batch_id)) (ground arith)
          ∙ any-update_where (push_back (o.repo.stored (next_retry_at found))) (λ r. (refl, refl))
              (has_key d.email d.batch_id) rows email batch_id

  claimer_reschedule-IsAccounted :
      (o : Outside E) (d : Delivery) (w : World E)
      → IsAccounted email batch_id w
      → IsAccounted email batch_id (claimer_reschedule o d w).world
  claimer_reschedule-IsAccounted o d w h = elim (Bool-cases o.reschedules) [
    | inl a ↦ elim (Option-cases (reschedule o.repo d.batch_id d.email w.rows)) [
      | inl n ↦
          subst (λ (x : Done E). IsAccounted email batch_id x.world)
            (sym (reschedule_unknown o d w a n)) h
      | inr (rows, k) ↦
          subst (λ (x : Done E). IsAccounted email batch_id x.world)
            (sym (reschedule_done o d w rows a k)) (kept rows (reschedule-any o d w.rows rows k) h)
    ]
    | inr b ↦
        subst (λ (x : Done E). IsAccounted email batch_id x.world)
          (sym (reschedule_refused o d w b)) h
  ]
    where
      kept :
          (rows : List Row)
          → any (has_key email batch_id) rows ≡ any (has_key email batch_id) w.rows
          → IsAccounted email batch_id w
          → IsAccounted email batch_id (record w { rows = rows })
      kept rows e (inl x) = inl (e ∙ x)
      kept rows e (inr y) = inr y

  -- Dropping a Delivery whose failure has been told
  drop-IsAccounted :
      (o : Outside E) (d : Delivery) (w : World E)
      → IsAccounted email batch_id w
      → (d.email ≡ email → d.batch_id ≡ batch_id → Some (IsFailedStat email batch_id) w.stats)
      → IsAccounted email batch_id (claimer_drop o d w).world
  unfolding clean clean_pool
  drop-IsAccounted o d w h told = elim (Bool-cases o.drops) [
    | inl a ↦
        subst (λ (x : Done E). IsAccounted email batch_id x.world) (sym (drop_done o d w a))
          (kept h)
    | inr b ↦
        subst (λ (x : Done E). IsAccounted email batch_id x.world) (sym (drop_refused o d w b)) h
  ]
    where
      kept :
          IsAccounted email batch_id w
          → IsAccounted email batch_id (record w { rows = clean d.batch_id d.email w.rows })
      kept (inr y) = inr y
      kept (inl x) = elim (any-delete_where email batch_id d.email d.batch_id w.rows x) [
        | inl y ↦ inl y
        | inr (p, q) ↦ inr (told p q)
      ]

  fail-IsAccounted :
      (o : Outside E) (d : Delivery) (reason : Text) (w : World E)
      → IsAccounted email batch_id w
      → IsAccounted email batch_id (fail o d reason w).world
  unfolding failed_event failed outcome_type list_beq
  fail-IsAccounted o d reason w h = elim (Bool-cases (o.takes_stat (failed_event o.now d reason))) [
    | inr b ↦
        subst (λ (x : Done E). IsAccounted email batch_id x.world)
          (sym (fail_untold o d reason w b)) h
    | inl a ↦
        subst (λ (x : Done E). IsAccounted email batch_id x.world) (sym (fail_told o d reason w a))
          (drop-IsAccounted o d (record w { stats = w.stats ++ failed_event o.now d reason ∷ [] })
            (more h)
            (λ p q.
              Some-append_right (IsFailedStat email batch_id) w.stats
                (failed_event o.now d reason ∷ []) (inl (p, q, refl))))
  ]
    where
      more :
          IsAccounted email batch_id w
          → IsAccounted email batch_id
              (record w { stats = w.stats ++ failed_event o.now d reason ∷ [] })
      more (inl x) = inl x
      more (inr y) = inr (
          Some-append_left (IsFailedStat email batch_id) w.stats (failed_event o.now d reason ∷ [])
            y)

  pub retry_or_fail-IsAccounted :
      (o : Outside E) (d : Delivery) (reason : Text) (w : World E)
      → IsAccounted email batch_id w
      → IsAccounted email batch_id (retry_or_fail o d reason w).world
  unfolding retry_or_fail
  retry_or_fail-IsAccounted o d reason w h = go (can_retry d)
    where
      go :
          (b : Bool)
          → IsAccounted email batch_id
              (if b then claimer_reschedule o d w else fail o d reason w).world
      go true = claimer_reschedule-IsAccounted o d w h
      go false = fail-IsAccounted o d reason w h

  dispatch_one-IsAccounted :
      (o : Outside E) (d : Delivery) (w : World E)
      → IsAccounted email batch_id w
      → IsAccounted email batch_id (dispatch_one o d w)
  unfolding dispatch_one hand_back_or_fail
  dispatch_one-IsAccounted o d w h =
      go (o.build d) (retry_or_fail-IsAccounted o d reason_budget_spent_dispatching w h)
    where
      sent :
          (env : E) (b : Bool)
          → IsAccounted email batch_id (hand_back_or_fail o d w)
          → IsAccounted email batch_id
              (if b then record w { mail = w.mail ++ env ∷ [] } else hand_back_or_fail o d w)
      sent env true k = h
      sent env false k = k

      go :
          (x : Option E)
          → IsAccounted email batch_id (hand_back_or_fail o d w)
          → IsAccounted email batch_id (elim x [
            | none ↦ hand_back_or_fail o d w
            | some env ↦
                if o.takes_mail env
                then record w { mail = w.mail ++ env ∷ [] }
                else hand_back_or_fail o d w
          ])
      go none k = k
      go (some env) k = sent env (o.takes_mail env) k

  dispatch_all-IsAccounted :
      (o : ℕ → Outside E) (ds : List Delivery) (w : World E)
      → IsAccounted email batch_id w
      → IsAccounted email batch_id (dispatch_all o ds w)
  unfolding dispatch_all
  dispatch_all-IsAccounted o [] w h = h
  dispatch_all-IsAccounted o (d ∷ ds) w h =
      dispatch_all-IsAccounted (λ i. o (suc i)) ds (dispatch_one (o 0) d w)
        (dispatch_one-IsAccounted (o 0) d w h)

-- Whatever fails in a dispatch cycle, a Delivery that was in the pool, or whose failure had been
-- published, is still in the pool or its failure has been published.
pub dispatch_cycle-IsAccounted :
    {E : Type 0} (o : ℕ → Outside E) (locked : Row → Bool) (w : World E) (email batch_id : Text)
    → IsAccounted email batch_id w
    → IsAccounted email batch_id (dispatch_cycle o locked w)
unfolding dispatch_cycle claim_for_dispatch with_limit int32_of prepare_for_send claim_for_send
dispatch_cycle-IsAccounted o locked w email batch_id h =
    dispatch_all-IsAccounted email batch_id (λ i. o (suc i))
      (rows_to_deliveries (o 0).repo (prepare_for_send locked (o 0).now 20 w.rows).returned)
      (record w { rows = (prepare_for_send locked (o 0).now 20 w.rows).table }) (claimed h)
  where
    claimed :
        IsAccounted email batch_id w
        → IsAccounted email batch_id
            (record w { rows = (prepare_for_send locked (o 0).now 20 w.rows).table })
    claimed (inl x) = inl (
        any-update_limit (claim_for_send (o 0).now) (λ r. (refl, refl)) (due locked (o 0).now) 20
          w.rows email batch_id
        ∙ x)
    claimed (inr y) = inr y
