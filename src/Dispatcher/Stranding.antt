-- ===== src/Dispatcher/Stranding.antt =====
-- A Delivery whose Envelopes are published and never answered: `DispatchCycle` of
-- pkg/dispatcher/disp.go and `ReclaimCycle` of pkg/dispatcher/reclaim.go in turn.
use mathlib.Core.Path.{subst}
use kannon.Base.{
  ℕ, zero, suc, ◌+◌, ◌≡◌, refl, sym, ap, ◌∙◌, true, false, none, some, List, [], ◌∷◌, ◌++◌, arith,
  nat_eq, length, length-append,
}
use kannon.Base.Int.{ℤ, pos, ◌-ℤ◌, ltb_ℤ}
use kannon.Delivery.{Delivery}
use kannon.Delivery.Backoff.{hour}
use kannon.Pool.{
  Row, Claimed, status_beq, status_no, scheduled, due, claim_for_send, prepare_for_send,
  update_limit, take_row, stranded, claimed_before, hand_back, reclaim_stranded,
}
use kannon.Pool.Scan.{update_limit_hit}
use kannon.Pool.Repository.{
  claim_for_dispatch, with_limit, reclaim, reclaim_target, reclaim_params, interval_of,
  row_to_delivery, rows_to_deliveries,
}
use kannon.Storage.{int32_of}
use kannon.Pool.Targets.{dispatch_target}
use kannon.Dispatcher.{
  sending_strand_threshold, reclaim_page_size, Outside, World, dispatch_one, dispatch_all,
  dispatch_cycle, reclaim_cycle,
}

-- Rounds of a dispatch cycle and, an outside later, a reclaim cycle, alone with the pool
unfoldable pub rounds : {E : Type 0} → (ℕ → Outside E) → ℕ → World E → World E
rounds o zero w = w
rounds o (suc k) w =
    rounds (λ i. o (suc i)) k
      (reclaim_cycle (o 1) (λ _. false) (dispatch_cycle (λ _. o 0) (λ _. false) w))

-- The row, scheduled again after `n` attempts
abbrev pub waiting : Row → ℕ → Row
waiting r n = record r { status = scheduled; send_attempts_cnt = n; claimed_at = none }

-- Every Envelope is built and published, the row is due, and the clock goes on by more than the
-- threshold from each outside to the next.
pub record IsUnanswered {E : Type 0} (r : Row) (o : ℕ → Outside E) : Type 0 where
  pub env : Delivery → E
  pub builds : (i : ℕ) (d : Delivery) → (o i).build d ≡ some (env d)
  pub takes : (i : ℕ) (d : Delivery) → (o i).takes_mail (env d) ≡ true
  pub is_due : (i : ℕ) → ltb_ℤ (o i).now r.scheduled_time ≡ false
  pub passes : (i : ℕ) → ltb_ℤ (o i).now ((o (suc i)).now -ℤ pos hour) ≡ true

claim_one :
    (now : ℤ) (r : Row) (n : ℕ)
    → ltb_ℤ now r.scheduled_time ≡ false
    → prepare_for_send (λ _. false) now 20 (waiting r n ∷ []) ≡ record {
      table = claim_for_send now (waiting r n) ∷ [];
      returned = claim_for_send now (waiting r n) ∷ [];
    }
unfolding prepare_for_send claim_for_send status_beq status_no due update_limit take_row
claim_one now r n h =
    update_limit_hit (due (λ _. false) now) (claim_for_send now) 19 (waiting r n) [] (rw h refl)

module _ {E : Type 0} where
  dispatch_one_sent :
      (o : Outside E) (d : Delivery) (w : World E) (env : E)
      → o.build d ≡ some env
      → o.takes_mail env ≡ true
      → dispatch_one o d w ≡ record w { mail = w.mail ++ env ∷ [] }
  unfolding dispatch_one
  dispatch_one_sent o d w env b t = rw (b, dispatch_one) (rw t refl)

  reclaim_one :
      (o : Outside E) (w : World E) (now : ℤ) (r : Row) (n : ℕ)
      → w.rows ≡ claim_for_send now (waiting r n) ∷ []
      → ltb_ℤ now (o.now -ℤ pos hour) ≡ true
      → reclaim_cycle o (λ _. false) w ≡ record w { rows = waiting r (n + 1) ∷ [] }
  unfolding status_beq status_no reclaim_cycle reclaim with_limit int32_of reclaim_target
      reclaim_stranded reclaim_params update_limit take_row hand_back stranded claimed_before
      claim_for_send interval_of
  reclaim_one o w now r n same h =
      let p = reclaim_params dispatch_target sending_strand_threshold reclaim_page_size in
      ap
        (λ (rows : List Row). record w {
          rows = (reclaim_stranded (λ _. false) o.now p rows).table;
        })
        same
      ∙ ap (λ (c : Claimed). record w { rows = c.table })
          (update_limit_hit (stranded (λ _. false) o.now p) (hand_back p) 999
            (claim_for_send now (waiting r n)) [] h)

  dispatched : Outside E → (Delivery → E) → Row → ℕ → World E → World E
  dispatched o env r n w = record w {
    rows = claim_for_send o.now (waiting r n) ∷ [];
    mail = w.mail ++ env (row_to_delivery o.repo (claim_for_send o.now (waiting r n))) ∷ [];
  }

  dispatch_cycle_one :
      (r : Row) (o : ℕ → Outside E) (u : IsUnanswered r o) (n : ℕ) (w : World E)
      → w.rows ≡ waiting r n ∷ []
      → dispatch_cycle (λ _. o 0) (λ _. false) w ≡ dispatched (o 0) u.env r n w
  unfolding dispatch_cycle claim_for_dispatch with_limit int32_of dispatch_all rows_to_deliveries
      dispatched
  dispatch_cycle_one r o u n w e =
      let all = λ (c : Claimed).
        dispatch_all (λ _. o 0) (rows_to_deliveries (o 0).repo c.returned)
          (record w { rows = c.table }) in
      ap (λ (rows : List Row). all (prepare_for_send (λ _. false) (o 0).now 20 rows)) e
      ∙ (ap all (claim_one (o 0).now r n (u.is_due 0))
          ∙ dispatch_one_sent (o 0)
              (row_to_delivery (o 0).repo (claim_for_send (o 0).now (waiting r n)))
              (record w { rows = claim_for_send (o 0).now (waiting r n) ∷ [] })
              (u.env (row_to_delivery (o 0).repo (claim_for_send (o 0).now (waiting r n))))
              (u.builds 0 (row_to_delivery (o 0).repo (claim_for_send (o 0).now (waiting r n))))
              (u.takes 0 (row_to_delivery (o 0).repo (claim_for_send (o 0).now (waiting r n)))))

  round_lem :
      (r : Row) (o : ℕ → Outside E) (u : IsUnanswered r o) (n : ℕ) (w : World E)
      → w.rows ≡ waiting r n ∷ []
      → reclaim_cycle (o 1) (λ _. false) (dispatch_cycle (λ _. o 0) (λ _. false) w)
        ≡ record (dispatched (o 0) u.env r n w) { rows = waiting r (n + 1) ∷ [] }
  unfolding dispatched
  round_lem r o u n w e =
      ap (reclaim_cycle (o 1) (λ _. false)) (dispatch_cycle_one r o u n w e)
      ∙ reclaim_one (o 1) (dispatched (o 0) u.env r n w) (o 0).now r n refl (u.passes 0)

  later : (r : Row) (o : ℕ → Outside E) → IsUnanswered r o → IsUnanswered r (λ i. o (suc i))
  later r o u = record {
    env = u.env;
    builds = λ i. u.builds (suc i);
    takes = λ i. u.takes (suc i);
    is_due = λ i. u.is_due (suc i);
    passes = λ i. u.passes (suc i);
  }

abbrev IsAfter : {E : Type 0} → Row → ℕ → ℕ → World E → World E → Type 0
IsAfter r n m w v = (v.rows ≡ waiting r n ∷ []) × (v.stats ≡ w.stats) × (length v.mail ≡ m)

-- A Delivery that is alone in the pool and due at every step, of which no step finds the row locked,
-- whose Envelope every step builds and publishes and nobody answers, and where the clock goes on by
-- more than an hour from each step to the next: after any number `k` of rounds of a dispatch cycle
-- and a reclaim cycle it is scheduled again, its attempts have grown by `k`, `k` Envelopes more have
-- been published, and no stat has been.
pub unanswered_never_ends :
    {E : Type 0} (r : Row) (o : ℕ → Outside E)
    → IsUnanswered r o
    → (k n : ℕ) (w : World E) → w.rows ≡ waiting r n ∷ []
    → ((rounds o k w).rows ≡ waiting r (n + k) ∷ [])
      × ((rounds o k w).stats ≡ w.stats)
      × (length (rounds o k w).mail ≡ length w.mail + k)
unfolding rounds dispatched
unanswered_never_ends r o u zero n w e = (rw (add_zero n) e, refl, omega arith)
  where
    add_zero : (x : ℕ) → x + 0 ≡ x
    add_zero x = omega arith
unanswered_never_ends {E} r o u (suc k) n w e =
    let v = record (dispatched (o 0) u.env r n w) { rows = waiting r (n + 1) ∷ [] } in
    let (rows_after, stats_after, mail_after) =
      unanswered_never_ends r (λ i. o (suc i)) (later r o u) k (n + 1) v refl in
    subst
      (λ (x : World E).
        IsAfter r (n + suc k) (length w.mail + suc k) w (rounds (λ i. o (suc i)) k x))
      (sym (round_lem r o u n w e))
      (
        rows_after ∙ ap (λ (x : ℕ). waiting r x ∷ []) (one_more n k),
        stats_after,
        mail_after
            ∙ one_longer w.mail
                (u.env (row_to_delivery (o 0).repo (claim_for_send (o 0).now (waiting r n)))),
      )
  where
    one_more : (x y : ℕ) → x + 1 + y ≡ x + suc y
    one_more x y = omega arith

    one_longer : (xs : List E) (y : E) → length (xs ++ y ∷ []) + k ≡ length xs + suc k
    one_longer xs y = omega (arith, length-append xs (y ∷ []))
