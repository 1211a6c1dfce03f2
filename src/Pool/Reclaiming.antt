-- ===== src/Pool/Reclaiming.antt =====
-- Taking stranded Deliveries back: `ReclaimStranded` of internal/db/delivery_repo.go.
use mathlib.Core.Path.{subst}
use kannon.Base.{
  ℕ, ◌+◌, ◌≤◌, ◌<◌, ◌^◌, ◌≡◌, refl, sym, ◌⊎◌, inl, inr, Bool, true, false, Option, none, some, List,
  length, arith, nat_eq, All, All-map, In, Some-witness, if◌then◌else◌,
}
use kannon.Base.Int.{ℤ, ◌-ℤ◌, ltb_ℤ}
use kannon.Pool.{
  Row, Claimed, ReclaimParams, scheduled, sending, status_beq_iff, stranded, claimed_before,
  hand_back, reclaim_stranded, update_limit,
}
use kannon.Pool.Scan.{IsChanged, length-returned, returned-IsChanged, In-returned}
use kannon.Pool.Repository.{
  InFlight, for_dispatch, for_validation, ReclaimTarget, with_limit, reclaim, reclaim_target,
  reclaim_params, interval_of,
}
use kannon.Pool.Targets.{
  reclaim_cases, target_cases, int32_of-small, dispatch_target, validation_target,
}

-- What a reclaim takes back, against the table before it.
pub record IsReclaimed (t : ReclaimTarget) (now : ℤ) (older_than : ℕ) (rows : List Row) (y : Row)
    : Type 0 where
  pub before : Row
  pub stored : In rows before
  pub was_in_flight : before.status ≡ t.from_status
  pub claim : ℤ
  pub was_claimed : before.claimed_at ≡ some claim
  pub is_old : ltb_ℤ claim (now -ℤ interval_of older_than) ≡ true
  pub handed_back : y ≡ record before {
    status = t.to_status;
    claimed_at = none;
    send_attempts_cnt = before.send_attempts_cnt + (if t.bump_attempts then 1 else 0);
  }

claimed_before-cases :
    (limit : ℤ) (o : Option ℤ)
    → claimed_before limit o ≡ true
    → (at : ℤ) × (o ≡ some at) × (ltb_ℤ at limit ≡ true)
unfolding claimed_before
claimed_before-cases limit none h = absurd (ground arith)
claimed_before-cases limit (some at) h = (at, refl, h)

stranded-cases :
    (locked : Row → Bool) (now : ℤ) (p : ReclaimParams) (r : Row)
    → stranded locked now p r ≡ true
    → (r.status ≡ p.from_status) × (claimed_before (now -ℤ p.stranded_for) r.claimed_at ≡ true)
unfolding stranded
stranded-cases locked now p r h = ground (arith, status_beq_iff r.status p.from_status)

IsChanged-IsReclaimed :
    (locked : Row → Bool) (now : ℤ) (t : ReclaimTarget) (older_than max : ℕ) (rows : List Row)
    (y : Row)
    → IsChanged
        (stranded locked now (reclaim_params t older_than max))
        (hand_back (reclaim_params t older_than max))
        rows
        y
    → IsReclaimed t now older_than rows y
unfolding hand_back reclaim_params
IsChanged-IsReclaimed locked now t older_than max rows y h =
    let p = reclaim_params t older_than max in
    let (r, m, (k, e)) =
      Some-witness (λ q. (stranded locked now p q ≡ true) × (hand_back p q ≡ y)) rows h in
    let (s, b) = stranded-cases locked now p r k in
    let (at, a, o) = claimed_before-cases (now -ℤ interval_of older_than) r.claimed_at b in
    record {
      before = r;
      stored = m;
      was_in_flight = s;
      claim = at;
      was_claimed = a;
      is_old = o;
      handed_back = sym e;
    }

module _ (locked : Row → Bool) (now : ℤ) (older_than : ℕ) (rows : List Row) where
  -- What a reclaim with a target and a limit returns.
  abbrev pub IsTaken : ReclaimTarget → Claimed → Type 0
  IsTaken t c = All (IsReclaimed t now older_than rows) c.returned

  reclaim_stranded-IsTaken :
      (t : ReclaimTarget) (n : ℕ)
      → IsTaken t (reclaim_stranded locked now (reclaim_params t older_than n) rows)
  unfolding reclaim_stranded reclaim_params
  reclaim_stranded-IsTaken t n =
      let p = reclaim_params t older_than n in
      All-map (update_limit (stranded locked now p) (hand_back p) n rows).returned
        (λ y h. IsChanged-IsReclaimed locked now t older_than n rows y h)
        (returned-IsChanged (stranded locked now p) (hand_back p) n rows)

  length-reclaim_stranded :
      (t : ReclaimTarget) (n : ℕ)
      → length (reclaim_stranded locked now (reclaim_params t older_than n) rows).returned ≤ n
  unfolding reclaim_stranded reclaim_params
  length-reclaim_stranded t n =
      let p = reclaim_params t older_than n in
      length-returned (stranded locked now p) (hand_back p) n rows

  -- A reclaim that is not refused returns at most `max` rows. Asked for claims for dispatch, it takes
  -- them from `sending` back to `scheduled` with one more attempt; asked for claims for validation,
  -- from `validating` back to `to_validate` with the attempts as they were. Each had been claimed
  -- more than the threshold ago, and has no claim any more. It is asked for nothing else.
  pub reclaim-IsReclaimed :
      (f : InFlight) (max : ℕ) (c : Claimed)
      → reclaim locked now f older_than max rows ≡ some c
      → (length c.returned ≤ max)
        × (((f ≡ for_dispatch) × IsTaken dispatch_target c)
            ⊎ ((f ≡ for_validation) × IsTaken validation_target c))
  reclaim-IsReclaimed f max c e =
      let (t, n, k, below, same) = reclaim_cases locked now f older_than max rows c e in
      let taken = subst (IsTaken t) (sym same) (reclaim_stranded-IsTaken t n) in
      (
        subst (λ (x : Claimed). length x.returned ≤ max) (sym same)
            (omega (arith, below, length-reclaim_stranded t n)),
        elim (target_cases f t k) [
          | inl (kind, a) ↦ inl (kind, subst (λ (x : ReclaimTarget). IsTaken x c) a taken)
          | inr (kind, a) ↦ inr (kind, subst (λ (x : ReclaimTarget). IsTaken x c) a taken)
        ],
      )

qualifies :
    (now at : ℤ) (p : ReclaimParams) (r : Row)
    → r.status ≡ p.from_status
    → r.claimed_at ≡ some at
    → ltb_ℤ at (now -ℤ p.stranded_for) ≡ true
    → stranded (λ _. false) now p r ≡ true
unfolding stranded claimed_before
qualifies now at p r s a old = rw a (rw old (ground (arith, status_beq_iff r.status p.from_status)))

-- A Delivery that has been `sending` for longer than the threshold comes back: a reclaim whose page,
-- of fewer than 2 ^ 31 rows, the pool does not fill, and that finds no row locked, returns it
-- scheduled, without a claim and with one more attempt.
pub stranded_comes_back :
    (now at : ℤ) (older_than max : ℕ) (rows : List Row) (r : Row)
    → In rows r
    → length rows ≤ max
    → max < 2 ^ 31
    → r.status ≡ sending
    → r.claimed_at ≡ some at
    → ltb_ℤ at (now -ℤ interval_of older_than) ≡ true
    → (c : Claimed) × (reclaim (λ _. false) now for_dispatch older_than max rows ≡ some c)
      × In c.returned (record r {
        status = scheduled;
        claimed_at = none;
        send_attempts_cnt = r.send_attempts_cnt + 1;
      })
unfolding reclaim reclaim_target with_limit reclaim_stranded reclaim_params hand_back
stranded_comes_back now at older_than max rows r m fits small s a old =
    let p = reclaim_params dispatch_target older_than max in
    (
      reclaim_stranded (λ _. false) now p rows,
      rw (int32_of-small max small, with_limit) refl,
      In-returned (stranded (λ _. false) now p) (hand_back p) max rows r fits m
          (qualifies now at p r s a old),
    )
