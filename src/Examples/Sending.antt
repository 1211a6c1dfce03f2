-- ===== src/Examples/Sending.antt =====
-- The retries and the pool at concrete inputs: internal/delivery and internal/db.
use kannon.Base.{
  ℕ, ◌+◌, ◌-◌, ◌*◌, ◌^◌, ◌≤◌, ◌≡◌, refl, ◌⊎◌, inl, Bool, true, false, none, some, List, [], ◌∷◌,
  Text, text, All, In, any, length, list_beq, nat_eq, list_eq, arith,
}
use kannon.Base.Int.{ℤ, pos, negsuc, ◌-ℤ◌}
use kannon.Tracking.{no_policy}
use kannon.Delivery.{Delivery, can_retry, default_retry_window}
use kannon.Delivery.Backoff.{default_backoff, minute, hour}
use kannon.Delivery.Budget.{default_budget_wraps}
use kannon.Pool.{
  Row, Claimed, scheduled, sending, status_beq, status_no, has_key, due, claim_for_send,
  prepare_for_send, prepare_for_validate, update_limit, take_row, keep_row, stranded,
  claimed_before, hand_back, reclaim_stranded, insertable, copy_rows,
}
use kannon.Pool.Repository.{
  Repository, reclaim, reclaim_target, reclaim_params, interval_of, for_dispatch, for_validation,
  with_limit, schedule, new_row,
}
use kannon.Storage.{int32_of}
use kannon.Pool.Targets.{dispatch_target, validation_target}
use kannon.Pool.Keys.{
  Reachable, empty, next, inserted, claimed_for_validation, UniqueKeys, Reachable-UniqueKeys,
}
use kannon.Pool.Held.{IsHeld, Reachable-IsHeld}
use kannon.Pool.Claims.{
  IsDispatched, prepare_for_send-IsDispatched, SameKey, prepare_for_send_exclusive,
}
use kannon.Pool.Reclaiming.{IsTaken, reclaim-IsReclaimed, IsTaken, stranded_comes_back}

abbrev pub no_overflow : ℕ → ℤ
no_overflow n = negsuc (2 ^ 63 - 1)

-- a Delivery of the default policy after some attempts
abbrev pub tried : ℕ → Delivery
tried n = record {
  batch_id = text "msg_1";
  email = text "ann@acme.test";
  fields = [];
  send_attempts = n;
  domain = text "acme.test";
  scheduled_time = pos (100 * hour);
  original_scheduled_time = pos (100 * hour);
  backoff = record { base = pos (2 * minute); min = pos (5 * minute); overflowed = no_overflow };
  retry_window = default_retry_window;
  tracking = no_policy;
}

default_budget_wraps_example : can_retry (tried 60) ≡ true
unfolding default_backoff
default_budget_wraps_example =
    default_budget_wraps no_overflow (tried 60) refl refl (omega arith) (omega arith)

-- rows of the pool
abbrev pub row : Text → ℕ → Row
row email n = record {
  scheduled_time = pos 1000;
  original_scheduled_time = pos 1000;
  send_attempts_cnt = n;
  email = email;
  message_id = text "msg_1";
  fields = [];
  status = scheduled;
  domain = text "acme.test";
  tracking = no_policy;
  claimed_at = none;
}

abbrev pub ann : Row
ann = row (text "ann@acme.test") 0

abbrev pub bob : Row
bob = row (text "bob@acme.test") 0

abbrev claimed_ann : Row
claimed_ann = record ann { status = sending; claimed_at = some (pos 5000) }

abbrev claimed_bob : Row
claimed_bob = record bob { status = sending; claimed_at = some (pos 6000) }

abbrev pub free : Row → Bool
free r = false

prepare_for_send-IsDispatched_example :
    (length (prepare_for_send free (pos 5000) 1 (ann ∷ bob ∷ [])).returned ≤ 1)
    × All
        (IsDispatched (pos 5000) (ann ∷ bob ∷ []))
        (prepare_for_send free (pos 5000) 1 (ann ∷ bob ∷ [])).returned
prepare_for_send-IsDispatched_example =
    prepare_for_send-IsDispatched free (pos 5000) 1 (ann ∷ bob ∷ [])

two-UniqueKeys : UniqueKeys (ann ∷ bob ∷ [])
unfolding any has_key list_beq
two-UniqueKeys = (refl, (refl, tt))

first_claim : In (prepare_for_send free (pos 5000) 1 (ann ∷ bob ∷ [])).returned claimed_ann
unfolding prepare_for_send due update_limit take_row keep_row status_beq status_no claim_for_send
first_claim = inl refl

second_claim :
    In
      (prepare_for_send free
        (pos 6000)
        1
        (prepare_for_send free (pos 5000) 1 (ann ∷ bob ∷ [])).table).returned
      claimed_bob
unfolding prepare_for_send due update_limit take_row keep_row status_beq status_no claim_for_send
second_claim = inl refl

prepare_for_send_exclusive_example : ¬ SameKey claimed_ann claimed_bob
prepare_for_send_exclusive_example =
    prepare_for_send_exclusive free free (pos 5000) (pos 6000) 1 1 (ann ∷ bob ∷ []) claimed_ann
      claimed_bob two-UniqueKeys first_claim second_claim

-- the repository of the default policy, which keeps the instants that it is given
abbrev pub default_repo : Repository
default_repo = record {
  backoff =
      some (record { base = pos (2 * minute); min = pos (5 * minute); overflowed = no_overflow });
  retry_window = default_retry_window;
  overflowed = no_overflow;
  stored = λ t. t;
}

-- one Delivery is inserted and, later, claimed
abbrev pool_after : List Row
pool_after = (prepare_for_validate free (pos 5000) 20 (new_row default_repo (tried 0) ∷ [])).table

inserted_one :
    schedule default_repo (λ m. true) (tried 0 ∷ []) [] ≡ some (new_row default_repo (tried 0) ∷ [])
unfolding schedule copy_rows insertable any new_row
inserted_one = refl

pool_after-Reachable : Reachable pool_after
pool_after-Reachable =
    next (next empty (inserted default_repo (λ m. true) (tried 0 ∷ []) inserted_one))
      (claimed_for_validation free (pos 5000) 20)

Reachable-UniqueKeys_example : UniqueKeys pool_after
Reachable-UniqueKeys_example = Reachable-UniqueKeys pool_after-Reachable

Reachable-IsHeld_example : All IsHeld pool_after
Reachable-IsHeld_example = Reachable-IsHeld pool_after-Reachable

abbrev stranded_pool : List Row
stranded_pool = claimed_ann ∷ []

abbrev long_after : ℤ
long_after = pos (5000 + 2 * hour)

stranded_comes_back_example :
    (c : Claimed) × (reclaim (λ _. false) long_after for_dispatch hour 1000 stranded_pool ≡ some c)
    × In c.returned (record claimed_ann {
      status = scheduled;
      claimed_at = none;
      send_attempts_cnt = claimed_ann.send_attempts_cnt + 1;
    })
unfolding interval_of ◌-ℤ◌
stranded_comes_back_example =
    stranded_comes_back long_after (pos 5000) hour 1000 stranded_pool claimed_ann (inl refl)
      (omega arith) (omega arith) refl refl refl

abbrev taken_back : Claimed
taken_back = record {
  table = record ann { send_attempts_cnt = 1 } ∷ [];
  returned = record ann { send_attempts_cnt = 1 } ∷ [];
}

reclaimed_now : reclaim free long_after for_dispatch hour 1000 stranded_pool ≡ some taken_back
unfolding reclaim reclaim_target with_limit int32_of reclaim_params reclaim_stranded stranded
    claimed_before hand_back update_limit take_row keep_row status_beq status_no interval_of ◌-ℤ◌
reclaimed_now = refl

reclaim-IsReclaimed_example :
    (length taken_back.returned ≤ 1000)
    × (((for_dispatch ≡ for_dispatch)
          × IsTaken free long_after hour stranded_pool dispatch_target taken_back)
        ⊎ ((for_dispatch ≡ for_validation)
            × IsTaken free long_after hour stranded_pool validation_target taken_back))
reclaim-IsReclaimed_example =
    reclaim-IsReclaimed free long_after hour stranded_pool for_dispatch 1000 taken_back
      reclaimed_now
