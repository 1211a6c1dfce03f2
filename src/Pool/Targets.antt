-- ===== src/Pool/Targets.antt =====
-- The kinds of reclaim: `reclaimTargets` of internal/db/delivery_repo.go.
use kannon.Base.{
  ℕ, ◌≡◌, ◌≤◌, ◌<◌, ◌%◌, ◌^◌, refl, ◌⊎◌, Bool, true, false, Option, none, some, List, arith, nat_eq,
}
use kannon.Base.Int.{ℤ, pos, negsuc}
use kannon.Storage.{int32_of}
use kannon.Pool.{Row, Claimed, sending, scheduled, validating, to_validate, reclaim_stranded}
use kannon.Pool.Repository.{
  InFlight, ReclaimTarget, for_dispatch, for_validation, with_limit, reclaim, reclaim_target,
  reclaim_params,
}

abbrev pub dispatch_target : ReclaimTarget
dispatch_target = record { from_status = sending; to_status = scheduled; bump_attempts = true }

abbrev pub validation_target : ReclaimTarget
validation_target = record {
  from_status = validating;
  to_status = to_validate;
  bump_attempts = false;
}

-- Each kind of claim has its target.
pub target_cases :
    (f : InFlight) (t : ReclaimTarget)
    → reclaim_target f ≡ some t
    → ((f ≡ for_dispatch) × (t ≡ dispatch_target))
      ⊎ ((f ≡ for_validation) × (t ≡ validation_target))
unfolding reclaim_target
target_cases f t e = ground arith

with_limit-some :
    (claim : ℕ → Claimed) (limit : ℤ) (c : Claimed)
    → with_limit claim limit ≡ some c
    → (n : ℕ) × (limit ≡ pos n) × (c ≡ claim n)
unfolding with_limit
with_limit-some claim (pos n) c e = (n, refl, ground arith)
with_limit-some claim (negsuc n) c e = absurd (ground arith)

-- A limit that an int32 holds is the one that was asked for, and a smaller one otherwise.
int32_of-limit : (max n : ℕ) → int32_of max ≡ pos n → n ≤ max
unfolding int32_of
int32_of-limit max n e = let same : max % 2 ^ 32 ≡ n = ground arith in omega (arith, same)

pub int32_of-small : (n : ℕ) → n < 2 ^ 31 → int32_of n ≡ pos n
unfolding int32_of
int32_of-small n lt = let same : n % 2 ^ 32 ≡ n = omega (arith, lt) in ground (arith, same, lt)

-- A reclaim that is not refused is the statement, with the target of its kind and a limit that is
-- not above `max`.
pub reclaim_cases :
    (locked : Row → Bool) (now : ℤ) (f : InFlight) (older_than max : ℕ) (rows : List Row)
    (c : Claimed)
    → reclaim locked now f older_than max rows ≡ some c
    → (t : ReclaimTarget) × (n : ℕ) × (reclaim_target f ≡ some t)
      × (n ≤ max)
      × (c ≡ reclaim_stranded locked now (reclaim_params t older_than n) rows)
unfolding reclaim
reclaim_cases locked now f older_than max rows c e = go (reclaim_target f) refl
  where
    go :
        (o : Option ReclaimTarget)
        → reclaim_target f ≡ o
        → (t : ReclaimTarget) × (n : ℕ) × (reclaim_target f ≡ some t)
          × (n ≤ max)
          × (c ≡ reclaim_stranded locked now (reclaim_params t older_than n) rows)
    go none k = absurd (ground arith)
    go (some t) k =
        let (n, limit, same) =
          with_limit-some (λ x. reclaim_stranded locked now (reclaim_params t older_than x) rows)
            (int32_of max) c (rw (k, reclaim) at e) in
        (t, n, k, int32_of-limit max n limit, same)
