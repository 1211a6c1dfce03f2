-- ===== src/Delivery/Backoff.antt =====
-- internal/delivery/backoff.go: the wait before a retry.
use kannon.Base.{ℕ, ◌+◌, ◌-◌, ◌*◌, ◌%◌, ◌^◌, ltb, if◌then◌else◌}
use kannon.Base.Int.{ℤ, pos, negsuc, pos_part, neg_part, ltb_ℤ}

abbrev pub minute : ℕ
minute = 60_000_000_000

abbrev pub hour : ℕ
hour = 3_600_000_000_000

abbrev pub word : ℕ
word = 2 ^ 64

-- the int64 that a 64-bit pattern stands for
unfoldable pub int64_of : ℕ → ℤ
int64_of w = if ltb w (2 ^ 63) then pos w else negsuc (word - 1 - w)

-- the 64-bit pattern of an integer
unfoldable pub bits_of : ℤ → ℕ
bits_of z = (pos_part z + (word - neg_part z % word)) % word

-- The interface has one implementation. The conversion to int64 of a float that does not fit is the
-- processor's, so it is a field: what each
-- number of attempts past 62 gives, of which nothing is assumed.
pub record BackoffPolicy : Type 0 where
  pub base : ℤ
  pub min : ℤ
  pub overflowed : ℕ → ℤ

-- `time.Duration(math.Pow(2, float64(attempts)))`: a power of two is exact as a float64, and fits
-- an int64 below 2 ^ 63
unfoldable pub power : BackoffPolicy → ℕ → ℤ
power e attempts = if ltb attempts 63 then pos (2 ^ attempts) else e.overflowed attempts

-- the product of two int64 wraps
unfoldable pub int64_mul : ℤ → ℤ → ℤ
int64_mul a b = int64_of (bits_of a * bits_of b % word)

-- `Delay`
unfoldable pub delay : BackoffPolicy → ℕ → ℤ
delay e attempts =
    let wait = int64_mul e.base (power e attempts) in if ltb_ℤ wait e.min then e.min else wait

-- `DefaultBackoff`
unfoldable pub default_backoff : (ℕ → ℤ) → BackoffPolicy
default_backoff overflowed = record {
  base = pos (2 * minute);
  min = pos (5 * minute);
  overflowed = overflowed;
}
