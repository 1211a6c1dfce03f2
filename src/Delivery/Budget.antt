-- ===== src/Delivery/Budget.antt =====
-- How long a Delivery goes on being tried: `CanRetry` of internal/delivery/delivery.go.
use native.Mathlib.Nat.{pow-succ', one-le-pow, mod-eq_of_lt}
use kannon.Base.{
  ℕ, zero, suc, ◌+◌, ◌*◌, ◌^◌, ◌≤◌, ◌<◌, ◌≡◌, refl, sym, ap, ◌∙◌, inl, inr, Bool, true, not, ◌&&◌,
  arith, ltb, nat_eq, nat_beq, nat_beq_iff, Bool-cases, and-true, if◌then◌else◌,
}
use kannon.Base.Int.{ℤ, pos, ltb_ℤ, +ℤ_parts}
use kannon.Delivery.{Delivery, next_retry_at, can_retry, default_retry_window}
use kannon.Delivery.Backoff.{
  BackoffPolicy, delay, power, bits_of, int64_of, int64_mul, default_backoff,
}

-- Whether a Delivery may be tried again depends on its backoff, its attempts and its budget alone,
-- not on when it was scheduled: the next wait must be shorter than the budget.
pub can_retry_lem :
    (d : Delivery) → can_retry d ≡ ltb_ℤ (delay d.backoff d.send_attempts) d.retry_window
unfolding can_retry next_retry_at
can_retry_lem d = ground (
  arith,
  +ℤ_parts d.original_scheduled_time (delay d.backoff d.send_attempts),
  +ℤ_parts d.original_scheduled_time d.retry_window,
)

bits_of_small : (n : ℕ) → n < 2 ^ 64 → bits_of (pos n) ≡ n
unfolding bits_of
bits_of_small n h = omega arith

int64_of_small : (w : ℕ) → w < 2 ^ 63 → int64_of w ≡ pos w
unfolding int64_of
int64_of_small w h = ground arith

int64_mul_small :
    (a b : ℕ) → a < 2 ^ 64 → b < 2 ^ 64 → a * b < 2 ^ 63 → int64_mul (pos a) (pos b) ≡ pos (a * b)
unfolding int64_mul
int64_mul_small a b ha hb h =
    rw (bits_of_small a ha)
      (rw (bits_of_small b hb) (rw (mod-eq_of_lt (lt_word (a * b) h)) (int64_of_small (a * b) h)))
  where
    lt_word : (x : ℕ) → x < 2 ^ 63 → x < 2 ^ 64
    lt_word x k = omega arith

delay_of :
    (e : BackoffPolicy) (m w n : ℕ)
    → e.min ≡ pos m
    → int64_mul e.base (power e n) ≡ pos w
    → delay e n ≡ (if ltb w m then pos m else pos w)
unfolding delay
delay_of e m w n em ew = ground arith

power_small : (e : BackoffPolicy) (n : ℕ) → n < 63 → power e n ≡ pos (2 ^ n)
unfolding power
power_small e n h = ground arith

factor_bounds : (b p : ℕ) → 0 < b → 1 ≤ p → b * p < 2 ^ 63 → (b < 2 ^ 64) × (p < 2 ^ 64)
factor_bounds b p hb hp h = grind arith

-- As long as the product of the base and 2 ^ attempts fits an int64, the wait is that product, or
-- the floor where that is longer.
pub delay_doubles :
    (e : BackoffPolicy) (b m n : ℕ)
    → e.base ≡ pos b
    → e.min ≡ pos m
    → n < 63
    → 0 < b
    → b * 2 ^ n < 2 ^ 63
    → delay e n ≡ (if ltb (b * 2 ^ n) m then pos m else pos (b * 2 ^ n))
delay_doubles e b m n eb em small positive fits =
    let (hb, hp) = factor_bounds b (2 ^ n) positive (one-le-pow n 2 (omega arith)) fits in
    delay_of e m (b * 2 ^ n) n em (
      ap (λ (z : ℤ). int64_mul z (power e n)) eb
      ∙ (ap (int64_mul (pos b)) (power_small e n small) ∙ int64_mul_small b (2 ^ n) hb hp fits))

double_power : (n b : ℕ) → b * 2 ^ (n + 1) ≡ 2 * (b * 2 ^ n)
double_power n b = rw (add_one n) (rw (pow-succ' 2 n) (grind arith))
  where
    add_one : (k : ℕ) → k + 1 ≡ suc k
    add_one k = omega arith

half_fits : (x y : ℕ) → y ≡ 2 * x → y < 2 ^ 63 → x < 2 ^ 63
half_fits x y e h = omega arith

shorter_wait :
    (u v w : ℤ) (x y m : ℕ)
    → u ≡ (if ltb x m then pos m else pos x)
    → v ≡ (if ltb y m then pos m else pos y)
    → y ≡ 2 * x
    → ltb_ℤ v w ≡ true
    → ltb_ℤ u w ≡ true
shorter_wait u v w x y m eu ev e h = ground arith

-- Within that range a Delivery that may not be tried again stays so: if it may be tried after one
-- more attempt, it may be tried now.
pub can_retry_once_spent :
    (d : Delivery) (b m : ℕ)
    → d.backoff.base ≡ pos b
    → d.backoff.min ≡ pos m
    → d.send_attempts + 1 < 63
    → 0 < b
    → b * 2 ^ (d.send_attempts + 1) < 2 ^ 63
    → can_retry (record d { send_attempts = d.send_attempts + 1 }) ≡ true
    → can_retry d ≡ true
can_retry_once_spent d b m eb em small positive fits h =
    let half = double_power d.send_attempts b in
    let fits_now = half_fits (b * 2 ^ d.send_attempts) (b * 2 ^ (d.send_attempts + 1)) half fits in
    can_retry_lem d
    ∙ shorter_wait (delay d.backoff d.send_attempts) (delay d.backoff (d.send_attempts + 1))
        d.retry_window (b * 2 ^ d.send_attempts) (b * 2 ^ (d.send_attempts + 1)) m
        (delay_doubles d.backoff b m d.send_attempts eb em (omega arith) positive fits_now)
        (delay_doubles d.backoff b m (d.send_attempts + 1) eb em small positive fits) half
        (sym (can_retry_lem (record d { send_attempts = d.send_attempts + 1 })) ∙ h)

-- A test that passes at each of a run of numbers
unfoldable run_passes : (ℕ → Bool) → ℕ → ℕ → Bool
run_passes f lo zero = true
run_passes f lo (suc k) = f lo && run_passes f (suc lo) k

run_passes_lem :
    (f : ℕ → Bool) (lo k : ℕ)
    → run_passes f lo k ≡ true
    → (n : ℕ) → lo ≤ n
    → n < lo + k
    → f n ≡ true
unfolding run_passes
run_passes_lem f lo zero h n low high = absurd (lt_self lo n low high)
  where
    lt_self : (a b : ℕ) → a ≤ b → b < a + 0 → ⊥
    lt_self a b p q = omega arith
run_passes_lem f lo (suc k) h n low high = elim (Bool-cases (nat_beq lo n)) [
  | inl e ↦ ap f (sym ((nat_beq_iff lo n).0 e)) ∙ (and-true (f lo) (run_passes f (suc lo) k) h).0
  | inr ne ↦
      run_passes_lem f (suc lo) k (and-true (f lo) (run_passes f (suc lo) k) h).1 n
        (ground (arith, nat_beq_iff lo n)) (omega arith)
]

abbrev same : Bool → Bool → Bool
same a b = if a then b else not b

same_lem : (a b : Bool) → same a b ≡ true → a ≡ b
same_lem a b h = ground arith

-- the default curve and budget, at a number of attempts
module _ (overflowed : ℕ → ℤ) where
  abbrev default_retries : ℕ → Bool
  default_retries n = ltb_ℤ (delay (default_backoff overflowed) n) default_retry_window

  default_retries_lem :
      (d : Delivery)
      → d.backoff ≡ default_backoff overflowed
      → d.retry_window ≡ default_retry_window
      → can_retry d ≡ default_retries d.send_attempts
  default_retries_lem d eb ew = rw (can_retry_lem d) (rw eb (rw ew refl))

  early : run_passes (λ n. same (default_retries n) (ltb n 10)) 0 27 ≡ true
  unfolding run_passes delay power int64_mul int64_of bits_of default_backoff
  early = refl

  wrapped : run_passes default_retries 52 11 ≡ true
  unfolding run_passes delay power int64_mul int64_of bits_of default_backoff
  wrapped = refl

-- Under the default backoff and budget a Delivery of fewer than 27 attempts may be tried again
-- exactly when it has fewer than ten.
pub default_budget :
    (overflowed : ℕ → ℤ) (d : Delivery)
    → d.backoff ≡ default_backoff overflowed
    → d.retry_window ≡ default_retry_window
    → d.send_attempts < 27
    → can_retry d ≡ ltb d.send_attempts 10
default_budget overflowed d eb ew small =
    default_retries_lem overflowed d eb ew
    ∙ same_lem (default_retries overflowed d.send_attempts) (ltb d.send_attempts 10) (
        run_passes_lem (λ n. same (default_retries overflowed n) (ltb n 10)) 0 27 (early overflowed)
          d.send_attempts (omega arith) small)

-- Under the default backoff and budget a Delivery of 52 to 62 attempts may be tried again.
pub default_budget_wraps :
    (overflowed : ℕ → ℤ) (d : Delivery)
    → d.backoff ≡ default_backoff overflowed
    → d.retry_window ≡ default_retry_window
    → 52 ≤ d.send_attempts
    → d.send_attempts < 63
    → can_retry d ≡ true
default_budget_wraps overflowed d eb ew low high =
    default_retries_lem overflowed d eb ew
    ∙ run_passes_lem (default_retries overflowed) 52 11 (wrapped overflowed) d.send_attempts low
        (omega arith)
