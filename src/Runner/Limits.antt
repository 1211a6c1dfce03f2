-- ===== src/Runner/Limits.antt =====
-- internal/runner/runner.go: runs with a limit.
use kannon.Base.{
  ℕ, zero, suc, ◌+◌, ◌≤◌, ◌<◌, ◌%◌, ◌-◌, true, false, Option, none, some, List, ◌≡◌, refl, arith,
}
use kannon.Base.Int.{ℤ}
use kannon.Delivery.Backoff.{word}
use kannon.Runner.{
  Opts, Run, returned, RunOpts, build_options, check_exit, after_wait, after_loop, run, run_with,
}

-- What a run returns that stops by itself.
unfoldable pub ended : {W E : Type 0} → W × Option E → W × Run E
ended (w, e) = (w, returned e)

module _ {W E : Type 0} (loop : W → W × Option E) (wait : ℤ → W → W × Option E) where
  -- a pass after the first: the wait and the loop
  unfoldable pub then_loop : W × Option E → W × Option E
  then_loop (w, some e) = (w, some e)
  then_loop (w, none) = loop w

  unfoldable pub then_wait : ℤ → W × Option E → W × Option E
  then_wait d (w, some e) = (w, some e)
  then_wait d (w, none) = wait d w

  -- as many more passes, each a wait and the loop, up to the first that fails
  unfoldable pub passes : ℕ → ℤ → W × Option E → W × Option E
  passes zero d r = r
  passes (suc n) d r = passes n d (then_loop (then_wait d r))

  passes-failed : (n : ℕ) (d : ℤ) (w : W) (e : E) → passes n d (w, some e) ≡ (w, some e)
  unfolding passes then_loop then_wait
  passes-failed zero d w e = refl
  passes-failed (suc n) d w e = passes-failed n d w e

  module _ (o : Opts) (limited : o.max_loops.has_limit ≡ true) where
    check_exit-last : (runs : ℕ) → 0 ≡ o.max_loops.max_loop - runs → check_exit runs o ≡ true
    unfolding check_exit
    check_exit-last runs e = rw limited (ground (arith, e))

    check_exit-more : (k runs : ℕ) → suc k ≡ o.max_loops.max_loop - runs → check_exit runs o ≡ false
    unfolding check_exit
    check_exit-more k runs e = rw limited (ground (arith, e))

    run-passes :
        (k fuel runs : ℕ) (w : W)
        → suc k ≤ fuel
        → runs + 1 + k < word
        → k ≡ o.max_loops.max_loop - (runs + 1)
        → run loop wait fuel o runs w ≡ ended (passes k o.loop_wait (loop w))
    unfolding run after_loop after_wait passes then_loop then_wait ended
    run-passes k zero runs w le lt left = absurd (ground arith)
    run-passes zero (suc fuel) runs w le lt left = rw counted (go (loop w))
      where
        counted : (runs + 1) % word ≡ runs + 1
        counted = omega (arith, lt)

        go :
            (r : W × Option E)
            → after_loop loop wait o (runs + 1) (run loop wait fuel o (runs + 1)) r ≡ ended r
        go (v, some e) = refl
        go (v, none) = rw (after_loop, check_exit-last (runs + 1) left) refl
    run-passes (suc k) (suc fuel) runs w le lt left = rw counted (
        go
          (λ v.
            run-passes k fuel (runs + 1) v (omega (arith, le)) (omega (arith, lt))
              (omega (arith, left)))
          (loop w))
      where
        counted : (runs + 1) % word ≡ runs + 1
        counted = omega (arith, lt)

        next :
            ((v : W) → run loop wait fuel o (runs + 1) v ≡ ended (passes k o.loop_wait (loop v)))
            → (r : W × Option E)
            → after_wait loop wait (run loop wait fuel o (runs + 1)) r
              ≡ ended (passes k o.loop_wait (then_loop r))
        next later (v, some e) = rw (passes-failed k o.loop_wait v e) refl
        next later (v, none) = later v

        go :
            ((v : W) → run loop wait fuel o (runs + 1) v ≡ ended (passes k o.loop_wait (loop v)))
            → (r : W × Option E)
            → after_loop loop wait o (runs + 1) (run loop wait fuel o (runs + 1)) r
              ≡ ended (passes k o.loop_wait (then_loop (then_wait o.loop_wait r)))
        go later (v, some e) = rw (passes-failed k o.loop_wait v e) refl
        go later (v, none) =
            rw (after_loop, check_exit-more k (runs + 1) left) (next later (wait o.loop_wait v))

-- A run that is limited to a number of loops that fits a uint returns, at the latest after as many
-- loops, or one where the number is 0: it makes the loop and then one pass for each further one, a
-- wait and the loop, and stops at the first that fails; more fuel than that changes nothing.
pub run_with_lem :
    {W E : Type 0} (loop : W → W × Option E) (wait : ℤ → W → W × Option E)
    (opts : List (Option RunOpts)) (fuel : ℕ) (w : W)
    → (build_options opts).max_loops.has_limit ≡ true
    → (build_options opts).max_loops.max_loop < word
    → 1 ≤ fuel
    → (build_options opts).max_loops.max_loop ≤ fuel
    → run_with loop wait fuel opts w
      ≡ ended (
          passes loop wait
            ((build_options opts).max_loops.max_loop - 1)
            (build_options opts).loop_wait
            (loop w))
unfolding run_with
run_with_lem loop wait opts fuel w limited fits some_fuel enough =
    run-passes loop wait (build_options opts) limited ((build_options opts).max_loops.max_loop - 1)
      fuel 0 w (omega (arith, some_fuel, enough)) (omega (arith, fits)) (omega arith)
