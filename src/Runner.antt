-- ===== src/Runner.antt =====
-- internal/runner/runner.go: the loop that a worker runs in.
pub mod Limits
use kannon.Base.{
  ℕ, zero, suc, ◌+◌, ◌%◌, Bool, true, false, ◌&&◌, Option, none, some, List, [], ◌∷◌, leb,
}
use kannon.Base.Int.{ℤ, pos}
use kannon.Delivery.Backoff.{word}

pub record MaxLoops : Type 0 where
  pub has_limit : Bool
  pub max_loop : ℕ

-- `runOpts`; a wait is a number of nanoseconds
pub record Opts : Type 0 where
  pub max_loops : MaxLoops
  pub loop_wait : ℤ

-- `RunOpts`, as `MaxLoop` and `WaitLoop` make them
pub data RunOpts : Type 0 where
  max_loop : ℕ → RunOpts
  wait_loop : ℤ → RunOpts

unfoldable pub configure_runner : RunOpts → Opts → Opts
configure_runner (max_loop n) o = record o { max_loops = record { has_limit = true; max_loop = n } }
configure_runner (wait_loop wait) o = record o { loop_wait = wait }

-- the loop of `buildOptions`, where `none` is a nil option
unfoldable pub configure_all : List (Option RunOpts) → Opts → Opts
configure_all [] o = o
configure_all (none ∷ opts) o = configure_all opts o
configure_all (some opt ∷ opts) o = configure_all opts (configure_runner opt o)

-- `buildOptions`
unfoldable pub build_options : List (Option RunOpts) → Opts
build_options opts =
    configure_all opts
      (record { max_loops = record { has_limit = false; max_loop = 0 }; loop_wait = pos 100000000 })

-- `checkExit`
unfoldable pub check_exit : ℕ → Opts → Bool
check_exit runs o = o.max_loops.has_limit && leb o.max_loops.max_loop runs

-- what became of a run: the fuel ran out, or it returned
pub data Run (E : Type 0) : Type 0 where
  running : Run E
  returned : Option E → Run E

-- What a run does to a world: the loop, which may fail, and the wait for the time that it is given,
-- which the end of the context may cut short.
module _ {W E : Type 0} (loop : W → W × Option E) (wait : ℤ → W → W × Option E) where
  -- the part of the loop of `Run` after the wait, and what runs next
  unfoldable pub after_wait : (W → W × Run E) → W × Option E → W × Run E
  after_wait next (w, some e) = (w, returned (some e))
  after_wait next (w, none) = next w

  -- the part after the call of the loop, which makes so many runs
  unfoldable pub after_loop : Opts → ℕ → (W → W × Run E) → W × Option E → W × Run E
  after_loop o runs next (w, some e) = (w, returned (some e))
  after_loop o runs next (w, none) = elim (check_exit runs o) [
    | true ↦ (w, returned none)
    | false ↦ after_wait next (wait o.loop_wait w)
  ]

  -- the loop of `Run` after so many runs
  unfoldable pub run : ℕ → Opts → ℕ → W → W × Run E
  run zero o runs w = (w, running)
  run (suc fuel) o runs w =
      after_loop o ((runs + 1) % word) (run fuel o ((runs + 1) % word)) (loop w)

  -- `Run` with options
  unfoldable pub run_with : ℕ → List (Option RunOpts) → W → W × Run E
  run_with fuel opts w = run fuel (build_options opts) 0 w
