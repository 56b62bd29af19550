-- ===== src/Connection/Examples.antt =====
-- Five attempts of which the third connects, and five that fail.
use self_evaluating_trading.Common.{
  ℕ, zero, suc, ◌≡◌, refl, arith, true, Option, none, some, is_some, ◌<◌, ◌++◌, String,
}
use self_evaluating_trading.Floating.Fixed.{Fixed, fixed_floating}
use self_evaluating_trading.Connection.{SupervisorConfig, Ending, run_once_until_connected}
use self_evaluating_trading.Connection.Attempts.{sleeps, callbacks, run_connects, run_fails}

abbrev num : ℕ → Fixed
num n = fixed_floating.lit n 0

abbrev config : SupervisorConfig Fixed
config = record { max_attempts = 5; initial_backoff = num 1; max_backoff = num 30 }

abbrev draw : ℕ → Fixed → Fixed → Fixed
draw n a b = b

abbrev third : ℕ → Option String
third zero = some "timeout"
third (suc zero) = some "refused"
third (suc (suc n)) = none

abbrev never : ℕ → Option String
never n = some "timeout"

abbrev quiet : Option (Option String)
quiet = some none

run_connects_example : run_once_until_connected draw config third quiet 0 ≡ record {
  ending = Ending.connected;
  attempts = 3;
  acts = sleeps draw config third quiet 2 ++ callbacks 2 quiet;
}
run_connects_example =
    run_connects draw config third quiet 2 0 (omega arith) fails refl (omega arith)
  where
    fails : (j : ℕ) → j < 2 → is_some (third j) ≡ true
    fails zero h = refl
    fails (suc zero) h = refl
    fails (suc (suc n)) h = absurd (omega arith)

run_fails_example : run_once_until_connected draw config never none 0 ≡ record {
  ending = Ending.raised "timeout";
  attempts = 5;
  acts = sleeps draw config never none 4;
}
run_fails_example =
    run_fails draw config never none 0 "timeout" (λ j h. refl) refl (omega arith) (omega arith)
