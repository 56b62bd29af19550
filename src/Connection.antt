-- ===== src/Connection.antt =====
-- src/application/services/connection_supervisor.py: the attempts to connect, with their waits. The
-- operation `connect` and the callback `on_reconnect` are parameters: what each attempt ends in, by its
-- number, and what the callback ends in, `none` where it raises nothing. `random.uniform` is a
-- parameter. What the supervisor does to its surroundings is written down as a list. `delay_for` raises an
-- `OverflowError` from the attempt 1024 on, since 2 ** 1024 is no `float`: there it is `none`.
pub mod Attempts
mod Examples
use self_evaluating_trading.Common.{
  ℕ, zero, suc, ◌-◌, ◌^◌, Bool, true, false, ltb, Option, none, some, List, [], ◌∷◌, ◌++◌,
  if◌then◌else◌,
}
use self_evaluating_trading.Floating.{Floating, of_int, min}

pub record SupervisorConfig (F : Type 0) : Type 0 where
  pub max_attempts : ℕ
  pub initial_backoff : F
  pub max_backoff : F

pub data Act (F : Type 0) : Type 0 where
  sleep : F → Act F
  reconnected : Act F

-- The `AssertionError` is that of `assert last_error is not None`, the `OverflowError` that of a wait.
pub data Ending (E : Type 0) : Type 0 where
  connected : Ending E
  raised : E → Ending E
  assertion_error overflow_error : Ending E

-- How the method ends, `attempts` as it leaves it, and what it did.
pub record Session (E F : Type 0) : Type 0 where
  pub ending : Ending E
  pub attempts : ℕ
  pub acts : List (Act F)

module _ {F : Type 0} ⦃fl : Floating F⦄ (uniform : ℕ → F → F → F)
    (config : SupervisorConfig F) where
  -- The draw is told the attempt, since each call of `random.uniform` may give another value.
  unfoldable pub delay_for : ℕ → Option F
  delay_for attempt =
      let raw = min (fl.mul config.initial_backoff (of_int (2 ^ attempt))) config.max_backoff in
      let delay =
        min (fl.add raw (uniform attempt (of_int 0) (fl.mul raw (fl.lit 1 1))))
          config.max_backoff in
      if ltb attempt 1024 then some delay else none

  -- The wait after a failed attempt, unless it was the last one.
  abbrev pub sleep_for : Option F → Option (List (Act F))
  sleep_for none = none
  sleep_for (some delay) = some (Act.sleep delay ∷ [])

  unfoldable pub waits : ℕ → Option (List (Act F))
  waits attempt =
      if ltb attempt (config.max_attempts - 1) then sleep_for (delay_for attempt) else some []

module _ {E F : Type 0} where
  -- The callback after a connection that was not the first attempt.
  unfoldable pub after_connect : Bool → Option (Option E) → ℕ → List (Act F) → Session E F
  after_connect false hook attempts acts = record {
    ending = Ending.connected;
    attempts = attempts;
    acts = acts;
  }
  after_connect true none attempts acts = record {
    ending = Ending.connected;
    attempts = attempts;
    acts = acts;
  }
  after_connect true (some none) attempts acts = record {
    ending = Ending.connected;
    attempts = attempts;
    acts = acts ++ (Act.reconnected ∷ []);
  }
  after_connect true (some (some e)) attempts acts = record {
    ending = Ending.raised e;
    attempts = attempts;
    acts = acts ++ (Act.reconnected ∷ []);
  }

  -- After the loop: the last error is raised.
  unfoldable pub exhausted : Option E → ℕ → List (Act F) → Session E F
  exhausted none attempts acts = record {
    ending = Ending.assertion_error;
    attempts = attempts;
    acts = acts;
  }
  exhausted (some e) attempts acts = record {
    ending = Ending.raised e;
    attempts = attempts;
    acts = acts;
  }

module _ {E F : Type 0} ⦃fl : Floating F⦄ (uniform : ℕ → F → F → F) (config : SupervisorConfig F)
    (connect : ℕ → Option E) (on_reconnect : Option (Option E)) where
  -- One attempt, by what `connect` ends in.
  unfoldable pub tried : (E → Session E F) → Bool → ℕ → List (Act F) → Option E → Session E F
  tried next failed attempt acts (some e) = next e
  tried next failed attempt acts none = after_connect failed on_reconnect (suc attempt) acts

  -- After a failed attempt: the wait, and the rounds that are left. A wait that raises ends the method.
  unfoldable pub waited :
      (List (Act F) → Session E F) → ℕ → List (Act F) → Option (List (Act F)) → Session E F
  waited next attempts acts (some more) = next (acts ++ more)
  waited next attempts acts none = record {
    ending = Ending.overflow_error;
    attempts = attempts;
    acts = acts;
  }

  -- The `for` loop from an attempt on, with the rounds that are left.
  unfoldable pub try_from : ℕ → ℕ → Option E → Bool → ℕ → List (Act F) → Session E F
  try_from zero attempt last failed attempts acts = exhausted last attempts acts
  try_from (suc rounds) attempt last failed attempts acts =
      tried
        (λ e.
          waited (try_from rounds (suc attempt) (some e) true (suc attempt)) (suc attempt) acts
            (waits uniform config attempt))
        failed attempt acts (connect attempt)

  -- `attempts` is what an earlier call left.
  unfoldable pub run_once_until_connected : ℕ → Session E F
  run_once_until_connected attempts = try_from config.max_attempts 0 none false attempts []
