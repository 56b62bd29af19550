-- ===== src/Costs/Levels.antt =====
-- What the alert levels of src/domain/llm/budget.py and src/application/services/cost_monitor.py say.
use mathlib.Core.List.{append-nil, append_assoc}
use self_evaluating_trading.Common.{◌≡◌, refl, sym, ◌∙◌, arith, ◌||◌, List, [], ◌∷◌, ◌++◌, foldl}
use self_evaluating_trading.Floating.{Floating}
use self_evaluating_trading.Costs.{
  BudgetLevel, is_blocked_level, max_level, CostMonitor, level, is_exhausted, consume, consume_both,
  is_blocked, record_call,
}

max_level-blocked :
    (a b : BudgetLevel)
    → is_blocked_level (max_level a b) ≡ (is_blocked_level a || is_blocked_level b)
unfolding max_level
max_level-blocked a b = ground arith

module _ {F A : Type 0} ⦃fl : Floating F⦄ (cost_of : A → F) where
  open fl use {lit, add, le}

  -- The calls are recorded one after the other.
  unfoldable pub record_calls : List A → CostMonitor F A → CostMonitor F A
  record_calls [] m = m
  record_calls (c ∷ cs) m = record_calls cs (record_call cost_of c m).1

  -- What a monitor has spent on a list of calls.
  abbrev pub spent : F → List A → F
  spent start = foldl (λ acc c. add acc (cost_of c)) start

  -- The level that a recording returns is the one of a blocked budget exactly when the monitor is blocked
  -- afterwards.
  pub record_call-is_blocked :
      (c : A) (m : CostMonitor F A)
      → is_blocked_level (record_call cost_of c m).0
        ≡ is_blocked (record_call cost_of c m).1.budgets
  unfolding record_call is_blocked is_exhausted
  record_call-is_blocked c m =
      let s = consume_both (cost_of c) m.budgets in
      max_level-blocked (level s.experiment) (level s.monthly)

  -- What a monitor has after a list of calls: the limits it had, the costs added in order, every call.
  pub record IsSpent (cs : List A) (m n : CostMonitor F A) : Type 0 where
    pub experiment_spent :
        n.budgets.experiment.consumed_usd ≡ spent m.budgets.experiment.consumed_usd cs
    pub monthly_spent : n.budgets.monthly.consumed_usd ≡ spent m.budgets.monthly.consumed_usd cs
    pub experiment_limit : n.budgets.experiment.limit_usd ≡ m.budgets.experiment.limit_usd
    pub monthly_limit : n.budgets.monthly.limit_usd ≡ m.budgets.monthly.limit_usd
    pub all_recorded : n.recorded ≡ m.recorded ++ cs

  -- After any list of calls both budgets have, to the last bit, their earlier consumption with the costs
  -- added in order, the limits are the same, and the calls stand in order after the earlier ones.
  pub record_calls-IsSpent : (cs : List A) (m : CostMonitor F A) → IsSpent cs m (record_calls cs m)
  unfolding record_calls record_call consume_both consume
  record_calls-IsSpent [] m = record {
    experiment_spent = refl;
    monthly_spent = refl;
    experiment_limit = refl;
    monthly_limit = refl;
    all_recorded = sym (append-nil m.recorded);
  }
  record_calls-IsSpent (c ∷ cs) m =
      let rest = record_calls-IsSpent cs (record_call cost_of c m).1 in
      record {
        experiment_spent = rest.experiment_spent;
        monthly_spent = rest.monthly_spent;
        experiment_limit = rest.experiment_limit;
        monthly_limit = rest.monthly_limit;
        all_recorded = rest.all_recorded ∙ append_assoc m.recorded (c ∷ []) cs;
      }
