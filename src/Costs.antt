-- ===== src/Costs.antt =====
-- The spending on language models: src/domain/llm/budget.py and
-- src/application/services/cost_monitor.py. The record of a call is of any type, with its cost.
pub mod Levels
use self_evaluating_trading.Common.{
  ℕ, leb, Bool, true, false, ◌||◌, List, [], ◌∷◌, ◌++◌, if◌then◌else◌,
}
use self_evaluating_trading.Floating.{Floating}

pub data BudgetLevel : Type 0 where
  ok alert_50 alert_75 alert_90 blocked : BudgetLevel

-- `_SEVERITY_INDEX`
abbrev pub severity : BudgetLevel → ℕ
severity BudgetLevel.ok = 0
severity BudgetLevel.alert_50 = 1
severity BudgetLevel.alert_75 = 2
severity BudgetLevel.alert_90 = 3
severity BudgetLevel.blocked = 4

abbrev pub is_blocked_level : BudgetLevel → Bool
is_blocked_level BudgetLevel.blocked = true
is_blocked_level _ = false

unfoldable pub max_level : BudgetLevel → BudgetLevel → BudgetLevel
max_level a b = if leb (severity b) (severity a) then a else b

pub record Budget (F : Type 0) : Type 0 where
  pub limit_usd : F
  pub consumed_usd : F

pub record BudgetState (F : Type 0) : Type 0 where
  pub experiment : Budget F
  pub monthly : Budget F

pub record CostMonitor (F A : Type 0) : Type 0 where
  pub budgets : BudgetState F
  pub recorded : List A

module _ {F : Type 0} ⦃fl : Floating F⦄ where
  open fl use {lit, add, div, le}

  unfoldable pub ratio : Budget F → F
  ratio b = if le b.limit_usd (lit 0 0) then lit 0 0 else div b.consumed_usd b.limit_usd

  -- `Budget.level`, on the ratio
  unfoldable pub level_at : F → BudgetLevel
  level_at r =
      if le (lit 1 0) r
      then BudgetLevel.blocked
      else if le (lit 90 2) r
      then BudgetLevel.alert_90
      else if le (lit 75 2) r
      then BudgetLevel.alert_75
      else if le (lit 50 2) r
      then BudgetLevel.alert_50
      else BudgetLevel.ok

  unfoldable pub level : Budget F → BudgetLevel
  level b = level_at (ratio b)

  unfoldable pub is_exhausted : Budget F → Bool
  is_exhausted b = is_blocked_level (level b)

  unfoldable pub consume : F → Budget F → Budget F
  consume cost b = record b { consumed_usd = add b.consumed_usd cost }

  -- `BudgetState.record`
  unfoldable pub consume_both : F → BudgetState F → BudgetState F
  consume_both cost s = record {
    experiment = consume cost s.experiment;
    monthly = consume cost s.monthly;
  }

  -- `BudgetState.is_blocked`
  unfoldable pub is_blocked : BudgetState F → Bool
  is_blocked s = is_exhausted s.experiment || is_exhausted s.monthly

  unfoldable pub new_monitor : {A : Type 0} → F → F → CostMonitor F A
  new_monitor experiment monthly = record {
    budgets = record {
      experiment = record { limit_usd = experiment; consumed_usd = lit 0 0 };
      monthly = record { limit_usd = monthly; consumed_usd = lit 0 0 };
    };
    recorded = [];
  }

  -- `CostMonitor.record`
  unfoldable pub record_call :
      {A : Type 0} → (A → F) → A → CostMonitor F A → BudgetLevel × CostMonitor F A
  record_call cost_of c m =
      let s = consume_both (cost_of c) m.budgets in
      (
        max_level (level s.experiment) (level s.monthly),
        record { budgets = s; recorded = m.recorded ++ (c ∷ []) },
      )
