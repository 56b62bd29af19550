-- ===== src/Memory.antt =====
-- src/domain/memory/memory.py and src/domain/memory/guards.py: a closed experience, and the guards
-- against the use of memory from after a decision.
pub mod Leakage
use self_evaluating_trading.Common.{
  ℕ, ltb, leb, Option, none, some, List, [], ◌∷◌, String, if◌then◌else◌,
}

pub record TradingMemory (F : Type 0) : Type 0 where
  pub id : String
  pub text : String
  pub outcome_timestamp_ms : ℕ
  pub symbol : String
  pub action : String
  pub result : String
  pub pnl : F
  pub mfe : F
  pub mae : F
  pub fees : F
  pub slippage : F
  pub reflection : String
  pub strategy_version : String
  pub prompt_version : String
  pub llm_model : String
  pub experiment_id : String
  pub embedding_space : String
  pub embedding : List F

-- `MemoryLeakageError`, with the memory that it names.
pub record MemoryLeakage (F : Type 0) : Type 0 where
  pub memory : TradingMemory F

module _ {F : Type 0} where
  unfoldable pub filter_leakage : List (TradingMemory F) → ℕ → List (TradingMemory F)
  filter_leakage [] ts = []
  filter_leakage (m ∷ ms) ts =
      if ltb m.outcome_timestamp_ms ts then m ∷ filter_leakage ms ts else filter_leakage ms ts

  -- `none` is that it returned.
  unfoldable pub assert_no_leakage : List (TradingMemory F) → ℕ → Option (MemoryLeakage F)
  assert_no_leakage [] ts = none
  assert_no_leakage (m ∷ ms) ts =
      let rest = assert_no_leakage ms ts in
      if leb ts m.outcome_timestamp_ms then some (record { memory = m }) else rest
