-- ===== src/Trading.antt =====
-- Signals, fills and their costs: src/domain/trading/signal.py, fees.py, slippage.py, fill.py, and
-- the decision of src/domain/trading/decision.py with the fields that the paper engine reads.
use self_evaluating_trading.Common.{ℕ, Bool, true, Option, some, if◌then◌else◌, String, is_some}
use self_evaluating_trading.Floating.{Floating}

pub data Action : Type 0 where
  buy sell hold : Action

pub data Intensity : Type 0 where
  low medium high : Intensity

-- `action is Action.X`
abbrev pub is_buy : Action → Bool
is_buy Action.buy = true
is_buy _ = Bool.false

abbrev pub is_sell : Action → Bool
is_sell Action.sell = true
is_sell _ = Bool.false

abbrev pub is_hold : Action → Bool
is_hold Action.hold = true
is_hold _ = Bool.false

pub record FeeModel (F : Type 0) : Type 0 where
  pub taker_bps : F
  pub maker_bps : F

pub record SlippageModel (F : Type 0) : Type 0 where
  pub bps : F

pub record Fill (F : Type 0) : Type 0 where
  pub timestamp_ms : ℕ
  pub action : Action
  pub price : F
  pub exec_price : F
  pub quantity : F
  pub notional : F
  pub fee : F
  pub slippage_cost : F

pub record TradingDecision (F : Type 0) : Type 0 where
  pub timestamp_ms : ℕ
  pub action : Action
  pub confidence : F
  pub intensity : Intensity
  pub rationale_summary : String
  pub fallback_reason : Option String

module _ {F : Type 0} ⦃fl : Floating F⦄ where
  open fl use {lit, add, sub, mul, div, le}

  unfoldable pub taker_rate : FeeModel F → F
  taker_rate m = div m.taker_bps (lit 10000 0)

  unfoldable pub fee_of : FeeModel F → F → F
  unfolding taker_rate
  fee_of m notional = mul notional (taker_rate m)

  unfoldable pub slippage_rate : SlippageModel F → F
  slippage_rate m = div m.bps (lit 10000 0)

  unfoldable pub slippage_of : SlippageModel F → F → F
  unfolding slippage_rate
  slippage_of m notional = mul notional (slippage_rate m)

  unfoldable pub empty_fill : ℕ → Action → F → Fill F
  empty_fill ts act p = record {
    timestamp_ms = ts;
    action = act;
    price = p;
    exec_price = p;
    quantity = lit 0 0;
    notional = lit 0 0;
    fee = lit 0 0;
    slippage_cost = lit 0 0;
  }

  -- `FillModel.buy`: the whole cash goes into one purchase, its fee included.
  unfoldable pub fill_buy : FeeModel F → SlippageModel F → ℕ → F → F → Fill F
  unfolding taker_rate slippage_rate empty_fill
  fill_buy fees slippage ts p cash =
      if le cash (lit 0 0)
      then empty_fill ts Action.buy p
      else (let e = mul p (add (lit 1 0) (slippage_rate slippage)) in
          let q = div (div cash (add (lit 1 0) (taker_rate fees))) e in
          record {
            timestamp_ms = ts;
            action = Action.buy;
            price = p;
            exec_price = e;
            quantity = q;
            notional = mul q e;
            fee = mul (mul q e) (taker_rate fees);
            slippage_cost = mul q (sub e p);
          })

  unfoldable pub fill_sell : FeeModel F → SlippageModel F → ℕ → F → F → Fill F
  unfolding taker_rate slippage_rate empty_fill
  fill_sell fees slippage ts p q =
      if le q (lit 0 0)
      then empty_fill ts Action.sell p
      else (let e = mul p (sub (lit 1 0) (slippage_rate slippage)) in
          record {
            timestamp_ms = ts;
            action = Action.sell;
            price = p;
            exec_price = e;
            quantity = q;
            notional = mul q e;
            fee = mul (mul q e) (taker_rate fees);
            slippage_cost = mul q (sub p e);
          })

  -- `TradingDecision.hold`
  unfoldable pub hold_decision : ℕ → String → TradingDecision F
  hold_decision ts reason = record {
    timestamp_ms = ts;
    action = Action.hold;
    confidence = lit 0 0;
    intensity = Intensity.medium;
    rationale_summary = "";
    fallback_reason = some reason;
  }

  unfoldable pub is_fallback : TradingDecision F → Bool
  is_fallback d = is_some d.fallback_reason
