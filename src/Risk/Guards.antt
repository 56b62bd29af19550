-- ===== src/Risk/Guards.antt =====
-- src/domain/risk/guards.py: the daily loss and drawdown guards, and the kill switch.
use self_evaluating_trading.Common.{
  ℕ, Bool, true, false, not, ◌||◌, Option, none, some, String, str_eq, if◌then◌else◌,
}
use self_evaluating_trading.Floating.{Floating}
use self_evaluating_trading.Risk.Config.{RiskConfig}

module _ {F : Type 0} ⦃fl : Floating F⦄ where
  open fl use {lit, sub, mul, div, neg, le, lt}

  unfoldable pub daily_loss_exceeded : F → F → RiskConfig F → Bool
  daily_loss_exceeded realized_pnl_today capital config =
      le realized_pnl_today (neg (mul capital config.max_daily_loss))

  unfoldable pub drawdown_exceeded : F → F → RiskConfig F → Bool
  drawdown_exceeded peak_equity equity config =
      if le peak_equity (lit 0 0)
      then false
      else if lt peak_equity equity
      then false
      else le config.max_drawdown (div (sub peak_equity equity) peak_equity)

pub record KillSwitchState : Type 0 where
  pub active : Bool
  pub reason : String
  pub activated_at_ms : ℕ

abbrev pub initial_state : KillSwitchState
initial_state = record { active = false; reason = ""; activated_at_ms = 0 }

-- The JSON object that `to_dict` writes; a key that is not there is `none`.
pub record StateDict : Type 0 where
  pub active_key : Option Bool
  pub reason_key : Option String
  pub activated_at_ms_key : Option ℕ

unfoldable pub to_dict : KillSwitchState → StateDict
to_dict s = record {
  active_key = some s.active;
  reason_key = some s.reason;
  activated_at_ms_key = some s.activated_at_ms;
}

abbrev get {ℓ} : {A : Type ℓ} → Option A → A → A
get none d = d
get (some a) d = a

unfoldable pub from_dict : StateDict → KillSwitchState
from_dict d = record {
  active = get d.active_key false;
  reason = get d.reason_key "";
  activated_at_ms = get d.activated_at_ms_key 0;
}

pub data Requester : Type 0 where
  human llm : Requester

unfoldable pub allows_trading : KillSwitchState → Bool
allows_trading s = not s.active

-- The first reason and time are kept.
unfoldable pub activate : String → ℕ → KillSwitchState → KillSwitchState
activate why ts s =
    if s.active then s else record { active = true; reason = why; activated_at_ms = ts }

abbrev pub is_human : Requester → Bool
is_human Requester.human = true
is_human Requester.llm = false

-- `none` is the `PermissionError`.
unfoldable pub reset : Requester → String → KillSwitchState → Option KillSwitchState
reset by approval_id s =
    if not (is_human by) || str_eq approval_id "" then none else some initial_state
