-- ===== src/Medallion/Replay/Scripted.antt =====
-- The scripted provider of decisions (src/infrastructure/medallion/replay.py: `ScriptedScheduleProvider`).
use mathlib.Core.Option.{some-injective}
use self_evaluating_trading.Common.{
  ℕ, ◌%◌, ◌≡◌, ◌≤◌, refl, ap, leb, ◌==◌, ◌&&◌, Option, none, some, arith, if◌then◌else◌, Bool-cases,
  inl, inr,
}
use self_evaluating_trading.Medallion.Replay.{ContextSnapshot, Decision, DecisionProvider}
use self_evaluating_trading.Medallion.Replay.Rounds.{IsPrompt}

module _ {F : Type 0} where
  -- The purchase needs an ATR.
  unfoldable pub scripted_buy : ℕ → ℕ → F → Option F → Option (Decision F)
  scripted_buy index ts price none = none
  scripted_buy index ts price (some a) = some (record {
    action = "buy";
    signal_ts = ts;
    reference_price = price;
    candle_index = index;
    atr = some a;
  })

  unfoldable pub scripted_decide : ℕ → ℕ → F → Option F → ContextSnapshot F → Option (Decision F)
  scripted_decide index ts price a context =
      if leb 14 index && (index % 12 == 5)
      then scripted_buy index ts price a
      else if leb 25 index && (index % 12 == 1)
      then some (record {
        action = "sell";
        signal_ts = ts;
        reference_price = price;
        candle_index = index;
        atr = a;
      })
      else none

  unfoldable pub scripted_provider : DecisionProvider F
  scripted_provider = record { decide = scripted_decide }

  signed_now : (ts : ℕ) (d e : Decision F) → d.signal_ts ≡ ts → some d ≡ some e → e.signal_ts ≤ ts
  signed_now ts d e s h =
      let p = ap Decision.signal_ts (some-injective _ _ h) in omega (arith, s, p)

  scripted_buy-signal_ts :
      (index ts : ℕ) (price : F) (a : Option F) (d : Decision F)
      → scripted_buy index ts price a ≡ some d
      → d.signal_ts ≤ ts
  unfolding scripted_buy
  scripted_buy-signal_ts index ts price none d h = absurd (cc)
  scripted_buy-signal_ts index ts price (some a) d h = signed_now ts _ d refl h

  pub scripted_provider-IsPrompt : IsPrompt scripted_provider
  unfolding scripted_provider scripted_decide
  scripted_provider-IsPrompt index ts price a x d =
      elim (Bool-cases (leb 14 index && (index % 12 == 5))) [
        | inl buys ↦ rw buys (λ h. scripted_buy-signal_ts index ts price a d h)
        | inr other ↦ elim (Bool-cases (leb 25 index && (index % 12 == 1))) [
          | inl sells ↦ rw (other, sells) (λ h. signed_now ts _ d refl h)
          | inr idle ↦ rw (other, idle) (λ h. absurd (cc))
        ]
      ]
