-- ===== src/Medallion/Replay/Timely.antt =====
-- No trade of the replay is entered before its signal (src/infrastructure/medallion/replay.py): opening, closing and
-- risk.
use self_evaluating_trading.Common.{
  ℕ, ◌≤◌, Bool, true, false, Option, none, some, All, All-append, str_eq, Bool-cases, inl, inr,
}
use self_evaluating_trading.Floating.{Floating}
use self_evaluating_trading.Risk.Sizing.{PositionSize}
use self_evaluating_trading.Risk.Engine.{RiskVerdict}
use self_evaluating_trading.Medallion.Replay.{
  Decision, ReplayTrade, SizingMode, ReplayScenario, Position, PendingExit, TradeRecord,
  EngineError, EngineState, Step, running, broken,
}
use self_evaluating_trading.Medallion.Replay.Engine.{is_dynamic}
use self_evaluating_trading.Medallion.Replay.Trades.{
  settle, roll_day, finish, open_position, open_fixed, open_verdict, open_judged, open_by_mode,
  take_buy, update_path, take_sell, take_decision,
}

module _ {F : Type 0} where
  -- A position that was entered at its signal or after it.
  abbrev pub IsEntered : Position F → Type 0
  IsEntered pos = pos.entry_signal_ts ≤ pos.entry_fill_ts

  abbrev pub IsHeld : Option (Position F) → Type 0
  IsHeld none = Unit
  IsHeld (some pos) = IsEntered pos

  -- The open position and those of the records, and the signals that wait until a time.
  abbrev pub IsTimely : ℕ → EngineState F → Type 0
  IsTimely cutoff s =
      IsHeld s.position
      × All (λ (r : TradeRecord F). IsEntered r.position) s.records
      × All (λ (d : Decision F). d.signal_ts ≤ cutoff) s.queue

  unfoldable pub Keeps : (EngineState F → Type 0) → Step F → Type 0
  Keeps P (running s) = P s
  Keeps P (broken e) = Unit

module _ {F : Type 0} ⦃fl : Floating F⦄ (scenario : ReplayScenario F) where
  settle-IsTimely :
      (b : Bool) (c ts : ℕ) (net : F) (s : EngineState F)
      → IsTimely c (record s { position = none; pending = none })
      → IsTimely c (record (settle scenario b ts net s) { position = none; pending = none })
  unfolding settle roll_day
  settle-IsTimely false c ts net s h = h
  settle-IsTimely true c ts net s h = h

  pub finish-IsTimely :
      (c : ℕ) (pos : Position F) (p : PendingExit F) (ts i : ℕ) (price : F) (s : EngineState F)
      → IsEntered pos
      → IsTimely c s
      → IsTimely c (finish scenario pos p ts i price s)
  unfolding finish
  finish-IsTimely c pos p ts i price s e (h, rs, q) =
      settle-IsTimely (is_dynamic scenario.sizing_mode) c ts _ _
        (tt, All-append _ s.records _ rs (e, tt), q)

  open_position-IsTimely :
      (c : ℕ) (d : Decision F) (a : F) (t : ReplayTrade F) (i : ℕ) (q x y : F) (s : EngineState F)
      → d.signal_ts ≤ t.ts
      → IsTimely c s
      → IsTimely c (open_position scenario d a t i q x y s)
  unfolding open_position
  open_position-IsTimely c d a t i q x y s e (h, rs, w) = (e, rs, w)

  open_verdict-Keeps :
      (c : ℕ) (d : Decision F) (a : F) (t : ReplayTrade F) (i : ℕ) (s : EngineState F)
      (z : Option (PositionSize F)) (x y : Option F)
      → d.signal_ts ≤ t.ts
      → IsTimely c s
      → Keeps (IsTimely c) (open_verdict scenario d a t i s z x y)
  unfolding open_verdict Keeps
  open_verdict-Keeps c d a t i s (some z) (some x) (some y) e b =
      open_position-IsTimely c d a t i z.quantity x y s e b
  open_verdict-Keeps c d a t i s none x y e b = tt
  open_verdict-Keeps c d a t i s (some z) none y e b = tt
  open_verdict-Keeps c d a t i s (some z) (some x) none e b = tt

  open_judged-Keeps :
      (c : ℕ) (d : Decision F) (a : F) (t : ReplayTrade F) (i : ℕ) (s : EngineState F)
      (v : RiskVerdict F)
      → d.signal_ts ≤ t.ts
      → IsTimely c s
      → Keeps (IsTimely c) (open_judged scenario d a t i s v)
  unfolding open_judged Keeps
  open_judged-Keeps c d a t i s v e b = elim (Bool-cases v.approved) [
    | inl approved ↦
        rw approved (open_verdict-Keeps c d a t i s v.size v.stop_loss v.take_profit e b)
    | inr refused ↦ rw refused b
  ]

  open_by_mode-Keeps :
      (m : SizingMode) (c : ℕ) (d : Decision F) (a : F) (t : ReplayTrade F) (i : ℕ)
      (s : EngineState F)
      → d.signal_ts ≤ t.ts
      → IsTimely c s
      → Keeps (IsTimely c) (open_by_mode scenario m d a t i s)
  unfolding open_by_mode open_fixed roll_day Keeps
  open_by_mode-Keeps SizingMode.fixed c d a t i s e b = open_position-IsTimely c d a t i _ _ _ s e b
  open_by_mode-Keeps SizingMode.risk_engine c d a t i s e b =
      open_judged-Keeps c d a t i (roll_day scenario t.ts s) _ e b

  take_buy-Keeps :
      (c : ℕ) (d : Decision F) (t : ReplayTrade F) (i : ℕ) (s : EngineState F)
      (o : Option (Position F)) (a : Option F)
      → d.signal_ts ≤ t.ts
      → IsTimely c s
      → Keeps (IsTimely c) (take_buy scenario d t i s o a)
  unfolding take_buy Keeps
  take_buy-Keeps c d t i s none (some a) e b =
      open_by_mode-Keeps scenario.sizing_mode c d a t i s e b
  take_buy-Keeps c d t i s none none e b = b
  take_buy-Keeps c d t i s (some pos) a e b = b

  take_sell-Keeps :
      (c : ℕ) (d : Decision F) (t : ReplayTrade F) (i : ℕ) (s : EngineState F)
      (o : Option (Position F))
      → IsHeld o
      → IsTimely c s
      → Keeps (IsTimely c) (take_sell scenario d t i s o)
  unfolding take_sell update_path Keeps
  take_sell-Keeps c d t i s none h b = b
  take_sell-Keeps c d t i s (some pos) h b = finish-IsTimely c _ _ t.ts i t.price s h b

  unknown-Keeps : (P : EngineState F → Type 0) → Keeps P (broken EngineError.unknown_action)
  unfolding Keeps
  unknown-Keeps P = tt

  pub take_decision-Keeps :
      (c : ℕ) (d : Decision F) (t : ReplayTrade F) (i : ℕ) (s : EngineState F)
      → d.signal_ts ≤ t.ts
      → IsTimely c s
      → Keeps (IsTimely c) (take_decision scenario d t i s)
  unfolding take_decision
  take_decision-Keeps c d t i s e b = elim (Bool-cases (str_eq d.action "buy")) [
    | inl buys ↦ rw buys (take_buy-Keeps c d t i s s.position d.atr e b)
    | inr other ↦ elim (Bool-cases (str_eq d.action "sell")) [
      | inl sells ↦ rw (other, sells) (take_sell-Keeps c d t i s s.position b.0 b)
      | inr unknown ↦ rw (other, unknown) (unknown-Keeps (IsTimely c))
    ]
  ]
