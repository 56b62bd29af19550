-- ===== src/Medallion/Replay/Accounted.antt =====
-- What holds at every step of the replay (src/infrastructure/medallion/replay.py): every decision is accounted
-- for, every closing has its record, and a pending exit has a position.
use self_evaluating_trading.Common.{
  ℕ, suc, ◌+◌, ◌≡◌, refl, ◌∙◌, subst, Bool, true, false, Option, none, some, is_some, [], ◌∷◌,
  String, str_eq, length, length-append, arith, Bool-cases, inl, inr,
}
use self_evaluating_trading.Floating.{Floating}
use self_evaluating_trading.Risk.Sizing.{PositionSize}
use self_evaluating_trading.Risk.Engine.{RiskVerdict}
use self_evaluating_trading.Medallion.Replay.{
  Decision, ReplayTrade, SizingMode, ReplayScenario, Position, PendingExit, EngineError,
  EngineState, Step, running, broken,
}
use self_evaluating_trading.Medallion.Replay.Engine.{is_dynamic, reason_text}
use self_evaluating_trading.Medallion.Replay.Trades.{
  count_dropped, count_filled, count_rejected, roll_day, settle, finish, open_position, open_fixed,
  open_verdict, open_judged, open_by_mode, take_buy, take_sell, take_decision,
}

-- The exceptions that name a broken invariant.
abbrev pub is_internal : EngineError → Bool
is_internal EngineError.pending_without_position = true
is_internal EngineError.pending_without_index = true
is_internal EngineError.position_without_trades = true
is_internal _ = false

module _ {F : Type 0} where
  -- A pending exit stands with a position and with the trade that set it off.
  abbrev pub IsPaired : Option (Position F) → Option (PendingExit F) → Type 0
  IsPaired o none = Unit
  IsPaired none (some p) = ⊥
  IsPaired (some pos) (some p) = is_some p.trigger_trade_index ≡ true

  -- With so many decisions waiting, the counters add up.
  pub record IsBalanced (n : ℕ) (s : EngineState F) : Type 0 where
    pub counted :
        (s.stats).decisions_total
        ≡ (s.stats).decisions_filled
          + (s.stats).decisions_dropped
          + (s.stats).decisions_unfilled
          + (s.stats).decisions_rejected
          + n
    pub recorded : (s.stats).closed_trades ≡ length s.records
    pub paired : IsPaired s.position s.pending

  unfoldable pub Leaves : (EngineState F → Type 0) → Step F → Type 0
  Leaves P (running s) = P s
  Leaves P (broken e) = is_internal e ≡ false

module _ {F : Type 0} ⦃fl : Floating F⦄ (scenario : ReplayScenario F) where
  settle-IsBalanced :
      (b : Bool) (n ts : ℕ) (net : F) (s : EngineState F)
      → IsBalanced n (record s { position = none; pending = none })
      → IsBalanced n (record (settle scenario b ts net s) { position = none; pending = none })
  unfolding settle roll_day
  settle-IsBalanced false n ts net s b = b
  settle-IsBalanced true n ts net s b = record {
    counted = b.counted;
    recorded = b.recorded;
    paired = tt;
  }

  pub finish-IsBalanced :
      (n : ℕ) (pos : Position F) (p : PendingExit F) (ts i : ℕ) (price : F) (s : EngineState F)
      → IsBalanced n s
      → IsBalanced n (finish scenario pos p ts i price s)
  unfolding finish
  finish-IsBalanced n pos p ts i price s b =
      settle-IsBalanced (is_dynamic scenario.sizing_mode) n ts _ _ (record {
        counted = b.counted;
        recorded = omega (arith, b.recorded, length-append s.records (_ ∷ []));
        paired = tt;
      })

  count_filled-IsBalanced :
      (n : ℕ) (s : EngineState F) → IsBalanced (suc n) s → IsBalanced n (count_filled s)
  count_filled-IsBalanced n s b = record {
    counted = omega (arith, b.counted);
    recorded = b.recorded;
    paired = b.paired;
  }

  count_dropped-IsBalanced :
      (n : ℕ) (s : EngineState F) → IsBalanced (suc n) s → IsBalanced n (count_dropped s)
  count_dropped-IsBalanced n s b = record {
    counted = omega (arith, b.counted);
    recorded = b.recorded;
    paired = b.paired;
  }

  count_rejected-IsBalanced :
      (n : ℕ) (r : String) (s : EngineState F)
      → IsBalanced (suc n) s
      → IsBalanced n (count_rejected r s)
  count_rejected-IsBalanced n r s b = record {
    counted = omega (arith, b.counted);
    recorded = b.recorded;
    paired = b.paired;
  }

  roll_day-IsBalanced :
      (n ts : ℕ) (s : EngineState F) → IsBalanced n s → IsBalanced n (roll_day scenario ts s)
  unfolding roll_day
  roll_day-IsBalanced n ts s b = record {
    counted = b.counted;
    recorded = b.recorded;
    paired = b.paired;
  }

  -- Without a position there is no pending exit either.
  unpaired : (p : Option (PendingExit F)) (o : Option (Position F)) → IsPaired none p → IsPaired o p
  unpaired none o h = tt
  unpaired (some p) o h = absurd h

  open_position-IsBalanced :
      (n : ℕ) (d : Decision F) (a : F) (t : ReplayTrade F) (i : ℕ) (q x y : F) (s : EngineState F)
      → s.position ≡ none
      → IsBalanced n s
      → IsBalanced n (open_position scenario d a t i q x y s)
  unfolding open_position
  open_position-IsBalanced n d a t i q x y s e b = record {
    counted = b.counted;
    recorded = b.recorded;
    paired =
        unpaired s.pending (open_position scenario d a t i q x y s).position
          (subst (λ o. IsPaired o s.pending) e b.paired);
  }

  open_verdict-Leaves :
      (n : ℕ) (d : Decision F) (a : F) (t : ReplayTrade F) (i : ℕ) (s : EngineState F)
      (z : Option (PositionSize F)) (x y : Option F)
      → s.position ≡ none
      → IsBalanced (suc n) s
      → Leaves (IsBalanced n) (open_verdict scenario d a t i s z x y)
  unfolding open_verdict Leaves
  open_verdict-Leaves n d a t i s (some z) (some x) (some y) e b =
      count_filled-IsBalanced n _ (open_position-IsBalanced (suc n) d a t i z.quantity x y s e b)
  open_verdict-Leaves n d a t i s none x y e b = refl
  open_verdict-Leaves n d a t i s (some z) none y e b = refl
  open_verdict-Leaves n d a t i s (some z) (some x) none e b = refl

  open_judged-Leaves :
      (n : ℕ) (d : Decision F) (a : F) (t : ReplayTrade F) (i : ℕ) (s : EngineState F)
      (v : RiskVerdict F)
      → s.position ≡ none
      → IsBalanced (suc n) s
      → Leaves (IsBalanced n) (open_judged scenario d a t i s v)
  unfolding open_judged Leaves
  open_judged-Leaves n d a t i s v e b = elim (Bool-cases v.approved) [
    | inl approved ↦
        rw approved (open_verdict-Leaves n d a t i s v.size v.stop_loss v.take_profit e b)
    | inr refused ↦ rw refused (count_rejected-IsBalanced n (reason_text v.reason) s b)
  ]

  roll_same : (ts : ℕ) (s : EngineState F) → (roll_day scenario ts s).position ≡ s.position
  unfolding roll_day
  roll_same ts s = refl

  open_by_mode-Leaves :
      (m : SizingMode) (n : ℕ) (d : Decision F) (a : F) (t : ReplayTrade F) (i : ℕ)
      (s : EngineState F)
      → s.position ≡ none
      → IsBalanced (suc n) s
      → Leaves (IsBalanced n) (open_by_mode scenario m d a t i s)
  unfolding open_by_mode open_fixed Leaves
  open_by_mode-Leaves SizingMode.fixed n d a t i s e b =
      count_filled-IsBalanced n _ (open_position-IsBalanced (suc n) d a t i _ _ _ s e b)
  open_by_mode-Leaves SizingMode.risk_engine n d a t i s e b =
      open_judged-Leaves n d a t i (roll_day scenario t.ts s) _ (roll_same t.ts s ∙ e)
        (roll_day-IsBalanced (suc n) t.ts s b)

  take_buy-Leaves :
      (n : ℕ) (d : Decision F) (t : ReplayTrade F) (i : ℕ) (s : EngineState F)
      (o : Option (Position F)) (a : Option F)
      → s.position ≡ o
      → IsBalanced (suc n) s
      → Leaves (IsBalanced n) (take_buy scenario d t i s o a)
  unfolding take_buy Leaves
  take_buy-Leaves n d t i s none (some a) e b =
      open_by_mode-Leaves scenario.sizing_mode n d a t i s e b
  take_buy-Leaves n d t i s none none e b = count_dropped-IsBalanced n s b
  take_buy-Leaves n d t i s (some pos) a e b = count_dropped-IsBalanced n s b

  take_sell-Leaves :
      (n : ℕ) (d : Decision F) (t : ReplayTrade F) (i : ℕ) (s : EngineState F)
      (o : Option (Position F))
      → IsBalanced (suc n) s
      → Leaves (IsBalanced n) (take_sell scenario d t i s o)
  unfolding take_sell Leaves
  take_sell-Leaves n d t i s none b = count_dropped-IsBalanced n s b
  take_sell-Leaves n d t i s (some pos) b =
      count_filled-IsBalanced n _ (finish-IsBalanced (suc n) _ _ t.ts i t.price s b)

  unknown-Leaves : (P : EngineState F → Type 0) → Leaves P (broken EngineError.unknown_action)
  unfolding Leaves
  unknown-Leaves P = refl

  pub take_decision-Leaves :
      (n : ℕ) (d : Decision F) (t : ReplayTrade F) (i : ℕ) (s : EngineState F)
      → IsBalanced (suc n) s
      → Leaves (IsBalanced n) (take_decision scenario d t i s)
  unfolding take_decision
  take_decision-Leaves n d t i s b = elim (Bool-cases (str_eq d.action "buy")) [
    | inl buys ↦ rw buys (take_buy-Leaves n d t i s s.position d.atr refl b)
    | inr other ↦ elim (Bool-cases (str_eq d.action "sell")) [
      | inl sells ↦ rw (other, sells) (take_sell-Leaves n d t i s s.position b)
      | inr unknown ↦ rw (other, unknown) (unknown-Leaves (IsBalanced n))
    ]
  ]
