-- ===== src/Paper/Clock.antt =====
-- The order of events, the roll-over of the day and the counters of
-- src/application/services/paper_engine.py, over any sequence of calls.
use self_evaluating_trading.Common.{
  ℕ, ◌+◌, ◌≤◌, ◌≡◌, refl, ◌∙◌, Bool, true, false, Option, none, some, List, [], ◌∷◌, arith,
}
use self_evaluating_trading.Floating.{Floating}
use self_evaluating_trading.Trading.{Action}
use self_evaluating_trading.Risk.Engine.{RiskVerdict}
use self_evaluating_trading.Paper.{
  Engine, Setup, Tick, Outcome, raised, Failure, PaperPosition, open_position, finish_open,
  close_position, mark, PaperEvent,
}
use self_evaluating_trading.Paper.Handling.{
  on_price, after_exits, decide, carry_out, sell_open, buy_sized, check_position, start_tick,
  count_rejection, count_hold, is_late, is_other_day, verdict_of,
}

-- The order of the timestamps, where a call has set one.
abbrev pub LeOption : Option ℕ → Option ℕ → Type 0
LeOption none o = Unit
LeOption (some a) none = ⊥
LeOption (some a) (some b) = a ≤ b

LeOption-refl : (o : Option ℕ) → LeOption o o
LeOption-refl o = ground arith

LeOption-trans : (a b c : Option ℕ) → LeOption a b → LeOption b c → LeOption a c
LeOption-trans a b c p q = ground arith

module _ {F : Type 0} ⦃fl : Floating F⦄ where
  -- A sequence of calls; the caller goes on after an exception.
  unfoldable pub run : Setup F → List (Tick F) → Engine F → Engine F
  run x [] s = s
  run x (t ∷ ts) s = run x ts (on_price x t s).1

  -- What the rest of a call, after the clock is set, leaves alone or only counts up. Every purchase
  -- refused for the daily loss is a rejected order too.
  record Counts (s s' : Engine F) : Type 0 where
    last_kept : s'.last_timestamp_ms ≡ s.last_timestamp_ms
    day_kept : s'.day ≡ s.day
    switch_kept : s'.kill_switch ≡ s.kill_switch
    rejected_up : s.orders_rejected ≤ s'.orders_rejected
    triggered_up : s.daily_loss_triggered ≤ s'.daily_loss_triggered
    paired :
        s'.daily_loss_triggered + s.orders_rejected ≤ s.daily_loss_triggered + s'.orders_rejected

  carry_out-Counts :
      (x : Setup F) (t : Tick F) (v : RiskVerdict F) (s : Engine F) (a : Action)
      → Counts s (carry_out x t v s a).1
  unfolding carry_out sell_open buy_sized open_position finish_open close_position mark count_hold
  carry_out-Counts x t v s a = ground arith

  decide-Counts : (x : Setup F) (t : Tick F) (s : Engine F) → Counts s (decide x t s).1
  unfolding decide mark count_rejection
  decide-Counts x t s =
      ground (arith, carry_out-Counts x t (verdict_of x t s) (mark t.price s) t.decision.action)

  check_position-Counts :
      (x : Setup F) (p : F) (ts : ℕ) (s : Engine F) (o : Option (PaperPosition F))
      → Counts s (check_position x p ts s o).1
  unfolding check_position close_position mark
  check_position-Counts x p ts s o = ground arith

  after_exits-Counts :
      (x : Setup F) (t : Tick F) (r : Option (PaperEvent F) × Engine F)
      → Counts r.1 (after_exits x t r).1
  unfolding after_exits
  after_exits-Counts x t (none, s) = decide-Counts x t s
  after_exits-Counts x t (some event, s) = ground arith

  -- What one call does to the clock and to the counters.
  pub record Advances (s s' : Engine F) : Type 0 where
    pub later : LeOption s.last_timestamp_ms s'.last_timestamp_ms
    pub switch_same : s'.kill_switch ≡ s.kill_switch
    pub rejected_le : s.orders_rejected ≤ s'.orders_rejected
    pub triggered_le : s.daily_loss_triggered ≤ s'.daily_loss_triggered
    pub rises :
        s'.daily_loss_triggered + s.orders_rejected ≤ s.daily_loss_triggered + s'.orders_rejected

  pub on_price-Advances : (x : Setup F) (t : Tick F) (s : Engine F) → Advances s (on_price x t s).1
  unfolding on_price start_tick
  on_price-Advances x t s =
      let s' = start_tick x t s in
      let r = check_position x t.price t.timestamp_ms s' s'.position in
      ground (
        arith,
        check_position-Counts x t.price t.timestamp_ms s' s'.position,
        after_exits-Counts x t r,
      )

  -- Along any sequence of calls, exceptions included, the timestamp last accepted never goes back, the
  -- kill switch is never touched, both counters only grow, and the count of purchases refused for
  -- the daily loss grows by at most the growth of the count of rejected orders.
  pub run-Advances : (x : Setup F) (ts : List (Tick F)) (s : Engine F) → Advances s (run x ts s)
  unfolding run
  run-Advances x [] s = record {
    later = LeOption-refl s.last_timestamp_ms;
    switch_same = refl;
    rejected_le = omega arith;
    triggered_le = omega arith;
    rises = omega arith;
  }
  run-Advances x (t ∷ ts) s =
      let mid = (on_price x t s).1 in
      let one = on_price-Advances x t s in
      let rest = run-Advances x ts mid in
      record {
        later =
            LeOption-trans s.last_timestamp_ms mid.last_timestamp_ms
              (run x ts mid).last_timestamp_ms one.later rest.later;
        switch_same = rest.switch_same ∙ one.switch_same;
        rejected_le = omega arith;
        triggered_le = omega arith;
        rises = omega arith;
      }

  -- Where the flag is set, the state is the one before.
  abbrev pub IsKept : Bool → Engine F → Engine F → Type 0
  IsKept true s s' = s' ≡ s
  IsKept false s s' = Unit

  abbrev pub is_out_of_order : Outcome F → Bool
  is_out_of_order (raised Failure.out_of_order) = true
  is_out_of_order _ = false

  after_exits_in_order :
      (x : Setup F) (t : Tick F) (r : Option (PaperEvent F) × Engine F)
      → is_out_of_order (after_exits x t r).0 ≡ false
  unfolding after_exits decide carry_out sell_open buy_sized open_position finish_open
  after_exits_in_order x t (some event, s) = refl
  after_exits_in_order x t (none, s) = ground arith

  -- A call raises `OutOfOrderTimestampError` exactly when its timestamp is below the one last accepted,
  -- and then it leaves the whole state as it was.
  pub on_price_late :
      (x : Setup F) (t : Tick F) (s : Engine F)
      → (is_out_of_order (on_price x t s).0 ≡ is_late s.last_timestamp_ms t.timestamp_ms)
        × IsKept (is_late s.last_timestamp_ms t.timestamp_ms) s (on_price x t s).1
  unfolding on_price
  on_price_late x t s =
      let s' = start_tick x t s in
      let r = check_position x t.price t.timestamp_ms s' s'.position in
      ground (arith, after_exits_in_order x t r)

  -- The first accepted call of another day forgets the profit of the day before: it ends as it would
  -- have with that profit at zero.
  pub on_price_new_day :
      (x : Setup F) (t : Tick F) (s : Engine F)
      → is_late s.last_timestamp_ms t.timestamp_ms ≡ false
      → is_other_day s.day (x.day_key t.timestamp_ms) ≡ true
      → on_price x t s ≡ on_price x t (record s { realized_pnl_today = fl.lit 0 0 })
  unfolding on_price start_tick
  on_price_new_day x t s h d = rw (h, d)
