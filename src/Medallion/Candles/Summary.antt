-- ===== src/Medallion/Candles/Summary.antt =====
-- What the candle of a bucket says of its trades (src/infrastructure/medallion/candles.py).
use self_evaluating_trading.Common.{
  ℕ, suc, ◌+◌, ◌≡◌, refl, ap, sym, subst, ◌∙◌, ◌⊎◌, inl, inr, false, Option, none, some, List, [],
  ◌∷◌, String, All, arith, length, Bool-cases,
}
use self_evaluating_trading.Medallion.Candles.{Decimals, IsOrdered, Row, Agg, absorb, get, fill}
use self_evaluating_trading.Medallion.Candles.Single.{absorb_all, rows_of, get-fill}

abbrev pub last_from : String → List Row → String
last_from p [] = p
last_from p (r ∷ rs) = last_from r.price rs

-- The text is a price of one of the trades.
abbrev pub IsAmong : String → List Row → Type 0
IsAmong p [] = ⊥
IsAmong p (r ∷ rs) = (p ≡ r.price) ⊎ IsAmong p rs

module _ {D : Type 0} ⦃dec : Decimals D⦄ where
  -- Quantities added in their order.
  abbrev pub volume_from : D → List Row → D
  volume_from v [] = v
  volume_from v (r ∷ rs) = volume_from (dec.add v (dec.of_text r.quantity)) rs

  -- What an aggregate has become after more trades.
  record IsAfter (a : Agg D) (rs : List Row) (z : Agg D) : Type 0 where
    closed : z.close ≡ last_from a.close rs
    opened : z.open_price ≡ a.open_price
    counted : z.count ≡ a.count + length rs
    summed : z.volume ≡ volume_from a.volume rs
    high_read : dec.of_text a.high ≡ a.high_d → dec.of_text z.high ≡ z.high_d
    low_read : dec.of_text a.low ≡ a.low_d → dec.of_text z.low ≡ z.low_d
    high_taken : (z.high ≡ a.high) ⊎ IsAmong z.high rs
    low_taken : (z.low ≡ a.low) ⊎ IsAmong z.low rs
    high_kept : dec.lt z.high_d a.high_d ≡ false
    low_kept : dec.lt a.low_d z.low_d ≡ false
    high_over : All (λ r. dec.lt z.high_d (dec.of_text r.price) ≡ false) rs
    low_under : All (λ r. dec.lt (dec.of_text r.price) z.low_d ≡ false) rs

  irrefl : (laws : IsOrdered D) (x : D) → dec.lt x x ≡ false
  irrefl laws x = elim (Bool-cases (dec.lt x x)) [ inl h ↦ laws.lt_asym x x h | inr h ↦ h ]

  absorb_one : (laws : IsOrdered D) (a : Agg D) (r : Row) → IsAfter a (r ∷ []) (absorb (some a) r)
  unfolding absorb
  absorb_one laws a r =
      let p = dec.of_text r.price in
      record {
        closed = refl;
        opened = refl;
        counted = omega arith;
        summed = refl;
        high_read = λ h. ground arith;
        low_read = λ h. ground arith;
        high_taken = ground arith;
        low_taken = ground arith;
        high_kept = ground (arith, laws.lt_asym a.high_d p, irrefl laws a.high_d);
        low_kept = ground (arith, laws.lt_asym p a.low_d, irrefl laws a.low_d);
        high_over = (ground (arith, irrefl laws p), tt);
        low_under = (ground (arith, irrefl laws p), tt);
      }

  IsAfter-trans :
      (laws : IsOrdered D) (a b z : Agg D) (r : Row) (rs : List Row)
      → IsAfter a (r ∷ []) b
      → IsAfter b rs z
      → IsAfter a (r ∷ rs) z
  IsAfter-trans laws a b z r rs one more = record {
    closed = more.closed ∙ ap (λ c. last_from c rs) one.closed;
    opened = more.opened ∙ one.opened;
    counted = omega (arith, one.counted, more.counted);
    summed = more.summed ∙ ap (λ v. volume_from v rs) one.summed;
    high_read = λ h. more.high_read (one.high_read h);
    low_read = λ h. more.low_read (one.low_read h);
    high_taken = ground (arith, more.high_taken, one.high_taken);
    low_taken = ground (arith, more.low_taken, one.low_taken);
    high_kept = laws.not_lt_trans z.high_d b.high_d a.high_d more.high_kept one.high_kept;
    low_kept = laws.not_lt_trans a.low_d b.low_d z.low_d one.low_kept more.low_kept;
    high_over = (
      laws.not_lt_trans z.high_d b.high_d (dec.of_text r.price) more.high_kept one.high_over.0,
      more.high_over,
    );
    low_under = (
      laws.not_lt_trans (dec.of_text r.price) b.low_d z.low_d one.low_under.0 more.low_kept,
      more.low_under,
    );
  }

  absorb_all-IsAfter :
      (laws : IsOrdered D) (a : Agg D) (rs : List Row)
      → (z : Agg D) × (absorb_all (some a) rs ≡ some z) × IsAfter a rs z
  absorb_all-IsAfter laws a [] = (
    a,
    refl,
    record {
      closed = refl;
      opened = refl;
      counted = omega arith;
      summed = refl;
      high_read = λ h. h;
      low_read = λ h. h;
      high_taken = inl refl;
      low_taken = inl refl;
      high_kept = irrefl laws a.high_d;
      low_kept = irrefl laws a.low_d;
      high_over = tt;
      low_under = tt;
    },
  )
  absorb_all-IsAfter laws a (r ∷ rs) =
      let b = absorb (some a) r in
      let (z, e, more) = absorb_all-IsAfter laws b rs in
      (z, e, IsAfter-trans laws a b z r rs (absorb_one laws a r) more)

  -- The candle of trades: the first and the last price, a highest and a lowest price that are prices of the
  -- trades, the sum of the quantities in their order, and the number of trades.
  pub record IsCandle (r : Row) (rs : List Row) (z : Agg D) : Type 0 where
    pub opens : z.open_price ≡ r.price
    pub closes : z.close ≡ last_from r.price rs
    pub counts : z.count ≡ suc (length rs)
    pub sums : z.volume ≡ volume_from (dec.of_text r.quantity) rs
    pub highest : All (λ s. dec.lt (dec.of_text z.high) (dec.of_text s.price) ≡ false) (r ∷ rs)
    pub lowest : All (λ s. dec.lt (dec.of_text s.price) (dec.of_text z.low) ≡ false) (r ∷ rs)
    pub high_among : IsAmong z.high (r ∷ rs)
    pub low_among : IsAmong z.low (r ∷ rs)

  -- What is known of a bucket from its trades: nothing without one, and else their candle.
  abbrev pub Describes : List Row → Option (Agg D) → Type 0
  Describes [] o = o ≡ none
  Describes (r ∷ rs) o = (z : Agg D) × (o ≡ some z) × IsCandle r rs z

  first-IsCandle :
      (r : Row) (rs : List Row) (z : Agg D) → IsAfter (absorb none r) rs z → IsCandle r rs z
  unfolding absorb
  first-IsCandle r rs z p =
      let high = p.high_read refl in
      let low = p.low_read refl in
      record {
        opens = p.opened;
        closes = p.closed;
        counts = omega (arith, p.counted);
        sums = p.summed;
        highest =
            subst (λ h. All (λ s. dec.lt h (dec.of_text s.price) ≡ false) (r ∷ rs)) (sym high)
              (p.high_kept, p.high_over);
        lowest =
            subst (λ h. All (λ s. dec.lt (dec.of_text s.price) h ≡ false) (r ∷ rs)) (sym low)
              (p.low_kept, p.low_under);
        high_among = p.high_taken;
        low_among = p.low_taken;
      }

  absorb_all-Describes : (laws : IsOrdered D) (rs : List Row) → Describes rs (absorb_all none rs)
  absorb_all-Describes laws [] = refl
  absorb_all-Describes laws (r ∷ rs) =
      let (z, e, p) = absorb_all-IsAfter laws (absorb none r) rs in (z, e, first-IsCandle r rs z p)

  -- The one pass over all trades leaves in each bucket the candle of the bucket's own trades.
  pub fill-Describes :
      (laws : IsOrdered D) (duration k : ℕ) (rows : List Row)
      → Describes (rows_of duration k rows) (get k (fill duration [] rows))
  fill-Describes laws duration k rows =
      subst (Describes (rows_of duration k rows)) (sym (get-fill duration k [] rows))
        (absorb_all-Describes laws (rows_of duration k rows))
