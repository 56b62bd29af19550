-- ===== src/Medallion/Replay/Context.antt =====
-- The row of a context that a decision sees (src/infrastructure/medallion/replay.py: `_context_at`), against the
-- latest row that was closed by then.
use self_evaluating_trading.Common.{
  ℕ, zero, suc, ◌+◌, ◌/◌, ◌≡◌, ◌≤◌, ◌<◌, refl, sym, ap, ◌∙◌, true, false, ltb, leb, Option, none,
  some, List, [], ◌∷◌, length, get_elem?, map, All, arith, if◌then◌else◌, Bool-cases, inl, inr,
}
use self_evaluating_trading.Medallion.Replay.{CandleRow}
use self_evaluating_trading.Medallion.Replay.Engine.{
  or_nothing, bisect_within, row_before, context_at,
}

-- Every key is at most the ones that follow it.
abbrev pub IsAscending : List ℕ → Type 0
IsAscending [] = Unit
IsAscending (k ∷ ks) = All (λ j. k ≤ j) ks × IsAscending ks

-- How many keys at the front are at most `x`.
abbrev count_upto : List ℕ → ℕ → ℕ
count_upto [] x = 0
count_upto (k ∷ ks) x = let rest = count_upto ks x in if leb k x then suc rest else 0

count_upto_le : (ks : List ℕ) (x : ℕ) → count_upto ks x ≤ length ks
count_upto_le [] x = omega arith
count_upto_le (k ∷ ks) x = elim (Bool-cases (leb k x)) [
  | inl h ↦ rw h (omega (arith, count_upto_le ks x))
  | inr h ↦ rw h (omega arith)
]

-- Once a key is past `x`, all that follow are.
later :
    (ks : List ℕ) (k x i : ℕ)
    → All (λ j. k ≤ j) ks
    → x < k
    → i < length ks
    → ltb x (or_nothing (get_elem? ks i)) ≡ true
later [] k x i h l m = absurd (omega arith)
later (j ∷ ks) k x zero (h, hs) l m = ground arith
later (j ∷ ks) k x (suc i) (h, hs) l m = later ks k x i hs l (omega arith)

ltb-get_elem? :
    (ks : List ℕ) (x i : ℕ)
    → IsAscending ks
    → i < length ks
    → ltb x (or_nothing (get_elem? ks i)) ≡ leb (count_upto ks x) i
ltb-get_elem? [] x i h m = absurd (omega arith)
ltb-get_elem? (k ∷ ks) x zero (h, hs) m = elim (Bool-cases (leb k x)) [
  | inl e ↦ rw e (ground arith)
  | inr e ↦ rw e (ground arith)
]
ltb-get_elem? (k ∷ ks) x (suc i) (h, hs) m = elim (Bool-cases (leb k x)) [
  | inl e ↦ rw e (ltb-get_elem? ks x i hs (omega arith) ∙ ground arith)
  | inr e ↦ rw e (later ks k x i h (ground arith) (omega arith) ∙ ground arith)
]

-- The rounds are enough as soon as there are as many as the interval is long.
bisect_within-count_upto :
    (fuel : ℕ) (ks : List ℕ) (x lo hi : ℕ)
    → IsAscending ks
    → lo ≤ count_upto ks x
    → count_upto ks x ≤ hi
    → hi ≤ length ks
    → hi ≤ lo + fuel
    → bisect_within fuel ks x lo hi ≡ count_upto ks x
unfolding bisect_within
bisect_within-count_upto zero ks x lo hi a l u m f = omega arith
bisect_within-count_upto (suc fuel) ks x lo hi a l u m f =
    let mid = (lo + hi) / 2 in
    elim (Bool-cases (ltb lo hi)) [
      | inl more ↦
          rw (more, ltb-get_elem? ks x mid a (ground arith))
            (elim (Bool-cases (leb (count_upto ks x) mid)) [
              | inl e ↦ rw e (
                  bisect_within-count_upto fuel ks x lo mid a l (ground arith) (ground arith)
                    (ground arith))
              | inr e ↦ rw e (
                  bisect_within-count_upto fuel ks x (suc mid) hi a (ground arith) u m
                    (ground arith))
            ])
      | inr done ↦ rw done (ground arith)
    ]

module _ {F : Type 0} where
  abbrev or_row : Option (CandleRow F) → CandleRow F → Option (CandleRow F)
  or_row none c = some c
  or_row (some r) c = some r

  -- The last of the rows that were closed by then.
  abbrev pub latest : List (CandleRow F) → ℕ → Option (CandleRow F)
  latest [] t = none
  latest (c ∷ cs) t = let rest = latest cs t in if leb c.close_time t then or_row rest c else rest

  latest-later :
      (cs : List (CandleRow F)) (k t : ℕ)
      → All (λ j. k ≤ j) (map CandleRow.close_time cs)
      → t < k
      → latest cs t ≡ none
  latest-later [] k t h l = refl
  latest-later (c ∷ cs) k t (h, hs) l =
      let e : leb c.close_time t ≡ false = ground arith in rw e (latest-later cs k t hs l)

  get_elem?-or_row :
      (cs : List (CandleRow F)) (c : CandleRow F) (n : ℕ)
      → n < length cs
      → get_elem? cs n ≡ or_row (get_elem? cs n) c
  get_elem?-or_row [] c n h = absurd (omega arith)
  get_elem?-or_row (d ∷ cs) c zero h = refl
  get_elem?-or_row (d ∷ cs) c (suc n) h = get_elem?-or_row cs c n (omega arith)

  row_before-suc :
      (cs : List (CandleRow F)) (c : CandleRow F) (n : ℕ)
      → n ≤ length cs
      → row_before (c ∷ cs) (suc n) ≡ or_row (row_before cs n) c
  row_before-suc cs c zero h = refl
  row_before-suc cs c (suc n) h = get_elem?-or_row cs c n (omega arith)

  length_times : (cs : List (CandleRow F)) → length (map CandleRow.close_time cs) ≡ length cs
  length_times [] = refl
  length_times (c ∷ cs) = ap suc (length_times cs)

  row_before-latest :
      (cs : List (CandleRow F)) (t : ℕ)
      → IsAscending (map CandleRow.close_time cs)
      → row_before cs (count_upto (map CandleRow.close_time cs) t) ≡ latest cs t
  row_before-latest [] t h = refl
  row_before-latest (c ∷ cs) t (h, hs) =
      let ks = map CandleRow.close_time cs in
      elim (Bool-cases (leb c.close_time t)) [
        | inl e ↦ rw e (
            row_before-suc cs c (count_upto ks t)
              (omega (arith, count_upto_le ks t, length_times cs))
            ∙ ap (λ o. or_row o c) (row_before-latest cs t hs))
        | inr e ↦ rw e (sym (latest-later cs c.close_time t h (ground arith)))
      ]

  -- In a context whose rows are in order of their closing, a decision sees the last of the rows that were closed by
  -- its time, however many rows there are, and no row where none was closed by then.
  pub context_at-eq-latest :
      (rows : List (CandleRow F)) (t : ℕ)
      → IsAscending (map CandleRow.close_time rows)
      → context_at rows t ≡ latest rows t
  unfolding context_at
  context_at-eq-latest rows t h =
      let ks = map CandleRow.close_time rows in
      ap (row_before rows) (
        bisect_within-count_upto (length ks) ks t 0 (length ks) h (omega arith) (count_upto_le ks t)
          (omega arith) (omega arith))
      ∙ row_before-latest rows t h
