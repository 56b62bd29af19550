-- ===== src/Medallion/Candles/Sorting.antt =====
-- Buckets as dictionaries, and their order (src/infrastructure/medallion/candles.py).
use self_evaluating_trading.Common.{
  ℕ, ◌<◌, ◌≡◌, refl, ◌∙◌, inl, inr, ◌==◌, ==_iff, leb, none, some, [], ◌∷◌, if◌then◌else◌, arith,
  Bool-cases,
}
use self_evaluating_trading.Medallion.Candles.{
  Decimals, Agg, Buckets, get, set, insert_bucket, sort_buckets,
}
use self_evaluating_trading.Medallion.Candles.Single.{get-set}

module _ {D : Type 0} ⦃dec : Decimals D⦄ where
  get-insert_bucket :
      (k j : ℕ) (a : Agg D) (d : Buckets D)
      → get j (insert_bucket k a d) ≡ (if k == j then some a else get j d)
  unfolding insert_bucket
  get-insert_bucket k j a [] = refl
  get-insert_bucket k j a ((i, b) ∷ d) =
      ground (arith, ==_iff k j, ==_iff i j, get-insert_bucket k j a d)

  pub get-sort_buckets : (j : ℕ) (d : Buckets D) → get j (sort_buckets d) ≡ get j d
  unfolding sort_buckets
  get-sort_buckets j [] = refl
  get-sort_buckets j ((k, a) ∷ d) =
      get-insert_bucket k j a (sort_buckets d) ∙ rw (get-sort_buckets j d) refl

  abbrev pub IsDistinct : Buckets D → Type 0
  IsDistinct [] = Unit
  IsDistinct ((k, a) ∷ d) = (get k d ≡ none) × IsDistinct d

  pub set-IsDistinct : (k : ℕ) (a : Agg D) (d : Buckets D) → IsDistinct d → IsDistinct (set k a d)
  set-IsDistinct k a [] h = (refl, tt)
  set-IsDistinct k a ((j, b) ∷ d) (p, h) = elim (Bool-cases (j == k)) [
    | inl same ↦ rw same (p, h)
    | inr other ↦
        rw other (ground (arith, get-set k j a d, ==_iff k j, ==_iff j k), set-IsDistinct k a d h)
  ]

  -- The keys that a bucket may have.
  abbrev pub HasKeys {κ} : (ℕ → Type κ) → Buckets D → Type κ
  HasKeys P [] = Unit
  HasKeys P ((k, a) ∷ d) = P k × HasKeys P d

  pub set-HasKeys {κ} :
      (P : ℕ → Type κ) (k : ℕ) (a : Agg D) (d : Buckets D)
      → P k
      → HasKeys P d
      → HasKeys P (set k a d)
  set-HasKeys P k a [] p h = (p, tt)
  set-HasKeys P k a ((j, b) ∷ d) p (q, h) = elim (Bool-cases (j == k)) [
    | inl same ↦ rw same (q, h)
    | inr other ↦ rw other (q, set-HasKeys P k a d p h)
  ]

  insert_bucket-HasKeys {κ} :
      (P : ℕ → Type κ) (k : ℕ) (a : Agg D) (d : Buckets D)
      → P k
      → HasKeys P d
      → HasKeys P (insert_bucket k a d)
  unfolding insert_bucket
  insert_bucket-HasKeys P k a [] p h = (p, tt)
  insert_bucket-HasKeys P k a ((j, b) ∷ d) p (q, h) = elim (Bool-cases (leb k j)) [
    | inl below ↦ rw below (p, (q, h))
    | inr above ↦ rw above (q, insert_bucket-HasKeys P k a d p h)
  ]

  pub HasKeys-map {κ ι} :
      (P : ℕ → Type κ) (Q : ℕ → Type ι) (d : Buckets D)
      → ((j : ℕ) → P j → Q j)
      → HasKeys P d
      → HasKeys Q d
  HasKeys-map P Q [] f h = tt
  HasKeys-map P Q ((j, b) ∷ d) f (p, h) = (f j p, HasKeys-map P Q d f h)

  pub HasKeys-both {κ ι μ} :
      (P : ℕ → Type κ) (Q : ℕ → Type ι) (R : ℕ → Type μ) (d : Buckets D)
      → ((j : ℕ) → P j → Q j → R j)
      → HasKeys P d
      → HasKeys Q d
      → HasKeys R d
  HasKeys-both P Q R [] f h g = tt
  HasKeys-both P Q R ((j, b) ∷ d) f (p, h) (q, g) = (f j p q, HasKeys-both P Q R d f h g)

  pub sort_buckets-HasKeys {κ} :
      (P : ℕ → Type κ) (d : Buckets D) → HasKeys P d → HasKeys P (sort_buckets d)
  unfolding sort_buckets
  sort_buckets-HasKeys P [] h = tt
  sort_buckets-HasKeys P ((k, a) ∷ d) (p, h) =
      insert_bucket-HasKeys P k a (sort_buckets d) p (sort_buckets-HasKeys P d h)

  -- Each key is below all that follow.
  abbrev pub IsAscending : Buckets D → Type 0
  IsAscending [] = Unit
  IsAscending ((k, a) ∷ d) = HasKeys (λ j. k < j) d × IsAscending d

  insert_bucket-IsAscending :
      (k : ℕ) (a : Agg D) (d : Buckets D)
      → get k d ≡ none
      → IsAscending d
      → IsAscending (insert_bucket k a d)
  unfolding insert_bucket
  insert_bucket-IsAscending k a [] n h = (tt, tt)
  insert_bucket-IsAscending k a ((j, b) ∷ d) n (l, h) = elim (Bool-cases (leb k j)) [
    | inl below ↦
        let lt : k < j = ground (arith, ==_iff j k) in
        rw below ((lt, HasKeys-map (λ i. j < i) (λ i. k < i) d (λ i q. omega arith) l), (l, h))
    | inr above ↦
        let rest : get k d ≡ none = ground (arith, ==_iff j k) in
        rw above (
          insert_bucket-HasKeys (λ i. j < i) k a d (ground arith) l,
          insert_bucket-IsAscending k a d rest h,
        )
  ]

  pub sort_buckets-IsAscending : (d : Buckets D) → IsDistinct d → IsAscending (sort_buckets d)
  unfolding sort_buckets
  sort_buckets-IsAscending [] h = tt
  sort_buckets-IsAscending ((k, a) ∷ d) (n, h) =
      insert_bucket-IsAscending k a (sort_buckets d) (get-sort_buckets k d ∙ n)
        (sort_buckets-IsAscending d h)
