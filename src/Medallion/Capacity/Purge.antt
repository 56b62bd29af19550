-- ===== src/Medallion/Capacity/Purge.antt =====
-- What the purge of the cache removes (src/infrastructure/medallion/capacity_guards.py).
use self_evaluating_trading.Common.{
  ℕ, ◌-◌, ◌≤◌, ◌<◌, ◌≡◌, refl, ap, ◌⊎◌, inl, inr, Bool, true, false, leb, List, [], ◌∷◌, ◌++◌,
  arith,
}
use self_evaluating_trading.Medallion.Capacity.{CacheFile, purge, purge_round}

-- The bytes that are left after files have been removed.
abbrev pub left : ℕ → List CacheFile → ℕ
left bytes [] = bytes
left bytes (f ∷ fs) = left (bytes - f.size) fs

-- Every removal was made while the bytes exceeded the maximum.
abbrev pub IsNeeded : ℕ → ℕ → List CacheFile → Type 0
IsNeeded max_bytes bytes [] = Unit
IsNeeded max_bytes bytes (f ∷ fs) = (max_bytes < bytes) × IsNeeded max_bytes (bytes - f.size) fs

pub record IsPurge (max_bytes bytes : ℕ) (candidates : List CacheFile) (r : List CacheFile × ℕ)
    : Type 0 where
  pub first : (rest : List CacheFile) × (r.0 ++ rest ≡ candidates)
  pub needed : IsNeeded max_bytes bytes r.0
  pub counted : r.1 ≡ left bytes r.0
  pub exhausted : (r.1 ≤ max_bytes) ⊎ (r.0 ≡ candidates)

purge_round-IsPurge :
    (t : Bool) (m b : ℕ) (f : CacheFile) (fs : List CacheFile) (r : List CacheFile × ℕ)
    → leb b m ≡ t
    → IsPurge m (b - f.size) fs r
    → IsPurge m b (f ∷ fs) (purge_round t b f r)
unfolding purge_round
purge_round-IsPurge true m b f fs r e p = record {
  first = (f ∷ fs, refl);
  needed = tt;
  counted = refl;
  exhausted = inl (ground arith);
}
purge_round-IsPurge false m b f fs (ps, c) e p = record {
  first = let (rest, q) = p.first in (rest, ap (λ x. f ∷ x) q);
  needed = (ground arith, p.needed);
  counted = p.counted;
  exhausted = elim p.exhausted [ inl h ↦ inl h | inr q ↦ inr (ap (λ x. f ∷ x) q) ];
}

pub purge-IsPurge : (m b : ℕ) (fs : List CacheFile) → IsPurge m b fs (purge m b fs)
unfolding purge
purge-IsPurge m b [] = record {
  first = ([], refl);
  needed = tt;
  counted = refl;
  exhausted = inr refl;
}
purge-IsPurge m b (f ∷ fs) =
    purge_round-IsPurge (leb b m) m b f fs (purge m (b - f.size) fs) refl
      (purge-IsPurge m (b - f.size) fs)

pub none-IsPurge : (m b : ℕ) (fs : List CacheFile) → leb b m ≡ true → IsPurge m b fs ([], b)
none-IsPurge m b fs e = record {
  first = (fs, refl);
  needed = tt;
  counted = refl;
  exhausted = inl (ground arith);
}
