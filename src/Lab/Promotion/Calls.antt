-- ===== src/Lab/Promotion/Calls.antt =====
-- The calls on a promotion one after the other, and how a predicate is carried along (src/lab/promote.py).
use self_evaluating_trading.Common.{
  ◌≡◌, refl, Bool, true, false, List, [], ◌∷◌, String, if◌then◌else◌,
}
use self_evaluating_trading.Floating.{Floating}
use self_evaluating_trading.Lab.Sealed.{Promotion}
use self_evaluating_trading.Lab.Promotion.{
  ParityEvidence, RobustnessEvidence, HoldoutReadinessEvidence, Encoding, PromotionError, Files,
  Outcome, stepped, raised, advance_to_parity, advance_to_robustness, advance_to_holdout_ready,
  add_research_note,
}

-- The methods that make another promotion.
pub data Request (F : Type 0) : Type 0 where
  to_parity : ParityEvidence → String → Request F
  to_robustness : RobustnessEvidence F → String → Request F
  to_holdout_ready : HoldoutReadinessEvidence → String → Request F
  research_note : String → String → Request F

-- The caller goes on with the promotion that it got, and after an exception with the one that it had.
abbrev pub or_same : {T : Type 0} → Promotion → Files T → Outcome T → Promotion × Files T
or_same p files (stepped q g) = (q, g)
or_same p files (raised e) = (p, files)

-- A predicate on the promotion and the files that a call leaves.
abbrev pub Holds : {T : Type 0} → (Promotion → Files T → Type 0) → Promotion × Files T → Type 0
Holds P (p, files) = P p files

unfoldable pub Yields : {T : Type 0} → (Promotion → Files T → Type 0) → Outcome T → Type 0
Yields P (stepped q g) = P q g
Yields P (raised e) = Unit

-- A chain of guards: what follows one is only reached where it does not hold.
pub guarded :
    {T : Type 0} (P : Promotion → Files T → Type 0) (b : Bool) (e : PromotionError) (o : Outcome T)
    → (b ≡ false → Yields P o)
    → Yields P (if b then raised e else o)
unfolding Yields
guarded P true e o k = tt
guarded P false e o k = k refl

pub kept :
    {T : Type 0} (P : Promotion → Files T → Type 0) (p : Promotion) (files : Files T)
    (o : Outcome T)
    → P p files
    → Yields P o
    → Holds P (or_same p files o)
unfolding Yields
kept P p files (stepped q g) s y = y
kept P p files (raised e) s y = s

module _ {F T : Type 0} ⦃fl : Floating F⦄ (enc : Encoding F T) where
  unfoldable pub request : Request F → Promotion → Files T → Outcome T
  request (to_parity e t) = advance_to_parity enc e t
  request (to_robustness e t) = advance_to_robustness enc e t
  request (to_holdout_ready e t) = advance_to_holdout_ready enc e t
  request (research_note n t) = add_research_note enc n t

  unfoldable pub requests : List (Request F) → Promotion → Files T → Promotion × Files T
  requests [] p files = (p, files)
  requests (r ∷ rs) p files =
      let next = or_same p files (request r p files) in requests rs next.0 next.1

  pub requests_keep :
      (P : Promotion → Files T → Type 0)
      → ((r : Request F) (p : Promotion) (files : Files T)
          → P p files
          → Holds P (or_same p files (request r p files)))
      → (rs : List (Request F)) (p : Promotion) (files : Files T) → P p files
      → Holds P (requests rs p files)
  unfolding requests
  requests_keep P keep [] p files s = s
  requests_keep P keep (r ∷ rs) p files s = requests_keep P keep rs _ _ (keep r p files s)
