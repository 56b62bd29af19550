-- ===== src/Risk/Emergency.antt =====
-- The kill switch over any sequence of requests, and its serialised form (src/domain/risk/guards.py).
use self_evaluating_trading.Common.{
  ℕ, ◌≡◌, refl, Bool, true, false, not, ◌&&◌, Option, none, some, List, [], ◌∷◌, String, str_eq,
  arith, All,
}
use self_evaluating_trading.Risk.Guards.{
  KillSwitchState, Requester, human, llm, activate, reset, allows_trading, to_dict, from_dict,
  is_human,
}

-- The methods of `KillSwitch` that write its state.
pub data Request : Type 0 where
  activation : String → ℕ → Request
  resetting : Requester → String → Request

-- A refused reset raises and leaves the state as it is.
abbrev or_keep : KillSwitchState → Option KillSwitchState → KillSwitchState
or_keep s none = s
or_keep s (some t) = t

unfoldable pub request : Request → KillSwitchState → KillSwitchState
request (Request.activation why ts) s = activate why ts s
request (Request.resetting by approval_id) s = or_keep s (reset by approval_id s)

unfoldable pub requests : List Request → KillSwitchState → KillSwitchState
unfolding request
requests [] s = s
requests (r ∷ rs) s = requests rs (request r s)

-- The request is a reset by a human with an approval's id.
abbrev pub is_approved : Request → Bool
is_approved (Request.activation why ts) = false
is_approved (Request.resetting by approval_id) = is_human by && not (str_eq approval_id "")

request_keeps :
    (r : Request) (s : KillSwitchState) → is_approved r ≡ false → s.active ≡ true → request r s ≡ s
unfolding request activate reset
request_keeps (Request.activation why ts) s h a = ground arith
request_keeps (Request.resetting human approval_id) s h a = ground arith
request_keeps (Request.resetting llm approval_id) s h a = refl

-- Once the kill switch is active, no sequence of requests without a reset by a human with a non-empty
-- approval id changes it: it blocks trading, and keeps its first reason and time.
pub requests_keep :
    (rs : List Request) (s : KillSwitchState)
    → All (λ r. is_approved r ≡ false) rs
    → s.active ≡ true
    → (requests rs s ≡ s) × (allows_trading (requests rs s) ≡ false)
unfolding requests allows_trading
requests_keep [] s h a = (refl, ground arith)
requests_keep (r ∷ rs) s (h, hs) a =
    ground (arith, request_keeps r s h a, requests_keep rs (request r s) hs)

-- The state read back from its serialised form is the state that was written.
pub from_dict-to_dict : (s : KillSwitchState) → from_dict (to_dict s) ≡ s
unfolding from_dict to_dict
from_dict-to_dict s = refl
