-- ===== src/Improvements/Authority.antt =====
-- Who decides a proposal, over any sequence of calls (src/application/services/approval_workflow.py).
use self_evaluating_trading.Common.{
  ◌≡◌, refl, ◌∙◌, ap, arith, Bool, true, false, not, ◌&&◌, Option, none, some, List, [], ◌∷◌,
  String, str_eq, eq_iff, lookup, lookup-insert, All,
}
use self_evaluating_trading.Risk.Guards.{Requester, is_human}
use self_evaluating_trading.Improvements.{
  ImprovementProposal, ProposalStatus, Register, Answer, accepted, refused, is_pending, with_status,
  submit, decide, decide_found, approve, reject_proposal,
}

-- The methods that write the register.
pub data Call (A : Type 0) : Type 0 where
  submission : ImprovementProposal A → Call A
  approval : String → Requester → String → Call A
  rejection : String → Requester → String → String → Call A

-- A decided proposal is there.
abbrev pub is_decided : {A : Type 0} → Option (ImprovementProposal A) → Bool
is_decided none = false
is_decided (some p) = not (is_pending p.status)

-- The call decides the proposal by a human with an approval's id.
abbrev pub is_human_decision : {A : Type 0} → String → Call A → Bool
is_human_decision id (Call.submission p) = false
is_human_decision id (Call.approval i by a) = str_eq i id && is_human by && not (str_eq a "")
is_human_decision id (Call.rejection i by a r) = str_eq i id && is_human by && not (str_eq a "")

-- The call submits a proposal under the id.
abbrev pub submits : {A : Type 0} → String → Call A → Bool
submits id (Call.submission p) = str_eq p.id id
submits id _ = false

module _ {A : Type 0} where
  abbrev or_keep : Register A → Answer A → Register A
  or_keep w (accepted v) = v
  or_keep w (refused e) = w

  unfoldable pub call : Call A → Register A → Register A
  call (Call.submission p) w = or_keep w (submit p w)
  call (Call.approval i by a) w = or_keep w (approve i by a w)
  call (Call.rejection i by a r) w = or_keep w (reject_proposal i by a r w)

  unfoldable pub calls : List (Call A) → Register A → Register A
  calls [] w = w
  calls (c ∷ cs) w = calls cs (call c w)

  decide_found-undecided :
      (id i a r : String) (t : ProposalStatus) (w : Register A) (o : Option (ImprovementProposal A))
      → str_eq i id ≡ false
      → is_decided (lookup id w) ≡ false
      → is_decided (lookup id (or_keep w (decide_found i a r t w o))) ≡ false
  unfolding decide_found
  decide_found-undecided id i a r t w none h k = k
  decide_found-undecided id i a r t w (some p) h k =
      ground (arith, lookup-insert i id (with_status t a r p) w)

  decide-undecided :
      (id i : String) (by : Requester) (a r : String) (t : ProposalStatus) (w : Register A)
      → (str_eq i id && is_human by && not (str_eq a "")) ≡ false
      → is_decided (lookup id w) ≡ false
      → is_decided (lookup id (or_keep w (decide i by a r t w))) ≡ false
  unfolding decide
  decide-undecided id i by a r t w h k =
      ground (arith, decide_found-undecided id i a r t w (lookup i w))

  call-undecided :
      (id : String) (c : Call A) (w : Register A)
      → is_human_decision id c ≡ false
      → is_decided (lookup id w) ≡ false
      → is_decided (lookup id (call c w)) ≡ false
  unfolding call submit approve reject_proposal
  call-undecided id (Call.submission p) w h k =
      ground (arith, eq_iff p.id id, lookup-insert p.id id p w)
  call-undecided id (Call.approval i by a) w h k = decide-undecided id i by a _ _ w h k
  call-undecided id (Call.rejection i by a r) w h k = decide-undecided id i by a r _ w h k

  decide_found-decided :
      (id i a r : String) (t : ProposalStatus) (w : Register A) (o : Option (ImprovementProposal A))
      → lookup i w ≡ o
      → is_decided (lookup id w) ≡ true
      → lookup id (or_keep w (decide_found i a r t w o)) ≡ lookup id w
  unfolding decide_found
  decide_found-decided id i a r t w none e k = refl
  decide_found-decided id i a r t w (some p) e k =
      ground (arith, eq_iff i id, lookup-insert i id (with_status t a r p) w)

  decide-decided :
      (id i : String) (by : Requester) (a r : String) (t : ProposalStatus) (w : Register A)
      → is_decided (lookup id w) ≡ true
      → lookup id (or_keep w (decide i by a r t w)) ≡ lookup id w
  unfolding decide
  decide-decided id i by a r t w k =
      ground (arith, decide_found-decided id i a r t w (lookup i w) refl)

  call-decided :
      (id : String) (c : Call A) (w : Register A)
      → submits id c ≡ false
      → is_decided (lookup id w) ≡ true
      → lookup id (call c w) ≡ lookup id w
  unfolding call submit approve reject_proposal
  call-decided id (Call.submission p) w h k = ground (arith, lookup-insert p.id id p w)
  call-decided id (Call.approval i by a) w h k = decide-decided id i by a _ _ w k
  call-decided id (Call.rejection i by a r) w h k = decide-decided id i by a r _ w k

  -- A proposal that is not decided stays undecided through any sequence of calls that holds no decision of
  -- it by a human with a non-empty approval id: neither a model nor a submission decides it.
  pub calls_undecided :
      (id : String) (cs : List (Call A)) (w : Register A)
      → All (λ c. is_human_decision id c ≡ false) cs
      → is_decided (lookup id w) ≡ false
      → is_decided (lookup id (calls cs w)) ≡ false
  unfolding calls
  calls_undecided id [] w h k = k
  calls_undecided id (c ∷ cs) w (h, hs) k =
      calls_undecided id cs (call c w) hs (call-undecided id c w h k)

  -- A decided proposal is final: through any sequence of calls that submits none under its id it keeps
  -- every field, its status, approval and reason included.
  pub calls_decided :
      (id : String) (cs : List (Call A)) (w : Register A)
      → All (λ c. submits id c ≡ false) cs
      → is_decided (lookup id w) ≡ true
      → lookup id (calls cs w) ≡ lookup id w
  unfolding calls
  calls_decided id [] w h k = refl
  calls_decided id (c ∷ cs) w (h, hs) k =
      let same = call-decided id c w h k in
      let still : is_decided (lookup id (call c w)) ≡ true = ap is_decided same ∙ k in
      calls_decided id cs (call c w) hs still ∙ same
