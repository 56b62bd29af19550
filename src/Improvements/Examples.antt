-- ===== src/Improvements/Examples.antt =====
-- A proposal, the attempts of a model, and a human's decision.
use self_evaluating_trading.Common.{◌≡◌, refl, false, List, [], ◌∷◌, String, lookup}
use self_evaluating_trading.Risk.Guards.{Requester}
use self_evaluating_trading.Improvements.{ImprovementProposal, ProposalStatus, Register}
use self_evaluating_trading.Improvements.Authority.{
  Call, calls, is_decided, calls_undecided, calls_decided,
}

abbrev proposal : ProposalStatus → ImprovementProposal String
proposal s = record {
  id = "p";
  title = "wider stop";
  analysis = "";
  proposed_change = "stop_atr_multiplier = 3";
  evidence = "";
  status = s;
  approval_id = "";
  rejection_reason = "";
}

-- A submission, a decision by the model, and one with no approval's id.
abbrev attempts : List (Call String)
attempts =
    Call.submission (proposal ProposalStatus.pending)
    ∷ Call.approval "p" Requester.llm "a-1"
    ∷ Call.approval "p" Requester.human ""
    ∷ []

calls_undecided_example : is_decided (lookup "p" (calls attempts [])) ≡ false
calls_undecided_example = calls_undecided "p" attempts [] (refl, (refl, (refl, tt))) refl

abbrev decided : Register String
decided = ("p", proposal ProposalStatus.approved) ∷ []

abbrev retries : List (Call String)
retries =
    Call.rejection "p" Requester.human "a-2" "too wide"
    ∷ Call.approval "q" Requester.human "a-3"
    ∷ []

calls_decided_example : lookup "p" (calls retries decided) ≡ lookup "p" decided
calls_decided_example = calls_decided "p" retries decided (refl, (refl, tt)) refl
