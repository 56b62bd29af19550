-- ===== src/Improvements.antt =====
-- Improvement proposals and their decision: src/domain/experiments/improvement.py and
-- src/application/services/approval_workflow.py. The two free-form dictionaries of a proposal are of
-- any type; an exception leaves the register as it was.
pub mod Authority
mod Examples
use self_evaluating_trading.Common.{
  Bool, true, false, not, ◌||◌, Option, none, some, List, [], ◌∷◌, String, str_eq, Dict, lookup,
  insert, if◌then◌else◌,
}
use self_evaluating_trading.Risk.Guards.{Requester, is_human}

pub data ProposalStatus : Type 0 where
  pending approved rejected : ProposalStatus

pub record ImprovementProposal (A : Type 0) : Type 0 where
  pub id : String
  pub title : String
  pub analysis : String
  pub proposed_change : A
  pub evidence : A
  pub status : ProposalStatus
  pub approval_id : String
  pub rejection_reason : String

-- The exceptions: `ValueError` of a new proposal that is decided, `PermissionError`, `KeyError`, and the
-- `ValueError` of a second decision.
pub data WorkflowError : Type 0 where
  not_pending permission unknown_id already_decided : WorkflowError

abbrev pub Register : Type 0 → Type 0
Register A = Dict (ImprovementProposal A)

pub data Answer (A : Type 0) : Type 0 where
  accepted : Register A → Answer A
  refused : WorkflowError → Answer A

abbrev pub is_pending : ProposalStatus → Bool
is_pending ProposalStatus.pending = true
is_pending _ = false

module _ {A : Type 0} where
  unfoldable pub with_status :
      ProposalStatus → String → String → ImprovementProposal A → ImprovementProposal A
  with_status s approval_id rejection_reason p = record p {
    status = s;
    approval_id = approval_id;
    rejection_reason = rejection_reason;
  }

  unfoldable pub submit : ImprovementProposal A → Register A → Answer A
  submit p w =
      if not (is_pending p.status)
      then Answer.refused WorkflowError.not_pending
      else Answer.accepted (insert p.id p w)

  unfoldable pub list_pending : Register A → List (ImprovementProposal A)
  list_pending [] = []
  list_pending ((k, p) ∷ w) = if is_pending p.status then p ∷ list_pending w else list_pending w

  -- The part of `_decide` after the permission, on what the register has under the id.
  unfoldable pub decide_found :
      String
      → String
      → String
      → ProposalStatus
      → Register A
      → Option (ImprovementProposal A)
      → Answer A
  decide_found proposal_id approval_id reason target w none =
      Answer.refused WorkflowError.unknown_id
  decide_found proposal_id approval_id reason target w (some p) =
      if not (is_pending p.status)
      then Answer.refused WorkflowError.already_decided
      else Answer.accepted (insert proposal_id (with_status target approval_id reason p) w)

  -- `_decide`
  unfoldable pub decide :
      String → Requester → String → String → ProposalStatus → Register A → Answer A
  decide proposal_id by approval_id reason target w =
      if not (is_human by) || str_eq approval_id ""
      then Answer.refused WorkflowError.permission
      else decide_found proposal_id approval_id reason target w (lookup proposal_id w)

  unfoldable pub approve : String → Requester → String → Register A → Answer A
  approve proposal_id by approval_id = decide proposal_id by approval_id "" ProposalStatus.approved

  unfoldable pub reject_proposal : String → Requester → String → String → Register A → Answer A
  reject_proposal proposal_id by approval_id reason =
      decide proposal_id by approval_id reason ProposalStatus.rejected
