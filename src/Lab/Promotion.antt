-- ===== src/Lab/Promotion.antt =====
-- src/lab/promote.py: the promotion of a strategy from DRAFT to HOLDOUT_READY, with its history and its
-- sealed file. A root is a dictionary from file names to the texts of files, of any type T. Python's `json` and `hashlib` are
-- parameters. The state of a promotion is a text, since a file may hold any; the counts of windows and the
-- split's version are natural numbers.
pub mod Calls
pub mod Stages
pub mod Store
use Prim.Native.String.{◌++◌ as append}
use self_evaluating_trading.Common.{
  ℕ, Bool, true, not, ◌||◌, Option, none, some, [], ◌∷◌, ◌++◌, String, str_eq, Dict, lookup, insert,
  if◌then◌else◌, leb, ◌==◌, is_some, is_blank,
}
use self_evaluating_trading.Floating.{Floating, of_int}
use self_evaluating_trading.Lab.Texts.{is_hex64}
use self_evaluating_trading.Lab.Sealed.{
  HistoryEntry, Promotion, Json, Fields, body, sealed, has_hash, body_of, promotion_of,
}

abbrev pub draft : String
draft = "DRAFT"

abbrev pub parity_passed : String
parity_passed = "PARITY_PASSED"

abbrev pub robustness_passed : String
robustness_passed = "ROBUSTNESS_PASSED"

abbrev pub holdout_ready : String
holdout_ready = "HOLDOUT_READY"

pub record ParityEvidence : Type 0 where
  pub runtime_parity : Bool
  pub double_run_reproducibility : Bool

pub record RobustnessEvidence (F : Type 0) : Type 0 where
  pub profitable_windows : ℕ
  pub losing_windows : ℕ
  pub expectancy : Option F
  pub robustness_interpretation : String
  pub edge_present : Bool
  pub promotable : Bool

pub record HoldoutReadinessEvidence : Type 0 where
  pub spec_id : String
  pub strategy_identity : String
  pub kernel_fingerprint : String
  pub split_version : ℕ
  pub holdout_state : String
  pub human_approved : Bool
  pub approver : String

-- The texts that `json` and `hashlib` make: of evidence and notes, of a file, and the digest of a body.
-- `loads` is `none` where `json.loads` raises.
pub record Encoding (F T : Type 0) : Type 0 where
  pub dumps_parity : ParityEvidence → String
  pub dumps_robustness : RobustnessEvidence F → String
  pub dumps_holdout : HoldoutReadinessEvidence → String
  pub dumps_note : String → String
  pub dumps : Json → T
  pub loads : T → Option Json
  pub digest : Json → String

-- The exceptions.
pub data PromotionError : Type 0 where
  not_hex promotion_exists state_jump parity_incomplete stable_negative no_edge not_promotable :
      PromotionError
  no_profitable_windows expectancy_not_positive split_mismatch holdout_not_pristine : PromotionError
  approval_required unknown_promotion unreadable tampered unsupported_state unknown_state :
      PromotionError

abbrev pub Files : Type 0 → Type 0
Files T = Dict T

pub data Outcome (T : Type 0) : Type 0 where
  stepped : Promotion → Files T → Outcome T
  raised : PromotionError → Outcome T

pub data Loaded : Type 0 where
  loaded : Promotion → Loaded
  failed : PromotionError → Loaded

unfoldable pub path : String → String
path identity = append identity ".state.json"

-- `POST_MVP_A_STATES`, and `request_post_mvp_a`, which always raises
unfoldable pub request_post_mvp_a : String → PromotionError
request_post_mvp_a target =
    if str_eq target "HOLDOUT_PASSED"
      || str_eq target "RELEASE_CANDIDATE"
      || str_eq target "PAPER_APPROVED"
    then PromotionError.unsupported_state
    else PromotionError.unknown_state

module _ {F T : Type 0} ⦃fl : Floating F⦄ (enc : Encoding F T) where
  -- `_seal`
  unfoldable pub seal : Fields → String
  seal fields = enc.digest (Json.object fields)

  unfoldable pub persist : Promotion → Files T → Files T
  persist p files =
      insert (path p.strategy_identity) (enc.dumps (Json.object (sealed p (seal (body p))))) files

  unfoldable pub create : String → String → Files T → Outcome T
  create identity spec files =
      let p : Promotion = record {
        strategy_identity = identity;
        state = draft;
        spec_id = spec;
        history = [];
      } in
      if not (is_hex64 identity)
      then Outcome.raised PromotionError.not_hex
      else if not (is_hex64 spec)
      then Outcome.raised PromotionError.not_hex
      else if is_some (lookup (path identity) files)
      then Outcome.raised PromotionError.promotion_exists
      else Outcome.stepped p (persist p files)

  -- The promotion of a body; `none` is the exception of an entry.
  abbrev pub loaded_or : Option Promotion → Loaded
  loaded_or none = Loaded.failed PromotionError.unreadable
  loaded_or (some p) = Loaded.loaded p

  -- The payload's hash is compared with the seal of its body, then the object is built.
  unfoldable pub load_body : Fields → Option Fields → Loaded
  load_body payload none = Loaded.failed PromotionError.unreadable
  load_body payload (some fields) =
      if not (has_hash (seal fields) payload)
      then Loaded.failed PromotionError.tampered
      else loaded_or (promotion_of fields)

  unfoldable pub load_payload : Option Json → Loaded
  load_payload (some (Json.object payload)) = load_body payload (body_of payload)
  load_payload _ = Loaded.failed PromotionError.unreadable

  unfoldable pub load_file : Option T → Loaded
  load_file none = Loaded.failed PromotionError.unknown_promotion
  load_file (some content) = load_payload (enc.loads content)

  unfoldable pub load : String → Files T → Loaded
  load identity files =
      if not (is_hex64 identity)
      then Loaded.failed PromotionError.not_hex
      else load_file (lookup (path identity) files)

  -- `_step`
  unfoldable pub step : String → String → String → String → Promotion → Files T → Outcome T
  step target timestamp evidence reason p files =
      let entry : HistoryEntry = record {
        origin = p.state;
        target = target;
        timestamp = timestamp;
        evidence = evidence;
        reason = reason;
      } in
      let q = record p { state = target; history = p.history ++ (entry ∷ []) } in
      Outcome.stepped q (persist q files)

  unfoldable pub advance_to_parity : ParityEvidence → String → Promotion → Files T → Outcome T
  advance_to_parity e timestamp p files =
      if not (str_eq p.state draft)
      then Outcome.raised PromotionError.state_jump
      else if not e.runtime_parity || not e.double_run_reproducibility
      then Outcome.raised PromotionError.parity_incomplete
      else step parity_passed timestamp (enc.dumps_parity e) "parity evidence complete" p files

  -- `expectancy is None or expectancy <= 0`
  unfoldable pub lacks_expectancy : Option F → Bool
  lacks_expectancy none = true
  lacks_expectancy (some x) = fl.le x (of_int 0)

  unfoldable pub advance_to_robustness :
      RobustnessEvidence F → String → Promotion → Files T → Outcome T
  advance_to_robustness e timestamp p files =
      if not (str_eq p.state parity_passed)
      then Outcome.raised PromotionError.state_jump
      else if str_eq e.robustness_interpretation "STABLE_NEGATIVE"
      then Outcome.raised PromotionError.stable_negative
      else if not e.edge_present
      then Outcome.raised PromotionError.no_edge
      else if not e.promotable
      then Outcome.raised PromotionError.not_promotable
      else if leb e.profitable_windows 0
      then Outcome.raised PromotionError.no_profitable_windows
      else if lacks_expectancy e.expectancy
      then Outcome.raised PromotionError.expectancy_not_positive
      else step robustness_passed timestamp (enc.dumps_robustness e)
          "robustness evidence shows edge" p files

  unfoldable pub advance_to_holdout_ready :
      HoldoutReadinessEvidence → String → Promotion → Files T → Outcome T
  advance_to_holdout_ready e timestamp p files =
      if not (str_eq p.state robustness_passed)
      then Outcome.raised PromotionError.state_jump
      else if not (is_hex64 e.spec_id)
      then Outcome.raised PromotionError.not_hex
      else if not (is_hex64 e.strategy_identity)
      then Outcome.raised PromotionError.not_hex
      else if not (is_hex64 e.kernel_fingerprint)
      then Outcome.raised PromotionError.not_hex
      else if not (e.split_version == 1)
      then Outcome.raised PromotionError.split_mismatch
      else if not (str_eq e.holdout_state "PRISTINE")
      then Outcome.raised PromotionError.holdout_not_pristine
      else if not e.human_approved || is_blank e.approver
      then Outcome.raised PromotionError.approval_required
      else step holdout_ready timestamp (enc.dumps_holdout e)
          "candidate frozen for future holdout; holdout untouched" p files

  unfoldable pub add_research_note : String → String → Promotion → Files T → Outcome T
  add_research_note note timestamp p files =
      step p.state timestamp (enc.dumps_note note) "research-note" p files
