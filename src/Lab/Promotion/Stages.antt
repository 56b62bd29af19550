-- ===== src/Lab/Promotion/Stages.antt =====
-- How a promotion gets its state (src/lab/promote.py), over any sequence of calls.
use self_evaluating_trading.Common.{
  is_blank, ◌<◌, ◌≡◌, refl, subst, true, false, not, ◌||◌, leb, ◌==◌, Option, none, some, List, [],
  ◌∷◌, ◌++◌, String, str_eq, eq_iff, arith, is_some, lookup,
}
use self_evaluating_trading.Floating.{Floating, of_int}
use self_evaluating_trading.Lab.Texts.{is_hex64}
use self_evaluating_trading.Lab.Sealed.{HistoryEntry, Promotion}
use self_evaluating_trading.Lab.Promotion.{
  draft, parity_passed, robustness_passed, holdout_ready, ParityEvidence, RobustnessEvidence,
  HoldoutReadinessEvidence, Encoding, Files, stepped, path, create, step, lacks_expectancy,
  advance_to_parity, advance_to_robustness, advance_to_holdout_ready, add_research_note,
}
use self_evaluating_trading.Lab.Promotion.Calls.{
  Request, to_parity, to_robustness, to_holdout_ready, research_note, request, requests, or_same,
  Holds, Yields, guarded, kept, requests_keep,
}

module _ {F T : Type 0} ⦃fl : Floating F⦄ (enc : Encoding F T) where
  abbrev pub entry : String → String → String → String → String → HistoryEntry
  entry origin target timestamp evidence reason = record {
    origin = origin;
    target = target;
    timestamp = timestamp;
    evidence = evidence;
    reason = reason;
  }

  -- What the robustness evidence has to show: an expectancy that is there and not `<= 0`.
  pub record IsWinning (e : RobustnessEvidence F) : Type 0 where
    pub not_negative : str_eq e.robustness_interpretation "STABLE_NEGATIVE" ≡ false
    pub edge : e.edge_present ≡ true
    pub may_promote : e.promotable ≡ true
    pub profitable : 0 < e.profitable_windows
    pub expected : (x : F) × (e.expectancy ≡ some x) × (fl.le x (of_int 0) ≡ false)

  -- What the readiness evidence has to show.
  pub record IsApproved (e : HoldoutReadinessEvidence) : Type 0 where
    pub spec_hex : is_hex64 e.spec_id ≡ true
    pub identity_hex : is_hex64 e.strategy_identity ≡ true
    pub kernel_hex : is_hex64 e.kernel_fingerprint ≡ true
    pub version : e.split_version ≡ 1
    pub pristine : e.holdout_state ≡ "PRISTINE"
    pub approved : e.human_approved ≡ true
    pub named : is_blank e.approver ≡ false

  -- The histories that lead to a state: its gates in their order, each with evidence that passes it,
  -- and notes anywhere between them.
  pub data Stages : String → List HistoryEntry → Type 0 where
    at_start : Stages draft []
    past_parity :
        {s : String} {h : List HistoryEntry} (e : ParityEvidence) (t : String)
        → s ≡ draft
        → Stages s h
        → e.runtime_parity ≡ true
        → e.double_run_reproducibility ≡ true
        → Stages parity_passed
            (h ++ (entry s parity_passed t (enc.dumps_parity e) "parity evidence complete" ∷ []))
    past_robustness :
        {s : String} {h : List HistoryEntry} (e : RobustnessEvidence F) (t : String)
        → s ≡ parity_passed
        → Stages s h
        → IsWinning e
        → Stages robustness_passed (
            h
            ++ (entry s robustness_passed t
                  (enc.dumps_robustness e)
                  "robustness evidence shows edge"
                ∷ []))
    ready :
        {s : String} {h : List HistoryEntry} (e : HoldoutReadinessEvidence) (t : String)
        → s ≡ robustness_passed
        → Stages s h
        → IsApproved e
        → Stages holdout_ready (
            h
            ++ (entry s holdout_ready t
                  (enc.dumps_holdout e)
                  "candidate frozen for future holdout; holdout untouched"
                ∷ []))
    noted :
        {s : String} {h : List HistoryEntry} (n t : String)
        → Stages s h
        → Stages s (h ++ (entry s s t (enc.dumps_note n) "research-note" ∷ []))

  abbrev IsStaged : Promotion → Files T → Type 0
  IsStaged p files = Stages p.state p.history

  same_state : (a b : String) → not (str_eq a b) ≡ false → a ≡ b
  same_state a b e = ground (arith, eq_iff a b)

  to_parity-IsStaged :
      (e : ParityEvidence) (t : String) (p : Promotion) (files : Files T)
      → IsStaged p files
      → Yields IsStaged (advance_to_parity enc e t p files)
  unfolding advance_to_parity step Yields
  to_parity-IsStaged e t p files s = guarded IsStaged (not (str_eq p.state draft)) _ _ λ a.
      guarded IsStaged (not e.runtime_parity || not e.double_run_reproducibility) _ _
        λ b. past_parity e t (same_state p.state draft a) s (ground arith) (ground arith)

  lacks_expectancy-false :
      (o : Option F)
      → lacks_expectancy enc o ≡ false
      → (x : F) × (o ≡ some x) × (fl.le x (of_int 0) ≡ false)
  unfolding lacks_expectancy
  lacks_expectancy-false none e = absurd (ground arith)
  lacks_expectancy-false (some x) e = (x, refl, e)

  to_robustness-IsStaged :
      (e : RobustnessEvidence F) (t : String) (p : Promotion) (files : Files T)
      → IsStaged p files
      → Yields IsStaged (advance_to_robustness enc e t p files)
  unfolding advance_to_robustness step Yields
  to_robustness-IsStaged e t p files s =
      guarded IsStaged (not (str_eq p.state parity_passed)) _ _ λ a.
        guarded IsStaged (str_eq e.robustness_interpretation "STABLE_NEGATIVE") _ _ λ b.
          guarded IsStaged (not e.edge_present) _ _ λ c.
            guarded IsStaged (not e.promotable) _ _ λ d.
              guarded IsStaged (leb e.profitable_windows 0) _ _ λ w.
                guarded IsStaged (lacks_expectancy enc e.expectancy) _ _ λ x.
                  past_robustness e t (same_state p.state parity_passed a) s (record {
                    not_negative = b;
                    edge = ground arith;
                    may_promote = ground arith;
                    profitable = ground arith;
                    expected = lacks_expectancy-false e.expectancy x;
                  })

  to_holdout_ready-IsStaged :
      (e : HoldoutReadinessEvidence) (t : String) (p : Promotion) (files : Files T)
      → IsStaged p files
      → Yields IsStaged (advance_to_holdout_ready enc e t p files)
  unfolding advance_to_holdout_ready step Yields
  to_holdout_ready-IsStaged e t p files s =
      guarded IsStaged (not (str_eq p.state robustness_passed)) _ _ λ a.
        guarded IsStaged (not (is_hex64 e.spec_id)) _ _ λ b.
          guarded IsStaged (not (is_hex64 e.strategy_identity)) _ _ λ c.
            guarded IsStaged (not (is_hex64 e.kernel_fingerprint)) _ _ λ d.
              guarded IsStaged (not (e.split_version == 1)) _ _ λ v.
                guarded IsStaged (not (str_eq e.holdout_state "PRISTINE")) _ _ λ h.
                  guarded IsStaged (not e.human_approved || is_blank e.approver) _ _ λ k.
                    ready e t (same_state p.state robustness_passed a) s (record {
                      spec_hex = ground arith;
                      identity_hex = ground arith;
                      kernel_hex = ground arith;
                      version = ground arith;
                      pristine = same_state e.holdout_state "PRISTINE" h;
                      approved = ground arith;
                      named = ground arith;
                    })

  create-IsStaged :
      (identity spec : String) (files : Files T) → Yields IsStaged (create enc identity spec files)
  unfolding create Yields
  create-IsStaged identity spec files = guarded IsStaged (not (is_hex64 identity)) _ _ λ a.
      guarded IsStaged (not (is_hex64 spec)) _ _
        λ b. guarded IsStaged (is_some (lookup (path identity) files)) _ _ λ c. at_start

  request-IsStaged :
      (r : Request F) (p : Promotion) (files : Files T)
      → IsStaged p files
      → Holds IsStaged (or_same p files (request enc r p files))
  unfolding request add_research_note step Yields
  request-IsStaged (to_parity e t) p files s =
      kept IsStaged p files _ s (to_parity-IsStaged e t p files s)
  request-IsStaged (to_robustness e t) p files s =
      kept IsStaged p files _ s (to_robustness-IsStaged e t p files s)
  request-IsStaged (to_holdout_ready e t) p files s =
      kept IsStaged p files _ s (to_holdout_ready-IsStaged e t p files s)
  request-IsStaged (research_note n t) p files s = noted n t s

  -- However the calls on a created promotion are ordered, and whichever of them raise: its history holds
  -- the gates from DRAFT to PARITY_PASSED, from there to ROBUSTNESS_PASSED and from there to HOLDOUT_READY
  -- in this order, up to its state and each once, each with evidence that passes it, the three
  -- hashes of the last included, and all other entries
  -- are notes that keep the state.
  pub created-IsStaged :
      (identity spec : String) (files g : Files T) (p : Promotion) (rs : List (Request F))
      → create enc identity spec files ≡ stepped p g
      → Holds IsStaged (requests enc rs p g)
  unfolding Yields
  created-IsStaged identity spec files g p rs e =
      let y : Yields IsStaged (stepped p g) =
        subst (Yields IsStaged) e (create-IsStaged identity spec files) in
      requests_keep enc IsStaged request-IsStaged rs p g y
