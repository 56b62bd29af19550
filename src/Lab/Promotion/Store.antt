-- ===== src/Lab/Promotion/Store.antt =====
-- The file of a promotion (src/lab/promote.py): what is written is read back, and a change is noticed.
use self_evaluating_trading.Common.{
  ◌≡◌, ◌≢◌, refl, ◌∙◌, [], ◌∷◌, subst, Bool, true, false, not, some, List, String, str_eq, eq_iff,
  eq_refl, arith, if◌then◌else◌, lookup, insert, lookup-insert_same, is_some,
}
use self_evaluating_trading.Floating.{Floating}
use self_evaluating_trading.Lab.Texts.{is_hex64}
use self_evaluating_trading.Lab.Sealed.{
  HistoryEntry, Promotion, Json, get, entry_object, entry_objects, body, sealed, entry_of,
  entries_of, history_of, has_hash, body_of, promotion_of,
}
use self_evaluating_trading.Lab.Promotion.{
  ParityEvidence, RobustnessEvidence, HoldoutReadinessEvidence, Encoding, PromotionError, Files,
  Outcome, stepped, raised, loaded, failed, path, seal, persist, create, load, load_file,
  load_payload, load_body, step, advance_to_parity, advance_to_robustness, advance_to_holdout_ready,
  add_research_note,
}
use self_evaluating_trading.Lab.Promotion.Calls.{
  Request, to_parity, to_robustness, to_holdout_ready, research_note, request, requests, or_same,
  Holds, Yields, guarded, kept, requests_keep,
}

-- `json.loads` of the text that `json.dumps` made of an object that the module writes is that object.
abbrev pub ReadsBack : {F T : Type 0} → Encoding F T → Type 0
ReadsBack enc =
    (p : Promotion) (h : String)
    → enc.loads (enc.dumps (Json.object (sealed p h))) ≡ some (Json.object (sealed p h))

-- An entry, a history and a body are taken apart to what they were made of.
entry_of-entry_object : (e : HistoryEntry) → entry_of (entry_object e) ≡ some e
unfolding entry_of entry_object get
entry_of-entry_object e = refl

entries_of-entry_objects : (es : List HistoryEntry) → entries_of (entry_objects es) ≡ some es
unfolding entries_of entry_objects
entries_of-entry_objects [] = refl
entries_of-entry_objects (e ∷ es) = rw (entry_of-entry_object e, entries_of-entry_objects es) refl

promotion_of-body : (p : Promotion) → promotion_of (body p) ≡ some p
unfolding promotion_of body get history_of
promotion_of-body p = rw (entries_of-entry_objects p.history) refl

body_of-sealed : (p : Promotion) (h : String) → body_of (sealed p h) ≡ some (body p)
unfolding body_of sealed body get
body_of-sealed p h = refl

has_hash-sealed : (p : Promotion) (g h : String) → has_hash g (sealed p h) ≡ str_eq h g
unfolding has_hash sealed get
has_hash-sealed p g h = refl

module _ {F T : Type 0} ⦃fl : Floating F⦄ (enc : Encoding F T) where
  -- The file of the promotion is the one that it writes of itself.
  abbrev IsStored : Promotion → Files T → Type 0
  IsStored p files =
      (is_hex64 p.strategy_identity ≡ true)
      × (lookup (path p.strategy_identity) files
          ≡ some (enc.dumps (Json.object (sealed p (seal enc (body p))))))

  persist-IsStored :
      (p : Promotion) (files : Files T)
      → is_hex64 p.strategy_identity ≡ true
      → IsStored p (persist enc p files)
  unfolding persist
  persist-IsStored p files h = (h, lookup-insert_same (path p.strategy_identity) _ files)

  step-IsStored :
      (a t e r : String) (p : Promotion) (files : Files T)
      → IsStored p files
      → Yields IsStored (step enc a t e r p files)
  unfolding step Yields
  step-IsStored a t e r p files (h, l) = persist-IsStored _ files h

  load-IsStored :
      (p : Promotion) (files : Files T)
      → ReadsBack enc
      → IsStored p files
      → load enc p.strategy_identity files ≡ loaded p
  unfolding load load_file load_payload load_body
  load-IsStored p files back (h, l) =
      let s = seal enc (body p) in
      rw (h, l, back p s, body_of-sealed p s, has_hash-sealed p s s, eq_refl s, promotion_of-body p)
        refl

  create-IsStored :
      (identity spec : String) (files : Files T) → Yields IsStored (create enc identity spec files)
  unfolding create Yields
  create-IsStored identity spec files = guarded IsStored (not (is_hex64 identity)) _ _ λ a.
      guarded IsStored (not (is_hex64 spec)) _ _ λ b.
        guarded IsStored (is_some (lookup (path identity) files)) _ _
          λ c. persist-IsStored _ files (ground arith)

  skip :
      (b : Bool) (e : PromotionError) (o : Outcome T)
      → Yields IsStored o
      → Yields IsStored (if b then raised e else o)
  skip b e o y = guarded IsStored b e o λ h. y

  advance_to_parity-IsStored :
      (e : ParityEvidence) (t : String) (p : Promotion) (files : Files T)
      → IsStored p files
      → Yields IsStored (advance_to_parity enc e t p files)
  unfolding advance_to_parity
  advance_to_parity-IsStored e t p files s = search (skip, step-IsStored) depth 10

  advance_to_robustness-IsStored :
      (e : RobustnessEvidence F) (t : String) (p : Promotion) (files : Files T)
      → IsStored p files
      → Yields IsStored (advance_to_robustness enc e t p files)
  unfolding advance_to_robustness
  advance_to_robustness-IsStored e t p files s = search (skip, step-IsStored) depth 10

  advance_to_holdout_ready-IsStored :
      (e : HoldoutReadinessEvidence) (t : String) (p : Promotion) (files : Files T)
      → IsStored p files
      → Yields IsStored (advance_to_holdout_ready enc e t p files)
  unfolding advance_to_holdout_ready
  advance_to_holdout_ready-IsStored e t p files s = search (skip, step-IsStored) depth 10

  request-IsStored :
      (r : Request F) (p : Promotion) (files : Files T)
      → IsStored p files
      → Holds IsStored (or_same p files (request enc r p files))
  unfolding request add_research_note
  request-IsStored (to_parity e t) p files s =
      kept IsStored p files _ s (advance_to_parity-IsStored e t p files s)
  request-IsStored (to_robustness e t) p files s =
      kept IsStored p files _ s (advance_to_robustness-IsStored e t p files s)
  request-IsStored (to_holdout_ready e t) p files s =
      kept IsStored p files _ s (advance_to_holdout_ready-IsStored e t p files s)
  request-IsStored (research_note n t) p files s =
      kept IsStored p files _ s (step-IsStored _ _ _ _ p files s)

  -- What is written is read back: after any sequence of calls on a created promotion, whichever of them
  -- raise, loading its identity gives the promotion at which the calls ended, its whole history
  -- included, if `json` reads back the objects that the module writes.
  pub load-requests :
      (identity spec : String) (files g : Files T) (p : Promotion) (rs : List (Request F))
      → ReadsBack enc
      → create enc identity spec files ≡ stepped p g
      → Holds (λ q h. load enc q.strategy_identity h ≡ loaded q) (requests enc rs p g)
  unfolding Yields
  load-requests identity spec files g p rs back e =
      let y : Yields IsStored (stepped p g) =
        subst (Yields IsStored) e (create-IsStored identity spec files) in
      let z = requests_keep enc IsStored request-IsStored rs p g y in
      let q = requests enc rs p g in load-IsStored q.0 q.1 back z

  -- A file whose body was changed and whose seal was not is refused: if a file of that name reads as the object of
  -- another promotion with the seal of this one, and the digests differ, loading raises `StateTamperedError`.
  pub load_tampered :
      (p q : Promotion) (content : T) (files : Files T)
      → is_hex64 p.strategy_identity ≡ true
      → enc.loads content ≡ some (Json.object (sealed q (seal enc (body p))))
      → seal enc (body p) ≢ seal enc (body q)
      → load enc p.strategy_identity (insert (path p.strategy_identity) content files)
        ≡ failed PromotionError.tampered
  unfolding load load_file load_payload load_body
  load_tampered p q content files h r d =
      let s = seal enc (body p) in
      let differs : str_eq s (seal enc (body q)) ≡ false =
        ground (arith, eq_iff s (seal enc (body q))) in
      let differs_there = has_hash-sealed q (seal enc (body q)) s ∙ differs in
      rw
        (
          h,
          lookup-insert_same (path p.strategy_identity) content files,
          r,
          body_of-sealed q s,
          differs_there,
        )
        refl
