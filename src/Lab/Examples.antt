-- ===== src/Lab/Examples.antt =====
-- A promotion with its calls, on fixed-point numbers and files that hold their object.
use self_evaluating_trading.Common.{◌≡◌, refl, true, some, List, [], ◌∷◌, String}
use self_evaluating_trading.Floating.Fixed.{Fixed, fixed_floating}
use self_evaluating_trading.Lab.Texts.{is_hex64, all_hex}
use self_evaluating_trading.Lab.Sealed.{Promotion, Json, sealed}
use self_evaluating_trading.Lab.Promotion.{
  RobustnessEvidence, Encoding, Files, stepped, loaded, path, persist, seal, create, load, draft,
}
use self_evaluating_trading.Lab.Promotion.Calls.{Request, requests, Holds}
use self_evaluating_trading.Lab.Promotion.Stages.{Stages, created-IsStaged}
use self_evaluating_trading.Lab.Promotion.Store.{load-requests}

abbrev identity : String
identity = "00112233445566778899aabbccddeeff00112233445566778899aabbccddeeff"

abbrev encoding : Encoding Fixed Json
encoding = record {
  dumps_parity = λ e. "parity";
  dumps_robustness = λ e. "robustness";
  dumps_holdout = λ e. "holdout";
  dumps_note = λ n. n;
  dumps = λ p. p;
  loads = λ p. some p;
  digest = λ j. "seal";
}

abbrev new_promotion : Promotion
new_promotion = record {
  strategy_identity = identity;
  state = draft;
  spec_id = identity;
  history = [];
}

abbrev new_files : Files Json
new_files = (path identity, Json.object (sealed new_promotion "seal")) ∷ []

-- A jump that is refused, parity, a note, and robustness.
abbrev session : List (Request Fixed)
session =
    Request.to_robustness winning "t0"
    ∷ Request.to_parity (record { runtime_parity = true; double_run_reproducibility = true }) "t1"
    ∷ Request.research_note "looks stable" "t2"
    ∷ Request.to_robustness winning "t3"
    ∷ []
  where
    winning : RobustnessEvidence Fixed
    winning = record {
      profitable_windows = 2;
      losing_windows = 1;
      expectancy = some (fixed_floating.lit 3 0);
      robustness_interpretation = "STABLE_POSITIVE";
      edge_present = true;
      promotable = true;
    }

created : create encoding identity identity [] ≡ stepped new_promotion new_files
unfolding create persist seal is_hex64 all_hex
created = refl

created-IsStaged_example :
    Holds
      (λ p files. Stages encoding p.state p.history)
      (requests encoding session new_promotion new_files)
created-IsStaged_example =
    created-IsStaged encoding identity identity [] new_files new_promotion session created

load-requests_example :
    Holds
      (λ q h. load encoding q.strategy_identity h ≡ loaded q)
      (requests encoding session new_promotion new_files)
load-requests_example =
    load-requests encoding identity identity [] new_files new_promotion session (λ p h. refl)
      created
