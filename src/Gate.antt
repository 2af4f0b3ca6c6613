-- ===== src/Gate.antt =====
-- The gate of memory_worker/gating.py: what becomes of a text unit.
pub mod Signals
pub mod Routes
pub mod Drafts
pub mod Creation
pub mod Tests
pub use Signals.*
use open_webui_memorist_edit.Prelude.{
  ℕ, Bool, true, false, not, ◌&&◌, ◌||◌, Option, none, some, List, [], ◌∷◌, ◌++◌, ◌==◌, leb,
  if◌then◌else◌, length, any,
}
use open_webui_memorist_edit.Prelude.Texts.{codes, same_codes, has_substring, strip_space}
use mathlib.Core.List.{reverse}
use open_webui_memorist_edit.Coverage.Contracts.{Role, user, assistant, tool, system}

-- GateDecisionValue
pub data GateDecision : Type 0 where
  discard retain_raw_only analyze analyze_high_confidence manual_review : GateDecision

-- The reason codes that the gate gives.
pub data ReasonCode : Type 0 where
  strong_memory_signal explicit_preference explicit_constraint project_decision : ReasonCode
  definition_signal identity_signal temporary_state forget_request low_value_phatic : ReasonCode
  greeting_only assistant_claim_not_user_fact tool_observation sensitive_mention : ReasonCode
  model_classifier_failed no_memory_signal : ReasonCode

-- GateResult, its scores in hundredths.
pub record GateResult : Type 0 where
  pub decision : GateDecision
  pub reason_codes : List ReasonCode
  pub salience_score : ℕ
  pub persistence_score : ℕ
  pub actionability_score : ℕ
  pub sensitivity_score : ℕ
  pub novelty_score : ℕ
  pub requires_high_confidence_pass : Bool

abbrev pub is_no_memory_signal : ReasonCode → Bool
is_no_memory_signal no_memory_signal = true
is_no_memory_signal _ = false

abbrev pub is_high_confidence : ReasonCode → Bool
is_high_confidence explicit_constraint = true
is_high_confidence project_decision = true
is_high_confidence _ = false

abbrev pub code_if : Bool → ReasonCode → List ReasonCode
code_if true c = c ∷ []
code_if false c = []

-- The codes whose test holds, in order.
abbrev pub codes_where : List (Bool × ReasonCode) → List ReasonCode
codes_where [] = []
codes_where ((b, c) ∷ tests) = code_if b c ++ codes_where tests

-- The tests of _strong_reason_codes.
abbrev pub strong_tests : Text → List (Bool × ReasonCode)
strong_tests text =
    (
      contains_any text (codes "prefer" ∷ (1578 ∷ 1585 ∷ 1580 ∷ 1740 ∷ 1581 ∷ []) ∷ []),
      explicit_preference,
    )
    ∷ (
      contains_any text (
          codes "do not"
          ∷ codes "don't"
          ∷ codes "never"
          ∷ (1606 ∷ 1576 ∷ 1575 ∷ 1740 ∷ 1583 ∷ [])
          ∷ (1607 ∷ 1585 ∷ 1711 ∷ 1586 ∷ [])
          ∷ []),
      explicit_constraint,
    )
    ∷ (
      contains_any text (
          codes "decided"
          ∷ (1578 ∷ 1589 ∷ 1605 ∷ 1740 ∷ 1605 ∷ 32 ∷ 1711 ∷ 1585 ∷ 1601 ∷ 1578 ∷ 1740 ∷ 1605 ∷ [])
          ∷ []),
      project_decision,
    )
    ∷ (
      contains_any text
          (codes "i mean" ∷ (1605 ∷ 1606 ∷ 1592 ∷ 1608 ∷ 1585 ∷ 1605 ∷ 32 ∷ 1575 ∷ 1586 ∷ []) ∷ []),
      definition_signal,
    )
    ∷ (
      contains_any text (codes "my name is" ∷ (1606 ∷ 1575 ∷ 1605 ∷ 32 ∷ 1605 ∷ 1606 ∷ []) ∷ []),
      identity_signal,
    )
    ∷ (
      contains_any text (
          codes "currently"
          ∷ (1601 ∷ 1593 ∷ 1604 ∷ 1575 ∷ [])
          ∷ (1601 ∷ 1593 ∷ 1604 ∷ 1575 ∷ 1611 ∷ [])
          ∷ []),
      temporary_state,
    )
    ∷ []

-- _strong_reason_codes
abbrev pub strong_reason_codes : Text → List ReasonCode
strong_reason_codes text = strong_memory_signal ∷ codes_where (strong_tests text)

abbrev pub scored : GateDecision → List ReasonCode → ℕ → ℕ → ℕ → ℕ → ℕ → Bool → GateResult
scored decision reason_codes salience persistence actionability sensitivity novelty pass = record {
  decision = decision;
  reason_codes = reason_codes;
  salience_score = salience;
  persistence_score = persistence;
  actionability_score = actionability;
  sensitivity_score = sensitivity;
  novelty_score = novelty;
  requires_high_confidence_pass = pass;
}

-- _result_from_reasons
abbrev pub result_from_reasons : List ReasonCode → Bool → GateResult
result_from_reasons codes sensitive =
    if any is_no_memory_signal codes
    then scored retain_raw_only codes 20 10 0 0 20 false
    else if sensitive
    then scored manual_review codes 75 50 40 80 50 true
    else if any is_high_confidence codes
    then scored analyze_high_confidence codes 90 85 90 10 70 true
    else scored analyze codes 75 75 45 5 60 false

-- What a classifier answers: a result, None, or an exception.
pub data Classified : Type 0 where
  judged : GateResult → Classified
  no_answer raised : Classified

abbrev pub is_assistant : Role → Bool
is_assistant assistant = true
is_assistant _ = false

abbrev pub is_tool : Role → Bool
is_tool tool = true
is_tool _ = false

abbrev or_no_signal : List ReasonCode → List ReasonCode
or_no_signal [] = no_memory_signal ∷ []
or_no_signal (c ∷ cs) = c ∷ cs

-- The reason codes of a text that is neither a request to forget nor discarded.
abbrev pub reasons_of : Text → Bool → Bool → Bool → Role → List ReasonCode
reasons_of lowered phatic strong sensitive role = or_no_signal (
    code_if phatic low_value_phatic
    ++ ((if strong then strong_reason_codes lowered else [])
        ++ (code_if sensitive sensitive_mention
            ++ (code_if (is_assistant role && strong) assistant_claim_not_user_fact
                ++ code_if (is_tool role) tool_observation))))

-- The decision without a classifier, on the lowered text; `settled` says that the classifier is
-- not asked.
abbrev pub decide : Text → (forget phatic strong sensitive : Bool) → Role → GateResult × Bool
decide text forget phatic strong sensitive role =
    if forget
    then (scored manual_review (forget_request ∷ []) 80 20 80 70 50 true, true)
    else if phatic && not strong
    then (scored discard (low_value_phatic ∷ greeting_only ∷ []) 5 0 0 0 0 false, true)
    else (result_from_reasons (reasons_of text phatic strong sensitive role) sensitive, false)

abbrev pub classify : Classified → GateResult → GateResult
classify (judged r) result = r
classify no_answer result = result
classify raised result = record result {
  reason_codes = result.reason_codes ++ model_classifier_failed ∷ [];
}

abbrev pub ask :
    Option (Text → List ReasonCode → Classified) → Text → GateResult × Bool → GateResult
ask none text (result, settled) = result
ask (some classifier) text (result, true) = result
ask (some classifier) text (result, false) = classify (classifier text result.reason_codes) result

-- DeterministicGate.evaluate
unfoldable pub evaluate :
    (Text → Text) → Option (Text → List ReasonCode → Classified) → Text → Role → GateResult
evaluate lower classifier text role =
    let lowered = lowered_text lower text in
    ask classifier (strip_space text) (
      decide lowered (is_forget_request lowered) (is_phatic lower lowered)
        (contains_any lowered strong_signals) (contains_any lowered sensitive_terms) role)
