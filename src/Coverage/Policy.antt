-- ===== src/Coverage/Policy.antt =====
-- disposition_for_unit of coverage/policy.py: what becomes of an evidence-admissible unit.
pub mod Eligibility
use open_webui_memorist_edit.Prelude.{
  ℕ, Bool, true, false, not, ◌&&◌, ◌||◌, Option, none, some, List, [], ◌∷◌, ◌++◌, String, ltb, ◌==◌,
  if◌then◌else◌, contains,
}
use open_webui_memorist_edit.Coverage.Contracts.{
  Disposition, durable_candidate, transient_instruction, unresolved_reference, needs_review,
  unsupported, PrivacyCeiling, normal, sensitive, secret, UnitType, question, Durability, durable,
  transient, EpistemicStatus, hypothetical, questioned, Authority, SemanticUnit,
}

abbrev pub is_normal : PrivacyCeiling → Bool
is_normal normal = true
is_normal sensitive = false
is_normal secret = false

abbrev pub is_durable : Durability → Bool
is_durable durable = true
is_durable _ = false

abbrev pub is_transient : Durability → Bool
is_transient transient = true
is_transient _ = false

abbrev pub is_context_only : Durability → Bool
is_context_only Durability.context_only = true
is_context_only _ = false

abbrev pub is_unknown_durability : Durability → Bool
is_unknown_durability Durability.unknown = true
is_unknown_durability _ = false

abbrev pub is_instruction : UnitType → Bool
is_instruction UnitType.instruction = true
is_instruction _ = false

abbrev pub is_question : UnitType → Bool
is_question question = true
is_question _ = false

abbrev pub is_unasserted : EpistemicStatus → Bool
is_unasserted hypothetical = true
is_unasserted questioned = true
is_unasserted _ = false

abbrev pub is_unknown_epistemic : EpistemicStatus → Bool
is_unknown_epistemic EpistemicStatus.unknown = true
is_unknown_epistemic _ = false

-- dict.fromkeys: the first of equal codes, in order; `seen` holds the codes kept so far.
unfoldable pub dedupe_from : List String → List String → List String
dedupe_from seen [] = []
dedupe_from seen (c ∷ cs) =
    let fresh = c ∷ dedupe_from (c ∷ seen) cs in
    let known = dedupe_from seen cs in if contains seen c then known else fresh

unfoldable pub dedupe : List String → List String
unfolding dedupe_from
dedupe codes = dedupe_from [] codes

-- DispositionDecision
pub record Decision : Type 0 where
  pub disposition : Disposition
  pub reason_codes : List String

-- The test that sends a unit to review.
unfoldable pub authority_blocked : Option Authority → ℕ → Bool
authority_blocked none count = true
authority_blocked (some a) count =
    not (count == 1)
    || (a.conflicting_authority
        || (not a.privacy_storage_allowed || not (is_normal a.privacy_ceiling)))

abbrev codes_if : Bool → String → List String
codes_if true code = code ∷ []
codes_if false code = []

is_none : Option Authority → Bool
is_none none = true
is_none (some a) = false

authority_reasons : Option Authority → List String
authority_reasons none = []
authority_reasons (some a) =
    codes_if a.conflicting_authority "conflicting_persisted_authority"
    ++ codes_if (not (is_normal a.privacy_ceiling) || not a.privacy_storage_allowed)
        "privacy_or_sensitivity_ceiling"

or_default : List String → List String
or_default [] = "authority_requires_review" ∷ []
or_default (c ∷ cs) = c ∷ cs

review_reasons : Option Authority → ℕ → List String
unfolding is_none authority_reasons or_default dedupe
review_reasons authority count = dedupe (
    or_default (
      codes_if (is_none authority || count == 0) "missing_persisted_authority"
      ++ (codes_if (ltb 1 count) "cross_authority_span" ++ authority_reasons authority)))

abbrev decide : Disposition → String → Decision
decide d code = record { disposition = d; reason_codes = code ∷ [] }

unfoldable pub disposition_for_unit : SemanticUnit → Option Authority → ℕ → Bool → Bool → Decision
unfolding authority_blocked review_reasons
disposition_for_unit unit authority authority_count has_unresolved_reference mapping_supported =
    if authority_blocked authority authority_count
    then record {
      disposition = needs_review;
      reason_codes = review_reasons authority authority_count;
    }
    else if has_unresolved_reference
    then decide unresolved_reference "ambiguous_or_unresolved_reference"
    else if is_context_only unit.durability
    then decide Disposition.context_only "context_only"
    else if is_instruction unit.unit_type && is_transient unit.durability
    then decide transient_instruction "transient_instruction"
    else if is_question unit.unit_type || is_unasserted unit.epistemic_status
    then decide Disposition.context_only "non_asserted_or_question"
    else if is_unknown_durability unit.durability || is_unknown_epistemic unit.epistemic_status
    then decide needs_review "unknown_durability_or_epistemic_status"
    else if not mapping_supported
    then decide unsupported "route_mapping_unsupported"
    else if not (is_durable unit.durability)
    then decide unsupported "durability_not_candidate_eligible"
    else decide durable_candidate "durable_policy_eligible"
