-- ===== src/Coverage/Tests.antt =====
-- The planner on a message of a user with one decision, and on its parts.
use open_webui_memorist_edit.Prelude.{
  ℕ, ◌≡◌, ◌↔◌, refl, ◌⊎◌, inl, true, false, none, some, List, [], ◌∷◌, String, arith, filter_if,
  All, not,
}
use open_webui_memorist_edit.Prelude.Sorting.{sort_by}
use open_webui_memorist_edit.Prelude.Membership.{Any, distinct}
use open_webui_memorist_edit.Coverage.Contracts.{
  durable_candidate, normal, user, assistant, statement, durable, affirmed, asserted, resolved,
  ratifies, MemoryKind, RouteType, ready_for_consolidation, user_explicit, assistant_claim,
  Authority, SemanticUnit, Reference, Relation, ContextItem,
}
use open_webui_memorist_edit.Coverage.Contracts.{CandidateType, Explicitness}
use open_webui_memorist_edit.Coverage.Intervals.Merge.{IsSeparated, covers, merge_intervals_lem}
use open_webui_memorist_edit.Coverage.Intervals.Outside.{
  overlaps_any, AreOrdered, tokens_outside_intervals-eq-filter,
}
use open_webui_memorist_edit.Coverage.AuthorityIndex.{containing, contains_span, authority_leb}
use open_webui_memorist_edit.Coverage.AuthorityIndex.Exhaustive.{containing-eq-filter}
use open_webui_memorist_edit.Coverage.Policy.{disposition_for_unit, dedupe}
use open_webui_memorist_edit.Coverage.Policy.Eligibility.{IsEligible, durable_iff_IsEligible}
use open_webui_memorist_edit.Coverage.Provenance.{is_review_route, decide_candidate_provenance}
use open_webui_memorist_edit.Coverage.Provenance.Trust.{route_fits, automatic_iff}
use open_webui_memorist_edit.Coverage.Mapping.{Mapping, candidate_mapping_for_semantic_unit}
use open_webui_memorist_edit.Coverage.References.{
  selected_item, assistant_reference_is_not_ratified, references_of,
  assistant_proposition_injection, dependency_hint_without_reference,
}
use open_webui_memorist_edit.Coverage.References.Ratification.{IsRatified, IsRatified-references}
use open_webui_memorist_edit.Coverage.Unit.{effective_authority, must_contest}
use open_webui_memorist_edit.Coverage.Unit.Items.{ItemFor, plan_unit-ItemFor}
use open_webui_memorist_edit.Coverage.Unit.Safety.{IsSafe, plan_unit-IsSafe}
use open_webui_memorist_edit.Coverage.Planner.{covered_spans, uncovered_items}
use open_webui_memorist_edit.Coverage.Planner.Uncovered.{
  IsChain, IsListed, uncovered_items_complete,
}
use open_webui_memorist_edit.Coverage.Planner.Completeness.{
  Outcome, plan_candidate_coverage-Outcome,
}
use open_webui_memorist_edit.Coverage.Intervals.{Span, merge_intervals, tokens_outside_intervals}
use open_webui_memorist_edit.Coverage.References.{PlannerInput}
use open_webui_memorist_edit.Coverage.Unit.{
  CoverageItem, Proposal, Library, ProposalMaterial, ItemMaterial, plan_unit, view_unit,
}
use open_webui_memorist_edit.Coverage.Planner.{returned, validate, plan_candidate_coverage}

-- Stand-ins for the hashes and the text functions: a hash is the text itself, an identity a part of
-- what it is made of, and a text is one word.
abbrev words_of : String → List String
words_of text = text ∷ []

abbrev sample_library : Library
sample_library = record {
  sha256 = λ s. s;
  unit_fingerprint = λ v (u : SemanticUnit). u.id;
  proposal_identity = λ (m : ProposalMaterial). m.unit_fingerprint;
  coverage_item_identity =
      λ (m : ItemMaterial). elim m.semantic_unit_fingerprint [ none ↦ "none" | some f ↦ f ];
  strip = λ s. s;
  tokens = record { acknowledgement = words_of; words = words_of };
  has_alnum = λ s a b. false;
}

abbrev decision_unit : SemanticUnit
decision_unit = record {
  id = "u1";
  raw_start = 0;
  raw_end = 12;
  evidence = "use postgres";
  proposition = "use postgres";
  unit_type = statement;
  durability = durable;
  polarity = affirmed;
  epistemic_status = asserted;
  memory_kind = some MemoryKind.decision;
}

abbrev text_unit : Authority
text_unit = record {
  text_unit_uuid = "t1";
  raw_start = 0;
  raw_end = 20;
  annotation_uuid = none;
  gate_decision_uuid = none;
  gate_decision = none;
  route_uuid = none;
  route_type = some RouteType.user_preference;
  route_status = none;
  privacy_ceiling = normal;
  privacy_storage_allowed = true;
  conflicting_authority = false;
}

-- The text goes on after the unit.
abbrev decision_input : PlannerInput
decision_input = record {
  message_uuid = "m1";
  message_role = user;
  processing_run_uuid = "p1";
  current_raw_text = "use postgres please";
  envelope_raw_text_hash = "use postgres please";
  tokens = (0, 3) ∷ (4, 12) ∷ (13, 19) ∷ [];
  context_dependency_hints = [];
  abstained = false;
  semantic_units = decision_unit ∷ [];
  references = [];
  relations = [];
  accepted_unit_ids = "u1" ∷ [];
  accepted_reference_indexes = [];
  accepted_relation_indexes = [];
  authorities = text_unit ∷ [];
  semantic_prompt_execution_uuid = some "e1";
  semantic_contract_hash = "c1";
  bounded_context_items = [];
  imported_record = false;
}

validated : validate sample_library decision_input ≡ returned tt
unfolding validate distinct
validated = refl

abbrev decision_item : CoverageItem
decision_item = record {
  coverage_item_id = "u1";
  semantic_unit_id = some "u1";
  raw_start = 0;
  raw_end = 12;
  disposition = durable_candidate;
  reason_codes = "durable_policy_eligible" ∷ [];
  gate_decision_uuid = none;
  route_uuid = none;
  proposal_id = some "u1";
}

abbrev decision_proposal : Proposal
decision_proposal = record {
  proposal_id = "u1";
  semantic_unit_id = "u1";
  message_uuid = "m1";
  text_unit_uuid = "t1";
  raw_start = 0;
  raw_end = 12;
  evidence = "use postgres";
  candidate_type = CandidateType.fact;
  subject_key = "project";
  predicate = "context";
  object_value = "use postgres";
  normalized_text = "fact:project:context:use postgres";
  polarity = affirmed;
  epistemic_status = asserted;
  durability = durable;
  source_authority = user_explicit;
  explicitness = Explicitness.explicit;
  privacy_ceiling = normal;
  status = ready_for_consolidation;
  gate_decision_uuid = none;
  route_uuid = none;
  annotation_uuid = none;
  prompt_execution_uuid = "e1";
  context_lineage = [];
  reason_codes = "durable_policy_eligible" ∷ [];
  semantic_unit_fingerprint = "u1";
}

decision_planned :
    plan_unit sample_library decision_input decision_unit
    ≡ some (decision_item, some decision_proposal)
unfolding plan_unit view_unit effective_authority containing must_contest
    assistant_reference_is_not_ratified references_of assistant_proposition_injection
    candidate_mapping_for_semantic_unit disposition_for_unit dependency_hint_without_reference
    decide_candidate_provenance
decision_planned = refl

abbrev decision_mapping : Mapping
decision_mapping = record {
  route_type = RouteType.project_context;
  candidate_type = CandidateType.fact;
  subject_key = "project";
  predicate = "context";
  object_value = "use postgres";
  normalized_text = "fact:project:context:use postgres";
  importance = 62;
  status = ready_for_consolidation;
  rejection_reason_codes = [];
}

decision_mapped :
    candidate_mapping_for_semantic_unit
      (λ s. s)
      statement
      "use postgres"
      "m1"
      (some MemoryKind.decision)
    ≡ some decision_mapping
unfolding candidate_mapping_for_semantic_unit
decision_mapped = refl

abbrev question_unit : SemanticUnit
question_unit = record decision_unit { memory_kind = some MemoryKind.question }

abbrev assistant_item : ContextItem
assistant_item = record {
  context_item_id = "c1";
  message_uuid = "m0";
  message_version_uuid = none;
  text_unit_uuid = "t0";
  role = assistant;
  raw_start = 0;
  raw_end = 7;
  text = "try it";
  raw_text_hash = "h";
  source_authority_ceiling = assistant_claim;
}

abbrev answer_reference : Reference
answer_reference = record {
  source_unit_id = "u1";
  marker_start = 0;
  marker_end = 3;
  status = resolved;
  candidate_referent_ids = "prior_context:c1" ∷ [];
  selected_referent_id = some "prior_context:c1";
}

abbrev answer_relation : Relation
answer_relation = record {
  relation_type = ratifies;
  source_unit_id = "u1";
  target_referent_id = "prior_context:c1";
}

abbrev answer_input : PlannerInput
answer_input = record decision_input {
  references = answer_reference ∷ [];
  relations = answer_relation ∷ [];
  accepted_reference_indexes = 0 ∷ [];
  accepted_relation_indexes = 0 ∷ [];
  bounded_context_items = assistant_item ∷ [];
}

answer_selected :
    selected_item answer_input answer_reference ≡ some ("prior_context:c1", assistant_item)
unfolding selected_item
answer_selected = refl

answer_ratified :
    assistant_reference_is_not_ratified sample_library.tokens answer_input decision_unit
      (answer_reference ∷ [])
      (answer_relation ∷ [])
    ≡ false
unfolding assistant_reference_is_not_ratified dedupe
answer_ratified = refl

tokens-IsChain : IsChain decision_input.tokens
tokens-IsChain = ground arith

tokens_ordered : AreOrdered (λ s. s) decision_input.tokens
tokens_ordered = ground arith

abbrev some_hash : String
some_hash = "0123456789abcdef0123456789abcdef0123456789abcdef0123456789abcdef"

abbrev hash_library : Library
hash_library = record sample_library {
  sha256 = λ s. some_hash;
  unit_fingerprint = λ v u. some_hash;
}

abbrev hashed_input : PlannerInput
hashed_input = record decision_input {
  envelope_raw_text_hash = some_hash;
  semantic_contract_hash = some_hash;
}

hash_validated : validate hash_library hashed_input ≡ returned tt
unfolding validate distinct
hash_validated = refl

plan_candidate_coverage-Outcome_example :
    Outcome hash_library hashed_input (plan_candidate_coverage hash_library hashed_input)
plan_candidate_coverage-Outcome_example =
    plan_candidate_coverage-Outcome hash_library hashed_input hash_validated

plan_unit-IsSafe_example : IsSafe sample_library decision_input decision_unit decision_proposal
plan_unit-IsSafe_example =
    plan_unit-IsSafe sample_library decision_input decision_unit decision_item decision_proposal
      decision_planned

uncovered_items_complete_example :
    All
      (λ t.
        (overlaps_any (covered_spans decision_input) t ≡ true)
        ⊎ Any (IsListed t) (uncovered_items sample_library decision_input))
      decision_input.tokens
uncovered_items_complete_example =
    uncovered_items_complete sample_library decision_input tokens-IsChain

IsRatified-references_example :
    IsRatified sample_library.tokens answer_input decision_unit answer_reference
      (answer_relation ∷ [])
      "prior_context:c1"
IsRatified-references_example =
    IsRatified-references sample_library.tokens answer_input decision_unit (answer_reference ∷ [])
      (answer_relation ∷ []) answer_reference "prior_context:c1" assistant_item (inl refl)
      answer_selected refl answer_ratified

plan_unit-ItemFor_example : ItemFor decision_unit (decision_item, some decision_proposal)
plan_unit-ItemFor_example =
    plan_unit-ItemFor sample_library decision_input decision_unit
      (decision_item, some decision_proposal) decision_planned

durable_iff_IsEligible_example :
    ((disposition_for_unit decision_unit (some text_unit) 1 false true).disposition
      ≡ durable_candidate)
    ↔ IsEligible decision_unit (some text_unit) 1 false true
durable_iff_IsEligible_example = durable_iff_IsEligible decision_unit (some text_unit) 1 false true

automatic_iff_example :
    ((decide_candidate_provenance assistant RouteType.project_context ready_for_consolidation
        false).allows_automatic_memory_creation
      ≡ true)
    ↔ ((ready_for_consolidation ≡ ready_for_consolidation)
        × (is_review_route RouteType.project_context ≡ false)
        × ((false ≡ true) ⊎ (route_fits assistant RouteType.project_context ≡ true)))
automatic_iff_example =
    automatic_iff assistant RouteType.project_context ready_for_consolidation false

tokens_outside_intervals-eq-filter_example :
    tokens_outside_intervals (λ s. s) decision_input.tokens ((0, 12) ∷ [])
    ≡ filter_if (λ t. not (overlaps_any ((0, 12) ∷ []) t)) decision_input.tokens
tokens_outside_intervals-eq-filter_example =
    tokens_outside_intervals-eq-filter (λ s. s) decision_input.tokens ((0, 12) ∷ []) tokens_ordered
      (tt, tt)

abbrev some_spans : List Span
some_spans = (4, 9) ∷ (0, 5) ∷ (10, 12) ∷ []

merge_intervals_lem_example :
    IsSeparated (merge_intervals some_spans)
    × ((x : ℕ) → covers x (merge_intervals some_spans) ≡ covers x some_spans)
merge_intervals_lem_example = merge_intervals_lem some_spans

containing-eq-filter_example :
    containing (text_unit ∷ []) 0 12
    ≡ filter_if (contains_span 0 12) (sort_by authority_leb (text_unit ∷ []))
containing-eq-filter_example = containing-eq-filter (text_unit ∷ []) 0 12 (omega arith)
