-- ===== src/Coverage/Unit.antt =====
-- The body of the loop over accepted units in `plan_candidate_coverage` of coverage/planner.py: one
-- coverage item for each unit, and at most one candidate proposal.
pub mod Safety
pub mod Items
pub mod Meaning
use open_webui_memorist_edit.Prelude.{
  ℕ, Bool, true, false, not, ◌&&◌, ◌||◌, Option, none, some, List, [], ◌∷◌, ◌++◌, String,
  if◌then◌else◌, any, length, str_eq,
}
use open_webui_memorist_edit.Coverage.Contracts.{
  Disposition, durable_candidate, PrivacyCeiling, Polarity, EpistemicStatus, Durability, RouteType,
  CandidateType, CandidateStatus, SourceAuthority, Explicitness, Authority, SemanticUnit, Reference,
  Relation, ContextItem,
}
use open_webui_memorist_edit.Coverage.AuthorityIndex.{containing}
use open_webui_memorist_edit.Coverage.Policy.{Decision, disposition_for_unit, dedupe}
use open_webui_memorist_edit.Coverage.Provenance.{Provenance, decide_candidate_provenance, is_ready}
use open_webui_memorist_edit.Coverage.Mapping.{
  Mapping, candidate_mapping_for_route, candidate_mapping_for_semantic_unit,
}
use open_webui_memorist_edit.Coverage.References.{
  PlannerInput, Tokens, is_resolved, references_of, relations_of, dependency_hint_without_reference,
  prior_context, remove_prefix, context_get, assistant_reference_is_not_ratified,
  assistant_proposition_injection,
}
use text.Mathlib.Text.{starts_with}

-- The material of `proposal_identity`.
pub record ProposalMaterial : Type 0 where
  pub message_uuid : String
  pub raw_text_hash : String
  pub semantic_contract_hash : String
  pub unit_fingerprint : String
  pub raw_start : ℕ
  pub raw_end : ℕ
  pub route_type : Option RouteType
  pub route_status : String
  pub gate_decision : String
  pub source_authority : SourceAuthority

-- The material of `coverage_item_identity`.
pub record ItemMaterial : Type 0 where
  pub message_uuid : String
  pub raw_text_hash : String
  pub semantic_contract_hash : String
  pub semantic_unit_fingerprint : Option String
  pub raw_start : ℕ
  pub raw_end : ℕ
  pub disposition : Disposition
  pub reason_codes : List String
  pub proposal_id : Option String

pub record CoverageItem : Type 0 where
  pub coverage_item_id : String
  pub semantic_unit_id : Option String
  pub raw_start : ℕ
  pub raw_end : ℕ
  pub disposition : Disposition
  pub reason_codes : List String
  pub gate_decision_uuid : Option String
  pub route_uuid : Option String
  pub proposal_id : Option String

-- An entry of the lineage: the context item and the marker of the reference to it.
pub record Lineage : Type 0 where
  pub item : ContextItem
  pub reference_marker_start : ℕ
  pub reference_marker_end : ℕ
  pub semantic_contract_hash : String

-- CandidateProposal
pub record Proposal : Type 0 where
  pub proposal_id : String
  pub semantic_unit_id : String
  pub message_uuid : String
  pub text_unit_uuid : String
  pub raw_start : ℕ
  pub raw_end : ℕ
  pub evidence : String
  pub candidate_type : CandidateType
  pub subject_key : String
  pub predicate : String
  pub object_value : String
  pub normalized_text : String
  pub polarity : Polarity
  pub epistemic_status : EpistemicStatus
  pub durability : Durability
  pub source_authority : SourceAuthority
  pub explicitness : Explicitness
  pub privacy_ceiling : PrivacyCeiling
  pub status : CandidateStatus
  pub gate_decision_uuid : Option String
  pub route_uuid : Option String
  pub annotation_uuid : Option String
  pub prompt_execution_uuid : String
  pub context_lineage : List Lineage
  pub reason_codes : List String
  pub semantic_unit_fingerprint : String

-- Hashes and library functions that the planner calls: SHA-256, the identities of
-- coverage/identity.py, `str.strip`, the token patterns, and `any(isalnum)` on a slice of the text. The
-- hashes are total functions: a text with a lone surrogate or an offset beyond 2^53 - 1, on which
-- validators/ijson.py raises, is left out.
pub record Library : Type 0 where
  pub sha256 : String → String
  pub unit_fingerprint : PlannerInput → SemanticUnit → String
  pub proposal_identity : ProposalMaterial → String
  pub coverage_item_identity : ItemMaterial → String
  pub strip : String → String
  pub tokens : Tokens
  pub has_alnum : String → ℕ → ℕ → Bool

abbrev pub is_durable_candidate : Disposition → Bool
is_durable_candidate durable_candidate = true
is_durable_candidate _ = false

abbrev pub only_one : List Authority → Option Authority
only_one (a ∷ []) = some a
only_one _ = none

abbrev pub or_else : Option Mapping → Option Mapping → Option Mapping
or_else (some m) other = some m
or_else none other = other

abbrev pub is_some {ℓ} : {A : Type ℓ} → Option A → Bool
is_some none = false
is_some (some a) = true

abbrev status_value : CandidateStatus → String
status_value CandidateStatus.pending = "pending"
status_value CandidateStatus.validated = "validated"
status_value CandidateStatus.rejected = "rejected"
status_value CandidateStatus.needs_review = "needs_review"
status_value CandidateStatus.ready_for_consolidation = "ready_for_consolidation"

-- `str(value)`, and `value or default`, which passes over an empty text too.
abbrev text_of : Option String → String
text_of none = "None"
text_of (some s) = s

abbrev text_or : String → Option String → String
text_or default none = default
text_or default (some s) = if str_eq s "" then default else s

-- _context_lineage
context_lineage : PlannerInput → List Reference → List Lineage
context_lineage value [] = []
context_lineage value (r ∷ rs) =
    let rest = context_lineage value rs in
    elim r.selected_referent_id [
      | none ↦ rest
      | some id ↦
          if not (starts_with id prior_context)
          then rest
          else elim (context_get value.bounded_context_items (remove_prefix id prior_context)) [
            | none ↦ rest
            | some c ↦
                record {
                  item = c;
                  reference_marker_start = r.marker_start;
                  reference_marker_end = r.marker_end;
                  semantic_contract_hash = value.semantic_contract_hash;
                }
                ∷ rest
          ]
    ]

abbrev pub contested : Authority → Authority
contested a = record a { conflicting_authority = true }

-- What the loop has computed of a unit before it decides.
pub record View : Type 0 where
  pub authority_count : ℕ
  pub authority : Option Authority
  pub semantic_mapping : Option Mapping
  pub mapping : Option Mapping
  pub unresolved : Bool

module _ (library : Library) (value : PlannerInput) where
  open library use {
    sha256, unit_fingerprint, proposal_identity, coverage_item_identity, strip, tokens,
  }

  unfoldable pub coverage_item :
      Option String
      → Option String
      → ℕ
      → ℕ
      → Disposition
      → List String
      → Option Authority
      → Option String
      → CoverageItem
  coverage_item unit_id fingerprint raw_start raw_end disposition reason_codes authority
        proposal_id =
      record {
        coverage_item_id = coverage_item_identity (record {
          message_uuid = value.message_uuid;
          raw_text_hash = value.envelope_raw_text_hash;
          semantic_contract_hash = value.semantic_contract_hash;
          semantic_unit_fingerprint = fingerprint;
          raw_start = raw_start;
          raw_end = raw_end;
          disposition = disposition;
          reason_codes = reason_codes;
          proposal_id = proposal_id;
        });
        semantic_unit_id = unit_id;
        raw_start = raw_start;
        raw_end = raw_end;
        disposition = disposition;
        reason_codes = reason_codes;
        gate_decision_uuid = elim authority [ none ↦ none | some a ↦ a.gate_decision_uuid ];
        route_uuid = elim authority [ none ↦ none | some a ↦ a.route_uuid ];
        proposal_id = proposal_id;
      }

  -- The conditions that mark the single authority as conflicting.
  unfoldable pub must_contest : SemanticUnit → Bool
  must_contest unit =
      let references = references_of value unit in
      let relations = relations_of value unit in
      not (is_some value.semantic_prompt_execution_uuid)
      || (assistant_reference_is_not_ratified tokens value unit references relations
          || assistant_proposition_injection tokens value unit references relations)

  unfoldable pub effective_authority : SemanticUnit → Option Authority → Option Authority
  effective_authority unit none = none
  effective_authority unit (some a) = if must_contest unit then some (contested a) else some a

  pub kind_mapping : SemanticUnit → Option Mapping
  kind_mapping unit = elim unit.memory_kind [
    | none ↦ none
    | some kind ↦
        candidate_mapping_for_semantic_unit strip unit.unit_type unit.proposition value.message_uuid
          (some kind)
  ]

  pub legacy_mapping : SemanticUnit → Option Authority → Option Mapping
  legacy_mapping unit none = none
  legacy_mapping unit (some a) =
      candidate_mapping_for_route strip a.route_type unit.proposition value.message_uuid

  unfoldable pub view_unit : SemanticUnit → View
  unfolding kind_mapping legacy_mapping
  view_unit unit =
      let found = containing value.authorities unit.raw_start unit.raw_end in
      let authority = effective_authority unit (only_one found) in
      let semantic = kind_mapping unit in
      let historical =
        candidate_mapping_for_semantic_unit strip unit.unit_type unit.proposition value.message_uuid
          none in
      record {
        authority_count = length found;
        authority = authority;
        semantic_mapping = semantic;
        mapping = or_else semantic (or_else (legacy_mapping unit authority) historical);
        unresolved =
            any (λ r. not (is_resolved r.status)) (references_of value unit)
            || dependency_hint_without_reference value unit (references_of value unit);
      }

  abbrev pub decide_unit : SemanticUnit → View → Decision
  decide_unit unit v =
      disposition_for_unit unit v.authority v.authority_count v.unresolved (is_some v.mapping)

  abbrev pub provenance_of : Mapping → Provenance
  provenance_of m =
      decide_candidate_provenance value.message_role m.route_type m.status value.imported_record

  abbrev pub provenance_refuses : Mapping → Bool
  provenance_refuses m =
      not (provenance_of m).allows_candidate_creation
      || (not (provenance_of m).allows_automatic_memory_creation || not (is_ready m.status))

  make_proposal : SemanticUnit → View → Authority → Mapping → List String → Proposal
  unfolding context_lineage
  make_proposal unit v a m reasons =
      let p = provenance_of m in
      let fingerprint = unit_fingerprint value unit in
      let by_kind = is_some v.semantic_mapping in
      record {
        proposal_id = proposal_identity (record {
          message_uuid = value.message_uuid;
          raw_text_hash = sha256 value.current_raw_text;
          semantic_contract_hash = value.semantic_contract_hash;
          unit_fingerprint = fingerprint;
          raw_start = unit.raw_start;
          raw_end = unit.raw_end;
          route_type = if by_kind then some m.route_type else a.route_type;
          route_status = if by_kind then status_value m.status else text_of a.route_status;
          gate_decision = text_or "semantic_model_led" a.gate_decision;
          source_authority = p.source_authority;
        });
        semantic_unit_id = unit.id;
        message_uuid = value.message_uuid;
        text_unit_uuid = a.text_unit_uuid;
        raw_start = unit.raw_start;
        raw_end = unit.raw_end;
        evidence = unit.evidence;
        candidate_type = m.candidate_type;
        subject_key = m.subject_key;
        predicate = m.predicate;
        object_value = m.object_value;
        normalized_text = m.normalized_text;
        polarity = unit.polarity;
        epistemic_status = unit.epistemic_status;
        durability = unit.durability;
        source_authority = p.source_authority;
        explicitness = p.explicitness;
        privacy_ceiling = a.privacy_ceiling;
        status = p.status;
        gate_decision_uuid = a.gate_decision_uuid;
        route_uuid = a.route_uuid;
        annotation_uuid = a.annotation_uuid;
        prompt_execution_uuid = text_of value.semantic_prompt_execution_uuid;
        context_lineage = context_lineage value (references_of value unit);
        reason_codes = dedupe (reasons ++ p.reason_codes);
        semantic_unit_fingerprint = fingerprint;
      }

  -- A unit's item, with its proposal. A durable unit without authority or mapping is an assertion
  -- failure of the code.
  unfoldable pub settle :
      SemanticUnit
      → View
      → Option Authority
      → Option Mapping
      → Option (CoverageItem × Option Proposal)
  unfolding coverage_item make_proposal
  settle unit v (some a) (some m) =
      let decision = decide_unit unit v in
      let fingerprint = some (unit_fingerprint value unit) in
      let item = λ (d : Disposition) (codes : List String) (p : Option String).
        coverage_item (some unit.id) fingerprint unit.raw_start unit.raw_end d (dedupe codes)
          v.authority p in
      let review = disposition_for_unit unit (some (contested a)) 1 false true in
      let proposal = make_proposal unit v a m decision.reason_codes in
      if not (is_durable_candidate decision.disposition)
      then some (item decision.disposition decision.reason_codes none, none)
      else if provenance_refuses m
      then some (
        item review.disposition (review.reason_codes ++ (provenance_of m).reason_codes) none,
        none,
      )
      else some (
        item decision.disposition decision.reason_codes (some proposal.proposal_id),
        some proposal,
      )
  settle unit v _ _ =
      let decision = decide_unit unit v in
      if is_durable_candidate decision.disposition
      then none
      else some (
        coverage_item (some unit.id) (some (unit_fingerprint value unit)) unit.raw_start
            unit.raw_end decision.disposition (dedupe decision.reason_codes) v.authority none,
        none,
      )

  unfoldable pub plan_unit : SemanticUnit → Option (CoverageItem × Option Proposal)
  unfolding settle
  plan_unit unit = let v = view_unit unit in settle unit v v.authority v.mapping
