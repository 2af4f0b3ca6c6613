-- ===== src/Coverage/Contracts.antt =====
-- The data of the planner: coverage/contracts.py, and the parts of prompts/contracts.py,
-- semantic_contract.py and models/memory_worker.py that it reads. A string field with a closed
-- set of values is an enumeration.
use open_webui_memorist_edit.Prelude.{ℕ, Bool, Option, List, String}

pub data Disposition : Type 0 where
  durable_candidate context_only transient_instruction unresolved_reference : Disposition
  rejected_by_gate needs_review unsupported : Disposition

pub data PrivacyCeiling : Type 0 where
  normal sensitive secret : PrivacyCeiling

pub data Role : Type 0 where
  user assistant tool system : Role

pub data UnitType : Type 0 where
  statement instruction question explanation heading list_item table_row code_block fragment :
      UnitType

pub data Durability : Type 0 where
  durable transient context_only unknown : Durability

pub data Polarity : Type 0 where
  affirmed negated unknown : Polarity

pub data EpistemicStatus : Type 0 where
  asserted hedged hypothetical questioned unknown : EpistemicStatus

pub data ReferenceStatus : Type 0 where
  resolved unresolved ambiguous : ReferenceStatus

pub data RelationType : Type 0 where
  ratifies corrects supersedes contradicts elaborates : RelationType

pub data MemoryKind : Type 0 where
  instruction need preference decision project_artifact project_state fact_claim hypothesis :
      MemoryKind
  constraint question learning_goal feedback correction retraction : MemoryKind

pub data RouteType : Type 0 where
  ignore project_context workflow_policy team_obligation prompt_instruction style_policy : RouteType
  terminology_rule user_preference emotional_stance process_fact jira_configuration : RouteType
  task_constraint resource_reference privacy_review manual_review : RouteType

pub data CandidateType : Type 0 where
  fact preference goal constraint decision instruction definition episode feedback : CandidateType
  relationship identity style unresolved_question : CandidateType

pub data CandidateStatus : Type 0 where
  pending validated rejected needs_review ready_for_consolidation : CandidateStatus

pub data SourceAuthority : Type 0 where
  user_explicit user_implied assistant_claim tool_observation system_instruction : SourceAuthority
  imported_record : SourceAuthority

pub data Explicitness : Type 0 where
  explicit implied inferred : Explicitness

-- PersistedUnitAuthority
pub record Authority : Type 0 where
  pub text_unit_uuid : String
  pub raw_start : ℕ
  pub raw_end : ℕ
  pub annotation_uuid : Option String
  pub gate_decision_uuid : Option String
  pub gate_decision : Option String
  pub route_uuid : Option String
  pub route_type : Option RouteType
  pub route_status : Option String
  pub privacy_ceiling : PrivacyCeiling
  pub privacy_storage_allowed : Bool
  pub conflicting_authority : Bool

pub record SemanticUnit : Type 0 where
  pub id : String
  pub raw_start : ℕ
  pub raw_end : ℕ
  pub evidence : String
  pub proposition : String
  pub unit_type : UnitType
  pub durability : Durability
  pub polarity : Polarity
  pub epistemic_status : EpistemicStatus
  pub memory_kind : Option MemoryKind

pub record Reference : Type 0 where
  pub source_unit_id : String
  pub marker_start : ℕ
  pub marker_end : ℕ
  pub status : ReferenceStatus
  pub candidate_referent_ids : List String
  pub selected_referent_id : Option String

pub record Relation : Type 0 where
  pub relation_type : RelationType
  pub source_unit_id : String
  pub target_referent_id : String

-- BoundedContextItem
pub record ContextItem : Type 0 where
  pub context_item_id : String
  pub message_uuid : String
  pub message_version_uuid : Option String
  pub text_unit_uuid : String
  pub role : Role
  pub raw_start : ℕ
  pub raw_end : ℕ
  pub text : String
  pub raw_text_hash : String
  pub source_authority_ceiling : SourceAuthority
