-- ===== src/Coverage/Mapping.antt =====
-- memory_worker/semantic/candidate_mapping.py: the candidate that a route or a semantic kind names.
-- `strip` stands for Python's `str.strip`. An importance is in hundredths.
pub mod Choice
use Prim.Native.String.{◌++◌}
use open_webui_memorist_edit.Prelude.{
  ℕ, Bool, true, false, ◌||◌, Option, none, some, List, [], ◌∷◌, String, if◌then◌else◌, str_eq,
}
use open_webui_memorist_edit.Coverage.Contracts.{
  RouteType, UnitType, MemoryKind, CandidateType, CandidateStatus, needs_review,
  ready_for_consolidation,
}
use open_webui_memorist_edit.Coverage.Provenance.{is_review_route}

-- CandidateType.value
abbrev pub type_value : CandidateType → String
type_value CandidateType.fact = "fact"
type_value CandidateType.preference = "preference"
type_value CandidateType.goal = "goal"
type_value CandidateType.constraint = "constraint"
type_value CandidateType.decision = "decision"
type_value CandidateType.instruction = "instruction"
type_value CandidateType.definition = "definition"
type_value CandidateType.episode = "episode"
type_value CandidateType.feedback = "feedback"
type_value CandidateType.relationship = "relationship"
type_value CandidateType.identity = "identity"
type_value CandidateType.style = "style"
type_value CandidateType.unresolved_question = "unresolved_question"

-- MemorySignalRouteType.value, for the two review routes.
review_code : RouteType → String
review_code RouteType.privacy_review = "privacy_review_requires_manual_review"
review_code _ = "manual_review_requires_manual_review"

-- RouteCandidateMapping
pub record Mapping : Type 0 where
  pub route_type : RouteType
  pub candidate_type : CandidateType
  pub subject_key : String
  pub predicate : String
  pub object_value : String
  pub normalized_text : String
  pub importance : ℕ
  pub status : CandidateStatus
  pub rejection_reason_codes : List String

-- The quadruple that `_candidate_profile` returns.
pub record Profile : Type 0 where
  pub candidate_type : CandidateType
  pub subject_key : String
  pub predicate : String
  pub importance : ℕ

abbrev profile : CandidateType → String → String → ℕ → Profile
profile t s p i = record { candidate_type = t; subject_key = s; predicate = p; importance = i }

message_subject : String → String
message_subject message_uuid =
    if str_eq message_uuid "" then "message" else "message:" ++ message_uuid

unfoldable pub candidate_profile : RouteType → String → Profile
unfolding message_subject
candidate_profile RouteType.user_preference m =
    profile CandidateType.preference "user" "preference" 70
candidate_profile RouteType.style_policy m = profile CandidateType.style "user" "style_policy" 72
candidate_profile RouteType.terminology_rule m =
    profile CandidateType.definition "term" "meaning" 70
candidate_profile RouteType.task_constraint m =
    profile CandidateType.constraint "project" "constraint" 85
candidate_profile RouteType.workflow_policy m =
    profile CandidateType.constraint "project" "constraint" 85
candidate_profile RouteType.team_obligation m = profile CandidateType.goal "team" "obligation" 84
candidate_profile RouteType.prompt_instruction m =
    profile CandidateType.instruction "prompt" "instruction" 82
candidate_profile RouteType.jira_configuration m =
    profile CandidateType.fact "jira" "configuration" 68
candidate_profile RouteType.resource_reference m =
    profile CandidateType.fact "resource" "reference" 62
candidate_profile RouteType.project_context m = profile CandidateType.fact "project" "context" 62
candidate_profile RouteType.emotional_stance m =
    profile CandidateType.feedback "user" "emotional_stance" 55
candidate_profile RouteType.privacy_review m =
    profile CandidateType.instruction "privacy" "review_request" 90
candidate_profile RouteType.manual_review m =
    profile CandidateType.fact (message_subject m) "manual_review" 50
candidate_profile _ m = profile CandidateType.fact (message_subject m) "states" 55

abbrev pub is_ignore : RouteType → Bool
is_ignore RouteType.ignore = true
is_ignore _ = false

-- The route of a semantic kind; `unit_type` is read where there is no kind.
unfoldable pub kind_route : MemoryKind → Option RouteType
kind_route MemoryKind.instruction = some RouteType.prompt_instruction
kind_route MemoryKind.need = some RouteType.team_obligation
kind_route MemoryKind.learning_goal = some RouteType.team_obligation
kind_route MemoryKind.preference = some RouteType.user_preference
kind_route MemoryKind.constraint = some RouteType.task_constraint
kind_route MemoryKind.feedback = some RouteType.emotional_stance
kind_route MemoryKind.question = none
kind_route MemoryKind.decision = some RouteType.project_context
kind_route MemoryKind.project_artifact = some RouteType.project_context
kind_route MemoryKind.project_state = some RouteType.project_context
kind_route MemoryKind.fact_claim = some RouteType.project_context
kind_route MemoryKind.hypothesis = some RouteType.project_context
kind_route MemoryKind.correction = some RouteType.project_context
kind_route MemoryKind.retraction = some RouteType.project_context

unfoldable pub unit_type_route : UnitType → Option RouteType
unit_type_route UnitType.instruction = some RouteType.prompt_instruction
unit_type_route UnitType.statement = some RouteType.project_context
unit_type_route UnitType.explanation = some RouteType.project_context
unit_type_route _ = none

module _ (strip : String → String) where
  normalized_text_of : Profile → String → String
  normalized_text_of p value =
      strip
        (type_value p.candidate_type ++ ":" ++ p.subject_key ++ ":" ++ p.predicate ++ ":" ++ value)

  pub mapping_of : RouteType → String → String → Mapping
  unfolding candidate_profile normalized_text_of review_code
  mapping_of route value message_uuid =
      let p = candidate_profile route message_uuid in
      record {
        route_type = route;
        candidate_type = p.candidate_type;
        subject_key = p.subject_key;
        predicate = p.predicate;
        object_value = value;
        normalized_text = normalized_text_of p value;
        importance = p.importance;
        status = if is_review_route route then needs_review else ready_for_consolidation;
        rejection_reason_codes = if is_review_route route then review_code route ∷ [] else [];
      }

  unfoldable pub candidate_mapping_for_route : Option RouteType → String → String → Option Mapping
  unfolding mapping_of
  candidate_mapping_for_route none text message_uuid = none
  candidate_mapping_for_route (some route) text message_uuid =
      let value = strip text in
      if is_ignore route || str_eq value ""
      then none
      else some (mapping_of route value message_uuid)

  unfoldable pub candidate_mapping_for_semantic_unit :
      UnitType → String → String → Option MemoryKind → Option Mapping
  unfolding candidate_mapping_for_route kind_route unit_type_route
  candidate_mapping_for_semantic_unit unit_type text message_uuid none =
      candidate_mapping_for_route (unit_type_route unit_type) text message_uuid
  candidate_mapping_for_semantic_unit unit_type text message_uuid (some kind) =
      candidate_mapping_for_route (kind_route kind) text message_uuid
