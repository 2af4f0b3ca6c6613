-- ===== src/Coverage/Provenance.antt =====
-- decide_candidate_provenance of memory_worker/semantic/provenance_policy.py.
pub mod Trust
use open_webui_memorist_edit.Prelude.{
  Bool, true, false, not, ◌&&◌, List, [], ◌∷◌, ◌++◌, String, if◌then◌else◌,
}
use open_webui_memorist_edit.Coverage.Contracts.{
  Role, user, assistant, tool, system, RouteType, CandidateStatus, rejected, needs_review,
  ready_for_consolidation, SourceAuthority, user_explicit, assistant_claim, tool_observation,
  system_instruction, imported_record, Explicitness, explicit, inferred,
}

-- _FACTUAL_TOOL_ROUTES
abbrev pub is_factual_tool_route : RouteType → Bool
is_factual_tool_route RouteType.jira_configuration = true
is_factual_tool_route RouteType.process_fact = true
is_factual_tool_route RouteType.project_context = true
is_factual_tool_route RouteType.resource_reference = true
is_factual_tool_route _ = false

-- _SYSTEM_DIRECTIVE_ROUTES
abbrev pub is_system_directive_route : RouteType → Bool
is_system_directive_route RouteType.prompt_instruction = true
is_system_directive_route RouteType.style_policy = true
is_system_directive_route RouteType.task_constraint = true
is_system_directive_route RouteType.terminology_rule = true
is_system_directive_route RouteType.workflow_policy = true
is_system_directive_route _ = false

-- _REVIEW_ROUTES
abbrev pub is_review_route : RouteType → Bool
is_review_route RouteType.manual_review = true
is_review_route RouteType.privacy_review = true
is_review_route _ = false

-- _ASSISTANT_ARTIFACT_ROUTES
abbrev pub is_assistant_artifact_route : RouteType → Bool
is_assistant_artifact_route RouteType.project_context = true
is_assistant_artifact_route RouteType.process_fact = true
is_assistant_artifact_route RouteType.resource_reference = true
is_assistant_artifact_route _ = false

abbrev pub is_ready : CandidateStatus → Bool
is_ready ready_for_consolidation = true
is_ready _ = false

abbrev pub is_rejected : CandidateStatus → Bool
is_rejected rejected = true
is_rejected _ = false

-- CandidateProvenanceDecision; before its last step, `allows_automatic_memory_creation` holds the
-- local variable `allows_memory`.
pub record Provenance : Type 0 where
  pub source_authority : SourceAuthority
  pub explicitness : Explicitness
  pub status : CandidateStatus
  pub allows_candidate_creation : Bool
  pub allows_automatic_memory_creation : Bool
  pub reason_codes : List String

-- The branch on the message's role.
by_role : Role → RouteType → CandidateStatus → Provenance
by_role assistant route status =
    if is_assistant_artifact_route route
    then record {
      source_authority = assistant_claim;
      explicitness = inferred;
      status = status;
      allows_candidate_creation = true;
      allows_automatic_memory_creation = is_ready status;
      reason_codes = "assistant_project_artifact" ∷ [];
    }
    else record {
      source_authority = assistant_claim;
      explicitness = inferred;
      status = rejected;
      allows_candidate_creation = true;
      allows_automatic_memory_creation = false;
      reason_codes = "assistant_claim_not_user_authoritative" ∷ [];
    }
by_role tool route status =
    let compatible = is_factual_tool_route route in
    record {
      source_authority = tool_observation;
      explicitness = explicit;
      status = status;
      allows_candidate_creation = compatible;
      allows_automatic_memory_creation = compatible && is_ready status;
      reason_codes = if compatible then [] else "tool_route_not_provenance_compatible" ∷ [];
    }
by_role system route status =
    let compatible = is_system_directive_route route in
    record {
      source_authority = system_instruction;
      explicitness = explicit;
      status = status;
      allows_candidate_creation = compatible;
      allows_automatic_memory_creation = compatible && is_ready status;
      reason_codes = if compatible then [] else "system_route_not_provenance_compatible" ∷ [];
    }
by_role user route status = record {
  source_authority = user_explicit;
  explicitness = explicit;
  status = status;
  allows_candidate_creation = true;
  allows_automatic_memory_creation = is_ready status;
  reason_codes = [];
}

imported : CandidateStatus → Provenance
imported status = record {
  source_authority = imported_record;
  explicitness = inferred;
  status = status;
  allows_candidate_creation = true;
  allows_automatic_memory_creation = is_ready status;
  reason_codes = [];
}

-- Review routes hold the candidate back.
hold_for_review : RouteType → Provenance → Provenance
hold_for_review route p =
    if is_review_route route
    then record p {
      status = if is_rejected p.status then p.status else needs_review;
      allows_automatic_memory_creation = false;
      reason_codes = p.reason_codes ++ "route_requires_manual_review" ∷ [];
    }
    else p

unfoldable pub decide_candidate_provenance : Role → RouteType → CandidateStatus → Bool → Provenance
unfolding by_role imported hold_for_review
decide_candidate_provenance message_role route_type route_status from_import =
    let start =
      if from_import then imported route_status else by_role message_role route_type route_status in
    let p = hold_for_review route_type start in
    record p {
      allows_automatic_memory_creation =
          p.allows_automatic_memory_creation && p.allows_candidate_creation;
    }
