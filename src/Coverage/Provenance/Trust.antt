-- ===== src/Coverage/Provenance/Trust.antt =====
-- Whose words decide_candidate_provenance trusts.
use open_webui_memorist_edit.Prelude.{◌≡◌, ◌↔◌, ◌⊎◌, Bool, true, false, arith}
use open_webui_memorist_edit.Coverage.Contracts.{
  Role, user, assistant, tool, system, RouteType, CandidateStatus, ready_for_consolidation,
  user_explicit,
}
use open_webui_memorist_edit.Coverage.Provenance.{
  is_factual_tool_route, is_system_directive_route, is_review_route, is_assistant_artifact_route,
  decide_candidate_provenance,
}

-- The routes on which a role's own words count.
abbrev pub route_fits : Role → RouteType → Bool
route_fits user route = true
route_fits assistant route = is_assistant_artifact_route route
route_fits tool route = is_factual_tool_route route
route_fits system route = is_system_directive_route route

module _ (role : Role) (route : RouteType) (status : CandidateStatus) (from_import : Bool) where
  -- decide_candidate_provenance sets allows_automatic_memory_creation exactly when the route's status is
  -- ready, the route is none of the review routes, and the record is imported or the route fits the
  -- role of its message. This is about that flag alone.
  pub automatic_iff :
      ((decide_candidate_provenance role route status from_import).allows_automatic_memory_creation
        ≡ true)
      ↔ ((status ≡ ready_for_consolidation)
          × (is_review_route route ≡ false)
          × ((from_import ≡ true) ⊎ (route_fits role route ≡ true)))
  unfolding decide_candidate_provenance
  automatic_iff = (λ h. (ground arith, ground arith, ground arith), λ h. ground arith)

  -- The authority of the user is given exactly to messages of the user that were not imported.
  pub user_explicit_iff :
      ((decide_candidate_provenance role route status from_import).source_authority ≡ user_explicit)
      ↔ ((role ≡ user) × (from_import ≡ false))
  unfolding decide_candidate_provenance
  user_explicit_iff = (λ h. (ground arith, ground arith), λ h. ground arith)

  -- What the decision lets be created automatically is ready for consolidation and may be a candidate.
  pub automatic_is_ready :
      (decide_candidate_provenance role route status from_import).allows_automatic_memory_creation
        ≡ true
      → let p = decide_candidate_provenance role route status from_import in
        (p.status ≡ ready_for_consolidation) × (p.allows_candidate_creation ≡ true)
  unfolding decide_candidate_provenance
  automatic_is_ready h = ground arith
