-- ===== src/Gate/Routes.antt =====
-- The choice of a route in memory_worker/semantic/authority.py, and the policy of
-- memory_worker/semantic/gate_policy.py on the gate's decision and the route.
use Prim.Native.String.{compare}
use text.Mathlib.Text.{is_le}
use open_webui_memorist_edit.Prelude.{
  Bool, true, false, not, ◌&&◌, ◌||◌, Option, none, some, List, [], ◌∷◌, ◌++◌, String,
  if◌then◌else◌,
}
use open_webui_memorist_edit.Prelude.Int.{ℤ, ltb_ℤ}
use open_webui_memorist_edit.Prelude.Sorting.{sort_by}
use open_webui_memorist_edit.Coverage.Contracts.{RouteType}
use open_webui_memorist_edit.Gate.{
  GateDecision, discard, retain_raw_only, analyze, analyze_high_confidence, manual_review,
  GateResult,
}

-- MemorySignalRouteStatus
pub data RouteStatus : Type 0 where
  pending ready ignored failed : RouteStatus

-- CanonicalRouteReference
pub record CanonicalRouteReference : Type 0 where
  pub route_uuid : String
  pub annotation_uuid : String
  pub route_type : RouteType
  pub route_status : RouteStatus
  pub priority : ℤ

abbrev pub is_ready : RouteStatus → Bool
is_ready ready = true
is_ready _ = false

abbrev pub is_ignored : RouteStatus → Bool
is_ignored ignored = true
is_ignored _ = false

abbrev pub is_ignore : RouteType → Bool
is_ignore RouteType.ignore = true
is_ignore _ = false

-- One component of the key: the route with the wanted mark goes first, `rest` decides a tie.
abbrev pub prefer : Bool → Bool → Bool → Bool
prefer true false rest = true
prefer false true rest = false
prefer _ _ rest = rest

-- The order of the sort key.
abbrev pub by_priority : CanonicalRouteReference → CanonicalRouteReference → Bool
by_priority a b =
    if ltb_ℤ b.priority a.priority
    then true
    else if ltb_ℤ a.priority b.priority
    then false
    else is_le (compare a.route_uuid b.route_uuid)

abbrev pub route_leb : CanonicalRouteReference → CanonicalRouteReference → Bool
route_leb a b =
    prefer (is_ready a.route_status) (is_ready b.route_status)
      (prefer (not (is_ignore a.route_type)) (not (is_ignore b.route_type)) (by_priority a b))

abbrev pub first_route : List CanonicalRouteReference → Option CanonicalRouteReference
first_route [] = none
first_route (r ∷ rs) = some r

-- select_authoritative_route
unfoldable pub select_authoritative_route :
    List CanonicalRouteReference → Option CanonicalRouteReference
unfolding sort_by
select_authoritative_route routes = first_route (sort_by route_leb routes)

pub data PolicyReason : Type 0 where
  missing_gate_decision gate_discard gate_retain_raw_only : PolicyReason
  gate_manual_review_blocks_automatic_candidates gate_requires_high_confidence_pass : PolicyReason
  route_ignored route_not_ready candidate_creation_not_allowed : PolicyReason

-- GateCandidatePolicy
pub record GateCandidatePolicy : Type 0 where
  pub gate_decision : Option GateDecision
  pub route_type : Option RouteType
  pub route_status : Option RouteStatus
  pub allows_analysis : Bool
  pub allows_candidate_creation : Bool
  pub allows_automatic_memory_creation : Bool
  pub requires_high_confidence_pass : Bool
  pub reason_codes : List PolicyReason

-- _ANALYSIS_GATE_VALUES and _CANDIDATE_GATE_VALUES
abbrev pub gate_allows_analysis : Option GateDecision → Bool
gate_allows_analysis (some analyze) = true
gate_allows_analysis (some analyze_high_confidence) = true
gate_allows_analysis (some manual_review) = true
gate_allows_analysis _ = false

abbrev pub gate_allows_candidate_creation : Option GateDecision → Bool
gate_allows_candidate_creation (some analyze) = true
gate_allows_candidate_creation (some analyze_high_confidence) = true
gate_allows_candidate_creation _ = false

abbrev is_high_confidence_gate : Option GateDecision → Bool
is_high_confidence_gate (some analyze_high_confidence) = true
is_high_confidence_gate _ = false

-- What the gate adds to the reasons.
abbrev gate_reasons : Option GateDecision → Bool → List PolicyReason
gate_reasons none pass = missing_gate_decision ∷ []
gate_reasons (some discard) pass = gate_discard ∷ []
gate_reasons (some retain_raw_only) pass = gate_retain_raw_only ∷ []
gate_reasons (some manual_review) pass = gate_manual_review_blocks_automatic_candidates ∷ []
gate_reasons (some analyze_high_confidence) pass = gate_requires_high_confidence_pass ∷ []
gate_reasons (some analyze) pass = if pass then gate_requires_high_confidence_pass ∷ [] else []

abbrev status_is : (RouteStatus → Bool) → Option RouteStatus → Bool
status_is p none = false
status_is p (some s) = p s

abbrev type_is_ignore : Option RouteType → Bool
type_is_ignore none = false
type_is_ignore (some t) = is_ignore t

-- What the route adds to the reasons; it blocks candidates if it adds something.
abbrev pub route_reasons : Option RouteType → Option RouteStatus → List PolicyReason
route_reasons type status =
    if type_is_ignore type || status_is is_ignored status
    then route_ignored ∷ []
    else if not (status_is is_ready status)
    then route_not_ready ∷ []
    else []

abbrev pub is_nil : List PolicyReason → Bool
is_nil [] = true
is_nil (r ∷ rs) = false

abbrev last_reason : Bool → List PolicyReason → List PolicyReason
last_reason allows [] = if allows then [] else candidate_creation_not_allowed ∷ []
last_reason allows (r ∷ rs) = r ∷ rs

-- candidate_policy_for_gate_and_route
unfoldable pub candidate_policy_for_gate_and_route :
    Option GateDecision → Option RouteType → Option RouteStatus → Bool → GateCandidatePolicy
candidate_policy_for_gate_and_route gate type status pass =
    let allows = gate_allows_candidate_creation gate && is_nil (route_reasons type status) in
    record {
      gate_decision = gate;
      route_type = type;
      route_status = status;
      allows_analysis = gate_allows_analysis gate;
      allows_candidate_creation = allows;
      allows_automatic_memory_creation = allows;
      requires_high_confidence_pass = pass || is_high_confidence_gate gate;
      reason_codes = last_reason allows (gate_reasons gate pass ++ route_reasons type status);
    }

-- The policy on a decision of the gate and the route of a unit, as build_candidate_draft asks for it.
abbrev pub policy_for : GateResult → Option CanonicalRouteReference → GateCandidatePolicy
policy_for gate none =
    candidate_policy_for_gate_and_route (some gate.decision) none none
      gate.requires_high_confidence_pass
policy_for gate (some r) =
    candidate_policy_for_gate_and_route (some gate.decision) (some r.route_type)
      (some r.route_status) gate.requires_high_confidence_pass
