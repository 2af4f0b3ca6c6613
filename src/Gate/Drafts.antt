-- ===== src/Gate/Drafts.antt =====
-- The guards of build_candidate_draft (memory_worker/semantic/candidate_service.py): whether a unit
-- gets a draft of a candidate. str.strip is a parameter.
use open_webui_memorist_edit.Prelude.{Bool, false, ◌&&◌, Option, none, some, List, String}
use open_webui_memorist_edit.Coverage.Contracts.{RouteType, Role}
use open_webui_memorist_edit.Coverage.Mapping.{Mapping, candidate_mapping_for_route}
use open_webui_memorist_edit.Coverage.Provenance.{decide_candidate_provenance}
use open_webui_memorist_edit.Gate.{GateResult}
use open_webui_memorist_edit.Gate.Routes.{
  CanonicalRouteReference, select_authoritative_route, policy_for,
}

-- What the draft reads of its unit, beside its routes.
pub record UnitSource : Type 0 where
  pub unit_text : String
  pub message_uuid : String
  pub message_role : Role
  pub imported_record : Bool

abbrev pub provenance_allows : UnitSource → RouteType → Option Mapping → Bool
provenance_allows value route_type none = false
provenance_allows value route_type (some mapping) =
    (decide_candidate_provenance value.message_role route_type mapping.status
      value.imported_record).allows_candidate_creation

abbrev pub route_allows : (String → String) → UnitSource → Option CanonicalRouteReference → Bool
route_allows strip value none = false
route_allows strip value (some route) =
    provenance_allows value route.route_type
      (candidate_mapping_for_route strip (some route.route_type) value.unit_text value.message_uuid)

-- build_candidate_draft returns a draft and not None.
abbrev pub creates_candidates :
    (String → String) → GateResult → UnitSource → List CanonicalRouteReference → Bool
creates_candidates strip gate value routes =
    let route = select_authoritative_route routes in
    (policy_for gate route).allows_candidate_creation && route_allows strip value route
