-- ===== src/Gate/Tests.antt =====
-- A lasting instruction of the user, with a route that is ready and one that is not.
use open_webui_memorist_edit.Prelude.{
  ◌≡◌, refl, ◌↔◌, true, false, String, str_eq, none, some, [], ◌∷◌, map, any,
}
use open_webui_memorist_edit.Prelude.Int.{pos}
use open_webui_memorist_edit.Prelude.Texts.{codes, lower_code}
use open_webui_memorist_edit.Coverage.Contracts.{user, RouteType}
use open_webui_memorist_edit.Gate.{Text, analyze_high_confidence, retain_raw_only, evaluate}
use open_webui_memorist_edit.Gate.Routes.{
  CanonicalRouteReference, RouteStatus, select_authoritative_route,
}
use open_webui_memorist_edit.Gate.Creation.{
  usable, is_memorable, selected_speaks, creates_candidates_iff,
}
use open_webui_memorist_edit.Gate.Drafts.{UnitSource, creates_candidates}

abbrev lower : Text → Text
lower text = map lower_code text

abbrev instruction : Text
instruction = codes " From now on never use tabs. "

abbrev failed_route : CanonicalRouteReference
failed_route = record {
  route_uuid = "r1";
  annotation_uuid = "a1";
  route_type = RouteType.style_policy;
  route_status = RouteStatus.failed;
  priority = pos 90;
}

abbrev ready_route : CanonicalRouteReference
ready_route = record failed_route {
  route_uuid = "r2";
  route_status = RouteStatus.ready;
  priority = pos 10;
}

instruction_analyzed : (evaluate lower none instruction user).decision ≡ analyze_high_confidence
unfolding evaluate
instruction_analyzed = refl

small_talk_retained :
    (evaluate lower none (codes "The weather was nice") user).decision ≡ retain_raw_only
unfolding evaluate
small_talk_retained = refl

ready_first : select_authoritative_route (failed_route ∷ ready_route ∷ []) ≡ some ready_route
unfolding select_authoritative_route
ready_first = refl

abbrev said : UnitSource
said = record {
  unit_text = "From now on never use tabs.";
  message_uuid = "m1";
  message_role = user;
  imported_record = false;
}

abbrev strip : String → String
strip text = text

creates_candidates_iff_example :
    (creates_candidates strip
        (evaluate lower none (codes said.unit_text) user)
        said
        (failed_route ∷ ready_route ∷ [])
      ≡ true)
    ↔ ((is_memorable lower (codes said.unit_text) user ≡ true)
        × (any usable (failed_route ∷ ready_route ∷ []) ≡ true)
        × (str_eq (strip said.unit_text) "" ≡ false)
        × (selected_speaks said (select_authoritative_route (failed_route ∷ ready_route ∷ []))
            ≡ true))
creates_candidates_iff_example =
    creates_candidates_iff lower strip said (failed_route ∷ ready_route ∷ [])
