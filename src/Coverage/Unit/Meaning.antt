-- ===== src/Coverage/Unit/Meaning.antt =====
-- Whether the semantic kind of a unit or the legacy route of its text decides on the mapping.
use open_webui_memorist_edit.Prelude.{◌≡◌, false, inl, inr, Bool-cases, Option, none, some, str_eq}
use open_webui_memorist_edit.Coverage.Contracts.{MemoryKind, RouteType, Authority, SemanticUnit}
use open_webui_memorist_edit.Coverage.AuthorityIndex.{containing}
use open_webui_memorist_edit.Coverage.Mapping.{
  Mapping, is_ignore, kind_route, candidate_mapping_for_route, candidate_mapping_for_semantic_unit,
}
use open_webui_memorist_edit.Coverage.Mapping.Choice.{kind_route-direct, route_of_mapping}
use open_webui_memorist_edit.Coverage.References.{PlannerInput}
use open_webui_memorist_edit.Coverage.Unit.{
  Library, kind_mapping, legacy_mapping, effective_authority, must_contest, only_one, or_else,
  view_unit,
}

-- There is a mapping, of this route.
abbrev pub Route : Option Mapping → RouteType → Type 0
Route o r = (m : Mapping) × (o ≡ some m) × (m.route_type ≡ r)

Route-or_else : (o p : Option Mapping) (r : RouteType) → Route o r → Route (or_else o p) r
Route-or_else o p r (m, e, k) = (m, rw e, k)

module _ (library : Library) (value : PlannerInput) (unit : SemanticUnit) where
  kind_mapping-Route :
      (kind : MemoryKind) (route : RouteType)
      → unit.memory_kind ≡ some kind
      → kind_route kind ≡ some route
      → str_eq (library.strip unit.proposition) "" ≡ false
      → Route (kind_mapping library value unit) route
  unfolding kind_mapping candidate_mapping_for_semantic_unit
  kind_mapping-Route kind route k r b =
      rw (k, r)
        (route_of_mapping library.strip route unit.proposition value.message_uuid
          (kind_route-direct library.strip kind route r).0 b)

  question_mapping-none :
      unit.memory_kind ≡ some MemoryKind.question → kind_mapping library value unit ≡ none
  unfolding kind_mapping candidate_mapping_for_semantic_unit kind_route candidate_mapping_for_route
  question_mapping-none k = rw k

  legacy_mapping-Route :
      (a : Authority) (route : RouteType)
      → a.route_type ≡ some route
      → is_ignore route ≡ false
      → str_eq (library.strip unit.proposition) "" ≡ false
      → Route
          (legacy_mapping library value unit (effective_authority library value unit (some a)))
          route
  unfolding legacy_mapping effective_authority
  legacy_mapping-Route a route r i b =
      let m = route_of_mapping library.strip route unit.proposition value.message_uuid i b in
      elim (Bool-cases (must_contest library value unit)) [
        | inl e ↦ (m.0, rw (e, r) m.1, m.2)
        | inr e ↦ (m.0, rw (e, r) m.1, m.2)
      ]

  -- A semantic kind other than a question decides on the route of the mapping, whatever the legacy
  -- route of the text is, when the stripped proposition is not empty.
  pub semantic_kind_decides :
      (kind : MemoryKind) (route : RouteType)
      → unit.memory_kind ≡ some kind
      → kind_route kind ≡ some route
      → str_eq (library.strip unit.proposition) "" ≡ false
      → Route (view_unit library value unit).mapping route
  unfolding view_unit
  semantic_kind_decides kind route k r b =
      Route-or_else (kind_mapping library value unit) _ route (kind_mapping-Route kind route k r b)

  -- A unit of the kind `question` takes the mapping of the legacy route of the one text unit that
  -- contains it, when this route is not to be ignored and the stripped proposition is not empty.
  pub question_takes_legacy_route :
      (a : Authority) (route : RouteType)
      → unit.memory_kind ≡ some MemoryKind.question
      → only_one (containing value.authorities unit.raw_start unit.raw_end) ≡ some a
      → a.route_type ≡ some route
      → is_ignore route ≡ false
      → str_eq (library.strip unit.proposition) "" ≡ false
      → Route (view_unit library value unit).mapping route
  unfolding view_unit
  question_takes_legacy_route a route k one r i b =
      rw (question_mapping-none k, one)
        (Route-or_else _ _ route (legacy_mapping-Route a route r i b))
