-- ===== src/Coverage/Mapping/Choice.antt =====
-- Which mapping a route or a semantic kind has.
use open_webui_memorist_edit.Prelude.{
  ◌≡◌, refl, sym, ap, ◌∙◌, ◌↔◌, inl, inr, Option-cases, true, false, some, [], String, arith,
  str_eq,
}
use open_webui_memorist_edit.Coverage.Contracts.{
  RouteType, UnitType, MemoryKind, ready_for_consolidation, needs_review,
}
use open_webui_memorist_edit.Coverage.Provenance.{is_review_route}
use open_webui_memorist_edit.Coverage.Mapping.{
  Mapping, mapping_of, is_ignore, kind_route, candidate_mapping_for_route,
  candidate_mapping_for_semantic_unit,
}

module _ (strip : String → String) where
  -- What a mapping of a route contains.
  pub record IsMappingOf (route : RouteType) (text : String) (m : Mapping) : Type 0 where
    pub same_route : m.route_type ≡ route
    pub stripped : m.object_value ≡ strip text
    pub not_blank : str_eq (strip text) "" ≡ false
    pub not_ignored : is_ignore route ≡ false
    pub review_status : (m.status ≡ needs_review) ↔ (is_review_route route ≡ true)
    pub ready_status : (m.status ≡ ready_for_consolidation) ↔ (is_review_route route ≡ false)
    pub reasons : (m.rejection_reason_codes ≡ []) ↔ (is_review_route route ≡ false)

  route-IsMappingOf :
      (route : RouteType) (text message_uuid : String) (m : Mapping)
      → candidate_mapping_for_route strip (some route) text message_uuid ≡ some m
      → IsMappingOf route text m
  unfolding candidate_mapping_for_route
  route-IsMappingOf route text message_uuid m h = record {
    same_route = ground arith;
    stripped = ground arith;
    not_blank = ground arith;
    not_ignored = ground arith;
    review_status = ground arith;
    ready_status = ground arith;
    reasons = ground arith;
  }

  pub kind_route-direct :
      (kind : MemoryKind) (route : RouteType)
      → kind_route kind ≡ some route
      → (is_ignore route ≡ false) × (is_review_route route ≡ false)
  unfolding kind_route
  kind_route-direct kind route h = ground arith

  -- The mapping of a semantic kind is never one for review: it is ready for consolidation, has no
  -- rejection reason and holds the stripped proposition, which is not empty.
  pub semantic_mapping-ready :
      (unit_type : UnitType) (text message_uuid : String) (kind : MemoryKind) (m : Mapping)
      → candidate_mapping_for_semantic_unit strip unit_type text message_uuid (some kind) ≡ some m
      → (kind_route kind ≡ some m.route_type)
        × (m.status ≡ ready_for_consolidation)
        × (m.rejection_reason_codes ≡ [])
        × (m.object_value ≡ strip text)
        × (str_eq (strip text) "" ≡ false)
  unfolding candidate_mapping_for_semantic_unit
  semantic_mapping-ready unit_type text message_uuid kind m h =
      elim (Option-cases (kind_route kind)) [
        | inl e ↦ let h' = rw e at h in cc
        | inr (route, e) ↦
            let i = route-IsMappingOf route text message_uuid m (rw e at h) in
            let direct = kind_route-direct kind route e in
            (
              e ∙ sym (ap some i.same_route),
              i.ready_status.1 direct.1,
              i.reasons.1 direct.1,
              i.stripped,
              i.not_blank,
            )
      ]

  pub route_of_mapping :
      (route : RouteType) (text message_uuid : String)
      → is_ignore route ≡ false
      → str_eq (strip text) "" ≡ false
      → (m : Mapping) × (candidate_mapping_for_route strip (some route) text message_uuid ≡ some m)
        × (m.route_type ≡ route)
  unfolding candidate_mapping_for_route
  route_of_mapping route text message_uuid i b =
      (mapping_of strip route text' message_uuid, rw (i, b), refl)
    where
      text' : String
      text' = strip text
