-- ===== src/Coverage/Unit/Safety.antt =====
-- What a unit has to meet before it yields a candidate proposal.
use open_webui_memorist_edit.Prelude.{
  ◌≡◌, refl, ap, ◌∙◌, ◌⊎◌, inl, inr, true, false, not, Option, none, some, List, [], ◌∷◌, arith,
  any, Bool-cases,
}
use open_webui_memorist_edit.Coverage.Contracts.{
  durable_candidate, normal, ready_for_consolidation, Authority, SemanticUnit,
}
use open_webui_memorist_edit.Coverage.AuthorityIndex.{containing}
use open_webui_memorist_edit.Coverage.Policy.Eligibility.{Assertive, durable_iff_IsEligible}
use open_webui_memorist_edit.Coverage.Provenance.Trust.{route_fits, automatic_iff}
use open_webui_memorist_edit.Coverage.Mapping.{Mapping}
use open_webui_memorist_edit.Coverage.References.{
  PlannerInput, is_resolved, references_of, relations_of, dependency_hint_without_reference,
  assistant_reference_is_not_ratified, assistant_proposition_injection,
}
use open_webui_memorist_edit.Coverage.Unit.{
  CoverageItem, Proposal, Library, View, is_some, only_one, contested, must_contest,
  effective_authority, view_unit, decide_unit, provenance_of, provenance_refuses, make_proposal,
  settle, plan_unit,
}

module _ (library : Library) (value : PlannerInput) where
  -- The parts of a settled unit that has a proposal.
  record Proposes (unit : SemanticUnit) (v : View) (m : Option Mapping) (p : Proposal)
      : Type 0 where
    holder : Authority
    mapping : Mapping
    mapped : m ≡ some mapping
    durable_decision : (decide_unit library value unit v).disposition ≡ durable_candidate
    accepted : provenance_refuses library value mapping ≡ false
    made :
        p
        ≡ make_proposal library value unit v holder mapping
            (decide_unit library value unit v).reason_codes

  settle-Proposes :
      (unit : SemanticUnit) (v : View) (a : Option Authority) (m : Option Mapping)
      (item : CoverageItem) (p : Proposal)
      → settle library value unit v a m ≡ some (item, some p)
      → Proposes unit v m p
  unfolding settle
  settle-Proposes unit v none none item p h = ground arith
  settle-Proposes unit v none (some m) item p h = ground arith
  settle-Proposes unit v (some a) none item p h = ground arith
  settle-Proposes unit v (some a) (some m) item p h = record {
    holder = a;
    mapping = m;
    mapped = refl;
    durable_decision = ground arith;
    accepted = ground arith;
    made = ground arith;
  }

  uncontested_effective :
      (unit : SemanticUnit) (o : Option Authority) (h : Authority)
      → effective_authority library value unit o ≡ some h
      → h.conflicting_authority ≡ false
      → (must_contest library value unit ≡ false) × (o ≡ some h)
  unfolding effective_authority
  uncontested_effective unit none h e c = cc
  uncontested_effective unit (some a) h e c = elim (Bool-cases (must_contest library value unit)) [
    | inl t ↦
        let e' = rw t at e in
        let marked : contested a ≡ h = cc in
        let contra : true ≡ false = ap Authority.conflicting_authority marked ∙ c in cc
    | inr f ↦ (f, rw f at e)
  ]

  only_one-singleton :
      (found : List Authority) (h : Authority) → only_one found ≡ some h → found ≡ h ∷ []
  only_one-singleton [] h e = cc
  only_one-singleton (a ∷ []) h e = cc
  only_one-singleton (a ∷ b ∷ more) h e = cc

  -- What every unit with a proposal meets, and what of it the proposal carries.
  pub record IsSafe (unit : SemanticUnit) (p : Proposal) : Type 0 where
    pub holder : Authority
    pub sole_holder : containing value.authorities unit.raw_start unit.raw_end ≡ holder ∷ []
    pub uncontested : holder.conflicting_authority ≡ false
    pub storable : holder.privacy_storage_allowed ≡ true
    pub open_ceiling : holder.privacy_ceiling ≡ normal
    pub executed : is_some value.semantic_prompt_execution_uuid ≡ true
    pub ratified :
        assistant_reference_is_not_ratified library.tokens value unit
          (references_of value unit)
          (relations_of value unit)
        ≡ false
    pub not_injected :
        assistant_proposition_injection library.tokens value unit
          (references_of value unit)
          (relations_of value unit)
        ≡ false
    pub references_resolved :
        any (λ r. not (is_resolved r.status)) (references_of value unit) ≡ false
    pub hints_referenced :
        dependency_hint_without_reference value unit (references_of value unit) ≡ false
    pub assertive : Assertive unit
    pub mapping : Mapping
    pub mapped : (view_unit library value unit).mapping ≡ some mapping
    pub ready : mapping.status ≡ ready_for_consolidation
    pub trusted_role :
        (value.imported_record ≡ true) ⊎ (route_fits value.message_role mapping.route_type ≡ true)
    pub of_unit : p.semantic_unit_id ≡ unit.id
    pub same_evidence : p.evidence ≡ unit.evidence
    pub same_span : (p.raw_start ≡ unit.raw_start) × (p.raw_end ≡ unit.raw_end)

  must_contest-parts :
      (unit : SemanticUnit)
      → must_contest library value unit ≡ false
      → (is_some value.semantic_prompt_execution_uuid ≡ true)
        × (assistant_reference_is_not_ratified library.tokens value unit
              (references_of value unit)
              (relations_of value unit)
            ≡ false)
        × (assistant_proposition_injection library.tokens value unit
              (references_of value unit)
              (relations_of value unit)
            ≡ false)
  unfolding must_contest
  must_contest-parts unit h = (ground arith, ground arith, ground arith)

  Proposes-IsSafe :
      (unit : SemanticUnit) (p : Proposal)
      → Proposes unit (view_unit library value unit) (view_unit library value unit).mapping p
      → IsSafe unit p
  unfolding view_unit make_proposal
  Proposes-IsSafe unit p q =
      let v = view_unit library value unit in
      let eligible =
        (durable_iff_IsEligible unit v.authority v.authority_count v.unresolved
            (is_some v.mapping)).0
          q.durable_decision in
      let t = eligible.trusted in
      let authority =
        uncontested_effective unit
          (only_one (containing value.authorities unit.raw_start unit.raw_end)) t.holder t.found
          t.uncontested in
      let guards = must_contest-parts unit authority.0 in
      let resolved = eligible.references_resolved in
      let m = q.mapping in
      let automatic : (provenance_of library value m).allows_automatic_memory_creation ≡ true =
        let a = q.accepted in ground arith in
      let role =
        (automatic_iff value.message_role m.route_type m.status value.imported_record).0
          automatic in
      record {
        holder = t.holder;
        sole_holder = only_one-singleton _ t.holder authority.1;
        uncontested = t.uncontested;
        storable = t.storable;
        open_ceiling = t.open_ceiling;
        executed = guards.0;
        ratified = guards.1;
        not_injected = guards.2;
        references_resolved = ground arith;
        hints_referenced = ground arith;
        assertive = eligible.assertive;
        mapping = m;
        mapped = q.mapped;
        ready = role.0;
        trusted_role = role.2;
        of_unit = ap (λ (r : Proposal). r.semantic_unit_id) q.made;
        same_evidence = ap (λ (r : Proposal). r.evidence) q.made;
        same_span =
            (ap (λ (r : Proposal). r.raw_start) q.made, ap (λ (r : Proposal). r.raw_end) q.made);
      }

  -- A unit yields a proposal only if a single authority span contains it, which is uncontested,
  -- allows storage and has the normal privacy ceiling; the semantic prompt was executed; no
  -- assistant reference is left unratified and no unratified assistant wording is imported; all its
  -- references are resolved and no dependency hint lacks one; it is durable, asserted or hedged, and
  -- no question; the candidate mapping of the unit is ready for consolidation; and the record is
  -- imported or the mapped route fits the role of the message. The proposal then carries the unit's id, evidence and span.
  pub plan_unit-IsSafe :
      (unit : SemanticUnit) (item : CoverageItem) (p : Proposal)
      → plan_unit library value unit ≡ some (item, some p)
      → IsSafe unit p
  unfolding plan_unit
  plan_unit-IsSafe unit item p h =
      let v = view_unit library value unit in
      Proposes-IsSafe unit p (settle-Proposes unit v v.authority v.mapping item p h)
