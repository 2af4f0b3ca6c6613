-- ===== src/Coverage/Unit/Items.antt =====
-- The item that every unit gets, and the link between items and proposals.
use open_webui_memorist_edit.Prelude.{
  ◌≡◌, refl, inl, inr, true, false, Option, some, arith, Bool-cases,
}
use mathlib.Core.Option
use open_webui_memorist_edit.Coverage.Contracts.{
  durable_candidate, needs_review, Authority, SemanticUnit,
}
use open_webui_memorist_edit.Coverage.Policy.{disposition_for_unit}
use open_webui_memorist_edit.Coverage.Policy.Eligibility.{durable_iff_IsEligible}
use open_webui_memorist_edit.Coverage.Mapping.{Mapping}
use open_webui_memorist_edit.Coverage.References.{PlannerInput}
use open_webui_memorist_edit.Coverage.Unit.{
  CoverageItem, Proposal, Library, View, is_durable_candidate, is_some, contested, decide_unit,
  view_unit, settle, plan_unit,
}

-- The item names the unit and its span, and is durable exactly when there is a proposal, which it
-- then names.
pub record ItemFor (unit : SemanticUnit) (r : CoverageItem × Option Proposal) : Type 0 where
  pub named : r.0.semantic_unit_id ≡ some unit.id
  pub starts : r.0.raw_start ≡ unit.raw_start
  pub ends : r.0.raw_end ≡ unit.raw_end
  pub durable : is_durable_candidate r.0.disposition ≡ is_some r.1
  pub linked : r.0.proposal_id ≡ Option.map (λ p. p.proposal_id) r.1

contested-needs_review :
    (unit : SemanticUnit) (a : Authority)
    → (disposition_for_unit unit (some (contested a)) 1 false true).disposition ≡ needs_review
unfolding disposition_for_unit
contested-needs_review unit a = refl

module _ (library : Library) (value : PlannerInput) (unit : SemanticUnit) (v : View) where
  settle-ItemFor :
      (a : Option Authority) (m : Option Mapping) (r : CoverageItem × Option Proposal)
      → settle library value unit v a m ≡ some r
      → ItemFor unit r
  unfolding settle
  settle-ItemFor (some a) (some m) r h = record {
    named = ground arith;
    starts = ground arith;
    ends = ground arith;
    durable = ground (arith, contested-needs_review unit a);
    linked = ground arith;
  }
  settle-ItemFor _ _ r h = record {
    named = ground arith;
    starts = ground arith;
    ends = ground arith;
    durable = ground arith;
    linked = ground arith;
  }

  durable_has_parts :
      is_durable_candidate (decide_unit library value unit v).disposition ≡ true
      → (is_some v.authority ≡ true) × (is_some v.mapping ≡ true)
  durable_has_parts h =
      let d : (decide_unit library value unit v).disposition ≡ durable_candidate = ground arith in
      let e =
        (durable_iff_IsEligible unit v.authority v.authority_count v.unresolved
            (is_some v.mapping)).0
          d in
      (rw e.trusted.found, e.has_mapping)

  -- The code's assertion holds: a durable unit has an authority and a mapping.
  settle-total :
      (a : Option Authority) (m : Option Mapping)
      → (is_durable_candidate (decide_unit library value unit v).disposition ≡ true
          → (is_some a ≡ true) × (is_some m ≡ true))
      → is_some (settle library value unit v a m) ≡ true
  unfolding settle
  settle-total (some a) (some m) parts = ground arith
  settle-total _ _ parts =
      elim (Bool-cases (is_durable_candidate (decide_unit library value unit v).disposition)) [
        | inl t ↦ let p = parts t in cc
        | inr f ↦ rw f
      ]

module _ (library : Library) (value : PlannerInput) (unit : SemanticUnit) where
  -- The loop's body never runs into its assertion: every unit gets an item, whatever the input.
  pub plan_unit-total : is_some (plan_unit library value unit) ≡ true
  unfolding plan_unit
  plan_unit-total =
      let v = view_unit library value unit in
      settle-total library value unit v v.authority v.mapping
        (durable_has_parts library value unit v)

  -- The item of a unit names the unit and has its span; it is durable exactly when there is a
  -- proposal, and it names this proposal and no other.
  pub plan_unit-ItemFor :
      (r : CoverageItem × Option Proposal) → plan_unit library value unit ≡ some r → ItemFor unit r
  unfolding plan_unit
  plan_unit-ItemFor r h =
      let v = view_unit library value unit in
      settle-ItemFor library value unit v v.authority v.mapping r h
