-- ===== src/Coverage/Policy/Eligibility.antt =====
-- Which units the policy finds durable, before the provenance of their message is looked at.
use open_webui_memorist_edit.Prelude.{
  ℕ, ◌≡◌, refl, ◌≢◌, ◌↔◌, ◌⊎◌, Bool, true, false, Option, none, some, arith,
}
use open_webui_memorist_edit.Coverage.Contracts.{
  durable_candidate, rejected_by_gate, normal, question, durable, asserted, hedged, Authority,
  SemanticUnit,
}
use open_webui_memorist_edit.Coverage.Policy.{disposition_for_unit}

-- One uncontested authority that allows storage at the normal ceiling.
pub record Trusted (authority : Option Authority) (count : ℕ) : Type 0 where
  pub holder : Authority
  pub found : authority ≡ some holder
  pub single : count ≡ 1
  pub uncontested : holder.conflicting_authority ≡ false
  pub storable : holder.privacy_storage_allowed ≡ true
  pub open_ceiling : holder.privacy_ceiling ≡ normal

-- A durable unit that is asserted or hedged, and is no question.
pub record Assertive (unit : SemanticUnit) : Type 0 where
  pub lasting : unit.durability ≡ durable
  pub no_question : unit.unit_type ≢ question
  pub stated : (unit.epistemic_status ≡ asserted) ⊎ (unit.epistemic_status ≡ hedged)

pub record IsEligible (unit : SemanticUnit) (authority : Option Authority) (count : ℕ)
    (unresolved mapped : Bool) : Type 0 where
  pub trusted : Trusted authority count
  pub assertive : Assertive unit
  pub references_resolved : unresolved ≡ false
  pub has_mapping : mapped ≡ true

IsEligible-of_durable :
    (unit : SemanticUnit) (authority : Option Authority) (count : ℕ) (unresolved mapped : Bool)
    → (disposition_for_unit unit authority count unresolved mapped).disposition ≡ durable_candidate
    → IsEligible unit authority count unresolved mapped
unfolding disposition_for_unit
IsEligible-of_durable unit none count unresolved mapped h = cc
IsEligible-of_durable unit (some a) count unresolved mapped h = record {
  trusted = record {
    holder = a;
    found = refl;
    single = ground arith;
    uncontested = ground arith;
    storable = ground arith;
    open_ceiling = ground arith;
  };
  assertive = record { lasting = ground arith; no_question = ground arith; stated = ground arith };
  references_resolved = ground arith;
  has_mapping = ground arith;
}

durable_of_eligible :
    (unit : SemanticUnit) (authority : Option Authority) (count : ℕ) (unresolved mapped : Bool)
    → IsEligible unit authority count unresolved mapped
    → (disposition_for_unit unit authority count unresolved mapped).disposition ≡ durable_candidate
unfolding disposition_for_unit
durable_of_eligible unit none count unresolved mapped e = let t = e.trusted.found in cc
durable_of_eligible unit (some a) count unresolved mapped e =
    let t = e.trusted in let s = e.assertive in ground arith

-- disposition_for_unit answers durable_candidate exactly when one uncontested authority with storage
-- allowed and a normal privacy ceiling holds the unit, it is durable, asserted or hedged, no question,
-- its references are resolved and a candidate mapping exists. This is the answer of the policy alone.
pub durable_iff_IsEligible :
    (unit : SemanticUnit) (authority : Option Authority) (count : ℕ) (unresolved mapped : Bool)
    → ((disposition_for_unit unit authority count unresolved mapped).disposition
        ≡ durable_candidate)
      ↔ IsEligible unit authority count unresolved mapped
durable_iff_IsEligible unit authority count unresolved mapped = (
  IsEligible-of_durable unit authority count unresolved mapped,
  durable_of_eligible unit authority count unresolved mapped,
)

-- The policy never answers that the gate rejected a unit.
never_rejected_by_gate :
    (unit : SemanticUnit) (authority : Option Authority) (count : ℕ) (unresolved mapped : Bool)
    → (disposition_for_unit unit authority count unresolved mapped).disposition ≢ rejected_by_gate
unfolding disposition_for_unit
never_rejected_by_gate unit authority count unresolved mapped h = ground arith
