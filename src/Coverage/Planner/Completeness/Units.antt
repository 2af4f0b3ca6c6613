-- ===== src/Coverage/Planner/Completeness/Units.antt =====
-- The results of the unit loop, matched with the units.
use open_webui_memorist_edit.Prelude.{
  ℕ, ◌+◌, ◌≡◌, refl, sym, ap, ◌∙◌, inl, inr, Bool, true, ◌||◌, Option, none, some, List, [], ◌∷◌,
  String, if◌then◌else◌, count_if, any, All, All-imp, map,
}
use mathlib.Core.Option
use open_webui_memorist_edit.Prelude.Membership.{Any, holds}
use open_webui_memorist_edit.Coverage.Contracts.{SemanticUnit}
use open_webui_memorist_edit.Coverage.References.{PlannerInput}
use open_webui_memorist_edit.Coverage.Unit.{CoverageItem, Proposal, Library, is_some, plan_unit}
use open_webui_memorist_edit.Coverage.Unit.Items.{plan_unit-total, plan_unit-ItemFor}
use open_webui_memorist_edit.Coverage.Unit.Safety.{IsSafe, plan_unit-IsSafe}
use open_webui_memorist_edit.Coverage.Planner.{
  plan_units, proposals_of, item_of, unit_id_of, proposal_id_of, own_id_of, durable_item,
}

is_some-map : (o : Option Proposal) → is_some o ≡ is_some (Option.map own_id_of o)
is_some-map none = refl
is_some-map (some p) = refl

module _ (library : Library) (value : PlannerInput) where
  -- One result for each unit, in order.
  abbrev pub Matched : List SemanticUnit → List (CoverageItem × Option Proposal) → Type 0
  Matched [] [] = Unit
  Matched (u ∷ us) (r ∷ rs) = (plan_unit library value u ≡ some r) × Matched us rs
  Matched _ _ = ⊥

  some_of_is_some {ℓ} : {A : Type ℓ} (o : Option A) → is_some o ≡ true → (a : A) × (o ≡ some a)
  some_of_is_some none h = cc
  some_of_is_some (some a) h = (a, refl)

  extend :
      (u : SemanticUnit) (us : List SemanticUnit) (r : CoverageItem × Option Proposal)
      → plan_unit library value u ≡ some r
      → (rs : List (CoverageItem × Option Proposal)) → plan_units library value us ≡ some rs
      → plan_units library value (u ∷ us) ≡ some (r ∷ rs)
  unfolding plan_units
  extend u us r at rs rest = rw (at, rest)

  -- The loop has a result for every list of units.
  pub plan_units-Matched :
      (us : List SemanticUnit)
      → (rs : List (CoverageItem × Option Proposal)) × (plan_units library value us ≡ some rs)
        × Matched us rs
  unfolding plan_units
  plan_units-Matched [] = ([], refl, tt)
  plan_units-Matched (u ∷ us) =
      let found = some_of_is_some (plan_unit library value u) (plan_unit-total library value u) in
      let rest = plan_units-Matched us in
      (found.0 ∷ rest.0, extend u us found.0 found.1 rest.0 rest.1, (found.1, rest.2))

  -- Each proposal of the loop comes from a unit that meets the conditions.
  pub proposals-IsSafe :
      (us : List SemanticUnit) (rs : List (CoverageItem × Option Proposal))
      → Matched us rs
      → All (λ p. Any (λ u. IsSafe library value u p) us) (proposals_of rs)
  unfolding proposals_of
  proposals-IsSafe [] [] m = tt
  proposals-IsSafe [] (r ∷ rs) m = absurd m
  proposals-IsSafe (u ∷ us) [] m = absurd m
  proposals-IsSafe (u ∷ us) ((item, none) ∷ rs) m =
      All-imp (proposals_of rs) (λ p h. inr h) (proposals-IsSafe us rs m.1)
  proposals-IsSafe (u ∷ us) ((item, some q) ∷ rs) m = (
    inl (plan_unit-IsSafe library value u item q m.0),
    All-imp (proposals_of rs) (λ p h. inr h) (proposals-IsSafe us rs m.1),
  )

  pub count-unit_ids :
      (p : String → Bool) (us : List SemanticUnit) (rs : List (CoverageItem × Option Proposal))
      → Matched us rs
      → count_if (λ i. holds p (unit_id_of i)) (map item_of rs)
        ≡ count_if p (map (λ (u : SemanticUnit). u.id) us)
  count-unit_ids p [] [] m = refl
  count-unit_ids p [] (r ∷ rs) m = absurd m
  count-unit_ids p (u ∷ us) [] m = absurd m
  count-unit_ids p (u ∷ us) (r ∷ rs) m =
      rw (plan_unit-ItemFor library value u r m.0).named
        (ap (λ (n : ℕ). (if p u.id then 1 else 0) + n) (count-unit_ids p us rs m.1))

  -- An item of the loop is durable exactly when it names a proposal, and the names are those of the
  -- proposals.
  pub durable_linked :
      (us : List SemanticUnit) (rs : List (CoverageItem × Option Proposal))
      → Matched us rs
      → All (λ i. durable_item i ≡ is_some (proposal_id_of i)) (map item_of rs)
  durable_linked [] [] m = tt
  durable_linked [] (r ∷ rs) m = absurd m
  durable_linked (u ∷ us) [] m = absurd m
  durable_linked (u ∷ us) (r ∷ rs) m =
      let i = plan_unit-ItemFor library value u r m.0 in
      (i.durable ∙ is_some-map r.1 ∙ sym (ap is_some i.linked), durable_linked us rs m.1)

  pub any-proposal_ids :
      (p : String → Bool) (us : List SemanticUnit) (rs : List (CoverageItem × Option Proposal))
      → Matched us rs
      → any (λ i. holds p (proposal_id_of i)) (map item_of rs)
        ≡ any p (map own_id_of (proposals_of rs))
  unfolding proposals_of
  any-proposal_ids p [] [] m = refl
  any-proposal_ids p [] (r ∷ rs) m = absurd m
  any-proposal_ids p (u ∷ us) [] m = absurd m
  any-proposal_ids p (u ∷ us) ((item, none) ∷ rs) m =
      rw (plan_unit-ItemFor library value u (item, none) m.0).linked (any-proposal_ids p us rs m.1)
  any-proposal_ids p (u ∷ us) ((item, some q) ∷ rs) m =
      rw (plan_unit-ItemFor library value u (item, some q) m.0).linked
        (ap (λ b. p q.proposal_id || b) (any-proposal_ids p us rs m.1))
