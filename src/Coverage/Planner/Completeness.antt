-- ===== src/Coverage/Planner/Completeness.antt =====
-- After the validation of the input, the planner fails only on a collision of item identities or on
-- the bounds of the contracts.
pub mod Units
use open_webui_memorist_edit.Prelude.{
  ℕ, ◌+◌, ◌≤◌, ◌≡◌, refl, sym, ap, ◌∙◌, ◌⊎◌, inl, inr, Bool, true, false, not, ◌&&◌, ◌||◌, Option,
  none, some, List, [], ◌∷◌, ◌++◌, String, arith, if◌then◌else◌, str_eq, ◌==◌, ==_iff, eq_iff,
  contains, length, count_if, filter_if, filter_if-passes, any, all, All, All-imp, map, Bool-cases,
  Option-cases, count_if-append, All-filter_if,
}
use open_webui_memorist_edit.Prelude.Sorting.{sort_by, sort_by-All, count_if-sort_by, any-sort_by}
use open_webui_memorist_edit.Prelude.Membership.{
  Any, holds, distinct, somes, occurrences, distinct_of_occurrences, occurrences_of_distinct,
  count_if-somes, any-somes, length-count_if, contains-any, all-All, any-filter_if, any-append,
}
use open_webui_memorist_edit.Coverage.Contracts.{SemanticUnit}
use open_webui_memorist_edit.Coverage.References.{PlannerInput}
use open_webui_memorist_edit.Coverage.Unit.{CoverageItem, Proposal, Library, is_some, coverage_item}
use open_webui_memorist_edit.Coverage.Planner.{
  Attempt, returned, raised, Plan, Group, uncovered_item, uncovered_items, group_tokens, plan_units,
  proposals_of, item_of, unit_id_of, proposal_id_of, own_id_of, item_id_of, durable_item,
  plan_items, plan_status, assert_complete, validate, plan_candidate_coverage, same_texts, item_leb,
  require, envelope_mismatch, units_not_accepted, references_not_accepted, relations_not_accepted,
  unit_ids_repeated, ◌>>◌, item_count_wrong, units_duplicated, item_identity_collision,
  proposals_inconsistent, proposal_not_durable, validation_error, is_valid_item, is_valid_result,
  is_valid_plan, plan_of,
}
use open_webui_memorist_edit.Coverage.Unit.Safety.{IsSafe}
use open_webui_memorist_edit.Coverage.Planner.Completeness.Units.{
  Matched, plan_units-Matched, proposals-IsSafe, count-unit_ids, durable_linked, any-proposal_ids,
}

-- An item that stands for no unit.
record IsUnitless (i : CoverageItem) : Type 0 where
  no_unit : unit_id_of i ≡ none
  no_proposal : proposal_id_of i ≡ none
  not_durable : durable_item i ≡ false

module _ {ℓ κ} {A : Type ℓ} {B : Type κ} where
  All-map : (P : B → Type 0) (f : A → B) → ((a : A) → P (f a)) → (xs : List A) → All P (map f xs)
  All-map P f h [] = tt
  All-map P f h (x ∷ xs) = (h x, All-map P f h xs)

module _ {ℓ} {A : Type ℓ} where
  All-append : (P : A → Type 0) (xs ys : List A) → All P xs → All P ys → All P (xs ++ ys)
  All-append P [] ys h k = k
  All-append P (x ∷ xs) ys h k = (h.0, All-append P xs ys h.1 k)

  count_if-none : (p : A → Bool) (xs : List A) → All (λ x. p x ≡ false) xs → count_if p xs ≡ 0
  count_if-none p [] h = refl
  count_if-none p (x ∷ xs) h = rw h.0 (omega (arith, count_if-none p xs h.1))

  any-none : (p : A → Bool) (xs : List A) → All (λ x. p x ≡ false) xs → any p xs ≡ false
  any-none p [] h = refl
  any-none p (x ∷ xs) h = rw h.0 (any-none p xs h.1)

  any-cong : (p q : A → Bool) (xs : List A) → All (λ x. p x ≡ q x) xs → any p xs ≡ any q xs
  any-cong p q [] h = refl
  any-cong p q (x ∷ xs) h = rw (h.0, any-cong p q xs h.1)

all_contained :
    (xs ys : List String)
    → ((s : String) → contains xs s ≡ true → contains ys s ≡ true)
    → all (contains ys) xs ≡ true
all_contained [] ys h = refl
all_contained (x ∷ xs) ys h =
    let first : contains ys x ≡ true = h x (let e = (eq_iff x x).1 refl in rw e) in
    rw first (all_contained xs ys (λ s k. h s (ground arith)))

same_texts-length : (xs ys : List String) → same_texts xs ys ≡ true → length xs ≡ length ys
same_texts-length [] [] h = refl
same_texts-length [] (y ∷ ys) h = cc
same_texts-length (x ∷ xs) [] h = cc
same_texts-length (x ∷ xs) (y ∷ ys) h =
    let e = same_texts-length xs ys (ground arith) in omega arith

length-map : (us : List SemanticUnit) → length (map (λ (u : SemanticUnit). u.id) us) ≡ length us
length-map [] = refl
length-map (u ∷ us) = omega (arith, length-map us)

drop_or : (a b : Bool) → b ≡ false → (a || b) ≡ a
drop_or a b h = ground arith

both : {a b : Bool} → a ≡ true → b ≡ true → a && b ≡ true
both h k = rw (h, k)

linked_or : (a b : Bool) → b ≡ a → not a || b ≡ true
linked_or a b h = ground arith

All-zip :
    (xs : List CoverageItem)
    → All (λ i. durable_item i ≡ true) xs
    → All (λ i. durable_item i ≡ is_some (proposal_id_of i)) xs
    → All (λ i. is_some (proposal_id_of i) ≡ true) xs
All-zip [] h k = tt
All-zip (x ∷ xs) h k = (sym k.0 ∙ h.0, All-zip xs h.1 k.1)

-- A chain of guards of which all but the third hold.
guards :
    (a b c d e : Bool)
    → a ≡ true
    → b ≡ true
    → d ≡ true
    → e ≡ true
    → (require a item_count_wrong
        >> (require b units_duplicated
            >> (require c item_identity_collision
                >> (require d proposals_inconsistent >> require e proposal_not_durable))))
      ≡ require c item_identity_collision
guards true true true true true p q r s = refl
guards true true false d e p q r s = refl
guards false b c d e p q r s = cc
guards true false c d e p q r s = cc
guards true true true false e p q r s = cc
guards true true true true false p q r s = cc

validated :
    (a b c d e : Bool)
    → (require a envelope_mismatch
        >> (require b units_not_accepted
            >> (require c references_not_accepted
                >> (require d relations_not_accepted >> require e unit_ids_repeated))))
      ≡ returned tt
    → (b ≡ true) × (e ≡ true)
validated true true true true true h = (refl, refl)
validated false b c d e h = cc
validated true false c d e h = cc
validated true true false d e h = cc
validated true true true false e h = cc
validated true true true true false h = cc

holds-none : (p : String → Bool) (o : Option String) → o ≡ none → holds p o ≡ false
holds-none p o e = rw e

durable_holds :
    (p : String → Bool) (d : Bool) (o : Option String) → d ≡ is_some o → d && holds p o ≡ holds p o
durable_holds p d none e = ground arith
durable_holds p d (some s) e = rw e

module _ (library : Library) (value : PlannerInput) where
  uncovered-IsUnitless : All IsUnitless (uncovered_items library value)
  unfolding uncovered_items uncovered_item coverage_item
  uncovered-IsUnitless =
      All-map IsUnitless (uncovered_item library value)
        (λ g. record { no_unit = refl; no_proposal = refl; not_durable = refl }) _

  module _ (us : List SemanticUnit) (rs : List (CoverageItem × Option Proposal))
      (m : Matched library value us rs) where
    abbrev all_items : List CoverageItem
    all_items = plan_items (uncovered_items library value) rs

    count-somes :
        (p : String → Bool)
        → count_if p (somes (map unit_id_of all_items))
          ≡ count_if p (map (λ (u : SemanticUnit). u.id) us)
    count-somes p =
        let rest =
          count_if-none (λ i. holds p (unit_id_of i)) (uncovered_items library value)
            (All-imp _ (λ i h. holds-none p _ h.no_unit) uncovered-IsUnitless) in
        let sorted =
          count_if-sort_by item_leb (λ i. holds p (unit_id_of i))
            (map item_of rs ++ uncovered_items library value) in
        let parts =
          count_if-append (λ i. holds p (unit_id_of i)) (map item_of rs)
            (uncovered_items library value) in
        count_if-somes unit_id_of p all_items
        ∙ sorted
        ∙ omega (arith, count-unit_ids library value p us rs m)

    unit_ids-length : length (somes (map unit_id_of all_items)) ≡ length us
    unit_ids-length =
        length-count_if _ ∙ count-somes (λ x. true) ∙ sym (length-count_if _) ∙ length-map us

    items_linked : All (λ i. durable_item i ≡ is_some (proposal_id_of i)) all_items
    items_linked =
        sort_by-All item_leb (λ i. durable_item i ≡ is_some (proposal_id_of i)) _
          (All-append _ (map item_of rs) (uncovered_items library value)
            (durable_linked library value us rs m)
            (All-imp _ (λ i h. h.not_durable ∙ sym (ap is_some h.no_proposal))
              uncovered-IsUnitless))

    any-durable :
        (p : String → Bool)
        → any p (somes (map proposal_id_of (filter_if durable_item all_items)))
          ≡ any p (map own_id_of (proposals_of rs))
    any-durable p =
        any-somes proposal_id_of p (filter_if durable_item all_items)
        ∙ any-filter_if (λ i. holds p (proposal_id_of i)) durable_item all_items
        ∙ any-cong _ (λ i. holds p (proposal_id_of i)) all_items
            (All-imp all_items (λ i h. durable_holds p (durable_item i) (proposal_id_of i) h)
              items_linked)
        ∙ any-sort_by item_leb (λ i. holds p (proposal_id_of i))
            (map item_of rs ++ uncovered_items library value)
        ∙ any-append (λ i. holds p (proposal_id_of i)) (map item_of rs)
            (uncovered_items library value)
        ∙ drop_or _ _ (
            any-none (λ i. holds p (proposal_id_of i)) (uncovered_items library value)
              (All-imp _ (λ i h. holds-none p _ h.no_proposal) uncovered-IsUnitless))
        ∙ any-proposal_ids library value p us rs m

    count-occurrences :
        (s : String)
        → occurrences s (somes (map unit_id_of all_items))
          ≡ occurrences s (map (λ (u : SemanticUnit). u.id) us)
    unfolding occurrences
    count-occurrences s = count-somes (λ x. str_eq x s)

    same_members :
        (s : String)
        → contains (somes (map proposal_id_of (filter_if durable_item all_items))) s
          ≡ contains (map own_id_of (proposals_of rs)) s
    same_members s = contains-any _ s ∙ any-durable (λ x. str_eq x s) ∙ sym (contains-any _ s)

    durable_named : all (λ i. is_some i.proposal_id) (filter_if durable_item all_items) ≡ true
    durable_named =
        all-All (λ i. is_some i.proposal_id) (filter_if durable_item all_items)
          (All-zip (filter_if durable_item all_items) (filter_if-passes durable_item all_items) (
            All-filter_if (λ i. durable_item i ≡ is_some (proposal_id_of i)) durable_item all_items
              items_linked))

    named_durable : all (λ i. not (is_some i.proposal_id) || durable_item i) all_items ≡ true
    named_durable =
        all-All (λ i. not (is_some i.proposal_id) || durable_item i) all_items
          (All-imp all_items (λ i h. linked_or (is_some i.proposal_id) (durable_item i) h)
            items_linked)

    -- The completeness check passes unless two item identities collide.
    assert_complete-guard :
        length value.accepted_unit_ids ≡ length us
        → distinct (map (λ (u : SemanticUnit). u.id) us) ≡ true
        → assert_complete value all_items (proposals_of rs)
          ≡ require (distinct (map item_id_of all_items)) item_identity_collision
    unfolding assert_complete
    assert_complete-guard len ids =
        guards _ _ (distinct (map item_id_of all_items)) _ _
          ((==_iff _ _).1 (unit_ids-length ∙ sym len))
          (distinct_of_occurrences (somes (map unit_id_of all_items)) (λ s.
            let few = occurrences_of_distinct (map (λ (u : SemanticUnit). u.id) us) ids s in
            omega (arith, count-occurrences s)))
          (both durable_named (
            both (all_contained _ _ (λ s h. sym (same_members s) ∙ h))
              (all_contained _ _ (λ s h. same_members s ∙ h))))
          named_durable

  -- The results of the loop, the items of uncovered material and the plan are within the bounds of
  -- their contracts.
  abbrev pub meets_contracts : List (CoverageItem × Option Proposal) → Bool
  meets_contracts rs =
      all is_valid_result rs
      && (all is_valid_item (uncovered_items library value)
          && is_valid_plan (plan_of library value rs))

  -- What a run of the planner on validated input comes to.
  pub data Outcome : Attempt (Plan × List Proposal) → Type 0 where
    planned :
        (rs : List (CoverageItem × Option Proposal))
        → plan_units library value value.semantic_units ≡ some rs
        → meets_contracts rs ≡ true
        → distinct (map item_id_of (plan_of library value rs).items) ≡ true
        → All (λ p. Any (λ u. IsSafe library value u p) value.semantic_units) (proposals_of rs)
        → Outcome (returned (plan_of library value rs, proposals_of rs))
    collided :
        (rs : List (CoverageItem × Option Proposal))
        → plan_units library value value.semantic_units ≡ some rs
        → distinct (map item_id_of (plan_of library value rs).items) ≡ false
        → Outcome (raised item_identity_collision)
    invalid :
        (rs : List (CoverageItem × Option Proposal))
        → plan_units library value value.semantic_units ≡ some rs
        → meets_contracts rs ≡ false
        → Outcome (raised validation_error)

  units_of_validate :
      validate library value ≡ returned tt
      → (length value.accepted_unit_ids ≡ length value.semantic_units)
        × (distinct (map (λ (u : SemanticUnit). u.id) value.semantic_units) ≡ true)
  unfolding validate
  units_of_validate h =
      let g = validated _ _ _ _ _ h in
      (same_texts-length value.accepted_unit_ids _ g.0 ∙ length-map value.semantic_units, g.1)

  run_after :
      (rs : List (CoverageItem × Option Proposal))
      → validate library value ≡ returned tt
      → plan_units library value value.semantic_units ≡ some rs
      → assert_complete value (plan_items (uncovered_items library value) rs) (proposals_of rs)
        ≡ require
            (distinct (map item_id_of (plan_items (uncovered_items library value) rs)))
            item_identity_collision
      → All (λ p. Any (λ u. IsSafe library value u p) value.semantic_units) (proposals_of rs)
      → Outcome (plan_candidate_coverage library value)
  unfolding plan_candidate_coverage
  run_after rs h loop check safe = elim (Bool-cases (all is_valid_result rs)) [
    | inr a ↦ rw (h, loop, a) (invalid rs loop (rw a))
    | inl a ↦ elim (Bool-cases (all is_valid_item (uncovered_items library value))) [
      | inr b ↦ rw (h, loop, a, b) (invalid rs loop (rw (a, b)))
      | inl b ↦
          elim (Bool-cases
            (distinct (map item_id_of (plan_items (uncovered_items library value) rs)))) [
              | inr e ↦ rw (h, loop, a, b, check, e) (collided rs loop e)
              | inl e ↦ elim (Bool-cases (is_valid_plan (plan_of library value rs))) [
                | inr d ↦ rw (h, loop, a, b, check, e, d) (invalid rs loop (rw (a, b, d)))
                | inl d ↦ rw (h, loop, a, b, check, e, d) (planned rs loop (rw (a, b, d)) e safe)
              ]
            ]
    ]
  ]

  -- When the input passes the planner's validation, the loop over the units gives its results, and the
  -- planner either returns their plan and proposals, or fails because two items have the same identity,
  -- or fails because an item, a proposal or the plan breaks the bounds of its contract. The assertion of
  -- the loop and the other checks on completeness never fail. When a plan is returned, the identities of
  -- its items differ, all bounds of the contracts hold, and each proposal comes from some unit that
  -- meets all the conditions `IsSafe` lists.
  pub plan_candidate_coverage-Outcome :
      validate library value ≡ returned tt → Outcome (plan_candidate_coverage library value)
  plan_candidate_coverage-Outcome h =
      let loop = plan_units-Matched library value value.semantic_units in
      let units = units_of_validate h in
      run_after loop.0 h loop.1
        (assert_complete-guard value.semantic_units loop.0 loop.2 units.0 units.1)
        (proposals-IsSafe library value value.semantic_units loop.0 loop.2)
