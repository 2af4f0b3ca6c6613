-- ===== src/Coverage/References/Ratification.antt =====
-- What `_assistant_reference_is_not_ratified` lets pass.
use mathlib.Core.Path.{subst}
use open_webui_memorist_edit.Prelude.{
  ◌≡◌, refl, ap, ◌⊎◌, inl, inr, Bool, true, false, not, ◌&&◌, ◌||◌, Option, none, some, List, [],
  ◌∷◌, String, arith, if◌then◌else◌, str_eq, eq_iff, ◌==◌, contains, length, any, All, Bool-cases,
  Option-cases,
}
use open_webui_memorist_edit.Prelude.Membership.{Any}
use open_webui_memorist_edit.Coverage.Contracts.{SemanticUnit, Reference, Relation, ContextItem}
use open_webui_memorist_edit.Coverage.References.{
  PlannerInput, Tokens, is_assistant, is_user, ratifying, assistant_context_ids, selected_item,
  add_target, assistant_targets, acknowledgement_only, assistant_reference_is_not_ratified,
}

only_contained :
    (ids : List String) (s : String) → length ids == 1 ≡ true → contains ids s ≡ true → ids ≡ s ∷ []
only_contained [] s h k = cc
only_contained (x ∷ []) s h k = let e : x ≡ s = (eq_iff x s).0 (ground arith) in ap (λ y. y ∷ []) e
only_contained (x ∷ y ∷ more) s h k = absurd (ground arith)

-- The referent is the only candidate and the only assistant context.
record IsSole (ids : List String) (r : Reference) (id : String) : Type 0 where
  one_candidate : length r.candidate_referent_ids == 1 ≡ true
  one_context : length ids == 1 ≡ true
  in_context : contains ids id ≡ true

add_target-IsSole :
    (ids : List String) (r : Reference) (id : String) (item : ContextItem)
    (rest : Option (List String)) (ts : List String)
    → is_assistant item.role ≡ true
    → add_target ids r (some (id, item)) rest ≡ some ts
    → IsSole ids r id × (contains ts id ≡ true)
add_target-IsSole ids r id item none ts a h = ground arith
add_target-IsSole ids r id item (some us) ts a h =
    let same : str_eq id id ≡ true = (eq_iff id id).1 refl in
    (
      record {
        one_candidate = ground arith;
        one_context = ground arith;
        in_context = ground arith;
      },
      ground arith,
    )

add_target-rest :
    (ids : List String) (r : Reference) (o : Option (String × ContextItem))
    (rest : Option (List String)) (ts : List String)
    → add_target ids r o rest ≡ some ts
    → (us : List String) × (rest ≡ some us)
      × ((ts ≡ us) ⊎ ((id : String) × (ts ≡ id ∷ us) × (contains ids id ≡ true)))
add_target-rest ids r none rest ts h = (ts, h, inl refl)
add_target-rest ids r (some (id, item)) none ts h = ground arith
add_target-rest ids r (some (id, item)) (some us) ts h =
    elim (Bool-cases (is_assistant item.role)) [
      | inl e ↦ (us, refl, inr (id, ground arith, ground arith))
      | inr e ↦ (us, refl, inl (ground arith))
    ]

contains-later :
    (x s : String) (xs : List String) → contains xs s ≡ true → contains (x ∷ xs) s ≡ true
contains-later x s xs h = ground arith

-- Every collected target is an assistant context.
targets_in_context :
    (value : PlannerInput) (rs : List Reference) (ts : List String)
    → assistant_targets value rs ≡ some ts
    → All (λ t. contains (assistant_context_ids value.bounded_context_items) t ≡ true) ts
unfolding assistant_targets
targets_in_context value [] [] h = tt
targets_in_context value [] (t ∷ ts) h = cc
targets_in_context value (r ∷ rs) ts h =
    let ids = assistant_context_ids value.bounded_context_items in
    let parts = add_target-rest ids r (selected_item value r) (assistant_targets value rs) ts h in
    let later = targets_in_context value rs parts.0 parts.1 in
    elim parts.2 [ inl e ↦ rw e later | inr (id, e, c) ↦ rw e (c, later) ]

-- The target of each reference to an assistant context is collected.
targets-IsSole :
    (value : PlannerInput) (r : Reference) (id : String) (item : ContextItem)
    → selected_item value r ≡ some (id, item)
    → is_assistant item.role ≡ true
    → (rs : List Reference) (ts : List String) → Any (λ x. x ≡ r) rs
    → assistant_targets value rs ≡ some ts
    → IsSole (assistant_context_ids value.bounded_context_items) r id × (contains ts id ≡ true)
unfolding assistant_targets
targets-IsSole value r id item sel asst [] ts m h = absurd m
targets-IsSole value r id item sel asst (x ∷ rs) ts (inl e) h =
    add_target-IsSole (assistant_context_ids value.bounded_context_items) r id item
      (assistant_targets value rs) ts asst
      (subst
        (λ o.
          add_target (assistant_context_ids value.bounded_context_items) r o
            (assistant_targets value rs)
          ≡ some ts)
        sel
        (subst
          (λ y.
            add_target (assistant_context_ids value.bounded_context_items) y (selected_item value y)
              (assistant_targets value rs)
            ≡ some ts)
          e h))
targets-IsSole value r id item sel asst (x ∷ rs) ts (inr m) h =
    let ids = assistant_context_ids value.bounded_context_items in
    let parts = add_target-rest ids x (selected_item value x) (assistant_targets value rs) ts h in
    let later = targets-IsSole value r id item sel asst rs parts.0 m parts.1 in
    elim parts.2 [
      | inl e ↦ rw e later
      | inr (t, e, c) ↦ rw e (later.0, contains-later t id parts.0 later.1)
    ]

All-contains :
    (P : String → Type 0) (ts : List String) (s : String) → All P ts → contains ts s ≡ true → P s
All-contains P [] s h k = cc
All-contains P (t ∷ ts) s h k = elim (Bool-cases (str_eq t s)) [
  | inl e ↦ let same : t ≡ s = (eq_iff t s).0 e in subst P same h.0
  | inr e ↦ All-contains P ts s h.1 (ground arith)
]

-- A relation to a collected target is one to the sole assistant context.
any-ratifying :
    (ids ts : List String) (id : String) (relations : List Relation)
    → ids ≡ id ∷ []
    → All (λ t. contains ids t ≡ true) ts
    → any (λ r. ratifying r.relation_type && contains ts r.target_referent_id) relations ≡ true
    → any (λ r. ratifying r.relation_type && str_eq id r.target_referent_id) relations ≡ true
any-ratifying ids ts id [] only all h = cc
any-ratifying ids ts id (r ∷ rs) only all h =
    elim (Bool-cases (ratifying r.relation_type && contains ts r.target_referent_id)) [
      | inl e ↦
          let c : contains ids r.target_referent_id ≡ true =
            All-contains (λ t. contains ids t ≡ true) ts r.target_referent_id all (ground arith) in
          let c' = subst (λ l. contains l r.target_referent_id ≡ true) only c in ground arith
      | inr e ↦ let later = any-ratifying ids ts id rs only all (ground arith) in ground arith
    ]

-- What the user did with an assistant's words that a unit refers to.
pub record IsRatified (tokens : Tokens) (value : PlannerInput) (unit : SemanticUnit) (r : Reference)
    (relations : List Relation) (id : String) : Type 0 where
  pub user_message : is_user value.message_role ≡ true
  pub one_candidate : length r.candidate_referent_ids == 1 ≡ true
  pub only_context : assistant_context_ids value.bounded_context_items ≡ id ∷ []
  pub more_than_acknowledged : acknowledgement_only tokens unit.evidence ≡ false
  pub related :
      any (λ r. ratifying r.relation_type && str_eq id r.target_referent_id) relations ≡ true

ratified_branch :
    (u one ack related : Bool)
    → (if not u || not one then true else if ack then true else not related) ≡ false
    → (u ≡ true) × (ack ≡ false) × (related ≡ true)
ratified_branch u one ack related h = (ground arith, ground arith, ground arith)

passed :
    (tokens : Tokens) (value : PlannerInput) (unit : SemanticUnit) (references : List Reference)
    (relations : List Relation) (ts : List String) (id : String)
    → assistant_targets value references ≡ some ts
    → contains ts id ≡ true
    → assistant_reference_is_not_ratified tokens value unit references relations ≡ false
    → (is_user value.message_role ≡ true)
      × (acknowledgement_only tokens unit.evidence ≡ false)
      × (any (λ r. ratifying r.relation_type && contains ts r.target_referent_id) relations ≡ true)
unfolding assistant_reference_is_not_ratified
passed tokens value unit references relations [] id h k e = cc
passed tokens value unit references relations (t ∷ ts) id h k e =
    ratified_branch _ _ _ _ (rw (h, assistant_reference_is_not_ratified) at e)

no_targets :
    (tokens : Tokens) (value : PlannerInput) (unit : SemanticUnit) (references : List Reference)
    (relations : List Relation)
    → assistant_targets value references ≡ none
    → assistant_reference_is_not_ratified tokens value unit references relations ≡ false
    → ⊥
unfolding assistant_reference_is_not_ratified
no_targets tokens value unit references relations h e =
    let e' = rw (h, assistant_reference_is_not_ratified) at e in cc

-- If `_assistant_reference_is_not_ratified` lets a unit pass, then each resolved reference of the
-- unit that selects an assistant's context item comes from a user's message, has no other candidate
-- referent, selects the only assistant item of the context, stands in evidence that is more than an
-- acknowledgement, and a relation of the unit ratifies or corrects that very item.
pub IsRatified-references :
    (tokens : Tokens) (value : PlannerInput) (unit : SemanticUnit) (references : List Reference)
    (relations : List Relation) (r : Reference) (id : String) (item : ContextItem)
    → Any (λ x. x ≡ r) references
    → selected_item value r ≡ some (id, item)
    → is_assistant item.role ≡ true
    → assistant_reference_is_not_ratified tokens value unit references relations ≡ false
    → IsRatified tokens value unit r relations id
IsRatified-references tokens value unit references relations r id item m sel asst e =
    elim (Option-cases (assistant_targets value references)) [
      | inl n ↦ absurd (no_targets tokens value unit references relations n e)
      | inr (ts, h) ↦
          let sole = targets-IsSole value r id item sel asst references ts m h in
          let p = passed tokens value unit references relations ts id h sole.1 e in
          let only = only_contained _ id sole.0.one_context sole.0.in_context in
          record {
            user_message = p.0;
            one_candidate = sole.0.one_candidate;
            only_context = only;
            more_than_acknowledged = p.1;
            related =
                any-ratifying _ ts id relations only (targets_in_context value references ts h) p.2;
          }
    ]
