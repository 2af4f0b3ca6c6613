-- ===== src/Coverage/References.antt =====
-- The guards of coverage/planner.py that read references, relations and prior context: no unit
-- becomes a candidate on the strength of an assistant's words that the user did not ratify.
-- The tokens of a text (the two `re` patterns with `casefold`) are parameters.
pub mod Ratification
use Prim.Native.String.{◌++◌ as str_append, slice, len}
use text.Mathlib.Text.{starts_with}
use open_webui_memorist_edit.Prelude.{
  ℕ, zero, suc, Bool, true, false, not, ◌&&◌, ◌||◌, Option, none, some, List, [], ◌∷◌, String, ltb,
  leb, ◌==◌, if◌then◌else◌, str_eq, contains, length, filter_if, any, all, map,
}
use open_webui_memorist_edit.Coverage.Contracts.{
  Role, user, assistant, ReferenceStatus, resolved, RelationType, ratifies, corrects, Authority,
  SemanticUnit, Reference, Relation, ContextItem,
}
use open_webui_memorist_edit.Coverage.Intervals.{Span}
use open_webui_memorist_edit.Coverage.Policy.{dedupe}

-- CoveragePlannerInput, with the parts of the envelope and of the analysis that are read.
pub record PlannerInput : Type 0 where
  pub message_uuid : String
  pub message_role : Role
  pub processing_run_uuid : String
  pub current_raw_text : String
  pub envelope_raw_text_hash : String
  pub tokens : List Span
  pub context_dependency_hints : List Span
  pub abstained : Bool
  pub semantic_units : List SemanticUnit
  pub references : List Reference
  pub relations : List Relation
  pub accepted_unit_ids : List String
  pub accepted_reference_indexes : List ℕ
  pub accepted_relation_indexes : List ℕ
  pub authorities : List Authority
  pub semantic_prompt_execution_uuid : Option String
  pub semantic_contract_hash : String
  pub bounded_context_items : List ContextItem
  pub imported_record : Bool

abbrev pub is_resolved : ReferenceStatus → Bool
is_resolved resolved = true
is_resolved _ = false

abbrev pub is_assistant : Role → Bool
is_assistant assistant = true
is_assistant _ = false

abbrev pub is_user : Role → Bool
is_user user = true
is_user _ = false

abbrev pub ratifying : RelationType → Bool
ratifying ratifies = true
ratifying corrects = true
ratifying _ = false

-- _indexes_by_source: all references are accepted, so a unit's indexes are those of its own
-- references in order; the references themselves stand for them.
unfoldable pub references_of : PlannerInput → SemanticUnit → List Reference
references_of value unit = filter_if (λ r. str_eq r.source_unit_id unit.id) value.references

unfoldable pub relations_of : PlannerInput → SemanticUnit → List Relation
relations_of value unit = filter_if (λ r. str_eq r.source_unit_id unit.id) value.relations

-- _dependency_hint_without_reference
unfoldable pub dependency_hint_without_reference :
    PlannerInput → SemanticUnit → List Reference → Bool
dependency_hint_without_reference value unit references =
    let inside = λ (h : Span). leb unit.raw_start h.0 && leb h.1 unit.raw_end in
    any (λ h. not (any (λ r. leb r.marker_start h.0 && leb h.1 r.marker_end) references))
      (filter_if inside value.context_dependency_hints)

abbrev pub prior_context : String
prior_context = "prior_context:"

-- str.removeprefix
abbrev pub remove_prefix : String → String → String
remove_prefix s p = if starts_with s p then slice s (len p) (len s) else s

-- `{item.context_item_id: item for item in items}.get(key)`: the last of equal keys.
unfoldable pub context_get : List ContextItem → String → Option ContextItem
context_get [] key = none
context_get (c ∷ cs) key = elim (context_get cs key) [
  | some found ↦ some found
  | none ↦ if str_eq c.context_item_id key then some c else none
]

abbrev pub context_id : ContextItem → String
context_id c = str_append prior_context c.context_item_id

unfoldable pub assistant_context_ids : List ContextItem → List String
unfolding dedupe
assistant_context_ids items = dedupe (map context_id (filter_if (λ c. is_assistant c.role) items))

-- The context item that a resolved reference of the unit selects, and the referent's id.
unfoldable pub selected_item : PlannerInput → Reference → Option (String × ContextItem)
unfolding context_get
selected_item value r = if not (is_resolved r.status) then none else elim r.selected_referent_id [
  | none ↦ none
  | some id ↦
      if not (starts_with id prior_context)
      then none
      else elim (context_get value.bounded_context_items (remove_prefix id prior_context)) [
        | none ↦ none
        | some item ↦ some (id, item)
      ]
]

-- The assistant referents of a unit, or `none` where one of them is not the only candidate or not
-- the only assistant context, on which the code returns at once. `ids` are the assistant contexts.
abbrev pub add_target :
    List String
    → Reference
    → Option (String × ContextItem)
    → Option (List String)
    → Option (List String)
add_target ids r none rest = rest
add_target ids r (some (id, item)) rest =
    if not (is_assistant item.role)
    then rest
    else if not (length r.candidate_referent_ids == 1)
        || (not (length ids == 1) || not (contains ids id))
    then none
    else elim rest [ none ↦ none | some ts ↦ some (id ∷ ts) ]

pub assistant_targets : PlannerInput → List Reference → Option (List String)
unfolding selected_item assistant_context_ids
assistant_targets value [] = some []
assistant_targets value (r ∷ rs) =
    add_target (assistant_context_ids value.bounded_context_items) r (selected_item value r)
      (assistant_targets value rs)

-- _ACKNOWLEDGEMENT_ONLY_TOKENS; the Persian words are written by their code points.
abbrev pub acknowledgement_only_tokens : List String
acknowledgement_only_tokens =
    "agreed" ∷ "confirmed" ∷ "fine" ∷ "no" ∷ "ok" ∷ "okay" ∷ "sure" ∷ "understood" ∷ "yeah" ∷ "yep"
    ∷ "yes" ∷ "\u{622}\u{631}\u{647}" ∷ "\u{628}\u{627}\u{634}\u{647}" ∷ "\u{628}\u{644}\u{647}"
    ∷ "\u{62e}\u{648}\u{628}\u{647}" ∷ "\u{62e}\u{6cc}\u{631}" ∷ "\u{634}\u{62f}\u{645}"
    ∷ "\u{645}\u{62a}\u{648}\u{62c}\u{647}" ∷ "\u{646}\u{647}" ∷ []

-- _NON_MEANINGFUL_TOKENS
abbrev pub non_meaningful_tokens : List String
non_meaningful_tokens =
    "a" ∷ "an" ∷ "and" ∷ "are" ∷ "as" ∷ "at" ∷ "be" ∷ "by" ∷ "for" ∷ "from" ∷ "in" ∷ "is" ∷ "it"
    ∷ "of" ∷ "on" ∷ "or" ∷ "that" ∷ "the" ∷ "this" ∷ "to" ∷ "was" ∷ "were" ∷ "with"
    ∷ "\u{627}\u{632}" ∷ "\u{627}\u{633}\u{62a}" ∷ "\u{627}\u{6cc}\u{646}" ∷ "\u{622}\u{646}"
    ∷ "\u{628}\u{627}" ∷ "\u{628}\u{631}\u{627}\u{6cc}" ∷ "\u{628}\u{647}" ∷ "\u{62f}\u{631}"
    ∷ "\u{631}\u{627}" ∷ "\u{6a9}\u{647}" ∷ "\u{648}" ∷ []

-- The tokens of a text under a pattern, case-folded, in order.
pub record Tokens : Type 0 where
  pub acknowledgement : String → List String
  pub words : String → List String

abbrev nonempty : List String → Bool
nonempty [] = false
nonempty (x ∷ xs) = true

module _ (tokens : Tokens) where
  open tokens use {acknowledgement, words}

  unfoldable pub acknowledgement_only : String → Bool
  acknowledgement_only text =
      let found = acknowledgement text in
      nonempty found && all (contains acknowledgement_only_tokens) found

  -- _assistant_reference_is_not_ratified
  unfoldable pub assistant_reference_is_not_ratified :
      PlannerInput → SemanticUnit → List Reference → List Relation → Bool
  unfolding assistant_targets acknowledgement_only
  assistant_reference_is_not_ratified value unit references relations =
      elim (assistant_targets value references) [
        | none ↦ true
        | some [] ↦ false
        | some (t ∷ ts) ↦
            if not (is_user value.message_role) || not (length (dedupe (t ∷ ts)) == 1)
            then true
            else if acknowledgement_only unit.evidence
            then true
            else not (
                any (λ r. ratifying r.relation_type && contains (t ∷ ts) r.target_referent_id)
                  relations)
      ]

  unfoldable pub meaningful_tokens : String → List String
  unfolding dedupe
  meaningful_tokens text =
      dedupe (filter_if (λ w. not (contains non_meaningful_tokens w)) (words text))

  -- The loop over the context items in `_assistant_proposition_injection`.
  imports_unratified : List String → List Reference → List Relation → ContextItem → Bool
  unfolding meaningful_tokens
  imports_unratified proposition_only references relations item =
      let imported = filter_if (contains (meaningful_tokens item.text)) proposition_only in
      let target = context_id item in
      let referenced =
        any
          (λ r.
            is_resolved r.status
            && elim r.selected_referent_id [ none ↦ false | some id ↦ str_eq id target ])
          references in
      let ratified =
        any (λ r. ratifying r.relation_type && str_eq r.target_referent_id target) relations in
      is_assistant item.role && (not (ltb (length imported) 2) && not (referenced && ratified))

  -- _assistant_proposition_injection
  unfoldable pub assistant_proposition_injection :
      PlannerInput → SemanticUnit → List Reference → List Relation → Bool
  unfolding imports_unratified
  assistant_proposition_injection value unit references relations =
      let own = meaningful_tokens unit.evidence in
      let proposition_only =
        filter_if (λ w. not (contains own w)) (meaningful_tokens unit.proposition) in
      if ltb (length proposition_only) 2
      then false
      else any (imports_unratified proposition_only references relations)
          value.bounded_context_items
