-- ===== src/Coverage/Planner.antt =====
-- plan_candidate_coverage of coverage/planner.py: validation of the input, the unit loop, the items
-- for material that no unit covers, the completeness check and the status of the plan.
pub mod Uncovered
pub mod Completeness
use mathlib.Core.Option
use Prim.Native.String.{compare}
use text.Mathlib.Text.{is_le, is_lt}
use open_webui_memorist_edit.Prelude.{
  ℕ, zero, suc, ◌+◌, Bool, true, false, not, ◌&&◌, ◌||◌, Option, none, some, List, [], ◌∷◌, ◌++◌,
  String, ltb, ◌==◌, if◌then◌else◌, str_eq, contains, length, filter_if, any, all, map, leb,
}
use open_webui_memorist_edit.Prelude.Texts.{codes}
use open_webui_memorist_edit.Prelude.Sorting.{sort_by}
use open_webui_memorist_edit.Prelude.Membership.{distinct, somes}
use open_webui_memorist_edit.Coverage.Contracts.{
  Disposition, rejected_by_gate, unsupported, Authority, SemanticUnit,
}
use open_webui_memorist_edit.Coverage.Intervals.{Span, merge_intervals, tokens_outside_intervals}
use open_webui_memorist_edit.Coverage.AuthorityIndex.{containing}
use open_webui_memorist_edit.Coverage.Policy.{dedupe}
use open_webui_memorist_edit.Coverage.References.{PlannerInput}
use open_webui_memorist_edit.Coverage.Unit.{
  CoverageItem, Proposal, Library, is_durable_candidate, is_some, only_one, coverage_item,
  plan_unit,
}

-- The errors that the planner raises, in the order of its checks.
pub data PlanError : Type 0 where
  envelope_mismatch units_not_accepted references_not_accepted relations_not_accepted : PlanError
  unit_ids_repeated assertion_failed item_count_wrong units_duplicated : PlanError
  item_identity_collision proposals_inconsistent proposal_not_durable : PlanError
  validation_error : PlanError

-- A call that returns a value or raises one of these errors.
pub data Attempt {ℓ} (A : Type ℓ) : Type ℓ where
  raised : PlanError → Attempt A
  returned : A → Attempt A

infixl 5 ◌>>=◌ ◌>>◌
abbrev pub ◌>>=◌ {ℓ κ} :
    {Before : Type ℓ} {After : Type κ} → Attempt Before → (Before → Attempt After) → Attempt After
raised error >>= next = raised error
returned value >>= next = next value

abbrev pub ◌>>◌ {ℓ} : {After : Type ℓ} → Attempt (Unit {0}) → Attempt After → Attempt After
raised error >> next = raised error
returned done >> next = next

-- `if not holds: raise error`.
abbrev pub require : Bool → PlanError → Attempt (Unit {0})
require holds error = if holds then returned tt else raised error

pub data Status : Type 0 where
  complete abstain retain_raw_only needs_review : Status

-- CoveragePlan, but for its version and its hash.
pub record Plan : Type 0 where
  pub message_uuid : String
  pub raw_text_hash : String
  pub processing_run_uuid : String
  pub semantic_prompt_execution_uuid : Option String
  pub semantic_contract_hash : String
  pub status : Status
  pub items : List CoverageItem
  pub warnings : List String

-- A run of uncovered tokens: its span and the authority that its tokens share.
pub record Group : Type 0 where
  pub start : ℕ
  pub end : ℕ
  pub authority_key : Option String

abbrev pub key_eq : Option String → Option String → Bool
key_eq none none = true
key_eq (some a) (some b) = str_eq a b
key_eq _ _ = false

abbrev pub covered_spans : PlannerInput → List Span
covered_spans value =
    merge_intervals (map (λ (u : SemanticUnit). (u.raw_start, u.raw_end)) value.semantic_units)

abbrev pub uncovered_tokens : PlannerInput → List Span
uncovered_tokens value = tokens_outside_intervals (λ s. s) value.tokens (covered_spans value)

module _ (library : Library) (value : PlannerInput) where
  open library use {has_alnum, sha256}

  abbrev pub authority_key : Span → Option String
  authority_key token =
      Option.map (λ (a : Authority). a.text_unit_uuid)
        (only_one (containing value.authorities token.0 token.1))

  -- The loop over the tokens; the group that is being built is carried.
  unfoldable pub group_from : Group → List Span → List Group
  group_from group [] = group ∷ []
  group_from group (t ∷ ts) =
      let key = authority_key t in
      let joined = group_from (record group { end = t.1 }) ts in
      let apart = group ∷ group_from (record { start = t.0; end = t.1; authority_key = key }) ts in
      if key_eq key group.authority_key && not (has_alnum value.current_raw_text group.end t.0)
      then joined
      else apart

  unfoldable pub group_tokens : List Span → List Group
  unfolding group_from
  group_tokens [] = []
  group_tokens (t ∷ ts) =
      group_from (record { start = t.0; end = t.1; authority_key = authority_key t }) ts

  pub uncovered_item : Group → CoverageItem
  unfolding coverage_item
  uncovered_item g =
      coverage_item library value none none g.start g.end unsupported ("uncovered_material" ∷ [])
        (only_one (containing value.authorities g.start g.end)) none

  -- _uncovered_items
  unfoldable pub uncovered_items : List CoverageItem
  unfolding group_tokens uncovered_item tokens_outside_intervals merge_intervals
  uncovered_items = map uncovered_item (group_tokens (uncovered_tokens value))

  abbrev pub combine :
      Option (CoverageItem × Option Proposal)
      → Option (List (CoverageItem × Option Proposal))
      → Option (List (CoverageItem × Option Proposal))
  combine (some r) (some rs) = some (r ∷ rs)
  combine _ _ = none

  -- The unit loop; `none` stands for the failure of its assertion.
  unfoldable pub plan_units : List SemanticUnit → Option (List (CoverageItem × Option Proposal))
  plan_units [] = some []
  plan_units (u ∷ us) = combine (plan_unit library value u) (plan_units us)

-- The proposals of the loop.
unfoldable pub proposals_of : List (CoverageItem × Option Proposal) → List Proposal
proposals_of [] = []
proposals_of ((item, none) ∷ rs) = proposals_of rs
proposals_of ((item, some p) ∷ rs) = p ∷ proposals_of rs

abbrev pub text_or_empty : Option String → String
text_or_empty none = ""
text_or_empty (some s) = s

-- The order on (raw_start, raw_end, semantic_unit_id or "").
abbrev pub item_leb : CoverageItem → CoverageItem → Bool
item_leb a b =
    if ltb a.raw_start b.raw_start
    then true
    else if ltb b.raw_start a.raw_start
    then false
    else if ltb a.raw_end b.raw_end
    then true
    else if ltb b.raw_end a.raw_end
    then false
    else is_le (compare (text_or_empty a.semantic_unit_id) (text_or_empty b.semantic_unit_id))

abbrev pub durable_item : CoverageItem → Bool
durable_item item = is_durable_candidate item.disposition

abbrev pub unit_id_of : CoverageItem → Option String
unit_id_of i = i.semantic_unit_id

abbrev pub item_id_of : CoverageItem → String
item_id_of i = i.coverage_item_id

abbrev pub proposal_id_of : CoverageItem → Option String
proposal_id_of i = i.proposal_id

abbrev pub own_id_of : Proposal → String
own_id_of p = p.proposal_id

abbrev pub item_of : CoverageItem × Option Proposal → CoverageItem
item_of r = r.0

-- _assert_complete
unfoldable pub assert_complete :
    PlannerInput → List CoverageItem → List Proposal → Attempt (Unit {0})
unfolding somes distinct
assert_complete value items proposals = do
  let unit_ids = somes (map unit_id_of items)
  require (length unit_ids == length value.accepted_unit_ids) item_count_wrong
  require (distinct unit_ids) units_duplicated
  require (distinct (map item_id_of items)) item_identity_collision
  let durable = filter_if durable_item items
  let proposal_ids = map own_id_of proposals
  let durable_ids = somes (map proposal_id_of durable)
  require
      (all (λ i. is_some i.proposal_id) durable
        && (all (contains proposal_ids) durable_ids && all (contains durable_ids) proposal_ids))
      proposals_inconsistent
  require (all (λ i. not (is_some i.proposal_id) || durable_item i) items) proposal_not_durable

abbrev pub is_review : CoverageItem → Bool
is_review item = elim item.disposition [ Disposition.needs_review ↦ true | _ ↦ false ]

abbrev pub is_gate_rejection : CoverageItem → Bool
is_gate_rejection item = elim item.disposition [ rejected_by_gate ↦ true | _ ↦ false ]

abbrev is_empty : List CoverageItem → Bool
is_empty [] = true
is_empty (i ∷ is) = false

-- _plan_status
unfoldable pub plan_status : PlannerInput → List CoverageItem → Status
plan_status value items =
    if value.abstained
    then abstain
    else if any is_review items
    then Status.needs_review
    else if not (is_empty items) && all is_gate_rejection items
    then retain_raw_only
    else complete

-- The indexes 0, 1, ..., n - 1 from `i` on.
abbrev pub range_from : ℕ → ℕ → List ℕ
range_from i zero = []
range_from i (suc n) = i ∷ range_from (suc i) n

abbrev pub same_numbers : List ℕ → List ℕ → Bool
same_numbers [] [] = true
same_numbers (x ∷ xs) (y ∷ ys) = x == y && same_numbers xs ys
same_numbers _ _ = false

abbrev pub same_texts : List String → List String → Bool
same_texts [] [] = true
same_texts (x ∷ xs) (y ∷ ys) = str_eq x y && same_texts xs ys
same_texts _ _ = false

-- The checks on the input.
unfoldable pub validate : Library → PlannerInput → Attempt (Unit {0})
validate library value = do
  require (str_eq value.envelope_raw_text_hash (library.sha256 value.current_raw_text))
      envelope_mismatch
  let ids = map (λ (u : SemanticUnit). u.id) value.semantic_units
  require (same_texts value.accepted_unit_ids ids) units_not_accepted
  require (same_numbers value.accepted_reference_indexes (range_from 0 (length value.references)))
      references_not_accepted
  require (same_numbers value.accepted_relation_indexes (range_from 0 (length value.relations)))
      relations_not_accepted
  require (distinct ids) unit_ids_repeated

abbrev pub loop_result :
    Option (List (CoverageItem × Option Proposal)) → Attempt (List (CoverageItem × Option Proposal))
loop_result none = raised assertion_failed
loop_result (some rs) = returned rs

abbrev pub plan_items :
    List CoverageItem → List (CoverageItem × Option Proposal) → List CoverageItem
plan_items uncovered rs = sort_by item_leb (map item_of rs ++ uncovered)

-- The bounds that pydantic checks when it makes a value of a contract: a text of at least one
-- character, and the pattern of a hash.
abbrev pub is_named : String → Bool
is_named s = not (str_eq s "")

abbrev pub is_named_if : Option String → Bool
is_named_if none = true
is_named_if (some s) = is_named s

abbrev is_hex_digit : ℕ → Bool
is_hex_digit c = leb 48 c && leb c 57 || leb 97 c && leb c 102

abbrev pub is_hash : String → Bool
is_hash s = length (codes s) == 64 && all is_hex_digit (codes s)

-- CoverageItem
unfoldable pub is_valid_item : CoverageItem → Bool
is_valid_item i = is_named i.coverage_item_id && ltb 0 i.raw_end

-- CandidateProposal
unfoldable pub is_valid_proposal : Proposal → Bool
is_valid_proposal p =
    is_named p.proposal_id
    && is_named p.semantic_unit_id
    && is_named p.message_uuid
    && is_named p.text_unit_uuid
    && ltb 0 p.raw_end
    && is_named p.evidence
    && is_named_if p.gate_decision_uuid
    && is_named_if p.route_uuid
    && is_named_if p.annotation_uuid
    && is_named p.prompt_execution_uuid
    && is_hash p.semantic_unit_fingerprint

-- CoveragePlan
unfoldable pub is_valid_plan : Plan → Bool
is_valid_plan p =
    is_named p.message_uuid
    && is_hash p.raw_text_hash
    && is_named p.processing_run_uuid
    && is_hash p.semantic_contract_hash

abbrev pub is_valid_result : CoverageItem × Option Proposal → Bool
is_valid_result (item, none) = is_valid_item item
is_valid_result (item, some p) = is_valid_proposal p && is_valid_item item

-- The plan of the results of the loop.
abbrev pub plan_of : Library → PlannerInput → List (CoverageItem × Option Proposal) → Plan
plan_of library value rs =
    let items = plan_items (uncovered_items library value) rs in
    record {
      message_uuid = value.message_uuid;
      raw_text_hash = library.sha256 value.current_raw_text;
      processing_run_uuid = value.processing_run_uuid;
      semantic_prompt_execution_uuid = value.semantic_prompt_execution_uuid;
      semantic_contract_hash = value.semantic_contract_hash;
      status = plan_status value items;
      items = items;
      warnings = if value.abstained then "semantic_model_abstained" ∷ [] else [];
    }

-- The loop makes each item and proposal when it comes to its unit; the bounds are checked here when
-- the loop has ended. The assertion of the loop never fails on validated input, so that what is
-- raised is the same.
unfoldable pub plan_candidate_coverage : Library → PlannerInput → Attempt (Plan × List Proposal)
unfolding validate plan_units proposals_of assert_complete plan_status sort_by is_valid_item
    is_valid_proposal is_valid_plan
plan_candidate_coverage library value = do
  validate library value
  rs ← loop_result (plan_units library value value.semantic_units)
  require (all is_valid_result rs) validation_error
  require (all is_valid_item (uncovered_items library value)) validation_error
  assert_complete value (plan_items (uncovered_items library value) rs) (proposals_of rs)
  require (is_valid_plan (plan_of library value rs)) validation_error
  returned (plan_of library value rs, proposals_of rs)
