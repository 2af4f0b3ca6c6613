-- ===== src/Consolidation.antt =====
-- What consolidation does with a candidate (memorist-core/src/memcore/memory_worker/consolidation):
-- resolver.py, conflicts.py and operations.py, the decision against the current version of a memory.
-- The children have the tables, the keys of memories and the consolidator. The confidence and the
-- importance of a claim, which are floats that a version copies, and the times at which rows are
-- created and updated are left out; reason codes of a candidate stay the text that they are.
pub mod Keys
pub mod Store
pub mod Consolidator
pub mod Outbox
pub mod Marks
pub mod Writes
pub mod Sound
pub mod Records
pub mod Memories
pub mod Paths
pub mod Changes
pub mod Growth
pub mod Invariant
pub mod Branches
pub mod Calls
pub mod Runs
pub mod Effect
pub mod Projection
pub mod Tests
use open_webui_memorist_edit.Prelude.{
  ℕ, Bool, true, false, Option, none, some, List, [], ◌∷◌, String, if◌then◌else◌, str_eq,
}
use open_webui_memorist_edit.Coverage.Contracts.{
  CandidateStatus, rejected, needs_review, Polarity, CandidateType,
}

pub data ConsolidationOperation : Type 0 where
  add reinforce update supersede contradict retract forget noop reject manual_review :
      ConsolidationOperation

pub data ChangeOperation : Type 0 where
  add reinforce update supersede contradict retract forget : ChangeOperation

pub data SensitivityClass : Type 0 where
  normal sensitive secret : SensitivityClass

pub record MemoryCandidate : Type 0 where
  pub candidate_uuid : String
  pub text_unit_uuid : String
  pub candidate_type : CandidateType
  pub subject_key : Option String
  pub predicate : Option String
  pub object_ijson : Option String
  pub normalized_text : String
  pub polarity : Polarity
  pub valid_from : Option String
  pub valid_until : Option String
  pub status : CandidateStatus
  pub sensitivity_class : SensitivityClass
  pub rejection_reason_codes_ijson : Option String

-- What a version says about the operation that made it.
pub record ChangeReason : Type 0 where
  pub operation : ConsolidationOperation
  pub candidate_status : CandidateStatus
  pub rejection_reason_codes : Option String

pub record MemoryVersion : Type 0 where
  pub memory_version_uuid : String
  pub memory_uuid : String
  pub version_number : ℕ
  pub normalized_text : String
  pub value_ijson : Option String
  pub polarity : Polarity
  pub valid_from : Option String
  pub valid_until : Option String
  pub transaction_from : String
  pub transaction_until : Option String
  pub source_candidate_uuid : Option String
  pub change_operation : ChangeOperation
  pub change_reason : ChangeReason

pub record Resolution : Type 0 where
  pub operation : ConsolidationOperation
  pub reason_codes : List String

-- Two polarities that are known and differ; a stored polarity is one of the three.
unfoldable pub polarities_contradict : Polarity → Polarity → Bool
polarities_contradict Polarity.affirmed Polarity.negated = true
polarities_contradict Polarity.negated Polarity.affirmed = true
polarities_contradict _ _ = false

abbrev forget_request : String
forget_request = "forget_request"

abbrev pub asks_to_forget : Option String → Bool
asks_to_forget none = false
asks_to_forget (some predicate) = str_eq predicate forget_request

abbrev resolution : ConsolidationOperation → String → Resolution
resolution operation code = record { operation = operation; reason_codes = code ∷ [] }

-- DeterministicResolver.resolve after the tests on the candidate's status and predicate.
unfoldable pub resolve_version : MemoryCandidate → Option MemoryVersion → Resolution
unfolding polarities_contradict
resolve_version c none = resolution ConsolidationOperation.add "no_existing_memory"
resolve_version c (some v) =
    if str_eq v.normalized_text c.normalized_text
    then resolution ConsolidationOperation.reinforce "same_value"
    else if polarities_contradict v.polarity c.polarity
    then resolution ConsolidationOperation.contradict "conflicting_value"
    else resolution ConsolidationOperation.supersede "newer_value"

abbrev pub is_rejected : CandidateStatus → Bool
is_rejected rejected = true
is_rejected _ = false

abbrev pub is_for_review : CandidateStatus → Bool
is_for_review needs_review = true
is_for_review _ = false

-- DeterministicResolver.resolve
unfoldable pub resolve : MemoryCandidate → Option MemoryVersion → Resolution
unfolding resolve_version
resolve c current =
    if is_rejected c.status
    then resolution ConsolidationOperation.reject "candidate_rejected"
    else if is_for_review c.status
    then resolution ConsolidationOperation.manual_review "candidate_needs_review"
    else if asks_to_forget c.predicate
    then resolution ConsolidationOperation.manual_review "forget_requires_authorized_workflow"
    else resolve_version c current

-- change_operation_for: what the mapping does not name becomes `add`.
unfoldable pub change_operation_for : ConsolidationOperation → ChangeOperation
change_operation_for ConsolidationOperation.update = ChangeOperation.update
change_operation_for ConsolidationOperation.supersede = ChangeOperation.supersede
change_operation_for ConsolidationOperation.contradict = ChangeOperation.contradict
change_operation_for ConsolidationOperation.retract = ChangeOperation.retract
change_operation_for ConsolidationOperation.forget = ChangeOperation.forget
change_operation_for ConsolidationOperation.reinforce = ChangeOperation.reinforce
change_operation_for _ = ChangeOperation.add
