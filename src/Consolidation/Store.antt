-- ===== src/Consolidation/Store.antt =====
-- MemoryStoreRepository of memorist-core/src/memcore/repositories/memory_worker.py, on the tables of
-- migrations/0002_phase2_memory_worker.sql with their primary keys and unique indexes. A write that
-- breaks one raises and, since each method is one transaction, leaves the tables as they were.
-- new_uuid and utc_now are sequences, and a store counts how much of them is used.
use open_webui_memorist_edit.Prelude.{
  ℕ, suc, Bool, true, false, ◌&&◌, ◌||◌, Option, none, some, List, [], ◌∷◌, String, ◌==◌, str_eq,
  if◌then◌else◌, any,
}
use open_webui_memorist_edit.Prelude.Rows.{find_row, update_rows, insert_row}
use open_webui_memorist_edit.Prelude.Texts.{same_codes}
use open_webui_memorist_edit.Coverage.Contracts.{CandidateType}
use open_webui_memorist_edit.Consolidation.{
  ConsolidationOperation, ChangeOperation, MemoryCandidate, MemoryVersion, SensitivityClass,
}

-- What other code gives: identifiers, readings of the clock, and str.lower.
pub record Environment : Type 0 where
  pub new_uuid : ℕ → String
  pub utc_now : ℕ → String
  pub lower : List ℕ → List ℕ

pub data ScopeType : Type 0 where
  project workspace session : ScopeType

pub record Memory : Type 0 where
  pub memory_uuid : String
  pub canonical_key : List ℕ
  pub memory_type : CandidateType
  pub scope_type : ScopeType
  pub scope_uuid : Option String
  pub current_version_uuid : Option String
  pub sensitivity_class : SensitivityClass

pub record Decision : Type 0 where
  pub consolidation_decision_uuid : String
  pub candidate_uuid : String
  pub operation : ConsolidationOperation
  pub resolver_version : String
  pub reason_codes : List String
  pub target_memory_uuid : Option String
  pub target_memory_version_uuid : Option String

pub record EvidenceLink : Type 0 where
  pub memory_evidence_link_uuid : String
  pub memory_uuid : String
  pub memory_version_uuid : String
  pub candidate_uuid : String
  pub evidence_uuid : String

pub data OutboxStatus : Type 0 where
  pending succeeded retry failed skipped : OutboxStatus

-- The payload names the memory, the version and the operation.
pub record OutboxItem : Type 0 where
  pub outbox_uuid : String
  pub aggregate_type : String
  pub aggregate_uuid : String
  pub operation : String
  pub payload : String × String × String
  pub status : OutboxStatus
  pub attempts : ℕ
  pub last_error : Option String
  pub processed_at : Option String

pub record CandidateEvidence : Type 0 where
  pub evidence_uuid : String
  pub candidate_uuid : String
  pub evidence_text : String

pub record TextUnit : Type 0 where
  pub text_unit_uuid : String
  pub session_uuid : String

pub record Session : Type 0 where
  pub session_uuid : String
  pub workspace_uuid : Option String
  pub project_uuid : Option String

pub record Store : Type 0 where
  pub memories : List Memory
  pub versions : List MemoryVersion
  pub decisions : List Decision
  pub links : List EvidenceLink
  pub outbox : List OutboxItem
  pub candidates : List MemoryCandidate
  pub evidence : List CandidateEvidence
  pub text_units : List TextUnit
  pub sessions : List Session
  pub drawn : ℕ
  pub readings : ℕ

pub data StoreError : Type 0 where
  candidate_not_found session_not_found outbox_item_not_found integrity_error : StoreError

pub data Outcome (A : Type 0) : Type 0 where
  ok : A → Store → Outcome A
  raised : StoreError → Outcome A

abbrev pub Method : Type 0 → Type 0
Method A = Store → Outcome A

infixl 5 ◌>>=◌ ◌>>◌
abbrev pub ◌>>=◌ : {A B : Type 0} → Method A → (A → Method B) → Method B
◌>>=◌ m f s = elim (m s) [ ok a s' ↦ f a s' | raised e ↦ raised e ]

abbrev pub ◌>>◌ : {B : Type 0} → Method (Unit {0}) → Method B → Method B
m >> k = m >>= λ _. k

abbrev pub return : {A : Type 0} → A → Method A
return a s = ok a s

abbrev pub operation_value : ConsolidationOperation → String
operation_value ConsolidationOperation.add = "ADD"
operation_value ConsolidationOperation.reinforce = "REINFORCE"
operation_value ConsolidationOperation.update = "UPDATE"
operation_value ConsolidationOperation.supersede = "SUPERSEDE"
operation_value ConsolidationOperation.contradict = "CONTRADICT"
operation_value ConsolidationOperation.retract = "RETRACT"
operation_value ConsolidationOperation.forget = "FORGET"
operation_value ConsolidationOperation.noop = "NOOP"
operation_value ConsolidationOperation.reject = "REJECT"
operation_value ConsolidationOperation.manual_review = "MANUAL_REVIEW"

abbrev pub change_value : ChangeOperation → String
change_value ChangeOperation.add = "add"
change_value ChangeOperation.reinforce = "reinforce"
change_value ChangeOperation.update = "update"
change_value ChangeOperation.supersede = "supersede"
change_value ChangeOperation.contradict = "contradict"
change_value ChangeOperation.retract = "retract"
change_value ChangeOperation.forget = "forget"

abbrev pub same_scope_type : ScopeType → ScopeType → Bool
same_scope_type project project = true
same_scope_type workspace workspace = true
same_scope_type session session = true
same_scope_type _ _ = false

-- `=` of SQL, which holds of no NULL, and COALESCE(x, '').
abbrev pub sql_eq : Option String → Option String → Bool
sql_eq (some a) (some b) = str_eq a b
sql_eq _ _ = false

abbrev pub or_empty : Option String → String
or_empty none = ""
or_empty (some a) = a

abbrev pub in_place : ScopeType → Option String → List ℕ → Memory → Bool
in_place scope_type scope_uuid key m =
    same_scope_type m.scope_type scope_type
    && str_eq (or_empty m.scope_uuid) (or_empty scope_uuid)
    && same_codes m.canonical_key key

abbrev pub is_memory : String → Memory → Bool
is_memory uuid m = str_eq m.memory_uuid uuid

abbrev pub is_version : String → MemoryVersion → Bool
is_version uuid v = str_eq v.memory_version_uuid uuid

abbrev pub is_of_memory : String → MemoryVersion → Bool
is_of_memory uuid v = str_eq v.memory_uuid uuid

abbrev pub decides : String → Decision → Bool
decides candidate_uuid d = str_eq d.candidate_uuid candidate_uuid

abbrev pub is_projection : String → String → OutboxItem → Bool
is_projection aggregate_uuid operation o =
    str_eq o.aggregate_type "memory"
    && str_eq o.aggregate_uuid aggregate_uuid
    && str_eq o.operation operation

-- The unique indexes.
abbrev pub takes_place : Memory → Memory → Bool
takes_place new m =
    same_scope_type m.scope_type new.scope_type
    && sql_eq m.scope_uuid new.scope_uuid
    && same_codes m.canonical_key new.canonical_key

abbrev pub has_number : MemoryVersion → MemoryVersion → Bool
has_number new v = str_eq v.memory_uuid new.memory_uuid && v.version_number == new.version_number

abbrev pub has_source : MemoryVersion → MemoryVersion → Bool
has_source new v =
    sql_eq v.source_candidate_uuid new.source_candidate_uuid
    && str_eq (change_value v.change_operation) (change_value new.change_operation)

abbrev pub links_same : EvidenceLink → EvidenceLink → Bool
links_same new l =
    str_eq l.memory_version_uuid new.memory_version_uuid && str_eq l.evidence_uuid new.evidence_uuid

abbrev pub find_by_canonical_key : ScopeType → Option String → List ℕ → Store → Option Memory
find_by_canonical_key scope_type scope_uuid key s =
    find_row (in_place scope_type scope_uuid key) s.memories

abbrev pub get_consolidation_decision : String → Store → Option Decision
get_consolidation_decision candidate_uuid s = find_row (decides candidate_uuid) s.decisions

-- A statement that the indexes refuse or let through.
abbrev pub unless_taken : Bool → (Store → Store) → Method (Unit {0})
unless_taken true f s = raised integrity_error
unless_taken false f s = ok tt (f s)

unfoldable pub insert_memory : Memory → Method (Unit {0})
insert_memory m s =
    unless_taken (any (is_memory m.memory_uuid) s.memories || any (takes_place m) s.memories)
      (λ s. record s { memories = insert_row m s.memories }) s

unfoldable pub insert_version : MemoryVersion → Method (Unit {0})
insert_version v s =
    unless_taken
      (any (is_version v.memory_version_uuid) s.versions
        || any (has_number v) s.versions
        || any (has_source v) s.versions)
      (λ s. record s { versions = insert_row v s.versions }) s

unfoldable pub insert_decision : Decision → Method (Unit {0})
insert_decision d s =
    unless_taken
      (any (λ r. str_eq r.consolidation_decision_uuid d.consolidation_decision_uuid) s.decisions
        || any (decides d.candidate_uuid) s.decisions)
      (λ s. record s { decisions = insert_row d s.decisions }) s

unfoldable pub insert_link : EvidenceLink → Method (Unit {0})
insert_link l s =
    unless_taken
      (any (λ r. str_eq r.memory_evidence_link_uuid l.memory_evidence_link_uuid) s.links
        || any (links_same l) s.links)
      (λ s. record s { links = insert_row l s.links }) s

unfoldable pub insert_outbox : OutboxItem → Method (Unit {0})
insert_outbox o s =
    unless_taken
      (any (λ r. str_eq r.outbox_uuid o.outbox_uuid) s.outbox
        || any
            (λ r.
              str_eq r.aggregate_type o.aggregate_type
              && str_eq r.aggregate_uuid o.aggregate_uuid
              && str_eq r.operation o.operation)
            s.outbox)
      (λ s. record s { outbox = insert_row o s.outbox }) s

unfoldable pub set_current : String → String → Method (Unit {0})
set_current memory_uuid version_uuid s = ok tt (record s {
  memories =
      update_rows (is_memory memory_uuid)
        (λ m. record m { current_version_uuid = some version_uuid }) s.memories;
})

unfoldable pub close_version : String → Option String → Method (Unit {0})
close_version now none s = ok tt s
close_version now (some uuid) s = ok tt (record s {
  versions =
      update_rows (is_version uuid) (λ v. record v { transaction_until = some now }) s.versions;
})

module _ (env : Environment) where
  unfoldable pub draw : Method String
  draw s = ok (env.new_uuid s.drawn) (record s { drawn = suc s.drawn })

  unfoldable pub read_clock : Method String
  read_clock s = ok (env.utc_now s.readings) (record s { readings = suc s.readings })

  abbrev pub new_decision :
      String
      → ConsolidationOperation
      → List String
      → Option String
      → Option String
      → Option Decision
      → Method Decision
  new_decision candidate_uuid operation reason_codes memory_uuid version_uuid (some existing) s =
      ok existing s
  new_decision candidate_uuid operation reason_codes memory_uuid version_uuid none s =
      (do
        uuid ← draw
        let d : Decision = record {
          consolidation_decision_uuid = uuid;
          candidate_uuid = candidate_uuid;
          operation = operation;
          resolver_version = "deterministic-consolidator-v1";
          reason_codes = reason_codes;
          target_memory_uuid = memory_uuid;
          target_memory_version_uuid = version_uuid;
        }
        insert_decision d
        return d)
        s

  -- _record_decision
  unfoldable pub record_decision :
      String
      → ConsolidationOperation
      → List String
      → Option String
      → Option String
      → Method Decision
  unfolding draw insert_decision
  record_decision candidate_uuid operation reason_codes memory_uuid version_uuid s =
      new_decision candidate_uuid operation reason_codes memory_uuid version_uuid
        (get_consolidation_decision candidate_uuid s) s

  -- _link_evidence
  unfoldable pub link_evidence :
      String → String → String → List CandidateEvidence → Method (Unit {0})
  unfolding draw insert_link
  link_evidence memory_uuid version_uuid candidate_uuid [] = return tt
  link_evidence memory_uuid version_uuid candidate_uuid (e ∷ es) = do
    uuid ← draw
    insert_link (record {
      memory_evidence_link_uuid = uuid;
      memory_uuid = memory_uuid;
      memory_version_uuid = version_uuid;
      candidate_uuid = candidate_uuid;
      evidence_uuid = e.evidence_uuid;
    })
    link_evidence memory_uuid version_uuid candidate_uuid es

  abbrev pub new_projection : String → String → String → Option OutboxItem → Method (Unit {0})
  new_projection memory_uuid version_uuid operation (some existing) = return tt
  new_projection memory_uuid version_uuid operation none = do
    uuid ← draw
    insert_outbox (record {
      outbox_uuid = uuid;
      aggregate_type = "memory";
      aggregate_uuid = memory_uuid;
      operation = operation;
      payload = (memory_uuid, version_uuid, operation);
      status = OutboxStatus.pending;
      attempts = 0;
      last_error = none;
      processed_at = none;
    })

  -- enqueue_projection, as the methods call it.
  unfoldable pub enqueue_projection : String → String → String → Method (Unit {0})
  unfolding draw insert_outbox
  enqueue_projection memory_uuid version_uuid operation s =
      new_projection memory_uuid version_uuid operation
        (find_row (is_projection memory_uuid operation) s.outbox) s

  -- The decision, the links and the projection, with which the three writes of a memory end.
  unfoldable pub record_change :
      String
      → String
      → String
      → List String
      → ConsolidationOperation
      → List CandidateEvidence
      → Method Decision
  unfolding record_decision link_evidence enqueue_projection
  record_change memory_uuid version_uuid candidate_uuid reason_codes operation evidence = do
    d ← record_decision candidate_uuid operation reason_codes (some memory_uuid) (some version_uuid)
    link_evidence memory_uuid version_uuid candidate_uuid evidence
    enqueue_projection memory_uuid version_uuid (operation_value operation)
    return d

  unfoldable pub create_memory_with_version :
      Memory
      → MemoryVersion
      → String
      → List String
      → ConsolidationOperation
      → List CandidateEvidence
      → Method Decision
  unfolding insert_memory insert_version set_current record_change
  create_memory_with_version memory version candidate_uuid reason_codes operation evidence = do
    insert_memory memory
    insert_version version
    set_current memory.memory_uuid version.memory_version_uuid
    record_change memory.memory_uuid version.memory_version_uuid candidate_uuid reason_codes
        operation evidence

  unfoldable pub create_version_for_memory :
      Memory
      → MemoryVersion
      → String
      → List String
      → ConsolidationOperation
      → List CandidateEvidence
      → Bool
      → Method Decision
  unfolding read_clock close_version insert_version set_current record_change
  create_version_for_memory memory version candidate_uuid reason_codes operation evidence
        close_previous =
      do
        now ← read_clock
        close_version now (if close_previous then memory.current_version_uuid else none)
        insert_version version
        set_current memory.memory_uuid version.memory_version_uuid
        record_change memory.memory_uuid version.memory_version_uuid candidate_uuid reason_codes
            operation evidence

  unfoldable pub record_decision_only :
      String → ConsolidationOperation → List String → Method Decision
  unfolding record_decision
  record_decision_only candidate_uuid operation reason_codes =
      record_decision candidate_uuid operation reason_codes none none

  unfoldable pub record_reinforcement :
      Memory → MemoryVersion → String → List String → List CandidateEvidence → Method Decision
  unfolding record_change
  record_reinforcement memory version candidate_uuid reason_codes evidence =
      record_change memory.memory_uuid version.memory_version_uuid candidate_uuid reason_codes
        ConsolidationOperation.reinforce evidence
