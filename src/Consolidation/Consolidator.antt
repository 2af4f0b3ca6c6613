-- ===== src/Consolidation/Consolidator.antt =====
-- MemoryConsolidator of consolidator.py: what the store becomes when a candidate is consolidated.
use open_webui_memorist_edit.Prelude.{
  ℕ, ◌+◌, Bool, true, false, Option, none, some, List, [], ◌∷◌, String, str_eq, if◌then◌else◌,
  filter_if,
}
use open_webui_memorist_edit.Prelude.Rows.{find_row}
use open_webui_memorist_edit.Consolidation.{
  ConsolidationOperation, MemoryCandidate, MemoryVersion, Resolution, resolve, change_operation_for,
}
use open_webui_memorist_edit.Consolidation.Keys.{canonical_key_for_candidate}
use open_webui_memorist_edit.Consolidation.Store.{
  Environment, ScopeType, Memory, Decision, CandidateEvidence, TextUnit, Session, Store, StoreError,
  ok, raised, Method, ◌>>=◌, return, is_version, find_by_canonical_key, get_consolidation_decision,
  draw, read_clock, create_memory_with_version, create_version_for_memory, record_decision_only,
  record_reinforcement,
}

abbrev pub is_candidate : String → MemoryCandidate → Bool
is_candidate uuid c = str_eq c.candidate_uuid uuid

abbrev pub supports : String → CandidateEvidence → Bool
supports candidate_uuid e = str_eq e.candidate_uuid candidate_uuid

abbrev pub joined_session : Option TextUnit → Store → Option Session
joined_session none s = none
joined_session (some u) s = find_row (λ r. str_eq r.session_uuid u.session_uuid) s.sessions

-- _session_for_candidate
abbrev pub session_for_candidate : MemoryCandidate → Store → Option Session
session_for_candidate c s =
    joined_session (find_row (λ u. str_eq u.text_unit_uuid c.text_unit_uuid) s.text_units) s

abbrev pub scope_of_workspace : Session → Option String → ScopeType × Option String
scope_of_workspace t (some workspace) = (ScopeType.workspace, some workspace)
scope_of_workspace t none = (ScopeType.session, some t.session_uuid)

abbrev pub scope_of_project : Session → Option String → ScopeType × Option String
scope_of_project t (some project) = (ScopeType.project, some project)
scope_of_project t none = scope_of_workspace t t.workspace_uuid

-- _scope_for_session
abbrev pub scope_for_session : Session → ScopeType × Option String
scope_for_session t = scope_of_project t t.project_uuid

abbrev pub version_named : Option String → Store → Option MemoryVersion
version_named none s = none
version_named (some uuid) s = find_row (is_version uuid) s.versions

-- _current_version
abbrev pub current_version : Option Memory → Store → Option MemoryVersion
current_version none s = none
current_version (some m) s = version_named m.current_version_uuid s

-- The operations that only record a decision, whether or not there is a memory.
abbrev pub leaves_memories : ConsolidationOperation → Bool
leaves_memories ConsolidationOperation.reject = true
leaves_memories ConsolidationOperation.manual_review = true
leaves_memories ConsolidationOperation.noop = true
leaves_memories _ = false

abbrev pub is_reinforce : ConsolidationOperation → Bool
is_reinforce ConsolidationOperation.reinforce = true
is_reinforce _ = false

abbrev pub is_contradict : ConsolidationOperation → Bool
is_contradict ConsolidationOperation.contradict = true
is_contradict _ = false

abbrev pub is_supersede : ConsolidationOperation → Bool
is_supersede ConsolidationOperation.supersede = true
is_supersede _ = false

abbrev pub next_number : Option MemoryVersion → ℕ
next_number none = 1
next_number (some v) = v.version_number + 1

module _ (env : Environment) where
  -- _version_for
  unfoldable pub version_for :
      MemoryCandidate → String → ℕ → ConsolidationOperation → Method MemoryVersion
  unfolding draw read_clock
  version_for c memory_uuid version_number operation = do
    uuid ← draw env
    now ← read_clock env
    return (record {
      memory_version_uuid = uuid;
      memory_uuid = memory_uuid;
      version_number = version_number;
      normalized_text = c.normalized_text;
      value_ijson = c.object_ijson;
      polarity = c.polarity;
      valid_from = c.valid_from;
      valid_until = c.valid_until;
      transaction_from = now;
      transaction_until = none;
      source_candidate_uuid = some c.candidate_uuid;
      change_operation = change_operation_for operation;
      change_reason = record {
        operation = operation;
        candidate_status = c.status;
        rejection_reason_codes = c.rejection_reason_codes_ijson;
      };
    })

  unfoldable pub create_memory :
      MemoryCandidate
      → List CandidateEvidence
      → ScopeType × Option String
      → Resolution
      → Method Decision
  unfolding version_for draw create_memory_with_version
  create_memory c evidence scope r = do
    uuid ← draw env
    version ← version_for c uuid 1 r.operation
    create_memory_with_version env
        (record {
          memory_uuid = uuid;
          canonical_key = canonical_key_for_candidate env.lower c;
          memory_type = c.candidate_type;
          scope_type = scope.0;
          scope_uuid = scope.1;
          current_version_uuid = none;
          sensitivity_class = c.sensitivity_class;
        })
        version c.candidate_uuid r.reason_codes r.operation evidence

  unfoldable pub create_version :
      MemoryCandidate
      → List CandidateEvidence
      → Memory
      → Option MemoryVersion
      → Resolution
      → Method Decision
  unfolding version_for create_version_for_memory
  create_version c evidence m current r = do
    version ← version_for c m.memory_uuid (next_number current) r.operation
    create_version_for_memory env m version c.candidate_uuid r.reason_codes r.operation evidence
        (is_supersede r.operation)

  -- From the test for a reinforcement on.
  unfoldable pub change_memory :
      MemoryCandidate
      → List CandidateEvidence
      → Memory
      → Option MemoryVersion
      → Resolution
      → Method Decision
  unfolding create_version record_decision_only record_reinforcement
  change_memory c evidence m none r =
      if is_contradict r.operation
      then record_decision_only env c.candidate_uuid ConsolidationOperation.contradict
          r.reason_codes
      else create_version c evidence m none r
  change_memory c evidence m (some v) r =
      if is_reinforce r.operation
      then record_reinforcement env m v c.candidate_uuid r.reason_codes evidence
      else if is_contradict r.operation
      then record_decision_only env c.candidate_uuid ConsolidationOperation.contradict
          r.reason_codes
      else create_version c evidence m (some v) r

  abbrev pub write_memory :
      MemoryCandidate
      → List CandidateEvidence
      → ScopeType × Option String
      → Option Memory
      → Option MemoryVersion
      → Resolution
      → Method Decision
  write_memory c evidence scope none current r = create_memory c evidence scope r
  write_memory c evidence scope (some m) current r = change_memory c evidence m current r

  unfoldable pub apply_resolution :
      MemoryCandidate
      → List CandidateEvidence
      → ScopeType × Option String
      → Option Memory
      → Option MemoryVersion
      → Resolution
      → Method Decision
  unfolding create_memory change_memory record_decision_only
  apply_resolution c evidence scope memory current r =
      if leaves_memories r.operation
      then record_decision_only env c.candidate_uuid r.operation r.reason_codes
      else write_memory c evidence scope memory current r

  abbrev pub consolidate_in :
      MemoryCandidate
      → List CandidateEvidence
      → ScopeType × Option String
      → Option Memory
      → Method Decision
  consolidate_in c evidence scope memory s =
      apply_resolution c evidence scope memory (current_version memory s)
        (resolve c (current_version memory s)) s

  abbrev pub consolidate_session :
      MemoryCandidate → List CandidateEvidence → Option Session → Method Decision
  consolidate_session c evidence none s = raised StoreError.session_not_found
  consolidate_session c evidence (some t) s =
      consolidate_in c evidence (scope_for_session t)
        (find_by_canonical_key (scope_for_session t).0 (scope_for_session t).1
          (canonical_key_for_candidate env.lower c) s)
        s

  abbrev pub consolidate_supported : MemoryCandidate → List CandidateEvidence → Method Decision
  consolidate_supported c [] s =
      record_decision_only env c.candidate_uuid ConsolidationOperation.reject
        ("missing_evidence" ∷ []) s
  consolidate_supported c (e ∷ es) s = consolidate_session c (e ∷ es) (session_for_candidate c s) s

  abbrev pub consolidate_found : Option MemoryCandidate → Method Decision
  consolidate_found none s = raised StoreError.candidate_not_found
  consolidate_found (some c) s =
      consolidate_supported c (filter_if (supports c.candidate_uuid) s.evidence) s

  abbrev pub unless_decided : String → Option Decision → Method Decision
  unless_decided candidate_uuid (some existing) s = ok existing s
  unless_decided candidate_uuid none s =
      consolidate_found (find_row (is_candidate candidate_uuid) s.candidates) s

  unfoldable pub consolidate_candidate : String → Method Decision
  unfolding apply_resolution
  consolidate_candidate candidate_uuid s =
      unless_decided candidate_uuid (get_consolidation_decision candidate_uuid s) s
