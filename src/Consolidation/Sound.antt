-- ===== src/Consolidation/Sound.antt =====
-- What holds of the tables of memories between two consolidations.
use open_webui_memorist_edit.Prelude.{
  ℕ, ◌≤◌, ◌≡◌, Bool, true, false, ◌&&◌, Option, none, some, List, String, str_eq, any, All,
  count_if,
}
use open_webui_memorist_edit.Prelude.Rows.{find_row}
use open_webui_memorist_edit.Consolidation.{MemoryVersion}
use open_webui_memorist_edit.Consolidation.Store.{
  Environment, Memory, Decision, EvidenceLink, OutboxItem, CandidateEvidence, Store, is_version,
  is_of_memory, decides, is_projection, sql_eq,
}
use open_webui_memorist_edit.Consolidation.Consolidator.{is_contradict}
use open_webui_memorist_edit.Consolidation.Writes.{AllOld, DistinctEvidence}

abbrev pub is_closed : Option String → Bool
is_closed none = false
is_closed (some t) = true

-- A version of a memory beside the current one.
abbrev pub Precedes : String → String → ℕ → MemoryVersion → Type 0
Precedes memory_uuid current number w =
    is_of_memory memory_uuid w ≡ true
    → (w.version_number ≤ number)
      × (is_version current w ≡ false → is_closed w.transaction_until ≡ true)

-- The memory has a current version, which is its own, is open, and has the last number: the number of
-- its versions. All its other versions are closed.
pub record IsCurrent (versions : List MemoryVersion) (m : Memory) : Type 0 where
  pub current : String
  pub version : MemoryVersion
  pub named : m.current_version_uuid ≡ some current
  pub found : find_row (is_version current) versions ≡ some version
  pub owned : version.memory_uuid ≡ m.memory_uuid
  pub still_open : version.transaction_until ≡ none
  pub counted : version.version_number ≡ count_if (is_of_memory m.memory_uuid) versions
  pub others : All (Precedes m.memory_uuid current version.version_number) versions

abbrev pub IsDecided : String → List Decision → Type 0
IsDecided candidate_uuid decisions =
    (d : Decision) × (find_row (decides candidate_uuid) decisions ≡ some d)

abbrev pub IsSourced : List Decision → MemoryVersion → Type 0
IsSourced decisions v = (c : String) × (v.source_candidate_uuid ≡ some c) × IsDecided c decisions

-- A link from the version to evidence of the candidate that it comes from.
abbrev pub is_support : MemoryVersion → EvidenceLink → Bool
is_support v l =
    str_eq l.memory_version_uuid v.memory_version_uuid
    && sql_eq (some l.candidate_uuid) v.source_candidate_uuid

abbrev pub IsSupported : List EvidenceLink → MemoryVersion → Type 0
IsSupported links v = any (is_support v) links ≡ true

-- Evidence that is linked belongs to a candidate that is decided.
abbrev pub IsSpent : List Decision → List EvidenceLink → CandidateEvidence → Type 0
IsSpent decisions links e =
    All
      (λ (l : EvidenceLink).
        str_eq l.evidence_uuid e.evidence_uuid ≡ true → IsDecided e.candidate_uuid decisions)
      links

abbrev pub IsUntargeted : Decision → Type 0
IsUntargeted d = is_contradict d.operation ≡ true → d.target_memory_uuid ≡ none

abbrev pub IsProjected : List OutboxItem → Memory → Type 0
IsProjected outbox m =
    (o : OutboxItem) × (find_row (is_projection m.memory_uuid "ADD") outbox ≡ some o)

module _ (env : Environment) where
  -- The memories and their versions.
  pub record IsStored (s : Store) : Type 0 where
    pub old_memories : AllOld env (λ (m : Memory). m.memory_uuid) s.drawn s.memories
    pub old_versions : AllOld env (λ (v : MemoryVersion). v.memory_version_uuid) s.drawn s.versions
    pub old_owners : AllOld env (λ (v : MemoryVersion). v.memory_uuid) s.drawn s.versions
    pub current : All (IsCurrent s.versions) s.memories

  -- The decisions, the links and the outbox.
  pub record IsRecorded (s : Store) : Type 0 where
    pub old_decisions :
        AllOld env (λ (d : Decision). d.consolidation_decision_uuid) s.drawn s.decisions
    pub old_links : AllOld env (λ (l : EvidenceLink). l.memory_evidence_link_uuid) s.drawn s.links
    pub old_outbox : AllOld env (λ (o : OutboxItem). o.outbox_uuid) s.drawn s.outbox
    pub spent : All (IsSpent s.decisions s.links) s.evidence
    pub apart : DistinctEvidence s.evidence
    pub untargeted : All IsUntargeted s.decisions

  -- And what relates the two.
  pub record IsSound (s : Store) : Type 0 where
    pub stored : IsStored s
    pub recorded : IsRecorded s
    pub sourced : All (IsSourced s.decisions) s.versions
    pub supported : All (IsSupported s.links) s.versions
    pub projected : All (IsProjected s.outbox) s.memories
