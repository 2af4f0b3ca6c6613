-- ===== src/Consolidation/Invariant.antt =====
-- What each consolidation leaves: sound tables, the decision, and every version.
use mathlib.Core.Path.{subst}
use mathlib.Core.List.{append-nil}
use open_webui_memorist_edit.Prelude.{
  ℕ, suc, ◌≤◌, ◌≡◌, refl, sym, ◌⊎◌, false, Option, none, some, List, [], ◌∷◌, String, eq_iff, All,
  All-imp, filter_if, arith,
}
use open_webui_memorist_edit.Prelude.Rows.{find_row, insert_row, find-insert_some, find_hit}
use open_webui_memorist_edit.Consolidation.{ConsolidationOperation, MemoryCandidate, MemoryVersion}
use open_webui_memorist_edit.Consolidation.Store.{
  Environment, Memory, Decision, EvidenceLink, OutboxItem, CandidateEvidence, Store, StoreError,
  candidate_not_found, session_not_found, outbox_item_not_found, integrity_error, is_projection,
  Outcome, ok, raised, decides, get_consolidation_decision, record_decision_only, operation_value,
}
use open_webui_memorist_edit.Consolidation.Consolidator.{
  supports, is_candidate, is_contradict, session_for_candidate,
}
use open_webui_memorist_edit.Consolidation.Writes.{
  AllOld-later, DrawsFresh, IsUndecided, decision_of, changed, outbox_after, projection_of,
  record_decision_lem,
}
use open_webui_memorist_edit.Consolidation.Sound.{IsSourced, IsStored, IsRecorded, IsSound}
use open_webui_memorist_edit.Consolidation.Records.{IsDecided-insert, decided-IsRecorded}
use open_webui_memorist_edit.Consolidation.Changes.{IsBacked, IsShown, changed-IsSound}
use open_webui_memorist_edit.Consolidation.Growth.{Grown, Grown-append}

-- What an outcome has to satisfy, and an error.
abbrev pub Ends : (Decision → Store → Type 0) → (StoreError → Type 0) → Outcome Decision → Type 0
Ends P Q (ok d s) = P d s
Ends P Q (raised e) = Q e

-- An error names what is missing, and no index refuses a write.
abbrev pub Explains : String → Store → StoreError → Type 0
Explains uuid s candidate_not_found = find_row (is_candidate uuid) s.candidates ≡ none
Explains uuid s session_not_found =
    (c : MemoryCandidate) × (find_row (is_candidate uuid) s.candidates ≡ some c)
    × (session_for_candidate c s ≡ none)
Explains uuid s outbox_item_not_found = ⊥
Explains uuid s integrity_error = ⊥

module _ (env : Environment) where
  pub record IsConsolidated (uuid : String) (s : Store) (d : Decision) (s' : Store) : Type 0 where
    pub sound : IsSound env s'
    pub answer : get_consolidation_decision uuid s' ≡ some d
    pub kept :
        (c : String) (x : Decision)
        → get_consolidation_decision c s ≡ some x
        → get_consolidation_decision c s' ≡ some x
    pub heard :
        (m operation : String) (o : OutboxItem)
        → find_row (is_projection m operation) s.outbox ≡ some o
        → find_row (is_projection m operation) s'.outbox ≡ some o
    pub grown : Grown s.versions s'.versions

  pub IsRecorded-later :
      (s : Store) (memories : List Memory) (versions : List MemoryVersion) (n readings : ℕ)
      → s.drawn ≤ n
      → IsRecorded env s
      → IsRecorded env
          (record s { memories = memories; versions = versions; drawn = n; readings = readings })
  IsRecorded-later s memories versions n readings more r = record {
    old_decisions =
        AllOld-later env (λ (x : Decision). x.consolidation_decision_uuid) s.drawn n s.decisions
          more r.old_decisions;
    old_links =
        AllOld-later env (λ (x : EvidenceLink). x.memory_evidence_link_uuid) s.drawn n s.links more
          r.old_links;
    old_outbox =
        AllOld-later env (λ (x : OutboxItem). x.outbox_uuid) s.drawn n s.outbox more r.old_outbox;
    spent = r.spent;
    apart = r.apart;
    untargeted = r.untargeted;
  }

  module _ (fresh : DrawsFresh env) where
    -- A new decision is found, and the old ones still are.
    answered :
        (c : String) (d : Decision) (t : List Decision)
        → find_row (decides c) t ≡ none
        → d.candidate_uuid ≡ c
        → find_row (decides c) (insert_row d t) ≡ some d
    answered c d t h e = find_hit (decides c) d t h ((eq_iff d.candidate_uuid c).1 e)

    -- A projection that is asked for leaves the rows of the outbox.
    still_heard :
        (mid vid value m operation : String) (o : OutboxItem) (n : ℕ) (t : List OutboxItem)
        (found : Option OutboxItem)
        → find_row (is_projection m operation) t ≡ some o
        → find_row (is_projection m operation) (outbox_after env fresh n mid vid value t found)
          ≡ some o
    still_heard mid vid value m operation o n t (some found) h = h
    still_heard mid vid value m operation o n t none h =
        find-insert_some (is_projection m operation) (projection_of env fresh n mid vid value) o t h

    pub decision_only-Ends :
        (uuid c : String) (op : ConsolidationOperation) (codes : List String) (s : Store)
        → IsSound env s
        → IsUndecided c s
        → Ends (IsConsolidated c s) (Explains uuid s) (record_decision_only env c op codes s)
    unfolding record_decision_only
    decision_only-Ends uuid c op codes s h u =
        let d = decision_of env fresh s.drawn c op codes none none in
        let written =
          record_decision_lem env fresh c op codes none none s u h.recorded.old_decisions in
        subst (Ends (IsConsolidated c s) (Explains uuid s)) (sym written) (record {
          sound = record {
            stored = record {
              old_memories =
                  AllOld-later env (λ (x : Memory). x.memory_uuid) s.drawn (suc s.drawn) s.memories
                    (omega arith) h.stored.old_memories;
              old_versions =
                  AllOld-later env (λ (x : MemoryVersion). x.memory_version_uuid) s.drawn
                    (suc s.drawn) s.versions (omega arith) h.stored.old_versions;
              old_owners =
                  AllOld-later env (λ (x : MemoryVersion). x.memory_uuid) s.drawn (suc s.drawn)
                    s.versions (omega arith) h.stored.old_owners;
              current = h.stored.current;
            };
            recorded = decided-IsRecorded env fresh c op codes none none s (λ _. refl) h.recorded;
            sourced =
                All-imp s.versions (λ v k. (k.0, k.1, IsDecided-insert k.0 d s.decisions k.2))
                  h.sourced;
            supported = h.supported;
            projected = h.projected;
          };
          answer = answered c d s.decisions u refl;
          kept = λ i x k. find-insert_some (decides i) d x s.decisions k;
          heard = λ m operation o k. k;
          grown = subst (Grown s.versions) (append-nil s.versions) (Grown-append s.versions []);
        })

    module _ (uuid : String) (c : MemoryCandidate) (e : CandidateEvidence)
        (es : List CandidateEvidence) (s : Store) (h : IsSound env s)
        (u : IsUndecided c.candidate_uuid s)
        (own : filter_if (supports c.candidate_uuid) s.evidence ≡ e ∷ es) where
      -- The tables after a change, from those between the writes of the memory and the records.
      pub change-IsConsolidated :
          (mid vid : String) (codes : List String) (op : ConsolidationOperation)
          (memories : List Memory) (versions : List MemoryVersion) (n readings : ℕ)
          → s.drawn ≤ n
          → is_contradict op ≡ false
          → Grown s.versions versions
          → IsStored env (record s {
            memories = memories;
            versions = versions;
            drawn = n;
            readings = readings;
          })
          → All
              (λ v. IsSourced s.decisions v ⊎ (v.source_candidate_uuid ≡ some c.candidate_uuid))
              versions
          → All (IsBacked env fresh vid c.candidate_uuid s) versions
          → All (IsShown env fresh mid op s) memories
          → IsConsolidated c.candidate_uuid s
              (decision_of env fresh n c.candidate_uuid op codes (some mid) (some vid))
              (changed env fresh mid vid c.candidate_uuid codes op (e ∷ es) (record s {
                memories = memories;
                versions = versions;
                drawn = n;
                readings = readings;
              }))
      change-IsConsolidated mid vid codes op memories versions n readings more k grown stored
            sourced backed shown =
          let d = decision_of env fresh n c.candidate_uuid op codes (some mid) (some vid) in
          record {
            sound =
                changed-IsSound env fresh mid vid c.candidate_uuid codes op e es
                  (record s {
                    memories = memories;
                    versions = versions;
                    drawn = n;
                    readings = readings;
                  })
                  own u k stored (IsRecorded-later s memories versions n readings more h.recorded)
                  sourced backed shown;
            answer = answered c.candidate_uuid d s.decisions u refl;
            kept = λ i x f. find-insert_some (decides i) d x s.decisions f;
            heard = λ m operation o f.
                still_heard mid vid (operation_value op) m operation o _ s.outbox _ f;
            grown = grown;
          }
