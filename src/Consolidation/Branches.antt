-- ===== src/Consolidation/Branches.antt =====
-- The writes on each branch of the consolidator leave sound tables.
use mathlib.Core.Path.{subst}
use mathlib.Core.List.{append-nil}
use open_webui_memorist_edit.Prelude.{
  suc, ◌≡◌, refl, sym, ap, ◌⊎◌, inl, inr, false, Option, none, some, List, [], ◌∷◌, String, All-imp,
  filter_if, arith,
}
use open_webui_memorist_edit.Prelude.Rows.{find_row, All-append, All-update}
use open_webui_memorist_edit.Consolidation.{
  ConsolidationOperation, MemoryCandidate, MemoryVersion, Resolution,
}
use open_webui_memorist_edit.Consolidation.Keys.{canonical_key_for_candidate}
use open_webui_memorist_edit.Consolidation.Store.{
  Environment, ScopeType, Memory, Decision, CandidateEvidence, Store, Outcome, in_place, is_memory,
  is_version, record_reinforcement,
}
use open_webui_memorist_edit.Consolidation.Consolidator.{
  supports, is_contradict, is_supersede, create_memory, create_version,
}
use open_webui_memorist_edit.Consolidation.Writes.{
  DrawsFresh, IsUndecided, IsReady, IsOld, record_change_lem,
}
use open_webui_memorist_edit.Consolidation.Sound.{IsCurrent, IsSourced, IsSound}
use open_webui_memorist_edit.Consolidation.Records.{IsReady-of}
use open_webui_memorist_edit.Consolidation.Changes.{IsBacked, IsShown}
use open_webui_memorist_edit.Consolidation.Paths.{
  added, superseded, close_at, create_memory_lem, create_version_lem,
}
use open_webui_memorist_edit.Consolidation.Growth.{
  Grown, Grown-append, Grown-close, added-IsStored, superseded-IsStored,
}
use open_webui_memorist_edit.Consolidation.Invariant.{
  Ends, Explains, IsConsolidated, IsRecorded-later, change-IsConsolidated,
}

module _ (env : Environment) (fresh : DrawsFresh env) where
  module _ (uuid : String) (c : MemoryCandidate) (e : CandidateEvidence)
      (es : List CandidateEvidence) (s : Store) (h : IsSound env s)
      (u : IsUndecided c.candidate_uuid s)
      (own : filter_if (supports c.candidate_uuid) s.evidence ≡ e ∷ es) where
    abbrev pub EndsWell : Outcome Decision → Type 0
    EndsWell = Ends (IsConsolidated env c.candidate_uuid s) (Explains uuid s)

    pub create-Ends :
        (scope : ScopeType × Option String) (r : Resolution)
        → find_row (in_place scope.0 scope.1 (canonical_key_for_candidate env.lower c)) s.memories
          ≡ none
        → r.operation ≡ ConsolidationOperation.add
        → EndsWell (create_memory env c (e ∷ es) scope r s)
    create-Ends scope r place add =
        let s1 = added env c scope r.operation s in
        let no_conflict : is_contradict r.operation ≡ false = ap is_contradict add in
        let recorded =
          IsRecorded-later env s s1.memories s1.versions s1.drawn s1.readings (omega arith)
            h.recorded in
        let ready =
          subst (λ l. IsReady env fresh c.candidate_uuid l s1) own
            (IsReady-of env fresh c.candidate_uuid s1 u recorded) in
        let written =
          create_memory_lem env fresh c (e ∷ es) scope r s h.stored.old_memories
            h.stored.old_versions h.stored.old_owners place h.sourced ready in
        subst EndsWell (sym written) (
          change-IsConsolidated env fresh uuid c e es s h u own (env.new_uuid s.drawn)
            (env.new_uuid (suc s.drawn)) r.reason_codes r.operation s1.memories s1.versions s1.drawn
            s1.readings (omega arith) no_conflict (Grown-append s.versions _)
            (added-IsStored env fresh c scope r.operation s h.stored)
            (All-append
              (λ (v : MemoryVersion).
                IsSourced s.decisions v ⊎ (v.source_candidate_uuid ≡ some c.candidate_uuid))
              s.versions _ (All-imp s.versions (λ v k. inl k) h.sourced) (inr refl, tt))
            (All-append (IsBacked env fresh (env.new_uuid (suc s.drawn)) c.candidate_uuid s)
              s.versions _ (All-imp s.versions (λ v k. inl k) h.supported) (inr (refl, refl), tt))
            (All-append (IsShown env fresh (env.new_uuid s.drawn) r.operation s) s.memories _
              (All-imp s.memories (λ m k. inl k) h.projected) (inr (refl, add), tt)))

    pub reinforce-Ends :
        (m : Memory) (v : MemoryVersion) (codes : List String)
        → EndsWell (record_reinforcement env m v c.candidate_uuid codes (e ∷ es) s)
    unfolding record_reinforcement
    reinforce-Ends m v codes =
        let ready =
          subst (λ l. IsReady env fresh c.candidate_uuid l s) own
            (IsReady-of env fresh c.candidate_uuid s u h.recorded) in
        let written =
          record_change_lem env fresh m.memory_uuid v.memory_version_uuid c.candidate_uuid codes
            ConsolidationOperation.reinforce (e ∷ es) s ready in
        subst EndsWell (sym written) (
          change-IsConsolidated env fresh uuid c e es s h u own m.memory_uuid v.memory_version_uuid
            codes ConsolidationOperation.reinforce s.memories s.versions s.drawn s.readings
            (omega arith) refl
            (subst (Grown s.versions) (append-nil s.versions) (Grown-append s.versions [])) h.stored
            (All-imp s.versions (λ w k. inl k) h.sourced)
            (All-imp s.versions (λ w k. inl k) h.supported)
            (All-imp s.memories (λ w k. inl k) h.projected))

    pub supersede-Ends :
        (m : Memory) (k : IsCurrent s.versions m) (r : Resolution)
        → IsOld env s.drawn m.memory_uuid
        → r.operation ≡ ConsolidationOperation.supersede
        → EndsWell (create_version env c (e ∷ es) m (some k.version) r s)
    supersede-Ends m k r old op =
        let s1 = superseded env c m.memory_uuid k.current k.version r.operation s in
        let close = close_at env (env.utc_now (suc s.readings)) in
        let recorded =
          IsRecorded-later env s s1.memories s1.versions s1.drawn s1.readings (omega arith)
            h.recorded in
        let ready =
          subst (λ l. IsReady env fresh c.candidate_uuid l s1) own
            (IsReady-of env fresh c.candidate_uuid s1 u recorded) in
        let written =
          create_version_lem env fresh c (e ∷ es) m k.current k.version r s h.stored.old_versions
            h.sourced (All-imp s.versions (λ w p of_m. (p of_m).0) k.others) k.named
            (ap is_supersede op) ready in
        subst EndsWell (sym written) (
          change-IsConsolidated env fresh uuid c e es s h u own m.memory_uuid (env.new_uuid s.drawn)
            r.reason_codes r.operation s1.memories s1.versions s1.drawn s1.readings (omega arith)
            (ap is_contradict op)
            (Grown-close (is_version k.current) (env.utc_now (suc s.readings)) s.versions _)
            (superseded-IsStored env fresh c m r.operation s k old h.stored)
            (All-append
              (λ (v : MemoryVersion).
                IsSourced s.decisions v ⊎ (v.source_candidate_uuid ≡ some c.candidate_uuid))
              _ _
              (All-update
                (λ (v : MemoryVersion).
                  IsSourced s.decisions v ⊎ (v.source_candidate_uuid ≡ some c.candidate_uuid))
                (is_version k.current) close s.versions (λ v i _. i)
                (All-imp s.versions (λ v i. inl i) h.sourced))
              (inr refl, tt))
            (All-append (IsBacked env fresh (env.new_uuid s.drawn) c.candidate_uuid s) _ _
              (All-update (IsBacked env fresh (env.new_uuid s.drawn) c.candidate_uuid s)
                (is_version k.current) close s.versions (λ v i _. i)
                (All-imp s.versions (λ v i. inl i) h.supported))
              (inr (refl, refl), tt))
            (All-update (IsShown env fresh m.memory_uuid r.operation s) (is_memory m.memory_uuid) _
              s.memories (λ x i _. i) (All-imp s.memories (λ x i. inl i) h.projected)))
