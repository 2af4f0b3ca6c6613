-- ===== src/Consolidation/Projection.antt =====
-- What the outbox of the graph's projection hears of a version that supersedes another.
use mathlib.Core.Path.{subst}
use open_webui_memorist_edit.Prelude.{
  ℕ, suc, ◌≡◌, sym, ap, ◌∙◌, false, some, List, ◌∷◌, String, All-imp, filter_if, length, arith,
}
use open_webui_memorist_edit.Prelude.Rows.{
  find_row, update_rows, All-find, length-update, length-insert,
}
use open_webui_memorist_edit.Consolidation.{
  ConsolidationOperation, MemoryCandidate, MemoryVersion, resolve,
}
use open_webui_memorist_edit.Consolidation.Keys.{canonical_key_for_candidate}
use open_webui_memorist_edit.Consolidation.Store.{
  Environment, Memory, Decision, OutboxItem, CandidateEvidence, Session, Store, Outcome, ok,
  in_place, is_version, find_by_canonical_key,
}
use open_webui_memorist_edit.Consolidation.Consolidator.{
  supports, is_candidate, is_contradict, is_reinforce, is_supersede, leaves_memories,
  session_for_candidate, current_version, version_named, change_memory, apply_resolution,
  consolidate_candidate, scope_for_session,
}
use open_webui_memorist_edit.Consolidation.Writes.{DrawsFresh, IsUndecided, decision_of, changed}
use open_webui_memorist_edit.Consolidation.Sound.{IsCurrent, IsSound}
use open_webui_memorist_edit.Consolidation.Records.{IsReady-of}
use open_webui_memorist_edit.Consolidation.Paths.{
  next_version, superseded, close_at, create_version_lem,
}
use open_webui_memorist_edit.Consolidation.Store.{is_projection, operation_value}
use open_webui_memorist_edit.Consolidation.Writes.{IsReady, outbox_after}
use open_webui_memorist_edit.Consolidation.Invariant.{IsRecorded-later}
use open_webui_memorist_edit.Consolidation.Effect.{consolidated_in, own_uuid}

ok_store :
    {d d' : Decision} {s s' : Store} → ◌≡◌ {A = Outcome Decision} (ok d s) (ok d' s') → s ≡ s'
ok_store h = cc

module _ (env : Environment) (fresh : DrawsFresh env) where
  unheard :
      (n : ℕ) (mid vid : String) (op : ConsolidationOperation) (t : List OutboxItem)
      (o : OutboxItem)
      → op ≡ ConsolidationOperation.supersede
      → find_row (is_projection mid "SUPERSEDE") t ≡ some o
      → outbox_after env fresh n mid vid
          (operation_value op)
          t
          (find_row (is_projection mid (operation_value op)) t)
        ≡ t
  unheard n mid vid op t o e h =
      subst
        (λ (p : ConsolidationOperation).
          outbox_after env fresh n mid vid (operation_value p) t
            (find_row (is_projection mid (operation_value p)) t)
          ≡ t)
        (sym e) (rw h)

  -- A candidate supersedes the current version of a memory whose outbox row for SUPERSEDE is there
  -- already, whatever the status of that row: a version is added, and the outbox stays as it is.
  pub supersedes_unheard :
      (uuid : String) (c : MemoryCandidate) (t : Session) (e : CandidateEvidence)
      (es : List CandidateEvidence) (m : Memory) (v : MemoryVersion) (o : OutboxItem) (s s' : Store)
      (d : Decision)
      → IsSound env s
      → IsUndecided uuid s
      → find_row (is_candidate uuid) s.candidates ≡ some c
      → filter_if (supports c.candidate_uuid) s.evidence ≡ e ∷ es
      → session_for_candidate c s ≡ some t
      → find_by_canonical_key
          (scope_for_session t).0
          (scope_for_session t).1
          (canonical_key_for_candidate env.lower c)
          s
        ≡ some m
      → current_version (some m) s ≡ some v
      → (resolve c (some v)).operation ≡ ConsolidationOperation.supersede
      → find_row (is_projection m.memory_uuid "SUPERSEDE") s.outbox ≡ some o
      → consolidate_candidate env uuid s ≡ ok d s'
      → (s'.outbox ≡ s.outbox) × (length s'.versions ≡ suc (length s.versions))
  unfolding apply_resolution change_memory
  supersedes_unheard uuid c t e es m v o s s' d h u found own at place now op heard called =
      let u' = subst (λ i. IsUndecided i s) (sym (own_uuid env fresh uuid c s found)) u in
      let p =
        in_place (scope_for_session t).0 (scope_for_session t).1
          (canonical_key_for_candidate env.lower c) in
      let k = (All-find (IsCurrent s.versions) p s.memories m h.stored.current place).0 in
      let current : version_named m.current_version_uuid s ≡ some k.version =
        subst (λ i. version_named i s ≡ some k.version) (sym k.named) k.found in
      let same : v ≡ k.version = let both : some v ≡ some k.version = sym now ∙ current in cc in
      let op' : (resolve c (some k.version)).operation ≡ ConsolidationOperation.supersede =
        subst
          (λ (x : MemoryVersion). (resolve c (some x)).operation ≡ ConsolidationOperation.supersede)
          same op in
      let r = resolve c (some k.version) in
      let s1 = superseded env c m.memory_uuid k.current k.version r.operation s in
      let ready =
        subst (λ l. IsReady env fresh c.candidate_uuid l s1) own
          (IsReady-of env fresh c.candidate_uuid s1 u' (
            IsRecorded-later env s s1.memories s1.versions s1.drawn s1.readings (omega arith)
              h.recorded)) in
      let written =
        create_version_lem env fresh c (e ∷ es) m k.current k.version r s h.stored.old_versions
          h.sourced (All-imp s.versions (λ w q of_m. (q of_m).0) k.others) k.named
          (ap is_supersede op') ready in
      let leaves : leaves_memories r.operation ≡ false = ap leaves_memories op' in
      let no_reinforce : is_reinforce r.operation ≡ false = ap is_reinforce op' in
      let no_contradict : is_contradict r.operation ≡ false = ap is_contradict op' in
      let after =
        changed env fresh m.memory_uuid (env.new_uuid s.drawn) c.candidate_uuid r.reason_codes
          r.operation (e ∷ es) s1 in
      let reached : consolidate_candidate env uuid s
          ≡ ok
              (decision_of env fresh (suc s.drawn) c.candidate_uuid r.operation r.reason_codes
                (some m.memory_uuid) (some (env.new_uuid s.drawn)))
              after =
        consolidated_in env fresh uuid c t e es s u found own at
        ∙ simp place (simp (current) (simp (leaves, no_reinforce, no_contradict) written)) in
      let end : after ≡ s' = ok_store (sym reached ∙ called) in
      let no_row : after.outbox ≡ s.outbox =
        unheard _ m.memory_uuid (env.new_uuid s.drawn) r.operation s.outbox o op' heard in
      let closed =
        update_rows (is_version k.current) (close_at env (env.utc_now (suc s.readings)))
          s.versions in
      let more : length after.versions ≡ suc (length s.versions) =
        length-insert (next_version env c m.memory_uuid k.version r.operation s) closed
        ∙ ap suc (
            length-update (is_version k.current) (close_at env (env.utc_now (suc s.readings)))
              s.versions) in
      subst (λ (x : Store). (x.outbox ≡ s.outbox) × (length x.versions ≡ suc (length s.versions)))
        end (no_row, more)
