-- ===== src/Consolidation/Calls.antt =====
-- The calls of the consolidator, on all their branches.
use mathlib.Core.Path.{subst}
use mathlib.Core.List.{append-nil}
use open_webui_memorist_edit.Prelude.{
  ◌≡◌, refl, sym, inl, inr, false, Option, none, some, List, [], ◌∷◌, String, eq_iff, All,
  filter_if, arith, Bool-cases, Option-cases,
}
use open_webui_memorist_edit.Prelude.Rows.{find_row, All-find}
use open_webui_memorist_edit.Consolidation.{
  ConsolidationOperation, MemoryCandidate, MemoryVersion, resolve,
}
use open_webui_memorist_edit.Consolidation.Keys.{canonical_key_for_candidate}
use open_webui_memorist_edit.Consolidation.Store.{
  Environment, ScopeType, Memory, CandidateEvidence, Store, in_place, get_consolidation_decision,
}
use open_webui_memorist_edit.Consolidation.Consolidator.{
  supports, is_candidate, is_contradict, is_reinforce, leaves_memories, session_for_candidate,
  version_named, change_memory, apply_resolution, consolidate_in, consolidate_supported,
  consolidate_found, consolidate_candidate, scope_for_session,
}
use open_webui_memorist_edit.Consolidation.Writes.{DrawsFresh, IsUndecided}
use open_webui_memorist_edit.Consolidation.Sound.{IsCurrent, IsSound}
use open_webui_memorist_edit.Consolidation.Growth.{Grown, Grown-append}
use open_webui_memorist_edit.Consolidation.Writes.{IsOld}
use open_webui_memorist_edit.Consolidation.Invariant.{
  Ends, Explains, IsConsolidated, decision_only-Ends,
}
use open_webui_memorist_edit.Consolidation.Branches.{
  EndsWell, create-Ends, reinforce-Ends, supersede-Ends,
}

-- Without a version, what does not leave the memories alone is an addition.
pub resolve-none :
    (c : MemoryCandidate)
    → leaves_memories (resolve c none).operation ≡ false
    → (resolve c none).operation ≡ ConsolidationOperation.add
unfolding resolve
resolve-none c h = ground arith

-- And with one, what neither does that nor reinforces nor contradicts it supersedes it.
pub resolve-some :
    (c : MemoryCandidate) (v : MemoryVersion)
    → leaves_memories (resolve c (some v)).operation ≡ false
    → is_reinforce (resolve c (some v)).operation ≡ false
    → is_contradict (resolve c (some v)).operation ≡ false
    → (resolve c (some v)).operation ≡ ConsolidationOperation.supersede
unfolding resolve
resolve-some c v h k l = ground arith

pub All-unit : (t : List MemoryCandidate) → All (λ (_ : MemoryCandidate). Unit {0}) t
All-unit [] = tt
All-unit (c ∷ t) = (tt, All-unit t)

module _ (env : Environment) (fresh : DrawsFresh env) where
  module _ (uuid : String) (c : MemoryCandidate) (e : CandidateEvidence)
      (es : List CandidateEvidence) (s : Store) (h : IsSound env s)
      (u : IsUndecided c.candidate_uuid s)
      (own : filter_if (supports c.candidate_uuid) s.evidence ≡ e ∷ es) where
    change_memory-Ends :
        (m : Memory) (k : IsCurrent s.versions m)
        → IsOld env s.drawn m.memory_uuid
        → leaves_memories (resolve c (some k.version)).operation ≡ false
        → EndsWell env fresh uuid c e es s h u own
            (change_memory env c (e ∷ es) m (some k.version) (resolve c (some k.version)) s)
    unfolding change_memory
    change_memory-Ends m k old l =
        let r = resolve c (some k.version) in
        elim (Bool-cases (is_reinforce r.operation)) [
          | inl reinforce ↦
              simp reinforce
                (reinforce-Ends env fresh uuid c e es s h u own m k.version r.reason_codes)
          | inr no_reinforce ↦ elim (Bool-cases (is_contradict r.operation)) [
            | inl contradict ↦
                simp (no_reinforce, contradict)
                  (decision_only-Ends env fresh uuid c.candidate_uuid
                    ConsolidationOperation.contradict r.reason_codes s h u)
            | inr no_contradict ↦
                simp (no_reinforce, no_contradict)
                  (supersede-Ends env fresh uuid c e es s h u own m k r old
                    (resolve-some c k.version l no_reinforce no_contradict))
          ]
        ]

    in-Ends :
        (scope : ScopeType × Option String) (o : Option Memory)
        → find_row (in_place scope.0 scope.1 (canonical_key_for_candidate env.lower c)) s.memories
          ≡ o
        → EndsWell env fresh uuid c e es s h u own (consolidate_in env c (e ∷ es) scope o s)
    unfolding apply_resolution
    in-Ends scope none place =
        let r = resolve c none in
        elim (Bool-cases (leaves_memories r.operation)) [
          | inl leaves ↦
              simp leaves (
                decision_only-Ends env fresh uuid c.candidate_uuid r.operation r.reason_codes s h u)
          | inr changes ↦
              simp changes
                (create-Ends env fresh uuid c e es s h u own scope r place (resolve-none c changes))
        ]
    in-Ends scope (some m) place =
        let p = in_place scope.0 scope.1 (canonical_key_for_candidate env.lower c) in
        let k = (All-find (IsCurrent s.versions) p s.memories m h.stored.current place).0 in
        let old =
          (All-find (λ (x : Memory). IsOld env s.drawn x.memory_uuid) p s.memories m
            h.stored.old_memories place).0 in
        let now : version_named m.current_version_uuid s ≡ some k.version =
          subst (λ i. version_named i s ≡ some k.version) (sym k.named) k.found in
        let r = resolve c (some k.version) in
        elim (Bool-cases (leaves_memories r.operation)) [
          | inl leaves ↦
              simp (now, leaves)
                (decision_only-Ends env fresh uuid c.candidate_uuid r.operation r.reason_codes s h
                  u)
          | inr changes ↦ simp (now, changes) (change_memory-Ends m k old changes)
        ]

  supported-Ends :
      (uuid : String) (c : MemoryCandidate) (es : List CandidateEvidence) (s : Store)
      → IsSound env s
      → IsUndecided c.candidate_uuid s
      → find_row (is_candidate uuid) s.candidates ≡ some c
      → filter_if (supports c.candidate_uuid) s.evidence ≡ es
      → Ends
          (IsConsolidated env c.candidate_uuid s)
          (Explains uuid s)
          (consolidate_supported env c es s)
  supported-Ends uuid c [] s h u found own =
      decision_only-Ends env fresh uuid c.candidate_uuid ConsolidationOperation.reject
        ("missing_evidence" ∷ []) s h u
  supported-Ends uuid c (e ∷ es) s h u found own = elim (Option-cases (session_for_candidate c s)) [
    | inl missing ↦ simp missing (c, found, missing)
    | inr (t, at) ↦ simp at (in-Ends uuid c e es s h u own (scope_for_session t) _ refl)
  ]

  found-Ends :
      (uuid : String) (o : Option MemoryCandidate) (s : Store)
      → IsSound env s
      → IsUndecided uuid s
      → find_row (is_candidate uuid) s.candidates ≡ o
      → Ends (IsConsolidated env uuid s) (Explains uuid s) (consolidate_found env o s)
  found-Ends uuid none s h u found = found
  found-Ends uuid (some c) s h u found =
      let named =
        (eq_iff c.candidate_uuid uuid).0
          (All-find (λ _. Unit {0}) (is_candidate uuid) s.candidates c (All-unit s.candidates)
            found).1 in
      subst
        (λ i.
          Ends (IsConsolidated env i s) (Explains uuid s)
            (consolidate_supported env c (filter_if (supports c.candidate_uuid) s.evidence) s))
        named
        (supported-Ends uuid c (filter_if (supports c.candidate_uuid) s.evidence) s h
          (subst (λ i. IsUndecided i s) (sym named) u) found refl)

  -- A call on sound tables, with identifiers that do not repeat, ends in one of three ways. It gives
  -- the candidate's decision, which is then in the table; the tables are sound again, each earlier
  -- decision is still found, as is the outbox row of each projection, and each version is still there
  -- with nothing but its closing time changed. Or it raises because there is no such candidate, or
  -- because its session is missing. No index ever refuses a write.
  pub consolidate_candidate-Ends :
      (uuid : String) (s : Store)
      → IsSound env s
      → Ends (IsConsolidated env uuid s) (Explains uuid s) (consolidate_candidate env uuid s)
  unfolding consolidate_candidate
  consolidate_candidate-Ends uuid s h = elim (Option-cases (get_consolidation_decision uuid s)) [
    | inl u ↦ simp u (found-Ends uuid (find_row (is_candidate uuid) s.candidates) s h u refl)
    | inr (d, at) ↦ simp at (record {
      sound = h;
      answer = at;
      kept = λ c x k. k;
      heard = λ m operation o k. k;
      grown = subst (Grown s.versions) (append-nil s.versions) (Grown-append s.versions []);
    })
  ]
