-- ===== src/Consolidation/Effect.antt =====
-- What the tables say about a matter after a candidate about it is consolidated.
use mathlib.Core.Path.{subst}
use open_webui_memorist_edit.Prelude.{
  ℕ, suc, ◌≤◌, ◌≡◌, refl, sym, ap, ◌∙◌, ◌⊎◌, inl, inr, Bool, true, false, Option, none, some, List,
  ◌∷◌, String, str_eq, eq_iff, All-imp, filter_if, arith, Bool-cases, if◌then◌else◌,
}
use open_webui_memorist_edit.Prelude.Rows.{
  find_row, update_rows, none_of_All, find-update, find_hit, All-update, All-find,
}
use open_webui_memorist_edit.Consolidation.{
  ConsolidationOperation, MemoryCandidate, MemoryVersion, resolve,
}
use open_webui_memorist_edit.Consolidation.Keys.{canonical_key_for_candidate}
use open_webui_memorist_edit.Consolidation.Store.{
  Environment, ScopeType, Memory, Decision, CandidateEvidence, Session, Store, Outcome, ok,
  in_place, is_memory, is_version, record_decision_only, record_reinforcement,
  find_by_canonical_key,
}
use open_webui_memorist_edit.Consolidation.Consolidator.{
  supports, is_candidate, is_contradict, is_reinforce, is_supersede, leaves_memories,
  session_for_candidate, version_named, change_memory, apply_resolution, consolidate_in,
  consolidate_candidate, scope_for_session,
}
use open_webui_memorist_edit.Consolidation.Writes.{
  DrawsFresh, IsUndecided, record_decision_lem, record_change_lem,
}
use open_webui_memorist_edit.Consolidation.Sound.{IsCurrent, IsStored, IsSound}
use open_webui_memorist_edit.Consolidation.Records.{IsReady-of}
use open_webui_memorist_edit.Consolidation.Paths.{
  added, superseded, close_at, create_memory_lem, create_version_lem,
}
use open_webui_memorist_edit.Prelude.Texts.{same_codes_refl}
use open_webui_memorist_edit.Coverage.Contracts.{Polarity}
use open_webui_memorist_edit.Consolidation.{
  is_rejected, is_for_review, asks_to_forget, polarities_contradict,
}
use open_webui_memorist_edit.Consolidation.Store.{same_scope_type, or_empty}
use open_webui_memorist_edit.Consolidation.Writes.{IsOld, IsReady, fresh_rows}
use open_webui_memorist_edit.Consolidation.Paths.{memory_of, first_version, next_version}
use open_webui_memorist_edit.Consolidation.Invariant.{Ends, IsRecorded-later}
use open_webui_memorist_edit.Consolidation.Calls.{resolve-some, All-unit}

-- A claim: what is said, and whether it is affirmed or negated.
abbrev pub Claim : Type 0
Claim = String × Polarity

abbrev pub claim_of : Option MemoryVersion → Option Claim
claim_of none = none
claim_of (some v) = some (v.normalized_text, v.polarity)

abbrev pub claim_named : List MemoryVersion → Option String → Option Claim
claim_named versions none = none
claim_named versions (some uuid) = claim_of (find_row (is_version uuid) versions)

abbrev pub claim_in : List MemoryVersion → Option Memory → Option Claim
claim_in versions none = none
claim_in versions (some m) = claim_named versions m.current_version_uuid

-- The claim that holds now in a place: that of the current version of the memory there.
abbrev pub claim_at : ScopeType → Option String → List ℕ → Store → Option Claim
claim_at scope_type scope_uuid key s =
    claim_in s.versions (find_by_canonical_key scope_type scope_uuid key s)

-- What a candidate makes of the claim: it stands where there is none, and takes the place of one that
-- says something else and is not its negation; a candidate that is rejected, up for review or a request to
-- forget changes nothing.
abbrev replaces : MemoryCandidate → Option Claim → Bool
replaces c none = true
replaces c (some (t, p)) =
    if str_eq t c.normalized_text
    then false
    else if polarities_contradict p c.polarity
    then false
    else true

abbrev pub revise : MemoryCandidate → Option Claim → Option Claim
revise c old =
    if is_rejected c.status
    then old
    else if is_for_review c.status
    then old
    else if asks_to_forget c.predicate
    then old
    else if replaces c old
    then some (c.normalized_text, c.polarity)
    else old

revise_left :
    (c : MemoryCandidate) (v : Option MemoryVersion)
    → leaves_memories (resolve c v).operation ≡ true
    → revise c (claim_of v) ≡ claim_of v
unfolding resolve
revise_left c none h = ground arith
revise_left c (some v) h = ground arith

revise_added :
    (c : MemoryCandidate)
    → leaves_memories (resolve c none).operation ≡ false
    → revise c none ≡ some (c.normalized_text, c.polarity)
unfolding resolve
revise_added c h = ground arith

revise_kept :
    (c : MemoryCandidate) (v : MemoryVersion)
    → is_reinforce (resolve c (some v)).operation ≡ true
      ⊎ (is_contradict (resolve c (some v)).operation ≡ true)
    → revise c (claim_of (some v)) ≡ claim_of (some v)
unfolding resolve
revise_kept c v (inl h) = ground arith
revise_kept c v (inr h) = ground arith

revise_superseded :
    (c : MemoryCandidate) (v : MemoryVersion)
    → (resolve c (some v)).operation ≡ ConsolidationOperation.supersede
    → revise c (claim_of (some v)) ≡ some (c.normalized_text, c.polarity)
unfolding resolve
revise_superseded c v h = ground arith

same_scope_refl : (t : ScopeType) → same_scope_type t t ≡ true
same_scope_refl ScopeType.project = refl
same_scope_refl ScopeType.workspace = refl
same_scope_refl ScopeType.session = refl

module _ (env : Environment) (fresh : DrawsFresh env) where
  added_claim :
      (c : MemoryCandidate) (scope : ScopeType × Option String) (op : ConsolidationOperation)
      (s : Store)
      → IsStored env s
      → find_row (in_place scope.0 scope.1 (canonical_key_for_candidate env.lower c)) s.memories
        ≡ none
      → claim_at scope.0 scope.1 (canonical_key_for_candidate env.lower c) (added env c scope op s)
        ≡ some (c.normalized_text, c.polarity)
  added_claim c scope op s h place =
      let key = canonical_key_for_candidate env.lower c in
      let v = first_version env c op s in
      let m = memory_of env c scope (env.new_uuid s.drawn) (some v.memory_version_uuid) in
      let here : in_place scope.0 scope.1 key m ≡ true = rw (
        same_scope_refl scope.0,
        (eq_iff (or_empty scope.1) (or_empty scope.1)).1 refl,
        same_codes_refl key,
      ) in
      let memory = find_hit (in_place scope.0 scope.1 key) m s.memories place here in
      let version =
        find_hit (is_version v.memory_version_uuid) v s.versions
          (none_of_All (is_version v.memory_version_uuid) s.versions (
            fresh_rows env fresh (λ (x : MemoryVersion). x.memory_version_uuid) s.drawn
              (suc s.drawn) s.versions (omega arith) h.old_versions))
          ((eq_iff v.memory_version_uuid v.memory_version_uuid).1 refl) in
      rw memory (rw version)

  superseded_claim :
      (c : MemoryCandidate) (scope : ScopeType × Option String) (key : List ℕ) (m : Memory)
      (op : ConsolidationOperation) (s : Store) (k : IsCurrent s.versions m)
      → IsStored env s
      → find_row (in_place scope.0 scope.1 key) s.memories ≡ some m
      → claim_at scope.0 scope.1 key (superseded env c m.memory_uuid k.current k.version op s)
        ≡ some (c.normalized_text, c.polarity)
  superseded_claim c scope key m op s k h place =
      let new = next_version env c m.memory_uuid k.version op s in
      let close = close_at env (env.utc_now (suc s.readings)) in
      let closed = update_rows (is_version k.current) close s.versions in
      let replace : Memory → Memory =
        λ m. record m { current_version_uuid = some new.memory_version_uuid } in
      let memory : find_row (in_place scope.0 scope.1 key)
            (update_rows (is_memory m.memory_uuid) replace s.memories)
          ≡ some (replace m) =
        rw ((eq_iff m.memory_uuid m.memory_uuid).1 refl) at (
          find-update (in_place scope.0 scope.1 key) (is_memory m.memory_uuid) replace s.memories
            (λ r. refl) m place) in
      let version =
        find_hit (is_version new.memory_version_uuid) new closed
          (none_of_All (is_version new.memory_version_uuid) closed (
            fresh_rows env fresh (λ (x : MemoryVersion). x.memory_version_uuid) s.drawn s.drawn
              closed (omega arith)
              (All-update (λ (w : MemoryVersion). IsOld env s.drawn w.memory_version_uuid)
                (is_version k.current) close s.versions (λ w i _. i) h.old_versions)))
          ((eq_iff new.memory_version_uuid new.memory_version_uuid).1 refl) in
      rw memory (rw version)

  module _ (c : MemoryCandidate) (e : CandidateEvidence) (es : List CandidateEvidence) (s : Store)
      (h : IsSound env s) (u : IsUndecided c.candidate_uuid s)
      (own : filter_if (supports c.candidate_uuid) s.evidence ≡ e ∷ es)
      (scope : ScopeType × Option String) where
    abbrev Revises : Outcome Decision → Type 0
    Revises =
        Ends
          (λ d s'.
            claim_at scope.0 scope.1 (canonical_key_for_candidate env.lower c) s'
            ≡ revise c (claim_at scope.0 scope.1 (canonical_key_for_candidate env.lower c) s))
          (λ _. Unit {0})

    only-Revises :
        (op : ConsolidationOperation) (codes : List String)
        → revise c (claim_at scope.0 scope.1 (canonical_key_for_candidate env.lower c) s)
          ≡ claim_at scope.0 scope.1 (canonical_key_for_candidate env.lower c) s
        → Revises (record_decision_only env c.candidate_uuid op codes s)
    unfolding record_decision_only
    only-Revises op codes same =
        subst Revises
          (sym (
            record_decision_lem env fresh c.candidate_uuid op codes none none s u
              h.recorded.old_decisions))
          (sym same)

    IsReady-in :
        (memories : List Memory) (versions : List MemoryVersion) (n readings : ℕ)
        → s.drawn ≤ n
        → IsReady env fresh c.candidate_uuid
            (e ∷ es)
            (record s { memories = memories; versions = versions; drawn = n; readings = readings })
    IsReady-in memories versions n readings more =
        let s1 : Store = record s {
          memories = memories;
          versions = versions;
          drawn = n;
          readings = readings;
        } in
        subst (λ l. IsReady env fresh c.candidate_uuid l s1) own
          (IsReady-of env fresh c.candidate_uuid s1 u
            (IsRecorded-later env s memories versions n readings more h.recorded))

    change-Revises :
        (m : Memory) (k : IsCurrent s.versions m)
        → find_row (in_place scope.0 scope.1 (canonical_key_for_candidate env.lower c)) s.memories
          ≡ some m
        → claim_at scope.0 scope.1 (canonical_key_for_candidate env.lower c) s
          ≡ claim_of (some k.version)
        → leaves_memories (resolve c (some k.version)).operation ≡ false
        → Revises (change_memory env c (e ∷ es) m (some k.version) (resolve c (some k.version)) s)
    unfolding change_memory record_reinforcement
    change-Revises m k place now l =
        let r = resolve c (some k.version) in
        elim (Bool-cases (is_reinforce r.operation)) [
          | inl reinforce ↦ simp reinforce (
              subst Revises
                (sym (
                  record_change_lem env fresh m.memory_uuid k.version.memory_version_uuid
                    c.candidate_uuid r.reason_codes ConsolidationOperation.reinforce (e ∷ es) s
                    (IsReady-in s.memories s.versions s.drawn s.readings (omega arith))))
                (now ∙ sym (revise_kept c k.version (inl reinforce)) ∙ ap (revise c) (sym now)))
          | inr no_reinforce ↦ elim (Bool-cases (is_contradict r.operation)) [
            | inl contradict ↦
                simp (no_reinforce, contradict)
                  (only-Revises ConsolidationOperation.contradict r.reason_codes
                    (ap (revise c) now ∙ revise_kept c k.version (inr contradict) ∙ sym now))
            | inr no_contradict ↦
                let op = resolve-some c k.version l no_reinforce no_contradict in
                let s1 = superseded env c m.memory_uuid k.current k.version r.operation s in
                let written =
                  create_version_lem env fresh c (e ∷ es) m k.current k.version r s
                    h.stored.old_versions h.sourced
                    (All-imp s.versions (λ w p of_m. (p of_m).0) k.others) k.named
                    (ap is_supersede op)
                    (IsReady-in s1.memories s1.versions s1.drawn s1.readings (omega arith)) in
                simp (no_reinforce, no_contradict)
                  (subst Revises (sym written) (
                    superseded_claim c scope (canonical_key_for_candidate env.lower c) m r.operation
                      s k h.stored place
                    ∙ sym (revise_superseded c k.version op)
                    ∙ ap (revise c) (sym now)))
          ]
        ]

    in-Revises :
        (o : Option Memory)
        → find_row (in_place scope.0 scope.1 (canonical_key_for_candidate env.lower c)) s.memories
          ≡ o
        → Revises (consolidate_in env c (e ∷ es) scope o s)
    unfolding apply_resolution
    in-Revises none place =
        let r = resolve c none in
        let nothing : claim_at scope.0 scope.1 (canonical_key_for_candidate env.lower c) s ≡ none =
          rw place in
        elim (Bool-cases (leaves_memories r.operation)) [
          | inl leaves ↦ simp leaves (
              only-Revises r.operation r.reason_codes
                (ap (revise c) nothing ∙ revise_left c none leaves ∙ sym nothing))
          | inr changes ↦
              let s1 = added env c scope r.operation s in
              let written =
                create_memory_lem env fresh c (e ∷ es) scope r s h.stored.old_memories
                  h.stored.old_versions h.stored.old_owners place h.sourced
                  (IsReady-in s1.memories s1.versions s1.drawn s1.readings (omega arith)) in
              simp changes (
                subst Revises (sym written) (
                  added_claim c scope r.operation s h.stored place
                  ∙ sym (revise_added c changes)
                  ∙ ap (revise c) (sym nothing)))
        ]
    in-Revises (some m) place =
        let p = in_place scope.0 scope.1 (canonical_key_for_candidate env.lower c) in
        let k = (All-find (IsCurrent s.versions) p s.memories m h.stored.current place).0 in
        let now : version_named m.current_version_uuid s ≡ some k.version =
          subst (λ i. version_named i s ≡ some k.version) (sym k.named) k.found in
        let claim : claim_at scope.0 scope.1 (canonical_key_for_candidate env.lower c) s
            ≡ claim_of (some k.version) =
          simp (place, k.named, k.found) refl in
        let r = resolve c (some k.version) in
        elim (Bool-cases (leaves_memories r.operation)) [
          | inl leaves ↦
              simp (now, leaves)
                (only-Revises r.operation r.reason_codes
                  (ap (revise c) claim ∙ revise_left c (some k.version) leaves ∙ sym claim))
          | inr changes ↦ simp (now, changes) (change-Revises m k place claim changes)
        ]

  -- The tables that are written when the candidate, its evidence and its session are found.
  pub consolidated_in :
      (uuid : String) (c : MemoryCandidate) (t : Session) (e : CandidateEvidence)
      (es : List CandidateEvidence) (s : Store)
      → IsUndecided uuid s
      → find_row (is_candidate uuid) s.candidates ≡ some c
      → filter_if (supports c.candidate_uuid) s.evidence ≡ e ∷ es
      → session_for_candidate c s ≡ some t
      → consolidate_candidate env uuid s
        ≡ consolidate_in env c
            (e ∷ es)
            (scope_for_session t)
            (find_by_canonical_key
              (scope_for_session t).0
              (scope_for_session t).1
              (canonical_key_for_candidate env.lower c)
              s)
            s
  unfolding consolidate_candidate
  consolidated_in uuid c t e es s u found own at = simp u (simp found (simp own (simp at refl)))

  pub own_uuid :
      (uuid : String) (c : MemoryCandidate) (s : Store)
      → find_row (is_candidate uuid) s.candidates ≡ some c
      → c.candidate_uuid ≡ uuid
  own_uuid uuid c s found =
      (eq_iff c.candidate_uuid uuid).0
        (All-find (λ _. Unit {0}) (is_candidate uuid) s.candidates c (All-unit s.candidates)
          found).1

  -- A first call for a candidate that has evidence and a session, on sound tables: the claim that
  -- then holds for its key in its scope is what the candidate makes of the claim that held before.
  pub consolidate_candidate-revise :
      (uuid : String) (c : MemoryCandidate) (t : Session) (e : CandidateEvidence)
      (es : List CandidateEvidence) (s s' : Store) (d : Decision)
      → IsSound env s
      → IsUndecided uuid s
      → find_row (is_candidate uuid) s.candidates ≡ some c
      → filter_if (supports c.candidate_uuid) s.evidence ≡ e ∷ es
      → session_for_candidate c s ≡ some t
      → consolidate_candidate env uuid s ≡ ok d s'
      → claim_at
          (scope_for_session t).0
          (scope_for_session t).1
          (canonical_key_for_candidate env.lower c)
          s'
        ≡ revise c (
            claim_at
              (scope_for_session t).0
              (scope_for_session t).1
              (canonical_key_for_candidate env.lower c)
              s)
  consolidate_candidate-revise uuid c t e es s s' d h u found own at called =
      let u' = subst (λ i. IsUndecided i s) (sym (own_uuid uuid c s found)) u in
      let all = in-Revises c e es s h u' own (scope_for_session t) _ refl in
      subst (Revises c e es s h u' own (scope_for_session t))
        (sym (consolidated_in uuid c t e es s u found own at) ∙ called) all
