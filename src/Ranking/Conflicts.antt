-- ===== src/Ranking/Conflicts.antt =====
-- What the ranking hears of the conflicts that consolidation records.
use open_webui_memorist_edit.Prelude.{
  ℕ, zero, suc, ◌≡◌, ◌≢◌, refl, inl, inr, false, some, List, [], ◌∷◌, map, String, any, take, All,
  All-filter_if, filter_if, count_if, arith, Bool-cases,
}
use open_webui_memorist_edit.Prelude.Int.{pos}
use open_webui_memorist_edit.Prelude.Sorting.{sort_by, sort_by-All}
use open_webui_memorist_edit.Consolidation.Store.{Environment, Decision, Store}
use open_webui_memorist_edit.Consolidation.Consolidator.{is_contradict}
use open_webui_memorist_edit.Consolidation.Outbox.{StoreCall, run_store_calls}
use open_webui_memorist_edit.Consolidation.Writes.{DrawsFresh}
use open_webui_memorist_edit.Consolidation.Sound.{IsUntargeted, IsSound}
use open_webui_memorist_edit.Consolidation.Runs.{run_store_calls-IsKept}
use open_webui_memorist_edit.Ranking.{
  ScoredMemoryItem, Items, is_unresolved, has_conflict, conflict_penalty, Draft, score,
  scores_first, reaches, select_eligible, rank, unresolved_conflict_affects_answer,
}

untargeted-has_conflict :
    (memory_uuid : String) (d : Decision) → IsUntargeted d → has_conflict memory_uuid d ≡ false
untargeted-has_conflict memory_uuid d h = elim (Bool-cases (is_contradict d.operation)) [
  | inl e ↦ let t = h e in simp (e, t) refl
  | inr e ↦ simp e refl
]

no_conflicts :
    (memory_uuid : String) (t : List Decision)
    → All IsUntargeted t
    → count_if (has_conflict memory_uuid) t ≡ 0
no_conflicts memory_uuid [] h = refl
no_conflicts memory_uuid (d ∷ t) h =
    rw (untargeted-has_conflict memory_uuid d h.0) (omega (arith, no_conflicts memory_uuid t h.1))

no_penalty :
    (memory_uuid : String) (s : Store)
    → All IsUntargeted s.decisions
    → conflict_penalty s memory_uuid ≡ 0
unfolding conflict_penalty
no_penalty memory_uuid s h = rw (no_conflicts memory_uuid s.decisions h)

abbrev IsCalm : ScoredMemoryItem → Type 0
IsCalm i = is_unresolved i.conflict_status ≡ false

scores-IsCalm :
    (s : Store) (drafts : List Draft)
    → All IsUntargeted s.decisions
    → All IsCalm (map (score s) drafts)
unfolding score
scores-IsCalm s [] h = tt
scores-IsCalm s (r ∷ drafts) h =
    let z = no_penalty r.memory_uuid s h in (simp z refl, scores-IsCalm s drafts h)

calm-any :
    (n : ℕ) (items : Items)
    → All IsCalm items
    → any (λ (x : ScoredMemoryItem). is_unresolved x.conflict_status) (take n items) ≡ false
calm-any zero items h = refl
calm-any (suc n) [] h = refl
calm-any (suc n) (i ∷ items) h = rw h.0 (calm-any n items h.1)

calm-select :
    (lower : List ℕ → List ℕ) (items : Items) (limit : ℕ)
    → All IsCalm items
    → (select_eligible lower items limit).abstention_reason
      ≢ some unresolved_conflict_affects_answer
calm-select lower [] limit h k = cc
calm-select lower (i ∷ items) limit h k =
    let z = calm-any 2 (i ∷ items) h in let k' = simp z at k in cc

module _ (env : Environment) (fresh : DrawsFresh env) where
  -- Whatever calls the tables of memories get, if they are sound and identifiers do not repeat: the
  -- conflict penalty of every memory is 0 afterwards, and a ranking never abstains because of a
  -- conflict.
  pub conflicts_unheard :
      (lower : List ℕ → List ℕ) (calls : List StoreCall) (s : Store) (drafts : List Draft)
      → IsSound env s
      → ((memory_uuid : String) → conflict_penalty (run_store_calls env calls s) memory_uuid ≡ 0)
        × ((rank lower (run_store_calls env calls s) drafts).abstention_reason
            ≢ some unresolved_conflict_affects_answer)
  unfolding rank
  conflicts_unheard lower calls s drafts h =
      let after = run_store_calls env calls s in
      let untargeted = (run_store_calls-IsKept env fresh calls s h).sound.recorded.untargeted in
      let items = sort_by scores_first (map (score after) drafts) in
      (
        (λ memory_uuid. no_penalty memory_uuid after untargeted),
        calm-select lower (filter_if (reaches (pos 180000)) items) 8 (
            All-filter_if IsCalm (reaches (pos 180000)) items (
              sort_by-All scores_first IsCalm (map (score after) drafts)
                (scores-IsCalm after drafts untargeted))),
      )
