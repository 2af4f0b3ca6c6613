-- ===== src/Ranking.antt =====
-- The selection of memories for an answer (memorist-core/src/memcore/retrieval/ranking: selection.py,
-- diversity.py, reranker.py, conflicts.py, and the use of them in scorer.py and retrieval/runner.py).
-- A score is an integer of millionths: scorer.py rounds it to six places.
pub mod Selection
pub mod Conflicts
pub mod Tests
use open_webui_memorist_edit.Prelude.{
  ℕ, zero, suc, ◌+◌, Bool, true, false, not, ◌&&◌, ◌||◌, Option, none, some, List, [], ◌∷◌, ◌++◌,
  map, String, str_eq, ltb, leb, ◌==◌, if◌then◌else◌, any, all, contains, count_if, filter_if, take,
}
use open_webui_memorist_edit.Prelude.Int.{ℤ, pos, ltb_ℤ}
use open_webui_memorist_edit.Prelude.Sorting.{sort_by}
use open_webui_memorist_edit.Prelude.Texts.{codes, same_codes}
use open_webui_memorist_edit.Consolidation.Consolidator.{is_contradict}
use open_webui_memorist_edit.Consolidation.Store.{Decision, Store, sql_eq}

pub data ConflictStatus : Type 0 where
  no_conflict unresolved : ConflictStatus

pub record ScoredMemoryItem : Type 0 where
  pub memory_uuid : String
  pub memory_version_uuid : String
  pub memory_type : String
  pub scope_type : String
  pub normalized_text : String
  pub conflict_status : ConflictStatus
  pub final_score : ℤ

abbrev pub Items : Type 0
Items = List ScoredMemoryItem

-- The key under which diversify counts an item as seen; `lower` is str.lower.
abbrev pub diversity_key : (List ℕ → List ℕ) → ScoredMemoryItem → List ℕ
diversity_key lower i =
    codes i.memory_type ++ b':' ∷ (codes i.scope_type ++ b':' ∷ lower (codes i.normalized_text))

abbrev pub is_seen : List ℕ → List (List ℕ) → Bool
is_seen key [] = false
is_seen key (k ∷ seen) = same_codes k key || is_seen key seen

abbrev pub may_repeat : String → Bool
may_repeat memory_type = str_eq memory_type "constraint" || str_eq memory_type "decision"

-- The loop of diversify, with the keys that were seen and the number of items selected.
unfoldable pub diversify_from : (List ℕ → List ℕ) → ℕ → List (List ℕ) → ℕ → Items → Items
diversify_from lower limit seen n [] = []
diversify_from lower limit seen n (i ∷ items) =
    let without = diversify_from lower limit seen n items in
    let after = diversify_from lower limit (diversity_key lower i ∷ seen) (suc n) items in
    if is_seen (diversity_key lower i) seen && not (may_repeat i.memory_type)
    then without
    else if leb limit (suc n)
    then i ∷ []
    else i ∷ after

unfoldable pub diversify : (List ℕ → List ℕ) → Items → ℕ → Items
unfolding diversify_from
diversify lower items limit = diversify_from lower limit [] 0 items

pub data AbstentionReason : Type 0 where
  no_candidate_passed_threshold unresolved_conflict_affects_answer : AbstentionReason

-- The status is "abstained" whenever there is a reason.
pub record SelectionResult : Type 0 where
  pub selected : Items
  pub abstention_reason : Option AbstentionReason

abbrev pub is_unresolved : ConflictStatus → Bool
is_unresolved no_conflict = false
is_unresolved unresolved = true

abbrev pub reaches : ℤ → ScoredMemoryItem → Bool
reaches threshold i = not (ltb_ℤ i.final_score threshold)

abbrev pub select_eligible : (List ℕ → List ℕ) → Items → ℕ → SelectionResult
select_eligible lower [] limit = record {
  selected = [];
  abstention_reason = some no_candidate_passed_threshold;
}
select_eligible lower (i ∷ items) limit =
    if any (λ (x : ScoredMemoryItem). is_unresolved x.conflict_status) (take 2 (i ∷ items))
    then record {
      selected = diversify lower (i ∷ items) limit;
      abstention_reason = some unresolved_conflict_affects_answer;
    }
    else record { selected = diversify lower (i ∷ items) limit; abstention_reason = none }

unfoldable pub select_items : (List ℕ → List ℕ) → Items → ℤ → ℕ → SelectionResult
unfolding diversify
select_items lower items threshold limit =
    select_eligible lower (filter_if (reaches threshold) items) limit

abbrev pub versions_of : Items → List String
versions_of items = map (λ (i : ScoredMemoryItem). i.memory_version_uuid) items

-- safe_rerank; `none` is the ValueError.
unfoldable pub safe_rerank : Items → Option (Items → Items) → Option Items
safe_rerank items none = some items
safe_rerank items (some rerank) =
    if all (λ (i : ScoredMemoryItem). contains (versions_of items) i.memory_version_uuid)
      (rerank items)
    then some (rerank items)
    else none

abbrev pub has_conflict : String → Decision → Bool
has_conflict memory_uuid d =
    is_contradict d.operation && sql_eq d.target_memory_uuid (some memory_uuid)

-- conflict_penalty, in millionths.
unfoldable pub conflict_penalty : Store → String → ℕ
conflict_penalty s memory_uuid =
    if ltb 0 (count_if (has_conflict memory_uuid) s.decisions) then 350000 else 0

-- What scorer.py reads of a memory, its rounded sum as a function of the penalty.
pub record Draft : Type 0 where
  pub memory_uuid : String
  pub memory_version_uuid : String
  pub memory_type : String
  pub scope_type : String
  pub normalized_text : String
  pub rounded : ℕ → ℤ

unfoldable pub score : Store → Draft → ScoredMemoryItem
unfolding conflict_penalty
score s r = record {
  memory_uuid = r.memory_uuid;
  memory_version_uuid = r.memory_version_uuid;
  memory_type = r.memory_type;
  scope_type = r.scope_type;
  normalized_text = r.normalized_text;
  conflict_status = if conflict_penalty s r.memory_uuid == 0 then no_conflict else unresolved;
  final_score = r.rounded (conflict_penalty s r.memory_uuid);
}

-- sorted(..., reverse=True), which is stable.
abbrev pub scores_first : ScoredMemoryItem → ScoredMemoryItem → Bool
scores_first a b = not (ltb_ℤ a.final_score b.final_score)

-- From the drafts to the selection, without a reranker and with the default threshold and limit.
unfoldable pub rank : (List ℕ → List ℕ) → Store → List Draft → SelectionResult
unfolding score select_items
rank lower s drafts =
    select_items lower (sort_by scores_first (map (score s) drafts)) (pos 180000) 8
