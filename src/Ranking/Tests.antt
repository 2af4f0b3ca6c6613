-- ===== src/Ranking/Tests.antt =====
-- A ranking of three items, and one after a contradiction was recorded.
use open_webui_memorist_edit.Prelude.{
  ℕ, ◌-◌, ◌≡◌, ◌≢◌, refl, true, some, List, [], ◌∷◌, map, String, any,
}
use open_webui_memorist_edit.Prelude.Int.{pos}
use open_webui_memorist_edit.Prelude.Texts.{lower_code}
use open_webui_memorist_edit.Prelude.Rows.{find_row, update_rows}
use open_webui_memorist_edit.Consolidation.{resolve}
use open_webui_memorist_edit.Consolidation.Keys.{canonical_key_for_candidate}
use open_webui_memorist_edit.Consolidation.Store.{Decision}
use open_webui_memorist_edit.Consolidation.Consolidator.{is_contradict}
use open_webui_memorist_edit.Consolidation.Outbox.{consolidate, run_store_calls}
use open_webui_memorist_edit.Consolidation.Tests.{env, fresh, start, start-IsSound}
use open_webui_memorist_edit.Ranking.{
  ScoredMemoryItem, Items, no_conflict, select_items, conflict_penalty, Draft, rank,
  unresolved_conflict_affects_answer,
}
use open_webui_memorist_edit.Ranking.Selection.{IsSelection, select_items-IsSelection}
use open_webui_memorist_edit.Ranking.Conflicts.{conflicts_unheard}

abbrev lower : List ℕ → List ℕ
lower = map lower_code

abbrev item : String → String → ℕ → ScoredMemoryItem
item uuid text score = record {
  memory_uuid = uuid;
  memory_version_uuid = uuid;
  memory_type = "preference";
  scope_type = "project";
  normalized_text = text;
  conflict_status = no_conflict;
  final_score = pos score;
}

abbrev three : Items
three = item "m1" "Tea" 900000 ∷ item "m2" "tea" 800000 ∷ item "m3" "coffee" 100 ∷ []

three_selected : (select_items lower three (pos 180000) 8).selected ≡ item "m1" "Tea" 900000 ∷ []
unfolding select_items
three_selected = refl

select_items-IsSelection_example :
    IsSelection lower (pos 180000) 8 three (select_items lower three (pos 180000) 8).selected
select_items-IsSelection_example = select_items-IsSelection lower three (pos 180000) 8

contradiction_recorded :
    any
      (λ (d : Decision). is_contradict d.operation)
      (run_store_calls env (consolidate "c0" ∷ consolidate "c3" ∷ []) start).decisions
    ≡ true
unfolding run_store_calls find_row resolve update_rows canonical_key_for_candidate
contradiction_recorded = refl

abbrev draft : Draft
draft = record {
  memory_uuid = "u";
  memory_version_uuid = "uu";
  memory_type = "preference";
  scope_type = "project";
  normalized_text = "likes tea";
  rounded = λ n. pos (900000 - n);
}

conflicts_unheard_example :
    ((memory_uuid : String)
      → conflict_penalty
          (run_store_calls env (consolidate "c0" ∷ consolidate "c3" ∷ []) start)
          memory_uuid
        ≡ 0)
    × ((rank lower
          (run_store_calls env (consolidate "c0" ∷ consolidate "c3" ∷ []) start)
          (draft ∷ [])).abstention_reason
        ≢ some unresolved_conflict_affects_answer)
conflicts_unheard_example =
    conflicts_unheard env fresh lower (consolidate "c0" ∷ consolidate "c3" ∷ []) start (draft ∷ [])
      start-IsSound
