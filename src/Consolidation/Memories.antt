-- ===== src/Consolidation/Memories.antt =====
-- That a new memory and a superseding version keep every memory's current version.
use open_webui_memorist_edit.Prelude.{
  suc, ◌≤◌, ◌≡◌, refl, sym, ◌∙◌, true, false, none, some, List, [], ◌∷◌, String, eq_iff, All,
  All-imp, arith, count_if, count_if-append,
}
use open_webui_memorist_edit.Prelude.Rows.{
  find_row, update_rows, insert_row, find-insert_some, find_hit, find-update, count-update,
  All-append, All-update,
}
use open_webui_memorist_edit.Consolidation.{MemoryVersion}
use open_webui_memorist_edit.Consolidation.Store.{Memory, is_version, is_of_memory}
use open_webui_memorist_edit.Consolidation.Sound.{IsCurrent, Precedes, is_closed}

-- A version of another memory changes nothing.
pub IsCurrent-insert :
    (v : MemoryVersion) (vs : List MemoryVersion) (m : Memory)
    → is_of_memory m.memory_uuid v ≡ false
    → IsCurrent vs m
    → IsCurrent (insert_row v vs) m
IsCurrent-insert v vs m other c = record {
  current = c.current;
  version = c.version;
  named = c.named;
  found = find-insert_some (is_version c.current) v c.version vs c.found;
  owned = c.owned;
  still_open = c.still_open;
  counted =
      let sum = count_if-append (is_of_memory m.memory_uuid) vs (v ∷ []) in
      let zero_more : count_if (is_of_memory m.memory_uuid) (v ∷ []) ≡ 0 = rw other in
      let k = c.counted in omega arith;
  others =
      All-append (Precedes m.memory_uuid c.current c.version.version_number) vs (v ∷ []) c.others
        ((λ own. absurd (let z : true ≡ false = sym own ∙ other in cc)), tt);
}

-- Nor does closing a version that is not the current one.
pub IsCurrent-close :
    (old now : String) (vs : List MemoryVersion) (m : Memory) (c : IsCurrent vs m)
    → is_version old c.version ≡ false
    → IsCurrent (update_rows (is_version old) (λ v. record v { transaction_until = some now }) vs) m
IsCurrent-close old now vs m c other =
    let close : MemoryVersion → MemoryVersion = λ v. record v { transaction_until = some now } in
    record {
      current = c.current;
      version = c.version;
      named = c.named;
      found =
          let k =
            find-update (is_version c.current) (is_version old) close vs (λ r. refl) c.version
              c.found in
          rw other at k;
      owned = c.owned;
      still_open = c.still_open;
      counted =
          let k = count-update (is_of_memory m.memory_uuid) (is_version old) close vs (λ r. refl) in
          let l = c.counted in omega arith;
      others =
          All-update (Precedes m.memory_uuid c.current c.version.version_number) (is_version old)
            close vs (λ r before hit own. ((before own).0, λ _. refl)) c.others;
    }

-- A version whose identifier is new is the current one of the memory that names it, if it is open, has
-- the number after the number of the memory's versions, and all of these are closed.
pub IsCurrent-new :
    (v : MemoryVersion) (vs : List MemoryVersion) (m : Memory)
    → find_row (is_version v.memory_version_uuid) vs ≡ none
    → m.current_version_uuid ≡ some v.memory_version_uuid
    → v.memory_uuid ≡ m.memory_uuid
    → v.transaction_until ≡ none
    → v.version_number ≡ suc (count_if (is_of_memory m.memory_uuid) vs)
    → All
        (λ (w : MemoryVersion).
          is_of_memory m.memory_uuid w ≡ true
          → (w.version_number ≤ v.version_number) × (is_closed w.transaction_until ≡ true))
        vs
    → IsCurrent (insert_row v vs) m
IsCurrent-new v vs m unused named owned still_open number closed =
    let own = (eq_iff v.memory_uuid m.memory_uuid).1 owned in
    record {
      current = v.memory_version_uuid;
      version = v;
      named = named;
      found =
          find_hit (is_version v.memory_version_uuid) v vs unused
            ((eq_iff v.memory_version_uuid v.memory_version_uuid).1 refl);
      owned = owned;
      still_open = still_open;
      counted =
          let sum = count_if-append (is_of_memory m.memory_uuid) vs (v ∷ []) in
          let one_more : count_if (is_of_memory m.memory_uuid) (v ∷ []) ≡ 1 = rw own in omega arith;
      others =
          All-append (Precedes m.memory_uuid v.memory_version_uuid v.version_number) vs (v ∷ [])
            (All-imp vs (λ w k of_m. ((k of_m).0, λ _. (k of_m).1)) closed)
            (
              (λ _. (
                omega arith,
                λ other. absurd (
                    let z : true ≡ false =
                      sym ((eq_iff v.memory_version_uuid v.memory_version_uuid).1 refl) ∙ other in
                    cc),
              )),
              tt,
            );
    }
