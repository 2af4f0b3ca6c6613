-- ===== src/Consolidation/Growth.antt =====
-- That the two writes of memories leave every memory with its current version, and lose no version.
use mathlib.Core.Path.{subst}
use open_webui_memorist_edit.Prelude.{
  ℕ, suc, ◌≤◌, ◌≡◌, refl, sym, ap, ◌∙◌, inl, inr, Bool, true, false, Option, none, some, List, [],
  ◌∷◌, ◌++◌, String, str_eq, eq_iff, All, All-imp, All-both, arith, Bool-cases, count_if,
}
use open_webui_memorist_edit.Prelude.Rows.{
  find_row, update_rows, insert_row, All-append, All-update, All-updated, All-find, none_of_All,
  count_none, count-update,
}
use open_webui_memorist_edit.Consolidation.{ConsolidationOperation, MemoryCandidate, MemoryVersion}
use open_webui_memorist_edit.Consolidation.Store.{
  Environment, ScopeType, Memory, Store, is_memory, is_version, is_of_memory,
}
use open_webui_memorist_edit.Consolidation.Writes.{
  IsOld, IsOld-later, AllOld, AllOld-later, AllOld-insert, DrawsFresh, fresh_rows,
}
use open_webui_memorist_edit.Consolidation.Sound.{IsCurrent, Precedes, IsStored, is_closed}
use open_webui_memorist_edit.Consolidation.Memories.{
  IsCurrent-insert, IsCurrent-close, IsCurrent-new,
}
use open_webui_memorist_edit.Consolidation.Paths.{
  added, superseded, memory_of, first_version, next_version, close_at,
}

-- A version after a change: nothing but the time at which it is closed may differ.
abbrev pub IsRow : MemoryVersion → MemoryVersion → Type 0
IsRow v w = w ≡ record v { transaction_until = w.transaction_until }

-- The versions, in their order, and perhaps more after them.
abbrev pub Grown : List MemoryVersion → List MemoryVersion → Type 0
Grown [] ws = Unit
Grown (v ∷ vs) [] = ⊥
Grown (v ∷ vs) (w ∷ ws) = IsRow v w × Grown vs ws

pub Grown-append : (vs ws : List MemoryVersion) → Grown vs (vs ++ ws)
Grown-append [] ws = tt
Grown-append (v ∷ vs) ws = (refl, Grown-append vs ws)

pub Grown-close :
    (q : MemoryVersion → Bool) (now : String) (vs ws : List MemoryVersion)
    → Grown vs (update_rows q (λ v. record v { transaction_until = some now }) vs ++ ws)
unfolding update_rows
Grown-close q now [] ws = tt
Grown-close q now (v ∷ vs) ws = elim (Bool-cases (q v)) [
  | inl e ↦ rw e (refl, Grown-close q now vs ws)
  | inr e ↦ rw e (refl, Grown-close q now vs ws)
]

pub Grown-trans : (us vs ws : List MemoryVersion) → Grown us vs → Grown vs ws → Grown us ws
Grown-trans [] vs ws h k = tt
Grown-trans (u ∷ us) [] ws h k = absurd h
Grown-trans (u ∷ us) (v ∷ vs) [] h k = absurd k
Grown-trans (u ∷ us) (v ∷ vs) (w ∷ ws) h k = (
  k.0 ∙ ap (λ (x : MemoryVersion). record x { transaction_until = w.transaction_until }) h.0,
  Grown-trans us vs ws h.1 k.1,
)

apart_back : (a b : String) → str_eq a b ≡ false → str_eq b a ≡ false
apart_back a b h = elim (Bool-cases (str_eq b a)) [
  | inl same ↦
      absurd (let z : true ≡ false = sym ((eq_iff a b).1 (sym ((eq_iff b a).0 same))) ∙ h in cc)
  | inr apart ↦ apart
]

-- Two memories do not share their current version.
own_current :
    (vs : List MemoryVersion) (m x : Memory) (k : IsCurrent vs m) (j : IsCurrent vs x)
    → str_eq m.memory_uuid x.memory_uuid ≡ false
    → is_version k.current j.version ≡ false
own_current vs m x k j apart = elim (Bool-cases (is_version k.current j.version)) [
  | inr other ↦ other
  | inl hit ↦ absurd (
      let at =
        (All-find (λ _. Unit {0}) (is_version j.current) vs j.version (anything vs) j.found).1 in
      let one =
        sym ((eq_iff j.version.memory_version_uuid j.current).0 at)
        ∙ (eq_iff j.version.memory_version_uuid k.current).0 hit in
      let both : some j.version ≡ some k.version =
        sym (subst (λ i. find_row (is_version i) vs ≡ some j.version) one j.found) ∙ k.found in
      let version : j.version ≡ k.version = cc in
      let owner : m.memory_uuid ≡ x.memory_uuid =
        sym k.owned ∙ sym (ap (λ (v : MemoryVersion). v.memory_uuid) version) ∙ j.owned in
      let z : true ≡ false = sym ((eq_iff m.memory_uuid x.memory_uuid).1 owner) ∙ apart in cc)
]
  where
    anything : (t : List MemoryVersion) → All (λ (_ : MemoryVersion). Unit {0}) t
    anything [] = tt
    anything (v ∷ t) = (tt, anything t)

module _ (env : Environment) (fresh : DrawsFresh env) where
  -- A memory that is stored has not the identifier that is drawn next.
  other_owner :
      (n m : ℕ) (t : List Memory)
      → n ≤ m
      → AllOld env (λ (x : Memory). x.memory_uuid) n t
      → All (λ (x : Memory). str_eq (env.new_uuid m) x.memory_uuid ≡ false) t
  other_owner n m t le old =
      All-imp t
        (λ x k. elim (Bool-cases (str_eq (env.new_uuid m) x.memory_uuid)) [
          | inl same ↦ absurd (
              let z : true ≡ false =
                sym (
                  (eq_iff x.memory_uuid (env.new_uuid m)).1
                    (sym ((eq_iff (env.new_uuid m) x.memory_uuid).0 same)))
                ∙ k in
              cc)
          | inr apart ↦ apart
        ])
        (fresh_rows env fresh (λ (x : Memory). x.memory_uuid) n m t le old)

  pub added-IsStored :
      (c : MemoryCandidate) (scope : ScopeType × Option String) (op : ConsolidationOperation)
      (s : Store)
      → IsStored env s
      → IsStored env (added env c scope op s)
  added-IsStored c scope op s h =
      let v = first_version env c op s in
      let uuid = env.new_uuid s.drawn in
      let m = memory_of env c scope uuid (some v.memory_version_uuid) in
      let not_of : All (λ (w : MemoryVersion). is_of_memory uuid w ≡ false) s.versions =
        fresh_rows env fresh (λ (x : MemoryVersion). x.memory_uuid) s.drawn s.drawn s.versions
          (omega arith) h.old_owners in
      record {
        old_memories =
            AllOld-later env (λ (x : Memory). x.memory_uuid) (suc s.drawn) (suc (suc s.drawn))
              (insert_row m s.memories) (omega arith)
              (AllOld-insert env (λ (x : Memory). x.memory_uuid) s.drawn m s.memories refl
                h.old_memories);
        old_versions =
            AllOld-insert env (λ (x : MemoryVersion). x.memory_version_uuid) (suc s.drawn) v
              s.versions refl
              (AllOld-later env (λ (x : MemoryVersion). x.memory_version_uuid) s.drawn (suc s.drawn)
                s.versions (omega arith) h.old_versions);
        old_owners =
            AllOld-later env (λ (x : MemoryVersion). x.memory_uuid) (suc s.drawn)
              (suc (suc s.drawn)) (insert_row v s.versions) (omega arith)
              (AllOld-insert env (λ (x : MemoryVersion). x.memory_uuid) s.drawn v s.versions refl
                h.old_owners);
        current =
            All-append (IsCurrent (insert_row v s.versions)) s.memories (m ∷ [])
              (All-both s.memories (λ x other k. IsCurrent-insert v s.versions x other k)
                (other_owner s.drawn s.drawn s.memories (omega arith) h.old_memories) h.current)
              (
                IsCurrent-new v s.versions m
                    (none_of_All (is_version v.memory_version_uuid) s.versions (
                      fresh_rows env fresh (λ (x : MemoryVersion). x.memory_version_uuid) s.drawn
                        (suc s.drawn) s.versions (omega arith) h.old_versions))
                    refl refl refl
                    (let k = count_none (is_of_memory uuid) s.versions not_of in omega arith)
                    (All-imp s.versions
                      (λ w k own. absurd (let z : true ≡ false = sym own ∙ k in cc)) not_of),
                tt,
              );
      }

  -- The memory that a version supersedes has the new version.
  replaced :
      (c : MemoryCandidate) (m : Memory) (op : ConsolidationOperation) (s : Store)
      (k : IsCurrent s.versions m) (x : Memory)
      → x.memory_uuid ≡ m.memory_uuid
      → find_row (is_version (env.new_uuid s.drawn)) (
          update_rows
            (is_version k.current)
            (close_at env (env.utc_now (suc s.readings)))
            s.versions)
        ≡ none
      → IsCurrent
          (insert_row (next_version env c m.memory_uuid k.version op s) (
            update_rows
              (is_version k.current)
              (close_at env (env.utc_now (suc s.readings)))
              s.versions))
          (record x { current_version_uuid = some (env.new_uuid s.drawn) })
  replaced c m op s k x same unused =
      let new = next_version env c m.memory_uuid k.version op s in
      let close = close_at env (env.utc_now (suc s.readings)) in
      let closed = update_rows (is_version k.current) close s.versions in
      let count =
        count-update (is_of_memory m.memory_uuid) (is_version k.current) close s.versions
          (λ r. refl) in
      let number : new.version_number ≡ suc (count_if (is_of_memory m.memory_uuid) closed) =
        let j = k.counted in omega arith in
      let before =
        All-updated (Precedes m.memory_uuid k.current k.version.version_number)
          (λ (w : MemoryVersion).
            is_of_memory m.memory_uuid w ≡ true
            → (w.version_number ≤ new.version_number) × (is_closed w.transaction_until ≡ true))
          (is_version k.current) close s.versions
          (λ w p _ own. let q = (p own).0 in (omega arith, refl))
          (λ w p miss own. let q = (p own).0 in (omega arith, (p own).1 miss)) k.others in
      let back = sym same in
      IsCurrent-new new closed (record x { current_version_uuid = some (env.new_uuid s.drawn) })
        unused refl back refl
        (subst (λ i. new.version_number ≡ suc (count_if (is_of_memory i) closed)) back number)
        (subst
          (λ i.
            All
              (λ (w : MemoryVersion).
                is_of_memory i w ≡ true
                → (w.version_number ≤ new.version_number) × (is_closed w.transaction_until ≡ true))
              closed)
          back before)

  pub superseded-IsStored :
      (c : MemoryCandidate) (m : Memory) (op : ConsolidationOperation) (s : Store)
      (k : IsCurrent s.versions m)
      → IsOld env s.drawn m.memory_uuid
      → IsStored env s
      → IsStored env (superseded env c m.memory_uuid k.current k.version op s)
  superseded-IsStored c m op s k old h =
      let new = next_version env c m.memory_uuid k.version op s in
      let close = close_at env (env.utc_now (suc s.readings)) in
      let closed = update_rows (is_version k.current) close s.versions in
      let old_closed : AllOld env (λ (v : MemoryVersion). v.memory_version_uuid) s.drawn closed =
        All-update (λ (w : MemoryVersion). IsOld env s.drawn w.memory_version_uuid)
          (is_version k.current) close s.versions (λ w i _. i) h.old_versions in
      record {
        old_memories =
            All-update (λ (x : Memory). IsOld env (suc s.drawn) x.memory_uuid)
              (is_memory m.memory_uuid) _ s.memories (λ x i _. i)
              (AllOld-later env (λ (x : Memory). x.memory_uuid) s.drawn (suc s.drawn) s.memories
                (omega arith) h.old_memories);
        old_versions =
            AllOld-insert env (λ (x : MemoryVersion). x.memory_version_uuid) s.drawn new closed refl
              old_closed;
        old_owners =
            All-append (λ (x : MemoryVersion). IsOld env (suc s.drawn) x.memory_uuid) closed
              (new ∷ [])
              (All-update (λ (x : MemoryVersion). IsOld env (suc s.drawn) x.memory_uuid)
                (is_version k.current) close s.versions (λ w i _. i)
                (AllOld-later env (λ (x : MemoryVersion). x.memory_uuid) s.drawn (suc s.drawn)
                  s.versions (omega arith) h.old_owners))
              (IsOld-later env (omega arith) old, tt);
        current =
            All-updated (IsCurrent s.versions) (IsCurrent (insert_row new closed))
              (is_memory m.memory_uuid) _ s.memories
              (λ x _ own. replaced c m op s k x ((eq_iff x.memory_uuid m.memory_uuid).0 own) (
                none_of_All (is_version new.memory_version_uuid) closed (
                  fresh_rows env fresh (λ (v : MemoryVersion). v.memory_version_uuid) s.drawn
                    s.drawn closed (omega arith) old_closed)))
              (λ x j other.
                let apart = apart_back x.memory_uuid m.memory_uuid other in
                IsCurrent-insert new closed x apart (
                  IsCurrent-close k.current (env.utc_now (suc s.readings)) s.versions x j
                    (own_current s.versions m x k j apart)))
              h.current;
      }
