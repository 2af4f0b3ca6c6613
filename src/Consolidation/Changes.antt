-- ===== src/Consolidation/Changes.antt =====
-- That a change of a memory, with its records, leaves the tables sound.
use mathlib.Core.Path.{subst}
use open_webui_memorist_edit.Prelude.{
  ℕ, suc, ◌+◌, ◌≤◌, ◌≡◌, refl, sym, ◌⊎◌, inl, inr, Bool, true, false, Option, none, some, List, [],
  ◌∷◌, ◌++◌, String, eq_iff, any, All, All-imp, filter_if, length, arith, Bool-cases, or_true,
}
use open_webui_memorist_edit.Prelude.Rows.{find_row, insert_row, find-insert_some, find_hit}
use open_webui_memorist_edit.Consolidation.{ConsolidationOperation, MemoryVersion}
use open_webui_memorist_edit.Consolidation.Store.{
  Environment, Memory, Decision, EvidenceLink, OutboxItem, CandidateEvidence, Store, is_projection,
  operation_value,
}
use open_webui_memorist_edit.Consolidation.Consolidator.{supports, is_contradict}
use open_webui_memorist_edit.Consolidation.Writes.{
  AllOld-later, DrawsFresh, IsUndecided, decision_of, new_links, changed, outbox_after, drawn_after,
}
use open_webui_memorist_edit.Consolidation.Sound.{
  IsDecided, IsSourced, IsSupported, is_support, IsProjected, IsStored, IsRecorded, IsSound,
}
use open_webui_memorist_edit.Consolidation.Records.{
  IsDecided-insert, IsDecided-new, changed-IsRecorded,
}

any-append_left :
    (p : EvidenceLink → Bool) (t u : List EvidenceLink) → any p t ≡ true → any p (t ++ u) ≡ true
any-append_left p [] u h = cc
any-append_left p (l ∷ t) u h = elim (Bool-cases (p l)) [
  | inl e ↦ rw e
  | inr e ↦ rw e (any-append_left p t u (rw e at h))
]

any-append_right :
    (p : EvidenceLink → Bool) (t u : List EvidenceLink) → any p u ≡ true → any p (t ++ u) ≡ true
any-append_right p [] u h = h
any-append_right p (l ∷ t) u h = rw (any-append_right p t u h) (or_true (p l))

IsDecided-of_source :
    (c : String) (d : Decision) (t : List Decision) (v : MemoryVersion)
    → IsDecided c (insert_row d t)
    → IsSourced t v ⊎ (v.source_candidate_uuid ≡ some c)
    → IsSourced (insert_row d t) v
IsDecided-of_source c d t v new (inl (i, e, old)) = (i, e, IsDecided-insert i d t old)
IsDecided-of_source c d t v new (inr e) = (c, e, new)

module _ (env : Environment) (fresh : DrawsFresh env) where
  drawn_after-ge : (n : ℕ) (o : Option OutboxItem) → n ≤ drawn_after env fresh n o
  drawn_after-ge n none = omega arith
  drawn_after-ge n (some o) = omega arith

  still_projected :
      (n : ℕ) (mid vid op : String) (t : List OutboxItem) (o : Option OutboxItem) (m : Memory)
      → IsProjected t m
      → IsProjected (outbox_after env fresh n mid vid op t o) m
  still_projected n mid vid op t (some o) m h = h
  still_projected n mid vid op t none m (x, h) =
      (x, find-insert_some (is_projection m.memory_uuid "ADD") _ x t h)

  now_projected :
      (n : ℕ) (mid vid : String) (t : List OutboxItem) (o : Option OutboxItem)
      → find_row (is_projection mid "ADD") t ≡ o
      → (x : OutboxItem) × (find_row
            (is_projection mid "ADD")
            (outbox_after env fresh n mid vid "ADD" t o)
          ≡ some x)
  now_projected n mid vid t (some o) h = (o, h)
  now_projected n mid vid t none h =
      (_, find_hit (is_projection mid "ADD") _ t h (rw ((eq_iff mid mid).1 refl)))

  -- A memory that has its projection, or gets it now.
  abbrev pub IsShown : String → ConsolidationOperation → Store → Memory → Type 0
  IsShown mid op s m =
      IsProjected s.outbox m ⊎ ((m.memory_uuid ≡ mid) × (op ≡ ConsolidationOperation.add))

  shown :
      (mid vid c : String) (codes : List String) (op : ConsolidationOperation)
      (es : List CandidateEvidence) (s : Store) (m : Memory)
      → IsShown mid op s m
      → IsProjected (changed env fresh mid vid c codes op es s).outbox m
  shown mid vid c codes op es s m (inl h) = still_projected _ mid vid _ s.outbox _ m h
  shown mid vid c codes op es s m (inr (e, a)) =
      subst (λ o. IsProjected (changed env fresh mid vid c codes o es s).outbox m) (sym a)
        (subst
          (λ i.
            (x : OutboxItem) × (find_row (is_projection i "ADD")
                (changed env fresh mid vid c codes ConsolidationOperation.add es s).outbox
              ≡ some x))
          (sym e)
          (now_projected (suc s.drawn + length es) mid vid s.outbox
            (find_row (is_projection mid "ADD") s.outbox) refl))

  abbrev pub IsBacked : String → String → Store → MemoryVersion → Type 0
  IsBacked vid c s v =
      IsSupported s.links v ⊎ ((v.memory_version_uuid ≡ vid) × (v.source_candidate_uuid ≡ some c))

  backed :
      (mid vid c : String) (codes : List String) (op : ConsolidationOperation)
      (e : CandidateEvidence) (es : List CandidateEvidence) (s : Store) (v : MemoryVersion)
      → IsBacked vid c s v
      → IsSupported (changed env fresh mid vid c codes op (e ∷ es) s).links v
  backed mid vid c codes op e es s v (inl h) = any-append_left (is_support v) s.links _ h
  backed mid vid c codes op e es s v (inr (i, from)) =
      any-append_right (is_support v) s.links (new_links env fresh (suc s.drawn) mid vid c (e ∷ es))
        (rw (i, from, (eq_iff vid vid).1 refl, (eq_iff c c).1 refl))

  -- The tables after the rows of a memory were written, and the records of the change.
  pub changed-IsSound :
      (mid vid c : String) (codes : List String) (op : ConsolidationOperation)
      (e : CandidateEvidence) (es : List CandidateEvidence) (s : Store)
      → filter_if (supports c) s.evidence ≡ e ∷ es
      → IsUndecided c s
      → is_contradict op ≡ false
      → IsStored env s
      → IsRecorded env s
      → All (λ v. IsSourced s.decisions v ⊎ (v.source_candidate_uuid ≡ some c)) s.versions
      → All (IsBacked vid c s) s.versions
      → All (IsShown mid op s) s.memories
      → IsSound env (changed env fresh mid vid c codes op (e ∷ es) s)
  changed-IsSound mid vid c codes op e es s own u k stored recorded sourced supported projected =
      let after = changed env fresh mid vid c codes op (e ∷ es) s in
      let d = decision_of env fresh s.drawn c op codes (some mid) (some vid) in
      let more : s.drawn ≤ after.drawn =
        let one =
          drawn_after-ge (suc s.drawn + length (e ∷ es))
            (find_row (is_projection mid (operation_value op)) s.outbox) in
        omega arith in
      record {
        stored = record {
          old_memories =
              AllOld-later env (λ (x : Memory). x.memory_uuid) s.drawn after.drawn s.memories more
                stored.old_memories;
          old_versions =
              AllOld-later env (λ (x : MemoryVersion). x.memory_version_uuid) s.drawn after.drawn
                s.versions more stored.old_versions;
          old_owners =
              AllOld-later env (λ (x : MemoryVersion). x.memory_uuid) s.drawn after.drawn s.versions
                more stored.old_owners;
          current = stored.current;
        };
        recorded =
            subst (λ l. IsRecorded env (changed env fresh mid vid c codes op l s)) own
              (changed-IsRecorded env fresh mid vid c codes op s u k recorded);
        sourced =
            All-imp s.versions
              (λ v h.
                IsDecided-of_source c d s.decisions v (IsDecided-new c d s.decisions u refl) h)
              sourced;
        supported = All-imp s.versions (λ v h. backed mid vid c codes op e es s v h) supported;
        projected = All-imp s.memories (λ m h. shown mid vid c codes op (e ∷ es) s m h) projected;
      }
