-- ===== src/Consolidation/Marks.antt =====
-- What the marks on the rows of the outbox keep.
use mathlib.Core.Path.{subst}
use open_webui_memorist_edit.Prelude.{
  ℕ, sym, ◌∙◌, ◌≡◌, refl, Bool, some, List, String, All-imp, if◌then◌else◌, Bool-cases, inl, inr,
}
use open_webui_memorist_edit.Prelude.Rows.{find_row, update_rows, find-update, All-update}
use open_webui_memorist_edit.Consolidation.Store.{Environment, OutboxItem, Store, is_projection}
use open_webui_memorist_edit.Consolidation.Sound.{IsSound}
use open_webui_memorist_edit.Consolidation.Writes.{IsOld}

-- The rows stand for what they stood for.
pub record IsMark (f : OutboxItem → OutboxItem) : Type 0 where
  pub same_item : (o : OutboxItem) → (f o).outbox_uuid ≡ o.outbox_uuid
  pub same_projection :
      (m operation : String) (o : OutboxItem)
      → is_projection m operation (f o) ≡ is_projection m operation o
  pub same_payload : (o : OutboxItem) → (f o).payload ≡ o.payload

-- The row for a projection is still there, with its payload.
abbrev pub IsHeard : List OutboxItem → List OutboxItem → Type 0
IsHeard t t' =
    (m operation : String) (o : OutboxItem)
    → find_row (is_projection m operation) t ≡ some o
    → (o' : OutboxItem) × (find_row (is_projection m operation) t' ≡ some o')
      × (o'.payload ≡ o.payload)

pub IsHeard-same : (t : List OutboxItem) → IsHeard t t
IsHeard-same t m operation o h = (o, h, refl)

pub IsHeard-trans : (t u v : List OutboxItem) → IsHeard t u → IsHeard u v → IsHeard t v
IsHeard-trans t u v h k m operation o at =
    let one = h m operation o at in
    let two = k m operation one.0 one.1 in (two.0, two.1, two.2 ∙ one.2)

module _ (f : OutboxItem → OutboxItem) (mark : IsMark f) (q : OutboxItem → Bool) where
  marked_payload : (o : OutboxItem) → (if q o then f o else o).payload ≡ o.payload
  marked_payload o = elim (Bool-cases (q o)) [
    | inl e ↦ simp e (mark.same_payload o)
    | inr e ↦ simp e refl
  ]

  pub mark-IsHeard : (t : List OutboxItem) → IsHeard t (update_rows q f t)
  mark-IsHeard t m operation o h = (
    if q o then f o else o,
    find-update (is_projection m operation) q f t (mark.same_projection m operation) o h,
    marked_payload o,
  )

  pub mark-IsSound :
      (env : Environment) (s : Store) (readings : ℕ)
      → IsSound env s
      → IsSound env (record s { outbox = update_rows q f s.outbox; readings = readings })
  mark-IsSound env s readings h = record {
    stored = record {
      old_memories = h.stored.old_memories;
      old_versions = h.stored.old_versions;
      old_owners = h.stored.old_owners;
      current = h.stored.current;
    };
    recorded = record {
      old_decisions = h.recorded.old_decisions;
      old_links = h.recorded.old_links;
      old_outbox =
          All-update (λ (o : OutboxItem). IsOld env s.drawn o.outbox_uuid) q f s.outbox
            (λ o k _. subst (IsOld env s.drawn) (sym (mark.same_item o)) k) h.recorded.old_outbox;
      spent = h.recorded.spent;
      apart = h.recorded.apart;
      untargeted = h.recorded.untargeted;
    };
    sourced = h.sourced;
    supported = h.supported;
    projected =
        All-imp s.memories
          (λ m k.
            let found = mark-IsHeard s.outbox m.memory_uuid "ADD" k.0 k.1 in (found.0, found.1))
          h.projected;
  }
