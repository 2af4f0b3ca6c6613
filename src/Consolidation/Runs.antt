-- ===== src/Consolidation/Runs.antt =====
-- Calls of the store in any order.
use mathlib.Core.Path.{subst}
use mathlib.Core.List.{append-nil}
use open_webui_memorist_edit.Prelude.{ℕ, ◌≡◌, refl, Bool, Option, none, some, List, [], ◌∷◌, String}
use open_webui_memorist_edit.Prelude.Rows.{find_row, update_rows}
use open_webui_memorist_edit.Consolidation.{MemoryVersion}
use open_webui_memorist_edit.Consolidation.Store.{
  Environment, Decision, OutboxItem, Store, Outcome, ok, raised, get_consolidation_decision,
}
use open_webui_memorist_edit.Consolidation.Consolidator.{consolidate_candidate}
use open_webui_memorist_edit.Consolidation.Outbox.{
  is_item, fetched_item, succeeded_at, attempts_after, to_retry, store_after, StoreCall,
  consolidate, mark_succeeded, mark_retry, call_store, run_store_calls,
}
use open_webui_memorist_edit.Consolidation.Writes.{DrawsFresh}
use open_webui_memorist_edit.Consolidation.Sound.{IsSound}
use open_webui_memorist_edit.Consolidation.Growth.{Grown, Grown-append, Grown-trans}
use open_webui_memorist_edit.Consolidation.Invariant.{Ends, Explains, IsConsolidated}
use open_webui_memorist_edit.Consolidation.Marks.{
  IsMark, IsHeard, IsHeard-same, IsHeard-trans, mark-IsHeard, mark-IsSound,
}
use open_webui_memorist_edit.Consolidation.Calls.{consolidate_candidate-Ends}

answered_again :
    (env : Environment) (uuid : String) (s : Store) (d : Decision)
    → get_consolidation_decision uuid s ≡ some d
    → consolidate_candidate env uuid s ≡ ok d s
unfolding consolidate_candidate
answered_again env uuid s d h = rw h

Grown-same : (t : List MemoryVersion) → Grown t t
Grown-same t = subst (Grown t) (append-nil t) (Grown-append t [])

succeeded_at-IsMark : (now : String) → IsMark (succeeded_at now)
succeeded_at-IsMark now = record {
  same_item = λ o. refl;
  same_projection = λ m operation o. refl;
  same_payload = λ o. refl;
}

to_retry-IsMark : (n : ℕ) (error : String) → IsMark (to_retry n error)
to_retry-IsMark n error = record {
  same_item = λ o. refl;
  same_projection = λ m operation o. refl;
  same_payload = λ o. refl;
}

module _ (env : Environment) where
  -- What calls in any order leave.
  pub record IsKept (s s' : Store) : Type 0 where
    pub sound : IsSound env s'
    pub kept :
        (c : String) (x : Decision)
        → get_consolidation_decision c s ≡ some x
        → get_consolidation_decision c s' ≡ some x
    pub heard : IsHeard s.outbox s'.outbox
    pub grown : Grown s.versions s'.versions

  IsKept-same : (s : Store) → IsSound env s → IsKept s s
  IsKept-same s h = record {
    sound = h;
    kept = λ c x i. i;
    heard = IsHeard-same s.outbox;
    grown = Grown-same s.versions;
  }

  IsKept-of :
      (uuid : String) (s : Store) (o : Outcome Decision)
      → IsSound env s
      → Ends (IsConsolidated env uuid s) (Explains uuid s) o
      → IsKept s (store_after s o)
  IsKept-of uuid s (ok d s') h k = record {
    sound = k.sound;
    kept = k.kept;
    heard = λ m operation o at. (o, k.heard m operation o at, refl);
    grown = k.grown;
  }
  IsKept-of uuid s (raised e) h k = IsKept-same s h

  fetched-IsKept :
      (o : Option OutboxItem) (s s' : Store)
      → IsSound env s
      → IsKept s s'
      → IsKept s (store_after s (fetched_item o s'))
  fetched-IsKept none s s' h k = IsKept-same s h
  fetched-IsKept (some o) s s' h k = k

  marked-IsKept :
      (f : OutboxItem → OutboxItem)
      → IsMark f
      → (q : OutboxItem → Bool) (s : Store) (readings : ℕ) → IsSound env s
      → IsKept s (record s { outbox = update_rows q f s.outbox; readings = readings })
  marked-IsKept f mark q s readings h = record {
    sound = mark-IsSound f mark q env s readings h;
    kept = λ c x i. i;
    heard = mark-IsHeard f mark q s.outbox;
    grown = Grown-same s.versions;
  }

  module _ (fresh : DrawsFresh env) where
    call_store-IsKept :
        (call : StoreCall) (s : Store) → IsSound env s → IsKept s (call_store env call s)
    unfolding call_store
    call_store-IsKept (consolidate uuid) s h =
        IsKept-of uuid s (consolidate_candidate env uuid s) h
          (consolidate_candidate-Ends env fresh uuid s h)
    call_store-IsKept (mark_succeeded uuid) s h = fetched-IsKept _ s _ h (
        marked-IsKept (succeeded_at (env.utc_now s.readings)) (succeeded_at-IsMark _) (is_item uuid)
          s _ h)
    call_store-IsKept (mark_retry uuid error) s h = fetched-IsKept _ s _ h (
        marked-IsKept (to_retry (attempts_after (find_row (is_item uuid) s.outbox)) error)
          (to_retry-IsMark _ error) (is_item uuid) s _ h)

    -- Calls in any order leave sound tables, every decision, the outbox row of each projection with its
    -- payload, and every version with nothing but its closing time changed, if the tables were sound
    -- and identifiers do not repeat.
    pub run_store_calls-IsKept :
        (calls : List StoreCall) (s : Store)
        → IsSound env s
        → IsKept s (run_store_calls env calls s)
    unfolding run_store_calls
    run_store_calls-IsKept [] s h = IsKept-same s h
    run_store_calls-IsKept (call ∷ calls) s h =
        let one = call_store-IsKept call s h in
        let s1 = call_store env call s in
        let s2 = run_store_calls env calls s1 in
        let rest = run_store_calls-IsKept calls s1 one.sound in
        record {
          sound = rest.sound;
          kept = λ c x k. rest.kept c x (one.kept c x k);
          heard = IsHeard-trans s.outbox s1.outbox s2.outbox one.heard rest.heard;
          grown = Grown-trans s.versions s1.versions s2.versions one.grown rest.grown;
        }

    -- A candidate that was consolidated gets the same decision again, whatever calls come between, and
    -- the second call changes nothing, if the tables were sound and identifiers do not repeat.
    pub consolidated_once :
        (uuid : String) (calls : List StoreCall) (s s' : Store) (d : Decision)
        → IsSound env s
        → consolidate_candidate env uuid s ≡ ok d s'
        → consolidate_candidate env uuid (run_store_calls env calls s')
          ≡ ok d (run_store_calls env calls s')
    consolidated_once uuid calls s s' d h called =
        let first =
          subst (Ends (IsConsolidated env uuid s) (Explains uuid s)) called
            (consolidate_candidate-Ends env fresh uuid s h) in
        let later = run_store_calls-IsKept calls s' first.sound in
        answered_again env uuid (run_store_calls env calls s') d (later.kept uuid d first.answer)
