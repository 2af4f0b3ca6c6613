-- ===== src/Consolidation/Outbox.antt =====
-- The outbox of the graph's projection in MemoryStoreRepository, as memory_worker/graph.py marks its
-- rows, and the calls that change the tables.
use open_webui_memorist_edit.Prelude.{
  ℕ, suc, Bool, Option, none, some, List, [], ◌∷◌, String, str_eq,
}
use open_webui_memorist_edit.Prelude.Rows.{find_row, update_rows}
use open_webui_memorist_edit.Consolidation.Store.{
  Environment, OutboxItem, OutboxStatus, Store, StoreError, Outcome, ok, raised, Method, ◌>>=◌,
  read_clock,
}
use open_webui_memorist_edit.Consolidation.Consolidator.{consolidate_candidate}

abbrev pub is_item : String → OutboxItem → Bool
is_item uuid o = str_eq o.outbox_uuid uuid

abbrev pub fetched_item : Option OutboxItem → Method OutboxItem
fetched_item none s = raised StoreError.outbox_item_not_found
fetched_item (some o) s = ok o s

-- _update_outbox. An update that finds no row changes nothing.
abbrev pub update_outbox : String → (OutboxItem → OutboxItem) → Method OutboxItem
update_outbox uuid f s =
    let rows = update_rows (is_item uuid) f s.outbox in
    fetched_item (find_row (is_item uuid) rows) (record s { outbox = rows })

abbrev pub succeeded_at : String → OutboxItem → OutboxItem
succeeded_at now o = record o { status = OutboxStatus.succeeded; processed_at = some now }

abbrev pub attempts_after : Option OutboxItem → ℕ
attempts_after none = 1
attempts_after (some o) = suc o.attempts

abbrev pub to_retry : ℕ → String → OutboxItem → OutboxItem
to_retry attempts error o = record o {
  status = OutboxStatus.retry;
  attempts = attempts;
  last_error = some error;
}

unfoldable pub mark_outbox_retry : String → String → Method OutboxItem
mark_outbox_retry uuid error s =
    update_outbox uuid (to_retry (attempts_after (find_row (is_item uuid) s.outbox)) error) s

-- The tables after a method, which is a transaction: one that raises changes nothing.
abbrev pub store_after : {A : Type 0} → Store → Outcome A → Store
store_after s (ok a s') = s'
store_after s (raised e) = s

pub data StoreCall : Type 0 where
  consolidate : String → StoreCall
  mark_succeeded : String → StoreCall
  mark_retry : String → String → StoreCall

module _ (env : Environment) where
  unfoldable pub mark_outbox_succeeded : String → Method OutboxItem
  unfolding read_clock
  mark_outbox_succeeded uuid = do now ← read_clock env; update_outbox uuid (succeeded_at now)

  unfoldable pub call_store : StoreCall → Store → Store
  unfolding consolidate_candidate mark_outbox_succeeded mark_outbox_retry
  call_store (consolidate uuid) s = store_after s (consolidate_candidate env uuid s)
  call_store (mark_succeeded uuid) s = store_after s (mark_outbox_succeeded uuid s)
  call_store (mark_retry uuid error) s = store_after s (mark_outbox_retry uuid error s)

  -- Calls in any order.
  unfoldable pub run_store_calls : List StoreCall → Store → Store
  unfolding call_store
  run_store_calls [] s = s
  run_store_calls (call ∷ calls) s = run_store_calls calls (call_store call s)
