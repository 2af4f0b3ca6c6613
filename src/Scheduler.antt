-- ===== src/Scheduler.antt =====
-- The hot in-memory scheduler (memorist-core/src/memcore/scheduler): lanes, queue, claims.
-- A clock reading is a number of microseconds. `heapq` is a parameter: the code never reads the
-- layout of its heap, so all that is asked is that a heap keeps its elements.
pub mod Lanes
mod Selection
pub mod Choice
pub mod Runs
pub mod Validity
pub mod Starvation
pub mod Tests
use open_webui_memorist_edit.Prelude.{
  ℕ, zero, suc, ◌+◌, ◌-◌, ◌*◌, ◌/◌, ◌≡◌, Bool, true, false, not, Option, none, some, List, [], ◌∷◌,
  ◌++◌, String, ltb, leb, if◌then◌else◌, str_eq, length, get_elem?, drop, count_if, filter_if,
}
use open_webui_memorist_edit.Prelude.Int.{ℤ, pos, ltb_ℤ, ◌-ℤ◌}
use open_webui_memorist_edit.Scheduler.Lanes.{Lane, lane_eq, lane_priority, is_low_priority, is_hot}

-- HotSchedulerJob; `payload_ref` is carried as opaque text.
pub record Job : Type 0 where
  pub durable_job_uuid : String
  pub lane : Lane
  pub payload_ref : String
  pub priority : Option ℤ
  pub submitted_at : ℕ

-- _QueuedJob
pub record Queued : Type 0 where
  pub sort_priority : ℤ
  pub sequence : ℕ
  pub job : Job

-- The order on (sort_priority, sequence).
unfoldable pub queued_lt : Queued → Queued → Bool
queued_lt a b =
    if ltb_ℤ a.sort_priority b.sort_priority
    then true
    else if ltb_ℤ b.sort_priority a.sort_priority
    then false
    else ltb a.sequence b.sequence

-- heapq, as far as the scheduler relies on it.
pub record Heap : Type 0 where
  pub heappush : List Queued → Queued → List Queued
  pub heapify : List Queued → List Queued
  pub count-heappush :
      (p : Queued → Bool) (q : List Queued) (x : Queued)
      → count_if p (heappush q x) ≡ count_if p (x ∷ q)
  pub count-heapify : (p : Queued → Bool) (q : List Queued) → count_if p (heapify q) ≡ count_if p q

pub data Backpressure : Type 0 where
  idle hot_lane_pending low_priority_backlog : Backpressure

pub record Scheduler : Type 0 where
  pub max_consecutive_low_priority : ℕ
  pub queue : List Queued
  pub sequence : ℕ
  pub active_workers : String → Option String
  pub paused_lanes : Lane → Bool
  pub metrics : Lane → List ℕ
  pub backpressure : Backpressure
  pub consecutive_low_priority : ℕ

unfoldable pub init : ℕ → Scheduler
init limit = record {
  max_consecutive_low_priority = limit;
  queue = [];
  sequence = 0;
  active_workers = λ w. none;
  paused_lanes = λ l. false;
  metrics = λ l. [];
  backpressure = idle;
  consecutive_low_priority = 0;
}

abbrev pub hot_job : Queued → Bool
hot_job q = is_hot q.job.lane

abbrev pub low_job : Queued → Bool
low_job q = is_low_priority q.job.lane

abbrev pub low_backlog : ℕ
low_backlog = 100

-- _refresh_backpressure_locked
unfoldable pub backpressure_for : List Queued → Backpressure
backpressure_for queue =
    if ltb 0 (count_if hot_job queue)
    then hot_lane_pending
    else if ltb low_backlog (count_if low_job queue)
    then low_priority_backlog
    else idle

refresh_backpressure : Scheduler → Scheduler
refresh_backpressure s = record s { backpressure = backpressure_for s.queue }

-- A value at one key of a dict.
unfoldable pub update_lane {ℓ} : {A : Type ℓ} → (Lane → A) → Lane → A → Lane → A
update_lane f l a k = if lane_eq l k then a else f k

unfoldable pub update_worker :
    (String → Option String) → String → Option String → String → Option String
update_worker f w v k = if str_eq w k then v else f k

-- The priority of a job that names none is its lane's.
unfoldable pub effective_priority : Job → ℤ
effective_priority job = elim job.priority [ none ↦ pos (lane_priority job.lane) | some p ↦ p ]

-- LaneMetrics.record_wait on deque(maxlen=512): the oldest sample falls out.
abbrev pub max_samples : ℕ
max_samples = 512

unfoldable pub record_wait : List ℕ → ℕ → List ℕ
record_wait waits w = let all = waits ++ w ∷ [] in drop (length all - max_samples) all

-- enumerate(queue)
unfoldable pub enumerate : ℕ → List Queued → List (ℕ × Queued)
enumerate i [] = []
enumerate i (q ∷ qs) = (i, q) ∷ enumerate (suc i) qs

-- Python's `min` by the key: the first of the least.
unfoldable pub first_min : ℕ × Queued → List (ℕ × Queued) → ℕ × Queued
first_min m [] = m
first_min m (e ∷ es) = first_min (if queued_lt e.1 m.1 then e else m) es

abbrev pub eligible : Scheduler → ℕ × Queued → Bool
eligible s e = not (s.paused_lanes e.1.job.lane)

abbrev pub hot_entry : ℕ × Queued → Bool
hot_entry e = hot_job e.1

unfoldable pub choose : Bool → List (ℕ × Queued) → List (ℕ × Queued) → Option (ℕ × Queued)
choose must_be_hot [] hots = none
choose must_be_hot (c ∷ cs) [] = some (first_min c cs)
choose true (c ∷ cs) (h ∷ hs) = some (first_min h hs)
choose false (c ∷ cs) (h ∷ hs) = some (first_min c cs)

-- _select_next_index_locked, with the entry beside its index.
unfoldable pub select_next : Scheduler → Option (ℕ × Queued)
unfolding choose
select_next s =
    let candidates = filter_if (eligible s) (enumerate 0 s.queue) in
    choose (leb s.max_consecutive_low_priority s.consecutive_low_priority) candidates
      (filter_if hot_entry candidates)

-- list.pop(index)
unfoldable pub remove_at : ℕ → List Queued → List Queued
remove_at i [] = []
remove_at zero (q ∷ qs) = qs
remove_at (suc i) (q ∷ qs) = q ∷ remove_at i qs

unfoldable pub wait_ms : ℕ → Job → ℕ
wait_ms now job = (now - job.submitted_at) / 1000

module _ (heap : Heap) where
  open heap use {heappush, heapify}

  unfoldable pub submit : Job → Scheduler → Scheduler
  unfolding refresh_backpressure
  submit job s =
      let n = s.sequence + 1 in
      let entry : Queued = record {
        sort_priority = pos 0 -ℤ effective_priority job;
        sequence = n;
        job = job;
      } in
      refresh_backpressure (record s { sequence = n; queue = heappush s.queue entry })

  unfoldable pub take_entry : ℕ → String → ℕ × Queued → Scheduler → Scheduler
  unfolding refresh_backpressure
  take_entry now worker e s =
      let job = e.1.job in
      refresh_backpressure (record s {
        queue = heapify (remove_at e.0 s.queue);
        metrics =
            update_lane s.metrics job.lane (record_wait (s.metrics job.lane) (wait_ms now job));
        active_workers = update_worker s.active_workers worker (some job.durable_job_uuid);
        consecutive_low_priority =
            if is_low_priority job.lane then s.consecutive_low_priority + 1 else 0;
      })

  unfoldable pub claim_next : ℕ → String → Scheduler → Option Job × Scheduler
  unfolding take_entry
  claim_next now worker s = elim (select_next s) [
    | none ↦ (none, s)
    | some e ↦ (some e.1.job, take_entry now worker e s)
  ]

unfoldable pub complete : String → Scheduler → Scheduler
complete worker s = record s { active_workers = update_worker s.active_workers worker none }

unfoldable pub pause_lane : Lane → Scheduler → Scheduler
pause_lane lane s = record s { paused_lanes = update_lane s.paused_lanes lane true }

unfoldable pub resume_lane : Lane → Scheduler → Scheduler
resume_lane lane s = record s { paused_lanes = update_lane s.paused_lanes lane false }
