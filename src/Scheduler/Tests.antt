-- ===== src/Scheduler/Tests.antt =====
-- Runs of the scheduler on small queues, with a heap that keeps its entries in a plain list.
use open_webui_memorist_edit.Prelude.{
  ℕ, ◌+◌, ◌≤◌, ◌<◌, ◌≡◌, refl, ◌⊎◌, inl, inr, Bool, true, false, Option, none, some, List, [], ◌∷◌,
  String, arith, count_if, get_elem?,
}
use open_webui_memorist_edit.Prelude.Int.{ℤ, pos, negsuc}
use open_webui_memorist_edit.Scheduler.Lanes.{
  Lane, live_chat_capture, maintenance, graph_projection, lane_priority,
}
use open_webui_memorist_edit.Scheduler.{
  Job, Queued, queued_lt, Heap, Scheduler, init, select_next, submit, claim_next, first_min,
  enumerate, effective_priority,
}
use open_webui_memorist_edit.Scheduler.Choice.{Runnable, Ranked, select_next-Ranked}
use open_webui_memorist_edit.Scheduler.Runs.{
  Call, submit_job, claim, complete_worker, pause, call, run, queued_jobs, run_conserves,
}
use open_webui_memorist_edit.Scheduler.Validity.{IsValid, init-IsValid, run-IsValid}
use open_webui_memorist_edit.Scheduler.Starvation.{
  HotWaits, Background, claimed_low, none_yet, starvation_bound,
}

abbrev list_heap : Heap
list_heap = record {
  heappush = λ q x. x ∷ q;
  heapify = λ q. q;
  count-heappush = λ p q x. refl;
  count-heapify = λ p q. refl;
}

abbrev job : String → Lane → Job
job id lane = record {
  durable_job_uuid = id;
  lane = lane;
  payload_ref = "";
  priority = none;
  submitted_at = 1000;
}

abbrev chat_job : Job
chat_job = job "chat" live_chat_capture

-- A background job of high priority, which comes before hot work.
abbrev urgent_job : Job
urgent_job = record (job "urgent" maintenance) { priority = some (pos 500) }

abbrev graph_job : Job
graph_job = job "graph" graph_projection

abbrev chat_entry : Queued
chat_entry = record { sort_priority = negsuc 99; sequence = 1; job = chat_job }

abbrev urgent_entry : Queued
urgent_entry = record { sort_priority = negsuc 499; sequence = 2; job = urgent_job }

abbrev graph_entry : Queued
graph_entry = record { sort_priority = negsuc 24; sequence = 3; job = graph_job }

abbrev later_entry : Queued
later_entry = record graph_entry { sequence = 4 }

abbrev holding : List Queued → Scheduler
holding queue = record (init 1) { queue = queue; sequence = 9 }

-- At the limit of background claims.
abbrev at_limit : Scheduler
at_limit = record (holding (urgent_entry ∷ chat_entry ∷ [])) { consecutive_low_priority = 1 }

abbrev below_limit : Scheduler
below_limit = holding (urgent_entry ∷ chat_entry ∷ [])

abbrev graph_jobs : Scheduler
graph_jobs = holding (later_entry ∷ graph_entry ∷ [])

abbrev calls : List Call
calls =
    submit_job chat_job
    ∷ submit_job graph_job
    ∷ claim 5000 "w"
    ∷ complete_worker "w"
    ∷ pause maintenance
    ∷ []

chosen_at_limit : select_next at_limit ≡ some (1, chat_entry)
unfolding select_next enumerate init first_min queued_lt
chosen_at_limit = refl

chosen_below_limit : select_next below_limit ≡ some (0, urgent_entry)
unfolding select_next enumerate init first_min queued_lt
chosen_below_limit = refl

chosen_graph : select_next graph_jobs ≡ some (1, graph_entry)
unfolding select_next enumerate init first_min queued_lt
chosen_graph = refl

none_chosen : select_next (init 1) ≡ none
unfolding select_next enumerate init
none_chosen = refl

urgent_Runnable : Runnable at_limit urgent_entry
unfolding init
urgent_Runnable = record { index = 0; at = refl; running = refl }

later_Runnable : Runnable graph_jobs later_entry
unfolding init
later_Runnable = record { index = 0; at = refl; running = refl }

hot_waits : HotWaits below_limit
unfolding init
hot_waits = ground arith

abbrev one : ℕ
one = 1

one_claim : Background list_heap 1 below_limit (claim_next list_heap 5000 "w" below_limit).1
one_claim = claimed_low 5000 "w" (0, urgent_entry) chosen_below_limit refl none_yet

select_next-Ranked_example :
    (get_elem? at_limit.queue 1 ≡ some chat_entry)
    × (at_limit.paused_lanes live_chat_capture ≡ false)
    × Ranked at_limit chat_entry urgent_entry
select_next-Ranked_example =
    select_next-Ranked at_limit (1, chat_entry) urgent_entry chosen_at_limit urgent_Runnable

run_conserves_example :
    let r = run list_heap (init 1) calls in
    queued_jobs list_heap (λ j. true) (init 1) + count_if (λ j. true) r.1
    ≡ queued_jobs list_heap (λ j. true) r.0 + count_if (λ j. true) r.2
run_conserves_example = run_conserves list_heap (λ j. true) calls (init 1)

run-IsValid_example : IsValid (run list_heap (init 1) calls).0
run-IsValid_example = run-IsValid list_heap calls (init 1) (init-IsValid 1)

starvation_bound_example :
    (one ≡ 0)
    ⊎ (one + below_limit.consecutive_low_priority ≤ below_limit.max_consecutive_low_priority)
starvation_bound_example =
    starvation_bound list_heap one below_limit (claim_next list_heap 5000 "w" below_limit).1
      hot_waits one_claim

test_run : (run list_heap (init 1) calls).2 ≡ chat_job ∷ []
unfolding run call submit claim_next select_next enumerate init first_min queued_lt
    open_webui_memorist_edit.Prelude.Int.◌-ℤ◌ effective_priority lane_priority
test_run = refl
