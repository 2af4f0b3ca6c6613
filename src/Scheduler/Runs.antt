-- ===== src/Scheduler/Runs.antt =====
-- Sequences of calls on the scheduler: nothing is lost or duplicated, numbers are unique, the
-- backpressure reported is that of the queue.
use open_webui_memorist_edit.Prelude.{
  ℕ, ◌+◌, ◌≡◌, inl, inr, Bool, Option, none, some, List, [], ◌∷◌, ◌++◌, String, arith,
  if◌then◌else◌, get_elem?, count_if, Option-cases, count_if-append,
}
use open_webui_memorist_edit.Scheduler.Lanes.{Lane}
use open_webui_memorist_edit.Scheduler.{
  Job, Queued, Heap, Scheduler, select_next, remove_at, submit, take_entry, claim_next, complete,
  pause_lane, resume_lane,
}
use open_webui_memorist_edit.Scheduler.Selection.{count_if-remove_at}
use open_webui_memorist_edit.Scheduler.Choice.{select_next-Chosen}

-- A call of a public method.
pub data Call : Type 0 where
  submit_job : Job → Call
  claim : ℕ → String → Call
  complete_worker : String → Call
  pause resume : Lane → Call

abbrev pub handed_out : Option Job → List Job
handed_out none = []
handed_out (some job) = job ∷ []

module _ (heap : Heap) where
  open heap use {count-heappush, count-heapify}

  -- The new state, the jobs handed in and the jobs handed out.
  unfoldable pub call : Call → Scheduler → Scheduler × List Job × List Job
  call (submit_job job) s = (submit heap job s, job ∷ [], [])
  call (claim now worker) s =
      let (claimed, s') = claim_next heap now worker s in (s', [], handed_out claimed)
  call (complete_worker worker) s = (complete worker s, [], [])
  call (pause lane) s = (pause_lane lane s, [], [])
  call (resume lane) s = (resume_lane lane s, [], [])

  unfoldable pub run : Scheduler → List Call → Scheduler × List Job × List Job
  run s [] = (s, [], [])
  run s (c ∷ cs) =
      let step = call c s in
      let rest = run step.0 cs in (rest.0, step.1 ++ rest.1, step.2 ++ rest.2)

  abbrev pub queued_jobs : (Job → Bool) → Scheduler → ℕ
  queued_jobs p s = count_if (λ q. p q.job) s.queue

  pub count-take_entry :
      (p : Queued → Bool) (now : ℕ) (worker : String) (e : ℕ × Queued) (s : Scheduler)
      → get_elem? s.queue e.0 ≡ some e.1
      → (if p e.1 then 1 else 0) + count_if p (take_entry heap now worker e s).queue
        ≡ count_if p s.queue
  unfolding take_entry
  count-take_entry p now worker e s at =
      omega
        (arith, count-heapify p (remove_at e.0 s.queue), count_if-remove_at p e.0 s.queue e.1 at)

  pub claim_next-none :
      (now : ℕ) (worker : String) (s : Scheduler)
      → select_next s ≡ none
      → claim_next heap now worker s ≡ (none, s)
  unfolding claim_next
  claim_next-none now worker s h = rw (h, claim_next)

  pub claim_next-some :
      (now : ℕ) (worker : String) (s : Scheduler) (e : ℕ × Queued)
      → select_next s ≡ some e
      → claim_next heap now worker s ≡ (some e.1.job, take_entry heap now worker e s)
  unfolding claim_next
  claim_next-some now worker s e h = rw (h, claim_next)

  pub count-submit :
      (p : Job → Bool) (job : Job) (s : Scheduler)
      → queued_jobs p (submit heap job s) ≡ (if p job then 1 else 0) + queued_jobs p s
  unfolding submit
  count-submit p job s = count-heappush (λ q. p q.job) s.queue _

  -- One call conserves the jobs.
  call_conserves :
      (p : Job → Bool) (c : Call) (s : Scheduler)
      → let r = call c s in queued_jobs p s + count_if p r.1 ≡ queued_jobs p r.0 + count_if p r.2
  unfolding call complete pause_lane resume_lane
  call_conserves p (submit_job job) s = omega (arith, count-submit p job s)
  call_conserves p (claim now worker) s = elim (Option-cases (select_next s)) [
    | inl h ↦ rw (claim_next-none now worker s h) (omega arith)
    | inr (e, h) ↦
        let chosen = select_next-Chosen s e h in
        rw (claim_next-some now worker s e h)
          (omega (arith, count-take_entry (λ q. p q.job) now worker e s chosen.at))
  ]
  call_conserves p (complete_worker worker) s = omega arith
  call_conserves p (pause lane) s = omega arith
  call_conserves p (resume lane) s = omega arith

  -- In any sequence of calls, for every kind of job: the jobs queued at the start and those handed
  -- in are the jobs queued at the end and those handed out, counted with repetitions.
  pub run_conserves :
      (p : Job → Bool) (cs : List Call) (s : Scheduler)
      → let r = run s cs in queued_jobs p s + count_if p r.1 ≡ queued_jobs p r.0 + count_if p r.2
  unfolding run
  run_conserves p [] s = omega arith
  run_conserves p (c ∷ cs) s =
      let step = call c s in
      let rest = run step.0 cs in
      omega (
        arith,
        call_conserves p c s,
        run_conserves p cs step.0,
        count_if-append p step.1 rest.1,
        count_if-append p step.2 rest.2,
      )
