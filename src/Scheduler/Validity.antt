-- ===== src/Scheduler/Validity.antt =====
-- What holds of a scheduler between two calls.
use open_webui_memorist_edit.Prelude.{
  ℕ, ◌-◌, ◌≤◌, ◌<◌, ◌≡◌, refl, inl, inr, some, List, [], ◌∷◌, ◌++◌, String, arith, ◌==◌, length,
  get_elem?, count_if, Option-cases, length-drop,
}
use open_webui_memorist_edit.Scheduler.Lanes.{Lane}
use open_webui_memorist_edit.Scheduler.{
  Job, Queued, Heap, Scheduler, init, backpressure_for, select_next, submit, take_entry, complete,
  pause_lane, resume_lane, max_samples, record_wait, update_lane,
}
use open_webui_memorist_edit.Scheduler.Choice.{select_next-Chosen}
use open_webui_memorist_edit.Scheduler.Runs.{
  Call, submit_job, claim, complete_worker, pause, resume, call, run, count-take_entry,
  claim_next-none, claim_next-some,
}

-- Numbers in the queue are at most the counter and occur once; the backpressure is the queue's.
pub record IsValid (s : Scheduler) : Type 0 where
  pub numbered : (n : ℕ) → s.sequence < n → count_if (λ q. q.sequence == n) s.queue ≡ 0
  pub unique : (n : ℕ) → count_if (λ q. q.sequence == n) s.queue ≤ 1
  pub reported : s.backpressure ≡ backpressure_for s.queue
  pub sampled : (l : Lane) → length (s.metrics l) ≤ max_samples

pub init-IsValid : (limit : ℕ) → IsValid (init limit)
unfolding init backpressure_for
init-IsValid limit = record {
  numbered = λ n h. refl;
  unique = λ n. omega arith;
  reported = refl;
  sampled = λ l. omega arith;
}

record_wait-bounded : (waits : List ℕ) (w : ℕ) → length (record_wait waits w) ≤ max_samples
unfolding record_wait
record_wait-bounded waits w =
    omega (arith, length-drop (length (waits ++ w ∷ []) - 512) (waits ++ w ∷ []))

update_lane-bounded :
    (f : Lane → List ℕ) (l k : Lane) (v : List ℕ)
    → length v ≤ max_samples
    → length (f k) ≤ max_samples
    → length (update_lane f l v k) ≤ max_samples
unfolding update_lane
update_lane-bounded f l k v hv hf = ground arith

module _ (heap : Heap) where
  open heap use {count-heappush}

  submit-IsValid : (job : Job) (s : Scheduler) → IsValid s → IsValid (submit heap job s)
  unfolding submit
  submit-IsValid job s v = record {
    numbered = λ n h. rw count-heappush (ground (arith, v.numbered n));
    unique = λ n. rw count-heappush (ground (arith, v.numbered n, v.unique n));
    reported = refl;
    sampled = v.sampled;
  }

  take_entry-IsValid :
      (now : ℕ) (worker : String) (e : ℕ × Queued) (s : Scheduler)
      → get_elem? s.queue e.0 ≡ some e.1
      → IsValid s
      → IsValid (take_entry heap now worker e s)
  unfolding take_entry
  take_entry-IsValid now worker e s at v = record {
    numbered = λ n h.
        omega
          (arith, count-take_entry heap (λ q. q.sequence == n) now worker e s at, v.numbered n h);
    unique = λ n.
        omega (arith, count-take_entry heap (λ q. q.sequence == n) now worker e s at, v.unique n);
    reported = refl;
    sampled = λ l.
        update_lane-bounded s.metrics e.1.job.lane l _
          (record_wait-bounded (s.metrics e.1.job.lane) _) (v.sampled l);
  }

  call-IsValid : (c : Call) (s : Scheduler) → IsValid s → IsValid (call heap c s).0
  unfolding call complete pause_lane resume_lane
  call-IsValid (submit_job job) s v = submit-IsValid job s v
  call-IsValid (claim now worker) s v = elim (Option-cases (select_next s)) [
    | inl h ↦ rw (claim_next-none heap now worker s h) v
    | inr (e, h) ↦
        let chosen = select_next-Chosen s e h in
        rw (claim_next-some heap now worker s e h) (take_entry-IsValid now worker e s chosen.at v)
  ]
  call-IsValid (complete_worker worker) s v = ground arith
  call-IsValid (pause lane) s v = ground arith
  call-IsValid (resume lane) s v = ground arith

  -- From a valid scheduler, whatever the calls, the scheduler is valid: the numbers in the queue
  -- are at most the counter and occur once, the reported backpressure is that of the queue, and a
  -- lane keeps at most 512 wait samples.
  pub run-IsValid : (cs : List Call) (s : Scheduler) → IsValid s → IsValid (run heap s cs).0
  unfolding run
  run-IsValid [] s v = v
  run-IsValid (c ∷ cs) s v = run-IsValid cs (call heap c s).0 (call-IsValid c s v)
