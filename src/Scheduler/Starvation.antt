-- ===== src/Scheduler/Starvation.antt =====
-- The bound on background work that is claimed while hot work waits.
use open_webui_memorist_edit.Prelude.{
  ℕ, suc, ◌+◌, ◌≤◌, ◌<◌, ◌≡◌, refl, ◌⊎◌, inl, inr, Bool, true, false, not, ◌&&◌, some, List, [],
  ◌∷◌, String, arith, get_elem?, count_if, Bool-cases,
}
use open_webui_memorist_edit.Scheduler.Lanes.{Lane, is_hot, is_low_priority}
use open_webui_memorist_edit.Scheduler.{
  Job, Queued, Heap, Scheduler, hot_job, low_job, select_next, submit, take_entry, claim_next,
  complete,
}
use open_webui_memorist_edit.Scheduler.Choice.{Runnable, select_next-Chosen}
use open_webui_memorist_edit.Scheduler.Runs.{count-take_entry, claim_next-some}

-- A runnable job of a hot lane is in the queue.
abbrev pub hot_runnable : Scheduler → Queued → Bool
hot_runnable s q = hot_job q && not (s.paused_lanes q.job.lane)

abbrev pub HotWaits : Scheduler → Type 0
HotWaits s = 0 < count_if (hot_runnable s) s.queue

-- What a positive count counts stands at some index.
find_counted :
    (p : Queued → Bool) (xs : List Queued)
    → 0 < count_if p xs
    → (i : ℕ) × (q : Queued) × (get_elem? xs i ≡ some q) × (p q ≡ true)
find_counted p [] h = absurd (omega arith)
find_counted p (x ∷ xs) h = elim (Bool-cases (p x)) [
  | inl e ↦ (0, x, refl, e)
  | inr e ↦
      let rest : 0 < count_if p xs = ground arith in
      let (i, q, at, passes) = find_counted p xs rest in (suc i, q, at, passes)
]

module _ (heap : Heap) where
  open heap use {count-heappush}

  -- Steps that pause no lane, with the number of background claims among them. A claim of a job
  -- that is not of the background ends such a run.
  pub data Background : ℕ → Scheduler → Scheduler → Type 0 where
    none_yet : {s : Scheduler} → Background 0 s s
    handed_in :
        {k : ℕ} {s t : Scheduler} (job : Job)
        → Background k (submit heap job s) t
        → Background k s t
    finished :
        {k : ℕ} {s t : Scheduler} (worker : String)
        → Background k (complete worker s) t
        → Background k s t
    claimed_low :
        {k : ℕ} {s t : Scheduler} (now : ℕ) (worker : String) (e : ℕ × Queued)
        → select_next s ≡ some e
        → low_job e.1 ≡ true
        → Background k (claim_next heap now worker s).1 t
        → Background (suc k) s t

  low_not_hot : (l : Lane) → is_low_priority l ≡ true → is_hot l ≡ false
  low_not_hot l h = ground arith

  -- While hot work waits, background work is taken only below the limit.
  claimed_low_below :
      (s : Scheduler) (e : ℕ × Queued)
      → HotWaits s
      → select_next s ≡ some e
      → low_job e.1 ≡ true
      → s.consecutive_low_priority < s.max_consecutive_low_priority
  claimed_low_below s e w h low =
      let (i, q, at, passes) = find_counted (hot_runnable s) s.queue w in
      let c = select_next-Chosen s e h in
      let r : Runnable s q = record { index = i; at = at; running = ground arith } in
      ground (arith, c.hot_when_due q r, low_not_hot e.1.job.lane low)

  HotWaits-submit : (job : Job) (s : Scheduler) → HotWaits s → HotWaits (submit heap job s)
  unfolding submit
  HotWaits-submit job s w = rw count-heappush (omega arith)

  HotWaits-complete : (worker : String) (s : Scheduler) → HotWaits s → HotWaits (complete worker s)
  unfolding complete
  HotWaits-complete worker s w = w

  abbrev SameCounters : Scheduler → Scheduler → Type 0
  SameCounters s t =
      (t.consecutive_low_priority ≡ s.consecutive_low_priority)
      × (t.max_consecutive_low_priority ≡ s.max_consecutive_low_priority)

  SameCounters-submit : (job : Job) (s : Scheduler) → SameCounters s (submit heap job s)
  unfolding submit
  SameCounters-submit job s = (refl, refl)

  SameCounters-complete : (worker : String) (s : Scheduler) → SameCounters s (complete worker s)
  unfolding complete
  SameCounters-complete worker s = (refl, refl)

  HotWaits-claimed_low :
      (now : ℕ) (worker : String) (s : Scheduler) (e : ℕ × Queued)
      → select_next s ≡ some e
      → low_job e.1 ≡ true
      → HotWaits s
      → HotWaits (claim_next heap now worker s).1
  HotWaits-claimed_low now worker s e h low w =
      let c = select_next-Chosen s e h in
      let kept = count-take_entry heap (hot_runnable s) now worker e s c.at in
      let cold : hot_runnable s e.1 ≡ false = rw (low_not_hot e.1.job.lane low) in
      let left : HotWaits (take_entry heap now worker e s) =
        unfold take_entry in omega (arith, rw cold at kept) in
      rw (claim_next-some heap now worker s e h) left

  -- A background claim raises the counter by one and leaves the limit.
  counted-claimed_low :
      (now : ℕ) (worker : String) (s : Scheduler) (e : ℕ × Queued)
      → select_next s ≡ some e
      → low_job e.1 ≡ true
      → let s' = (claim_next heap now worker s).1 in
        (s'.consecutive_low_priority ≡ s.consecutive_low_priority + 1)
        × (s'.max_consecutive_low_priority ≡ s.max_consecutive_low_priority)
  counted-claimed_low now worker s e h low =
      rw (claim_next-some heap now worker s e h) (unfold take_entry in (rw low, refl))

  -- From a state in which a job of a hot lane that is not paused is queued: in a run of submissions,
  -- completions and `k` claims, all of which take jobs of background lanes, there is no claim or
  -- `k` and the counter at the start together stay within the limit of consecutive background
  -- claims.
  pub starvation_bound :
      (k : ℕ) (s t : Scheduler)
      → HotWaits s
      → Background k s t
      → (k ≡ 0) ⊎ (k + s.consecutive_low_priority ≤ s.max_consecutive_low_priority)
  starvation_bound k s t w none_yet = inl refl
  starvation_bound k s t w (handed_in job b) =
      let same = SameCounters-submit job s in
      let rest = starvation_bound k (submit heap job s) t (HotWaits-submit job s w) b in omega arith
  starvation_bound k s t w (finished worker b) =
      let same = SameCounters-complete worker s in
      let rest = starvation_bound k (complete worker s) t (HotWaits-complete worker s w) b in
      omega arith
  starvation_bound _ s t w (claimed_low {k = k} now worker e h low b) =
      let below = claimed_low_below s e w h low in
      let counted = counted-claimed_low now worker s e h low in
      let rest =
        starvation_bound k (claim_next heap now worker s).1 t
          (HotWaits-claimed_low now worker s e h low w) b in
      omega arith
