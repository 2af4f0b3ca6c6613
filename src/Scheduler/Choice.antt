-- ===== src/Scheduler/Choice.antt =====
-- What the entry that `claim_next` takes is, against the queue as a whole.
use mathlib.Core.Path.{subst}
use open_webui_memorist_edit.Prelude.{
  ℕ, ◌+◌, ◌-◌, ◌≤◌, ◌<◌, ◌≡◌, sym, ◌⊎◌, inl, inr, ◌≢◌, Bool, true, false, none, some, List, [],
  arith, leb, get_elem?, filter_if, All, All-imp, Bool-cases, filter_if-All, All-filter_if,
  filter_if-passes,
}
use open_webui_memorist_edit.Scheduler.{
  Queued, queued_lt, Scheduler, hot_job, enumerate, eligible, hot_entry, choose, select_next,
}
use open_webui_memorist_edit.Scheduler.Selection.{
  Least, enumerate-At, enumerate-lookup, choose-keeps, choose-Least, choose-none, choose-forced,
}

-- `r` stands in the queue, and its lane is not paused.
pub record Runnable (s : Scheduler) (r : Queued) : Type 0 where
  pub index : ℕ
  pub at : get_elem? s.queue index ≡ some r
  pub running : s.paused_lanes r.job.lane ≡ false

-- What is promised of a chosen entry: it is runnable, no hot rival comes before it, while hot work
-- is not due no rival at all does, and where hot work is due and waiting it is hot.
pub record Chosen (s : Scheduler) (e : ℕ × Queued) : Type 0 where
  pub at : get_elem? s.queue e.0 ≡ some e.1
  pub running : s.paused_lanes e.1.job.lane ≡ false
  pub before_hot : (r : Queued) → Runnable s r → hot_job r ≡ true → queued_lt r e.1 ≡ false
  pub before_all :
      (r : Queued)
      → Runnable s r
      → (s.consecutive_low_priority < s.max_consecutive_low_priority) ⊎ (hot_job e.1 ≡ false)
      → queued_lt r e.1 ≡ false
  pub hot_when_due :
      (r : Queued)
      → Runnable s r
      → hot_job r ≡ true
      → s.max_consecutive_low_priority ≤ s.consecutive_low_priority
      → hot_job e.1 ≡ true

module _ (s : Scheduler) where
  abbrev candidates : List (ℕ × Queued)
  candidates = filter_if (eligible s) (enumerate 0 s.queue)

  abbrev hots : List (ℕ × Queued)
  hots = filter_if hot_entry candidates

  abbrev due : Bool
  due = leb s.max_consecutive_low_priority s.consecutive_low_priority

  -- What holds of all candidates holds of each runnable element of the queue.
  candidates-Runnable {κ} :
      (P : ℕ × Queued → Type κ) (r : Queued) (run : Runnable s r)
      → All P candidates
      → P (run.index, r)
  candidates-Runnable P r run h =
      let kept = filter_if-All P (eligible s) (enumerate 0 s.queue) h in
      let here : 0 + run.index ≡ run.index = omega arith in
      let at =
        enumerate-lookup (λ a. eligible s a ≡ true → P a) 0 s.queue run.index r kept run.at in
      subst (λ (i : ℕ). P (i, r)) here (at (rw run.running))

  hots-Runnable {κ} :
      (P : ℕ × Queued → Type κ) (r : Queued) (run : Runnable s r)
      → hot_job r ≡ true
      → All P hots
      → P (run.index, r)
  hots-Runnable P r run hot h =
      candidates-Runnable (λ a. hot_entry a ≡ true → P a) r run
        (filter_if-All P hot_entry candidates h) hot

  abbrev AtQueue : ℕ × Queued → Type 0
  AtQueue e = get_elem? s.queue e.0 ≡ some e.1

  candidates-AtQueue : All AtQueue candidates
  candidates-AtQueue = All-filter_if AtQueue (eligible s) (enumerate 0 s.queue) (
      All-imp (enumerate 0 s.queue)
        (λ e h. let back : e.0 - 0 ≡ e.0 = omega arith in rw back at h.1) (enumerate-At 0 s.queue))

  candidates-eligible : All (λ e. eligible s e ≡ true) candidates
  candidates-eligible = filter_if-passes (eligible s) (enumerate 0 s.queue)

  module _ (e : ℕ × Queued) (chosen : select_next s ≡ some e) where
    picked : choose due candidates hots ≡ some e
    unfolding select_next
    picked = chosen

    kept {κ} : (P : ℕ × Queued → Type κ) → All P candidates → P e
    kept P h =
        choose-keeps P due candidates hots e picked h (All-filter_if P hot_entry candidates h)

    least :
        ((due ≡ true) × (hots ≢ []) × Least hots e)
        ⊎ (((due ≡ false) ⊎ (hots ≡ [])) × Least candidates e)
    least = choose-Least due candidates hots e picked

    Least-hots : Least hots e
    Least-hots = elim least [
      | inl l ↦ l.2
      | inr l ↦ All-filter_if (λ r. queued_lt r.1 e.1 ≡ false) hot_entry candidates l.1
    ]

    forced_hot : due ≡ true → hots ≢ [] → hot_job e.1 ≡ true
    forced_hot d ne =
        choose-forced (λ a. hot_entry a ≡ true) candidates hots e (rw d at picked) ne
          (filter_if-passes hot_entry candidates)

    hots_nonempty : (r : Queued) → Runnable s r → hot_job r ≡ true → hots ≢ []
    hots_nonempty r run hot nil =
        hots-Runnable (λ a. ⊥) r run hot (subst (All (λ a. ⊥)) (sym nil) tt)

    Least-all : (due ≡ false) ⊎ (hot_job e.1 ≡ false) → Least candidates e
    Least-all free = elim least [
      | inr l ↦ l.1
      | inl l ↦ elim free [ inl f ↦ cc | inr cold ↦ let hot = forced_hot l.0 l.1 in cc ]
    ]

    pub select_next-Chosen : Chosen s e
    select_next-Chosen = record {
      at = kept AtQueue candidates-AtQueue;
      running = let h = kept (λ a. eligible s a ≡ true) candidates-eligible in ground arith;
      before_hot = λ r run hot. hots-Runnable (λ a. queued_lt a.1 e.1 ≡ false) r run hot Least-hots;
      before_all = λ r run free.
          candidates-Runnable (λ a. queued_lt a.1 e.1 ≡ false) r run (Least-all (ground arith));
      hot_when_due = λ r run hot d. forced_hot (ground arith) (hots_nonempty r run hot);
    }

  -- Nothing is chosen only if no element of the queue is runnable.
  pub select_next-none : select_next s ≡ none → (r : Queued) → ¬ Runnable s r
  unfolding select_next
  select_next-none h r run =
      candidates-Runnable (λ a. ⊥) r run
        (subst (All (λ a. ⊥)) (sym (choose-none due candidates hots h)) tt)

-- How the taken entry `e` stands to a runnable entry `r`.
pub data Ranked (s : Scheduler) (e r : Queued) : Type 0 where
  in_order :
      queued_lt r e ≡ false
      → (s.consecutive_low_priority < s.max_consecutive_low_priority)
        ⊎ ((hot_job e ≡ true) ⊎ (hot_job r ≡ false))
      → Ranked s e r
  hot_first :
      s.max_consecutive_low_priority ≤ s.consecutive_low_priority
      → hot_job e ≡ true
      → hot_job r ≡ false
      → Ranked s e r

limit_cases :
    (s : Scheduler)
    → (s.consecutive_low_priority < s.max_consecutive_low_priority)
      ⊎ (s.max_consecutive_low_priority ≤ s.consecutive_low_priority)
limit_cases s = omega arith

-- The entry that the selection takes stands in the queue at the index it names, and its lane is not
-- paused. No runnable entry comes before it in the order of priority and number, except that at the
-- limit of consecutive background claims a hot entry is taken before one that is not hot; and at the
-- limit an entry that is not hot is taken only where no hot entry is runnable.
pub select_next-Ranked :
    (s : Scheduler) (e : ℕ × Queued) (r : Queued)
    → select_next s ≡ some e
    → Runnable s r
    → (get_elem? s.queue e.0 ≡ some e.1) × (s.paused_lanes e.1.job.lane ≡ false) × Ranked s e.1 r
select_next-Ranked s e r h run =
    let c = select_next-Chosen s e h in
    (
      c.at,
      c.running,
      elim (limit_cases s) [
        | inl below ↦ in_order (c.before_all r run (inl below)) (inl below)
        | inr due ↦ elim (Bool-cases (hot_job e.1)) [
          | inr cold ↦ elim (Bool-cases (hot_job r)) [
            | inl hot ↦ let forced = c.hot_when_due r run hot due in cc
            | inr k ↦ in_order (c.before_all r run (inr cold)) (inr (inr k))
          ]
          | inl hot ↦ elim (Bool-cases (hot_job r)) [
            | inl k ↦ in_order (c.before_hot r run k) (inr (inl hot))
            | inr k ↦ hot_first due hot k
          ]
        ]
      ],
    )
