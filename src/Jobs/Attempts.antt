-- ===== src/Jobs/Attempts.antt =====
-- How often a job is handed out.
use mathlib.Core.Option
use open_webui_memorist_edit.Prelude.{
  ℕ, ◌+◌, ◌≤◌, ◌≡◌, refl, inl, inr, Bool, ◌&&◌, ◌||◌, Option, none, some, List, [], ◌∷◌, ◌++◌,
  String, arith, ◌==◌, if◌then◌else◌, str_eq, count_if, any, filter_if, Bool-cases, Option-cases,
}
use open_webui_memorist_edit.Jobs.{
  Job, Table, Reply, has_uuid, find, update_where, get_job, NewJob, new_row, insert_job, released,
  succeeded, dead, with_error, failure_status, enqueue_job, enqueue_job_once, earliest, same_work,
  select_claimable, claimed_row, takes, claim_next_job_once, update_job, mark_job_succeeded,
  mark_job_failed, mark_job_dead, JobCall, enqueue, enqueue_once, claim, succeed, fail, kill,
  table_after, call_job, run_jobs,
}
use open_webui_memorist_edit.Jobs.Rows.{find-All}
use open_webui_memorist_edit.Jobs.Validity.{IsSound, IsValid, call_job-IsValid, run_jobs-IsValid}

-- The attempts on the rows with an identifier.
pub attempts_of : String → Table → ℕ
attempts_of uuid [] = 0
attempts_of uuid (j ∷ t) = (if has_uuid uuid j then j.attempts else 0) + attempts_of uuid t

abbrev pub handed_out : Option Job → List Job
handed_out none = []
handed_out (some j) = j ∷ []

module _ (uuid : String) where
  attempts-kept :
      (p : Job → Bool) (f : Job → Job) (t : Table)
      → ((j : Job) → ((f j).job_uuid ≡ j.job_uuid) × ((f j).attempts ≡ j.attempts))
      → attempts_of uuid (update_where p f t) ≡ attempts_of uuid t
  unfolding attempts_of
  attempts-kept p f [] same = refl
  attempts-kept p f (j ∷ t) same = elim (Bool-cases (p j)) [
    | inl e ↦ rw (e, (same j).0, (same j).1) (omega (arith, attempts-kept p f t same))
    | inr e ↦ rw e (omega (arith, attempts-kept p f t same))
  ]

  attempts-claimed :
      (p : Job → Bool) (now : ℕ) (t : Table)
      → attempts_of uuid (update_where p (claimed_row now) t)
        ≡ attempts_of uuid t + count_if (λ r. p r && has_uuid uuid r) t
  unfolding attempts_of
  attempts-claimed p now [] = refl
  attempts-claimed p now (j ∷ t) = elim (Bool-cases (p j)) [
    | inl e ↦ rw e (ground (arith, attempts-claimed p now t))
    | inr e ↦ rw e (omega (arith, attempts-claimed p now t))
  ]

  attempts-append :
      (t : Table) (j : Job)
      → attempts_of uuid (t ++ j ∷ [])
        ≡ attempts_of uuid t + (if has_uuid uuid j then j.attempts else 0)
  unfolding attempts_of
  attempts-append [] j = omega arith
  attempts-append (x ∷ t) j = omega (arith, attempts-append t j)

count_and_zero :
    (p q : Job → Bool) (t : Table) → count_if p t ≡ 0 → count_if (λ r. p r && q r) t ≡ 0
count_and_zero p q [] h = refl
count_and_zero p q (j ∷ t) h = ground (arith, count_and_zero p q t)

count_found :
    (p q : Job → Bool) (t : Table) (r : Job)
    → count_if p t ≤ 1
    → find p t ≡ some r
    → count_if (λ r. p r && q r) t ≡ (if q r then 1 else 0)
unfolding find
count_found p q [] r c h = cc
count_found p q (j ∷ t) r c h = elim (Bool-cases (p j)) [
  | inl e ↦
      let same : j ≡ r = let k = rw e at h in cc in
      let rest : count_if p t ≡ 0 = let k = rw e at c in omega arith in
      rw (e, same) (omega (arith, count_and_zero p q t rest))
  | inr e ↦
      let below : count_if p t ≤ 1 = let k = rw e at c in omega arith in
      let later = count_found p q t r below (rw e at h) in rw e (omega (arith, later))
]

count_missing : (p : Job → Bool) (t : Table) → find p t ≡ none → count_if p t ≡ 0
unfolding find
count_missing p [] h = refl
count_missing p (j ∷ t) h = elim (Bool-cases (p j)) [
  | inl e ↦ let k = rw e at h in cc
  | inr e ↦ let later = count_missing p t (rw e at h) in rw e (omega (arith, later))
]

pub count_takes : (s : Job) (t : Table) → count_if (takes s) t ≤ count_if (has_uuid s.job_uuid) t
count_takes s [] = omega arith
count_takes s (j ∷ t) = ground (arith, count_takes s t)

attempts_zero :
    (uuid : String) (t : Table) → count_if (has_uuid uuid) t ≡ 0 → attempts_of uuid t ≡ 0
unfolding attempts_of
attempts_zero uuid [] h = refl
attempts_zero uuid (j ∷ t) h = ground (arith, attempts_zero uuid t)

attempts_found :
    (uuid : String) (t : Table) (j : Job)
    → count_if (has_uuid uuid) t ≤ 1
    → find (has_uuid uuid) t ≡ some j
    → attempts_of uuid t ≡ j.attempts
unfolding attempts_of find
attempts_found uuid [] j c h = cc
attempts_found uuid (x ∷ t) j c h = elim (Bool-cases (has_uuid uuid x)) [
  | inl e ↦
      let same : x ≡ j = let k = rw e at h in cc in
      let rest : count_if (has_uuid uuid) t ≡ 0 = let k = rw e at c in omega arith in
      rw (e, same) (omega (arith, attempts_zero uuid t rest))
  | inr e ↦
      let below : count_if (has_uuid uuid) t ≤ 1 = let k = rw e at c in omega arith in
      let later = attempts_found uuid t j below (rw e at h) in rw e (omega (arith, later))
]

-- A reply that leaves the attempts on an identifier.
abbrev Keeps : String → Table → Reply → Type 0
Keeps uuid t r = attempts_of uuid (table_after t r) ≡ attempts_of uuid t

module _ (uuid : String) where
  insert-Keeps :
      (id : String) (now : ℕ) (n : NewJob) (key : Option String) (t : Table)
      → Keeps uuid t (insert_job (new_row id now n key) t)
  unfolding insert_job
  insert-Keeps id now n key t = elim (Bool-cases (str_eq n.job_type "" || n.max_attempts == 0)) [
    | inl bad ↦ rw bad
    | inr good ↦ elim (Bool-cases (any (has_uuid id) t)) [
      | inl taken ↦ rw (good, taken)
      | inr fresh ↦
          rw (good, fresh)
            (let more = attempts-append uuid t (new_row id now n key) in ground arith)
    ]
  ]

  once-Keeps :
      (id : String) (now : ℕ) (key : String) (n : NewJob) (t : Table)
      → Keeps uuid t (enqueue_job_once id now key n t)
  unfolding enqueue_job_once
  once-Keeps id now key n t = elim (Option-cases (earliest (filter_if (same_work n) t))) [
    | inl e ↦ rw (e, table_after, enqueue_job_once) (insert-Keeps id now n (some key) t)
    | inr (j, e) ↦ rw (e, table_after, enqueue_job_once)
  ]

  update_job-Keeps :
      (id : String) (f : Job → Job) (t : Table)
      → ((j : Job) → ((f j).job_uuid ≡ j.job_uuid) × ((f j).attempts ≡ j.attempts))
      → Keeps uuid t (update_job id f t)
  unfolding update_job
  update_job-Keeps id f t same = elim (Option-cases (get_job id (update_where (has_uuid id) f t))) [
    | inl e ↦ rw (e, table_after, update_job)
    | inr (j, e) ↦ rw (e, table_after, update_job) (attempts-kept uuid (has_uuid id) f t same)
  ]

  failed-Keeps :
      (id error : String) (retry : Bool) (now : ℕ) (t : Table)
      → Keeps uuid t (mark_job_failed id error retry now t)
  unfolding mark_job_failed
  failed-Keeps id error retry now t = elim (Option-cases (get_job id t)) [
    | inl e ↦ rw (e, table_after, mark_job_failed)
    | inr (job, e) ↦
        rw (e, table_after, mark_job_failed)
          (update_job-Keeps id (λ j. with_error error (released (failure_status retry job) now j)) t
            (λ j. (refl, refl)))
  ]

  -- What one call adds to the attempts is what it hands out.
  abbrev Adds : Table → Option Job × Table → Type 0
  Adds t r = attempts_of uuid r.1 ≡ attempts_of uuid t + count_if (has_uuid uuid) (handed_out r.0)

  claimed-Adds :
      (now : ℕ) (s : Job) (t : Table) (o : Option Job)
      → IsValid t
      → find (takes s) t ≡ o
      → Adds t (Option.map (claimed_row now) o, update_where (takes s) (claimed_row now) t)
  claimed-Adds now s t none v h =
      let gone = count_and_zero (takes s) (has_uuid uuid) t (count_missing (takes s) t h) in
      omega (arith, attempts-claimed uuid (takes s) now t)
  claimed-Adds now s t (some r) v h =
      let unique = v.unique s.job_uuid in
      let one : count_if (takes s) t ≤ 1 = omega (arith, count_takes s t) in
      let found = count_found (takes s) (has_uuid uuid) t r one h in
      omega (arith, attempts-claimed uuid (takes s) now t)

  claim-Adds : (now : ℕ) (t : Table) → IsValid t → Adds t (claim_next_job_once now t)
  unfolding claim_next_job_once
  claim-Adds now t v = elim (Option-cases (select_claimable now t)) [
    | inl e ↦ rw (e, claim_next_job_once) (omega arith)
    | inr (s, e) ↦ rw (e, claim_next_job_once) (claimed-Adds now s t (find (takes s) t) v refl)
  ]

  call-Adds : (c : JobCall) (t : Table) → IsValid t → Adds t (call_job c t)
  unfolding call_job enqueue_job mark_job_succeeded mark_job_dead
  call-Adds (enqueue id now n) t v = omega (arith, insert-Keeps id now n none t)
  call-Adds (enqueue_once id now key n) t v = omega (arith, once-Keeps id now key n t)
  call-Adds (claim now) t v = claim-Adds now t v
  call-Adds (succeed id now) t v =
      omega (arith, update_job-Keeps id (released succeeded now) t (λ j. (refl, refl)))
  call-Adds (fail id error retry now) t v = omega (arith, failed-Keeps id error retry now t)
  call-Adds (kill id error now) t v = omega (
    arith,
    update_job-Keeps id (λ j. with_error error (released dead now j)) t (λ j. (refl, refl)),
  )

  count-handed_out :
      (o : Option Job) (js : List Job)
      → count_if (has_uuid uuid) (elim o [ none ↦ js | some j ↦ j ∷ js ])
        ≡ count_if (has_uuid uuid) (handed_out o) + count_if (has_uuid uuid) js
  count-handed_out none js = omega arith
  count-handed_out (some j) js = omega arith

  run-Adds :
      (cs : List JobCall) (t : Table)
      → IsValid t
      → attempts_of uuid (run_jobs t cs).0
        ≡ attempts_of uuid t + count_if (has_uuid uuid) (run_jobs t cs).1
  unfolding run_jobs
  run-Adds [] t v = omega arith
  run-Adds (c ∷ cs) t v =
      let step = call_job c t in
      let rest = run_jobs step.1 cs in
      omega (
        arith,
        call-Adds c t v,
        run-Adds cs step.1 (call_job-IsValid c t v),
        count-handed_out step.0 rest.1,
      )

-- In any sequence of calls from a valid table, a job that is in the table at the end has been handed
-- out as often as its attempts have grown, from those of its identifier at the start, and its
-- attempts are at most its limit.
pub claims_within_attempts :
    (cs : List JobCall) (t : Table) (uuid : String) (j : Job)
    → IsValid t
    → get_job uuid (run_jobs t cs).0 ≡ some j
    → (attempts_of uuid t + count_if (has_uuid uuid) (run_jobs t cs).1 ≡ j.attempts)
      × (j.attempts ≤ j.max_attempts)
unfolding get_job
claims_within_attempts cs t uuid j v h =
    let w = run_jobs-IsValid cs t v in
    let final = attempts_found uuid (run_jobs t cs).0 j (w.unique uuid) h in
    let sound = find-All IsSound (has_uuid uuid) (run_jobs t cs).0 j w.rows h in
    (omega (arith, run-Adds uuid cs t v), sound.within)
