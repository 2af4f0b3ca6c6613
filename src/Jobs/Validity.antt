-- ===== src/Jobs/Validity.antt =====
-- What holds of the table of jobs between two calls.
use mathlib.Core.Path.{subst}
use open_webui_memorist_edit.Prelude.{
  ℕ, ◌≤◌, ◌≡◌, refl, sym, ap, inl, inr, Bool, true, false, not, ◌||◌, Option, none, some, List, [],
  ◌∷◌, ◌++◌, String, arith, ltb, ◌==◌, str_eq, eq_iff, count_if, count_if-append, filter_if,
  &&-right, any, All, Bool-cases, Option-cases,
}
use open_webui_memorist_edit.Jobs.{
  dead, succeeded, Job, Table, is_pending, is_running, has_uuid, update_where, get_job, NewJob,
  new_row, insert_job, enqueue_job, enqueue_job_once, earliest, same_work, select_claimable,
  claimed_row, takes, claim_next_job_once, update_job, released, with_error, mark_job_succeeded,
  failure_status, mark_job_failed, mark_job_dead, JobCall, enqueue, enqueue_once, claim, succeed,
  fail, kill, table_after, call_job, run_jobs,
}
use open_webui_memorist_edit.Jobs.Rows.{
  All-update_where, count-update_where, count-zero, update_found,
}

abbrev pub locked : Job → Bool
locked j = elim j.locked_by [ none ↦ false | some w ↦ true ]

-- A row's attempts are within its limit, below it while the row waits, and the row is locked
-- exactly while it runs.
pub record IsSound (j : Job) : Type 0 where
  pub within : j.attempts ≤ j.max_attempts
  pub below : not (is_pending j.status) || ltb j.attempts j.max_attempts ≡ true
  pub locked_running : locked j ≡ is_running j.status

-- The rows are sound, and no two have the same identifier.
pub record IsValid (t : Table) : Type 0 where
  pub rows : All IsSound t
  pub unique : (uuid : String) → count_if (has_uuid uuid) t ≤ 1

pub empty-IsValid : IsValid []
empty-IsValid = record { rows = tt; unique = λ u. omega arith }

update-IsValid :
    (p : Job → Bool) (f : Job → Job) (t : Table)
    → ((j : Job) → p j ≡ true → IsSound j → IsSound (f j))
    → ((j : Job) → (f j).job_uuid ≡ j.job_uuid)
    → IsValid t
    → IsValid (update_where p f t)
update-IsValid p f t sound same v = record {
  rows = All-update_where p f IsSound t sound v.rows;
  unique = λ u.
      let kept = count-update_where p f (has_uuid u) t (λ j. ap (λ s. str_eq s u) (same j)) in
      let k = v.unique u in omega (arith, kept);
}

claimed-IsSound :
    (now : ℕ) (j : Job) → is_pending j.status ≡ true → IsSound j → IsSound (claimed_row now j)
claimed-IsSound now j e s = record {
  within = let b = s.below in ground arith;
  below = refl;
  locked_running = refl;
}

All-append-one : (t : Table) (j : Job) → All IsSound t → IsSound j → All IsSound (t ++ j ∷ [])
All-append-one [] j h k = (k, tt)
All-append-one (x ∷ t) j h k = (h.0, All-append-one t j h.1 k)

unique_append :
    (t : Table) (j : Job)
    → any (has_uuid j.job_uuid) t ≡ false
    → ((uuid : String) → count_if (has_uuid uuid) t ≤ 1)
    → (uuid : String) → count_if (has_uuid uuid) (t ++ j ∷ []) ≤ 1
unique_append t j fresh unique uuid = elim (Bool-cases (str_eq j.job_uuid uuid)) [
  | inl e ↦
      let same : j.job_uuid ≡ uuid = (eq_iff j.job_uuid uuid).0 e in
      let none_there : count_if (has_uuid uuid) t ≡ 0 =
        count-zero (has_uuid uuid) t (subst (λ u. any (has_uuid u) t ≡ false) same fresh) in
      ground (arith, count_if-append (has_uuid uuid) t (j ∷ []))
  | inr e ↦ ground (arith, count_if-append (has_uuid uuid) t (j ∷ []), unique uuid)
]

insert-IsValid :
    (uuid : String) (now : ℕ) (n : NewJob) (key : Option String) (t : Table)
    → IsValid t
    → IsValid (table_after t (insert_job (new_row uuid now n key) t))
unfolding insert_job
insert-IsValid uuid now n key t v =
    elim (Bool-cases (str_eq n.job_type "" || n.max_attempts == 0)) [
      | inl bad ↦ rw bad v
      | inr good ↦ elim (Bool-cases (any (has_uuid uuid) t)) [
        | inl taken ↦ rw (good, taken) v
        | inr fresh ↦
            rw (good, fresh)
              (record {
                rows =
                    All-append-one t (new_row uuid now n key) v.rows (record {
                      within = omega arith;
                      below = ground arith;
                      locked_running = refl;
                    });
                unique = unique_append t (new_row uuid now n key) fresh v.unique;
              })
      ]
    ]

once-IsValid :
    (uuid : String) (now : ℕ) (key : String) (n : NewJob) (t : Table)
    → IsValid t
    → IsValid (table_after t (enqueue_job_once uuid now key n t))
unfolding enqueue_job_once
once-IsValid uuid now key n t v = elim (Option-cases (earliest (filter_if (same_work n) t))) [
  | inl e ↦ rw (e, table_after, enqueue_job_once) (insert-IsValid uuid now n (some key) t v)
  | inr (j, e) ↦ rw (e, table_after, enqueue_job_once) v
]

claim-IsValid : (now : ℕ) (t : Table) → IsValid t → IsValid (claim_next_job_once now t).1
unfolding claim_next_job_once
claim-IsValid now t v = elim (Option-cases (select_claimable now t)) [
  | inl e ↦ rw (e, claim_next_job_once) v
  | inr (j, e) ↦
      rw (e, claim_next_job_once)
        (update-IsValid (takes j) (claimed_row now) t
          (λ r h. claimed-IsSound now r (&&-right (has_uuid j.job_uuid r) (is_pending r.status) h))
          (λ r. refl) v)
]

update_job-IsValid :
    (uuid : String) (f : Job → Job) (t : Table)
    → IsValid (update_where (has_uuid uuid) f t)
    → IsValid t
    → IsValid (table_after t (update_job uuid f t))
unfolding update_job
update_job-IsValid uuid f t w v =
    elim (Option-cases (get_job uuid (update_where (has_uuid uuid) f t))) [
      | inl e ↦ rw (e, table_after, update_job) v
      | inr (j, e) ↦ rw (e, table_after, update_job) w
    ]

failed-IsSound :
    (error : String) (retry : Bool) (now : ℕ) (j : Job)
    → IsSound j
    → IsSound (with_error error (released (failure_status retry j) now j))
unfolding failure_status
failed-IsSound error retry now j s = record {
  within = s.within;
  below = ground arith;
  locked_running = ground arith;
}

failed-IsValid :
    (uuid error : String) (retry : Bool) (now : ℕ) (t : Table)
    → IsValid t
    → IsValid (table_after t (mark_job_failed uuid error retry now t))
unfolding mark_job_failed get_job
failed-IsValid uuid error retry now t v = elim (Option-cases (get_job uuid t)) [
  | inl e ↦ rw (e, table_after, mark_job_failed) v
  | inr (job, e) ↦
      let f : Job → Job → Job = λ k j. with_error error (released (failure_status retry k) now j) in
      rw (e, table_after, mark_job_failed)
        (update_job-IsValid uuid (f job) t
          (subst IsValid (sym (update_found (has_uuid uuid) f t job (v.unique uuid) e)) (
            update-IsValid (has_uuid uuid) (λ j. f j j) t
              (λ j h s. failed-IsSound error retry now j s) (λ j. refl) v))
          v)
]

pub call_job-IsValid : (c : JobCall) (t : Table) → IsValid t → IsValid (call_job c t).1
unfolding call_job enqueue_job mark_job_succeeded mark_job_dead
call_job-IsValid (enqueue uuid now n) t v = insert-IsValid uuid now n none t v
call_job-IsValid (enqueue_once uuid now key n) t v = once-IsValid uuid now key n t v
call_job-IsValid (claim now) t v = claim-IsValid now t v
call_job-IsValid (succeed uuid now) t v =
    update_job-IsValid uuid (released succeeded now) t
      (update-IsValid (has_uuid uuid) (released succeeded now) t
        (λ j h s. record { within = s.within; below = refl; locked_running = refl }) (λ j. refl) v)
      v
call_job-IsValid (fail uuid error retry now) t v = failed-IsValid uuid error retry now t v
call_job-IsValid (kill uuid error now) t v =
    update_job-IsValid uuid (λ j. with_error error (released dead now j)) t
      (update-IsValid (has_uuid uuid) (λ j. with_error error (released dead now j)) t
        (λ j h s. record { within = s.within; below = refl; locked_running = refl }) (λ j. refl) v)
      v

-- From a valid table, whatever the calls, the table is valid: no two rows have the same identifier;
-- the attempts of each row are at most its limit, and below it while the row is pending; and a row
-- is locked exactly while it is running.
pub run_jobs-IsValid : (cs : List JobCall) (t : Table) → IsValid t → IsValid (run_jobs t cs).0
unfolding run_jobs
run_jobs-IsValid [] t v = v
run_jobs-IsValid (c ∷ cs) t v = run_jobs-IsValid cs (call_job c t).1 (call_job-IsValid c t v)
