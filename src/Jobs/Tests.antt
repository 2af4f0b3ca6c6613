-- ===== src/Jobs/Tests.antt =====
-- Claims and failures on small tables of jobs.
use open_webui_memorist_edit.Prelude.{
  ◌+◌, ◌≤◌, ◌≡◌, refl, inl, inr, true, none, some, List, [], ◌∷◌, count_if,
}
use open_webui_memorist_edit.Prelude.Int.{pos}
use open_webui_memorist_edit.Prelude.Texts.{take_chars}
use open_webui_memorist_edit.Jobs.{
  dead, enqueue_job, call_job, mark_job_failed, failure_status, update_job, Job, Table, changed,
  NewJob, new_row, has_uuid, get_job, JobCall, enqueue, claim, fail, run_jobs, claimed_row,
  claim_next_job_once, claim_next_job_compare_and_swap, enqueue_job_once, select_claimable,
  job_before, first_job, find, insert_job,
}
use open_webui_memorist_edit.Jobs.Validity.{IsValid, empty-IsValid, run_jobs-IsValid}
use open_webui_memorist_edit.Jobs.Attempts.{attempts_of, claims_within_attempts}
use open_webui_memorist_edit.Jobs.Claims.{IsClaimed, compare_and_swap-eq-once, claim_takes_first}
use open_webui_memorist_edit.Jobs.Enqueue.{enqueue_job_once_repeats}

abbrev work : NewJob
work = record {
  job_type = "extract";
  payload_ijson = "{}";
  priority = pos 50;
  run_after = none;
  max_attempts = 2;
}

abbrev calls : List JobCall
calls =
    enqueue "j1" 1 work
    ∷ claim 2
    ∷ fail "j1" "busy" true 3
    ∷ claim 4
    ∷ fail "j1" "busy" true 5
    ∷ claim 6
    ∷ []

abbrev first_row : Job
first_row = new_row "j1" 1 work none

abbrev second_row : Job
second_row = new_row "j2" 2 work none

abbrev two_rows : Table
two_rows = first_row ∷ second_row ∷ []

two_rows-IsValid : IsValid two_rows
unfolding run_jobs call_job enqueue_job insert_job
two_rows-IsValid =
    run_jobs-IsValid (enqueue "j1" 1 work ∷ enqueue "j2" 2 work ∷ []) [] empty-IsValid

abbrev dead_row : Job
dead_row = record first_row {
  status = dead;
  attempts = 2;
  last_error = some "busy";
  last_error_sanitized = some "busy";
  updated_at = some 5;
}

calls_end : get_job "j1" (run_jobs [] calls).0 ≡ some dead_row
unfolding run_jobs call_job enqueue_job insert_job claim_next_job_once select_claimable first_job
    find mark_job_failed failure_status update_job get_job take_chars
calls_end = refl

first_claimed :
    claim_next_job_once 5 two_rows
    ≡ (some (claimed_row 5 first_row), claimed_row 5 first_row ∷ second_row ∷ [])
unfolding claim_next_job_once select_claimable first_job find job_before
first_claimed = refl

abbrev delayed : NewJob
delayed = record work { run_after = some 100 }

abbrev waiting : Table
waiting = new_row "j1" 1 delayed none ∷ []

waiting-IsValid : IsValid waiting
unfolding run_jobs call_job enqueue_job insert_job
waiting-IsValid = run_jobs-IsValid (enqueue "j1" 1 delayed ∷ []) [] empty-IsValid

none_claimed : claim_next_job_once 5 waiting ≡ (none, waiting)
unfolding claim_next_job_once select_claimable
none_claimed = refl

enqueued_once :
    enqueue_job_once "j1" 1 "k" work []
    ≡ changed (new_row "j1" 1 work (some "k")) (new_row "j1" 1 work (some "k") ∷ [])
unfolding enqueue_job_once insert_job
enqueued_once = refl

claims_within_attempts_example :
    (attempts_of "j1" [] + count_if (has_uuid "j1") (run_jobs [] calls).1 ≡ dead_row.attempts)
    × (dead_row.attempts ≤ dead_row.max_attempts)
claims_within_attempts_example =
    claims_within_attempts calls [] "j1" dead_row empty-IsValid calls_end

run_jobs-IsValid_example : IsValid (run_jobs two_rows calls).0
run_jobs-IsValid_example = run_jobs-IsValid calls two_rows two_rows-IsValid

claim_takes_first_example :
    IsClaimed 5 two_rows
      (claimed_row 5 first_row ∷ second_row ∷ [])
      (claimed_row 5 first_row)
      second_row
claim_takes_first_example =
    claim_takes_first 5 two_rows (claimed_row 5 first_row ∷ second_row ∷ [])
      (claimed_row 5 first_row) second_row two_rows-IsValid first_claimed (inr (inl refl)) refl

compare_and_swap-eq-once_example :
    claim_next_job_compare_and_swap 5 two_rows ≡ claim_next_job_once 5 two_rows
compare_and_swap-eq-once_example = compare_and_swap-eq-once 5 two_rows two_rows-IsValid

abbrev later_work : NewJob
later_work = record work { run_after = some 70; max_attempts = 9 }

enqueue_job_once_repeats_example :
    enqueue_job_once "j2" 9 "k2" later_work (new_row "j1" 1 work (some "k") ∷ [])
    ≡ changed (new_row "j1" 1 work (some "k")) (new_row "j1" 1 work (some "k") ∷ [])
enqueue_job_once_repeats_example =
    enqueue_job_once_repeats "j1" "j2" 1 9 "k" "k2" work later_work []
      (new_row "j1" 1 work (some "k") ∷ []) (new_row "j1" 1 work (some "k")) refl refl enqueued_once
