-- ===== src/Jobs.antt =====
-- The durable jobs of SQLite (memorist-core/src/memcore/repositories/domain.py, JobRepository): a
-- table of rows, and the statements that the methods execute on it.
-- A time is an instant; the code writes it as a text whose order is that of the instants. The
-- canonical text of a payload, the identifier of a new row and the idempotency key's hash come from
-- other code and are passed in. The fields of leases are those of another store.
pub mod Rows
pub mod Validity
pub mod Attempts
mod Selection
pub mod Claims
pub mod Enqueue
pub mod Tests
use mathlib.Core.Option
use Prim.Native.String.{compare}
use text.Mathlib.Text.{is_lt}
use open_webui_memorist_edit.Prelude.{
  ℕ, zero, suc, ◌+◌, Bool, true, false, not, ◌&&◌, ◌||◌, Option, none, some, List, [], ◌∷◌, ◌++◌,
  String, ltb, leb, ◌==◌, if◌then◌else◌, str_eq, count_if, filter_if, any, map,
}
use open_webui_memorist_edit.Prelude.Int.{ℤ, ltb_ℤ}
use open_webui_memorist_edit.Prelude.Texts.{take_chars}

pub data JobStatus : Type 0 where
  pending running succeeded failed dead cancelled : JobStatus

pub record Job : Type 0 where
  pub job_uuid : String
  pub job_type : String
  pub status : JobStatus
  pub priority : ℤ
  pub payload_ijson : String
  pub idempotency_key : Option String
  pub attempts : ℕ
  pub max_attempts : ℕ
  pub last_error : Option String
  pub last_error_sanitized : Option String
  pub run_after : Option ℕ
  pub locked_by : Option String
  pub locked_at : Option ℕ
  pub created_at : ℕ
  pub updated_at : Option ℕ

abbrev pub Table : Type 0
Table = List Job

-- RepositoryError for a missing row, the integrity error of a key that is taken, and the validation
-- error of a model.
pub data JobError : Type 0 where
  not_found key_taken invalid_job : JobError

pub data Reply : Type 0 where
  changed : Job → Table → Reply
  refused : JobError → Reply

abbrev pub is_pending : JobStatus → Bool
is_pending pending = true
is_pending _ = false

abbrev pub is_running : JobStatus → Bool
is_running running = true
is_running _ = false

abbrev pub has_uuid : String → Job → Bool
has_uuid uuid j = str_eq j.job_uuid uuid

-- The first row that a query returns.
unfoldable pub find : (Job → Bool) → Table → Option Job
find p [] = none
find p (j ∷ js) = let rest = find p js in if p j then some j else rest

-- UPDATE ... SET ... WHERE ...
abbrev pub update_where : (Job → Bool) → (Job → Job) → Table → Table
update_where p f = map (λ j. if p j then f j else j)

unfoldable pub get_job : String → Table → Option Job
unfolding find
get_job uuid = find (has_uuid uuid)

-- The arguments of a new job.
pub record NewJob : Type 0 where
  pub job_type : String
  pub payload_ijson : String
  pub priority : ℤ
  pub run_after : Option ℕ
  pub max_attempts : ℕ

abbrev pub new_row : String → ℕ → NewJob → Option String → Job
new_row uuid now n key = record {
  job_uuid = uuid;
  job_type = n.job_type;
  status = pending;
  priority = n.priority;
  payload_ijson = n.payload_ijson;
  idempotency_key = key;
  attempts = 0;
  max_attempts = n.max_attempts;
  last_error = none;
  last_error_sanitized = none;
  run_after = n.run_after;
  locked_by = none;
  locked_at = none;
  created_at = now;
  updated_at = none;
}

-- The model's bounds, then INSERT under the primary key.
unfoldable pub insert_job : Job → Table → Reply
insert_job j table =
    if str_eq j.job_type "" || j.max_attempts == 0
    then refused invalid_job
    else if any (has_uuid j.job_uuid) table
    then refused key_taken
    else changed j (table ++ j ∷ [])

unfoldable pub enqueue_job : String → ℕ → NewJob → Table → Reply
unfolding insert_job
enqueue_job uuid now n table = insert_job (new_row uuid now n none) table

-- The rows with the job's type and payload; the code orders them by their creation.
abbrev pub same_work : NewJob → Job → Bool
same_work n j = str_eq j.job_type n.job_type && str_eq j.payload_ijson n.payload_ijson

unfoldable pub earliest_from : Job → Table → Job
earliest_from m [] = m
earliest_from m (j ∷ js) = earliest_from (if ltb j.created_at m.created_at then j else m) js

abbrev pub earliest : Table → Option Job
earliest [] = none
earliest (j ∷ js) = some (earliest_from j js)

unfoldable pub enqueue_job_once : String → ℕ → String → NewJob → Table → Reply
unfolding insert_job
enqueue_job_once uuid now key n table = elim (earliest (filter_if (same_work n) table)) [
  | some existing ↦ changed existing table
  | none ↦ insert_job (new_row uuid now n (some key)) table
]

abbrev pub is_due : ℕ → Option ℕ → Bool
is_due now none = true
is_due now (some t) = leb t now

abbrev pub claimable : ℕ → Job → Bool
claimable now j = is_pending j.status && is_due now j.run_after

-- ORDER BY priority DESC, created_at ASC, job_uuid ASC
unfoldable pub job_before : Job → Job → Bool
job_before a b =
    if ltb_ℤ b.priority a.priority
    then true
    else if ltb_ℤ a.priority b.priority
    then false
    else if ltb a.created_at b.created_at
    then true
    else if ltb b.created_at a.created_at
    then false
    else is_lt (compare a.job_uuid b.job_uuid)

unfoldable pub first_job : Job → Table → Job
first_job m [] = m
first_job m (j ∷ js) = first_job (if job_before j m then j else m) js

abbrev pub first_of : Table → Option Job
first_of [] = none
first_of (j ∷ js) = some (first_job j js)

-- The inner SELECT.
unfoldable pub select_claimable : ℕ → Table → Option Job
unfolding first_job
select_claimable now table = first_of (filter_if (claimable now) table)

abbrev pub claimed_row : ℕ → Job → Job
claimed_row now j = record j {
  status = running;
  locked_by = some "sqlite-write-actor";
  locked_at = some now;
  attempts = j.attempts + 1;
  updated_at = some now;
}

-- WHERE job_uuid = ? AND status = 'pending'
abbrev pub takes : Job → Job → Bool
takes selected j = has_uuid selected.job_uuid j && is_pending j.status

-- The UPDATE with RETURNING, of which the first row is fetched.
unfoldable pub claim_next_job_once : ℕ → Table → Option Job × Table
unfolding find
claim_next_job_once now table = elim (select_claimable now table) [
  | none ↦ (none, table)
  | some selected ↦ (
    Option.map (claimed_row now) (find (takes selected) table),
    update_where (takes selected) (claimed_row now) table,
  )
]

-- The path without RETURNING: the row is selected, updated if it still is pending, and read again.
unfoldable pub claim_next_job_compare_and_swap : ℕ → Table → Option Job × Table
unfolding get_job
claim_next_job_compare_and_swap now table = elim (select_claimable now table) [
  | none ↦ (none, table)
  | some selected ↦
      let updated =
        update_where (takes selected)
          (λ j. record (claimed_row now j) { attempts = selected.attempts + 1 }) table in
      if not (count_if (takes selected) table == 1)
      then (none, updated)
      else (get_job selected.job_uuid updated, updated)
]

-- _update_job
unfoldable pub update_job : String → (Job → Job) → Table → Reply
unfolding get_job
update_job uuid values table =
    let updated = update_where (has_uuid uuid) values table in
    elim (get_job uuid updated) [ none ↦ refused not_found | some j ↦ changed j updated ]

abbrev pub released : JobStatus → ℕ → Job → Job
released status now j = record j {
  status = status;
  locked_by = none;
  locked_at = none;
  updated_at = some now;
}

-- `error[:240]` is the sanitized error.
abbrev pub with_error : String → Job → Job
with_error error j = record j {
  last_error = some error;
  last_error_sanitized = some (take_chars 240 error);
}

unfoldable pub mark_job_succeeded : String → ℕ → Table → Reply
unfolding update_job
mark_job_succeeded uuid now = update_job uuid (released succeeded now)

-- The status after a failure.
unfoldable pub failure_status : Bool → Job → JobStatus
failure_status retry j =
    if retry && ltb j.attempts j.max_attempts then pending else if retry then dead else failed

unfoldable pub mark_job_failed : String → String → Bool → ℕ → Table → Reply
unfolding update_job failure_status
mark_job_failed uuid error retry now table = elim (get_job uuid table) [
  | none ↦ refused not_found
  | some job ↦
      update_job uuid (λ j. with_error error (released (failure_status retry job) now j)) table
]

unfoldable pub mark_job_dead : String → String → ℕ → Table → Reply
unfolding update_job
mark_job_dead uuid error now = update_job uuid (λ j. with_error error (released dead now j))

-- A call of a method, with what it reads from outside.
pub data JobCall : Type 0 where
  enqueue : String → ℕ → NewJob → JobCall
  enqueue_once : String → ℕ → String → NewJob → JobCall
  claim : ℕ → JobCall
  succeed : String → ℕ → JobCall
  fail : String → String → Bool → ℕ → JobCall
  kill : String → String → ℕ → JobCall

-- A refused statement leaves the table.
abbrev pub table_after : Table → Reply → Table
table_after table (changed j t) = t
table_after table (refused e) = table

-- The table after a call, and the job that a claim hands out.
unfoldable pub call_job : JobCall → Table → Option Job × Table
call_job (enqueue uuid now n) t = (none, table_after t (enqueue_job uuid now n t))
call_job (enqueue_once uuid now key n) t = (none, table_after t (enqueue_job_once uuid now key n t))
call_job (claim now) t = claim_next_job_once now t
call_job (succeed uuid now) t = (none, table_after t (mark_job_succeeded uuid now t))
call_job (fail uuid error retry now) t =
    (none, table_after t (mark_job_failed uuid error retry now t))
call_job (kill uuid error now) t = (none, table_after t (mark_job_dead uuid error now t))

-- A sequence of calls: the table at the end, and the jobs handed out, in order.
unfoldable pub run_jobs : Table → List JobCall → Table × List Job
run_jobs t [] = (t, [])
run_jobs t (c ∷ cs) =
    let step = call_job c t in
    let rest = run_jobs step.1 cs in (rest.0, elim step.0 [ none ↦ rest.1 | some j ↦ j ∷ rest.1 ])
