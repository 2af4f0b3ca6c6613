-- ===== src/Leases.antt =====
-- The leases of memory_worker/service.py on the jobs of type memory_extraction, on SQLite. A job that is
-- claimed is held by a worker under a token and a generation until the lease expires; a write of the
-- worker is let through only while the row has them.
pub mod Rows
pub mod Fencing
pub mod Elsewhere
pub mod Holding
pub mod Tests
use open_webui_memorist_edit.Prelude.{
  ℕ, suc, ◌+◌, Bool, true, false, ◌&&◌, ◌||◌, Option, none, some, List, [], ◌∷◌, String, str_eq,
  ltb, leb, ◌==◌, if◌then◌else◌, count_if, filter_if,
}
use open_webui_memorist_edit.Prelude.Int.{ℤ, ltb_ℤ}
use open_webui_memorist_edit.Jobs.{JobStatus, pending, running, succeeded, dead}

-- A row of the table jobs.
pub record LeasedJob : Type 0 where
  pub job_uuid : String
  pub job_type : String
  pub priority : ℤ
  pub status : JobStatus
  pub payload_ijson : String
  pub run_after : Option ℕ
  pub created_at : ℕ
  pub attempts : ℕ
  pub max_attempts : ℕ
  pub locked_by : Option String
  pub locked_at : Option ℕ
  pub lease_token : Option String
  pub lease_generation : ℕ
  pub lease_expires_at : Option ℕ
  pub last_error : Option String
  pub last_error_sanitized : Option String

abbrev pub Table : Type 0
Table = List LeasedJob

abbrev pub has_uuid : String → LeasedJob → Bool
has_uuid uuid r = str_eq r.job_uuid uuid

-- `WHERE p` in an UPDATE, and a SELECT of one row.
abbrev pub update_rows : (LeasedJob → Bool) → (LeasedJob → LeasedJob) → Table → Table
update_rows p f [] = []
update_rows p f (r ∷ t) = (if p r then f r else r) ∷ update_rows p f t

abbrev pub find_row : (LeasedJob → Bool) → Table → Option LeasedJob
find_row p [] = none
find_row p (r ∷ t) = let later = find_row p t in if p r then some r else later

abbrev pub is_running : JobStatus → Bool
is_running running = true
is_running _ = false

abbrev pub is_pending : JobStatus → Bool
is_pending pending = true
is_pending _ = false

abbrev pub before : Option ℕ → ℕ → Bool
before none now = true
before (some e) now = ltb e now

abbrev pub expired : ℕ → LeasedJob → Bool
expired now r =
    str_eq r.job_type "memory_extraction" && is_running r.status && before r.lease_expires_at now

abbrev or_expired : Option String → Option String
or_expired none = some "lease expired"
or_expired (some e) = some e

abbrev pub unlocked : JobStatus → LeasedJob → LeasedJob
unlocked status r = record r {
  status = status;
  locked_by = none;
  locked_at = none;
  lease_token = none;
  lease_expires_at = none;
}

abbrev pub recovered : LeasedJob → LeasedJob
recovered r = record (unlocked (if leb r.max_attempts r.attempts then dead else pending) r) {
  last_error_sanitized = or_expired r.last_error_sanitized;
}

-- The recovery of stale jobs, which is also the first statement of a claim.
abbrev pub recover_stale_jobs : ℕ → Table → Table
recover_stale_jobs now t = update_rows (expired now) recovered t

abbrev due : Option ℕ → ℕ → Bool
due none now = true
due (some at) now = leb at now

abbrev pub claimable : ℕ → LeasedJob → Bool
claimable now r =
    is_pending r.status && str_eq r.job_type "memory_extraction" && due r.run_after now

abbrev run_time : LeasedJob → ℕ
run_time r = elim r.run_after [ none ↦ r.created_at | some at ↦ at ]

-- ORDER BY priority DESC, COALESCE(run_after, created_at), created_at
abbrev pub claim_before : LeasedJob → LeasedJob → Bool
claim_before a b =
    if ltb_ℤ b.priority a.priority
    then true
    else if ltb_ℤ a.priority b.priority
    then false
    else if ltb (run_time a) (run_time b)
    then true
    else if ltb (run_time b) (run_time a)
    then false
    else leb a.created_at b.created_at

-- LIMIT 1
abbrev pub first_row : Table → Option LeasedJob
first_row [] = none
first_row (r ∷ t) = elim (first_row t) [
  | none ↦ some r
  | some s ↦ if claim_before r s then some r else some s
]

abbrev pub leased : String → String → ℕ → ℕ → LeasedJob → LeasedJob
leased worker_id token now lease_seconds r = record r {
  status = running;
  locked_by = some worker_id;
  locked_at = some now;
  lease_token = some token;
  lease_generation = suc r.lease_generation;
  lease_expires_at = some (now + lease_seconds);
  attempts = r.attempts + 1;
}

abbrev pub takes : String → LeasedJob → Bool
takes uuid r = has_uuid uuid r && is_pending r.status

abbrev pub claim_row : String → String → ℕ → ℕ → Table → Option LeasedJob → Option LeasedJob × Table
claim_row worker_id token now lease_seconds t none = (none, t)
claim_row worker_id token now lease_seconds t (some r) =
    let after = update_rows (takes r.job_uuid) (leased worker_id token now lease_seconds) t in
    (
      if count_if (takes r.job_uuid) t == 1 then find_row (has_uuid r.job_uuid) after else none,
      after,
    )

-- _claim_next_extraction_job_sqlite, one transaction.
abbrev pub claim_next_extraction_job : String → String → ℕ → ℕ → Table → Option LeasedJob × Table
claim_next_extraction_job worker_id token now lease_seconds t =
    claim_row worker_id token now lease_seconds (recover_stale_jobs now t)
      (first_row (filter_if (claimable now) (recover_stale_jobs now t)))

-- `=` of SQL, which holds of no NULL.
abbrev sql_eq : Option String → Option String → Bool
sql_eq (some a) (some b) = str_eq a b
sql_eq _ _ = false

abbrev pub not_before : Option ℕ → ℕ → Bool
not_before none now = false
not_before (some e) now = leb now e

-- The fence: the row is still held under the token and the generation of `job`. Its test of job_type
-- is left out: a job that a worker holds is of type memory_extraction, and no call changes a type.
abbrev pub owns : LeasedJob → String → ℕ → LeasedJob → Bool
owns job worker_id now r =
    has_uuid job.job_uuid r
    && is_running r.status
    && sql_eq r.locked_by (some worker_id)
    && sql_eq r.lease_token job.lease_token
    && r.lease_generation == job.lease_generation
    && not_before r.lease_expires_at now

-- A fenced write, done or rejected with the table as it was.
pub data Fenced : Type 0 where
  written : Table → Fenced
  rejected : Table → Fenced

abbrev pub fenced_update : (LeasedJob → Bool) → (LeasedJob → LeasedJob) → Table → Fenced
fenced_update p f t = if count_if p t == 1 then written (update_rows p f t) else rejected t

-- The renewal of the lease before a call of a provider.
abbrev pub renew_lease : LeasedJob → String → ℕ → ℕ → Table → Fenced
renew_lease job worker_id now lease_seconds t =
    fenced_update (owns job worker_id now)
      (λ r. record r { lease_expires_at = some (now + lease_seconds); locked_at = some now }) t

abbrev pub finished : LeasedJob → LeasedJob
finished r = record (unlocked succeeded r) {
  last_error = none;
  last_error_sanitized = none;
  run_after = none;
}

abbrev is_open : JobStatus → Bool
is_open status = is_pending status || is_running status

abbrev unitized : LeasedJob → LeasedJob
unitized r = record r {
  status = succeeded;
  locked_by = none;
  locked_at = none;
  last_error = none;
  last_error_sanitized = none;
  run_after = none;
}

-- The open jobs of type text_unitization for a message; `mentions` is LIKE on their payloads.
abbrev pub finish_unitization : (String → Bool) → Table → Table
finish_unitization mentions t =
    update_rows
      (λ r. str_eq r.job_type "text_unitization" && mentions r.payload_ijson && is_open r.status)
      unitized t

abbrev pub after_success : (String → Bool) → Fenced → Fenced
after_success mentions (rejected t) = rejected t
after_success mentions (written t) = written (finish_unitization mentions t)

-- _record_success_sqlite
abbrev pub record_success : (String → Bool) → LeasedJob → String → ℕ → Table → Fenced
record_success mentions job worker_id now t =
    after_success mentions (fenced_update (owns job worker_id now) finished t)

-- `job.get("max_attempts") or 3`
abbrev attempt_limit : LeasedJob → ℕ
attempt_limit job = if job.max_attempts == 0 then 3 else job.max_attempts

abbrev failed_row : Bool → String → ℕ → LeasedJob → LeasedJob
failed_row last sanitized now r = record (unlocked (if last then dead else pending) r) {
  last_error = some sanitized;
  last_error_sanitized = some sanitized;
  run_after = if last then none else some now;
}

-- _record_failure_sqlite; `terminal` is _is_terminal_memory_job_error.
abbrev pub record_failure : LeasedJob → String → Bool → String → ℕ → Table → Fenced
record_failure job worker_id terminal sanitized now t =
    fenced_update (owns job worker_id now)
      (failed_row (terminal || leb (attempt_limit job) job.attempts) sanitized now) t

abbrev pub table_after : Fenced → Table
table_after (written t) = t
table_after (rejected t) = t

-- What the workers do on the table, in any order.
pub data LeaseCall : Type 0 where
  recover : ℕ → LeaseCall
  claim : String → String → ℕ → ℕ → LeaseCall
  renew : LeasedJob → String → ℕ → ℕ → LeaseCall
  succeed : (String → Bool) → LeasedJob → String → ℕ → LeaseCall
  fail : LeasedJob → String → Bool → String → ℕ → LeaseCall

abbrev pub call_lease : LeaseCall → Table → Table
call_lease (recover now) t = recover_stale_jobs now t
call_lease (claim worker_id token now secs) t =
    (claim_next_extraction_job worker_id token now secs t).1
call_lease (renew job worker_id now secs) t = table_after (renew_lease job worker_id now secs t)
call_lease (succeed mentions job worker_id now) t =
    table_after (record_success mentions job worker_id now t)
call_lease (fail job worker_id terminal sanitized now) t =
    table_after (record_failure job worker_id terminal sanitized now t)

abbrev pub run_leases : List LeaseCall → Table → Table
run_leases [] t = t
run_leases (c ∷ cs) t = run_leases cs (call_lease c t)
