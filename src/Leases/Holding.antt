-- ===== src/Leases/Holding.antt =====
-- That a lease that was just claimed lets its worker write until it expires.
use open_webui_memorist_edit.Prelude.{ℕ, ◌+◌, ◌≡◌, Bool, ◌||◌, some, String, count_if, leb}
use open_webui_memorist_edit.Leases.{
  LeasedJob, Table, update_rows, owns, finished, renew_lease, finish_unitization, record_success,
  record_failure, failed_row, attempt_limit, written,
}

-- The writes of a worker under a lease go through.
pub record IsHeld (job : LeasedJob) (w : String) (later : ℕ) (t : Table) : Type 0 where
  pub success :
      (mentions : String → Bool)
      → record_success mentions job w later t
        ≡ written (finish_unitization mentions (update_rows (owns job w later) finished t))
  pub failure :
      (terminal : Bool) (sanitized : String)
      → record_failure job w terminal sanitized later t
        ≡ written (
            update_rows
              (owns job w later)
              (failed_row (terminal || leb (attempt_limit job) job.attempts) sanitized later)
              t)
  pub renewal :
      (again : ℕ)
      → renew_lease job w later again t
        ≡ written (
            update_rows
              (owns job w later)
              (λ r. record r { lease_expires_at = some (later + again); locked_at = some later })
              t)
  pub one_row : count_if (owns job w later) t ≡ 1
