-- ===== src/Leases/Tests.antt =====
-- The leases on a table of one job.
use open_webui_memorist_edit.Prelude.{refl, inl, inr, none, some, [], ◌∷◌, arith, Bool-cases}
use open_webui_memorist_edit.Prelude.Int.{pos}
use open_webui_memorist_edit.Jobs.{pending}
use open_webui_memorist_edit.Leases.{LeasedJob, has_uuid, leased, recover}
use open_webui_memorist_edit.Leases.Fencing.{Unique, IsFenced, reclaimed-IsFenced}

abbrev waiting : LeasedJob
waiting = record {
  job_uuid = "j1";
  job_type = "memory_extraction";
  priority = pos 0;
  status = pending;
  payload_ijson = "{}";
  run_after = none;
  created_at = 0;
  attempts = 0;
  max_attempts = 3;
  locked_by = none;
  locked_at = none;
  lease_token = none;
  lease_generation = 0;
  lease_expires_at = none;
  last_error = none;
  last_error_sanitized = none;
}

abbrev held_once : LeasedJob
held_once = leased "w1" "a" 0 10 waiting

abbrev held_twice : LeasedJob
held_twice = leased "w2" "b" 20 10 (record waiting {
  attempts = 1;
  lease_generation = 1;
  last_error_sanitized = some "lease expired";
})

waiting-Unique : Unique (waiting ∷ [])
waiting-Unique uuid = elim (Bool-cases (has_uuid uuid waiting)) [
  | inl e ↦ simp e (omega arith)
  | inr e ↦ simp e (omega arith)
]

-- The lease runs out, another worker takes the job, and the first one comes back.
reclaimed-IsFenced_example : IsFenced held_once "w1" (held_twice ∷ [])
reclaimed-IsFenced_example =
    reclaimed-IsFenced "w1" "a" "w2" "b" 0 10 20 10 (waiting ∷ []) (held_once ∷ [])
      (held_twice ∷ []) held_once held_twice (recover 5 ∷ []) (recover 25 ∷ []) waiting-Unique refl
      refl refl
