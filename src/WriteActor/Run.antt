-- ===== src/WriteActor/Run.antt =====
-- How storage/write_actor.py executes a command, and the loop of its thread.
use open_webui_memorist_edit.Prelude.{
  ℕ, zero, suc, ◌+◌, ◌-◌, ◌/◌, not, Option, none, some, List, [], ◌∷◌, String, if◌then◌else◌,
}
use open_webui_memorist_edit.Prelude.Int.{pos, ltb_ℤ}
use open_webui_memorist_edit.WriteActor.{
  WriteResult, wrote, busy, failed, Command, default_max_write_weight, IdempotencyRecord, Failure,
  overweight, invalid_max_transaction_ms, database_busy, timed_out, replay_refused, handler_failed,
  Work, Metrics, State, Envelope, Reply, refused, did, key_of, replayed, lookup_key, record_key,
  World, fault, lookup_failed, recording_failed,
}

abbrev pub with_retries : ℕ → Metrics → Metrics
with_retries n m = record m {
  sqlite_busy_count = m.sqlite_busy_count + n;
  write_retries = m.write_retries + n;
}

abbrev pub elapsed_ms : ℕ → ℕ → ℕ
elapsed_ms start now = (now - start) / 1000

-- What `_run` puts on the response queue of an envelope.
pub data Response : Type 0 where
  of_error : Failure → Response
  of_result : WriteResult → Response

module _ {D : Type 0} where
  abbrev pub executed_once : Work D → D → Work D
  executed_once w d = record { content = d; executions = suc w.executions }

  -- _execute_with_busy_retry, with the number of attempts that are left after this one and of
  -- retries so far.
  unfoldable pub execute_with_busy_retry :
      Command D → ℕ → ℕ → Work D → Reply (Work D) (WriteResult × ℕ)
  execute_with_busy_retry command zero busy_retries w =
      elim (command.execute w.executions w.content) [
        | wrote r d ↦ did (r, busy_retries) (executed_once w d)
        | busy d ↦ refused database_busy (executed_once w d)
        | failed m d ↦ refused (handler_failed m) (executed_once w d)
      ]
  execute_with_busy_retry command (suc left) busy_retries w =
      elim (command.execute w.executions w.content) [
        | wrote r d ↦ did (r, busy_retries) (executed_once w d)
        | busy d ↦ execute_with_busy_retry command left (suc busy_retries) (executed_once w d)
        | failed m d ↦ refused (handler_failed m) (executed_once w d)
      ]

  -- `max_attempts` is 4.
  abbrev pub execute_command : Command D → Work D → Reply (Work D) (WriteResult × ℕ)
  execute_command command w = execute_with_busy_retry command 3 0 w

  abbrev pub completed : Command D → ℕ → ℕ → Metrics → Metrics
  completed command wait_ms transaction_ms m = record m {
    completed_count = suc m.completed_count;
    last_command_type = some command.command_type;
    last_queue_wait_ms = wait_ms;
    last_transaction_ms = transaction_ms;
  }

  abbrev pub read_clock : State D → State D
  read_clock s = record s { readings = suc s.readings }

  abbrev pub check_replay : Option (D → Option String) → D → Option String
  check_replay none d = none
  check_replay (some validate) d = validate d

  abbrev pub answered : Reply (State D) WriteResult → Response × State D
  answered (did r s) = (of_result r, s)
  answered (refused f s) = (
    of_error f,
    record s {
      metrics = record s.metrics {
        error_count = suc s.metrics.error_count;
        dead_command_count = suc s.metrics.dead_command_count;
      };
    },
  )

  module _ (world : World) where
    -- From the result to the end of `_execute_envelope`.
    abbrev pub finish : Command D → ℕ → ℕ → WriteResult → State D → Reply (State D) WriteResult
    finish command wait_ms started result s =
        let transaction_ms = elapsed_ms started (world.perf_counter s.readings) in
        if ltb_ℤ command.max_transaction_ms (pos transaction_ms)
        then refused timed_out (read_clock s)
        else did (record result { queue_wait_ms = wait_ms; transaction_ms = transaction_ms })
            (record (read_clock s) { metrics = completed command wait_ms transaction_ms s.metrics })

    abbrev pub validated :
        Command D
        → ℕ
        → ℕ
        → IdempotencyRecord
        → Option String
        → State D
        → Reply (State D) WriteResult
    validated command wait_ms started cached (some reason) s = refused (replay_refused reason) s
    validated command wait_ms started cached none s =
        finish command wait_ms started (replayed cached) s

    -- The recording of a result, which may raise after the command was executed.
    abbrev pub recorded :
        Command D → ℕ → ℕ → WriteResult → Option String → State D → Reply (State D) WriteResult
    recorded command wait_ms started r (some error) s = refused (recording_failed error) s
    recorded command wait_ms started r none s = finish command wait_ms started r (record s {
      records = record_key (key_of command.idempotency_key) command.command_type r s.records;
    })

    abbrev pub executed :
        Command D → ℕ → ℕ → State D → Reply (Work D) (WriteResult × ℕ) → Reply (State D) WriteResult
    executed command wait_ms started s (refused f w) = refused f (record s { work = w })
    executed command wait_ms started s (did (r, busy_retries) w) =
        recorded command wait_ms started r
          (fault (key_of command.idempotency_key) (world.unrecorded s.readings))
          (record s { work = w; metrics = with_retries busy_retries s.metrics })

    abbrev pub perform :
        Command D → ℕ → ℕ → Option IdempotencyRecord → State D → Reply (State D) WriteResult
    perform command wait_ms started (some cached) s =
        validated command wait_ms started cached
          (check_replay command.validate_idempotent_replay s.work.content) s
    perform command wait_ms started none s =
        executed command wait_ms started s (execute_command command s.work)

    -- The lookup and what follows it.
    abbrev pub looked_up : Command D → ℕ → ℕ → Option String → State D → Reply (State D) WriteResult
    looked_up command wait_ms started (some error) s = refused (lookup_failed error) s
    looked_up command wait_ms started none s =
        perform command wait_ms started
          (lookup_key (key_of command.idempotency_key) command.command_type s.records) s

    -- _execute_envelope. The validator of a replay only reads.
    unfoldable pub execute_envelope : Envelope D → State D → Reply (State D) WriteResult
    execute_envelope e s =
        let command = e.command in
        if ltb_ℤ default_max_write_weight command.estimated_write_weight
        then refused overweight s
        else if not (ltb_ℤ (pos 0) command.max_transaction_ms)
        then refused invalid_max_transaction_ms s
        else looked_up command (elapsed_ms e.submitted_at (world.perf_counter s.readings))
            (world.perf_counter (suc s.readings))
            (fault (key_of command.idempotency_key) (world.unread s.readings))
            (read_clock (read_clock s))

    -- The loop of `_run`, on the envelopes in the order in which it takes them.
    abbrev pub run_envelopes : List (Envelope D) → State D → List Response × State D
    run_envelopes [] s = ([], s)
    run_envelopes (e ∷ es) s =
        let (r, t) = answered (execute_envelope e s) in
        let (rs, u) = run_envelopes es t in (r ∷ rs, u)
