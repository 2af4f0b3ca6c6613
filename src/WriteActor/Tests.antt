-- ===== src/WriteActor/Tests.antt =====
-- A database that is a number: a command adds one to it, and another finds it busy once.
use open_webui_memorist_edit.Prelude.{
  ℕ, suc, ◌≡◌, refl, false, none, some, List, [], ◌∷◌, ◌==◌, if◌then◌else◌,
}
use open_webui_memorist_edit.Prelude.Int.{pos}
use open_webui_memorist_edit.Prelude.Json.{no_fields}
use open_webui_memorist_edit.WriteActor.{
  WriteResult, wrote, busy, Command, IdempotencyRecord, Work, Metrics, State, Envelope, World,
}
use open_webui_memorist_edit.WriteActor.Run.{
  execute_command, execute_with_busy_retry, execute_envelope, answered, run_envelopes,
}
use open_webui_memorist_edit.WriteActor.Once.{Store, run_commands}
use open_webui_memorist_edit.WriteActor.Refinement.{Simulates, slipped, run_envelopes-Simulates}
use open_webui_memorist_edit.WriteActor.Replay.{
  Bounded, execute_command-Bounded, recorded_never_executes,
}

abbrev written : WriteResult
written = record {
  command_type = "add";
  target_type = none;
  target_uuid = some "u1";
  result = no_fields;
  idempotent_replay = false;
  queue_wait_ms = 0;
  transaction_ms = 0;
}

abbrev add_one : Command ℕ
add_one = record {
  command_type = "add";
  idempotency_key = some "k1";
  priority = pos 50;
  estimated_write_weight = pos 1;
  max_transaction_ms = pos 30000;
  validate_idempotent_replay = none;
  execute = λ n d. wrote written (suc d);
}

-- The lock is free at the second execution.
abbrev add_later : Command ℕ
add_later = record add_one {
  idempotency_key = some "k2";
  execute = λ n d. if n == 1 then busy d else wrote written (suc d);
}

abbrev envelope : Command ℕ → Envelope ℕ
envelope c = record { command = c; submitted_at = 0 }

abbrev zeros : Metrics
zeros = record {
  completed_count = 0;
  error_count = 0;
  dead_command_count = 0;
  sqlite_busy_count = 0;
  write_retries = 0;
  last_command_type = none;
  last_queue_wait_ms = 0;
  last_transaction_ms = 0;
}

abbrev idle : Work ℕ
idle = record { content = 0; executions = 0 }

abbrev empty : State ℕ
empty = record { work = idle; records = []; metrics = zeros; readings = 0 }

abbrev nothing_done : Store ℕ
nothing_done = record { work = idle; memory = λ key type. none }

-- The row of the second command cannot be written.
abbrev world : World
world = record {
  perf_counter = λ n. n;
  unread = λ n. none;
  unrecorded = λ n. if n == 5 then some "disk full" else none;
}

-- The second command finds the database busy, the third is answered from memory.
abbrev envelopes : List (Envelope ℕ)
envelopes = envelope add_one ∷ envelope add_later ∷ envelope add_one ∷ []

abbrev row : IdempotencyRecord
row = record {
  idempotency_key = "k1";
  command_type = "add";
  target_type = none;
  target_uuid = some "u1";
  result = no_fields;
}

abbrev recorded : State ℕ
recorded = record empty { records = row ∷ [] }

two_added : (run_envelopes world envelopes empty).1.work ≡ record { content = 2; executions = 3 }
unfolding execute_envelope execute_with_busy_retry
two_added = refl

execute_command-Bounded_example : Bounded 3 0 idle (execute_command add_later idle)
execute_command-Bounded_example = execute_command-Bounded add_later idle

run_envelopes-Simulates_example :
    Simulates
      (λ key. "add")
      (run_envelopes world envelopes empty)
      (run_commands (slipped world envelopes empty) nothing_done)
run_envelopes-Simulates_example =
    run_envelopes-Simulates (λ key. "add") world envelopes empty nothing_done
      (refl, (refl, (refl, tt)))
      (record { work = refl; holds = record { found = λ key. refl; owned = tt } })

recorded_never_executes_example :
    (answered (
      execute_envelope world
        (envelope add_one)
        (run_envelopes world (envelope add_later ∷ []) recorded).1)).1.work
    ≡ (run_envelopes world (envelope add_later ∷ []) recorded).1.work
recorded_never_executes_example =
    recorded_never_executes world "k1" "add" row (envelope add_later ∷ []) (envelope add_one)
      recorded refl refl refl
