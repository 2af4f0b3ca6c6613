-- ===== src/WriteActor/Once.antt =====
-- What the write actor promises, without its clock and its table of rows: a command runs once for
-- its key and its type, and is answered from memory afterwards, where its memory does not slip.
use open_webui_memorist_edit.Prelude.{
  ℕ, not, ◌&&◌, Option, none, some, List, [], ◌∷◌, String, str_eq, if◌then◌else◌,
}
use open_webui_memorist_edit.Prelude.Int.{pos, ltb_ℤ}
use open_webui_memorist_edit.WriteActor.{
  WriteResult, Command, default_max_write_weight, IdempotencyRecord, overweight,
  invalid_max_transaction_ms, replay_refused, lookup_failed, recording_failed, Work, Reply, refused,
  did, key_of, replayed, record_of,
}
use open_webui_memorist_edit.WriteActor.Run.{
  execute_command, check_replay, Response, of_error, of_result,
}

abbrev pub Memory : Type 0
Memory = String → String → Option IdempotencyRecord

pub record Store (D : Type 0) : Type 0 where
  pub work : Work D
  pub memory : Memory

abbrev pub recall : Option String → String → Memory → Option IdempotencyRecord
recall none type memory = none
recall (some key) type memory = memory key type

abbrev pub remember : Option String → String → WriteResult → Memory → Memory
remember none type r memory k t = memory k t
remember (some key) type r memory k t =
    if str_eq key k && str_eq type t then some (record_of key type r) else memory k t

-- What may go wrong with the memory at one command: it cannot be read, and the command does not run,
-- or it cannot be written, and the command has run.
pub record Slip : Type 0 where
  pub unread : Option String
  pub unremembered : Option String

-- A result without the times that are measured.
abbrev pub untimed : WriteResult → WriteResult
untimed r = record r { queue_wait_ms = 0; transaction_ms = 0 }

module _ {D : Type 0} where
  abbrev pub replay : IdempotencyRecord → Option String → Store D → Reply (Store D) WriteResult
  replay known (some reason) t = refused (replay_refused reason) t
  replay known none t = did (replayed known) t

  abbrev pub remembered :
      Command D → WriteResult → Option String → Work D → Memory → Reply (Store D) WriteResult
  remembered command r (some error) w memory =
      refused (recording_failed error) (record { work = w; memory = memory })
  remembered command r none w memory = did (untimed r) (record {
    work = w;
    memory = remember (key_of command.idempotency_key) command.command_type r memory;
  })

  abbrev pub run_once :
      Command D → Slip → Reply (Work D) (WriteResult × ℕ) → Memory → Reply (Store D) WriteResult
  run_once command slip (refused f w) memory = refused f (record { work = w; memory = memory })
  run_once command slip (did (r, busy_retries) w) memory =
      remembered command r slip.unremembered w memory

  abbrev pub answer_once :
      Command D → Slip → Option IdempotencyRecord → Store D → Reply (Store D) WriteResult
  answer_once command slip (some known) t =
      replay known (check_replay command.validate_idempotent_replay t.work.content) t
  answer_once command slip none t = run_once command slip (execute_command command t.work) t.memory

  abbrev pub recall_once : Command D → Slip → Option String → Store D → Reply (Store D) WriteResult
  recall_once command slip (some error) t = refused (lookup_failed error) t
  recall_once command slip none t =
      answer_once command slip
        (recall (key_of command.idempotency_key) command.command_type t.memory) t

  abbrev pub execute_once : Command D → Slip → Store D → Reply (Store D) WriteResult
  execute_once command slip t =
      if ltb_ℤ default_max_write_weight command.estimated_write_weight
      then refused overweight t
      else if not (ltb_ℤ (pos 0) command.max_transaction_ms)
      then refused invalid_max_transaction_ms t
      else recall_once command slip slip.unread t

  abbrev pub response : Reply (Store D) WriteResult → Response × Store D
  response (did r t) = (of_result r, t)
  response (refused f t) = (of_error f, t)

  abbrev pub run_commands : List (Command D × Slip) → Store D → List Response × Store D
  run_commands [] t = ([], t)
  run_commands ((c, slip) ∷ cs) t =
      let (r, u) = response (execute_once c slip t) in
      let (rs, v) = run_commands cs u in (r ∷ rs, v)
