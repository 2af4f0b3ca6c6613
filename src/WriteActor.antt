-- ===== src/WriteActor.antt =====
-- The write actor: storage/write_actor.py and storage/commands.py. A command is given as a record of
-- the attributes that the actor reads, with the defaults of the class Protocol filled in; `D` is the
-- content of the database but for the table write_idempotency_records.
pub mod Run
pub mod Once
pub mod Refinement
pub mod Replay
pub mod Tests
use open_webui_memorist_edit.Prelude.{
  ℕ, zero, suc, ◌+◌, ◌-◌, ◌/◌, Bool, true, false, not, ◌&&◌, ◌||◌, Option, none, some, List, [],
  ◌∷◌, ◌++◌, String, str_eq, ltb, if◌then◌else◌, any,
}
use open_webui_memorist_edit.Prelude.Int.{ℤ, pos, ltb_ℤ}
use open_webui_memorist_edit.Prelude.Json.{Json, Dict, flag, put, has_key}

-- WriteResult
pub record WriteResult : Type 0 where
  pub command_type : String
  pub target_type : Option String
  pub target_uuid : Option String
  pub result : Dict
  pub idempotent_replay : Bool
  pub queue_wait_ms : ℕ
  pub transaction_ms : ℕ

-- The end of one call of a command's `execute`: a result, a lock that another connection holds, or
-- any other exception, with what it leaves in the database.
pub data Executed (D : Type 0) : Type 0 where
  wrote : WriteResult → D → Executed D
  busy : D → Executed D
  failed : String → D → Executed D

-- WriteCommand. `execute` is given the number of executions so far, so that it may end otherwise
-- when it is called again.
pub record Command (D : Type 0) : Type 0 where
  pub command_type : String
  pub idempotency_key : Option String
  pub priority : ℤ
  pub estimated_write_weight : ℤ
  pub max_transaction_ms : ℤ
  pub validate_idempotent_replay : Option (D → Option String)
  pub execute : ℕ → D → Executed D

-- DEFAULT_MAX_WRITE_WEIGHT
abbrev pub default_max_write_weight : ℤ
default_max_write_weight = pos 20000

-- A row of write_idempotency_records, whose primary key is idempotency_key.
pub record IdempotencyRecord : Type 0 where
  pub idempotency_key : String
  pub command_type : String
  pub target_type : Option String
  pub target_uuid : Option String
  pub result : Dict

-- The exceptions that a command ends with.
pub data Failure : Type 0 where
  overweight invalid_max_transaction_ms database_busy timed_out : Failure
  replay_refused : String → Failure
  lookup_failed : String → Failure
  recording_failed : String → Failure
  handler_failed : String → Failure

-- What commands work on: the database, and the number of executions so far.
pub record Work (D : Type 0) : Type 0 where
  pub content : D
  pub executions : ℕ

-- The counters of WriteActorMetrics that an execution changes.
pub record Metrics : Type 0 where
  pub completed_count : ℕ
  pub error_count : ℕ
  pub dead_command_count : ℕ
  pub sqlite_busy_count : ℕ
  pub write_retries : ℕ
  pub last_command_type : Option String
  pub last_queue_wait_ms : ℕ
  pub last_transaction_ms : ℕ

-- `readings` counts the calls of time.perf_counter, which are given in microseconds.
pub record State (D : Type 0) : Type 0 where
  pub work : Work D
  pub records : List IdempotencyRecord
  pub metrics : Metrics
  pub readings : ℕ

-- What a run is given from outside, by the number of clock readings so far: the readings, and the
-- exceptions of the lookup and of the insertion in the table of idempotency records, which are the
-- database's and those of reading and writing a result as a text.
pub record World : Type 0 where
  pub perf_counter : ℕ → ℕ
  pub unread : ℕ → Option String
  pub unrecorded : ℕ → Option String

-- An exception of the table, which a command without a key does not meet.
abbrev pub fault : Option String → Option String → Option String
fault none error = none
fault (some key) error = error

-- _Envelope, without the queue that its response is put on.
pub record Envelope (D : Type 0) : Type 0 where
  pub command : Command D
  pub submitted_at : ℕ

-- The end of a call on a state of type S: an exception or a value, with the state that it leaves.
pub data Reply (S A : Type 0) : Type 0 where
  refused : Failure → S → Reply S A
  did : A → S → Reply S A

-- `not command.idempotency_key`
abbrev pub key_of : Option String → Option String
key_of none = none
key_of (some key) = if str_eq key "" then none else some key

abbrev pub has_key_and_type : String → String → IdempotencyRecord → Bool
has_key_and_type key type r = str_eq r.idempotency_key key && str_eq r.command_type type

abbrev pub find_record : String → String → List IdempotencyRecord → Option IdempotencyRecord
find_record key type [] = none
find_record key type (r ∷ rs) =
    let later = find_record key type rs in if has_key_and_type key type r then some r else later

abbrev pub mark_duplicate : Dict → Dict
mark_duplicate d = if has_key "duplicate" d then put "duplicate" (flag true) d else d

-- The result that `_idempotency_lookup` makes of a row.
abbrev pub replayed : IdempotencyRecord → WriteResult
replayed r = record {
  command_type = r.command_type;
  target_type = r.target_type;
  target_uuid = r.target_uuid;
  result = mark_duplicate r.result;
  idempotent_replay = true;
  queue_wait_ms = 0;
  transaction_ms = 0;
}

abbrev pub lookup_key : Option String → String → List IdempotencyRecord → Option IdempotencyRecord
lookup_key none type records = none
lookup_key (some key) type records = find_record key type records

abbrev pub record_of : String → String → WriteResult → IdempotencyRecord
record_of key type r = record {
  idempotency_key = key;
  command_type = type;
  target_type = r.target_type;
  target_uuid = r.target_uuid;
  result = r.result;
}

-- _record_idempotency: INSERT OR IGNORE under the primary key.
abbrev pub insert_or_ignore : IdempotencyRecord → List IdempotencyRecord → List IdempotencyRecord
insert_or_ignore new rs =
    if any (λ (r : IdempotencyRecord). str_eq r.idempotency_key new.idempotency_key) rs
    then rs
    else rs ++ new ∷ []

abbrev pub record_key :
    Option String → String → WriteResult → List IdempotencyRecord → List IdempotencyRecord
record_key none type r rs = rs
record_key (some key) type r rs = insert_or_ignore (record_of key type r) rs
