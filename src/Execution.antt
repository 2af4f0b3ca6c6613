-- ===== src/Execution.antt =====
-- The data of memory_worker/execution.py, of memory_worker/attempt_audit.py and of the parts of
-- providers/openai_compatible.py that they read. What a call of the function is given from outside
-- (the provider's answers, the caller's check of its lease, the clock) is a function of `ticks`, the
-- number of interactions so far, so that it may answer each one differently.
pub mod IJson
pub mod Audit
pub mod Actions
pub mod Run
pub mod Rules
pub mod Honesty
pub mod Outcomes
pub mod Invariants
pub mod Payments
pub mod Rows
pub mod Audited
pub mod Returns
pub mod Tests
use open_webui_memorist_edit.Prelude.{ℕ, Bool, Option, List, String}
pub use open_webui_memorist_edit.Prelude.Json.{
  Json, Items, Dict, null, flag, number, text, array, object, no_items, item, no_fields, field,
}

-- A validation issue, a dictionary of texts with these keys.
pub record Issue : Type 0 where
  pub path : Option String
  pub issue_code : Option String
  pub message : Option String

-- ProviderAttempt
pub record ProviderAttempt : Type 0 where
  pub parsed : Option Dict
  pub parse_error : Option String
  pub input_tokens : ℕ
  pub output_tokens : ℕ
  pub latency_ms : ℕ
  pub provider_response_id : Option String
  pub http_status : Option ℕ

-- OpenAICompatibleProviderError
pub record ProviderError : Type 0 where
  pub category : String
  pub http_status : Option ℕ
  pub latency_ms : ℕ

-- The issues of an answer that the provider is asked to correct.
pub record Corrective : Type 0 where
  pub invalid_output : Dict
  pub issues : List Issue

pub record Request : Type 0 where
  pub system_prompt : String
  pub input_payload : Dict
  pub schema : Option Dict
  pub schema_name : String
  pub corrective : Option Corrective

-- `interrupted` is any other exception, the end of the process included.
pub data Response : Type 0 where
  answer : ProviderAttempt → Response
  failure : ProviderError → Response
  interrupted : Response

pub record Provider : Type 0 where
  pub capability_mode : String
  pub respond : ℕ → Request → Response

-- What `run_contract_execution` reads of a PromptContract.
pub record PromptContract : Type 0 where
  pub json_schema : Dict
  pub json_schema_name : String

-- FrozenProviderExecution
pub record FrozenProviderExecution : Type 0 where
  pub stage_execution_uuid : String
  pub processing_run_uuid : String
  pub job_uuid : Option String
  pub source_type : String
  pub source_uuid : String
  pub requested_role : String
  pub effective_role : String
  pub model_profile_uuid : Option String
  pub profile_fingerprint : String
  pub scope_source : String
  pub inheritance_source : Option String
  pub provider_type : String
  pub model_name : String
  pub capability_mode : String
  pub prompt_id : String
  pub prompt_version : String
  pub contract_hash : String
  pub input_hash : String
  pub idempotency_identity : String
  pub deterministic_fallback_version : String

pub data AttemptKind : Type 0 where
  initial repair : AttemptKind

pub data TransportStatus : Type 0 where
  unknown_completion ok : TransportStatus
  error_category : String → TransportStatus

-- AttemptReservationState
pub data Reservation : Type 0 where
  reserved unknown_completion completed : Reservation

pub data ParseStatus : Type 0 where
  not_called not_observed parse_failed parsed error unknown_completion completed : ParseStatus

-- A row of processing_provider_attempts. `frozen` holds the columns that are copied from the frozen
-- execution. The text `<identity>:provider:<index>` in the column idempotency_identity is given by
-- `frozen.idempotency_identity` and `attempt_index`, and the key provider_attempt_uuid, a hash, by
-- `frozen.stage_execution_uuid` and `attempt_index`.
pub record AttemptRow : Type 0 where
  pub frozen : FrozenProviderExecution
  pub attempt_index : ℕ
  pub attempt_kind : AttemptKind
  pub response_output_hash : Option String
  pub provider_response_id : Option String
  pub http_status : Option ℕ
  pub transport_status : TransportStatus
  pub parse_status : ParseStatus
  pub schema_valid : Option Bool
  pub canonicalized : Bool
  pub validation_errors : List (String × String)
  pub input_tokens : ℕ
  pub output_tokens : ℕ
  pub latency_ms : ℕ
  pub started_at : String
  pub completed_at : Option String

-- `rows` is the audit table, `sent` the requests that were sent to a provider.
pub record State : Type 0 where
  pub rows : List AttemptRow
  pub sent : List Request
  pub ticks : ℕ

-- ProviderAttemptAuditRepository, with the clock, the texts that `str.encode` takes and those that
-- are timestamps (IJson), and the SHA-256 of an output's canonical text.
pub record AttemptAudit : Type 0 where
  pub frozen : FrozenProviderExecution
  pub utc_now : ℕ → String
  pub encodes : String → Bool
  pub is_timestamp : String → Bool
  pub sha256 : Dict → String

-- The arguments of `run_contract_execution`.
pub record Call : Type 0 where
  pub provider : Option Provider
  pub system_prompt : String
  pub input_payload : Dict
  pub contract : Option PromptContract
  pub validate : Dict → List Issue
  pub deterministic_output : Dict
  pub revalidate : Option (ℕ → Option String)
  pub allow_fallback : Bool
  pub attempt_audit : Option AttemptAudit

pub data Reason : Type 0 where
  provider_attempt_unknown_completion provider_attempt_already_completed : Reason
  provider_failure : String → Reason
  provider_output_contract_invalid : Reason

pub data StageStatus : Type 0 where
  ok abstained failed_open failed : StageStatus

-- ContractExecutionOutcome
pub record Outcome : Type 0 where
  pub output : Dict
  pub status : StageStatus
  pub called_provider : Bool
  pub provider_output_valid : Bool
  pub canonicalized : Bool
  pub repair_attempted : Bool
  pub repair_succeeded : Bool
  pub fallback_used : Bool
  pub fallback_reason : Option Reason
  pub capability_mode : String
  pub provider_response_id : Option String
  pub input_tokens : ℕ
  pub output_tokens : ℕ
  pub latency_ms : ℕ
  pub parse_status : ParseStatus
  pub attempt_count : ℕ
  pub validation_error_paths : List String

-- The exceptions that leave the function: its own two, the caller's from `revalidate`, the
-- database's on a second unique key, Python's from `len`, IJsonValidationError on an answer that is
-- audited, and what interrupts the provider.
pub data Error : Type 0 where
  no_deterministic_fallback : Reason → Error
  deterministic_contract : List String → Error
  invalidated : String → Error
  integrity_error type_error ijson_validation_error provider_interrupted : Error

-- The end of an action: an exception or a value, and the state that it leaves.
pub data Step (A : Type 0) : Type 0 where
  stopped : Error → State → Step A
  gave : A → State → Step A

abbrev pub Action : Type 0 → Type 0
Action A = State → Step A

abbrev pub next : {A B : Type 0} → Step A → (A → Action B) → Step B
next (stopped e s) f = stopped e s
next (gave a s) f = f a s

infixl 5 ◌>>=◌ ◌>>◌
abbrev pub ◌>>=◌ : {A B : Type 0} → Action A → (A → Action B) → Action B
(m >>= f) s = next (m s) f

abbrev pub ◌>>◌ : {A B : Type 0} → Action A → Action B → Action B
(m >> k) s = next (m s) λ _. k
