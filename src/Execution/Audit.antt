-- ===== src/Execution/Audit.antt =====
-- ProviderAttemptAuditRepository of memory_worker/attempt_audit.py: a row is reserved before a
-- provider is called and completed after it.
use open_webui_memorist_edit.Prelude.{
  ℕ, ◌+◌, Bool, true, false, not, ◌&&◌, Option, none, some, List, [], ◌∷◌, ◌++◌, map, String,
  str_eq, ◌==◌, if◌then◌else◌, length, take, any, filter_if,
}
use open_webui_memorist_edit.Prelude.Texts.{take_chars}
use open_webui_memorist_edit.Execution.{
  Dict, Issue, ProviderAttempt, ProviderError, FrozenProviderExecution, AttemptKind,
  TransportStatus, Reservation, ParseStatus, AttemptRow, State, AttemptAudit, Error, Action,
  stopped, gave,
}
use open_webui_memorist_edit.Execution.IJson.{TextTests, valid_members}

abbrev pub is_some {ℓ} : {A : Type ℓ} → Option A → Bool
is_some none = false
is_some (some a) = true

-- Python's `value or other`, for a text that may be None.
abbrev pub or_text : Option String → String → String
or_text none other = other
or_text (some s) other = if str_eq s "" then other else s

-- The unique key idempotency_identity.
abbrev pub same_identity : FrozenProviderExecution → ℕ → AttemptRow → Bool
same_identity f index r =
    str_eq r.frozen.idempotency_identity f.idempotency_identity && r.attempt_index == index

-- The unique key (stage_execution_uuid, attempt_index).
abbrev pub same_stage : FrozenProviderExecution → ℕ → AttemptRow → Bool
same_stage f index r =
    str_eq r.frozen.stage_execution_uuid f.stage_execution_uuid && r.attempt_index == index

abbrev pub find_row : (AttemptRow → Bool) → List AttemptRow → Option AttemptRow
find_row p [] = none
find_row p (r ∷ rs) = let later = find_row p rs in if p r then some r else later

abbrev pub reserved_row : AttemptAudit → ℕ → AttemptKind → String → AttemptRow
reserved_row a index kind now = record {
  frozen = a.frozen;
  attempt_index = index;
  attempt_kind = kind;
  response_output_hash = none;
  provider_response_id = none;
  http_status = none;
  transport_status = TransportStatus.unknown_completion;
  parse_status = ParseStatus.not_observed;
  schema_valid = none;
  canonicalized = false;
  validation_errors = [];
  input_tokens = 0;
  output_tokens = 0;
  latency_ms = 0;
  started_at = now;
  completed_at = none;
}

abbrev pub reservation_of : Option AttemptRow → Reservation
reservation_of none = Reservation.unknown_completion
reservation_of (some r) =
    if is_some r.completed_at then Reservation.completed else Reservation.unknown_completion

abbrev pub tick : State → State
tick s = record s { ticks = s.ticks + 1 }

-- reserve: INSERT … ON CONFLICT (idempotency_identity) DO NOTHING, then the state of the row that
-- stands in its way. A row that is equal in the other unique key is an integrity error.
unfoldable pub reserve : AttemptAudit → ℕ → AttemptKind → Action Reservation
reserve a index kind s =
    if any (same_identity a.frozen index) s.rows
    then gave (reservation_of (find_row (same_identity a.frozen index) s.rows)) s
    else if any (same_stage a.frozen index) s.rows
    then stopped Error.integrity_error s
    else gave Reservation.reserved
        (tick (record s { rows = s.rows ++ reserved_row a index kind (a.utc_now s.ticks) ∷ [] }))

-- What `_finalize` writes.
pub record Observation : Type 0 where
  pub response_output_hash : Option String
  pub provider_response_id : Option String
  pub http_status : Option ℕ
  pub transport_status : TransportStatus
  pub parse_status : ParseStatus
  pub schema_valid : Bool
  pub canonicalized : Bool
  pub validation_issues : List Issue
  pub input_tokens : ℕ
  pub output_tokens : ℕ
  pub latency_ms : ℕ

abbrev audited_issue : Issue → String × String
audited_issue item =
    (take_chars 160 (or_text item.path "(root)"), take_chars 80 (or_text item.issue_code "invalid"))

abbrev pub finalized_row : Observation → String → AttemptRow → AttemptRow
finalized_row seen now r = record r {
  response_output_hash = seen.response_output_hash;
  provider_response_id = seen.provider_response_id;
  http_status = seen.http_status;
  transport_status = seen.transport_status;
  parse_status = seen.parse_status;
  schema_valid = some seen.schema_valid;
  canonicalized = seen.canonicalized;
  validation_errors = map audited_issue (take 20 seen.validation_issues);
  input_tokens = seen.input_tokens;
  output_tokens = seen.output_tokens;
  latency_ms = seen.latency_ms;
  completed_at = some now;
}

abbrev pub finalize_if :
    FrozenProviderExecution → ℕ → Observation → String → AttemptRow → AttemptRow
finalize_if f index seen now r =
    if same_stage f index r && not (is_some r.completed_at) then finalized_row seen now r else r

-- _finalize
unfoldable pub finalize_attempt : AttemptAudit → ℕ → Observation → Action Unit
finalize_attempt a index seen s =
    gave tt
      (tick (record s { rows = map (finalize_if a.frozen index seen (a.utc_now s.ticks)) s.rows }))

abbrev pub tests_of : AttemptAudit → TextTests
tests_of a = record { encodes = a.encodes; is_timestamp = a.is_timestamp }

-- canonical_hash_ijson; `none` is IJsonValidationError.
unfoldable pub canonical_hash_ijson : AttemptAudit → Dict → Option String
canonical_hash_ijson a d = if valid_members (tests_of a) d then some (a.sha256 d) else none

abbrev pub hash_result : Option String → Option (Option String)
hash_result none = none
hash_result (some h) = some (some h)

-- The hash of an answer's output, if it has one.
abbrev pub output_hash : AttemptAudit → Option Dict → Option (Option String)
output_hash a none = some none
output_hash a (some d) = hash_result (canonical_hash_ijson a d)

-- What `finalize` observes of an answer, given the hash of its output.
abbrev pub answer_seen : Option String → ProviderAttempt → Bool → Bool → List Issue → Observation
answer_seen hash attempt schema_valid canonicalized issues = record {
  response_output_hash = hash;
  provider_response_id = attempt.provider_response_id;
  http_status = attempt.http_status;
  transport_status = TransportStatus.ok;
  parse_status = if is_some attempt.parsed then ParseStatus.parsed else ParseStatus.parse_failed;
  schema_valid = schema_valid;
  canonicalized = canonicalized;
  validation_issues = issues;
  input_tokens = attempt.input_tokens;
  output_tokens = attempt.output_tokens;
  latency_ms = attempt.latency_ms;
}

-- finalize, from the hash on.
abbrev pub finalize_hashed :
    AttemptAudit
    → ℕ
    → ProviderAttempt
    → Bool
    → Bool
    → List Issue
    → Option (Option String)
    → Action Unit
finalize_hashed a index attempt schema_valid canonicalized issues none s =
    stopped Error.ijson_validation_error s
finalize_hashed a index attempt schema_valid canonicalized issues (some hash) s =
    finalize_attempt a index (answer_seen hash attempt schema_valid canonicalized issues) s

-- What `finalize_error` observes of an error.
abbrev pub error_seen : ProviderError → Observation
error_seen e = record {
  response_output_hash = none;
  provider_response_id = none;
  http_status = e.http_status;
  transport_status = TransportStatus.error_category e.category;
  parse_status = ParseStatus.error;
  schema_valid = false;
  canonicalized = false;
  validation_issues =
      record { path = some "(transport)"; issue_code = some e.category; message = none } ∷ [];
  input_tokens = 0;
  output_tokens = 0;
  latency_ms = e.latency_ms;
}

-- count
abbrev pub count_attempts : AttemptAudit → State → ℕ
count_attempts a s = length (
    filter_if
      (λ (r : AttemptRow). str_eq r.frozen.stage_execution_uuid a.frozen.stage_execution_uuid)
      s.rows)
