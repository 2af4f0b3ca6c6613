-- ===== src/Execution/Run.antt =====
-- run_contract_execution of memory_worker/execution.py, cut where it returns early.
use open_webui_memorist_edit.Prelude.{
  ℕ, ◌+◌, Bool, true, false, Option, none, some, List, [], ◌∷◌, if◌then◌else◌,
}
use open_webui_memorist_edit.Execution.{
  Dict, Issue, ProviderAttempt, ProviderError, Corrective, Response, answer, failure, interrupted,
  Provider, AttemptKind, Reservation, ParseStatus, Call, Reason,
  provider_attempt_unknown_completion, provider_attempt_already_completed, provider_failure,
  provider_output_contract_invalid, Outcome, no_deterministic_fallback, deterministic_contract,
  type_error, provider_interrupted, Action, stopped, gave, ◌>>=◌, ◌>>◌,
}
use open_webui_memorist_edit.Execution.Audit.{or_text}
use open_webui_memorist_edit.Execution.Actions.{
  is_empty, get, item_count, stage_status_for_output, paths, canonicalize, Progress, no_progress,
  with_answer, check_lease, reserve_attempt, attempts_made, send, finalize_answer, finalize_error,
}

-- The outcome of the branch without a provider, whose output has `n` items.
abbrev pub deterministic_outcome : Call → ℕ → Outcome
deterministic_outcome call n = record {
  output = call.deterministic_output;
  status = stage_status_for_output (get "status" call.deterministic_output) false false;
  called_provider = false;
  provider_output_valid = false;
  canonicalized = false;
  repair_attempted = false;
  repair_succeeded = false;
  fallback_used = false;
  fallback_reason = none;
  capability_mode = "deterministic";
  provider_response_id = none;
  input_tokens = 0;
  output_tokens = n;
  latency_ms = 0;
  parse_status = ParseStatus.not_called;
  attempt_count = 0;
  validation_error_paths = [];
}

abbrev pub count_output : Call → Option ℕ → Action Outcome
count_output call none = stopped type_error
count_output call (some n) = gave (deterministic_outcome call n)

unfoldable pub run_deterministic : Call → Action Outcome
run_deterministic call =
    if is_empty (call.validate call.deterministic_output)
    then count_output call (item_count call.deterministic_output)
    else stopped (deterministic_contract (paths (call.validate call.deterministic_output)))

-- _valid_provider_outcome
abbrev pub valid_provider_outcome : Dict → Provider → Progress → Bool → Bool → ℕ → Outcome
valid_provider_outcome output provider p canonicalized repaired count = record {
  output = output;
  status = stage_status_for_output (get "status" output) false false;
  called_provider = true;
  provider_output_valid = true;
  canonicalized = canonicalized;
  repair_attempted = repaired;
  repair_succeeded = repaired;
  fallback_used = false;
  fallback_reason = none;
  capability_mode = provider.capability_mode;
  provider_response_id = p.provider_response_id;
  input_tokens = p.input_tokens;
  output_tokens = p.output_tokens;
  latency_ms = p.latency_ms;
  parse_status = ParseStatus.parsed;
  attempt_count = count;
  validation_error_paths = [];
}

abbrev pub fallback_outcome : Call → Provider → Reason → Bool → Progress → ℕ → Outcome
fallback_outcome call provider reason repair_attempted p count = record {
  output = call.deterministic_output;
  status = stage_status_for_output (get "status" call.deterministic_output) true true;
  called_provider = true;
  provider_output_valid = false;
  canonicalized = false;
  repair_attempted = repair_attempted;
  repair_succeeded = false;
  fallback_used = true;
  fallback_reason = some reason;
  capability_mode = provider.capability_mode;
  provider_response_id = p.provider_response_id;
  input_tokens = p.input_tokens;
  output_tokens = p.output_tokens;
  latency_ms = p.latency_ms;
  parse_status = p.parse_status;
  attempt_count = count;
  validation_error_paths = paths p.last_issues;
}

-- _fallback
unfoldable pub fall_back : Call → Provider → Reason → Bool → Progress → ℕ → Action Outcome
fall_back call provider reason repair_attempted p count =
    if call.allow_fallback
    then if is_empty (call.validate call.deterministic_output)
      then gave (fallback_outcome call provider reason repair_attempted p count)
      else stopped (deterministic_contract (paths (call.validate call.deterministic_output)))
    else stopped (no_deterministic_fallback reason)

abbrev reservation_reason : Reservation → Reason
reservation_reason Reservation.unknown_completion = provider_attempt_unknown_completion
reservation_reason _ = provider_attempt_already_completed

abbrev reservation_status : Reservation → ParseStatus
reservation_status Reservation.unknown_completion = ParseStatus.unknown_completion
reservation_status _ = ParseStatus.completed

-- The branch of an attempt that was reserved before.
unfoldable pub not_reserved : Call → Provider → Reservation → Bool → Progress → Action Outcome
not_reserved call provider reservation repair_attempted p = do
  check_lease call.revalidate
  count ← attempts_made call.attempt_audit 0
  fall_back call provider (reservation_reason reservation) repair_attempted
      (record p { parse_status = reservation_status reservation }) count

-- The branch of a provider's error.
unfoldable pub not_answered : Call → Provider → ℕ → ProviderError → Bool → Progress → Action Outcome
not_answered call provider index e repair_attempted p = do
  finalize_error call.attempt_audit index e
  check_lease call.revalidate
  count ← attempts_made call.attempt_audit index
  fall_back call provider (provider_failure e.category) repair_attempted
      (record p { latency_ms = p.latency_ms + e.latency_ms }) count

-- What an answer is taken for: an output and whether it is canonicalized, the issues of an output
-- that is not valid, or no output.
pub data Verdict : Type 0 where
  accepted : Dict → Bool → Verdict
  refused : List Issue → Verdict
  unparsed : Verdict

abbrev pub parse_issue : ProviderAttempt → Issue
parse_issue a = record {
  path = some "(root)";
  issue_code = some "parse";
  message = some (or_text a.parse_error "invalid JSON");
}

abbrev pub canonical_verdict : List Issue → Option Dict → Verdict
canonical_verdict issues none = refused issues
canonical_verdict issues (some canonical) = accepted canonical true

abbrev pub verdict_of : Call → Option Dict → Verdict
verdict_of call none = unparsed
verdict_of call (some d) =
    if is_empty (call.validate d)
    then accepted d false
    else canonical_verdict (call.validate d) (canonicalize call.validate d)

abbrev is_canonical : Verdict → Bool
is_canonical (accepted d canonicalized) = canonicalized
is_canonical _ = false

abbrev issues_of : Call → ProviderAttempt → List Issue
issues_of call a = elim a.parsed [ none ↦ parse_issue a ∷ [] | some d ↦ call.validate d ]

-- The passage from an answer to the decision on it, which both attempts share.
unfoldable pub check_answer : Call → ℕ → ProviderAttempt → Action Verdict
check_answer call index a = do
  finalize_answer call.attempt_audit index a (is_empty (issues_of call a))
      (is_canonical (verdict_of call a.parsed)) (issues_of call a)
  check_lease call.revalidate
  gave (verdict_of call a.parsed)

abbrev pub accept : Call → Provider → Progress → Dict → Bool → Bool → ℕ → Action Outcome
accept call provider p output canonicalized repaired index = do
  count ← attempts_made call.attempt_audit index
  gave (valid_provider_outcome output provider p canonicalized repaired count)

-- What follows the repair's answer.
abbrev pub give_up : Call → Provider → Progress → Action Outcome
give_up call provider p = do
  count ← attempts_made call.attempt_audit 2
  fall_back call provider provider_output_contract_invalid true p count

abbrev pub conclude : Call → Provider → Progress → Verdict → Action Outcome
conclude call provider p (accepted output canonicalized) =
    accept call provider p output canonicalized true 2
conclude call provider p (refused issues) =
    give_up call provider (record p { last_issues = issues; parse_status = ParseStatus.parsed })
conclude call provider p unparsed = give_up call provider p

abbrev pub repair_answered : Call → Provider → Progress → Response → Action Outcome
repair_answered call provider p (answer a) = do
  verdict ← check_answer call 2 a
  conclude call provider (with_answer a p) verdict
repair_answered call provider p (failure e) = not_answered call provider 2 e true p
repair_answered call provider p interrupted = stopped provider_interrupted

abbrev pub repair_reserved : Call → Provider → Corrective → Progress → Reservation → Action Outcome
repair_reserved call provider corrective p Reservation.reserved = do
  response ← send call provider (some corrective)
  repair_answered call provider p response
repair_reserved call provider corrective p reservation =
    not_reserved call provider reservation true p

abbrev corrective_for : ProviderAttempt → List Issue → Corrective
corrective_for a issues = record {
  invalid_output = elim a.parsed [ none ↦ Dict.no_fields | some d ↦ d ];
  issues = if is_empty issues then parse_issue a ∷ [] else issues;
}

-- The one repair.
unfoldable pub repair : Call → Provider → ProviderAttempt → Progress → Action Outcome
repair call provider a p = do
  check_lease call.revalidate
  reservation ← reserve_attempt call.attempt_audit 2 AttemptKind.repair
  repair_reserved call provider (corrective_for a p.last_issues) p reservation

abbrev pub first_verdict : Call → Provider → ProviderAttempt → Progress → Verdict → Action Outcome
first_verdict call provider a p (accepted output canonicalized) =
    accept call provider p output canonicalized false 1
first_verdict call provider a p (refused issues) =
    repair call provider a (record p { last_issues = issues; parse_status = ParseStatus.parsed })
first_verdict call provider a p unparsed = repair call provider a p

abbrev pub first_answered : Call → Provider → Response → Action Outcome
first_answered call provider (answer a) = do
  verdict ← check_answer call 1 a
  first_verdict call provider a
      (record (with_answer a (no_progress ParseStatus.parse_failed)) {
        provider_response_id = a.provider_response_id;
      })
      verdict
first_answered call provider (failure e) =
    not_answered call provider 1 e false (no_progress ParseStatus.error)
first_answered call provider interrupted = stopped provider_interrupted

abbrev pub first_reserved : Call → Provider → Reservation → Action Outcome
first_reserved call provider Reservation.reserved = do
  response ← send call provider none
  first_answered call provider response
first_reserved call provider reservation =
    not_reserved call provider reservation false (no_progress ParseStatus.parse_failed)

unfoldable pub run_remote : Call → Provider → Action Outcome
run_remote call provider = do
  check_lease call.revalidate
  reservation ← reserve_attempt call.attempt_audit 1 AttemptKind.initial
  first_reserved call provider reservation

abbrev pub run_with : Call → Option Provider → Action Outcome
run_with call none = run_deterministic call
run_with call (some provider) = run_remote call provider

unfoldable pub run_contract_execution : Call → Action Outcome
run_contract_execution call = run_with call call.provider
