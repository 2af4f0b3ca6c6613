-- ===== src/Execution/Tests.antt =====
-- An execution whose provider first answers with a status that the contract does not know and, asked
-- to correct it, with the alias of a status; and one whose lease is lost.
use open_webui_memorist_edit.Prelude.{
  ℕ, ◌+◌, ◌≤◌, ◌≡◌, ◌≢◌, refl, true, false, Option, none, some, List, [], ◌∷◌, String, str_eq,
  if◌then◌else◌,
}
use open_webui_memorist_edit.Execution.{
  Json, Dict, text, no_fields, field, Issue, ProviderAttempt, Request, Response, answer,
  interrupted, Corrective, Provider, FrozenProviderExecution, ParseStatus, State, AttemptAudit,
  Call, Outcome, StageStatus, invalidated, stopped, gave,
}
use open_webui_memorist_edit.Execution.Actions.{
  get, check_lease, reserve_attempt, send, finalize_answer, canonicalize, attempts_made,
  stage_status_for_output,
}
use open_webui_memorist_edit.Execution.Audit.{
  tick, canonical_hash_ijson, tests_of, reserve, finalize_attempt,
}
use open_webui_memorist_edit.Execution.IJson.{valid_members}
use open_webui_memorist_edit.Prelude.Texts.{is_word}
use mathlib.Core.Path.{subst}
use open_webui_memorist_edit.Execution.Run.{
  run_contract_execution, run_remote, check_answer, repair,
}
use open_webui_memorist_edit.Execution.Honesty.{IsHonest, Justified}
use open_webui_memorist_edit.Execution.Outcomes.{
  run_contract_execution-IsHonest, run_contract_execution-Justified,
}
use open_webui_memorist_edit.Execution.Invariants.Primitives.{state_after, sent_count}
use open_webui_memorist_edit.Execution.Audited.{
  reservations, run_executions, two_requests_altogether,
}
use open_webui_memorist_edit.Execution.Returns.{IsReady, run_contract_execution_returns}

abbrev output : String → Dict
output status = field "status" (text status) no_fields

abbrev wrong : Issue
wrong = record { path = some "status"; issue_code = some "enum"; message = none }

abbrev status_issues : Option Json → List Issue
status_issues (some (text s)) = if str_eq s "ok" then [] else wrong ∷ []
status_issues _ = wrong ∷ []

abbrev attempt : String → ProviderAttempt
attempt status = record {
  parsed = some (output status);
  parse_error = none;
  input_tokens = 10;
  output_tokens = 5;
  latency_ms = 20;
  provider_response_id = none;
  http_status = some 200;
}

abbrev remote : Provider
remote = record {
  capability_mode = "json_object";
  respond = λ tick request. elim request.corrective [
    | none ↦ answer (attempt "fine")
    | some corrective ↦ answer (attempt "Success")
  ];
}

abbrev stage : FrozenProviderExecution
stage = record {
  stage_execution_uuid = "s1";
  processing_run_uuid = "r1";
  job_uuid = none;
  source_type = "message";
  source_uuid = "m1";
  requested_role = "extraction";
  effective_role = "extraction";
  model_profile_uuid = none;
  profile_fingerprint = "p";
  scope_source = "global";
  inheritance_source = none;
  provider_type = "openai";
  model_name = "m";
  capability_mode = "json_object";
  prompt_id = "q";
  prompt_version = "1";
  contract_hash = "c";
  input_hash = "i";
  idempotency_identity = "k1";
  deterministic_fallback_version = "1";
}

abbrev audit : AttemptAudit
audit = record {
  frozen = stage;
  utc_now = λ tick. "now";
  encodes = λ s. true;
  is_timestamp = λ s. false;
  sha256 = λ d. "h";
}

abbrev stage_call : Call
stage_call = record {
  provider = some remote;
  system_prompt = "";
  input_payload = no_fields;
  contract = none;
  validate = λ d. status_issues (get "status" d);
  deterministic_output = output "ok";
  revalidate = some λ tick. none;
  allow_fallback = true;
  attempt_audit = some audit;
}

abbrev lost : Call
lost = record stage_call { revalidate = some λ tick. some "lease lost" }

abbrev start : State
start = record { rows = []; sent = []; ticks = 0 }

abbrev repaired : Outcome
repaired = record {
  output = output "ok";
  status = StageStatus.ok;
  called_provider = true;
  provider_output_valid = true;
  canonicalized = true;
  repair_attempted = true;
  repair_succeeded = true;
  fallback_used = false;
  fallback_reason = none;
  capability_mode = "json_object";
  provider_response_id = none;
  input_tokens = 20;
  output_tokens = 10;
  latency_ms = 40;
  parse_status = ParseStatus.parsed;
  attempt_count = 2;
  validation_error_paths = [];
}

abbrev NeverFails : ℕ → Option (ℕ → Option String) → Type 0
NeverFails tick none = Unit
NeverFails tick (some check) = check tick ≡ none

abbrev AlwaysAnswers : ℕ → Request → Option Provider → Type 0
AlwaysAnswers tick request none = Unit
AlwaysAnswers tick request (some provider) = provider.respond tick request ≢ interrupted

asked :
    (c : Option Corrective)
    → elim c as (λ c. Response) [
      | none ↦ answer (attempt "fine")
      | some d ↦ answer (attempt "Success")
    ]
      ≢ interrupted
asked none = λ h. cc
asked (some d) = λ h. cc

remote_answers : (tick : ℕ) (request : Request) → remote.respond tick request ≢ interrupted
remote_answers tick request = asked request.corrective

-- What the tests of the audit say of an answer.
abbrev MemberTest : AttemptAudit → Option Dict → Type 0
MemberTest a none = Unit
MemberTest a (some d) = valid_members (tests_of a) d ≡ true

abbrev Readable : AttemptAudit → Response → Type 0
Readable a (answer attempt) = MemberTest a attempt.parsed
Readable a _ = Unit

abbrev AllReadable : ℕ → Request → Option AttemptAudit → Option Provider → Type 0
AllReadable tick request (some a) (some provider) = Readable a (provider.respond tick request)
AllReadable tick request _ _ = Unit

status_readable : (s : String) → valid_members (tests_of audit) (output s) ≡ true
unfolding valid_members
status_readable s = refl

asked-Readable :
    (c : Option Corrective)
    → Readable audit (elim c as (λ c. Response) [
      | none ↦ answer (attempt "fine")
      | some d ↦ answer (attempt "Success")
    ])
asked-Readable none = status_readable "fine"
asked-Readable (some d) = status_readable "Success"

answers_read :
    (a : AttemptAudit) (provider : Provider) (tick : ℕ) (request : Request)
    (given : ProviderAttempt) (d : Dict)
    → some audit ≡ some a
    → some remote ≡ some provider
    → provider.respond tick request ≡ answer given
    → given.parsed ≡ some d
    → valid_members (tests_of a) d ≡ true
answers_read a provider tick request given d h k g p =
    let one =
      subst (λ o. AllReadable tick request o (some remote)) h (asked-Readable request.corrective) in
    let two = subst (AllReadable tick request (some a)) k one in
    subst (MemberTest a) p (subst (Readable a) g two)

start-IsReady : IsReady stage_call start
start-IsReady = record {
  allowed = refl;
  valid = refl;
  counted = λ h. cc;
  leased = λ check tick h. subst (NeverFails tick) h refl;
  uninterrupted =
      λ provider tick request h. subst (AlwaysAnswers tick request) h (remote_answers tick request);
  readable = answers_read;
  audited = λ a h index k. k;
}

runs :
    run_contract_execution stage_call start
    ≡ gave repaired (state_after (run_contract_execution stage_call start))
unfolding run_contract_execution run_remote check_lease reserve_attempt reserve send check_answer
    finalize_answer finalize_attempt canonical_hash_ijson valid_members canonicalize repair
    attempts_made stage_status_for_output is_word
runs = refl

lost_stops : run_contract_execution lost start ≡ stopped (invalidated "lease lost") (tick start)
unfolding run_contract_execution run_remote check_lease
lost_stops = refl

run_contract_execution-IsHonest_example : IsHonest stage_call repaired
run_contract_execution-IsHonest_example =
    run_contract_execution-IsHonest stage_call start
      (state_after (run_contract_execution stage_call start)) repaired runs

run_contract_execution-Justified_example : Justified lost (invalidated "lease lost") (tick start)
run_contract_execution-Justified_example =
    run_contract_execution-Justified lost start (tick start) (invalidated "lease lost") lost_stops

run_contract_execution_returns_example :
    (o : Outcome) × (t : State) × (run_contract_execution stage_call start ≡ gave o t)
run_contract_execution_returns_example =
    run_contract_execution_returns stage_call start start-IsReady

two_requests_altogether_example :
    sent_count (run_executions (lost ∷ stage_call ∷ stage_call ∷ []) start)
      + reservations stage start
    ≤ 0 + 2
two_requests_altogether_example =
    two_requests_altogether stage (lost ∷ stage_call ∷ stage_call ∷ []) start
      ((audit, refl, refl), ((audit, refl, refl), ((audit, refl, refl), tt)))
