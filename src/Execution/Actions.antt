-- ===== src/Execution/Actions.antt =====
-- The helpers of memory_worker/execution.py and the calls that its function makes on the world, and
-- stage_status_for_output of model_control/stage_status.py.
use open_webui_memorist_edit.Prelude.{
  ℕ, zero, suc, ◌+◌, Bool, true, false, ◌||◌, Option, none, some, List, [], ◌∷◌, ◌++◌, String,
  str_eq, if◌then◌else◌, take, contains,
}
use open_webui_memorist_edit.Prelude.Int.{pos}
use open_webui_memorist_edit.Prelude.Texts.{count_chars, is_word}
pub use open_webui_memorist_edit.Prelude.Json.{get, put}
use open_webui_memorist_edit.Execution.{
  Json, Items, Dict, null, flag, number, text, array, object, no_items, item, no_fields, field,
  Issue, ProviderAttempt, ProviderError, Corrective, Request, Response, Provider, AttemptKind,
  Reservation, ParseStatus, AttemptAudit, Call, StageStatus, invalidated, Action, stopped, gave,
}
use open_webui_memorist_edit.Execution.Audit.{
  canonical_hash_ijson, or_text, tick, reserve, finalize_attempt, finalize_hashed, output_hash,
  error_seen, count_attempts,
}

abbrev pub is_empty {ℓ} : {A : Type ℓ} → List A → Bool
is_empty [] = true
is_empty (x ∷ xs) = false

abbrev count_items : Items → ℕ
count_items no_items = 0
count_items (item v vs) = suc (count_items vs)

abbrev count_fields : Dict → ℕ
count_fields no_fields = 0
count_fields (field k v d) = suc (count_fields d)

abbrev pub truthy : Json → Bool
truthy null = false
truthy (flag b) = b
truthy (number (pos zero)) = false
truthy (number z) = true
truthy (text s) = if str_eq s "" then false else true
truthy (array no_items) = false
truthy (array (item v vs)) = true
truthy (object no_fields) = false
truthy (object (field k v d)) = true

-- `a or b` for values that may be missing.
abbrev or_json : Option Json → Option Json → Option Json
or_json none b = b
or_json (some v) b = if truthy v then some v else b

-- `len(value or [])`; of a number or of a flag it is a TypeError.
abbrev pub json_len : Option Json → Option ℕ
json_len none = some 0
json_len (some null) = some 0
json_len (some (flag b)) = if b then none else some 0
json_len (some (number (pos zero))) = some 0
json_len (some (number z)) = none
json_len (some (text s)) = some (count_chars s)
json_len (some (array vs)) = some (count_items vs)
json_len (some (object d)) = some (count_fields d)

abbrev pub item_count : Dict → Option ℕ
item_count d =
    json_len (or_json (get "items" d) (or_json (get "sentences" d) (get "semantic_units" d)))

-- stage_status_for_output. The text of a value that is not a text is none of the words.
unfoldable pub stage_status_for_output : Option Json → Bool → Bool → StageStatus
stage_status_for_output status true true = StageStatus.failed_open
stage_status_for_output (some (text s)) fallback_used provider_failed =
    if is_word s "abstain" || is_word s "abstained"
    then StageStatus.abstained
    else if is_word s "reject" || (is_word s "error" || is_word s "failed")
    then StageStatus.failed
    else StageStatus.ok
stage_status_for_output status fallback_used provider_failed = StageStatus.ok

-- _paths: each path once, in the order of the issues, at most 20.
abbrev seen_paths : List String → List Issue → List String
seen_paths seen [] = seen
seen_paths seen (issue ∷ issues) =
    let path = or_text issue.path "(root)" in
    seen_paths (if contains seen path then seen else seen ++ path ∷ []) issues

unfoldable pub paths : List Issue → List String
paths issues = take 20 (seen_paths [] issues)

-- _canonicalize: the status `success` becomes `ok` if this makes the output valid.
abbrev pub canonical_candidate : (Dict → List Issue) → Dict → Option Dict
canonical_candidate validate candidate =
    if is_empty (validate candidate) then some candidate else none

abbrev pub canonicalize_text : (Dict → List Issue) → Dict → String → Option Dict
canonicalize_text validate output status =
    if is_word status "success"
    then if str_eq "ok" status
      then none
      else canonical_candidate validate (put "status" (text "ok") output)
    else none

abbrev pub canonicalize_status : (Dict → List Issue) → Dict → Option Json → Option Dict
canonicalize_status validate output (some (text status)) = canonicalize_text validate output status
canonicalize_status validate output _ = none

unfoldable pub canonicalize : (Dict → List Issue) → Dict → Option Dict
canonicalize validate output = canonicalize_status validate output (get "status" output)

-- The local variables of the function that an outcome reports.
pub record Progress : Type 0 where
  pub provider_response_id : Option String
  pub input_tokens : ℕ
  pub output_tokens : ℕ
  pub latency_ms : ℕ
  pub parse_status : ParseStatus
  pub last_issues : List Issue

abbrev pub no_progress : ParseStatus → Progress
no_progress status = record {
  provider_response_id = none;
  input_tokens = 0;
  output_tokens = 0;
  latency_ms = 0;
  parse_status = status;
  last_issues = [];
}

-- `a or b` for response identifiers.
abbrev or_id : Option String → Option String → Option String
or_id none b = b
or_id (some s) b = if str_eq s "" then b else some s

abbrev pub with_answer : ProviderAttempt → Progress → Progress
with_answer a p = record p {
  provider_response_id = or_id a.provider_response_id p.provider_response_id;
  input_tokens = p.input_tokens + a.input_tokens;
  output_tokens = p.output_tokens + a.output_tokens;
  latency_ms = p.latency_ms + a.latency_ms;
}

-- `if revalidate is not None: revalidate()`
abbrev pub end_check : Option String → Action Unit
end_check none s = gave tt (tick s)
end_check (some reason) s = stopped (invalidated reason) (tick s)

unfoldable pub check_lease : Option (ℕ → Option String) → Action Unit
check_lease none s = gave tt s
check_lease (some check) s = end_check (check s.ticks) s

unfoldable pub reserve_attempt : Option AttemptAudit → ℕ → AttemptKind → Action Reservation
reserve_attempt none index kind s = gave Reservation.reserved s
reserve_attempt (some a) index kind s = reserve a index kind s

-- `attempt_audit.count() if attempt_audit is not None else otherwise`
unfoldable pub attempts_made : Option AttemptAudit → ℕ → Action ℕ
attempts_made none otherwise s = gave otherwise s
attempts_made (some a) otherwise s = gave (count_attempts a s) s

-- provider.run
unfoldable pub send : Call → Provider → Option Corrective → Action Response
send call provider corrective s =
    let request : Request = record {
      system_prompt = call.system_prompt;
      input_payload = call.input_payload;
      schema = elim call.contract [ none ↦ none | some c ↦ some c.json_schema ];
      schema_name = elim call.contract [
        | none ↦ "memorist_structured_output"
        | some c ↦ c.json_schema_name
      ];
      corrective = corrective;
    } in
    gave (provider.respond s.ticks request) (tick (record s { sent = s.sent ++ request ∷ [] }))

unfoldable pub finalize_answer :
    Option AttemptAudit → ℕ → ProviderAttempt → Bool → Bool → List Issue → Action Unit
unfolding canonical_hash_ijson finalize_attempt
finalize_answer none index attempt schema_valid canonicalized issues s = gave tt s
finalize_answer (some a) index attempt schema_valid canonicalized issues s =
    finalize_hashed a index attempt schema_valid canonicalized issues (output_hash a attempt.parsed)
      s

unfoldable pub finalize_error : Option AttemptAudit → ℕ → ProviderError → Action Unit
finalize_error none index e s = gave tt s
finalize_error (some a) index e s = finalize_attempt a index (error_seen e) s
