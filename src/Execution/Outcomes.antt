-- ===== src/Execution/Outcomes.antt =====
-- What an execution returns, and why it raises.
use mathlib.Core.Path.{subst}
use open_webui_memorist_edit.Prelude.{
  ℕ, ◌≡◌, refl, sym, ap, ◌&&◌, ◌⊎◌, inl, inr, Bool, true, false, Option, none, some, List, [],
  Bool-cases,
}
use open_webui_memorist_edit.Execution.{
  Dict, Issue, ProviderAttempt, Corrective, Request, Response, answer, failure, interrupted,
  Provider, Reservation, State, Call, Outcome, Error, stopped, gave,
}
use open_webui_memorist_edit.Execution.Actions.{is_empty, item_count, canonicalize, Progress, send}
use open_webui_memorist_edit.Execution.Audit.{is_some}
use open_webui_memorist_edit.Execution.Run.{
  count_output, run_with, run_deterministic, Verdict, accepted, refused, unparsed, verdict_of,
  canonical_verdict, check_answer, accept, conclude, repair_answered, repair_reserved, repair,
  first_verdict, first_answered, first_reserved, run_remote, run_contract_execution,
}
use open_webui_memorist_edit.Execution.Rules.{Ends, next-Ends}
use open_webui_memorist_edit.Execution.Honesty.{
  IsAnswer, IsHonest, Justified, canonicalize-valid, Raises, Anything, Honest, Sound, IsSound,
  check_with-Ends, reserve-Ends, made-Ends, answer-Ends, not_reserved-Ends, not_answered-Ends,
  give_up-Ends, empty_of, not_empty,
}

module _ (call : Call) where
  module _ (provider : Provider) (configured : call.provider ≡ some provider) where
    -- The response is one that the provider gave.
    abbrev IsGiven : Response → Type 0
    IsGiven response = (tick : ℕ) × (request : Request) × (provider.respond tick request ≡ response)

    abbrev Given : Response → State → Type 0
    Given response s = IsGiven response

    answer_of :
        (a : ProviderAttempt) (d output : Dict)
        → IsGiven (answer a)
        → a.parsed ≡ some d
        → (output ≡ d) ⊎ (canonicalize call.validate d ≡ some output)
        → IsAnswer call output
    answer_of a d output g h same = record {
      provider = provider;
      configured = configured;
      tick = g.0;
      request = g.1;
      attempt = a;
      given = g.2;
      parsed = d;
      was_parsed = h;
      same = same;
    }

    canonical-IsSound :
        (a : ProviderAttempt) (d : Dict) (issues : List Issue) (o : Option Dict)
        → IsGiven (answer a)
        → a.parsed ≡ some d
        → canonicalize call.validate d ≡ o
        → IsSound call (canonical_verdict issues o)
    canonical-IsSound a d issues none g h e = tt
    canonical-IsSound a d issues (some output) g h e =
        (canonicalize-valid call.validate d output e, answer_of a d output g h (inr e))

    verdict-IsSound :
        (a : ProviderAttempt) (o : Option Dict)
        → IsGiven (answer a)
        → a.parsed ≡ o
        → IsSound call (verdict_of call o)
    verdict-IsSound a none g h = tt
    verdict-IsSound a (some d) g h = elim (Bool-cases (is_empty (call.validate d))) [
      | inl e ↦ simp e (empty_of (call.validate d) e, answer_of a d d g h (inl refl))
      | inr e ↦ simp e (canonical-IsSound a d (call.validate d) _ g h refl)
    ]

    check_answer-Ends :
        (index : ℕ) (a : ProviderAttempt) (s : State)
        → IsGiven (answer a)
        → Ends (Raises call) (Sound call) (check_answer call index a s)
    unfolding check_answer
    check_answer-Ends index a s g =
        next-Ends (Raises call) (Anything call) (Sound call) _ _
          (answer-Ends call provider g.0 g.1 a configured g.2 call.attempt_audit index _ _ _ s refl)
          λ u t h.
            next-Ends (Raises call) (Anything call) (Sound call) _ _
              (check_with-Ends call call.revalidate t refl)
              λ u' t' h'. verdict-IsSound a a.parsed g refl

    send-Ends :
        (corrective : Option Corrective) (s : State)
        → Ends (Raises call) Given (send call provider corrective s)
    unfolding send
    send-Ends corrective s = (s.ticks, _, refl)

    accept-Ends :
        (p : Progress) (output : Dict) (canonicalized repaired : Bool) (index : ℕ) (s : State)
        → IsSound call (accepted output canonicalized)
        → Ends
            (Raises call)
            (Honest call)
            (accept call provider p output canonicalized repaired index s)
    accept-Ends p output canonicalized repaired index s sound =
        next-Ends (Raises call) (Anything call) (Honest call) _ _
          (made-Ends call call.attempt_audit index s)
          λ n t h. record {
            valid = sound.0;
            from_provider = λ k. sound.1;
            otherwise = λ k. cc;
            called = sym (ap is_some configured);
            fallback = sym (ap (λ x. is_some x && false) configured);
            permitted = λ k. cc;
          }

    conclude-Ends :
        (p : Progress) (v : Verdict) (s : State)
        → IsSound call v
        → Ends (Raises call) (Honest call) (conclude call provider p v s)
    conclude-Ends p (accepted output canonicalized) s sound =
        accept-Ends p output canonicalized true 2 s sound
    conclude-Ends p (refused issues) s sound = give_up-Ends call provider configured _ s
    conclude-Ends p unparsed s sound = give_up-Ends call provider configured p s

    repair_answered-Ends :
        (p : Progress) (response : Response) (s : State)
        → IsGiven response
        → Ends (Raises call) (Honest call) (repair_answered call provider p response s)
    repair_answered-Ends p (answer a) s g =
        next-Ends (Raises call) (Sound call) (Honest call) _ _ (check_answer-Ends 2 a s g)
          λ v t sound. conclude-Ends _ v t sound
    repair_answered-Ends p (failure e) s g = not_answered-Ends call provider configured 2 e true p s
    repair_answered-Ends p interrupted s (tick, request, given) =
        (provider, tick, request, configured, given)

    repair_reserved-Ends :
        (corrective : Corrective) (p : Progress) (r : Reservation) (s : State)
        → Ends (Raises call) (Honest call) (repair_reserved call provider corrective p r s)
    repair_reserved-Ends corrective p Reservation.reserved s =
        next-Ends (Raises call) Given (Honest call) _ _ (send-Ends (some corrective) s)
          (repair_answered-Ends p)
    repair_reserved-Ends corrective p Reservation.unknown_completion s =
        not_reserved-Ends call provider configured Reservation.unknown_completion true p s
    repair_reserved-Ends corrective p Reservation.completed s =
        not_reserved-Ends call provider configured Reservation.completed true p s

    repair-Ends :
        (a : ProviderAttempt) (p : Progress) (s : State)
        → Ends (Raises call) (Honest call) (repair call provider a p s)
    unfolding repair
    repair-Ends a p s =
        next-Ends (Raises call) (Anything call) (Honest call) _ _
          (check_with-Ends call call.revalidate s refl)
          λ u t h.
            next-Ends (Raises call) (Anything call) (Honest call) _ _
              (reserve-Ends call call.attempt_audit 2 _ t refl)
              λ r t' h'. repair_reserved-Ends _ p r t'

    first_verdict-Ends :
        (a : ProviderAttempt) (p : Progress) (v : Verdict) (s : State)
        → IsSound call v
        → Ends (Raises call) (Honest call) (first_verdict call provider a p v s)
    first_verdict-Ends a p (accepted output canonicalized) s sound =
        accept-Ends p output canonicalized false 1 s sound
    first_verdict-Ends a p (refused issues) s sound = repair-Ends a _ s
    first_verdict-Ends a p unparsed s sound = repair-Ends a p s

    first_answered-Ends :
        (response : Response) (s : State)
        → IsGiven response
        → Ends (Raises call) (Honest call) (first_answered call provider response s)
    first_answered-Ends (answer a) s g =
        next-Ends (Raises call) (Sound call) (Honest call) _ _ (check_answer-Ends 1 a s g)
          λ v t sound. first_verdict-Ends a _ v t sound
    first_answered-Ends (failure e) s g = not_answered-Ends call provider configured 1 e false _ s
    first_answered-Ends interrupted s (tick, request, given) =
        (provider, tick, request, configured, given)

    first_reserved-Ends :
        (r : Reservation) (s : State)
        → Ends (Raises call) (Honest call) (first_reserved call provider r s)
    first_reserved-Ends Reservation.reserved s =
        next-Ends (Raises call) Given (Honest call) _ _ (send-Ends none s) first_answered-Ends
    first_reserved-Ends Reservation.unknown_completion s =
        not_reserved-Ends call provider configured Reservation.unknown_completion false _ s
    first_reserved-Ends Reservation.completed s =
        not_reserved-Ends call provider configured Reservation.completed false _ s

    run_remote-Ends : (s : State) → Ends (Raises call) (Honest call) (run_remote call provider s)
    unfolding run_remote
    run_remote-Ends s =
        next-Ends (Raises call) (Anything call) (Honest call) _ _
          (check_with-Ends call call.revalidate s refl)
          λ u t h.
            next-Ends (Raises call) (Anything call) (Honest call) _ _
              (reserve-Ends call call.attempt_audit 1 _ t refl) λ r t' h'. first_reserved-Ends r t'

  count_output-Ends :
      (o : Option ℕ) (s : State)
      → call.provider ≡ none
      → call.validate call.deterministic_output ≡ []
      → item_count call.deterministic_output ≡ o
      → Ends (Raises call) (Honest call) (count_output call o s)
  count_output-Ends none s h valid k = (h, k)
  count_output-Ends (some n) s h valid k = record {
    valid = valid;
    from_provider = λ e. cc;
    otherwise = λ e. refl;
    called = sym (ap is_some h);
    fallback = sym (ap (λ x. is_some x && true) h);
    permitted = λ e. cc;
  }

  run_deterministic-Ends :
      (s : State)
      → call.provider ≡ none
      → Ends (Raises call) (Honest call) (run_deterministic call s)
  unfolding run_deterministic
  run_deterministic-Ends s h =
      elim (Bool-cases (is_empty (call.validate call.deterministic_output))) [
        | inl e ↦ simp e (count_output-Ends _ s h (empty_of _ e) refl)
        | inr e ↦ simp e (not_empty _ e, refl)
      ]

  run_with-Ends :
      (o : Option Provider) (s : State)
      → call.provider ≡ o
      → Ends (Raises call) (Honest call) (run_with call o s)
  run_with-Ends none s h = run_deterministic-Ends s h
  run_with-Ends (some provider) s h = run_remote-Ends provider h s

-- An execution that returns reports the truth: its output meets the contract; an output that it
-- calls the provider's is an answer of the provider or the canonical form of one, and any other is the
-- deterministic one; it says that a provider was called exactly where one is configured, whether or
-- not this execution sends a request, and that a fallback was used exactly where one is configured and
-- the output is not called its own; and a fallback that was used was allowed.
pub run_contract_execution-IsHonest :
    (call : Call) (s t : State) (o : Outcome)
    → run_contract_execution call s ≡ gave o t
    → IsHonest call o
unfolding run_contract_execution
run_contract_execution-IsHonest call s t o h =
    subst (Ends (Raises call) (Honest call)) h (run_with-Ends call call.provider s refl)

-- An execution that raises, where the database carries out its statements, has the reason for it: a
-- fallback that is not allowed, a deterministic output that breaks the contract, a check of the lease
-- that failed, a second row for the stage in the audit, an output whose items cannot be counted, an
-- answer of the provider that is audited and is not I-JSON (an unsafe integer, say, or a member whose
-- name ends in _at, _from or _until and that is no timestamp), or an interrupted call of the provider.
pub run_contract_execution-Justified :
    (call : Call) (s t : State) (e : Error)
    → run_contract_execution call s ≡ stopped e t
    → Justified call e t
unfolding run_contract_execution
run_contract_execution-Justified call s t e h =
    subst (Ends (Raises call) (Honest call)) h (run_with-Ends call call.provider s refl)
