-- ===== src/Execution/Honesty.antt =====
-- What it is for an outcome to be honest and for an exception to be justified, and that the single
-- actions of an execution are so.
use mathlib.Core.Path.{subst}
use open_webui_memorist_edit.Prelude.{
  str_eq, String, any, sym, ap, ℕ, ◌≡◌, ◌≢◌, refl, ◌⊎◌, inl, inr, Bool, true, false, not, ◌&&◌,
  Option, none, some, List, [], ◌∷◌, Bool-cases,
}
use open_webui_memorist_edit.Prelude.Texts.{is_word}
use open_webui_memorist_edit.Execution.{
  Json, null, flag, number, text, array, object, AttemptKind, Dict, Issue, ProviderAttempt,
  ProviderError, Request, answer, interrupted, Provider, Reservation, State, AttemptAudit, Call,
  Reason, Outcome, Error, no_deterministic_fallback, deterministic_contract, invalidated,
  integrity_error, type_error, ijson_validation_error, provider_interrupted,
}
use open_webui_memorist_edit.Execution.Audit.{
  is_some, reserve, finalize_attempt, finalize_hashed, output_hash, hash_result, tests_of,
  canonical_hash_ijson, same_identity, same_stage,
}
use open_webui_memorist_edit.Execution.IJson.{valid_members}
use open_webui_memorist_edit.Execution.Actions.{
  end_check, put, get, canonical_candidate, canonicalize_text, canonicalize_status, is_empty,
  item_count, paths, canonicalize, Progress, check_lease, reserve_attempt, attempts_made,
  finalize_answer, finalize_error,
}
use open_webui_memorist_edit.Execution.Run.{
  fall_back, not_reserved, not_answered, Verdict, accepted, give_up,
}
use open_webui_memorist_edit.Execution.Rules.{Ends, next-Ends}

-- The output is an answer that the provider gave, or is the canonical form of one.
pub record IsAnswer (call : Call) (output : Dict) : Type 0 where
  pub provider : Provider
  pub configured : call.provider ≡ some provider
  pub tick : ℕ
  pub request : Request
  pub attempt : ProviderAttempt
  pub given : provider.respond tick request ≡ answer attempt
  pub parsed : Dict
  pub was_parsed : attempt.parsed ≡ some parsed
  pub same : (output ≡ parsed) ⊎ (canonicalize call.validate parsed ≡ some output)

-- What an outcome says is so: its output meets the contract; an output that is called the
-- provider's is one, and any other is the deterministic one; a provider is said to be called where one
-- is configured, and a fallback to be used where one is and the output is not its own; a fallback is
-- one that was allowed.
pub record IsHonest (call : Call) (o : Outcome) : Type 0 where
  pub valid : call.validate o.output ≡ []
  pub from_provider : o.provider_output_valid ≡ true → IsAnswer call o.output
  pub otherwise : o.provider_output_valid ≡ false → o.output ≡ call.deterministic_output
  pub called : o.called_provider ≡ is_some call.provider
  pub fallback : o.fallback_used ≡ is_some call.provider && not o.provider_output_valid
  pub permitted : o.fallback_used ≡ true → call.allow_fallback ≡ true

-- A row of the stage and of this attempt, under another identity.
abbrev pub Clash : AttemptAudit → ℕ → State → Type 0
Clash a index s =
    (any (same_identity a.frozen index) s.rows ≡ false)
    × (any (same_stage a.frozen index) s.rows ≡ true)

-- Why an exception leaves the function in a state.
abbrev pub Justified : Call → Error → State → Type 0
Justified call (no_deterministic_fallback reason) s = call.allow_fallback ≡ false
Justified call (deterministic_contract ps) s =
    (call.validate call.deterministic_output ≢ [])
    × (ps ≡ paths (call.validate call.deterministic_output))
Justified call (invalidated reason) s =
    (check : ℕ → Option String) × (tick : ℕ) × (call.revalidate ≡ some check)
    × (check tick ≡ some reason)
Justified call integrity_error s =
    (a : AttemptAudit) × (index : ℕ) × (call.attempt_audit ≡ some a) × Clash a index s
Justified call type_error s = (call.provider ≡ none) × (item_count call.deterministic_output ≡ none)
Justified call ijson_validation_error s =
    (a : AttemptAudit) × (provider : Provider) × (tick : ℕ) × (request : Request)
    × (attempt : ProviderAttempt) × (d : Dict) × (call.attempt_audit ≡ some a)
    × (call.provider ≡ some provider)
    × (provider.respond tick request ≡ answer attempt)
    × (attempt.parsed ≡ some d)
    × (valid_members (tests_of a) d ≡ false)
Justified call provider_interrupted s =
    (provider : Provider) × (tick : ℕ) × (request : Request) × (call.provider ≡ some provider)
    × (provider.respond tick request ≡ interrupted)

pub empty_of : (issues : List Issue) → is_empty issues ≡ true → issues ≡ []
empty_of [] h = refl
empty_of (i ∷ issues) h = cc

pub not_empty : (issues : List Issue) → is_empty issues ≡ false → issues ≢ []
not_empty [] h = λ e. cc
not_empty (i ∷ issues) h = λ e. cc

module _ (validate : Dict → List Issue) where
  candidate-valid :
      (candidate output : Dict)
      → canonical_candidate validate candidate ≡ some output
      → validate output ≡ []
  candidate-valid candidate output h = elim (Bool-cases (is_empty (validate candidate))) [
    | inl e ↦
        let k : some candidate ≡ some output = simp e at h in
        let same : candidate ≡ output = cc in
        subst (λ d. validate d ≡ []) same (empty_of (validate candidate) e)
    | inr e ↦ let k : none ≡ some output = simp e at h in cc
  ]

  text-valid :
      (d output : Dict) (status : String)
      → canonicalize_text validate d status ≡ some output
      → validate output ≡ []
  text-valid d output status h = elim (Bool-cases (is_word status "success")) [
    | inl e ↦ elim (Bool-cases (str_eq "ok" status)) [
      | inl f ↦ let k : none ≡ some output = simp (e, f) at h in cc
      | inr f ↦ candidate-valid (put "status" (text "ok") d) output (simp (e, f) at h)
    ]
    | inr e ↦ let k : none ≡ some output = simp e at h in cc
  ]

  status-valid :
      (d output : Dict) (status : Option Json)
      → canonicalize_status validate d status ≡ some output
      → validate output ≡ []
  status-valid d output none h = cc
  status-valid d output (some (text status)) h = text-valid d output status h
  status-valid d output (some null) h = cc
  status-valid d output (some (flag b)) h = cc
  status-valid d output (some (number z)) h = cc
  status-valid d output (some (array vs)) h = cc
  status-valid d output (some (object fs)) h = cc

  pub canonicalize-valid :
      (d output : Dict) → canonicalize validate d ≡ some output → validate output ≡ []
  unfolding canonicalize
  canonicalize-valid d output h = status-valid d output (get "status" d) h

module _ (call : Call) where
  abbrev pub Raises : Error → State → Type 0
  Raises e s = Justified call e s

  abbrev pub Anything {ℓ} : {A : Type ℓ} → A → State → Type 0
  Anything a s = Unit

  abbrev pub Honest : Outcome → State → Type 0
  Honest o s = IsHonest call o

  end_check-Ends :
      (check : ℕ → Option String) (o : Option String) (s : State)
      → call.revalidate ≡ some check
      → check s.ticks ≡ o
      → Ends Raises Anything (end_check o s)
  end_check-Ends check none s h k = tt
  end_check-Ends check (some reason) s h k = (check, s.ticks, h, k)

  pub check_with-Ends :
      (o : Option (ℕ → Option String)) (s : State)
      → call.revalidate ≡ o
      → Ends Raises Anything (check_lease o s)
  unfolding check_lease
  check_with-Ends none s h = tt
  check_with-Ends (some check) s h = end_check-Ends check (check s.ticks) s h refl

  pub reserve-Ends :
      (o : Option AttemptAudit) (index : ℕ) (kind : AttemptKind) (s : State)
      → call.attempt_audit ≡ o
      → Ends Raises Anything (reserve_attempt o index kind s)
  unfolding reserve_attempt reserve
  reserve-Ends none index kind s h = tt
  reserve-Ends (some a) index kind s h =
      elim (Bool-cases (any (same_identity a.frozen index) s.rows)) [
        | inl e ↦ rw e tt
        | inr e ↦ elim (Bool-cases (any (same_stage a.frozen index) s.rows)) [
          | inl f ↦ rw (e, f) (a, index, h, (e, f))
          | inr f ↦ rw (e, f) tt
        ]
      ]

  pub made-Ends :
      (o : Option AttemptAudit) (n : ℕ) (s : State) → Ends Raises Anything (attempts_made o n s)
  unfolding attempts_made
  made-Ends none n s = tt
  made-Ends (some a) n s = tt

  module _ (provider : Provider) (tick : ℕ) (request : Request) (a : ProviderAttempt)
      (configured : call.provider ≡ some provider)
      (given : provider.respond tick request ≡ answer a) where
    no_hash :
        (audit : AttemptAudit) (d : Dict)
        → canonical_hash_ijson audit d ≡ none
        → valid_members (tests_of audit) d ≡ false
    unfolding canonical_hash_ijson
    no_hash audit d h = elim (Bool-cases (valid_members (tests_of audit) d)) [
      | inl e ↦ let k : some (audit.sha256 d) ≡ none = simp e at h in cc
      | inr e ↦ e
    ]

    hashed-Ends :
        (audit : AttemptAudit) (d : Dict) (o : Option String) (index : ℕ) (valid canonical : Bool)
        (issues : List Issue) (s : State)
        → call.attempt_audit ≡ some audit
        → a.parsed ≡ some d
        → canonical_hash_ijson audit d ≡ o
        → Ends Raises Anything
            (finalize_hashed audit index a valid canonical issues (hash_result o) s)
    unfolding finalize_attempt
    hashed-Ends audit d none index valid canonical issues s h k e =
        (audit, provider, tick, request, a, d, h, configured, given, k, no_hash audit d e)
    hashed-Ends audit d (some hash) index valid canonical issues s h k e = tt

    parsed-Ends :
        (audit : AttemptAudit) (o : Option Dict) (index : ℕ) (valid canonical : Bool)
        (issues : List Issue) (s : State)
        → call.attempt_audit ≡ some audit
        → a.parsed ≡ o
        → Ends Raises Anything
            (finalize_hashed audit index a valid canonical issues (output_hash audit o) s)
    unfolding finalize_attempt
    parsed-Ends audit none index valid canonical issues s h k = tt
    parsed-Ends audit (some d) index valid canonical issues s h k =
        hashed-Ends audit d (canonical_hash_ijson audit d) index valid canonical issues s h k refl

    pub answer-Ends :
        (o : Option AttemptAudit) (index : ℕ) (valid canonical : Bool) (issues : List Issue)
        (s : State)
        → call.attempt_audit ≡ o
        → Ends Raises Anything (finalize_answer o index a valid canonical issues s)
    unfolding finalize_answer
    answer-Ends none index valid canonical issues s h = tt
    answer-Ends (some audit) index valid canonical issues s h =
        parsed-Ends audit a.parsed index valid canonical issues s h refl

  error-Ends :
      (o : Option AttemptAudit) (index : ℕ) (e : ProviderError) (s : State)
      → Ends Raises Anything (finalize_error o index e s)
  unfolding finalize_error finalize_attempt
  error-Ends none index e s = tt
  error-Ends (some audit) index e s = tt

  pub fall_back-Ends :
      (provider : Provider) (configured : call.provider ≡ some provider) (reason : Reason)
      (repaired : Bool) (p : Progress) (n : ℕ) (s : State)
      → Ends Raises Honest (fall_back call provider reason repaired p n s)
  unfolding fall_back
  fall_back-Ends provider configured reason repaired p n s = elim (Bool-cases call.allow_fallback) [
    | inl e ↦ elim (Bool-cases (is_empty (call.validate call.deterministic_output))) [
      | inl f ↦
          simp (e, f)
            record {
              valid = empty_of (call.validate call.deterministic_output) f;
              from_provider = λ h. cc;
              otherwise = λ h. refl;
              called = sym (ap is_some configured);
              fallback = sym (ap (λ x. is_some x && true) configured);
              permitted = λ h. e;
            }
      | inr f ↦ simp (e, f) (not_empty (call.validate call.deterministic_output) f, refl)
    ]
    | inr e ↦ simp e refl
  ]

  pub not_reserved-Ends :
      (provider : Provider) (configured : call.provider ≡ some provider) (r : Reservation)
      (repaired : Bool) (p : Progress) (s : State)
      → Ends Raises Honest (not_reserved call provider r repaired p s)
  unfolding not_reserved
  not_reserved-Ends provider configured r repaired p s =
      next-Ends Raises Anything Honest _ _ (check_with-Ends call.revalidate s refl) λ u t h.
        next-Ends Raises Anything Honest _ _ (made-Ends call.attempt_audit 0 t)
          λ n t' h'. fall_back-Ends provider configured _ repaired _ n t'

  pub not_answered-Ends :
      (provider : Provider) (configured : call.provider ≡ some provider) (index : ℕ)
      (e : ProviderError) (repaired : Bool) (p : Progress) (s : State)
      → Ends Raises Honest (not_answered call provider index e repaired p s)
  unfolding not_answered
  not_answered-Ends provider configured index e repaired p s =
      next-Ends Raises Anything Honest _ _ (error-Ends call.attempt_audit index e s) λ u t h.
        next-Ends Raises Anything Honest _ _ (check_with-Ends call.revalidate t refl) λ u' t' h'.
          next-Ends Raises Anything Honest _ _ (made-Ends call.attempt_audit index t')
            λ n v k. fall_back-Ends provider configured _ repaired _ n v

  pub give_up-Ends :
      (provider : Provider) (configured : call.provider ≡ some provider) (p : Progress) (s : State)
      → Ends Raises Honest (give_up call provider p s)
  give_up-Ends provider configured p s =
      next-Ends Raises Anything Honest _ _ (made-Ends call.attempt_audit 2 s)
        λ n t h. fall_back-Ends provider configured _ true p n t

  -- A verdict that accepts an output has it from the answer, and the output meets the contract.
  abbrev pub IsSound : Verdict → Type 0
  IsSound (accepted output canonicalized) = (call.validate output ≡ []) × IsAnswer call output
  IsSound _ = Unit

  abbrev pub Sound : Verdict → State → Type 0
  Sound v s = IsSound v
