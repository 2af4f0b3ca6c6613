-- ===== src/Execution/Returns.antt =====
-- That an execution returns.
use mathlib.Core.Path.{subst}
use open_webui_memorist_edit.Prelude.{
  ℕ, suc, ◌≡◌, ◌≢◌, refl, sym, inl, inr, true, ◌||◌, Option, none, some, List, [], ◌∷◌, ◌++◌, map,
  String, any, arith, Bool-cases, eq_iff, or_true, ◌∙◌,
}
use open_webui_memorist_edit.Execution.{
  Dict, ProviderAttempt, answer, Corrective, interrupted, Provider, Request,
  FrozenProviderExecution, AttemptKind, AttemptRow, State, AttemptAudit, Call, Outcome, Error,
  no_deterministic_fallback, deterministic_contract, invalidated, integrity_error, type_error,
  ijson_validation_error, provider_interrupted, Step, stopped, gave,
}
use open_webui_memorist_edit.Execution.Audit.{
  same_identity, same_stage, is_some, reserve, reserved_row, finalize_if, Observation,
  reservation_of, find_row, tests_of,
}
use open_webui_memorist_edit.Execution.IJson.{valid_members}
use open_webui_memorist_edit.Execution.Actions.{item_count, reserve_attempt, send}
use open_webui_memorist_edit.Execution.Run.{run_contract_execution}
use open_webui_memorist_edit.Execution.Invariants.{Leaves, Reserved, Invariant}
use open_webui_memorist_edit.Execution.Invariants.Primitives.{
  state_after, Leaves-after, check-Leaves, answer-Leaves, error-Leaves,
}
use open_webui_memorist_edit.Execution.Invariants.Runs.{run-Leaves}
use open_webui_memorist_edit.Execution.Rows.{any-append, any-map, finalize-identity, finalize-stage}
use open_webui_memorist_edit.Execution.Honesty.{Justified}
use open_webui_memorist_edit.Execution.Outcomes.{run_contract_execution-Justified}

-- The attempts of the stage in the table are attempts of the identity: the unique keys agree.
abbrev pub IsKeyed : FrozenProviderExecution → List AttemptRow → Type 0
IsKeyed f rows =
    (index : ℕ) → any (same_stage f index) rows ≡ true → any (same_identity f index) rows ≡ true

finalize-IsKeyed :
    (f g : FrozenProviderExecution) (index : ℕ) (seen : Observation) (now : String)
    (rows : List AttemptRow)
    → IsKeyed f rows
    → IsKeyed f (map (finalize_if g index seen now) rows)
finalize-IsKeyed f g index seen now rows h i k =
    let one =
      any-map (same_identity f i) (finalize_if g index seen now) rows
        (finalize-identity g i index seen now f) in
    let two =
      any-map (same_stage f i) (finalize_if g index seen now) rows
        (finalize-stage g i index seen now f) in
    let k' : any (same_stage f i) rows ≡ true = cc in let r = h i k' in cc

index_of :
    (a : AttemptAudit) (n i : ℕ) (kind : AttemptKind) (now : String)
    → same_stage a.frozen i (reserved_row a n kind now) ≡ true
    → same_identity a.frozen i (reserved_row a n kind now) ≡ true
index_of a n i kind now h =
    let k = (eq_iff a.frozen.idempotency_identity a.frozen.idempotency_identity).1 refl in
    rw k (ground arith)

append-IsKeyed :
    (a : AttemptAudit) (n : ℕ) (kind : AttemptKind) (now : String) (rows : List AttemptRow)
    → IsKeyed a.frozen rows
    → IsKeyed a.frozen (rows ++ reserved_row a n kind now ∷ [])
append-IsKeyed a n kind now rows h i k =
    let row = reserved_row a n kind now in
    let one = any-append (same_identity a.frozen i) rows row in
    let two = any-append (same_stage a.frozen i) rows row in
    let split : (any (same_stage a.frozen i) rows || same_stage a.frozen i row) ≡ true =
      sym two ∙ k in
    elim (Bool-cases (any (same_stage a.frozen i) rows)) [
      | inl e ↦ let old = h i e in rw (one, old) refl
      | inr e ↦ let new = index_of a n i kind now (rw e at split) in rw (one, new) (or_true _)
    ]

module _ (call : Call) where
  -- The audit's table is keyed.
  abbrev Keyed : ℕ → State → Type 0
  Keyed n s = (a : AttemptAudit) → call.attempt_audit ≡ some a → IsKeyed a.frozen s.rows

  reserve-Keyed :
      (o : Option AttemptAudit) (n index : ℕ) (kind : AttemptKind) (s : State)
      → call.attempt_audit ≡ o
      → Keyed n s
      → Reserved (Keyed n) (Keyed n) (reserve_attempt o index kind s)
  unfolding reserve_attempt reserve
  reserve-Keyed none n index kind s q h = h
  reserve-Keyed (some a) n index kind s q h =
      elim (Bool-cases (any (same_identity a.frozen index) s.rows)) [
        | inl e ↦ rw e (found (find_row (same_identity a.frozen index) s.rows))
        | inr e ↦ elim (Bool-cases (any (same_stage a.frozen index) s.rows)) [
          | inl f ↦ rw (e, f) h
          | inr f ↦
              rw (e, f)
                λ b k.
                  let same : a ≡ b = cc in
                  subst
                    (λ (c : AttemptAudit).
                      IsKeyed c.frozen
                        (s.rows ++ reserved_row a index kind (a.utc_now s.ticks) ∷ []))
                    same (append-IsKeyed a index kind (a.utc_now s.ticks) s.rows (h a q))
        ]
      ]
    where
      found : (r : Option AttemptRow) → Reserved (Keyed n) (Keyed n) (gave (reservation_of r) s)
      found none = h
      found (some r) = elim (Bool-cases (is_some r.completed_at)) [
        | inl e ↦ rw e h
        | inr e ↦ rw e h
      ]

  send-Keyed :
      (n : ℕ) (provider : Provider) (corrective : Option Corrective) (s : State)
      → Keyed n s
      → Leaves (Keyed (suc n)) (send call provider corrective s)
  unfolding send
  send-Keyed n provider corrective s h = h

  final-Keyed :
      (n : ℕ) (f : FrozenProviderExecution) (index : ℕ) (seen : Observation) (now : String)
      (s : State)
      → Keyed n s
      → Keyed n (record s { rows = map (finalize_if f index seen now) s.rows })
  final-Keyed n f index seen now s h a q = finalize-IsKeyed a.frozen f index seen now s.rows (h a q)

  abbrev keyed : Invariant call
  keyed = record {
    After = Keyed;
    Ready = Keyed;
    weaken = λ n s h. h;
    checks = λ n s h. check-Leaves (Keyed n) (λ t k. k) call.revalidate s h;
    reserves = λ n kind s b h. reserve-Keyed call.attempt_audit n (suc n) kind s refl h;
    sends = send-Keyed;
    answers = λ n. answer-Leaves (Keyed n) (λ t k. k) (final-Keyed n) call.attempt_audit;
    fails = λ n. error-Leaves (Keyed n) (λ t k. k) (final-Keyed n) call.attempt_audit;
  }

-- What an execution needs in order to return. Of the provider's answers, only those that are audited
-- are asked to be I-JSON.
pub record IsReady (call : Call) (s : State) : Type 0 where
  pub allowed : call.allow_fallback ≡ true
  pub valid : call.validate call.deterministic_output ≡ []
  pub counted : call.provider ≡ none → item_count call.deterministic_output ≢ none
  pub leased :
      (check : ℕ → Option String) (tick : ℕ) → call.revalidate ≡ some check → check tick ≡ none
  pub uninterrupted :
      (provider : Provider) (tick : ℕ) (request : Request)
      → call.provider ≡ some provider
      → provider.respond tick request ≢ interrupted
  pub readable :
      (a : AttemptAudit) (provider : Provider) (tick : ℕ) (request : Request)
      (attempt : ProviderAttempt) (d : Dict)
      → call.attempt_audit ≡ some a
      → call.provider ≡ some provider
      → provider.respond tick request ≡ answer attempt
      → attempt.parsed ≡ some d
      → valid_members (tests_of a) d ≡ true
  pub audited : (a : AttemptAudit) → call.attempt_audit ≡ some a → IsKeyed a.frozen s.rows

no_exception :
    (call : Call) (s t : State) (e : Error) → IsReady call s → Keyed call 2 t → ¬ Justified call e t
no_exception call s t (no_deterministic_fallback reason) r k j = let h = r.allowed in cc
no_exception call s t (deterministic_contract ps) r k j = j.0 r.valid
no_exception call s t (invalidated reason) r k (check, tick, h, f) =
    let g = r.leased check tick h in cc
no_exception call s t integrity_error r k (a, index, h, (none_same, some_stage)) =
    let g = k a h index some_stage in cc
no_exception call s t type_error r k j = r.counted j.0 j.1
no_exception call s t ijson_validation_error r k
      (a, provider, tick, request, attempt, d, h, configured, given, parsed, bad) =
    let good = r.readable a provider tick request attempt d h configured given parsed in cc
no_exception call s t provider_interrupted r k (provider, tick, request, h, f) =
    r.uninterrupted provider tick request h f

-- Where the database carries out its statements, an execution returns an outcome, whether or not its
-- provider fails and whether or not its answers meet the contract, if a fallback is allowed, the
-- deterministic output meets the contract and can be counted, no check of the lease fails, no call of
-- the provider is interrupted, the answers that are audited are I-JSON and the unique keys of the
-- audit agree.
pub run_contract_execution_returns :
    (call : Call) (s : State)
    → IsReady call s
    → (o : Outcome) × (t : State) × (run_contract_execution call s ≡ gave o t)
run_contract_execution_returns call s r = ended (run_contract_execution call s) refl
  where
    ended :
        (m : Step Outcome)
        → run_contract_execution call s ≡ m
        → (o : Outcome) × (t : State) × (run_contract_execution call s ≡ gave o t)
    ended (gave o t) h = (o, t, h)
    ended (stopped e t) h =
        let k =
          Leaves-after (Keyed call 2) (run_contract_execution call s)
            (run-Leaves call (keyed call) s r.audited) in
        let k' : Keyed call 2 t = subst (λ m. Keyed call 2 (state_after m)) h k in
        absurd (no_exception call s t e r k' (run_contract_execution-Justified call s t e h))
