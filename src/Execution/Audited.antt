-- ===== src/Execution/Audited.antt =====
-- How often the executions of one stage call a provider, with the audit.
use mathlib.Core.Path.{subst}
use open_webui_memorist_edit.Prelude.{
  ℕ, zero, suc, ◌+◌, ◌≤◌, ◌≡◌, sym, inl, inr, true, false, Option, none, some, List, [], ◌∷◌, ◌++◌,
  map, String, if◌then◌else◌, length-append, any, All, arith, Bool-cases,
}
use open_webui_memorist_edit.Execution.{
  Corrective, Provider, FrozenProviderExecution, AttemptKind, AttemptRow, State, AttemptAudit, Call,
  gave,
}
use open_webui_memorist_edit.Execution.Audit.{
  same_identity, same_stage, is_some, reserve, reserved_row, finalize_if, Observation,
  reservation_of, find_row,
}
use open_webui_memorist_edit.Execution.Actions.{reserve_attempt, send}
use open_webui_memorist_edit.Execution.Run.{run_contract_execution}
use open_webui_memorist_edit.Execution.Invariants.{Leaves, Reserved, Invariant}
use open_webui_memorist_edit.Execution.Invariants.Primitives.{
  state_after, Leaves-after, check-Leaves, answer-Leaves, error-Leaves, sent_count,
}
use open_webui_memorist_edit.Execution.Invariants.Runs.{run-Leaves}
use open_webui_memorist_edit.Execution.Rows.{any-append, any-map, finalize-identity, own_identity}

abbrev taken : FrozenProviderExecution → ℕ → List AttemptRow → ℕ
taken f index rows = if any (same_identity f index) rows then 1 else 0

-- How many of the two attempts of an execution have a row in the audit.
abbrev pub reservations : FrozenProviderExecution → State → ℕ
reservations f s = taken f 1 s.rows + taken f 2 s.rows

reserves_one :
    (f : FrozenProviderExecution) (rows : List AttemptRow) (r : AttemptRow) (n : ℕ)
    → n ≤ 1
    → any (same_identity f (suc n)) rows ≡ false
    → same_identity f (suc n) r ≡ true
    → suc (taken f 1 rows + taken f 2 rows)
      ≤ taken f 1 (rows ++ r ∷ []) + taken f 2 (rows ++ r ∷ [])
reserves_one f rows r zero b fresh own =
    let one = any-append (same_identity f 1) rows r in
    let two = any-append (same_identity f 2) rows r in ground arith
reserves_one f rows r (suc zero) b fresh own =
    let one = any-append (same_identity f 1) rows r in
    let two = any-append (same_identity f 2) rows r in ground arith
reserves_one f rows r (suc (suc n)) b fresh own = absurd (omega arith)

module _ (call : Call) (start : State) (a : AttemptAudit)
    (audited : call.attempt_audit ≡ some a) where
  -- No more requests than reservations were added since the start.
  abbrev Paid : ℕ → State → Type 0
  Paid n s = sent_count s + reservations a.frozen start ≤ sent_count start + reservations a.frozen s

  -- One reservation more than requests.
  abbrev CanPay : ℕ → State → Type 0
  CanPay n s =
      suc (sent_count s) + reservations a.frozen start ≤ sent_count start + reservations a.frozen s

  reserve-Paid :
      (n : ℕ) (kind : AttemptKind) (s : State)
      → n ≤ 1
      → Paid n s
      → Reserved (CanPay n) (Paid n) (reserve_attempt (some a) (suc n) kind s)
  unfolding reserve_attempt reserve
  reserve-Paid n kind s b h = elim (Bool-cases (any (same_identity a.frozen (suc n)) s.rows)) [
    | inl e ↦ rw e (found (find_row (same_identity a.frozen (suc n)) s.rows))
    | inr e ↦ elim (Bool-cases (any (same_stage a.frozen (suc n)) s.rows)) [
      | inl f ↦ rw (e, f) h
      | inr f ↦
          let row = reserved_row a (suc n) kind (a.utc_now s.ticks) in
          let more =
            reserves_one a.frozen s.rows row n b e
              (own_identity a (suc n) kind (a.utc_now s.ticks)) in
          rw (e, f) (omega (arith, more))
    ]
  ]
    where
      found : (r : Option AttemptRow) → Reserved (CanPay n) (Paid n) (gave (reservation_of r) s)
      found none = h
      found (some r) = elim (Bool-cases (is_some r.completed_at)) [
        | inl e ↦ rw e h
        | inr e ↦ rw e h
      ]

  send-Paid :
      (n : ℕ) (provider : Provider) (corrective : Option Corrective) (s : State)
      → CanPay n s
      → Leaves (Paid (suc n)) (send call provider corrective s)
  unfolding send
  send-Paid n provider corrective s h = omega (arith, length-append s.sent (_ ∷ []))

  finalize-Paid :
      (n : ℕ) (f : FrozenProviderExecution) (index : ℕ) (seen : Observation) (now : String)
      (s : State)
      → Paid n s
      → Paid n (record s { rows = map (finalize_if f index seen now) s.rows })
  finalize-Paid n f index seen now s h =
      let one =
        any-map (same_identity a.frozen 1) (finalize_if f index seen now) s.rows
          (finalize-identity f 1 index seen now a.frozen) in
      let two =
        any-map (same_identity a.frozen 2) (finalize_if f index seen now) s.rows
          (finalize-identity f 2 index seen now a.frozen) in
      rw (one, two) h

  abbrev paid : Invariant call
  paid = record {
    After = Paid;
    Ready = CanPay;
    weaken = λ n s h. h;
    checks = λ n s h. check-Leaves (Paid n) (λ t k. k) call.revalidate s h;
    reserves = λ n kind s b h.
        subst (λ o. Reserved (CanPay n) (Paid n) (reserve_attempt o (suc n) kind s)) (sym audited)
          (reserve-Paid n kind s b h);
    sends = send-Paid;
    answers = λ n. answer-Leaves (Paid n) (λ t k. k) (finalize-Paid n) call.attempt_audit;
    fails = λ n. error-Leaves (Paid n) (λ t k. k) (finalize-Paid n) call.attempt_audit;
  }

  run-Paid : Paid 2 (state_after (run_contract_execution call start))
  run-Paid =
      Leaves-after (Paid 2) (run_contract_execution call start)
        (run-Leaves call paid start (omega arith))

-- Executions one after the other, each from the state that the one before it left.
abbrev pub run_executions : List Call → State → State
run_executions [] s = s
run_executions (call ∷ calls) s = run_executions calls (state_after (run_contract_execution call s))

-- The execution is audited under this frozen identity.
abbrev pub IsAuditedAs : FrozenProviderExecution → Call → Type 0
IsAuditedAs f call = (a : AttemptAudit) × (call.attempt_audit ≡ some a) × (a.frozen ≡ f)

runs-Paid :
    (f : FrozenProviderExecution) (calls : List Call) (s : State)
    → All (IsAuditedAs f) calls
    → sent_count (run_executions calls s) + reservations f s
      ≤ sent_count s + reservations f (run_executions calls s)
runs-Paid f [] s h = omega arith
runs-Paid f (call ∷ calls) s ((a, audited, same), h) =
    let t = state_after (run_contract_execution call s) in
    let step : sent_count t + reservations f s ≤ sent_count s + reservations f t =
      subst (λ g. sent_count t + reservations g s ≤ sent_count s + reservations g t) same
        (run-Paid call s a audited) in
    omega (arith, step, runs-Paid f calls t h)

-- However often a stage is executed under one identity, whatever its executions are asked and
-- however they end, the requests that they send and those of its two attempts that the audit held
-- before are together at most two.
pub two_requests_altogether :
    (f : FrozenProviderExecution) (calls : List Call) (s : State)
    → All (IsAuditedAs f) calls
    → sent_count (run_executions calls s) + reservations f s ≤ sent_count s + 2
two_requests_altogether f calls s h = ground (arith, runs-Paid f calls s h)
