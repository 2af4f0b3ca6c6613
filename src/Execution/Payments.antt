-- ===== src/Execution/Payments.antt =====
-- How often executions call a provider.
use open_webui_memorist_edit.Prelude.{
  ℕ, suc, ◌+◌, ◌≤◌, inl, inr, Option, none, some, [], ◌∷◌, length-append, any, arith, Bool-cases,
}
use open_webui_memorist_edit.Execution.{
  Corrective, Provider, AttemptKind, AttemptRow, State, AttemptAudit, Call, gave,
}
use open_webui_memorist_edit.Execution.Audit.{
  same_identity, same_stage, is_some, reserve, reservation_of, find_row,
}
use open_webui_memorist_edit.Execution.Actions.{reserve_attempt, send}
use open_webui_memorist_edit.Execution.Run.{run_contract_execution}
use open_webui_memorist_edit.Execution.Invariants.{Leaves, Reserved, Invariant}
use open_webui_memorist_edit.Execution.Invariants.Primitives.{
  state_after, Leaves-after, check-Leaves, answer-Leaves, error-Leaves, sent_count,
}
use open_webui_memorist_edit.Execution.Invariants.Runs.{run-Leaves}

module _ (call : Call) (start : State) where
  abbrev AtMost : ℕ → State → Type 0
  AtMost n s = sent_count s ≤ sent_count start + n

  reserve-AtMost :
      (o : Option AttemptAudit) (n index : ℕ) (kind : AttemptKind) (s : State)
      → AtMost n s
      → Reserved (AtMost n) (AtMost n) (reserve_attempt o index kind s)
  unfolding reserve_attempt reserve
  reserve-AtMost none n index kind s h = h
  reserve-AtMost (some a) n index kind s h =
      elim (Bool-cases (any (same_identity a.frozen index) s.rows)) [
        | inl e ↦ rw e (found (find_row (same_identity a.frozen index) s.rows))
        | inr e ↦ elim (Bool-cases (any (same_stage a.frozen index) s.rows)) [
          | inl f ↦ rw (e, f) h
          | inr f ↦ rw (e, f) h
        ]
      ]
    where
      found : (r : Option AttemptRow) → Reserved (AtMost n) (AtMost n) (gave (reservation_of r) s)
      found none = h
      found (some r) = elim (Bool-cases (is_some r.completed_at)) [
        | inl e ↦ rw e h
        | inr e ↦ rw e h
      ]

  send-AtMost :
      (n : ℕ) (provider : Provider) (corrective : Option Corrective) (s : State)
      → AtMost n s
      → Leaves (AtMost (suc n)) (send call provider corrective s)
  unfolding send
  send-AtMost n provider corrective s h = omega (arith, length-append s.sent (_ ∷ []))

  abbrev at_most : Invariant call
  at_most = record {
    After = AtMost;
    Ready = AtMost;
    weaken = λ n s h. omega arith;
    checks = λ n s h. check-Leaves (AtMost n) (λ t k. k) call.revalidate s h;
    reserves = λ n kind s b h. reserve-AtMost call.attempt_audit n (suc n) kind s h;
    sends = send-AtMost;
    answers =
        λ n. answer-Leaves (AtMost n) (λ t k. k) (λ f index seen now t k. k) call.attempt_audit;
    fails = λ n. error-Leaves (AtMost n) (λ t k. k) (λ f index seen now t k. k) call.attempt_audit;
  }

-- An execution, however it ends, sends its provider at most two requests.
pub two_requests :
    (call : Call) (s : State)
    → sent_count (state_after (run_contract_execution call s)) ≤ sent_count s + 2
two_requests call s =
    Leaves-after (AtMost call s 2) (run_contract_execution call s)
      (run-Leaves call (at_most call s) s (omega arith))
