-- ===== src/Execution/Invariants.antt =====
-- Invariants of an execution: families of predicates on states, one for each number of attempts made.
pub mod Primitives
pub mod Runs
use open_webui_memorist_edit.Prelude.{
  ℕ, suc, ◌+◌, ◌≤◌, ◌≡◌, refl, inl, inr, Bool, true, false, not, ◌&&◌, Option, none, some, List, [],
  ◌∷◌, ◌++◌, map, String, str_eq, ◌==◌, if◌then◌else◌, length, length-append, any, arith,
  Bool-cases,
}
use open_webui_memorist_edit.Execution.{
  Issue, ProviderAttempt, ProviderError, Corrective, Response, answer, failure, interrupted,
  Provider, FrozenProviderExecution, AttemptKind, Reservation, AttemptRow, State, AttemptAudit,
  Call, Reason, Outcome, Error, Step, Action, stopped, gave, next, ◌>>=◌, ◌>>◌,
}
use open_webui_memorist_edit.Execution.Audit.{
  same_identity, same_stage, is_some, reserve, finalize_attempt, finalize_if, finalized_row,
  Observation,
}
use open_webui_memorist_edit.Execution.Actions.{
  is_empty, Progress, end_check, check_lease, reserve_attempt, attempts_made, send, finalize_answer,
  finalize_error, item_count,
}
use open_webui_memorist_edit.Execution.Run.{
  count_output, run_with, run_deterministic, fall_back, not_reserved, not_answered, Verdict,
  accepted, refused, unparsed, check_answer, accept, give_up, conclude, repair_answered,
  repair_reserved, repair, first_verdict, first_answered, first_reserved, run_remote,
  run_contract_execution,
}
use open_webui_memorist_edit.Execution.Rules.{Ends, next-Ends}

module _ {A : Type 0} where
  -- A predicate on states holds where an action ends, however it ends.
  abbrev pub Leaves : (State → Type 0) → Step A → Type 0
  Leaves P m = Ends (λ _ s. P s) (λ _ s. P s) m

module _ {A B : Type 0} where
  pub next-Leaves :
      (P Q : State → Type 0) (m : Step A) (f : A → Action B)
      → Leaves P m
      → ((s : State) → P s → Q s)
      → ((a : A) (s : State) → P s → Leaves Q (f a s))
      → Leaves Q (next m f)
  next-Leaves P Q (stopped e s) f h weaker k = weaker s h
  next-Leaves P Q (gave a s) f h weaker k = k a s h

module _ {A : Type 0} where
  pub Leaves-imp :
      (P Q : State → Type 0) (m : Step A) → ((s : State) → P s → Q s) → Leaves P m → Leaves Q m
  Leaves-imp P Q (stopped e s) f h = f s h
  Leaves-imp P Q (gave a s) f h = f s h

-- After a reservation: `Ready` if the attempt was reserved.
abbrev pub Reserved : (State → Type 0) → (State → Type 0) → Step Reservation → Type 0
Reserved Ready Same (stopped e s) = Same s
Reserved Ready Same (gave Reservation.reserved s) = Ready s
Reserved Ready Same (gave r s) = Same s

-- `After n` holds once n attempts are over, and `Ready n` when the next one is reserved.
pub record Invariant (call : Call) : Type 1 where
  pub After : ℕ → State → Type 0
  pub Ready : ℕ → State → Type 0
  pub weaken : (n : ℕ) (s : State) → After n s → After (suc n) s
  pub checks : (n : ℕ) (s : State) → After n s → Leaves (After n) (check_lease call.revalidate s)
  pub reserves :
      (n : ℕ) (kind : AttemptKind) (s : State)
      → n ≤ 1
      → After n s
      → Reserved (Ready n) (After n) (reserve_attempt call.attempt_audit (suc n) kind s)
  pub sends :
      (n : ℕ) (provider : Provider) (corrective : Option Corrective) (s : State)
      → Ready n s
      → Leaves (After (suc n)) (send call provider corrective s)
  pub answers :
      (n index : ℕ) (a : ProviderAttempt) (valid canonical : Bool) (issues : List Issue) (s : State)
      → After n s
      → Leaves (After n) (finalize_answer call.attempt_audit index a valid canonical issues s)
  pub fails :
      (n index : ℕ) (e : ProviderError) (s : State)
      → After n s
      → Leaves (After n) (finalize_error call.attempt_audit index e s)
