-- ===== src/Execution/Invariants/Primitives.antt =====
-- What the single actions of an execution keep.
use open_webui_memorist_edit.Prelude.{ℕ, Bool, Option, none, some, List, map, String, length}
use open_webui_memorist_edit.Execution.{
  Issue, ProviderAttempt, ProviderError, FrozenProviderExecution, State, AttemptAudit, Outcome,
  Step, stopped, gave,
}
use open_webui_memorist_edit.Execution.Audit.{
  finalize_attempt, finalize_hashed, output_hash, finalize_if, Observation, tick, error_seen,
}
use open_webui_memorist_edit.Execution.Actions.{
  end_check, check_lease, finalize_answer, finalize_error,
}
use open_webui_memorist_edit.Execution.Invariants.{Leaves}

-- The state that an execution leaves.
abbrev pub state_after : Step Outcome → State
state_after (stopped e s) = s
state_after (gave o s) = s

pub Leaves-after : (P : State → Type 0) (m : Step Outcome) → Leaves P m → P (state_after m)
Leaves-after P (stopped e s) h = h
Leaves-after P (gave o s) h = h

-- A predicate on the requests and the rows holds or fails whatever the clock says.
module _ (P : State → Type 0) (clock : (s : State) → P s → P (tick s)) where
  pub check-Leaves : (o : Option (ℕ → Option String)) (s : State) → P s → Leaves P (check_lease o s)
  unfolding check_lease
  check-Leaves none s h = h
  check-Leaves (some check) s h = ended (check s.ticks)
    where
      ended : (o : Option String) → Leaves P (end_check o s)
      ended none = clock s h
      ended (some reason) = clock s h

  module _
      (final : (f : FrozenProviderExecution) (index : ℕ) (seen : Observation) (now : String)
          (s : State)
        → P s
        → P (record s { rows = map (finalize_if f index seen now) s.rows })) where
    pub answer-Leaves :
        (o : Option AttemptAudit) (index : ℕ) (a : ProviderAttempt) (valid canonical : Bool)
        (issues : List Issue) (s : State)
        → P s
        → Leaves P (finalize_answer o index a valid canonical issues s)
    unfolding finalize_answer finalize_attempt
    answer-Leaves none index a valid canonical issues s h = h
    answer-Leaves (some audit) index a valid canonical issues s h =
        hashed (output_hash audit a.parsed)
      where
        hashed :
            (o : Option (Option String))
            → Leaves P (finalize_hashed audit index a valid canonical issues o s)
        hashed none = h
        hashed (some hash) = clock _ (final audit.frozen index _ _ s h)

    pub error-Leaves :
        (o : Option AttemptAudit) (index : ℕ) (e : ProviderError) (s : State)
        → P s
        → Leaves P (finalize_error o index e s)
    unfolding finalize_error finalize_attempt
    error-Leaves none index e s h = h
    error-Leaves (some audit) index e s h =
        clock _ (final audit.frozen index (error_seen e) (audit.utc_now s.ticks) s h)

-- The requests that were sent.
abbrev pub sent_count : State → ℕ
sent_count s = length s.sent
