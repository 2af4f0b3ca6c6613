-- ===== src/Execution/Invariants/Runs.antt =====
-- An execution keeps its invariants however it ends: two attempts bring `After 0` to `After 2`.
use open_webui_memorist_edit.Prelude.{
  ℕ, inl, inr, Bool, true, false, Option, none, some, arith, Bool-cases,
}
use open_webui_memorist_edit.Execution.{
  ProviderAttempt, ProviderError, Response, answer, failure, interrupted, Provider, Reservation,
  State, AttemptAudit, Call, Reason, Outcome, Step, Action, stopped, gave, next, ◌>>=◌,
}
use open_webui_memorist_edit.Execution.Actions.{is_empty, Progress, check_lease, attempts_made}
use open_webui_memorist_edit.Execution.Run.{
  count_output, run_with, run_deterministic, fall_back, not_reserved, not_answered, Verdict,
  accepted, refused, unparsed, check_answer, conclude, repair_answered, repair, first_verdict,
  first_answered, run_remote, run_contract_execution,
}
use open_webui_memorist_edit.Execution.Invariants.{
  Leaves, next-Leaves, Leaves-imp, Reserved, Invariant,
}

module _ (call : Call) (inv : Invariant call) where
  abbrev pub After : ℕ → State → Type 0
  After = inv.After

  made-Leaves :
      (P : State → Type 0) (o : Option AttemptAudit) (n : ℕ) (s : State)
      → P s
      → Leaves P (attempts_made o n s)
  unfolding attempts_made
  made-Leaves P none n s h = h
  made-Leaves P (some a) n s h = h

  fall_back-Leaves :
      (n : ℕ) (provider : Provider) (reason : Reason) (repaired : Bool) (p : Progress) (count : ℕ)
      (s : State)
      → After n s
      → Leaves (After n) (fall_back call provider reason repaired p count s)
  unfolding fall_back
  fall_back-Leaves n provider reason repaired p count s h = elim (Bool-cases call.allow_fallback) [
    | inl e ↦ elim (Bool-cases (is_empty (call.validate call.deterministic_output))) [
      | inl f ↦ simp (e, f) h
      | inr f ↦ simp (e, f) h
    ]
    | inr e ↦ simp e h
  ]

  -- A check, then a count, then a fallback.
  checked_fallback :
      (n count : ℕ) (provider : Provider) (reason : Reason) (repaired : Bool) (p : Progress)
      (s : State)
      → After n s
      → Leaves (After n) (
          next (check_lease call.revalidate s) λ _.
            attempts_made call.attempt_audit count >>= fall_back call provider reason repaired p)
  checked_fallback n count provider reason repaired p s h =
      next-Leaves (After n) (After n) _ _ (inv.checks n s h) (λ t k. k)
        λ u t k.
          next-Leaves (After n) (After n) _ _ (made-Leaves (After n) call.attempt_audit count t k)
            (λ t' k'. k') λ c t' k'. fall_back-Leaves n provider reason repaired p c t' k'

  not_answered-Leaves :
      (n index : ℕ) (provider : Provider) (e : ProviderError) (repaired : Bool) (p : Progress)
      (s : State)
      → After n s
      → Leaves (After n) (not_answered call provider index e repaired p s)
  unfolding not_answered
  not_answered-Leaves n index provider e repaired p s h =
      next-Leaves (After n) (After n) _ _ (inv.fails n index e s h) (λ t k. k)
        λ u t k. checked_fallback n index provider _ repaired _ t k

  not_reserved-Leaves :
      (n : ℕ) (provider : Provider) (r : Reservation) (repaired : Bool) (p : Progress) (s : State)
      → After n s
      → Leaves (After n) (not_reserved call provider r repaired p s)
  unfolding not_reserved
  not_reserved-Leaves n provider r repaired p s h = checked_fallback n 0 provider _ repaired _ s h

  check_answer-Leaves :
      (n index : ℕ) (a : ProviderAttempt) (s : State)
      → After n s
      → Leaves (After n) (check_answer call index a s)
  unfolding check_answer
  check_answer-Leaves n index a s h =
      next-Leaves (After n) (After n) _ _ (inv.answers n index a _ _ _ s h) (λ t k. k)
        λ u t k. next-Leaves (After n) (After n) _ _ (inv.checks n t k) (λ t' k'. k') λ u' t' k'. k'

  conclude-Leaves :
      (provider : Provider) (p : Progress) (v : Verdict) (s : State)
      → After 2 s
      → Leaves (After 2) (conclude call provider p v s)
  conclude-Leaves provider p (accepted output canonicalized) s h =
      next-Leaves (After 2) (After 2) _ _ (made-Leaves (After 2) call.attempt_audit 2 s h)
        (λ t k. k) λ c t k. k
  conclude-Leaves provider p (refused issues) s h =
      next-Leaves (After 2) (After 2) _ _ (made-Leaves (After 2) call.attempt_audit 2 s h)
        (λ t k. k) λ c t k. fall_back-Leaves 2 provider _ true _ c t k
  conclude-Leaves provider p unparsed s h =
      next-Leaves (After 2) (After 2) _ _ (made-Leaves (After 2) call.attempt_audit 2 s h)
        (λ t k. k) λ c t k. fall_back-Leaves 2 provider _ true _ c t k

  repair_answered-Leaves :
      (provider : Provider) (p : Progress) (response : Response) (s : State)
      → After 2 s
      → Leaves (After 2) (repair_answered call provider p response s)
  repair_answered-Leaves provider p (answer a) s h =
      next-Leaves (After 2) (After 2) _ _ (check_answer-Leaves 2 2 a s h) (λ t k. k)
        λ v t k. conclude-Leaves provider _ v t k
  repair_answered-Leaves provider p (failure e) s h = not_answered-Leaves 2 2 provider e true p s h
  repair_answered-Leaves provider p interrupted s h = h

  -- What follows a reservation.
  reserved-Leaves :
      (n : ℕ) (m : Step Reservation) (f : Reservation → Action Outcome)
      → Reserved (inv.Ready n) (After n) m
      → ((s : State) → After n s → After 2 s)
      → ((s : State) → inv.Ready n s → Leaves (After 2) (f Reservation.reserved s))
      → ((s : State) → After n s → Leaves (After 2) (f Reservation.unknown_completion s))
      → ((s : State) → After n s → Leaves (After 2) (f Reservation.completed s))
      → Leaves (After 2) (next m f)
  reserved-Leaves n (stopped e s) f h up ready unknown completed = up s h
  reserved-Leaves n (gave Reservation.reserved s) f h up ready unknown completed = ready s h
  reserved-Leaves n (gave Reservation.unknown_completion s) f h up ready unknown completed =
      unknown s h
  reserved-Leaves n (gave Reservation.completed s) f h up ready unknown completed = completed s h

  repair-Leaves :
      (provider : Provider) (a : ProviderAttempt) (p : Progress) (s : State)
      → After 1 s
      → Leaves (After 2) (repair call provider a p s)
  unfolding repair
  repair-Leaves provider a p s h =
      let up : (t : State) → After 1 t → After 2 t = λ t k. inv.weaken 1 t k in
      let seen : (r : Reservation) (t : State)
          → After 1 t
          → Leaves (After 2) (not_reserved call provider r true p t) =
        λ r t k.
          Leaves-imp (After 1) (After 2) _ up (not_reserved-Leaves 1 provider r true p t k) in
      next-Leaves (After 1) (After 2) _ _ (inv.checks 1 s h) up λ u t k.
        reserved-Leaves 1 _ _ (inv.reserves 1 _ t (omega arith) k) up
          (λ v ready.
            next-Leaves (After 2) (After 2) _ _ (inv.sends 1 provider _ v ready) (λ w k'. k')
              λ r w k'. repair_answered-Leaves provider p r w k')
          (seen Reservation.unknown_completion) (seen Reservation.completed)

  first_verdict-Leaves :
      (provider : Provider) (a : ProviderAttempt) (p : Progress) (v : Verdict) (s : State)
      → After 1 s
      → Leaves (After 2) (first_verdict call provider a p v s)
  first_verdict-Leaves provider a p (accepted output canonicalized) s h =
      next-Leaves (After 2) (After 2) _ _
        (made-Leaves (After 2) call.attempt_audit 1 s (inv.weaken 1 s h)) (λ t k. k) λ c t k. k
  first_verdict-Leaves provider a p (refused issues) s h = repair-Leaves provider a _ s h
  first_verdict-Leaves provider a p unparsed s h = repair-Leaves provider a p s h

  first_answered-Leaves :
      (provider : Provider) (response : Response) (s : State)
      → After 1 s
      → Leaves (After 2) (first_answered call provider response s)
  first_answered-Leaves provider (answer a) s h =
      next-Leaves (After 1) (After 2) _ _ (check_answer-Leaves 1 1 a s h) (λ t k. inv.weaken 1 t k)
        λ v t k. first_verdict-Leaves provider a _ v t k
  first_answered-Leaves provider (failure e) s h =
      Leaves-imp (After 1) (After 2) _ (λ t k. inv.weaken 1 t k)
        (not_answered-Leaves 1 1 provider e false _ s h)
  first_answered-Leaves provider interrupted s h = inv.weaken 1 s h

  run_remote-Leaves :
      (provider : Provider) (s : State) → After 0 s → Leaves (After 2) (run_remote call provider s)
  unfolding run_remote
  run_remote-Leaves provider s h =
      let up : (t : State) → After 0 t → After 2 t = λ t k. inv.weaken 1 t (inv.weaken 0 t k) in
      next-Leaves (After 0) (After 2) _ _ (inv.checks 0 s h) up λ u t k.
        reserved-Leaves 0 _ _ (inv.reserves 0 _ t (omega arith) k) up
          (λ v ready.
            next-Leaves (After 1) (After 2) _ _ (inv.sends 0 provider none v ready)
              (λ w k'. inv.weaken 1 w k') λ r w k'. first_answered-Leaves provider r w k')
          (λ v k'.
            Leaves-imp (After 0) (After 2) _ up
              (not_reserved-Leaves 0 provider Reservation.unknown_completion false _ v k'))
          (λ v k'.
            Leaves-imp (After 0) (After 2) _ up
              (not_reserved-Leaves 0 provider Reservation.completed false _ v k'))

  count_output-Leaves :
      (o : Option ℕ) (s : State) → After 2 s → Leaves (After 2) (count_output call o s)
  count_output-Leaves none s h = h
  count_output-Leaves (some n) s h = h

  run_deterministic-Leaves : (s : State) → After 2 s → Leaves (After 2) (run_deterministic call s)
  unfolding run_deterministic
  run_deterministic-Leaves s h =
      elim (Bool-cases (is_empty (call.validate call.deterministic_output))) [
        | inl e ↦ simp e (count_output-Leaves _ s h)
        | inr e ↦ simp e h
      ]

  run_with-Leaves :
      (o : Option Provider) (s : State) → After 0 s → Leaves (After 2) (run_with call o s)
  run_with-Leaves none s h = run_deterministic-Leaves s (inv.weaken 1 s (inv.weaken 0 s h))
  run_with-Leaves (some provider) s h = run_remote-Leaves provider s h

  pub run-Leaves : (s : State) → After 0 s → Leaves (After 2) (run_contract_execution call s)
  unfolding run_contract_execution
  run-Leaves s h = run_with-Leaves call.provider s h
