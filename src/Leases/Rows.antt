-- ===== src/Leases/Rows.antt =====
-- Generations and identifiers of rows under the calls of the workers.
use mathlib.Core.Path.{subst}
use open_webui_memorist_edit.Prelude.{
  ℕ, ◌≤◌, ◌≡◌, refl, sym, ap, ◌∙◌, inl, inr, Bool, true, false, Option, none, some, List, [], ◌∷◌,
  String, str_eq, eq_iff, ◌==◌, count_if, All, arith, Bool-cases,
}
use open_webui_memorist_edit.Leases.{
  LeasedJob, Table, has_uuid, update_rows, find_row, expired, recovered, recover_stale_jobs, leased,
  takes, claim_row, owns, Fenced, written, rejected, finished, fenced_update, after_success,
  table_after, LeaseCall, recover, claim, renew, succeed, fail, call_lease, run_leases,
}

-- The rows with an identifier have at least this generation.
abbrev pub IsFrom : ℕ → String → Table → Type 0
IsFrom g uuid t = All (λ (r : LeasedJob). has_uuid uuid r ≡ true → g ≤ r.lease_generation) t

-- An update that keeps identifiers and takes no generation back.
pub record IsForward (f : LeasedJob → LeasedJob) : Type 0 where
  pub same : (r : LeasedJob) → (f r).job_uuid ≡ r.job_uuid
  pub forward : (r : LeasedJob) → r.lease_generation ≤ (f r).lease_generation

module _ (g : ℕ) (uuid : String) where
  update-IsFrom :
      (p : LeasedJob → Bool) (f : LeasedJob → LeasedJob) (t : Table)
      → IsForward f
      → IsFrom g uuid t
      → IsFrom g uuid (update_rows p f t)
  update-IsFrom p f [] w h = tt
  update-IsFrom p f (r ∷ t) w h = elim (Bool-cases (p r)) [
    | inl e ↦
        let up = w.forward r in
        simp e (
          (λ k. let old = h.0 (ap (λ u. str_eq u uuid) (sym (w.same r)) ∙ k) in omega arith),
          update-IsFrom p f t w h.1,
        )
    | inr e ↦ simp e (h.0, update-IsFrom p f t w h.1)
  ]

  fenced-IsFrom :
      (p : LeasedJob → Bool) (f : LeasedJob → LeasedJob) (t : Table)
      → IsForward f
      → IsFrom g uuid t
      → IsFrom g uuid (table_after (fenced_update p f t))
  fenced-IsFrom p f t w h = elim (Bool-cases (count_if p t == 1)) [
    | inl e ↦ simp e (update-IsFrom p f t w h)
    | inr e ↦ simp e h
  ]

  claim_row-IsFrom :
      (w token : String) (now secs : ℕ) (t : Table) (o : Option LeasedJob)
      → IsFrom g uuid t
      → IsFrom g uuid (claim_row w token now secs t o).1
  claim_row-IsFrom w token now secs t none h = h
  claim_row-IsFrom w token now secs t (some r) h =
      update-IsFrom (takes r.job_uuid) (leased w token now secs) t
        (record { same = λ x. refl; forward = λ x. omega arith }) h

  pub recover-IsFrom :
      (now : ℕ) (t : Table) → IsFrom g uuid t → IsFrom g uuid (recover_stale_jobs now t)
  recover-IsFrom now t h =
      update-IsFrom (expired now) recovered t
        (record { same = λ x. refl; forward = λ x. omega arith }) h

  success-IsFrom :
      (mentions : String → Bool) (m : Fenced)
      → IsFrom g uuid (table_after m)
      → IsFrom g uuid (table_after (after_success mentions m))
  success-IsFrom mentions (rejected t) h = h
  success-IsFrom mentions (written t) h =
      update-IsFrom _ _ t (record { same = λ x. refl; forward = λ x. omega arith }) h

  pub call-IsFrom : (c : LeaseCall) (t : Table) → IsFrom g uuid t → IsFrom g uuid (call_lease c t)
  call-IsFrom (recover now) t h = recover-IsFrom now t h
  call-IsFrom (claim w token now secs) t h =
      claim_row-IsFrom w token now secs (recover_stale_jobs now t) _ (recover-IsFrom now t h)
  call-IsFrom (renew job w now secs) t h =
      fenced-IsFrom (owns job w now) _ t (record { same = λ x. refl; forward = λ x. omega arith }) h
  call-IsFrom (succeed mentions job w now) t h =
      success-IsFrom mentions (fenced_update (owns job w now) finished t) (
        fenced-IsFrom (owns job w now) finished t
          (record { same = λ x. refl; forward = λ x. omega arith }) h)
  call-IsFrom (fail job w terminal sanitized now) t h =
      fenced-IsFrom (owns job w now) _ t (record { same = λ x. refl; forward = λ x. omega arith }) h

  pub run-IsFrom :
      (cs : List LeaseCall) (t : Table) → IsFrom g uuid t → IsFrom g uuid (run_leases cs t)
  run-IsFrom [] t h = h
  run-IsFrom (c ∷ cs) t h = run-IsFrom cs (call_lease c t) (call-IsFrom c t h)

module _ (uuid : String) where
  pub count-update :
      (p : LeasedJob → Bool) (f : LeasedJob → LeasedJob) (t : Table)
      → ((r : LeasedJob) → (f r).job_uuid ≡ r.job_uuid)
      → count_if (has_uuid uuid) (update_rows p f t) ≡ count_if (has_uuid uuid) t
  count-update p f [] same = refl
  count-update p f (r ∷ t) same = elim (Bool-cases (p r)) [
    | inl e ↦ rw (e, same r) (omega (arith, count-update p f t same))
    | inr e ↦ rw e (omega (arith, count-update p f t same))
  ]

  count-fenced :
      (p : LeasedJob → Bool) (f : LeasedJob → LeasedJob) (t : Table)
      → ((r : LeasedJob) → (f r).job_uuid ≡ r.job_uuid)
      → count_if (has_uuid uuid) (table_after (fenced_update p f t)) ≡ count_if (has_uuid uuid) t
  count-fenced p f t same = elim (Bool-cases (count_if p t == 1)) [
    | inl e ↦ simp e (count-update p f t same)
    | inr e ↦ simp e refl
  ]

  count-claim_row :
      (w token : String) (now secs : ℕ) (t : Table) (o : Option LeasedJob)
      → count_if (has_uuid uuid) (claim_row w token now secs t o).1 ≡ count_if (has_uuid uuid) t
  count-claim_row w token now secs t none = refl
  count-claim_row w token now secs t (some r) =
      count-update (takes r.job_uuid) (leased w token now secs) t (λ x. refl)

  count-success :
      (mentions : String → Bool) (m : Fenced)
      → count_if (has_uuid uuid) (table_after (after_success mentions m))
        ≡ count_if (has_uuid uuid) (table_after m)
  count-success mentions (rejected t) = refl
  count-success mentions (written t) = count-update _ _ t (λ x. refl)

  pub count-call :
      (c : LeaseCall) (t : Table)
      → count_if (has_uuid uuid) (call_lease c t) ≡ count_if (has_uuid uuid) t
  count-call (recover now) t = count-update (expired now) recovered t (λ x. refl)
  count-call (claim w token now secs) t =
      count-claim_row w token now secs (recover_stale_jobs now t) _
      ∙ count-update (expired now) recovered t (λ x. refl)
  count-call (renew job w now secs) t = count-fenced (owns job w now) _ t (λ x. refl)
  count-call (succeed mentions job w now) t =
      count-success mentions (fenced_update (owns job w now) finished t)
      ∙ count-fenced (owns job w now) finished t (λ x. refl)
  count-call (fail job w terminal sanitized now) t = count-fenced (owns job w now) _ t (λ x. refl)

  pub count-run :
      (cs : List LeaseCall) (t : Table)
      → count_if (has_uuid uuid) (run_leases cs t) ≡ count_if (has_uuid uuid) t
  count-run [] t = refl
  count-run (c ∷ cs) t = count-run cs (call_lease c t) ∙ count-call c t

  pub no_row : (t : Table) (g : ℕ) → count_if (has_uuid uuid) t ≡ 0 → IsFrom g uuid t
  no_row [] g h = tt
  no_row (r ∷ t) g h = elim (Bool-cases (has_uuid uuid r)) [
    | inl e ↦ absurd (let k = simp e at h in omega arith)
    | inr e ↦ (
      (λ k. let k' : true ≡ false = sym k ∙ e in cc),
      no_row t g (let k = simp e at h in omega arith),
    )
  ]

  -- The row that is found is the one with the identifier.
  pub found-IsFrom :
      (t : Table) (job : LeasedJob)
      → count_if (has_uuid uuid) t ≤ 1
      → find_row (has_uuid uuid) t ≡ some job
      → (job.job_uuid ≡ uuid) × IsFrom job.lease_generation uuid t
  found-IsFrom [] job c h = cc
  found-IsFrom (r ∷ t) job c h = elim (Bool-cases (has_uuid uuid r)) [
    | inl e ↦
        let k : some r ≡ some job = simp e at h in
        let same : r ≡ job = cc in
        let rest : count_if (has_uuid uuid) t ≡ 0 = let c' = simp e at c in omega arith in
        (
          subst (λ (x : LeasedJob). x.job_uuid ≡ uuid) same ((eq_iff r.job_uuid uuid).0 e),
          (
            (λ u.
                subst (λ (x : LeasedJob). x.lease_generation ≤ r.lease_generation) same
                  (omega arith)),
            no_row t job.lease_generation rest,
          ),
        )
    | inr e ↦
        let later = found-IsFrom t job (let c' = simp e at c in omega arith) (simp e at h) in
        (later.0, ((λ k. let k' : true ≡ false = sym k ∙ e in cc), later.1))
  ]
