-- ===== src/Leases/Fencing.antt =====
-- That a lease that was claimed again writes nothing.
use mathlib.Core.Path.{subst}
use open_webui_memorist_edit.Prelude.{
  ℕ, suc, ◌≤◌, ◌≡◌, refl, sym, ap, inl, inr, Bool, true, false, Option, none, some, List, [], ◌∷◌,
  String, ◌==◌, count_if, arith, Bool-cases, ==_iff,
}
use open_webui_memorist_edit.Leases.{
  LeasedJob, Table, has_uuid, update_rows, find_row, expired, recovered, recover_stale_jobs, leased,
  takes, claim_row, claim_next_extraction_job, owns, rejected, renew_lease, record_success,
  record_failure, LeaseCall, claim, run_leases,
}
use open_webui_memorist_edit.Leases.Rows.{
  IsFrom, recover-IsFrom, run-IsFrom, count-update, count-run, found-IsFrom, no_row, count-call,
}

module _ (uuid : String) where
  pub none_takes : (t : Table) → count_if (has_uuid uuid) t ≡ 0 → count_if (takes uuid) t ≡ 0
  none_takes [] h = refl
  none_takes (r ∷ t) h = elim (Bool-cases (has_uuid uuid r)) [
    | inl e ↦ absurd (let k = simp e at h in omega arith)
    | inr e ↦ simp e (let k = simp e at h in omega (arith, none_takes t (omega arith)))
  ]

  -- If one row is taken, the row with the identifier is it: its generation grows.
  taken-IsFrom :
      (w token : String) (now secs g : ℕ) (t : Table)
      → count_if (has_uuid uuid) t ≤ 1
      → count_if (takes uuid) t ≡ 1
      → IsFrom g uuid t
      → IsFrom (suc g) uuid (update_rows (takes uuid) (leased w token now secs) t)
  taken-IsFrom w token now secs g [] c k h = tt
  taken-IsFrom w token now secs g (r ∷ t) c k h = elim (Bool-cases (has_uuid uuid r)) [
    | inl e ↦
        let rest : count_if (has_uuid uuid) t ≡ 0 = let c' = simp e at c in omega arith in
        let none_later = none_takes t rest in
        let after = count-update uuid (takes uuid) (leased w token now secs) t (λ x. refl) in
        let now_taken : takes uuid r ≡ true = elim (Bool-cases (takes uuid r)) [
          | inl f ↦ f
          | inr f ↦ absurd (let k' = simp f at k in omega arith)
        ] in
        simp now_taken (
          (λ u. let old = h.0 e in omega arith),
          no_row uuid (update_rows (takes uuid) (leased w token now secs) t) (suc g) (omega arith),
        )
    | inr e ↦
        let k' : count_if (takes uuid) t ≡ 1 = let k' = simp e at k in omega arith in
        let c' : count_if (has_uuid uuid) t ≤ 1 = let c' = simp e at c in omega arith in
        simp e ((λ u. cc), taken-IsFrom w token now secs g t c' k' h.1)
  ]

-- What a claim of a job comes to, by the generations before and after it.
pub record IsReclaimed (g : ℕ) (job : LeasedJob) (t : Table) : Type 0 where
  pub held : IsFrom job.lease_generation job.job_uuid t
  pub newer : IsFrom (suc g) job.job_uuid t
  pub one_row : count_if (has_uuid job.job_uuid) t ≤ 1

abbrev pub Unique : Table → Type 0
Unique t = (uuid : String) → count_if (has_uuid uuid) t ≤ 1

claim_row-IsReclaimed :
    (w token : String) (now secs g : ℕ) (t t' : Table) (o : Option LeasedJob) (job : LeasedJob)
    → Unique t
    → claim_row w token now secs t o ≡ (some job, t')
    → IsFrom g job.job_uuid t
    → IsReclaimed g job t'
claim_row-IsReclaimed w token now secs g t t' none job u h f =
    absurd (let k : none ≡ some job = ap (λ (r : Option LeasedJob × Table). r.0) h in cc)
claim_row-IsReclaimed w token now secs g t t' (some r) job u h f =
    elim (Bool-cases (count_if (takes r.job_uuid) t == 1)) [
      | inr e ↦
          absurd (
            let k : none ≡ some job = ap (λ (r : Option LeasedJob × Table). r.0) (simp e at h) in
            cc)
      | inl e ↦
          let after = update_rows (takes r.job_uuid) (leased w token now secs) t in
          let k : ◌≡◌ {A = Option LeasedJob × Table} (find_row (has_uuid r.job_uuid) after, after)
              (some job, t') =
            simp e at h in
          let found : find_row (has_uuid r.job_uuid) after ≡ some job =
            ap (λ (x : Option LeasedJob × Table). x.0) k in
          let same_table : after ≡ t' = ap (λ (x : Option LeasedJob × Table). x.1) k in
          let counted =
            count-update r.job_uuid (takes r.job_uuid) (leased w token now secs) t (λ x. refl) in
          let unique : count_if (has_uuid r.job_uuid) after ≤ 1 =
            let v = u r.job_uuid in omega arith in
          let own = found-IsFrom r.job_uuid after job unique found in
          let one : count_if (takes r.job_uuid) t ≡ 1 = (==_iff _ 1).0 e in
          let from : IsFrom g r.job_uuid t = subst (λ i. IsFrom g i t) own.0 f in
          let grown = taken-IsFrom r.job_uuid w token now secs g t (u r.job_uuid) one from in
          let back = sym own.0 in
          subst (IsReclaimed g job) same_table (record {
            held = subst (λ i. IsFrom job.lease_generation i after) back own.1;
            newer = subst (λ i. IsFrom (suc g) i after) back grown;
            one_row = subst (λ i. count_if (has_uuid i) after ≤ 1) back unique;
          })
    ]

claim-IsReclaimed :
    (w token : String) (now secs g : ℕ) (t t' : Table) (job : LeasedJob)
    → Unique t
    → claim_next_extraction_job w token now secs t ≡ (some job, t')
    → IsFrom g job.job_uuid t
    → IsReclaimed g job t'
claim-IsReclaimed w token now secs g t t' job u h f =
    claim_row-IsReclaimed w token now secs g (recover_stale_jobs now t) t' _ job
      (λ uuid.
        let c = count-update uuid (expired now) recovered t (λ x. refl) in
        let v = u uuid in omega arith)
      h (recover-IsFrom g job.job_uuid now t f)

none_owns :
    (job : LeasedJob) (w : String) (now : ℕ) (t : Table)
    → IsFrom (suc job.lease_generation) job.job_uuid t
    → count_if (owns job w now) t ≡ 0
none_owns job w now [] h = refl
none_owns job w now (r ∷ t) h = elim (Bool-cases (has_uuid job.job_uuid r)) [
  | inl e ↦
      let newer = h.0 e in
      let other : (r.lease_generation == job.lease_generation) ≡ false = ground arith in
      ground (arith, other, none_owns job w now t h.1)
  | inr e ↦ simp e (omega (arith, none_owns job w now t h.1))
]

-- The writes of a worker under a lease are rejected and leave the table.
pub record IsFenced (job : LeasedJob) (w : String) (t : Table) : Type 0 where
  pub success :
      (mentions : String → Bool) (now : ℕ) → record_success mentions job w now t ≡ rejected t
  pub failure :
      (terminal : Bool) (sanitized : String) (now : ℕ)
      → record_failure job w terminal sanitized now t ≡ rejected t
  pub renewal : (now secs : ℕ) → renew_lease job w now secs t ≡ rejected t

newer-IsFenced :
    (job : LeasedJob) (w : String) (t : Table)
    → IsFrom (suc job.lease_generation) job.job_uuid t
    → IsFenced job w t
newer-IsFenced job w t h = record {
  success = λ mentions now. simp (none_owns job w now t h) refl;
  failure = λ terminal sanitized now. simp (none_owns job w now t h) refl;
  renewal = λ now secs. simp (none_owns job w now t h) refl;
}

IsFrom-zero : (uuid : String) (t : Table) → IsFrom 0 uuid t
IsFrom-zero uuid [] = tt
IsFrom-zero uuid (r ∷ t) = ((λ k. omega arith), IsFrom-zero uuid t)

Unique-run :
    (w token : String) (now secs : ℕ) (t t' : Table) (o : Option LeasedJob) (cs : List LeaseCall)
    → Unique t
    → claim_next_extraction_job w token now secs t ≡ (o, t')
    → Unique (run_leases cs t')
Unique-run w token now secs t t' o cs u h uuid =
    let one = count-call uuid (claim w token now secs) t in
    let same : (claim_next_extraction_job w token now secs t).1 ≡ t' =
      ap (λ (x : Option LeasedJob × Table). x.1) h in
    let one' : count_if (has_uuid uuid) t' ≡ count_if (has_uuid uuid) t =
      subst (λ (x : Table). count_if (has_uuid uuid) x ≡ count_if (has_uuid uuid) t) same one in
    let all = count-run uuid cs t' in let v = u uuid in omega arith

-- In a table whose identifiers differ: once a job that a worker holds is claimed again, by whom and
-- after whatever calls it may be, and whatever calls follow, every write of the first worker under
-- its lease is rejected and leaves the table: its success, its failure and its renewals.
pub reclaimed-IsFenced :
    (w token v token' : String) (now secs now' secs' : ℕ) (t t1 t2 : Table) (job again : LeasedJob)
    (cs ds : List LeaseCall)
    → Unique t
    → claim_next_extraction_job w token now secs t ≡ (some job, t1)
    → claim_next_extraction_job v token' now' secs' (run_leases cs t1) ≡ (some again, t2)
    → again.job_uuid ≡ job.job_uuid
    → IsFenced job w (run_leases ds t2)
reclaimed-IsFenced w token v token' now secs now' secs' t t1 t2 job again cs ds u first second
      same =
    let one = claim-IsReclaimed w token now secs 0 t t1 job u first (IsFrom-zero job.job_uuid t) in
    let g = job.lease_generation in
    let mid = run-IsFrom g job.job_uuid cs t1 one.held in
    let two =
      claim-IsReclaimed v token' now' secs' g (run_leases cs t1) t2 again
        (Unique-run w token now secs t t1 (some job) cs u first) second
        (subst (λ i. IsFrom g i (run_leases cs t1)) (sym same) mid) in
    let newer = subst (λ i. IsFrom (suc g) i t2) same two.newer in
    newer-IsFenced job w (run_leases ds t2) (run-IsFrom (suc g) job.job_uuid ds t2 newer)
