-- ===== src/Leases/Elsewhere.antt =====
-- What the calls of other workers leave of a job that is held.
use mathlib.Core.Path.{subst}
use open_webui_memorist_edit.Prelude.{
  ℕ, ◌≤◌, ◌≡◌, refl, sym, ap, inl, inr, Bool, true, Option, none, some, [], ◌∷◌, String, eq_iff,
  ◌==◌, count_if, arith, Bool-cases, All, List, false, str_eq, ◌∙◌,
}
use open_webui_memorist_edit.Leases.{
  LeasedJob, Table, has_uuid, update_rows, find_row, expired, recovered, recover_stale_jobs, leased,
  takes, claim_row, owns, finished, is_pending, is_running, JobStatus, pending, running, succeeded,
  dead, not_before, before, LeaseCall, recover, claim, renew, succeed, fail, call_lease, run_leases,
  fenced_update, table_after, Fenced, written, rejected, after_success,
}
use open_webui_memorist_edit.Leases.Rows.{count-update, found-IsFrom}
use open_webui_memorist_edit.Leases.Fencing.{Unique}

-- What other workers do before a time: recoveries, claims, and the writes of other jobs, of which the
-- success also finishes jobs of another type.
abbrev pub IsElsewhere : LeasedJob → ℕ → LeaseCall → Type 0
IsElsewhere job deadline (recover at) = at ≤ deadline
IsElsewhere job deadline (claim w token at secs) = at ≤ deadline
IsElsewhere job deadline (renew other w at secs) = has_uuid job.job_uuid other ≡ false
IsElsewhere job deadline (succeed mentions other w at) =
    (has_uuid job.job_uuid other ≡ false) × (mentions job.payload_ijson ≡ false)
IsElsewhere job deadline (fail other w terminal sanitized at) = has_uuid job.job_uuid other ≡ false

-- The row of the job is as the claim handed it out.
abbrev pub IsRow : LeasedJob → Table → Type 0
IsRow job t = All (λ (r : LeasedJob). has_uuid job.job_uuid r ≡ true → r ≡ job) t

running-pending : (s : JobStatus) → is_running s ≡ true → is_pending s ≡ false
running-pending pending h = cc
running-pending running h = refl
running-pending succeeded h = refl
running-pending dead h = refl
running-pending JobStatus.failed h = refl
running-pending JobStatus.cancelled h = refl

not_before-before :
    (o : Option ℕ) (at deadline : ℕ)
    → at ≤ deadline
    → not_before o deadline ≡ true
    → before o at ≡ false
not_before-before none at deadline h k = cc
not_before-before (some e) at deadline h k = ground arith

not_before-earlier :
    (o : Option ℕ) (at deadline : ℕ)
    → at ≤ deadline
    → not_before o deadline ≡ true
    → not_before o at ≡ true
not_before-earlier none at deadline h k = cc
not_before-earlier (some e) at deadline h k = ground arith

module _ (job : LeasedJob) where
  -- An update that keeps identifiers and does not take the job.
  update-IsRow :
      (p : LeasedJob → Bool) (f : LeasedJob → LeasedJob) (t : Table)
      → ((r : LeasedJob) → (f r).job_uuid ≡ r.job_uuid)
      → p job ≡ false
      → IsRow job t
      → IsRow job (update_rows p f t)
  update-IsRow p f [] same miss h = tt
  update-IsRow p f (r ∷ t) same miss h = elim (Bool-cases (p r)) [
    | inl e ↦ simp e (
      (λ k.
          let own : has_uuid job.job_uuid r ≡ true =
            ap (λ u. str_eq u job.job_uuid) (sym (same r)) ∙ k in
          let hit : p job ≡ true = subst (λ (x : LeasedJob). p x ≡ true) (h.0 own) e in
          absurd (let both : true ≡ false = sym hit ∙ miss in cc)),
      update-IsRow p f t same miss h.1,
    )
    | inr e ↦ simp e (h.0, update-IsRow p f t same miss h.1)
  ]

  fenced-IsRow :
      (p : LeasedJob → Bool) (f : LeasedJob → LeasedJob) (t : Table)
      → ((r : LeasedJob) → (f r).job_uuid ≡ r.job_uuid)
      → p job ≡ false
      → IsRow job t
      → IsRow job (table_after (fenced_update p f t))
  fenced-IsRow p f t same miss h = elim (Bool-cases (count_if p t == 1)) [
    | inl e ↦ simp e (update-IsRow p f t same miss h)
    | inr e ↦ simp e h
  ]

  other-owns :
      (other : LeasedJob) (w : String) (at : ℕ)
      → has_uuid job.job_uuid other ≡ false
      → owns other w at job ≡ false
  other-owns other w at h = elim (Bool-cases (has_uuid other.job_uuid job)) [
    | inl e ↦
        let same = (eq_iff job.job_uuid other.job_uuid).0 e in
        let own = (eq_iff other.job_uuid job.job_uuid).1 (sym same) in
        absurd (let both : true ≡ false = sym own ∙ h in cc)
    | inr e ↦ simp e refl
  ]

  module _ (w : String) (deadline : ℕ) (own : owns job w deadline job ≡ true) where
    not_pending : is_pending job.status ≡ false
    not_pending = running-pending job.status (ground arith)

    fresh-expired : (at : ℕ) → at ≤ deadline → expired at job ≡ false
    fresh-expired at h =
        let late = not_before-before job.lease_expires_at at deadline h (ground arith) in
        simp late (ground arith)

    pub still_owns : (later : ℕ) → later ≤ deadline → owns job w later job ≡ true
    still_owns later h =
        let kept = not_before-earlier job.lease_expires_at later deadline h (ground arith) in
        ground (arith, kept)

    claim_row-IsRow :
        (w' token : String) (at secs : ℕ) (t : Table) (o : Option LeasedJob)
        → IsRow job t
        → IsRow job (claim_row w' token at secs t o).1
    claim_row-IsRow w' token at secs t none h = h
    claim_row-IsRow w' token at secs t (some r) h =
        update-IsRow (takes r.job_uuid) (leased w' token at secs) t (λ x. refl)
          (simp not_pending (ground arith)) h

    success-IsRow :
        (mentions : String → Bool) (m : Fenced)
        → mentions job.payload_ijson ≡ false
        → IsRow job (table_after m)
        → IsRow job (table_after (after_success mentions m))
    success-IsRow mentions (rejected t) miss h = h
    success-IsRow mentions (written t) miss h =
        update-IsRow _ _ t (λ x. refl) (simp miss (ground arith)) h

    call-IsRow :
        (c : LeaseCall) (t : Table)
        → IsElsewhere job deadline c
        → IsRow job t
        → IsRow job (call_lease c t)
    call-IsRow (recover at) t e h =
        update-IsRow (expired at) recovered t (λ x. refl) (fresh-expired at e) h
    call-IsRow (claim w' token at secs) t e h =
        claim_row-IsRow w' token at secs (recover_stale_jobs at t) _
          (update-IsRow (expired at) recovered t (λ x. refl) (fresh-expired at e) h)
    call-IsRow (renew other w' at secs) t e h =
        fenced-IsRow (owns other w' at) _ t (λ x. refl) (other-owns other w' at e) h
    call-IsRow (succeed mentions other w' at) t e h =
        success-IsRow mentions (fenced_update (owns other w' at) finished t) e.1
          (fenced-IsRow (owns other w' at) finished t (λ x. refl) (other-owns other w' at e.0) h)
    call-IsRow (fail other w' terminal sanitized at) t e h =
        fenced-IsRow (owns other w' at) _ t (λ x. refl) (other-owns other w' at e) h

    pub run-IsRow :
        (cs : List LeaseCall) (t : Table)
        → All (IsElsewhere job deadline) cs
        → IsRow job t
        → IsRow job (run_leases cs t)
    run-IsRow [] t e h = h
    run-IsRow (c ∷ cs) t e h = run-IsRow cs (call_lease c t) e.1 (call-IsRow c t e.0 h)

  -- The rows that pass the fence of a job are its rows, if the job itself does.
  pub count-owns :
      (w : String) (later : ℕ) (t : Table)
      → owns job w later job ≡ true
      → IsRow job t
      → count_if (owns job w later) t ≡ count_if (has_uuid job.job_uuid) t
  count-owns w later [] own h = refl
  count-owns w later (r ∷ t) own h = elim (Bool-cases (has_uuid job.job_uuid r)) [
    | inl e ↦
        let mine : owns job w later r ≡ true =
          subst (λ (x : LeasedJob). owns job w later x ≡ true) (sym (h.0 e)) own in
        let rest = count-owns w later t own h.1 in rw (mine, e) (omega arith)
    | inr e ↦ let rest = count-owns w later t own h.1 in simp e (omega arith)
  ]

  none_owned :
      (w : String) (later : ℕ) (t : Table)
      → owns job w later job ≡ false
      → IsRow job t
      → count_if (owns job w later) t ≡ 0
  none_owned w later [] not_own h = refl
  none_owned w later (r ∷ t) not_own h = elim (Bool-cases (has_uuid job.job_uuid r)) [
    | inl e ↦
        let not_mine : owns job w later r ≡ false =
          subst (λ (x : LeasedJob). owns job w later x ≡ false) (sym (h.0 e)) not_own in
        let rest = none_owned w later t not_own h.1 in rw not_mine (omega arith)
    | inr e ↦ let rest = none_owned w later t not_own h.1 in simp e (omega arith)
  ]

  pub owned_self :
      (w : String) (later : ℕ) (t : Table)
      → count_if (owns job w later) t ≡ 1
      → IsRow job t
      → owns job w later job ≡ true
  owned_self w later t one h = elim (Bool-cases (owns job w later job)) [
    | inl e ↦ e
    | inr e ↦ absurd (let zero = none_owned w later t e h in omega arith)
  ]

  absent-IsRow : (t : Table) → count_if (has_uuid job.job_uuid) t ≡ 0 → IsRow job t
  absent-IsRow [] h = tt
  absent-IsRow (r ∷ t) h = elim (Bool-cases (has_uuid job.job_uuid r)) [
    | inl e ↦ absurd (let k = simp e at h in omega arith)
    | inr e ↦ (
      (λ k. absurd (let both : true ≡ false = sym k ∙ e in cc)),
      absent-IsRow t (let k = simp e at h in omega arith),
    )
  ]

  found-IsRow :
      (t : Table)
      → count_if (has_uuid job.job_uuid) t ≤ 1
      → find_row (has_uuid job.job_uuid) t ≡ some job
      → IsRow job t
  found-IsRow [] c h = tt
  found-IsRow (r ∷ t) c h = elim (Bool-cases (has_uuid job.job_uuid r)) [
    | inl e ↦
        let k : some r ≡ some job = simp e at h in
        let same : r ≡ job = cc in
        let rest : count_if (has_uuid job.job_uuid) t ≡ 0 = let c' = simp e at c in omega arith in
        ((λ i. same), absent-IsRow t rest)
    | inr e ↦ (
      (λ k. absurd (let both : true ≡ false = sym k ∙ e in cc)),
      found-IsRow t (let c' = simp e at c in omega arith) (simp e at h),
    )
  ]

  pub claim_row-found :
      (w token : String) (now secs : ℕ) (t t' : Table) (o : Option LeasedJob)
      → Unique t
      → claim_row w token now secs t o ≡ (some job, t')
      → IsRow job t'
  claim_row-found w token now secs t t' none u h =
      absurd (let k : none ≡ some job = ap (λ (r : Option LeasedJob × Table). r.0) h in cc)
  claim_row-found w token now secs t t' (some r) u h =
      elim (Bool-cases (count_if (takes r.job_uuid) t == 1)) [
        | inr e ↦ absurd (
            let k : none ≡ some job = ap (λ (r : Option LeasedJob × Table). r.0) (simp e at h) in
            cc)
        | inl e ↦
            let after = update_rows (takes r.job_uuid) (leased w token now secs) t in
            let k : ◌≡◌ {A = Option LeasedJob × Table} (find_row (has_uuid r.job_uuid) after, after)
                (some job, t') =
              simp e at h in
            let found : find_row (has_uuid r.job_uuid) after ≡ some job =
              ap (λ (x : Option LeasedJob × Table). x.0) k in
            let unique : (i : String) → count_if (has_uuid i) after ≤ 1 = λ i.
              let counted =
                count-update i (takes r.job_uuid) (leased w token now secs) t (λ x. refl) in
              let v = u i in omega arith in
            let back = sym (found-IsFrom r.job_uuid after job (unique r.job_uuid) found).0 in
            subst (IsRow job) (ap (λ (x : Option LeasedJob × Table). x.1) k) (
              found-IsRow after (unique job.job_uuid)
                (subst (λ i. find_row (has_uuid i) after ≡ some job) back found))
      ]
