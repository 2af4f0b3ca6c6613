-- ===== src/Jobs/Enqueue.antt =====
-- Enqueueing the same work again.
use mathlib.Core.Path.{subst}
use open_webui_memorist_edit.Prelude.{
  ℕ, ◌≡◌, refl, sym, ap, ◌∙◌, inl, inr, Bool, true, none, some, [], ◌∷◌, ◌++◌, String, arith,
  eq_iff, filter_if, Bool-cases, Option-cases,
}
use open_webui_memorist_edit.Jobs.{
  Job, Table, changed, NewJob, new_row, insert_job, enqueue_job_once, earliest, earliest_from,
  same_work,
}

own_work :
    (n : NewJob) (uuid : String) (now : ℕ) (key : String)
    → same_work n (new_row uuid now n (some key)) ≡ true
own_work n uuid now key =
    let a = (eq_iff n.job_type n.job_type).1 refl in
    let b = (eq_iff n.payload_ijson n.payload_ijson).1 refl in rw (a, b)

filter_if-append-nil :
    (p : Job → Bool) (t : Table) (j : Job)
    → filter_if p t ≡ []
    → p j ≡ true
    → filter_if p (t ++ j ∷ []) ≡ j ∷ []
filter_if-append-nil p [] j h k = rw k
filter_if-append-nil p (x ∷ t) j h k = elim (Bool-cases (p x)) [
  | inl e ↦ let h' = rw e at h in cc
  | inr e ↦ rw e (filter_if-append-nil p t j (rw e at h) k)
]

no_earliest : (js : Table) → earliest js ≡ none → js ≡ []
no_earliest [] h = refl
no_earliest (j ∷ js) h = cc

once_found :
    (uuid : String) (now : ℕ) (key : String) (n : NewJob) (t : Table) (j : Job)
    → earliest (filter_if (same_work n) t) ≡ some j
    → enqueue_job_once uuid now key n t ≡ changed j t
unfolding enqueue_job_once
once_found uuid now key n t j e = rw (e, enqueue_job_once)

insert-changed :
    (row : Job) (t t' : Table) (j : Job)
    → insert_job row t ≡ changed j t'
    → (j ≡ row) × (t' ≡ t ++ row ∷ [])
unfolding insert_job
insert-changed row t t' j h = ground arith

same_repeats :
    (uuid : String) (now : ℕ) (key : String) (n : NewJob) (t t' : Table) (j : Job)
    → enqueue_job_once uuid now key n t ≡ changed j t'
    → earliest (filter_if (same_work n) t') ≡ some j
unfolding enqueue_job_once earliest_from
same_repeats uuid now key n t t' j h = elim (Option-cases (earliest (filter_if (same_work n) t))) [
  | inr (s, e) ↦
      let k = sym (once_found uuid now key n t s e) ∙ h in
      let same : t ≡ t' = cc in
      let job : s ≡ j = cc in
      subst (λ (r : Table). earliest (filter_if (same_work n) r) ≡ some j) same (e ∙ ap some job)
  | inl e ↦
      let k = rw (e, enqueue_job_once) at h in
      let row = new_row uuid now n (some key) in
      let (job, table) = insert-changed row t t' j k in
      let all =
        filter_if-append-nil (same_work n) t row (no_earliest (filter_if (same_work n) t) e)
          (own_work n uuid now key) in
      subst (λ (r : Table). earliest (filter_if (same_work n) r) ≡ some j) (sym table)
        (ap earliest all ∙ ap some (sym job))
]

filter_if-agree :
    (p q : Job → Bool) (t : Table) → ((r : Job) → p r ≡ q r) → filter_if p t ≡ filter_if q t
filter_if-agree p q [] h = refl
filter_if-agree p q (r ∷ t) h = rw (h r, filter_if-agree p q t h) refl

-- Once a call has enqueued a job or found it, any later call with the same type and payload, whatever
-- its priority, its time, its attempts and its key, returns on the table that the first call left the
-- same job and changes nothing.
pub enqueue_job_once_repeats :
    (uuid uuid' : String) (now now' : ℕ) (key key' : String) (n n' : NewJob) (t t' : Table)
    (j : Job)
    → n'.job_type ≡ n.job_type
    → n'.payload_ijson ≡ n.payload_ijson
    → enqueue_job_once uuid now key n t ≡ changed j t'
    → enqueue_job_once uuid' now' key' n' t' ≡ changed j t'
enqueue_job_once_repeats uuid uuid' now now' key key' n n' t t' j types payloads h =
    let agree = filter_if-agree (same_work n') (same_work n) t' (λ r. rw (types, payloads) refl) in
    once_found uuid' now' key' n' t' j (ap earliest agree ∙ same_repeats uuid now key n t t' j h)
