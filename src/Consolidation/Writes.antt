-- ===== src/Consolidation/Writes.antt =====
-- What the writes of the store come to when no index refuses them.
use mathlib.Core.List.{append_assoc, append-nil}
use open_webui_memorist_edit.Prelude.{
  ℕ, suc, ◌+◌, ◌≤◌, ◌<◌, ◌≡◌, refl, sym, ◌∙◌, inl, inr, false, ◌&&◌, Option, none, some, List, [],
  ◌∷◌, ◌++◌, String, str_eq, eq_iff, any, All, length, arith, Bool-cases,
}
use open_webui_memorist_edit.Prelude.Rows.{
  find_row, insert_row, any_of_none, any_of_All, All-append,
}
use open_webui_memorist_edit.Consolidation.{ConsolidationOperation}
use open_webui_memorist_edit.Consolidation.Store.{
  Environment, Decision, EvidenceLink, OutboxItem, OutboxStatus, CandidateEvidence, Store, ok,
  decides, is_projection, links_same, operation_value, insert_decision, insert_link, insert_outbox,
  record_decision, link_evidence, enqueue_projection, record_change, ◌>>=◌,
}

-- An identifier that was drawn before.
abbrev pub IsOld : Environment → ℕ → String → Type 0
IsOld env n uuid = (k : ℕ) × (k < n) × (uuid ≡ env.new_uuid k)

-- new_uuid gives no identifier twice.
abbrev pub DrawsFresh : Environment → Type 0
DrawsFresh env = (a b : ℕ) → env.new_uuid a ≡ env.new_uuid b → a ≡ b

abbrev pub IsUndecided : String → Store → Type 0
IsUndecided candidate_uuid s = find_row (decides candidate_uuid) s.decisions ≡ none

-- No link has the evidence.
abbrev pub IsUnlinked : List EvidenceLink → CandidateEvidence → Type 0
IsUnlinked links e =
    All (λ (l : EvidenceLink). str_eq l.evidence_uuid e.evidence_uuid ≡ false) links

-- The identifiers of the evidence differ: it is the primary key of the table.
abbrev pub DistinctEvidence : List CandidateEvidence → Type 0
DistinctEvidence [] = Unit
DistinctEvidence (e ∷ es) =
    All (λ (x : CandidateEvidence). str_eq e.evidence_uuid x.evidence_uuid ≡ false) es
    × DistinctEvidence es

insert_decision_lem :
    (d : Decision) (s : Store)
    → any
        (λ (r : Decision). str_eq r.consolidation_decision_uuid d.consolidation_decision_uuid)
        s.decisions
      ≡ false
    → any (decides d.candidate_uuid) s.decisions ≡ false
    → insert_decision d s ≡ ok tt (record s { decisions = insert_row d s.decisions })
unfolding insert_decision
insert_decision_lem d s h k = rw (h, k)

insert_link_lem :
    (l : EvidenceLink) (s : Store)
    → any
        (λ (r : EvidenceLink). str_eq r.memory_evidence_link_uuid l.memory_evidence_link_uuid)
        s.links
      ≡ false
    → any (links_same l) s.links ≡ false
    → insert_link l s ≡ ok tt (record s { links = insert_row l s.links })
unfolding insert_link
insert_link_lem l s h k = rw (h, k)

insert_outbox_lem :
    (o : OutboxItem) (s : Store)
    → any (λ (r : OutboxItem). str_eq r.outbox_uuid o.outbox_uuid) s.outbox ≡ false
    → any
        (λ (r : OutboxItem).
          str_eq r.aggregate_type o.aggregate_type
          && str_eq r.aggregate_uuid o.aggregate_uuid
          && str_eq r.operation o.operation)
        s.outbox
      ≡ false
    → insert_outbox o s ≡ ok tt (record s { outbox = insert_row o s.outbox })
unfolding insert_outbox
insert_outbox_lem o s h k = rw (h, k)

module _ (env : Environment) where
  pub IsOld-later : {m n : ℕ} {uuid : String} → m ≤ n → IsOld env m uuid → IsOld env n uuid
  IsOld-later h (k, lt, e) = (k, omega arith, e)

  -- The rows of a table have identifiers that were drawn before.
  abbrev pub AllOld : {A : Type 0} → (A → String) → ℕ → List A → Type 0
  AllOld f n t = All (λ r. IsOld env n (f r)) t

  pub AllOld-later :
      {A : Type 0} (f : A → String) (m n : ℕ) (t : List A) → m ≤ n → AllOld f m t → AllOld f n t
  AllOld-later f m n [] h old = tt
  AllOld-later f m n (r ∷ t) h old = (IsOld-later h old.0, AllOld-later f m n t h old.1)

  pub AllOld-insert :
      {A : Type 0} (f : A → String) (n : ℕ) (r : A) (t : List A)
      → f r ≡ env.new_uuid n
      → AllOld f n t
      → AllOld f (suc n) (insert_row r t)
  AllOld-insert f n r t e old =
      All-append (λ x. IsOld env (suc n) (f x)) t (r ∷ [])
        (AllOld-later f n (suc n) t (omega arith) old) ((n, omega arith, e), tt)

  module _ (fresh : DrawsFresh env) where
    pub fresh_uuid :
        (n m : ℕ) (uuid : String) → n ≤ m → IsOld env n uuid → str_eq uuid (env.new_uuid m) ≡ false
    fresh_uuid n m uuid h (k, lt, e) = elim (Bool-cases (str_eq uuid (env.new_uuid m))) [
      | inl same ↦
          absurd (let at = fresh k m (sym e ∙ (eq_iff uuid (env.new_uuid m)).0 same) in omega arith)
      | inr other ↦ other
    ]

    pub fresh_rows :
        {A : Type 0} (f : A → String) (n m : ℕ) (t : List A)
        → n ≤ m
        → AllOld f n t
        → All (λ r. str_eq (f r) (env.new_uuid m) ≡ false) t
    fresh_rows f n m [] h old = tt
    fresh_rows f n m (r ∷ t) h old = (fresh_uuid n m (f r) h old.0, fresh_rows f n m t h old.1)

    pub unused :
        {A : Type 0} (f : A → String) (n : ℕ) (t : List A)
        → AllOld f n t
        → any (λ r. str_eq (f r) (env.new_uuid n)) t ≡ false
    unused f n t old =
        any_of_All (λ r. str_eq (f r) (env.new_uuid n)) t (fresh_rows f n n t (omega arith) old)

    abbrev pub decision_of :
        ℕ → String → ConsolidationOperation → List String → Option String → Option String → Decision
    decision_of n candidate_uuid operation reason_codes memory_uuid version_uuid = record {
      consolidation_decision_uuid = env.new_uuid n;
      candidate_uuid = candidate_uuid;
      operation = operation;
      resolver_version = "deterministic-consolidator-v1";
      reason_codes = reason_codes;
      target_memory_uuid = memory_uuid;
      target_memory_version_uuid = version_uuid;
    }

    pub record_decision_lem :
        (c : String) (op : ConsolidationOperation) (codes : List String) (m v : Option String)
        (s : Store)
        → IsUndecided c s
        → AllOld (λ (d : Decision). d.consolidation_decision_uuid) s.drawn s.decisions
        → record_decision env c op codes m v s
          ≡ ok (decision_of s.drawn c op codes m v) (record s {
            decisions = insert_row (decision_of s.drawn c op codes m v) s.decisions;
            drawn = suc s.drawn;
          })
    unfolding record_decision
    record_decision_lem c op codes m v s none_yet old =
        let free =
          unused (λ (d : Decision). d.consolidation_decision_uuid) s.drawn s.decisions old in
        let first = any_of_none (decides c) s.decisions none_yet in
        let d = decision_of s.drawn c op codes m v in
        let inserted = insert_decision_lem d (record s { drawn = suc s.drawn }) free first in
        rw (none_yet) (rw (inserted, ◌>>=◌))

    abbrev pub new_links : ℕ → String → String → String → List CandidateEvidence → List EvidenceLink
    new_links n m v c [] = []
    new_links n m v c (e ∷ es) =
        record {
          memory_evidence_link_uuid = env.new_uuid n;
          memory_uuid = m;
          memory_version_uuid = v;
          candidate_uuid = c;
          evidence_uuid = e.evidence_uuid;
        }
        ∷ new_links (suc n) m v c es

    unlinked_any :
        (n : ℕ) (m v c : String) (e : CandidateEvidence) (links : List EvidenceLink)
        → IsUnlinked links e
        → any
            (λ (l : EvidenceLink).
              str_eq l.memory_version_uuid v && str_eq l.evidence_uuid e.evidence_uuid)
            links
          ≡ false
    unlinked_any n m v c e [] h = refl
    unlinked_any n m v c e (l ∷ links) h = ground (arith, unlinked_any n m v c e links h.1)

    still-IsUnlinked :
        (l : EvidenceLink) (links : List EvidenceLink) (es : List CandidateEvidence)
        → All (IsUnlinked links) es
        → All (λ (x : CandidateEvidence). str_eq l.evidence_uuid x.evidence_uuid ≡ false) es
        → All (IsUnlinked (insert_row l links)) es
    still-IsUnlinked l links [] h k = tt
    still-IsUnlinked l links (e ∷ es) h k = (
      All-append (λ (x : EvidenceLink). str_eq x.evidence_uuid e.evidence_uuid ≡ false) links
          (l ∷ []) h.0 (k.0, tt),
      still-IsUnlinked l links es h.1 k.1,
    )

    pub link_evidence_lem :
        (m v c : String) (es : List CandidateEvidence) (s : Store)
        → AllOld (λ (l : EvidenceLink). l.memory_evidence_link_uuid) s.drawn s.links
        → All (IsUnlinked s.links) es
        → DistinctEvidence es
        → link_evidence env m v c es s
          ≡ ok tt (record s {
            links = s.links ++ new_links s.drawn m v c es;
            drawn = s.drawn + length es;
          })
    unfolding link_evidence
    link_evidence_lem m v c [] s old free apart =
        let none_drawn : s.drawn + 0 ≡ s.drawn = omega arith in
        simp (append-nil s.links, none_drawn)
    link_evidence_lem m v c (e ∷ es) s old free apart =
        let l : EvidenceLink = record {
          memory_evidence_link_uuid = env.new_uuid s.drawn;
          memory_uuid = m;
          memory_version_uuid = v;
          candidate_uuid = c;
          evidence_uuid = e.evidence_uuid;
        } in
        let s1 : Store = record s { links = insert_row l s.links; drawn = suc s.drawn } in
        let unused_uuid =
          unused (λ (r : EvidenceLink). r.memory_evidence_link_uuid) s.drawn s.links old in
        let unlinked = unlinked_any s.drawn m v c e s.links free.0 in
        let rest =
          link_evidence_lem m v c es s1
            (AllOld-insert (λ (r : EvidenceLink). r.memory_evidence_link_uuid) s.drawn l s.links
              refl old)
            (still-IsUnlinked l s.links es free.1 apart.0) apart.1 in
        let inserted = insert_link_lem l (record s { drawn = suc s.drawn }) unused_uuid unlinked in
        let together = append_assoc s.links (l ∷ []) (new_links (suc s.drawn) m v c es) in
        let count : suc s.drawn + length es ≡ s.drawn + suc (length es) = omega arith in
        rw (inserted, ◌>>=◌) (simp (rest, together, count))

    abbrev pub projection_of : ℕ → String → String → String → OutboxItem
    projection_of n m v operation = record {
      outbox_uuid = env.new_uuid n;
      aggregate_type = "memory";
      aggregate_uuid = m;
      operation = operation;
      payload = (m, v, operation);
      status = OutboxStatus.pending;
      attempts = 0;
      last_error = none;
      processed_at = none;
    }

    -- The outbox and the number of identifiers drawn after a projection is asked for.
    abbrev pub outbox_after :
        ℕ → String → String → String → List OutboxItem → Option OutboxItem → List OutboxItem
    outbox_after n m v operation t (some o) = t
    outbox_after n m v operation t none = insert_row (projection_of n m v operation) t

    abbrev pub drawn_after : ℕ → Option OutboxItem → ℕ
    drawn_after n (some o) = n
    drawn_after n none = suc n

    abbrev pub projected : String → String → String → Option OutboxItem → Store → Store
    projected m v operation o s = record s {
      outbox = outbox_after s.drawn m v operation s.outbox o;
      drawn = drawn_after s.drawn o;
    }

    enqueue_cases :
        (m v operation : String) (o : Option OutboxItem) (s : Store)
        → find_row (is_projection m operation) s.outbox ≡ o
        → AllOld (λ (r : OutboxItem). r.outbox_uuid) s.drawn s.outbox
        → enqueue_projection env m v operation s ≡ ok tt (projected m v operation o s)
    unfolding enqueue_projection
    enqueue_cases m v operation (some o) s h old = rw h
    enqueue_cases m v operation none s h old =
        let unused_uuid = unused (λ (r : OutboxItem). r.outbox_uuid) s.drawn s.outbox old in
        let o = projection_of s.drawn m v operation in
        let inserted =
          insert_outbox_lem o (record s { drawn = suc s.drawn }) unused_uuid
            (any_of_none (is_projection m operation) s.outbox h) in
        rw h inserted

    pub enqueue_projection_lem :
        (m v operation : String) (s : Store)
        → AllOld (λ (r : OutboxItem). r.outbox_uuid) s.drawn s.outbox
        → enqueue_projection env m v operation s
          ≡ ok tt (projected m v operation (find_row (is_projection m operation) s.outbox) s)
    enqueue_projection_lem m v operation s old =
        enqueue_cases m v operation (find_row (is_projection m operation) s.outbox) s refl old

    -- What a decision needs of the store to be written.
    pub record IsReady (c : String) (es : List CandidateEvidence) (s : Store) : Type 0 where
      pub undecided : IsUndecided c s
      pub old_decisions :
          AllOld (λ (d : Decision). d.consolidation_decision_uuid) s.drawn s.decisions
      pub old_links : AllOld (λ (l : EvidenceLink). l.memory_evidence_link_uuid) s.drawn s.links
      pub old_outbox : AllOld (λ (o : OutboxItem). o.outbox_uuid) s.drawn s.outbox
      pub unlinked : All (IsUnlinked s.links) es
      pub apart : DistinctEvidence es

    abbrev pub decided :
        String
        → ConsolidationOperation
        → List String
        → Option String
        → Option String
        → Store
        → Store
    decided c op codes m v s = record s {
      decisions = insert_row (decision_of s.drawn c op codes m v) s.decisions;
      drawn = suc s.drawn;
    }

    abbrev pub linked : String → String → String → List CandidateEvidence → Store → Store
    linked m v c es s = record s {
      links = s.links ++ new_links s.drawn m v c es;
      drawn = s.drawn + length es;
    }

    -- The store after a change of a memory.
    abbrev pub changed :
        String
        → String
        → String
        → List String
        → ConsolidationOperation
        → List CandidateEvidence
        → Store
        → Store
    changed m v c codes op es s =
        projected m v (operation_value op)
          (find_row (is_projection m (operation_value op)) s.outbox)
          (linked m v c es (decided c op codes (some m) (some v) s))

    pub record_change_lem :
        (m v c : String) (codes : List String) (op : ConsolidationOperation)
        (es : List CandidateEvidence) (s : Store)
        → IsReady c es s
        → record_change env m v c codes op es s
          ≡ ok (decision_of s.drawn c op codes (some m) (some v)) (changed m v c codes op es s)
    unfolding record_change
    record_change_lem m v c codes op es s r =
        let s1 = decided c op codes (some m) (some v) s in
        let a = record_decision_lem c op codes (some m) (some v) s r.undecided r.old_decisions in
        let b =
          link_evidence_lem m v c es s1
            (AllOld-later (λ (l : EvidenceLink). l.memory_evidence_link_uuid) s.drawn (suc s.drawn)
              s.links (omega arith) r.old_links)
            r.unlinked r.apart in
        let s2 = linked m v c es s1 in
        let d = enqueue_projection_lem m v (operation_value op) s2 (
          AllOld-later (λ (o : OutboxItem). o.outbox_uuid) s.drawn s2.drawn s.outbox (omega arith)
            r.old_outbox) in
        rw (a, ◌>>=◌) (rw (b, ◌>>=◌) (rw (d, ◌>>=◌)))
