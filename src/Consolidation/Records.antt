-- ===== src/Consolidation/Records.antt =====
-- That the records of a consolidation keep what holds of the decisions, the links and the outbox.
use mathlib.Core.Path.{subst}
use open_webui_memorist_edit.Prelude.{
  ℕ, suc, ◌+◌, ◌≡◌, refl, sym, ◌∙◌, inl, inr, Bool, true, false, Option, none, some, List, [], ◌∷◌,
  String, str_eq, eq_iff, All, All-imp, All-both, All-filter_if, filter_if, filter_if-passes,
  length, arith, Bool-cases,
}
use open_webui_memorist_edit.Prelude.Rows.{
  find_row, insert_row, find-insert_some, find_hit, All-append,
}
use open_webui_memorist_edit.Consolidation.{ConsolidationOperation}
use open_webui_memorist_edit.Consolidation.Store.{
  Environment, Decision, EvidenceLink, OutboxItem, CandidateEvidence, Store, decides, is_projection,
  operation_value,
}
use open_webui_memorist_edit.Consolidation.Consolidator.{supports, is_contradict}
use open_webui_memorist_edit.Consolidation.Writes.{
  IsOld, AllOld, AllOld-later, AllOld-insert, DistinctEvidence, IsUndecided, IsUnlinked, IsReady,
  decision_of, new_links, decided, linked, projected, changed, projection_of, DrawsFresh,
}
use open_webui_memorist_edit.Consolidation.Sound.{IsDecided, IsSpent, IsUntargeted, IsRecorded}

pub IsDecided-insert :
    (c : String) (d : Decision) (t : List Decision) → IsDecided c t → IsDecided c (insert_row d t)
IsDecided-insert c d t h = (h.0, find-insert_some (decides c) d h.0 t h.1)

-- A decision of an undecided candidate is found.
pub IsDecided-new :
    (c : String) (d : Decision) (t : List Decision)
    → find_row (decides c) t ≡ none
    → d.candidate_uuid ≡ c
    → IsDecided c (insert_row d t)
IsDecided-new c d t h e = (d, find_hit (decides c) d t h ((eq_iff d.candidate_uuid c).1 e))

-- Evidence with one identifier has one candidate.
twins :
    (c : String) (t : List CandidateEvidence)
    → DistinctEvidence t
    → All
        (λ (e : CandidateEvidence).
          All
            (λ (x : CandidateEvidence).
              supports c x ≡ true
              → str_eq x.evidence_uuid e.evidence_uuid ≡ true
              → supports c e ≡ true)
            t)
        t
twins c [] h = tt
twins c (x ∷ xs) h = (
  ((λ k _. k), All-imp xs (λ y apart k same. absurd (clash x y apart same)) h.0),
  both xs (twins c xs h.1) h.0,
)
  where
    clash :
        (a b : CandidateEvidence)
        → str_eq a.evidence_uuid b.evidence_uuid ≡ false
        → str_eq b.evidence_uuid a.evidence_uuid ≡ true
        → ⊥
    clash a b apart same =
        let back =
          (eq_iff a.evidence_uuid b.evidence_uuid).1
            (sym ((eq_iff b.evidence_uuid a.evidence_uuid).0 same)) in
        let k : true ≡ false = sym back ∙ apart in cc

    both :
        (ys : List CandidateEvidence)
        → All
            (λ (e : CandidateEvidence).
              All
                (λ (x : CandidateEvidence).
                  supports c x ≡ true
                  → str_eq x.evidence_uuid e.evidence_uuid ≡ true
                  → supports c e ≡ true)
                xs)
            ys
        → All (λ (y : CandidateEvidence). str_eq x.evidence_uuid y.evidence_uuid ≡ false) ys
        → All
            (λ (e : CandidateEvidence).
              All
                (λ (y : CandidateEvidence).
                  supports c y ≡ true
                  → str_eq y.evidence_uuid e.evidence_uuid ≡ true
                  → supports c e ≡ true)
                (x ∷ xs))
            ys
    both [] k a = tt
    both (y ∷ ys) k a =
        (((λ s same. absurd (let z : true ≡ false = sym same ∙ a.0 in cc)), k.0), both ys k.1 a.1)

-- The evidence of an undecided candidate is not linked yet.
pub IsUnlinked-of_undecided :
    (c : String) (decisions : List Decision) (links : List EvidenceLink)
    (t : List CandidateEvidence)
    → find_row (decides c) decisions ≡ none
    → All (IsSpent decisions links) t
    → All (IsUnlinked links) (filter_if (supports c) t)
IsUnlinked-of_undecided c decisions links [] h k = tt
IsUnlinked-of_undecided c decisions links (e ∷ es) h k = elim (Bool-cases (supports c e)) [
  | inl own ↦
      let at = (eq_iff e.candidate_uuid c).0 own in
      rw own (
        All-imp links
            (λ l spent. elim (Bool-cases (str_eq l.evidence_uuid e.evidence_uuid)) [
              | inl same ↦ absurd (
                  let d = spent same in
                  let found =
                    subst (λ (i : String). find_row (decides i) decisions ≡ some d.0) at d.1 in
                  let clash : none ≡ some d.0 = sym h ∙ found in cc)
              | inr other ↦ other
            ])
            k.0,
        IsUnlinked-of_undecided c decisions links es h k.1,
      )
  | inr not_own ↦ rw not_own (IsUnlinked-of_undecided c decisions links es h k.1)
]

pub apart-filter :
    (p : CandidateEvidence → Bool) (t : List CandidateEvidence)
    → DistinctEvidence t
    → DistinctEvidence (filter_if p t)
apart-filter p [] h = tt
apart-filter p (e ∷ es) h = elim (Bool-cases (p e)) [
  | inl k ↦ rw k (
    All-filter_if (λ (x : CandidateEvidence). str_eq e.evidence_uuid x.evidence_uuid ≡ false) p es
        h.0,
    apart-filter p es h.1,
  )
  | inr k ↦ rw k (apart-filter p es h.1)
]

module _ (env : Environment) (fresh : DrawsFresh env) where
  old_links-new :
      (n : ℕ) (m v c : String) (es : List CandidateEvidence)
      → AllOld env
          (λ (l : EvidenceLink). l.memory_evidence_link_uuid)
          (n + length es)
          (new_links env fresh n m v c es)
  old_links-new n m v c [] = tt
  old_links-new n m v c (e ∷ es) = (
    (n, omega arith, refl),
    AllOld-later env (λ (l : EvidenceLink). l.memory_evidence_link_uuid) (suc n + length es)
        (n + suc (length es)) (new_links env fresh (suc n) m v c es) (omega arith)
        (old_links-new (suc n) m v c es),
  )

  links-IsSpent :
      (n : ℕ) (m v c : String) (decisions : List Decision) (e : CandidateEvidence)
      (es : List CandidateEvidence)
      → IsDecided c decisions
      → All
          (λ (x : CandidateEvidence).
            supports c x ≡ true
            → str_eq x.evidence_uuid e.evidence_uuid ≡ true
            → supports c e ≡ true)
          es
      → All (λ (x : CandidateEvidence). supports c x ≡ true) es
      → IsSpent decisions (new_links env fresh n m v c es) e
  links-IsSpent n m v c decisions e [] d h k = tt
  links-IsSpent n m v c decisions e (x ∷ xs) d h k = (
    (λ same.
        let own = (eq_iff e.candidate_uuid c).0 (h.0 k.0 same) in
        subst (λ i. IsDecided i decisions) (sym own) d),
    links-IsSpent (suc n) m v c decisions e xs d h.1 k.1,
  )

  -- The rows of a decision that is only recorded.
  pub decided-IsRecorded :
      (c : String) (op : ConsolidationOperation) (codes : List String) (m v : Option String)
      (s : Store)
      → IsUntargeted (decision_of env fresh s.drawn c op codes m v)
      → IsRecorded env s
      → IsRecorded env (decided env fresh c op codes m v s)
  decided-IsRecorded c op codes m v s u r =
      let d = decision_of env fresh s.drawn c op codes m v in
      record {
        old_decisions =
            AllOld-insert env (λ (x : Decision). x.consolidation_decision_uuid) s.drawn d
              s.decisions refl r.old_decisions;
        old_links =
            AllOld-later env (λ (x : EvidenceLink). x.memory_evidence_link_uuid) s.drawn
              (suc s.drawn) s.links (omega arith) r.old_links;
        old_outbox =
            AllOld-later env (λ (x : OutboxItem). x.outbox_uuid) s.drawn (suc s.drawn) s.outbox
              (omega arith) r.old_outbox;
        spent =
            All-imp s.evidence
              (λ e spent.
                All-imp s.links
                  (λ l k same. IsDecided-insert e.candidate_uuid d s.decisions (k same)) spent)
              r.spent;
        apart = r.apart;
        untargeted = All-append IsUntargeted s.decisions (d ∷ []) r.untargeted (u, tt);
      }

  pub linked-IsRecorded :
      (m v c : String) (s : Store)
      → IsDecided c s.decisions
      → IsRecorded env s
      → IsRecorded env (linked env fresh m v c (filter_if (supports c) s.evidence) s)
  linked-IsRecorded m v c s d r =
      let es = filter_if (supports c) s.evidence in
      let more = new_links env fresh s.drawn m v c es in
      record {
        old_decisions =
            AllOld-later env (λ (x : Decision). x.consolidation_decision_uuid) s.drawn
              (s.drawn + length es) s.decisions (omega arith) r.old_decisions;
        old_links =
            All-append
              (λ (x : EvidenceLink). IsOld env (s.drawn + length es) x.memory_evidence_link_uuid)
              s.links more
              (AllOld-later env (λ (x : EvidenceLink). x.memory_evidence_link_uuid) s.drawn
                (s.drawn + length es) s.links (omega arith) r.old_links)
              (old_links-new s.drawn m v c es);
        old_outbox =
            AllOld-later env (λ (x : OutboxItem). x.outbox_uuid) s.drawn (s.drawn + length es)
              s.outbox (omega arith) r.old_outbox;
        spent =
            All-both s.evidence
              (λ e spent same.
                All-append
                  (λ (l : EvidenceLink).
                    str_eq l.evidence_uuid e.evidence_uuid ≡ true
                    → IsDecided e.candidate_uuid s.decisions)
                  s.links more spent
                  (links-IsSpent s.drawn m v c s.decisions e es d
                    (All-filter_if
                      (λ (x : CandidateEvidence).
                        supports c x ≡ true
                        → str_eq x.evidence_uuid e.evidence_uuid ≡ true
                        → supports c e ≡ true)
                      (supports c) s.evidence same)
                    (filter_if-passes (supports c) s.evidence)))
              r.spent (twins c s.evidence r.apart);
        apart = r.apart;
        untargeted = r.untargeted;
      }

  pub projected-IsRecorded :
      (m v operation : String) (o : Option OutboxItem) (s : Store)
      → IsRecorded env s
      → IsRecorded env (projected env fresh m v operation o s)
  projected-IsRecorded m v operation (some o) s r = r
  projected-IsRecorded m v operation none s r = record {
    old_decisions =
        AllOld-later env (λ (x : Decision). x.consolidation_decision_uuid) s.drawn (suc s.drawn)
          s.decisions (omega arith) r.old_decisions;
    old_links =
        AllOld-later env (λ (x : EvidenceLink). x.memory_evidence_link_uuid) s.drawn (suc s.drawn)
          s.links (omega arith) r.old_links;
    old_outbox =
        AllOld-insert env (λ (x : OutboxItem). x.outbox_uuid) s.drawn
          (projection_of env fresh s.drawn m v operation) s.outbox refl r.old_outbox;
    spent = r.spent;
    apart = r.apart;
    untargeted = r.untargeted;
  }

  -- The store before the records can take them.
  pub IsReady-of :
      (c : String) (s : Store)
      → IsUndecided c s
      → IsRecorded env s
      → IsReady env fresh c (filter_if (supports c) s.evidence) s
  IsReady-of c s u r = record {
    undecided = u;
    old_decisions = r.old_decisions;
    old_links = r.old_links;
    old_outbox = r.old_outbox;
    unlinked = IsUnlinked-of_undecided c s.decisions s.links s.evidence u r.spent;
    apart = apart-filter (supports c) s.evidence r.apart;
  }

  -- The records of a change keep what holds of the decisions, the links and the outbox.
  pub changed-IsRecorded :
      (m v c : String) (codes : List String) (op : ConsolidationOperation) (s : Store)
      → IsUndecided c s
      → is_contradict op ≡ false
      → IsRecorded env s
      → IsRecorded env (changed env fresh m v c codes op (filter_if (supports c) s.evidence) s)
  changed-IsRecorded m v c codes op s u k r =
      let d = decision_of env fresh s.drawn c op codes (some m) (some v) in
      let s1 = decided env fresh c op codes (some m) (some v) s in
      let r1 =
        decided-IsRecorded c op codes (some m) (some v) s
          (λ h. absurd (let z : true ≡ false = sym h ∙ k in cc)) r in
      let r2 = linked-IsRecorded m v c s1 (IsDecided-new c d s.decisions u refl) r1 in
      projected-IsRecorded m v (operation_value op)
        (find_row (is_projection m (operation_value op)) s.outbox)
        (linked env fresh m v c (filter_if (supports c) s.evidence) s1) r2
