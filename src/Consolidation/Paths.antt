-- ===== src/Consolidation/Paths.antt =====
-- What the two writes that change memories come to: a new memory, and a version that supersedes the
-- current one.
use mathlib.Core.Path.{subst}
use open_webui_memorist_edit.Prelude.{
  ℕ, suc, ◌+◌, ◌≤◌, ◌≡◌, refl, sym, ◌∙◌, inl, inr, Bool, true, false, ◌&&◌, Option, none, some,
  List, [], ◌∷◌, String, str_eq, eq_iff, any, All, arith, Bool-cases, ◌==◌,
}
use open_webui_memorist_edit.Prelude.Rows.{
  find_row, update_rows, insert_row, any_of_none, any_of_All, any_weaker, update_insert, All-update,
  All-updated,
}
use open_webui_memorist_edit.Prelude.Texts.{same_codes}
use open_webui_memorist_edit.Consolidation.{
  ConsolidationOperation, MemoryCandidate, MemoryVersion, Resolution, change_operation_for,
}
use open_webui_memorist_edit.Consolidation.Keys.{canonical_key_for_candidate}
use open_webui_memorist_edit.Consolidation.Store.{
  Environment, ScopeType, Memory, Decision, CandidateEvidence, Store, ok, is_version, is_of_memory,
  is_memory, decides, takes_place, in_place, sql_eq, or_empty, has_number, has_source,
  same_scope_type, insert_memory, insert_version, ◌>>=◌,
}
use open_webui_memorist_edit.Consolidation.Consolidator.{
  create_memory, create_version, is_supersede,
}
use open_webui_memorist_edit.Consolidation.Writes.{
  IsReady, IsOld, AllOld, DrawsFresh, decision_of, changed, record_change_lem, fresh_rows, unused,
}
use open_webui_memorist_edit.Consolidation.Sound.{IsSourced}

insert_memory_lem :
    (m : Memory) (s : Store)
    → any (is_memory m.memory_uuid) s.memories ≡ false
    → any (takes_place m) s.memories ≡ false
    → insert_memory m s ≡ ok tt (record s { memories = insert_row m s.memories })
unfolding insert_memory
insert_memory_lem m s h k = rw (h, k)

insert_version_lem :
    (v : MemoryVersion) (s : Store)
    → any (is_version v.memory_version_uuid) s.versions ≡ false
    → any (has_number v) s.versions ≡ false
    → any (has_source v) s.versions ≡ false
    → insert_version v s ≡ ok tt (record s { versions = insert_row v s.versions })
unfolding insert_version
insert_version_lem v s h k l = rw (h, k, l)

sql_eq-or_empty :
    (a b : Option String) → str_eq (or_empty a) (or_empty b) ≡ false → sql_eq a b ≡ false
sql_eq-or_empty (some a) (some b) h = h
sql_eq-or_empty none b h = refl
sql_eq-or_empty (some a) none h = refl

and_weaker :
    (a b b' c : Bool) → (b ≡ false → b' ≡ false) → a && b && c ≡ false → a && b' && c ≡ false
and_weaker false b b' c f h = refl
and_weaker true false b' c f h = rw (f refl)
and_weaker true true false c f h = refl
and_weaker true true true c f h = h

-- A place in which no memory is found is free.
pub place_is_free :
    (new : Memory) (t : List Memory)
    → any (in_place new.scope_type new.scope_uuid new.canonical_key) t ≡ false
    → any (takes_place new) t ≡ false
place_is_free new t h =
    any_weaker (in_place new.scope_type new.scope_uuid new.canonical_key) (takes_place new) t
      (λ m k.
        and_weaker (same_scope_type m.scope_type new.scope_type)
          (str_eq (or_empty m.scope_uuid) (or_empty new.scope_uuid))
          (sql_eq m.scope_uuid new.scope_uuid) (same_codes m.canonical_key new.canonical_key)
          (sql_eq-or_empty m.scope_uuid new.scope_uuid) k)
      h

-- No version comes from a candidate that is undecided.
pub source_is_free :
    (c : String) (new : MemoryVersion) (decisions : List Decision) (t : List MemoryVersion)
    → new.source_candidate_uuid ≡ some c
    → find_row (decides c) decisions ≡ none
    → All (IsSourced decisions) t
    → any (has_source new) t ≡ false
source_is_free c new decisions [] e h k = refl
source_is_free c new decisions (v ∷ t) e h k =
    let from = k.0 in
    let other : str_eq from.0 c ≡ false = elim (Bool-cases (str_eq from.0 c)) [
      | inl same ↦ absurd (
          let found =
            subst (λ (i : String). find_row (decides i) decisions ≡ some from.2.0)
              ((eq_iff from.0 c).0 same) from.2.1 in
          let clash : none ≡ some from.2.0 = sym h ∙ found in cc)
      | inr apart ↦ apart
    ] in
    let apart : sql_eq v.source_candidate_uuid new.source_candidate_uuid ≡ false =
      subst (λ o. sql_eq o new.source_candidate_uuid ≡ false) (sym from.1)
        (subst (λ o. sql_eq (some from.0) o ≡ false) (sym e) other) in
    simp apart (source_is_free c new decisions t e h k.1)

abbrev pub version_of :
    MemoryCandidate → String → String → ℕ → ConsolidationOperation → String → MemoryVersion
version_of c version_uuid memory_uuid number operation now = record {
  memory_version_uuid = version_uuid;
  memory_uuid = memory_uuid;
  version_number = number;
  normalized_text = c.normalized_text;
  value_ijson = c.object_ijson;
  polarity = c.polarity;
  valid_from = c.valid_from;
  valid_until = c.valid_until;
  transaction_from = now;
  transaction_until = none;
  source_candidate_uuid = some c.candidate_uuid;
  change_operation = change_operation_for operation;
  change_reason = record {
    operation = operation;
    candidate_status = c.status;
    rejection_reason_codes = c.rejection_reason_codes_ijson;
  };
}

number_after :
    (memory_uuid : String) (n : ℕ) (w : MemoryVersion)
    → (is_of_memory memory_uuid w ≡ true → w.version_number ≤ n)
    → is_of_memory memory_uuid w && w.version_number == n + 1 ≡ false
number_after memory_uuid n w h = elim (Bool-cases (is_of_memory memory_uuid w)) [
  | inl k ↦ let below = h k in rw k (ground arith)
  | inr k ↦ rw k
]

module _ (env : Environment) where
  abbrev pub memory_of :
      MemoryCandidate → ScopeType × Option String → String → Option String → Memory
  memory_of c scope uuid current = record {
    memory_uuid = uuid;
    canonical_key = canonical_key_for_candidate env.lower c;
    memory_type = c.candidate_type;
    scope_type = scope.0;
    scope_uuid = scope.1;
    current_version_uuid = current;
    sensitivity_class = c.sensitivity_class;
  }

  -- The version of a new memory, and the store with both.
  abbrev pub first_version : MemoryCandidate → ConsolidationOperation → Store → MemoryVersion
  first_version c op s =
      version_of c (env.new_uuid (suc s.drawn)) (env.new_uuid s.drawn) 1 op (env.utc_now s.readings)

  abbrev pub added :
      MemoryCandidate → ScopeType × Option String → ConsolidationOperation → Store → Store
  added c scope op s = record s {
    memories =
        insert_row (memory_of c scope (env.new_uuid s.drawn) (some (env.new_uuid (suc s.drawn))))
          s.memories;
    versions = insert_row (first_version c op s) s.versions;
    drawn = suc (suc s.drawn);
    readings = suc s.readings;
  }

  -- A version after the current one `v`, and the store with it.
  abbrev pub next_version :
      MemoryCandidate → String → MemoryVersion → ConsolidationOperation → Store → MemoryVersion
  next_version c memory_uuid v op s =
      version_of c (env.new_uuid s.drawn) memory_uuid (v.version_number + 1) op
        (env.utc_now s.readings)

  abbrev pub close_at : String → MemoryVersion → MemoryVersion
  close_at now w = record w { transaction_until = some now }

  abbrev pub superseded :
      MemoryCandidate → String → String → MemoryVersion → ConsolidationOperation → Store → Store
  superseded c memory_uuid current v op s = record s {
    memories =
        update_rows (is_memory memory_uuid)
          (λ (m : Memory). record m { current_version_uuid = some (env.new_uuid s.drawn) })
          s.memories;
    versions =
        insert_row (next_version c memory_uuid v op s)
          (update_rows (is_version current) (close_at (env.utc_now (suc s.readings))) s.versions);
    drawn = suc s.drawn;
    readings = suc (suc s.readings);
  }

  module _ (fresh : DrawsFresh env) where
    pub create_memory_lem :
        (c : MemoryCandidate) (es : List CandidateEvidence) (scope : ScopeType × Option String)
        (r : Resolution) (s : Store)
        → AllOld env (λ (m : Memory). m.memory_uuid) s.drawn s.memories
        → AllOld env (λ (v : MemoryVersion). v.memory_version_uuid) s.drawn s.versions
        → AllOld env (λ (v : MemoryVersion). v.memory_uuid) s.drawn s.versions
        → find_row (in_place scope.0 scope.1 (canonical_key_for_candidate env.lower c)) s.memories
          ≡ none
        → All (IsSourced s.decisions) s.versions
        → IsReady env fresh c.candidate_uuid es (added c scope r.operation s)
        → create_memory env c es scope r s
          ≡ ok
              (decision_of env fresh
                (suc (suc s.drawn))
                c.candidate_uuid
                r.operation
                r.reason_codes
                (some (env.new_uuid s.drawn))
                (some (env.new_uuid (suc s.drawn))))
              (changed env fresh
                (env.new_uuid s.drawn)
                (env.new_uuid (suc s.drawn))
                c.candidate_uuid
                r.reason_codes
                r.operation
                es
                (added c scope r.operation s))
    unfolding create_memory
    create_memory_lem c es scope r s old_m old_v old_o place sourced ready =
        let m = memory_of c scope (env.new_uuid s.drawn) none in
        let v = first_version c r.operation s in
        let s0 : Store = record s { drawn = suc (suc s.drawn); readings = suc s.readings } in
        let s1 : Store = record s0 { memories = insert_row m s.memories } in
        let a =
          insert_memory_lem m s0
            (unused env fresh (λ (x : Memory). x.memory_uuid) s.drawn s.memories old_m)
            (place_is_free m s.memories (
              any_of_none (in_place scope.0 scope.1 (canonical_key_for_candidate env.lower c))
                s.memories place)) in
        let uuid_free = any_of_All (is_version v.memory_version_uuid) s.versions (
          fresh_rows env fresh (λ (x : MemoryVersion). x.memory_version_uuid) s.drawn (suc s.drawn)
            s.versions (omega arith) old_v) in
        let number_free =
          any_weaker (is_of_memory v.memory_uuid) (has_number v) s.versions (λ w k. rw k)
            (unused env fresh (λ (x : MemoryVersion). x.memory_uuid) s.drawn s.versions old_o) in
        let source_free =
          source_is_free c.candidate_uuid v s.decisions s.versions refl ready.undecided sourced in
        let b = insert_version_lem v s1 uuid_free number_free source_free in
        let d =
          record_change_lem env fresh m.memory_uuid v.memory_version_uuid c.candidate_uuid
            r.reason_codes r.operation es (added c scope r.operation s) ready in
        let current_set =
          update_insert (is_memory m.memory_uuid)
            (λ (x : Memory). record x { current_version_uuid = some v.memory_version_uuid }) m
            s.memories
            (fresh_rows env fresh (λ (x : Memory). x.memory_uuid) s.drawn s.drawn s.memories
              (omega arith) old_m)
            ((eq_iff m.memory_uuid m.memory_uuid).1 refl) in
        rw (a, ◌>>=◌) (rw (b, ◌>>=◌) (rw current_set d))

    pub create_version_lem :
        (c : MemoryCandidate) (es : List CandidateEvidence) (m : Memory) (current : String)
        (v : MemoryVersion) (r : Resolution) (s : Store)
        → AllOld env (λ (v : MemoryVersion). v.memory_version_uuid) s.drawn s.versions
        → All (IsSourced s.decisions) s.versions
        → All
            (λ (w : MemoryVersion).
              is_of_memory m.memory_uuid w ≡ true → w.version_number ≤ v.version_number)
            s.versions
        → m.current_version_uuid ≡ some current
        → is_supersede r.operation ≡ true
        → IsReady env fresh c.candidate_uuid es (superseded c m.memory_uuid current v r.operation s)
        → create_version env c es m (some v) r s
          ≡ ok
              (decision_of env fresh
                (suc s.drawn)
                c.candidate_uuid
                r.operation
                r.reason_codes
                (some m.memory_uuid)
                (some (env.new_uuid s.drawn)))
              (changed env fresh m.memory_uuid
                (env.new_uuid s.drawn)
                c.candidate_uuid
                r.reason_codes
                r.operation
                es
                (superseded c m.memory_uuid current v r.operation s))
    unfolding create_version
    create_version_lem c es m current v r s old_v sourced below named op ready =
        let new = next_version c m.memory_uuid v r.operation s in
        let close = close_at (env.utc_now (suc s.readings)) in
        let closed = update_rows (is_version current) close s.versions in
        let s1 : Store = record s {
          versions = closed;
          drawn = suc s.drawn;
          readings = suc (suc s.readings);
        } in
        let old_closed =
          All-update (λ (w : MemoryVersion). IsOld env s.drawn w.memory_version_uuid)
            (is_version current) close s.versions (λ w k _. k) old_v in
        let uuid_free =
          unused env fresh (λ (x : MemoryVersion). x.memory_version_uuid) s.drawn closed
            old_closed in
        let number_free = any_of_All (has_number new) closed (
          All-updated
            (λ (w : MemoryVersion).
              is_of_memory m.memory_uuid w ≡ true → w.version_number ≤ v.version_number)
            (λ (w : MemoryVersion). has_number new w ≡ false) (is_version current) close s.versions
            (λ w k _. number_after m.memory_uuid v.version_number w k)
            (λ w k _. number_after m.memory_uuid v.version_number w k) below) in
        let source_free =
          source_is_free c.candidate_uuid new s.decisions closed refl ready.undecided (
            All-update (IsSourced s.decisions) (is_version current) close s.versions (λ w k _. k)
              sourced) in
        let b = insert_version_lem new s1 uuid_free number_free source_free in
        let d =
          record_change_lem env fresh m.memory_uuid new.memory_version_uuid c.candidate_uuid
            r.reason_codes r.operation es (superseded c m.memory_uuid current v r.operation s)
            ready in
        simp (op, named) (rw (b, ◌>>=◌) d)
