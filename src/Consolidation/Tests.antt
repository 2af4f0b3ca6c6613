-- ===== src/Consolidation/Tests.antt =====
-- A preference that a later message changes.

use open_webui_memorist_edit.Prelude.{
  ℕ, zero, suc, ◌≡◌, refl, ap, none, some, [], ◌∷◌, map, String, length, arith,
}
use open_webui_memorist_edit.Prelude.Texts.{lower_code, count_chars}
use open_webui_memorist_edit.Prelude.Rows.{find_row, update_rows}
use open_webui_memorist_edit.Coverage.Contracts.{ready_for_consolidation, Polarity, CandidateType}
use open_webui_memorist_edit.Consolidation.{
  ConsolidationOperation, SensitivityClass, MemoryCandidate, resolve,
}
use open_webui_memorist_edit.Consolidation.Keys.{canonical_key_for_candidate, keys_collide}
use open_webui_memorist_edit.Consolidation.Store.{
  Environment, ScopeType, CandidateEvidence, OutboxStatus, Session, Store, ok,
}
use open_webui_memorist_edit.Consolidation.Consolidator.{consolidate_candidate}
use open_webui_memorist_edit.Consolidation.Outbox.{
  consolidate, mark_succeeded, mark_retry, run_store_calls,
}
use open_webui_memorist_edit.Consolidation.Writes.{DrawsFresh, decision_of}
use open_webui_memorist_edit.Consolidation.Sound.{IsSound}
use open_webui_memorist_edit.Consolidation.Invariant.{Ends, Explains, IsConsolidated}
use open_webui_memorist_edit.Consolidation.Calls.{consolidate_candidate-Ends}
use open_webui_memorist_edit.Consolidation.Runs.{run_store_calls-IsKept, consolidated_once}
use open_webui_memorist_edit.Consolidation.Effect.{claim_at, revise, consolidate_candidate-revise}
use open_webui_memorist_edit.Consolidation.Projection.{supersedes_unheard}

abbrev coffee : MemoryCandidate
coffee = record {
  candidate_uuid = "c1";
  text_unit_uuid = "u1";
  candidate_type = CandidateType.preference;
  subject_key = some "Drinks";
  predicate = some "preference";
  object_ijson = none;
  normalized_text = "likes coffee";
  polarity = Polarity.affirmed;
  valid_from = none;
  valid_until = none;
  status = ready_for_consolidation;
  sensitivity_class = SensitivityClass.normal;
  rejection_reason_codes_ijson = none;
}

-- The same matter at other times, and matters whose names no key keeps: "Лёд" and "Чай".
abbrev tea : MemoryCandidate
tea = record coffee { candidate_uuid = "c0"; normalized_text = "likes tea" }

abbrev cocoa : MemoryCandidate
cocoa = record coffee { candidate_uuid = "c2"; normalized_text = "likes cocoa" }

abbrev no_tea : MemoryCandidate
no_tea = record coffee {
  candidate_uuid = "c3";
  normalized_text = "does not like tea";
  polarity = Polarity.negated;
}

abbrev ice : MemoryCandidate
ice = record coffee { subject_key = some "Лёд" }

abbrev hot_tea : MemoryCandidate
hot_tea = record coffee { subject_key = some "Чай" }

abbrev numbered : ℕ → String
numbered zero = "u"
numbered (suc n) = String.◌∷◌ "u" (numbered n)

abbrev pub env : Environment
env = record { new_uuid = numbered; utc_now = numbered; lower = map lower_code }

count_chars-numbered : (n : ℕ) → count_chars (numbered n) ≡ suc n
unfolding count_chars
count_chars-numbered zero = refl
count_chars-numbered (suc n) = omega (arith, count_chars-numbered n)

pub fresh : DrawsFresh env
fresh a b h =
    let k = ap count_chars h in omega (arith, count_chars-numbered a, count_chars-numbered b)

abbrev evidence_for : String → String → CandidateEvidence
evidence_for uuid candidate = record {
  evidence_uuid = uuid;
  candidate_uuid = candidate;
  evidence_text = "I like it";
}

abbrev talk : Session
talk = record { session_uuid = "s1"; workspace_uuid = none; project_uuid = some "p1" }

abbrev pub start : Store
start = record {
  memories = [];
  versions = [];
  decisions = [];
  links = [];
  outbox = [];
  candidates = tea ∷ coffee ∷ cocoa ∷ no_tea ∷ [];
  evidence =
      evidence_for "e0" "c0"
      ∷ evidence_for "e1" "c1"
      ∷ evidence_for "e2" "c2"
      ∷ evidence_for "e3" "c3"
      ∷ [];
  text_units = record { text_unit_uuid = "u1"; session_uuid = "s1" } ∷ [];
  sessions = talk ∷ [];
  drawn = 0;
  readings = 0;
}

pub start-IsSound : IsSound env start
start-IsSound = record {
  stored = record { old_memories = tt; old_versions = tt; old_owners = tt; current = tt };
  recorded = record {
    old_decisions = tt;
    old_links = tt;
    old_outbox = tt;
    spent = (tt, (tt, (tt, (tt, tt))));
    apart = ((refl, (refl, (refl, tt))), ((refl, (refl, tt)), ((refl, tt), (tt, tt))));
    untargeted = tt;
  };
  sourced = tt;
  supported = tt;
  projected = tt;
}

-- After tea was added, and after coffee superseded it.
abbrev one : Store
one = run_store_calls env (consolidate "c0" ∷ []) start

abbrev two : Store
two = run_store_calls env (consolidate "c0" ∷ consolidate "c1" ∷ []) start

consolidate_candidate-Ends_example :
    Ends (IsConsolidated env "c2" two) (Explains "c2" two) (consolidate_candidate env "c2" two)
consolidate_candidate-Ends_example =
    consolidate_candidate-Ends env fresh "c2" two
      (run_store_calls-IsKept env fresh (consolidate "c0" ∷ consolidate "c1" ∷ []) start
        start-IsSound).sound

one-IsSound : IsSound env one
one-IsSound = (run_store_calls-IsKept env fresh (consolidate "c0" ∷ []) start start-IsSound).sound

two-IsSound : IsSound env two
two-IsSound =
    (run_store_calls-IsKept env fresh (consolidate "c0" ∷ consolidate "c1" ∷ []) start
      start-IsSound).sound

consolidate_candidate-revise_example :
    claim_at ScopeType.project (some "p1") (canonical_key_for_candidate env.lower coffee) two
    ≡ revise coffee
        (claim_at ScopeType.project (some "p1") (canonical_key_for_candidate env.lower coffee) one)
unfolding run_store_calls find_row resolve update_rows canonical_key_for_candidate
consolidate_candidate-revise_example =
    consolidate_candidate-revise env fresh "c1" coffee talk (evidence_for "e1" "c1") [] one two _
      one-IsSound refl refl refl refl refl

consolidated_once_example :
    consolidate_candidate env "c0"
      (run_store_calls env (consolidate "c1" ∷ mark_succeeded (numbered 4) ∷ []) one)
    ≡ ok
        (decision_of env fresh 2 "c0" ConsolidationOperation.add
          ("no_existing_memory" ∷ [])
          (some "u")
          (some "uu"))
        (run_store_calls env (consolidate "c1" ∷ mark_succeeded (numbered 4) ∷ []) one)
unfolding run_store_calls find_row resolve
consolidated_once_example =
    consolidated_once env fresh "c0" (consolidate "c1" ∷ mark_succeeded (numbered 4) ∷ []) start one
      _ start-IsSound refl

-- The row for coffee, as the projection marks it: once in vain, and then as done.
abbrev heard : Store
heard =
    run_store_calls env (mark_retry (numbered 8) "offline" ∷ mark_succeeded (numbered 8) ∷ []) two

heard_status :
    map {B = String × OutboxStatus × ℕ} (λ o. (o.operation, o.status, o.attempts)) heard.outbox
    ≡ ("ADD", OutboxStatus.pending, 0) ∷ ("SUPERSEDE", OutboxStatus.succeeded, 1) ∷ []
unfolding run_store_calls find_row resolve update_rows canonical_key_for_candidate
heard_status = refl

heard-IsSound : IsSound env heard
heard-IsSound =
    (run_store_calls-IsKept env fresh
      (mark_retry (numbered 8) "offline" ∷ mark_succeeded (numbered 8) ∷ []) two two-IsSound).sound

supersedes_unheard_example :
    ((run_store_calls env (consolidate "c2" ∷ []) heard).outbox ≡ heard.outbox)
    × (length (run_store_calls env (consolidate "c2" ∷ []) heard).versions
        ≡ suc (length heard.versions))
unfolding run_store_calls find_row resolve update_rows canonical_key_for_candidate
supersedes_unheard_example =
    supersedes_unheard env fresh "c2" cocoa talk (evidence_for "e2" "c2") [] _ _ _ heard
      (run_store_calls env (consolidate "c2" ∷ []) heard) _ heard-IsSound refl refl refl refl refl
      refl refl refl refl

keys_collide_example :
    canonical_key_for_candidate env.lower ice ≡ canonical_key_for_candidate env.lower hot_tea
keys_collide_example =
    keys_collide env.lower ice hot_tea "Лёд" "Чай" refl refl refl refl refl refl
      ((refl, refl), ((refl, refl), ((refl, refl), tt)))
      ((refl, refl), ((refl, refl), ((refl, refl), tt)))
