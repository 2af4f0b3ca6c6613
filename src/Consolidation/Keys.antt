-- ===== src/Consolidation/Keys.antt =====
-- canonical_keys.py: the key under which candidates about one matter share a memory. Texts are lists
-- of code points; str.lower is a parameter.
use open_webui_memorist_edit.Prelude.{
  ℕ, ◌≡◌, refl, Bool, true, false, ◌&&◌, ◌||◌, Option, none, some, List, [], ◌∷◌, ◌++◌, String, leb,
  ◌==◌, str_eq, if◌then◌else◌, filter_if, All, arith,
}
use open_webui_memorist_edit.Prelude.Texts.{codes, is_space, strip_space}
use open_webui_memorist_edit.Coverage.Contracts.{CandidateType}
use open_webui_memorist_edit.Consolidation.{MemoryCandidate}

abbrev pub type_value : CandidateType → String
type_value CandidateType.fact = "fact"
type_value CandidateType.preference = "preference"
type_value CandidateType.goal = "goal"
type_value CandidateType.constraint = "constraint"
type_value CandidateType.decision = "decision"
type_value CandidateType.instruction = "instruction"
type_value CandidateType.definition = "definition"
type_value CandidateType.episode = "episode"
type_value CandidateType.feedback = "feedback"
type_value CandidateType.relationship = "relationship"
type_value CandidateType.identity = "identity"
type_value CandidateType.style = "style"
type_value CandidateType.unresolved_question = "unresolved_question"

-- re.sub(r"\s+", "_", text): each run of white space is one underscore.
unfoldable pub join_words : Bool → List ℕ → List ℕ
join_words in_space [] = []
join_words in_space (c ∷ cs) =
    let rest = join_words (is_space c) cs in
    if is_space c then (if in_space then rest else b'_' ∷ rest) else c ∷ rest

-- [a-z0-9_\-\u0600-\u06ff]
abbrev pub is_key_code : ℕ → Bool
is_key_code c =
    leb b'a' c && leb c b'z'
    || leb b'0' c && leb c b'9'
    || c == b'_'
    || c == b'-'
    || leb 0x600 c && leb c 0x6ff

-- _slug
unfoldable pub slug : (List ℕ → List ℕ) → String → List ℕ
unfolding join_words
slug lower value = filter_if is_key_code (join_words false (lower (strip_space (codes value))))

-- `value or other`
abbrev pub or_text : Option String → String → String
or_text none other = other
or_text (some value) other = if str_eq value "" then other else value

unfoldable pub canonical_key_for_candidate : (List ℕ → List ℕ) → MemoryCandidate → List ℕ
unfolding slug
canonical_key_for_candidate lower c =
    codes (type_value c.candidate_type)
    ++ b':'
      ∷ (slug lower (or_text c.subject_key "unknown")
          ++ b':' ∷ slug lower (or_text c.predicate (type_value c.candidate_type)))

-- A character outside ASCII and outside the Arabic block: one of the Latin letters with accents, of
-- Greek, Cyrillic, Hebrew, Devanagari, Thai, Chinese, Japanese, Korean, and of all other scripts.
abbrev pub is_elsewhere : ℕ → Bool
is_elsewhere c = leb 0x80 c && leb c 0x5ff || leb 0x700 c

abbrev pub IsForeign : (List ℕ → List ℕ) → String → Type 0
IsForeign lower value =
    All (λ (c : ℕ). (is_elsewhere c ≡ true) × (is_space c ≡ false))
      (lower (strip_space (codes value)))

elsewhere-is_key_code : (c : ℕ) → is_elsewhere c ≡ true → is_key_code c ≡ false
elsewhere-is_key_code c h = ground arith

dropped :
    (in_space : Bool) (cs : List ℕ)
    → All (λ (c : ℕ). (is_elsewhere c ≡ true) × (is_space c ≡ false)) cs
    → filter_if is_key_code (join_words in_space cs) ≡ []
unfolding join_words
dropped in_space [] h = refl
dropped in_space (c ∷ cs) h =
    let k = elsewhere-is_key_code c h.0.0 in simp (h.0.1, k) (dropped false cs h.1)

subject_slug :
    (lower : List ℕ → List ℕ) (subject : Option String) (x : String)
    → subject ≡ some x
    → str_eq x "" ≡ false
    → IsForeign lower x
    → slug lower (or_text subject "unknown") ≡ []
unfolding slug
subject_slug lower subject x e some_x h =
    simp e (simp some_x (dropped false (lower (strip_space (codes x))) h))

-- Two candidates of one type and predicate whose subjects, stripped and lowered, are written without
-- white space in characters outside ASCII and the Arabic block (U+0080 to U+05FF, or from U+0700 on)
-- have one canonical key, whatever the two subjects are.
pub keys_collide :
    (lower : List ℕ → List ℕ) (a b : MemoryCandidate) (x y : String)
    → a.candidate_type ≡ b.candidate_type
    → a.predicate ≡ b.predicate
    → a.subject_key ≡ some x
    → b.subject_key ≡ some y
    → str_eq x "" ≡ false
    → str_eq y "" ≡ false
    → IsForeign lower x
    → IsForeign lower y
    → canonical_key_for_candidate lower a ≡ canonical_key_for_candidate lower b
unfolding canonical_key_for_candidate
keys_collide lower a b x y types predicates subject_a subject_b some_x some_y h k =
    let from_a = subject_slug lower a.subject_key x subject_a some_x h in
    let from_b = subject_slug lower b.subject_key y subject_b some_y k in
    simp (from_a, from_b, types, predicates) refl
