-- ===== src/Gate/Creation.antt =====
-- When the gate and the routes of a unit let it become a candidate.
use open_webui_memorist_edit.Prelude.{
  ◌≡◌, refl, sym, ◌∙◌, ◌↔◌, inl, inr, Bool, true, false, not, ◌&&◌, ◌||◌, Option, none, some, List,
  [], ◌∷◌, ◌++◌, any, All, Bool-cases, arith, &&-left, &&-right, String, str_eq,
}
use open_webui_memorist_edit.Prelude.Sorting.{sort_by, IsSorted, sort_by-IsSorted, any-sort_by}
use open_webui_memorist_edit.Prelude.Texts.{codes}
use open_webui_memorist_edit.Coverage.Contracts.{
  RouteType, Role, user, assistant, tool, system, CandidateStatus,
}
use open_webui_memorist_edit.Coverage.Mapping.{candidate_mapping_for_route}
use open_webui_memorist_edit.Coverage.Provenance.{
  decide_candidate_provenance, is_factual_tool_route, is_system_directive_route, is_review_route,
  is_assistant_artifact_route,
}
use open_webui_memorist_edit.Gate.Drafts.{UnitSource, route_allows, creates_candidates}
use open_webui_memorist_edit.Gate.{
  strong_tests, codes_where, sensitive_mention, assistant_claim_not_user_fact, tool_observation,
  Text, GateResult, ReasonCode, is_no_memory_signal, is_high_confidence, code_if, contains_any,
  strong_signals, sensitive_terms, is_tool, is_assistant, is_forget_request, is_phatic,
  lowered_text, strong_reason_codes, reasons_of, result_from_reasons, decide, evaluate,
}
use open_webui_memorist_edit.Gate.Routes.{
  CanonicalRouteReference, is_ready, is_ignore, prefer, by_priority, route_leb, first_route,
  select_authoritative_route, gate_allows_candidate_creation, candidate_policy_for_gate_and_route,
  policy_for, is_nil, route_reasons, RouteStatus, ready, ignored, pending, failed,
}

-- A route that does not block candidates.
abbrev pub usable : CanonicalRouteReference → Bool
usable r = is_ready r.route_status && not (is_ignore r.route_type)

-- The first of two routes is usable if the other one is.
abbrev Better : CanonicalRouteReference → CanonicalRouteReference → Type 0
Better a b = usable b ≡ true → usable a ≡ true

preferred :
    (r s i j rest : Bool) → prefer r s (prefer i j rest) ≡ true → s && j ≡ true → r && i ≡ true
preferred r s i j rest h k = ground arith

deferred :
    (r s i j rest : Bool) → prefer r s (prefer i j rest) ≡ false → r && i ≡ true → s && j ≡ true
deferred r s i j rest h k = ground arith

IsSorted-routes :
    (routes : List CanonicalRouteReference) → IsSorted Better (sort_by route_leb routes)
IsSorted-routes routes =
    sort_by-IsSorted route_leb Better
      (λ a b h k.
        preferred (is_ready a.route_status) (is_ready b.route_status) (not (is_ignore a.route_type))
          (not (is_ignore b.route_type)) (by_priority a b) h k)
      (λ a b h k.
        deferred (is_ready a.route_status) (is_ready b.route_status) (not (is_ignore a.route_type))
          (not (is_ignore b.route_type)) (by_priority a b) h k)
      (λ a b c h k l. h (k l)) routes

none_usable :
    (r : CanonicalRouteReference) (rs : List CanonicalRouteReference)
    → All (Better r) rs
    → usable r ≡ false
    → any usable rs ≡ false
none_usable r [] h k = refl
none_usable r (s ∷ rs) h k = elim (Bool-cases (usable s)) [
  | inl e ↦ let k' = h.0 e in cc
  | inr e ↦ rw e (none_usable r rs h.1 k)
]

-- Whether the route that is selected is usable.
abbrev selected_usable : Option CanonicalRouteReference → Bool
selected_usable none = false
selected_usable (some r) = usable r

first-usable :
    (rs : List CanonicalRouteReference)
    → IsSorted Better rs
    → selected_usable (first_route rs) ≡ any usable rs
first-usable [] h = refl
first-usable (r ∷ rs) h = elim (Bool-cases (usable r)) [
  | inl e ↦ rw e
  | inr e ↦ rw e (sym (none_usable r rs h.0 e))
]

select-usable :
    (routes : List CanonicalRouteReference)
    → selected_usable (select_authoritative_route routes) ≡ any usable routes
unfolding select_authoritative_route
select-usable routes =
    first-usable (sort_by route_leb routes) (IsSorted-routes routes)
    ∙ any-sort_by route_leb usable routes

route_blocks :
    (b : Bool) (type : RouteType) (status : RouteStatus)
    → (b && is_nil (route_reasons (some type) (some status)))
      ≡ (b && (is_ready status && not (is_ignore type)))
route_blocks b type ready = ground arith
route_blocks b type pending = ground arith
route_blocks b type ignored = ground arith
route_blocks b type failed = ground arith

-- Which routes a message of a role may make candidates from: an imported record and the user and the
-- assistant from all, a tool from the factual ones, the system from directives.
abbrev pub speaks_for : Role → Bool → RouteType → Bool
speaks_for role true route = true
speaks_for user false route = true
speaks_for assistant false route = true
speaks_for tool false route = is_factual_tool_route route
speaks_for system false route = is_system_directive_route route

abbrev pub selected_speaks : UnitSource → Option CanonicalRouteReference → Bool
selected_speaks value none = false
selected_speaks value (some r) = speaks_for value.message_role value.imported_record r.route_type

provenance-speaks :
    (role : Role) (route : RouteType) (status : CandidateStatus) (imported : Bool)
    → (decide_candidate_provenance role route status imported).allows_candidate_creation
      ≡ speaks_for role imported route
unfolding decide_candidate_provenance
provenance-speaks role route status true = elim (Bool-cases (is_review_route route)) [
  | inl e ↦ simp e refl
  | inr e ↦ simp e refl
]
provenance-speaks user route status false = elim (Bool-cases (is_review_route route)) [
  | inl e ↦ simp e refl
  | inr e ↦ simp e refl
]
provenance-speaks assistant route status false = elim (Bool-cases (is_review_route route)) [
  | inl e ↦ elim (Bool-cases (is_assistant_artifact_route route)) [
    | inl f ↦ simp (e, f) refl
    | inr f ↦ simp (e, f) refl
  ]
  | inr e ↦ elim (Bool-cases (is_assistant_artifact_route route)) [
    | inl f ↦ simp (e, f) refl
    | inr f ↦ simp (e, f) refl
  ]
]
provenance-speaks tool route status false = elim (Bool-cases (is_review_route route)) [
  | inl e ↦ simp e refl
  | inr e ↦ simp e refl
]
provenance-speaks system route status false = elim (Bool-cases (is_review_route route)) [
  | inl e ↦ simp e refl
  | inr e ↦ simp e refl
]

route-speaks :
    (strip : String → String) (value : UnitSource) (r : CanonicalRouteReference)
    → route_allows strip value (some r) ≡ (
        not (is_ignore r.route_type || str_eq (strip value.unit_text) "")
        && selected_speaks value (some r))
unfolding candidate_mapping_for_route
route-speaks strip value r =
    elim (Bool-cases (is_ignore r.route_type || str_eq (strip value.unit_text) "")) [
      | inl e ↦ simp e refl
      | inr e ↦ simp e (provenance-speaks value.message_role r.route_type _ value.imported_record)
    ]

join_guards :
    (b is_set dropped empty speaks : Bool)
    → ((b && (is_set && not dropped)) && (not (dropped || empty) && speaks))
      ≡ ((b && (is_set && not dropped)) && (not empty && speaks))
join_guards b is_set dropped empty speaks = ground arith

policy-usable :
    (strip : String → String) (gate : GateResult) (value : UnitSource)
    (o : Option CanonicalRouteReference)
    → ((policy_for gate o).allows_candidate_creation && route_allows strip value o) ≡ (
        (gate_allows_candidate_creation (some gate.decision) && selected_usable o)
        && (not (str_eq (strip value.unit_text) "") && selected_speaks value o))
unfolding candidate_policy_for_gate_and_route
policy-usable strip gate value none = ground arith
policy-usable strip gate value (some r) =
    rw
      (
        route_blocks (gate_allows_candidate_creation (some gate.decision)) r.route_type
            r.route_status,
        route-speaks strip value r,
      )
      (join_guards (gate_allows_candidate_creation (some gate.decision)) (is_ready r.route_status)
        (is_ignore r.route_type) (str_eq (strip value.unit_text) "")
        (selected_speaks value (some r)))

result-allows :
    (codes : List ReasonCode) (sensitive : Bool)
    → gate_allows_candidate_creation (some (result_from_reasons codes sensitive).decision)
      ≡ (not (any is_no_memory_signal codes) && not sensitive)
result-allows codes true = elim (Bool-cases (any is_no_memory_signal codes)) [
  | inl e ↦ rw e
  | inr e ↦ rw e
]
result-allows codes false = elim (Bool-cases (any is_no_memory_signal codes)) [
  | inl e ↦ rw e
  | inr e ↦ elim (Bool-cases (any is_high_confidence codes)) [
    | inl h ↦ rw (e, h)
    | inr h ↦ rw (e, h)
  ]
]

-- Codes of which none is `no_memory_signal`.
quiet-codes_where :
    (tests : List (Bool × ReasonCode)) (rest : List ReasonCode)
    → All (λ (p : Bool × ReasonCode). is_no_memory_signal p.1 ≡ false) tests
    → any is_no_memory_signal (codes_where tests ++ rest) ≡ any is_no_memory_signal rest
quiet-codes_where [] rest h = refl
quiet-codes_where ((true, c) ∷ tests) rest h = rw (h.0) (quiet-codes_where tests rest h.1)
quiet-codes_where ((false, c) ∷ tests) rest h = quiet-codes_where tests rest h.1

-- The codes of a strong signal do not say that there is no signal.
quiet-strong :
    (text : Text) (rest : List ReasonCode)
    → any is_no_memory_signal (strong_reason_codes text ++ rest) ≡ any is_no_memory_signal rest
quiet-strong text rest =
    quiet-codes_where (strong_tests text) rest (refl, (refl, (refl, (refl, (refl, (refl, tt))))))

quiet_rest :
    (sensitive : Bool) (role : Role)
    → any is_no_memory_signal (
        code_if sensitive sensitive_mention
        ++ (code_if (is_assistant role && true) assistant_claim_not_user_fact
            ++ code_if (is_tool role) tool_observation))
      ≡ false
quiet_rest true user = refl
quiet_rest true assistant = refl
quiet_rest true tool = refl
quiet_rest true system = refl
quiet_rest false user = refl
quiet_rest false assistant = refl
quiet_rest false tool = refl
quiet_rest false system = refl

strong-quiet :
    (text : Text) (phatic sensitive : Bool) (role : Role)
    → any is_no_memory_signal (reasons_of text phatic true sensitive role) ≡ false
strong-quiet text true sensitive role = quiet-strong text _ ∙ quiet_rest sensitive role
strong-quiet text false sensitive role = quiet-strong text _ ∙ quiet_rest sensitive role

strong_case : (sensitive : Bool) → (not false && not sensitive) ≡ (not sensitive && true)
strong_case true = refl
strong_case false = refl

decide-allows :
    (text : Text) (forget phatic strong sensitive : Bool) (role : Role)
    → gate_allows_candidate_creation
        (some (decide text forget phatic strong sensitive role).0.decision)
      ≡ (not forget && (not sensitive && (strong || is_tool role && not phatic)))
decide-allows text true phatic strong sensitive role = refl
decide-allows text false true false true role = refl
decide-allows text false true false false user = refl
decide-allows text false true false false assistant = refl
decide-allows text false true false false tool = refl
decide-allows text false true false false system = refl
decide-allows text false false false true user = refl
decide-allows text false false false true assistant = refl
decide-allows text false false false true tool = refl
decide-allows text false false false true system = refl
decide-allows text false false false false user = refl
decide-allows text false false false false assistant = refl
decide-allows text false false false false tool = refl
decide-allows text false false false false system = refl
decide-allows text false true true sensitive role =
    result-allows (reasons_of text true true sensitive role) sensitive
    ∙ rw (strong-quiet text true sensitive role) (strong_case sensitive)
decide-allows text false false true sensitive role =
    result-allows (reasons_of text false true sensitive role) sensitive
    ∙ rw (strong-quiet text false sensitive role) (strong_case sensitive)

-- A text that asks for nothing to be forgotten, has no sensitive term, and has a strong signal or is a
-- tool's and not phatic.
abbrev pub is_memorable : (Text → Text) → Text → Role → Bool
is_memorable lower text role =
    not (is_forget_request (lowered_text lower text))
    && (not (contains_any (lowered_text lower text) sensitive_terms)
        && (contains_any (lowered_text lower text) strong_signals
            || is_tool role && not (is_phatic lower (lowered_text lower text))))

-- Without a classifier, a unit with any text, role and routes gets a draft of a candidate exactly if
-- its text asks for nothing to be forgotten, has no sensitive term, and has a strong signal or is a
-- tool's and not phatic, one of its routes is ready and is not an ignore route, its stripped text is
-- not empty, and the route that is selected is one that its role may speak for: any for an imported
-- record, the user and the assistant, a factual one for a tool, a directive for the system.
pub creates_candidates_iff :
    (lower : Text → Text) (strip : String → String) (value : UnitSource)
    (routes : List CanonicalRouteReference)
    → (creates_candidates strip
          (evaluate lower none (codes value.unit_text) value.message_role)
          value
          routes
        ≡ true)
      ↔ ((is_memorable lower (codes value.unit_text) value.message_role ≡ true)
          × (any usable routes ≡ true)
          × (str_eq (strip value.unit_text) "" ≡ false)
          × (selected_speaks value (select_authoritative_route routes) ≡ true))
unfolding evaluate
creates_candidates_iff lower strip value routes =
    let text = codes value.unit_text in
    let role = value.message_role in
    let lowered = lowered_text lower text in
    let memorable = is_memorable lower text role in
    let speaks = selected_speaks value (select_authoritative_route routes) in
    let filled = not (str_eq (strip value.unit_text) "") in
    let same : creates_candidates strip (evaluate lower none text role) value routes
        ≡ ((memorable && any usable routes) && (filled && speaks)) =
      policy-usable strip (evaluate lower none text role) value (select_authoritative_route routes)
      ∙ rw
          (
            select-usable routes,
            decide-allows lowered (is_forget_request lowered) (is_phatic lower lowered)
                (contains_any lowered strong_signals) (contains_any lowered sensitive_terms) role,
          )
          refl in
    (
      λ h.
          let k = sym same ∙ h in
          let front = &&-left (memorable && any usable routes) (filled && speaks) k in
          let back = &&-right (memorable && any usable routes) (filled && speaks) k in
          (
            &&-left memorable (any usable routes) front,
            &&-right memorable (any usable routes) front,
            not_true (str_eq (strip value.unit_text) "") (&&-left filled speaks back),
            &&-right filled speaks back,
          ),
      λ h. same ∙ all_four h.0 h.1 h.2 h.3,
    )
  where
    not_true : (b : Bool) → not b ≡ true → b ≡ false
    not_true b h = ground arith

    all_four :
        {a b c d : Bool}
        → a ≡ true
        → b ≡ true
        → c ≡ false
        → d ≡ true
        → ((a && b) && (not c && d)) ≡ true
    all_four h k l m = rw (h, k, l, m) refl
