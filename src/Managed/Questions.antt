-- ===== src/Managed/Questions.antt =====
-- What `_validate_required_questions` of shared/plan_validation.py finds.
use mathlib.Core.List.{Memᴰ}
use mathlib.Core.List.Memᴰ.{head, tail}
use defined_quant_components.Common.{
  Bool, true, false, none, some, List, [], ◌∷◌, ◌++◌, Result, ok, err, ◌>>=◌, ◌≡◌, refl, sym,
  if◌then◌else◌, >>=-eq-ok, Bool-cases, Option-cases, inl, inr, arith, All, &&-eq-true,
}
use defined_quant_components.Utf8.{Text, Bytes}
use defined_quant_components.Canonical.{Value, canonical_json_bytes}
use defined_quant_components.Managed.Json.{Text-discrete, same, same→eq}
use defined_quant_components.Managed.Plan.{
  AnalysisPlan, ResolvedQuestion, QuestionVerificationStatus, caller_confirmed, unverified,
}
use defined_quant_components.Managed.Records.{ValidationIssueCode, ClarificationQuestion}
use defined_quant_components.Managed.Validation.{
  Stop, canonically, RawQuestion, RawQuestions, questions, not_list, contract_questions,
  all_declared, resolution, asks, is_confirmed, input_value, Answer, confirmed, missing, absent,
  mismatched, same_canonical, answer_to, blocked_at,
}
use defined_quant_components.Managed.Validate.{
  scan_questions, validate_required_questions, listed, require, or_blocked,
}
use defined_quant_components.Managed.Stops.{
  canonically-eq-ok, blocked_at-not-ok, require-eq-ok, or_blocked-eq-ok, ask_lacking-eq-ok,
}

-- The plan answers the question: a confirmed resolution of it, whose answer is in the input, as the
-- canonical encoding tells values apart.
pub record Answered (plan : AnalysisPlan) (q : ClarificationQuestion) : Type 0 where
  pub by : ResolvedQuestion
  pub listed : Memᴰ by plan.resolved_questions
  pub id : q.question_id ≡ by.question_id
  pub field : q.target_field ≡ by.target_field
  pub status : by.verification_status ≡ caller_confirmed
  pub value : Value
  pub supplied : input_value plan.step.dataset.input q.target_field ≡ some value
  pub bytes : Bytes
  pub input_bytes : canonical_json_bytes value ≡ ok bytes
  pub answer_bytes : canonical_json_bytes by.answer ≡ ok bytes

resolution-eq-some :
    (rs : List ResolvedQuestion) (q : ClarificationQuestion) (r : ResolvedQuestion)
    → resolution rs q ≡ some r
    → Memᴰ r rs × (asks q r ≡ true)
unfolding resolution
resolution-eq-some [] q r h = cc
resolution-eq-some (x ∷ xs) q r h = elim (Option-cases (resolution xs q)) [
  | inl e ↦ elim (Bool-cases (asks q x)) [
    | inl y ↦ (let same_one : x ≡ r = ground arith in (head (sym same_one), ground arith))
    | inr n ↦ ground arith
  ]
  | inr (y, e) ↦
      let later : resolution xs q ≡ some r = ground arith in
      let (place, pair) = resolution-eq-some xs q r later in (tail place, pair)
]

same_canonical-eq-ok :
    (v w : Value)
    → same_canonical v w ≡ ok true
    → (b : Bytes) × (canonical_json_bytes v ≡ ok b) × (canonical_json_bytes w ≡ ok b)
unfolding same_canonical
same_canonical-eq-ok v w h =
    let (a, ea, ha) = >>=-eq-ok (canonically (canonical_json_bytes v)) _ h in
    let (b, eb, hb) =
      >>=-eq-ok (canonically (canonical_json_bytes w)) (λ b. ok (same Text-discrete a b)) ha in
    let left = canonically-eq-ok (canonical_json_bytes v) ea in
    let right = canonically-eq-ok (canonical_json_bytes w) eb in
    let equal = same→eq Text-discrete a b (cc hb) in (a, left, cc (right, equal))

is_confirmed-eq : (s : QuestionVerificationStatus) → is_confirmed s ≡ true → s ≡ caller_confirmed
is_confirmed-eq unverified h = cc
is_confirmed-eq caller_confirmed h = refl

append-cons : (l : List ClarificationQuestion) (q : ClarificationQuestion) → ¬ (l ++ q ∷ [] ≡ [])
append-cons [] q h = cc
append-cons (x ∷ l) q h = cc

confirmed-same :
    (m : Result Stop Bool)
    → (m >>= λ (b : Bool). ok (if b then confirmed else mismatched)) ≡ ok confirmed
    → m ≡ ok true
confirmed-same (ok true) h = refl
confirmed-same (ok false) h = cc
confirmed-same (err e) h = cc

answer_to-confirmed :
    (plan : AnalysisPlan) (q : ClarificationQuestion)
    → answer_to plan q ≡ ok confirmed
    → Answered plan q
unfolding answer_to
answer_to-confirmed plan q h = elim (Option-cases (resolution plan.resolved_questions q)) [
  | inl e ↦ ground arith
  | inr (r, e) ↦ elim (Option-cases (input_value plan.step.dataset.input q.target_field)) [
    | inl f ↦ ground arith
    | inr (v, f) ↦
        let checked : is_confirmed r.verification_status ≡ true = ground arith in
        let equal : same_canonical v r.answer ≡ ok true =
          confirmed-same (same_canonical v r.answer) (ground arith) in
        let (place, pair) = resolution-eq-some plan.resolved_questions q r e in
        let (b, left, right) = same_canonical-eq-ok v r.answer equal in
        let (ids, fields) =
          &&-eq-true (same Text-discrete q.question_id r.question_id)
            (same Text-discrete q.target_field r.target_field) pair in
        record {
          by = r;
          listed = place;
          id = same→eq Text-discrete _ _ ids;
          field = same→eq Text-discrete _ _ fields;
          status = is_confirmed-eq r.verification_status checked;
          value = v;
          supplied = f;
          bytes = b;
          input_bytes = left;
          answer_bytes = right;
        }
  ]
]

scan_questions-eq-nil :
    (sha256 : Bytes → Text) (plan : AnalysisPlan) (qs lacking : List ClarificationQuestion)
    → scan_questions sha256 plan qs lacking ≡ ok []
    → (lacking ≡ []) × All (Answered plan) qs
unfolding scan_questions
scan_questions-eq-nil sha256 plan [] lacking h = (cc, tt)
scan_questions-eq-nil sha256 plan (q ∷ qs) lacking h =
    let (a, ea, rest) = >>=-eq-ok (answer_to plan q) _ h in
    go a ea (λ l. scan_questions-eq-nil sha256 plan qs l) rest
  where
    go :
        (a : Answer)
        → answer_to plan q ≡ ok a
        → ((l : List ClarificationQuestion)
            → scan_questions sha256 plan qs l ≡ ok []
            → (l ≡ []) × All (Answered plan) qs)
        → (elim a as (λ _. Result Stop (List ClarificationQuestion)) [
          | confirmed ↦ scan_questions sha256 plan qs lacking
          | missing ↦ scan_questions sha256 plan qs (lacking ++ q ∷ [])
          | absent ↦
              blocked_at sha256 plan ValidationIssueCode.plan_resolved_question_mismatch
                (some q.target_field)
          | mismatched ↦
              blocked_at sha256 plan ValidationIssueCode.plan_resolved_question_mismatch
                (some q.target_field)
        ])
          ≡ ok []
        → (lacking ≡ []) × (Answered plan q × All (Answered plan) qs)
    go confirmed e later h =
        let (none_lack, others) = later lacking h in
        (none_lack, (answer_to-confirmed plan q e, others))
    go missing e later h =
        let (none_lack, others) = later (lacking ++ q ∷ []) h in
        absurd (append-cons lacking q none_lack)
    go absent e later h = absurd (blocked_at-not-ok sha256 plan _ _ h)
    go mismatched e later h = absurd (blocked_at-not-ok sha256 plan _ _ h)

-- Required questions pass only if the contract's questions are well formed, the plan resolves none
-- but these, and answers each of them.
pub validate_required_questions-eq-ok :
    (sha256 : Bytes → Text) (plan : AnalysisPlan) (raws : RawQuestions)
    → validate_required_questions sha256 plan raws ≡ ok tt
    → (rs : List RawQuestion) × (qs : List ClarificationQuestion) × (raws ≡ questions rs)
      × (contract_questions rs ≡ some qs)
      × (all_declared qs plan.resolved_questions ≡ true)
      × All (Answered plan) qs
unfolding validate_required_questions
validate_required_questions-eq-ok sha256 plan raws h =
    let (rs, er, hr) =
      >>=-eq-ok
        (or_blocked sha256 plan (listed sha256 plan raws)
          ValidationIssueCode.component_contract_error none)
        _ h in
    let (qs, eq, hq) =
      >>=-eq-ok
        (or_blocked sha256 plan (contract_questions rs) ValidationIssueCode.component_contract_error
          none)
        _ hr in
    let (u, declared, hu) =
      >>=-eq-ok
        (require sha256 plan (all_declared qs plan.resolved_questions)
          ValidationIssueCode.plan_resolved_question_mismatch none)
        _ hq in
    let (lacking, el, hl) = >>=-eq-ok (scan_questions sha256 plan qs []) _ hu in
    let nothing = ask_lacking-eq-ok sha256 plan lacking hl in
    let (e, answered) = scan_questions-eq-nil sha256 plan qs [] (cc (el, nothing)) in
    (
      rs,
      qs,
      listed-eq-some raws (or_blocked-eq-ok sha256 plan _ _ _ er),
      or_blocked-eq-ok sha256 plan _ _ _ eq,
      require-eq-ok sha256 plan _ _ _ declared,
      answered,
    )
  where
    listed-eq-some :
        (raws : RawQuestions) {rs : List RawQuestion}
        → listed sha256 plan raws ≡ some rs
        → raws ≡ questions rs
    listed-eq-some not_list h = cc
    listed-eq-some (questions l) h = cc
