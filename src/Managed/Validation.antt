-- ===== src/Managed/Validation.antt =====
-- `validate_plan` of shared/plan_validation.py. The catalog, the installed policies, the component's
-- input model and its constraints are other parts of the program: the interface `Catalog`.
use defined_quant_components.Common.{
  Bool, true, false, ◌&&◌, ◌||◌, Option, none, some, List, [], ◌∷◌, Result, ok, err, ◌>>=◌,
  if◌then◌else◌, leb, length,
}
use defined_quant_components.Utf8.{Text, Bytes}
use defined_quant_components.Canonical.{Value, canonical_json_bytes}
use defined_quant_components.Canonical.Number.{CanonicalError}
use defined_quant_components.Managed.Json.{Text-discrete, same, is_safe_id}
use defined_quant_components.Managed.Policy.{ExecutionPolicy}
use defined_quant_components.Managed.Plan.{
  AnalysisPlan, ResolvedQuestion, QuestionVerificationStatus, unverified, caller_confirmed,
  plan_hash,
}
use defined_quant_components.Managed.Records.{
  ValidationIssueCode, ClarificationQuestion, ValidationFailure, blocked,
}

-- The exceptions that leave `validate_plan` or `create_authorization_binding`: of the canonical
-- encoding, of a record that its model refuses, those of `preflight` that are not caught, and the
-- ValueError of a binding whose parts do not belong together.
pub data Raised : Type 0 where
  not_canonical : CanonicalError → Raised
  invalid_record : Raised
  escaped : Raised
  unbound : Raised

-- How a check ends early: with an exception, or with the failure that `validate_plan` returns.
pub data Stop : Type 0 where
  raise : Raised → Stop
  refuse : ValidationFailure → Stop

abbrev pub canonically : {A : Type 0} → Result CanonicalError A → Result Stop A
canonically (ok a) = ok a
canonically (err e) = err (raise (not_canonical e))

-- One entry of a contract's questions: each text, where it is one, or an entry that is no object.
pub data RawQuestion : Type 0 where
  raw : (id target prompt materiality : Option Text) → RawQuestion
  not_mapping : RawQuestion

pub data RawQuestions : Type 0 where
  questions : List RawQuestion → RawQuestions
  not_list : RawQuestions

-- How the input model takes the bound input, and how `preflight` ends.
pub data InputCheck (V : Type 0) : Type 0 where
  accepted : V → InputCheck V
  invalid : InputCheck V
  unavailable : InputCheck V

pub data Preflight : Type 0 where
  passed not_evaluated domain_error contract_broken raised_other : Preflight
  ambiguous : RawQuestions → Preflight

-- What validation asks of the rest of the program.
pub record Catalog : Type 1 where
  pub Record : Type 0
  pub Validated : Type 0
  -- `load_execution_policy`; `none` where it raises
  pub packaged_policy : Text → Option ExecutionPolicy
  -- `component_record`, `verify_subject`; `none` where they raise an error of the catalog
  pub component_record : Text → Option Record
  pub version : Record → Text
  pub verify_subject : Record → Option Text
  -- `metadata["lifecycle"]`, if it is a string, and the questions of `metadata["guidance"]`, if that
  -- is an object
  pub lifecycle : Record → Option Text
  pub guidance : Record → Option RawQuestions
  pub check_input : Record → List (Text × Value) → InputCheck Validated
  pub preflight : Text → Validated → Preflight

-- `return _blocked(plan, code, message, field=field)`
unfoldable pub blocked_at :
    {A : Type 0} → (Bytes → Text) → AnalysisPlan → ValidationIssueCode → Option Text → Result Stop A
blocked_at sha256 plan code field = do
  digest ← canonically (plan_hash sha256 plan)
  err (
      refuse (record {
        status = blocked;
        plan_hash = digest;
        issues = record { code = code; field = field } ∷ [];
        questions = [];
      }))

abbrev is_text : Text → Bool
is_text [] = false
is_text (c ∷ s) = leb (length s) 499

-- `_contract_question`, with the constraints of `ClarificationQuestion`; `none` where one raises
unfoldable pub contract_question : RawQuestion → Option ClarificationQuestion
unfolding is_safe_id
contract_question (raw (some id) (some target) (some prompt) (some materiality)) =
    if is_safe_id id && is_safe_id target && is_text prompt && is_text materiality
    then some (record {
      question_id = id;
      target_field = target;
      prompt = prompt;
      materiality = materiality;
    })
    else none
contract_question _ = none

-- The questions of a contract; `none` if one is not valid, or is no object.
unfoldable pub contract_questions : List RawQuestion → Option (List ClarificationQuestion)
unfolding contract_question
contract_questions [] = some []
contract_questions (r ∷ rs) = elim (contract_question r) [
  | none ↦ none
  | some q ↦ elim (contract_questions rs) [ none ↦ none | some qs ↦ some (q ∷ qs) ]
]

-- `(item.question_id, item.target_field)` as a pair to compare
abbrev pub asks : ClarificationQuestion → ResolvedQuestion → Bool
asks q r =
    same Text-discrete q.question_id r.question_id
    && same Text-discrete q.target_field r.target_field

unfoldable pub is_declared : List ClarificationQuestion → ResolvedQuestion → Bool
is_declared [] r = false
is_declared (q ∷ qs) r = asks q r || is_declared qs r

-- `supplied_pairs.issubset(required_pairs)`
unfoldable pub all_declared : List ClarificationQuestion → List ResolvedQuestion → Bool
unfolding is_declared
all_declared qs [] = true
all_declared qs (r ∷ rs) = is_declared qs r && all_declared qs rs

-- `resolutions.get(...)`: a later resolution of the same pair replaces an earlier one.
unfoldable pub resolution : List ResolvedQuestion → ClarificationQuestion → Option ResolvedQuestion
resolution [] q = none
resolution (r ∷ rs) q = elim (resolution rs q) [
  | some later ↦ some later
  | none ↦ if asks q r then some r else none
]

-- `input.get(field)`
unfoldable pub input_value : List (Text × Value) → Text → Option Value
input_value [] field = none
input_value ((key, v) ∷ l) field =
    let rest = input_value l field in if same Text-discrete key field then some v else rest

abbrev pub is_confirmed : QuestionVerificationStatus → Bool
is_confirmed unverified = false
is_confirmed caller_confirmed = true

-- What a round of the loop over the required questions finds.
pub data Answer : Type 0 where
  confirmed missing absent mismatched : Answer

-- `canonical_json_bytes(value) != canonical_json_bytes(resolution.answer)`
unfoldable pub same_canonical : Value → Value → Result Stop Bool
same_canonical v w = do
  a ← canonically (canonical_json_bytes v)
  b ← canonically (canonical_json_bytes w)
  ok (same Text-discrete a b)

unfoldable pub answer_to : AnalysisPlan → ClarificationQuestion → Result Stop Answer
unfolding resolution input_value same_canonical
answer_to plan q = elim (resolution plan.resolved_questions q) [
  | none ↦ ok missing
  | some r ↦
      if is_confirmed r.verification_status
      then elim (input_value plan.step.dataset.input q.target_field) [
        | none ↦ ok absent
        | some v ↦ (do
          equal ← same_canonical v r.answer
          ok (if equal then confirmed else mismatched))
      ]
      else ok missing
]
