-- ===== src/Managed/Validate.antt =====
-- The checks of `validate_plan` of shared/plan_validation.py, in their order.
use defined_quant_components.Common.{
  Bool, true, false, ◌&&◌, ◌||◌, not, Option, none, some, List, [], ◌∷◌, ◌++◌, Result, ok, err,
  ◌>>=◌, ◌>>◌, map, if◌then◌else◌,
}
use defined_quant_components.Utf8.{Text, Bytes}
use defined_quant_components.Canonical.{Value, no_item, end}
use defined_quant_components.Managed.Json.{codes, Text-discrete, same}
use defined_quant_components.Managed.Policy.{
  ComponentLifecycle, ComponentLifecycle-discrete, ComponentRef-discrete, ExecutionPolicy,
  ExecutionPolicy-discrete, ManagedComponentRule, InputRequirement, RequirementFailureCode,
  policy_hash, parse_lifecycle,
}
use defined_quant_components.Managed.Plan.{AnalysisPlan, plan_hash, dataset_hash}
use defined_quant_components.Managed.Records.{
  ValidationIssueCode, ValidationIssue, ClarificationQuestion, ValidationFailure, ValidationReceipt,
  ValidationOutcome, validated, refused, needs_information, valid_failure, RunnerIdentity,
}
use defined_quant_components.Managed.Validation.{
  Raised, invalid_record, escaped, Stop, raise, refuse, canonically, RawQuestion, RawQuestions,
  questions, not_list, Catalog, accepted, invalid, unavailable, passed, not_evaluated, domain_error,
  contract_broken, raised_other, ambiguous, blocked_at, contract_questions, all_declared,
  input_value, answer_to, confirmed, missing, absent, mismatched,
}

-- `ValidationFailure(...)` with the checks of the model
unfoldable pub refuse_checked : {A : Type 0} → ValidationFailure → Result Stop A
unfolding valid_failure
refuse_checked f = if valid_failure f then err (refuse f) else err (raise invalid_record)

abbrev unresolved : ClarificationQuestion → ValidationIssue
unresolved q = record {
  code = ValidationIssueCode.plan_required_question_unresolved;
  field = some q.target_field;
}

-- `_is_empty`
unfoldable pub is_empty_value : Value → Bool
is_empty_value (Value.string []) = true
is_empty_value (Value.sequence no_item) = true
is_empty_value (Value.mapping end) = true
is_empty_value _ = false

abbrev issue_code : RequirementFailureCode → ValidationIssueCode
issue_code RequirementFailureCode.managed_required_input_missing =
    ValidationIssueCode.managed_required_input_missing
issue_code RequirementFailureCode.managed_timestamp_required =
    ValidationIssueCode.managed_timestamp_required

-- Whether the input does not meet the requirement.
unfoldable pub lacks : InputRequirement → Option Value → Bool
unfolding is_empty_value
lacks q none = true
lacks q (some Value.null) = true
lacks q (some v) = q.require_non_empty && is_empty_value v

-- `_VALIDATOR` and `_PASSED_CHECKS`
abbrev pub plan_validator : RunnerIdentity
plan_validator = record { name = codes "managed_plan_validator"; version = codes "0.1.0" }

abbrev pub passed_checks : List Text
passed_checks =
    codes "policy_binding"
    ∷ codes "component_identity"
    ∷ codes "lifecycle_opt_in"
    ∷ codes "required_questions"
    ∷ codes "managed_input_requirements"
    ∷ codes "component_input_schema"
    ∷ codes "component_constraints"
    ∷ []

module _ (sha256 : Bytes → Text) (plan : AnalysisPlan) where
  -- `if not test: return _blocked(...)`
  unfoldable pub require : Bool → ValidationIssueCode → Option Text → Result Stop Unit
  unfolding blocked_at
  require true code field = ok tt
  require false code field = blocked_at sha256 plan code field

  unfoldable pub or_blocked :
      {A : Type 0} → Option A → ValidationIssueCode → Option Text → Result Stop A
  unfolding blocked_at
  or_blocked none code field = blocked_at sha256 plan code field
  or_blocked (some a) code field = ok a

  -- A failure that asks the questions.
  unfoldable pub ask : {A : Type 0} → List ClarificationQuestion → Result Stop A
  unfolding refuse_checked
  ask qs = do
    digest ← canonically (plan_hash sha256 plan)
    refuse_checked (record {
      status = needs_information;
      plan_hash = digest;
      issues = map unresolved qs;
      questions = qs;
    })

  -- The loop of `_validate_required_questions`: the questions that lack an answer.
  unfoldable pub scan_questions :
      List ClarificationQuestion
      → List ClarificationQuestion
      → Result Stop (List ClarificationQuestion)
  unfolding answer_to blocked_at
  scan_questions [] lacking = ok lacking
  scan_questions (q ∷ qs) lacking = answer_to plan q >>= elim [
    | confirmed ↦ scan_questions qs lacking
    | missing ↦ scan_questions qs (lacking ++ q ∷ [])
    | absent ↦
        blocked_at sha256 plan ValidationIssueCode.plan_resolved_question_mismatch
          (some q.target_field)
    | mismatched ↦
        blocked_at sha256 plan ValidationIssueCode.plan_resolved_question_mismatch
          (some q.target_field)
  ]

  abbrev pub ask_lacking : List ClarificationQuestion → Result Stop Unit
  ask_lacking [] = ok tt
  ask_lacking (q ∷ qs) = ask (q ∷ qs)

  abbrev pub listed : RawQuestions → Option (List RawQuestion)
  listed not_list = none
  listed (questions rs) = some rs

  -- `_validate_required_questions`
  unfoldable pub validate_required_questions : RawQuestions → Result Stop Unit
  unfolding or_blocked require scan_questions ask contract_questions all_declared
  validate_required_questions raws = do
    rs ← or_blocked (listed raws) ValidationIssueCode.component_contract_error none
    qs ← or_blocked (contract_questions rs) ValidationIssueCode.component_contract_error none
    require (all_declared qs plan.resolved_questions)
        ValidationIssueCode.plan_resolved_question_mismatch none
    lacking ← scan_questions qs []
    ask_lacking lacking

  abbrev pub asked : RawQuestions → Option (List RawQuestion)
  asked (questions (r ∷ rs)) = some (r ∷ rs)
  asked _ = none

  -- `_ambiguity_failure`
  unfoldable pub ambiguity_failure : {A : Type 0} → RawQuestions → Result Stop A
  unfolding or_blocked ask contract_questions
  ambiguity_failure raws = do
    rs ← or_blocked (asked raws) ValidationIssueCode.component_contract_error none
    qs ← or_blocked (contract_questions rs) ValidationIssueCode.component_contract_error none
    ask qs

  -- `_validate_managed_requirements`
  unfoldable pub validate_requirements : List InputRequirement → Result Stop Unit
  unfolding require lacks input_value
  validate_requirements [] = ok tt
  validate_requirements (q ∷ qs) = do
    require (not (lacks q (input_value plan.step.dataset.input q.field)))
        (issue_code q.failure_code) (some q.field)
    validate_requirements qs

  -- `profile_rules`, and the first of them for the plan's component
  unfoldable pub profile_rules : List ManagedComponentRule → List ManagedComponentRule
  profile_rules [] = []
  profile_rules (r ∷ rs) =
      let rest = profile_rules rs in
      if same Text-discrete r.profile_id plan.step.profile_id then r ∷ rest else rest

  unfoldable pub component_rule : List ManagedComponentRule → Option ManagedComponentRule
  component_rule [] = none
  component_rule (r ∷ rs) =
      let rest = component_rule rs in
      if same ComponentRef-discrete r.component plan.step.component then some r else rest

  abbrev pub is_some_rule : List ManagedComponentRule → Bool
  is_some_rule [] = false
  is_some_rule (r ∷ rs) = true

  -- `_matching_rule`
  unfoldable pub matching_rule : ExecutionPolicy → Result Stop ManagedComponentRule
  unfolding require or_blocked profile_rules component_rule
  matching_rule policy = do
    require (is_some_rule (profile_rules policy.components))
        ValidationIssueCode.execution_scope_denied (some (codes "profile_id"))
    or_blocked (component_rule (profile_rules policy.components))
        ValidationIssueCode.plan_component_identity_mismatch (some (codes "component"))

  module _ (catalog : Catalog) where
    open catalog use {
      Record, Validated, packaged_policy, component_record, version, verify_subject, lifecycle,
      guidance, check_input, preflight,
    }

    -- `installed_ref_matches`
    unfoldable pub installed_ref_matches : Record → Result Stop Bool
    unfolding or_blocked
    installed_ref_matches r =
        if same Text-discrete (version r) plan.step.component.version
        then (do
          digest ←
              or_blocked (verify_subject r) ValidationIssueCode.component_contract_error
                (some (codes "component"))
          ok (same Text-discrete digest plan.step.component.subject_hash))
        else ok false

    abbrev pub lifecycle_of : Record → Option ComponentLifecycle
    lifecycle_of r = elim (lifecycle r) [ none ↦ none | some s ↦ parse_lifecycle s ]

    abbrev pub lifecycle_allowed : ManagedComponentRule → ComponentLifecycle → Bool
    lifecycle_allowed rule installed = not (
        not (same ComponentLifecycle-discrete plan.step.component_lifecycle installed)
        || not (same ComponentLifecycle-discrete installed rule.allowed_lifecycle)
        || (rule.require_explicit_opt_in && not plan.step.explicit_draft_opt_in))

    unfoldable pub checked_input : Record → Result Stop Validated
    unfolding blocked_at
    checked_input r = elim (check_input r plan.step.dataset.input) [
      | accepted v ↦ ok v
      | invalid ↦
          blocked_at sha256 plan ValidationIssueCode.invalid_component_input (some (codes "input"))
      | unavailable ↦
          blocked_at sha256 plan ValidationIssueCode.component_contract_error
            (some (codes "component"))
    ]

    unfoldable pub checked_constraints : Validated → Result Stop Unit
    unfolding blocked_at ambiguity_failure
    checked_constraints v = elim (preflight plan.step.component.id v) [
      | passed ↦ ok tt
      | ambiguous raws ↦ ambiguity_failure raws
      | not_evaluated ↦ blocked_at sha256 plan ValidationIssueCode.component_contract_error none
      | domain_error ↦
          blocked_at sha256 plan ValidationIssueCode.component_constraint_violation none
      | contract_broken ↦ blocked_at sha256 plan ValidationIssueCode.component_contract_error none
      | raised_other ↦ err (raise escaped)
    ]

    -- `validate_plan`, with `err` for every return of a failure
    unfoldable pub validation_steps : ExecutionPolicy → Result Stop ValidationReceipt
    validation_steps policy = do
      policy_digest ← canonically (policy_hash sha256 policy)
      require (same Text-discrete plan.execution_policy_hash policy_digest)
          ValidationIssueCode.plan_policy_mismatch (some (codes "execution_policy_hash"))
      packaged ←
          or_blocked (packaged_policy policy.policy_id) ValidationIssueCode.execution_scope_denied
            (some (codes "execution_policy_hash"))
      require (same ExecutionPolicy-discrete packaged policy)
          ValidationIssueCode.execution_scope_denied (some (codes "execution_policy_hash"))
      rule ← matching_rule policy
      installed ←
          or_blocked (component_record plan.step.component.id)
            ValidationIssueCode.component_contract_error (some (codes "component"))
      identical ← installed_ref_matches installed
      require identical ValidationIssueCode.plan_component_identity_mismatch
          (some (codes "component"))
      stage ←
          or_blocked (lifecycle_of installed) ValidationIssueCode.component_contract_error
            (some (codes "component_lifecycle"))
      require (lifecycle_allowed rule stage) ValidationIssueCode.plan_component_lifecycle_denied
          (some (codes "component_lifecycle"))
      raws ← or_blocked (guidance installed) ValidationIssueCode.component_contract_error none
      validate_required_questions raws
      validate_requirements rule.requirements
      input ← checked_input installed
      checked_constraints input
      plan_digest ← canonically (plan_hash sha256 plan)
      dataset_digest ← canonically (dataset_hash sha256 plan.step.dataset)
      ok (record {
        plan_hash = plan_digest;
        policy_hash = policy_digest;
        component = plan.step.component;
        dataset_hash = dataset_digest;
        validator = plan_validator;
        checks = passed_checks;
      })

    abbrev pub as_outcome : Result Stop ValidationReceipt → Result Raised ValidationOutcome
    as_outcome (ok r) = ok (validated r)
    as_outcome (err (refuse f)) = ok (refused f)
    as_outcome (err (raise e)) = err e

    -- `validate_plan`
    unfoldable pub validate_plan : ExecutionPolicy → Result Raised ValidationOutcome
    unfolding validation_steps
    validate_plan policy = as_outcome (validation_steps policy)
