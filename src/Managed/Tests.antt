-- ===== src/Managed/Tests.antt =====
-- One plan, validated, approved and authorized, under a hash that keeps a length.
use native.Mathlib.Decide.{ℕ_discrete}
use defined_quant_components.Common.{
  ◌%◌, ◌≡◌, ◌↔◌, refl, true, none, some, List, [], ◌∷◌, Result, ok, err, length, All,
}
use defined_quant_components.Utf8.{Text, Bytes, encode, encode_char}
use defined_quant_components.Canonical.{Value, canonical_json_bytes}
use defined_quant_components.Canonical.Hash.{canonical_hash}
use defined_quant_components.Managed.Json.{codes, Text-discrete, same}
use defined_quant_components.Managed.Policy.{
  ComponentLifecycle, ComponentLifecycle-discrete, ComponentRef, ComponentRef-discrete,
  ExecutionPolicy-discrete, ExecutionPolicy, ManagedComponentRule, RequirementFailureCode,
  policy_hash, parse_lifecycle,
}
use defined_quant_components.Managed.Plan.{
  AnalysisPlan, ResolvedQuestion, QuestionVerificationStatus, plan_hash, dataset_hash,
}
use defined_quant_components.Managed.Records.{
  ClarificationQuestion, ValidationReceipt, validated, receipt_hash, ApprovalRecord, valid_approval,
  approval_hash, AuthorizationBinding, authorized,
}
use defined_quant_components.Managed.Validation.{
  RawQuestion, raw, questions, Catalog, accepted, passed, contract_questions, all_declared,
}
use defined_quant_components.Managed.Validate.{
  validate_plan, require, or_blocked, matching_rule, installed_ref_matches,
  validate_required_questions, validate_requirements, checked_input, checked_constraints,
  plan_validator, passed_checks,
}
use defined_quant_components.Managed.Grounds.{Binds, Accepted}
use defined_quant_components.Managed.Validated.{validate_plan-validated}
use defined_quant_components.Managed.Questions.{Answered, validate_required_questions-eq-ok}
use defined_quant_components.Managed.Verify.{
  create_manual_approval, new_approval, create_authorization_binding, verify_authorization,
}
use defined_quant_components.Managed.Authorized.{
  Roots, Authorizes, create_authorization_binding-Roots, verify_authorization-Authorizes,
}
use defined_quant_components.Managed.Fresh.{
  restamped_plan, plan_hash-restamped, verify_authorization-fresh,
}

abbrev short_hash : Bytes → Text
short_hash b = length b % 128 ∷ []

abbrev text_of : {E : Type 0} → Result E Text → Text
text_of (ok s) = s
text_of (err e) = []

abbrev volatility : ComponentRef
volatility = record { id = codes "v"; version = codes "1"; subject_hash = codes "h" }

abbrev the_rule : ManagedComponentRule
the_rule = record {
  profile_id = codes "p";
  component = volatility;
  allowed_lifecycle = ComponentLifecycle.draft;
  require_explicit_opt_in = true;
  requirements =
      record {
        field = codes "x";
        failure_code = RequirementFailureCode.managed_required_input_missing;
        require_non_empty = true;
      }
      ∷ [];
}

abbrev the_policy : ExecutionPolicy
the_policy = record { policy_id = codes "q"; version = codes "1"; components = the_rule ∷ [] }

abbrev answer : ResolvedQuestion
answer = record {
  question_id = codes "a";
  target_field = codes "x";
  answer = Value.boolean true;
  supplied_by = codes "me";
  verification_status = QuestionVerificationStatus.caller_confirmed;
  resolved_at = codes "2026-01-01T00:00:00Z";
}

abbrev the_plan : AnalysisPlan
the_plan = record {
  protocol_version = codes "1";
  plan_id = codes "p";
  revision = 1;
  parent_plan_hash = none;
  objective = codes "o";
  resolved_questions = answer ∷ [];
  step = record {
    step_id = codes "s";
    profile_id = codes "p";
    component = volatility;
    component_lifecycle = ComponentLifecycle.draft;
    explicit_draft_opt_in = true;
    dataset = record { dataset_id = codes "d"; input = (codes "x", Value.boolean true) ∷ [] };
  };
  expected_outputs = [];
  stop_conditions = [];
  execution_policy_hash = 6 ∷ [];
}

abbrev the_questions : List RawQuestion
the_questions =
    raw (some (codes "a")) (some (codes "x")) (some (codes "x?")) (some (codes "changes it")) ∷ []

abbrev the_catalog : Catalog
the_catalog = record {
  Record = Unit;
  Validated = Unit;
  packaged_policy = λ id. some the_policy;
  component_record = λ id. some tt;
  version = λ r. codes "1";
  verify_subject = λ r. some (codes "h");
  lifecycle = λ r. some (codes "draft");
  guidance = λ r. some (questions the_questions);
  check_input = λ r input. accepted tt;
  preflight = λ id v. passed;
}

policy_digest : policy_hash short_hash the_policy ≡ ok (6 ∷ [])
unfolding canonical_hash canonical_json_bytes encode encode_char policy_hash
policy_digest = refl

dataset_digest : dataset_hash short_hash the_plan.step.dataset ≡ ok (116 ∷ [])
unfolding canonical_hash canonical_json_bytes encode encode_char dataset_hash
dataset_digest = refl

plan_digest : plan_hash short_hash the_plan ≡ ok (38 ∷ [])
unfolding canonical_hash canonical_json_bytes encode encode_char plan_hash
plan_digest = refl

abbrev receipt : ValidationReceipt
receipt = record {
  plan_hash = 38 ∷ [];
  policy_hash = 6 ∷ [];
  component = volatility;
  dataset_hash = 116 ∷ [];
  validator = plan_validator;
  checks = passed_checks;
}

receipt_digest : receipt_hash short_hash receipt ≡ ok (96 ∷ [])
unfolding canonical_hash canonical_json_bytes encode encode_char receipt_hash
receipt_digest = refl

receipt-valid : validate_plan short_hash the_plan the_catalog the_policy ≡ ok (validated receipt)
unfolding validate_plan same canonical_json_bytes encode encode_char parse_lifecycle require
    or_blocked Text-discrete ℕ_discrete ExecutionPolicy-discrete ComponentRef-discrete
    ComponentLifecycle-discrete matching_rule installed_ref_matches validate_required_questions
    validate_requirements checked_input checked_constraints
receipt-valid = simp (policy_digest, dataset_digest, plan_digest)

abbrev approval : ApprovalRecord
approval = record {
  plan_hash = 38 ∷ [];
  validation_receipt_hash = 96 ∷ [];
  approved_by = codes "me";
  approved_at = codes "2026-01-02T00:00:00Z";
  note = none;
}

approval_digest : approval_hash short_hash approval ≡ ok (79 ∷ [])
unfolding canonical_hash canonical_json_bytes encode encode_char approval_hash
approval_digest = refl

approval-created :
    create_manual_approval short_hash receipt (codes "me") (codes "2026-01-02T00:00:00Z") none
    ≡ ok approval
unfolding create_manual_approval new_approval valid_approval
approval-created = simp (receipt_digest)

abbrev binding : AuthorizationBinding
binding = record {
  plan_hash = 38 ∷ [];
  validation_receipt_hash = 96 ∷ [];
  approval_hash = 79 ∷ [];
  component = volatility;
  dataset_hash = 116 ∷ [];
}

validate_plan-validated_example :
    Binds short_hash the_plan the_catalog the_policy receipt
    × Accepted short_hash the_plan the_catalog the_policy
validate_plan-validated_example =
    validate_plan-validated short_hash the_plan the_catalog the_policy receipt receipt-valid

verify_authorization-fresh_example :
    (b : AuthorizationBinding) × (create_authorization_binding short_hash the_plan receipt approval
      ≡ ok b)
    × (verify_authorization short_hash the_catalog the_plan receipt approval b the_policy
        ≡ ok (authorized b))
verify_authorization-fresh_example =
    verify_authorization-fresh short_hash the_catalog the_plan the_policy receipt (codes "me")
      (codes "2026-01-02T00:00:00Z") none approval (79 ∷ []) receipt-valid approval-created
      approval_digest

create_authorization_binding-Roots_example :
    (create_authorization_binding short_hash the_plan receipt approval ≡ ok binding)
    ↔ Roots short_hash the_plan receipt approval binding
create_authorization_binding-Roots_example =
    create_authorization_binding-Roots short_hash the_plan receipt approval binding

verify_authorization-Authorizes_example :
    (verify_authorization short_hash the_catalog the_plan receipt approval binding the_policy
      ≡ ok (authorized binding))
    ↔ ((binding ≡ binding)
        × Authorizes short_hash the_catalog the_plan receipt approval the_policy binding)
verify_authorization-Authorizes_example =
    verify_authorization-Authorizes short_hash the_catalog the_plan receipt approval the_policy
      binding binding

abbrev a_year_later : ResolvedQuestion → Text
a_year_later q = codes "2027-01-01T00:00:00Z"

plan_hash-restamped_example :
    plan_hash short_hash (restamped_plan a_year_later the_plan) ≡ plan_hash short_hash the_plan
plan_hash-restamped_example = plan_hash-restamped short_hash a_year_later the_plan

questions-answered :
    validate_required_questions short_hash the_plan (questions the_questions) ≡ ok tt
unfolding validate_required_questions require or_blocked same Text-discrete ℕ_discrete
    canonical_json_bytes encode encode_char
questions-answered = refl

validate_required_questions-eq-ok_example :
    (rs : List RawQuestion) × (qs : List ClarificationQuestion) × (questions the_questions
      ≡ questions rs)
    × (contract_questions rs ≡ some qs)
    × (all_declared qs the_plan.resolved_questions ≡ true)
    × All (Answered the_plan) qs
validate_required_questions-eq-ok_example =
    validate_required_questions-eq-ok short_hash the_plan (questions the_questions)
      questions-answered
