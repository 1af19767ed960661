-- ===== src/Managed/Grounds.antt =====
-- What a validated plan has met, and what its receipt binds (shared/plan_validation.py).
use defined_quant_components.Common.{true, false, not, ◌&&◌, some, List, ok, ◌≡◌, All}
use defined_quant_components.Utf8.{Text, Bytes}
use defined_quant_components.Managed.Policy.{
  ExecutionPolicy, ManagedComponentRule, InputRequirement, policy_hash,
}
use defined_quant_components.Managed.Plan.{AnalysisPlan, plan_hash, dataset_hash}
use defined_quant_components.Managed.Records.{ValidationReceipt, ClarificationQuestion}
use defined_quant_components.Managed.Validation.{
  Catalog, RawQuestion, questions, accepted, passed, contract_questions, all_declared, input_value,
}
use defined_quant_components.Managed.Validate.{lacks, lifecycle_of}
use defined_quant_components.Managed.Questions.{Answered}
use defined_quant_components.Managed.Rules.{RuleFor}

module _ (sha256 : Bytes → Text) (plan : AnalysisPlan) (catalog : Catalog) where
  open catalog use {
    Record, Validated, packaged_policy, component_record, version, verify_subject, guidance,
    check_input, preflight,
  }

  -- The receipt binds what it was made from, by the current digests.
  pub record Binds (policy : ExecutionPolicy) (r : ValidationReceipt) : Type 0 where
    pub plan_digest : plan_hash sha256 plan ≡ ok r.plan_hash
    pub dataset_digest : dataset_hash sha256 plan.step.dataset ≡ ok r.dataset_hash
    pub policy_digest : policy_hash sha256 policy ≡ ok r.policy_hash
    pub plan_policy : plan.execution_policy_hash ≡ r.policy_hash
    pub component : r.component ≡ plan.step.component

  -- The rule allows the component in its installed lifecycle, with the opt-in that it asks for.
  pub record Allows (rule : ManagedComponentRule) (installed : Record) : Type 0 where
    pub version_matches : version installed ≡ plan.step.component.version
    pub subject_matches : verify_subject installed ≡ some plan.step.component.subject_hash
    pub stage : lifecycle_of sha256 plan catalog installed ≡ some plan.step.component_lifecycle
    pub allowed : rule.allowed_lifecycle ≡ plan.step.component_lifecycle
    pub opt_in : (rule.require_explicit_opt_in && not plan.step.explicit_draft_opt_in) ≡ false

  -- What the plan had to meet.
  pub record Accepted (policy : ExecutionPolicy) : Type 0 where
    pub packaged : packaged_policy policy.policy_id ≡ some policy
    pub rule : ManagedComponentRule
    pub applies : RuleFor plan policy.components rule
    pub installed : Record
    pub found : component_record plan.step.component.id ≡ some installed
    pub allows : Allows rule installed
    pub raws : List RawQuestion
    pub contract : guidance installed ≡ some (questions raws)
    pub required : List ClarificationQuestion
    pub well_formed : contract_questions raws ≡ some required
    pub none_other : all_declared required plan.resolved_questions ≡ true
    pub answered : All (Answered plan) required
    pub requirements_met :
        All
          (λ (q : InputRequirement). lacks q (input_value plan.step.dataset.input q.field) ≡ false)
          rule.requirements
    pub input : Validated
    pub input_accepted : check_input installed plan.step.dataset.input ≡ accepted input
    pub constraints_passed : preflight plan.step.component.id input ≡ passed
