-- ===== src/Managed/Plan.antt =====
-- protocol/plan.py: one plan, its dataset, and the digest of what it means.
use defined_quant_components.Common.{
  ℕ, Bool, ◌&&◌, not, Option, none, some, List, [], ◌∷◌, Result, map, ◌==◌, ltb,
}
use defined_quant_components.Utf8.{Text, Bytes}
use defined_quant_components.Canonical.{Value, Members, end, member}
use defined_quant_components.Canonical.Number.{pos, CanonicalError}
use defined_quant_components.Canonical.Hash.{canonical_hash}
use defined_quant_components.Managed.Json.{
  codes, Text-discrete, all_distinct, object, array, optional_text,
}
use defined_quant_components.Managed.Policy.{
  ComponentRef, ComponentLifecycle, dump_component, lifecycle_value,
}

pub data QuestionVerificationStatus : Type 0 where
  unverified caller_confirmed : QuestionVerificationStatus

abbrev verification_value : QuestionVerificationStatus → Text
verification_value unverified = codes "unverified"
verification_value caller_confirmed = codes "caller_confirmed"

-- `resolved_at` is the aware timestamp, as its JSON text.
pub record ResolvedQuestion : Type 0 where
  pub question_id : Text
  pub target_field : Text
  pub answer : Value
  pub supplied_by : Text
  pub verification_status : QuestionVerificationStatus
  pub resolved_at : Text

-- `ResolvedQuestion.semantic_projection`
unfoldable pub question_projection : ResolvedQuestion → Value
question_projection q = object (
    ("schema_version", Value.integer (pos 1))
    ∷ ("question_id", Value.string q.question_id)
    ∷ ("target_field", Value.string q.target_field)
    ∷ ("answer", q.answer)
    ∷ ("supplied_by", Value.string q.supplied_by)
    ∷ ("verification_status", Value.string (verification_value q.verification_status))
    ∷ [])

-- `input` is a dictionary: its items in their order.
pub record DatasetBinding : Type 0 where
  pub dataset_id : Text
  pub input : List (Text × Value)

abbrev pub input_members : List (Text × Value) → Members
input_members [] = end
input_members ((key, v) ∷ l) = member (some key) v (input_members l)

abbrev pub dump_dataset : DatasetBinding → Value
dump_dataset d = object (
    ("schema_version", Value.integer (pos 1))
    ∷ ("dataset_id", Value.string d.dataset_id)
    ∷ ("verification_status", Value.string (codes "unverified"))
    ∷ ("input", Value.mapping (input_members d.input))
    ∷ [])

-- `DatasetBinding.dataset_hash`
unfoldable pub dataset_hash : (Bytes → Text) → DatasetBinding → Result CanonicalError Text
dataset_hash sha256 d = canonical_hash sha256 (dump_dataset d) (codes "managed.dataset_binding.v1")

pub record PlanStep : Type 0 where
  pub step_id : Text
  pub profile_id : Text
  pub component : ComponentRef
  pub component_lifecycle : ComponentLifecycle
  pub explicit_draft_opt_in : Bool
  pub dataset : DatasetBinding

abbrev dump_step : PlanStep → Value
dump_step s = object (
    ("schema_version", Value.integer (pos 1))
    ∷ ("step_id", Value.string s.step_id)
    ∷ ("profile_id", Value.string s.profile_id)
    ∷ ("component", dump_component s.component)
    ∷ ("component_lifecycle", Value.string (lifecycle_value s.component_lifecycle))
    ∷ ("explicit_draft_opt_in", Value.boolean s.explicit_draft_opt_in)
    ∷ ("dataset", dump_dataset s.dataset)
    ∷ [])

pub record AnalysisPlan : Type 0 where
  pub protocol_version : Text
  pub plan_id : Text
  pub revision : ℕ
  pub parent_plan_hash : Option Text
  pub objective : Text
  pub resolved_questions : List ResolvedQuestion
  pub step : PlanStep
  pub expected_outputs : List Text
  pub stop_conditions : List Text
  pub execution_policy_hash : Text

-- `AnalysisPlan.validate_revision_and_questions`: whether the model accepts the plan, whose
-- `revision` is at least 1
unfoldable pub valid_plan : AnalysisPlan → Bool
unfolding all_distinct
valid_plan p =
    elim p.parent_plan_hash [ none ↦ not (ltb 1 p.revision) | some _ ↦ not (p.revision == 1) ]
    && all_distinct Text-discrete
        (map (λ (q : ResolvedQuestion). q.question_id) p.resolved_questions)
    && all_distinct Text-discrete
        (map (λ (q : ResolvedQuestion). q.target_field) p.resolved_questions)

-- `AnalysisPlan.semantic_projection`
unfoldable pub semantic_projection : AnalysisPlan → Value
unfolding question_projection
semantic_projection p = object (
    ("schema_version", Value.integer (pos 1))
    ∷ ("protocol_version", Value.string p.protocol_version)
    ∷ ("plan_id", Value.string p.plan_id)
    ∷ ("revision", Value.integer (pos p.revision))
    ∷ ("parent_plan_hash", optional_text p.parent_plan_hash)
    ∷ ("objective", Value.string p.objective)
    ∷ ("resolved_questions", array (map question_projection p.resolved_questions))
    ∷ ("step", dump_step p.step)
    ∷ ("expected_outputs", array (map Value.string p.expected_outputs))
    ∷ ("stop_conditions", array (map Value.string p.stop_conditions))
    ∷ ("execution_policy_hash", Value.string p.execution_policy_hash)
    ∷ [])

-- `AnalysisPlan.plan_hash`
unfoldable pub plan_hash : (Bytes → Text) → AnalysisPlan → Result CanonicalError Text
unfolding semantic_projection
plan_hash sha256 p =
    canonical_hash sha256 (semantic_projection p) (codes "managed.analysis_plan.v1")
