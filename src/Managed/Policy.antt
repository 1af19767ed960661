-- ===== src/Managed/Policy.antt =====
-- protocol/policy.py: the allowlist of components that managed validation consumes.
use native.Mathlib.Decide.{ℕ_discrete}
use defined_quant_components.Common.{Bool, Option, List, [], ◌∷◌, Result, map, some, none}
use defined_quant_components.Utf8.{Text, Bytes}
use defined_quant_components.Canonical.{Value}
use defined_quant_components.Canonical.Number.{pos, CanonicalError}
use defined_quant_components.Canonical.Hash.{canonical_hash}
use defined_quant_components.Managed.Json.{codes, Text-discrete, all_distinct, object, array}

pub data ComponentLifecycle : Type 0 where
  draft published deprecated : ComponentLifecycle

abbrev pub lifecycle_value : ComponentLifecycle → Text
lifecycle_value draft = codes "draft"
lifecycle_value published = codes "published"
lifecycle_value deprecated = codes "deprecated"

-- `ComponentLifecycle(text)`; `none` is its ValueError
unfoldable pub parse_lifecycle : Text → Option ComponentLifecycle
parse_lifecycle s = elim (Text-discrete s (codes "draft")) [
  | yes _ ↦ some draft
  | no _ ↦ elim (Text-discrete s (codes "published")) [
    | yes _ ↦ some published
    | no _ ↦ elim (Text-discrete s (codes "deprecated")) [ yes _ ↦ some deprecated | no _ ↦ none ]
  ]
]

pub data RequirementFailureCode : Type 0 where
  managed_required_input_missing managed_timestamp_required : RequirementFailureCode

abbrev requirement_value : RequirementFailureCode → Text
requirement_value managed_required_input_missing = codes "managed_required_input_missing"
requirement_value managed_timestamp_required = codes "managed_timestamp_required"

-- `ComponentRef` of protocol/operation.py
pub record ComponentRef : Type 0 where
  pub id : Text
  pub version : Text
  pub subject_hash : Text

abbrev pub dump_component : ComponentRef → Value
dump_component c = object (
    ("id", Value.string c.id)
    ∷ ("version", Value.string c.version)
    ∷ ("subject_hash", Value.string c.subject_hash)
    ∷ [])

-- `require_non_null` is always `True`.
pub record InputRequirement : Type 0 where
  pub field : Text
  pub failure_code : RequirementFailureCode
  pub require_non_empty : Bool

pub record ManagedComponentRule : Type 0 where
  pub profile_id : Text
  pub component : ComponentRef
  pub allowed_lifecycle : ComponentLifecycle
  pub require_explicit_opt_in : Bool
  pub requirements : List InputRequirement

-- `schema_version` is always 1.
pub record ExecutionPolicy : Type 0 where
  pub policy_id : Text
  pub version : Text
  pub components : List ManagedComponentRule

unfoldable pub ComponentRef-discrete : Discrete ComponentRef
ComponentRef-discrete = hlevel ℕ_discrete

unfoldable pub ComponentLifecycle-discrete : Discrete ComponentLifecycle
ComponentLifecycle-discrete = hlevel

unfoldable pub ExecutionPolicy-discrete : Discrete ExecutionPolicy
ExecutionPolicy-discrete = hlevel ℕ_discrete

-- `ManagedComponentRule.validate_requirements`: whether the model accepts the rule
unfoldable pub valid_rule : ManagedComponentRule → Bool
unfolding all_distinct
valid_rule r = all_distinct Text-discrete (map (λ (q : InputRequirement). q.field) r.requirements)

-- `ExecutionPolicy.validate_unique_rules`
unfoldable pub valid_policy : ExecutionPolicy → Bool
unfolding all_distinct
valid_policy p =
    all_distinct Text-discrete (map (λ (r : ManagedComponentRule). r.profile_id) p.components)

dump_requirement : InputRequirement → Value
dump_requirement q = object (
    ("field", Value.string q.field)
    ∷ ("failure_code", Value.string (requirement_value q.failure_code))
    ∷ ("require_non_null", Value.boolean Bool.true)
    ∷ ("require_non_empty", Value.boolean q.require_non_empty)
    ∷ [])

dump_rule : ManagedComponentRule → Value
unfolding dump_requirement
dump_rule r = object (
    ("profile_id", Value.string r.profile_id)
    ∷ ("component", dump_component r.component)
    ∷ ("allowed_lifecycle", Value.string (lifecycle_value r.allowed_lifecycle))
    ∷ ("require_explicit_opt_in", Value.boolean r.require_explicit_opt_in)
    ∷ ("requirements", array (map dump_requirement r.requirements))
    ∷ [])

-- `policy.model_dump(mode="json")`
unfoldable pub dump_policy : ExecutionPolicy → Value
unfolding dump_rule
dump_policy p = object (
    ("schema_version", Value.integer (pos 1))
    ∷ ("policy_id", Value.string p.policy_id)
    ∷ ("version", Value.string p.version)
    ∷ ("components", array (map dump_rule p.components))
    ∷ [])

-- `ExecutionPolicy.policy_hash`; `sha256` is `hashlib.sha256(...).hexdigest()`
unfoldable pub policy_hash : (Bytes → Text) → ExecutionPolicy → Result CanonicalError Text
unfolding dump_policy
policy_hash sha256 p = canonical_hash sha256 (dump_policy p) (codes "managed.execution_policy.v1")
