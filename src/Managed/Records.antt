-- ===== src/Managed/Records.antt =====
-- protocol/authorization.py: issues, receipts, approvals and bindings. The messages of issues and
-- failures are left out: they are texts for a reader, which no code compares.
use native.Mathlib.Decide.{ℕ_discrete}
use defined_quant_components.Common.{
  ℕ, Bool, true, false, ◌&&◌, not, leb, length, Option, none, some, List, [], ◌∷◌, Result, map,
}
use defined_quant_components.Utf8.{Text, Bytes}
use defined_quant_components.Canonical.{Value}
use defined_quant_components.Canonical.Number.{pos, CanonicalError}
use defined_quant_components.Canonical.Hash.{canonical_hash}
use defined_quant_components.Managed.Json.{
  codes, Text-discrete, all_distinct, object, array, optional_text,
}
use defined_quant_components.Managed.Policy.{ComponentRef, dump_component}

pub data ValidationIssueCode : Type 0 where
  execution_scope_denied plan_policy_mismatch plan_component_identity_mismatch : ValidationIssueCode
  plan_component_lifecycle_denied plan_required_question_unresolved : ValidationIssueCode
  plan_resolved_question_mismatch managed_required_input_missing : ValidationIssueCode
  managed_timestamp_required invalid_component_input component_constraint_violation :
      ValidationIssueCode
  component_contract_error : ValidationIssueCode

pub record ValidationIssue : Type 0 where
  pub code : ValidationIssueCode
  pub field : Option Text

pub record ClarificationQuestion : Type 0 where
  pub question_id : Text
  pub target_field : Text
  pub prompt : Text
  pub materiality : Text

pub data FailureStatus : Type 0 where
  needs_information blocked : FailureStatus

pub record ValidationFailure : Type 0 where
  pub status : FailureStatus
  pub plan_hash : Text
  pub issues : List ValidationIssue
  pub questions : List ClarificationQuestion

abbrev has_questions : List ClarificationQuestion → Bool
has_questions [] = false
has_questions (q ∷ qs) = true

abbrev status_fits : FailureStatus → Bool → Bool
status_fits needs_information asks = asks
status_fits blocked asks = not asks

-- `ValidationFailure.validate_status`, and that there is an issue: whether the model accepts it
unfoldable pub valid_failure : ValidationFailure → Bool
unfolding all_distinct
valid_failure f =
    elim f.issues [ [] ↦ false | i ∷ is ↦ true ]
    && status_fits f.status (has_questions f.questions)
    && all_distinct Text-discrete (map (λ (q : ClarificationQuestion). q.question_id) f.questions)
    && all_distinct Text-discrete (map (λ (q : ClarificationQuestion). q.target_field) f.questions)

-- `RunnerIdentity` of protocol/operation.py
pub record RunnerIdentity : Type 0 where
  pub name : Text
  pub version : Text

-- A check is its `check_id`: its status is always "passed".
pub record ValidationReceipt : Type 0 where
  pub plan_hash : Text
  pub policy_hash : Text
  pub component : ComponentRef
  pub dataset_hash : Text
  pub validator : RunnerIdentity
  pub checks : List Text

unfoldable pub ValidationReceipt-discrete : Discrete ValidationReceipt
ValidationReceipt-discrete = hlevel ℕ_discrete

dump_check : Text → Value
dump_check id =
    object (("check_id", Value.string id) ∷ ("status", Value.string (codes "passed")) ∷ [])

-- `ValidationReceipt.receipt_hash`
unfoldable pub receipt_hash : (Bytes → Text) → ValidationReceipt → Result CanonicalError Text
unfolding dump_check
receipt_hash sha256 r =
    canonical_hash sha256
      (object (
        ("schema_version", Value.integer (pos 1))
        ∷ ("status", Value.string (codes "validated"))
        ∷ ("plan_hash", Value.string r.plan_hash)
        ∷ ("policy_hash", Value.string r.policy_hash)
        ∷ ("component", dump_component r.component)
        ∷ ("dataset_hash", Value.string r.dataset_hash)
        ∷ (
          "validator",
          object (
              ("name", Value.string r.validator.name)
              ∷ ("version", Value.string r.validator.version)
              ∷ []),
        )
        ∷ ("checks", array (map dump_check r.checks))
        ∷ []))
      (codes "managed.validation_receipt.v1")

-- `PlanValidationOutcome`
pub data ValidationOutcome : Type 0 where
  validated : ValidationReceipt → ValidationOutcome
  refused : ValidationFailure → ValidationOutcome

-- `approved_at` is the aware timestamp, as its JSON text.
pub record ApprovalRecord : Type 0 where
  pub plan_hash : Text
  pub validation_receipt_hash : Text
  pub approved_by : Text
  pub approved_at : Text
  pub note : Option Text

abbrev within : ℕ → Option Text → Bool
within maximum none = true
within maximum (some s) = leb 1 (length s) && leb (length s) maximum

-- The limits on the fields of an `ApprovalRecord`
unfoldable pub valid_approval : ApprovalRecord → Bool
valid_approval a = within 160 (some a.approved_by) && within 500 a.note

-- `ApprovalRecord.approval_hash`
unfoldable pub approval_hash : (Bytes → Text) → ApprovalRecord → Result CanonicalError Text
approval_hash sha256 a =
    canonical_hash sha256
      (object (
        ("schema_version", Value.integer (pos 1))
        ∷ ("authorization_kind", Value.string (codes "manual"))
        ∷ ("plan_hash", Value.string a.plan_hash)
        ∷ ("validation_receipt_hash", Value.string a.validation_receipt_hash)
        ∷ ("approved_by", Value.string a.approved_by)
        ∷ ("approved_at", Value.string a.approved_at)
        ∷ ("note", optional_text a.note)
        ∷ []))
      (codes "managed.manual_approval.v1")

pub record AuthorizationBinding : Type 0 where
  pub plan_hash : Text
  pub validation_receipt_hash : Text
  pub approval_hash : Text
  pub component : ComponentRef
  pub dataset_hash : Text

unfoldable pub AuthorizationBinding-discrete : Discrete AuthorizationBinding
AuthorizationBinding-discrete = hlevel ℕ_discrete

pub data AuthorizationErrorCode : Type 0 where
  plan_revision_stale validation_receipt_mismatch approval_binding_mismatch : AuthorizationErrorCode
  component_binding_mismatch dataset_binding_mismatch policy_binding_mismatch :
      AuthorizationErrorCode
  authorization_binding_mismatch : AuthorizationErrorCode

-- `AuthorizationOutcome`
pub data AuthorizationOutcome : Type 0 where
  authorized : AuthorizationBinding → AuthorizationOutcome
  failed : AuthorizationErrorCode → AuthorizationOutcome
