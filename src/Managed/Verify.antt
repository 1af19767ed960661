-- ===== src/Managed/Verify.antt =====
-- `create_manual_approval`, `create_authorization_binding` and `verify_authorization` of
-- shared/plan_validation.py.
use defined_quant_components.Common.{
  Bool, true, false, ◌&&◌, Option, Result, ok, err, ◌>>=◌, ◌>>◌, if◌then◌else◌,
}
use defined_quant_components.Utf8.{Text, Bytes}
use defined_quant_components.Canonical.Number.{CanonicalError}
use defined_quant_components.Managed.Json.{Text-discrete, same}
use defined_quant_components.Managed.Policy.{ComponentRef-discrete, ExecutionPolicy, policy_hash}
use defined_quant_components.Managed.Plan.{AnalysisPlan, plan_hash, dataset_hash}
use defined_quant_components.Managed.Records.{
  ValidationReceipt, ValidationReceipt-discrete, ValidationOutcome, validated, refused,
  receipt_hash, ApprovalRecord, valid_approval, approval_hash, AuthorizationBinding,
  AuthorizationBinding-discrete, AuthorizationErrorCode, AuthorizationOutcome, authorized, failed,
}
use defined_quant_components.Managed.Validation.{
  Raised, not_canonical, invalid_record, unbound, Catalog,
}
use defined_quant_components.Managed.Validate.{validate_plan}

-- How verification ends early: with an exception, or with a failure that it returns.
pub data Halt : Type 0 where
  raised : Raised → Halt
  fails : AuthorizationErrorCode → Halt

abbrev pub raising : {A : Type 0} → Result CanonicalError A → Result Raised A
raising (ok a) = ok a
raising (err e) = err (not_canonical e)

abbrev pub throwing : {A : Type 0} → Result Raised A → Result Halt A
throwing (ok a) = ok a
throwing (err e) = err (raised e)

-- `try: ... except (TypeError, ValueError): return _authorization_failure(code, ...)`
abbrev pub hashed : {A : Type 0} → AuthorizationErrorCode → Result CanonicalError A → Result Halt A
hashed code (ok a) = ok a
hashed code (err e) = err (fails code)

-- `if not test: return _authorization_failure(code, ...)`
unfoldable pub check : AuthorizationErrorCode → Bool → Result Halt Unit
check code true = ok tt
check code false = err (fails code)

-- `if not test: raise ValueError(...)`
unfoldable pub bound : Bool → Result Raised Unit
bound true = ok tt
bound false = err unbound

-- `ApprovalRecord(…)`, which refuses fields that are not within their limits
unfoldable pub new_approval : ApprovalRecord → Result Raised ApprovalRecord
unfolding valid_approval
new_approval a = if valid_approval a then ok a else err invalid_record

module _ (sha256 : Bytes → Text) where
  unfoldable pub create_manual_approval :
      ValidationReceipt → Text → Text → Option Text → Result Raised ApprovalRecord
  unfolding new_approval
  create_manual_approval r approved_by approved_at note = do
    digest ← raising (receipt_hash sha256 r)
    new_approval (record {
      plan_hash = r.plan_hash;
      validation_receipt_hash = digest;
      approved_by = approved_by;
      approved_at = approved_at;
      note = note;
    })

  unfoldable pub create_authorization_binding :
      AnalysisPlan → ValidationReceipt → ApprovalRecord → Result Raised AuthorizationBinding
  create_authorization_binding plan r a = do
    plan_digest ← raising (plan_hash sha256 plan)
    bound (same Text-discrete r.plan_hash plan_digest)
    bound (same Text-discrete a.plan_hash plan_digest)
    receipt_digest ← raising (receipt_hash sha256 r)
    bound (same Text-discrete a.validation_receipt_hash receipt_digest)
    approval_digest ← raising (approval_hash sha256 a)
    dataset_digest ← raising (dataset_hash sha256 plan.step.dataset)
    ok (record {
      plan_hash = plan_digest;
      validation_receipt_hash = receipt_digest;
      approval_hash = approval_digest;
      component = plan.step.component;
      dataset_hash = dataset_digest;
    })

  -- `isinstance(current_receipt, ValidationReceipt) and current_receipt == receipt`
  abbrev pub reproduces : ValidationReceipt → ValidationOutcome → Bool
  reproduces r (validated current) = same ValidationReceipt-discrete current r
  reproduces r (refused f) = false

  -- `verify_authorization`, with `err` for every return of a failure
  unfoldable pub verification_steps :
      Catalog
      → AnalysisPlan
      → ValidationReceipt
      → ApprovalRecord
      → AuthorizationBinding
      → ExecutionPolicy
      → Result Halt AuthorizationBinding
  verification_steps catalog plan r a b policy = do
    check AuthorizationErrorCode.component_binding_mismatch (
        same ComponentRef-discrete b.component plan.step.component
        && same ComponentRef-discrete r.component plan.step.component)
    dataset_digest ←
        hashed AuthorizationErrorCode.dataset_binding_mismatch
          (dataset_hash sha256 plan.step.dataset)
    check AuthorizationErrorCode.dataset_binding_mismatch (
        same Text-discrete b.dataset_hash dataset_digest
        && same Text-discrete r.dataset_hash dataset_digest)
    policy_digest ←
        hashed AuthorizationErrorCode.policy_binding_mismatch (policy_hash sha256 policy)
    check AuthorizationErrorCode.policy_binding_mismatch (
        same Text-discrete plan.execution_policy_hash policy_digest
        && same Text-discrete r.policy_hash policy_digest)
    plan_digest ← hashed AuthorizationErrorCode.plan_revision_stale (plan_hash sha256 plan)
    check AuthorizationErrorCode.plan_revision_stale
        (same Text-discrete b.plan_hash plan_digest && same Text-discrete r.plan_hash plan_digest)
    receipt_digest ←
        hashed AuthorizationErrorCode.validation_receipt_mismatch (receipt_hash sha256 r)
    check AuthorizationErrorCode.validation_receipt_mismatch
        (same Text-discrete b.validation_receipt_hash receipt_digest)
    current ← throwing (validate_plan sha256 plan catalog policy)
    check AuthorizationErrorCode.validation_receipt_mismatch (reproduces r current)
    check AuthorizationErrorCode.approval_binding_mismatch (
        same Text-discrete a.plan_hash plan_digest
        && same Text-discrete a.validation_receipt_hash receipt_digest)
    approval_digest ←
        hashed AuthorizationErrorCode.approval_binding_mismatch (approval_hash sha256 a)
    check AuthorizationErrorCode.approval_binding_mismatch
        (same Text-discrete b.approval_hash approval_digest)
    expected ← throwing (create_authorization_binding plan r a)
    check AuthorizationErrorCode.authorization_binding_mismatch
        (same AuthorizationBinding-discrete b expected)
    ok b

  abbrev pub as_authorization :
      Result Halt AuthorizationBinding → Result Raised AuthorizationOutcome
  as_authorization (ok b) = ok (authorized b)
  as_authorization (err (fails code)) = ok (failed code)
  as_authorization (err (raised e)) = err e

  -- `verify_authorization`
  unfoldable pub verify_authorization :
      Catalog
      → AnalysisPlan
      → ValidationReceipt
      → ApprovalRecord
      → AuthorizationBinding
      → ExecutionPolicy
      → Result Raised AuthorizationOutcome
  unfolding verification_steps
  verify_authorization catalog plan r a b policy =
      as_authorization (verification_steps catalog plan r a b policy)
