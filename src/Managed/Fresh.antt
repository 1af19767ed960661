-- ===== src/Managed/Fresh.antt =====
-- Runs of shared/plan_validation.py that nothing disturbs, and what the plan's digest leaves out
-- (protocol/plan.py).
use defined_quant_components.Common.{
  Option, List, [], ◌∷◌, map, ok, ◌≡◌, refl, sym, ap, after_ok, Bool, true, false, Result, err,
  if◌then◌else◌,
}
use defined_quant_components.Utf8.{Text, Bytes}
use defined_quant_components.Managed.Policy.{ExecutionPolicy}
use defined_quant_components.Managed.Plan.{
  AnalysisPlan, ResolvedQuestion, question_projection, semantic_projection, plan_hash,
}
use defined_quant_components.Managed.Records.{
  ValidationReceipt, validated, receipt_hash, ApprovalRecord, valid_approval, approval_hash,
  AuthorizationBinding, authorized,
}
use defined_quant_components.Managed.Validation.{Raised, invalid_record, Catalog}
use defined_quant_components.Managed.Validate.{validate_plan}
use defined_quant_components.Managed.Validated.{validate_plan-validated}
use defined_quant_components.Managed.Verify.{
  raising, new_approval, create_manual_approval, create_authorization_binding, verify_authorization,
}
use defined_quant_components.Managed.Authorized.{
  raising-eq-ok, create_authorization_binding-Roots, verify_authorization-Authorizes,
}

-- The question with another time of its resolution
abbrev pub restamped : (ResolvedQuestion → Text) → ResolvedQuestion → ResolvedQuestion
restamped f q = record q { resolved_at = f q }

abbrev pub restamped_plan : (ResolvedQuestion → Text) → AnalysisPlan → AnalysisPlan
restamped_plan f plan = record plan {
  resolved_questions = map (restamped f) plan.resolved_questions;
}

projections-restamped :
    (f : ResolvedQuestion → Text) (qs : List ResolvedQuestion)
    → map question_projection (map (restamped f) qs) ≡ map question_projection qs
unfolding question_projection
projections-restamped f [] = refl
projections-restamped f (q ∷ qs) =
    ap (λ (l : List _). question_projection q ∷ l) (projections-restamped f qs)

-- The digest of a plan does not depend on when its questions were resolved.
pub plan_hash-restamped :
    (sha256 : Bytes → Text) (f : ResolvedQuestion → Text) (plan : AnalysisPlan)
    → plan_hash sha256 (restamped_plan f plan) ≡ plan_hash sha256 plan
unfolding plan_hash semantic_projection
plan_hash-restamped sha256 f plan = rw (projections-restamped f plan.resolved_questions) refl

new_approval-eq-ok : (x : ApprovalRecord) {a : ApprovalRecord} → new_approval x ≡ ok a → x ≡ a
unfolding new_approval
new_approval-eq-ok x {a} h = go (valid_approval x) h
  where
    go :
        (b : Bool)
        → ◌≡◌ {A = Result Raised ApprovalRecord} (if b then ok x else err invalid_record) (ok a)
        → x ≡ a
    go true h = cc
    go false h = cc

-- If `validate_plan` gives a receipt, and the approval that `create_manual_approval` makes from it
-- has a digest, then `create_authorization_binding` makes a binding of the three, and
-- `verify_authorization` accepts it.
pub verify_authorization-fresh :
    (sha256 : Bytes → Text) (catalog : Catalog) (plan : AnalysisPlan) (policy : ExecutionPolicy)
    (r : ValidationReceipt) (approved_by approved_at : Text) (note : Option Text)
    (a : ApprovalRecord) (digest : Text)
    → validate_plan sha256 plan catalog policy ≡ ok (validated r)
    → create_manual_approval sha256 r approved_by approved_at note ≡ ok a
    → approval_hash sha256 a ≡ ok digest
    → (b : AuthorizationBinding) × (create_authorization_binding sha256 plan r a ≡ ok b)
      × (verify_authorization sha256 catalog plan r a b policy ≡ ok (authorized b))
unfolding create_manual_approval
verify_authorization-fresh sha256 catalog plan policy r approved_by approved_at note a digest
      h_valid h_approval h_digest =
    after_ok (raising (receipt_hash sha256 r)) _ h_approval λ receipt_digest e_receipt last.
      let made : ◌≡◌ {A = ApprovalRecord}
          (record {
            plan_hash = r.plan_hash;
            validation_receipt_hash = receipt_digest;
            approved_by = approved_by;
            approved_at = approved_at;
            note = note;
          })
          a =
        new_approval-eq-ok _ last in
      let binds = (validate_plan-validated sha256 plan catalog policy r h_valid).0 in
      let b : AuthorizationBinding = record {
        plan_hash = r.plan_hash;
        validation_receipt_hash = receipt_digest;
        approval_hash = digest;
        component = plan.step.component;
        dataset_hash = r.dataset_hash;
      } in
      let created = (create_authorization_binding-Roots sha256 plan r a b).1 (record {
        plan_digest = binds.plan_digest;
        receipt_plan = refl;
        approval_plan = sym (ap (λ (x : ApprovalRecord). x.plan_hash) made);
        receipt_digest = raising-eq-ok (receipt_hash sha256 r) e_receipt;
        approval_receipt = sym (ap (λ (x : ApprovalRecord). x.validation_receipt_hash) made);
        approval_digest = h_digest;
        component = refl;
        dataset_digest = binds.dataset_digest;
      }) in
      (
        b,
        created,
        (verify_authorization-Authorizes sha256 catalog plan r a policy b b).1
            (refl, record { reproduced = h_valid; created = created }),
      )
