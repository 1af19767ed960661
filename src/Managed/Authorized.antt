-- ===== src/Managed/Authorized.antt =====
-- When `verify_authorization` of shared/plan_validation.py accepts.
use defined_quant_components.Common.{
  Bool, true, false, Result, ok, err, ◌≡◌, ◌↔◌, refl, sym, ap, ◌∙◌, after_ok,
}
use defined_quant_components.Utf8.{Text, Bytes}
use defined_quant_components.Canonical.Number.{CanonicalError}
use defined_quant_components.Managed.Json.{Text-discrete, same, same→eq, same_refl, eq→same}
use defined_quant_components.Managed.Policy.{
  ComponentRef, ComponentRef-discrete, ExecutionPolicy, policy_hash,
}
use defined_quant_components.Managed.Plan.{AnalysisPlan, plan_hash, dataset_hash}
use defined_quant_components.Managed.Records.{
  ValidationReceipt, ValidationReceipt-discrete, ValidationOutcome, validated, refused,
  receipt_hash, ApprovalRecord, approval_hash, AuthorizationBinding, AuthorizationBinding-discrete,
  AuthorizationErrorCode, authorized,
}
use defined_quant_components.Managed.Validation.{Raised, Catalog}
use defined_quant_components.Managed.Validate.{validate_plan}
use defined_quant_components.Managed.Validated.{validate_plan-validated}
use defined_quant_components.Managed.Verify.{
  Halt, raised, fails, raising, throwing, hashed, check, bound, create_authorization_binding,
  reproduces, verification_steps, as_authorization, verify_authorization,
}

check-eq-ok : (code : AuthorizationErrorCode) (b : Bool) {u : Unit} → check code b ≡ ok u → b ≡ true
unfolding check
check-eq-ok code true h = refl
check-eq-ok code false h = cc

bound-eq-ok : (b : Bool) {u : Unit} → bound b ≡ ok u → b ≡ true
unfolding bound
bound-eq-ok true h = refl
bound-eq-ok false h = cc

pub raising-eq-ok : {A : Type 0} (m : Result CanonicalError A) {a : A} → raising m ≡ ok a → m ≡ ok a
raising-eq-ok (ok b) h = cc
raising-eq-ok (err e) h = cc

throwing-eq-ok : {A : Type 0} (m : Result Raised A) {a : A} → throwing m ≡ ok a → m ≡ ok a
throwing-eq-ok (ok b) h = cc
throwing-eq-ok (err e) h = cc

module _ (sha256 : Bytes → Text) where
  reproduces-eq-true :
      (r : ValidationReceipt) (o : ValidationOutcome)
      → reproduces sha256 r o ≡ true
      → o ≡ validated r
  reproduces-eq-true r (validated current) h =
      ap validated (same→eq ValidationReceipt-discrete current r h)
  reproduces-eq-true r (refused f) h = cc

  -- The digests that a binding records.
  pub record Roots (plan : AnalysisPlan) (r : ValidationReceipt) (a : ApprovalRecord)
      (b : AuthorizationBinding) : Type 0 where
    pub plan_digest : plan_hash sha256 plan ≡ ok b.plan_hash
    pub receipt_plan : r.plan_hash ≡ b.plan_hash
    pub approval_plan : a.plan_hash ≡ b.plan_hash
    pub receipt_digest : receipt_hash sha256 r ≡ ok b.validation_receipt_hash
    pub approval_receipt : a.validation_receipt_hash ≡ b.validation_receipt_hash
    pub approval_digest : approval_hash sha256 a ≡ ok b.approval_hash
    pub component : b.component ≡ plan.step.component
    pub dataset_digest : dataset_hash sha256 plan.step.dataset ≡ ok b.dataset_hash

  abbrev binding_of : Text → Text → Text → ComponentRef → Text → AuthorizationBinding
  binding_of p d e c s = record {
    plan_hash = p;
    validation_receipt_hash = d;
    approval_hash = e;
    component = c;
    dataset_hash = s;
  }

  fields_of :
      (p d e : Text) (c : ComponentRef) (s : Text) (b : AuthorizationBinding)
      → ◌≡◌ {A = Result Raised AuthorizationBinding} (ok (binding_of p d e c s)) (ok b)
      → (p ≡ b.plan_hash)
        × (d ≡ b.validation_receipt_hash)
        × (e ≡ b.approval_hash)
        × (c ≡ b.component)
        × (s ≡ b.dataset_hash)
  fields_of p d e c s b h =
      let same_binding : binding_of p d e c s ≡ b = cc in
      (
        ap (λ (x : AuthorizationBinding). x.plan_hash) same_binding,
        ap (λ (x : AuthorizationBinding). x.validation_receipt_hash) same_binding,
        ap (λ (x : AuthorizationBinding). x.approval_hash) same_binding,
        ap (λ (x : AuthorizationBinding). x.component) same_binding,
        ap (λ (x : AuthorizationBinding). x.dataset_hash) same_binding,
      )

  -- `create_authorization_binding` gives the binding exactly if the receipt and the approval name
  -- the plan, the approval names the receipt, and the binding records the current digests of plan,
  -- receipt, approval and dataset and the plan's component.
  pub create_authorization_binding-Roots :
      (plan : AnalysisPlan) (r : ValidationReceipt) (a : ApprovalRecord) (b : AuthorizationBinding)
      → (create_authorization_binding sha256 plan r a ≡ ok b) ↔ Roots plan r a b
  unfolding create_authorization_binding bound
  create_authorization_binding-Roots plan r a b = (forward, backward)
    where
      forward : create_authorization_binding sha256 plan r a ≡ ok b → Roots plan r a b
      forward h = after_ok (raising (plan_hash sha256 plan)) _ h λ p e_plan h1.
          after_ok (bound (same Text-discrete r.plan_hash p)) _ h1 λ _ e_receipt_plan h2.
            after_ok (bound (same Text-discrete a.plan_hash p)) _ h2 λ _ e_approval_plan h3.
              after_ok (raising (receipt_hash sha256 r)) _ h3 λ d e_receipt h4.
                after_ok (bound (same Text-discrete a.validation_receipt_hash d)) _ h4
                  λ _ e_approval_receipt h5.
                    after_ok (raising (approval_hash sha256 a)) _ h5 λ e e_approval h6.
                      after_ok (raising (dataset_hash sha256 plan.step.dataset)) _ h6
                        λ s e_dataset h7.
                          let is_b = fields_of p d e plan.step.component s b h7 in
                          let (b_plan, b_receipt, b_approval, b_component, b_dataset) = is_b in
                          record {
                            plan_digest =
                                raising-eq-ok (plan_hash sha256 plan) e_plan ∙ ap ok b_plan;
                            receipt_plan =
                                same→eq Text-discrete _ _
                                  (bound-eq-ok (same Text-discrete r.plan_hash p) e_receipt_plan)
                                ∙ b_plan;
                            approval_plan =
                                same→eq Text-discrete _ _
                                  (bound-eq-ok (same Text-discrete a.plan_hash p) e_approval_plan)
                                ∙ b_plan;
                            receipt_digest =
                                raising-eq-ok (receipt_hash sha256 r) e_receipt ∙ ap ok b_receipt;
                            approval_receipt =
                                same→eq Text-discrete _ _ (
                                  bound-eq-ok (same Text-discrete a.validation_receipt_hash d)
                                    e_approval_receipt)
                                ∙ b_receipt;
                            approval_digest =
                                raising-eq-ok (approval_hash sha256 a) e_approval
                                ∙ ap ok b_approval;
                            component = sym b_component;
                            dataset_digest =
                                raising-eq-ok (dataset_hash sha256 plan.step.dataset) e_dataset
                                ∙ ap ok b_dataset;
                          }

      backward : Roots plan r a b → create_authorization_binding sha256 plan r a ≡ ok b
      backward roots = simp (
        roots.plan_digest,
        roots.receipt_digest,
        roots.approval_digest,
        roots.dataset_digest,
        eq→same Text-discrete roots.receipt_plan,
        eq→same Text-discrete roots.approval_plan,
        eq→same Text-discrete roots.approval_receipt,
        sym roots.component,
      )

  module _ (catalog : Catalog) (plan : AnalysisPlan) (r : ValidationReceipt) (a : ApprovalRecord)
      (policy : ExecutionPolicy) where
    -- What authorizes a binding.
    pub record Authorizes (b : AuthorizationBinding) : Type 0 where
      pub reproduced : validate_plan sha256 plan catalog policy ≡ ok (validated r)
      pub created : create_authorization_binding sha256 plan r a ≡ ok b

    steps-Authorizes :
        (b c : AuthorizationBinding)
        → verification_steps sha256 catalog plan r a b policy ≡ ok c
        → (c ≡ b) × Authorizes b
    unfolding verification_steps
    steps-Authorizes b c h = after_ok (check _ _) _ h λ _ _ h1.
        after_ok (hashed _ (dataset_hash sha256 plan.step.dataset)) _ h1 λ _ _ h2.
          after_ok (check _ _) _ h2 λ _ _ h3.
            after_ok (hashed _ (policy_hash sha256 policy)) _ h3 λ _ _ h4.
              after_ok (check _ _) _ h4 λ _ _ h5.
                after_ok (hashed _ (plan_hash sha256 plan)) _ h5 λ _ _ h6.
                  after_ok (check _ _) _ h6 λ _ _ h7.
                    after_ok (hashed _ (receipt_hash sha256 r)) _ h7 λ _ _ h8.
                      after_ok (check _ _) _ h8 λ _ _ h9.
                        after_ok (throwing (validate_plan sha256 plan catalog policy)) _ h9
                          λ current e_current h10.
                            after_ok (check _ (reproduces sha256 r current)) _ h10 λ _ e_same h11.
                              after_ok (check _ _) _ h11 λ _ _ h12.
                                after_ok (hashed _ (approval_hash sha256 a)) _ h12 λ _ _ h13.
                                  after_ok (check _ _) _ h13 λ _ _ h14.
                                    after_ok
                                      (throwing (create_authorization_binding sha256 plan r a)) _
                                      h14
                                      λ expected e_expected h15.
                                        after_ok
                                          (check _ (same AuthorizationBinding-discrete b expected))
                                          _ h15
                                          λ _ e_equal h16.
                                            let outcome = reproduces-eq-true r current (
                                              check-eq-ok _ (reproduces sha256 r current) e_same) in
                                            let equal =
                                              same→eq AuthorizationBinding-discrete b expected (
                                                check-eq-ok _
                                                  (same AuthorizationBinding-discrete b expected)
                                                  e_equal) in
                                            (
                                              cc,
                                              record {
                                                reproduced =
                                                    throwing-eq-ok
                                                      (validate_plan sha256 plan catalog policy)
                                                      e_current
                                                    ∙ ap ok outcome;
                                                created =
                                                    throwing-eq-ok
                                                      (create_authorization_binding sha256 plan r a)
                                                      e_expected
                                                    ∙ ap ok (sym equal);
                                              },
                                            )

    Authorizes-steps :
        (b : AuthorizationBinding)
        → Authorizes b
        → verification_steps sha256 catalog plan r a b policy ≡ ok b
    unfolding verification_steps check
    Authorizes-steps b yes_b =
        let roots = (create_authorization_binding-Roots plan r a b).0 yes_b.created in
        let binds = (validate_plan-validated sha256 plan catalog policy r yes_b.reproduced).0 in
        let dataset_same : r.dataset_hash ≡ b.dataset_hash =
          cc (binds.dataset_digest, roots.dataset_digest) in
        simp (
          roots.plan_digest,
          roots.receipt_digest,
          roots.approval_digest,
          roots.dataset_digest,
          binds.policy_digest,
          yes_b.reproduced,
          yes_b.created,
          eq→same ComponentRef-discrete roots.component,
          eq→same ComponentRef-discrete binds.component,
          eq→same Text-discrete dataset_same,
          eq→same Text-discrete binds.plan_policy,
          eq→same Text-discrete roots.receipt_plan,
          eq→same Text-discrete roots.approval_plan,
          eq→same Text-discrete roots.approval_receipt,
          same_refl,
        )

    -- `verify_authorization` accepts exactly if the binding is the one that
    -- `create_authorization_binding` makes from the plan, the receipt and the approval, and
    -- `validate_plan` gives that same receipt again for the plan and the policy; what it returns is
    -- the binding it was given.
    pub verify_authorization-Authorizes :
        (b c : AuthorizationBinding)
        → (verify_authorization sha256 catalog plan r a b policy ≡ ok (authorized c))
          ↔ ((c ≡ b) × Authorizes b)
    unfolding verify_authorization
    verify_authorization-Authorizes b c = (
      λ h. steps-Authorizes b c (steps_ok (verification_steps sha256 catalog plan r a b policy) h),
      λ (same_one, yes_b).
          ap (as_authorization sha256) (Authorizes-steps b yes_b)
          ∙ ap (λ (x : AuthorizationBinding). ok (authorized x)) (sym same_one),
    )
      where
        steps_ok :
            (m : Result Halt AuthorizationBinding) {x : AuthorizationBinding}
            → as_authorization sha256 m ≡ ok (authorized x)
            → m ≡ ok x
        steps_ok (ok x) h = cc
        steps_ok (err (fails code)) h = cc
        steps_ok (err (raised e)) h = cc
