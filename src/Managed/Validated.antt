-- ===== src/Managed/Validated.antt =====
-- What a receipt of `validate_plan` of shared/plan_validation.py says of its plan.
use defined_quant_components.Common.{
  true, false, not, ◌&&◌, some, Result, ok, err, ◌≡◌, sym, ap, ◌∙◌, after_ok, arith,
}
use defined_quant_components.Utf8.{Text, Bytes}
use defined_quant_components.Managed.Json.{Text-discrete, same, same→eq}
use defined_quant_components.Managed.Policy.{
  ComponentLifecycle, ComponentRef, ComponentLifecycle-discrete, ExecutionPolicy,
  ExecutionPolicy-discrete, ManagedComponentRule, policy_hash,
}
use defined_quant_components.Managed.Plan.{AnalysisPlan, plan_hash, dataset_hash}
use defined_quant_components.Managed.Records.{ValidationReceipt, validated}
use defined_quant_components.Managed.Validation.{Stop, raise, refuse, canonically, Catalog}
use defined_quant_components.Managed.Validate.{
  require, or_blocked, installed_ref_matches, lifecycle_of, lifecycle_allowed, checked_input,
  checked_constraints, validate_required_questions, validate_requirements, matching_rule,
  plan_validator, passed_checks, validation_steps, as_outcome, validate_plan,
}
use defined_quant_components.Managed.Stops.{
  canonically-eq-ok, require-eq-ok, or_blocked-eq-ok, validate_requirements-eq-ok,
  installed_ref_matches-eq-ok, checked_input-eq-ok, checked_constraints-eq-ok,
}
use defined_quant_components.Managed.Questions.{validate_required_questions-eq-ok}
use defined_quant_components.Managed.Rules.{matching_rule-RuleFor}
use defined_quant_components.Managed.Grounds.{Binds, Accepted}

module _ (sha256 : Bytes → Text) (plan : AnalysisPlan) (catalog : Catalog) where
  open catalog use {packaged_policy, component_record, guidance}

  lifecycle_allowed-eq-true :
      (rule : ManagedComponentRule) (stage : ComponentLifecycle)
      → lifecycle_allowed sha256 plan catalog rule stage ≡ true
      → (plan.step.component_lifecycle ≡ stage)
        × (stage ≡ rule.allowed_lifecycle)
        × ((rule.require_explicit_opt_in && not plan.step.explicit_draft_opt_in) ≡ false)
  lifecycle_allowed-eq-true rule stage h = (
    same→eq ComponentLifecycle-discrete _ _ (ground arith),
    same→eq ComponentLifecycle-discrete _ _ (ground arith),
    ground arith,
  )

  abbrev receipt_of : Text → Text → ComponentRef → Text → ValidationReceipt
  receipt_of p q c d = record {
    plan_hash = p;
    policy_hash = q;
    component = c;
    dataset_hash = d;
    validator = plan_validator;
    checks = passed_checks;
  }

  fields_of :
      (p q : Text) (c : ComponentRef) (d : Text) (r : ValidationReceipt)
      → ◌≡◌ {A = Result Stop ValidationReceipt} (ok (receipt_of p q c d)) (ok r)
      → (p ≡ r.plan_hash) × (q ≡ r.policy_hash) × (c ≡ r.component) × (d ≡ r.dataset_hash)
  fields_of p q c d r h =
      let same_receipt : receipt_of p q c d ≡ r = cc in
      (
        ap (λ (x : ValidationReceipt). x.plan_hash) same_receipt,
        ap (λ (x : ValidationReceipt). x.policy_hash) same_receipt,
        ap (λ (x : ValidationReceipt). x.component) same_receipt,
        ap (λ (x : ValidationReceipt). x.dataset_hash) same_receipt,
      )

  validation_steps-Accepted :
      (policy : ExecutionPolicy) (r : ValidationReceipt)
      → validation_steps sha256 plan catalog policy ≡ ok r
      → Binds sha256 plan catalog policy r × Accepted sha256 plan catalog policy
  unfolding validation_steps
  validation_steps-Accepted policy r h =
      after_ok (canonically (policy_hash sha256 policy)) _ h λ policy_digest e_policy h1.
        after_ok (require sha256 plan _ _ _) _ h1 λ _ e_same h2.
          after_ok (or_blocked sha256 plan (packaged_policy policy.policy_id) _ _) _ h2
            λ packed e_packed h3. after_ok (require sha256 plan _ _ _) _ h3 λ _ e_equal h4.
              after_ok (matching_rule sha256 plan policy) _ h4 λ rule e_rule h5.
                after_ok (or_blocked sha256 plan (component_record plan.step.component.id) _ _) _ h5
                  λ installed e_installed h6.
                    after_ok (installed_ref_matches sha256 plan catalog installed) _ h6
                      λ identical e_identical h7.
                        after_ok (require sha256 plan identical _ _) _ h7 λ _ e_true h8.
                          after_ok
                            (or_blocked sha256 plan (lifecycle_of sha256 plan catalog installed) _
                              _)
                            _ h8
                            λ stage e_stage h9.
                              after_ok
                                (require sha256 plan
                                  (lifecycle_allowed sha256 plan catalog rule stage) _ _)
                                _ h9
                                λ _ e_allowed h10.
                                  after_ok (or_blocked sha256 plan (guidance installed) _ _) _ h10
                                    λ raws e_raws h11.
                                      after_ok (validate_required_questions sha256 plan raws) _ h11
                                        λ _ e_questions h12.
                                          after_ok
                                            (validate_requirements sha256 plan rule.requirements) _
                                            h12
                                            λ _ e_requirements h13.
                                              after_ok (checked_input sha256 plan catalog installed)
                                                _ h13
                                                λ input e_input h14.
                                                  after_ok
                                                    (checked_constraints sha256 plan catalog input)
                                                    _ h14
                                                    λ _ e_constraints h15.
                                                      after_ok (canonically (plan_hash sha256 plan))
                                                        _ h15
                                                        λ plan_digest e_plan h16.
                                                          after_ok
                                                            (canonically
                                                            (dataset_hash sha256 plan.step.dataset))
                                                            _ h16
                                                            λ dataset_digest e_dataset h17.
                                                            let policy_same =
                                                            require-eq-ok sha256 plan
                                                            (same Text-discrete
                                                            plan.execution_policy_hash
                                                            policy_digest)
                                                            _ _ e_same in
                                                            let packed_same =
                                                            require-eq-ok sha256 plan
                                                            (same ExecutionPolicy-discrete packed
                                                            policy)
                                                            _ _ e_equal in
                                                            let is_identical =
                                                            require-eq-ok sha256 plan identical _ _
                                                            e_true in
                                                            let (version_matches, subject_matches) =
                                                            installed_ref_matches-eq-ok sha256 plan
                                                            catalog installed
                                                            (e_identical ∙ ap ok is_identical) in
                                                            let stage_found =
                                                            or_blocked-eq-ok sha256 plan
                                                            (lifecycle_of sha256 plan catalog
                                                            installed)
                                                            _ _ e_stage in
                                                            let (planned, ruled, opt) =
                                                            lifecycle_allowed-eq-true rule stage (
                                                            require-eq-ok sha256 plan
                                                            (lifecycle_allowed sha256 plan catalog
                                                            rule stage)
                                                            _ _ e_allowed) in
                                                            let guide =
                                                            or_blocked-eq-ok sha256 plan
                                                            (guidance installed) _ _ e_raws in
                                                            let (
                                                            rs, qs, raws_are, formed, declared,
                                                            all_answered,
                                                            ) =
                                                            validate_required_questions-eq-ok sha256
                                                            plan raws e_questions in
                                                            let (
                                                            r_plan, r_policy, r_component,
                                                            r_dataset,
                                                            ) =
                                                            fields_of plan_digest policy_digest
                                                            plan.step.component dataset_digest r
                                                            h17 in
                                                            (
                                                            record {
                                                            plan_digest =
                                                            canonically-eq-ok
                                                            (plan_hash sha256 plan) e_plan
                                                            ∙ ap ok r_plan;
                                                            dataset_digest =
                                                            canonically-eq-ok
                                                            (dataset_hash sha256 plan.step.dataset)
                                                            e_dataset
                                                            ∙ ap ok r_dataset;
                                                            policy_digest =
                                                            canonically-eq-ok
                                                            (policy_hash sha256 policy) e_policy
                                                            ∙ ap ok r_policy;
                                                            plan_policy =
                                                            same→eq Text-discrete _ _ policy_same
                                                            ∙ r_policy;
                                                            component = sym r_component;
                                                            },
                                                            record {
                                                            packaged =
                                                            or_blocked-eq-ok sha256 plan
                                                            (packaged_policy policy.policy_id) _ _
                                                            e_packed
                                                            ∙ ap some (
                                                            same→eq ExecutionPolicy-discrete _ _
                                                            packed_same);
                                                            rule = rule;
                                                            applies =
                                                            matching_rule-RuleFor sha256 plan policy
                                                            rule e_rule;
                                                            installed = installed;
                                                            found =
                                                            or_blocked-eq-ok sha256 plan
                                                            (component_record
                                                            plan.step.component.id)
                                                            _ _ e_installed;
                                                            allows = record {
                                                            version_matches = version_matches;
                                                            subject_matches = subject_matches;
                                                            stage =
                                                            stage_found ∙ ap some (sym planned);
                                                            allowed = sym (planned ∙ ruled);
                                                            opt_in = opt;
                                                            };
                                                            raws = rs;
                                                            contract = guide ∙ ap some raws_are;
                                                            required = qs;
                                                            well_formed = formed;
                                                            none_other = declared;
                                                            answered = all_answered;
                                                            requirements_met =
                                                            validate_requirements-eq-ok sha256 plan
                                                            rule.requirements e_requirements;
                                                            input = input;
                                                            input_accepted =
                                                            checked_input-eq-ok sha256 plan catalog
                                                            installed e_input;
                                                            constraints_passed =
                                                            checked_constraints-eq-ok sha256 plan
                                                            catalog input e_constraints;
                                                            },
                                                            )

  -- If `validate_plan` gives a receipt, the receipt binds the plan, its dataset, the policy and the
  -- component by their current digests, and the plan passed every check: the policy is the packaged
  -- one and has a rule for the profile and component, the installed component is the named one in
  -- the lifecycle and with the opt-in that the rule asks for, the plan answers every declared
  -- question and no other, meets the rule's requirements, and its input passes the component's model
  -- and constraints.
  pub validate_plan-validated :
      (policy : ExecutionPolicy) (r : ValidationReceipt)
      → validate_plan sha256 plan catalog policy ≡ ok (validated r)
      → Binds sha256 plan catalog policy r × Accepted sha256 plan catalog policy
  unfolding validate_plan
  validate_plan-validated policy r h =
      validation_steps-Accepted policy r (steps_ok (validation_steps sha256 plan catalog policy) h)
    where
      steps_ok :
          (m : Result Stop ValidationReceipt) {r : ValidationReceipt}
          → as_outcome sha256 plan catalog m ≡ ok (validated r)
          → m ≡ ok r
      steps_ok (ok a) h = cc
      steps_ok (err (refuse f)) h = cc
      steps_ok (err (raise e)) h = cc
