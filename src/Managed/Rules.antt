-- ===== src/Managed/Rules.antt =====
-- What `_matching_rule` of shared/plan_validation.py finds.
use mathlib.Core.List.{Memᴰ}
use mathlib.Core.List.Memᴰ.{head, tail}
use defined_quant_components.Common.{
  Bool, true, false, some, List, [], ◌∷◌, ok, ◌≡◌, refl, sym, ap, ◌∙◌, if◌then◌else◌, >>=-eq-ok,
  Bool-cases, inl, inr, arith,
}
use defined_quant_components.Utf8.{Text, Bytes}
use defined_quant_components.Managed.Json.{codes, Text-discrete, same, same→eq}
use defined_quant_components.Managed.Policy.{
  ComponentRef-discrete, ExecutionPolicy, ManagedComponentRule,
}
use defined_quant_components.Managed.Plan.{AnalysisPlan}
use defined_quant_components.Managed.Records.{ValidationIssueCode}
use defined_quant_components.Managed.Validate.{
  profile_rules, component_rule, matching_rule, is_some_rule, require,
}
use defined_quant_components.Managed.Stops.{or_blocked-eq-ok}

-- The rule that `_matching_rule` takes: one of the policy, for the plan's profile and component.
pub record RuleFor (plan : AnalysisPlan) (rules : List ManagedComponentRule)
    (rule : ManagedComponentRule) : Type 0 where
  pub listed : Memᴰ rule rules
  pub profile : rule.profile_id ≡ plan.step.profile_id
  pub component : rule.component ≡ plan.step.component

module _ (sha256 : Bytes → Text) (plan : AnalysisPlan) where
  profile_rules-RuleFor :
      (rules : List ManagedComponentRule) (rule : ManagedComponentRule)
      → Memᴰ rule (profile_rules sha256 plan rules)
      → Memᴰ rule rules × (rule.profile_id ≡ plan.step.profile_id)
  unfolding profile_rules
  profile_rules-RuleFor [] rule place = elim place [ ]
  profile_rules-RuleFor (r ∷ rs) rule place =
      go (same Text-discrete r.profile_id plan.step.profile_id) refl (profile_rules-RuleFor rs rule)
        place
    where
      go :
          (b : Bool)
          → same Text-discrete r.profile_id plan.step.profile_id ≡ b
          → (Memᴰ rule (profile_rules sha256 plan rs)
              → Memᴰ rule rs × (rule.profile_id ≡ plan.step.profile_id))
          → Memᴰ rule (if b then r ∷ profile_rules sha256 plan rs else profile_rules sha256 plan rs)
          → Memᴰ rule (r ∷ rs) × (rule.profile_id ≡ plan.step.profile_id)
      go true e later (head p) =
          (head p, ap (λ (x : ManagedComponentRule). x.profile_id) p ∙ same→eq Text-discrete _ _ e)
      go true e later (tail m) = (let (place, eq) = later m in (tail place, eq))
      go false e later m = (let (place, eq) = later m in (tail place, eq))

  component_rule-eq-some :
      (rules : List ManagedComponentRule) (rule : ManagedComponentRule)
      → component_rule sha256 plan rules ≡ some rule
      → Memᴰ rule rules × (rule.component ≡ plan.step.component)
  unfolding component_rule
  component_rule-eq-some [] rule h = cc
  component_rule-eq-some (r ∷ rs) rule h =
      elim (Bool-cases (same ComponentRef-discrete r.component plan.step.component)) [
        | inl e ↦
            (let same_rule : r ≡ rule = ground arith in
              (
                head (sym same_rule),
                ap (λ (x : ManagedComponentRule). x.component) (sym same_rule)
                    ∙ same→eq ComponentRef-discrete _ _ e,
              ))
        | inr n ↦
            let (place, eq) = component_rule-eq-some rs rule (ground arith) in (tail place, eq)
      ]

  pub matching_rule-RuleFor :
      (policy : ExecutionPolicy) (rule : ManagedComponentRule)
      → matching_rule sha256 plan policy ≡ ok rule
      → RuleFor plan policy.components rule
  unfolding matching_rule
  matching_rule-RuleFor policy rule h =
      let rules = profile_rules sha256 plan policy.components in
      let (u, some_rule, found) =
        >>=-eq-ok
          (require sha256 plan (is_some_rule sha256 plan rules)
            ValidationIssueCode.execution_scope_denied (some (codes "profile_id")))
          _ h in
      let first = or_blocked-eq-ok sha256 plan (component_rule sha256 plan rules) _ _ found in
      let (place, identity) = component_rule-eq-some rules rule first in
      let (listed, profile) = profile_rules-RuleFor policy.components rule place in
      record { listed = listed; profile = profile; component = identity }
