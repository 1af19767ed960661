-- ===== src/Managed/Stops.antt =====
-- How a check of shared/plan_validation.py passes: what its result says of the plan.
use defined_quant_components.Common.{
  Bool, true, false, not, Option, none, some, List, [], ◌∷◌, Result, ok, err, ◌>>=◌, ◌≡◌, refl,
  >>=-eq-ok, >>=-not-ok, Bool-cases, inl, inr, arith, All,
}
use defined_quant_components.Utf8.{Text, Bytes}
use defined_quant_components.Canonical.Number.{CanonicalError}
use defined_quant_components.Managed.Json.{codes, Text-discrete, same, same→eq}
use defined_quant_components.Managed.Policy.{InputRequirement}
use defined_quant_components.Managed.Plan.{AnalysisPlan, plan_hash}
use defined_quant_components.Managed.Records.{
  ValidationIssueCode, ClarificationQuestion, ValidationFailure, valid_failure,
}
use defined_quant_components.Managed.Validation.{
  Stop, canonically, Catalog, contract_questions, blocked_at, input_value, RawQuestions, escaped,
  raise, InputCheck, accepted, invalid, unavailable, Preflight, passed, ambiguous, not_evaluated,
  domain_error, contract_broken, raised_other,
}
use defined_quant_components.Managed.Validate.{
  require, or_blocked, lacks, validate_requirements, installed_ref_matches, asked, ask_lacking,
  checked_input, checked_constraints, ambiguity_failure, ask, refuse_checked,
}

pub canonically-eq-ok :
    {A : Type 0} (m : Result CanonicalError A) {a : A} → canonically m ≡ ok a → m ≡ ok a
canonically-eq-ok (ok b) h = cc
canonically-eq-ok (err e) h = cc

module _ (sha256 : Bytes → Text) (plan : AnalysisPlan) where
  pub blocked_at-not-ok :
      {A : Type 0} (code : ValidationIssueCode) (field : Option Text) {a : A}
      → ¬ (blocked_at sha256 plan code field ≡ ok a)
  unfolding blocked_at
  blocked_at-not-ok code field = >>=-not-ok (canonically (plan_hash sha256 plan)) _ (λ d h. cc)

  pub require-eq-ok :
      (b : Bool) (code : ValidationIssueCode) (field : Option Text) {u : Unit}
      → require sha256 plan b code field ≡ ok u
      → b ≡ true
  unfolding require
  require-eq-ok true code field h = refl
  require-eq-ok false code field h = absurd (blocked_at-not-ok code field h)

  pub or_blocked-eq-ok :
      {A : Type 0} (o : Option A) (code : ValidationIssueCode) (field : Option Text) {a : A}
      → or_blocked sha256 plan o code field ≡ ok a
      → o ≡ some a
  unfolding or_blocked
  or_blocked-eq-ok none code field h = absurd (blocked_at-not-ok code field h)
  or_blocked-eq-ok (some b) code field h = cc

  refuse_checked-not-ok : {A : Type 0} (f : ValidationFailure) {a : A} → ¬ (refuse_checked f ≡ ok a)
  unfolding refuse_checked
  refuse_checked-not-ok f h = elim (Bool-cases (valid_failure f)) [
    | inl e ↦ ground arith
    | inr e ↦ ground arith
  ]

  ask-not-ok :
      {A : Type 0} (qs : List ClarificationQuestion) {a : A} → ¬ (ask sha256 plan qs ≡ ok a)
  unfolding ask
  ask-not-ok qs =
      >>=-not-ok (canonically (plan_hash sha256 plan)) _ (λ d. search refuse_checked-not-ok)

  pub ask_lacking-eq-ok :
      (qs : List ClarificationQuestion) {u : Unit} → ask_lacking sha256 plan qs ≡ ok u → qs ≡ []
  ask_lacking-eq-ok [] h = refl
  ask_lacking-eq-ok (q ∷ qs) h = absurd (ask-not-ok (q ∷ qs) h)

  pub ambiguity_failure-not-ok :
      {A : Type 0} (raws : RawQuestions) {a : A} → ¬ (ambiguity_failure sha256 plan raws ≡ ok a)
  unfolding ambiguity_failure
  ambiguity_failure-not-ok raws =
      >>=-not-ok
        (or_blocked sha256 plan (asked sha256 plan raws)
          ValidationIssueCode.component_contract_error none)
        _
        (λ rs.
          >>=-not-ok
            (or_blocked sha256 plan (contract_questions rs)
              ValidationIssueCode.component_contract_error none)
            _ (λ qs. ask-not-ok qs))

  pub validate_requirements-eq-ok :
      (qs : List InputRequirement)
      → validate_requirements sha256 plan qs ≡ ok tt
      → All
          (λ (q : InputRequirement). lacks q (input_value plan.step.dataset.input q.field) ≡ false)
          qs
  unfolding validate_requirements
  validate_requirements-eq-ok [] h = tt
  validate_requirements-eq-ok (q ∷ qs) h =
      let (u, met, rest) = >>=-eq-ok (require sha256 plan _ _ _) _ h in
      let present =
        require-eq-ok (not (lacks q (input_value plan.step.dataset.input q.field))) _ _ met in
      (ground arith, validate_requirements-eq-ok qs rest)

  found-digest :
      (o : Option Text) (t : Text) (code : ValidationIssueCode) (field : Option Text)
      → (or_blocked sha256 plan o code field >>= λ d. ok (same Text-discrete d t)) ≡ ok true
      → o ≡ some t
  found-digest o t code field h =
      let (d, found, last) =
        >>=-eq-ok (or_blocked sha256 plan o code field) (λ d. ok (same Text-discrete d t)) h in
      let equal = same→eq Text-discrete d t (cc last) in
      let present = or_blocked-eq-ok o code field found in cc (equal, present)

  module _ (catalog : Catalog) where
    open catalog use {Record, Validated, version, verify_subject, check_input, preflight}

    -- The installed component is the one of the plan: its version and the digest of its files.
    pub installed_ref_matches-eq-ok :
        (r : Record)
        → installed_ref_matches sha256 plan catalog r ≡ ok true
        → (version r ≡ plan.step.component.version)
          × (verify_subject r ≡ some plan.step.component.subject_hash)
    unfolding installed_ref_matches
    installed_ref_matches-eq-ok r h =
        elim (Bool-cases (same Text-discrete (version r) plan.step.component.version)) [
          | inl e ↦ (
            same→eq Text-discrete _ _ e,
            found-digest (verify_subject r) plan.step.component.subject_hash
                ValidationIssueCode.component_contract_error (some (codes "component"))
                (ground arith),
          )
          | inr e ↦ ground arith
        ]

    pub checked_input-eq-ok :
        (r : Record) {v : Validated}
        → checked_input sha256 plan catalog r ≡ ok v
        → check_input r plan.step.dataset.input ≡ accepted v
    unfolding checked_input
    checked_input-eq-ok r h = go (check_input r plan.step.dataset.input) h
      where
        go :
            (c : InputCheck Validated) {v : Validated}
            → (elim c as (λ _. Result Stop Validated) [
              | accepted v ↦ ok v
              | invalid ↦
                  blocked_at sha256 plan ValidationIssueCode.invalid_component_input
                    (some (codes "input"))
              | unavailable ↦
                  blocked_at sha256 plan ValidationIssueCode.component_contract_error
                    (some (codes "component"))
            ])
              ≡ ok v
            → c ≡ accepted v
        go (accepted v) h = cc
        go invalid h = absurd (blocked_at-not-ok _ _ h)
        go unavailable h = absurd (blocked_at-not-ok _ _ h)

    pub checked_constraints-eq-ok :
        (v : Validated)
        → checked_constraints sha256 plan catalog v ≡ ok tt
        → preflight plan.step.component.id v ≡ passed
    unfolding checked_constraints
    checked_constraints-eq-ok v h = go (preflight plan.step.component.id v) h
      where
        go :
            (c : Preflight)
            → (elim c as (λ _. Result Stop Unit) [
              | passed ↦ ok tt
              | ambiguous raws ↦ ambiguity_failure sha256 plan raws
              | not_evaluated ↦
                  blocked_at sha256 plan ValidationIssueCode.component_contract_error none
              | domain_error ↦
                  blocked_at sha256 plan ValidationIssueCode.component_constraint_violation none
              | contract_broken ↦
                  blocked_at sha256 plan ValidationIssueCode.component_contract_error none
              | raised_other ↦ err (raise escaped)
            ])
              ≡ ok tt
            → c ≡ passed
        go passed h = refl
        go (ambiguous raws) h = absurd (ambiguity_failure-not-ok raws h)
        go not_evaluated h = absurd (blocked_at-not-ok _ _ h)
        go domain_error h = absurd (blocked_at-not-ok _ _ h)
        go contract_broken h = absurd (blocked_at-not-ok _ _ h)
        go raised_other h = cc
