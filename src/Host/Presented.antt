-- ===== src/Host/Presented.antt =====
-- What `host_failure` of shared/host_failures.py makes of a code and details: the fixed wording never
-- fails its own validators.
use text.Mathlib.TextPositions.{eq_refl}
use defined_quant_components.Common.{
  ◌≡◌, refl, Bool, true, false, Option, ok, err, if◌then◌else◌, inl, inr, Bool-cases,
}
use defined_quant_components.Canonical.{Members}
use defined_quant_components.Ports.{same_bool}
use defined_quant_components.Host.Codes.{HostOutcome, HostFailureCode, TrustLabel}
use defined_quant_components.Host.Presentation.{trust_statement, failure_spec}
use defined_quant_components.Host.Details.{details_valid}
use defined_quant_components.Host.Failure.{
  HostModelError, Trust, HostFailure, is_short_text, same_outcome, new_trust, new_error,
  validate_statement, validate_fixed_fields, validate_outcome, trust_notice, details_or_empty,
  host_failure,
}

is_short_text-message : (code : HostFailureCode) → is_short_text (failure_spec code).message ≡ true
unfolding failure_spec
is_short_text-message HostFailureCode.invalid_tool_request = refl
is_short_text-message HostFailureCode.unsupported_host_schema = refl
is_short_text-message HostFailureCode.unsupported_protocol_version = refl
is_short_text-message HostFailureCode.unsupported_reference_version = refl
is_short_text-message HostFailureCode.component_not_found = refl
is_short_text-message HostFailureCode.component_identity_mismatch = refl
is_short_text-message HostFailureCode.missing_convention = refl
is_short_text-message HostFailureCode.incompatible_ports = refl
is_short_text-message HostFailureCode.unsupported_binding = refl
is_short_text-message HostFailureCode.multiple_non_literal_sources = refl
is_short_text-message HostFailureCode.invalid_dataset = refl
is_short_text-message HostFailureCode.unsupported_data_format = refl
is_short_text-message HostFailureCode.input_root_denied = refl
is_short_text-message HostFailureCode.unsafe_input_path = refl
is_short_text-message HostFailureCode.input_limit_exceeded = refl
is_short_text-message HostFailureCode.invalid_field_mapping = refl
is_short_text-message HostFailureCode.reference_not_found = refl
is_short_text-message HostFailureCode.reference_scope_denied = refl
is_short_text-message HostFailureCode.record_corrupt = refl
is_short_text-message HostFailureCode.cache_full = refl
is_short_text-message HostFailureCode.record_publication_failed = refl
is_short_text-message HostFailureCode.worker_timeout = refl
is_short_text-message HostFailureCode.worker_cancelled = refl
is_short_text-message HostFailureCode.worker_crashed = refl
is_short_text-message HostFailureCode.worker_capacity = refl
is_short_text-message HostFailureCode.worker_resource_limit = refl
is_short_text-message HostFailureCode.component_refused = refl
is_short_text-message HostFailureCode.component_failed = refl
is_short_text-message HostFailureCode.invalid_component_input = refl
is_short_text-message HostFailureCode.output_validation_failed = refl
is_short_text-message HostFailureCode.component_contract_error = refl
is_short_text-message HostFailureCode.artifact_publication_failed = refl
is_short_text-message HostFailureCode.result_limit_exceeded = refl
is_short_text-message HostFailureCode.artifact_not_found = refl
is_short_text-message HostFailureCode.internal_failure = refl

is_short_text-trust_statement : (label : TrustLabel) → is_short_text (trust_statement label) ≡ true
unfolding trust_statement
is_short_text-trust_statement TrustLabel.contract_metadata_only = refl
is_short_text-trust_statement TrustLabel.installed_subject_inspected = refl
is_short_text-trust_statement TrustLabel.unverified_caller_data = refl
is_short_text-trust_statement TrustLabel.structural_compatibility_only = refl
is_short_text-trust_statement TrustLabel.unmanaged_execution = refl
is_short_text-trust_statement TrustLabel.no_verified_result = refl

same_outcome_refl : (o : HostOutcome) → same_outcome o o ≡ true
same_outcome_refl HostOutcome.needs_information = refl
same_outcome_refl HostOutcome.refused = refl
same_outcome_refl HostOutcome.failed = refl

same_bool_refl : (b : Bool) → same_bool b b ≡ true
same_bool_refl true = refl
same_bool_refl false = refl

-- The notice of a label: the label with its statement.
abbrev pub notice : TrustLabel → Trust
notice label = record { label = label; statement = trust_statement label }

pub trust_notice_lem : (label : TrustLabel) → trust_notice label ≡ ok (notice label)
unfolding trust_notice new_trust validate_statement
trust_notice_lem label = simp (is_short_text-trust_statement label, eq_refl (trust_statement label))

-- A failure as the table presents its code.
abbrev pub presented : HostFailureCode → Members → TrustLabel → HostFailure
presented code details label = record {
  outcome = (failure_spec code).outcome;
  error = record {
    code = code;
    message = (failure_spec code).message;
    retry_allowed = (failure_spec code).retry_allowed;
    details = details;
  };
  trust = notice label;
}

-- `host_failure` gives, for every code and label, the outcome, message and retry policy of the
-- table with the given details and the label's notice if the code's schema accepts the details, and
-- otherwise the error about the details: no other validator refuses.
pub host_failure_lem :
    (code : HostFailureCode) (details : Option Members) (label : TrustLabel)
    → host_failure code details label ≡ (
        if details_valid code (details_or_empty details)
        then ok (presented code (details_or_empty details) label)
        else err HostModelError.wrong_details)
unfolding host_failure new_error validate_fixed_fields validate_outcome
host_failure_lem code details label =
    elim (Bool-cases (details_valid code (details_or_empty details))) [
      | inl taken ↦ simp (
        taken,
        is_short_text-message code,
        eq_refl (failure_spec code).message,
        same_bool_refl (failure_spec code).retry_allowed,
        trust_notice_lem label,
        same_outcome_refl (failure_spec code).outcome,
      )
      | inr refused ↦ simp (
        refused,
        is_short_text-message code,
        eq_refl (failure_spec code).message,
        same_bool_refl (failure_spec code).retry_allowed,
      )
    ]
