-- ===== src/Host/Presentation.antt =====
-- The fixed wording of shared/host_failures.py: what each failure code and each trust label says.
use Prim.Native.String.{String}
use defined_quant_components.Common.{Bool, true, false}
use defined_quant_components.Host.Codes.{HostOutcome, HostFailureCode, TrustLabel}

-- `_TRUST_STATEMENTS`
unfoldable pub trust_statement : TrustLabel → String
trust_statement TrustLabel.contract_metadata_only =
    "Contract-only catalog metadata; no component was imported or executed."
trust_statement TrustLabel.installed_subject_inspected =
    "Installed component identity and schema were inspected; no calculation was executed."
trust_statement TrustLabel.unverified_caller_data =
    "Registered caller-supplied data is unverified and unauthenticated."
trust_statement TrustLabel.structural_compatibility_only =
    "Semantic-port compatibility is structural only; it neither transfers data nor authorizes execution."
trust_statement TrustLabel.unmanaged_execution =
    "Unsigned host-reconciled record for an unmanaged local operation; digests bind its request, selected subject, result, and declared artifact bytes. Data authenticity, financial approval, correctness, and independent execution are not attested."
trust_statement TrustLabel.no_verified_result =
    "No dataset, component result, or digest-checked artifact was returned."

-- `HostFailureSpec`
pub record HostFailureSpec : Type 0 where
  pub outcome : HostOutcome
  pub message : String
  pub retry_allowed : Bool
  pub retry_condition : String

abbrev says : HostOutcome → String → Bool → String → HostFailureSpec
says outcome message retry_allowed retry_condition = record {
  outcome = outcome;
  message = message;
  retry_allowed = retry_allowed;
  retry_condition = retry_condition;
}

-- `HOST_FAILURE_SPECS`
unfoldable pub failure_spec : HostFailureCode → HostFailureSpec
failure_spec HostFailureCode.invalid_tool_request =
    says HostOutcome.refused "The request does not satisfy the closed tool schema." false
      "Correct the request before submitting a new call."
failure_spec HostFailureCode.unsupported_host_schema =
    says HostOutcome.refused "The requested host schema version is not supported." false
      "Use a host schema version declared by this server."
failure_spec HostFailureCode.unsupported_protocol_version =
    says HostOutcome.refused "The requested Defined Quant protocol version is not supported." false
      "Use a protocol version declared compatible by the installed release."
failure_spec HostFailureCode.unsupported_reference_version =
    says HostOutcome.refused "The requested content-addressed reference version is not supported."
      false "Use a reference version declared by this server."
failure_spec HostFailureCode.component_not_found =
    says HostOutcome.failed "The requested component is not available in the active catalog." false
      "Search the active catalog and submit an available component ID."
failure_spec HostFailureCode.component_identity_mismatch =
    says HostOutcome.refused
      "The requested component ID, version, or subject hash does not match the verified installed identity."
      false "Inspect the component again and submit the exact returned identity."
failure_spec HostFailureCode.missing_convention =
    says HostOutcome.needs_information
      "An answer-changing financial convention must be supplied explicitly." false
      "Obtain the missing convention from the user before submitting a new call."
failure_spec HostFailureCode.incompatible_ports =
    says HostOutcome.refused "The selected output and input semantic ports are not compatible."
      false "Select a compatible component field mapping before submitting a new call."
failure_spec HostFailureCode.unsupported_binding =
    says HostOutcome.refused
      "The requested data binding form is not supported by this host version." false
      "Use a literal or one supported immutable source record."
failure_spec HostFailureCode.multiple_non_literal_sources =
    says HostOutcome.refused "An operation may use at most one non-literal source record." false
      "Use one dataset or one upstream operation source before submitting a new call."
failure_spec HostFailureCode.invalid_dataset =
    says HostOutcome.refused "The supplied data does not satisfy the closed dataset contract." false
      "Correct and register the dataset again."
failure_spec HostFailureCode.unsupported_data_format =
    says HostOutcome.refused "The supplied data format is not supported." false
      "Use one of the explicitly supported inline, JSON, or CSV forms."
failure_spec HostFailureCode.input_root_denied =
    says HostOutcome.refused "Local file access is not permitted by the configured input roots."
      false "Use inline data or restart the server with an explicitly configured root."
failure_spec HostFailureCode.unsafe_input_path =
    says HostOutcome.refused "The local input path failed closed path and file-type checks." false
      "Use a regular non-symlink file beneath a configured root."
failure_spec HostFailureCode.input_limit_exceeded =
    says HostOutcome.refused "The request or dataset exceeds a configured byte or count limit."
      false "Reduce the request, file, row, column, or cell size before submitting a new call."
failure_spec HostFailureCode.invalid_field_mapping =
    says HostOutcome.refused "The requested source-to-input field mapping is invalid." false
      "Correct the explicit field mapping before submitting a new call."
failure_spec HostFailureCode.reference_not_found =
    says HostOutcome.failed
      "The requested immutable reference does not exist in the active session." false
      "Register the dataset or execute the operation again to obtain an active reference."
failure_spec HostFailureCode.reference_scope_denied =
    says HostOutcome.refused
      "The requested immutable reference is not available to the active session scope." false
      "Use a reference issued within the active session and authorized scope."
failure_spec HostFailureCode.record_corrupt =
    says HostOutcome.failed
      "The immutable stored record failed schema or digest verification and was refused." false
      "Do not reuse the record; terminate the affected session and create a new record."
failure_spec HostFailureCode.cache_full =
    says HostOutcome.failed "The session storage quota cannot accept another immutable record." true
      "Retry only in a new session or after an operator increases the configured quota."
failure_spec HostFailureCode.record_publication_failed =
    says HostOutcome.failed "The immutable host record could not be published safely." true
      "Retry only after the host storage condition has been resolved."
failure_spec HostFailureCode.worker_timeout =
    says HostOutcome.failed "The bounded worker exceeded its wall-clock execution limit." true
      "Retry only after reducing the workload."
failure_spec HostFailureCode.worker_cancelled =
    says HostOutcome.failed
      "The bounded worker operation was cancelled and its process tree was terminated." true
      "Retry only when the caller explicitly requests a new execution."
failure_spec HostFailureCode.worker_crashed =
    says HostOutcome.failed "The bounded worker exited without a valid typed response." true
      "Retry at most once after the host replaces the failed worker."
failure_spec HostFailureCode.worker_capacity =
    says HostOutcome.failed "The bounded worker concurrency limit is currently occupied." true
      "Retry only after another worker request has completed."
failure_spec HostFailureCode.worker_resource_limit =
    says HostOutcome.failed
      "The bounded worker exceeded its configured memory or captured-output resource limit." false
      "Reduce the workload before submitting a new call."
failure_spec HostFailureCode.component_refused =
    says HostOutcome.refused
      "The component refused the requested calculation within its declared scope." false
      "Change the unsupported request or choose another component before submitting a new call."
failure_spec HostFailureCode.component_failed =
    says HostOutcome.failed "The component failed outside its supported refusal protocol." false
      "Do not retry the unchanged request against the same installed component identity."
failure_spec HostFailureCode.invalid_component_input =
    says HostOutcome.refused
      "The resolved input does not satisfy the component's canonical input model." false
      "Correct the component input before submitting a new call."
failure_spec HostFailureCode.output_validation_failed =
    says HostOutcome.failed
      "The component output failed its canonical output model or identity checks." false
      "Do not retry until the installed component implementation is corrected or replaced."
failure_spec HostFailureCode.component_contract_error =
    says HostOutcome.failed
      "The installed component or its declarative contract failed integrity checks." false
      "Do not retry until the installed catalog or component is corrected."
failure_spec HostFailureCode.artifact_publication_failed =
    says HostOutcome.failed
      "The operation output or declared artifact could not be published safely." false
      "Do not retry automatically; an operator must resolve the host publication condition."
failure_spec HostFailureCode.result_limit_exceeded =
    says HostOutcome.refused
      "The requested response, page, operation output, or artifact exceeds a configured limit."
      false
      "Request a smaller bounded page or reduce the operation output before submitting a new call."
failure_spec HostFailureCode.artifact_not_found =
    says HostOutcome.failed
      "The requested artifact is not declared by the validated operation manifest." false
      "Use an artifact identifier declared by the validated operation response."
failure_spec HostFailureCode.internal_failure =
    says HostOutcome.failed "The host failed internally without a safe domain-specific outcome."
      false "Do not retry automatically; report the stable host code to the operator."
