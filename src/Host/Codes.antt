-- ===== src/Host/Codes.antt =====
-- The closed vocabularies of shared/host_failures.py, and the error codes of protocol/operation.py
-- that they stand for.
use Prim.Native.String.{String}

-- `HostOutcome`
pub data HostOutcome : Type 0 where
  needs_information refused failed : HostOutcome

-- `HostFailureCode`
pub data HostFailureCode : Type 0 where
  invalid_tool_request unsupported_host_schema unsupported_protocol_version
        unsupported_reference_version component_not_found component_identity_mismatch
        missing_convention incompatible_ports unsupported_binding multiple_non_literal_sources
        invalid_dataset unsupported_data_format input_root_denied unsafe_input_path
        input_limit_exceeded invalid_field_mapping reference_not_found reference_scope_denied
        record_corrupt cache_full record_publication_failed worker_timeout worker_cancelled
        worker_crashed worker_capacity worker_resource_limit component_refused component_failed
        invalid_component_input output_validation_failed component_contract_error
        artifact_publication_failed result_limit_exceeded artifact_not_found internal_failure :
      HostFailureCode

-- `TrustLabel`
pub data TrustLabel : Type 0 where
  contract_metadata_only installed_subject_inspected unverified_caller_data
        structural_compatibility_only unmanaged_execution no_verified_result :
      TrustLabel

unfoldable pub label_value : TrustLabel → String
label_value TrustLabel.contract_metadata_only = "contract_metadata_only"
label_value TrustLabel.installed_subject_inspected = "installed_subject_inspected"
label_value TrustLabel.unverified_caller_data = "unverified_caller_data"
label_value TrustLabel.structural_compatibility_only = "structural_compatibility_only"
label_value TrustLabel.unmanaged_execution = "unmanaged_execution"
label_value TrustLabel.no_verified_result = "no_verified_result"

-- `OperationErrorCode` of protocol/operation.py
pub data OperationErrorCode : Type 0 where
  invalid_operation_request invalid_json component_not_found component_identity_mismatch
        invalid_component_input component_refused component_execution_failed
        output_validation_failed component_contract_error invalid_output_directory output_exists
        artifact_write_failed operation_failed :
      OperationErrorCode

-- `OPERATION_ERROR_DEFAULT_CODES`
unfoldable pub default_code : OperationErrorCode → HostFailureCode
default_code OperationErrorCode.invalid_operation_request = HostFailureCode.invalid_tool_request
default_code OperationErrorCode.invalid_json = HostFailureCode.invalid_tool_request
default_code OperationErrorCode.component_not_found = HostFailureCode.component_not_found
default_code OperationErrorCode.component_identity_mismatch =
    HostFailureCode.component_identity_mismatch
default_code OperationErrorCode.invalid_component_input = HostFailureCode.invalid_component_input
default_code OperationErrorCode.component_refused = HostFailureCode.component_refused
default_code OperationErrorCode.component_execution_failed = HostFailureCode.component_failed
default_code OperationErrorCode.output_validation_failed = HostFailureCode.output_validation_failed
default_code OperationErrorCode.component_contract_error = HostFailureCode.component_contract_error
default_code OperationErrorCode.invalid_output_directory =
    HostFailureCode.artifact_publication_failed
default_code OperationErrorCode.output_exists = HostFailureCode.artifact_publication_failed
default_code OperationErrorCode.artifact_write_failed = HostFailureCode.artifact_publication_failed
default_code OperationErrorCode.operation_failed = HostFailureCode.internal_failure
