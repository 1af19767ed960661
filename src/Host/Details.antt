-- ===== src/Host/Details.antt =====
-- `_validate_failure_details` of shared/host_failures.py: the closed schema of the details that each
-- failure code takes. `PortDifference` is the model of Ports, read from a JSON object.
use defined_quant_components.Common.{
  Bool, true, false, ◌&&◌, ◌||◌, not, Option, none, some, List, [], ◌∷◌, ◌++◌, Result, ok, err, leb,
  ◌==◌, length, if◌then◌else◌,
}
use defined_quant_components.Utf8.{Text}
use defined_quant_components.Canonical.{Value, Members, end, member}
use defined_quant_components.Canonical.Number.{pos}
use defined_quant_components.Managed.Json.{codes, Text-discrete, same, contains}
use defined_quant_components.Ports.{new_difference, port_dimensions}
use defined_quant_components.Ports.Vocabulary.{
  PortDimension, PortValue, dimension_value, members, wire,
}
use defined_quant_components.Host.Codes.{HostFailureCode}
use defined_quant_components.Host.Shape.{
  utf8_size, field_name, is_ascii, component_id, safe_id, safe_integer, least_safe_integer, get,
  has_key, exact_keys, items_length, all_items, string_array,
}

-- `_INPUT_LIMIT_NAMES`
abbrev pub input_limit_names : List Text
input_limit_names =
    codes "tool_arguments_bytes"
    ∷ codes "inline_json_source_bytes"
    ∷ codes "local_file_bytes"
    ∷ codes "normalized_dataset_payload_bytes"
    ∷ codes "worker_request_bytes"
    ∷ codes "dataset_rows"
    ∷ codes "dataset_columns"
    ∷ codes "decoded_cell_bytes"
    ∷ []

-- `_RESULT_LIMIT_NAMES`
abbrev pub result_limit_names : List Text
result_limit_names =
    codes "search_response_bytes"
    ∷ codes "structured_tool_response_bytes"
    ∷ codes "dataset_preview_page_bytes"
    ∷ codes "result_page_bytes"
    ∷ codes "message_page_bytes"
    ∷ codes "artifact_decoded_bytes"
    ∷ codes "resource_response_frame_bytes"
    ∷ codes "normalized_result_member_bytes"
    ∷ codes "result_top_level_fields"
    ∷ codes "operation_artifacts"
    ∷ codes "operation_bundle_bytes"
    ∷ codes "worker_control_response_bytes"
    ∷ []

unfoldable pub is_no_member : Members → Bool
is_no_member end = true
is_no_member (member key v ms) = false

unfoldable pub fields_valid : Members → Bool
unfolding exact_keys string_array get
fields_valid details =
    exact_keys details (codes "fields" ∷ []) []
    && string_array field_name 32 (get details (codes "fields"))

unfoldable pub host_version_valid : Members → Bool
unfolding exact_keys safe_integer get
host_version_valid details =
    exact_keys details (codes "requested_version" ∷ []) []
    && safe_integer least_safe_integer (get details (codes "requested_version"))

unfoldable pub protocol_version : Value → Bool
unfolding utf8_size
protocol_version (Value.string s) = elim (utf8_size s) [ none ↦ false | some size ↦ leb size 128 ]
protocol_version v = false

unfoldable pub protocol_version_valid : Members → Bool
unfolding exact_keys protocol_version get
protocol_version_valid details =
    exact_keys details (codes "requested_version" ∷ []) []
    && protocol_version (get details (codes "requested_version"))

unfoldable pub all_digits : Text → Bool
all_digits [] = true
all_digits (c ∷ s) = leb b'0' c && leb c b'9' && all_digits s

-- `_REFERENCE_VERSION`, which is `^v[0-9]{1,3}$`
unfoldable pub matches_reference_version : Text → Bool
unfolding all_digits
matches_reference_version [] = false
matches_reference_version (c ∷ s) =
    c == b'v' && leb 1 (length s) && leb (length s) 3 && all_digits s

unfoldable pub reference_version : Value → Bool
unfolding is_ascii matches_reference_version
reference_version (Value.string s) = is_ascii s && matches_reference_version s
reference_version v = false

unfoldable pub reference_version_valid : Members → Bool
unfolding exact_keys reference_version get
reference_version_valid details =
    exact_keys details (codes "requested_version" ∷ []) []
    && reference_version (get details (codes "requested_version"))

unfoldable pub component_valid : Members → Bool
unfolding exact_keys component_id get
component_valid details =
    exact_keys details (codes "component_id" ∷ []) []
    && component_id (get details (codes "component_id"))

unfoldable pub optional_component_valid : Members → Bool
unfolding exact_keys component_id get has_key
optional_component_valid details =
    exact_keys details [] (codes "component_id" ∷ [])
    && (not (has_key details (codes "component_id"))
        || component_id (get details (codes "component_id")))

unfoldable pub findings_valid : Members → Bool
unfolding exact_keys string_array get safe_id
findings_valid details =
    exact_keys details (codes "finding_codes" ∷ []) []
    && string_array safe_id 32 (get details (codes "finding_codes"))

unfoldable pub limit_name : List Text → Value → Bool
limit_name names (Value.string s) = contains Text-discrete names s
limit_name names v = false

unfoldable pub limit_valid : List Text → Members → Bool
unfolding exact_keys limit_name safe_integer get
limit_valid names details =
    exact_keys details (codes "limit_name" ∷ codes "maximum" ∷ codes "actual" ∷ []) []
    && limit_name names (get details (codes "limit_name"))
    && safe_integer (pos 0) (get details (codes "maximum"))
    && safe_integer (pos 0) (get details (codes "actual"))

unfoldable pub artifact_valid : Members → Bool
unfolding exact_keys safe_id get
artifact_valid details =
    exact_keys details (codes "artifact_id" ∷ []) [] && safe_id (get details (codes "artifact_id"))

-- `PortDimension(text)`
unfoldable pub dimension_named : List PortDimension → Text → Option PortDimension
unfolding dimension_value
dimension_named [] s = none
dimension_named (d ∷ ds) s =
    if same Text-discrete (codes (dimension_value d)) s then some d else dimension_named ds s

-- A value of the enumerations with that wire value, first of the dimension's own: what the model's
-- coercion and then the union of the enumerations make of a string.
unfoldable pub value_named : List PortValue → Text → Option PortValue
unfolding wire
value_named [] s = none
value_named (v ∷ vs) s = if same Text-discrete (codes (wire v)) s then some v else value_named vs s

unfoldable pub all_values : List PortDimension → List PortValue
unfolding members
all_values [] = []
all_values (d ∷ ds) = members d ++ all_values ds

unfoldable pub port_value_of : PortDimension → Value → Option PortValue
unfolding value_named members all_values
port_value_of d (Value.string s) = value_named (members d ++ all_values port_dimensions) s
port_value_of d v = none

unfoldable pub dimension_of_value : Value → Option PortDimension
unfolding dimension_named
dimension_of_value (Value.string s) = dimension_named port_dimensions s
dimension_of_value v = none

abbrev is_ok : {E A : Type 0} → Result E A → Bool
is_ok (ok a) = true
is_ok (err e) = false

-- `PortDifference.model_validate` succeeds
unfoldable pub valid_difference : Value → Bool
unfolding exact_keys get dimension_of_value port_value_of new_difference
valid_difference (Value.mapping ms) =
    exact_keys ms (codes "dimension" ∷ codes "producer_value" ∷ codes "consumer_value" ∷ []) []
    && elim (dimension_of_value (get ms (codes "dimension"))) [
      | none ↦ false
      | some d ↦ elim (port_value_of d (get ms (codes "producer_value"))) [
        | none ↦ false
        | some producer ↦ elim (port_value_of d (get ms (codes "consumer_value"))) [
          | none ↦ false
          | some consumer ↦ is_ok (new_difference d producer consumer)
        ]
      ]
    ]
valid_difference v = false

-- A string is a `Sequence` too, whose characters are no differences.
unfoldable pub difference_sequence : Value → Bool
unfolding items_length valid_difference
difference_sequence (Value.sequence vs) = leb (items_length vs) 8 && all_items valid_difference vs
difference_sequence (Value.string []) = true
difference_sequence v = false

unfoldable pub differences_valid : Members → Bool
unfolding exact_keys get difference_sequence
differences_valid details =
    exact_keys details (codes "differences" ∷ []) []
    && difference_sequence (get details (codes "differences"))

-- The `valid` of `_validate_failure_details`
unfoldable pub details_valid : HostFailureCode → Members → Bool
unfolding is_no_member fields_valid host_version_valid protocol_version_valid
    reference_version_valid component_valid optional_component_valid findings_valid limit_valid
    artifact_valid differences_valid
details_valid HostFailureCode.unsupported_binding details = is_no_member details
details_valid HostFailureCode.multiple_non_literal_sources details = is_no_member details
details_valid HostFailureCode.unsupported_data_format details = is_no_member details
details_valid HostFailureCode.input_root_denied details = is_no_member details
details_valid HostFailureCode.unsafe_input_path details = is_no_member details
details_valid HostFailureCode.reference_not_found details = is_no_member details
details_valid HostFailureCode.reference_scope_denied details = is_no_member details
details_valid HostFailureCode.record_corrupt details = is_no_member details
details_valid HostFailureCode.cache_full details = is_no_member details
details_valid HostFailureCode.record_publication_failed details = is_no_member details
details_valid HostFailureCode.worker_timeout details = is_no_member details
details_valid HostFailureCode.worker_cancelled details = is_no_member details
details_valid HostFailureCode.worker_crashed details = is_no_member details
details_valid HostFailureCode.worker_capacity details = is_no_member details
details_valid HostFailureCode.worker_resource_limit details = is_no_member details
details_valid HostFailureCode.artifact_publication_failed details = is_no_member details
details_valid HostFailureCode.internal_failure details = is_no_member details
details_valid HostFailureCode.invalid_tool_request details = fields_valid details
details_valid HostFailureCode.missing_convention details = fields_valid details
details_valid HostFailureCode.invalid_field_mapping details = fields_valid details
details_valid HostFailureCode.invalid_component_input details = fields_valid details
details_valid HostFailureCode.unsupported_host_schema details = host_version_valid details
details_valid HostFailureCode.unsupported_protocol_version details = protocol_version_valid details
details_valid HostFailureCode.unsupported_reference_version details =
    reference_version_valid details
details_valid HostFailureCode.component_not_found details = component_valid details
details_valid HostFailureCode.component_identity_mismatch details = component_valid details
details_valid HostFailureCode.component_refused details = component_valid details
details_valid HostFailureCode.component_failed details = component_valid details
details_valid HostFailureCode.output_validation_failed details = component_valid details
details_valid HostFailureCode.component_contract_error details = optional_component_valid details
details_valid HostFailureCode.invalid_dataset details = findings_valid details
details_valid HostFailureCode.input_limit_exceeded details = limit_valid input_limit_names details
details_valid HostFailureCode.result_limit_exceeded details = limit_valid result_limit_names details
details_valid HostFailureCode.artifact_not_found details = artifact_valid details
details_valid HostFailureCode.incompatible_ports details = differences_valid details
