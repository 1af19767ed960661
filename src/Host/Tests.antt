-- ===== src/Host/Tests.antt =====
-- An ambiguous input that names a known and an unknown field, and the limit of a payload.
use native.Mathlib.Decide.{ℕ_discrete}
use defined_quant_components.Common.{
  ◌≡◌, refl, true, none, some, List, [], ◌∷◌, ok, err, take, if◌then◌else◌,
}
use defined_quant_components.Utf8.{Text, encode, encode_char}
use defined_quant_components.Canonical.{Value, Members}
use defined_quant_components.Canonical.Number.{pos}
use defined_quant_components.Managed.Json.{
  codes, object, object_members, array, same, contains, Text-discrete,
}
use defined_quant_components.Host.Codes.{HostFailureCode, TrustLabel, OperationErrorCode}
use defined_quant_components.Host.Shape.{field_name}
use defined_quant_components.Host.Failure.{HostModelError, host_failure}
use defined_quant_components.Host.Presented.{presented, host_failure_lem}
use defined_quant_components.Host.Details.{details_valid}
use defined_quant_components.Host.Mapping.{
  OperationError, Collection, strings, fields_details, mapped, map_operation_error, project_fields,
}
use defined_quant_components.Host.Fields.{known, distinct, strings_of, project_fields_lem}
use defined_quant_components.Host.Redacted.{IsShown, map_operation_error-IsShown}

abbrev question : List Text → Value
question [] = object []
question (s ∷ l) = object (("field", Value.string s) ∷ [])

abbrev ambiguous : OperationError
ambiguous = record {
  code = OperationErrorCode.component_refused;
  component = none;
  details = object_members (
      (
        "component_error",
        object (
            ("code", Value.string (codes "ambiguous_input"))
            ∷ (
              "details",
              object (
                  (
                    "questions",
                    array (
                        question (codes "secret" ∷ [])
                        ∷ question (codes "periods" ∷ [])
                        ∷ question []
                        ∷ []),
                  )
                  ∷ []),
            )
            ∷ []),
      )
      ∷ []);
}

abbrev inputs : Collection
inputs = strings (codes "prices" ∷ codes "periods" ∷ [])

only_periods :
    mapped ambiguous none inputs
    ≡ ok (
        presented HostFailureCode.missing_convention
          (fields_details (codes "periods" ∷ []))
          TrustLabel.no_verified_result)
unfolding mapped same Text-discrete ℕ_discrete encode encode_char host_failure field_name
only_periods = refl

map_operation_error-IsShown_example :
    (map_operation_error ambiguous none inputs ≡ mapped ambiguous none inputs)
    × IsShown ambiguous none inputs (map_operation_error ambiguous none inputs)
map_operation_error-IsShown_example = map_operation_error-IsShown ambiguous none inputs

-- An empty string stands for no differences.
empty_string :
    details_valid HostFailureCode.incompatible_ports
      (object_members (("differences", Value.string []) ∷ []))
    ≡ true
unfolding details_valid same Text-discrete ℕ_discrete contains
empty_string = refl

-- The details of a full payload.
abbrev too_long : Members
too_long = object_members (
    ("limit_name", Value.string (codes "normalized_dataset_payload_bytes"))
    ∷ ("maximum", Value.integer (pos 524288))
    ∷ ("actual", Value.integer (pos 524289))
    ∷ [])

host_failure_lem_example :
    host_failure HostFailureCode.input_limit_exceeded (some too_long) TrustLabel.no_verified_result
    ≡ (if details_valid HostFailureCode.input_limit_exceeded too_long
        then ok
            (presented HostFailureCode.input_limit_exceeded too_long TrustLabel.no_verified_result)
        else err HostModelError.wrong_details)
host_failure_lem_example =
    host_failure_lem HostFailureCode.input_limit_exceeded (some too_long)
      TrustLabel.no_verified_result

limit_details : details_valid HostFailureCode.input_limit_exceeded too_long ≡ true
unfolding details_valid same Text-discrete ℕ_discrete contains
limit_details = refl

abbrev candidates : List Value
candidates =
    Value.string (codes "b")
    ∷ Value.null
    ∷ Value.string (codes "a")
    ∷ Value.string (codes "b")
    ∷ Value.string (codes "c")
    ∷ []

abbrev verified : List Text
verified = codes "a" ∷ codes "b" ∷ []

project_fields_lem_example :
    project_fields candidates verified
    ≡ take 32 (distinct [] (known verified (strings_of candidates)))
project_fields_lem_example = project_fields_lem candidates verified

b_then_a : project_fields candidates verified ≡ codes "b" ∷ codes "a" ∷ []
unfolding project_fields same Text-discrete ℕ_discrete contains
b_then_a = refl
