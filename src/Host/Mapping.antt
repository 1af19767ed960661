-- ===== src/Host/Mapping.antt =====
-- The projection of a typed runtime error of shared/host_failures.py: which failure the host shows for
-- it, and which field names and component identifiers it lets through. An `OperationError` is that of
-- protocol/operation.py without its message, which the projection does not read.
use defined_quant_components.Common.{
  Bool, true, false, ◌||◌, not, Option, none, some, List, [], ◌∷◌, ◌++◌, Result, ok, err, ◌==◌,
  length, if◌then◌else◌,
}
use defined_quant_components.Utf8.{Text}
use defined_quant_components.Canonical.{Value, Items, Members, no_item, item, end}
use defined_quant_components.Managed.Json.{codes, Text-discrete, same, contains, object_members}
use defined_quant_components.Managed.Policy.{ComponentRef}
use defined_quant_components.Host.Codes.{
  HostFailureCode, TrustLabel, OperationErrorCode, default_code,
}
use defined_quant_components.Host.Shape.{is_field_name, is_component_id, get}
use defined_quant_components.Host.Failure.{HostModelError, HostFailure, host_failure}

pub record OperationError : Type 0 where
  pub code : OperationErrorCode
  pub component : Option ComponentRef
  pub details : Members

pub record OperationFailure : Type 0 where
  pub operation_hash : Option Text
  pub error : OperationError

-- The `Collection[str]` of a caller, which may be a single string.
pub data Collection : Type 0 where
  one_string : Text → Collection
  strings : List Text → Collection

-- `_verified_fields`
unfoldable pub field_names_of : List Text → List Text
unfolding is_field_name
field_names_of [] = []
field_names_of (s ∷ l) = if is_field_name s then s ∷ field_names_of l else field_names_of l

unfoldable pub verified_fields : Collection → List Text
unfolding field_names_of
verified_fields (one_string s) = []
verified_fields (strings l) = field_names_of l

-- The name that a round of `_project_fields` appends: `none` is its `continue`.
unfoldable pub projected_name : List Text → List Text → Value → Option Text
unfolding contains
projected_name verified seen (Value.string s) =
    if not (contains Text-discrete verified s) || contains Text-discrete seen s
    then none
    else some s
projected_name verified seen v = none

-- The loop of `_project_fields`: the values left, `projected` and `seen`
unfoldable pub project_loop : List Text → List Value → List Text → List Text → List Text
unfolding projected_name
project_loop verified [] projected seen = projected
project_loop verified (v ∷ vs) projected seen = elim (projected_name verified seen v) [
  | none ↦ project_loop verified vs projected seen
  | some s ↦ elim (length (projected ++ s ∷ []) == 32) [
    | true ↦ projected ++ s ∷ []
    | false ↦ project_loop verified vs (projected ++ s ∷ []) (s ∷ seen)
  ]
]

-- `_project_fields`, which every caller gives a list
unfoldable pub project_fields : List Value → List Text → List Text
unfolding project_loop
project_fields values verified = project_loop verified values [] []

-- The candidates of `_component_input_fields`
unfoldable pub first_of_location : Value → List Value
first_of_location (Value.sequence (item v vs)) = v ∷ []
first_of_location v = []

unfoldable pub locations : Items → List Value
unfolding first_of_location get
locations no_item = []
locations (item (Value.mapping ms) vs) = first_of_location (get ms (codes "loc")) ++ locations vs
locations (item v vs) = locations vs

-- `_component_input_fields`
unfoldable pub locations_of : Value → List Value
unfolding locations
locations_of (Value.sequence vs) = locations vs
locations_of v = []

unfoldable pub component_input_fields : OperationError → List Text → List Text
unfolding locations_of get project_fields
component_input_fields e verified =
    project_fields (locations_of (get e.details (codes "errors"))) verified

-- The candidates of `_missing_convention_fields`
unfoldable pub question_fields : Items → List Value
unfolding get
question_fields no_item = []
question_fields (item (Value.mapping ms) vs) = get ms (codes "field") ∷ question_fields vs
question_fields (item v vs) = question_fields vs

unfoldable pub questions_of : Value → List Value
unfolding question_fields
questions_of (Value.sequence vs) = question_fields vs
questions_of v = []

unfoldable pub questions_of_details : Value → List Value
unfolding questions_of get
questions_of_details (Value.mapping ms) = questions_of (get ms (codes "questions"))
questions_of_details v = []

unfoldable pub is_string : Text → Value → Bool
is_string s (Value.string t) = same Text-discrete t s
is_string s v = false

unfoldable pub questions_of_error : Value → List Value
unfolding questions_of_details is_string get
questions_of_error (Value.mapping ms) =
    if is_string (codes "ambiguous_input") (get ms (codes "code"))
    then questions_of_details (get ms (codes "details"))
    else []
questions_of_error v = []

-- `_missing_convention_fields`
unfoldable pub missing_convention_fields : OperationError → List Text → List Text
unfolding questions_of_error get project_fields
missing_convention_fields e verified =
    project_fields (questions_of_error (get e.details (codes "component_error"))) verified

-- `_project_component_id`: the request's component, then the error's
abbrev pub id_of : Option ComponentRef → List Text
id_of none = []
id_of (some c) = c.id ∷ []

unfoldable pub first_component_id : List Text → Option Text
unfolding is_component_id
first_component_id [] = none
first_component_id (s ∷ l) = if is_component_id s then some s else first_component_id l

unfoldable pub project_component_id : OperationError → Option ComponentRef → Option Text
unfolding first_component_id
project_component_id e requested = first_component_id (id_of requested ++ id_of e.component)

abbrev pub array_of : List Text → Items
array_of [] = no_item
array_of (s ∷ l) = item (Value.string s) (array_of l)

abbrev pub fields_details : List Text → Members
fields_details names = object_members (("fields", Value.sequence (array_of names)) ∷ [])

abbrev pub component_details : Text → Members
component_details id = object_members (("component_id", Value.string id) ∷ [])

-- `host_failure(code, details=…)` without a trust label
abbrev pub failure : HostFailureCode → Option Members → Result HostModelError HostFailure
failure code details = host_failure code details TrustLabel.no_verified_result

-- The `try` block of `map_operation_error`
abbrev pub component_failure : HostFailureCode → Option Text → Result HostModelError HostFailure
component_failure code none = failure HostFailureCode.internal_failure none
component_failure code (some id) = failure code (some (component_details id))

abbrev pub optional_component : Option Text → Members
optional_component none = end
optional_component (some id) = component_details id

abbrev pub refused_failure :
    HostFailureCode → List Text → Option Text → Result HostModelError HostFailure
refused_failure code [] id = component_failure code id
refused_failure code (s ∷ names) id =
    failure HostFailureCode.missing_convention (some (fields_details (s ∷ names)))

module _ (e : OperationError) (requested : Option ComponentRef) (fields : Collection) where
  abbrev pub by_code : OperationErrorCode → Result HostModelError HostFailure
  by_code OperationErrorCode.invalid_operation_request =
      failure (default_code OperationErrorCode.invalid_operation_request) (some (fields_details []))
  by_code OperationErrorCode.invalid_json =
      failure (default_code OperationErrorCode.invalid_json) (some (fields_details []))
  by_code OperationErrorCode.invalid_component_input =
      failure (default_code OperationErrorCode.invalid_component_input)
        (some (fields_details (component_input_fields e (verified_fields fields))))
  by_code OperationErrorCode.component_refused =
      refused_failure (default_code OperationErrorCode.component_refused)
        (missing_convention_fields e (verified_fields fields)) (project_component_id e requested)
  by_code OperationErrorCode.component_not_found =
      component_failure (default_code OperationErrorCode.component_not_found)
        (project_component_id e requested)
  by_code OperationErrorCode.component_identity_mismatch =
      component_failure (default_code OperationErrorCode.component_identity_mismatch)
        (project_component_id e requested)
  by_code OperationErrorCode.component_execution_failed =
      component_failure (default_code OperationErrorCode.component_execution_failed)
        (project_component_id e requested)
  by_code OperationErrorCode.output_validation_failed =
      component_failure (default_code OperationErrorCode.output_validation_failed)
        (project_component_id e requested)
  by_code OperationErrorCode.component_contract_error =
      failure (default_code OperationErrorCode.component_contract_error)
        (some (optional_component (project_component_id e requested)))
  by_code other = failure (default_code other) none

  unfoldable pub mapped : Result HostModelError HostFailure
  unfolding default_code verified_fields component_input_fields missing_convention_fields
      project_component_id
  mapped = by_code e.code

-- `except Exception: return host_failure(HostFailureCode.INTERNAL_FAILURE)`
abbrev pub or_internal : Result HostModelError HostFailure → Result HostModelError HostFailure
or_internal (ok f) = ok f
or_internal (err raised) = failure HostFailureCode.internal_failure none

-- `map_operation_error`
unfoldable pub map_operation_error :
    OperationError → Option ComponentRef → Collection → Result HostModelError HostFailure
unfolding mapped
map_operation_error e requested fields = or_internal (mapped e requested fields)

-- `map_operation_failure`
unfoldable pub map_operation_failure :
    OperationFailure → Option ComponentRef → Collection → Result HostModelError HostFailure
unfolding map_operation_error
map_operation_failure f requested fields = map_operation_error f.error requested fields
