-- ===== src/Host/Redacted.antt =====
-- What `map_operation_error` of shared/host_failures.py lets through of an error.
use native.Mathlib.Decide.{ℕ_discrete}
use defined_quant_components.Common.{
  ◌≤◌, ◌≡◌, refl, ap, sym, ◌∙◌, ◌||◌, ◌⊎◌, inl, inr, Bool, true, false, Option, none, some, List,
  [], ◌∷◌, ◌++◌, Result, ok, err, length, All, arith, Bool-cases,
}
use defined_quant_components.Utf8.{Text}
use defined_quant_components.Canonical.{Value, Members, end}
use defined_quant_components.Managed.Json.{
  codes, Text-discrete, same, same→eq, eq→same, contains, all_distinct,
}
use defined_quant_components.Managed.Policy.{ComponentRef}
use defined_quant_components.Host.Codes.{
  HostFailureCode, TrustLabel, OperationErrorCode, default_code,
}
use defined_quant_components.Host.Shape.{
  field_name, is_field_name, is_component_id, component_id, items_length, all_items, exact_keys,
  string_array, get, has_key, keys_among, is_subset_of_keys,
}
use defined_quant_components.Host.Details.{
  details_valid, is_no_member, optional_component_valid, fields_valid, component_valid,
}
use defined_quant_components.Host.Failure.{HostModelError, HostFailure, details_or_empty}
use defined_quant_components.Host.Presented.{presented, host_failure_lem}
use defined_quant_components.Host.Mapping.{
  OperationError, Collection, one_string, strings, field_names_of, verified_fields, project_fields,
  id_of, first_component_id, array_of, fields_details, component_details, component_failure,
  optional_component, refused_failure, by_code, mapped, component_input_fields,
  missing_convention_fields, locations_of, questions_of_error, project_component_id, or_internal,
  failure, map_operation_error,
}
use defined_quant_components.Host.Fields.{
  project_fields-all_distinct, project_fields-few, project_fields-known,
}

-- The strings that a caller names as input fields; a single string names none.
abbrev given : Collection → List Text
given (one_string s) = []
given (strings l) = l

-- The lists of names that may be shown: of the given fields, each well formed, at most 32 and no two
-- the same.
abbrev pub IsShownFields : Collection → List Text → Type 0
IsShownFields fields names =
    All (λ s. (contains Text-discrete (given fields) s ≡ true) × (is_field_name s ≡ true)) names
    × (length names ≤ 32)
    × (all_distinct Text-discrete names ≡ true)

-- The details that may be shown: none, field names, or the identifier of the request's component or
-- of the error's.
abbrev pub IsRedacted : OperationError → Option ComponentRef → Collection → Members → Type 0
IsRedacted e requested fields details =
    (details ≡ end)
    ⊎ ((names : List Text) × (details ≡ fields_details names) × IsShownFields fields names)
    ⊎ ((id : Text) × (details ≡ component_details id)
        × (contains Text-discrete (id_of requested ++ id_of e.component) id ≡ true)
        × (is_component_id id ≡ true))

items_length-array_of : (names : List Text) → items_length (array_of names) ≡ length names
unfolding items_length
items_length-array_of [] = refl
items_length-array_of (s ∷ names) = omega (arith, items_length-array_of names)

all_items-array_of :
    (names : List Text)
    → All (λ s. is_field_name s ≡ true) names
    → all_items field_name (array_of names) ≡ true
unfolding all_items field_name
all_items-array_of [] named = refl
all_items-array_of (s ∷ names) named = rw (named.0, all_items-array_of names named.1) refl

fields_details-valid :
    (names : List Text)
    → All (λ s. is_field_name s ≡ true) names
    → length names ≤ 32
    → fields_valid (fields_details names) ≡ true
unfolding fields_valid exact_keys string_array get is_subset_of_keys keys_among has_key contains
    same Text-discrete ℕ_discrete
fields_details-valid names named few =
    rw (all_items-array_of names named, items_length-array_of names) (ground arith)

component_details-valid :
    (id : Text) → is_component_id id ≡ true → component_valid (component_details id) ≡ true
unfolding component_valid component_id exact_keys get is_subset_of_keys keys_among has_key contains
    same Text-discrete ℕ_discrete
component_details-valid id valid = valid

||-true : (b : Bool) → (b || true) ≡ true
||-true true = refl
||-true false = refl

field_names_of-contains :
    (l : List Text) (s : Text)
    → contains Text-discrete (field_names_of l) s ≡ true
    → (contains Text-discrete l s ≡ true) × (is_field_name s ≡ true)
unfolding field_names_of contains
field_names_of-contains [] s h = cc
field_names_of-contains (t ∷ l) s h = elim (Bool-cases (is_field_name t)) [
  | inl named ↦ elim (Bool-cases (same Text-discrete t s)) [
    | inl equal ↦ (rw equal refl, ap is_field_name (sym (same→eq Text-discrete t s equal)) ∙ named)
    | inr differs ↦
        let rest = field_names_of-contains l s (rw (named, field_names_of, differs) at h) in
        (rw differs rest.0, rest.1)
  ]
  | inr unnamed ↦
      let rest = field_names_of-contains l s (rw (unnamed, field_names_of) at h) in
      (rw rest.0 (||-true (same Text-discrete t s)), rest.1)
]

verified_fields-contains :
    (fields : Collection) (s : Text)
    → contains Text-discrete (verified_fields fields) s ≡ true
    → (contains Text-discrete (given fields) s ≡ true) × (is_field_name s ≡ true)
unfolding verified_fields contains
verified_fields-contains (one_string t) s h = cc
verified_fields-contains (strings l) s h = field_names_of-contains l s h

All-map : {P Q : Text → Type 0} (l : List Text) → ((s : Text) → P s → Q s) → All P l → All Q l
All-map [] f h = tt
All-map (s ∷ l) f h = (f s h.0, All-map l f h.1)

first_component_id-contains :
    (l : List Text) {id : Text}
    → first_component_id l ≡ some id
    → (contains Text-discrete l id ≡ true) × (is_component_id id ≡ true)
unfolding first_component_id contains
first_component_id-contains [] h = cc
first_component_id-contains (s ∷ l) {id = id} h = elim (Bool-cases (is_component_id s)) [
  | inl valid ↦
      let first : s ≡ id = cc (rw (valid, first_component_id) at h) in
      (rw (eq→same Text-discrete first) refl, ap is_component_id (sym first) ∙ valid)
  | inr invalid ↦
      let rest = first_component_id-contains l (rw (invalid, first_component_id) at h) in
      (rw rest.0 (||-true (same Text-discrete s id)), rest.1)
]

project_fields-IsShownFields :
    (fields : Collection) (values : List Value)
    → IsShownFields fields (project_fields values (verified_fields fields))
project_fields-IsShownFields fields values = (
  All-map _ (verified_fields-contains fields)
      (project_fields-known values (verified_fields fields)),
  project_fields-few values (verified_fields fields),
  project_fields-all_distinct values (verified_fields fields),
)

-- A result that shows a failure: its wording is the table's, the code's schema accepts its details,
-- and these are redacted.
abbrev pub IsShown :
    OperationError → Option ComponentRef → Collection → Result HostModelError HostFailure → Type 0
IsShown e requested fields result =
    (code : HostFailureCode) × (details : Members) × (result
      ≡ ok (presented code details TrustLabel.no_verified_result))
    × (details_valid code details ≡ true)
    × IsRedacted e requested fields details

module _ (e : OperationError) (requested : Option ComponentRef) (fields : Collection) where
  failure-IsShown :
      (code : HostFailureCode) (details : Option Members)
      → details_valid code (details_or_empty details) ≡ true
      → IsRedacted e requested fields (details_or_empty details)
      → IsShown e requested fields (failure code details)
  failure-IsShown code details valid redacted = (
    code,
    details_or_empty details,
    rw (host_failure_lem code details TrustLabel.no_verified_result, valid) refl,
    valid,
    redacted,
  )

  fields-IsShown :
      (code : HostFailureCode) (names : List Text)
      → ((d : Members) → details_valid code d ≡ fields_valid d)
      → IsShownFields fields names
      → IsShown e requested fields (failure code (some (fields_details names)))
  fields-IsShown code names schema shown =
      failure-IsShown code (some (fields_details names))
        (schema (fields_details names)
          ∙ fields_details-valid names (All-map names (λ s h. h.1) shown.0) shown.1)
        (inr (inl (names, refl, shown)))

  component-IsShown :
      (code : HostFailureCode) (id : Option Text)
      → project_component_id e requested ≡ id
      → ((d : Members) → details_valid code d ≡ component_valid d)
      → IsShown e requested fields (component_failure code id)
  unfolding project_component_id details_valid is_no_member
  component-IsShown code none found schema =
      failure-IsShown HostFailureCode.internal_failure none refl (inl refl)
  component-IsShown code (some id) found schema =
      let of = first_component_id-contains (id_of requested ++ id_of e.component) found in
      failure-IsShown code (some (component_details id))
        (schema (component_details id) ∙ component_details-valid id of.1)
        (inr (inr (id, refl, of.0, of.1)))

  optional-IsShown :
      (id : Option Text)
      → project_component_id e requested ≡ id
      → IsShown e requested fields
          (failure HostFailureCode.component_contract_error (some (optional_component id)))
  unfolding project_component_id details_valid optional_component_valid exact_keys get
      is_subset_of_keys keys_among has_key contains component_id same Text-discrete ℕ_discrete
  optional-IsShown none found =
      failure-IsShown HostFailureCode.component_contract_error (some end) refl (inl refl)
  optional-IsShown (some id) found =
      let of = first_component_id-contains (id_of requested ++ id_of e.component) found in
      failure-IsShown HostFailureCode.component_contract_error (some (component_details id)) of.1
        (inr (inr (id, refl, of.0, of.1)))

  refused-IsShown :
      (names : List Text)
      → IsShownFields fields names
      → IsShown e requested fields (
          refused_failure HostFailureCode.component_refused names
            (project_component_id e requested))
  unfolding details_valid
  refused-IsShown [] shown =
      component-IsShown HostFailureCode.component_refused (project_component_id e requested) refl
        (λ d. refl)
  refused-IsShown (s ∷ names) shown =
      fields-IsShown HostFailureCode.missing_convention (s ∷ names) (λ d. refl) shown

  by_code-IsShown :
      (code : OperationErrorCode) → IsShown e requested fields (by_code e requested fields code)
  unfolding default_code details_valid component_input_fields missing_convention_fields is_no_member
      all_distinct
  by_code-IsShown OperationErrorCode.invalid_operation_request =
      fields-IsShown HostFailureCode.invalid_tool_request [] (λ d. refl) (tt, omega arith, refl)
  by_code-IsShown OperationErrorCode.invalid_json =
      fields-IsShown HostFailureCode.invalid_tool_request [] (λ d. refl) (tt, omega arith, refl)
  by_code-IsShown OperationErrorCode.component_not_found =
      component-IsShown HostFailureCode.component_not_found (project_component_id e requested) refl
        (λ d. refl)
  by_code-IsShown OperationErrorCode.component_identity_mismatch =
      component-IsShown HostFailureCode.component_identity_mismatch
        (project_component_id e requested) refl (λ d. refl)
  by_code-IsShown OperationErrorCode.invalid_component_input =
      fields-IsShown HostFailureCode.invalid_component_input _ (λ d. refl)
        (project_fields-IsShownFields fields (locations_of (get e.details (codes "errors"))))
  by_code-IsShown OperationErrorCode.component_refused = refused-IsShown _ (
      project_fields-IsShownFields fields
        (questions_of_error (get e.details (codes "component_error"))))
  by_code-IsShown OperationErrorCode.component_execution_failed =
      component-IsShown HostFailureCode.component_failed (project_component_id e requested) refl
        (λ d. refl)
  by_code-IsShown OperationErrorCode.output_validation_failed =
      component-IsShown HostFailureCode.output_validation_failed (project_component_id e requested)
        refl (λ d. refl)
  by_code-IsShown OperationErrorCode.component_contract_error =
      optional-IsShown (project_component_id e requested) refl
  by_code-IsShown OperationErrorCode.invalid_output_directory =
      failure-IsShown HostFailureCode.artifact_publication_failed none refl (inl refl)
  by_code-IsShown OperationErrorCode.output_exists =
      failure-IsShown HostFailureCode.artifact_publication_failed none refl (inl refl)
  by_code-IsShown OperationErrorCode.artifact_write_failed =
      failure-IsShown HostFailureCode.artifact_publication_failed none refl (inl refl)
  by_code-IsShown OperationErrorCode.operation_failed =
      failure-IsShown HostFailureCode.internal_failure none refl (inl refl)

-- `map_operation_error` gives a failure for every error, component of a request and fields, and never
-- by way of its `except`: the failure has the wording, outcome and retry policy of its code and no
-- trust but `no_verified_result`, its details satisfy the code's closed schema, and these are no
-- more than: at most 32 different, well-formed names among the given fields, or the well-formed
-- identifier of the request's component or of the error's.
pub map_operation_error-IsShown :
    (e : OperationError) (requested : Option ComponentRef) (fields : Collection)
    → (map_operation_error e requested fields ≡ mapped e requested fields)
      × IsShown e requested fields (map_operation_error e requested fields)
unfolding map_operation_error mapped
map_operation_error-IsShown e requested fields =
    go (by_code e requested fields e.code) (by_code-IsShown e requested fields e.code)
  where
    go :
        (r : Result HostModelError HostFailure)
        → IsShown e requested fields r
        → (or_internal r ≡ r) × IsShown e requested fields (or_internal r)
    go (ok f) shown = (refl, shown)
    go (err raised) (code, details, made, valid, redacted) = cc made
