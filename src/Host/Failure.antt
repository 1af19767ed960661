-- ===== src/Host/Failure.antt =====
-- The envelopes of shared/host_failures.py: what a host answers, as the models that validate it. A
-- frozen copy of JSON has the value of what it copies. Every `host_schema_version` is 1 and every
-- success has the outcome "ok".
use Prim.Native.String.{String}
use text.Mathlib.Text.{◌==◌ as str_eq}
use defined_quant_components.Common.{
  Bool, true, false, ◌&&◌, ◌||◌, not, Option, none, some, [], ◌∷◌, Result, ok, ◌>>=◌, ◌>>◌,
  raise_if, leb, length,
}
use defined_quant_components.Canonical.{Value, Members, end}
use defined_quant_components.Canonical.Number.{pos}
use defined_quant_components.Managed.Json.{codes, object, array}
use defined_quant_components.Ports.{same_bool}
use defined_quant_components.Host.Codes.{HostOutcome, HostFailureCode, TrustLabel, label_value}
use defined_quant_components.Host.Presentation.{trust_statement, failure_spec}
use defined_quant_components.Host.Details.{details_valid}

-- The ValueErrors of the models, by what they refuse.
pub data HostModelError : Type 0 where
  text_length wrong_statement wrong_presentation wrong_details wrong_outcome : HostModelError

-- `Field(min_length=1, max_length=500)`
abbrev pub is_short_text : String → Bool
is_short_text s = leb 1 (length (codes s)) && leb (length (codes s)) 500

pub record Trust : Type 0 where
  pub label : TrustLabel
  pub statement : String

-- `Trust.validate_statement`
unfoldable pub validate_statement : Trust → Result HostModelError Trust
unfolding trust_statement
validate_statement t = do
  raise_if (not (str_eq t.statement (trust_statement t.label))) wrong_statement
  ok t

-- `Trust(label=…, statement=…)`
unfoldable pub new_trust : TrustLabel → String → Result HostModelError Trust
unfolding validate_statement
new_trust label statement = do
  raise_if (not (is_short_text statement)) text_length
  validate_statement (record { label = label; statement = statement })

pub record HostSuccess : Type 0 where
  pub data_members : Members
  pub trust : Trust

pub record HostError : Type 0 where
  pub code : HostFailureCode
  pub message : String
  pub retry_allowed : Bool
  pub details : Members

-- `HostError.validate_fixed_fields`
unfoldable pub validate_fixed_fields : HostError → Result HostModelError HostError
unfolding failure_spec details_valid
validate_fixed_fields e = do
  raise_if
      (not (str_eq e.message (failure_spec e.code).message)
        || not (same_bool e.retry_allowed (failure_spec e.code).retry_allowed))
      wrong_presentation
  raise_if (not (details_valid e.code e.details)) wrong_details
  ok e

-- `HostError(code=…, message=…, retry_allowed=…, details=…)`
unfoldable pub new_error :
    HostFailureCode → String → Bool → Members → Result HostModelError HostError
unfolding validate_fixed_fields
new_error code message retry_allowed details = do
  raise_if (not (is_short_text message)) text_length
  validate_fixed_fields
      (record { code = code; message = message; retry_allowed = retry_allowed; details = details })

pub record HostFailure : Type 0 where
  pub outcome : HostOutcome
  pub error : HostError
  pub trust : Trust

abbrev pub same_outcome : HostOutcome → HostOutcome → Bool
same_outcome HostOutcome.needs_information HostOutcome.needs_information = true
same_outcome HostOutcome.refused HostOutcome.refused = true
same_outcome HostOutcome.failed HostOutcome.failed = true
same_outcome _ _ = false

-- `HostFailure.validate_outcome`
unfoldable pub validate_outcome : HostFailure → Result HostModelError HostFailure
unfolding failure_spec
validate_outcome f = do
  raise_if (not (same_outcome f.outcome (failure_spec f.error.code).outcome)) wrong_outcome
  ok f

-- `trust_notice`, whose label is `no_verified_result` where the caller names none
unfoldable pub trust_notice : TrustLabel → Result HostModelError Trust
unfolding new_trust trust_statement
trust_notice label = new_trust label (trust_statement label)

-- `host_success`
unfoldable pub host_success : Members → TrustLabel → Result HostModelError HostSuccess
unfolding trust_notice
host_success contents label = do
  notice ← trust_notice label
  ok (record { data_members = contents; trust = notice })

-- `HOST_SUCCESS_TEXT`
abbrev pub host_success_text : String
host_success_text = "Defined Quant host outcome: ok; use structuredContent."

-- `tool_success_result_projection`
unfoldable pub tool_success_result_projection : Members → TrustLabel → Result HostModelError Value
unfolding host_success label_value
tool_success_result_projection contents label = do
  success ← host_success contents label
  ok (
      object (
        (
          "content",
          array (
              object (
                ("type", Value.string (codes "text"))
                ∷ ("text", Value.string (codes host_success_text))
                ∷ [])
              ∷ []),
        )
        ∷ (
          "structuredContent",
          object (
              ("host_schema_version", Value.integer (pos 1))
              ∷ ("outcome", Value.string (codes "ok"))
              ∷ ("data", Value.mapping success.data_members)
              ∷ (
                "trust",
                object (
                    ("label", Value.string (codes (label_value success.trust.label)))
                    ∷ ("statement", Value.string (codes success.trust.statement))
                    ∷ []),
              )
              ∷ []),
        )
        ∷ ("isError", Value.boolean false)
        ∷ []))

-- `dict(details or {})`
abbrev pub details_or_empty : Option Members → Members
details_or_empty none = end
details_or_empty (some details) = details

-- `host_failure`
unfoldable pub host_failure :
    HostFailureCode → Option Members → TrustLabel → Result HostModelError HostFailure
unfolding failure_spec new_error trust_notice validate_outcome
host_failure code details label = do
  error ←
      new_error code (failure_spec code).message (failure_spec code).retry_allowed
        (details_or_empty details)
  notice ← trust_notice label
  validate_outcome (record { outcome = (failure_spec code).outcome; error = error; trust = notice })
