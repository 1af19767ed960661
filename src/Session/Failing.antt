-- ===== src/Session/Failing.antt =====
-- The exceptions of shared/session_cas.py: a `HostFailureException` with the failure that it carries, or
-- any other (a ValueError, or an error of the secure file system).
use defined_quant_components.Common.{◌≡◌, refl, true, Option, none, some, Result, ok, err, []}
use defined_quant_components.Canonical.{Members}
use defined_quant_components.Host.Codes.{HostFailureCode, TrustLabel}
use defined_quant_components.Host.Details.{details_valid}
use defined_quant_components.Host.Failure.{
  HostModelError, HostFailure, details_or_empty, host_failure,
}
use defined_quant_components.Host.Mapping.{fields_details}
use defined_quant_components.Host.Presented.{presented, host_failure_lem}

pub data Raised : Type 0 where
  refused : HostFailure → Raised
  other : Raised

-- `HostFailureException(code, details=…)`: where the failure refuses its details, its ValueError is
-- raised in place of the exception.
unfoldable pub raised_by : Result HostModelError HostFailure → Raised
raised_by (ok f) = refused f
raised_by (err e) = other

-- `_fail`
unfoldable pub fail : HostFailureCode → Option Members → Raised
unfolding raised_by
fail code details = raised_by (host_failure code details TrustLabel.no_verified_result)

-- The exception of a code without details, and that of a request that is not one.
abbrev pub refusal : HostFailureCode → Raised
refusal code = fail code none

abbrev pub invalid_request : Raised
invalid_request = fail HostFailureCode.invalid_tool_request (some (fields_details []))

-- The failure of a code with details.
abbrev pub shows : HostFailureCode → Members → Raised
shows code details = refused (presented code details TrustLabel.no_verified_result)

pub fail_lem :
    (code : HostFailureCode) (details : Option Members)
    → details_valid code (details_or_empty details) ≡ true
    → fail code details ≡ shows code (details_or_empty details)
unfolding fail
fail_lem code details valid =
    rw (host_failure_lem code details TrustLabel.no_verified_result, valid) refl
