-- ===== src/Session/References.antt =====
-- References of shared/session_cas.py, which name a record by its kind and its digest:
-- `_REFERENCE_PATTERN` is `^(dqds|dqop):v([0-9]{1,3}):([0-9a-f]{64})$`.
use defined_quant_components.Common.{
  ℕ, Bool, true, false, ◌&&◌, ◌||◌, not, Option, none, some, [], ◌∷◌, ◌++◌, Result, ok, err, ◌>>◌,
  raise_if, leb, ◌==◌, length, if◌then◌else◌,
}
use defined_quant_components.Utf8.{Text}
use defined_quant_components.Canonical.{Value, Members}
use defined_quant_components.Managed.Json.{codes, object_members, Text-discrete, same}
use defined_quant_components.Host.Codes.{HostFailureCode}
use defined_quant_components.Session.Failing.{Raised, fail, invalid_request}

pub data Kind : Type 0 where
  dataset operation : Kind

abbrev pub prefix : Kind → Text
prefix dataset = codes "dqds:v"
prefix operation = codes "dqop:v"

abbrev pub is_digit : ℕ → Bool
is_digit c = leb b'0' c && leb c b'9'

abbrev pub is_hex_char : ℕ → Bool
is_hex_char c = is_digit c || (leb b'a' c && leb c b'f')

unfoldable pub all_hex : Text → Bool
all_hex [] = true
all_hex (c ∷ s) = is_hex_char c && all_hex s

-- `[0-9a-f]{64}`
unfoldable pub is_digest : Text → Bool
unfolding all_hex
is_digest s = length s == 64 && all_hex s

abbrev pub before : ℕ → Option (Text × Text) → Option (Text × Text)
before c none = none
before c (some (version, rest)) = some (c ∷ version, rest)

-- `[0-9]*:` and what follows
unfoldable pub split_version : Text → Option (Text × Text)
split_version [] = none
split_version (c ∷ s) =
    if c == b':' then some ([], s) else if is_digit c then before c (split_version s) else none

abbrev pub with_digest : Option (Text × Text) → Option (Text × Text)
with_digest none = none
with_digest (some (version, rest)) =
    if leb 1 (length version) && leb (length version) 3 && is_digest rest
    then some (version, rest)
    else none

-- The version and the digest after a prefix
unfoldable pub version_and_digest : Text → Option (Text × Text)
unfolding split_version is_digest
version_and_digest s = with_digest (split_version s)

unfoldable pub strip_prefix : Text → Text → Option Text
strip_prefix [] s = some s
strip_prefix (c ∷ p) [] = none
strip_prefix (c ∷ p) (d ∷ s) = if c == d then strip_prefix p s else none

abbrev pub of_kind : Kind → Option (Text × Text) → Option (Kind × (Text × Text))
of_kind k none = none
of_kind k (some m) = some (k, m)

abbrev pub match_kind : Kind → Option Text → Option (Kind × (Text × Text))
match_kind kind none = none
match_kind kind (some rest) = of_kind kind (version_and_digest rest)

abbrev pub or_else : {A : Type 0} → Option A → Option A → Option A
or_else none other = other
or_else (some a) other = some a

-- `_REFERENCE_PATTERN.fullmatch(reference)`, with the groups of the match
unfoldable pub match_reference : Text → Option (Kind × (Text × Text))
unfolding strip_prefix version_and_digest
match_reference s =
    or_else (match_kind dataset (strip_prefix (prefix dataset) s))
      (match_kind operation (strip_prefix (prefix operation) s))

abbrev pub same_kind : Kind → Kind → Bool
same_kind dataset dataset = true
same_kind operation operation = true
same_kind _ _ = false

abbrev pub is_expected : Option Kind → Kind → Bool
is_expected none kind = true
is_expected (some expected) kind = same_kind kind expected

abbrev pub version_details : Text → Members
version_details version =
    object_members (("requested_version", Value.string (codes "v" ++ version)) ∷ [])

unfoldable pub checked_parts :
    Option Kind → Option (Kind × (Text × Text)) → Result Raised (Kind × Text)
checked_parts expected none = err invalid_request
checked_parts expected (some (kind, (version, digest))) = do
  raise_if (not (same Text-discrete version (codes "1")))
      (fail HostFailureCode.unsupported_reference_version (some (version_details version)))
  raise_if (not (is_expected expected kind)) invalid_request
  ok (kind, digest)

-- `_reference_parts`
unfoldable pub reference_parts : Text → Option Kind → Result Raised (Kind × Text)
unfolding match_reference checked_parts
reference_parts reference expected = checked_parts expected (match_reference reference)

-- `dataset_reference` and `operation_reference` of shared/data_records.py, of a digest that is one
unfoldable pub reference_to : Kind → Text → Text
reference_to dataset digest = codes "dqds:v1:" ++ digest
reference_to operation digest = codes "dqop:v1:" ++ digest
