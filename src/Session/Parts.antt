-- ===== src/Session/Parts.antt =====
-- Which references `_reference_parts` of shared/session_cas.py takes, and how it refuses the others.
use native.Mathlib.Decide.{ℕ_discrete}
use mathlib.Core.Path.{subst}
use defined_quant_components.Common.{
  ◌≡◌, refl, ap, sym, ◌∙◌, ◌⊎◌, inl, inr, ◌↔◌, Bool, true, false, ◌&&◌, Option, none, some, [], ◌∷◌,
  ◌++◌, Result, ok, err, leb, ◌==◌, length, arith, Bool-cases, &&-eq-true, ==_iff,
}
use defined_quant_components.Utf8.{Text}
use defined_quant_components.Managed.Json.{codes, Text-discrete, same, same→eq, same_refl, contains}
use defined_quant_components.Host.Codes.{HostFailureCode}
use defined_quant_components.Host.Shape.{is_ascii, exact_keys, get, string_array}
use defined_quant_components.Host.Details.{
  details_valid, fields_valid, reference_version_valid, all_digits,
}
use defined_quant_components.Host.Mapping.{fields_details}
use defined_quant_components.Session.Failing.{Raised, fail_lem, shows, invalid_request}
use defined_quant_components.Session.References.{
  Kind, dataset, operation, prefix, is_digest, split_version, version_and_digest, strip_prefix,
  of_kind, before, is_digit, with_digest, match_kind, or_else, match_reference, is_expected,
  version_details, checked_parts, reference_parts, reference_to,
}

-- What each stage of the match says of its text, where it succeeds.
abbrev IsRest : Text → Text → Option Text → Type 0
IsRest p s none = Unit
IsRest p s (some rest) = s ≡ p ++ rest

abbrev IsSplit : Text → Option (Text × Text) → Type 0
IsSplit s none = Unit
IsSplit s (some (version, rest)) = (s ≡ version ++ b':' ∷ rest) × (all_digits version ≡ true)

abbrev IsParts : Text → Option (Text × Text) → Type 0
IsParts s none = Unit
IsParts s (some (version, digest)) =
    (s ≡ version ++ b':' ∷ digest)
    × (all_digits version ≡ true)
    × (leb 1 (length version) && leb (length version) 3 && is_digest digest ≡ true)

-- A text that has the form of a reference of a version.
abbrev pub IsVersioned : Text → Kind → Text → Text → Type 0
IsVersioned s kind version digest =
    (s ≡ prefix kind ++ (version ++ b':' ∷ digest))
    × (all_digits version ≡ true)
    × (leb 1 (length version) && leb (length version) 3 && is_digest digest ≡ true)

abbrev IsMatch : Text → Option (Kind × (Text × Text)) → Type 0
IsMatch s none = Unit
IsMatch s (some (kind, (version, digest))) = IsVersioned s kind version digest

strip_prefix-IsRest : (p s : Text) → IsRest p s (strip_prefix p s)
unfolding strip_prefix
strip_prefix-IsRest [] s = refl
strip_prefix-IsRest (c ∷ p) [] = tt
strip_prefix-IsRest (c ∷ p) (d ∷ s) = elim (Bool-cases (c == d)) [
  | inl equal ↦
      rw equal (cons (strip_prefix p s) (sym ((==_iff c d).0 equal)) (strip_prefix-IsRest p s))
  | inr differs ↦ rw differs tt
]
  where
    cons : (o : Option Text) → d ≡ c → IsRest p s o → IsRest (c ∷ p) (d ∷ s) o
    cons none e h = tt
    cons (some rest) e h = cc

split_version-IsSplit : (s : Text) → IsSplit s (split_version s)
unfolding split_version all_digits
split_version-IsSplit [] = tt
split_version-IsSplit (c ∷ s) = elim (Bool-cases (c == b':')) [
  | inl colon ↦ rw colon ((ap (λ x. x ∷ s) ((==_iff c b':').0 colon), refl))
  | inr more ↦ elim (Bool-cases (is_digit c)) [
    | inl digit ↦ rw (more, digit) (cons (split_version s) digit (split_version-IsSplit s))
    | inr stop ↦ rw (more, stop) tt
  ]
]
  where
    cons :
        (o : Option (Text × Text)) → is_digit c ≡ true → IsSplit s o → IsSplit (c ∷ s) (before c o)
    cons none digit h = tt
    cons (some (version, rest)) digit h = (ap (λ l. c ∷ l) h.0, ground arith)

version_and_digest-IsParts : (s : Text) → IsParts s (version_and_digest s)
unfolding version_and_digest
version_and_digest-IsParts s = go (split_version s) (split_version-IsSplit s)
  where
    go : (o : Option (Text × Text)) → IsSplit s o → IsParts s (with_digest o)
    go none h = tt
    go (some (version, rest)) h =
        elim (Bool-cases (leb 1 (length version) && leb (length version) 3 && is_digest rest)) [
          | inl fits ↦ rw fits ((h.0, h.1, fits))
          | inr fails ↦ rw fails tt
        ]

match_kind-IsMatch :
    (kind : Kind) (s : Text) (o : Option Text)
    → IsRest (prefix kind) s o
    → IsMatch s (match_kind kind o)
match_kind-IsMatch kind s none h = tt
match_kind-IsMatch kind s (some rest) h =
    go (version_and_digest rest) (version_and_digest-IsParts rest)
  where
    go : (o : Option (Text × Text)) → IsParts rest o → IsMatch s (of_kind kind o)
    go none parts = tt
    go (some (version, digest)) parts = (h ∙ ap (λ l. prefix kind ++ l) parts.0, parts.1, parts.2)

match_reference-IsMatch : (s : Text) → IsMatch s (match_reference s)
unfolding match_reference
match_reference-IsMatch s =
    either (match_kind dataset (strip_prefix (prefix dataset) s))
      (match_kind operation (strip_prefix (prefix operation) s))
      (match_kind-IsMatch dataset s _ (strip_prefix-IsRest (prefix dataset) s))
      (match_kind-IsMatch operation s _ (strip_prefix-IsRest (prefix operation) s))
  where
    either :
        (o o' : Option (Kind × (Text × Text)))
        → IsMatch s o
        → IsMatch s o'
        → IsMatch s (or_else o o')
    either none o' h h' = h'
    either (some m) o' h h' = h

pub reference_parts-reference_to :
    (kind : Kind) (digest : Text) (expected : Option Kind)
    → is_digest digest ≡ true
    → is_expected expected kind ≡ true
    → reference_parts (reference_to kind digest) expected ≡ ok (kind, digest)
unfolding reference_parts reference_to match_reference strip_prefix version_and_digest split_version
    checked_parts same Text-discrete ℕ_discrete
reference_parts-reference_to dataset digest expected valid wanted = rw (valid, wanted) refl
reference_parts-reference_to operation digest expected valid wanted = rw (valid, wanted) refl

-- How a reference is taken apart.
abbrev IsTaken : Text → Option Kind → Kind × Text → Type 0
IsTaken reference expected (kind, digest) =
    (reference ≡ reference_to kind digest)
    × (is_digest digest ≡ true)
    × (is_expected expected kind ≡ true)

-- A reference of a version that is not the first.
abbrev pub IsLater : Text → Text → Type 0
IsLater reference version =
    ((kind : Kind) × (digest : Text) × IsVersioned reference kind version digest)
    × ¬ (version ≡ codes "1")

-- How a reference is refused: for its version, if it has the form of a reference of another version,
-- and otherwise as a request that is none.
abbrev pub IsRefusal : Text → Raised → Type 0
IsRefusal reference e =
    ((version : Text) × IsLater reference version
      × (e ≡ shows HostFailureCode.unsupported_reference_version (version_details version)))
    ⊎ ((e ≡ shows HostFailureCode.invalid_tool_request (fields_details []))
        × ((version : Text) → ¬ IsLater reference version))

invalid_request-IsRefusal :
    (reference : Text)
    → ((version : Text) → ¬ IsLater reference version)
    → IsRefusal reference invalid_request
unfolding details_valid fields_valid exact_keys string_array get same Text-discrete ℕ_discrete
    contains
invalid_request-IsRefusal reference never =
    inr (fail_lem HostFailureCode.invalid_tool_request (some (fields_details [])) refl, never)

-- A text of the form of a reference is matched.
split_version-append :
    (version digest : Text)
    → all_digits version ≡ true
    → split_version (version ++ b':' ∷ digest) ≡ some (version, digest)
unfolding split_version all_digits
split_version-append [] digest h = refl
split_version-append (c ∷ version) digest h =
    let parts = &&-eq-true (is_digit c) (all_digits version) (ground arith) in
    let no_colon : (c == b':') ≡ false = ground arith in
    rw (no_colon, parts.0, split_version-append version digest parts.1) refl

match_reference-IsVersioned :
    (reference : Text) (kind : Kind) (version digest : Text)
    → IsVersioned reference kind version digest
    → match_reference reference ≡ some (kind, (version, digest))
unfolding match_reference strip_prefix version_and_digest
match_reference-IsVersioned reference dataset version digest (e, digits, fits) =
    rw (e, split_version-append version digest digits, fits) refl
match_reference-IsVersioned reference operation version digest (e, digits, fits) =
    rw (e, split_version-append version digest digits, fits) refl

all_digits-is_ascii : (s : Text) → all_digits s ≡ true → is_ascii s ≡ true
unfolding all_digits is_ascii
all_digits-is_ascii [] h = refl
all_digits-is_ascii (c ∷ s) h =
    let parts = &&-eq-true (is_digit c) (all_digits s) (ground arith) in
    rw (all_digits-is_ascii s parts.1) (ground arith)

all_three : (a b c : Bool) → a && b && c ≡ true → (a ≡ true) × (b ≡ true) × (c ≡ true)
all_three true true c h = (refl, refl, h)
all_three true false c h = cc
all_three false b c h = cc

first_version :
    (kind : Kind) (digest : Text)
    → prefix kind ++ (codes "1" ++ b':' ∷ digest) ≡ reference_to kind digest
unfolding reference_to
first_version dataset digest = refl
first_version operation digest = refl

version_details-valid :
    (version : Text)
    → all_digits version ≡ true
    → leb 1 (length version) ≡ true
    → leb (length version) 3 ≡ true
    → details_valid HostFailureCode.unsupported_reference_version (version_details version) ≡ true
unfolding details_valid reference_version_valid exact_keys get same Text-discrete ℕ_discrete
    contains
version_details-valid version digits most least =
    rw (all_digits-is_ascii version digits, digits, most, least) refl

-- What `checked_parts` makes of a match.
abbrev IsOutcome : Text → Option Kind → Result Raised (Kind × Text) → Type 0
IsOutcome reference expected (ok parts) = IsTaken reference expected parts
IsOutcome reference expected (err e) = IsRefusal reference e

checked_parts-IsOutcome :
    (reference : Text) (expected : Option Kind) (m : Option (Kind × (Text × Text)))
    → IsMatch reference m
    → ((kind : Kind) (version digest : Text)
        → IsVersioned reference kind version digest
        → m ≡ some (kind, (version, digest)))
    → IsOutcome reference expected (checked_parts expected m)
unfolding checked_parts
checked_parts-IsOutcome reference expected none h only =
    invalid_request-IsRefusal reference
      (λ version later. let clash = only later.0.0 version later.0.1 later.0.2 in cc)
checked_parts-IsOutcome reference expected (some (kind, (version, digest))) h only =
    elim (Bool-cases (same Text-discrete version (codes "1"))) [
      | inl one ↦ elim (Bool-cases (is_expected expected kind)) [
        | inl wanted ↦
            rw (one, wanted)
              (
                h.0
                    ∙ ap (λ v. prefix kind ++ (v ++ b':' ∷ digest))
                        (same→eq Text-discrete version (codes "1") one)
                    ∙ first_version kind digest,
                (all_three (leb 1 (length version)) (leb (length version) 3) (is_digest digest)
                    h.2).2,
                wanted,
              )
        | inr unwanted ↦
            rw (one, unwanted)
              (invalid_request-IsRefusal reference (λ other later.
                let this : version ≡ other =
                  same_version (only later.0.0 other later.0.1 later.0.2) in
                later.1 (sym this ∙ same→eq Text-discrete version (codes "1") one)))
      ]
      | inr later ↦
          let parts =
            all_three (leb 1 (length version)) (leb (length version) 3) (is_digest digest) h.2 in
          rw later (
            inl (
              version,
              ((kind, digest, h), differs later),
              fail_lem HostFailureCode.unsupported_reference_version
                  (some (version_details version))
                  (version_details-valid version h.1 parts.0 parts.1),
            ))
    ]
  where
    same_version :
        {k k' : Kind} {v v' d d' : Text}
        → ◌≡◌ {A = Option (Kind × (Text × Text))} (some (k, (v, d))) (some (k', (v', d')))
        → v ≡ v'
    same_version e = cc

    differs : same Text-discrete version (codes "1") ≡ false → ¬ (version ≡ codes "1")
    differs h e =
        let clash : same Text-discrete (codes "1") (codes "1") ≡ false = rw e at h in
        let alike = same_refl Text-discrete (codes "1") in cc

-- `_reference_parts` gives a kind and a digest exactly if the reference is the one that is issued for
-- them, the digest has 64 hexadecimal digits and the kind is the expected one, if one is expected.
pub reference_parts-issued :
    (reference : Text) (expected : Option Kind) (kind : Kind) (digest : Text)
    → (reference_parts reference expected ≡ ok (kind, digest)) ↔ (
        (reference ≡ reference_to kind digest)
        × (is_digest digest ≡ true)
        × (is_expected expected kind ≡ true))
unfolding reference_parts
reference_parts-issued reference expected kind digest = (to, from)
  where
    to :
        reference_parts reference expected ≡ ok (kind, digest)
        → (reference ≡ reference_to kind digest)
          × (is_digest digest ≡ true)
          × (is_expected expected kind ≡ true)
    to h = subst (IsOutcome reference expected) h (
        checked_parts-IsOutcome reference expected (match_reference reference)
          (match_reference-IsMatch reference) (match_reference-IsVersioned reference))

    from :
        ((reference ≡ reference_to kind digest)
          × (is_digest digest ≡ true)
          × (is_expected expected kind ≡ true))
        → reference_parts reference expected ≡ ok (kind, digest)
    from h = rw h.0 (reference_parts-reference_to kind digest expected h.1 h.2)

pub reference_parts-IsRefusal :
    (reference : Text) (expected : Option Kind) (e : Raised)
    → reference_parts reference expected ≡ err e
    → IsRefusal reference e
unfolding reference_parts
reference_parts-IsRefusal reference expected e h = subst (IsOutcome reference expected) h (
    checked_parts-IsOutcome reference expected (match_reference reference)
      (match_reference-IsMatch reference) (match_reference-IsVersioned reference))
