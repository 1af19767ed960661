-- ===== src/Session/Coding.antt =====
-- Stand-ins for the libraries behind cursors, with which they are as documented: a number is that many
-- letters A and a B, a signature is 32 zeros, and one kind of payload has a text, its index.
use defined_quant_components.Common.{
  ℕ, zero, suc, ◌+◌, ◌≤◌, ◌<◌, ◌≡◌, refl, ap, ◌∙◌, inl, inr, true, ◌&&◌, Option, none, some, [],
  ◌∷◌, ◌==◌, length, if◌then◌else◌, arith, Bool-cases, &&-eq-true,
}
use defined_quant_components.Utf8.{Text, Bytes}
use defined_quant_components.Canonical.{Value, member}
use defined_quant_components.Canonical.Number.{pos}
use defined_quant_components.Managed.Json.{codes, Text-discrete, same, same→eq}
use defined_quant_components.Session.References.{dataset, reference_to}
use defined_quant_components.Session.Backend.{Backend}
use defined_quant_components.Session.Cursors.{all_base64, cursor_payload}
use defined_quant_components.Session.Tokens.{CursorLaws}
use defined_quant_components.Session.Memory.{Files, in_memory, digest}

abbrev letters : ℕ → Text → Text
letters zero s = s
letters (suc n) s = b'A' ∷ letters n s

abbrev pub to_letters : Bytes → Text
to_letters [] = []
to_letters (n ∷ b) = letters n (b'B' ∷ to_letters b)

abbrev prepend : ℕ → Option Bytes → Option Bytes
prepend n none = none
prepend n (some b) = some (n ∷ b)

abbrev of_letters : ℕ → Text → Option Bytes
of_letters k [] = some []
of_letters k (c ∷ s) =
    let counted = of_letters (suc k) s in
    let next = of_letters 0 s in if c == b'A' then counted else prepend k next

of_letters-letters :
    (k n : ℕ) (s : Text) → of_letters k (letters n (b'B' ∷ s)) ≡ prepend (k + n) (of_letters 0 s)
of_letters-letters k zero s = ap (λ m. prepend m (of_letters 0 s)) (omega arith)
of_letters-letters k (suc n) s =
    of_letters-letters (suc k) n s ∙ ap (λ m. prepend m (of_letters 0 s)) (omega arith)

of_letters-to_letters : (b : Bytes) → of_letters 0 (to_letters b) ≡ some b
of_letters-to_letters [] = refl
of_letters-to_letters (n ∷ b) =
    of_letters-letters 0 n (to_letters b)
    ∙ rw (of_letters-to_letters b) (ap (λ m. some (m ∷ b)) (omega arith))

all_base64-letters :
    (n : ℕ) (s : Text) → all_base64 s ≡ true → all_base64 (letters n (b'B' ∷ s)) ≡ true
unfolding all_base64
all_base64-letters zero s h = h
all_base64-letters (suc n) s h = all_base64-letters n s h

all_base64-to_letters : (b : Bytes) → all_base64 (to_letters b) ≡ true
unfolding all_base64
all_base64-to_letters [] = refl
all_base64-to_letters (n ∷ b) = all_base64-letters n (to_letters b) (all_base64-to_letters b)

length-letters : (n : ℕ) (s : Text) → length s ≤ length (letters n s)
length-letters zero s = omega arith
length-letters (suc n) s = omega (arith, length-letters n s)

length-to_letters : (b : Bytes) → length b ≤ length (to_letters b)
length-to_letters [] = omega arith
length-to_letters (n ∷ b) =
    omega (arith, length-to_letters b, length-letters n (b'B' ∷ to_letters b))

abbrev pub zeros : ℕ → Bytes
zeros zero = []
zeros (suc n) = 0 ∷ zeros n

abbrev pub paged_reference : Text
paged_reference = reference_to dataset digest

abbrev pub paged_view : Text
paged_view = codes "preview"

abbrev dump : Value → Option Bytes
dump
      (Value.mapping (
        member _
          (Value.integer (pos n))
          (member _ (Value.string r) (member _ Value.null (member _ (Value.string v) ms))))) =
    if same Text-discrete r paged_reference && same Text-discrete v paged_view
    then some (n ∷ [])
    else none
dump v = none

abbrev load : Bytes → Option Value
load (n ∷ []) = some (cursor_payload in_memory paged_reference paged_view none n)
load b = none

abbrev pub coding : Backend Files
coding = record in_memory {
  sign = λ b. zeros 32;
  urlsafe_b64encode = to_letters;
  urlsafe_b64decode = of_letters 0;
  dump_json = dump;
  load_json = load;
}

-- The one kind of payload that has a text
dump-sample :
    (reference view : Text) (index : ℕ) (b : Bytes)
    → dump (cursor_payload coding reference view none index) ≡ some b
    → (b ≡ index ∷ []) × (reference ≡ paged_reference) × (view ≡ paged_view)
dump-sample reference view index b h =
    let first = same Text-discrete reference paged_reference in
    let second = same Text-discrete view paged_view in
    elim (Bool-cases (first && second)) [
      | inl both ↦
          let parts = &&-eq-true first second both in
          (
            cc (rw both at h),
            same→eq Text-discrete reference paged_reference parts.0,
            same→eq Text-discrete view paged_view parts.1,
          )
      | inr others ↦ cc (rw others at h)
    ]

dump-length :
    (reference view : Text) (binding : Option Text) (index : ℕ) (b : Bytes)
    → dump (cursor_payload coding reference view binding index) ≡ some b
    → 0 < length b
dump-length reference view (some s) index b h = cc
dump-length reference view none index b h =
    rw (dump-sample reference view index b h).0 (omega arith)

load-dump :
    (reference view : Text) (binding : Option Text) (index : ℕ) (b : Bytes)
    → dump (cursor_payload coding reference view binding index) ≡ some b
    → load b ≡ some (cursor_payload coding reference view binding index)
load-dump reference view (some s) index b h = cc
load-dump reference view none index b h =
    let sample = dump-sample reference view index b h in rw (sample.0, sample.1, sample.2) refl

pub coding-CursorLaws : CursorLaws coding
coding-CursorLaws = record {
  decodes = of_letters-to_letters;
  alphabet = all_base64-to_letters;
  not_shorter = length-to_letters;
  signature_length = λ b. refl;
  not_empty = dump-length;
  parses = load-dump;
}
