-- ===== src/Utf8.antt =====
-- Python's strict UTF-8 codec, as protocol/canonical.py, shared/stdio_framing.py and
-- shared/session_cas.py use it. A text is a list of code points, which may hold lone surrogates.
mod Tests
pub mod RoundTrip
use defined_quant_components.Common.{
  ℕ, zero, suc, ◌+◌, ◌-◌, ◌*◌, ◌/◌, ◌%◌, ◌≡◌, refl, Bool, ◌&&◌, Option, none, some, List, [], ◌∷◌,
  ◌++◌, ltb, leb, if◌then◌else◌, length,
}

abbrev pub Text : Type 0
Text = List ℕ

abbrev pub Bytes : Type 0
Bytes = List ℕ

-- `none` is the UnicodeEncodeError of a surrogate; no code point reaches 0x110000.
unfoldable pub encode_char : ℕ → Option Bytes
encode_char c =
    if ltb c 0x80
    then some (c ∷ [])
    else if ltb c 0x800
    then some ((0xc0 + c / 64) ∷ (0x80 + c % 64) ∷ [])
    else if leb 0xd800 c && ltb c 0xe000
    then none
    else if ltb c 0x10000
    then some ((0xe0 + c / 4096) ∷ (0x80 + c / 64 % 64) ∷ (0x80 + c % 64) ∷ [])
    else if ltb c 0x110000
    then some
        ((0xf0 + c / 262144) ∷ (0x80 + c / 4096 % 64) ∷ (0x80 + c / 64 % 64) ∷ (0x80 + c % 64) ∷ [])
    else none

abbrev prepend : Option Bytes → Option Bytes → Option Bytes
prepend (some p) (some q) = some (p ++ q)
prepend none q = none
prepend (some p) none = none

-- `text.encode("utf-8")`
unfoldable pub encode : Text → Option Bytes
encode [] = some []
encode (c ∷ s) = prepend (encode_char c) (encode s)

abbrev is_continuation : ℕ → Bool
is_continuation b = leb 0x80 b && ltb b 0xc0

-- One character from the front; `none` is a UnicodeDecodeError.
two_bytes : ℕ → Bytes → Option (ℕ × Bytes)
two_bytes a (b ∷ r) =
    let c = (a - 0xc0) * 64 + (b - 0x80) in
    if is_continuation b && leb 0x80 c then some (c, r) else none
two_bytes a _ = none

three_bytes : ℕ → Bytes → Option (ℕ × Bytes)
three_bytes a (b ∷ d ∷ r) =
    let c = (a - 0xe0) * 4096 + (b - 0x80) * 64 + (d - 0x80) in
    if is_continuation b && is_continuation d && leb 0x800 c
    then (if leb 0xd800 c && ltb c 0xe000 then none else some (c, r))
    else none
three_bytes a _ = none

four_bytes : ℕ → Bytes → Option (ℕ × Bytes)
four_bytes a (b ∷ d ∷ e ∷ r) =
    let c = (a - 0xf0) * 262144 + (b - 0x80) * 4096 + (d - 0x80) * 64 + (e - 0x80) in
    if is_continuation b && is_continuation d && is_continuation e && leb 0x10000 c
    then (if ltb c 0x110000 then some (c, r) else none)
    else none
four_bytes a _ = none

decode_char : ℕ → Bytes → Option (ℕ × Bytes)
decode_char a r =
    if ltb a 0x80
    then some (a, r)
    else if ltb a 0xc0
    then none
    else if ltb a 0xe0
    then two_bytes a r
    else if ltb a 0xf0
    then three_bytes a r
    else if ltb a 0xf8
    then four_bytes a r
    else none

abbrev prepend_char : ℕ → Option Text → Option Text
prepend_char c none = none
prepend_char c (some s) = some (c ∷ s)

-- One round for each byte is more than enough, since a character takes at least one.
decode_from : ℕ → Bytes → Option Text
decode_from fuel [] = some []
decode_from zero (a ∷ r) = none
decode_from (suc fuel) (a ∷ r) = elim (decode_char a r) [
  | none ↦ none
  | some (c, rest) ↦ prepend_char c (decode_from fuel rest)
]

-- `content.decode("utf-8", errors="strict")`
unfoldable pub decode : Bytes → Option Text
unfolding decode_from decode_char two_bytes three_bytes four_bytes
decode b = decode_from (length b) b
