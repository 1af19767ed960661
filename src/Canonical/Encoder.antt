-- ===== src/Canonical/Encoder.antt =====
-- `_encode_string` and `_encode_tagged_json` of protocol/canonical.py.
pub mod Prefix
use defined_quant_components.Common.{
  ℕ, ◌+◌, ◌/◌, ◌%◌, ◌≡◌, refl, Bool, true, false, Option, none, some, List, [], ◌∷◌, ◌++◌, Result,
  ok, err, ◌>>=◌, ◌>>◌, or_raise, ltb, ◌==◌, if◌then◌else◌,
}
use defined_quant_components.Utf8.{Text, Bytes, encode}
use defined_quant_components.Canonical.Number.{CanonicalError, lone_surrogate, hex}

-- What `_tagged_tree` builds: strings, truth values and lists.
mutual
  pub data Tree : Type 0 where
    null : Tree
    truth : Bool → Tree
    str : Text → Tree
    list : Trees → Tree

  pub data Trees : Type 0 where
    nil : Trees
    cons : Tree → Trees → Trees

-- `_SHORT_ESCAPES.get(character)`
abbrev pub short_escape : ℕ → Option Text
short_escape c =
    if c == 8
    then some (b'\\' ∷ b'b' ∷ [])
    else if c == 9
    then some (b'\\' ∷ b't' ∷ [])
    else if c == 10
    then some (b'\\' ∷ b'n' ∷ [])
    else if c == 12
    then some (b'\\' ∷ b'f' ∷ [])
    else if c == 13
    then some (b'\\' ∷ b'r' ∷ [])
    else if c == 34
    then some (b'\\' ∷ 34 ∷ [])
    else if c == 92
    then some (b'\\' ∷ b'\\' ∷ [])
    else none

-- One character of `_encode_string`; `f"\\u{code_point:04x}"` has four hexadecimal digits.
unfoldable pub escape_char : ℕ → Text
escape_char c = elim (short_escape c) [
  | some escaped ↦ escaped
  | none ↦ if ltb c 0x20 then b'\\' ∷ b'u' ∷ hex 4 c else c ∷ []
]

unfoldable pub escape : Text → Text
unfolding escape_char
escape [] = []
escape (c ∷ s) = escape_char c ++ escape s

abbrev quoted : Text → Text
quoted s = 34 ∷ (escape s ++ 34 ∷ [])

-- `_encode_string`
unfoldable pub encode_string : Text → Result CanonicalError Text
unfolding escape
encode_string s = do or_raise (encode s) lone_surrogate; ok (quoted s)

-- `",".join(parts)`
unfoldable pub join : List Text → Text
join [] = []
join (p ∷ []) = p
join (p ∷ q ∷ ps) = p ++ b',' ∷ join (q ∷ ps)

unfoldable mutual
  unfolding encode_string join

  pub encode_tagged_json : Tree → Result CanonicalError Text
  encode_tagged_json null = ok (b'n' ∷ b'u' ∷ b'l' ∷ b'l' ∷ [])
  encode_tagged_json (truth true) = ok (b't' ∷ b'r' ∷ b'u' ∷ b'e' ∷ [])
  encode_tagged_json (truth false) = ok (b'f' ∷ b'a' ∷ b'l' ∷ b's' ∷ b'e' ∷ [])
  encode_tagged_json (str s) = encode_string s
  encode_tagged_json (list ts) = do parts ← encode_parts ts; ok (b'[' ∷ (join parts ++ b']' ∷ []))

  pub encode_parts : Trees → Result CanonicalError (List Text)
  encode_parts nil = ok []
  encode_parts (cons t ts) = do p ← encode_tagged_json t; ps ← encode_parts ts; ok (p ∷ ps)
