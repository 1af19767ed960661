-- ===== src/Utf8/RoundTrip.antt =====
-- The strict UTF-8 codec: encoding against decoding.
use native.Mathlib.Decide.{dec_lt}
use defined_quant_components.Common.{
  ℕ, zero, suc, ◌≤◌, ◌<◌, ◌≡◌, refl, ap, Option, none, some, [], ◌∷◌, ◌++◌, arith, length,
  length-append, Option-cases, inl, inr, ◌↔◌,
}
use defined_quant_components.Utf8.{
  Text, Bytes, encode_char, encode, prepend, prepend_char, two_bytes, three_bytes, four_bytes,
  decode_char, decode_from, decode,
}

-- What `decode_char` does on the bytes that `encode_char` wrote.
abbrev Reads : ℕ → Bytes → Bytes → Type 0
Reads c [] rest = ⊥
Reads c (a ∷ p) rest = decode_char a (p ++ rest) ≡ some (c, rest)

decode_char-encode_char : (c : ℕ) (p rest : Bytes) → encode_char c ≡ some p → Reads c p rest
unfolding encode_char decode_char two_bytes three_bytes four_bytes
decode_char-encode_char c p rest h = ground arith

-- The bytes after the first of the character `c`, where `two_bytes` and its like found it.
abbrev Wrote : ℕ → ℕ → Bytes → Bytes → Type 0
Wrote a c r rest = (p : Bytes) × (encode_char c ≡ some (a ∷ p)) × (r ≡ p ++ rest)

Wrote-two_bytes :
    (a c : ℕ) (r rest : Bytes)
    → 0xc0 ≤ a
    → a < 0xe0
    → two_bytes a r ≡ some (c, rest)
    → Wrote a c r rest
unfolding encode_char two_bytes
Wrote-two_bytes a c [] rest lo hi h = cc
Wrote-two_bytes a c (b ∷ r) rest lo hi h = (b ∷ [], ground arith, ground arith)

Wrote-three_bytes :
    (a c : ℕ) (r rest : Bytes)
    → 0xe0 ≤ a
    → a < 0xf0
    → three_bytes a r ≡ some (c, rest)
    → Wrote a c r rest
unfolding encode_char three_bytes
Wrote-three_bytes a c [] rest lo hi h = cc
Wrote-three_bytes a c (b ∷ []) rest lo hi h = cc
Wrote-three_bytes a c (b ∷ d ∷ r) rest lo hi h = (b ∷ d ∷ [], ground arith, ground arith)

Wrote-four_bytes :
    (a c : ℕ) (r rest : Bytes)
    → 0xf0 ≤ a
    → a < 0xf8
    → four_bytes a r ≡ some (c, rest)
    → Wrote a c r rest
unfolding encode_char four_bytes
Wrote-four_bytes a c [] rest lo hi h = cc
Wrote-four_bytes a c (b ∷ []) rest lo hi h = cc
Wrote-four_bytes a c (b ∷ d ∷ []) rest lo hi h = cc
Wrote-four_bytes a c (b ∷ d ∷ e ∷ r) rest lo hi h = (b ∷ d ∷ e ∷ [], ground arith, ground arith)

Wrote-decode_char : (a c : ℕ) (r rest : Bytes) → decode_char a r ≡ some (c, rest) → Wrote a c r rest
unfolding decode_char encode_char
Wrote-decode_char a c r rest h = elim (dec_lt a 0x80) [
  | yes g1 ↦ ([], ground arith, ground arith)
  | no g2 ↦ elim (dec_lt a 0xc0) [
    | yes h1 ↦ absurd (ground arith)
    | no h2 ↦ elim (dec_lt a 0xe0) [
      | yes k1 ↦ Wrote-two_bytes a c r rest (omega arith) (omega arith) (ground arith)
      | no k2 ↦ elim (dec_lt a 0xf0) [
        | yes l1 ↦ Wrote-three_bytes a c r rest (omega arith) (omega arith) (ground arith)
        | no l2 ↦ Wrote-four_bytes a c r rest (omega arith) (ground arith) (ground arith)
      ]
    ]
  ]
]

length-Wrote : (a c : ℕ) (r rest : Bytes) → Wrote a c r rest → length rest ≤ length r
length-Wrote a c r rest (p, _, e) =
    omega (arith, ap (λ (l : Bytes). length l) e, length-append p rest)

prepend-eq-some :
    (o q : Option Bytes) (b : Bytes)
    → prepend o q ≡ some b
    → (p r : Bytes) × (o ≡ some p) × (q ≡ some r) × (b ≡ p ++ r)
prepend-eq-some none q b h = cc
prepend-eq-some (some p) none b h = cc
prepend-eq-some (some p) (some r) b h = (p, r, refl, refl, cc)

-- The encoding of a text is that of its first character, and that of the rest.
pub encode-cons :
    (c : ℕ) (s : Text) (b : Bytes)
    → encode (c ∷ s) ≡ some b
    → (p r : Bytes) × (encode_char c ≡ some p) × (encode s ≡ some r) × (b ≡ p ++ r)
unfolding encode
encode-cons c s b h = prepend-eq-some (encode_char c) (encode s) b h

prepend_char-eq-some :
    (c : ℕ) (o : Option Text) (s : Text)
    → prepend_char c o ≡ some s
    → (t : Text) × (o ≡ some t) × (s ≡ c ∷ t)
prepend_char-eq-some c none s h = cc
prepend_char-eq-some c (some t) s h = (t, refl, cc)

decode_from-append :
    (fuel c : ℕ) (s : Text) (p r : Bytes)
    → encode_char c ≡ some p
    → decode_from fuel r ≡ some s
    → decode_from (suc fuel) (p ++ r) ≡ some (c ∷ s)
unfolding decode_from
decode_from-append fuel c s [] r h hs = absurd (decode_char-encode_char c [] r h)
decode_from-append fuel c s (a ∷ p) r h hs =
    rw (decode_char-encode_char c (a ∷ p) r h, decode_from, hs)

length-encode_char : (c : ℕ) (p : Bytes) → encode_char c ≡ some p → 0 < length p
unfolding encode_char
length-encode_char c [] h = ground arith
length-encode_char c (a ∷ p) h = omega arith

-- With a round for each byte, decoding finds the text whose encoding it is given.
decode_from-encode :
    (fuel : ℕ) (s : Text) (b : Bytes)
    → encode s ≡ some b
    → length b ≤ fuel
    → decode_from fuel b ≡ some s
unfolding encode decode_from
decode_from-encode fuel [] [] e h = refl
decode_from-encode fuel [] (a ∷ r) e h = cc
decode_from-encode zero (c ∷ s) b e h =
    let (p, r, ep, er, eb) = prepend-eq-some (encode_char c) (encode s) b e in
    absurd
      (omega (arith, length-encode_char c p ep, ap (λ (l : Bytes). length l) eb, length-append p r))
decode_from-encode (suc fuel) (c ∷ s) b e h =
    let (p, r, ep, er, eb) = prepend-eq-some (encode_char c) (encode s) b e in
    let short : length r ≤ fuel =
      omega
        (arith, length-encode_char c p ep, ap (λ (l : Bytes). length l) eb, length-append p r) in
    rw eb (decode_from-append fuel c s p r ep (decode_from-encode fuel s r er short))

encode-decode_from :
    (fuel : ℕ) (b : Bytes) (s : Text) → decode_from fuel b ≡ some s → encode s ≡ some b
unfolding encode decode_from
encode-decode_from fuel [] [] e = refl
encode-decode_from fuel [] (c ∷ s) e = cc
encode-decode_from zero (a ∷ r) s e = cc
encode-decode_from (suc fuel) (a ∷ r) s e = elim (Option-cases (decode_char a r)) [
  | inl stuck ↦ cc (rw (stuck, decode_from) at e)
  | inr (cr, h) ↦
      let (t, et, es) =
        prepend_char-eq-some cr.0 (decode_from fuel cr.1) s (rw (h, decode_from) at e) in
      let (p, ep, er) = Wrote-decode_char a cr.0 r cr.1 h in
      rw (es, ep, encode-decode_from fuel cr.1 t et, er)
]

-- Decoding a text's encoding returns the text, and only an encoding decodes: `decode` and `encode`
-- are inverse to one another, wherever they do not raise.
pub decode_iff_encode : (b : Bytes) (s : Text) → (decode b ≡ some s) ↔ (encode s ≡ some b)
unfolding decode
decode_iff_encode b s =
    (encode-decode_from (length b) b s, λ e. decode_from-encode (length b) s b e (omega arith))

pub encode_injective : (s t : Text) (b : Bytes) → encode s ≡ some b → encode t ≡ some b → s ≡ t
encode_injective s t b h k = cc ((decode_iff_encode b s).1 h, (decode_iff_encode b t).1 k)
