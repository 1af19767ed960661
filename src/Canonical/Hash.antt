-- ===== src/Canonical/Hash.antt =====
-- `canonical_hash` of protocol/canonical.py: the framed payload of a digest. SHA-256 is a parameter.
use native.Mathlib.Decide.{ℕ_discrete}
use defined_quant_components.Common.{
  ℕ, ◌≡◌, ◌≢◌, ◌⊎◌, inl, inr, refl, sym, ◌∙◌, Bool, true, false, ◌&&◌, ◌||◌, [], ◌∷◌, ◌++◌, Result,
  ok, ◌>>=◌, ◌>>◌, raise_if, leb, ◌==◌, length, arith, >>=-eq-ok, not, append_cancel,
  or_raise-eq-ok, raise_if-eq-ok,
}
use defined_quant_components.Utf8.{Text, Bytes, encode}
use defined_quant_components.Utf8.RoundTrip.{encode_injective}
use defined_quant_components.Canonical.{Value, tagged_tree, canonical_json_bytes}
use defined_quant_components.Canonical.Number.{CanonicalError, bad_domain}
use defined_quant_components.Canonical.Encoder.{encode_tagged_json}
use defined_quant_components.Canonical.Encoder.Prefix.{encode_tagged_json_injective}

-- `_HASH_PREFIX`
abbrev hash_prefix : Bytes
hash_prefix =
    b'd' ∷ b'e' ∷ b'f' ∷ b'i' ∷ b'n' ∷ b'e' ∷ b'd' ∷ b'-' ∷ b'q' ∷ b'u' ∷ b'a' ∷ b'n' ∷ b't' ∷ []

abbrev canonicalization_id : Bytes
canonicalization_id =
    b'd' ∷ b'q' ∷ b'-' ∷ b't' ∷ b'a' ∷ b'g' ∷ b'g' ∷ b'e' ∷ b'd' ∷ b'-' ∷ b'j' ∷ b's' ∷ b'o' ∷ b'n'
    ∷ b'-' ∷ b'v' ∷ b'1' ∷ []

abbrev is_lower : ℕ → Bool
is_lower c = leb b'a' c && leb c b'z'

abbrev is_domain_char : ℕ → Bool
is_domain_char c = is_lower c || (leb b'0' c && leb c b'9') || c == b'_' || c == b'.' || c == b'-'

unfoldable pub all_domain_chars : Text → Bool
all_domain_chars [] = true
all_domain_chars (c ∷ s) = is_domain_char c && all_domain_chars s

-- `_DOMAIN_PATTERN.fullmatch(domain)`
unfoldable pub is_domain : Text → Bool
unfolding all_domain_chars
is_domain [] = false
is_domain (c ∷ s) = is_lower c && all_domain_chars s && leb (length s) 127

-- `b"\x00".join(...)`. An accepted domain is ASCII, so its code points are its bytes.
unfoldable pub framed_payload : Text → Bytes → Bytes
framed_payload domain content =
    hash_prefix ++ 0 ∷ (canonicalization_id ++ 0 ∷ (domain ++ 0 ∷ content))

module _ {Digest : Type 0} (sha256 : Bytes → Digest) where
  unfoldable pub canonical_hash : Value → Text → Result CanonicalError Digest
  unfolding is_domain framed_payload
  canonical_hash value domain = do
    raise_if (not (is_domain domain)) bad_domain
    content ← canonical_json_bytes value
    ok (sha256 (framed_payload domain content))

-- Two values with the same canonical bytes have the same tagged tree.
pub canonical_json_bytes_injective :
    (v w : Value) (b : Bytes)
    → canonical_json_bytes v ≡ ok b
    → canonical_json_bytes w ≡ ok b
    → tagged_tree v ≡ tagged_tree w
unfolding canonical_json_bytes
canonical_json_bytes_injective v w b h k =
    let (t, et, ht) = >>=-eq-ok (tagged_tree v) _ h in
    let (s, es, hs) = >>=-eq-ok (encode_tagged_json t) _ ht in
    let (u, eu, ku) = >>=-eq-ok (tagged_tree w) _ k in
    let (r, er, kr) = >>=-eq-ok (encode_tagged_json u) _ ku in
    let text =
      encode_injective s r b (or_raise-eq-ok (encode s) _ hs) (or_raise-eq-ok (encode r) _ kr) in
    let tree = encode_tagged_json_injective t u s es (er ∙ cc text) in cc (et, eu, tree)

-- An accepted domain holds no zero, which ends it in the payload.
domain-prefix :
    (d e : Text) (a b : Bytes)
    → all_domain_chars d ≡ true
    → all_domain_chars e ≡ true
    → d ++ 0 ∷ a ≡ e ++ 0 ∷ b
    → (d ≡ e) × (a ≡ b)
unfolding all_domain_chars
domain-prefix [] [] a b hd he h = (refl, cc)
domain-prefix [] (y ∷ e) a b hd he h = ground arith
domain-prefix (x ∷ d) [] a b hd he h = ground arith
domain-prefix (x ∷ d) (y ∷ e) a b hd he h =
    let (same, rest) = domain-prefix d e a b (ground arith) (ground arith) (cc) in
    (ground arith, rest)

is_domain-chars : (d : Text) → is_domain d ≡ true → all_domain_chars d ≡ true
unfolding is_domain
is_domain-chars [] h = cc
is_domain-chars (c ∷ d) h = ground arith

Bytes-discrete : Discrete Bytes
Bytes-discrete = hlevel ℕ_discrete

framed_payload_injective :
    (d e : Text) (a b : Bytes)
    → is_domain d ≡ true
    → is_domain e ≡ true
    → framed_payload d a ≡ framed_payload e b
    → (d ≡ e) × (a ≡ b)
unfolding framed_payload
framed_payload_injective d e a b hd he h =
    domain-prefix d e a b (is_domain-chars d hd) (is_domain-chars e he) (
      append_cancel (hash_prefix ++ 0 ∷ (canonicalization_id ++ 0 ∷ [])) (d ++ 0 ∷ a) (e ++ 0 ∷ b)
        h)

module _ {Digest : Type 0} (sha256 : Bytes → Digest) where
  hashed :
      (v : Value) (d : Text) (h : Digest)
      → canonical_hash sha256 v d ≡ ok h
      → (is_domain d ≡ true)
        × (b : Bytes) × (canonical_json_bytes v ≡ ok b)
        × (sha256 (framed_payload d b) ≡ h)
  unfolding canonical_hash
  hashed v d h e =
      let (valid, rest) = raise_if-eq-ok (not (is_domain d)) bad_domain _ e in
      let (b, eb, last) = >>=-eq-ok (canonical_json_bytes v) _ rest in
      (ground arith, b, eb, cc last)

  -- Two values with equal canonical hashes, under two domains, have the same domain and the same
  -- tagged tree, or else there are two different payloads with one SHA-256 digest.
  pub canonical_hash-collision :
      (v w : Value) (d e : Text) (h : Digest)
      → canonical_hash sha256 v d ≡ ok h
      → canonical_hash sha256 w e ≡ ok h
      → ((d ≡ e) × (tagged_tree v ≡ tagged_tree w))
        ⊎ ((a : Bytes) × (b : Bytes) × (a ≢ b) × (sha256 a ≡ sha256 b))
  canonical_hash-collision v w d e h hv hw =
      let (dv, a, ea, sa) = hashed v d h hv in
      let (dw, b, eb, sb) = hashed w e h hw in
      elim (Bytes-discrete (framed_payload d a) (framed_payload e b)) [
        | yes same ↦
            let (domains, contents) = framed_payload_injective d e a b dv dw same in
            inl (domains, canonical_json_bytes_injective v w a ea (rw contents eb))
        | no differ ↦ inr (framed_payload d a, framed_payload e b, differ, sa ∙ sym sb)
      ]
