-- ===== src/Canonical/Tests.antt =====
-- The canonical bytes and the digest of an object of two members.
use defined_quant_components.Common.{
  ◌≡◌, ◌≢◌, ◌⊎◌, refl, ap, length, arith, true, some, [], ◌∷◌, Result, ok, err,
}
use defined_quant_components.Utf8.{Text, Bytes, encode, encode_char}
use defined_quant_components.Canonical.{
  Value, Members, end, member, tagged_tree, canonical_json_bytes,
}
use defined_quant_components.Canonical.Number.{CanonicalError}
use defined_quant_components.Canonical.Encoder.{Tree, nil, cons, encode_tagged_json}
use defined_quant_components.Canonical.Encoder.Prefix.{encode_tagged_json_injective}
use defined_quant_components.Canonical.Hash.{
  canonical_hash, canonical_json_bytes_injective, canonical_hash-collision,
}
use defined_quant_components.Canonical.KeyOrder.{Reordered, swap, canonical_json_bytes-Reordered}

abbrev a_then_b : Members
a_then_b =
    member (some (b'a' ∷ [])) Value.null (member (some (b'b' ∷ b'b' ∷ [])) (Value.boolean true) end)

abbrev b_then_a : Members
b_then_a =
    member (some (b'b' ∷ b'b' ∷ [])) (Value.boolean true) (member (some (b'a' ∷ [])) Value.null end)

abbrev bytes_of : Result CanonicalError Bytes → Bytes
bytes_of (ok b) = b
bytes_of (err e) = []

a_then_b-Reordered : Reordered a_then_b b_then_a
unfolding encode encode_char
a_then_b-Reordered =
    swap (b'a' ∷ []) (b'b' ∷ b'b' ∷ []) (b'a' ∷ []) (b'b' ∷ b'b' ∷ []) Value.null
      (Value.boolean true) end (λ e. omega (arith, ap (λ (l : Text). length l) e)) refl refl

canonical_json_bytes-Reordered_example :
    canonical_json_bytes (Value.mapping a_then_b) ≡ canonical_json_bytes (Value.mapping b_then_a)
canonical_json_bytes-Reordered_example =
    canonical_json_bytes-Reordered a_then_b b_then_a a_then_b-Reordered

canonical_json_bytes_injective_example :
    tagged_tree (Value.mapping a_then_b) ≡ tagged_tree (Value.mapping b_then_a)
unfolding canonical_json_bytes encode encode_char
canonical_json_bytes_injective_example =
    canonical_json_bytes_injective (Value.mapping a_then_b) (Value.mapping b_then_a)
      (bytes_of (canonical_json_bytes (Value.mapping a_then_b))) refl refl

-- A hash that keeps everything
abbrev keep_all : Bytes → Bytes
keep_all b = b

abbrev domain : Text
domain = b'd' ∷ []

canonical_hash-collision_example :
    ((domain ≡ domain)
      × (tagged_tree (Value.mapping a_then_b) ≡ tagged_tree (Value.mapping b_then_a)))
    ⊎ ((a : Bytes) × (b : Bytes) × (a ≢ b) × (keep_all a ≡ keep_all b))
unfolding canonical_hash canonical_json_bytes encode encode_char
canonical_hash-collision_example =
    canonical_hash-collision keep_all (Value.mapping a_then_b) (Value.mapping b_then_a) domain
      domain (bytes_of (canonical_hash keep_all (Value.mapping a_then_b) domain)) refl refl

abbrev pair : Tree
pair = Tree.list (cons (Tree.str (b'"' ∷ 10 ∷ [])) (cons (Tree.truth true) nil))

abbrev text_of : Result CanonicalError Text → Text
text_of (ok s) = s
text_of (err e) = []

encode_tagged_json_injective_example : pair ≡ pair
unfolding encode_tagged_json encode encode_char
encode_tagged_json_injective_example =
    encode_tagged_json_injective pair pair (text_of (encode_tagged_json pair)) refl refl
