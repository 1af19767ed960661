-- ===== src/Utf8/Tests.antt =====
-- The codec on one character, and on an overlong form of it.
use defined_quant_components.Common.{◌≡◌, refl, none, some, [], ◌∷◌}
use defined_quant_components.Utf8.{decode}

decode_euro : decode (0x41 ∷ 0xe2 ∷ 0x82 ∷ 0xac ∷ []) ≡ some (0x41 ∷ 0x20ac ∷ [])
unfolding decode
decode_euro = refl

decode_overlong : decode (0xc0 ∷ 0x80 ∷ []) ≡ none
unfolding decode
decode_overlong = refl
