-- ===== src/Canonical/Number.antt =====
-- `_number_hex` of protocol/canonical.py: a number as the sixteen hexadecimal digits of its double.
use defined_quant_components.Common.{
  ℕ, zero, suc, ◌+◌, ◌-◌, ◌*◌, ◌/◌, ◌%◌, ◌^◌, ◌≡◌, refl, Bool, true, ◌&&◌, [], ◌∷◌, ◌++◌, Result,
  ok, err, ltb, leb, ◌==◌, if◌then◌else◌,
}
use defined_quant_components.Utf8.{Text}

-- The exceptions of the module, by the message that they carry.
pub data CanonicalError : Type 0 where
  lone_surrogate unsafe_integer not_finite unsafe_float key_not_string not_canonical_value :
      CanonicalError
  bad_domain : CanonicalError

-- A Python integer: `negsuc n` is -(n + 1).
pub data ℤ : Type 0 where
  pos : ℕ → ℤ
  negsuc : ℕ → ℤ

abbrev pub max_safe_integer : ℕ
max_safe_integer = 2 ^ 53 - 1

-- The digits of `bytes.hex()`.
unfoldable pub hex_digit : ℕ → ℕ
hex_digit d = if ltb d 10 then 48 + d else 87 + d

unfoldable pub hex : ℕ → ℕ → Text
unfolding hex_digit
hex zero bits = []
hex (suc k) bits = hex k (bits / 16) ++ hex_digit (bits % 16) ∷ []

-- The greatest e ≤ `from` with 2 ^ e ≤ n, or 0.
unfoldable pub top_bit : ℕ → ℕ → ℕ
top_bit zero n = zero
top_bit (suc e) n = if leb (2 ^ suc e) n then suc e else top_bit e n

-- The fields of `float(n)` for 0 < n < 2 ^ 53, which a double holds exactly.
unfoldable pub magnitude_bits : ℕ → ℕ
unfolding top_bit
magnitude_bits zero = 0
magnitude_bits n = let e = top_bit 52 n in (1023 + e) * 2 ^ 52 + (n - 2 ^ e) * 2 ^ (52 - e)

abbrev sign_bit : ℕ
sign_bit = 2 ^ 63

-- The bits of `struct.pack(">d", float(value))`; `float(0)` is the positive zero.
unfoldable pub integer_bits : ℤ → ℕ
unfolding magnitude_bits
integer_bits (pos n) = magnitude_bits n
integer_bits (negsuc n) = sign_bit + magnitude_bits (suc n)

abbrev pub abs : ℤ → ℕ
abs (pos n) = n
abs (negsuc n) = suc n

-- The `int` branch of `_number_hex`
unfoldable pub number_hex : ℤ → Result CanonicalError Text
unfolding integer_bits hex
number_hex i =
    if ltb max_safe_integer (abs i) then err unsafe_integer else ok (hex 16 (integer_bits i))

-- A double by its bits: its biased exponent, and its significand m, with |x| = m * 2 ^ (e - 1075).
abbrev exponent : ℕ → ℕ
exponent bits = bits / 2 ^ 52 % 2 ^ 11

abbrev fraction : ℕ → ℕ
fraction bits = bits % 2 ^ 52

abbrev significand : ℕ → ℕ
significand bits = if exponent bits == 0 then 2 * fraction bits else 2 ^ 52 + fraction bits

-- `math.isfinite(value)`
abbrev pub is_finite : ℕ → Bool
is_finite bits = ltb (exponent bits) 2047

-- `value.is_integer()`
unfoldable pub is_integer : ℕ → Bool
is_integer bits =
    if leb 1075 (exponent bits) then true else significand bits % 2 ^ (1075 - exponent bits) == 0

-- `abs(value) > _MAX_SAFE_INTEGER`
unfoldable pub exceeds_safe : ℕ → Bool
exceeds_safe bits =
    if leb 1075 (exponent bits)
    then ltb max_safe_integer (significand bits * 2 ^ (exponent bits - 1075))
    else ltb (max_safe_integer * 2 ^ (1075 - exponent bits)) (significand bits)

-- `if normalized == 0.0: normalized = 0.0`, which takes the sign off the zero
abbrev pub without_zero_sign : ℕ → ℕ
without_zero_sign bits = if bits == sign_bit then 0 else bits

-- The `float` branch of `_number_hex`
unfoldable pub float_hex : ℕ → Result CanonicalError Text
unfolding is_integer exceeds_safe hex
float_hex bits =
    if ltb (exponent bits) 2047
    then (if is_integer bits && exceeds_safe bits
        then err unsafe_float
        else ok (hex 16 (without_zero_sign bits)))
    else err not_finite

-- 1.5 and -2, as Python prints them.
one_and_half : float_hex (0x3ff8 * 2 ^ 48) ≡ ok (hex 16 (0x3ff8 * 2 ^ 48))
unfolding float_hex
one_and_half = refl

minus_two : integer_bits (negsuc 1) ≡ 0xc000 * 2 ^ 48
unfolding integer_bits
minus_two = refl
