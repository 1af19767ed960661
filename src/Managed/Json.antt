-- ===== src/Managed/Json.antt =====
-- How the models dump themselves to JSON, the identifiers' pattern, and Python's `==` and `in` on
-- the texts and records of this part.
use Prim.Native.Char.{code}
use Prim.Native.String.{String}
use native.Mathlib.Decide.{ℕ_discrete}
use defined_quant_components.Common.{
  ℕ, ◌≡◌, refl, ap, sym, ◌∙◌, Bool, true, false, ◌&&◌, ◌||◌, not, Option, none, some, List, [], ◌∷◌,
  leb, ◌==◌, length, ◌⊎◌, inl, inr, Bool-cases,
}
use defined_quant_components.Utf8.{Text}
use defined_quant_components.Canonical.{Value, Items, Members, no_item, item, end, member}

-- The code points of a literal.
abbrev pub codes : String → Text
codes String.[] = []
codes (String.◌∷◌ c s) = code c ∷ codes s

unfoldable pub Text-discrete : Discrete Text
Text-discrete = hlevel ℕ_discrete

-- Python's `==` on values with decidable equality
unfoldable pub same : {A : Type 0} → Discrete A → A → A → Bool
same d a b = elim (d a b) [ yes _ ↦ true | no _ ↦ false ]

pub same→eq : {A : Type 0} (d : Discrete A) (a b : A) → same d a b ≡ true → a ≡ b
unfolding same
same→eq d a b h = go (d a b) h
  where
    go : (x : Dec (a ≡ b)) → (elim x as (λ _. Bool) [ yes _ ↦ true | no _ ↦ false ]) ≡ true → a ≡ b
    go (yes p) h = p
    go (no q) h = cc

pub same_refl : {A : Type 0} (d : Discrete A) (a : A) → same d a a ≡ true
unfolding same
same_refl d a = go (d a a)
  where
    go : (x : Dec (a ≡ a)) → (elim x as (λ _. Bool) [ yes _ ↦ true | no _ ↦ false ]) ≡ true
    go (yes p) = refl
    go (no q) = absurd (q refl)

unfoldable pub contains : {A : Type 0} → Discrete A → List A → A → Bool
contains d [] a = false
contains d (x ∷ xs) a = same d x a || contains d xs a

-- `len(set(xs)) == len(xs)`
unfoldable pub all_distinct : {A : Type 0} → Discrete A → List A → Bool
unfolding contains
all_distinct d [] = true
all_distinct d (x ∷ xs) = not (contains d xs x) && all_distinct d xs

-- `^[a-z][a-z0-9_]{0,63}$`
abbrev pub is_id_char : ℕ → Bool
is_id_char c = (leb b'a' c && leb c b'z') || (leb b'0' c && leb c b'9') || c == b'_'

unfoldable pub all_id_chars : Text → Bool
all_id_chars [] = true
all_id_chars (c ∷ s) = is_id_char c && all_id_chars s

unfoldable pub is_safe_id : Text → Bool
unfolding all_id_chars
is_safe_id [] = false
is_safe_id (c ∷ s) = leb b'a' c && leb c b'z' && all_id_chars s && leb (length s) 63

-- A JSON object and array, a text, and a field that may be `null`
abbrev pub object_members : List (String × Value) → Members
object_members [] = end
object_members ((key, v) ∷ l) = member (some (codes key)) v (object_members l)

abbrev pub object : List (String × Value) → Value
object l = Value.mapping (object_members l)

abbrev pub array_items : List Value → Items
array_items [] = no_item
array_items (v ∷ l) = item v (array_items l)

abbrev pub array : List Value → Value
array l = Value.sequence (array_items l)

abbrev pub optional_text : Option Text → Value
optional_text none = Value.null
optional_text (some s) = Value.string s

pub eq→same : {A : Type 0} (d : Discrete A) {a b : A} → a ≡ b → same d a b ≡ true
eq→same d {a = a} p = ap (same d a) (sym p) ∙ same_refl d a

pub same-cases :
    {A : Type 0} (d : Discrete A) (a b : A) → ((same d a b ≡ true) × (a ≡ b)) ⊎ (same d a b ≡ false)
same-cases d a b = elim (Bool-cases (same d a b)) [
  | inl equal ↦ inl (equal, same→eq d a b equal)
  | inr differs ↦ inr differs
]

pub same_comm : {A : Type 0} (d : Discrete A) (a b : A) → same d a b ≡ same d b a
same_comm d a b = elim (same-cases d a b) [
  | inl (equal, p) ↦ equal ∙ sym (eq→same d (sym p))
  | inr differs ↦ elim (same-cases d b a) [
    | inl (equal, p) ↦ eq→same d (sym p) ∙ sym equal
    | inr apart ↦ differs ∙ sym apart
  ]
]
