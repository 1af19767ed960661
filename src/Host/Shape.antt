-- ===== src/Host/Shape.antt =====
-- The tests of shared/host_failures.py on JSON values, by which the details of a failure are closed.
-- The items of a JSON object are `Members`; a list or a tuple is a `Value.sequence`.
use defined_quant_components.Common.{
  ℕ, suc, ◌-◌, ◌^◌, ◌++◌, Bool, true, false, ◌&&◌, ◌||◌, Option, none, some, List, [], ◌∷◌, leb,
  ltb, ◌==◌, length, if◌then◌else◌,
}
use defined_quant_components.Utf8.{Text, encode}
use defined_quant_components.Canonical.{Value, Items, Members, no_item, item, end, member}
use defined_quant_components.Canonical.Number.{ℤ, pos, negsuc, max_safe_integer}
use defined_quant_components.Managed.Json.{Text-discrete, same, contains, is_id_char, is_safe_id}

-- `_utf8_size`
unfoldable pub utf8_size : Text → Option ℕ
utf8_size s = elim (encode s) [ none ↦ none | some bytes ↦ some (length bytes) ]

-- `_field_name` of a string, and of any value
unfoldable pub is_field_name : Text → Bool
unfolding utf8_size
is_field_name s = elim (utf8_size s) [ none ↦ false | some size ↦ leb 1 size && leb size 240 ]

unfoldable pub field_name : Value → Bool
unfolding is_field_name
field_name (Value.string s) = is_field_name s
field_name v = false

-- `value.isascii()`
unfoldable pub is_ascii : Text → Bool
is_ascii [] = true
is_ascii (c ∷ s) = ltb c 128 && is_ascii s

-- `[a-z][a-z0-9_]*` at the front, up to a full stop; the text after it
unfoldable pub after_stop : Text → Option Text
after_stop [] = none
after_stop (c ∷ s) = if c == b'.' then some s else if is_id_char c then after_stop s else none

unfoldable pub is_word : Text → Bool
is_word [] = true
is_word (c ∷ s) = is_id_char c && is_word s

abbrev is_lower : ℕ → Bool
is_lower c = leb b'a' c && leb c b'z'

-- `_COMPONENT_ID`, which is `^dq\.[a-z][a-z0-9_]*\.[a-z][a-z0-9_]*$`
unfoldable pub second_word : Text → Bool
unfolding is_word
second_word [] = false
second_word (c ∷ s) = is_lower c && is_word s

unfoldable pub two_words : Text → Bool
unfolding after_stop second_word
two_words [] = false
two_words (c ∷ s) =
    is_lower c && elim (after_stop s) [ none ↦ false | some rest ↦ second_word rest ]

unfoldable pub matches_component_id : Text → Bool
unfolding two_words
matches_component_id (d ∷ q ∷ stop ∷ s) = d == b'd' && q == b'q' && stop == b'.' && two_words s
matches_component_id s = false

-- `_component_id` of a string, and of any value
unfoldable pub is_component_id : Text → Bool
unfolding is_ascii matches_component_id
is_component_id s = is_ascii s && leb 1 (length s) && leb (length s) 240 && matches_component_id s

unfoldable pub component_id : Value → Bool
unfolding is_component_id
component_id (Value.string s) = is_component_id s
component_id v = false

-- `_safe_id`
unfoldable pub safe_id : Value → Bool
unfolding is_ascii is_safe_id
safe_id (Value.string s) = is_ascii s && is_safe_id s
safe_id v = false

-- `<=` of Python integers
unfoldable pub int_leb : ℤ → ℤ → Bool
int_leb (pos m) (pos n) = leb m n
int_leb (pos m) (negsuc n) = false
int_leb (negsuc m) (pos n) = true
int_leb (negsuc m) (negsuc n) = leb n m

-- `-_MAX_SAFE_INTEGER`, the default minimum
abbrev pub least_safe_integer : ℤ
least_safe_integer = negsuc (2 ^ 53 - 2)

-- `_safe_integer`
unfoldable pub safe_integer : ℤ → Value → Bool
unfolding int_leb
safe_integer minimum (Value.integer i) = int_leb minimum i && int_leb i (pos max_safe_integer)
safe_integer minimum v = false

-- `details.get(key)`, and `key in details`
unfoldable pub get : Members → Text → Value
get end key = Value.null
get (member none v ms) key = get ms key
get (member (some k) v ms) key = if same Text-discrete k key then v else get ms key

unfoldable pub has_key : Members → Text → Bool
has_key end key = false
has_key (member none v ms) key = has_key ms key
has_key (member (some k) v ms) key = same Text-discrete k key || has_key ms key

unfoldable pub is_subset_of_keys : List Text → Members → Bool
unfolding has_key
is_subset_of_keys [] details = true
is_subset_of_keys (key ∷ keys) details = has_key details key && is_subset_of_keys keys details

unfoldable pub keys_among : Members → List Text → Bool
keys_among end keys = true
keys_among (member none v ms) keys = false
keys_among (member (some k) v ms) keys = contains Text-discrete keys k && keys_among ms keys

-- `_exact_keys`
unfoldable pub exact_keys : Members → List Text → List Text → Bool
unfolding is_subset_of_keys keys_among
exact_keys details required optional =
    is_subset_of_keys required details && keys_among details (required ++ optional)

unfoldable pub items_length : Items → ℕ
items_length no_item = 0
items_length (item v vs) = suc (items_length vs)

unfoldable pub all_items : (Value → Bool) → Items → Bool
all_items predicate no_item = true
all_items predicate (item v vs) = predicate v && all_items predicate vs

-- `_string_array`
unfoldable pub string_array : (Value → Bool) → ℕ → Value → Bool
unfolding items_length all_items
string_array predicate maximum (Value.sequence vs) =
    leb (items_length vs) maximum && all_items predicate vs
string_array predicate maximum v = false
