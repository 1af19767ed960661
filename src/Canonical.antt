-- ===== src/Canonical.antt =====
-- protocol/canonical.py: the tagged tree of a JSON-compatible value, its text, and the bytes that a
-- digest binds. Characters are code points; `hashlib.sha256` is a parameter of `canonical_hash`.
mod Tests
pub mod Number
pub mod Encoder
pub mod Hash
pub mod KeyOrder
use defined_quant_components.Common.{
  ℕ, zero, suc, ◌+◌, Bool, true, false, ◌&&◌, ◌||◌, Option, none, some, List, [], ◌∷◌, ◌++◌, Result,
  ok, err, ◌>>=◌, ◌>>◌, or_raise, ltb, leb, ◌==◌, if◌then◌else◌, length, map,
}
use defined_quant_components.Utf8.{Text, Bytes, encode}
use Number.{
  ℤ, CanonicalError, lone_surrogate, bad_domain, key_not_string, not_canonical_value, number_hex,
  float_hex,
}
use Encoder.{Tree, Trees, str, list, truth, nil, cons, encode_tagged_json}

-- The Python values that `_tagged_tree` tells apart, in the order of its tests. An `Enum` holds its
-- value and a `BaseModel` its JSON dump; a mapping lists its items in their own order, each with
-- its key, or `none` for a key that is no string. `other` is anything else, bytes included.
mutual
  pub data Value : Type 0 where
    null : Value
    boolean : Bool → Value
    string : Text → Value
    integer : ℤ → Value
    float : ℕ → Value
    enum : Value → Value
    model : Value → Value
    mapping : Members → Value
    sequence : Items → Value
    other : Value

  pub data Items : Type 0 where
    no_item : Items
    item : Value → Items → Items

  pub data Members : Type 0 where
    end : Members
    member : Option Text → Value → Members → Members

-- `_valid_utf8`
unfoldable pub valid_utf8 : Text → Result CanonicalError Bytes
valid_utf8 s = or_raise (encode s) lone_surrogate

-- The order of `bytes` in Python.
unfoldable pub bytes_leb : Bytes → Bytes → Bool
bytes_leb [] b = true
bytes_leb (x ∷ a) [] = false
bytes_leb (x ∷ a) (y ∷ b) = ltb x y || (x == y && bytes_leb a b)

module _ {A : Type 0} where
  -- `sorted(..., key=lambda entry: entry[0])`, which is stable
  unfoldable pub insert_keyed : Bytes × A → List (Bytes × A) → List (Bytes × A)
  insert_keyed e [] = e ∷ []
  insert_keyed e (f ∷ l) = if bytes_leb e.0 f.0 then e ∷ f ∷ l else f ∷ insert_keyed e l

  unfoldable pub sort_keyed : List (Bytes × A) → List (Bytes × A)
  unfolding insert_keyed bytes_leb
  sort_keyed [] = []
  sort_keyed (e ∷ l) = insert_keyed e (sort_keyed l)

-- An item of a mapping, with what `_tagged_tree` makes of its value.
abbrev TaggedMember : Type 0
TaggedMember = Option Text × Result CanonicalError Tree

abbrev KeyedItem : Type 0
KeyedItem = Text × Result CanonicalError Tree

-- The `keyed_items` of a mapping: every key is a string that UTF-8 can encode.
unfoldable pub keyed_items : List TaggedMember → Result CanonicalError (List (Bytes × KeyedItem))
keyed_items [] = ok []
keyed_items ((none, value) ∷ l) = err key_not_string
keyed_items ((some key, value) ∷ l) = do
  bytes ← valid_utf8 key
  rest ← keyed_items l
  ok ((bytes, (key, value)) ∷ rest)

-- The `entries` of a mapping, in their order.
unfoldable pub object_entries : List (Bytes × KeyedItem) → Result CanonicalError Trees
object_entries [] = ok nil
object_entries ((bytes, (key, value)) ∷ l) = do
  tree ← value
  rest ← object_entries l
  ok (cons (list (cons (str key) (cons tree nil))) rest)

abbrev tagged : Text → Tree → Tree
tagged tag t = list (cons (str tag) (cons t nil))

abbrev tag_null : Text
tag_null = b'n' ∷ b'u' ∷ b'l' ∷ b'l' ∷ []

abbrev tag_boolean : Text
tag_boolean = b'b' ∷ b'o' ∷ b'o' ∷ b'l' ∷ b'e' ∷ b'a' ∷ b'n' ∷ []

abbrev tag_string : Text
tag_string = b's' ∷ b't' ∷ b'r' ∷ b'i' ∷ b'n' ∷ b'g' ∷ []

abbrev tag_number : Text
tag_number = b'n' ∷ b'u' ∷ b'm' ∷ b'b' ∷ b'e' ∷ b'r' ∷ []

abbrev tag_object : Text
tag_object = b'o' ∷ b'b' ∷ b'j' ∷ b'e' ∷ b'c' ∷ b't' ∷ []

abbrev tag_array : Text
tag_array = b'a' ∷ b'r' ∷ b'r' ∷ b'a' ∷ b'y' ∷ []

unfoldable pub tagged_object : List TaggedMember → Result CanonicalError Tree
unfolding keyed_items sort_keyed object_entries valid_utf8
tagged_object l = do
  keyed ← keyed_items l
  entries ← object_entries (sort_keyed keyed)
  ok (tagged tag_object (list entries))

unfoldable mutual
  unfolding tagged_object number_hex float_hex valid_utf8

  -- `_tagged_tree`
  pub tagged_tree : Value → Result CanonicalError Tree
  tagged_tree null = ok (list (cons (str tag_null) nil))
  tagged_tree (boolean b) = ok (tagged tag_boolean (truth b))
  tagged_tree (string s) = do valid_utf8 s >> ok (tagged tag_string (str s))
  tagged_tree (integer n) = do digits ← number_hex n; ok (tagged tag_number (str digits))
  tagged_tree (float bits) = do digits ← float_hex bits; ok (tagged tag_number (str digits))
  tagged_tree (enum v) = tagged_tree v
  tagged_tree (model v) = tagged_tree v
  tagged_tree (mapping ms) = tagged_object (tagged_members ms)
  tagged_tree (sequence vs) = do items ← tagged_items vs; ok (tagged tag_array (list items))
  tagged_tree other = err not_canonical_value

  pub tagged_items : Items → Result CanonicalError Trees
  tagged_items no_item = ok nil
  tagged_items (item v vs) = do t ← tagged_tree v; ts ← tagged_items vs; ok (cons t ts)

  pub tagged_members : Members → List TaggedMember
  tagged_members end = []
  tagged_members (member key v ms) = (key, tagged_tree v) ∷ tagged_members ms

-- `canonical_json_bytes`
unfoldable pub canonical_json_bytes : Value → Result CanonicalError Bytes
unfolding tagged_tree encode_tagged_json
canonical_json_bytes v = do
  tree ← tagged_tree v
  text ← encode_tagged_json tree
  or_raise (encode text) lone_surrogate
