-- ===== src/Canonical/KeyOrder.antt =====
-- The order of the items of a mapping, in `_tagged_tree` of protocol/canonical.py.
use defined_quant_components.Common.{
  ◌≡◌, ◌≢◌, refl, sym, ap, ◌∙◌, true, false, Option, none, some, List, [], ◌∷◌, Result, ok, err,
  ◌>>=◌, arith, Option-cases, inl, inr,
}
use defined_quant_components.Utf8.{Text, Bytes, encode}
use defined_quant_components.Utf8.RoundTrip.{encode_injective}
use defined_quant_components.Canonical.{
  Value, Members, member, mapping, KeyedItem, bytes_leb, insert_keyed, sort_keyed, keyed_items,
  object_entries, tagged_members, tagged, tag_object, tagged_object, tagged_tree, valid_utf8,
  canonical_json_bytes,
}
use defined_quant_components.Canonical.Encoder.{list}
use defined_quant_components.Canonical.Number.{CanonicalError, lone_surrogate, key_not_string}

bytes_leb_trans :
    (a b c : Bytes) → bytes_leb a b ≡ true → bytes_leb b c ≡ true → bytes_leb a c ≡ true
unfolding bytes_leb
bytes_leb_trans [] b c h k = refl
bytes_leb_trans (x ∷ a) [] c h k = cc
bytes_leb_trans (x ∷ a) (y ∷ b) [] h k = cc
bytes_leb_trans (x ∷ a) (y ∷ b) (z ∷ c) h k = ground (arith, bytes_leb_trans a b c)

bytes_leb_total : (a b : Bytes) → bytes_leb a b ≡ false → bytes_leb b a ≡ true
unfolding bytes_leb
bytes_leb_total [] b h = cc
bytes_leb_total (x ∷ a) [] h = refl
bytes_leb_total (x ∷ a) (y ∷ b) h = ground (arith, bytes_leb_total a b)

bytes_leb_antisym : (a b : Bytes) → bytes_leb a b ≡ true → bytes_leb b a ≡ true → a ≡ b
unfolding bytes_leb
bytes_leb_antisym [] [] h k = refl
bytes_leb_antisym [] (y ∷ b) h k = cc
bytes_leb_antisym (x ∷ a) [] h k = cc
bytes_leb_antisym (x ∷ a) (y ∷ b) h k = ground (arith, bytes_leb_antisym a b)

module _ {A : Type 0} (e f : Bytes × A) (apart : e.0 ≢ f.0) where
  -- Items with different keys may be inserted in either order.
  insert_keyed_comm :
      (l : List (Bytes × A)) → insert_keyed e (insert_keyed f l) ≡ insert_keyed f (insert_keyed e l)
  unfolding insert_keyed
  insert_keyed_comm [] = ground (arith, bytes_leb_total e.0 f.0, bytes_leb_antisym e.0 f.0)
  insert_keyed_comm (g ∷ l) = ground (
    arith,
    bytes_leb_total e.0 f.0,
    bytes_leb_antisym e.0 f.0,
    bytes_leb_trans e.0 f.0 g.0,
    bytes_leb_trans f.0 e.0 g.0,
    insert_keyed_comm l,
  )

-- The same items in another order: what Python allows for a dictionary, whose keys are distinct.
pub data Reordered : Members → Members → Type 0 where
  same : (ms : Members) → Reordered ms ms
  swap :
      (k j : Text) (p q : Bytes) (v w : Value) (ms : Members)
      → k ≢ j
      → encode k ≡ some p
      → encode j ≡ some q
      → Reordered
          (member (some k) v (member (some j) w ms))
          (member (some j) w (member (some k) v ms))
  keep :
      (key : Option Text) (v : Value) {ms ns : Members}
      → Reordered ms ns
      → Reordered (member key v ms) (member key v ns)
  joined : {ms ns os : Members} → Reordered ms ns → Reordered ns os → Reordered ms os

sorted_members : Members → Result CanonicalError (List (Bytes × KeyedItem))
sorted_members ms = keyed_items (tagged_members ms) >>= λ l. ok (sort_keyed l)

abbrev put_encoded :
    Option Bytes
    → Text
    → Value
    → Result CanonicalError (List (Bytes × KeyedItem))
    → Result CanonicalError (List (Bytes × KeyedItem))
put_encoded none k v r = err lone_surrogate
put_encoded (some b) k v r = r >>= λ l. ok (insert_keyed (b, (k, tagged_tree v)) l)

abbrev put_member :
    Option Text
    → Value
    → Result CanonicalError (List (Bytes × KeyedItem))
    → Result CanonicalError (List (Bytes × KeyedItem))
put_member none v r = err key_not_string
put_member (some k) v r = put_encoded (encode k) k v r

-- One more item of the mapping is one more insertion.
sorted_members-member :
    (key : Option Text) (v : Value) (ms : Members)
    → sorted_members (member key v ms) ≡ put_member key v (sorted_members ms)
unfolding sorted_members keyed_items tagged_tree sort_keyed valid_utf8
sorted_members-member none v ms = refl
sorted_members-member (some k) v ms = elim (Option-cases (encode k)) [
  | inl refused ↦ rw refused
  | inr (b, e) ↦ rw e (once b (keyed_items (tagged_members ms)))
]
  where
    once :
        (b : Bytes) (r : Result CanonicalError (List (Bytes × KeyedItem)))
        → ((r >>= λ l. ok ((b, (k, tagged_tree v)) ∷ l)) >>= λ l. ok (sort_keyed l))
          ≡ put_encoded (some b) k v (r >>= λ l. ok (sort_keyed l))
    once b (ok l) = refl
    once b (err e) = refl

put_encoded_comm :
    (k j : Text) (p q : Bytes) (v w : Value) (r : Result CanonicalError (List (Bytes × KeyedItem)))
    → p ≢ q
    → put_encoded (some p) k v (put_encoded (some q) j w r)
      ≡ put_encoded (some q) j w (put_encoded (some p) k v r)
put_encoded_comm k j p q v w (err e) apart = refl
put_encoded_comm k j p q v w (ok l) apart =
    ap (λ (x : List (Bytes × KeyedItem)). ok x)
      (insert_keyed_comm (p, (k, tagged_tree v)) (q, (j, tagged_tree w)) apart l)

sorted_members-Reordered :
    {ms ns : Members} → Reordered ms ns → sorted_members ms ≡ sorted_members ns
sorted_members-Reordered (same ms) = refl
sorted_members-Reordered (swap k j p q v w ms apart ek ej) =
    let differ : p ≢ q = λ e. apart (encode_injective k j p ek (rw e ej)) in
    simp (sorted_members-member, ek, ej) (put_encoded_comm k j p q v w (sorted_members ms) differ)
sorted_members-Reordered (keep key v {ms = ms} {ns = ns} r) =
    sorted_members-member key v ms
    ∙ ap (put_member key v) (sorted_members-Reordered r)
    ∙ sym (sorted_members-member key v ns)
sorted_members-Reordered (joined r t) = sorted_members-Reordered r ∙ sorted_members-Reordered t

tagged_object-sorted :
    (ms : Members)
    → tagged_tree (mapping ms)
      ≡ (sorted_members ms >>= λ l. object_entries l >>= λ es. ok (tagged tag_object (list es)))
unfolding tagged_tree tagged_object sorted_members
tagged_object-sorted ms = sorted_first (keyed_items (tagged_members ms))
  where
    sorted_first :
        (r : Result CanonicalError (List (Bytes × KeyedItem)))
        → (r >>= λ l. object_entries (sort_keyed l) >>= λ es. ok (tagged tag_object (list es))) ≡ (
            (r >>= λ l. ok (sort_keyed l)) >>= λ l.
            object_entries l >>= λ es. ok (tagged tag_object (list es)))
    sorted_first (ok l) = refl
    sorted_first (err e) = refl

-- The canonical bytes of a mapping, or the error, do not depend on the order of its items, for any
-- rearrangement that swaps neighbouring items with different, encodable keys.
pub canonical_json_bytes-Reordered :
    (ms ns : Members)
    → Reordered ms ns
    → canonical_json_bytes (mapping ms) ≡ canonical_json_bytes (mapping ns)
unfolding canonical_json_bytes
canonical_json_bytes-Reordered ms ns r =
    rw (tagged_object-sorted ms, tagged_object-sorted ns, sorted_members-Reordered r)
