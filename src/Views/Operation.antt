-- ===== src/Views/Operation.antt =====
-- `get_operation` of shared/record_views.py: which view answers which request. The contents of the
-- summary and of the manifest, which have no pages, are not modelled. A response is what its view
-- shows; the texts that are the same in every response of a record (references, digests, the
-- expiry) are left out.
use defined_quant_components.Common.{
  ℕ, suc, Bool, true, false, ◌&&◌, ◌||◌, not, Option, none, some, List, [], ◌∷◌, ◌++◌, map, Result,
  ok, err, ◌>>=◌, ◌>>◌, raise_if, or_raise, if◌then◌else◌,
}
use defined_quant_components.Utf8.{Text, Bytes, encode}
use defined_quant_components.Canonical.{
  Value, Items, Members, no_item, item, end, member, sort_keyed,
}
use defined_quant_components.Canonical.Number.{ℤ, pos}
use defined_quant_components.Managed.Json.{codes, Text-discrete, same, is_safe_id}
use defined_quant_components.Views.Paging.{
  ViewError, invalid_field, invalid_artifact_id, invalid_view, invalid_combination, record_corrupt,
  artifact_not_found, key_not_encodable, Page, validate_limit, page, bounded_result,
}

-- One message of `_messages`.
pub data MessageKind : Type 0 where
  warning disclosure : MessageKind

pub record Message : Type 0 where
  pub kind : MessageKind
  pub index : ℕ
  pub text : Text

-- What the view of an operation shows.
pub data Response : Type 0 where
  summary_view : Response
  manifest_view : Response
  scalar_field : Text → Value → Response
  array_page : Text → List Value → Page → Response
  object_page : Text → List (Text × Value) → Page → Response
  messages_page : List Message → Page → Response
  artifact_view : Text → Response

-- A loaded operation: its result, `none` where the member is missing or no JSON object, and the
-- identifiers of its artifacts.
pub record Stored : Type 0 where
  pub result : Option (List (Text × Value))
  pub artifact_ids : List Text

-- A view's name; anything else is `unknown_view`.
pub data View : Type 0 where
  summary manifest result_field messages artifact_metadata unknown_view : View

-- The arguments of `get_operation`.
pub record Request : Type 0 where
  pub view : View
  pub field : Option Text
  pub artifact_id : Option Text
  pub cursor : Option Text
  pub limit : Option ℤ

-- The part of the session store that the views use, and the bytes of a response.
pub record Cas : Type 0 where
  pub load_operation : Text → Result ViewError Stored
  pub encode_cursor : Text → View → Option Text → ℕ → Result ViewError Text
  pub decode_cursor : Text → Text → View → Option Text → Result ViewError ℕ
  pub size : Response → ℕ

unfoldable pub field_of : List (Text × Value) → Text → Option Value
field_of [] field = none
field_of ((key, v) ∷ l) field =
    let rest = field_of l field in if same Text-discrete key field then some v else rest

unfoldable pub items_of : Items → List Value
items_of no_item = []
items_of (item v vs) = v ∷ items_of vs

abbrev put_entry :
    Text
    → Value
    → Option Bytes
    → Result ViewError (List (Bytes × (Text × Value)))
    → Result ViewError (List (Bytes × (Text × Value)))
put_entry key v none rest = err key_not_encodable
put_entry key v (some b) rest = rest >>= λ l. ok ((b, (key, v)) ∷ l)

-- `item.encode("utf-8")` of each key
unfoldable pub keyed_entries : Members → Result ViewError (List (Bytes × (Text × Value)))
keyed_entries end = ok []
keyed_entries (member none v ms) = err record_corrupt
keyed_entries (member (some key) v ms) =
    let rest = keyed_entries ms in put_entry key v (encode key) rest

-- The `entries` of an object, sorted by the bytes of their keys.
unfoldable pub entries_of : Members → Result ViewError (List (Text × Value))
unfolding keyed_entries
entries_of ms = do
  l ← keyed_entries ms
  ok (map (λ (e : Bytes × (Text × Value)). e.1) (sort_keyed l))

-- The texts of `result.get(key, [])`, which must be a list of strings
unfoldable pub texts_of : Option Value → Result ViewError (List Text)
texts_of none = ok []
texts_of (some (Value.sequence no_item)) = ok []
texts_of (some (Value.sequence (item (Value.string s) vs))) =
    let rest = texts_of (some (Value.sequence vs)) in rest >>= λ l. ok (s ∷ l)
texts_of (some _) = err record_corrupt

unfoldable pub numbered : MessageKind → ℕ → List Text → List Message
numbered kind i [] = []
numbered kind i (s ∷ l) = record { kind = kind; index = i; text = s } ∷ numbered kind (suc i) l

-- `_messages`
unfoldable pub messages_of : List (Text × Value) → Result ViewError (List Message)
unfolding texts_of numbered field_of
messages_of result = do
  warnings ← texts_of (field_of result (codes "warnings"))
  disclosures ← texts_of (field_of result (codes "disclosures"))
  ok (numbered warning 0 warnings ++ numbered disclosure 0 disclosures)

-- `_start`
unfoldable pub start_of : Cas → Text → View → Option Text → Option Text → Result ViewError ℕ
start_of cas reference view selector none = ok 0
start_of cas reference view selector (some token) = cas.decode_cursor token reference view selector

abbrev pub is_none : {A : Type 0} → Option A → Bool
is_none none = true
is_none (some a) = false

abbrev limit_or : ℕ → Option ℤ → ℤ
limit_or n none = pos n
limit_or n (some limit) = limit

unfoldable pub has_artifact : List Text → Text → Bool
has_artifact [] id = false
has_artifact (x ∷ xs) id = same Text-discrete x id || has_artifact xs id

module _ (cas : Cas) (reference : Text) where
  abbrev pub bounded : Response → Result ViewError Response
  bounded r = bounded_result cas.size r

  -- A page of a view, from the request's cursor on.
  unfoldable pub paged :
      {A : Type 0}
      → View
      → Option Text
      → Request
      → ℕ
      → (maximum : ℕ) → (List A → Page → Response)
      → List A
      → Result ViewError Response
  unfolding start_of
  paged view selector request default maximum build values = do
    limit ← validate_limit (limit_or default request.limit) maximum
    start ← start_of cas reference view selector request.cursor
    page (cas.encode_cursor reference view selector) build cas.size values start limit

  abbrev pub no_paging : Request → Bool
  no_paging request = is_none request.cursor && is_none request.limit

  -- The `result_field` view of one value.
  unfoldable pub field_view : Request → Text → Value → Result ViewError Response
  unfolding paged entries_of items_of
  field_view request field (Value.sequence vs) =
      paged View.result_field (some field) request 100 1000 (array_page field) (items_of vs)
  field_view request field (Value.mapping ms) = do
    limit ← validate_limit (limit_or 100 request.limit) 1000
    start ← start_of cas reference View.result_field (some field) request.cursor
    entries ← entries_of ms
    page (cas.encode_cursor reference View.result_field (some field)) (object_page field) cas.size
        entries start limit
  field_view request field v = do
    raise_if (not (no_paging request)) invalid_combination
    bounded (scalar_field field v)

  abbrev pub chosen_field : Request → List (Text × Value) → Result ViewError (Text × Value)
  chosen_field request result = elim request.field [
    | none ↦ err invalid_field
    | some field ↦ elim (field_of result field) [
      | none ↦ err invalid_field
      | some v ↦ ok (field, v)
    ]
  ]

  -- `get_operation`, after the operation is loaded
  unfoldable pub view_of : View → Request → Stored → Result ViewError Response
  unfolding field_view paged messages_of has_artifact is_safe_id
  view_of View.summary request stored = do
    raise_if (not (is_none request.field && is_none request.artifact_id && no_paging request))
        invalid_combination
    bounded summary_view
  view_of View.manifest request stored = do
    raise_if (not (is_none request.field && is_none request.artifact_id && no_paging request))
        invalid_combination
    bounded manifest_view
  view_of View.result_field request stored = do
    result ← or_raise stored.result record_corrupt
    raise_if (not (is_none request.artifact_id)) invalid_field
    chosen ← chosen_field request result
    field_view request chosen.0 chosen.1
  view_of View.messages request stored = do
    result ← or_raise stored.result record_corrupt
    raise_if (not (is_none request.field && is_none request.artifact_id)) invalid_combination
    all ← messages_of result
    paged View.messages none request 20 100 messages_page all
  view_of View.artifact_metadata request stored = do
    result ← or_raise stored.result record_corrupt
    raise_if (not (is_none request.field && no_paging request)) invalid_combination
    id ← or_raise request.artifact_id invalid_combination
    raise_if (not (is_safe_id id)) invalid_artifact_id
    raise_if (not (has_artifact stored.artifact_ids id)) artifact_not_found
    bounded (artifact_view id)
  view_of View.unknown_view request stored = do
    result ← or_raise stored.result record_corrupt
    err invalid_view

  -- `get_operation`
  unfoldable pub get_operation : Request → Result ViewError Response
  unfolding view_of
  get_operation request = do
    stored ← cas.load_operation reference
    view_of request.view request stored
