-- ===== src/Session/Cursors.antt =====
-- `encode_cursor`, `decode_cursor` and `_cursor_selector_binding` of shared/session_cas.py.
use defined_quant_components.Common.{
  ℕ, ◌-◌, ◌*◌, ◌^◌, Bool, true, false, ◌&&◌, ◌||◌, not, Option, none, some, [], ◌∷◌, ◌++◌, ltb, leb,
  ◌==◌, length, take, drop, if◌then◌else◌,
}
use defined_quant_components.Utf8.{Text, Bytes, encode}
use defined_quant_components.Canonical.{Value, Members}
use defined_quant_components.Canonical.Number.{ℤ, pos, negsuc, max_safe_integer}
use defined_quant_components.Managed.Json.{codes, Text-discrete, same, object, optional_text}
use defined_quant_components.Host.Codes.{HostFailureCode}
use defined_quant_components.Host.Shape.{get, exact_keys}
use defined_quant_components.Session.Failing.{Raised, refused, other, refusal, invalid_request}
use defined_quant_components.Session.References.{reference_parts}
use defined_quant_components.Session.Backend.{Backend, Config, Session, max_cursor_bytes}
use defined_quant_components.Session.Exec.{
  Exec, pure, raise, lift, given, stop_if, catch, ◌>>=◌, ◌>>◌,
}
use defined_quant_components.Session.Store.{require_open, is_corrupt, is_held, not_held}

-- `_CURSOR_SELECTOR_DOMAIN`
abbrev selector_domain : Bytes
selector_domain = codes "defined-quant-cursor-selector-v1" ++ 0 ∷ []

abbrev is_base64_char : ℕ → Bool
is_base64_char c =
    (leb b'A' c && leb c b'Z')
    || (leb b'a' c && leb c b'z')
    || (leb b'0' c && leb c b'9')
    || c == b'_'
    || c == b'-'

unfoldable pub all_base64 : Text → Bool
all_base64 [] = true
all_base64 (c ∷ s) = is_base64_char c && all_base64 s

-- `_CURSOR_PATTERN`, which is `^[A-Za-z0-9_-]{1,512}$`
unfoldable pub is_cursor : Text → Bool
unfolding all_base64
is_cursor s = leb 1 (length s) && leb (length s) max_cursor_bytes && all_base64 s

-- `not isinstance(view, str) or not view or len(view.encode("utf-8")) > 64`, where an encoding error
-- makes the view invalid too
unfoldable pub is_view : Text → Bool
is_view [] = false
is_view (c ∷ s) = elim (encode (c ∷ s)) [ none ↦ false | some b ↦ leb (length b) 64 ]

-- `0 <= next_index <= 9_007_199_254_740_991`
abbrev pub is_index : ℤ → Bool
is_index (pos n) = leb n max_safe_integer
is_index (negsuc n) = false

-- `== 1` of Python: the integer, `True` and 1.0, whose bits are these
unfoldable pub equals_one : Value → Bool
equals_one (Value.integer (pos n)) = n == 1
equals_one (Value.boolean b) = b
equals_one (Value.float bits) = bits == 1023 * 2 ^ 52
equals_one v = false

-- `value == text`, and `value == None` where there is no text
unfoldable pub equals_text : Option Text → Value → Bool
unfolding same
equals_text none Value.null = true
equals_text (some s) (Value.string t) = same Text-discrete t s
equals_text _ _ = false

-- `type(value) is int and value >= 0`, with the value
unfoldable pub natural : Value → Option ℕ
natural (Value.integer (pos n)) = some n
natural v = none

abbrev pub members_of : Value → Option Members
members_of (Value.mapping ms) = some ms
members_of v = none

module _ {W : Type 0} (be : Backend W) where
  -- `_cursor_selector_binding`; the outer `none` is its ValueError
  unfoldable pub cursor_selector_binding : Option Text → Option (Option Text)
  cursor_selector_binding none = some none
  cursor_selector_binding (some []) = none
  cursor_selector_binding (some (c ∷ s)) = elim (encode (c ∷ s)) [
    | none ↦ none
    | some b ↦
        if ltb 240 (length b) then none else some (some (be.sha256_hex (selector_domain ++ b)))
  ]

  -- The object of a cursor, its keys sorted
  abbrev pub cursor_payload : Text → Text → Option Text → ℕ → Value
  cursor_payload reference view binding index = object (
      ("i", Value.integer (pos index))
      ∷ ("r", Value.string reference)
      ∷ ("s", optional_text binding)
      ∷ ("v", Value.string view)
      ∷ ("z", Value.integer (pos 1))
      ∷ [])

  abbrev pub natural_index : ℤ → ℕ
  natural_index (pos n) = n
  natural_index (negsuc n) = 0

  -- A value that is missing makes the request invalid.
  abbrev pub requested : {A : Type 0} → Option A → Exec (Session W) A
  requested none = raise invalid_request
  requested (some a) = pure a

  -- `_encode_cursor_token`
  unfoldable pub encode_cursor_token : Text → Text → Option Text → ℤ → Exec (Session W) Text
  unfolding is_view cursor_selector_binding
  encode_cursor_token reference view selector next_index = do
    stop_if (not (is_view view)) invalid_request
    binding ← requested (cursor_selector_binding selector)
    stop_if (not (is_index next_index)) invalid_request
    payload ←
        given (be.dump_json (cursor_payload reference view binding (natural_index next_index)))
    let token = be.urlsafe_b64encode (payload ++ be.sign payload)
    stop_if (ltb max_cursor_bytes (length token)) invalid_request
    pure token

  -- The comparisons of `decode_cursor` with the payload of the token; the index, if all hold
  unfoldable pub bound_index : Text → Text → Option Text → Value → Option ℕ
  unfolding exact_keys get equals_one equals_text natural
  bound_index reference view selector v = elim (members_of v) [
    | none ↦ none
    | some ms ↦ elim (cursor_selector_binding selector) [
      | none ↦ none
      | some binding ↦
          if exact_keys ms (codes "i" ∷ codes "r" ∷ codes "s" ∷ codes "v" ∷ codes "z" ∷ []) []
            && equals_one (get ms (codes "z"))
            && equals_text (some reference) (get ms (codes "r"))
            && equals_text (some view) (get ms (codes "v"))
            && equals_text binding (get ms (codes "s"))
          then natural (get ms (codes "i"))
          else none
    ]
  ]

  -- The payload that a token authenticates
  unfoldable pub authentic_payload : Text → Option Bytes
  unfolding is_cursor
  authentic_payload token = elim (be.urlsafe_b64decode token) [
    | none ↦ none
    | some decoded ↦
        let content = take (length decoded - 32) decoded in
        if is_cursor token
          && same Text-discrete (be.urlsafe_b64encode decoded) token
          && ltb 32 (length decoded)
          && same Text-discrete (drop (length decoded - 32) decoded) (be.sign content)
        then some content
        else none
  ]

  module _ (config : Config) where
    -- `encode_cursor`
    unfoldable pub encode_cursor : Text → Text → Option Text → ℤ → Exec (Session W) Text
    unfolding encode_cursor_token
    encode_cursor reference view selector next_index = do
      require_open be config
      lift (reference_parts reference none)
      corrupt ← is_corrupt be config reference
      stop_if corrupt (refusal HostFailureCode.record_corrupt)
      held ← is_held be config reference
      if held then pure tt else not_held be config reference
      encode_cursor_token reference view selector next_index

    -- `_encode_pending_cursor`
    unfoldable pub encode_pending_cursor : Text → Text → Option Text → ℤ → Exec (Session W) Text
    unfolding encode_cursor_token
    encode_pending_cursor reference view selector next_index = do
      require_open be config
      lift (reference_parts reference none)
      corrupt ← is_corrupt be config reference
      stop_if corrupt (refusal HostFailureCode.record_corrupt)
      encode_cursor_token reference view selector next_index

    -- The `try` block of `decode_cursor`
    unfoldable pub read_cursor : Text → Text → Text → Option Text → Exec (Session W) ℕ
    unfolding authentic_payload bound_index
    read_cursor token reference view selector = do
      content ← given (authentic_payload token)
      v ← given (be.load_json content)
      index ← given (bound_index reference view selector v)
      lift (reference_parts reference none)
      held ← is_held be config reference
      corrupt ← is_corrupt be config reference
      stop_if (not held || corrupt) other
      pure index

    -- Its handler, of the errors that are no `HostFailureException`
    abbrev pub invalid_cursor : Raised → Exec (Session W) ℕ
    invalid_cursor (refused f) = raise (refused f)
    invalid_cursor other = raise invalid_request

    -- `decode_cursor`
    unfoldable pub decode_cursor : Text → Text → Text → Option Text → Exec (Session W) ℕ
    unfolding read_cursor
    decode_cursor token reference view selector = do
      require_open be config
      catch (read_cursor token reference view selector) invalid_cursor
