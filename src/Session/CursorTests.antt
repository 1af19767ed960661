-- ===== src/Session/CursorTests.antt =====
-- A cursor into a dataset that a session holds.
use native.Mathlib.Decide.{ℕ_discrete}
use defined_quant_components.Common.{◌≡◌, refl, true, false, none, [], ◌∷◌, ok}
use defined_quant_components.Utf8.{Text, encode, encode_char}
use defined_quant_components.Canonical.Number.{pos}
use defined_quant_components.Managed.Json.{Text-discrete, same, contains}
use defined_quant_components.Session.References.{reference_parts, reference_to}
use defined_quant_components.Session.Backend.{Session}
use defined_quant_components.Session.Exec.{◌>>=◌, pure, lift, gets, given, stop_if}
use defined_quant_components.Session.Store.{require_open, is_corrupt, is_held}
use defined_quant_components.Session.Cursors.{
  cursor_selector_binding, encode_cursor, decode_cursor, natural_index,
}
use defined_quant_components.Session.Memory.{Files, config}
use defined_quant_components.Session.Coding.{
  coding, coding-CursorLaws, paged_reference, paged_view, to_letters, zeros,
}
use defined_quant_components.Session.Tokens.{decode_cursor-encode_cursor}
use defined_quant_components.Session.Bound.{decode_cursor-bound}

abbrev paging : Session Files
paging = record {
  references = paged_reference ∷ [];
  corrupt_references = [];
  used_bytes = 67;
  closed = false;
  locked = true;
  scope = [];
  world = [];
}

abbrev cursor : Text
cursor = to_letters (3 ∷ zeros 32)

issued :
    encode_cursor coding config paged_reference paged_view none (pos 3) paging ≡ (ok cursor, paging)
unfolding encode_cursor ◌>>=◌ require_open gets stop_if lift reference_parts reference_to is_corrupt
    contains is_held same Text-discrete ℕ_discrete pure given encode encode_char
issued = refl

decode_cursor-encode_cursor_example :
    decode_cursor coding config cursor paged_reference paged_view none paging
    ≡ (ok (natural_index coding (pos 3)), paging)
decode_cursor-encode_cursor_example =
    decode_cursor-encode_cursor coding coding-CursorLaws config paged_reference paged_view none
      (pos 3) paging paging cursor issued

decode_cursor-bound_example :
    (paged_reference ≡ paged_reference)
    × (paged_view ≡ paged_view)
    × (cursor_selector_binding coding none ≡ cursor_selector_binding coding none)
    × (3 ≡ natural_index coding (pos 3))
decode_cursor-bound_example =
    decode_cursor-bound coding coding-CursorLaws config paged_reference paged_view none (pos 3)
      paging paging cursor paged_reference paged_view none paging paging 3 issued
      decode_cursor-encode_cursor_example
