-- ===== src/Views/Tests.antt =====
-- Pages over three numbers, and over a field of an operation.
use native.Mathlib.Decide.{ℕ_discrete}
use defined_quant_components.Common.{
  ℕ, zero, suc, ◌≤◌, ◌≡◌, refl, true, false, none, some, List, [], ◌∷◌, Result, ok, err, length,
  drop, arith,
}
use defined_quant_components.Utf8.{Text}
use defined_quant_components.Canonical.{Value, no_item, item}
use defined_quant_components.Canonical.Number.{pos}
use defined_quant_components.Managed.Json.{codes, same, Text-discrete}
use defined_quant_components.Views.Paging.{
  ViewError, Page, selection, page, max_structured_response_bytes, validate_limit,
}
use defined_quant_components.Views.Fitting.{page-eq-ok}
use defined_quant_components.Views.Window.{Shows, page-Shows}
use defined_quant_components.Views.Client.{
  Reads, Collects, last_page, next_page, Collects-drop, Collects-all,
}
use defined_quant_components.Views.Operation.{
  Cas, View, Request, Response, get_operation, field_of, items_of, start_of,
}
use defined_quant_components.Views.Bounded.{get_operation-le}

abbrev cursor_at : ℕ → Result ViewError Text
cursor_at i = ok (i ∷ [])

abbrev only_values : List ℕ → Page → List ℕ
only_values l p = l

abbrev three : List ℕ
three = 10 ∷ 20 ∷ 30 ∷ []

abbrev bytes_each : List ℕ → ℕ
bytes_each l = length l

page-Shows_example : Shows cursor_at only_values bytes_each three 1 1 (20 ∷ [])
unfolding page
page-Shows_example =
    page-Shows cursor_at only_values bytes_each three 1 1 (20 ∷ []) (omega arith) refl

-- Responses that are their values and their page, and the store's reading of such a cursor
abbrev Listed : Type 0
Listed = List ℕ × Page

abbrev listed : List ℕ → Page → Listed
listed l p = (l, p)

abbrev contents : Listed → List ℕ × Page
contents d = d

abbrev position : Text → Result ViewError ℕ
position [] = err ViewError.invalid_cursor
position (i ∷ s) = ok i

abbrev bytes_of : Listed → ℕ
bytes_of d = length d.0

listed-Reads : Reads cursor_at position listed contents
listed-Reads = record { reads = λ l p. refl; resumes = λ n token e. back n token e }
  where
    back : (n : ℕ) (token : Text) → cursor_at n ≡ ok token → position token ≡ ok n
    back n [] e = cc
    back n (i ∷ s) e = cc

abbrev first_two : Listed
first_two = (
  10 ∷ 20 ∷ [],
  record { start = 0; returned = 2; next_cursor = some (2 ∷ []); complete = false },
)

abbrev the_last : Listed
the_last = (30 ∷ [], record { start = 2; returned = 1; next_cursor = none; complete = true })

two_pages : Collects cursor_at position listed bytes_of contents three 0 three
unfolding page
two_pages =
    next_page 0 2 2 first_two (2 ∷ []) (30 ∷ []) (omega arith) refl refl refl
      (last_page 2 5 the_last (omega arith) refl refl)

Collects-drop_example : three ≡ drop 0 three
Collects-drop_example =
    Collects-drop cursor_at position listed bytes_of contents three listed-Reads 0 three two_pages

all_answered :
    (start : ℕ)
    → start ≤ length three
    → (d : Listed) × (page cursor_at listed bytes_of three start 2 ≡ ok d)
unfolding page
all_answered zero h = (_, refl)
all_answered (suc zero) h = (_, refl)
all_answered (suc (suc zero)) h = (_, refl)
all_answered (suc (suc (suc zero))) h = (_, refl)
all_answered (suc (suc (suc (suc n)))) h = absurd (omega arith)

Collects-all_example : Collects cursor_at position listed bytes_of contents three 1 (20 ∷ 30 ∷ [])
Collects-all_example =
    Collects-all cursor_at position listed bytes_of contents three listed-Reads 2 (omega arith)
      all_answered 1 (omega arith)

page-eq-ok_example : (d : List ℕ) × (page cursor_at only_values bytes_each three 1 1 ≡ ok d)
unfolding selection
page-eq-ok_example =
    page-eq-ok cursor_at only_values bytes_each three 1 1 (20 ∷ []) refl (omega arith)

abbrev one_operation : Cas
one_operation = record {
  load_operation = λ reference. ok (record {
    result = some ((codes "x", Value.sequence (item Value.null (item Value.null no_item))) ∷ []);
    artifact_ids = [];
  });
  encode_cursor = λ reference view selector i. cursor_at i;
  decode_cursor = λ token reference view selector. ok 0;
  size = λ r. 100;
}

abbrev first_item : Request
first_item = record {
  view = View.result_field;
  field = some (codes "x");
  artifact_id = none;
  cursor = none;
  limit = some (pos 1);
}

abbrev first_response : Response
first_response =
    Response.array_page (codes "x") (Value.null ∷ [])
      (record { start = 0; returned = 1; next_cursor = some (1 ∷ []); complete = false })

get_operation-le_example : 100 ≤ max_structured_response_bytes
unfolding get_operation same Text-discrete ℕ_discrete validate_limit field_of items_of start_of page
get_operation-le_example = get_operation-le one_operation (codes "r") first_item first_response refl
