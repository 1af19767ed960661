-- ===== src/Views/Bounded.antt =====
-- The bound on the responses of shared/record_views.py.
use defined_quant_components.Common.{
  ℕ, ◌≤◌, ◌≡◌, ◌&&◌, not, Option, none, some, List, Result, ok, raise_if, or_raise, raise_if-eq-ok,
  after_ok, arith, ltb,
}
use defined_quant_components.Utf8.{Text}
use defined_quant_components.Canonical.{Value}
use defined_quant_components.Managed.Json.{is_safe_id}
use defined_quant_components.Views.Paging.{
  ViewError, invalid_combination, invalid_artifact_id, artifact_not_found, Page, validate_limit,
  projected, selection, page, bounded_result, max_structured_response_bytes,
}
use defined_quant_components.Views.Operation.{
  Cas, Request, View, Stored, Response, start_of, paged, field_view, entries_of, items_of,
  messages_of, has_artifact, chosen_field, no_paging, is_none, view_of, get_operation,
}

bounded_result-le :
    {Data : Type 0} (size : Data → ℕ) (d e : Data)
    → bounded_result size d ≡ ok e
    → size e ≤ max_structured_response_bytes
unfolding bounded_result
bounded_result-le size d e h =
    let (small, last) = raise_if-eq-ok (ltb max_structured_response_bytes (size d)) _ _ h in
    let same_data : d ≡ e = cc in rw (← same_data) (ground arith)

page-le :
    {A Data : Type 0} (encode_cursor : ℕ → Result ViewError Text) (build : List A → Page → Data)
    (size : Data → ℕ) (values : List A) (start limit : ℕ) (d : Data)
    → page encode_cursor build size values start limit ≡ ok d
    → size d ≤ max_structured_response_bytes
unfolding page
page-le encode_cursor build size values start limit d h =
    after_ok (selection encode_cursor build size values start limit) _ h λ out _ h1.
      after_ok (projected encode_cursor build size values start limit out) _ h1
        λ e _ h2. bounded_result-le size e d h2

module _ (cas : Cas) (reference : Text) where
  paged-le :
      {A : Type 0} (view : View) (selector : Option Text) (request : Request) (default maximum : ℕ)
      (build : List A → Page → Response) (values : List A) (r : Response)
      → paged cas reference view selector request default maximum build values ≡ ok r
      → cas.size r ≤ max_structured_response_bytes
  unfolding paged
  paged-le view selector request default maximum build values r h =
      after_ok (validate_limit _ maximum) _ h λ limit _ h1.
        after_ok (start_of cas reference view selector request.cursor) _ h1 λ start _ h2.
          page-le (cas.encode_cursor reference view selector) build cas.size values start limit r h2

  field_view-le :
      (request : Request) (field : Text) (v : Value) (r : Response)
      → field_view cas reference request field v ≡ ok r
      → cas.size r ≤ max_structured_response_bytes
  unfolding field_view
  field_view-le request field (Value.sequence vs) r h =
      paged-le View.result_field (some field) request 100 1000 (Response.array_page field)
        (items_of vs) r h
  field_view-le request field (Value.mapping ms) r h =
      after_ok (validate_limit _ 1000) _ h λ limit _ h1.
        after_ok (start_of cas reference View.result_field (some field) request.cursor) _ h1
          λ start _ h2. after_ok (entries_of ms) _ h2 λ entries _ h3.
            page-le (cas.encode_cursor reference View.result_field (some field))
              (Response.object_page field) cas.size entries start limit r h3
  field_view-le request field v r h =
      bounded_result-le cas.size (Response.scalar_field field v) r
        (raise_if-eq-ok (not (no_paging cas reference request)) _ _ h).1

  view_of-le :
      (view : View) (request : Request) (stored : Stored) (r : Response)
      → view_of cas reference view request stored ≡ ok r
      → cas.size r ≤ max_structured_response_bytes
  unfolding view_of
  view_of-le View.summary request stored r h =
      after_ok (raise_if _ invalid_combination) _ h
        λ _ _ h1. bounded_result-le cas.size Response.summary_view r h1
  view_of-le View.manifest request stored r h =
      after_ok (raise_if _ invalid_combination) _ h
        λ _ _ h1. bounded_result-le cas.size Response.manifest_view r h1
  view_of-le View.result_field request stored r h =
      after_ok (or_raise stored.result _) _ h λ result _ h1. after_ok (raise_if _ _) _ h1 λ _ _ h2.
        after_ok (chosen_field cas reference request result) _ h2
          λ chosen _ h3. field_view-le request chosen.0 chosen.1 r h3
  view_of-le View.messages request stored r h =
      after_ok (or_raise stored.result _) _ h λ result _ h1. after_ok (raise_if _ _) _ h1 λ _ _ h2.
        after_ok (messages_of result) _ h2
          λ all _ h3. paged-le View.messages none request 20 100 Response.messages_page all r h3
  view_of-le View.artifact_metadata request stored r h =
      after_ok (or_raise stored.result _) _ h λ result _ h1.
        after_ok
          (raise_if (not (is_none request.field && no_paging cas reference request))
            invalid_combination)
          _ h1
          λ _ _ h2. after_ok (or_raise request.artifact_id invalid_combination) _ h2 λ id _ h3.
            after_ok (raise_if (not (is_safe_id id)) invalid_artifact_id) _ h3 λ _ _ h4.
              after_ok (raise_if (not (has_artifact stored.artifact_ids id)) artifact_not_found) _
                h4 λ _ _ h5. bounded_result-le cas.size (Response.artifact_view id) r h5
  view_of-le View.unknown_view request stored r h =
      after_ok (or_raise stored.result _) _ h λ result _ h1. cc

  -- Every response of `get_operation` is within the bound on a structured response, whatever the
  -- view, the record and the page.
  pub get_operation-le :
      (request : Request) (r : Response)
      → get_operation cas reference request ≡ ok r
      → cas.size r ≤ max_structured_response_bytes
  unfolding get_operation
  get_operation-le request r h =
      after_ok (cas.load_operation reference) _ h
        λ stored _ h1. view_of-le request.view request stored r h1
