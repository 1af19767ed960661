-- ===== src/Views/Paging.antt =====
-- `_validate_limit`, `_bounded_result` and `_page` of shared/record_views.py.
use defined_quant_components.Common.{
  ℕ, ◌+◌, ◌*◌, Bool, true, false, ◌&&◌, Option, none, some, List, [], ◌∷◌, ◌++◌, Result, ok, err,
  ◌>>=◌, ◌>>◌, raise_if, ltb, leb, ◌==◌, if◌then◌else◌, length, take, drop,
}
use defined_quant_components.Utf8.{Text}
use defined_quant_components.Canonical.Number.{ℤ, pos, negsuc}

abbrev pub max_structured_response_bytes : ℕ
max_structured_response_bytes = 256 * 1024

-- The failures of the views; `store_failed` is one that the session store raises.
pub data ViewError : Type 0 where
  invalid_limit invalid_cursor invalid_field invalid_artifact_id invalid_view invalid_combination :
      ViewError
  result_limit_exceeded : ℕ → ViewError
  record_corrupt artifact_not_found : ViewError
  key_not_encodable : ViewError
  store_failed : ViewError

-- `_validate_limit`
unfoldable pub validate_limit : ℤ → ℕ → Result ViewError ℕ
validate_limit (negsuc n) maximum = err invalid_limit
validate_limit (pos n) maximum = if leb 1 n && leb n maximum then ok n else err invalid_limit

-- The `page` object of a response.
pub record Page : Type 0 where
  pub start : ℕ
  pub returned : ℕ
  pub next_cursor : Option Text
  pub complete : Bool

abbrev pub is_empty : {A : Type 0} → List A → Bool
is_empty [] = true
is_empty (x ∷ xs) = false

-- `_bounded_result`
unfoldable pub bounded_result : {Data : Type 0} → (Data → ℕ) → Data → Result ViewError Data
bounded_result size d = do
  raise_if (ltb max_structured_response_bytes (size d)) (result_limit_exceeded (size d))
  ok d

module _ {A Data : Type 0} (encode_cursor : ℕ → Result ViewError Text)
    (build : List A → Page → Data) (size : Data → ℕ) (values : List A) (start limit : ℕ) where
  -- The object built from the selected values, with the page that describes them.
  unfoldable pub projected : List A → Result ViewError Data
  projected selected =
      let end = start + length selected in
      if end == length values
      then ok (
          build selected (record {
            start = start;
            returned = length selected;
            next_cursor = none;
            complete = true;
          }))
      else (do
        cursor ← encode_cursor end
        ok (
            build selected (record {
              start = start;
              returned = length selected;
              next_cursor = some cursor;
              complete = false;
            })))

  -- The loop over `range(start, maximum_end)`: as many values as fit into a response, at least one
  unfoldable pub grow : List A → List A → Result ViewError (List A)
  unfolding projected
  grow [] selected = ok selected
  grow (v ∷ vs) selected =
      let rest = grow vs (selected ++ v ∷ []) in
      do
        d ← projected (selected ++ v ∷ [])
        (if ltb max_structured_response_bytes (size d)
            then (if is_empty selected then err (result_limit_exceeded (size d)) else ok selected)
            else rest)

  -- The values of the page.
  unfoldable pub selection : Result ViewError (List A)
  unfolding grow
  selection = do
    raise_if (ltb (length values) start) invalid_cursor
    grow (take limit (drop start values)) []

  -- `_page`
  unfoldable pub page : Result ViewError Data
  unfolding selection projected bounded_result
  page = do selected ← selection; d ← projected selected; bounded_result size d
