-- ===== src/Views/Fitting.antt =====
-- The last check of `_page` of shared/record_views.py, on what its loop selected.
use defined_quant_components.Common.{
  ℕ, ◌≤◌, ◌≡◌, ◌⊎◌, inl, inr, refl, ap, false, List, [], ◌∷◌, ◌++◌, Result, ok, err, raise_if-eq-ok,
  after_ok, Bool-cases, length, take, drop, arith, ltb, if◌then◌else◌,
}
use defined_quant_components.Utf8.{Text}
use defined_quant_components.Views.Paging.{
  ViewError, is_empty, result_limit_exceeded, Page, projected, grow, selection, bounded_result,
  page, max_structured_response_bytes,
}

module _ {A Data : Type 0} (encode_cursor : ℕ → Result ViewError Text)
    (build : List A → Page → Data) (size : Data → ℕ) (values : List A) (start limit : ℕ) where
  -- The values make a response that is small enough.
  record Fitting (selected : List A) : Type 0 where
    data_of : Data
    is_projected : projected encode_cursor build size values start limit selected ≡ ok data_of
    small : ltb max_structured_response_bytes (size data_of) ≡ false

  grow-Fitting :
      (vs selected out : List A)
      → (selected ≡ []) ⊎ Fitting selected
      → grow encode_cursor build size values start limit vs selected ≡ ok out
      → (out ≡ []) ⊎ Fitting out
  unfolding grow
  grow-Fitting [] selected out start_fits h =
      let same_list : selected ≡ out = cc in rw same_list at start_fits
  grow-Fitting (v ∷ vs) selected out start_fits h =
      after_ok (projected encode_cursor build size values start limit (selected ++ v ∷ [])) _ h
        λ d e step. elim (Bool-cases (ltb max_structured_response_bytes (size d))) [
          | inl over ↦ stopped selected (size d) start_fits (ground arith)
          | inr fits ↦
              grow-Fitting vs (selected ++ v ∷ []) out
                (inr (record { data_of = d; is_projected = e; small = fits })) (ground arith)
        ]
    where
      stopped :
          (l : List A) (n : ℕ)
          → (l ≡ []) ⊎ Fitting l
          → ◌≡◌ {A = Result ViewError (List A)}
              (if is_empty l then err (result_limit_exceeded n) else ok l)
              (ok out)
          → (out ≡ []) ⊎ Fitting out
      stopped [] n start_fits same_result = cc
      stopped (x ∷ l) n start_fits same_result =
          let same_list : x ∷ l ≡ out = cc in rw same_list at start_fits

  -- If the loop of `_page` selects at least one value, `_page` returns: the values it selected are
  -- never refused by the last check of their size, nor is their page's cursor.
  pub page-eq-ok :
      (out : List A)
      → selection encode_cursor build size values start limit ≡ ok out
      → 1 ≤ length out
      → (d : Data) × (page encode_cursor build size values start limit ≡ ok d)
  unfolding page bounded_result selection
  page-eq-ok out h some_out =
      let (inside, rest) = raise_if-eq-ok (ltb (length values) start) _ _ h in
      elim (grow-Fitting (take limit (drop start values)) [] out (inl refl) rest) [
        | inl nothing ↦ absurd (omega (arith, ap (λ (l : List A). length l) nothing))
        | inr fit ↦ (fit.data_of, simp (h, fit.is_projected, fit.small))
      ]
