-- ===== src/Views/Window.antt =====
-- What a page of shared/record_views.py shows.
use mathlib.Core.Path.{subst}
use defined_quant_components.Common.{
  ℕ, zero, suc, ◌+◌, ◌≤◌, ◌<◌, ◌≡◌, ◌⊎◌, refl, ap, sym, ◌∙◌, true, false, none, some, List, [], ◌∷◌,
  ◌++◌, Result, ok, err, raise_if-eq-ok, after_ok, Bool-cases, inl, inr, length, take, drop,
  length-take, length-drop, length-append, append_assoc, append-nil, ◌==◌, arith, ltb,
  if◌then◌else◌,
}
use defined_quant_components.Utf8.{Text}
use defined_quant_components.Views.Paging.{
  is_empty, ViewError, result_limit_exceeded, Page, projected, grow, selection, bounded_result,
  page, max_structured_response_bytes,
}

pub ok-injective : {A : Type 0} {x y : A} → ◌≡◌ {A = Result ViewError A} (ok x) (ok y) → x ≡ y
ok-injective same_result = cc

module _ {A Data : Type 0} (encode_cursor : ℕ → Result ViewError Text)
    (build : List A → Page → Data) (size : Data → ℕ) (values : List A) (start limit : ℕ) where
  -- The loop adds a first part of the values it is given, and not nothing.
  grow-prefix :
      (vs selected out : List A)
      → grow encode_cursor build size values start limit vs selected ≡ ok out
      → (n : ℕ) × (n ≤ length vs)
        × (out ≡ selected ++ take n vs)
        × (0 < length selected + length vs → 0 < length out)
  unfolding grow
  grow-prefix [] selected out h =
      let same_list : selected ≡ out = cc in
      (
        0,
        omega arith,
        sym (append-nil selected ∙ same_list),
        λ some_left. omega (arith, ap (λ (l : List A). length l) same_list),
      )
  grow-prefix (v ∷ vs) selected out h =
      after_ok (projected encode_cursor build size values start limit (selected ++ v ∷ [])) _ h
        λ d e step. elim (Bool-cases (ltb max_structured_response_bytes (size d))) [
          | inl over ↦
              (let (same_list, filled) = stopped selected (size d) (ground arith) in
                (
                  0,
                  omega arith,
                  same_list ∙ sym (append-nil selected),
                  λ some_left. omega (arith, filled, ap (λ (l : List A). length l) same_list),
                ))
          | inr fits ↦
              let (n, few, same_list, filled) =
                grow-prefix vs (selected ++ v ∷ []) out (ground arith) in
              (
                suc n,
                omega arith,
                same_list ∙ append_assoc selected (v ∷ []) (take n vs),
                λ some_left. filled (omega (arith, length-append selected (v ∷ []))),
              )
        ]
    where
      stopped :
          (l : List A) (n : ℕ)
          → ◌≡◌ {A = Result ViewError (List A)}
              (if is_empty l then err (result_limit_exceeded n) else ok l)
              (ok out)
          → (out ≡ l) × (0 < length l)
      stopped [] n same_result = cc
      stopped (x ∷ l) n same_result = (cc, omega arith)

  -- Where a page of `count` values says that the next one starts: nowhere after the last value, and
  -- otherwise at a cursor for the position after its values.
  abbrev pub PointsOn : ℕ → Page → Type 0
  PointsOn count p =
      ((start + count ≡ length values) × (p.next_cursor ≡ none) × (p.complete ≡ true))
      ⊎ ((start + count < length values)
          × (p.complete ≡ false)
          × ((token : Text) × (encode_cursor (start + count) ≡ ok token)
              × (p.next_cursor ≡ some token)))

  -- What a page shows, if it is one.
  pub record Shows (d : Data) : Type 0 where
    pub count : ℕ
    pub described : Page
    pub at_most : count ≤ limit
    pub inside : start + count ≤ length values
    pub shown : d ≡ build (take count (drop start values)) described
    pub starts : described.start ≡ start
    pub returns : described.returned ≡ count
    pub points_on : PointsOn count described
    pub bounded : size d ≤ max_structured_response_bytes
    pub advances : (start ≡ length values) ⊎ (1 ≤ count)

  take-take : (n m : ℕ) (l : List A) → n ≤ length (take m l) → take n (take m l) ≡ take n l
  take-take zero m l h = refl
  take-take (suc n) zero l h = absurd (omega arith)
  take-take (suc n) (suc m) [] h = absurd (omega arith)
  take-take (suc n) (suc m) (x ∷ l) h = ap (λ (r : List A). x ∷ r) (take-take n m l (omega arith))

  -- The values of a page are the next ones, no more than the limit.
  pub selection-take :
      (out : List A)
      → 1 ≤ limit
      → selection encode_cursor build size values start limit ≡ ok out
      → (n : ℕ) × (out ≡ take n (drop start values))
        × (n ≤ limit)
        × (start + n ≤ length values)
        × ((start ≡ length values) ⊎ (1 ≤ n))
  unfolding selection
  selection-take out positive h =
      let (inside, rest) = raise_if-eq-ok (ltb (length values) start) _ _ h in
      let (n, few, same_list, filled) = grow-prefix (take limit (drop start values)) [] out rest in
      let size_of = length-take limit (drop start values) in
      let left = length-drop start values in
      let in_range : start ≤ length values = ground arith in
      (
        n,
        same_list ∙ take-take n limit (drop start values) few,
        omega arith,
        omega arith,
        elim (Bool-cases (start == length values)) [
          | inl at_end ↦ inl (ground arith)
          | inr before ↦
              let some_out : 0 < length out = filled (ground arith) in
              let out_size = ap (λ (l : List A). length l) same_list in
              let shown = length-take n (take limit (drop start values)) in inr (omega arith)
        ],
      )

  -- The page that describes the values of a response.
  abbrev Describes : ℕ → Page → Type 0
  Describes count p = (p.start ≡ start) × (p.returned ≡ count) × PointsOn count p

  projected-Describes :
      (selected : List A) (d : Data)
      → start + length selected ≤ length values
      → projected encode_cursor build size values start limit selected ≡ ok d
      → (p : Page) × (d ≡ build selected p) × Describes (length selected) p
  unfolding projected
  projected-Describes selected d inside h =
      elim (Bool-cases (start + length selected == length values)) [
        | inl at_end ↦
            (let same_data = rw at_end at h in
              (_, sym (ok-injective same_data), (refl, refl, inl (ground arith, refl, refl))))
        | inr before ↦
            after_ok (encode_cursor (start + length selected)) _ (rw before at h)
              λ token e same_data. (
                _,
                sym (ok-injective same_data),
                (refl, refl, inr (ground arith, refl, (token, e, refl))),
              )
      ]

  taken :
      (out : List A) (n : ℕ)
      → out ≡ take n (drop start values)
      → start + n ≤ length values
      → length out ≡ n
  taken out n e inside = omega (
    arith,
    ap (λ (l : List A). length l) e,
    length-take n (drop start values),
    length-drop start values,
  )

  -- If `_page` returns, with a limit of at least one, the page shows the next values of the
  -- sequence, in order: no more than the limit, within the bound on a response, at least one of them
  -- unless it starts at the end, and with the position after them as its next cursor, unless they are
  -- the last.
  pub page-Shows :
      (d : Data) → 1 ≤ limit → page encode_cursor build size values start limit ≡ ok d → Shows d
  unfolding page bounded_result
  page-Shows d positive h =
      after_ok (selection encode_cursor build size values start limit) _ h λ out e_out h1.
        after_ok (projected encode_cursor build size values start limit out) _ h1
          λ e e_projected h2.
            let (n, same_list, few, inside, forward) = selection-take out positive e_out in
            let (small, last) =
              raise_if-eq-ok (ltb max_structured_response_bytes (size e)) _ _ h2 in
            let same_data : e ≡ d = cc in
            let count = taken out n same_list inside in
            let (p, built, (starts, returns, points_on)) =
              projected-Describes out e (omega arith) e_projected in
            record {
              count = n;
              described = p;
              at_most = few;
              inside = inside;
              shown = sym same_data ∙ built ∙ ap (λ (l : List A). build l p) same_list;
              starts = starts;
              returns = returns ∙ count;
              points_on = subst (λ (k : ℕ). PointsOn k p) count points_on;
              bounded = rw (← same_data) (ground arith);
              advances = forward;
            }
