-- ===== src/Views/Client.antt =====
-- What a client reads that follows the cursors of the pages of shared/record_views.py.
use mathlib.Core.Path.{subst}
use defined_quant_components.Common.{
  ℕ, zero, suc, ◌+◌, ◌≤◌, ◌<◌, ◌≡◌, ◌⊎◌, refl, ap, sym, ◌∙◌, none, some, List, [], ◌∷◌, ◌++◌,
  Result, ok, inl, inr, length, take, drop, length-drop, take-append-drop, arith,
}
use defined_quant_components.Utf8.{Text}
use defined_quant_components.Views.Paging.{ViewError, Page, page}
use defined_quant_components.Views.Window.{ok-injective, PointsOn, Shows, page-Shows}

drop-nil : {A : Type 0} (n : ℕ) → drop {A = A} n [] ≡ []
drop-nil zero = refl
drop-nil (suc n) = refl

drop-drop : {A : Type 0} (n m : ℕ) (l : List A) → drop n (drop m l) ≡ drop (m + n) l
drop-drop n zero l = ap (λ (k : ℕ). drop k l) (omega arith)
drop-drop n (suc m) [] = drop-nil n ∙ sym (drop-nil (suc m + n))
drop-drop n (suc m) (x ∷ l) =
    let one_more : suc (m + n) ≡ suc m + n = omega arith in
    drop-drop n m l ∙ ap (λ (k : ℕ). drop k (x ∷ l)) one_more

take-all : {A : Type 0} (n : ℕ) (l : List A) → length l ≤ n → take n l ≡ l
take-all zero [] h = refl
take-all zero (x ∷ l) h = absurd (omega arith)
take-all (suc n) [] h = refl
take-all (suc n) (x ∷ l) h = ap (λ (r : List _). x ∷ r) (take-all n l (omega arith))

-- What a client of `get_operation` sees: the values and the page of a response; and the store, which
-- takes a cursor that it has issued back to its position.
pub record Reads {A Data : Type 0} (encode_cursor : ℕ → Result ViewError Text)
    (decode_cursor : Text → Result ViewError ℕ) (build : List A → Page → Data)
    (contents : Data → List A × Page) : Type 0 where
  pub reads : (l : List A) (p : Page) → contents (build l p) ≡ (l, p)
  pub resumes : (n : ℕ) (token : Text) → encode_cursor n ≡ ok token → decode_cursor token ≡ ok n

module _ {A Data : Type 0} (encode_cursor : ℕ → Result ViewError Text)
    (decode_cursor : Text → Result ViewError ℕ) (build : List A → Page → Data) (size : Data → ℕ)
    (contents : Data → List A × Page) (values : List A) where
  -- What a client collects that asks for the page at `start`, with any limit, and as long as a page
  -- has a cursor, for the page that the cursor leads to.
  pub data Collects : ℕ → List A → Type 0 where
    last_page :
        (start limit : ℕ) (d : Data)
        → 1 ≤ limit
        → page encode_cursor build size values start limit ≡ ok d
        → (contents d).1.next_cursor ≡ none
        → Collects start (contents d).0
    next_page :
        (start limit next : ℕ) (d : Data) (token : Text) (others : List A)
        → 1 ≤ limit
        → page encode_cursor build size values start limit ≡ ok d
        → (contents d).1.next_cursor ≡ some token
        → decode_cursor token ≡ ok next
        → Collects next others
        → Collects start ((contents d).0 ++ others)

  module _ (law : Reads encode_cursor decode_cursor build contents) where
    -- The contents of a page
    seen :
        (start limit : ℕ) (d : Data) (shows : Shows encode_cursor build size values start limit d)
        → contents d ≡ (take shows.count (drop start values), shows.described)
    seen start limit d shows = ap contents shows.shown ∙ law.reads _ shows.described

    -- With cursors that the store takes back to their positions, a client that follows them from page
    -- to page to the one without a cursor collects every value from its start on exactly once and in
    -- order, whatever limits of at least one it asks for.
    pub Collects-drop : (start : ℕ) (all : List A) → Collects start all → all ≡ drop start values
    Collects-drop start _ (last_page _ limit d positive h complete) =
        let shows = page-Shows encode_cursor build size values start limit d positive h in
        let see = seen start limit d shows in
        ap (λ (x : List A × Page). x.0) see
        ∙ take-all shows.count (drop start values) (
            ended shows.count shows.described shows.points_on
              (sym (ap (λ (x : List A × Page). x.1.next_cursor) see) ∙ complete))
      where
        ended :
            (n : ℕ) (p : Page)
            → PointsOn encode_cursor build size values start limit n p
            → p.next_cursor ≡ none
            → length (drop start values) ≤ n
        ended n p (inl (at_end, _, _)) h = omega (arith, length-drop start values)
        ended n p (inr (_, _, (token, _, e))) h = cc
    Collects-drop start _ (next_page _ limit next d token others positive h more decoded later) =
        let shows = page-Shows encode_cursor build size values start limit d positive h in
        let see = seen start limit d shows in
        let position : next ≡ start + shows.count =
          led shows.count shows.described shows.points_on
            (sym (ap (λ (x : List A × Page). x.1.next_cursor) see) ∙ more) in
        let rest = Collects-drop next others later in
        ap (λ (x : List A × Page). x.0 ++ others) see
        ∙ ap (λ (l : List A). take shows.count (drop start values) ++ l)
            (rest
              ∙ ap (λ (k : ℕ). drop k values) position
              ∙ sym (drop-drop shows.count start values))
        ∙ take-append-drop shows.count (drop start values)
      where
        led :
            (n : ℕ) (p : Page)
            → PointsOn encode_cursor build size values start limit n p
            → p.next_cursor ≡ some token
            → next ≡ start + n
        led n p (inl (_, none_left, _)) e = cc
        led n p (inr (_, _, (issued, encoded, e'))) e =
            let same_token : issued ≡ token = cc in
            let resumed = law.resumes (start + n) issued encoded in
            ok-injective (sym decoded ∙ ap decode_cursor (sym same_token) ∙ resumed)

    moves :
        (n count : ℕ)
        → n + count < length values
        → (n ≡ length values) ⊎ (1 ≤ count)
        → n < n + count
    moves n count before (inl at_end) = omega arith
    moves n count before (inr some_shown) = omega arith

    -- One round of the client, of which each but the last moves its position on
    one_round :
        (limit start : ℕ) (d : Data)
        → 1 ≤ limit
        → page encode_cursor build size values start limit ≡ ok d
        → ((next : ℕ) → start < next → next < length values → (all : List A) × Collects next all)
        → (all : List A) × Collects start all
    one_round limit start d positive h continues =
        let shows = page-Shows encode_cursor build size values start limit d positive h in
        let next_of : (contents d).1.next_cursor ≡ shows.described.next_cursor =
          ap (λ (x : List A × Page). x.1.next_cursor) (seen start limit d shows) in
        elim shows.points_on [
          | inl (at_end, none_left, _) ↦
              (_, last_page start limit d positive h (next_of ∙ none_left))
          | inr (before, _, (token, encoded, e)) ↦
              let (others, later) =
                continues (start + shows.count) (moves start shows.count before shows.advances)
                  before in
              (
                _,
                next_page start limit (start + shows.count) d token others positive h (next_of ∙ e)
                    (law.resumes (start + shows.count) token encoded) later,
              )
        ]

    rounds :
        (limit : ℕ)
        → 1 ≤ limit
        → ((start : ℕ)
            → start ≤ length values
            → (d : Data) × (page encode_cursor build size values start limit ≡ ok d))
        → (fuel start : ℕ) → start ≤ length values
        → length values ≤ start + fuel
        → (all : List A) × Collects start all
    rounds limit positive answers zero start inside enough =
        let (d, h) = answers start inside in
        one_round limit start d positive h (λ next moved before. absurd (omega arith))
    rounds limit positive answers (suc fuel) start inside enough =
        let (d, h) = answers start inside in
        one_round limit start d positive h
          (λ next moved before. rounds limit positive answers fuel next (omega arith) (omega arith))

    -- If moreover `_page` returns for every position up to the end, with one limit of at least one,
    -- such a client comes to the end: from its start on, it collects all the values.
    pub Collects-all :
        (limit : ℕ)
        → 1 ≤ limit
        → ((start : ℕ)
            → start ≤ length values
            → (d : Data) × (page encode_cursor build size values start limit ≡ ok d))
        → (start : ℕ) → start ≤ length values
        → Collects start (drop start values)
    Collects-all limit positive answers start inside =
        let (all, collected) =
          rounds limit positive answers (length values) start inside (omega arith) in
        subst (λ (l : List A). Collects start l) (Collects-drop start all collected) collected
