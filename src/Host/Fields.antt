-- ===== src/Host/Fields.antt =====
-- `_project_fields` of shared/host_failures.py, which stops at 32 names, against a description of what
-- it keeps: the first 32 of the distinct strings that are verified names.
use defined_quant_components.Common.{
  ℕ, zero, suc, ◌+◌, ◌≤◌, ◌≡◌, refl, ap, sym, ◌∙◌, true, false, not, List, [], ◌∷◌, ◌++◌, ◌==◌,
  length, take, All, if◌then◌else◌, append_assoc, append-nil, length-append, length-take, arith,
  inl, inr, Bool-cases, &&-eq-true, ||-eq-false, not-eq-true,
}
use defined_quant_components.Utf8.{Text}
use defined_quant_components.Canonical.{Value}
use defined_quant_components.Managed.Json.{
  Text-discrete, same, same→eq, same_refl, contains, all_distinct,
}
use defined_quant_components.Host.Mapping.{projected_name, project_loop, project_fields}

-- The strings of a list of values, in order.
unfoldable pub strings_of : List Value → List Text
strings_of [] = []
strings_of (Value.string s ∷ vs) = s ∷ strings_of vs
strings_of (v ∷ vs) = strings_of vs

-- Those of a list of texts that are verified.
unfoldable pub known : List Text → List Text → List Text
known verified [] = []
known verified (s ∷ l) =
    if contains Text-discrete verified s then s ∷ known verified l else known verified l

-- A list without the texts in `seen` and without repetitions: the first of each stays.
unfoldable pub distinct : List Text → List Text → List Text
distinct seen [] = []
distinct seen (s ∷ l) =
    if contains Text-discrete seen s then distinct seen l else s ∷ distinct (s ∷ seen) l

-- One round on a string, with `room` more places than one.
module _ (verified : List Text) (s : Text) (vs : List Value) (projected seen : List Text) where
  abbrev Loop : List Value → List Text → List Text → ℕ → Type 0
  Loop vs projected seen room =
      project_loop verified vs projected seen
      ≡ projected ++ take (suc room) (distinct seen (known verified (strings_of vs)))

  skip_unknown :
      (room : ℕ)
      → contains Text-discrete verified s ≡ false
      → Loop vs projected seen room
      → Loop (Value.string s ∷ vs) projected seen room
  unfolding project_loop projected_name known strings_of
  skip_unknown room unknown rest = rw (unknown, project_loop) rest

  skip_seen :
      (room : ℕ)
      → contains Text-discrete verified s ≡ true
      → contains Text-discrete seen s ≡ true
      → Loop vs projected seen room
      → Loop (Value.string s ∷ vs) projected seen room
  unfolding project_loop projected_name known strings_of distinct
  skip_seen room found again rest = rw (found, again, project_loop) rest

  last_place :
      contains Text-discrete verified s ≡ true
      → contains Text-discrete seen s ≡ false
      → length (projected ++ s ∷ []) == 32 ≡ true
      → Loop (Value.string s ∷ vs) projected seen 0
  unfolding project_loop projected_name known strings_of distinct
  last_place found new full = rw (found, new, full, project_loop) refl

  add_name :
      (room : ℕ)
      → contains Text-discrete verified s ≡ true
      → contains Text-discrete seen s ≡ false
      → length (projected ++ s ∷ []) == 32 ≡ false
      → Loop vs (projected ++ s ∷ []) (s ∷ seen) room
      → Loop (Value.string s ∷ vs) projected seen (suc room)
  unfolding project_loop projected_name known strings_of distinct
  add_name room found new space rest =
      rw (found, new, space, project_loop) (rest ∙ append_assoc projected (s ∷ []) _)

  place :
      (room : ℕ)
      → length projected + suc room ≡ 32
      → contains Text-discrete verified s ≡ true
      → contains Text-discrete seen s ≡ false
      → ((m : ℕ)
          → length (projected ++ s ∷ []) + suc m ≡ 32
          → Loop vs (projected ++ s ∷ []) (s ∷ seen) m)
      → Loop (Value.string s ∷ vs) projected seen room
  place zero places found new rest =
      last_place found new (ground (arith, length-append projected (s ∷ [])))
  place (suc room) places found new rest =
      add_name room found new (ground (arith, length-append projected (s ∷ [])))
        (rest room (omega (arith, length-append projected (s ∷ []))))

project_loop_lem :
    (verified : List Text) (vs : List Value) (projected seen : List Text) (room : ℕ)
    → length projected + suc room ≡ 32
    → project_loop verified vs projected seen
      ≡ projected ++ take (suc room) (distinct seen (known verified (strings_of vs)))
unfolding project_loop projected_name strings_of known distinct
project_loop_lem verified [] projected seen room places = sym (append-nil projected)
project_loop_lem verified (Value.string s ∷ vs) projected seen room places =
    let rest = project_loop_lem verified vs projected seen room places in
    elim (Bool-cases (contains Text-discrete verified s)) [
      | inl found ↦ elim (Bool-cases (contains Text-discrete seen s)) [
        | inl again ↦ skip_seen verified s vs projected seen room found again rest
        | inr new ↦
            place verified s vs projected seen room places found new
              (λ m e. project_loop_lem verified vs (projected ++ s ∷ []) (s ∷ seen) m e)
      ]
      | inr unknown ↦ skip_unknown verified s vs projected seen room unknown rest
    ]
project_loop_lem verified (Value.null ∷ vs) projected seen room places =
    project_loop_lem verified vs projected seen room places
project_loop_lem verified (Value.boolean b ∷ vs) projected seen room places =
    project_loop_lem verified vs projected seen room places
project_loop_lem verified (Value.integer n ∷ vs) projected seen room places =
    project_loop_lem verified vs projected seen room places
project_loop_lem verified (Value.float bits ∷ vs) projected seen room places =
    project_loop_lem verified vs projected seen room places
project_loop_lem verified (Value.enum v ∷ vs) projected seen room places =
    project_loop_lem verified vs projected seen room places
project_loop_lem verified (Value.model v ∷ vs) projected seen room places =
    project_loop_lem verified vs projected seen room places
project_loop_lem verified (Value.mapping ms ∷ vs) projected seen room places =
    project_loop_lem verified vs projected seen room places
project_loop_lem verified (Value.sequence items ∷ vs) projected seen room places =
    project_loop_lem verified vs projected seen room places
project_loop_lem verified (Value.other ∷ vs) projected seen room places =
    project_loop_lem verified vs projected seen room places

-- The names that `_project_fields` keeps are the first 32 of the distinct strings among its values
-- that are verified names, in their order.
pub project_fields_lem :
    (values : List Value) (verified : List Text)
    → project_fields values verified ≡ take 32 (distinct [] (known verified (strings_of values)))
unfolding project_fields
project_fields_lem values verified = project_loop_lem verified values [] [] 31 refl

-- What holds of each text of a list holds of each that is kept.
module _ (P : Text → Type 0) where
  All-take : (n : ℕ) (l : List Text) → All P l → All P (take n l)
  All-take zero l h = tt
  All-take (suc n) [] h = tt
  All-take (suc n) (s ∷ l) h = (h.0, All-take n l h.1)

  All-distinct : (seen l : List Text) → All P l → All P (distinct seen l)
  unfolding distinct
  All-distinct seen [] h = tt
  All-distinct seen (s ∷ l) h = elim (Bool-cases (contains Text-discrete seen s)) [
    | inl again ↦ rw again (All-distinct seen l h.1)
    | inr new ↦ rw new ((h.0, All-distinct (s ∷ seen) l h.1))
  ]

All-known :
    (verified l : List Text)
    → All (λ s. contains Text-discrete verified s ≡ true) (known verified l)
unfolding known
All-known verified [] = tt
All-known verified (s ∷ l) = elim (Bool-cases (contains Text-discrete verified s)) [
  | inl found ↦ rw found ((found, All-known verified l))
  | inr unknown ↦ rw unknown (All-known verified l)
]

same-contains :
    (seen : List Text) (t s : Text)
    → contains Text-discrete seen t ≡ false
    → contains Text-discrete seen s ≡ true
    → same Text-discrete t s ≡ false
same-contains seen t s new h = elim (Bool-cases (same Text-discrete t s)) [
  | inl equal ↦
      from_clash (sym new ∙ ap (contains Text-discrete seen) (same→eq Text-discrete t s equal) ∙ h)
  | inr differs ↦ differs
]
  where
    from_clash : {A : Type 0} → false ≡ true → A
    from_clash e = cc

distinct-seen :
    (seen l : List Text) (s : Text)
    → contains Text-discrete seen s ≡ true
    → contains Text-discrete (distinct seen l) s ≡ false
unfolding distinct contains
distinct-seen seen [] s h = refl
distinct-seen seen (t ∷ l) s h = elim (Bool-cases (contains Text-discrete seen t)) [
  | inl again ↦ rw again (distinct-seen seen l s h)
  | inr new ↦
      let other = same-contains seen t s new h in
      rw (new, other, distinct-seen (t ∷ seen) l s (rw (h, other) refl)) refl
]

all_distinct-distinct : (seen l : List Text) → all_distinct Text-discrete (distinct seen l) ≡ true
unfolding distinct all_distinct
all_distinct-distinct seen [] = refl
all_distinct-distinct seen (s ∷ l) = elim (Bool-cases (contains Text-discrete seen s)) [
  | inl again ↦ rw again (all_distinct-distinct seen l)
  | inr new ↦
      rw (new, distinct-seen (s ∷ seen) l s (rw (same_refl Text-discrete s) refl))
        (all_distinct-distinct (s ∷ seen) l)
]

contains-take :
    (n : ℕ) (l : List Text) (s : Text)
    → contains Text-discrete l s ≡ false
    → contains Text-discrete (take n l) s ≡ false
unfolding contains
contains-take zero l s h = refl
contains-take (suc n) [] s h = refl
contains-take (suc n) (t ∷ l) s h =
    let parts = ||-eq-false (same Text-discrete t s) (contains Text-discrete l s) h in
    rw (parts.0, contains-take n l s parts.1) refl

all_distinct-take :
    (n : ℕ) (l : List Text)
    → all_distinct Text-discrete l ≡ true
    → all_distinct Text-discrete (take n l) ≡ true
unfolding all_distinct
all_distinct-take zero l h = refl
all_distinct-take (suc n) [] h = refl
all_distinct-take (suc n) (t ∷ l) h =
    let parts = &&-eq-true (not (contains Text-discrete l t)) (all_distinct Text-discrete l) h in
    rw
      (
        contains-take n l t (not-eq-true (contains Text-discrete l t) parts.0),
        all_distinct-take n l parts.1,
      )
      refl

-- Of the names that `_project_fields` keeps, no two are the same, at most 32 are kept, and each is
-- verified.
module _ (values : List Value) (verified : List Text) where
  pub project_fields-all_distinct :
      all_distinct Text-discrete (project_fields values verified) ≡ true
  project_fields-all_distinct =
      rw (project_fields_lem values verified)
        (all_distinct-take 32 _ (all_distinct-distinct [] (known verified (strings_of values))))

  pub project_fields-few : length (project_fields values verified) ≤ 32
  project_fields-few =
      rw (project_fields_lem values verified)
        (omega (arith, length-take 32 (distinct [] (known verified (strings_of values)))))

  pub project_fields-known :
      All (λ s. contains Text-discrete verified s ≡ true) (project_fields values verified)
  project_fields-known =
      rw (project_fields_lem values verified)
        (All-take _ 32 _ (All-distinct _ [] _ (All-known verified (strings_of values))))
