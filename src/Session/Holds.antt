-- ===== src/Session/Holds.antt =====
-- The registry of session scopes as a relation between sessions and references.
use defined_quant_components.Common.{
  ◌≡◌, refl, ap, sym, ◌∙◌, ◌⊎◌, inl, inr, ◌↔◌, Bool, true, false, ◌&&◌, ◌||◌, not, List, [], ◌∷◌,
  ◌++◌, Bool-cases, &&-eq-true, ||-eq-false, not-eq-true,
}
use defined_quant_components.Utf8.{Text}
use defined_quant_components.Managed.Json.{
  Text-discrete, same, same_refl, same-cases, same_comm, contains, all_distinct,
}
use defined_quant_components.Session.Scope.{
  Registry, add, discard, register, sessions_of, known_outside, unregister_session, holds,
  references_of, IsDict,
}

contains-append_one :
    (l : List Text) (s t : Text)
    → contains Text-discrete (l ++ s ∷ []) t ≡ same Text-discrete s t || contains Text-discrete l t
unfolding contains
contains-append_one [] s t = refl
contains-append_one (u ∷ l) s t =
    rw (contains-append_one l s t) (swap (same Text-discrete u t) (same Text-discrete s t) _)
  where
    swap : (a b c : Bool) → a || (b || c) ≡ b || (a || c)
    swap true true c = refl
    swap true false c = refl
    swap false b c = refl

pub contains-add :
    (s t : Text) (l : List Text)
    → contains Text-discrete (add s l) t ≡ same Text-discrete s t || contains Text-discrete l t
unfolding add contains
contains-add s t l = elim (Bool-cases (contains Text-discrete l s)) [
  | inl here ↦ elim (same-cases Text-discrete s t) [
    | inl (equal, p) ↦ rw (here, equal) (ap (contains Text-discrete l) (sym p) ∙ here)
    | inr differs ↦ rw (here, differs) refl
  ]
  | inr missing ↦ rw missing (contains-append_one l s t)
]

and_false : (b : Bool) → b && false ≡ false
and_false true = refl
and_false false = refl

and_true : (b c : Bool) → b || c ≡ (b && true) || c
and_true true c = refl
and_true false c = refl

contains-discard :
    (s t : Text) (l : List Text)
    → contains Text-discrete (discard s l) t
      ≡ not (same Text-discrete s t) && contains Text-discrete l t
unfolding discard contains
contains-discard s t [] = sym (and_false (not (same Text-discrete s t)))
contains-discard s t (u ∷ l) = elim (same-cases Text-discrete u s) [
  | inl (equal, p) ↦ elim (same-cases Text-discrete s t) [
    | inl (e, q) ↦ rw (equal, contains-discard s t l, e) refl
    | inr differs ↦
        let off = ap (λ x. same Text-discrete x t) p ∙ differs in
        rw (equal, contains-discard s t l, differs, off) refl
  ]
  | inr apart ↦ elim (same-cases Text-discrete s t) [
    | inl (e, q) ↦
        let off = sym (ap (same Text-discrete u) q) ∙ apart in
        rw (apart, contains-discard s t l, e, off) refl
    | inr differs ↦ rw (apart, contains-discard s t l, differs) refl
  ]
]

holds-register :
    (items : Registry) (s r session_id reference : Text)
    → holds (register session_id reference items) s r
      ≡ (same Text-discrete session_id s && same Text-discrete reference r) || holds items s r
unfolding holds register sessions_of
holds-register [] s r session_id reference = elim (Bool-cases (same Text-discrete reference r)) [
  | inl equal ↦ rw equal (and_true (same Text-discrete session_id s) false)
  | inr differs ↦ rw (differs, and_false (same Text-discrete session_id s)) refl
]
holds-register ((t, sessions) ∷ items) s r session_id reference =
    elim (same-cases Text-discrete t reference) [
      | inl (equal, p) ↦ rw equal (elim (Bool-cases (same Text-discrete t r)) [
        | inl this ↦
            rw (this, contains-add session_id s sessions, registered p ∙ this)
              (and_true (same Text-discrete session_id s) (contains Text-discrete sessions s))
        | inr other ↦
            rw (other, registered p ∙ other, and_false (same Text-discrete session_id s)) refl
      ])
      | inr apart ↦ rw apart (elim (same-cases Text-discrete t r) [
        | inl (this, q) ↦
            rw (this, elsewhere q apart, and_false (same Text-discrete session_id s)) refl
        | inr other ↦ rw other (holds-register items s r session_id reference)
      ])
    ]
  where
    registered : t ≡ reference → same Text-discrete reference r ≡ same Text-discrete t r
    registered p = ap (λ x. same Text-discrete x r) (sym p)

    elsewhere :
        t ≡ r → same Text-discrete t reference ≡ false → same Text-discrete reference r ≡ false
    elsewhere q apart =
        ap (same Text-discrete reference) (sym q) ∙ same_comm Text-discrete reference t ∙ apart

holds-missing :
    (items : Registry) (s r : Text)
    → contains Text-discrete (references_of items) r ≡ false
    → holds items s r ≡ false
unfolding holds sessions_of contains
holds-missing [] s r missing = refl
holds-missing ((t, sessions) ∷ items) s r missing =
    let parts =
      ||-eq-false (same Text-discrete t r) (contains Text-discrete (references_of items) r)
        missing in
    rw parts.0 (holds-missing items s r parts.1)

List-cases : (l : List Text) → (l ≡ []) ⊎ ((s : Text) × (m : List Text) × (l ≡ s ∷ m))
List-cases [] = inl refl
List-cases (s ∷ m) = inr (s, m, refl)

holds-unregister_session :
    (items : Registry) (s r session_id : Text)
    → IsDict items
    → holds (unregister_session session_id items) s r
      ≡ not (same Text-discrete session_id s) && holds items s r
unfolding holds unregister_session sessions_of all_distinct contains
holds-unregister_session [] s r session_id dict =
    sym (and_false (not (same Text-discrete session_id s)))
holds-unregister_session ((t, sessions) ∷ items) s r session_id dict =
    let parts =
      &&-eq-true (not (contains Text-discrete (references_of items) t))
        (all_distinct Text-discrete (references_of items)) dict in
    let rest = holds-unregister_session items s r session_id parts.1 in
    elim (List-cases (discard session_id sessions)) [
      | inl gone ↦
          rw (gone, unregister_session)
            (elim (same-cases Text-discrete t r) [
              | inl (this, q) ↦
                  let absent =
                    sym (ap (contains Text-discrete (references_of items)) q)
                    ∙ not-eq-true _ parts.0 in
                  rw (this, rest, holds-missing items s r absent)
                    (and_false (not (same Text-discrete session_id s))
                      ∙ ap (λ x. contains Text-discrete x s) (sym gone)
                      ∙ contains-discard session_id s sessions)
              | inr other ↦ rw other rest
            ])
      | inr (u, l, left) ↦
          rw (left, unregister_session)
            (elim (Bool-cases (same Text-discrete t r)) [
              | inl this ↦ rw this (
                  ap (λ x. contains Text-discrete x s) (sym left)
                  ∙ contains-discard session_id s sessions)
              | inr other ↦ rw other rest
            ])
    ]

references-register :
    (items : Registry) (r session_id reference : Text)
    → same Text-discrete reference r ≡ false
    → contains Text-discrete (references_of items) r ≡ false
    → contains Text-discrete (references_of (register session_id reference items)) r ≡ false
unfolding register contains
references-register [] r session_id reference apart missing = rw apart refl
references-register ((t, sessions) ∷ items) r session_id reference apart missing =
    let parts =
      ||-eq-false (same Text-discrete t r) (contains Text-discrete (references_of items) r)
        missing in
    elim (Bool-cases (same Text-discrete t reference)) [
      | inl equal ↦ rw (equal, parts.0) parts.1
      | inr other ↦
          rw (other, parts.0) (references-register items r session_id reference apart parts.1)
    ]

register-IsDict :
    (items : Registry) (session_id reference : Text)
    → IsDict items
    → IsDict (register session_id reference items)
unfolding register all_distinct contains
register-IsDict [] session_id reference dict = refl
register-IsDict ((t, sessions) ∷ items) session_id reference dict =
    elim (same-cases Text-discrete t reference) [
      | inl (equal, p) ↦ rw equal dict
      | inr apart ↦
          let parts =
            &&-eq-true (not (contains Text-discrete (references_of items) t))
              (all_distinct Text-discrete (references_of items)) dict in
          rw
            (
              apart,
              references-register items t session_id reference
                  (same_comm Text-discrete reference t ∙ apart) (not-eq-true _ parts.0),
            )
            (register-IsDict items session_id reference parts.1)
    ]

references-unregister_session :
    (items : Registry) (r session_id : Text)
    → contains Text-discrete (references_of items) r ≡ false
    → contains Text-discrete (references_of (unregister_session session_id items)) r ≡ false
unfolding unregister_session contains
references-unregister_session [] r session_id missing = refl
references-unregister_session ((t, sessions) ∷ items) r session_id missing =
    let parts =
      ||-eq-false (same Text-discrete t r) (contains Text-discrete (references_of items) r)
        missing in
    let rest = references-unregister_session items r session_id parts.1 in
    elim (List-cases (discard session_id sessions)) [
      | inl gone ↦ rw (gone, unregister_session) rest
      | inr (u, l, left) ↦ rw (left, unregister_session, parts.0) rest
    ]

unregister_session-IsDict :
    (items : Registry) (session_id : Text)
    → IsDict items
    → IsDict (unregister_session session_id items)
unfolding unregister_session all_distinct contains
unregister_session-IsDict [] session_id dict = refl
unregister_session-IsDict ((t, sessions) ∷ items) session_id dict =
    let parts =
      &&-eq-true (not (contains Text-discrete (references_of items) t))
        (all_distinct Text-discrete (references_of items)) dict in
    let rest = unregister_session-IsDict items session_id parts.1 in
    elim (List-cases (discard session_id sessions)) [
      | inl gone ↦ rw (gone, unregister_session) rest
      | inr (u, l, left) ↦
          rw
            (
              left,
              unregister_session,
              references-unregister_session items t session_id (not-eq-true _ parts.0),
            )
            rest
    ]

-- Registering a reference for a session adds that pair to what the sessions hold and nothing else, and
-- keeps each reference once in the dictionary.
pub register-holds :
    (items : Registry) (session_id reference : Text)
    → IsDict items
    → IsDict (register session_id reference items)
      × ((s r : Text)
          → holds (register session_id reference items) s r
            ≡ (same Text-discrete session_id s && same Text-discrete reference r)
              || holds items s r)
register-holds items session_id reference dict = (
  register-IsDict items session_id reference dict,
  λ s r. holds-register items s r session_id reference,
)

-- Unregistering a session takes away all that it holds and nothing that another session holds, and
-- keeps each reference once in the dictionary.
pub unregister_session-holds :
    (items : Registry) (session_id : Text)
    → IsDict items
    → IsDict (unregister_session session_id items)
      × ((s r : Text)
          → holds (unregister_session session_id items) s r
            ≡ not (same Text-discrete session_id s) && holds items s r)
unregister_session-holds items session_id dict = (
  unregister_session-IsDict items session_id dict,
  λ s r. holds-unregister_session items s r session_id dict,
)

contains_first : (s : Text) (l : List Text) → contains Text-discrete (s ∷ l) s ≡ true
unfolding contains
contains_first s l = rw (same_refl Text-discrete s) refl

-- A reference is known outside a session exactly if another session holds it.
pub known_outside-holds :
    (items : Registry) (session_id reference : Text)
    → (known_outside session_id reference items ≡ true) ↔ (
        (other : Text) × (same Text-discrete session_id other ≡ false)
        × (holds items other reference ≡ true))
unfolding known_outside holds
known_outside-holds items session_id reference = (to, from)
  where
    to :
        known_outside session_id reference items ≡ true
        → (other : Text) × (same Text-discrete session_id other ≡ false)
          × (holds items other reference ≡ true)
    to h = elim (List-cases (discard session_id (sessions_of reference items))) [
      | inl none_left ↦ cc (rw none_left at h)
      | inr (other, l, left) ↦
          let found =
            sym (contains-discard session_id other (sessions_of reference items))
            ∙ ap (λ x. contains Text-discrete x other) left
            ∙ contains_first other l in
          let parts =
            &&-eq-true (not (same Text-discrete session_id other))
              (contains Text-discrete (sessions_of reference items) other) found in
          (other, not-eq-true _ parts.0, parts.1)
    ]

    from :
        ((other : Text) × (same Text-discrete session_id other ≡ false)
          × (holds items other reference ≡ true))
        → known_outside session_id reference items ≡ true
    from (other, apart, held) =
        elim (List-cases (discard session_id (sessions_of reference items))) [
          | inl none_left ↦
              let lost =
                sym (contains-discard session_id other (sessions_of reference items))
                ∙ ap (λ x. contains Text-discrete x other) none_left in
              cc (rw (apart, held) at lost)
          | inr (u, l, left) ↦ rw left refl
        ]
