-- ===== src/Session/Bound.antt =====
-- What a cursor of shared/session_cas.py is bound to.
use defined_quant_components.Common.{
  ℕ, ◌≡◌, refl, ap, sym, ◌∙◌, ◌⊎◌, inl, inr, true, Option, none, some, Result, ok, err, Bool-cases,
  Option-cases,
}
use defined_quant_components.Utf8.{Text, Bytes}
use defined_quant_components.Canonical.{Value}
use defined_quant_components.Canonical.Number.{ℤ}
use defined_quant_components.Managed.Json.{Text-discrete, same→eq, contains, optional_text}
use defined_quant_components.Host.Codes.{HostFailureCode}
use defined_quant_components.Session.Failing.{Raised, refused, other, refusal, invalid_request}
use defined_quant_components.Session.References.{reference_parts}
use defined_quant_components.Session.Backend.{Backend, Config, Session}
use defined_quant_components.Session.Exec.{raise, lift, gets, given, pure, stop_if, catch, ◌>>=◌}
use defined_quant_components.Session.Store.{require_open, is_corrupt, is_held}
use defined_quant_components.Session.Cursors.{
  equals_one, equals_text, natural, natural_index, cursor_selector_binding, cursor_payload,
  bound_index, authentic_payload, encode_cursor, read_cursor, decode_cursor,
}
use defined_quant_components.Session.Tokens.{
  CursorLaws, IsToken-authentic, payload_members-get, Result-cases, encode_cursor-eq-ok,
}

equals_text-eq : (o p : Option Text) → equals_text o (optional_text p) ≡ true → o ≡ p
unfolding equals_text
equals_text-eq none none h = refl
equals_text-eq none (some s) h = cc
equals_text-eq (some t) none h = cc
equals_text-eq (some t) (some s) h = ap (λ x. some x) (sym (same→eq Text-discrete s t h))

some_cancel : {A : Type 0} {a b : A} → some a ≡ some b → a ≡ b
some_cancel h = cc

module _ {W : Type 0} (be : Backend W) (laws : CursorLaws be) where
  -- A payload gives its index only to its own reference, view and selector.
  bound_index-eq-some :
      (reference view reference' view' : Text) (binding selector' : Option Text) (index m : ℕ)
      → bound_index be reference' view' selector' (cursor_payload be reference view binding index)
        ≡ some m
      → (reference' ≡ reference)
        × (view' ≡ view)
        × (cursor_selector_binding be selector' ≡ some binding)
        × (m ≡ index)
  unfolding bound_index equals_one natural
  bound_index-eq-some reference view reference' view' binding selector' index m h =
      let (keys, i, r, s, v, z) = payload_members-get be laws reference view binding index in
      elim (Option-cases (cursor_selector_binding be selector')) [
        | inl unbound ↦ cc (rw (unbound, bound_index) at h)
        | inr (binding', bound) ↦
            elim (Bool-cases (equals_text (some reference') (Value.string reference))) [
              | inr other_reference ↦ cc (rw (bound, bound_index, keys, z, r, other_reference) at h)
              | inl same_reference ↦
                  elim (Bool-cases (equals_text (some view') (Value.string view))) [
                    | inr other_view ↦
                        cc (rw (bound, bound_index, keys, z, r, same_reference, v, other_view) at h)
                    | inl same_view ↦
                        elim (Bool-cases (equals_text binding' (optional_text binding))) [
                          | inr other_selector ↦ cc (
                              rw
                                (
                                  bound, bound_index, keys, z, r, same_reference, v, same_view, s,
                                  other_selector,
                                )
                                at h)
                          | inl same_selector ↦ (
                            some_cancel
                                (equals_text-eq (some reference') (some reference) same_reference),
                            some_cancel (equals_text-eq (some view') (some view) same_view),
                            bound
                                ∙ ap (λ b. some b) (equals_text-eq binding' binding same_selector),
                            sym (
                                some_cancel (
                                  rw
                                    (
                                      bound, bound_index, keys, z, r, same_reference, v, same_view,
                                      s, same_selector, i,
                                    )
                                    at h)),
                          )
                        ]
                  ]
            ]
      ]

  module _ (config : Config) where
    abbrev Decodes : Option ℕ → Session W → Result Raised ℕ × Session W → Type 0
    Decodes found u r =
        ((m : ℕ) × (found ≡ some m) × (r ≡ (ok m, u))) ⊎ ((e : Raised) × (r ≡ (err e, u)))

    -- What `decode_cursor` makes of an authentic token
    decode_cursor-Decodes :
        (token reference view : Text) (selector : Option Text) (payload : Bytes) (v : Value)
        (u : Session W)
        → authentic_payload be token ≡ some payload
        → be.load_json payload ≡ some v
        → Decodes
            (bound_index be reference view selector v)
            u
            (decode_cursor be config token reference view selector u)
    unfolding decode_cursor read_cursor require_open is_held is_corrupt ◌>>=◌ gets stop_if lift pure
        given catch raise
    decode_cursor-Decodes token reference view selector payload v u authentic loaded =
        elim (Bool-cases u.closed) [
          | inl shut ↦ inr (refusal HostFailureCode.reference_not_found, rw shut refl)
          | inr still_open ↦ elim (Option-cases (bound_index be reference view selector v)) [
            | inl unbound ↦ inr (invalid_request, rw (still_open, authentic, loaded, unbound) refl)
            | inr (m, bound) ↦ elim (Result-cases be laws (reference_parts reference none)) [
              | inr (refused f, wrong) ↦
                  inr (refused f, rw (still_open, authentic, loaded, bound, wrong) refl)
              | inr (other, wrong) ↦
                  inr (invalid_request, rw (still_open, authentic, loaded, bound, wrong) refl)
              | inl (parts, taken) ↦
                  elim (Bool-cases (contains Text-discrete u.references reference)) [
                    | inr missing ↦ inr (
                      invalid_request,
                      rw (still_open, authentic, loaded, bound, taken, missing) refl,
                    )
                    | inl held ↦
                        elim (Bool-cases (contains Text-discrete u.corrupt_references reference)) [
                          | inl blamed ↦ inr (
                            invalid_request,
                            rw (still_open, authentic, loaded, bound, taken, held, blamed) refl,
                          )
                          | inr clean ↦ inl (
                            m,
                            bound,
                            rw (still_open, authentic, loaded, bound, taken, held, clean) refl,
                          )
                        ]
                  ]
            ]
          ]
        ]

    -- Under the documented behaviour of the libraries behind cursors: a cursor that `encode_cursor`
    -- returns is good for nothing else: if `decode_cursor` takes it, in any state of the session, then
    -- for the reference and the view for which it was made, and for a selector with the same digest,
    -- and it gives the index for which it was made.
    pub decode_cursor-bound :
        (reference view : Text) (selector : Option Text) (index : ℤ) (s t : Session W)
        (token : Text) (reference' view' : Text) (selector' : Option Text) (u w : Session W) (m : ℕ)
        → encode_cursor be config reference view selector index s ≡ (ok token, t)
        → decode_cursor be config token reference' view' selector' u ≡ (ok m, w)
        → (reference' ≡ reference)
          × (view' ≡ view)
          × (cursor_selector_binding be selector' ≡ cursor_selector_binding be selector)
          × (m ≡ natural_index be index)
    decode_cursor-bound reference view selector index s t token reference' view' selector' u w m
          issued decoded =
        let made =
          encode_cursor-eq-ok be laws config reference view selector index s t token issued in
        let (binding, payload, bound, dumped, same_token, fits) = made.1 in
        let n = natural_index be index in
        elim (decode_cursor-Decodes token reference' view' selector' payload
          (cursor_payload be reference view binding n) u
          (IsToken-authentic be laws reference view index token binding payload dumped same_token
            fits)
          (laws.parses reference view binding n payload dumped)) [
            | inr (e, stopped) ↦ cc (stopped, decoded)
            | inl (k, found, made_again) ↦
                let (same_reference, same_view, same_selector, same_index) =
                  bound_index-eq-some reference view reference' view' binding selector' n k found in
                let indices : m ≡ k =
                  cc (ap (λ (r : Result Raised ℕ × Session W). r.0) (sym decoded ∙ made_again)) in
                (same_reference, same_view, same_selector ∙ sym bound, indices ∙ same_index)
          ]
