-- ===== src/Session/Tokens.antt =====
-- Cursors of shared/session_cas.py: what `encode_cursor` issues, `decode_cursor` takes back.
use native.Mathlib.Decide.{ℕ_discrete}
use defined_quant_components.Common.{
  ℕ, ◌-◌, ◌≤◌, ◌<◌, ◌≡◌, refl, ap, sym, ◌∙◌, ◌⊎◌, inl, inr, true, false, Option, none, some, List,
  [], ◌∷◌, ◌++◌, Result, ok, err, ltb, length, take, drop, arith, Bool-cases, Option-cases,
  length-append,
}
use defined_quant_components.Utf8.{Text, Bytes}
use defined_quant_components.Canonical.{Value, Members}
use defined_quant_components.Canonical.Number.{ℤ, pos}
use defined_quant_components.Managed.Json.{
  Text-discrete, same, same_refl, contains, optional_text, object_members, codes,
}
use defined_quant_components.Host.Codes.{HostFailureCode}
use defined_quant_components.Host.Shape.{exact_keys, get, has_key, keys_among, is_subset_of_keys}
use defined_quant_components.Session.Failing.{Raised, other, refusal, invalid_request}
use defined_quant_components.Session.References.{Kind, reference_parts}
use defined_quant_components.Session.Scope.{known_outside}
use defined_quant_components.Session.Backend.{Backend, Config, Session, max_cursor_bytes}
use defined_quant_components.Session.Exec.{pure, raise, lift, gets, given, stop_if, catch, ◌>>=◌}
use defined_quant_components.Session.Store.{require_open, is_corrupt, is_held, not_held}
use defined_quant_components.Session.Cursors.{
  all_base64, is_cursor, is_view, is_index, equals_one, equals_text, natural, natural_index,
  cursor_selector_binding, cursor_payload, encode_cursor_token, bound_index, authentic_payload,
  encode_cursor, read_cursor, decode_cursor,
}

-- What the libraries behind cursors document: base64 decodes what it has encoded, into its alphabet
-- and never into less; a SHA-256 signature has 32 bytes; JSON texts are not empty, and parse back.
pub record CursorLaws {W : Type 0} (be : Backend W) : Type 0 where
  pub decodes : (b : Bytes) → be.urlsafe_b64decode (be.urlsafe_b64encode b) ≡ some b
  pub alphabet : (b : Bytes) → all_base64 (be.urlsafe_b64encode b) ≡ true
  pub not_shorter : (b : Bytes) → length b ≤ length (be.urlsafe_b64encode b)
  pub signature_length : (b : Bytes) → length (be.sign b) ≡ 32
  pub not_empty :
      (reference view : Text) (binding : Option Text) (index : ℕ) (b : Bytes)
      → be.dump_json (cursor_payload be reference view binding index) ≡ some b
      → 0 < length b
  pub parses :
      (reference view : Text) (binding : Option Text) (index : ℕ) (b : Bytes)
      → be.dump_json (cursor_payload be reference view binding index) ≡ some b
      → be.load_json b ≡ some (cursor_payload be reference view binding index)

take-length : {A : Type 0} (p q : List A) → take (length p) (p ++ q) ≡ p
take-length [] q = refl
take-length (x ∷ p) q = ap (λ l. x ∷ l) (take-length p q)

drop-length : {A : Type 0} (p q : List A) → drop (length p) (p ++ q) ≡ q
drop-length [] q = refl
drop-length (x ∷ p) q = drop-length p q

module _ {W : Type 0} (be : Backend W) (laws : CursorLaws be) where
  cut_at_signature : (payload : Bytes) → length (payload ++ be.sign payload) - 32 ≡ length payload
  cut_at_signature payload =
      omega (arith, length-append payload (be.sign payload), laws.signature_length payload)

  -- A signed payload, within the length of a cursor, is authentic.
  pub authentic_payload-sign :
      (payload : Bytes)
      → 0 < length payload
      → ltb max_cursor_bytes (length (be.urlsafe_b64encode (payload ++ be.sign payload))) ≡ false
      → authentic_payload be (be.urlsafe_b64encode (payload ++ be.sign payload)) ≡ some payload
  unfolding authentic_payload is_cursor
  authentic_payload-sign payload some_bytes fits =
      let signed = payload ++ be.sign payload in
      let cut = cut_at_signature payload in
      rw
        (
          laws.decodes signed,
          authentic_payload,
          cut,
          take-length payload (be.sign payload),
          drop-length payload (be.sign payload),
          laws.alphabet signed,
          same_refl Text-discrete (be.urlsafe_b64encode signed),
          same_refl Text-discrete (be.sign payload),
        )
        (ground (
          arith,
          laws.not_shorter (payload ++ be.sign payload),
          length-append payload (be.sign payload),
          laws.signature_length payload,
        ))

  abbrev pub payload_members : Text → Text → Option Text → ℕ → Members
  payload_members reference view binding index = object_members (
      ("i", Value.integer (pos index))
      ∷ ("r", Value.string reference)
      ∷ ("s", optional_text binding)
      ∷ ("v", Value.string view)
      ∷ ("z", Value.integer (pos 1))
      ∷ [])

  -- The keys and the values of a payload
  pub payload_members-get :
      (reference view : Text) (binding : Option Text) (index : ℕ)
      → let ms = payload_members reference view binding index in
        (exact_keys ms (codes "i" ∷ codes "r" ∷ codes "s" ∷ codes "v" ∷ codes "z" ∷ []) [] ≡ true)
        × (get ms (codes "i") ≡ Value.integer (pos index))
        × (get ms (codes "r") ≡ Value.string reference)
        × (get ms (codes "s") ≡ optional_text binding)
        × (get ms (codes "v") ≡ Value.string view)
        × (get ms (codes "z") ≡ Value.integer (pos 1))
  unfolding exact_keys get has_key keys_among is_subset_of_keys contains same Text-discrete
      ℕ_discrete
  payload_members-get reference view binding index = (refl, refl, refl, refl, refl, refl)

  equals_text_refl : (o : Option Text) → equals_text o (optional_text o) ≡ true
  unfolding equals_text
  equals_text_refl none = refl
  equals_text_refl (some s) = same_refl Text-discrete s

  bound_index-cursor_payload :
      (reference view : Text) (selector binding : Option Text) (index : ℕ)
      → cursor_selector_binding be selector ≡ some binding
      → bound_index be reference view selector (cursor_payload be reference view binding index)
        ≡ some index
  unfolding bound_index equals_one natural
  bound_index-cursor_payload reference view selector binding index bound =
      let (keys, i, r, s, v, z) = payload_members-get reference view binding index in
      rw
        (
          bound,
          bound_index,
          keys,
          z,
          r,
          v,
          s,
          i,
          equals_text_refl (some reference),
          equals_text_refl (some view),
          equals_text_refl binding,
        )
        refl

  pub Result-cases :
      {E A : Type 0} (r : Result E A) → ((a : A) × (r ≡ ok a)) ⊎ ((e : E) × (r ≡ err e))
  Result-cases (ok a) = inl (a, refl)
  Result-cases (err e) = inr (e, refl)

  -- What `_encode_cursor_token` issues
  abbrev pub IsToken : Text → Text → Option Text → ℤ → Text → Type 0
  IsToken reference view selector index token =
      (binding : Option Text) × (payload : Bytes) × (cursor_selector_binding be selector
        ≡ some binding)
      × (be.dump_json (cursor_payload be reference view binding (natural_index be index))
          ≡ some payload)
      × (token ≡ be.urlsafe_b64encode (payload ++ be.sign payload))
      × (ltb max_cursor_bytes (length token) ≡ false)

  abbrev pub Issues :
      Text → Text → Option Text → ℤ → Session W → Result Raised Text × Session W → Type 0
  Issues reference view selector index s r =
      ((token : Text) × (r ≡ (ok token, s)) × IsToken reference view selector index token)
      ⊎ ((e : Raised) × (r ≡ (err e, s)))

  pub encode_cursor_token-Issues :
      (reference view : Text) (selector : Option Text) (index : ℤ) (s : Session W)
      → Issues reference view selector index s
          (encode_cursor_token be reference view selector index s)
  unfolding encode_cursor_token ◌>>=◌ stop_if given pure raise
  encode_cursor_token-Issues reference view selector index s = elim (Bool-cases (is_view view)) [
    | inr bad ↦ inr (invalid_request, rw bad refl)
    | inl good ↦ elim (Option-cases (cursor_selector_binding be selector)) [
      | inl unbound ↦ inr (invalid_request, rw (good, unbound) refl)
      | inr (binding, bound) ↦ elim (Bool-cases (is_index index)) [
        | inr outside ↦ inr (invalid_request, rw (good, bound, outside) refl)
        | inl inside ↦
            elim (Option-cases
              (be.dump_json (cursor_payload be reference view binding (natural_index be index)))) [
                | inl undumped ↦ inr (other, rw (good, bound, inside, undumped) refl)
                | inr (payload, dumped) ↦
                    elim (Bool-cases (
                      ltb max_cursor_bytes
                        (length (be.urlsafe_b64encode (payload ++ be.sign payload))))) [
                          | inl long ↦
                              inr (invalid_request, rw (good, bound, inside, dumped, long) refl)
                          | inr fits ↦ inl (
                            be.urlsafe_b64encode (payload ++ be.sign payload),
                            rw (good, bound, inside, dumped, fits) refl,
                            (binding, payload, bound, dumped, refl, fits),
                          )
                        ]
              ]
      ]
    ]
  ]

  pub IsToken-authentic :
      (reference view : Text) (index : ℤ) (token : Text) (binding : Option Text) (payload : Bytes)
      → be.dump_json (cursor_payload be reference view binding (natural_index be index))
        ≡ some payload
      → token ≡ be.urlsafe_b64encode (payload ++ be.sign payload)
      → ltb max_cursor_bytes (length token) ≡ false
      → authentic_payload be token ≡ some payload
  IsToken-authentic reference view index token binding payload dumped e fits = rw e (
      authentic_payload-sign payload
        (laws.not_empty reference view binding (natural_index be index) payload dumped)
        (rw e at fits))

  module _ (config : Config) where
    -- A session that may page through a record: open, holding the reference, and not found corrupt
    abbrev pub IsPaging : Text → Session W → Type 0
    IsPaging reference s =
        (s.closed ≡ false)
        × ((parts : Kind × Text) × (reference_parts reference none ≡ ok parts))
        × (contains Text-discrete s.references reference ≡ true)
        × (contains Text-discrete s.corrupt_references reference ≡ false)

    -- What `encode_cursor` makes, in such a session
    abbrev pub Encodes :
        Text → Text → Option Text → ℤ → Session W → Result Raised Text × Session W → Type 0
    Encodes reference view selector index s r =
        (IsPaging reference s × (r ≡ encode_cursor_token be reference view selector index s))
        ⊎ ((e : Raised) × (r ≡ (err e, s)))

    pub encode_cursor-Encodes :
        (reference view : Text) (selector : Option Text) (index : ℤ) (s : Session W)
        → Encodes reference view selector index s
            (encode_cursor be config reference view selector index s)
    unfolding encode_cursor require_open is_corrupt is_held not_held ◌>>=◌ gets stop_if lift pure
        raise
    encode_cursor-Encodes reference view selector index s = elim (Bool-cases s.closed) [
      | inl shut ↦ inr (refusal HostFailureCode.reference_not_found, rw shut refl)
      | inr still_open ↦ elim (Result-cases (reference_parts reference none)) [
        | inr (e, wrong) ↦ inr (e, rw (still_open, wrong) refl)
        | inl (parts, taken) ↦
            elim (Bool-cases (contains Text-discrete s.corrupt_references reference)) [
              | inl blamed ↦
                  inr (refusal HostFailureCode.record_corrupt, rw (still_open, taken, blamed) refl)
              | inr clean ↦ elim (Bool-cases (contains Text-discrete s.references reference)) [
                | inl held ↦ inl (
                  (still_open, (parts, taken), held, clean),
                  rw (still_open, taken, clean, held) refl,
                )
                | inr missing ↦
                    elim (Bool-cases (known_outside config.session_id reference s.scope)) [
                      | inl outside ↦ inr (
                        refusal HostFailureCode.reference_scope_denied,
                        rw (still_open, taken, clean, missing, outside) refl,
                      )
                      | inr nowhere ↦ inr (
                        refusal HostFailureCode.reference_not_found,
                        rw (still_open, taken, clean, missing, nowhere) refl,
                      )
                    ]
              ]
            ]
      ]
    ]

    decode_cursor-IsToken :
        (reference view : Text) (selector : Option Text) (index : ℤ) (token : Text) (s : Session W)
        → IsPaging reference s
        → IsToken reference view selector index token
        → decode_cursor be config token reference view selector s ≡ (ok (natural_index be index), s)
    unfolding decode_cursor read_cursor require_open is_held is_corrupt ◌>>=◌ gets stop_if lift pure
        given catch
    decode_cursor-IsToken reference view selector index token s paging is_token =
        let (still_open, (parts, taken), held, clean) = paging in
        let (binding, payload, bound, dumped, same_token, fits) = is_token in
        rw
          (
            still_open,
            IsToken-authentic reference view index token binding payload dumped same_token fits,
            laws.parses reference view binding (natural_index be index) payload dumped,
            bound_index-cursor_payload reference view selector binding (natural_index be index)
                bound,
            taken,
            held,
            clean,
          )
          refl

    -- What a call of `encode_cursor` that returns has made
    pub encode_cursor-eq-ok :
        (reference view : Text) (selector : Option Text) (index : ℤ) (s t : Session W)
        (token : Text)
        → encode_cursor be config reference view selector index s ≡ (ok token, t)
        → IsPaging reference s × IsToken reference view selector index token × (t ≡ s)
    encode_cursor-eq-ok reference view selector index s t token issued =
        elim (encode_cursor-Encodes reference view selector index s) [
          | inr (e, stopped) ↦ cc (stopped, issued)
          | inl (paging, made) ↦ elim (encode_cursor_token-Issues reference view selector index s) [
            | inr (e, stopped) ↦ cc (stopped, made, issued)
            | inl (token', given_out, is_token) ↦
                let results = sym issued ∙ made ∙ given_out in
                let tokens : token ≡ token' =
                  cc (ap (λ (r : Result Raised Text × Session W). r.0) results) in
                let states = ap (λ (r : Result Raised Text × Session W). r.1) results in
                (paging, rw tokens is_token, states)
          ]
        ]

    -- Under the documented behaviour of the libraries behind cursors: a cursor that `encode_cursor`
    -- returns, `decode_cursor` takes back, in the same session and for the same reference, view and
    -- selector: it gives the index for which the cursor was made, and neither of them changes the
    -- session.
    pub decode_cursor-encode_cursor :
        (reference view : Text) (selector : Option Text) (index : ℤ) (s t : Session W)
        (token : Text)
        → encode_cursor be config reference view selector index s ≡ (ok token, t)
        → decode_cursor be config token reference view selector t ≡ (ok (natural_index be index), s)
    decode_cursor-encode_cursor reference view selector index s t token issued =
        let made = encode_cursor-eq-ok reference view selector index s t token issued in
        rw made.2 (decode_cursor-IsToken reference view selector index token s made.0 made.1)
