-- ===== src/Framing/Write.antt =====
-- A frame that `utf8_lf_frame` of shared/stdio_framing.py makes, read back.
use defined_quant_components.Common.{
  ℕ, suc, ◌≤◌, ◌≡◌, refl, ap, ◌∙◌, false, none, some, [], ◌∷◌, ◌++◌, ok, arith, ◌==◌, length, take,
  drop, Option-cases, Bool-cases, inl, inr, length-append, append_assoc,
}
use defined_quant_components.Utf8.{Text, Bytes, encode_char, encode}
use defined_quant_components.Utf8.RoundTrip.{decode_iff_encode, encode-cons}
use defined_quant_components.Framing.{
  FrameResult, find_newline, ReadOutcome, FrameReader, read_frame, has_line_break, utf8_lf_frame,
}
use defined_quant_components.Framing.Spec.{next_frame, next_frame_found}
use defined_quant_components.Framing.Refines.{Delivers, Fits, read_frame-next_frame}

find_newline-encode_char :
    (c : ℕ) (p : Bytes) → encode_char c ≡ some p → (c == 10) ≡ false → find_newline p ≡ none
unfolding find_newline encode_char
find_newline-encode_char c p h e = ground arith

-- With no newline in the first part, the first newline is that of the second.
find_newline-append_free :
    (p q : Bytes) → find_newline p ≡ none → find_newline q ≡ none → find_newline (p ++ q) ≡ none
unfolding find_newline
find_newline-append_free [] q hp hq = hq
find_newline-append_free (x ∷ p) q hp hq =
    ground (arith, find_newline-append_free p q (ground arith) hq)

find_newline-line :
    (p rest : Bytes) → find_newline p ≡ none → find_newline (p ++ 10 ∷ rest) ≡ some (length p)
unfolding find_newline
find_newline-line [] rest h = refl
find_newline-line (x ∷ p) rest h = ground (arith, find_newline-line p rest (ground arith))

find_newline-encode :
    (t : Text) (b : Bytes) → encode t ≡ some b → has_line_break t ≡ false → find_newline b ≡ none
unfolding encode has_line_break find_newline
find_newline-encode [] [] e h = refl
find_newline-encode [] (x ∷ b) e h = cc
find_newline-encode (c ∷ t) b e h =
    let (p, r, ep, er, eb) = encode-cons c t b e in
    rw eb (
      find_newline-append_free p r (find_newline-encode_char c p ep (ground arith))
        (find_newline-encode t r er (ground arith)))

take-length : (p q : Bytes) → take (length p) (p ++ q) ≡ p
take-length [] q = refl
take-length (x ∷ p) q = ap (λ (l : Bytes). x ∷ l) (take-length p q)

drop-length : (p q : Bytes) (x : ℕ) → drop (suc (length p)) (p ++ x ∷ q) ≡ q
drop-length [] q x = refl
drop-length (y ∷ p) q x = drop-length p q x

utf8_lf_frame-eq-ok :
    (t : Text) (f : Bytes)
    → utf8_lf_frame t ≡ ok f
    → (b : Bytes) × (encode t ≡ some b) × (has_line_break t ≡ false) × (f ≡ b ++ 10 ∷ [])
unfolding utf8_lf_frame
utf8_lf_frame-eq-ok t f h = elim (Bool-cases (has_line_break t)) [
  | inl broken ↦ absurd (ground arith)
  | inr single ↦ elim (Option-cases (encode t)) [
    | inl refused ↦ absurd (ground arith)
    | inr (b, e) ↦ (b, e, single, ground arith)
  ]
]

pub next_frame-utf8_lf_frame :
    (m : ℕ) (t : Text) (f rest : Bytes)
    → utf8_lf_frame t ≡ ok f
    → length f ≤ m
    → next_frame m (f ++ rest) ≡ (ok (some t), rest)
next_frame-utf8_lf_frame m t f rest h fits =
    let (b, e, single, ef) = utf8_lf_frame-eq-ok t f h in
    let line : f ++ rest ≡ b ++ 10 ∷ rest = rw ef (append_assoc b (10 ∷ []) rest) in
    let small : suc (length b) ≤ m =
      omega (arith, ap (λ (l : Bytes). length l) ef, length-append b (10 ∷ [])) in
    let found : find_newline (b ++ 10 ∷ rest) ≡ some (length b) =
      find_newline-line b rest (find_newline-encode t b e single) in
    rw line (
      next_frame_found m (b ++ 10 ∷ rest) (length b) found small
      ∙ rw (take-length b (10 ∷ rest), drop-length b rest 10, (decode_iff_encode b t).1 e))

-- What `utf8_lf_frame` makes of a text, `read_frame` reads back, however the reads cut it up: from
-- a descriptor that delivers, by a reader whose buffer is within its limit and that has seen the end
-- only if nothing is left, with that frame at the front of what is buffered or still to come and no
-- longer than the reader's limit, it returns that text and leaves exactly what followed.
pub read_frame-utf8_lf_frame :
    {World : Type 0} (read : ℕ → World → ReadOutcome × World) (pending : World → Bytes)
    → Delivers read pending
    → (r : FrameReader) (w : World) (t : Text) (f rest : Bytes) → Fits r (pending w)
    → utf8_lf_frame t ≡ ok f
    → length f ≤ r.maximum_bytes
    → r.buffer ++ pending w ≡ f ++ rest
    → (r' : FrameReader) × (w' : World) × (read_frame read r w ≡ some (ok (some t), r', w'))
      × (r'.buffer ++ pending w' ≡ rest)
read_frame-utf8_lf_frame read pending law r w t f rest fits framed small front =
    let (result, r', w', run, serves, _, _) = read_frame-next_frame read pending law r w fits in
    let same : ◌≡◌ {A = FrameResult × Bytes} (result, r'.buffer ++ pending w') (ok (some t), rest) =
      rw (← serves, front) (next_frame-utf8_lf_frame r.maximum_bytes t f rest framed small) in
    (
      r',
      w',
      rw run (ap (λ (x : FrameResult × Bytes). some (x.0, r', w')) same),
      ap (λ (x : FrameResult × Bytes). x.1) same,
    )
