-- ===== src/Framing/Spec.antt =====
-- The frame protocol on a whole stream of bytes, with no buffer and no reads: what
-- `BoundedBinaryFrameReader.read_frame` of shared/stdio_framing.py stands for.
use defined_quant_components.Common.{
  ℕ, zero, suc, ◌≤◌, ◌<◌, ◌≡◌, refl, ap, none, some, [], ◌∷◌, ◌++◌, ok, err, arith, ltb, leb,
  if◌then◌else◌, length, take, drop, length-append, Option-cases, inl, inr,
}
use defined_quant_components.Utf8.{Bytes, decode}
use defined_quant_components.Framing.{
  FrameResult, frame_too_large, incomplete_frame, find_newline, decoded, is_empty,
}

-- The first frame of the stream `s`, and the stream after it. A frame with its newline takes at
-- most `maximum` bytes; one that is too large stays where it is.
unfoldable pub next_frame : ℕ → Bytes → FrameResult × Bytes
next_frame maximum s = elim (find_newline s) [
  | some i ↦
      if ltb maximum (suc i)
      then (err frame_too_large, s)
      else (decoded (decode (take i s)), drop (suc i) s)
  | none ↦
      if leb maximum (length s)
      then (err frame_too_large, s)
      else if is_empty s
      then (ok none, s)
      else (err incomplete_frame, s)
]

abbrev Found : Bytes → Bytes → ℕ → Type 0
Found xs ys i =
    (find_newline (xs ++ ys) ≡ some i)
    × (i < length xs)
    × (take i (xs ++ ys) ≡ take i xs)
    × (drop (suc i) (xs ++ ys) ≡ drop (suc i) xs ++ ys)

-- A newline in the first part of a stream is the first newline of the stream.
pub find_newline-append : (xs ys : Bytes) (i : ℕ) → find_newline xs ≡ some i → Found xs ys i
unfolding find_newline
find_newline-append [] ys i h = cc
find_newline-append (x ∷ xs) ys zero h = (ground arith, omega arith, refl, refl)
find_newline-append (x ∷ xs) ys (suc i) h =
    let (found, lt, same_take, same_drop) = find_newline-append xs ys i (ground arith) in
    (ground (arith, found), omega arith, ap (λ (l : Bytes). x ∷ l) same_take, same_drop)

-- Where the first part has none, a newline of the stream stands behind it.
pub find_newline-append_none :
    (xs ys : Bytes) (i : ℕ)
    → find_newline xs ≡ none
    → find_newline (xs ++ ys) ≡ some i
    → length xs ≤ i
unfolding find_newline
find_newline-append_none [] ys i h e = omega arith
find_newline-append_none (x ∷ xs) ys zero h e = absurd (ground arith)
find_newline-append_none (x ∷ xs) ys (suc i) h e =
    let behind : length xs ≤ i = find_newline-append_none xs ys i (ground arith) (ground arith) in
    omega arith

module _ (m : ℕ) where
  pub next_frame_found :
      (s : Bytes) (i : ℕ)
      → find_newline s ≡ some i
      → suc i ≤ m
      → next_frame m s ≡ (decoded (decode (take i s)), drop (suc i) s)
  unfolding next_frame
  next_frame_found s i h fits = rw (h, next_frame) (ground arith)

  pub next_frame_full :
      (xs ys : Bytes)
      → find_newline xs ≡ none
      → m ≤ length xs
      → next_frame m (xs ++ ys) ≡ (err frame_too_large, xs ++ ys)
  unfolding next_frame
  next_frame_full xs ys h full = elim (Option-cases (find_newline (xs ++ ys))) [
    | inl nothing ↦ rw (nothing, next_frame) (ground (arith, length-append xs ys))
    | inr (i, found) ↦
        let behind : length xs ≤ i = find_newline-append_none xs ys i h found in
        rw (found, next_frame) (ground arith)
  ]

  pub next_frame_end :
      (s : Bytes)
      → find_newline s ≡ none
      → length s < m
      → next_frame m s ≡ (if is_empty s then (ok none, s) else (err incomplete_frame, s))
  unfolding next_frame
  next_frame_end s h short = rw (h, next_frame) (ground arith)
