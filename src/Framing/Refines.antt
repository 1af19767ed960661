-- ===== src/Framing/Refines.antt =====
-- `read_frame` of shared/stdio_framing.py against the protocol on the whole stream.
use defined_quant_components.Common.{
  ℕ, zero, suc, ◌+◌, ◌-◌, ◌≤◌, ◌<◌, ◌≡◌, ◌⊎◌, refl, sym, ◌∙◌, true, false, Option, none, some, [],
  ◌∷◌, ◌++◌, ok, arith, ltb, leb, if◌then◌else◌, length, Option-cases, Bool-cases, inl, inr,
  length-append, length-drop, append_assoc, append-nil, leb→le,
}
use defined_quant_components.Utf8.{Bytes}
use defined_quant_components.Framing.{
  FrameResult, find_newline, ReadOutcome, bytes, FrameReader, Round, frame_found, without_newline,
  requested, take_chunk, finished, wants_read, read_loop, read_fuel, read_frame,
}
use defined_quant_components.Framing.Spec.{
  next_frame, next_frame_found, next_frame_full, next_frame_end, find_newline-append,
}

-- What `os.read` promises of a descriptor that does not fail: it returns at most as many bytes as
-- were asked for, from the front of those that are still to come, and none only at the end.
pub record Delivers {World : Type 0} (read : ℕ → World → ReadOutcome × World)
    (pending : World → Bytes) : Type 0 where
  pub at :
      (n : ℕ) (w : World)
      → 0 < n
      → (c : Bytes) × ((read n w).0 ≡ bytes c)
        × (length c ≤ n)
        × (pending w ≡ c ++ pending (read n w).1)
        × (c ≡ [] → pending w ≡ [])

-- The reader has room, and knows of the end only what is true.
pub record Fits (r : FrameReader) (rest : Bytes) : Type 0 where
  pub bounded : length r.buffer ≤ r.maximum_bytes
  pub ended : r.eof ≡ true → rest ≡ []

-- The reader after a call of `read` that returned the bytes `c`.
after_chunk : Bytes → FrameReader → FrameReader
after_chunk [] r = record r { eof = true }
after_chunk (x ∷ c) r = record r { buffer = r.buffer ++ x ∷ c }

take_chunk-bytes :
    (n : ℕ) (c : Bytes) (r : FrameReader)
    → length c ≤ n
    → take_chunk n (bytes c) r ≡ ok (after_chunk c r)
unfolding take_chunk after_chunk
take_chunk-bytes n [] r few = ground arith
take_chunk-bytes n (x ∷ c) r few = ground arith

after_chunk-Fits :
    (c : Bytes) (r : FrameReader) (before after : Bytes)
    → without_newline r ≡ wants_read
    → Fits r before
    → length c ≤ requested r
    → before ≡ c ++ after
    → (c ≡ [] → before ≡ [])
    → Fits (after_chunk c r) after
unfolding after_chunk without_newline
after_chunk-Fits [] r before after waits fits few split stop = record {
  bounded = fits.bounded;
  ended = λ _. sym split ∙ stop refl;
}
after_chunk-Fits (x ∷ c) r before after waits fits few split stop = record {
  bounded = omega (arith, length-append r.buffer (x ∷ c));
  ended = λ h. absurd (ground arith);
}

module _ {World : Type 0} (read : ℕ → World → ReadOutcome × World) (pending : World → Bytes)
    (law : Delivers read pending) where
  abbrev Serves : FrameReader → World → Option (FrameResult × FrameReader × World) → Type 0
  Serves r w none = ⊥
  Serves r w (some (result, r', w')) =
      (next_frame r.maximum_bytes (r.buffer ++ pending w) ≡ (result, r'.buffer ++ pending w'))
      × Fits r' (pending w')
      × (r'.maximum_bytes ≡ r.maximum_bytes)

  abbrev rounds : FrameReader → ℕ
  rounds r = if r.eof then 1 else (r.maximum_bytes - length r.buffer) + 2

  frame_found-Serves :
      (r : FrameReader) (w : World) (i : ℕ)
      → Fits r (pending w)
      → find_newline r.buffer ≡ some i
      → let (result, r') = frame_found i r in Serves r w (some (result, r', w))
  unfolding frame_found
  frame_found-Serves r w i fits found =
      let (found', lt, same_take, same_drop) = find_newline-append r.buffer (pending w) i found in
      let small : ltb r.maximum_bytes (suc i) ≡ false = ground arith in
      rw small (
        next_frame_found r.maximum_bytes (r.buffer ++ pending w) i found' (omega arith)
            ∙ rw (same_take, same_drop),
        record { bounded = omega (arith, length-drop (suc i) r.buffer); ended = fits.ended },
        refl,
      )

  without_newline-Serves :
      (r : FrameReader) (w : World) (result : FrameResult)
      → Fits r (pending w)
      → find_newline r.buffer ≡ none
      → without_newline r ≡ finished result
      → Serves r w (some (result, r, w))
  unfolding without_newline
  without_newline-Serves r w result fits nothing done =
      elim (Bool-cases (leb r.maximum_bytes (length r.buffer))) [
        | inl full ↦ (
          rw (next_frame_full r.maximum_bytes r.buffer (pending w) nothing (leb→le _ _ full))
              (ground arith),
          fits,
          refl,
        )
        | inr room ↦ elim (Bool-cases r.eof) [
          | inl over ↦
              let last : pending w ≡ [] = fits.ended over in
              let value : next_frame r.maximum_bytes r.buffer ≡ (result, r.buffer) =
                next_frame_end r.maximum_bytes r.buffer nothing (ground arith) ∙ ground arith in
              (rw (last, append-nil) value, fits, refl)
          | inr more ↦ absurd (ground arith)
        ]
      ]

  requested_pos : (r : FrameReader) → without_newline r ≡ wants_read → 0 < requested r
  unfolding without_newline
  requested_pos r h = ground arith

  Round-cases : (x : Round) → (x ≡ wants_read) ⊎ ((result : FrameResult) × (x ≡ finished result))
  Round-cases wants_read = inl refl
  Round-cases (finished result) = inr (result, refl)

  rounds-after_chunk :
      (fuel : ℕ) (c : Bytes) (r : FrameReader)
      → without_newline r ≡ wants_read
      → rounds r ≤ suc fuel
      → rounds (after_chunk c r) ≤ fuel
  unfolding without_newline after_chunk
  rounds-after_chunk fuel [] r waits enough = ground arith
  rounds-after_chunk fuel (x ∷ c) r waits enough = ground (arith, length-append r.buffer (x ∷ c))

  -- A round that reads serves the same stream.
  Serves-read :
      (r : FrameReader) (w w' : World) (c : Bytes)
      → pending w ≡ c ++ pending w'
      → (out : Option (FrameResult × FrameReader × World)) → Serves (after_chunk c r) w' out
      → Serves r w out
  unfolding after_chunk
  Serves-read r w w' c split none h = h
  Serves-read r w w' [] split (some (result, s, v)) h = (rw split h.0, h.1, h.2)
  Serves-read r w w' (x ∷ c) split (some (result, s, v)) h =
      (rw split (rw (← append_assoc r.buffer (x ∷ c) (pending w')) h.0), h.1, h.2)

  read_loop-Serves :
      (fuel : ℕ) (r : FrameReader) (w : World)
      → Fits r (pending w)
      → rounds r ≤ fuel
      → Serves r w (read_loop read fuel r w)
  unfolding read_loop
  read_loop-Serves zero r w fits enough = absurd (ground arith)
  read_loop-Serves (suc fuel) r w fits enough = elim (Option-cases (find_newline r.buffer)) [
    | inr (i, found) ↦ rw (found, read_loop) (frame_found-Serves r w i fits found)
    | inl nothing ↦ elim (Round-cases (without_newline r)) [
      | inr (result, done) ↦
          rw (nothing, done, read_loop) (without_newline-Serves r w result fits nothing done)
      | inl waits ↦
          let (c, e, few, split, stop) = law.at (requested r) w (requested_pos r waits) in
          let w' : World = (read (requested r) w).1 in
          rw (nothing, waits, e, take_chunk-bytes (requested r) c r few, read_loop)
            (Serves-read r w w' c split (read_loop read fuel (after_chunk c r) w') (
              read_loop-Serves fuel (after_chunk c r) w'
                (after_chunk-Fits c r (pending w) (pending w') waits fits few split stop)
                (rounds-after_chunk fuel c r waits enough)))
    ]
  ]

  Serves→ends :
      (r : FrameReader) (w : World) (out : Option (FrameResult × FrameReader × World))
      → Serves r w out
      → (result : FrameResult) × (r' : FrameReader) × (w' : World) × (out ≡ some (result, r', w'))
        × (next_frame r.maximum_bytes (r.buffer ++ pending w) ≡ (result, r'.buffer ++ pending w'))
        × Fits r' (pending w')
        × (r'.maximum_bytes ≡ r.maximum_bytes)
  Serves→ends r w none h = absurd h
  Serves→ends r w (some (result, r', w')) h = (result, r', w', refl, h.0, h.1, h.2)

  -- On a descriptor that delivers its bytes, for a reader whose buffer is within its limit and that
  -- has seen the end only if nothing is left, a call of `read_frame` ends, whatever the sizes of the
  -- reads: it yields the first frame of the bytes that were buffered or still to come (its text,
  -- `None` at a clean end, or the error code), leaves exactly the bytes after that frame, and keeps
  -- these conditions on the reader.
  pub read_frame-next_frame :
      (r : FrameReader) (w : World)
      → Fits r (pending w)
      → (result : FrameResult) × (r' : FrameReader) × (w' : World) × (read_frame read r w
          ≡ some (result, r', w'))
        × (next_frame r.maximum_bytes (r.buffer ++ pending w) ≡ (result, r'.buffer ++ pending w'))
        × Fits r' (pending w')
        × (r'.maximum_bytes ≡ r.maximum_bytes)
  unfolding read_frame
  read_frame-next_frame r w fits =
      Serves→ends r w (read_loop read (read_fuel r) r w)
        (read_loop-Serves (read_fuel r) r w fits (ground arith))
