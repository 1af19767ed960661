-- ===== src/Framing/Tests.antt =====
-- Runs of shared/stdio_framing.py on a descriptor that delivers what it holds and takes two bytes
-- at a time.
use defined_quant_components.Common.{
  ℕ, zero, suc, ◌≤◌, ◌<◌, ◌≡◌, refl, ap, sym, true, false, inr, some, [], ◌∷◌, ◌++◌, ok, err, arith,
  length, take, drop, take-append-drop, length-take,
}
use defined_quant_components.Utf8.{Bytes, encode, encode_char}
use defined_quant_components.Canonical.Number.{pos}
use defined_quant_components.Framing.{
  FrameResult, FrameReader, has_line_break, ReadOutcome, OsRead, got, bytes, read_frame,
  utf8_lf_frame, WriteOutcome, wrote, write_raised, write_binary_bytes, Platform, read_failed,
  configure_binary_descriptors,
}
use defined_quant_components.Framing.Spec.{next_frame}
use defined_quant_components.Framing.Refines.{Delivers, Fits, read_frame-next_frame}
use defined_quant_components.Framing.Write.{next_frame-utf8_lf_frame, read_frame-utf8_lf_frame}
use defined_quant_components.Framing.Descriptor.{
  Writes, SetsMode, Ends, write_binary_bytes-WritesAll, write_binary_bytes-eq-ok,
}

abbrev two_or_fewer : ℕ → ℕ
two_or_fewer zero = 0
two_or_fewer (suc zero) = 1
two_or_fewer (suc (suc n)) = 2

abbrev read_two : ℕ → Bytes → ReadOutcome × Bytes
read_two n w = (bytes (take (two_or_fewer n) w), drop (two_or_fewer n) w)

abbrev pending : Bytes → Bytes
pending w = w

read_two-Delivers : Delivers read_two pending
read_two-Delivers = record {
  at = λ n w positive. (
    take (two_or_fewer n) w,
    refl,
    few n w,
    sym (take-append-drop (two_or_fewer n) w),
    nothing n w positive,
  );
}
  where
    nothing : (n : ℕ) (w : Bytes) → 0 < n → take (two_or_fewer n) w ≡ [] → w ≡ []
    nothing n [] h e = refl
    nothing zero (x ∷ w) h e = elim h [ ]
    nothing (suc zero) (x ∷ w) h e = cc
    nothing (suc (suc n)) (x ∷ w) h e = cc

    few : (n : ℕ) (w : Bytes) → length (take (two_or_fewer n) w) ≤ n
    few zero w = omega arith
    few (suc zero) w = omega (arith, length-take 1 w)
    few (suc (suc n)) w = omega (arith, length-take 2 w)

abbrev reader : FrameReader
reader = record { maximum_bytes = 5; buffer = b'h' ∷ []; eof = false }

-- "i\nx"
abbrev stream : Bytes
stream = b'i' ∷ 10 ∷ b'x' ∷ []

reader-Fits : Fits reader stream
reader-Fits = record { bounded = omega arith; ended = λ e. cc }

read_frame-next_frame_example :
    (result : FrameResult) × (r' : FrameReader) × (w' : Bytes) × (read_frame read_two reader stream
      ≡ some (result, r', w'))
    × (next_frame 5 (b'h' ∷ stream) ≡ (result, r'.buffer ++ w'))
    × Fits r' w'
    × (r'.maximum_bytes ≡ 5)
read_frame-next_frame_example =
    read_frame-next_frame read_two pending read_two-Delivers reader stream reader-Fits

read_frame-utf8_lf_frame_example :
    (r' : FrameReader) × (w' : Bytes) × (read_frame read_two reader stream
      ≡ some (ok (some (b'h' ∷ b'i' ∷ [])), r', w'))
    × (r'.buffer ++ w' ≡ b'x' ∷ [])
unfolding utf8_lf_frame has_line_break encode encode_char
read_frame-utf8_lf_frame_example =
    read_frame-utf8_lf_frame read_two pending read_two-Delivers reader stream (b'h' ∷ b'i' ∷ [])
      (b'h' ∷ b'i' ∷ 10 ∷ []) (b'x' ∷ []) reader-Fits refl (omega arith) refl

-- `os.write` on a file that takes two bytes at a time
abbrev write_two : Bytes → Bytes → WriteOutcome × Bytes
write_two v w = (wrote (length (take 2 v)), w ++ take 2 v)

abbrev file : Bytes → Bytes
file w = w

write_two-Writes : Writes write_two file
write_two-Writes = record {
  on_wrote = λ view w n e. ap (λ (l : Bytes). w ++ l) (all_taken view n (count e));
  on_raised = λ view w e. absurd (never e);
}
  where
    count : {m n : ℕ} → wrote m ≡ wrote n → m ≡ n
    count e = cc

    never : {m : ℕ} → ¬ (wrote m ≡ write_raised)
    never e = cc

    all_taken : (v : Bytes) (n : ℕ) → length (take 2 v) ≡ n → take 2 v ≡ take n v
    all_taken [] zero h = refl
    all_taken [] (suc n) h = absurd (omega arith)
    all_taken (x ∷ []) zero h = absurd (omega arith)
    all_taken (x ∷ []) (suc zero) h = refl
    all_taken (x ∷ []) (suc (suc n)) h = absurd (omega arith)
    all_taken (x ∷ y ∷ v) n h = ap (λ (k : ℕ). take k (x ∷ y ∷ v)) h

next_frame-utf8_lf_frame_example :
    next_frame 4 (b'h' ∷ b'i' ∷ 10 ∷ b'x' ∷ []) ≡ (ok (some (b'h' ∷ b'i' ∷ [])), b'x' ∷ [])
unfolding utf8_lf_frame has_line_break encode encode_char
next_frame-utf8_lf_frame_example =
    next_frame-utf8_lf_frame 4 (b'h' ∷ b'i' ∷ []) (b'h' ∷ b'i' ∷ 10 ∷ []) (b'x' ∷ []) refl
      (omega arith)

-- A platform whose descriptors have modes, which can be set
abbrev with_modes : Platform Bytes
with_modes = record {
  binary_flag = 32768;
  has_msvcrt = true;
  setmode = λ descriptor flag w. (true, w);
}

with_modes-SetsMode : SetsMode with_modes file
with_modes-SetsMode descriptor flag w = refl

write_binary_bytes-WritesAll_example :
    let (result, w') = write_binary_bytes with_modes write_two (pos 1) (1 ∷ 2 ∷ 3 ∷ []) (9 ∷ []) in
    Ends with_modes (1 ∷ 2 ∷ 3 ∷ []) (9 ∷ []) w' result
write_binary_bytes-WritesAll_example =
    write_binary_bytes-WritesAll write_two file write_two-Writes with_modes with_modes-SetsMode
      (pos 1) (1 ∷ 2 ∷ 3 ∷ []) (9 ∷ [])

-- A platform with descriptor modes whose `import msvcrt` fails
abbrev no_msvcrt : Platform Bytes
no_msvcrt = record with_modes { has_msvcrt = false }

without_msvcrt : (write_binary_bytes no_msvcrt write_two (pos 1) (1 ∷ []) []).0 ≡ err read_failed
unfolding write_binary_bytes configure_binary_descriptors
without_msvcrt = refl

write_two-works : (b : ℕ) (view w : Bytes) → (n : ℕ) × ((write_two (b ∷ view) w).0 ≡ wrote (suc n))
write_two-works b [] w = (0, refl)
write_two-works b (x ∷ view) w = (1, refl)

write_binary_bytes-eq-ok_example :
    let (result, w') = write_binary_bytes with_modes write_two (pos 1) (1 ∷ 2 ∷ 3 ∷ []) (9 ∷ []) in
    (result ≡ ok tt) × (w' ≡ 9 ∷ 1 ∷ 2 ∷ 3 ∷ [])
write_binary_bytes-eq-ok_example =
    write_binary_bytes-eq-ok write_two file write_two-Writes with_modes with_modes-SetsMode (pos 1)
      (1 ∷ 2 ∷ 3 ∷ []) (9 ∷ []) (inr (refl, (1, refl, λ flag w. refl))) write_two-works

abbrev os_read_two : ℕ → Bytes → OsRead × Bytes
os_read_two n w = (got (take (two_or_fewer n) w), drop (two_or_fewer n) w)
