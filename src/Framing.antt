-- ===== src/Framing.antt =====
-- shared/stdio_framing.py: LF frames of strict UTF-8 over binary descriptors, with a bound on the
-- bytes of a frame. `os.read`, `os.write`, `msvcrt.setmode` and the reader's `read` callback belong
-- to the operating system: they are parameters, over a state `World` of theirs.
pub mod Spec
pub mod Refines
pub mod Write
pub mod Descriptor
pub mod Eof
mod Tests
use defined_quant_components.Common.{
  ℕ, zero, suc, ◌+◌, ◌-◌, ◌*◌, ◌/◌, min, Bool, true, false, ◌&&◌, ◌||◌, not, Option, none, some,
  List, [], ◌∷◌, ◌++◌, Result, ok, err, ltb, leb, ◌==◌, if◌then◌else◌, length, take, drop, ◌≡◌,
  refl,
}
use defined_quant_components.Utf8.{Text, Bytes, encode, decode}
use defined_quant_components.Canonical.Number.{ℤ, pos, negsuc}

abbrev pub max_binary_frame_bytes : ℕ
max_binary_frame_bytes = 2 * 1024 * 1024

abbrev pub max_binary_read_bytes : ℕ
max_binary_read_bytes = 64 * 1024

-- `BinaryFrameErrorCode`
pub data FrameErrorCode : Type 0 where
  frame_too_large incomplete_frame invalid_utf8 read_failed write_failed : FrameErrorCode

-- How a call of `read` ends: it returns bytes or something else, or raises a `BinaryFrameError`
-- or another exception.
pub data ReadOutcome : Type 0 where
  bytes : Bytes → ReadOutcome
  not_bytes : ReadOutcome
  raised_frame_error : FrameErrorCode → ReadOutcome
  raised : ReadOutcome

-- How a call of `os.read` ends: with bytes, or with an OSError.
pub data OsRead : Type 0 where
  got : Bytes → OsRead
  os_error : OsRead

abbrev pub read_outcome : OsRead → ReadOutcome
read_outcome (got chunk) = bytes chunk
read_outcome os_error = raised_frame_error read_failed

-- The `read` that `from_descriptor` gives to its reader
abbrev pub descriptor_read :
    {World : Type 0} → (ℕ → World → OsRead × World) → ℕ → World → ReadOutcome × World
descriptor_read os_read n w = (read_outcome (os_read n w).0, (os_read n w).1)

-- What `configure_binary_descriptors` asks of the platform: `os.O_BINARY`, 0 where there is none;
-- whether `import msvcrt` succeeds; and `msvcrt.setmode`, with whether it raises no OSError.
pub record Platform (World : Type 0) : Type 0 where
  pub binary_flag : ℕ
  pub has_msvcrt : Bool
  pub setmode : ℕ → ℕ → World → Bool × World

module _ {World : Type 0} (platform : Platform World) where
  -- The loop of `configure_binary_descriptors` over its descriptors
  unfoldable pub set_modes : List ℤ → World → Result FrameErrorCode (Unit {0}) × World
  set_modes [] w = (ok tt, w)
  set_modes (negsuc n ∷ descriptors) w = (err read_failed, w)
  set_modes (pos n ∷ descriptors) w =
      let (works, w') = platform.setmode n platform.binary_flag w in
      elim works [ true ↦ set_modes descriptors w' | false ↦ (err read_failed, w') ]

  unfoldable pub configure_binary_descriptors :
      List ℤ → World → Result FrameErrorCode (Unit {0}) × World
  unfolding set_modes
  configure_binary_descriptors descriptors w =
      if platform.binary_flag == 0
      then (ok tt, w)
      else if platform.has_msvcrt
      then set_modes descriptors w
      else (err read_failed, w)

-- What follows, if the descriptor could be configured
abbrev pub once_configured :
    {World A : Type 0}
    → Result FrameErrorCode (Unit {0}) × World
    → (World → Result FrameErrorCode A × World)
    → Result FrameErrorCode A × World
once_configured (ok u, w) next = next w
once_configured (err c, w) next = (err c, w)

-- `BoundedBinaryFrameReader`, with `_maximum_bytes`, `_buffer` and `_eof`
pub record FrameReader : Type 0 where
  pub maximum_bytes : ℕ
  pub buffer : Bytes
  pub eof : Bool

-- `__init__`; `none` is its ValueError
unfoldable pub new_reader : ℕ → Option FrameReader
new_reader maximum =
    if ltb 0 maximum && leb maximum max_binary_frame_bytes
    then some (record { maximum_bytes = maximum; buffer = []; eof = false })
    else none

-- `bytearray.find(b"\n")`
unfoldable pub find_newline : Bytes → Option ℕ
find_newline [] = none
find_newline (b ∷ bs) =
    let rest = find_newline bs in
    if b == 10 then some 0 else elim rest [ none ↦ none | some i ↦ some (suc i) ]

-- What a call of `read_frame` yields: a frame or `None` at a clean end, or an error code.
abbrev pub FrameResult : Type 0
FrameResult = Result FrameErrorCode (Option Text)

-- `content.decode("utf-8", errors="strict")`
abbrev pub decoded : Option Text → FrameResult
decoded none = err invalid_utf8
decoded (some s) = ok (some s)

-- The branch of `read_frame` that found a newline.
unfoldable pub frame_found : ℕ → FrameReader → FrameResult × FrameReader
frame_found newline r =
    let frame_bytes = suc newline in
    if ltb r.maximum_bytes frame_bytes
    then (err frame_too_large, r)
    else (decoded (decode (take newline r.buffer)), record r { buffer = drop frame_bytes r.buffer })

abbrev pub is_empty : Bytes → Bool
is_empty [] = true
is_empty (b ∷ bs) = false

-- The bytes that the next call of `read` asks for.
abbrev pub requested : FrameReader → ℕ
requested r = min max_binary_read_bytes (r.maximum_bytes - length r.buffer)

-- The reader after a call of `read` that asked for `n` bytes, or the error that ends `read_frame`.
unfoldable pub take_chunk : ℕ → ReadOutcome → FrameReader → Result FrameErrorCode FrameReader
take_chunk n (raised_frame_error c) r = err c
take_chunk n raised r = err read_failed
take_chunk n not_bytes r = err read_failed
take_chunk n (bytes chunk) r =
    if ltb n (length chunk)
    then err read_failed
    else if is_empty chunk
    then ok (record r { eof = true })
    else ok (record r { buffer = r.buffer ++ chunk })

-- What a round of the loop does when the buffer has no newline.
pub data Round : Type 0 where
  finished : FrameResult → Round
  wants_read : Round

unfoldable pub without_newline : FrameReader → Round
without_newline r =
    if leb r.maximum_bytes (length r.buffer)
    then finished (err frame_too_large)
    else if r.eof
    then (if is_empty r.buffer then finished (ok none) else finished (err incomplete_frame))
    else wants_read

module _ {World : Type 0} (read : ℕ → World → ReadOutcome × World) where
  -- The `while True` of `read_frame`, on fuel; `none` is a loop that did not end.
  pub read_loop : ℕ → FrameReader → World → Option (FrameResult × FrameReader × World)
  read_loop zero r w = none
  read_loop (suc fuel) r w = elim (find_newline r.buffer) [
    | some newline ↦ (let (result, r') = frame_found newline r in some (result, r', w))
    | none ↦ elim (without_newline r) [
      | finished result ↦ some (result, r, w)
      | wants_read ↦
          (let (outcome, w') = read (requested r) w in
            elim (take_chunk (requested r) outcome r) [
              | err c ↦ some (err c, r, w')
              | ok r' ↦ read_loop fuel r' w'
            ])
    ]
  ]

-- Each round but the last two puts a byte into the buffer, which never passes the maximum.
abbrev pub read_fuel : FrameReader → ℕ
read_fuel r = (r.maximum_bytes - length r.buffer) + 2

unfoldable pub read_frame :
    {World : Type 0}
    → (ℕ → World → ReadOutcome × World)
    → FrameReader
    → World
    → Option (FrameResult × FrameReader × World)
unfolding read_loop
read_frame read r w = read_loop read (read_fuel r) r w

-- What else than an OSError leaves these functions
pub data CallError : Type 0 where
  value_error : CallError
  frame_error : FrameErrorCode → CallError

abbrev made_reader : Option FrameReader → Result CallError FrameReader
made_reader none = err value_error
made_reader (some r) = ok r

-- `from_descriptor`, of which the `read` is `descriptor_read`
unfoldable pub from_descriptor :
    {World : Type 0} → Platform World → ℤ → ℕ → World → Result CallError FrameReader × World
unfolding configure_binary_descriptors new_reader
from_descriptor platform (negsuc n) maximum w = (err value_error, w)
from_descriptor platform (pos n) maximum w =
    let (configured, w') = configure_binary_descriptors platform (pos n ∷ []) w in
    elim configured [
      | ok u ↦ (made_reader (new_reader maximum), w')
      | err c ↦ (err (frame_error c), w')
    ]

-- How `utf8_lf_frame` refuses a text: its own ValueError, or the codec's for a lone surrogate.
pub data FrameTextError : Type 0 where
  multi_line lone_surrogate : FrameTextError

-- `"\r" in text or "\n" in text`
unfoldable pub has_line_break : Text → Bool
has_line_break [] = false
has_line_break (c ∷ s) = (c == 13 || c == 10) || has_line_break s

unfoldable pub utf8_lf_frame : Text → Result FrameTextError Bytes
utf8_lf_frame text =
    if has_line_break text
    then err multi_line
    else elim (encode text) [ none ↦ err lone_surrogate | some b ↦ ok (b ++ 10 ∷ []) ]

-- How a call of `os.write` ends: the number of bytes written, or an OSError.
pub data WriteOutcome : Type 0 where
  wrote : ℕ → WriteOutcome
  write_raised : WriteOutcome

-- The number of bytes that a call wrote; `none` where the loop raises OSError.
abbrev pub progress : WriteOutcome → Option ℕ
progress write_raised = none
progress (wrote zero) = none
progress (wrote (suc n)) = some (suc n)

module _ {World : Type 0} (write : Bytes → World → WriteOutcome × World) where
  -- The `while view` of `write_binary_bytes`, a round for each byte at most.
  pub write_loop : ℕ → Bytes → World → Result FrameErrorCode (Unit {0}) × World
  write_loop fuel [] w = (ok tt, w)
  write_loop zero (b ∷ view) w = (err write_failed, w)
  write_loop (suc fuel) (b ∷ view) w =
      let (outcome, w') = write (b ∷ view) w in
      elim (progress outcome) [
        | none ↦ (err write_failed, w')
        | some written ↦ write_loop fuel (drop written (b ∷ view)) w'
      ]

-- `write_binary_bytes`, to a descriptor that `write` writes to
unfoldable pub write_binary_bytes :
    {World : Type 0}
    → Platform World
    → (Bytes → World → WriteOutcome × World)
    → ℤ
    → Bytes
    → World
    → Result FrameErrorCode (Unit {0}) × World
unfolding write_loop configure_binary_descriptors
write_binary_bytes platform write descriptor content w =
    once_configured (configure_binary_descriptors platform (descriptor ∷ []) w)
      (write_loop write (length content) content)

abbrev frame_failure : Result FrameErrorCode (Unit {0}) → Result CallError (Unit {0})
frame_failure (ok u) = ok u
frame_failure (err c) = err (frame_error c)

-- `write_utf8_lf_frame`; the exceptions of `utf8_lf_frame` are ValueErrors.
unfoldable pub write_utf8_lf_frame :
    {World : Type 0}
    → Platform World
    → (Bytes → World → WriteOutcome × World)
    → ℤ
    → Text
    → World
    → Result CallError (Unit {0}) × World
unfolding utf8_lf_frame write_binary_bytes
write_utf8_lf_frame platform write descriptor text w = elim (utf8_lf_frame text) [
  | err e ↦ (err value_error, w)
  | ok frame ↦
      let (result, w') = write_binary_bytes platform write descriptor frame w in
      (frame_failure result, w')
]

module _ {World : Type 0} (os_read : ℕ → World → OsRead × World) where
  -- The loop of `read_binary_to_eof` on fuel; `none` is a loop that did not end.
  unfoldable pub read_to_eof : ℕ → Bytes → World → Option (Result FrameErrorCode Bytes × World)
  read_to_eof zero chunks w = none
  read_to_eof (suc fuel) chunks w =
      let (outcome, w') = os_read max_binary_read_bytes w in
      elim outcome [
        | got chunk ↦ elim chunk [
          | [] ↦ some (ok chunks, w')
          | b ∷ more ↦ read_to_eof fuel (chunks ++ b ∷ more) w'
        ]
        | os_error ↦ some (err read_failed, w')
      ]

-- `read_binary_to_eof`, on fuel for its loop
unfoldable pub read_binary_to_eof :
    {World : Type 0}
    → Platform World
    → (ℕ → World → OsRead × World)
    → ℤ
    → ℕ
    → World
    → Option (Result FrameErrorCode Bytes × World)
unfolding configure_binary_descriptors read_to_eof
read_binary_to_eof platform os_read descriptor fuel w =
    let (configured, w') = configure_binary_descriptors platform (descriptor ∷ []) w in
    elim configured [ ok u ↦ read_to_eof os_read fuel [] w' | err c ↦ some (err c, w') ]
