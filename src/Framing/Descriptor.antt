-- ===== src/Framing/Descriptor.antt =====
-- `write_binary_bytes` and `configure_binary_descriptors` of shared/stdio_framing.py.
use defined_quant_components.Common.{
  ℕ, zero, suc, ◌+◌, ◌≤◌, ◌≡◌, ◌⊎◌, refl, sym, ap, ◌∙◌, true, false, none, some, [], ◌∷◌, ◌++◌, ok,
  err, Result, arith, ◌==◌, length, take, drop, Option-cases, Bool-cases, inl, inr, length-drop,
  append_assoc, append-nil, take-append-drop,
}
use native.Mathlib.Nat.{zero-add}
use defined_quant_components.Utf8.{Bytes}
use defined_quant_components.Framing.{
  FrameErrorCode, write_failed, read_failed, WriteOutcome, wrote, write_raised, progress,
  write_loop, write_binary_bytes, Platform, configure_binary_descriptors, set_modes,
  once_configured,
}
use defined_quant_components.Canonical.Number.{ℤ, pos, negsuc}

-- What `os.write` promises: it writes a prefix of what it is given, and nothing if it raises.
pub record Writes {World : Type 0} (write : Bytes → World → WriteOutcome × World)
    (written : World → Bytes) : Type 0 where
  pub on_wrote :
      (view : Bytes) (w : World) (n : ℕ)
      → (write view w).0 ≡ wrote n
      → written (write view w).1 ≡ written w ++ take n view
  pub on_raised :
      (view : Bytes) (w : World)
      → (write view w).0 ≡ write_raised
      → written (write view w).1 ≡ written w

-- How the loop that was to write `content` may end.
abbrev pub WritesAll : Bytes → Bytes → Bytes → Result FrameErrorCode (Unit {0}) → Type 0
WritesAll content before after (ok _) = after ≡ before ++ content
WritesAll content before after (err c) =
    (c ≡ write_failed) × (k : ℕ) × (after ≡ before ++ take k content)

-- What configuring a descriptor gives. `msvcrt.setmode` writes nothing.
abbrev pub SetsMode : {World : Type 0} → Platform World → (World → Bytes) → Type 0
SetsMode {World} platform written =
    (descriptor flag : ℕ) (w : World) → written (platform.setmode descriptor flag w).1 ≡ written w

-- The descriptor's mode can be set, or does not have to be.
abbrev pub IsConfigurable : {World : Type 0} → Platform World → ℤ → Type 0
IsConfigurable {World} platform descriptor =
    (platform.binary_flag ≡ 0)
    ⊎ ((platform.has_msvcrt ≡ true)
        × ((n : ℕ) × (descriptor ≡ pos n)
            × ((flag : ℕ) (w : World) → (platform.setmode n flag w).0 ≡ true)))

-- How a call of `write_binary_bytes` may end: as its loop, or with READ_FAILED and nothing written
-- where the platform has an O_BINARY flag.
abbrev pub Ends :
    {World : Type 0}
    → Platform World
    → Bytes
    → Bytes
    → Bytes
    → Result FrameErrorCode (Unit {0})
    → Type 0
Ends platform content before after r =
    WritesAll content before after r
    ⊎ ((r ≡ err read_failed) × (after ≡ before) × ¬ (platform.binary_flag ≡ 0))

progress-eq-some : (o : WriteOutcome) (n : ℕ) → progress o ≡ some n → o ≡ wrote n
progress-eq-some write_raised n h = cc
progress-eq-some (wrote zero) n h = cc
progress-eq-some (wrote (suc m)) n h = cc

progress-eq-none : (o : WriteOutcome) → progress o ≡ none → (o ≡ write_raised) ⊎ (o ≡ wrote 0)
progress-eq-none write_raised h = inl refl
progress-eq-none (wrote zero) h = inr refl
progress-eq-none (wrote (suc m)) h = cc

take-nil : (n : ℕ) → take {A = ℕ} n [] ≡ []
take-nil zero = refl
take-nil (suc n) = refl

take-append-take : (n k : ℕ) (v : Bytes) → take n v ++ take k (drop n v) ≡ take (n + k) v
take-append-take zero k v = rw zero-add
take-append-take (suc n) k [] = take-nil k ∙ sym (take-nil (suc n + k))
take-append-take (suc n) k (x ∷ v) =
    let e : suc n + k ≡ suc (n + k) = omega arith in
    rw e (ap (λ (l : Bytes). x ∷ l) (take-append-take n k v))

-- One more part of the content was written.
WritesAll-step :
    (n : ℕ) (v before mid after : Bytes) (r : Result FrameErrorCode (Unit {0}))
    → mid ≡ before ++ take n v
    → WritesAll (drop n v) mid after r
    → WritesAll v before after r
WritesAll-step n v before mid after (ok _) e h =
    rw (h, e, append_assoc before (take n v) (drop n v), take-append-drop n v)
WritesAll-step n v before mid after (err c) e (code, k, h) = (
  code,
  n + k,
  rw (h, e, append_assoc before (take n v) (take k (drop n v)), take-append-take n k v),
)

module _ {World : Type 0} (write : Bytes → World → WriteOutcome × World) (written : World → Bytes)
    (law : Writes write written) where
  stopped :
      (b : ℕ) (view : Bytes) (w : World)
      → ((write (b ∷ view) w).0 ≡ write_raised) ⊎ ((write (b ∷ view) w).0 ≡ wrote 0)
      → written (write (b ∷ view) w).1 ≡ written w
  stopped b view w (inl e) = law.on_raised (b ∷ view) w e
  stopped b view w (inr e) = law.on_wrote (b ∷ view) w 0 e ∙ append-nil (written w)

  write_loop-WritesAll :
      (fuel : ℕ) (view : Bytes) (w : World)
      → WritesAll view
          (written w)
          (written (write_loop write fuel view w).1)
          (write_loop write fuel view w).0
  unfolding write_loop
  write_loop-WritesAll fuel [] w = sym (append-nil _)
  write_loop-WritesAll zero (b ∷ view) w = (refl, 0, sym (append-nil _))
  write_loop-WritesAll (suc fuel) (b ∷ view) w =
      let w' : World = (write (b ∷ view) w).1 in
      elim (Option-cases (progress (write (b ∷ view) w).0)) [
        | inr (n, e) ↦
            rw (e, write_loop)
              (WritesAll-step n (b ∷ view) (written w) (written w')
                (written (write_loop write fuel (drop n (b ∷ view)) w').1)
                (write_loop write fuel (drop n (b ∷ view)) w').0
                (law.on_wrote (b ∷ view) w n (progress-eq-some _ n e))
                (write_loop-WritesAll fuel (drop n (b ∷ view)) w'))
        | inl e ↦
            rw (e, write_loop) (refl, 0, rw append-nil (stopped b view w (progress-eq-none _ e)))
      ]

  module _ (platform : Platform World) (sets : SetsMode platform written) where
    -- Configuring the descriptor succeeds, or raises READ_FAILED.
    abbrev Configured : Result FrameErrorCode (Unit {0}) × World → World → Type 0
    Configured (r, w') w =
        (written w' ≡ written w)
        × ((r ≡ ok tt) ⊎ ((r ≡ err read_failed) × ¬ (platform.binary_flag ≡ 0)))

    configure-Configured :
        (descriptor : ℤ) (w : World)
        → Configured (configure_binary_descriptors platform (descriptor ∷ []) w) w
    unfolding configure_binary_descriptors set_modes
    configure-Configured descriptor w = elim (Bool-cases (platform.binary_flag == 0)) [
      | inl no_flag ↦ rw no_flag ((refl, inl refl))
      | inr flag ↦ elim (Bool-cases platform.has_msvcrt) [
        | inr missing ↦ rw (flag, missing) ((refl, inr (refl, flagged flag)))
        | inl imported ↦ rw (flag, imported) (modes descriptor (flagged flag))
      ]
    ]
      where
        flagged : (platform.binary_flag == 0) ≡ false → ¬ (platform.binary_flag ≡ 0)
        flagged flag h = ground arith

        modes :
            (descriptor : ℤ)
            → ¬ (platform.binary_flag ≡ 0)
            → Configured (set_modes platform (descriptor ∷ []) w) w
        modes (negsuc n) flag = (refl, inr (refl, flag))
        modes (pos n) flag = elim (Bool-cases (platform.setmode n platform.binary_flag w).0) [
          | inl works ↦ rw (works, set_modes) ((sets n platform.binary_flag w, inl refl))
          | inr fails ↦ rw (fails, set_modes) ((sets n platform.binary_flag w, inr (refl, flag)))
        ]

    -- If `os.write` writes a first part of what it is given, and nothing when it raises, and
    -- `msvcrt.setmode` writes nothing, then a `write_binary_bytes` that returns has written its
    -- content, whole and in order, however few bytes each call took; one that raises does so with
    -- WRITE_FAILED and has written a first part of the content, or, only where the platform has an
    -- O_BINARY flag, with READ_FAILED and has written nothing.
    pub write_binary_bytes-WritesAll :
        (descriptor : ℤ) (content : Bytes) (w : World)
        → let (result, w') = write_binary_bytes platform write descriptor content w in
          Ends platform content (written w) (written w') result
    unfolding write_binary_bytes
    write_binary_bytes-WritesAll descriptor content w =
        go (configure_binary_descriptors platform (descriptor ∷ []) w)
          (configure-Configured descriptor w)
      where
        go :
            (r : Result FrameErrorCode (Unit {0}) × World)
            → Configured r w
            → let (result, w') = once_configured r (write_loop write (length content) content) in
              Ends platform content (written w) (written w') result
        go (ok u, w') (same_file, h) =
            inl (rw (← same_file) (write_loop-WritesAll (length content) content w'))
        go (err c, w') (same_file, inl clash) = cc
        go (err c, w') (same_file, inr (failed, flag)) = inr (failed, same_file, flag)

    configure-ok :
        (descriptor : ℤ) (w : World)
        → IsConfigurable platform descriptor
        → (configure_binary_descriptors platform (descriptor ∷ []) w).0 ≡ ok tt
    unfolding configure_binary_descriptors set_modes
    configure-ok descriptor w (inl no_flag) = rw no_flag refl
    configure-ok descriptor w (inr (imported, (n, same_descriptor, works))) =
        elim (Bool-cases (platform.binary_flag == 0)) [
          | inl no_flag ↦ rw no_flag refl
          | inr flag ↦
              rw (flag, imported, same_descriptor, set_modes, works platform.binary_flag w) refl
        ]

    write_loop-eq-ok :
        ((b : ℕ) (view : Bytes) (v : World) → (n : ℕ) × ((write (b ∷ view) v).0 ≡ wrote (suc n)))
        → (fuel : ℕ) (view : Bytes) (w : World) → length view ≤ fuel
        → (write_loop write fuel view w).0 ≡ ok tt
    unfolding write_loop
    write_loop-eq-ok works fuel [] w h = refl
    write_loop-eq-ok works zero (b ∷ view) w h = absurd (omega arith)
    write_loop-eq-ok works (suc fuel) (b ∷ view) w h =
        let (n, e) = works b view w in
        rw (e, write_loop)
          (write_loop-eq-ok works fuel (drop n view) (write (b ∷ view) w).1
            (omega (arith, length-drop n view)))

    -- If moreover the descriptor's mode can be set or does not have to be, and no call of `os.write`
    -- for at least one byte fails or writes nothing, `write_binary_bytes` returns, with its content
    -- written, whole and in order.
    pub write_binary_bytes-eq-ok :
        (descriptor : ℤ) (content : Bytes) (w : World)
        → IsConfigurable platform descriptor
        → ((b : ℕ) (view : Bytes) (v : World) → (n : ℕ) × ((write (b ∷ view) v).0 ≡ wrote (suc n)))
        → let (result, w') = write_binary_bytes platform write descriptor content w in
          (result ≡ ok tt) × (written w' ≡ written w ++ content)
    unfolding write_binary_bytes
    write_binary_bytes-eq-ok descriptor content w configurable works =
        let returns =
          go (configure_binary_descriptors platform (descriptor ∷ []) w)
            (configure-ok descriptor w configurable) in
        (returns, finished _ _ _ returns (write_binary_bytes-WritesAll descriptor content w))
      where
        go :
            (r : Result FrameErrorCode (Unit {0}) × World)
            → r.0 ≡ ok tt
            → (once_configured r (write_loop write (length content) content)).0 ≡ ok tt
        go (ok u, w') h = write_loop-eq-ok works (length content) content w' (omega arith)
        go (err c, w') h = cc

        finished :
            (before after : Bytes) (r : Result FrameErrorCode (Unit {0}))
            → r ≡ ok tt
            → Ends platform content before after r
            → after ≡ before ++ content
        finished before after (ok u) e (inl h) = h
        finished before after (ok u) e (inr (clash, _, _)) = cc
        finished before after (err c) e h = cc
