-- ===== src/Session/Exec.antt =====
-- Methods of shared/session_cas.py that change the session and may raise: a change that was made before
-- an exception stays made.
use defined_quant_components.Common.{Bool, true, false, Option, none, some, Result, ok, err}
use defined_quant_components.Session.Failing.{Raised, other}

abbrev pub Exec : Type 0 → Type 0 → Type 0
Exec S A = S → Result Raised A × S

module _ {S A : Type 0} where
  unfoldable pub pure : A → Exec S A
  pure a s = (ok a, s)

  unfoldable pub raise : Raised → Exec S A
  raise e s = (err e, s)

  unfoldable pub lift : Result Raised A → Exec S A
  lift r s = (r, s)

  unfoldable pub gets : (S → A) → Exec S A
  gets f s = (ok (f s), s)

  -- A value that is missing is an exception that is no host failure.
  unfoldable pub given : Option A → Exec S A
  given none s = (err other, s)
  given (some a) s = (ok a, s)

  abbrev pub handled : (Raised → Exec S A) → Result Raised A → Exec S A
  handled handler (ok a) s = (ok a, s)
  handled handler (err e) s = handler e s

  -- `try: m` with `except Exception as e: handler e`
  unfoldable pub catch : Exec S A → (Raised → Exec S A) → Exec S A
  catch m handler s = handled handler (m s).0 (m s).1

  -- The outcome of the body, unless the clean-up raises
  abbrev pub cleaned : Result Raised A → Result Raised (Unit {0}) × S → Result Raised A × S
  cleaned r (ok u, s) = (r, s)
  cleaned r (err e, s) = (err e, s)

  -- `try: m` with `finally: clean_up`
  unfoldable pub finally : Exec S A → Exec S (Unit {0}) → Exec S A
  finally m clean_up s = cleaned (m s).0 (clean_up (m s).1)

unfoldable pub modify : {S : Type 0} → (S → S) → Exec S (Unit {0})
modify f s = (ok tt, f s)

-- `if test: raise e`
unfoldable pub stop_if : {S : Type 0} → Bool → Raised → Exec S (Unit {0})
stop_if true e s = (err e, s)
stop_if false e s = (ok tt, s)

module _ {S A B : Type 0} where
  abbrev pub onwards : (A → Exec S B) → Result Raised A → Exec S B
  onwards next (ok a) s = next a s
  onwards next (err e) s = (err e, s)

  infixl 5 ◌>>=◌ ◌>>◌
  unfoldable pub ◌>>=◌ : Exec S A → (A → Exec S B) → Exec S B
  ◌>>=◌ m next s = onwards next (m s).0 (m s).1

  abbrev pub ◌>>◌ : Exec S A → Exec S B → Exec S B
  m >> n = m >>= λ _. n
