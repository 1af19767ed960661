-- ===== src/Session/Yields.antt =====
-- What a method of shared/session_cas.py returns when it raises no host failure, with a rule for each
-- way to build a method.
use defined_quant_components.Common.{
  ◌≡◌, refl, Bool, true, false, Option, none, some, Result, ok, err,
}
use defined_quant_components.Session.Failing.{Raised, other}
use defined_quant_components.Session.Backend.{FileError, Session}
use defined_quant_components.Session.Exec.{Exec, pure, given, stop_if, ◌>>=◌, onwards}
use defined_quant_components.Session.Store.{act, in_world}

-- A result that is right, or an exception that is no host failure.
abbrev pub IsYield : {A : Type 0} → (A → Type 0) → Result Raised A → Type 0
IsYield P (ok a) = P a
IsYield P (err e) = e ≡ other

pub record Yields {W A : Type 0} (P : A → Type 0) (m : Exec (Session W) A) : Type 0 where
  pub at : (s : Session W) → IsYield P (m s).0

abbrev pub Anything : {A : Type 0} → A → Type 0
Anything a = Unit

module _ {W A : Type 0} where
  pub Yields-act : (f : W → Result FileError A × W) → Yields Anything (act f)
  unfolding act in_world
  Yields-act f = record { at = λ s. go s (f s.world) }
    where
      go : (s : Session W) (r : Result FileError A × W) → IsYield Anything (in_world r s).0
      go s (ok a, w) = tt
      go s (err e, w) = refl

  pub Yields-given : (o : Option A) → Yields {W = W} Anything (given o)
  unfolding given
  Yields-given none = record { at = λ s. refl }
  Yields-given (some a) = record { at = λ s. tt }

  pub Yields-pure : {P : A → Type 0} (a : A) → P a → Yields {W = W} P (pure a)
  unfolding pure
  Yields-pure a p = record { at = λ s. p }

module _ {W : Type 0} where
  pub Yields-stop_if : (b : Bool) → Yields {W = W} (λ (u : Unit {0}). b ≡ false) (stop_if b other)
  unfolding stop_if
  Yields-stop_if true = record { at = λ s. refl }
  Yields-stop_if false = record { at = λ s. refl }

module _ {W A B : Type 0} {Q : B → Type 0} where
  pub Yields-bind :
      {P : A → Type 0} (m : Exec (Session W) A) (next : A → Exec (Session W) B)
      → Yields P m
      → ((a : A) → P a → Yields Q (next a))
      → Yields Q (m >>= next)
  unfolding ◌>>=◌
  Yields-bind {P = P} m next km kn = record { at = λ s. go (m s).0 (m s).1 (km.at s) }
    where
      go : (r : Result Raised A) (t : Session W) → IsYield P r → IsYield Q (onwards next r t).0
      go (ok a) t p = (kn a p).at t
      go (err e) t p = p
