-- ===== src/Common/Errors.antt =====
-- A result with an error value, for functions that may raise, and the bind of `Option`.
use mathlib.Core.Path.{◌≡◌, refl}
use mathlib.Core.Bool.{Bool, true, false}
use mathlib.Core.Option.{Option, none, some}

-- `ok` is a return, `err` an exception that leaves the function.
pub data Result (E A : Type 0) : Type 0 where
  err : E → Result E A
  ok : A → Result E A

infixl 5 ◌>>=◌
abbrev pub ◌>>=◌ : {E A B : Type 0} → Result E A → (A → Result E B) → Result E B
err raised >>= next = err raised
ok value >>= next = next value

-- `if test: raise e`
abbrev pub raise_if : {E : Type 0} → Bool → E → Result E (Unit {0})
raise_if true e = err e
raise_if false e = ok tt

-- `None` as an error
abbrev pub or_raise : {E A : Type 0} → Option A → E → Result E A
or_raise none e = err e
or_raise (some a) e = ok a

infixl 5 ◌>>◌
abbrev pub ◌>>◌ : {E A B : Type 0} → Result E A → Result E B → Result E B
first >> second = first >>= λ _. second

pub >>=-eq-ok :
    {E A B : Type 0} (first : Result E A) (next : A → Result E B) {last : B}
    → (first >>= next) ≡ ok last
    → (value : A) × (first ≡ ok value) × (next value ≡ ok last)
>>=-eq-ok (err raised) next done = cc
>>=-eq-ok (ok value) next done = (value, refl, done)

pub or_raise-eq-ok :
    {E A : Type 0} (o : Option A) (e : E) {a : A} → or_raise o e ≡ ok a → o ≡ some a
or_raise-eq-ok none e h = cc
or_raise-eq-ok (some b) e h = cc

pub raise_if-eq-ok :
    {E B : Type 0} (b : Bool) (e : E) (m : Result E B) {r : B}
    → (raise_if b e >> m) ≡ ok r
    → (b ≡ false) × (m ≡ ok r)
raise_if-eq-ok true e m h = cc
raise_if-eq-ok false e m h = (refl, h)

pub >>=-not-ok :
    {E A B : Type 0} (m : Result E A) (f : A → Result E B) {b : B}
    → ((a : A) → ¬ (f a ≡ ok b))
    → ¬ ((m >>= f) ≡ ok b)
>>=-not-ok (ok a) f never h = never a h
>>=-not-ok (err e) f never h = cc

-- The same with a continuation, for a chain of steps.
pub after_ok :
    {E A B P : Type 0} (m : Result E A) (f : A → Result E B) {b : B}
    → (m >>= f) ≡ ok b
    → ((a : A) → m ≡ ok a → f a ≡ ok b → P)
    → P
after_ok (ok a) f h k = k a refl h
after_ok (err e) f h k = cc
