-- ===== src/Session/Sound.antt =====
-- The state of a session that every method of shared/session_cas.py keeps sound, and how a method may
-- change it, with a rule for each way to build a method.
use defined_quant_components.Common.{
  ◌≤◌, ◌≡◌, Bool, true, false, Option, none, some, Result, ok, err, if◌then◌else◌,
}
use defined_quant_components.Utf8.{Text}
use defined_quant_components.Managed.Json.{Text-discrete, contains}
use defined_quant_components.Session.Failing.{Raised}
use defined_quant_components.Session.Scope.{holds, IsDict}
use defined_quant_components.Session.Backend.{FileError, Config, Session}
use defined_quant_components.Session.Exec.{
  Exec, pure, raise, lift, gets, given, stop_if, catch, finally, cleaned, ◌>>=◌, handled, onwards,
}
use defined_quant_components.Session.Store.{act, attempt, in_world, look, answer}

-- The bytes that count are within the quota, the registry is a dictionary, and it knows each reference
-- of the session.
pub record IsSound {W : Type 0} (config : Config) (s : Session W) : Type 0 where
  pub within_quota : s.used_bytes ≤ config.limits.session_bytes
  pub is_dict : IsDict s.scope
  pub is_known :
      (r : Text)
      → contains Text-discrete s.references r ≡ true
      → holds s.scope config.session_id r ≡ true

-- A change that keeps a session sound, forgets no corrupt reference and does not open it again.
pub record Grows {W : Type 0} (config : Config) (s t : Session W) : Type 0 where
  pub sound : IsSound config s → IsSound config t
  pub blames :
      (r : Text)
      → contains Text-discrete s.corrupt_references r ≡ true
      → contains Text-discrete t.corrupt_references r ≡ true
  pub stays_closed : s.closed ≡ true → t.closed ≡ true

module _ {W : Type 0} (config : Config) where
  pub unchanged-Grows : (s : Session W) → Grows config s s
  unchanged-Grows s = record { sound = λ h. h; blames = λ r h. h; stays_closed = λ h. h }

  pub chained-Grows : {s t u : Session W} → Grows config s t → Grows config t u → Grows config s u
  chained-Grows g h = record {
    sound = λ x. h.sound (g.sound x);
    blames = λ r x. h.blames r (g.blames r x);
    stays_closed = λ x. h.stays_closed (g.stays_closed x);
  }

  -- A change of the world alone
  pub Grows-world : (s : Session W) (w : W) → Grows config s (record s { world = w })
  Grows-world s w = record {
    sound =
        λ h. record { within_quota = h.within_quota; is_dict = h.is_dict; is_known = h.is_known };
    blames = λ r h. h;
    stays_closed = λ h. h;
  }

-- A method that only grows the session, whether it returns or raises.
pub record Growing {W A : Type 0} (config : Config) (m : Exec (Session W) A) : Type 0 where
  pub at : (s : Session W) → Grows config s (m s).1

module _ {W A : Type 0} {config : Config} where
  pub Growing-pure : (a : A) → Growing {W = W} config (pure a)
  unfolding pure
  Growing-pure a = record { at = unchanged-Grows config }

  pub Growing-raise : (e : Raised) → Growing {W = W} {A = A} config (raise e)
  unfolding raise
  Growing-raise e = record { at = unchanged-Grows config }

  pub Growing-lift : (r : Result Raised A) → Growing {W = W} config (lift r)
  unfolding lift
  Growing-lift r = record { at = unchanged-Grows config }

  pub Growing-gets : (f : Session W → A) → Growing config (gets f)
  unfolding gets
  Growing-gets f = record { at = unchanged-Grows config }

  pub Growing-given : (o : Option A) → Growing {W = W} config (given o)
  unfolding given
  Growing-given none = record { at = unchanged-Grows config }
  Growing-given (some a) = record { at = unchanged-Grows config }

  pub Growing-attempt : (f : W → A × W) → Growing config (attempt f)
  unfolding attempt
  Growing-attempt f = record { at = λ s. Grows-world config s (f s.world).1 }

  pub Growing-look : (f : W → Result FileError A) → Growing config (look f)
  unfolding look
  Growing-look f = record { at = λ s. go s (f s.world) }
    where
      go : (s : Session W) (r : Result FileError A) → Grows config s (answer r s).1
      go s (ok a) = unchanged-Grows config s
      go s (err e) = unchanged-Grows config s

  pub Growing-act : (f : W → Result FileError A × W) → Growing config (act f)
  unfolding act in_world
  Growing-act f = record { at = λ s. go s (f s.world) }
    where
      go : (s : Session W) (r : Result FileError A × W) → Grows config s (in_world r s).1
      go s (ok a, w) = Grows-world config s w
      go s (err e, w) = Grows-world config s w

  pub Growing-if :
      (b : Bool) (m n : Exec (Session W) A)
      → Growing config m
      → Growing config n
      → Growing config (if b then m else n)
  Growing-if true m n km kn = km
  Growing-if false m n km kn = kn

  pub Growing-catch :
      (m : Exec (Session W) A) (handler : Raised → Exec (Session W) A)
      → Growing config m
      → ((e : Raised) → Growing config (handler e))
      → Growing config (catch m handler)
  unfolding catch
  Growing-catch m handler km kh = record {
    at = λ s. chained-Grows config (km.at s) (go (m s).0 (m s).1);
  }
    where
      go : (r : Result Raised A) (t : Session W) → Grows config t (handled handler r t).1
      go (ok a) t = unchanged-Grows config t
      go (err e) t = (kh e).at t

  pub Growing-finally :
      (m : Exec (Session W) A) (clean_up : Exec (Session W) (Unit {0}))
      → Growing config m
      → Growing config clean_up
      → Growing config (finally m clean_up)
  unfolding finally
  Growing-finally m clean_up km kc = record {
    at =
        λ s. chained-Grows config (km.at s) (go (m s).0 (m s).1 (clean_up (m s).1) (kc.at (m s).1));
  }
    where
      go :
          (r : Result Raised A) (t : Session W) (c : Result Raised (Unit {0}) × Session W)
          → Grows config t c.1
          → Grows config t (cleaned r c).1
      go r t (ok u, s) h = h
      go r t (err e, s) h = h

module _ {W : Type 0} {config : Config} where
  pub Growing-stop_if : (b : Bool) (e : Raised) → Growing {W = W} config (stop_if b e)
  unfolding stop_if
  Growing-stop_if true e = record { at = unchanged-Grows config }
  Growing-stop_if false e = record { at = unchanged-Grows config }

module _ {W A B : Type 0} {config : Config} where
  pub Growing-bind :
      (m : Exec (Session W) A) (next : A → Exec (Session W) B)
      → Growing config m
      → ((a : A) → Growing config (next a))
      → Growing config (m >>= next)
  unfolding ◌>>=◌
  Growing-bind m next km kn = record {
    at = λ s. chained-Grows config (km.at s) (go (m s).0 (m s).1);
  }
    where
      go : (r : Result Raised A) (t : Session W) → Grows config t (onwards next r t).1
      go (ok a) t = (kn a).at t
      go (err e) t = unchanged-Grows config t

pub ruleset growing = (
  Growing-pure, Growing-raise, Growing-lift, Growing-gets, Growing-given, Growing-attempt,
  Growing-look, Growing-act, Growing-if, Growing-catch, Growing-stop_if, Growing-bind,
)
