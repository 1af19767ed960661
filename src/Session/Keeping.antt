-- ===== src/Session/Keeping.antt =====
-- Every method of shared/session_cas.py keeps a session sound.
use defined_quant_components.Common.{
  ℕ, zero, suc, ◌+◌, ◌≡◌, refl, sym, ◌∙◌, inl, inr, Bool, true, false, ◌&&◌, ◌||◌, Result, ok, err,
  ltb, arith, Bool-cases,
}
use defined_quant_components.Utf8.{Text}
use defined_quant_components.Managed.Json.{Text-discrete, same, same_refl, contains}
use defined_quant_components.Session.References.{Kind}
use defined_quant_components.Session.Scope.{add, holds}
use defined_quant_components.Session.Holds.{contains-add, register-holds}
use defined_quant_components.Session.Backend.{
  FilePath, FileError, already_exists, unsafe, os_failed, Backend, Config, Session,
}
use defined_quant_components.Session.Exec.{Exec, pure, gets, modify, stop_if, ◌>>=◌}
use defined_quant_components.Session.Store.{
  require_open, destination, reserve, registered, register_reference, is_corrupt, is_held, not_held,
  resolve, stage_outcome, stage_loop, new_stage, blamed, set_aside, put_away_unlinked, put_away,
  quarantine, unless_os_failed, remove_stage, or_corrupt, without_stage,
}
use defined_quant_components.Session.Sound.{
  IsSound, Grows, unchanged-Grows, chained-Grows, Grows-world, Growing, growing, Growing-finally,
}

module _ {W : Type 0} {config : Config} where
  pub Growing-modify :
      (f : Session W → Session W)
      → ((s : Session W) → Grows config s (f s))
      → Growing config (modify f)
  unfolding modify
  Growing-modify f kf = record { at = kf }

  blamed-Grows : (reference : Text) (s : Session W) → Grows config s (blamed reference s)
  blamed-Grows reference s = record {
    sound =
        λ h. record { within_quota = h.within_quota; is_dict = h.is_dict; is_known = h.is_known };
    blames = λ r h. rw (contains-add reference r s.corrupt_references, h) (||-true _);
    stays_closed = λ h. h;
  }
    where
      ||-true : (b : Bool) → b || true ≡ true
      ||-true true = refl
      ||-true false = refl

module _ {W : Type 0} (be : Backend W) (config : Config) where
  registered-Grows :
      (reference : Text) (size : ℕ) (s : Session W)
      → ltb config.limits.session_bytes (s.used_bytes + size) ≡ false
      → Grows config s (registered config reference size s)
  registered-Grows reference size s fits = record {
    sound = λ h. record {
      within_quota = ground arith;
      is_dict = (register-holds s.scope config.session_id reference h.is_dict).0;
      is_known = λ r k.
          (register-holds s.scope config.session_id reference h.is_dict).1 config.session_id r
          ∙ known h r k;
    };
    blames = λ r h. h;
    stays_closed = λ h. h;
  }
    where
      known :
          IsSound config s
          → (r : Text) → contains Text-discrete (add reference s.references) r ≡ true
          → (same Text-discrete config.session_id config.session_id
                && same Text-discrete reference r)
              || holds s.scope config.session_id r
            ≡ true
      known h r k = elim (Bool-cases (same Text-discrete reference r)) [
        | inl this ↦ rw (this, same_refl Text-discrete config.session_id) refl
        | inr apart ↦
            rw (apart, same_refl Text-discrete config.session_id)
              (h.is_known r (rw apart at (sym (contains-add reference r s.references) ∙ k)))
      ]

  pub Growing-register_reference :
      (reference : Text) (size : ℕ) → Growing config (register_reference be config reference size)
  unfolding register_reference reserve ◌>>=◌ gets stop_if modify pure
  Growing-register_reference reference size = record {
    at = λ s. elim (Bool-cases (contains Text-discrete s.references reference)) [
      | inl known ↦ rw known (unchanged-Grows config s)
      | inr new ↦ elim (Bool-cases (ltb config.limits.session_bytes (s.used_bytes + size))) [
        | inl full ↦ rw (new, full) (unchanged-Grows config s)
        | inr fits ↦ rw (new, fits) (registered-Grows reference size s fits)
      ]
    ];
  }

  pub Growing-require_open : Growing config (require_open be config)
  unfolding require_open
  Growing-require_open = search growing

  pub Growing-destination :
      (reference : Text) (expected : Kind)
      → Growing config (destination be config reference expected)
  unfolding destination
  Growing-destination reference expected = search growing

  pub Growing-reserve : (size : ℕ) → Growing config (reserve be config size)
  unfolding reserve
  Growing-reserve size = search growing

  pub Growing-is_corrupt : (reference : Text) → Growing config (is_corrupt be config reference)
  unfolding is_corrupt
  Growing-is_corrupt reference = search growing

  pub Growing-is_held : (reference : Text) → Growing config (is_held be config reference)
  unfolding is_held
  Growing-is_held reference = search growing

  pub Growing-not_held :
      {A : Type 0} (reference : Text) → Growing {A = A} config (not_held be config reference)
  unfolding not_held
  Growing-not_held reference = search growing

  pub Growing-resolve :
      (reference : Text) (expected : Kind) → Growing config (resolve be config reference expected)
  unfolding resolve
  Growing-resolve reference expected =
      search
        (
          growing, Growing-require_open, Growing-destination, Growing-is_corrupt, Growing-is_held,
          Growing-not_held,
        )
        depth 12

  Growing-stage_outcome :
      (stage : FilePath) (again : Exec (Session W) FilePath) (r : Result FileError (Unit {0}))
      → Growing config again
      → Growing config (stage_outcome be config stage again r)
  Growing-stage_outcome stage again (ok u) k = search growing
  Growing-stage_outcome stage again (err already_exists) k = k
  Growing-stage_outcome stage again (err unsafe) k = search growing
  Growing-stage_outcome stage again (err os_failed) k = search growing

  Growing-unless_os_failed :
      (r : Result FileError (Unit {0})) → Growing {W = W} config (unless_os_failed r)
  Growing-unless_os_failed (ok u) = search growing
  Growing-unless_os_failed (err already_exists) = search growing
  Growing-unless_os_failed (err unsafe) = search growing
  Growing-unless_os_failed (err os_failed) = search growing

  Growing-stage_loop : (kind : Kind) (n : ℕ) → Growing config (stage_loop be config kind n)
  unfolding stage_loop
  Growing-stage_loop kind zero = search growing
  Growing-stage_loop kind (suc n) =
      let again = Growing-stage_loop kind n in search (growing, Growing-stage_outcome)

  pub Growing-new_stage : (kind : Kind) → Growing config (new_stage be config kind)
  unfolding new_stage
  Growing-new_stage kind = Growing-stage_loop kind 100

  Growing-set_aside : (path : FilePath) → Growing config (set_aside be config path)
  unfolding set_aside
  Growing-set_aside path = search (growing, Growing-unless_os_failed)

  Growing-put_away_unlinked : (path : FilePath) → Growing config (put_away_unlinked be config path)
  unfolding put_away_unlinked
  Growing-put_away_unlinked path = search (growing, Growing-set_aside)

  pub Growing-put_away : (path : FilePath) → Growing config (put_away be config path)
  unfolding put_away
  Growing-put_away path = search (growing, Growing-put_away_unlinked)

  pub Growing-quarantine :
      (path : FilePath) (reference : Text) → Growing config (quarantine be config path reference)
  unfolding quarantine
  Growing-quarantine path reference =
      search (growing, Growing-put_away, Growing-modify, blamed-Grows)

  pub Growing-or_corrupt :
      {A : Type 0} (path : FilePath) (reference : Text) (m : Exec (Session W) A)
      → Growing config m
      → Growing config (or_corrupt be config path reference m)
  unfolding or_corrupt
  Growing-or_corrupt path reference m k = search (growing, Growing-quarantine)

  Growing-remove_stage : (stage : FilePath) → Growing config (remove_stage be config stage)
  unfolding remove_stage
  Growing-remove_stage stage = search (growing, Growing-unless_os_failed)

  pub Growing-without_stage : (stage : FilePath) → Growing config (without_stage be config stage)
  unfolding without_stage
  Growing-without_stage stage = search (growing, Growing-remove_stage)

  pub ruleset store_growing = (
    growing, Growing-register_reference, Growing-require_open, Growing-destination, Growing-reserve,
    Growing-is_corrupt, Growing-is_held, Growing-not_held, Growing-resolve, Growing-new_stage,
    Growing-quarantine, Growing-or_corrupt, Growing-finally, Growing-without_stage,
  )
