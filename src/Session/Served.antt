-- ===== src/Session/Served.antt =====
-- What `load_dataset` of shared/session_cas.py serves.
use defined_quant_components.Common.{
  ◌≡◌, refl, ap, ◌∙◌, ◌⊎◌, inl, inr, Bool, true, false, not, none, some, [], ◌∷◌, ◌++◌, Result, ok,
  err, Bool-cases,
}
use defined_quant_components.Utf8.{Text, Bytes}
use defined_quant_components.Canonical.{end}
use defined_quant_components.Managed.Json.{Text-discrete, same→eq, same_refl, contains}
use defined_quant_components.Host.Codes.{HostFailureCode}
use defined_quant_components.Host.Details.{details_valid, is_no_member}
use defined_quant_components.Host.Failure.{HostFailure}
use defined_quant_components.Session.Failing.{Raised, refused, other, refusal, fail_lem, shows}
use defined_quant_components.Session.References.{Kind, dataset, reference_parts}
use defined_quant_components.Session.Scope.{known_outside}
use defined_quant_components.Session.Parts.{IsRefusal, reference_parts-IsRefusal}
use defined_quant_components.Session.Backend.{
  FileError, already_exists, unsafe, os_failed, Backend, Config, Session, FilePath,
}
use defined_quant_components.Session.Exec.{
  pure, raise, lift, gets, stop_if, catch, handled, ◌>>=◌, onwards, modify,
}
use defined_quant_components.Session.Store.{
  look, attempt, unless_os_failed, parent, put_away_unlinked, put_away, set_aside, require_open,
  destination, is_corrupt, is_held, not_held, resolve, quarantine, blamed,
}
use defined_quant_components.Session.Holds.{contains-add}
use defined_quant_components.Session.Keeping.{Growing-put_away}
use defined_quant_components.Session.Datasets.{
  StoredDataset, verified_dataset, load_dataset_directory, load_dataset, or_corrupt_unless_refused,
}
use defined_quant_components.Session.Yields.{
  IsYield, Yields, Yields-act, Yields-given, Yields-pure, Yields-stop_if, Yields-bind,
}

module _ {W : Type 0} (be : Backend W) (config : Config) where
  -- A dataset whose record is the one that the reference names, and that its payload fits.
  abbrev pub IsVerified : Text → StoredDataset be config → Type 0
  IsVerified reference stored =
      (stored.reference ≡ reference)
      × (be.dataset_reference stored.stored_record ≡ reference)
      × (be.payload_fits stored.stored_record stored.payload ≡ true)

  verified_dataset-IsVerified :
      (reference : Text) (record_content payload_content : Bytes) (r : be.DatasetRecord)
      (p : be.Payload)
      → Yields
          (IsVerified reference)
          (verified_dataset be config reference record_content payload_content r p)
  unfolding verified_dataset
  verified_dataset-IsVerified reference record_content payload_content r p =
      Yields-bind _ _ (Yields-stop_if _) (λ u encoded.
        Yields-bind _ _ (Yields-stop_if _) (λ v named. Yields-bind _ _ (Yields-stop_if _) (λ w fits.
          Yields-pure _ (
            refl,
            same→eq Text-discrete (be.dataset_reference r) reference (not-eq-false _ named),
            not-eq-false _ fits,
          ))))
    where
      not-eq-false : (b : Bool) → not b ≡ false → b ≡ true
      not-eq-false true h = refl
      not-eq-false false h = cc

  load_dataset_directory-IsVerified :
      (directory : FilePath) (reference : Text)
      → Yields (IsVerified reference) (load_dataset_directory be config directory reference)
  unfolding load_dataset_directory
  load_dataset_directory-IsVerified directory reference = Yields-bind _ _ (Yields-act _) (λ u _.
      Yields-bind _ _ (Yields-act _) (λ names _. Yields-bind _ _ (Yields-stop_if _) (λ v _.
        Yields-bind _ _ (Yields-act _) (λ record_content _.
          Yields-bind _ _ (Yields-act _) (λ payload_content _.
            Yields-bind _ _ (Yields-given _) (λ r _. Yields-bind _ _ (Yields-given _) (λ p _.
              verified_dataset-IsVerified reference record_content payload_content r p)))))))

  -- What `_resolve` finds: the session is open, holds the reference and has not found it corrupt.
  abbrev pub IsServing : Text → Session W → Type 0
  IsServing reference s =
      (s.closed ≡ false)
      × (contains Text-discrete s.references reference ≡ true)
      × (contains Text-discrete s.corrupt_references reference ≡ false)

  -- A host failure, raised without a change
  abbrev IsRaised : Session W → Result Raised FilePath × Session W → Type 0
  IsRaised s r = (f : HostFailure) × (r ≡ (err (refused f), s))

  abbrev Resolves : Text → Session W → Result Raised FilePath × Session W → Type 0
  Resolves reference s r =
      ((path : FilePath) × (r ≡ (ok path, s)) × IsServing reference s) ⊎ IsRaised s r

  Result-cases : {E A : Type 0} (r : Result E A) → ((a : A) × (r ≡ ok a)) ⊎ ((e : E) × (r ≡ err e))
  Result-cases (ok a) = inl (a, refl)
  Result-cases (err e) = inr (e, refl)

  plain :
      (code : HostFailureCode)
      → details_valid code end ≡ true
      → (f : HostFailure) × (refusal code ≡ refused f)
  plain code valid = (_, fail_lem code none valid)

  refused-by :
      (reference : Text) (e : Raised) → IsRefusal reference e → (f : HostFailure) × (e ≡ refused f)
  refused-by reference e (inl (version, later, h)) = (_, h)
  refused-by reference e (inr (h, never)) = (_, h)

  resolve-Resolves :
      (reference : Text) (kind : Kind) (s : Session W)
      → Resolves reference s (resolve be config reference kind s)
  unfolding resolve require_open destination is_corrupt is_held not_held ◌>>=◌ gets stop_if lift
      pure raise details_valid is_no_member
  resolve-Resolves reference kind s = elim (Bool-cases s.closed) [
    | inl shut ↦
        let f = plain HostFailureCode.reference_not_found refl in inr (f.0, rw (shut, f.1) refl)
    | inr still_open ↦ elim (Result-cases (reference_parts reference (some kind))) [
      | inr (e, wrong) ↦
          let f =
            refused-by reference e (reference_parts-IsRefusal reference (some kind) e wrong) in
          inr (f.0, rw (still_open, wrong, f.1) refl)
      | inl (parts, taken) ↦
          elim (Bool-cases (contains Text-discrete s.corrupt_references reference)) [
            | inl blamed ↦
                let f = plain HostFailureCode.record_corrupt refl in
                inr (f.0, rw (still_open, taken, blamed, f.1) refl)
            | inr clean ↦ elim (Bool-cases (contains Text-discrete s.references reference)) [
              | inl held ↦ inl (
                config.directory ++ parent kind ∷ parts.1 ∷ [],
                rw (still_open, taken, clean, held) refl,
                (still_open, held, clean),
              )
              | inr missing ↦
                  elim (Bool-cases (known_outside config.session_id reference s.scope)) [
                    | inl outside ↦
                        let f = plain HostFailureCode.reference_scope_denied refl in
                        inr (f.0, rw (still_open, taken, clean, missing, outside, f.1) refl)
                    | inr nowhere ↦
                        let f = plain HostFailureCode.reference_not_found refl in
                        inr (f.0, rw (still_open, taken, clean, missing, nowhere, f.1) refl)
                  ]
            ]
          ]
    ]
  ]

  -- The operating system fails when a directory is looked up or moved into the quarantine.
  abbrev pub OsFails : FilePath → Type 0
  OsFails path =
      ((w : W) × (e : FileError) × (be.exists path w ≡ err e))
      ⊎ (((w : W) × (e : FileError) × (be.is_symlink path w ≡ err e))
          ⊎ ((w : W) × (target : FilePath) × ((be.publish_directory_no_replace path target w).0
                ≡ err os_failed)))

  -- How a step of the quarantine ends.
  abbrev IsPutAway : FilePath → Result Raised (Unit {0}) → Type 0
  IsPutAway path (ok u) = Unit
  IsPutAway path (err e) = (e ≡ other) × OsFails path

  moved-IsPutAway :
      (path target : FilePath) (w : W) (t : Session W)
      → IsPutAway path (unless_os_failed (be.publish_directory_no_replace path target w).0 t).0
  unfolding pure raise
  moved-IsPutAway path target w t =
      go (be.publish_directory_no_replace path target w).0 (λ h. inr (inr (w, target, h)))
    where
      go :
          (r : Result FileError (Unit {0}))
          → (r ≡ err os_failed → OsFails path)
          → IsPutAway path (unless_os_failed r t).0
      go (ok u) h = tt
      go (err already_exists) h = tt
      go (err unsafe) h = tt
      go (err os_failed) h = (refl, h refl)

  set_aside-IsPutAway :
      (path : FilePath) (s : Session W) → IsPutAway path (set_aside be config path s).0
  unfolding set_aside ◌>>=◌ attempt
  set_aside-IsPutAway path s = moved-IsPutAway path _ _ _

  put_away-IsPutAway :
      (path : FilePath) (s : Session W) → IsPutAway path (put_away be config path s).0
  unfolding put_away put_away_unlinked ◌>>=◌ look pure
  put_away-IsPutAway path s = elim (Result-cases (be.exists path s.world)) [
    | inr (e, failed) ↦ rw failed (refl, inl (s.world, e, failed))
    | inl (false, gone) ↦ rw gone tt
    | inl (true, here) ↦ elim (Result-cases (be.is_symlink path s.world)) [
      | inr (e, failed) ↦ rw (here, failed) (refl, inr (inl (s.world, e, failed)))
      | inl (true, linked) ↦ rw (here, linked) tt
      | inl (false, plain_directory) ↦ rw (here, plain_directory) (set_aside-IsPutAway path s)
    ]
  ]

  -- A load that finds a corrupt record at a path: the reference is corrupt from then on.
  abbrev IsBlamed : {A : Type 0} → Text → FilePath → Result Raised A × Session W → Type 0
  IsBlamed reference path r =
      ((r.0 ≡ err (shows HostFailureCode.record_corrupt end)) ⊎ ((r.0 ≡ err other) × OsFails path))
      × (contains Text-discrete r.1.corrupt_references reference ≡ true)

  blame-IsBlamed :
      (path : FilePath) (reference : Text) (s : Session W)
      → IsBlamed reference path (or_corrupt_unless_refused be config path reference other s)
  unfolding quarantine ◌>>=◌ modify raise details_valid is_no_member
  blame-IsBlamed path reference s =
      go (put_away be config path (blamed reference s))
        (put_away-IsPutAway path (blamed reference s))
        (((Growing-put_away be config path).at (blamed reference s)).blames reference (
          contains-add reference reference s.corrupt_references
          ∙ rw (same_refl Text-discrete reference) refl))
    where
      go :
          (r : Result Raised (Unit {0}) × Session W)
          → IsPutAway path r.0
          → contains Text-discrete r.1.corrupt_references reference ≡ true
          → IsBlamed {A = StoredDataset be config} reference path
              (onwards (λ u. raise (refusal HostFailureCode.record_corrupt)) r.0 r.1)
      go (ok u, t) away blames = (
        inl (ap (λ (e : Raised). err e) (fail_lem HostFailureCode.record_corrupt none refl)),
        blames,
      )
      go (err e, t) (same_error, fails) blames =
          (inr (ap (λ (x : Raised). err x) same_error, fails), blames)

  -- How a load at a path ends: a verified dataset, or a corrupt record.
  abbrev Loads : Text → FilePath → Result Raised (StoredDataset be config) × Session W → Type 0
  Loads reference path r =
      ((stored : StoredDataset be config) × (r.0 ≡ ok stored) × IsVerified reference stored)
      ⊎ IsBlamed reference path r

  -- What a load of a reference gives: a verified dataset; the host failure `record_corrupt`, or an
  -- OSError of the file system in its place, where the reference is corrupt from then on; or another
  -- refusal, which changes nothing.
  abbrev pub IsServed :
      Text → Session W → Result Raised (StoredDataset be config) × Session W → Type 0
  IsServed reference s r =
      ((path : FilePath) × (resolve be config reference dataset s ≡ (ok path, s))
        × IsServing reference s
        × Loads reference path r)
      ⊎ ((f : HostFailure) × (r ≡ (err (refused f), s)))

  caught :
      (path : FilePath) (reference : Text) (t : Session W)
      (r : Result Raised (StoredDataset be config))
      → IsYield (IsVerified reference) r
      → Loads reference path (handled (or_corrupt_unless_refused be config path reference) r t)
  caught path reference t (ok stored) verified = inl (stored, refl, verified)
  caught path reference t (err (refused f)) clash = cc
  caught path reference t (err other) same_error = inr (blame-IsBlamed path reference t)

  -- `load_dataset` either serves a dataset that it has verified (its record is the one that the
  -- reference names, and the payload fits the record), from an open session that holds the reference
  -- and has not found it corrupt; or in such a session it raises, and the reference is corrupt from
  -- then on: it raises the host failure `record_corrupt`, or an exception that is no host failure,
  -- and this only if the operating system fails to look up the directory of the record or to move it
  -- into the quarantine; or it raises a host failure and changes nothing.
  pub load_dataset-IsServed :
      (reference : Text) (s : Session W) → IsServed reference s (load_dataset be config reference s)
  unfolding load_dataset ◌>>=◌ catch
  load_dataset-IsServed reference s = go (resolve-Resolves reference dataset s)
    where
      go :
          Resolves reference s (resolve be config reference dataset s)
          → IsServed reference s (load_dataset be config reference s)
      go (inl (path, found, serving)) = inl (
        path,
        found,
        serving,
        rw found (
            caught path reference (load_dataset_directory be config path reference s).1
              (load_dataset_directory be config path reference s).0
              ((load_dataset_directory-IsVerified path reference).at s)),
      )
      go (inr (f, raised)) = rw raised (inr (f, refl))
