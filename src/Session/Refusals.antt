-- ===== src/Session/Refusals.antt =====
-- What a session of shared/session_cas.py no longer serves: corrupt records, and after `close` anything.
use defined_quant_components.Common.{
  ◌≡◌, refl, inl, inr, Bool-cases, true, false, Option, none, some, List, Result, ok, err, ap, ◌∙◌,
}
use defined_quant_components.Utf8.{Text, Bytes}
use defined_quant_components.Canonical.{end}
use defined_quant_components.Canonical.Number.{ℤ}
use defined_quant_components.Managed.Json.{Text-discrete, contains}
use defined_quant_components.Host.Codes.{HostFailureCode}
use defined_quant_components.Host.Details.{details_valid, is_no_member}
use defined_quant_components.Session.Failing.{Raised, fail_lem, shows, refusal}
use defined_quant_components.Session.References.{
  Kind, dataset, operation, is_digest, is_expected, reference_to,
}
use defined_quant_components.Session.Parts.{reference_parts-reference_to}
use defined_quant_components.Session.Backend.{FilePath, Backend, Config, Session}
use defined_quant_components.Session.Exec.{Exec, pure, lift, gets, stop_if, ◌>>=◌, modify}
use defined_quant_components.Session.Store.{require_open, destination, is_corrupt, resolve}
use defined_quant_components.Session.Datasets.{publish_dataset, load_dataset}
use defined_quant_components.Session.Bundle.{BundleMembers}
use defined_quant_components.Session.Operations.{
  publish_operation, load_operation, output_stage, temporary_operation_output,
}
use defined_quant_components.Session.Cursors.{encode_cursor, encode_pending_cursor, decode_cursor}
use defined_quant_components.Session.Closing.{close, close_open, expired}
use defined_quant_components.Session.Bundles.{Growing-remove_all}
use defined_quant_components.Session.Calls.{Call, run_calls, run_calls-Grows}

not_found-shows :
    refusal HostFailureCode.reference_not_found ≡ shows HostFailureCode.reference_not_found end
unfolding details_valid is_no_member
not_found-shows = fail_lem HostFailureCode.reference_not_found none refl

corrupt-shows : refusal HostFailureCode.record_corrupt ≡ shows HostFailureCode.record_corrupt end
unfolding details_valid is_no_member
corrupt-shows = fail_lem HostFailureCode.record_corrupt none refl

module _ {W : Type 0} (be : Backend W) (config : Config) where
  -- A method whose first step raises raises that, and changes nothing more.
  bind-raises :
      {A B : Type 0} (m : Exec (Session W) A) (next : A → Exec (Session W) B) {s t : Session W}
      {e : Raised}
      → m s ≡ (err e, t)
      → (m >>= next) s ≡ (err e, t)
  unfolding ◌>>=◌
  bind-raises m next h = rw h refl

  require_open-closed :
      (s : Session W)
      → s.closed ≡ true
      → require_open be config s ≡ (err (shows HostFailureCode.reference_not_found end), s)
  unfolding require_open ◌>>=◌ gets stop_if
  require_open-closed s h = rw (h, not_found-shows) refl

  -- What a closed session answers: every reference is unknown, and nothing can be stored.
  abbrev pub HasExpired : Session W → Type 1
  HasExpired s =
      ((reference : Text)
        → load_dataset be config reference s
          ≡ (err (shows HostFailureCode.reference_not_found end), s))
      × ((reference : Text)
          → load_operation be config reference s
            ≡ (err (shows HostFailureCode.reference_not_found end), s))
      × ((p : be.Payload) (r : be.DatasetRecord)
          → publish_dataset be config p r s
            ≡ (err (shows HostFailureCode.reference_not_found end), s))
      × ((r : be.OperationRecord) (manifest : Bytes) (members : BundleMembers)
          → publish_operation be config r manifest members s
            ≡ (err (shows HostFailureCode.reference_not_found end), s))
      × ((reference view : Text) (selector : Option Text) (index : ℤ)
          → encode_cursor be config reference view selector index s
            ≡ (err (shows HostFailureCode.reference_not_found end), s))
      × ((reference view : Text) (selector : Option Text) (index : ℤ)
          → encode_pending_cursor be config reference view selector index s
            ≡ (err (shows HostFailureCode.reference_not_found end), s))
      × ((token reference view : Text) (selector : Option Text)
          → decode_cursor be config token reference view selector s
            ≡ (err (shows HostFailureCode.reference_not_found end), s))
      × ((A : Type 0) (body : FilePath → Exec (Session W) A)
          → temporary_operation_output be config body s
            ≡ (err (shows HostFailureCode.reference_not_found end), s))
      × (close be config s ≡ (ok tt, s))

  resolve-closed :
      (reference : Text) (kind : Kind) (s : Session W)
      → s.closed ≡ true
      → resolve be config reference kind s
        ≡ (err (shows HostFailureCode.reference_not_found end), s)
  unfolding resolve
  resolve-closed reference kind s h =
      bind-raises (require_open be config) _ (require_open-closed s h)

  output_stage-closed :
      (s : Session W)
      → s.closed ≡ true
      → output_stage be config s ≡ (err (shows HostFailureCode.reference_not_found end), s)
  unfolding output_stage
  output_stage-closed s h = bind-raises (require_open be config) _ (require_open-closed s h)

  close-closed : (s : Session W) → s.closed ≡ true → close be config s ≡ (ok tt, s)
  unfolding close ◌>>=◌ gets pure
  close-closed s h = rw h refl

  pub closed-HasExpired : (s : Session W) → s.closed ≡ true → HasExpired s
  unfolding load_dataset load_operation publish_dataset publish_operation encode_cursor
      encode_pending_cursor decode_cursor temporary_operation_output
  closed-HasExpired s h =
      let shut = require_open-closed s h in
      (
        λ reference.
            bind-raises (resolve be config reference dataset) _
              (resolve-closed reference dataset s h),
        λ reference.
            bind-raises (resolve be config reference operation) _
              (resolve-closed reference operation s h),
        λ p r. bind-raises (require_open be config) _ shut,
        λ r manifest members. bind-raises (require_open be config) _ shut,
        λ reference view selector index. bind-raises (require_open be config) _ shut,
        λ reference view selector index. bind-raises (require_open be config) _ shut,
        λ token reference view selector. bind-raises (require_open be config) _ shut,
        λ A body. bind-raises (output_stage be config) _ (output_stage-closed s h),
        close-closed s h,
      )

  -- What a session answers about a corrupt record.
  abbrev pub IsWithheld : Kind → Text → Session W → Type 0
  IsWithheld dataset reference s =
      load_dataset be config reference s ≡ (err (shows HostFailureCode.record_corrupt end), s)
  IsWithheld operation reference s =
      load_operation be config reference s ≡ (err (shows HostFailureCode.record_corrupt end), s)

  resolve-corrupt :
      (kind : Kind) (digest : Text) (s : Session W)
      → is_digest digest ≡ true
      → s.closed ≡ false
      → contains Text-discrete s.corrupt_references (reference_to kind digest) ≡ true
      → resolve be config (reference_to kind digest) kind s
        ≡ (err (shows HostFailureCode.record_corrupt end), s)
  unfolding resolve require_open destination is_corrupt ◌>>=◌ gets stop_if lift pure
  resolve-corrupt kind digest s valid still_open blamed =
      rw
        (
          still_open,
          reference_parts-reference_to kind digest (some kind) valid (expects kind),
          blamed,
          corrupt-shows,
        )
        refl
    where
      expects : (k : Kind) → is_expected (some k) k ≡ true
      expects dataset = refl
      expects operation = refl

  corrupt-IsWithheld :
      (kind : Kind) (digest : Text) (s : Session W)
      → is_digest digest ≡ true
      → s.closed ≡ false
      → contains Text-discrete s.corrupt_references (reference_to kind digest) ≡ true
      → IsWithheld kind (reference_to kind digest) s
  unfolding load_dataset load_operation
  corrupt-IsWithheld dataset digest s valid still_open blamed =
      bind-raises (resolve be config (reference_to dataset digest) dataset) _
        (resolve-corrupt dataset digest s valid still_open blamed)
  corrupt-IsWithheld operation digest s valid still_open blamed =
      bind-raises (resolve be config (reference_to operation digest) operation) _
        (resolve-corrupt operation digest s valid still_open blamed)

  encode_cursor-corrupt :
      (kind : Kind) (digest view : Text) (selector : Option Text) (index : ℤ) (s : Session W)
      → is_digest digest ≡ true
      → s.closed ≡ false
      → contains Text-discrete s.corrupt_references (reference_to kind digest) ≡ true
      → encode_cursor be config (reference_to kind digest) view selector index s
        ≡ (err (shows HostFailureCode.record_corrupt end), s)
  unfolding encode_cursor require_open is_corrupt ◌>>=◌ gets stop_if lift
  encode_cursor-corrupt kind digest view selector index s valid still_open blamed =
      rw
        (
          still_open,
          reference_parts-reference_to kind digest none valid refl,
          blamed,
          corrupt-shows,
        )
        refl

  -- If the session has found the record of a well-formed reference corrupt, then after any further
  -- calls, and whatever other sessions and processes do, as long as the session is open, loading the
  -- record and making a cursor into it raise the host failure `record_corrupt` and change nothing.
  pub run_calls-IsWithheld :
      (kind : Kind) (digest : Text) (s : Session W) (cs : List (Call be))
      → is_digest digest ≡ true
      → contains Text-discrete s.corrupt_references (reference_to kind digest) ≡ true
      → (run_calls be config cs s).closed ≡ false
      → IsWithheld kind (reference_to kind digest) (run_calls be config cs s)
        × ((view : Text) (selector : Option Text) (index : ℤ)
            → encode_cursor be config
                (reference_to kind digest)
                view
                selector
                index
                (run_calls be config cs s)
              ≡ (err (shows HostFailureCode.record_corrupt end), run_calls be config cs s))
  run_calls-IsWithheld kind digest s cs valid blamed still_open =
      let still = (run_calls-Grows be config cs s).blames (reference_to kind digest) blamed in
      (
        corrupt-IsWithheld kind digest (run_calls be config cs s) valid still_open still,
        λ view selector index.
            encode_cursor-corrupt kind digest view selector index (run_calls be config cs s) valid
              still_open still,
      )

  close-closes : (s : Session W) → (close be config s).1.closed ≡ true
  unfolding close close_open ◌>>=◌ gets pure modify
  close-closes s = elim (Bool-cases s.closed) [
    | inl shut ↦
        ap (λ (r : Result Raised (Unit {0}) × Session W). r.1.closed) (close-closed s shut) ∙ shut
    | inr still_open ↦
        rw (still_open, close)
          (((Growing-remove_all be config).at (expired be config s)).stays_closed refl)
  ]

  -- After `close`, whether it returns or raises, and after any further calls, the session is closed,
  -- every method but `close` raises the host failure `reference_not_found`, another `close` returns,
  -- and none of them changes the session.
  pub close-HasExpired :
      (s : Session W) (cs : List (Call be))
      → ((run_calls be config cs (close be config s).1).closed ≡ true)
        × HasExpired (run_calls be config cs (close be config s).1)
  close-HasExpired s cs =
      let later =
        (run_calls-Grows be config cs (close be config s).1).stays_closed (close-closes s) in
      (later, closed-HasExpired (run_calls be config cs (close be config s).1) later)
