-- ===== src/Session/Calls.antt =====
-- Sequences of calls on one session of shared/session_cas.py, between which other sessions of the
-- process register references and close, and other processes change the world.
use defined_quant_components.Common.{
  ◌≡◌, refl, inl, inr, Bool, true, false, ◌||◌, Option, List, [], ◌∷◌, if◌then◌else◌, Bool-cases,
  ◌∙◌, arith,
}
use defined_quant_components.Utf8.{Text, Bytes}
use defined_quant_components.Managed.Json.{Text-discrete, same, contains}
use defined_quant_components.Canonical.Number.{ℤ}
use defined_quant_components.Session.Scope.{Registry, register, unregister_session, holds, IsDict}
use defined_quant_components.Session.Holds.{register-holds, unregister_session-holds}
use defined_quant_components.Session.Backend.{FilePath, Backend, Config, Session}
use defined_quant_components.Session.Store.{without_stage}
use defined_quant_components.Session.Keeping.{Growing-without_stage}
use defined_quant_components.Session.Datasets.{publish_dataset, load_dataset}
use defined_quant_components.Session.Bundle.{BundleMembers}
use defined_quant_components.Session.Operations.{publish_operation, load_operation, output_stage}
use defined_quant_components.Session.Cursors.{encode_cursor, encode_pending_cursor, decode_cursor}
use defined_quant_components.Session.Closing.{close}
use defined_quant_components.Session.Sound.{
  IsSound, Grows, unchanged-Grows, chained-Grows, Grows-world,
}
use defined_quant_components.Session.Methods.{
  Growing-publish_dataset, Growing-load_dataset, Growing-encode_cursor,
  Growing-encode_pending_cursor, Growing-decode_cursor,
}
use defined_quant_components.Session.Bundles.{
  Growing-publish_operation, Growing-load_operation, Growing-output_stage, Growing-close,
}

module _ {W : Type 0} (be : Backend W) where
  -- A call of a method; of `temporary_operation_output`, its beginning, which makes a stage, and its
  -- end, which removes it, with any calls between them; or what other sessions and processes do
  pub data Call : Type 0 where
    publishes_dataset : be.Payload → be.DatasetRecord → Call
    loads_dataset : Text → Call
    publishes_operation : be.OperationRecord → Bytes → BundleMembers → Call
    loads_operation : Text → Call
    encodes_cursor : Text → Text → Option Text → ℤ → Call
    encodes_pending_cursor : Text → Text → Option Text → ℤ → Call
    decodes_cursor : Text → Text → Text → Option Text → Call
    begins_output : Call
    ends_output : FilePath → Call
    closes : Call
    other_registers : Text → Text → Call
    other_closes : Text → Call
    world_changes : (W → W) → Call

  -- What another session does to the registry; its identifier is not that of this session.
  abbrev pub elsewhere : Config → Text → (Registry → Registry) → Session W → Session W
  elsewhere config session_id change s =
      if same Text-discrete session_id config.session_id
      then s
      else record s { scope = change s.scope }

  -- The session after a call, whether it returns or raises
  abbrev pub run_call : Config → Call → Session W → Session W
  run_call config (publishes_dataset payload r) s = (publish_dataset be config payload r s).1
  run_call config (loads_dataset reference) s = (load_dataset be config reference s).1
  run_call config (publishes_operation r manifest members) s =
      (publish_operation be config r manifest members s).1
  run_call config (loads_operation reference) s = (load_operation be config reference s).1
  run_call config (encodes_cursor reference view selector index) s =
      (encode_cursor be config reference view selector index s).1
  run_call config (encodes_pending_cursor reference view selector index) s =
      (encode_pending_cursor be config reference view selector index s).1
  run_call config (decodes_cursor token reference view selector) s =
      (decode_cursor be config token reference view selector s).1
  run_call config begins_output s = (output_stage be config s).1
  run_call config (ends_output stage) s = (without_stage be config stage s).1
  run_call config closes s = (close be config s).1
  run_call config (other_registers session_id reference) s =
      elsewhere config session_id (register session_id reference) s
  run_call config (other_closes session_id) s =
      elsewhere config session_id (unregister_session session_id) s
  run_call config (world_changes change) s = record s { world = change s.world }

  abbrev pub run_calls : Config → List Call → Session W → Session W
  run_calls config [] s = s
  run_calls config (c ∷ cs) s = run_calls config cs (run_call config c s)

  -- A change of the registry that leaves alone what a session holds.
  other-Grows :
      (config : Config) (session_id : Text) (change : Registry → Registry) (s : Session W)
      → (same Text-discrete session_id config.session_id ≡ false
          → IsDict s.scope
          → IsDict (change s.scope)
            × ((r : Text)
                → holds s.scope config.session_id r ≡ true
                → holds (change s.scope) config.session_id r ≡ true))
      → Grows config s (elsewhere config session_id change s)
  other-Grows config session_id change s keeps =
      elim (Bool-cases (same Text-discrete session_id config.session_id)) [
        | inl this ↦ rw this (unchanged-Grows config s)
        | inr other ↦ rw other (record {
          sound = λ h. record {
            within_quota = h.within_quota;
            is_dict = (keeps other h.is_dict).0;
            is_known = λ r k. (keeps other h.is_dict).1 r (h.is_known r k);
          };
          blames = λ r h. h;
          stays_closed = λ h. h;
        })
      ]

  ||-true : (b : Bool) → b || true ≡ true
  ||-true true = refl
  ||-true false = refl

  pub run_call-Grows :
      (config : Config) (c : Call) (s : Session W) → Grows config s (run_call config c s)
  run_call-Grows config (publishes_dataset payload r) s =
      (Growing-publish_dataset be config payload r).at s
  run_call-Grows config (loads_dataset reference) s =
      (Growing-load_dataset be config reference).at s
  run_call-Grows config (publishes_operation r manifest members) s =
      (Growing-publish_operation be config r manifest members).at s
  run_call-Grows config (loads_operation reference) s =
      (Growing-load_operation be config reference).at s
  run_call-Grows config (encodes_cursor reference view selector index) s =
      (Growing-encode_cursor be config reference view selector index).at s
  run_call-Grows config (encodes_pending_cursor reference view selector index) s =
      (Growing-encode_pending_cursor be config reference view selector index).at s
  run_call-Grows config (decodes_cursor token reference view selector) s =
      (Growing-decode_cursor be config token reference view selector).at s
  run_call-Grows config begins_output s = (Growing-output_stage be config).at s
  run_call-Grows config (ends_output stage) s = (Growing-without_stage be config stage).at s
  run_call-Grows config closes s = (Growing-close be config).at s
  run_call-Grows config (other_registers session_id reference) s =
      other-Grows config session_id (register session_id reference) s (λ other dict.
        let adds = register-holds s.scope session_id reference dict in
        (adds.0, λ r h. adds.1 config.session_id r ∙ rw h (||-true _)))
  run_call-Grows config (other_closes session_id) s =
      other-Grows config session_id (unregister_session session_id) s (λ other dict.
        let leaves = unregister_session-holds s.scope session_id dict in
        (leaves.0, λ r h. leaves.1 config.session_id r ∙ rw (other, h) refl))
  run_call-Grows config (world_changes change) s = Grows-world config s (change s.world)

  pub run_calls-Grows :
      (config : Config) (cs : List Call) (s : Session W) → Grows config s (run_calls config cs s)
  run_calls-Grows config [] s = unchanged-Grows config s
  run_calls-Grows config (c ∷ cs) s =
      chained-Grows config (run_call-Grows config c s)
        (run_calls-Grows config cs (run_call config c s))

  -- The session that `__init__` leaves, which holds its lock and no reference
  abbrev pub new_session : Registry → W → Session W
  new_session scope w = record {
    references = [];
    corrupt_references = [];
    used_bytes = 0;
    closed = false;
    locked = true;
    scope = scope;
    world = w;
  }

  -- After any calls on a new session, interleaved with what other sessions do to the registry and
  -- other processes to the world, and whether or not the calls raise: the bytes that the session
  -- counts are within its quota, the registry has each reference once, and it knows each reference
  -- that the session holds as held by it.
  pub run_calls-IsSound :
      (config : Config) (cs : List Call) (scope : Registry) (w : W)
      → IsDict scope
      → IsSound config (run_calls config cs (new_session scope w))
  unfolding contains
  run_calls-IsSound config cs scope w dict =
      (run_calls-Grows config cs (new_session scope w)).sound
        (record { within_quota = omega arith; is_dict = dict; is_known = λ r k. cc k })
