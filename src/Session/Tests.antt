-- ===== src/Session/Tests.antt =====
-- A session over files in memory: one dataset is stored, served, and found corrupt.
use native.Mathlib.Decide.{ℕ_discrete}
use defined_quant_components.Common.{
  ◌≡◌, ◌↔◌, refl, true, false, ◌&&◌, ◌||◌, not, Option, some, List, [], ◌∷◌, ◌++◌, ok, err,
}
use defined_quant_components.Utf8.{Text}
use defined_quant_components.Managed.Json.{codes, Text-discrete, same, contains, all_distinct}
use defined_quant_components.Canonical.{end}
use defined_quant_components.Host.Codes.{HostFailureCode}
use defined_quant_components.Session.Failing.{Raised, fail, shows}
use defined_quant_components.Session.References.{
  dataset, is_digest, is_expected, reference_parts, reference_to, version_details,
}
use defined_quant_components.Session.Parts.{reference_parts-issued}
use defined_quant_components.Session.Scope.{
  Registry, add, register, unregister_session, holds, known_outside, IsDict,
}
use defined_quant_components.Session.Backend.{Session}
use defined_quant_components.Session.Datasets.{
  publish_dataset, load_dataset, load_dataset_directory, same_names,
}
use defined_quant_components.Session.Exec.{
  ◌>>=◌, gets, stop_if, catch, given, lift, pure, finally, modify, raise,
}
use defined_quant_components.Session.Store.{
  require_open, is_corrupt, destination, resolve, reserve, new_stage, stage_loop, attempt, act,
  look, register_reference, without_stage,
}
use defined_quant_components.Session.Cursors.{encode_cursor}
use defined_quant_components.Session.Closing.{close}
use defined_quant_components.Canonical.Number.{ℤ}
use defined_quant_components.Session.Memory.{Files, in_memory, digest, config}
use defined_quant_components.Session.Holds.{
  register-holds, unregister_session-holds, known_outside-holds,
}
use defined_quant_components.Session.Sound.{IsSound}
use defined_quant_components.Session.Calls.{
  Call, publishes_dataset, loads_dataset, closes, other_registers, run_calls, new_session,
  run_calls-IsSound,
}
use defined_quant_components.Session.Refusals.{
  IsWithheld, HasExpired, run_calls-IsWithheld, close-HasExpired,
}
use defined_quant_components.Session.Served.{IsServed, load_dataset-IsServed}

abbrev reference : Text
reference = reference_to dataset digest

abbrev fresh : Session Files
fresh = new_session in_memory [] []

abbrev stored : Session Files
stored = (publish_dataset in_memory config (1 ∷ 2 ∷ 3 ∷ []) digest fresh).1

published : (publish_dataset in_memory config (1 ∷ 2 ∷ 3 ∷ []) digest fresh).0 ≡ ok reference
unfolding publish_dataset ◌>>=◌ require_open gets stop_if catch given is_corrupt contains
    destination lift reference_parts reference_to Text-discrete ℕ_discrete pure reserve new_stage
    attempt act finally load_dataset_directory register_reference same without_stage modify add
    register raise stage_loop same_names look
published = refl

used : stored.used_bytes ≡ 67
unfolding publish_dataset ◌>>=◌ require_open gets stop_if catch given is_corrupt contains
    destination lift reference_parts reference_to Text-discrete ℕ_discrete pure reserve new_stage
    attempt act finally load_dataset_directory register_reference same without_stage modify add
    register raise stage_loop same_names look
used = refl

abbrev calls : List (Call in_memory)
calls =
    publishes_dataset (1 ∷ 2 ∷ 3 ∷ []) digest
    ∷ loads_dataset reference
    ∷ other_registers (codes "s2") reference
    ∷ closes
    ∷ []

run_calls-IsSound_example : IsSound config (run_calls in_memory config calls fresh)
unfolding all_distinct
run_calls-IsSound_example = run_calls-IsSound in_memory config calls [] [] refl

-- A session that holds a record which it has found corrupt.
abbrev corrupted : Session Files
corrupted = record fresh { references = reference ∷ []; corrupt_references = reference ∷ [] }

abbrev loads : List (Call in_memory)
loads = loads_dataset reference ∷ []

digest_valid : is_digest digest ≡ true
unfolding is_digest
digest_valid = refl

reference_blamed : contains Text-discrete corrupted.corrupt_references reference ≡ true
unfolding contains same Text-discrete ℕ_discrete reference_to
reference_blamed = refl

still_open : (run_calls in_memory config loads corrupted).closed ≡ false
unfolding load_dataset resolve require_open destination is_corrupt ◌>>=◌ gets stop_if lift pure
    reference_parts reference_to same Text-discrete ℕ_discrete contains raise
still_open = refl

run_calls-IsWithheld_example :
    IsWithheld in_memory config dataset reference (run_calls in_memory config loads corrupted)
    × ((view : Text) (selector : Option Text) (index : ℤ)
        → encode_cursor in_memory config reference view selector index
            (run_calls in_memory config loads corrupted)
          ≡ (
            err (shows HostFailureCode.record_corrupt end),
            run_calls in_memory config loads corrupted,
          ))
run_calls-IsWithheld_example =
    run_calls-IsWithheld in_memory config dataset digest corrupted loads digest_valid
      reference_blamed still_open

close-HasExpired_example :
    ((run_calls in_memory config loads (close in_memory config stored).1).closed ≡ true)
    × HasExpired in_memory config
        (run_calls in_memory config loads (close in_memory config stored).1)
close-HasExpired_example = close-HasExpired in_memory config stored loads

load_dataset-IsServed_example :
    IsServed in_memory config reference stored (load_dataset in_memory config reference stored)
load_dataset-IsServed_example = load_dataset-IsServed in_memory config reference stored

reference_parts-issued_example :
    (reference_parts reference (some dataset) ≡ ok (dataset, digest)) ↔ (
      (reference ≡ reference_to dataset digest)
      × (is_digest digest ≡ true)
      × (is_expected (some dataset) dataset ≡ true))
reference_parts-issued_example = reference_parts-issued reference (some dataset) dataset digest

abbrev later_version : Text
later_version = codes "dqds:v2:" ++ digest

abbrev unsupported : Raised
unsupported =
    fail HostFailureCode.unsupported_reference_version (some (version_details (codes "2")))

-- Two sessions that hold one reference.
abbrev shared_scope : Registry
shared_scope = (reference, codes "s1" ∷ codes "s2" ∷ []) ∷ []

register-holds_example :
    IsDict (register (codes "s3") reference shared_scope)
    × ((s r : Text)
        → holds (register (codes "s3") reference shared_scope) s r
          ≡ (same Text-discrete (codes "s3") s && same Text-discrete reference r)
            || holds shared_scope s r)
unfolding all_distinct
register-holds_example = register-holds shared_scope (codes "s3") reference refl

unregister_session-holds_example :
    IsDict (unregister_session (codes "s1") shared_scope)
    × ((s r : Text)
        → holds (unregister_session (codes "s1") shared_scope) s r
          ≡ not (same Text-discrete (codes "s1") s) && holds shared_scope s r)
unfolding all_distinct
unregister_session-holds_example = unregister_session-holds shared_scope (codes "s1") refl

known_outside-holds_example : (known_outside (codes "s1") reference shared_scope ≡ true) ↔ (
    (other : Text) × (same Text-discrete (codes "s1") other ≡ false)
    × (holds shared_scope other reference ≡ true))
known_outside-holds_example = known_outside-holds shared_scope (codes "s1") reference
