-- ===== src/Session/Bundles.antt =====
-- The operations of shared/session_cas.py, and `close`, keep a session sound.
use defined_quant_components.Common.{
  ℕ, refl, Bool, true, false, Option, none, some, List, [], ◌∷◌, Result, ok, err,
}
use defined_quant_components.Utf8.{Text, Bytes}
use defined_quant_components.Managed.Json.{contains}
use defined_quant_components.Session.Failing.{Raised, refused, other}
use defined_quant_components.Session.References.{Kind, dataset, operation}
use defined_quant_components.Session.Holds.{unregister_session-holds}
use defined_quant_components.Session.Backend.{
  FilePath, FileError, already_exists, unsafe, os_failed, Backend, Config, Session, Source,
}
use defined_quant_components.Session.Bundle.{
  BundleMembers, member_loop, validated_member_mapping, verify_directories, file_loop, walk_loop,
  keyed_paths, read_loop, read_operation_bundle,
}
use defined_quant_components.Session.Operations.{
  dataset_at, source_dataset, reconcile_operation, load_operation_directory, blame_operation,
  load_operation, validated_manifest, already_published, write_members, settle_operation,
  publish_operation_stage, write_operation, store_operation, output_stage, publish_operation,
}
use defined_quant_components.Session.Closing.{
  valid_marker, expired, remove_session, remove_marked, remove_directory, give_lock_back,
  release_lock, remove_all, close_open, close,
}
use defined_quant_components.Session.Sound.{Grows, Growing, growing, Growing-finally}
use defined_quant_components.Session.Keeping.{Growing-modify, store_growing}
use defined_quant_components.Session.Methods.{Growing-load_dataset, Growing-or_unpublished}

module _ {W : Type 0} (be : Backend W) (config : Config) where
  Growing-member_loop :
      (keys : List Text) (l : BundleMembers) → Growing config (member_loop be config keys l)
  unfolding member_loop
  Growing-member_loop keys [] = search growing
  Growing-member_loop keys ((name, content) ∷ l) =
      let rest = λ (k : List Text). Growing-member_loop k l in search (growing, rest) depth 12

  Growing-validated_member_mapping :
      (members : BundleMembers) → Growing config (validated_member_mapping be config members)
  unfolding validated_member_mapping
  Growing-validated_member_mapping members = search (growing, Growing-member_loop) depth 12

  Growing-verify_directories : (l : List FilePath) → Growing config (verify_directories be config l)
  unfolding verify_directories
  Growing-verify_directories [] = search growing
  Growing-verify_directories (p ∷ l) = let rest = Growing-verify_directories l in search growing

  Growing-file_loop :
      (names keys paths : List Text) → Growing config (file_loop be config names keys paths)
  unfolding file_loop
  Growing-file_loop [] keys paths = search growing
  Growing-file_loop (name ∷ names) keys paths =
      let rest = λ (k : List Text) (p : List Text). Growing-file_loop names k p in
      search (growing, rest) depth 12

  Growing-walk_loop :
      (l : List (List FilePath × List Text)) (keys paths : List Text)
      → Growing config (walk_loop be config l keys paths)
  unfolding walk_loop
  Growing-walk_loop [] keys paths = search growing
  Growing-walk_loop ((directories, names) ∷ l) keys paths =
      let rest = λ (k : List Text) (p : List Text). Growing-walk_loop l k p in
      search (growing, Growing-verify_directories, Growing-file_loop, rest) depth 12

  Growing-keyed_paths : (l : List Text) → Growing config (keyed_paths be config l)
  unfolding keyed_paths
  Growing-keyed_paths [] = search growing
  Growing-keyed_paths (p ∷ l) = let rest = Growing-keyed_paths l in search growing depth 12

  Growing-read_loop :
      (root : FilePath) (remaining : ℕ) (l : List (Bytes × Text))
      → Growing config (read_loop be config root remaining l)
  unfolding read_loop
  Growing-read_loop root remaining [] = search growing
  Growing-read_loop root remaining ((b, name) ∷ l) =
      let rest = λ (n : ℕ). Growing-read_loop root n l in search (growing, rest) depth 12

  Growing-read_operation_bundle :
      (root : FilePath) → Growing config (read_operation_bundle be config root)
  unfolding read_operation_bundle
  Growing-read_operation_bundle root =
      search (growing, Growing-walk_loop, Growing-keyed_paths, Growing-read_loop) depth 24

  Growing-dataset_at : (kind : Kind) (ref : Text) → Growing config (dataset_at be config kind ref)
  unfolding dataset_at
  Growing-dataset_at operation ref = search growing
  Growing-dataset_at dataset ref = search (growing, Growing-load_dataset)

  Growing-source_dataset :
      (source : Option Source) → Growing config (source_dataset be config source)
  unfolding source_dataset
  Growing-source_dataset none = search growing
  Growing-source_dataset (some source) = Growing-dataset_at source.kind source.ref

  Growing-reconcile_operation :
      (r : be.OperationRecord) (root : FilePath)
      → Growing config (reconcile_operation be config r root)
  unfolding reconcile_operation
  Growing-reconcile_operation r root = search (growing, Growing-source_dataset) depth 12

  Growing-load_operation_directory :
      (directory : FilePath) (reference : Text)
      → Growing config (load_operation_directory be config directory reference)
  unfolding load_operation_directory
  Growing-load_operation_directory directory reference =
      search (growing, Growing-read_operation_bundle, Growing-reconcile_operation) depth 30

  Growing-blame_operation :
      (path : FilePath) (reference : Text) (e : Raised)
      → Growing config (blame_operation be config path reference e)
  Growing-blame_operation path reference (refused f) = search store_growing depth 12
  Growing-blame_operation path reference other = search store_growing

  pub Growing-load_operation :
      (reference : Text) → Growing config (load_operation be config reference)
  unfolding load_operation
  Growing-load_operation reference =
      search (store_growing, Growing-load_operation_directory, Growing-blame_operation)

  Growing-validated_manifest :
      (content : Bytes) → Growing config (validated_manifest be config content)
  unfolding validated_manifest
  Growing-validated_manifest content = search growing depth 12

  Growing-already_published :
      (path : FilePath) (reference : Text) (r : be.OperationRecord) (manifest : Bytes)
      (members : BundleMembers)
      → Growing config (already_published be config path reference r manifest members)
  unfolding already_published
  Growing-already_published path reference r manifest members =
      search (store_growing, Growing-load_operation_directory) depth 16

  Growing-write_members :
      (root : FilePath) (l : BundleMembers) → Growing config (write_members be config root l)
  unfolding write_members
  Growing-write_members root [] = search growing
  Growing-write_members root ((name, content) ∷ l) =
      let rest = Growing-write_members root l in search growing depth 12

  Growing-settle_operation :
      (path : FilePath) (reference : Text) (r : Result FileError (Unit {0}))
      → Growing config (settle_operation be config path reference r)
  unfolding settle_operation
  Growing-settle_operation path reference (ok u) = search growing
  Growing-settle_operation path reference (err already_exists) =
      search (store_growing, Growing-load_operation_directory)
  Growing-settle_operation path reference (err os_failed) = search growing
  Growing-settle_operation path reference (err unsafe) =
      search (store_growing, Growing-load_operation_directory) depth 12

  Growing-publish_operation_stage :
      (stage path : FilePath) (reference : Text) (size : ℕ)
      → Growing config (publish_operation_stage be config stage path reference size)
  unfolding publish_operation_stage
  Growing-publish_operation_stage stage path reference size =
      search (store_growing, Growing-settle_operation) depth 16

  Growing-write_operation :
      (stage path : FilePath) (reference : Text) (r : be.OperationRecord)
      (record_content manifest : Bytes) (members : BundleMembers) (size : ℕ)
      → Growing config
          (write_operation be config stage path reference r record_content manifest members size)
  unfolding write_operation
  Growing-write_operation stage path reference r record_content manifest members size =
      search
        (
          store_growing, Growing-write_members, Growing-load_operation_directory,
          Growing-already_published, Growing-publish_operation_stage,
        )
        depth 24

  Growing-store_operation :
      (path : FilePath) (reference : Text) (r : be.OperationRecord)
      (record_content manifest : Bytes) (members : BundleMembers) (size : ℕ)
      → Growing config
          (store_operation be config path reference r record_content manifest members size)
  unfolding store_operation
  Growing-store_operation path reference r record_content manifest members size =
      search (store_growing, Growing-write_operation, Growing-or_unpublished) depth 16

  pub Growing-publish_operation :
      (unchecked : be.OperationRecord) (manifest : Bytes) (members : BundleMembers)
      → Growing config (publish_operation be config unchecked manifest members)
  unfolding publish_operation
  Growing-publish_operation unchecked manifest members =
      search
        (
          store_growing, Growing-or_unpublished, Growing-validated_manifest,
          Growing-validated_member_mapping, Growing-already_published, Growing-store_operation,
        )
        depth 40

  pub Growing-output_stage : Growing config (output_stage be config)
  unfolding output_stage
  Growing-output_stage = search store_growing

  expired-Grows : (s : Session W) → Grows config s (expired be config s)
  unfolding contains
  expired-Grows s = record {
    sound = λ h. record {
      within_quota = h.within_quota;
      is_dict = (unregister_session-holds s.scope config.session_id h.is_dict).0;
      is_known = λ r k. cc k;
    };
    blames = λ r h. h;
    stays_closed = λ h. refl;
  }

  unlocked-Grows : (s : Session W) (w : W) → Grows config s (record s { locked = false; world = w })
  unlocked-Grows s w = record {
    sound =
        λ h. record { within_quota = h.within_quota; is_dict = h.is_dict; is_known = h.is_known };
    blames = λ r h. h;
    stays_closed = λ h. h;
  }

  Growing-give_lock_back : Growing config (give_lock_back be config)
  unfolding give_lock_back
  Growing-give_lock_back =
      search (growing, Growing-modify, λ (s : Session W). unlocked-Grows s s.world)

  Growing-release_lock : Growing config (release_lock be config)
  unfolding release_lock
  Growing-release_lock = search (growing, Growing-give_lock_back)

  Growing-remove_session : (locked : Bool) → Growing config (remove_session be config locked)
  unfolding remove_session
  Growing-remove_session false = search growing
  Growing-remove_session true =
      search (growing, Growing-modify, λ (s : Session W). unlocked-Grows s s.world)

  Growing-remove_directory : Growing config (remove_directory be config)
  unfolding remove_directory remove_marked valid_marker
  Growing-remove_directory = search (growing, Growing-remove_session) depth 12

  pub Growing-remove_all : Growing config (remove_all be config)
  unfolding remove_all
  Growing-remove_all =
      search (growing, Growing-finally, Growing-release_lock, Growing-remove_directory) depth 12

  Growing-close_open : Growing config (close_open be config)
  unfolding close_open
  Growing-close_open = search (growing, Growing-modify, expired-Grows, Growing-remove_all)

  pub Growing-close : Growing config (close be config)
  unfolding close
  Growing-close = search (growing, Growing-close_open)
