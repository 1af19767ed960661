-- ===== src/Session/Operations.antt =====
-- `publish_operation`, `load_operation`, `_load_operation_directory`, `_reconcile_operation` and
-- `temporary_operation_output` of shared/session_cas.py.
use defined_quant_components.Common.{
  ℕ, ◌+◌, Bool, true, false, ◌||◌, not, Option, none, some, [], ◌∷◌, ◌++◌, Result, ok, err, ltb,
  ◌==◌, length, if◌then◌else◌,
}
use defined_quant_components.Utf8.{Text, Bytes}
use defined_quant_components.Managed.Json.{codes, Text-discrete, same}
use defined_quant_components.Host.Codes.{HostFailureCode}
use defined_quant_components.Session.Failing.{Raised, refused, other, fail, refusal}
use defined_quant_components.Session.References.{Kind, dataset, operation}
use defined_quant_components.Session.Backend.{
  FilePath, FileError, already_exists, unsafe, os_failed, Backend, Config, Session, Source,
}
use defined_quant_components.Session.Exec.{
  Exec, pure, raise, given, stop_if, catch, finally, ◌>>=◌, ◌>>◌,
}
use defined_quant_components.Session.Store.{
  act, attempt, look, require_open, destination, reserve, register_reference, is_corrupt, resolve,
  new_stage, quarantine, or_corrupt, without_stage,
}
use defined_quant_components.Session.Datasets.{
  same_names, encodes, limit_details, load_dataset, or_unpublished, publishable, record_json,
}
use defined_quant_components.Session.Bundle.{
  BundleMembers, manifest_json, same_members, total_length, validated_member_mapping,
  read_operation_bundle,
}

abbrev bundle : Text
bundle = codes "bundle"

abbrev pub is_record_corrupt : HostFailureCode → Bool
is_record_corrupt HostFailureCode.record_corrupt = true
is_record_corrupt _ = false

abbrev pub bundle_limit_name : Text
bundle_limit_name = codes "operation_bundle_bytes"

-- `joinpath(*name.split("/"))`: the text up to each slash is one segment
abbrev slash_cons : ℕ → FilePath → FilePath
slash_cons c [] = (c ∷ []) ∷ []
slash_cons c (s ∷ p) = (c ∷ s) ∷ p

unfoldable pub split_path : Text → FilePath
split_path [] = [] ∷ []
split_path (c ∷ s) = if c == b'/' then [] ∷ split_path s else slash_cons c (split_path s)

-- `path.parent`
abbrev parent_of : FilePath → FilePath
parent_of [] = []
parent_of (s ∷ []) = []
parent_of (s ∷ t ∷ p) = s ∷ parent_of (t ∷ p)

module _ {W : Type 0} (be : Backend W) (config : Config) where
  pub record StoredOperation : Type 0 where
    pub reference : Text
    pub stored_record : be.OperationRecord
    pub manifest : be.Manifest
    pub manifest_content : Bytes
    pub members : BundleMembers

  -- The dataset of `_reconcile_operation`: none without a source; a source that is an operation is a
  -- ValueError
  unfoldable pub dataset_at :
      Kind → Text → Exec (Session W) (Option (be.DatasetRecord × be.Payload))
  dataset_at operation ref = raise other
  dataset_at dataset ref = do
    stored ← load_dataset be config ref
    pure (some (stored.stored_record, stored.payload))

  unfoldable pub source_dataset :
      Option Source → Exec (Session W) (Option (be.DatasetRecord × be.Payload))
  unfolding dataset_at
  source_dataset none = pure none
  source_dataset (some source) = dataset_at source.kind source.ref

  -- `_reconcile_operation`
  unfoldable pub reconcile_operation : be.OperationRecord → FilePath → Exec (Session W) be.Manifest
  unfolding source_dataset
  reconcile_operation r root = do
    used ← source_dataset (be.source r)
    reconciled ← attempt (be.reconcile_operation_record r root used)
    given reconciled

  -- `_load_operation_directory`
  unfoldable pub load_operation_directory : FilePath → Text → Exec (Session W) StoredOperation
  unfolding reconcile_operation read_operation_bundle
  load_operation_directory directory reference = do
    act (be.verify_private_directory directory)
    names ← act (be.names directory)
    stop_if (not (same_names names (record_json ∷ bundle ∷ []))) other
    record_content ←
        act (be.read_private_file (directory ++ record_json ∷ []) config.limits.record_bytes)
    r ← given (be.parse_operation config.limits.record_bytes record_content)
    stop_if (not (encodes (be.operation_bytes r) record_content)) other
    stop_if (not (same Text-discrete (be.operation_reference r) reference)) other
    contents ← read_operation_bundle be config (directory ++ bundle ∷ [])
    manifest ← reconcile_operation r (directory ++ bundle ∷ [])
    pure (record {
      reference = reference;
      stored_record = r;
      manifest = manifest;
      manifest_content = contents.0;
      members = contents.1;
    })

  -- The handlers of `load_operation`
  abbrev pub blame_operation : FilePath → Text → Raised → Exec (Session W) StoredOperation
  blame_operation path reference (refused f) = do
    quarantine be config path reference
    stop_if (is_record_corrupt f.error.code) (refused f)
    raise (refusal HostFailureCode.record_corrupt)
  blame_operation path reference other = do
    quarantine be config path reference
    raise (refusal HostFailureCode.record_corrupt)

  -- `load_operation`
  unfoldable pub load_operation : Text → Exec (Session W) StoredOperation
  unfolding load_operation_directory
  load_operation reference = do
    path ← resolve be config reference operation
    catch (load_operation_directory path reference) (blame_operation path reference)

  -- `_validated_manifest`
  unfoldable pub validated_manifest : Bytes → Exec (Session W) be.Manifest
  unfolding encodes
  validated_manifest content = do
    manifest ← given (be.parse_manifest content)
    stop_if (not (encodes (be.manifest_bytes manifest) content)) other
    pure manifest

  -- The two places of `publish_operation` where the destination exists
  unfoldable pub already_published :
      FilePath → Text → be.OperationRecord → Bytes → BundleMembers → Exec (Session W) Text
  unfolding load_operation_directory
  already_published path reference r manifest members = do
    loaded ← or_corrupt be config path reference (load_operation_directory path reference)
    stop_if
        (not (be.same_operation loaded.stored_record r)
          || not (same Text-discrete loaded.manifest_content manifest)
          || not (same_members loaded.members members))
        (refusal HostFailureCode.record_publication_failed)
    size ← act (be.private_tree_size path)
    register_reference be config reference size
    pure loaded.reference

  -- The members, each written below the bundle's directory
  unfoldable pub write_members : FilePath → BundleMembers → Exec (Session W) (Unit {0})
  unfolding split_path
  write_members root [] = pure tt
  write_members root ((name, content) ∷ l) = do
    act (be.create_parents (parent_of (root ++ split_path name)))
    act (be.create_private_file (root ++ split_path name) content)
    write_members root l

  -- The end of `_publish_stage`: the destination was taken, and holds the same record or is corrupt.
  unfoldable pub settle_operation :
      FilePath → Text → Result FileError (Unit {0}) → Exec (Session W) (Unit {0})
  unfolding load_operation_directory
  settle_operation path reference (ok u) = pure tt
  settle_operation path reference (err already_exists) = do
    or_corrupt be config path reference (load_operation_directory path reference)
    pure tt
  settle_operation path reference (err os_failed) = raise other
  settle_operation path reference (err unsafe) = do
    here ← look (be.exists path)
    stop_if (not here) other
    or_corrupt be config path reference (load_operation_directory path reference)
    pure tt

  -- `_publish_stage(…, "operation")` and what follows it
  unfoldable pub publish_operation_stage : FilePath → FilePath → Text → ℕ → Exec (Session W) Text
  unfolding settle_operation
  publish_operation_stage stage path reference size = do
    published ← attempt (be.publish_directory_no_replace stage path)
    settle_operation path reference published
    register_reference be config reference size
    pure reference

  -- The `try` block of `publish_operation`, after its stage is made
  unfoldable pub write_operation :
      FilePath
      → FilePath
      → Text
      → be.OperationRecord
      → Bytes
      → Bytes
      → BundleMembers
      → ℕ
      → Exec (Session W) Text
  unfolding write_members load_operation_directory already_published publish_operation_stage
  write_operation stage path reference r record_content manifest members size = do
    act (be.create_private_file (stage ++ record_json ∷ []) record_content)
    act (be.create_private_directory (stage ++ bundle ∷ []))
    act (be.create_private_file (stage ++ bundle ∷ manifest_json ∷ []) manifest)
    write_members (stage ++ bundle ∷ []) members
    load_operation_directory stage reference
    here ← look (be.exists path)
    if here
        then already_published path reference r manifest members
        else publish_operation_stage stage path reference size

  unfoldable pub store_operation :
      FilePath
      → Text
      → be.OperationRecord
      → Bytes
      → Bytes
      → BundleMembers
      → ℕ
      → Exec (Session W) Text
  unfolding write_operation
  store_operation path reference r record_content manifest members size = do
    reserve be config size
    stage ← new_stage be config operation
    finally
        (catch (write_operation stage path reference r record_content manifest members size)
          (or_unpublished be config))
        (without_stage be config stage)

  -- `publish_operation`
  unfoldable pub publish_operation :
      be.OperationRecord → Bytes → BundleMembers → Exec (Session W) Text
  unfolding validated_manifest already_published store_operation
  publish_operation unchecked manifest given_members = do
    require_open be config
    r ← publishable be config (be.validated_operation unchecked)
    catch (validated_manifest manifest) (or_unpublished be config)
    members ← catch (validated_member_mapping be config given_members) (or_unpublished be config)
    record_content ← publishable be config (be.operation_bytes r)
    let bundle_size = length manifest + total_length members
    stop_if (ltb config.limits.operation_bundle_bytes bundle_size) (
        fail HostFailureCode.result_limit_exceeded
          (some (limit_details bundle_limit_name config.limits.operation_bundle_bytes bundle_size)))
    stop_if (ltb config.limits.record_bytes (length record_content))
        (refusal HostFailureCode.record_publication_failed)
    let reference = be.operation_reference r
    corrupt ← is_corrupt be config reference
    stop_if corrupt (refusal HostFailureCode.record_corrupt)
    path ← destination be config reference operation
    here ← look (be.exists path)
    if here
        then already_published path reference r manifest members
        else store_operation path reference r record_content manifest members
            (length record_content + bundle_size)

  -- `temporary_operation_output`, before the path is given to its caller
  unfoldable pub output_stage : Exec (Session W) FilePath
  output_stage = do require_open be config; new_stage be config operation

  -- `temporary_operation_output`, around what its caller does with the path
  unfoldable pub temporary_operation_output :
      {A : Type 0} → (FilePath → Exec (Session W) A) → Exec (Session W) A
  unfolding output_stage
  temporary_operation_output body = do
    stage ← output_stage
    finally (body (stage ++ bundle ∷ [])) (without_stage be config stage)
