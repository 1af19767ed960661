-- ===== src/Session/Datasets.antt =====
-- `publish_dataset`, `load_dataset` and `_load_dataset_directory` of shared/session_cas.py.
use defined_quant_components.Common.{
  ℕ, ◌+◌, Bool, true, false, ◌&&◌, ◌||◌, not, Option, none, some, List, [], ◌∷◌, ◌++◌, Result, ok,
  err, ltb, length, if◌then◌else◌,
}
use defined_quant_components.Utf8.{Text, Bytes}
use defined_quant_components.Canonical.{Value, Members}
use defined_quant_components.Canonical.Number.{pos}
use defined_quant_components.Managed.Json.{codes, Text-discrete, same, contains, object_members}
use defined_quant_components.Host.Codes.{HostFailureCode}
use defined_quant_components.Session.Failing.{Raised, refused, other, fail, refusal}
use defined_quant_components.Session.References.{dataset}
use defined_quant_components.Session.Backend.{
  FilePath, FileError, already_exists, unsafe, os_failed, Backend, Config, Session,
}
use defined_quant_components.Session.Exec.{
  Exec, pure, raise, given, stop_if, catch, finally, ◌>>=◌, ◌>>◌,
}
use defined_quant_components.Session.Store.{
  act, attempt, look, require_open, destination, reserve, register_reference, is_corrupt, resolve,
  new_stage, quarantine, or_corrupt, without_stage,
}

-- `{entry.name for entry in directory.iterdir()} == {…}`
abbrev pub all_in : List Text → List Text → Bool
all_in [] l = true
all_in (s ∷ k) l = contains Text-discrete l s && all_in k l

unfoldable pub same_names : List Text → List Text → Bool
same_names names expected = all_in names expected && all_in expected names

-- `len(payload_bytes) > …` raises, with the length
abbrev pub limit_details : Text → ℕ → ℕ → Members
limit_details name maximum actual = object_members (
    ("limit_name", Value.string name)
    ∷ ("maximum", Value.integer (pos maximum))
    ∷ ("actual", Value.integer (pos actual))
    ∷ [])

abbrev pub payload_limit_name : Text
payload_limit_name = codes "normalized_dataset_payload_bytes"

-- `cas_json_bytes(…) == content`, where encoding may raise
unfoldable pub encodes : Option Bytes → Bytes → Bool
unfolding same
encodes none content = false
encodes (some b) content = same Text-discrete b content

abbrev pub record_json : Text
record_json = codes "record.json"

abbrev payload_json : Text
payload_json = codes "payload.json"

module _ {W : Type 0} (be : Backend W) (config : Config) where
  pub record StoredDataset : Type 0 where
    pub reference : Text
    pub stored_record : be.DatasetRecord
    pub payload : be.Payload

  -- The checks of `_load_dataset_directory` on what it has read
  unfoldable pub verified_dataset :
      Text → Bytes → Bytes → be.DatasetRecord → be.Payload → Exec (Session W) StoredDataset
  unfolding encodes
  verified_dataset reference record_content payload_content r p = do
    stop_if
        (not (encodes (be.record_bytes r) record_content)
          || not (encodes (be.payload_bytes p) payload_content))
        other
    stop_if (not (same Text-discrete (be.dataset_reference r) reference)) other
    stop_if (not (be.payload_fits r p)) other
    pure (record { reference = reference; stored_record = r; payload = p })

  -- `_load_dataset_directory`
  unfoldable pub load_dataset_directory : FilePath → Text → Exec (Session W) StoredDataset
  unfolding verified_dataset
  load_dataset_directory directory reference = do
    act (be.verify_private_directory directory)
    names ← act (be.names directory)
    stop_if (not (same_names names (record_json ∷ payload_json ∷ []))) other
    record_content ←
        act (be.read_private_file (directory ++ record_json ∷ []) config.limits.record_bytes)
    payload_content ←
        act (
          be.read_private_file (directory ++ payload_json ∷ []) config.limits.dataset_payload_bytes)
    r ← given (be.parse_record config.limits.record_bytes record_content)
    p ← given (be.parse_payload config.limits.dataset_payload_bytes payload_content)
    verified_dataset reference record_content payload_content r p

  -- `load_dataset`: `_load_dataset_directory` raises no host failure
  abbrev pub or_corrupt_unless_refused : FilePath → Text → Raised → Exec (Session W) StoredDataset
  or_corrupt_unless_refused path reference (refused f) = raise (refused f)
  or_corrupt_unless_refused path reference other = do
    quarantine be config path reference
    raise (refusal HostFailureCode.record_corrupt)

  unfoldable pub load_dataset : Text → Exec (Session W) StoredDataset
  unfolding load_dataset_directory
  load_dataset reference = do
    path ← resolve be config reference dataset
    catch (load_dataset_directory path reference) (or_corrupt_unless_refused path reference)

  -- The end of `_publish_stage`: the destination was taken, and holds the same record or is corrupt.
  unfoldable pub settle_dataset :
      FilePath → Text → Result FileError (Unit {0}) → Exec (Session W) (Unit {0})
  unfolding load_dataset_directory
  settle_dataset path reference (ok u) = pure tt
  settle_dataset path reference (err already_exists) = do
    or_corrupt be config path reference (load_dataset_directory path reference)
    pure tt
  settle_dataset path reference (err os_failed) = raise other
  settle_dataset path reference (err unsafe) = do
    here ← look (be.exists path)
    stop_if (not here) other
    or_corrupt be config path reference (load_dataset_directory path reference)
    pure tt

  -- `_publish_stage(…, "dataset")`
  unfoldable pub publish_dataset_stage : FilePath → FilePath → Text → Exec (Session W) (Unit {0})
  unfolding settle_dataset
  publish_dataset_stage stage path reference = do
    published ← attempt (be.publish_directory_no_replace stage path)
    settle_dataset path reference published

  -- `except HostFailureException: raise` and `except Exception: raise _fail(…) from exc`
  abbrev pub or_unpublished : {A : Type 0} → Raised → Exec (Session W) A
  or_unpublished (refused f) = raise (refused f)
  or_unpublished other = raise (refusal HostFailureCode.record_publication_failed)

  -- The `try` block of `publish_dataset`, after its stage is made
  unfoldable pub write_dataset : FilePath → FilePath → Text → Bytes → Bytes → Exec (Session W) Text
  unfolding load_dataset_directory publish_dataset_stage
  write_dataset stage path reference record_content payload_content = do
    act (be.create_private_file (stage ++ record_json ∷ []) record_content)
    act (be.create_private_file (stage ++ payload_json ∷ []) payload_content)
    load_dataset_directory stage reference
    publish_dataset_stage stage path reference
    register_reference be config reference (length payload_content + length record_content)
    pure reference

  -- The end of `publish_dataset` where the destination exists
  unfoldable pub already_stored : FilePath → Text → Exec (Session W) Text
  unfolding load_dataset_directory
  already_stored path reference = do
    loaded ← or_corrupt be config path reference (load_dataset_directory path reference)
    size ← act (be.private_tree_size path)
    register_reference be config reference size
    pure loaded.reference

  -- The end where it does not
  unfoldable pub store_dataset : FilePath → Text → Bytes → Bytes → Exec (Session W) Text
  unfolding write_dataset
  store_dataset path reference record_content payload_content = do
    reserve be config (length payload_content + length record_content)
    stage ← new_stage be config dataset
    finally
        (catch (write_dataset stage path reference record_content payload_content) or_unpublished)
        (without_stage be config stage)

  -- A value that a model or an encoder refuses: `_fail(RECORD_PUBLICATION_FAILED) from exc`
  abbrev pub publishable : {A : Type 0} → Option A → Exec (Session W) A
  publishable o = catch (given o) or_unpublished

  -- `publish_dataset`
  unfoldable pub publish_dataset : be.Payload → be.DatasetRecord → Exec (Session W) Text
  unfolding already_stored store_dataset
  publish_dataset payload unchecked = do
    require_open be config
    p ← publishable (be.validated_payload payload)
    r ← publishable (be.validated_record unchecked)
    stop_if (not (be.payload_fits r p)) (refusal HostFailureCode.record_publication_failed)
    payload_content ← publishable (be.payload_bytes p)
    record_content ← publishable (be.record_bytes r)
    stop_if (ltb config.limits.dataset_payload_bytes (length payload_content)) (
        fail HostFailureCode.input_limit_exceeded (
          some (
            limit_details payload_limit_name config.limits.dataset_payload_bytes
              (length payload_content))))
    stop_if (ltb config.limits.record_bytes (length record_content))
        (refusal HostFailureCode.record_publication_failed)
    let reference = be.dataset_reference r
    corrupt ← is_corrupt be config reference
    stop_if corrupt (refusal HostFailureCode.record_corrupt)
    path ← destination be config reference dataset
    here ← look (be.exists path)
    if here
        then already_stored path reference
        else store_dataset path reference record_content payload_content
