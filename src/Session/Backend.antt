-- ===== src/Session/Backend.antt =====
-- What shared/session_cas.py asks of other parts: the secure file system of
-- shared/local_host_platform.py, the records of shared/data_records.py and
-- shared/operation_records.py, and the libraries behind cursors. `W` is the world that they act on.
use defined_quant_components.Common.{ℕ, ◌*◌, ◌&&◌, Bool, Option, List, Result, leb}
use defined_quant_components.Utf8.{Text, Bytes}
use defined_quant_components.Canonical.{Value}
use defined_quant_components.Session.References.{Kind}
use defined_quant_components.Session.Scope.{Registry}

-- A path by its segments below the root.
abbrev pub FilePath : Type 0
FilePath = List Text

-- `SecureFilesystemError`, with ALREADY_EXISTS or another code, or `os_failed` for an OSError
pub data FileError : Type 0 where
  already_exists unsafe os_failed : FileError

-- The binding of an operation's source: its kind, and the reference that it names.
pub record Source : Type 0 where
  pub kind : Kind
  pub ref : Text

pub record Backend (W : Type 0) : Type 1 where
  -- The file system; `names` is `iterdir`. `Path.exists` and `Path.is_symlink` may raise OSError.
  pub exists : FilePath → W → Result FileError Bool
  pub is_symlink : FilePath → W → Result FileError Bool
  pub names : FilePath → W → Result FileError (List Text) × W
  pub verify_private_directory : FilePath → W → Result FileError (Unit {0}) × W
  pub create_private_directory : FilePath → W → Result FileError (Unit {0}) × W
  pub create_parents : FilePath → W → Result FileError (Unit {0}) × W
  pub create_private_file : FilePath → Bytes → W → Result FileError (Unit {0}) × W
  pub read_private_file : FilePath → ℕ → W → Result FileError Bytes × W
  pub publish_directory_no_replace : FilePath → FilePath → W → Result FileError (Unit {0}) × W
  pub remove_private_tree : FilePath → W → Result FileError (Unit {0}) × W
  pub remove_locked_session_tree : FilePath → W → Result FileError (Unit {0}) × W
  pub release_session_lock : W → Result FileError (Unit {0}) × W
  pub private_tree_size : FilePath → W → Result FileError ℕ × W
  -- `os.walk`, for each directory with the paths of its directories and the names of its files below
  -- the root, both sorted
  pub walk : FilePath → W → Result FileError (List (List FilePath × List Text)) × W
  pub token_hex : W → Text × W
  -- `_valid_marker_content`, which compares the parsed text with `_MARKER_VALUE`
  pub valid_marker_content : Bytes → Bool
  -- The records: `none` where a model or an encoder raises.
  pub Payload : Type 0
  pub DatasetRecord : Type 0
  pub OperationRecord : Type 0
  pub Manifest : Type 0
  pub validated_payload : Payload → Option Payload
  pub validated_record : DatasetRecord → Option DatasetRecord
  pub payload_fits : DatasetRecord → Payload → Bool
  pub payload_bytes : Payload → Option Bytes
  pub record_bytes : DatasetRecord → Option Bytes
  pub parse_payload : ℕ → Bytes → Option Payload
  pub parse_record : ℕ → Bytes → Option DatasetRecord
  pub dataset_reference : DatasetRecord → Text
  pub validated_operation : OperationRecord → Option OperationRecord
  pub operation_bytes : OperationRecord → Option Bytes
  pub parse_operation : ℕ → Bytes → Option OperationRecord
  pub operation_reference : OperationRecord → Text
  pub same_operation : OperationRecord → OperationRecord → Bool
  pub source : OperationRecord → Option Source
  pub parse_manifest : Bytes → Option Manifest
  pub manifest_bytes : Manifest → Option Bytes
  pub reconcile_operation_record :
      OperationRecord → FilePath → Option (DatasetRecord × Payload) → W → Option Manifest × W
  pub portable_member_key : Text → Option Text
  -- Cursors: `hashlib.sha256(…).hexdigest()`, `hmac.digest` with the session's key, base64 without
  -- padding, `json.dumps` and `strict_json_loads`.
  pub sha256_hex : Bytes → Text
  pub sign : Bytes → Bytes
  pub urlsafe_b64encode : Bytes → Text
  pub urlsafe_b64decode : Text → Option Bytes
  pub dump_json : Value → Option Bytes
  pub load_json : Bytes → Option Value

-- `MAX_DATASET_PAYLOAD_BYTES`, `MAX_OPERATION_BUNDLE_BYTES`, `MAX_SESSION_BYTES`, `MAX_CURSOR_BYTES`,
-- and `MAX_RECORD_BYTES` of shared/data_records.py
abbrev pub max_dataset_payload_bytes : ℕ
max_dataset_payload_bytes = 512 * 1024

abbrev pub max_operation_bundle_bytes : ℕ
max_operation_bundle_bytes = 128 * 1024 * 1024

abbrev pub max_session_bytes : ℕ
max_session_bytes = 1024 * 1024 * 1024

abbrev pub max_cursor_bytes : ℕ
max_cursor_bytes = 512

abbrev pub max_record_bytes : ℕ
max_record_bytes = 2 * 1024 * 1024

pub record CasLimits : Type 0 where
  pub record_bytes : ℕ
  pub dataset_payload_bytes : ℕ
  pub operation_bundle_bytes : ℕ
  pub session_bytes : ℕ

abbrev within : ℕ → ℕ → Bool
within value maximum = leb 1 value && leb value maximum

-- `CasLimits.__post_init__` accepts
unfoldable pub valid_limits : CasLimits → Bool
valid_limits l =
    within l.record_bytes max_record_bytes
    && within l.dataset_payload_bytes max_dataset_payload_bytes
    && within l.operation_bundle_bytes max_operation_bundle_bytes
    && within l.session_bytes max_session_bytes

-- What a `SessionCas` keeps from its making.
pub record Config : Type 0 where
  pub session_id : Text
  pub directory : FilePath
  pub limits : CasLimits

-- What it changes, with the registry that the sessions of a process share. `locked` is whether it
-- holds its lock.
pub record Session (W : Type 0) : Type 0 where
  pub references : List Text
  pub corrupt_references : List Text
  pub used_bytes : ℕ
  pub closed : Bool
  pub locked : Bool
  pub scope : Registry
  pub world : W
