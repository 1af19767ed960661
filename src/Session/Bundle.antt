-- ===== src/Session/Bundle.antt =====
-- The members of an operation's bundle in shared/session_cas.py: `_validated_member_mapping` and
-- `_read_operation_bundle`. A dictionary of members is the list of its items.
use defined_quant_components.Common.{
  ℕ, ◌-◌, ◌+◌, Bool, true, false, ◌&&◌, not, List, [], ◌∷◌, ◌++◌, leb, ◌==◌, length, if◌then◌else◌,
}
use defined_quant_components.Utf8.{Text, Bytes, encode}
use defined_quant_components.Canonical.{sort_keyed}
use defined_quant_components.Managed.Json.{codes, Text-discrete, same, contains}
use defined_quant_components.Session.Failing.{other}
use defined_quant_components.Session.Backend.{FilePath, Backend, Config, Session}
use defined_quant_components.Session.Exec.{Exec, pure, given, stop_if, ◌>>=◌, ◌>>◌}
use defined_quant_components.Session.Store.{act}

abbrev pub BundleMembers : Type 0
BundleMembers = List (Text × Bytes)

-- `not 2 <= count <= 130`
abbrev pub wrong_count : ℕ → Bool
wrong_count count = not (leb 2 count && leb count 130)

abbrev pub manifest_json : Text
manifest_json = codes "manifest.json"

-- `dict(a) == b`, of dictionaries
unfoldable pub has_member : BundleMembers → Text → Bytes → Bool
has_member [] name content = false
has_member ((n, c) ∷ l) name content =
    if same Text-discrete n name then same Text-discrete c content else has_member l name content

unfoldable pub all_members : BundleMembers → BundleMembers → Bool
unfolding has_member
all_members [] l = true
all_members ((name, content) ∷ k) l = has_member l name content && all_members k l

unfoldable pub same_members : BundleMembers → BundleMembers → Bool
unfolding all_members
same_members k l = length k == length l && all_members k l

unfoldable pub total_length : BundleMembers → ℕ
total_length [] = 0
total_length ((name, content) ∷ l) = length content + total_length l

module _ {W : Type 0} (be : Backend W) (config : Config) where
  -- The loop of `_validated_member_mapping`, with the portable keys seen
  unfoldable pub member_loop : List Text → BundleMembers → Exec (Session W) BundleMembers
  member_loop keys [] = pure []
  member_loop keys ((name, content) ∷ l) = do
    key ← given (be.portable_member_key name)
    stop_if (contains Text-discrete keys key) other
    rest ← member_loop (key ∷ keys) l
    pure ((name, content) ∷ rest)

  -- `_validated_member_mapping`
  unfoldable pub validated_member_mapping : BundleMembers → Exec (Session W) BundleMembers
  unfolding member_loop
  validated_member_mapping members = do
    stop_if (wrong_count (length members)) other
    key ← given (be.portable_member_key manifest_json)
    member_loop (key ∷ []) members

  -- `_validate_owned_directory` of each directory
  unfoldable pub verify_directories : List FilePath → Exec (Session W) (Unit {0})
  verify_directories [] = pure tt
  verify_directories (p ∷ l) = do act (be.verify_private_directory p); verify_directories l

  -- The files of one directory, with the portable keys and the paths so far
  unfoldable pub file_loop :
      List Text → List Text → List Text → Exec (Session W) (List Text × List Text)
  file_loop [] keys paths = pure (keys, paths)
  file_loop (name ∷ names) keys paths = do
    key ← given (be.portable_member_key name)
    if same Text-discrete name manifest_json
        then file_loop names keys paths
        else (stop_if (contains Text-discrete keys key) other
            >> file_loop names (key ∷ keys) (paths ++ name ∷ []))

  unfoldable pub walk_loop :
      List (List FilePath × List Text) → List Text → List Text → Exec (Session W) (List Text)
  unfolding verify_directories file_loop
  walk_loop [] keys paths = pure paths
  walk_loop ((directories, names) ∷ l) keys paths = do
    verify_directories directories
    seen ← file_loop names keys paths
    walk_loop l seen.0 seen.1

  -- `sorted(paths, key=str.encode)`
  unfoldable pub keyed_paths : List Text → Exec (Session W) (List (Bytes × Text))
  keyed_paths [] = pure []
  keyed_paths (p ∷ l) = do b ← given (encode p); rest ← keyed_paths l; pure ((b, p) ∷ rest)

  -- The reads, in that order, with the bytes that remain; a read gives no more than it is allowed.
  unfoldable pub read_loop : FilePath → ℕ → List (Bytes × Text) → Exec (Session W) BundleMembers
  read_loop root remaining [] = pure []
  read_loop root remaining ((b, name) ∷ l) = do
    content ← act (be.read_private_file (root ++ name ∷ []) remaining)
    rest ← read_loop root (remaining - length content) l
    pure ((name, content) ∷ rest)

  -- `_read_operation_bundle`
  unfoldable pub read_operation_bundle : FilePath → Exec (Session W) (Bytes × BundleMembers)
  unfolding walk_loop keyed_paths read_loop
  read_operation_bundle root = do
    act (be.verify_private_directory root)
    let remaining = config.limits.operation_bundle_bytes
    manifest ← act (be.read_private_file (root ++ manifest_json ∷ []) remaining)
    key ← given (be.portable_member_key manifest_json)
    found ← act (be.walk root)
    paths ← walk_loop found (key ∷ []) []
    stop_if (wrong_count (length paths)) other
    keyed ← keyed_paths paths
    members ← read_loop root (remaining - length manifest) (sort_keyed keyed)
    pure (manifest, members)
