-- ===== src/Session/Memory.antt =====
-- A file system in memory, for the tests of Session: a list of files, in which a directory is there if
-- a file is below it. Records and payloads are their own bytes.
use defined_quant_components.Common.{
  ℕ, zero, suc, ◌+◌, Bool, true, false, ◌||◌, Option, none, some, List, [], ◌∷◌, ◌++◌, Result, ok,
  err, leb, length, if◌then◌else◌,
}
use defined_quant_components.Utf8.{Text, Bytes}
use defined_quant_components.Managed.Json.{codes, Text-discrete, same}
use defined_quant_components.Session.References.{dataset, operation, reference_to}
use defined_quant_components.Session.Backend.{FilePath, FileError, unsafe, Backend, Config}

abbrev pub Files : Type 0
Files = List (FilePath × Bytes)

-- The rest of a path below another.
abbrev pub below : FilePath → FilePath → Option FilePath
below [] p = some p
below (s ∷ d) [] = none
below (s ∷ d) (t ∷ p) = if same Text-discrete s t then below d p else none

abbrev is_below : FilePath → FilePath → Bool
is_below d p = elim (below d p) [ none ↦ false | some rest ↦ true ]

abbrev pub is_there : FilePath → Files → Bool
is_there d [] = false
is_there d ((p, content) ∷ w) = is_below d p || is_there d w

abbrev first_segment : Option FilePath → List Text
first_segment none = []
first_segment (some []) = []
first_segment (some (s ∷ p)) = s ∷ []

abbrev pub names_below : FilePath → Files → List Text
names_below d [] = []
names_below d ((p, content) ∷ w) = first_segment (below d p) ++ names_below d w

abbrev is_path : Option FilePath → Bool
is_path (some []) = true
is_path _ = false

abbrev pub content_of : FilePath → Files → Result FileError Bytes
content_of p [] = err unsafe
content_of p ((q, content) ∷ w) = if is_path (below p q) then ok content else content_of p w

abbrev moved : FilePath → FilePath → Option FilePath → FilePath
moved target p none = p
moved target p (some rest) = target ++ rest

abbrev pub move : FilePath → FilePath → Files → Files
move d target [] = []
move d target ((p, content) ∷ w) = (moved target p (below d p), content) ∷ move d target w

abbrev pub remove : FilePath → Files → Files
remove d [] = []
remove d ((p, content) ∷ w) = if is_below d p then remove d w else (p, content) ∷ remove d w

abbrev pub size_below : FilePath → Files → ℕ
size_below d [] = 0
size_below d ((p, content) ∷ w) =
    let rest = size_below d w in if is_below d p then length content + rest else rest

abbrev read : FilePath → ℕ → Files → Result FileError Bytes
read p maximum w = elim (content_of p w) [
  | err e ↦ err e
  | ok content ↦ if leb (length content) maximum then ok content else err unsafe
]

abbrev pub in_memory : Backend Files
in_memory = record {
  exists = λ p w. ok (is_there p w);
  is_symlink = λ p w. ok false;
  names = λ p w. (ok (names_below p w), w);
  verify_private_directory = λ p w. (ok tt, w);
  create_private_directory = λ p w. (ok tt, w);
  create_parents = λ p w. (ok tt, w);
  create_private_file = λ p content w. (ok tt, (p, content) ∷ w);
  read_private_file = λ p maximum w. (read p maximum w, w);
  publish_directory_no_replace = λ d target w. (ok tt, move d target w);
  remove_private_tree = λ d w. (ok tt, remove d w);
  remove_locked_session_tree = λ d w. (ok tt, remove d w);
  release_session_lock = λ w. (ok tt, w);
  private_tree_size = λ d w. (ok (size_below d w), w);
  walk = λ d w. (ok [], w);
  token_hex = λ w. (codes "0", w);
  valid_marker_content = λ content. true;
  Payload = Bytes;
  DatasetRecord = Text;
  OperationRecord = Text;
  Manifest = Bytes;
  validated_payload = λ p. some p;
  validated_record = λ r. some r;
  payload_fits = λ r p. true;
  payload_bytes = λ p. some p;
  record_bytes = λ r. some r;
  parse_payload = λ maximum b. some b;
  parse_record = λ maximum b. some b;
  dataset_reference = λ r. reference_to dataset r;
  validated_operation = λ r. some r;
  operation_bytes = λ r. some r;
  parse_operation = λ maximum b. some b;
  operation_reference = λ r. reference_to operation r;
  same_operation = λ r q. same Text-discrete r q;
  source = λ r. none;
  parse_manifest = λ b. some b;
  manifest_bytes = λ m. some m;
  reconcile_operation_record = λ r root used w. (some [], w);
  portable_member_key = λ name. some name;
  sha256_hex = λ b. b;
  sign = λ b. [];
  urlsafe_b64encode = λ b. b;
  urlsafe_b64decode = λ s. some s;
  dump_json = λ v. none;
  load_json = λ b. none;
}

abbrev pub hex_digits : ℕ → Text
hex_digits zero = []
hex_digits (suc n) = b'a' ∷ hex_digits n

abbrev pub digest : Text
digest = hex_digits 64

abbrev pub config : Config
config = record {
  session_id = codes "s1";
  directory = codes "state" ∷ codes "session-s1" ∷ [];
  limits = record {
    record_bytes = 100;
    dataset_payload_bytes = 10;
    operation_bundle_bytes = 10;
    session_bytes = 150;
  };
}
