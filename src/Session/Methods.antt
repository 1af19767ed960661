-- ===== src/Session/Methods.antt =====
-- Publishing, loading and the cursors of shared/session_cas.py keep a session sound.
use defined_quant_components.Common.{Option, none, some, Result, ok, err}
use defined_quant_components.Utf8.{Text, Bytes}
use defined_quant_components.Canonical.Number.{ℤ}
use defined_quant_components.Session.Failing.{Raised, refused, other}
use defined_quant_components.Session.Backend.{
  FilePath, FileError, already_exists, unsafe, os_failed, Backend, Config,
}
use defined_quant_components.Session.Datasets.{
  verified_dataset, load_dataset_directory, or_corrupt_unless_refused, load_dataset, settle_dataset,
  publish_dataset_stage, or_unpublished, write_dataset, already_stored, store_dataset,
  publish_dataset,
}
use defined_quant_components.Session.Cursors.{
  requested, encode_cursor_token, encode_cursor, encode_pending_cursor, read_cursor, invalid_cursor,
  decode_cursor,
}
use defined_quant_components.Session.Sound.{Growing, growing}
use defined_quant_components.Session.Keeping.{store_growing}

module _ {W : Type 0} (be : Backend W) (config : Config) where
  Growing-verified_dataset :
      (reference : Text) (record_content payload_content : Bytes) (r : be.DatasetRecord)
      (p : be.Payload)
      → Growing config (verified_dataset be config reference record_content payload_content r p)
  unfolding verified_dataset
  Growing-verified_dataset reference record_content payload_content r p = search growing depth 12

  Growing-load_dataset_directory :
      (directory : FilePath) (reference : Text)
      → Growing config (load_dataset_directory be config directory reference)
  unfolding load_dataset_directory
  Growing-load_dataset_directory directory reference =
      search (growing, Growing-verified_dataset) depth 20

  Growing-or_corrupt_unless_refused :
      (path : FilePath) (reference : Text) (e : Raised)
      → Growing config (or_corrupt_unless_refused be config path reference e)
  Growing-or_corrupt_unless_refused path reference (refused f) = search growing
  Growing-or_corrupt_unless_refused path reference other = search store_growing

  pub Growing-load_dataset : (reference : Text) → Growing config (load_dataset be config reference)
  unfolding load_dataset
  Growing-load_dataset reference =
      search (store_growing, Growing-load_dataset_directory, Growing-or_corrupt_unless_refused)

  Growing-settle_dataset :
      (path : FilePath) (reference : Text) (r : Result FileError (Unit {0}))
      → Growing config (settle_dataset be config path reference r)
  unfolding settle_dataset
  Growing-settle_dataset path reference (ok u) = search growing
  Growing-settle_dataset path reference (err already_exists) =
      search (store_growing, Growing-load_dataset_directory)
  Growing-settle_dataset path reference (err os_failed) = search growing
  Growing-settle_dataset path reference (err unsafe) =
      search (store_growing, Growing-load_dataset_directory) depth 12

  pub Growing-or_unpublished :
      {A : Type 0} (e : Raised) → Growing {A = A} config (or_unpublished be config e)
  Growing-or_unpublished (refused f) = search growing
  Growing-or_unpublished other = search growing

  Growing-write_dataset :
      (stage path : FilePath) (reference : Text) (record_content payload_content : Bytes)
      → Growing config (write_dataset be config stage path reference record_content payload_content)
  unfolding write_dataset publish_dataset_stage
  Growing-write_dataset stage path reference record_content payload_content =
      search (store_growing, Growing-load_dataset_directory, Growing-settle_dataset) depth 20

  Growing-already_stored :
      (path : FilePath) (reference : Text)
      → Growing config (already_stored be config path reference)
  unfolding already_stored
  Growing-already_stored path reference =
      search (store_growing, Growing-load_dataset_directory) depth 12

  Growing-store_dataset :
      (path : FilePath) (reference : Text) (record_content payload_content : Bytes)
      → Growing config (store_dataset be config path reference record_content payload_content)
  unfolding store_dataset
  Growing-store_dataset path reference record_content payload_content =
      search (store_growing, Growing-write_dataset, Growing-or_unpublished) depth 12

  pub Growing-publish_dataset :
      (payload : be.Payload) (unchecked : be.DatasetRecord)
      → Growing config (publish_dataset be config payload unchecked)
  unfolding publish_dataset
  Growing-publish_dataset payload unchecked =
      search (store_growing, Growing-or_unpublished, Growing-already_stored, Growing-store_dataset)
        depth 40

  Growing-encode_cursor_token :
      (reference view : Text) (selector : Option Text) (next_index : ℤ)
      → Growing {W = W} config (encode_cursor_token be reference view selector next_index)
  unfolding encode_cursor_token
  Growing-encode_cursor_token reference view selector next_index =
      search (growing, requested-Growing) depth 16
    where
      requested-Growing : {A : Type 0} (o : Option A) → Growing {W = W} config (requested be o)
      requested-Growing none = search growing
      requested-Growing (some a) = search growing

  pub Growing-encode_cursor :
      (reference view : Text) (selector : Option Text) (next_index : ℤ)
      → Growing config (encode_cursor be config reference view selector next_index)
  unfolding encode_cursor
  Growing-encode_cursor reference view selector next_index =
      search (store_growing, Growing-encode_cursor_token) depth 16

  pub Growing-encode_pending_cursor :
      (reference view : Text) (selector : Option Text) (next_index : ℤ)
      → Growing config (encode_pending_cursor be config reference view selector next_index)
  unfolding encode_pending_cursor
  Growing-encode_pending_cursor reference view selector next_index =
      search (store_growing, Growing-encode_cursor_token) depth 16

  pub Growing-decode_cursor :
      (token reference view : Text) (selector : Option Text)
      → Growing config (decode_cursor be config token reference view selector)
  unfolding decode_cursor read_cursor
  Growing-decode_cursor token reference view selector =
      search (store_growing, handler-Growing) depth 20
    where
      handler-Growing : (e : Raised) → Growing config (invalid_cursor be config e)
      handler-Growing (refused f) = search growing
      handler-Growing other = search growing
