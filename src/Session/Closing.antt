-- ===== src/Session/Closing.antt =====
-- `close` of shared/session_cas.py.
use defined_quant_components.Common.{
  Bool, true, false, [], ◌∷◌, ◌++◌, Result, ok, err, if◌then◌else◌,
}
use defined_quant_components.Utf8.{Text, Bytes}
use defined_quant_components.Managed.Json.{codes}
use defined_quant_components.Host.Codes.{HostFailureCode}
use defined_quant_components.Session.Failing.{refusal}
use defined_quant_components.Session.Scope.{unregister_session}
use defined_quant_components.Session.Backend.{FileError, Backend, Config, Session}
use defined_quant_components.Session.Exec.{
  Exec, pure, raise, gets, modify, catch, finally, ◌>>=◌, ◌>>◌,
}
use defined_quant_components.Session.Store.{act, attempt, look}

-- `_MARKER_NAME`
abbrev marker_name : Text
marker_name = codes ".defined-quant-session-v1"

module _ {W : Type 0} (be : Backend W) (config : Config) where
  abbrev is_marker : Result FileError Bytes → Bool
  is_marker (ok content) = be.valid_marker_content content
  is_marker (err e) = false

  -- `_valid_marker`
  unfoldable pub valid_marker : Exec (Session W) Bool
  valid_marker = do
    content ← attempt (be.read_private_file (config.directory ++ marker_name ∷ []) 1024)
    pure (is_marker content)

  -- The first changes of `close`, before the directory goes
  abbrev pub expired : Session W → Session W
  expired s = record s {
    closed = true;
    scope = unregister_session config.session_id s.scope;
    references = [];
  }

  -- The session gives its lock away, and removes the directory with it.
  unfoldable pub remove_session : Bool → Exec (Session W) (Unit {0})
  remove_session false = act (be.remove_private_tree config.directory)
  remove_session true = do
    modify (λ (s : Session W). record s { locked = false })
    act (be.remove_locked_session_tree config.directory)

  unfoldable pub remove_marked : Exec (Session W) (Unit {0})
  unfolding valid_marker remove_session
  remove_marked = do
    marked ← valid_marker
    locked ← gets (λ (s : Session W). s.locked)
    if marked then remove_session locked else pure tt

  -- The `try` block of `close`
  unfoldable pub remove_directory : Exec (Session W) (Unit {0})
  unfolding remove_marked
  remove_directory = do
    here ← look (be.exists config.directory)
    if here then remove_marked else pure tt

  -- `finally:` a lock that is left is released
  unfoldable pub give_lock_back : Exec (Session W) (Unit {0})
  give_lock_back = do
    act be.release_session_lock
    modify (λ (s : Session W). record s { locked = false })

  unfoldable pub release_lock : Exec (Session W) (Unit {0})
  unfolding give_lock_back
  release_lock = do
    locked ← gets (λ (s : Session W). s.locked)
    if locked then give_lock_back else pure tt

  -- The rest of `close`
  unfoldable pub remove_all : Exec (Session W) (Unit {0})
  unfolding remove_directory release_lock
  remove_all =
      finally
        (catch remove_directory (λ e. raise (refusal HostFailureCode.record_publication_failed)))
        release_lock

  unfoldable pub close_open : Exec (Session W) (Unit {0})
  unfolding remove_all
  close_open = do modify expired; remove_all

  -- `close`
  unfoldable pub close : Exec (Session W) (Unit {0})
  unfolding close_open
  close = do closed ← gets (λ (s : Session W). s.closed); if closed then pure tt else close_open
