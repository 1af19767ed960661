-- ===== src/Session/Store.antt =====
-- The steps that the methods of `SessionCas` share: references, quotas, stages and the quarantine.
use defined_quant_components.Common.{
  ℕ, zero, suc, ◌+◌, Bool, some, [], ◌∷◌, ◌++◌, Result, ok, err, ltb, if◌then◌else◌,
}
use defined_quant_components.Utf8.{Text}
use defined_quant_components.Managed.Json.{codes, Text-discrete, contains}
use defined_quant_components.Host.Codes.{HostFailureCode}
use defined_quant_components.Session.Failing.{Raised, other, refusal}
use defined_quant_components.Session.References.{Kind, dataset, operation, reference_parts}
use defined_quant_components.Session.Scope.{add, register, known_outside}
use defined_quant_components.Session.Backend.{
  FilePath, FileError, already_exists, unsafe, os_failed, Backend, Config, Session,
}
use defined_quant_components.Session.Exec.{
  Exec, pure, raise, lift, gets, modify, stop_if, catch, ◌>>=◌, ◌>>◌,
}

abbrev pub parent : Kind → Text
parent dataset = codes "datasets"
parent operation = codes "operations"

abbrev kind_name : Kind → Text
kind_name dataset = codes "dataset"
kind_name operation = codes "operation"

-- `path.name`, and `path.parent.name`
abbrev last : FilePath → Text
last [] = []
last (name ∷ []) = name
last (name ∷ p) = last p

abbrev last_but_one : FilePath → Text
last_but_one [] = []
last_but_one (name ∷ []) = []
last_but_one (name ∷ other_name ∷ []) = name
last_but_one (name ∷ p) = last_but_one p

module _ {W : Type 0} where
  -- A call of the file system, whose error is an exception.
  unfoldable pub in_world :
      {A : Type 0} → Result FileError A × W → Session W → Result Raised A × Session W
  in_world (ok a, w) s = (ok a, record s { world = w })
  in_world (err e, w) s = (err other, record s { world = w })

  unfoldable pub act : {A : Type 0} → (W → Result FileError A × W) → Exec (Session W) A
  unfolding in_world
  act f s = in_world (f s.world) s

  -- A question to the file system, which changes nothing.
  abbrev pub answer : {A : Type 0} → Result FileError A → Session W → Result Raised A × Session W
  answer (ok a) s = (ok a, s)
  answer (err e) s = (err other, s)

  unfoldable pub look : {A : Type 0} → (W → Result FileError A) → Exec (Session W) A
  look f s = answer (f s.world) s

  -- `except SecureFilesystemError: pass`
  abbrev pub unless_os_failed : Result FileError (Unit {0}) → Exec (Session W) (Unit {0})
  unless_os_failed (err os_failed) = raise other
  unless_os_failed r = pure tt

  -- A call of the file system, with its error as a value.
  unfoldable pub attempt : {A : Type 0} → (W → A × W) → Exec (Session W) A
  attempt f s = (ok (f s.world).0, record s { world = (f s.world).1 })

  -- The three changes of `_register` to a session
  abbrev pub registered : Config → Text → ℕ → Session W → Session W
  registered config reference size s = record s {
    references = add reference s.references;
    used_bytes = s.used_bytes + size;
    scope = register config.session_id reference s.scope;
  }

  -- The first change of `_quarantine`
  abbrev pub blamed : Text → Session W → Session W
  blamed reference s = record s { corrupt_references = add reference s.corrupt_references }

module _ {W : Type 0} (be : Backend W) (config : Config) where
  -- `_require_open`
  unfoldable pub require_open : Exec (Session W) (Unit {0})
  require_open = do
    closed ← gets (λ (s : Session W). s.closed)
    stop_if closed (refusal HostFailureCode.reference_not_found)

  -- `_destination`
  unfoldable pub destination : Text → Kind → Exec (Session W) FilePath
  destination reference expected = do
    parts ← lift (reference_parts reference (some expected))
    pure (config.directory ++ parent expected ∷ parts.1 ∷ [])

  -- `_reserve`
  unfoldable pub reserve : ℕ → Exec (Session W) (Unit {0})
  reserve size = do
    used ← gets (λ (s : Session W). s.used_bytes)
    stop_if (ltb config.limits.session_bytes (used + size)) (refusal HostFailureCode.cache_full)

  -- `_register`
  unfoldable pub register_reference : Text → ℕ → Exec (Session W) (Unit {0})
  register_reference reference size = do
    known ← gets (λ (s : Session W). contains Text-discrete s.references reference)
    if known then pure tt else (do reserve size; modify (registered config reference size))

  unfoldable pub is_corrupt : Text → Exec (Session W) Bool
  is_corrupt reference =
      gets (λ (s : Session W). contains Text-discrete s.corrupt_references reference)

  unfoldable pub is_held : Text → Exec (Session W) Bool
  is_held reference = gets (λ (s : Session W). contains Text-discrete s.references reference)

  -- The end of `_resolve` and of `encode_cursor`: a reference that this session does not hold
  unfoldable pub not_held : {A : Type 0} → Text → Exec (Session W) A
  not_held reference = do
    outside ← gets (λ (s : Session W). known_outside config.session_id reference s.scope)
    stop_if outside (refusal HostFailureCode.reference_scope_denied)
    raise (refusal HostFailureCode.reference_not_found)

  -- `_resolve`
  unfoldable pub resolve : Text → Kind → Exec (Session W) FilePath
  resolve reference expected = do
    require_open
    path ← destination reference expected
    corrupt ← is_corrupt reference
    stop_if corrupt (refusal HostFailureCode.record_corrupt)
    held ← is_held reference
    if held then pure path else not_held reference

  -- `_new_stage`, with the attempts that are left
  abbrev pub stage_outcome :
      FilePath → Exec (Session W) FilePath → Result FileError (Unit {0}) → Exec (Session W) FilePath
  stage_outcome stage again (ok u) = pure stage
  stage_outcome stage again (err already_exists) = again
  stage_outcome stage again (err unsafe) = raise other
  stage_outcome stage again (err os_failed) = raise other

  unfoldable pub stage_loop : Kind → ℕ → Exec (Session W) FilePath
  stage_loop kind zero = raise other
  stage_loop kind (suc n) = do
    suffix ← attempt be.token_hex
    let stage = config.directory ++ codes "staging" ∷ (kind_name kind ++ codes "-" ++ suffix) ∷ []
    created ← attempt (be.create_private_directory stage)
    stage_outcome stage (stage_loop kind n) created

  unfoldable pub new_stage : Kind → Exec (Session W) FilePath
  new_stage kind = stage_loop kind 100

  -- The end of `_quarantine`
  unfoldable pub set_aside : FilePath → Exec (Session W) (Unit {0})
  set_aside path = do
    suffix ← attempt be.token_hex
    let target =
        config.directory
        ++ codes "quarantine"
          ∷ (last_but_one path ++ codes "-" ++ last path ++ codes "-" ++ suffix)
          ∷ []
    moved ← attempt (be.publish_directory_no_replace path target)
    unless_os_failed moved

  unfoldable pub put_away_unlinked : FilePath → Exec (Session W) (Unit {0})
  unfolding set_aside
  put_away_unlinked path = do
    linked ← look (be.is_symlink path)
    if linked then pure tt else set_aside path

  unfoldable pub put_away : FilePath → Exec (Session W) (Unit {0})
  unfolding put_away_unlinked
  put_away path = do here ← look (be.exists path); if here then put_away_unlinked path else pure tt

  -- `_quarantine`
  unfoldable pub quarantine : FilePath → Text → Exec (Session W) (Unit {0})
  unfolding put_away
  quarantine path reference = do modify (blamed reference); put_away path

  -- `except Exception as exc: self._quarantine(…); raise _fail(HostFailureCode.RECORD_CORRUPT)`
  unfoldable pub or_corrupt :
      {A : Type 0} → FilePath → Text → Exec (Session W) A → Exec (Session W) A
  or_corrupt path reference m =
      catch m (λ e. do quarantine path reference; raise (refusal HostFailureCode.record_corrupt))

  -- `finally:` the stage is removed, if it is there
  unfoldable pub remove_stage : FilePath → Exec (Session W) (Unit {0})
  remove_stage stage = do removed ← attempt (be.remove_private_tree stage); unless_os_failed removed

  unfoldable pub without_stage : FilePath → Exec (Session W) (Unit {0})
  unfolding remove_stage
  without_stage stage = do
    here ← look (be.exists stage)
    if here then remove_stage stage else pure tt
