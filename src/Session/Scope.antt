-- ===== src/Session/Scope.antt =====
-- `SessionScopeRegistry` of shared/session_cas.py: which sessions of the process hold which reference.
-- The dictionary is the list of its items, and a set of sessions a list.
use defined_quant_components.Common.{
  ◌≡◌, Bool, true, false, not, List, [], ◌∷◌, ◌++◌, if◌then◌else◌,
}
use defined_quant_components.Utf8.{Text}
use defined_quant_components.Managed.Json.{Text-discrete, same, contains, all_distinct}

abbrev pub Registry : Type 0
Registry = List (Text × List Text)

-- `sessions.add(session_id)` and `sessions.discard(session_id)`
unfoldable pub add : Text → List Text → List Text
unfolding contains
add s l = if contains Text-discrete l s then l else l ++ s ∷ []

unfoldable pub discard : Text → List Text → List Text
discard s [] = []
discard s (t ∷ l) = if same Text-discrete t s then discard s l else t ∷ discard s l

-- `register`: the item of the reference is made, empty, where there is none
unfoldable pub register : Text → Text → Registry → Registry
unfolding add
register session_id reference [] = (reference, add session_id []) ∷ []
register session_id reference ((r, sessions) ∷ items) =
    if same Text-discrete r reference
    then (r, add session_id sessions) ∷ items
    else (r, sessions) ∷ register session_id reference items

-- `.get(reference, set())`
unfoldable pub sessions_of : Text → Registry → List Text
sessions_of reference [] = []
sessions_of reference ((r, sessions) ∷ items) =
    if same Text-discrete r reference then sessions else sessions_of reference items

abbrev pub is_empty : List Text → Bool
is_empty [] = true
is_empty (s ∷ l) = false

-- `known_outside`
unfoldable pub known_outside : Text → Text → Registry → Bool
unfolding sessions_of discard
known_outside session_id reference items =
    not (is_empty (discard session_id (sessions_of reference items)))

-- `unregister_session`: the item of a reference that no session holds any more goes
unfoldable pub unregister_session : Text → Registry → Registry
unfolding discard
unregister_session session_id [] = []
unregister_session session_id ((r, sessions) ∷ items) = elim (discard session_id sessions) [
  | [] ↦ unregister_session session_id items
  | s ∷ l ↦ (r, s ∷ l) ∷ unregister_session session_id items
]

-- A session holds a reference.
unfoldable pub holds : Registry → Text → Text → Bool
unfolding contains sessions_of
holds items session_id reference = contains Text-discrete (sessions_of reference items) session_id

abbrev pub references_of : Registry → List Text
references_of [] = []
references_of ((r, sessions) ∷ items) = r ∷ references_of items

-- A dictionary has each key once.
abbrev pub IsDict : Registry → Type 0
IsDict items = all_distinct Text-discrete (references_of items) ≡ true
