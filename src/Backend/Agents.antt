-- ===== src/Backend/Agents.antt =====
-- `AgentRegistry` and `AgentBackendState` (src/backend/state.rs).
pub mod Laws
use anycode.Base.{
  String, ◌<>◌, Bool, true, false, Option, none, some, List, [], ◌∷◌, str_eq, if◌then◌else◌,
}

-- The hash map from an agent to its backend.
abbrev pub AgentRegistry : Type 0
AgentRegistry = List (String × String)

abbrev pub marker_prefix : String
marker_prefix = "⟨AC:"

abbrev pub marker_suffix : String
marker_suffix = "⟩"

unfoldable pub format_marker : String → String
format_marker id = marker_prefix <> (id <> marker_suffix)

abbrev pub new : AgentRegistry
new = []

unfoldable pub lookup : AgentRegistry → String → Option String
lookup [] id = none
lookup ((k, b) ∷ rest) id = if str_eq k id then some b else lookup rest id

unfoldable pub remove : AgentRegistry → String → AgentRegistry
remove [] id = []
remove ((k, b) ∷ rest) id =
    let others = remove rest id in if str_eq k id then others else (k, b) ∷ others

unfoldable pub register : AgentRegistry → String → String → AgentRegistry
unfolding remove
register r id backend = (id, backend) ∷ remove r id

abbrev pub is_empty : AgentRegistry → Bool
is_empty [] = true
is_empty (_ ∷ _) = false
