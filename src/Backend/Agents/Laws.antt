-- ===== src/Backend/Agents/Laws.antt =====
-- The registry is a map from agents to backends.
use anycode.Base.{String, ◌≡◌, none, some, [], ◌∷◌, arith, str_eq, str_eq_iff, if◌then◌else◌}
use anycode.Backend.Agents.{AgentRegistry, lookup, remove, register}

pub lookup-remove :
    (r : AgentRegistry) (id j : String)
    → lookup (remove r id) j ≡ (if str_eq id j then none else lookup r j)
unfolding lookup remove
lookup-remove [] id j = ground arith
lookup-remove ((k, b) ∷ rest) id j =
    ground (arith, lookup-remove rest id j, str_eq_iff k id, str_eq_iff k j, str_eq_iff id j)

pub lookup-register :
    (r : AgentRegistry) (id backend j : String)
    → lookup (register r id backend) j ≡ (if str_eq id j then some backend else lookup r j)
unfolding lookup register
lookup-register r id backend j = ground (arith, lookup-remove r id j)

-- Registering an agent makes exactly its own lookup give that backend, removing it makes exactly its
-- own lookup fail, and every other agent keeps its backend; the order of two registrations matters
-- only for the same agent.
pub registry_lookups :
    (r : AgentRegistry) (id backend j : String)
    → (lookup (register r id backend) j ≡ (if str_eq id j then some backend else lookup r j))
      × (lookup (remove r id) j ≡ (if str_eq id j then none else lookup r j))
      × (lookup (remove (register r id backend) id) j ≡ lookup (remove r id) j)
registry_lookups r id backend j = (
  lookup-register r id backend j,
  lookup-remove r id j,
  ground (
    arith,
    lookup-remove (register r id backend) id j,
    lookup-register r id backend j,
    lookup-remove r id j,
  ),
)
