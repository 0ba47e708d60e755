-- ===== src/Ui/Mvi.antt =====
-- The store of a feature (crates/mvi): an actor maps the scope and an intent to a new scope, and the
-- store drains the side effects after each intent. A reducer is a function of the state, so that
-- `std::mem::take` leaves nothing behind.
use anycode.Base.{List, [], ◌∷◌, ◌++◌}

pub record ActorScope (S E : Type 0) : Type 0 where
  pub state : S
  pub side_effects : List E

module _ {S E : Type 0} where
  abbrev pub reduce : ActorScope S E → (S → S) → ActorScope S E
  reduce scope f = record scope { state = f scope.state }

  abbrev pub side_effect : ActorScope S E → E → ActorScope S E
  side_effect scope effect = record scope { side_effects = scope.side_effects ++ effect ∷ [] }

  abbrev pub with_state : S → ActorScope S E
  with_state s = record { state = s; side_effects = [] }

  -- The store after an intent, and the side effects of the intent in their order: `dispatch` hands
  -- them to the callback, `dispatch_collect` returns them.
  abbrev pub dispatch_collect :
      {I : Type 0}
      → (ActorScope S E → I → ActorScope S E)
      → ActorScope S E
      → I
      → ActorScope S E × List E
  dispatch_collect handle_intent scope i =
      let after = handle_intent scope i in (record after { side_effects = [] }, after.side_effects)

  abbrev pub dispatch :
      {I : Type 0} → (ActorScope S E → I → ActorScope S E) → ActorScope S E → I → ActorScope S E
  dispatch handle_intent scope i = (dispatch_collect handle_intent scope i).0
