-- ===== src/Ui/Pty.antt =====
-- The life cycle of the pseudo-terminal (src/ui/pty): input is kept until the tool is ready.
use anycode.Base.{Bool, true, false, List, [], ◌∷◌, ◌++◌, Bytes}
use anycode.Ui.Mvi.{ActorScope, reduce, side_effect}

pub data PtyLifecycleState : Type 0 where
  pending : List Bytes → PtyLifecycleState
  attached : List Bytes → PtyLifecycleState
  ready restarting : PtyLifecycleState

pub data PtyIntent : Type 0 where
  attach got_output detach spawn_failed : PtyIntent
  buffer_input : Bytes → PtyIntent

pub data PtySideEffect : Type 0 where
  flush_buffer : List Bytes → PtySideEffect

abbrev pub default : PtyLifecycleState
default = pending []

abbrev pub is_ready : PtyLifecycleState → Bool
is_ready ready = true
is_ready _ = false

abbrev pub is_buffering : PtyLifecycleState → Bool
is_buffering (pending _) = true
is_buffering (attached _) = true
is_buffering _ = false

abbrev pub is_attached : PtyLifecycleState → Bool
is_attached (attached _) = true
is_attached _ = false

abbrev pub is_restarting : PtyLifecycleState → Bool
is_restarting restarting = true
is_restarting _ = false

abbrev on_attach : PtyLifecycleState → PtyLifecycleState
on_attach (pending buffer) = attached buffer
on_attach (attached buffer) = attached buffer
on_attach restarting = attached []
on_attach ready = ready

abbrev on_output : PtyLifecycleState → PtyLifecycleState
on_output (attached buffer) = ready
on_output other = other

-- What the reducer of `GotOutput` takes out of the state.
abbrev extracted : PtyLifecycleState → List Bytes
extracted (attached buffer) = buffer
extracted _ = []

abbrev on_input : Bytes → PtyLifecycleState → PtyLifecycleState
on_input bytes (pending buffer) = pending (buffer ++ bytes ∷ [])
on_input bytes (attached buffer) = attached (buffer ++ bytes ∷ [])
on_input bytes ready = ready
on_input bytes restarting = restarting

abbrev on_spawn_failed : PtyLifecycleState → PtyLifecycleState
on_spawn_failed restarting = pending []
on_spawn_failed other = other

abbrev pub PtyScope : Type 0
PtyScope = ActorScope PtyLifecycleState PtySideEffect

abbrev flush : PtyScope → List Bytes → PtyScope
flush scope [] = scope
flush scope (b ∷ bs) = side_effect scope (flush_buffer (b ∷ bs))

unfoldable pub handle_intent : PtyScope → PtyIntent → PtyScope
handle_intent scope attach = reduce scope on_attach
handle_intent scope got_output = flush (reduce scope on_output) (extracted scope.state)
handle_intent scope (buffer_input bytes) = reduce scope (on_input bytes)
handle_intent scope detach = reduce scope (λ s. restarting)
handle_intent scope spawn_failed = reduce scope on_spawn_failed
