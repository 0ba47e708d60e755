-- ===== src/Ui/Input.antt =====
-- How `App` (src/ui/app.rs) passes the user's input on to the pseudo-terminal. The handle of the
-- pseudo-terminal is modelled by whether it is there; what is written to it is a result of each
-- method. Its emulator is a parameter of the method that asks it: whether the cursor is hidden, and
-- its row.
pub mod Laws
use anycode.Base.{
  ℕ, Bool, true, false, not, ◌||◌, Option, none, some, List, [], ◌∷◌, ◌++◌, Bytes, ◌==◌,
  if◌then◌else◌,
}
use anycode.Ui.Mvi.{dispatch, dispatch_collect, with_state}
use anycode.Ui.Pty.{
  PtyScope, PtySideEffect, flush_buffer, attach, got_output, detach, spawn_failed, buffer_input,
  is_ready, handle_intent, default,
}

pub record App : Type 0 where
  pub pty_store : PtyScope
  pub pty_handle : Bool

abbrev pub new : App
new = record { pty_store = with_state default; pty_handle = false }

abbrev pub is_pty_ready : App → Bool
is_pty_ready app = is_ready app.pty_store.state

-- What a call of `pty.send_input` for each of the inputs writes: nothing without a handle.
abbrev write : Bool → List Bytes → List Bytes
write false bs = []
write true bs = bs

unfoldable pub send_input : App → Bytes → App × List Bytes
unfolding handle_intent
send_input app bytes =
    if is_pty_ready app
    then (app, write app.pty_handle (bytes ∷ []))
    else (record app { pty_store = dispatch handle_intent app.pty_store (buffer_input bytes) }, [])

-- `"\x1b[200~"`
abbrev pub paste_start : Bytes
paste_start = 0x1b ∷ 0x5b ∷ 0x32 ∷ 0x30 ∷ 0x30 ∷ 0x7e ∷ []

-- `"\x1b[201~"`
abbrev pub paste_end : Bytes
paste_end = 0x1b ∷ 0x5b ∷ 0x32 ∷ 0x30 ∷ 0x31 ∷ 0x7e ∷ []

abbrev pub bracketed : Bytes → Bytes
bracketed text = paste_start ++ (text ++ paste_end)

unfoldable pub on_paste : App → Bytes → App × List Bytes
unfolding send_input
on_paste app text = send_input app (bracketed text)

unfoldable pub attach_pty : App → App
unfolding handle_intent
attach_pty app = record app {
  pty_handle = true;
  pty_store = dispatch handle_intent app.pty_store attach;
}

abbrev effect_bytes : PtySideEffect → List Bytes
effect_bytes (flush_buffer bs) = bs

abbrev effects_bytes : List PtySideEffect → List Bytes
effects_bytes [] = []
effects_bytes (e ∷ es) = effect_bytes e ++ effects_bytes es

-- Without a handle the cursor counts as visible, in row 0.
abbrev rendered : Bool → Bool → ℕ → Bool
rendered false cursor_hidden cursor_row = false
rendered true cursor_hidden cursor_row = not (not cursor_hidden || cursor_row == 0)

-- The new state, what is written, and whether the tool has just become ready.
unfoldable pub on_pty_output : Bool → ℕ → App → App × (List Bytes × Bool)
unfolding handle_intent
on_pty_output cursor_hidden cursor_row app =
    let after = dispatch_collect handle_intent app.pty_store got_output in
    if is_pty_ready app
    then (app, ([], false))
    else if not (rendered app.pty_handle cursor_hidden cursor_row)
    then (app, ([], false))
    else (record app { pty_store = after.0 }, (write app.pty_handle (effects_bytes after.1), true))

-- `sent` says whether the command reaches the other end.
unfoldable pub request_restart_claude : Bool → App → App
unfolding handle_intent
request_restart_claude sent app =
    let detached = dispatch handle_intent app.pty_store detach in
    record app {
      pty_store = if not sent then dispatch handle_intent detached spawn_failed else detached;
    }

unfoldable pub detach_pty : App → App
unfolding handle_intent
detach_pty app = record app {
  pty_handle = false;
  pty_store = dispatch handle_intent app.pty_store detach;
}

-- What happens to the application, one method at a time.
pub data AppEvent : Type 0 where
  input : Bytes → AppEvent
  paste : Bytes → AppEvent
  attaches : AppEvent
  outputs : Bool → ℕ → AppEvent
  restarts : Bool → AppEvent
  detaches : AppEvent

unfoldable pub step : App → AppEvent → App × List Bytes
unfolding send_input on_paste attach_pty on_pty_output request_restart_claude detach_pty
step app (input bytes) = send_input app bytes
step app (paste text) = on_paste app text
step app attaches = (attach_pty app, [])
step app (outputs hidden row) = let after = on_pty_output hidden row app in (after.0, after.1.0)
step app (restarts sent) = (request_restart_claude sent app, [])
step app detaches = (detach_pty app, [])

-- Any sequence of calls: the last state, and all that was written to the tool, in order.
unfoldable pub run : App → List AppEvent → App × List Bytes
unfolding step
run app [] = (app, [])
run app (e ∷ es) = let next = step app e in let rest = run next.0 es in (rest.0, next.1 ++ rest.1)
