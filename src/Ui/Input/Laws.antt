-- ===== src/Ui/Input/Laws.antt =====
-- Input is passed on once and in order, whether it comes before or after the tool is ready.
use anycode.Base.{
  ℕ, ◌≡◌, refl, sym, ap, ◌∙◌, Bool, true, false, List, [], ◌∷◌, ◌++◌, append-nil, append_assoc,
  Bytes, All, arith,
}
use anycode.Ui.Pty.{
  PtyLifecycleState, pending, attached, ready, restarting, PtySideEffect, handle_intent,
}
use anycode.Ui.Input.{
  App, AppEvent, input, paste, attaches, outputs, restarts, detaches, bracketed, send_input,
  on_paste, attach_pty, on_pty_output, step, run,
}

-- The event does not start a restart.
abbrev pub KeepsPty : AppEvent → Type 0
KeepsPty (restarts _) = ⊥
KeepsPty detaches = ⊥
KeepsPty _ = Unit

-- What the user has typed or pasted.
abbrev pub inputs_of : AppEvent → List Bytes
inputs_of (input bytes) = bytes ∷ []
inputs_of (paste text) = bracketed text ∷ []
inputs_of _ = []

abbrev pub inputs : List AppEvent → List Bytes
inputs [] = []
inputs (e ∷ es) = inputs_of e ++ inputs es

-- What waits in the buffer.
abbrev waiting_in : PtyLifecycleState → List Bytes
waiting_in (pending buffer) = buffer
waiting_in (attached buffer) = buffer
waiting_in ready = []
waiting_in restarting = []

abbrev pub waiting : App → List Bytes
waiting app = waiting_in app.pty_store.state

-- The pseudo-terminal is there when the life cycle says so, and it is not being restarted.
abbrev pub HasPty : PtyLifecycleState → Bool → Type 0
HasPty (pending _) handle = Unit
HasPty (attached _) handle = handle ≡ true
HasPty ready handle = handle ≡ true
HasPty restarting handle = ⊥

abbrev at : PtyLifecycleState → List PtySideEffect → Bool → App
at s es handle = record { pty_store = record { state = s; side_effects = es }; pty_handle = handle }

-- The application with a life cycle and no side effect left over.
pub record IsRunning (app : App) : Type 0 where
  pub has_pty : HasPty app.pty_store.state app.pty_handle
  pub drained : app.pty_store.side_effects ≡ []

Kept : App → App × List Bytes → List Bytes → Type 0
Kept app after bs = IsRunning after.0 × (after.1 ++ waiting after.0 ≡ waiting app ++ bs)

send_input-Kept :
    (s : PtyLifecycleState) (handle : Bool) (es : List PtySideEffect) (bytes : Bytes)
    → HasPty s handle
    → es ≡ []
    → Kept (at s es handle) (send_input (at s es handle) bytes) (bytes ∷ [])
unfolding send_input handle_intent Kept
send_input-Kept (pending buffer) handle es bytes h d =
    (record { has_pty = tt; drained = refl }, refl)
send_input-Kept (attached buffer) handle es bytes h d =
    (record { has_pty = h; drained = refl }, refl)
send_input-Kept ready true es bytes h d = (record { has_pty = h; drained = d }, refl)
send_input-Kept ready false es bytes h d = cc
send_input-Kept restarting handle es bytes h d = absurd h

-- An event of a running application, whatever its life cycle.
step-Kept :
    (s : PtyLifecycleState) (handle : Bool) (es : List PtySideEffect) (e : AppEvent)
    → HasPty s handle
    → es ≡ []
    → KeepsPty e
    → Kept (at s es handle) (step (at s es handle) e) (inputs_of e)
unfolding step on_paste attach_pty on_pty_output handle_intent Kept
step-Kept s handle es (restarts sent) h d k = absurd k
step-Kept s handle es detaches h d k = absurd k
step-Kept restarting handle es e h d k = absurd h
step-Kept s handle es (input bytes) h d k = send_input-Kept s handle es bytes h d
step-Kept s handle es (paste text) h d k = send_input-Kept s handle es (bracketed text) h d
step-Kept (pending buffer) handle es attaches h d k =
    (record { has_pty = refl; drained = refl }, sym (append-nil buffer))
step-Kept (attached buffer) handle es attaches h d k =
    (record { has_pty = refl; drained = refl }, sym (append-nil buffer))
step-Kept ready handle es attaches h d k = (record { has_pty = refl; drained = refl }, refl)
step-Kept ready handle es (outputs hidden row) h d k = (record { has_pty = h; drained = d }, refl)
step-Kept (pending buffer) false es (outputs hidden row) h d k =
    (record { has_pty = tt; drained = d }, sym (append-nil buffer))
step-Kept (attached buffer) false es (outputs hidden row) h d k =
    (record { has_pty = h; drained = d }, sym (append-nil buffer))
step-Kept (pending buffer) true es (outputs false row) h d k =
    (record { has_pty = tt; drained = d }, sym (append-nil buffer))
step-Kept (attached buffer) true es (outputs false row) h d k =
    (record { has_pty = refl; drained = d }, sym (append-nil buffer))
step-Kept (pending buffer) true es (outputs true row) h d k = ground (arith, append-nil buffer)
step-Kept (attached []) true es (outputs true row) h d k = ground (arith)
step-Kept (attached (b ∷ bs)) true [] (outputs true row) h d k = ground (arith, append-nil (b ∷ bs))
step-Kept (attached (b ∷ bs)) true (x ∷ es) (outputs true row) h d k = cc

-- For an application that is running, while nothing restarts the tool: whatever the user types or
-- pastes, before the tool is attached, while it starts and after it is ready, is written to it once
-- and in order, up to what still waits in the buffer at the end.
pub run-inputs :
    (app : App) (es : List AppEvent)
    → IsRunning app
    → All KeepsPty es
    → IsRunning (run app es).0
      × ((run app es).1 ++ waiting (run app es).0 ≡ waiting app ++ inputs es)
unfolding run Kept
run-inputs app [] r h = (r, sym (append-nil (waiting app)))
run-inputs app (e ∷ es) r h =
    let s = app.pty_store in
    let (running, kept) =
      step-Kept s.state app.pty_handle s.side_effects e r.has_pty r.drained h.0 in
    let next = step app e in
    let (running', rest) = run-inputs next.0 es running h.1 in
    (
      running',
      append_assoc next.1 (run next.0 es).1 _
          ∙ ap (◌++◌ next.1) rest
          ∙ sym (append_assoc next.1 (waiting next.0) (inputs es))
          ∙ ap (λ bs. bs ++ inputs es) kept
          ∙ append_assoc (waiting app) (inputs_of e) (inputs es),
    )

-- The tool has been attached.
abbrev past_pending : PtyLifecycleState → Bool
past_pending (attached _) = true
past_pending ready = true
past_pending _ = false

abbrev is_started : App → Bool
is_started app = past_pending app.pty_store.state

-- A start-up: any events, the tool is attached, any events, the tool hides the cursor and draws.
abbrev pub startup : List AppEvent → List AppEvent → ℕ → List AppEvent
startup es fs row = es ++ attaches ∷ (fs ++ outputs true row ∷ [])
