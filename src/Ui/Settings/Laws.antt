-- ===== src/Ui/Settings/Laws.antt =====
-- The focus of the settings dialog stays on a switch, and changes are not discarded by one key.
use anycode.Base.{
  ℕ, zero, suc, ◌<◌, ◌≡◌, ◌≢◌, refl, ◌⊎◌, inl, inr, Bool, true, false, List, [], ◌∷◌, ◌++◌, length,
  arith, ap, sym, ◌∙◌,
}
use anycode.Args.Settings.{SettingsFieldSnapshot}
use anycode.Ui.Settings.{
  SettingsDialogState, hidden, visible, SettingsIntent, load, close, request_close, move_up,
  move_down, toggle, toggle_at, handle_intent, run,
}

-- The focus is on a switch, or there is none; a warning is shown only over changes.
abbrev pub IsValid : SettingsDialogState → Type 0
IsValid hidden = Unit
IsValid (visible fields focused dirty confirm_discard) =
    ((focused < length fields) ⊎ ((length fields ≡ 0) × (focused ≡ 0)))
    × (confirm_discard ≡ true → dirty ≡ true)

length-toggle_at :
    (fields : List SettingsFieldSnapshot) (i : ℕ) → length (toggle_at fields i) ≡ length fields
length-toggle_at [] i = refl
length-toggle_at (f ∷ fs) zero = refl
length-toggle_at (f ∷ fs) (suc i) = ap suc (length-toggle_at fs i)

handle_intent-IsValid :
    (s : SettingsDialogState) (i : SettingsIntent) → IsValid s → IsValid (handle_intent s i)
unfolding handle_intent
handle_intent-IsValid s (load []) h = (inr (refl, refl), λ e. e)
handle_intent-IsValid s (load (f ∷ fs)) h = (inl (omega arith), λ e. e)
handle_intent-IsValid s close h = tt
handle_intent-IsValid (visible fields focused true true) request_close h = tt
handle_intent-IsValid (visible fields focused true false) request_close h = (h.0, λ e. refl)
handle_intent-IsValid (visible fields focused false c) request_close h = tt
handle_intent-IsValid hidden _ h = tt
handle_intent-IsValid (visible fields focused dirty c) move_up h = ground arith
handle_intent-IsValid (visible fields focused dirty c) move_down h = ground arith
handle_intent-IsValid (visible fields focused dirty c) toggle h =
    ground (arith, length-toggle_at fields focused)

-- Whatever the user does, the focus of the dialog stays on a switch, if there is one, and it warns of
-- changes that would be lost only while there are changes.
pub run-IsValid :
    (s : SettingsDialogState) (is : List SettingsIntent) → IsValid s → IsValid (run s is)
unfolding run
run-IsValid s [] h = h
run-IsValid s (i ∷ is) h = run-IsValid (handle_intent s i) is (handle_intent-IsValid s i h)

abbrev is_request : SettingsIntent → Bool
is_request request_close = true
is_request _ = false

run-append :
    (s : SettingsDialogState) (is js : List SettingsIntent) → run s (is ++ js) ≡ run (run s is) js
unfolding run
run-append s [] js = refl
run-append s (i ∷ is) js = run-append (handle_intent s i) is js

guarded :
    (s : SettingsDialogState) (i : SettingsIntent) (fields : List SettingsFieldSnapshot)
    (focused : ℕ) (c : Bool)
    → i ≢ request_close
    → handle_intent s i ≡ visible fields focused true c
    → handle_intent (handle_intent s i) request_close ≡ visible fields focused true true
unfolding handle_intent
guarded s request_close fields focused c ne e = absurd (ne refl)
guarded s i fields focused c ne e = ground arith

-- Changes are not discarded by one key: when the intents so far, the last of them another than a
-- request to close, leave the dialog open with changes, a request to close keeps it open with the
-- same switches and shows the warning.
pub run-guarded :
    (s : SettingsDialogState) (is : List SettingsIntent) (i : SettingsIntent)
    (fields : List SettingsFieldSnapshot) (focused : ℕ) (c : Bool)
    → i ≢ request_close
    → run s (is ++ i ∷ []) ≡ visible fields focused true c
    → run s (is ++ i ∷ request_close ∷ []) ≡ visible fields focused true true
unfolding run
run-guarded s is i fields focused c ne e =
    run-append s is (i ∷ request_close ∷ [])
    ∙ guarded (run s is) i fields focused c ne (sym (run-append s is (i ∷ [])) ∙ e)

toggle_at-twice :
    (fields : List SettingsFieldSnapshot) (i : ℕ) → toggle_at (toggle_at fields i) i ≡ fields
toggle_at-twice [] i = refl
toggle_at-twice (f ∷ fs) zero = ground arith
toggle_at-twice (f ∷ fs) (suc i) = ap (◌∷◌ f) (toggle_at-twice fs i)

-- On an open dialog with the focus on a switch, moving down and up again gives back the focus, so
-- does moving up and down again, and toggling twice gives back the switches; all of them withdraw
-- the warning, and toggling counts as a change.
pub run-inverse :
    (fields : List SettingsFieldSnapshot) (focused : ℕ) (dirty c : Bool)
    → focused < length fields
    → (run (visible fields focused dirty c) (move_down ∷ move_up ∷ [])
        ≡ visible fields focused dirty false)
      × (run (visible fields focused dirty c) (move_up ∷ move_down ∷ [])
          ≡ visible fields focused dirty false)
      × (run (visible fields focused dirty c) (toggle ∷ toggle ∷ [])
          ≡ visible fields focused true false)
unfolding run handle_intent
run-inverse fields focused dirty c lt = ground (arith, toggle_at-twice fields focused)
