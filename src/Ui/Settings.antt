-- ===== src/Ui/Settings.antt =====
-- The settings dialog (src/ui/settings): a list of switches, of which one has the focus.
pub mod Laws
use anycode.Base.{
  ℕ, zero, suc, ◌+◌, ◌-◌, Bool, true, false, not, List, [], ◌∷◌, ◌==◌, leb, length, if◌then◌else◌,
}
use anycode.Args.Settings.{SettingsFieldSnapshot}

pub data SettingsDialogState : Type 0 where
  hidden : SettingsDialogState
  visible :
      (fields : List SettingsFieldSnapshot) (focused : ℕ) (dirty confirm_discard : Bool)
      → SettingsDialogState

pub data SettingsIntent : Type 0 where
  load : List SettingsFieldSnapshot → SettingsIntent
  close request_close move_up move_down toggle : SettingsIntent

abbrev pub is_visible : SettingsDialogState → Bool
is_visible hidden = false
is_visible _ = true

abbrev pub flip : SettingsFieldSnapshot → SettingsFieldSnapshot
flip field = record field { value = not field.value }

-- `if let Some(field) = fields.get_mut(focused) { field.value = !field.value }`
abbrev pub toggle_at : List SettingsFieldSnapshot → ℕ → List SettingsFieldSnapshot
toggle_at [] i = []
toggle_at (field ∷ fields) zero = flip field ∷ fields
toggle_at (field ∷ fields) (suc i) = field ∷ toggle_at fields i

-- `saturating_sub` is subtraction on the naturals.
abbrev focus_up : ℕ → ℕ → ℕ
focus_up n focused = if focused == 0 then n - 1 else focused - 1

abbrev focus_down : ℕ → ℕ → ℕ
focus_down n focused = if leb n (focused + 1) then 0 else focused + 1

-- The actor reduces the state once for each intent, and has no side effects.
unfoldable pub handle_intent : SettingsDialogState → SettingsIntent → SettingsDialogState
handle_intent s (load fields) = visible fields 0 false false
handle_intent s close = hidden
handle_intent (visible fields focused true false) request_close = visible fields focused true true
handle_intent s request_close = hidden
handle_intent (visible fields focused dirty _) move_up =
    visible fields (focus_up (length fields) focused) dirty false
handle_intent (visible fields focused dirty _) move_down =
    visible fields (focus_down (length fields) focused) dirty false
handle_intent (visible fields focused dirty _) toggle =
    visible (toggle_at fields focused) focused true false
handle_intent hidden _ = hidden

unfoldable pub run : SettingsDialogState → List SettingsIntent → SettingsDialogState
unfolding handle_intent
run s [] = s
run s (i ∷ is) = run (handle_intent s i) is
