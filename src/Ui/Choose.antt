-- ===== src/Ui/Choose.antt =====
-- How `App` (src/ui/app.rs) opens the dialog of the backends and what its choices ask the proxy for.
-- Sending a command is a parameter: `sent` says whether the command reaches the other end.
use anycode.Base.{
  ℕ, suc, ◌+◌, ◌-◌, ◌<◌, String, ◌≡◌, refl, ◌⊎◌, inl, inr, Bool, true, false, Option, none, some,
  List, [], ◌∷◌, ◌==◌, ltb, any, All, All-map, length, get_elem?, str_eq, str_eq_iff, arith,
  if◌then◌else◌, ◌>>=◌,
}
use anycode.Ui.BackendSwitch.{
  BackendSwitchIntent, open_dialog, close, next_section, move_up, move_down, hidden, run, IsValid,
  ValidIntent, run-IsValid,
}

-- src/ipc/types.rs
pub record BackendInfo : Type 0 where
  pub id : String
  pub display_name : String
  pub is_active : Bool
  pub is_configured : Bool
  pub base_url : String

-- `iter().position(p)`
abbrev pub position : (BackendInfo → Bool) → List BackendInfo → Option ℕ
position p [] = none
position p (b ∷ bs) = let rest = position p bs in if p b then some 0 else rest >>= λ i. some (i + 1)

abbrev active_backend_index : List BackendInfo → Option ℕ
active_backend_index bs = position (λ b. b.is_active) bs

abbrev or_zero : Option ℕ → ℕ
or_zero none = 0
or_zero (some i) = i

abbrev succ_or_zero : Option ℕ → ℕ
succ_or_zero none = 0
succ_or_zero (some i) = i + 1

unfoldable pub override_selection : List BackendInfo → Option String → ℕ
override_selection bs backend_id =
    succ_or_zero (backend_id >>= λ name. position (λ b. str_eq b.id name) bs)

-- The intent that `open_backend_switch_dialog` dispatches.
unfoldable pub open_backend_switch_dialog :
    List BackendInfo → Option String → Option String → BackendSwitchIntent
unfolding override_selection
open_backend_switch_dialog bs subagent teammate =
    open_dialog (or_zero (active_backend_index bs)) (override_selection bs subagent)
      (override_selection bs teammate) (length bs)

-- The backend that the command of an override asks for: the outer option is none when no command is
-- sent, the inner one when the override is cleared.
unfoldable pub confirm_override_backend : List BackendInfo → ℕ → Option (Option String)
confirm_override_backend bs selection =
    if selection == 0
    then some none
    else if ltb (selection - 1) (length bs)
    then some (get_elem? bs (selection - 1) >>= λ b. some b.id)
    else none

-- The backend of the command that is sent, and whether it was.
abbrev request_switch_backend_by_index : Bool → List BackendInfo → ℕ → Option String × Bool
request_switch_backend_by_index sent bs index = elim (get_elem? bs (index - 1)) [
  | none ↦ (none, false)
  | some b ↦ (some b.id, sent)
]

abbrev confirm_found : Bool → List BackendInfo → ℕ → Option BackendInfo → Option String × Bool
confirm_found sent bs index none = (none, false)
confirm_found sent bs index (some b) =
    if b.is_active then (none, true) else request_switch_backend_by_index sent bs (index + 1)

-- The backend of the command, and whether the dialog closes.
unfoldable pub confirm_active_backend : Bool → List BackendInfo → ℕ → Option String × Bool
confirm_active_backend sent bs index = confirm_found sent bs index (get_elem? bs index)

-- The override, unless its backend is not among those listed.
unfoldable pub listed : List BackendInfo → Option String → Option String
listed bs none = none
listed bs (some name) = if any (λ b. str_eq b.id name) bs then some name else none

Positioned : String → List BackendInfo → Option ℕ → Type 0
Positioned name bs none = any (λ b. str_eq b.id name) bs ≡ false
Positioned name bs (some i) =
    (any (λ b. str_eq b.id name) bs ≡ true)
    × (i < length bs)
    × ((get_elem? bs i >>= λ b. some b.id) ≡ some name)

position-Positioned :
    (name : String) (bs : List BackendInfo)
    → Positioned name bs (position (λ b. str_eq b.id name) bs)
unfolding Positioned
position-Positioned name [] = refl
position-Positioned name (b ∷ bs) =
    go (str_eq b.id name) refl (position (λ c. str_eq c.id name) bs) (position-Positioned name bs)
  where
    go :
        (t : Bool)
        → str_eq b.id name ≡ t
        → (o : Option ℕ) → Positioned name bs o
        → Positioned name (b ∷ bs) (if t then some 0 else o >>= λ i. some (i + 1))
    go true e o h = ground (arith, str_eq_iff b.id name)
    go false e none h = ground arith
    go false e (some i) h = ground arith

position-lt :
    (p : BackendInfo → Bool) (bs : List BackendInfo) (i : ℕ)
    → position p bs ≡ some i
    → i < length bs
position-lt p [] i e = cc
position-lt p (b ∷ bs) i e = go (p b) (position p bs) (λ j f. position-lt p bs j f) e
  where
    go :
        (t : Bool) (o : Option ℕ)
        → ((j : ℕ) → o ≡ some j → j < length bs)
        → (if t then some 0 else o >>= λ j. some (j + 1)) ≡ some i
        → i < suc (length bs)
    go true o h f = ground arith
    go false none h f = cc
    go false (some j) h f = ground (arith, h j refl)

-- Confirming the dialog's first choice for an override asks for the override that was in force, or
-- clears it when its backend is not listed any more.
pub confirm-override_selection :
    (bs : List BackendInfo) (override : Option String)
    → confirm_override_backend bs (override_selection bs override) ≡ some (listed bs override)
unfolding confirm_override_backend override_selection listed Positioned
confirm-override_selection bs none = refl
confirm-override_selection bs (some name) =
    go (position (λ b. str_eq b.id name) bs) (position-Positioned name bs)
  where
    go :
        (o : Option ℕ)
        → Positioned name bs o
        → confirm_override_backend bs (succ_or_zero o) ≡ some (listed bs (some name))
    go none h = ground arith
    go (some i) h = let e : i + 1 - 1 ≡ i = omega arith in ground (arith, e)

or_zero-valid :
    (bs : List BackendInfo) (p : BackendInfo → Bool)
    → (or_zero (position p bs) < length bs) ⊎ ((length bs ≡ 0) × (or_zero (position p bs) ≡ 0))
or_zero-valid [] p = inr (refl, refl)
or_zero-valid (b ∷ bs) p = go (position p (b ∷ bs)) (λ i. position-lt p (b ∷ bs) i)
  where
    go :
        (o : Option ℕ)
        → ((i : ℕ) → o ≡ some i → i < suc (length bs))
        → (or_zero o < suc (length bs)) ⊎ ((suc (length bs) ≡ 0) × (or_zero o ≡ 0))
    go none h = inl (omega arith)
    go (some i) h = inl (h i refl)

override_selection-lt :
    (bs : List BackendInfo) (override : Option String)
    → override_selection bs override < length bs + 1
unfolding override_selection
override_selection-lt bs none = omega arith
override_selection-lt bs (some name) =
    go (position (λ b. str_eq b.id name) bs) (position-lt (λ b. str_eq b.id name) bs)
  where
    go : (o : Option ℕ) → ((i : ℕ) → o ≡ some i → i < length bs) → succ_or_zero o < length bs + 1
    go none h = omega arith
    go (some i) h = omega (arith, h i refl)

-- The dialog opens on entries of its lists.
open-ValidIntent :
    (bs : List BackendInfo) (subagent teammate : Option String)
    → ValidIntent (open_backend_switch_dialog bs subagent teammate)
unfolding open_backend_switch_dialog
open-ValidIntent bs subagent teammate = (
  or_zero-valid bs (λ b. b.is_active),
  override_selection-lt bs subagent,
  override_selection-lt bs teammate,
)

abbrev MovesOnly : BackendSwitchIntent → Type 0
MovesOnly (open_dialog _ _ _ _) = ⊥
MovesOnly _ = Unit

moves-ValidIntent : (i : BackendSwitchIntent) → MovesOnly i → ValidIntent i
moves-ValidIntent (open_dialog _ _ _ _) h = absurd h
moves-ValidIntent close h = tt
moves-ValidIntent next_section h = tt
moves-ValidIntent move_up h = tt
moves-ValidIntent move_down h = tt

-- After the dialog has been opened and the user has moved in it, whatever the moves, its selections
-- are entries of their lists.
pub open-run-IsValid :
    (bs : List BackendInfo) (subagent teammate : Option String) (is : List BackendSwitchIntent)
    → All MovesOnly is
    → IsValid (run hidden (open_backend_switch_dialog bs subagent teammate ∷ is))
open-run-IsValid bs subagent teammate is h =
    run-IsValid hidden (open_backend_switch_dialog bs subagent teammate ∷ is) tt
      (open-ValidIntent bs subagent teammate, All-map MovesOnly ValidIntent moves-ValidIntent is h)
