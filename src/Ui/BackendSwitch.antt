-- ===== src/Ui/BackendSwitch.antt =====
-- The dialog that chooses backends (src/ui/backend_switch): three lists, of which one has the focus.
-- The lists of the overrides begin with one more entry, which clears the override.
use anycode.Base.{
  ℕ, zero, suc, ◌+◌, ◌-◌, ◌<◌, ◌≡◌, refl, ◌⊎◌, List, [], ◌∷◌, ◌==◌, leb, min, All, arith,
  if◌then◌else◌,
}

pub data BackendPopupSection : Type 0 where
  active_backend subagent_backend teammate_backend : BackendPopupSection

pub data BackendSwitchState : Type 0 where
  hidden : BackendSwitchState
  visible :
      (section : BackendPopupSection)
      (backend_selection subagent_selection teammate_selection backends_count : ℕ)
      → BackendSwitchState

pub data BackendSwitchIntent : Type 0 where
  open_dialog :
      (backend_selection subagent_selection teammate_selection backends_count : ℕ)
      → BackendSwitchIntent
  close next_section move_up move_down : BackendSwitchIntent

pub data Direction : Type 0 where
  up down : Direction

-- `wrap_around`, whose direction is -1 or 1.
abbrev step_in : ℕ → Direction → ℕ → ℕ
step_in current up len = if current == 0 then len - 1 else current - 1
step_in current down len = if leb len (current + 1) then 0 else current + 1

unfoldable pub wrap_around : ℕ → Direction → ℕ → ℕ
wrap_around current direction len =
    if len == 0 then 0 else step_in (min current (len - 1)) direction len

abbrev next : BackendPopupSection → BackendPopupSection
next active_backend = subagent_backend
next subagent_backend = teammate_backend
next teammate_backend = active_backend

unfoldable pub navigate : BackendSwitchState → Direction → BackendSwitchState
unfolding wrap_around
navigate (visible active_backend b s t n) d = visible active_backend (wrap_around b d n) s t n
navigate (visible subagent_backend b s t n) d =
    visible subagent_backend b (wrap_around s d (n + 1)) t n
navigate (visible teammate_backend b s t n) d =
    visible teammate_backend b s (wrap_around t d (n + 1)) n
navigate hidden d = hidden

unfoldable pub handle_intent : BackendSwitchState → BackendSwitchIntent → BackendSwitchState
unfolding navigate
handle_intent st (open_dialog b s t n) = visible active_backend b s t n
handle_intent st close = hidden
handle_intent (visible section b s t n) next_section = visible (next section) b s t n
handle_intent st move_up = navigate st up
handle_intent st move_down = navigate st down
handle_intent hidden _ = hidden

unfoldable pub run : BackendSwitchState → List BackendSwitchIntent → BackendSwitchState
unfolding handle_intent
run st [] = st
run st (i ∷ is) = run (handle_intent st i) is

-- Every selection is an entry of its list; without backends the first one stays at 0.
abbrev pub IsValid : BackendSwitchState → Type 0
IsValid hidden = Unit
IsValid (visible section b s t n) = ((b < n) ⊎ ((n ≡ 0) × (b ≡ 0))) × (s < n + 1) × (t < n + 1)

-- The dialog is opened on valid selections.
abbrev pub ValidIntent : BackendSwitchIntent → Type 0
ValidIntent (open_dialog b s t n) = IsValid (visible active_backend b s t n)
ValidIntent _ = Unit

wrap_around-lt : (i : ℕ) (d : Direction) (len : ℕ) → 0 < len → wrap_around i d len < len
unfolding wrap_around
wrap_around-lt i up len h = ground arith
wrap_around-lt i down len h = ground arith

wrap_around-zero : (i : ℕ) (d : Direction) → wrap_around i d 0 ≡ 0
unfolding wrap_around
wrap_around-zero i d = refl

wrap_around-inverse :
    (i len : ℕ)
    → i < len
    → (wrap_around (wrap_around i down len) up len ≡ i)
      × (wrap_around (wrap_around i up len) down len ≡ i)
unfolding wrap_around
wrap_around-inverse i len h = ground arith

navigate-IsValid : (st : BackendSwitchState) (d : Direction) → IsValid st → IsValid (navigate st d)
unfolding navigate
navigate-IsValid hidden d h = tt
navigate-IsValid (visible active_backend b s t zero) d h = ground (arith, wrap_around-zero b d)
navigate-IsValid (visible active_backend b s t (suc n)) d h =
    ground (arith, wrap_around-lt b d (suc n))
navigate-IsValid (visible subagent_backend b s t n) d h = ground (arith, wrap_around-lt s d (n + 1))
navigate-IsValid (visible teammate_backend b s t n) d h = ground (arith, wrap_around-lt t d (n + 1))

handle_intent-IsValid :
    (st : BackendSwitchState) (i : BackendSwitchIntent)
    → IsValid st
    → ValidIntent i
    → IsValid (handle_intent st i)
unfolding handle_intent
handle_intent-IsValid st (open_dialog b s t n) h k = k
handle_intent-IsValid st close h k = tt
handle_intent-IsValid st move_up h k = navigate-IsValid st up h
handle_intent-IsValid st move_down h k = navigate-IsValid st down h
handle_intent-IsValid hidden next_section h k = tt
handle_intent-IsValid (visible section b s t n) next_section h k = h

-- When the dialog is opened on entries of its lists only, every selection stays an entry of its
-- list, whatever the user does.
pub run-IsValid :
    (st : BackendSwitchState) (is : List BackendSwitchIntent)
    → IsValid st
    → All ValidIntent is
    → IsValid (run st is)
unfolding run
run-IsValid st [] h k = h
run-IsValid st (i ∷ is) h k =
    run-IsValid (handle_intent st i) is (handle_intent-IsValid st i h k.0) k.1

-- Moving down and up again, or up and down, gives back an open dialog with valid selections and some
-- backend, and so do three changes of the section.
pub run-inverse :
    (section : BackendPopupSection) (b s t n : ℕ)
    → IsValid (visible section b s t n)
    → 0 < n
    → (run (visible section b s t n) (move_down ∷ move_up ∷ []) ≡ visible section b s t n)
      × (run (visible section b s t n) (move_up ∷ move_down ∷ []) ≡ visible section b s t n)
      × (run (visible section b s t n) (next_section ∷ next_section ∷ next_section ∷ [])
          ≡ visible section b s t n)
unfolding run handle_intent navigate
run-inverse active_backend b s t n h lt = ground (arith, wrap_around-inverse b n)
run-inverse subagent_backend b s t n h lt = ground (arith, wrap_around-inverse s (n + 1))
run-inverse teammate_backend b s t n h lt = ground (arith, wrap_around-inverse t (n + 1))
