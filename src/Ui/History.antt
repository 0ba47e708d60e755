-- ===== src/Ui/History.antt =====
-- The dialog of the switches so far (src/ui/history): a list that scrolls in a window.
use anycode.Base.{ℕ, ◌+◌, ◌-◌, ◌≤◌, String, Option, List, [], ◌∷◌, min, length, arith}

pub record HistoryEntry : Type 0 where
  pub timestamp : ℕ
  pub from_backend : Option String
  pub to_backend : String

pub data HistoryDialogState : Type 0 where
  hidden : HistoryDialogState
  visible : (entries : List HistoryEntry) (scroll_offset : ℕ) → HistoryDialogState

pub data HistoryIntent : Type 0 where
  load : List HistoryEntry → HistoryIntent
  close scroll_up scroll_down : HistoryIntent

abbrev pub max_visible_rows : ℕ
max_visible_rows = 14

-- `saturating_sub` is subtraction on the naturals.
abbrev pub max_offset : List HistoryEntry → ℕ
max_offset entries = length entries - max_visible_rows

unfoldable pub handle_intent : HistoryDialogState → HistoryIntent → HistoryDialogState
handle_intent s (load entries) = visible entries (max_offset entries)
handle_intent s close = hidden
handle_intent (visible entries offset) scroll_up = visible entries (offset - 1)
handle_intent (visible entries offset) scroll_down =
    visible entries (min (offset + 1) (max_offset entries))
handle_intent hidden _ = hidden

unfoldable pub run : HistoryDialogState → List HistoryIntent → HistoryDialogState
unfolding handle_intent
run s [] = s
run s (i ∷ is) = run (handle_intent s i) is

-- The window does not reach past the last entry, unless there are fewer entries than rows.
abbrev pub IsValid : HistoryDialogState → Type 0
IsValid hidden = Unit
IsValid (visible entries offset) = offset ≤ max_offset entries

handle_intent-IsValid :
    (s : HistoryDialogState) (i : HistoryIntent) → IsValid s → IsValid (handle_intent s i)
unfolding handle_intent
handle_intent-IsValid s (load entries) h = omega arith
handle_intent-IsValid s close h = tt
handle_intent-IsValid hidden _ h = tt
handle_intent-IsValid (visible entries offset) scroll_up h = omega arith
handle_intent-IsValid (visible entries offset) scroll_down h = omega arith

-- The window stays on the entries, whatever the user does.
pub run-IsValid :
    (s : HistoryDialogState) (is : List HistoryIntent) → IsValid s → IsValid (run s is)
unfolding run
run-IsValid s [] h = h
run-IsValid s (i ∷ is) h = run-IsValid (handle_intent s i) is (handle_intent-IsValid s i h)
