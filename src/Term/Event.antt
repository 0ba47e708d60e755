-- ===== src/Term/Event.antt =====
-- crates/term_input/src/event.rs. A `char` is its code point.
use anycode.Base.{ℕ, ◌+◌, ◌%◌, List, [], ◌∷◌, Bool, true, false, Bytes}

pub data Direction : Type 0 where
  up down right left : Direction

pub data NavKey : Type 0 where
  home end insert delete page_up page_down : NavKey

pub data KeyKind : Type 0 where
  char : ℕ → KeyKind
  control : ℕ → KeyKind
  escape enter tab backspace : KeyKind
  arrow : Direction → KeyKind
  nav : NavKey → KeyKind
  function : ℕ → KeyKind
  alt : KeyKind → KeyKind
  unknown : KeyKind

pub record KeyInput : Type 0 where
  pub raw : Bytes
  pub kind : KeyKind

pub data MouseButton : Type 0 where
  left middle right : MouseButton

pub data MouseEvent : Type 0 where
  down : MouseButton → ℕ → ℕ → MouseEvent
  up : ℕ → ℕ → MouseEvent
  drag : MouseButton → ℕ → ℕ → MouseEvent
  move scroll_up scroll_down : ℕ → ℕ → MouseEvent

pub data InputEvent : Type 0 where
  key : KeyInput → InputEvent
  mouse : MouseEvent → InputEvent
  paste : List ℕ → InputEvent

abbrev pub button_code : MouseButton → ℕ
button_code MouseButton.left = 0
button_code MouseButton.middle = 1
button_code MouseButton.right = 2

-- `(button_code, col, row)` of the match in `to_x10_bytes`.
abbrev pub x10_code : MouseEvent → ℕ
x10_code (MouseEvent.down b col row) = button_code b
x10_code (MouseEvent.up col row) = 3
x10_code (MouseEvent.drag b col row) = 32 + button_code b
x10_code (MouseEvent.move col row) = 35
x10_code (MouseEvent.scroll_up col row) = 64
x10_code (MouseEvent.scroll_down col row) = 65

unfoldable pub position : MouseEvent → ℕ × ℕ
position (MouseEvent.down _ col row) = (col, row)
position (MouseEvent.up col row) = (col, row)
position (MouseEvent.drag _ col row) = (col, row)
position (MouseEvent.move col row) = (col, row)
position (MouseEvent.scroll_up col row) = (col, row)
position (MouseEvent.scroll_down col row) = (col, row)

unfoldable pub is_scroll : MouseEvent → Bool
is_scroll (MouseEvent.scroll_up col row) = true
is_scroll (MouseEvent.scroll_down col row) = true
is_scroll _ = false

unfoldable pub to_x10_bytes : MouseEvent → Bytes
unfolding position
to_x10_bytes e =
    let (col, row) = position e in
    0x1b ∷ b'[' ∷ b'M' ∷ ((x10_code e + 32) % 256) ∷ ((col + 33) % 256) ∷ ((row + 33) % 256) ∷ []
