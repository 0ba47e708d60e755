-- ===== src/Term/Mouse.antt =====
-- Mouse reports (crates/term_input/src/parser.rs: decode_x10_mouse, parse_sgr_mouse).
use anycode.Base.{
  ℕ, suc, ◌+◌, ◌-◌, bit_and, Bool, not, Option, none, some, List, [], ◌∷◌, Bytes, ◌==◌, leb,
  if◌then◌else◌, length, take, drop,
}
use anycode.Term.Event.{
  MouseButton, middle, MouseEvent, down, up, drag, move, scroll_up, scroll_down,
}
use anycode.Term.Params.{parse_params}

abbrev pub button_of : ℕ → MouseButton
button_of low_bits =
    if low_bits == 0
    then MouseButton.left
    else if low_bits == 1
    then middle
    else if low_bits == 2
    then MouseButton.right
    else MouseButton.left

unfoldable pub decode_x10_mouse : ℕ → ℕ → ℕ → MouseEvent
decode_x10_mouse code col row =
    let low_bits = bit_and code 0x03 in
    let is_drag = not (bit_and code 32 == 0) in
    let is_scroll = not (bit_and code 64 == 0) in
    if is_scroll
    then (if low_bits == 0 then scroll_up col row else scroll_down col row)
    else if is_drag
    then (if low_bits == 3 then move col row else drag (button_of low_bits) col row)
    else if low_bits == 3
    then up col row
    else down (button_of low_bits) col row

-- `iter().position(|&b| b == x)`
abbrev index_of : ℕ → Bytes → Option ℕ
index_of x [] = none
index_of x (b ∷ bs) =
    let rest = index_of x bs in
    if b == x then some 0 else (elim rest [ none ↦ none | some i ↦ some (suc i) ])

-- The part of `parse_sgr_mouse` behind the three parameters.
unfoldable pub sgr_event : ℕ → ℕ → ℕ → Bool → MouseEvent
sgr_event code col row is_release =
    let low_bits = bit_and code 0x03 in
    let is_drag = not (bit_and code 32 == 0) in
    let is_scroll = not (bit_and code 64 == 0) in
    if is_scroll
    then (if low_bits == 0 then scroll_up col row else scroll_down col row)
    else if is_release
    then up col row
    else if is_drag
    then (if low_bits == 3 then move col row else drag (button_of low_bits) col row)
    else down (button_of low_bits) col row

abbrev sgr_of_parts : List ℕ → Bool → Option MouseEvent
sgr_of_parts (code ∷ px ∷ py ∷ _) is_release = some (sgr_event code (px - 1) (py - 1) is_release)
sgr_of_parts _ is_release = none

-- The outer `none` is a panic: a slice whose start lies behind its end.
unfoldable pub parse_sgr_mouse : Bytes → Bool → Option (Option MouseEvent)
unfolding sgr_event parse_params
parse_sgr_mouse buf is_release = elim (index_of b'<' buf) [
  | none ↦ some none
  | some lt_pos ↦
      let start = lt_pos + 1 in
      let params_end = length buf - 1 in
      if leb start params_end
      then some
          (sgr_of_parts (parse_params (take (params_end - start) (drop start buf))) is_release)
      else none
]
