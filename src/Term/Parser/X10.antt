-- ===== src/Term/Parser/X10.antt =====
-- Mouse reports: `to_x10_bytes` (crates/term_input/src/event.rs) is read back by the parser, and
-- the two report formats agree.
use anycode.Base.{
  ℕ, ◌+◌, ◌-◌, ◌%◌, ◌<◌, ◌≡◌, refl, ◌≢◌, false, some, [], ◌∷◌, arith, bit_and, ◌⊎◌, ◌∙◌,
}
use anycode.Term.Event.{
  left, middle, right, MouseEvent, down, up, drag, move, scroll_up, scroll_down, mouse,
  to_x10_bytes, position, x10_code,
}
use anycode.Term.Mouse.{decode_x10_mouse, sgr_event}
use anycode.Term.Parser.{
  ground_state, InputParser, init, step_in, run, feed, on_ground, on_esc, on_csi_entry,
  on_mouse_x10, emit_mouse,
}

-- Decoding the button code of an event gives the event.
decode-x10_code : (e : MouseEvent) → decode_x10_mouse (x10_code e) (position e).0 (position e).1 ≡ e
unfolding decode_x10_mouse position
decode-x10_code (down left c r) = refl
decode-x10_code (down middle c r) = refl
decode-x10_code (down right c r) = refl
decode-x10_code (up c r) = refl
decode-x10_code (drag left c r) = refl
decode-x10_code (drag middle c r) = refl
decode-x10_code (drag right c r) = refl
decode-x10_code (move c r) = refl
decode-x10_code (scroll_up c r) = refl
decode-x10_code (scroll_down c r) = refl

x10_code-lt : (e : MouseEvent) → x10_code e < 66
x10_code-lt (down left c r) = omega arith
x10_code-lt (down middle c r) = omega arith
x10_code-lt (down right c r) = omega arith
x10_code-lt (drag left c r) = omega arith
x10_code-lt (drag middle c r) = omega arith
x10_code-lt (drag right c r) = omega arith
x10_code-lt _ = omega arith

-- `wrapping_sub` takes back what the encoder added.
unshift : (k n : ℕ) → k < 256 → n < 256 → ((n + k) % 256 + 256 - k) % 256 ≡ n
unshift k n h l = omega arith

run_report :
    (p : InputParser) (b c r : ℕ)
    → p.state ≡ ground_state
    → run p (0x1b ∷ b'[' ∷ b'M' ∷ b ∷ c ∷ r ∷ [])
      ≡ some (
          emit_mouse p
            (decode_x10_mouse ((b + 256 - 32) % 256) ((c + 256 - 33) % 256) ((r + 256 - 33) % 256)))
unfolding run step_in on_ground on_esc on_csi_entry on_mouse_x10
run_report p b c r h = rw h refl

run-to_x10_bytes :
    (p : InputParser) (e : MouseEvent)
    → p.state ≡ ground_state
    → (position e).0 < 256
    → (position e).1 < 256
    → run p (to_x10_bytes e) ≡ some (emit_mouse p e)
unfolding to_x10_bytes
run-to_x10_bytes p e h col row =
    run_report p _ _ _ h
    ∙ rw
        (
          unshift 32 (x10_code e) (omega arith) (omega (arith, x10_code-lt e)),
          unshift 33 (position e).0 (omega arith) col,
          unshift 33 (position e).1 (omega arith) row,
          decode-x10_code e,
        )
        refl

-- Encoding a mouse event in X10 form and feeding the six bytes to a parser in its ground state with
-- an empty queue gives that event and nothing else, and leaves the parser as a new one is; for
-- coordinates below 256.
pub feed-to_x10_bytes :
    (p : InputParser) (e : MouseEvent)
    → p.state ≡ ground_state
    → p.out ≡ []
    → (position e).0 < 256
    → (position e).1 < 256
    → feed p (to_x10_bytes e) ≡ some (init, mouse e ∷ [])
unfolding feed
feed-to_x10_bytes p e h o col row = rw (run-to_x10_bytes p e h col row, o) refl

-- A press report in SGR form stands for the same event as in X10 form with the same code, unless
-- the code is that of an X10 release (low bits 3, no motion, no wheel): X10 has no separate release.
pub sgr_event-decode_x10_mouse :
    (code col row : ℕ)
    → (bit_and code 0x03 ≢ 3) ⊎ (bit_and code 32 ≢ 0) ⊎ (bit_and code 64 ≢ 0)
    → sgr_event code col row false ≡ decode_x10_mouse code col row
unfolding sgr_event decode_x10_mouse
sgr_event-decode_x10_mouse code col row h = ground arith
