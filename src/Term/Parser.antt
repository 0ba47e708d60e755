-- ===== src/Term/Parser.antt =====
-- The state machine `InputParser` (crates/term_input/src/parser.rs).
-- A step returns `none` where the source would panic (an index out of range, a `u8` underflow).
pub mod Valid
pub mod Conserves
pub mod Lossless
pub mod Chunks
pub mod Paste
pub mod X10
mod Tests
use anycode.Base.{
  ℕ, ◌+◌, ◌-◌, ◌%◌, bit_and, Bool, true, false, not, ◌&&◌, ◌||◌, Option, none, some, List, [], ◌∷◌,
  ◌++◌, Bytes, ◌==◌, ltb, leb, within, if◌then◌else◌, length, drop, take, get_elem?, bytes_eq,
  ◌>>=◌,
}
use anycode.Base.Utf8.{from_utf8, from_utf8_lossy}
use anycode.Term.Event.{
  Direction, NavKey, KeyKind, char, control, escape, enter, tab, backspace, arrow, nav, function,
  alt, unknown, MouseEvent, InputEvent, key, mouse, paste,
}
use anycode.Term.Params.{extract_csi_params, classify_csi_final, classify_tilde_key, is_digit}
use anycode.Term.Mouse.{decode_x10_mouse, parse_sgr_mouse}

pub data State : Type 0 where
  ground_state esc_received csi_entry csi_param ss3_pending : State
  mouse_x10 : ℕ → State
  sgr_mouse paste_buf : State
  utf8 : ℕ → State

pub record InputParser : Type 0 where
  pub state : State
  pub buf : Bytes
  pub out : List InputEvent

abbrev pub init : InputParser
init = record { state = ground_state; buf = []; out = [] }

abbrev pub emit_key : InputParser → Bytes → KeyKind → InputParser
emit_key p raw kind = record p { out = p.out ++ key (record { raw = raw; kind = kind }) ∷ [] }

-- `buf.push(byte)`, and the state that follows.
abbrev pub push : InputParser → ℕ → State → InputParser
push p byte s = record p { buf = p.buf ++ byte ∷ []; state = s }

-- `buf.push(byte)`, `mem::take(&mut buf)`, `emit_key`, back to `Ground`.
abbrev pub finish : InputParser → ℕ → KeyKind → InputParser
finish p byte kind = record (emit_key p (p.buf ++ byte ∷ []) kind) {
  buf = [];
  state = ground_state;
}

-- `mem::take(&mut buf)`, `emit_key(raw, Unknown)`, back to `Ground`.
abbrev pub abandon : InputParser → InputParser
abandon p = record (emit_key p p.buf unknown) { buf = []; state = ground_state }

-- `buf.clear(); buf.push(byte)`, and the state that follows.
abbrev pub restart : InputParser → ℕ → State → InputParser
restart p byte s = record p { buf = byte ∷ []; state = s }

pub on_ground : InputParser → ℕ → InputParser
on_ground p byte =
    if byte == 0x1b
    then restart p 0x1b esc_received
    else if byte == 0x0d
    then emit_key p (byte ∷ []) enter
    else if byte == 0x09
    then emit_key p (byte ∷ []) tab
    else if byte == 0x7f
    then emit_key p (byte ∷ []) backspace
    else if within 0x01 0x1a byte
    then emit_key p (byte ∷ []) (control (b'a' + byte - 1))
    else if within 0x20 0x7e byte
    then emit_key p (byte ∷ []) (char byte)
    else if within 0xc0 0xdf byte
    then restart p byte (utf8 1)
    else if within 0xe0 0xef byte
    then restart p byte (utf8 2)
    else if within 0xf0 0xf7 byte
    then restart p byte (utf8 3)
    else emit_key p (byte ∷ []) unknown

-- `from_utf8(&raw)` and the first character of its result.
unfoldable pub utf8_kind : Bytes → KeyKind
utf8_kind raw = elim (from_utf8 raw) [
  | none ↦ unknown
  | some [] ↦ char 0xfffd
  | some (c ∷ _) ↦ char c
]

-- A byte that does not continue is taken again from `Ground`, as `self.step(byte)` does there.
pub utf8_cont : InputParser → ℕ → ℕ → Option InputParser
utf8_cont p byte remaining =
    if not (bit_and byte 0xC0 == 0x80)
    then some (on_ground (abandon p) byte)
    else if remaining == 0
    then none
    else if ltb 0 (remaining - 1)
    then some (push p byte (utf8 (remaining - 1)))
    else some (finish p byte (utf8_kind (p.buf ++ byte ∷ [])))

pub on_esc : InputParser → ℕ → InputParser
on_esc p byte =
    if byte == b'['
    then push p byte csi_entry
    else if byte == b'O'
    then push p byte ss3_pending
    else if byte == 0x1b
    then restart (emit_key p (0x1b ∷ []) escape) 0x1b esc_received
    else if byte == 0x7f
    then finish p byte (alt backspace)
    else if within 0x01 0x1a byte
    then finish p byte (alt (control (b'a' + byte - 1)))
    else if within 0x20 0x7e byte
    then finish p byte (alt (char byte))
    else finish p byte unknown

pub on_csi_entry : InputParser → ℕ → InputParser
on_csi_entry p byte =
    if byte == b'M'
    then push p byte (mouse_x10 0)
    else if byte == b'<'
    then push p byte sgr_mouse
    else if within b'A' b'D' byte || byte == b'H' || byte == b'F'
    then finish p byte (classify_csi_final byte [])
    else if is_digit byte || byte == b';'
    then push p byte csi_param
    else if within 0x40 0x7e byte
    then finish p byte unknown
    else finish p byte unknown

abbrev starts_paste : List ℕ → Bool
starts_paste [] = false
starts_paste (n ∷ _) = n == 200

pub on_csi_param : InputParser → ℕ → InputParser
on_csi_param p byte =
    if is_digit byte || byte == b';'
    then push p byte p.state
    else if byte == b'~'
    then (let params = extract_csi_params (p.buf ++ byte ∷ []) in
        if starts_paste params
        then record p { buf = []; state = paste_buf }
        else finish p byte (classify_tilde_key params))
    else if within 0x40 0x7e byte
    then finish p byte (classify_csi_final byte (extract_csi_params (p.buf ++ byte ∷ [])))
    else finish p byte unknown

unfoldable pub ss3_kind : ℕ → KeyKind
ss3_kind byte =
    if byte == b'A'
    then arrow Direction.up
    else if byte == b'B'
    then arrow Direction.down
    else if byte == b'C'
    then arrow Direction.right
    else if byte == b'D'
    then arrow Direction.left
    else if byte == b'H'
    then nav NavKey.home
    else if byte == b'F'
    then nav NavKey.end
    else if within b'P' b'S' byte
    then function (byte - b'O')
    else unknown

abbrev pub emit_mouse : InputParser → MouseEvent → InputParser
emit_mouse p e = record p { out = p.out ++ mouse e ∷ []; buf = []; state = ground_state }

-- `wrapping_sub` on `u8`.
abbrev wrapping_sub : ℕ → ℕ → ℕ
wrapping_sub a b = (a + 256 - b) % 256

-- The three indexed reads of `mouse_x10`, and the event.
pub x10_of : InputParser → Option ℕ → Option ℕ → Option ℕ → Option InputParser
x10_of p (some b) (some c) (some r) =
    some
      (emit_mouse p (decode_x10_mouse (wrapping_sub b 32) (wrapping_sub c 33) (wrapping_sub r 33)))
x10_of p _ _ _ = none

pub on_mouse_x10 : InputParser → ℕ → ℕ → Option InputParser
unfolding x10_of
on_mouse_x10 p byte count =
    let new_count = count + 1 in
    let buf = p.buf ++ byte ∷ [] in
    let n = length buf in
    if ltb new_count 3
    then some (push p byte (mouse_x10 new_count))
    else if ltb n 3
    then none
    else x10_of p (get_elem? buf (n - 3)) (get_elem? buf (n - 2)) (get_elem? buf (n - 1))

-- What `sgr_mouse` does with the decoded report.
pub sgr_done : InputParser → ℕ → Option (Option MouseEvent) → Option InputParser
sgr_done p byte none = none
sgr_done p byte (some none) = some (finish p byte unknown)
sgr_done p byte (some (some e)) = some (emit_mouse p e)

pub on_sgr_mouse : InputParser → ℕ → Option InputParser
unfolding sgr_done
on_sgr_mouse p byte =
    if byte == b'M' || byte == b'm'
    then sgr_done p byte (parse_sgr_mouse (p.buf ++ byte ∷ []) (byte == b'm'))
    else if is_digit byte || byte == b';'
    then some (push p byte p.state)
    else some (finish p byte unknown)

abbrev pub end_marker : Bytes
end_marker = 0x1b ∷ b'[' ∷ b'2' ∷ b'0' ∷ b'1' ∷ b'~' ∷ []

-- `buf.len() >= END_MARKER.len()` and the last bytes are the marker.
abbrev pub ends_with_marker : Bytes → Bool
ends_with_marker buf = leb 6 (length buf) && bytes_eq (drop (length buf - 6) buf) end_marker

pub in_paste : InputParser → ℕ → InputParser
in_paste p byte =
    let buf = p.buf ++ byte ∷ [] in
    if ends_with_marker buf
    then record p {
      out = p.out ++ paste (from_utf8_lossy (take (length buf - 6) buf)) ∷ [];
      buf = [];
      state = ground_state;
    }
    else push p byte p.state

unfoldable pub step_in : State → InputParser → ℕ → Option InputParser
step_in ground_state p byte = some (on_ground p byte)
step_in esc_received p byte = some (on_esc p byte)
step_in csi_entry p byte = some (on_csi_entry p byte)
step_in csi_param p byte = some (on_csi_param p byte)
step_in ss3_pending p byte = some (finish p byte (ss3_kind byte))
step_in (mouse_x10 count) p byte = on_mouse_x10 p byte count
step_in sgr_mouse p byte = on_sgr_mouse p byte
step_in paste_buf p byte = some (in_paste p byte)
step_in (utf8 remaining) p byte = utf8_cont p byte remaining

abbrev pub step : InputParser → ℕ → Option InputParser
step p = step_in p.state p

-- The loop of `feed`.
unfoldable pub run : InputParser → Bytes → Option InputParser
run p [] = some p
run p (b ∷ bs) = step p b >>= λ q. run q bs

-- `out.drain(..).collect()`
abbrev pub drain : InputParser → InputParser × List InputEvent
drain p = (record p { out = [] }, p.out)

unfoldable pub feed : InputParser → Bytes → Option (InputParser × List InputEvent)
feed p bs = run p bs >>= λ q. some (drain q)

-- `flush` without the final `drain`.
pub settle_in : State → InputParser → InputParser
settle_in esc_received p = record (emit_key p (0x1b ∷ []) escape) { state = ground_state; buf = [] }
settle_in csi_entry p = abandon p
settle_in csi_param p = abandon p
settle_in ss3_pending p = abandon p
settle_in sgr_mouse p = abandon p
settle_in (mouse_x10 count) p = abandon p
settle_in (utf8 remaining) p = abandon p
settle_in paste_buf p = p
settle_in ground_state p = p

unfoldable pub flush : InputParser → InputParser × List InputEvent
unfolding settle_in
flush p = drain (settle_in p.state p)

pub has_pending : InputParser → Bool
has_pending p = elim p.state [ ground_state ↦ false | paste_buf ↦ false | _ ↦ true ]

unfoldable pub is_in_paste : InputParser → Bool
is_in_paste p = elim p.state [ paste_buf ↦ true | _ ↦ false ]
