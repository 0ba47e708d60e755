-- ===== src/Term/Parser/Valid.antt =====
-- The invariant of the parser: what the buffer holds in each state. It keeps every index and every
-- subtraction of a step in range.
use anycode.Base.{
  ℕ, zero, suc, ◌+◌, ◌-◌, ◌<◌, ◌≡◌, refl, Bool, false, Option, none, some, List, [], ◌∷◌, ◌++◌,
  arith, Bytes, length, length-append, ◌≢◌, get_elem?, ◌==◌,
}
use anycode.Term.Event.{InputEvent}
use anycode.Base.{Bool-cases, ltb, ◌>>=◌, inl, inr}
use anycode.Term.Mouse.{parse_sgr_mouse}
use anycode.Term.Parser.{
  State, ground_state, esc_received, csi_entry, csi_param, ss3_pending, mouse_x10, sgr_mouse,
  paste_buf, utf8, InputParser, feed, has_pending, abandon, on_ground, on_esc, on_csi_entry,
  on_csi_param, on_mouse_x10, on_sgr_mouse, utf8_cont, in_paste, step_in, step, run, flush,
}

-- The text begins with these bytes.
abbrev pub Starts : Bytes → Bytes → Type 0
Starts [] buf = Unit
Starts (a ∷ start) [] = ⊥
Starts (a ∷ start) (b ∷ buf) = (b ≡ a) × Starts start buf

pub Starts-append : (start buf more : Bytes) → Starts start buf → Starts start (buf ++ more)
Starts-append [] buf more h = tt
Starts-append (a ∷ start) [] more h = elim h [ ]
Starts-append (a ∷ start) (b ∷ buf) more h = (h.0, Starts-append start buf more h.1)

abbrev pub BufInv : State → Bytes → Type 0
BufInv ground_state buf = buf ≡ []
BufInv esc_received buf = buf ≡ 0x1b ∷ []
BufInv csi_entry buf = buf ≡ 0x1b ∷ b'[' ∷ []
BufInv csi_param buf = Starts (0x1b ∷ b'[' ∷ []) buf
BufInv ss3_pending buf = buf ≡ 0x1b ∷ b'O' ∷ []
BufInv (mouse_x10 count) buf =
    Starts (0x1b ∷ b'[' ∷ b'M' ∷ []) buf × (length buf ≡ 3 + count) × (count < 3)
BufInv sgr_mouse buf = Starts (0x1b ∷ b'[' ∷ b'<' ∷ []) buf
BufInv paste_buf buf = Unit
BufInv (utf8 remaining) buf = (0 < remaining) × (remaining < 4) × (0 < length buf)

abbrev pub IsValid : InputParser → Type 0
IsValid p = BufInv p.state p.buf

on_ground-IsValid :
    (p : InputParser) (b : ℕ) → p.state ≡ ground_state → p.buf ≡ [] → IsValid (on_ground p b)
unfolding on_ground
on_ground-IsValid p b e h = ground arith

on_esc-IsValid : (p : InputParser) (b : ℕ) → p.buf ≡ 0x1b ∷ [] → IsValid (on_esc p b)
unfolding on_esc
on_esc-IsValid p b h = ground arith

on_csi_entry-IsValid :
    (p : InputParser) (b : ℕ) → p.buf ≡ 0x1b ∷ b'[' ∷ [] → IsValid (on_csi_entry p b)
unfolding on_csi_entry
on_csi_entry-IsValid p b h = ground arith

on_csi_param-IsValid :
    (p : InputParser) (b : ℕ)
    → p.state ≡ csi_param
    → Starts (0x1b ∷ b'[' ∷ []) p.buf
    → IsValid (on_csi_param p b)
unfolding on_csi_param
on_csi_param-IsValid p b e h = ground (arith, Starts-append (0x1b ∷ b'[' ∷ []) p.buf (b ∷ []))

in_paste-IsValid : (p : InputParser) (b : ℕ) → p.state ≡ paste_buf → IsValid (in_paste p b)
unfolding in_paste
in_paste-IsValid p b e = ground arith

-- No panic, and the invariant holds afterwards.
abbrev pub Safe : Option InputParser → Type 0
Safe none = ⊥
Safe (some q) = IsValid q

utf8_cont-Safe :
    (p : InputParser) (b n : ℕ) → 0 < n → n < 4 → 0 < length p.buf → Safe (utf8_cont p b n)
unfolding utf8_cont
utf8_cont-Safe p b n h k l =
    ground (arith, on_ground-IsValid (abandon p) b refl refl, length-append p.buf (b ∷ []))

-- Reads inside a list succeed.
get_elem?-lt : (xs : Bytes) (i : ℕ) → i < length xs → (x : ℕ) × (get_elem? xs i ≡ some x)
get_elem?-lt [] i h = elim h [ ]
get_elem?-lt (x ∷ xs) zero h = (x, refl)
get_elem?-lt (x ∷ xs) (suc i) h = get_elem?-lt xs i (omega arith)

on_mouse_x10-Safe :
    (p : InputParser) (b n : ℕ)
    → Starts (0x1b ∷ b'[' ∷ b'M' ∷ []) p.buf
    → length p.buf ≡ 3 + n
    → n < 3
    → Safe (on_mouse_x10 p b n)
unfolding on_mouse_x10
on_mouse_x10-Safe p b n s l h =
    let buf = p.buf ++ b ∷ [] in
    let len : length buf ≡ 4 + n = omega (arith, length-append p.buf (b ∷ [])) in
    let (x, e) = get_elem?-lt buf (length buf - 3) (omega arith) in
    let (y, f) = get_elem?-lt buf (length buf - 2) (omega arith) in
    let (z, g) = get_elem?-lt buf (length buf - 1) (omega arith) in
    elim (Bool-cases (ltb (n + 1) 3)) [
      | inl more ↦
          rw more
            (Starts-append (0x1b ∷ b'[' ∷ b'M' ∷ []) p.buf (b ∷ []) s, omega arith, ground arith)
      | inr last ↦ rw (last, ltb-len, e, f, g) refl
    ]
  where
    ltb-len : ltb (length (p.buf ++ b ∷ [])) 3 ≡ false
    ltb-len = ground (arith, length-append p.buf (b ∷ []))

-- The parameters of an SGR report lie inside the buffer.
parse_sgr_mouse-ne-none :
    (buf : Bytes) (b : ℕ) (release : Bool)
    → Starts (0x1b ∷ b'[' ∷ b'<' ∷ []) buf
    → parse_sgr_mouse (buf ++ b ∷ []) release ≢ none
unfolding parse_sgr_mouse
parse_sgr_mouse-ne-none [] b release h = elim h [ ]
parse_sgr_mouse-ne-none (x ∷ []) b release h = elim h.1 [ ]
parse_sgr_mouse-ne-none (x ∷ y ∷ []) b release h = elim h.1.1 [ ]
parse_sgr_mouse-ne-none (x ∷ y ∷ z ∷ t) b release h = ground (arith, length-append t (b ∷ []))

on_sgr_mouse-Safe :
    (p : InputParser) (b : ℕ)
    → p.state ≡ sgr_mouse
    → Starts (0x1b ∷ b'[' ∷ b'<' ∷ []) p.buf
    → Safe (on_sgr_mouse p b)
unfolding on_sgr_mouse
on_sgr_mouse-Safe p b e h = ground (
  arith,
  Starts-append (0x1b ∷ b'[' ∷ b'<' ∷ []) p.buf (b ∷ []),
  parse_sgr_mouse-ne-none p.buf b (b == b'm') h,
)

step_in-Safe :
    (s : State) (p : InputParser) (b : ℕ) → p.state ≡ s → BufInv s p.buf → Safe (step_in s p b)
unfolding step_in
step_in-Safe ground_state p b e h = on_ground-IsValid p b e h
step_in-Safe esc_received p b e h = on_esc-IsValid p b h
step_in-Safe csi_entry p b e h = on_csi_entry-IsValid p b h
step_in-Safe csi_param p b e h = on_csi_param-IsValid p b e h
step_in-Safe ss3_pending p b e h = refl
step_in-Safe (mouse_x10 n) p b e (s, l, k) = on_mouse_x10-Safe p b n s l k
step_in-Safe sgr_mouse p b e h = on_sgr_mouse-Safe p b e h
step_in-Safe paste_buf p b e h = in_paste-IsValid p b e
step_in-Safe (utf8 n) p b e (h, k, l) = utf8_cont-Safe p b n h k l

pub step-Safe : (p : InputParser) (b : ℕ) → IsValid p → Safe (step p b)
step-Safe p b h = step_in-Safe p.state p b refl h

pub run-Safe : (bs : Bytes) (p : InputParser) → IsValid p → Safe (run p bs)
unfolding run
run-Safe [] p h = h
run-Safe (b ∷ bs) p h = go (step p b) (step-Safe p b h) (λ q v. run-Safe bs q v)
  where
    go :
        (r : Option InputParser)
        → Safe r
        → ((q : InputParser) → IsValid q → Safe (run q bs))
        → Safe (r >>= λ q. run q bs)
    go none v rec = elim v [ ]
    go (some q) v rec = rec q v

-- From a valid parser `feed` never panics: it returns a parser that is valid again, with an empty
-- queue. The same holds of `flush`, which returns in any state: it empties the queue and leaves a valid
-- parser, with nothing pending unless a paste is open.
pub feed-flush_total :
    (p : InputParser) (bs : Bytes)
    → IsValid p
    → ((q : InputParser) × (es : List InputEvent) × (feed p bs ≡ some (q, es))
        × IsValid q
        × (q.out ≡ []))
      × IsValid (flush p).0
      × ((flush p).0.out ≡ [])
      × (has_pending (flush p).0 ≡ false)
unfolding feed flush has_pending
feed-flush_total p bs h =
    let (v, empty, idle) = settled p.state refl in
    (fed (run p bs) refl (run-Safe bs p h), v, empty, idle)
  where
    fed :
        (r : Option InputParser)
        → run p bs ≡ r
        → Safe r
        → (q : InputParser) × (es : List InputEvent) × (feed p bs ≡ some (q, es))
          × IsValid q
          × (q.out ≡ [])
    fed none e v = elim v [ ]
    fed (some q) e v = (record q { out = [] }, q.out, rw (e, feed), v, refl)

    settled :
        (s : State)
        → p.state ≡ s
        → IsValid (flush p).0 × ((flush p).0.out ≡ []) × (has_pending (flush p).0 ≡ false)
    settled ground_state e = ground arith
    settled _ e = ground arith
