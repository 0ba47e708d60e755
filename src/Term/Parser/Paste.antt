-- ===== src/Term/Parser/Paste.antt =====
-- Bracketed paste: the text between ESC[200~ and ESC[201~ comes out as one event.
use anycode.Base.{
  ℕ, ◌-◌, ◌≡◌, refl, ◌≢◌, true, false, some, [], ◌∷◌, ◌++◌, arith, Bytes, length, take, drop,
  take-append-drop, length-append, take-length-append, drop-length-append, bytes_eq_iff,
  append_assoc, append-nil, ap, sym, ◌∙◌, Bool-cases, inl, inr, subst,
}
use anycode.Base.Utf8.{from_utf8_lossy}
use anycode.Term.Event.{paste}
use anycode.Term.Params.{extract_csi_params}
use anycode.Term.Parser.{
  ground_state, paste_buf, InputParser, init, step_in, run, feed, on_ground, on_esc, on_csi_entry,
  on_csi_param, in_paste, end_marker, ends_with_marker, push,
}
use anycode.Term.Parser.Chunks.{run-append}

-- The end marker stands nowhere in the text.
abbrev pub NoMarker : Bytes → Type 0
NoMarker t = (x y : Bytes) → t ≢ x ++ (end_marker ++ y)

ends_with_marker-split :
    (buf : Bytes) → ends_with_marker buf ≡ true → buf ≡ take (length buf - 6) buf ++ end_marker
ends_with_marker-split buf h =
    let e = (bytes_eq_iff (drop (length buf - 6) buf) end_marker).0 (ground arith) in
    sym (take-append-drop (length buf - 6) buf) ∙ ap (λ t. take (length buf - 6) buf ++ t) e

before_marker : (t : Bytes) → length (t ++ end_marker) - 6 ≡ length t
before_marker t = omega (arith, length-append t end_marker)

ends_with_marker-append : (t : Bytes) → ends_with_marker (t ++ end_marker) ≡ true
ends_with_marker-append t =
    rw (before_marker t, drop-length-append t end_marker)
      (ground (arith, length-append t end_marker, (bytes_eq_iff end_marker end_marker).1 refl))

paste_step :
    (p : InputParser) (b : ℕ) (rest : Bytes)
    → p.state ≡ paste_buf
    → ends_with_marker (p.buf ++ b ∷ []) ≡ false
    → run p (b ∷ rest) ≡ run (push p b paste_buf) rest
unfolding run step_in in_paste
paste_step p b rest h e = rw h (rw e refl)

-- Text that holds no marker is only collected.
paste_text :
    (t rest : Bytes) (p : InputParser)
    → p.state ≡ paste_buf
    → NoMarker (p.buf ++ t)
    → run p (t ++ rest) ≡ run (record p { buf = p.buf ++ t; state = paste_buf }) rest
paste_text [] rest p h free = rw (append-nil p.buf) (rw (← h) refl)
paste_text (b ∷ t) rest p h free = elim (Bool-cases (ends_with_marker (p.buf ++ b ∷ []))) [
  | inl ends ↦ absurd (
      free _ t (
        sym (append_assoc p.buf (b ∷ []) t)
        ∙ ap (λ u. u ++ t) (ends_with_marker-split (p.buf ++ b ∷ []) ends)
        ∙ append_assoc _ end_marker t))
  | inr open_still ↦
      paste_step p b (t ++ rest) h open_still
      ∙ paste_text t rest (push p b paste_buf) refl
          (subst NoMarker (sym (append_assoc p.buf (b ∷ []) t)) free)
      ∙ rw append_assoc refl
]

last_or_zero : Bytes → ℕ
last_or_zero [] = 0
last_or_zero (b ∷ []) = b
last_or_zero (b ∷ c ∷ t) = last_or_zero (c ∷ t)

last_or_zero-concat : (t : Bytes) (b : ℕ) → last_or_zero (t ++ b ∷ []) ≡ b
unfolding last_or_zero
last_or_zero-concat [] b = refl
last_or_zero-concat (c ∷ []) b = refl
last_or_zero-concat (c ∷ d ∷ t) b = last_or_zero-concat (d ∷ t) b

-- Only a tilde can complete the marker.
not_ended : (t : Bytes) (b : ℕ) → b ≢ b'~' → ends_with_marker (t ++ b ∷ []) ≡ false
not_ended t b ne = elim (Bool-cases (ends_with_marker (t ++ b ∷ []))) [
  | inl ends ↦ absurd (
      ne (
        sym (last_or_zero-concat t b)
        ∙ ap last_or_zero (
            ends_with_marker-split (t ++ b ∷ []) ends
            ∙ sym (append_assoc _ (0x1b ∷ b'[' ∷ b'2' ∷ b'0' ∷ b'1' ∷ []) (b'~' ∷ [])))
        ∙ last_or_zero-concat _ b'~'))
  | inr e ↦ e
]

abbrev NoTilde : Bytes → Type 0
NoTilde [] = Unit
NoTilde (b ∷ t) = (b ≢ b'~') × NoTilde t

paste_collect :
    (t rest : Bytes) (p : InputParser)
    → p.state ≡ paste_buf
    → NoTilde t
    → run p (t ++ rest) ≡ run (record p { buf = p.buf ++ t; state = paste_buf }) rest
paste_collect [] rest p h free = rw (append-nil p.buf) (rw (← h) refl)
paste_collect (b ∷ t) rest p h free =
    paste_step p b (t ++ rest) h (not_ended p.buf b free.0)
    ∙ paste_collect t rest (push p b paste_buf) refl free.1
    ∙ rw append_assoc refl

abbrev marker_head : Bytes
marker_head = 0x1b ∷ b'[' ∷ b'2' ∷ b'0' ∷ b'1' ∷ []

paste_tilde :
    (p : InputParser) (t : Bytes)
    → p.buf ≡ t ++ marker_head
    → in_paste p b'~'
      ≡ record p { out = p.out ++ paste (from_utf8_lossy t) ∷ []; buf = []; state = ground_state }
unfolding in_paste
paste_tilde p t h =
    rw
      (
        h,
        append_assoc t marker_head (b'~' ∷ []),
        ends_with_marker-append t,
        before_marker t,
        take-length-append t end_marker,
      )
      refl

paste_close :
    (p : InputParser)
    → p.state ≡ paste_buf
    → run p end_marker
      ≡ some (record p {
        out = p.out ++ paste (from_utf8_lossy p.buf) ∷ [];
        buf = [];
        state = ground_state;
      })
unfolding run step_in
paste_close p h =
    paste_collect marker_head (b'~' ∷ []) p h (omega arith)
    ∙ ap some (paste_tilde (record p { buf = p.buf ++ marker_head; state = paste_buf }) p.buf refl)

abbrev pub start_marker : Bytes
start_marker = 0x1b ∷ b'[' ∷ b'2' ∷ b'0' ∷ b'0' ∷ b'~' ∷ []

paste_open :
    (p : InputParser)
    → p.state ≡ ground_state
    → run p start_marker ≡ some (record p { buf = []; state = paste_buf })
unfolding run step_in on_ground on_esc on_csi_entry on_csi_param extract_csi_params
paste_open p h = rw h refl

-- A bracketed paste fed to an idle parser with an empty queue: whatever the text, as long as it does not contain the end
-- marker, one paste event with that text comes out, and the parser is idle again.
pub feed_paste :
    (p : InputParser) (t : Bytes)
    → p.state ≡ ground_state
    → p.out ≡ []
    → NoMarker t
    → feed p (start_marker ++ (t ++ end_marker)) ≡ some (init, paste (from_utf8_lossy t) ∷ [])
unfolding feed
feed_paste p t h o free =
    rw
      (
        run-append start_marker (t ++ end_marker) p,
        paste_open p h,
        paste_text t end_marker (record p { buf = []; state = paste_buf }) refl free,
        paste_close (record p { buf = t; state = paste_buf }) refl,
        o,
      )
      refl
