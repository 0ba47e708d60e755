-- ===== src/Term/Parser/Chunks.antt =====
-- How the input is cut into chunks does not matter: the queue is only appended to.
use anycode.Base.{
  ℕ, ◌-◌, ◌≡◌, refl, Option, none, some, List, [], ◌∷◌, ◌++◌, arith, Bytes, append_assoc,
  append-nil, ap, ◌==◌, ◌>>=◌, length, get_elem?,
}
use anycode.Term.Event.{InputEvent, MouseEvent}
use anycode.Term.Mouse.{parse_sgr_mouse}
use anycode.Term.Parser.{
  State, ground_state, esc_received, csi_entry, csi_param, ss3_pending, mouse_x10, sgr_mouse,
  paste_buf, utf8, InputParser, abandon, on_ground, on_esc, on_csi_entry, on_csi_param,
  on_mouse_x10, on_sgr_mouse, utf8_cont, in_paste, step_in, step, run, feed, drain, x10_of,
  sgr_done,
}

-- The parser with these events in front of its queue.
abbrev after : List InputEvent → InputParser → InputParser
after o p = record p { out = o ++ p.out }

abbrev after? : List InputEvent → Option InputParser → Option InputParser
after? o none = none
after? o (some q) = some (after o q)

on_ground-after :
    (o : List InputEvent) (p : InputParser) (b : ℕ)
    → on_ground (after o p) b ≡ after o (on_ground p b)
unfolding on_ground
on_ground-after o p b = simp append_assoc (ground arith)

on_esc-after :
    (o : List InputEvent) (p : InputParser) (b : ℕ) → on_esc (after o p) b ≡ after o (on_esc p b)
unfolding on_esc
on_esc-after o p b = simp append_assoc (ground arith)

on_csi_entry-after :
    (o : List InputEvent) (p : InputParser) (b : ℕ)
    → on_csi_entry (after o p) b ≡ after o (on_csi_entry p b)
unfolding on_csi_entry
on_csi_entry-after o p b = simp append_assoc (ground arith)

on_csi_param-after :
    (o : List InputEvent) (p : InputParser) (b : ℕ)
    → on_csi_param (after o p) b ≡ after o (on_csi_param p b)
unfolding on_csi_param
on_csi_param-after o p b = simp append_assoc (ground arith)

in_paste-after :
    (o : List InputEvent) (p : InputParser) (b : ℕ)
    → in_paste (after o p) b ≡ after o (in_paste p b)
unfolding in_paste
in_paste-after o p b = simp append_assoc (ground arith)

utf8_cont-after :
    (o : List InputEvent) (p : InputParser) (b n : ℕ)
    → utf8_cont (after o p) b n ≡ after? o (utf8_cont p b n)
unfolding utf8_cont
utf8_cont-after o p b n = simp (append_assoc, on_ground-after o (abandon p) b) (ground arith)

x10_of-after :
    (o : List InputEvent) (p : InputParser) (x y z : Option ℕ)
    → x10_of (after o p) x y z ≡ after? o (x10_of p x y z)
unfolding x10_of
x10_of-after o p (some x) (some y) (some z) = simp append_assoc
x10_of-after o p none y z = refl
x10_of-after o p (some x) none z = refl
x10_of-after o p (some x) (some y) none = refl

on_mouse_x10-after :
    (o : List InputEvent) (p : InputParser) (b n : ℕ)
    → on_mouse_x10 (after o p) b n ≡ after? o (on_mouse_x10 p b n)
unfolding on_mouse_x10
on_mouse_x10-after o p b n =
    let buf = p.buf ++ b ∷ [] in
    let at = λ (k : ℕ). get_elem? buf (length buf - k) in
    ground (arith, x10_of-after o p (at 3) (at 2) (at 1))

sgr_done-after :
    (o : List InputEvent) (p : InputParser) (b : ℕ) (r : Option (Option MouseEvent))
    → sgr_done (after o p) b r ≡ after? o (sgr_done p b r)
unfolding sgr_done
sgr_done-after o p b none = refl
sgr_done-after o p b (some none) = simp append_assoc
sgr_done-after o p b (some (some e)) = simp append_assoc

on_sgr_mouse-after :
    (o : List InputEvent) (p : InputParser) (b : ℕ)
    → on_sgr_mouse (after o p) b ≡ after? o (on_sgr_mouse p b)
unfolding on_sgr_mouse
on_sgr_mouse-after o p b =
    simp append_assoc
      (ground (arith, sgr_done-after o p b (parse_sgr_mouse (p.buf ++ b ∷ []) (b == b'm'))))

step_in-after :
    (s : State) (o : List InputEvent) (p : InputParser) (b : ℕ)
    → step_in s (after o p) b ≡ after? o (step_in s p b)
unfolding step_in
step_in-after ground_state o p b = ap some (on_ground-after o p b)
step_in-after esc_received o p b = ap some (on_esc-after o p b)
step_in-after csi_entry o p b = ap some (on_csi_entry-after o p b)
step_in-after csi_param o p b = ap some (on_csi_param-after o p b)
step_in-after ss3_pending o p b = simp append_assoc
step_in-after (mouse_x10 n) o p b = on_mouse_x10-after o p b n
step_in-after sgr_mouse o p b = on_sgr_mouse-after o p b
step_in-after paste_buf o p b = ap some (in_paste-after o p b)
step_in-after (utf8 n) o p b = utf8_cont-after o p b n

pub run-after :
    (bs : Bytes) (o : List InputEvent) (p : InputParser) → run (after o p) bs ≡ after? o (run p bs)
unfolding run
run-after [] o p = refl
run-after (b ∷ bs) o p =
    rw (step_in-after p.state o p b, run) (go (step_in p.state p b) (λ q. run-after bs o q))
  where
    go :
        (r : Option InputParser)
        → ((q : InputParser) → run (after o q) bs ≡ after? o (run q bs))
        → (after? o r >>= λ q. run q bs) ≡ after? o (r >>= λ q. run q bs)
    go none rec = refl
    go (some q) rec = rec q

pub run-append : (xs ys : Bytes) (p : InputParser) → run p (xs ++ ys) ≡ (run p xs >>= λ q. run q ys)
unfolding run
run-append [] ys p = refl
run-append (x ∷ xs) ys p = go (step p x) (λ q. run-append xs ys q)
  where
    go :
        (r : Option InputParser)
        → ((q : InputParser) → run q (xs ++ ys) ≡ (run q xs >>= λ t. run t ys))
        → (r >>= λ q. run q (xs ++ ys)) ≡ (r >>= (λ q. run q xs) >>= λ t. run t ys)
    go none rec = refl
    go (some q) rec = rec q

-- What `feed` returns, in terms of the loop.
feed-run :
    (xs : Bytes) (p q : InputParser) (es : List InputEvent)
    → feed p xs ≡ some (q, es)
    → run p xs ≡ some (after es q)
unfolding feed
feed-run xs p q es = go (run p xs)
  where
    go :
        (r : Option InputParser)
        → (r >>= λ t. some (drain t)) ≡ some (q, es)
        → r ≡ some (after es q)
    go none h = cc
    go (some t) h = ground (arith, append-nil t.out)

feed-out :
    (xs : Bytes) (p q : InputParser) (es : List InputEvent) → feed p xs ≡ some (q, es) → q.out ≡ []
unfolding feed
feed-out xs p q es = go (run p xs)
  where
    go : (r : Option InputParser) → (r >>= λ t. some (drain t)) ≡ some (q, es) → q.out ≡ []
    go none h = cc
    go (some t) h = ground arith

-- Feeding `xs` and then `ys` gives the events, in order, and the parser of feeding `xs ++ ys` at
-- once.
pub feed-append :
    (xs ys : Bytes) (p q r : InputParser) (es fs : List InputEvent)
    → feed p xs ≡ some (q, es)
    → feed q ys ≡ some (r, fs)
    → feed p (xs ++ ys) ≡ some (r, es ++ fs)
unfolding feed
feed-append xs ys p q r es fs h k =
    rw (feed, run-append xs ys p, feed-run xs p q es h, run-after ys es q, feed-run ys q r fs k)
      (ground (arith, feed-out ys q r fs k, append-nil fs))
