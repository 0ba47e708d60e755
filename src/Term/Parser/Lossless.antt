-- ===== src/Term/Parser/Lossless.antt =====
-- No byte is lost: the raw bytes of the emitted keys, followed by the bytes still pending, are the
-- bytes that were fed, as long as neither a mouse report nor a paste is decoded.
use anycode.Base.{
  ℕ, ◌≡◌, refl, Bool, true, false, Option, none, some, [], ◌∷◌, ◌++◌, arith, Bytes, if◌then◌else◌,
  append_assoc, append-nil, ◌>>=◌, ap, sym, ◌∙◌, subst,
}
use mathlib.Core.Option.{some-injective}
use anycode.Term.Event.{MouseEvent, unknown}
use anycode.Term.Parser.{
  State, ground_state, esc_received, csi_entry, csi_param, ss3_pending, mouse_x10, sgr_mouse,
  paste_buf, utf8, InputParser, abandon, on_ground, on_mouse_x10, on_sgr_mouse, utf8_cont, step_in,
  step, run, x10_of, sgr_done,
}
use anycode.Term.Parser.Valid.{IsValid, BufInv, step-Safe, Safe}
use anycode.Term.Parser.Conserves.{
  not_paste, forwardable, taken, forwarded-concat, keys_only-concat, Conserves, finish-Conserves,
  push-Conserves, on_ground-Conserves, on_esc-Conserves, on_csi_entry-Conserves,
  on_csi_param-Conserves, emit_mouse-Conserves, in_paste-Conserves,
}

-- Of a step that may panic, every result conserves.
pub data ConservesAll (p : InputParser) (b : ℕ) : Option InputParser → Type 0 where
  panics : ConservesAll p b none
  goes : {q : InputParser} → Conserves p b q → ConservesAll p b (some q)

ConservesAll-if :
    (c : Bool) {p : InputParser} {b : ℕ} (x y : Option InputParser)
    → (c ≡ true → ConservesAll p b x)
    → (c ≡ false → ConservesAll p b y)
    → ConservesAll p b (if c then x else y)
ConservesAll-if true x y hx hy = hx refl
ConservesAll-if false x y hx hy = hy refl

ruleset all_rules =
    (ConservesAll-if, panics, goes, finish-Conserves, push-Conserves, emit_mouse-Conserves)

-- A byte that does not continue a character is taken from `Ground`, behind the pending ones.
abandon-Conserves :
    (p : InputParser) (b : ℕ) → not_paste p.state ≡ true → Conserves p b (on_ground (abandon p) b)
abandon-Conserves p b h = record {
  at = λ f.
      let (g, t) = (on_ground-Conserves (abandon p) b refl refl).at f in
      (
        ground (arith, g, keys_only-concat p.out (record { raw = p.buf; kind = unknown })),
        t ∙ rw (append-nil, forwarded-concat) refl,
      );
}

utf8_cont-ConservesAll :
    (p : InputParser) (b n : ℕ) → not_paste p.state ≡ true → ConservesAll p b (utf8_cont p b n)
unfolding utf8_cont
utf8_cont-ConservesAll p b n h = search (all_rules, abandon-Conserves) depth 10

x10_of-ConservesAll :
    (p : InputParser) (b : ℕ) (x y z : Option ℕ) → ConservesAll p b (x10_of p x y z)
unfolding x10_of
x10_of-ConservesAll p b (some x) (some y) (some z) = goes (emit_mouse-Conserves p b _)
x10_of-ConservesAll p b none y z = panics
x10_of-ConservesAll p b (some x) none z = panics
x10_of-ConservesAll p b (some x) (some y) none = panics

on_mouse_x10-ConservesAll :
    (p : InputParser) (b n : ℕ) → not_paste p.state ≡ true → ConservesAll p b (on_mouse_x10 p b n)
unfolding on_mouse_x10
on_mouse_x10-ConservesAll p b n h = search (all_rules, x10_of-ConservesAll) depth 10

sgr_done-ConservesAll :
    (p : InputParser) (b : ℕ) (r : Option (Option MouseEvent))
    → not_paste p.state ≡ true
    → ConservesAll p b (sgr_done p b r)
unfolding sgr_done
sgr_done-ConservesAll p b none h = panics
sgr_done-ConservesAll p b (some none) h = goes (finish-Conserves p b _ h)
sgr_done-ConservesAll p b (some (some e)) h = goes (emit_mouse-Conserves p b e)

on_sgr_mouse-ConservesAll :
    (p : InputParser) (b : ℕ) → not_paste p.state ≡ true → ConservesAll p b (on_sgr_mouse p b)
unfolding on_sgr_mouse
on_sgr_mouse-ConservesAll p b h = search (all_rules, sgr_done-ConservesAll) depth 10

step_in-ConservesAll :
    (s : State) (p : InputParser) (b : ℕ)
    → p.state ≡ s
    → BufInv s p.buf
    → ConservesAll p b (step_in s p b)
unfolding step_in
step_in-ConservesAll ground_state p b e h = goes (on_ground-Conserves p b (ap not_paste e) h)
step_in-ConservesAll esc_received p b e h = goes (on_esc-Conserves p b (ap not_paste e) h)
step_in-ConservesAll csi_entry p b e h = goes (on_csi_entry-Conserves p b (ap not_paste e))
step_in-ConservesAll csi_param p b e h = goes (on_csi_param-Conserves p b (ap not_paste e))
step_in-ConservesAll ss3_pending p b e h = goes (finish-Conserves p b _ (ap not_paste e))
step_in-ConservesAll (mouse_x10 n) p b e h = on_mouse_x10-ConservesAll p b n (ap not_paste e)
step_in-ConservesAll sgr_mouse p b e h = on_sgr_mouse-ConservesAll p b (ap not_paste e)
step_in-ConservesAll paste_buf p b e h = goes (in_paste-Conserves p b e)
step_in-ConservesAll (utf8 n) p b e h = utf8_cont-ConservesAll p b n (ap not_paste e)

run-taken :
    (bs : Bytes) (p : InputParser) {q : InputParser}
    → IsValid p
    → run p bs ≡ some q
    → forwardable q ≡ true
    → (forwardable p ≡ true) × (taken q ≡ taken p ++ bs)
unfolding run
run-taken [] p {q} v e f =
    subst (λ r. forwardable r ≡ true → (forwardable p ≡ true) × (taken r ≡ taken p ++ []))
      (some-injective p q e) (λ f. (f, sym (append-nil _))) f
run-taken (b ∷ bs) p {q} v e f =
    go (step p b) (step-Safe p b v) (step_in-ConservesAll p.state p b refl v) e
      (λ r w h. run-taken bs r w h f)
  where
    go :
        (o : Option InputParser)
        → Safe o
        → ConservesAll p b o
        → (o >>= λ r. run r bs) ≡ some q
        → ((r : InputParser)
            → IsValid r
            → run r bs ≡ some q
            → (forwardable r ≡ true) × (taken q ≡ taken r ++ bs))
        → (forwardable p ≡ true) × (taken q ≡ taken p ++ b ∷ bs)
    go none w c h rec = elim w [ ]
    go (some r) w (goes c) h rec =
        let (g, t) = rec r w h in
        let (g', t') = c.at g in (g', t ∙ ap (λ x. x ++ bs) t' ∙ append_assoc (taken p) (b ∷ []) bs)

-- From a valid parser: if after feeding `bs` only keys have been emitted and no paste is open, then
-- the raw bytes of the keys followed by the bytes still pending are those there were before,
-- followed by `bs`: nothing is lost, added or reordered.
pub run_lossless :
    (bs : Bytes) (p : InputParser) {q : InputParser}
    → IsValid p
    → run p bs ≡ some q
    → forwardable q ≡ true
    → taken q ≡ taken p ++ bs
run_lossless bs p v e f = (run-taken bs p v e f).1
