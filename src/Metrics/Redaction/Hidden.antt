-- ===== src/Metrics/Redaction/Hidden.antt =====
-- What a masked text tells of a secret (src/metrics/redaction.rs).
use anycode.Base.{
  ℕ, suc, ◌≤◌, ◌<◌, ◌≡◌, ◌≢◌, refl, sym, ap, ◌∙◌, Bool, true, false, not, ◌&&◌, none, some, [], ◌∷◌,
  ◌++◌, length, length-append, append_assoc, arith, ==_iff, is_some, ◌>>=◌,
}
use anycode.Metrics.Redaction.{
  Chars, redacted, trim_start, end_char, trim_end, last_four, masked, strip_prefix, extend, found,
  find, ends_value, value_of, behind_value, mask_value, mask_loop, mask_key_value,
}
use anycode.Metrics.Redaction.Scan.{round, mask_loop-round, mask_loop-stable}

-- No match begins inside the text, when the pattern follows it.
unfoldable pub free : Chars → Chars → Bool
free pattern [] = true
free pattern (c ∷ s) =
    let rest = free pattern s in not (is_some (strip_prefix ((c ∷ s) ++ pattern) pattern)) && rest

strip_prefix-append : (p s : Chars) → strip_prefix (p ++ s) p ≡ some s
strip_prefix-append [] s = refl
strip_prefix-append (c ∷ p) s = ground (arith, strip_prefix-append p s, ==_iff c c)

-- A text at least as long as the pattern begins with it or not, whatever follows the text.
strip_prefix-long :
    (s p x : Chars)
    → length p ≤ length s
    → is_some (strip_prefix s p) ≡ false
    → strip_prefix (s ++ x) p ≡ none
strip_prefix-long s [] x le h = cc
strip_prefix-long [] (d ∷ p) x le h = ground arith
strip_prefix-long (c ∷ s) (d ∷ p) x le h = ground (arith, strip_prefix-long s p x)

find-here : (s p : Chars) (r : Chars) → strip_prefix s p ≡ some r → find s p ≡ some ([], r)
unfolding find
find-here [] p r e = ap (λ o. found o none) e
find-here (c ∷ s) p r e = ap (λ o. found o (extend c (find s p))) e

-- The first match is behind a text that is free of matches.
find-free : (pre p x : Chars) → free p pre ≡ true → find (pre ++ (p ++ x)) p ≡ some (pre, x)
unfolding find free
find-free [] p x h = find-here (p ++ x) p x (strip_prefix-append p x)
find-free (c ∷ pre) p x h =
    let parts : (is_some (strip_prefix ((c ∷ pre) ++ p) p) ≡ false) × (free p pre ≡ true) =
      ground arith in
    let long : length p ≤ length ((c ∷ pre) ++ p) = omega (arith, length-append (c ∷ pre) p) in
    ap (λ o. found o (extend c (find (pre ++ (p ++ x)) p)))
      (ap (λ s. strip_prefix s p) (sym (append_assoc (c ∷ pre) p x))
        ∙ strip_prefix-long ((c ∷ pre) ++ p) p x long parts.0)
    ∙ ap (extend c) (find-free pre p x parts.1)

-- A value without an end in it, in front of one.
abbrev pub is_value : Chars → Bool
is_value [] = true
is_value (c ∷ s) = not (ends_value c) && is_value s

abbrev pub at_end : Chars → Bool
at_end [] = true
at_end (c ∷ s) = ends_value c

value_of-append :
    (v post : Chars)
    → is_value v ≡ true
    → at_end post ≡ true
    → (value_of (v ++ post) ≡ v) × (behind_value (v ++ post) ≡ post)
unfolding value_of behind_value
value_of-append [] [] h k = (refl, refl)
value_of-append [] (c ∷ post) h k = ground arith
value_of-append (c ∷ v) post h k = ground (arith, value_of-append v post)

enough :
    (key : Chars) (fuel : ℕ) (post : Chars)
    → length post < fuel
    → mask_loop fuel (key ++ 0x3d ∷ []) post ≡ mask_loop (suc (length post)) (key ++ 0x3d ∷ []) post
enough [] fuel post lt = mask_loop-stable fuel (suc (length post)) 0x3d [] post lt (omega arith)
enough (d ∷ key) fuel post lt =
    mask_loop-stable fuel (suc (length post)) d (key ++ 0x3d ∷ []) post lt (omega arith)

-- The text with a value behind a key, after its first round.
masked_text :
    (pre key v post : Chars)
    → free (key ++ 0x3d ∷ []) pre ≡ true
    → is_value v ≡ true
    → at_end post ≡ true
    → mask_key_value (pre ++ ((key ++ 0x3d ∷ []) ++ (v ++ post))) key ≡ (
        mask_loop (suc (length post)) (key ++ 0x3d ∷ []) post >>= λ t.
        some (pre ++ ((key ++ 0x3d ∷ []) ++ (mask_value v ++ t))))
unfolding mask_key_value
masked_text pre key v post h k e =
    let p = key ++ 0x3d ∷ [] in
    let text = pre ++ (p ++ (v ++ post)) in
    let (val, rest) = value_of-append v post k e in
    mask_loop-round (length text) p text
    ∙ ap (round p text (mask_loop (length text) p)) (find-free pre p (v ++ post) h)
    ∙ ap
        (λ s. mask_loop (length text) p s >>= λ t.
          some (pre ++ (p ++ (mask_value (value_of (v ++ post)) ++ t))))
        rest
    ∙ ap (λ s. mask_loop (length text) p post >>= λ t. some (pre ++ (p ++ (mask_value s ++ t)))) val
    ∙ ap (λ q. q >>= λ t. some (pre ++ (p ++ (mask_value v ++ t))))
        (enough key (length text) post (
          omega (
            arith,
            length-append pre (p ++ (v ++ post)),
            length-append p (v ++ post),
            length-append v post,
            length-append key (0x3d ∷ []),
          )))

trim_end-value : (v : Chars) → is_value v ≡ true → trim_end v ≡ v
unfolding trim_end
trim_end-value [] h = refl
trim_end-value (c ∷ []) h = ground arith
trim_end-value (c ∷ d ∷ s) h =
    let parts : (ends_value c ≡ false) × (is_value (d ∷ s) ≡ true) = ground arith in
    ap (end_char c) (trim_end-value (d ∷ s) parts.1)

trim_start-value : (v : Chars) → is_value v ≡ true → trim_start v ≡ v
unfolding trim_start
trim_start-value [] h = refl
trim_start-value (c ∷ s) h = ground arith

-- The mask of a value shows its last four characters.
mask_value-shown : (v : Chars) → is_value v ≡ true → mask_value v ≡ masked v
unfolding mask_value
mask_value-shown v h =
    ap (λ s. masked (trim_end s)) (trim_start-value v h) ∙ ap masked (trim_end-value v h)

same_mask :
    (v w : Chars)
    → is_value v ≡ true
    → is_value w ≡ true
    → last_four v ≡ last_four w
    → v ≢ []
    → w ≢ []
    → mask_value v ≡ mask_value w
same_mask [] w h k e n m = absurd (n refl)
same_mask (c ∷ v) [] h k e n m = absurd (m refl)
same_mask (c ∷ v) (d ∷ w) h k e n m =
    mask_value-shown (c ∷ v) h ∙ ap (◌++◌ redacted) e ∙ sym (mask_value-shown (d ∷ w) k)

-- A secret does not show: in a text with a secret behind a key, where the key does not occur before
-- and a blank, an ampersand or the end of the text follows the secret, any other secret with the same
-- last four characters gives the same masked text, whatever its length and whatever else the text
-- holds. Neither secret is empty or holds a blank or an ampersand.
pub mask_key_value-hidden :
    (pre key v w post : Chars)
    → free (key ++ 0x3d ∷ []) pre ≡ true
    → is_value v ≡ true
    → is_value w ≡ true
    → at_end post ≡ true
    → last_four v ≡ last_four w
    → v ≢ []
    → w ≢ []
    → mask_key_value (pre ++ ((key ++ 0x3d ∷ []) ++ (v ++ post))) key
      ≡ mask_key_value (pre ++ ((key ++ 0x3d ∷ []) ++ (w ++ post))) key
mask_key_value-hidden pre key v w post h k l e same some_v some_w =
    let p = key ++ 0x3d ∷ [] in
    masked_text pre key v post h k e
    ∙ ap (λ m. mask_loop (suc (length post)) p post >>= λ t. some (pre ++ (p ++ (m ++ t))))
        (same_mask v w k l same some_v some_w)
    ∙ sym (masked_text pre key w post h l e)
