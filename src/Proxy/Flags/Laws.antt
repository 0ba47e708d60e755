-- ===== src/Proxy/Flags/Laws.antt =====
-- What the rewriting of `anthropic-beta` makes of the flags.
use anycode.Base.{
  String, ◌<>◌, ◌≡◌, refl, sym, ap, ◌∙◌, Bool, true, false, not, ◌&&◌, List, [], ◌∷◌, ◌++◌, map,
  any, All, All-map, All-append, All-filter, filter, arith, if◌then◌else◌, subst,
}
use Prim.Native.Char.{Char}
use text.Mathlib.TextLemmas.{nil-append, cons-append}
use anycode.Proxy.Flags.{
  is_comma, is_whitespace, push_char, split, trim_start, end_char, trim_end, trim, join,
  is_adaptive, is_interleaved, flags, strip_thinking_from_beta_header, interleaved_flag,
  with_interleaved, patch_anthropic_beta_header,
}

abbrev no_comma : String → Bool
no_comma String.[] = true
no_comma (String.◌∷◌ c s) = not (is_comma c) && no_comma s

abbrev NoComma : String → Type 0
NoComma s = no_comma s ≡ true

split-NoComma : (s : String) → All NoComma (split s)
unfolding split
split-NoComma String.[] = (refl, tt)
split-NoComma (String.◌∷◌ c s) = go (is_comma c) refl (split s) (split-NoComma s)
  where
    go :
        (t : Bool)
        → is_comma c ≡ t
        → (ps : List String) → All NoComma ps
        → All NoComma (if t then "" ∷ ps else push_char c ps)
    go true e ps h = (refl, h)
    go false e [] h = (ground arith, tt)
    go false e (p ∷ ps) h = (ground (arith, h.0), h.1)

trim_start-NoComma : (s : String) → NoComma s → NoComma (trim_start s)
unfolding trim_start
trim_start-NoComma String.[] h = refl
trim_start-NoComma (String.◌∷◌ c s) h = ground (arith, trim_start-NoComma s)

kept-NoComma :
    (c : Char) (s : String) (t : Bool)
    → NoComma (String.◌∷◌ c s)
    → NoComma (if t then "" else String.◌∷◌ c "")
kept-NoComma c s true h = refl
kept-NoComma c s false h = ground arith

trim_end-NoComma : (s : String) → NoComma s → NoComma (trim_end s)
unfolding trim_end
trim_end-NoComma String.[] h = refl
trim_end-NoComma (String.◌∷◌ c s) h = go (trim_end s) (λ k. trim_end-NoComma s k) h
  where
    go : (r : String) → (NoComma s → NoComma r) → NoComma (String.◌∷◌ c s) → NoComma (end_char c r)
    go String.[] rec k = kept-NoComma c s (is_whitespace c) k
    go (String.◌∷◌ d r) rec k = ground arith

flags-NoComma : (value : String) → All NoComma (flags value)
unfolding flags trim
flags-NoComma value = go (split value) (split-NoComma value)
  where
    go : (ps : List String) → All NoComma ps → All NoComma (map trim ps)
    go [] h = tt
    go (p ∷ ps) h = (trim_end-NoComma (trim_start p) (trim_start-NoComma p h.0), go ps h.1)

comma-append : (s : String) → "," <> s ≡ String.◌∷◌ "," s
comma-append s = cons-append "," "" s ∙ ap (String.◌∷◌ ",") (nil-append s)

-- A part without a comma, in front of a comma.
split-part : (p s : String) → NoComma p → split (p <> ("," <> s)) ≡ p ∷ split s
unfolding split
split-part String.[] s h = ap split (nil-append ("," <> s) ∙ comma-append s)
split-part (String.◌∷◌ c p) s h =
    ap split (cons-append c p ("," <> s)) ∙ ground (arith, split-part p s)

split-last : (p : String) → NoComma p → split p ≡ p ∷ []
unfolding split
split-last String.[] h = refl
split-last (String.◌∷◌ c p) h = ground (arith, split-last p)

-- No flag at all is written like one blank flag.
abbrev pub or_blank : List String → List String
or_blank [] = "" ∷ []
or_blank (p ∷ ps) = p ∷ ps

split-join : (ps : List String) → All NoComma ps → split (join ps) ≡ or_blank ps
unfolding join split
split-join [] h = refl
split-join (p ∷ []) h = split-last p h.0
split-join (p ∷ q ∷ ps) h = split-part p (join (q ∷ ps)) h.0 ∙ ap (◌∷◌ p) (split-join (q ∷ ps) h.1)

-- The flags that pass a test, each with what the test tells.
kept-flags :
    (p : String → Bool) (value : String)
    → All (λ x. NoComma x × (p x ≡ true)) (filter p (flags value))
kept-flags p value = All-filter NoComma p (flags value) (flags-NoComma value)

abbrev pub NotAdaptive : String → Type 0
NotAdaptive part = is_adaptive part ≡ false

any-append :
    (p : String → Bool) (ps : List String) (x : String) → p x ≡ true → any p (ps ++ x ∷ []) ≡ true
any-append p [] x e = ground arith
any-append p (y ∷ ps) x e = ground (arith, any-append p ps x e)

-- Adding the default flag where it is missing.
with_interleaved_lem :
    (ps : List String)
    → All NoComma ps
    → All NotAdaptive ps
    → (split (join (with_interleaved ps)) ≡ with_interleaved ps)
      × (any is_interleaved (with_interleaved ps) ≡ true)
      × All NotAdaptive (with_interleaved ps)
with_interleaved_lem ps h k = go (any is_interleaved ps) refl
  where
    Good : List String → Type 0
    Good qs = (split (join qs) ≡ qs) × (any is_interleaved qs ≡ true) × All NotAdaptive qs

    filled : (qs : List String) → any is_interleaved qs ≡ true → or_blank qs ≡ qs
    filled [] e = cc
    filled (q ∷ qs) e = refl

    good :
        (qs : List String)
        → All NoComma qs
        → any is_interleaved qs ≡ true
        → All NotAdaptive qs
        → Good qs
    good qs c e a = (split-join qs c ∙ filled qs e, e, a)

    go :
        (t : Bool)
        → any is_interleaved ps ≡ t
        → Good (if t then ps else ps ++ interleaved_flag ∷ [])
    go true e = good ps h e k
    go false e =
        good (ps ++ interleaved_flag ∷ [])
          (All-append NoComma ps (interleaved_flag ∷ []) h (refl, tt))
          (any-append is_interleaved ps interleaved_flag refl)
          (All-append NotAdaptive ps (interleaved_flag ∷ []) k (refl, tt))

-- The rewritten header holds exactly the flags of the old one that do not ask for adaptive thinking,
-- in their order, and the flag for interleaved thinking behind them if none of them asks for it: so
-- it asks for interleaved thinking and never for adaptive thinking.
pub split-patch_anthropic_beta_header :
    (value : String)
    → (split (patch_anthropic_beta_header value)
        ≡ with_interleaved (filter (λ part. not (is_adaptive part)) (flags value)))
      × (any is_interleaved (split (patch_anthropic_beta_header value)) ≡ true)
      × All NotAdaptive (split (patch_anthropic_beta_header value))
unfolding patch_anthropic_beta_header
split-patch_anthropic_beta_header value =
    let p = λ (part : String). not (is_adaptive part) in
    let kept = kept-flags p value in
    let (same, one, none_left) =
      with_interleaved_lem (filter p (flags value))
        (All-map (λ x. NoComma x × (p x ≡ true)) NoComma (λ x h. h.0) (filter p (flags value)) kept)
        (All-map (λ x. NoComma x × (p x ≡ true)) NotAdaptive (λ x h. ground arith)
          (filter p (flags value)) kept) in
    (same, ap (any is_interleaved) same ∙ one, subst (All NotAdaptive) (sym same) none_left)

abbrev pub Neutral : String → Type 0
Neutral part = (is_adaptive part ≡ false) × (is_interleaved part ≡ false)

or_blank-Neutral : (ps : List String) → All Neutral ps → All Neutral (or_blank ps)
or_blank-Neutral [] h = ((refl, refl), tt)
or_blank-Neutral (p ∷ ps) h = h

-- When thinking is not active, the rewritten header holds exactly the flags of the old one that ask
-- neither for adaptive nor for interleaved thinking, in their order, or is empty if there are none.
pub split-strip_thinking_from_beta_header :
    (value : String)
    → (split (strip_thinking_from_beta_header value)
        ≡ or_blank
            (filter (λ part. not (is_adaptive part) && not (is_interleaved part)) (flags value)))
      × All Neutral (split (strip_thinking_from_beta_header value))
unfolding strip_thinking_from_beta_header
split-strip_thinking_from_beta_header value =
    let p = λ (part : String). not (is_adaptive part) && not (is_interleaved part) in
    let kept = kept-flags p value in
    let same = split-join (filter p (flags value)) (
      All-map (λ x. NoComma x × (p x ≡ true)) NoComma (λ x h. h.0) (filter p (flags value)) kept) in
    (
      same,
      subst (All Neutral) (sym same) (
          or_blank-Neutral (filter p (flags value)) (
            All-map (λ x. NoComma x × (p x ≡ true)) Neutral (λ x h. ground arith)
              (filter p (flags value)) kept)),
    )
