-- ===== src/Proxy/Flags/Trim.antt =====
-- The flags of a rewritten `anthropic-beta` have no white space around them.
use anycode.Base.{
  String, ◌≡◌, refl, sym, ap, ◌∙◌, Bool, true, false, List, [], ◌∷◌, map, any, All, All-map,
  All-append, All-filter, filter, not, ◌&&◌, ◌++◌, white_space, if◌then◌else◌, subst,
}
use anycode.Proxy.Flags.{
  is_whitespace, trim_start, end_char, trim_end, trim, split, flags, is_adaptive, is_interleaved,
  interleaved_flag, with_interleaved, patch_anthropic_beta_header, strip_thinking_from_beta_header,
}
use anycode.Proxy.Flags.Laws.{
  or_blank, split-patch_anthropic_beta_header, split-strip_thinking_from_beta_header,
}

abbrev pub Trimmed : String → Type 0
Trimmed s = trim s ≡ s

-- It does not begin with white space.
abbrev Flush : String → Type 0
Flush String.[] = Unit
Flush (String.◌∷◌ c s) = is_whitespace c ≡ false

trim_start-Flush : (s : String) → Flush (trim_start s)
unfolding trim_start
trim_start-Flush String.[] = tt
trim_start-Flush (String.◌∷◌ c s) = go (is_whitespace c) refl (trim_start-Flush s)
  where
    go :
        (b : Bool)
        → is_whitespace c ≡ b
        → Flush (trim_start s)
        → Flush (if b then trim_start s else String.◌∷◌ c s)
    go true e h = h
    go false e h = e

trim_start-same : (s : String) → Flush s → trim_start s ≡ s
unfolding trim_start
trim_start-same String.[] h = refl
trim_start-same (String.◌∷◌ c s) h = ap (λ b. if b then trim_start s else String.◌∷◌ c s) h

trim_end-Flush : (s : String) → Flush s → Flush (trim_end s)
unfolding trim_end
trim_end-Flush String.[] h = tt
trim_end-Flush (String.◌∷◌ c s) h = go (trim_end s)
  where
    go : (r : String) → Flush (end_char c r)
    go String.[] = subst (λ b. Flush (if b then "" else String.◌∷◌ c "")) (sym h) h
    go (String.◌∷◌ d r) = h

trim_end-twice : (s : String) → trim_end (trim_end s) ≡ trim_end s
unfolding trim_end
trim_end-twice String.[] = refl
trim_end-twice (String.◌∷◌ c s) = go (trim_end s) (trim_end-twice s)
  where
    one :
        (b : Bool)
        → is_whitespace c ≡ b
        → trim_end (if b then "" else String.◌∷◌ c "") ≡ (if b then "" else String.◌∷◌ c "")
    one true e = refl
    one false e = ap (λ b. if b then "" else String.◌∷◌ c "") e

    go : (r : String) → trim_end r ≡ r → trim_end (end_char c r) ≡ end_char c r
    go String.[] h = one (is_whitespace c) refl
    go (String.◌∷◌ d r) h = ap (end_char c) h

trim-Trimmed : (s : String) → Trimmed (trim s)
unfolding trim
trim-Trimmed s =
    ap trim_end (
      trim_start-same (trim_end (trim_start s))
        (trim_end-Flush (trim_start s) (trim_start-Flush s)))
    ∙ trim_end-twice (trim_start s)

map-trim-Trimmed : (ps : List String) → All Trimmed (map trim ps)
map-trim-Trimmed [] = tt
map-trim-Trimmed (p ∷ ps) = (trim-Trimmed p, map-trim-Trimmed ps)

flags-Trimmed : (value : String) → All Trimmed (flags value)
unfolding flags
flags-Trimmed value = map-trim-Trimmed (split value)

filter-Trimmed : (p : String → Bool) (value : String) → All Trimmed (filter p (flags value))
filter-Trimmed p value =
    All-map (λ x. Trimmed x × (p x ≡ true)) Trimmed (λ x h. h.0) (filter p (flags value))
      (All-filter Trimmed p (flags value) (flags-Trimmed value))

interleaved_flag-Trimmed : Trimmed interleaved_flag
unfolding trim trim_start trim_end white_space
interleaved_flag-Trimmed = refl

blank-Trimmed : Trimmed ""
unfolding trim trim_start trim_end
blank-Trimmed = refl

with_interleaved-Trimmed : (ps : List String) → All Trimmed ps → All Trimmed (with_interleaved ps)
with_interleaved-Trimmed ps h = go (any is_interleaved ps)
  where
    go : (b : Bool) → All Trimmed (if b then ps else ps ++ interleaved_flag ∷ [])
    go true = h
    go false = All-append Trimmed ps (interleaved_flag ∷ []) h (interleaved_flag-Trimmed, tt)

or_blank-Trimmed : (ps : List String) → All Trimmed ps → All Trimmed (or_blank ps)
or_blank-Trimmed [] h = (blank-Trimmed, tt)
or_blank-Trimmed (p ∷ ps) h = h

pub patch_anthropic_beta_header-Trimmed :
    (value : String) → All Trimmed (split (patch_anthropic_beta_header value))
patch_anthropic_beta_header-Trimmed value =
    subst (All Trimmed) (sym (split-patch_anthropic_beta_header value).0)
      (with_interleaved-Trimmed _ (filter-Trimmed (λ part. not (is_adaptive part)) value))

pub strip_thinking_from_beta_header-Trimmed :
    (value : String) → All Trimmed (split (strip_thinking_from_beta_header value))
strip_thinking_from_beta_header-Trimmed value =
    subst (All Trimmed) (sym (split-strip_thinking_from_beta_header value).0) (
      or_blank-Trimmed _
        (filter-Trimmed (λ part. not (is_adaptive part) && not (is_interleaved part)) value))
