-- ===== src/Metrics/Redaction.antt =====
-- How secrets in texts are masked (src/metrics/redaction.rs). A text is the list of its characters, as
-- their code points; the places where the source cuts a text are the ends of matches, which are
-- ends of characters. The loop runs on fuel, which bounds the number of its rounds.
pub mod Scan
pub mod Hidden
use anycode.Base.{
  ℕ, zero, suc, ◌-◌, Bool, true, false, not, ◌&&◌, ◌||◌, Option, none, some, List, [], ◌∷◌, ◌++◌,
  ◌==◌, drop, length, white_space, if◌then◌else◌, ◌>>=◌,
}

abbrev pub Chars : Type 0
Chars = List ℕ

-- `"****"`
abbrev pub redacted : Chars
redacted = 0x2a ∷ 0x2a ∷ 0x2a ∷ 0x2a ∷ []

unfoldable pub trim_start : Chars → Chars
trim_start [] = []
trim_start (c ∷ s) = let rest = trim_start s in if white_space c then rest else c ∷ s

abbrev pub end_char : ℕ → Chars → Chars
end_char c [] = if white_space c then [] else c ∷ []
end_char c (d ∷ s) = c ∷ d ∷ s

unfoldable pub trim_end : Chars → Chars
trim_end [] = []
trim_end (c ∷ s) = end_char c (trim_end s)

abbrev pub last_four : Chars → Chars
last_four s = drop (length s - 4) s

abbrev pub masked : Chars → Chars
masked [] = redacted
masked (c ∷ s) = redacted ++ last_four (c ∷ s)

-- Taking four characters from the end and turning them round is the last four characters.
unfoldable pub mask_value : Chars → Chars
unfolding trim_start trim_end
mask_value value = masked (trim_end (trim_start value))

-- `s.strip_prefix(p)`
abbrev pub strip_prefix : Chars → Chars → Option Chars
strip_prefix s [] = some s
strip_prefix [] (d ∷ p) = none
strip_prefix (c ∷ s) (d ∷ p) = let rest = strip_prefix s p in if c == d then rest else none

abbrev pub extend : ℕ → Option (Chars × Chars) → Option (Chars × Chars)
extend c none = none
extend c (some (before, after)) = some (c ∷ before, after)

abbrev pub found : Option Chars → Option (Chars × Chars) → Option (Chars × Chars)
found none o = o
found (some rest) o = some ([], rest)

-- `s.find(p)`: what stands before the first match, and what stands behind it.
unfoldable pub find : Chars → Chars → Option (Chars × Chars)
find [] p = found (strip_prefix [] p) none
find (c ∷ s) p = let rest = find s p in found (strip_prefix (c ∷ s) p) (extend c rest)

-- `|c| c == '&' || c.is_whitespace()`
abbrev pub ends_value : ℕ → Bool
ends_value c = c == 0x26 || white_space c

-- The first piece of `split(ends_value)`, and what follows it.
unfoldable pub value_of : Chars → Chars
value_of [] = []
value_of (c ∷ s) = let rest = value_of s in if ends_value c then [] else c ∷ rest

unfoldable pub behind_value : Chars → Chars
behind_value [] = []
behind_value (c ∷ s) = let rest = behind_value s in if ends_value c then c ∷ s else rest

-- The loop, over what is left of the text.
unfoldable pub mask_loop : ℕ → Chars → Chars → Option Chars
unfolding find value_of behind_value mask_value
mask_loop zero pattern rest = none
mask_loop (suc fuel) pattern rest = elim (find rest pattern) [
  | none ↦ some rest
  | some m ↦ mask_loop fuel pattern (behind_value m.1) >>= λ t.
      some (m.0 ++ (pattern ++ (mask_value (value_of m.1) ++ t)))
]

-- The text has one round for each match, and each match has a character at least.
unfoldable pub mask_key_value : Chars → Chars → Option Chars
unfolding mask_loop
mask_key_value input key = mask_loop (suc (length input)) (key ++ 0x3d ∷ []) input
