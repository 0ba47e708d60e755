-- ===== src/Proxy/Flags.antt =====
-- The values of the header `anthropic-beta` (src/proxy/pipeline/headers.rs): flags with commas in
-- between, as `split(',')`, `trim` and `join(",")` take them apart and put them together.
pub mod Laws
pub mod Trim
use anycode.Base.{
  ℕ, String, ◌<>◌, ◌≡◌, refl, sym, ap, ◌∙◌, Bool, true, false, not, ◌&&◌, ◌||◌, List, [], ◌∷◌, ◌++◌,
  map, any, All, arith, starts_with, filter, white_space, ◌==◌, leb, if◌then◌else◌,
}
use Prim.Native.Char.{Char, code}
use text.Mathlib.TextLemmas.{nil-append, cons-append, append-nil}

abbrev pub is_comma : Char → Bool
is_comma c = code c == 0x2c

abbrev pub is_whitespace : Char → Bool
is_whitespace c = white_space (code c)

abbrev pub push_char : Char → List String → List String
push_char c [] = String.◌∷◌ c "" ∷ []
push_char c (p ∷ ps) = String.◌∷◌ c p ∷ ps

-- `s.split(',')`
unfoldable pub split : String → List String
split String.[] = "" ∷ []
split (String.◌∷◌ c s) = let rest = split s in if is_comma c then "" ∷ rest else push_char c rest

unfoldable pub trim_start : String → String
trim_start String.[] = ""
trim_start (String.◌∷◌ c s) =
    let rest = trim_start s in if is_whitespace c then rest else String.◌∷◌ c s

abbrev pub end_char : Char → String → String
end_char c String.[] = if is_whitespace c then "" else String.◌∷◌ c ""
end_char c (String.◌∷◌ d s) = String.◌∷◌ c (String.◌∷◌ d s)

unfoldable pub trim_end : String → String
trim_end String.[] = ""
trim_end (String.◌∷◌ c s) = end_char c (trim_end s)

-- `s.trim()`
unfoldable pub trim : String → String
unfolding trim_start trim_end
trim s = trim_end (trim_start s)

-- `parts.join(",")`
unfoldable pub join : List String → String
join [] = ""
join (p ∷ []) = p
join (p ∷ q ∷ ps) = p <> ("," <> join (q ∷ ps))

abbrev pub is_adaptive : String → Bool
is_adaptive part = starts_with part "adaptive-thinking-"

abbrev pub is_interleaved : String → Bool
is_interleaved part = starts_with part "interleaved-thinking-"

-- `value.split(',').map(|p| p.trim())`
unfoldable pub flags : String → List String
unfolding split trim
flags value = map trim (split value)

unfoldable pub strip_thinking_from_beta_header : String → String
unfolding flags join
strip_thinking_from_beta_header value =
    join (filter (λ part. not (is_adaptive part) && not (is_interleaved part)) (flags value))

abbrev pub interleaved_flag : String
interleaved_flag = "interleaved-thinking-2025-05-14"

abbrev pub with_interleaved : List String → List String
with_interleaved parts = if any is_interleaved parts then parts else parts ++ interleaved_flag ∷ []

unfoldable pub patch_anthropic_beta_header : String → String
unfolding flags join
patch_anthropic_beta_header value =
    join (with_interleaved (filter (λ part. not (is_adaptive part)) (flags value)))
