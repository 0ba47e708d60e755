-- ===== src/Base/Utf8.antt =====
-- UTF-8 decoding as in Rust's standard library: `str::from_utf8` and `String::from_utf8_lossy`.
-- A malformed sequence is replaced by one U+FFFD for its longest valid beginning.
use Prim.Native.Nat.{ℕ, zero, suc, ◌+◌, ◌-◌, ◌*◌, ◌/◌, ◌%◌, ◌<◌, ◌≤◌}
use Prim.Native.String.{String}
use mathlib.Core.Path.{◌≡◌, refl}
use mathlib.Core.Option.{Option, none, some}
use mathlib.Core.List.{List, [], ◌∷◌, ◌++◌}
use native.Mathlib.Omega.{arith}
use mathlib.Core.Bool.{Bool}
use anycode.Base.Tests.{ltb, ◌==◌, within, if◌then◌else◌}
use anycode.Base.Lists.{length}
use anycode.Base.Text.{Bytes, codes}

-- The first code point of a text and what follows it, or a malformed start and what follows that.
pub data Decoded : Type 0 where
  char : ℕ → Bytes → Decoded
  malformed : Bytes → Decoded

abbrev pub is_cont : ℕ → Bool
is_cont b = within 0x80 0xbf b

-- The range of the second byte depends on the first: no overlong form, no surrogate, at most 10FFFF.
abbrev pub second_ok : ℕ → ℕ → Bool
second_ok a b =
    if a == 0xe0
    then within 0xa0 0xbf b
    else if a == 0xed
    then within 0x80 0x9f b
    else if a == 0xf0
    then within 0x90 0xbf b
    else if a == 0xf4
    then within 0x80 0x8f b
    else is_cont b

pub decode_two : ℕ → Bytes → Decoded
decode_two a [] = malformed []
decode_two a (b ∷ r) =
    if is_cont b then char ((a - 0xc0) * 64 + (b - 0x80)) r else malformed (b ∷ r)

pub decode_three : ℕ → Bytes → Decoded
decode_three a [] = malformed []
decode_three a (b ∷ []) = if second_ok a b then malformed [] else malformed (b ∷ [])
decode_three a (b ∷ c ∷ r) =
    if second_ok a b
    then (if is_cont c
        then char ((a - 0xe0) * 4096 + (b - 0x80) * 64 + (c - 0x80)) r
        else malformed (c ∷ r))
    else malformed (b ∷ c ∷ r)

pub decode_four : ℕ → Bytes → Decoded
decode_four a [] = malformed []
decode_four a (b ∷ []) = if second_ok a b then malformed [] else malformed (b ∷ [])
decode_four a (b ∷ c ∷ []) =
    if second_ok a b
    then (if is_cont c then malformed [] else malformed (c ∷ []))
    else malformed (b ∷ c ∷ [])
decode_four a (b ∷ c ∷ d ∷ r) =
    if second_ok a b
    then (if is_cont c
        then (if is_cont d
            then char ((a - 0xf0) * 262144 + (b - 0x80) * 4096 + (c - 0x80) * 64 + (d - 0x80)) r
            else malformed (d ∷ r))
        else malformed (c ∷ d ∷ r))
    else malformed (b ∷ c ∷ d ∷ r)

unfoldable pub decode : ℕ → Bytes → Decoded
unfolding decode_two decode_three decode_four
decode a r =
    if ltb a 0x80
    then char a r
    else if within 0xc2 0xdf a
    then decode_two a r
    else if within 0xe0 0xef a
    then decode_three a r
    else if within 0xf0 0xf4 a
    then decode_four a r
    else malformed r

-- The fuel is the number of bytes left: each round takes at least one.
from_utf8_fuel : ℕ → Bytes → Option (List ℕ)
from_utf8_fuel zero bs = some []
from_utf8_fuel (suc f) [] = some []
from_utf8_fuel (suc f) (a ∷ r) = elim (decode a r) [
  | char c r' ↦ elim (from_utf8_fuel f r') [ none ↦ none | some cs ↦ some (c ∷ cs) ]
  | malformed r' ↦ none
]

unfoldable pub from_utf8 : Bytes → Option (List ℕ)
unfolding from_utf8_fuel decode
from_utf8 bs = from_utf8_fuel (length bs) bs

from_utf8_lossy_fuel : ℕ → Bytes → List ℕ
from_utf8_lossy_fuel zero bs = []
from_utf8_lossy_fuel (suc f) [] = []
from_utf8_lossy_fuel (suc f) (a ∷ r) = elim (decode a r) [
  | char c r' ↦ c ∷ from_utf8_lossy_fuel f r'
  | malformed r' ↦ 0xfffd ∷ from_utf8_lossy_fuel f r'
]

unfoldable pub from_utf8_lossy : Bytes → List ℕ
unfolding from_utf8_lossy_fuel decode
from_utf8_lossy bs = from_utf8_lossy_fuel (length bs) bs

abbrev pub IsAscii : Bytes → Type 0
IsAscii [] = Unit
IsAscii (b ∷ bs) = (b < 128) × IsAscii bs

lossy_fuel_ascii : (bs : Bytes) → IsAscii bs → from_utf8_lossy_fuel (length bs) bs ≡ bs
unfolding from_utf8_lossy_fuel decode
lossy_fuel_ascii [] h = refl
lossy_fuel_ascii (b ∷ bs) h = ground (arith, lossy_fuel_ascii bs h.1)

pub from_utf8_lossy-IsAscii : (bs : Bytes) → IsAscii bs → from_utf8_lossy bs ≡ bs
unfolding from_utf8_lossy
from_utf8_lossy-IsAscii bs h = lossy_fuel_ascii bs h

-- A number of enough fuel gives what more fuel gives.
decode_shorter :
    (a : ℕ) (r : Bytes) (c : ℕ) (r' : Bytes) → decode a r ≡ char c r' → length r' ≤ length r
unfolding decode
decode_shorter a [] c r' h = ground arith
decode_shorter a (x ∷ []) c r' h = ground arith
decode_shorter a (x ∷ y ∷ []) c r' h = ground arith
decode_shorter a (x ∷ y ∷ z ∷ r) c r' h = ground arith

-- The encoding of a code point, and of a text.
abbrev encode : ℕ → Bytes
encode c =
    if ltb c 0x80
    then c ∷ []
    else if ltb c 0x800
    then (0xc0 + c / 64) ∷ (0x80 + c % 64) ∷ []
    else if ltb c 0x10000
    then (0xe0 + c / 4096) ∷ (0x80 + (c / 64) % 64) ∷ (0x80 + c % 64) ∷ []
    else (0xf0 + c / 262144)
      ∷ (0x80 + (c / 4096) % 64)
      ∷ (0x80 + (c / 64) % 64)
      ∷ (0x80 + c % 64)
      ∷ []

abbrev pub encode_all : Bytes → Bytes
encode_all [] = []
encode_all (c ∷ cs) = encode c ++ encode_all cs

-- The bytes of a `str`.
unfoldable pub to_utf8 : String → Bytes
to_utf8 s = encode_all (codes s)
