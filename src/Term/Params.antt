-- ===== src/Term/Params.antt =====
-- The numeric parameters of a CSI sequence and the key that it stands for
-- (crates/term_input/src/parser.rs: extract_csi_params, classify_csi_final, classify_tilde_key,
-- wrap_modifier).
use anycode.Base.{
  ℕ, ◌+◌, ◌-◌, ◌*◌, min, bit_and, Bool, not, Option, none, some, List, [], ◌∷◌, map, Bytes, ◌==◌,
  leb, within, if◌then◌else◌, length, take, drop, bytes_eq,
}
use anycode.Term.Event.{Direction, NavKey, KeyKind, arrow, nav, function, alt, unknown}

-- `u16` saturating arithmetic.
abbrev pub u16_max : ℕ
u16_max = 65535

abbrev sat_mul : ℕ → ℕ → ℕ
sat_mul a b = min u16_max (a * b)

abbrev sat_add : ℕ → ℕ → ℕ
sat_add a b = min u16_max (a + b)

abbrev pub is_digit : ℕ → Bool
is_digit = within b'0' b'9'

-- The fold over one part; a byte that is no digit is passed over.
pub part_value : ℕ → Bytes → ℕ
part_value acc [] = acc
part_value acc (b ∷ bs) =
    part_value (if is_digit b then sat_add (sat_mul acc 10) (b - b'0') else acc) bs

-- `split(|&b| b == b';')`: a list that is never empty.
abbrev cons_head : ℕ → List Bytes → List Bytes
cons_head b [] = (b ∷ []) ∷ []
cons_head b (p ∷ ps) = (b ∷ p) ∷ ps

pub split_semicolon : Bytes → List Bytes
split_semicolon [] = [] ∷ []
split_semicolon (b ∷ bs) =
    let rest = split_semicolon bs in if b == b';' then [] ∷ rest else cons_head b rest

unfoldable pub parse_params : Bytes → List ℕ
unfolding split_semicolon part_value
parse_params bs = map (part_value 0) (split_semicolon bs)

abbrev csi_start : Bytes → ℕ
csi_start buf = if bytes_eq (take 2 buf) (0x1b ∷ b'[' ∷ []) then 2 else 0

unfoldable pub extract_csi_params : Bytes → List ℕ
unfolding parse_params bytes_eq
extract_csi_params buf =
    let start = csi_start buf in
    let finish = length buf - 1 in
    if leb finish start then [] else parse_params (take (finish - start) (drop start buf))

-- `wrap_modifier`: bit 1 of the parameter less one is Alt.
unfoldable pub wrap_modifier : KeyKind → ℕ → KeyKind
wrap_modifier base modifier =
    let bits = modifier - 1 in if not (bit_and bits 2 == 0) then alt base else base

-- `params.len() >= 2` and `params[1]`.
abbrev with_params : KeyKind → List ℕ → KeyKind
with_params base (_ ∷ modifier ∷ _) = wrap_modifier base modifier
with_params base _ = base

abbrev final_base : ℕ → Option KeyKind
final_base b =
    if b == b'A'
    then some (arrow Direction.up)
    else if b == b'B'
    then some (arrow Direction.down)
    else if b == b'C'
    then some (arrow Direction.right)
    else if b == b'D'
    then some (arrow Direction.left)
    else if b == b'H'
    then some (nav NavKey.home)
    else if b == b'F'
    then some (nav NavKey.end)
    else none

unfoldable pub classify_csi_final : ℕ → List ℕ → KeyKind
unfolding wrap_modifier
classify_csi_final b params = elim (final_base b) [
  | none ↦ unknown
  | some base ↦ with_params base params
]

abbrev tilde_base : ℕ → Option KeyKind
tilde_base code =
    if code == 2
    then some (nav NavKey.insert)
    else if code == 3
    then some (nav NavKey.delete)
    else if code == 5
    then some (nav NavKey.page_up)
    else if code == 6
    then some (nav NavKey.page_down)
    else if code == 15
    then some (function 5)
    else if within 17 21 code
    then some (function (code - 11))
    else if within 23 24 code
    then some (function (code - 12))
    else none

-- `params.first().copied().unwrap_or(0)`
abbrev pub first_or_zero : List ℕ → ℕ
first_or_zero [] = 0
first_or_zero (n ∷ _) = n

unfoldable pub classify_tilde_key : List ℕ → KeyKind
unfolding wrap_modifier
classify_tilde_key params = elim (tilde_base (first_or_zero params)) [
  | none ↦ unknown
  | some base ↦ with_params base params
]
