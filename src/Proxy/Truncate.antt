-- ===== src/Proxy/Truncate.antt =====
-- src/proxy/thinking/registry.rs: the hash of a thinking block from its ends and its length.
use anycode.Base.{
  ap, sym, Bool-cases, ℕ, zero, suc, ◌+◌, ◌-◌, ◌≤◌, ◌≡◌, refl, inl, inr, String, Bool, true, false,
  not, ◌||◌, Option, none, some, [], ◌∷◌, Bytes, arith, length, get_elem?, take, drop, length-take,
  length-drop, within, leb, ◌==◌, if◌then◌else◌,
}
use anycode.Base.Utf8.{to_utf8}

-- The byte at a boundary is no continuation byte.
abbrev starts_char : Option ℕ → Bool
starts_char none = false
starts_char (some b) = not (within 0x80 0xbf b)

-- `str::is_char_boundary`
abbrev pub is_char_boundary : Bytes → ℕ → Bool
is_char_boundary s i = i == 0 || i == length s || starts_char (get_elem? s i)

-- `while end > 0 && !s.is_char_boundary(end)`
pub boundary_below : Bytes → ℕ → ℕ
boundary_below s zero = zero
boundary_below s (suc n) =
    let below = boundary_below s n in if is_char_boundary s (suc n) then suc n else below

unfoldable pub safe_truncate : Bytes → ℕ → Bytes
unfolding boundary_below
safe_truncate s max_bytes =
    if leb (length s) max_bytes then s else take (boundary_below s max_bytes) s

-- `while begin < s.len() && !s.is_char_boundary(begin)`, with the distance to the end.
pub boundary_above : Bytes → ℕ → ℕ → ℕ
boundary_above s begin zero = begin
boundary_above s begin (suc left) =
    let above = boundary_above s (suc begin) left in
    if is_char_boundary s begin then begin else above

unfoldable pub safe_suffix : Bytes → ℕ → Bytes
unfolding boundary_above
safe_suffix s max_bytes =
    if leb (length s) max_bytes
    then s
    else drop (boundary_above s (length s - max_bytes) max_bytes) s

-- `hasher` is `DefaultHasher` fed with the prefix, the suffix and the length.
unfoldable pub fast_hash : (Bytes → Bytes → ℕ → ℕ) → String → ℕ
unfolding safe_truncate safe_suffix
fast_hash hasher content =
    let s = to_utf8 content in hasher (safe_truncate s 256) (safe_suffix s 256) (length s)

boundary_below-le :
    (s : Bytes) (n : ℕ)
    → (boundary_below s n ≤ n) × (is_char_boundary s (boundary_below s n) ≡ true)
unfolding boundary_below
boundary_below-le s zero = (omega arith, refl)
boundary_below-le s (suc n) = let (l, b) = boundary_below-le s n in ground arith

boundary_above-le :
    (s : Bytes) (begin left : ℕ)
    → begin + left ≡ length s
    → (begin ≤ boundary_above s begin left)
      × (boundary_above s begin left ≤ length s)
      × (is_char_boundary s (boundary_above s begin left) ≡ true)
unfolding boundary_above
boundary_above-le s begin zero e = ground arith
boundary_above-le s begin (suc left) e =
    let (l, m, b) = boundary_above-le s (suc begin) left (omega arith) in ground arith

take-length : (s : Bytes) → take (length s) s ≡ s
take-length [] = refl
take-length (b ∷ s) = ap (◌∷◌ b) (take-length s)

safe_truncate-Cut :
    (s : Bytes) (m : ℕ)
    → (i : ℕ) × (safe_truncate s m ≡ take i s)
      × (is_char_boundary s i ≡ true)
      × (length (safe_truncate s m) ≤ m)
unfolding safe_truncate
safe_truncate-Cut s m = elim (Bool-cases (leb (length s) m)) [
  | inl fits ↦ (length s, rw fits (sym (take-length s)), ground arith, rw fits (ground arith))
  | inr long ↦
      let (l, b) = boundary_below-le s m in
      (
        boundary_below s m,
        rw long refl,
        b,
        rw long (omega (arith, length-take (boundary_below s m) s)),
      )
]

safe_suffix-Cut :
    (s : Bytes) (m : ℕ)
    → (j : ℕ) × (safe_suffix s m ≡ drop j s)
      × (is_char_boundary s j ≡ true)
      × (length (safe_suffix s m) ≤ m)
unfolding safe_suffix
safe_suffix-Cut s m = elim (Bool-cases (leb (length s) m)) [
  | inl fits ↦ (0, rw fits refl, refl, rw fits (ground arith))
  | inr long ↦
      let start = length s - m in
      let (l, h, b) = boundary_above-le s start m (ground arith) in
      (
        boundary_above s start m,
        rw long refl,
        b,
        rw long (omega (arith, length-drop (boundary_above s start m) s)),
      )
]

-- Both cuts of a text have at most the given length, and are made at a character boundary: the
-- prefix is what stands before one, the suffix what stands behind one.
pub safe_truncate-suffix :
    (s : Bytes) (max_bytes : ℕ)
    → ((i : ℕ) × (safe_truncate s max_bytes ≡ take i s)
        × (is_char_boundary s i ≡ true)
        × (length (safe_truncate s max_bytes) ≤ max_bytes))
      × ((j : ℕ) × (safe_suffix s max_bytes ≡ drop j s)
          × (is_char_boundary s j ≡ true)
          × (length (safe_suffix s max_bytes) ≤ max_bytes))
unfolding safe_truncate safe_suffix
safe_truncate-suffix s max_bytes = (safe_truncate-Cut s max_bytes, safe_suffix-Cut s max_bytes)
