-- ===== src/Metrics/Redaction/Scan.antt =====
-- The loop of the masking ends, and takes the text apart at the right places
-- (src/metrics/redaction.rs).
use anycode.Base.{
  ℕ, zero, suc, ◌+◌, ◌≤◌, ◌<◌, ◌≡◌, refl, sym, ap, ◌∙◌, Option, none, some, [], ◌∷◌, ◌++◌, length,
  arith, ◌>>=◌,
}
use anycode.Metrics.Redaction.{
  Chars, strip_prefix, extend, found, find, value_of, behind_value, mask_value, mask_loop,
  mask_key_value,
}

behind_value-le : (s : Chars) → length (behind_value s) ≤ length s
unfolding behind_value
behind_value-le [] = omega arith
behind_value-le (c ∷ s) = ground (arith, behind_value-le s)

strip_prefix-le : (s p : Chars) (r : Chars) → strip_prefix s p ≡ some r → length r ≤ length s
strip_prefix-le s [] r e = ground arith
strip_prefix-le [] (d ∷ p) r e = cc
strip_prefix-le (c ∷ s) (d ∷ p) r e = ground (arith, strip_prefix-le s p r)

strip_prefix-lt :
    (s : Chars) (d : ℕ) (p r : Chars) → strip_prefix s (d ∷ p) ≡ some r → length r < length s
strip_prefix-lt [] d p r e = cc
strip_prefix-lt (c ∷ s) d p r e = ground (arith, strip_prefix-le s p r)

-- What stands behind a match is shorter than the text.
find-lt :
    (s : Chars) (d : ℕ) (p : Chars) (m : Chars × Chars)
    → find s (d ∷ p) ≡ some m
    → length m.1 < length s
unfolding find
find-lt [] d p m e = cc
find-lt (c ∷ s) d p m e =
    go (strip_prefix (c ∷ s) (d ∷ p)) refl (find s (d ∷ p)) (λ n f. find-lt s d p n f) e
  where
    go :
        (o : Option Chars)
        → strip_prefix (c ∷ s) (d ∷ p) ≡ o
        → (q : Option (Chars × Chars)) → ((n : Chars × Chars) → q ≡ some n → length n.1 < length s)
        → found o (extend c q) ≡ some m
        → length m.1 < suc (length s)
    go (some r) f q h g = ground (arith, strip_prefix-lt (c ∷ s) d p r f)
    go none f none h g = cc
    go none f (some n) h g = ground (arith, h n refl)

-- One round of the loop, given what the rest of the rounds make of what stands behind a value.
abbrev pub round : Chars → Chars → (Chars → Option Chars) → Option (Chars × Chars) → Option Chars
round pattern rest next none = some rest
round pattern rest next (some m) =
    next (behind_value m.1) >>= λ t. some (m.0 ++ (pattern ++ (mask_value (value_of m.1) ++ t)))

pub mask_loop-round :
    (fuel : ℕ) (pattern rest : Chars)
    → mask_loop (suc fuel) pattern rest
      ≡ round pattern rest (mask_loop fuel pattern) (find rest pattern)
unfolding mask_loop
mask_loop-round fuel pattern rest = go (find rest pattern)
  where
    go :
        (o : Option (Chars × Chars))
        → elim o [
          | none ↦ some rest
          | some m ↦ mask_loop fuel pattern (behind_value m.1) >>= λ t.
              some (m.0 ++ (pattern ++ (mask_value (value_of m.1) ++ t)))
        ]
          ≡ round pattern rest (mask_loop fuel pattern) o
    go none = refl
    go (some m) = refl

-- With more fuel than characters the loop ends with a result.
mask_loop-total :
    (fuel d : ℕ) (p rest : Chars)
    → length rest < fuel
    → (t : Chars) × (mask_loop fuel (d ∷ p) rest ≡ some t)
mask_loop-total zero d p rest lt = absurd (ground arith)
mask_loop-total (suc fuel) d p rest lt =
    let (t, e) = go (λ s l. mask_loop-total fuel d p s l) (find rest (d ∷ p)) refl in
    (t, mask_loop-round fuel (d ∷ p) rest ∙ e)
  where
    go :
        ((s : Chars) → length s < fuel → (t : Chars) × (mask_loop fuel (d ∷ p) s ≡ some t))
        → (o : Option (Chars × Chars)) → find rest (d ∷ p) ≡ o
        → (t : Chars) × (round (d ∷ p) rest (mask_loop fuel (d ∷ p)) o ≡ some t)
    go rec none e = (rest, refl)
    go rec (some m) e =
        let (t, f) =
          rec (behind_value m.1) (omega (arith, behind_value-le m.1, find-lt rest d p m e)) in
        (
          m.0 ++ ((d ∷ p) ++ (mask_value (value_of m.1) ++ t)),
          ap (λ q. q >>= λ u. some (m.0 ++ ((d ∷ p) ++ (mask_value (value_of m.1) ++ u)))) f,
        )

-- The result does not depend on the fuel.
pub mask_loop-stable :
    (fuel more d : ℕ) (p rest : Chars)
    → length rest < fuel
    → length rest < more
    → mask_loop fuel (d ∷ p) rest ≡ mask_loop more (d ∷ p) rest
mask_loop-stable zero more d p rest lt lt' = ground arith
mask_loop-stable (suc fuel) zero d p rest lt lt' = ground arith
mask_loop-stable (suc fuel) (suc more) d p rest lt lt' =
    mask_loop-round fuel (d ∷ p) rest
    ∙ go (λ s l l'. mask_loop-stable fuel more d p s l l') (find rest (d ∷ p)) refl
    ∙ sym (mask_loop-round more (d ∷ p) rest)
  where
    go :
        ((s : Chars)
          → length s < fuel
          → length s < more
          → mask_loop fuel (d ∷ p) s ≡ mask_loop more (d ∷ p) s)
        → (o : Option (Chars × Chars)) → find rest (d ∷ p) ≡ o
        → round (d ∷ p) rest (mask_loop fuel (d ∷ p)) o
          ≡ round (d ∷ p) rest (mask_loop more (d ∷ p)) o
    go rec none e = refl
    go rec (some m) e =
        ap (λ q. q >>= λ u. some (m.0 ++ ((d ∷ p) ++ (mask_value (value_of m.1) ++ u))))
          (rec (behind_value m.1) (omega (arith, behind_value-le m.1, find-lt rest d p m e))
            (omega (arith, behind_value-le m.1, find-lt rest d p m e)))

loops :
    (input : Chars) (d : ℕ) (p : Chars) (more : ℕ)
    → (t : Chars) × (mask_loop (suc (length input)) (d ∷ p) input ≡ some t)
      × (mask_loop (suc (length input) + more) (d ∷ p) input ≡ some t)
loops input d p more =
    let (t, e) = mask_loop-total (suc (length input)) d p input (omega arith) in
    (
      t,
      e,
      mask_loop-stable (suc (length input) + more) (suc (length input)) d p input (omega arith)
            (omega arith)
          ∙ e,
    )

-- Masking the values of a key ends for every text, and more rounds would not change the result.
pub mask_key_value-total :
    (input key : Chars) (more : ℕ)
    → (t : Chars) × (mask_key_value input key ≡ some t)
      × (mask_loop (suc (length input) + more) (key ++ 0x3d ∷ []) input ≡ some t)
unfolding mask_key_value
mask_key_value-total input [] more = loops input 0x3d [] more
mask_key_value-total input (d ∷ key) more = loops input d (key ++ 0x3d ∷ []) more
