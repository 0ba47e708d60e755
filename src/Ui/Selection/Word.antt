-- ===== src/Ui/Selection/Word.antt =====
-- The word under the pointer (src/ui/selection.rs). `blank` is whether the trimmed symbol of a cell
-- is empty. The scan to the right runs on fuel, for which the width of the screen is enough.
use anycode.Base.{
  ℕ, zero, suc, ◌+◌, ◌≤◌, ◌<◌, ◌≡◌, ◌⊎◌, inl, inr, refl, sym, ap, ◌∙◌, Bool, true, false, not, ◌||◌,
  ◌&&◌, Option, none, some, arith, if◌then◌else◌, ◌>>=◌,
}
use anycode.Ui.Selection.{TextSelection}

pub record Cell : Type 0 where
  pub has_contents : Bool
  pub blank : Bool
  pub is_wide_continuation : Bool

abbrev Cells : Type 0
Cells = ℕ → ℕ → Option Cell

-- The tests that end the scan to the left and to the right.
abbrev pub ends_left : Option Cell → Bool
ends_left none = true
ends_left (some c) = not c.has_contents || c.blank || c.is_wide_continuation

abbrev pub ends_right : Option Cell → Bool
ends_right none = true
ends_right (some c) = not c.has_contents || c.blank

-- A cell on the screen with something other than a blank, and one that is no second half as well.
abbrev pub shown : Option Cell → Bool
shown none = false
shown (some c) = c.has_contents && not c.blank

abbrev pub shown_single : Option Cell → Bool
shown_single none = false
shown_single (some c) = c.has_contents && not c.blank && not c.is_wide_continuation

shown-ends : (o : Option Cell) → shown o ≡ not (ends_right o)
shown-ends none = refl
shown-ends (some c) = ground arith

shown_single-ends : (o : Option Cell) → shown_single o ≡ not (ends_left o)
shown_single-ends none = refl
shown_single-ends (some c) = ground arith

last : (c n : ℕ) → c < suc n → (c < n) ⊎ (c ≡ n)
last c n h = ground arith

module _ (cell : ℕ → ℕ → Option Cell) (row : ℕ) where
  unfoldable pub scan_left : ℕ → ℕ
  scan_left zero = zero
  scan_left (suc left) =
      let rest = scan_left left in if ends_left (cell row left) then suc left else rest

  -- A cell with a wide character's second half is passed like any other of the word.
  unfoldable pub scan_right : ℕ → ℕ → Option ℕ
  scan_right zero right = none
  scan_right (suc fuel) right =
      let rest = scan_right fuel (right + 1) in
      if ends_right (cell row (right + 1)) then some right else rest

  scan_left-le : (left : ℕ) → scan_left left ≤ left
  unfolding scan_left
  scan_left-le zero = omega arith
  scan_left-le (suc left) = ground (arith, scan_left-le left)

  -- Where the scan to the left ends: at the edge, or behind a cell that ends it; all cells it passed
  -- are of the word.
  record LeftEnd (from left : ℕ) : Type 0 where
    le : left ≤ from
    passed : (c : ℕ) → left ≤ c → c < from → ends_left (cell row c) ≡ false
    ended : (c : ℕ) → c + 1 ≡ left → ends_left (cell row c) ≡ true

  scan_left-LeftEnd : (from : ℕ) → LeftEnd from (scan_left from)
  unfolding scan_left
  scan_left-LeftEnd zero = record {
    le = omega arith;
    passed = λ c l m. absurd (omega arith);
    ended = λ c e. absurd (omega arith);
  }
  scan_left-LeftEnd (suc from) = go (ends_left (cell row from)) refl (scan_left-LeftEnd from)
    where
      go :
          (b : Bool)
          → ends_left (cell row from) ≡ b
          → LeftEnd from (scan_left from)
          → LeftEnd (suc from) (if b then suc from else scan_left from)
      go true e rest = record {
        le = omega arith;
        passed = λ c l m. absurd (omega arith);
        ended = λ c f. let g : c ≡ from = omega arith in ap (λ i. ends_left (cell row i)) g ∙ e;
      }
      go false e rest = record {
        le = omega (arith, rest.le);
        passed = λ c l m. elim (last c from m) [
          | inl f ↦ rest.passed c l f
          | inr f ↦ ap (λ i. ends_left (cell row i)) f ∙ e
        ];
        ended = rest.ended;
      }

  -- Where the scan to the right ends.
  record RightEnd (from right : ℕ) : Type 0 where
    le : from ≤ right
    passed : (c : ℕ) → from < c → c ≤ right → ends_right (cell row c) ≡ false
    ended : ends_right (cell row (right + 1)) ≡ true

  wider :
      (from right : ℕ)
      → ends_right (cell row (from + 1)) ≡ false
      → RightEnd (from + 1) right
      → RightEnd from right
  wider from right e r = record {
    le = omega (arith, r.le);
    passed = λ c l m. elim (last (from + 1) c (omega (arith, l))) [
      | inl f ↦ r.passed c f m
      | inr f ↦ ap (λ i. ends_right (cell row i)) (sym f) ∙ e
    ];
    ended = r.ended;
  }

  stopped : (from : ℕ) → ends_right (cell row (from + 1)) ≡ true → RightEnd from from
  stopped from e = record { le = omega arith; passed = λ c l m. absurd (omega arith); ended = e }

  scan_right-RightEnd :
      (width n from : ℕ)
      → ((c : ℕ) → width ≤ c → cell row c ≡ none)
      → width ≤ from + suc n
      → (right : ℕ) × (scan_right (suc n) from ≡ some right) × RightEnd from right
  unfolding scan_right
  scan_right-RightEnd width zero from off le =
      let off_screen = off (from + 1) le in
      let e : ends_right (cell row (from + 1)) ≡ true = ap ends_right off_screen in
      (from, ap (λ b. if b then some from else none) e, stopped from e)
  scan_right-RightEnd width (suc n) from off le =
      go (ends_right (cell row (from + 1))) refl
        (scan_right-RightEnd width n (from + 1) off (omega arith))
    where
      go :
          (b : Bool)
          → ends_right (cell row (from + 1)) ≡ b
          → (right : ℕ) × (scan_right (suc n) (from + 1) ≡ some right) × RightEnd (from + 1) right
          → (right : ℕ) × ((if b then some from else scan_right (suc n) (from + 1)) ≡ some right)
            × RightEnd from right
      go true e rest = (from, refl, stopped from e)
      go false e rest = (rest.0, rest.1, wider from rest.0 e rest.2)

  abbrev has_word : Option Cell → Bool
  has_word none = false
  has_word (some c) = not (not c.has_contents || c.blank)

  has_word-shown : (o : Option Cell) → has_word o ≡ shown o
  has_word-shown none = refl
  has_word-shown (some c) = ground arith

  abbrev spanned : ℕ → Option ℕ → Option TextSelection
  spanned left none = none
  spanned left (some right) = some (record {
    start = record { row = row; col = left };
    end = record { row = row; col = right };
    active = false;
  })

  -- The outer option is none when the fuel runs out, the inner one when there is no word.
  unfoldable pub select_word : ℕ → ℕ → Option (Option TextSelection)
  unfolding scan_left scan_right
  select_word fuel col =
      if has_word (cell row col)
      then (scan_right fuel col >>= λ right. some (spanned (scan_left col) (some right)))
      else some none

  -- The selection is a stretch of the row that holds the pointer. Its other cells show something, and
  -- those to the left of the pointer are not the second half of a wide character; it cannot be made
  -- longer on either side.
  pub record IsWord (col : ℕ) (s : TextSelection) : Type 0 where
    pub in_row : (s.start.row ≡ row) × (s.end.row ≡ row)
    pub holds : (s.start.col ≤ col) × (col ≤ s.end.col)
    pub left_passed : (c : ℕ) → s.start.col ≤ c → c < col → shown_single (cell row c) ≡ true
    pub left_ended : (c : ℕ) → c + 1 ≡ s.start.col → shown_single (cell row c) ≡ false
    pub right_passed : (c : ℕ) → col < c → c ≤ s.end.col → shown (cell row c) ≡ true
    pub right_ended : shown (cell row (s.end.col + 1)) ≡ false

  -- The pointer is on a cell that shows nothing, or a stretch of cells around it is selected.
  pub data Selected (col : ℕ) : Option TextSelection → Type 0 where
    nothing : shown (cell row col) ≡ false → Selected col none
    word : {s : TextSelection} → shown (cell row col) ≡ true → IsWord col s → Selected col (some s)

  -- On a screen of a given width, with that many rounds at least, selecting a word ends. On a cell that
  -- shows nothing it selects nothing. Otherwise it selects the cells around the pointer, to the right
  -- up to the next cell that shows nothing, and to the left up to the next cell that shows nothing or
  -- is the second half of a wide character: there the selection begins within the word.
  pub select_word-Selected :
      (width fuel col : ℕ)
      → ((c : ℕ) → width ≤ c → cell row c ≡ none)
      → width ≤ fuel
      → 0 < fuel
      → (r : Option TextSelection) × (select_word fuel col ≡ some r) × Selected col r
  unfolding select_word
  select_word-Selected width zero col off le pos = absurd (omega arith)
  select_word-Selected width (suc n) col off le pos = go (has_word (cell row col)) refl
    where
      go :
          (b : Bool)
          → has_word (cell row col) ≡ b
          → (r : Option TextSelection) × ((if b
                then (scan_right (suc n) col >>= λ right.
                    some (spanned (scan_left col) (some right)))
                else some none)
              ≡ some r)
            × Selected col r
      go false e = (none, refl, nothing (sym (has_word-shown (cell row col)) ∙ e))
      go true e =
          let left = scan_left-LeftEnd col in
          let (right, f, r) = scan_right-RightEnd width n col off (omega arith) in
          (
            spanned (scan_left col) (some right),
            ap (λ o. o >>= λ c. some (spanned (scan_left col) (some c))) f,
            word (sym (has_word-shown (cell row col)) ∙ e) (record {
              in_row = (refl, refl);
              holds = (left.le, r.le);
              left_passed = λ c l m. shown_single-ends (cell row c) ∙ ap not (left.passed c l m);
              left_ended = λ c m. shown_single-ends (cell row c) ∙ ap not (left.ended c m);
              right_passed = λ c l m. shown-ends (cell row c) ∙ ap not (r.passed c l m);
              right_ended = shown-ends (cell row (right + 1)) ∙ ap not r.ended;
            }),
          )
