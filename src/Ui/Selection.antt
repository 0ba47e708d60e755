-- ===== src/Ui/Selection.antt =====
-- The selection of text in the terminal (src/ui/selection.rs). The emulator is a parameter: the cell
-- in a row and a column, none outside of the screen. Rows and columns are `u16` in the source; no
-- screen reaches that limit, which `select_word` and `extract_text` do not test.
pub mod Word
use anycode.Base.{
  ℕ, zero, suc, ◌+◌, ◌-◌, ◌≤◌, ◌<◌, ◌≡◌, refl, sym, ap, ◌∙◌, Bool, true, false, not, ◌&&◌, ◌||◌,
  Option, none, some, List, [], ◌∷◌, ◌==◌, leb, ltb, arith, if◌then◌else◌, ◌>>=◌,
}

pub record GridPos : Type 0 where
  pub row : ℕ
  pub col : ℕ

pub record TextSelection : Type 0 where
  pub start : GridPos
  pub end : GridPos
  pub active : Bool

abbrev pub new : GridPos → TextSelection
new start = record { start = start; end = start; active = true }

unfoldable pub ordered : TextSelection → GridPos × GridPos
ordered s =
    if ltb s.start.row s.end.row || (s.start.row == s.end.row && leb s.start.col s.end.col)
    then (s.start, s.end)
    else (s.end, s.start)

abbrev inside : GridPos → GridPos → ℕ → ℕ → Bool
inside first last row col =
    if ltb row first.row || ltb last.row row
    then false
    else if first.row == last.row
    then leb first.col col && leb col last.col
    else if row == first.row
    then leb first.col col
    else if row == last.row
    then leb col last.col
    else true

unfoldable pub contains : TextSelection → ℕ → ℕ → Bool
unfolding ordered
contains s row col = inside (ordered s).0 (ordered s).1 row col

-- The order of reading: by rows, and by columns in a row.
abbrev pub reads_before : GridPos → GridPos → Bool
reads_before p q = ltb p.row q.row || (p.row == q.row && leb p.col q.col)

abbrev pub turned : TextSelection → TextSelection
turned s = record s { start = s.end; end = s.start }

inside-between :
    (p q : GridPos) (row col : ℕ)
    → reads_before p q ≡ true
    → inside p q row col ≡ (
        reads_before p (record { row = row; col = col })
        && reads_before (record { row = row; col = col }) q)
inside-between p q row col h = ground arith

-- A cell is selected exactly if it is read between the two ends of the selection, the ends
-- included, whichever of them is read first; so turning the selection round selects the same cells.
pub contains-between :
    (s : TextSelection) (row col : ℕ)
    → let cell : GridPos = record { row = row; col = col } in
      (contains s row col ≡ (
        (reads_before s.start cell && reads_before cell s.end)
        || (reads_before s.end cell && reads_before cell s.start)))
      × (contains (turned s) row col ≡ contains s row col)
unfolding contains ordered
contains-between s row col = (ground arith, ground arith)
