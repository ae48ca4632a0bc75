-- ===== src/Ls/Layout.antt =====
-- `showfiles` of src/ls.c: the columns and rows in which it lists entries.
pub mod Place
pub mod Once
pub mod Width
use rmm.Base.{
  ℕ, zero, suc, ◌+◌, ◌-◌, ◌*◌, ◌/◌, ◌%◌, ◌^◌, Bool, true, false, leb, ltb, if◌then◌else◌, List, [],
  ◌∷◌, ◌++◌, length,
}
use rmm.Ls.{Dnode}

-- `style_fmt`
pub data Style : Type 0 where
  style_auto style_long style_single style_columns : Style

-- The bits and settings that `showfiles` reads: `LIST_INO`, `LIST_BLOCKS` and `DISP_ROWS`.
pub record Format : Type 0 where
  pub list_ino : Bool
  pub list_blocks : Bool
  pub disp_rows : Bool
  pub style_fmt : Style
  pub terminal_width : ℕ

-- `COLUMN_GAP`
abbrev pub column_gap : ℕ
column_gap = 2

-- `len` of one entry.
abbrev pub entry_len : Format → Dnode → ℕ
entry_len fmt x =
    length x.name + (if fmt.list_ino then 8 else 0) + (if fmt.list_blocks then 5 else 0)

-- `column_width` after the loop over the entries; it has 16 bits.
unfoldable pub longest : Format → List Dnode → (column_width : ℕ) → ℕ
longest fmt [] column_width = column_width
longest fmt (x ∷ dn) column_width =
    longest fmt dn
      (if ltb column_width (entry_len fmt x) then entry_len fmt x % 2 ^ 16 else column_width)

-- `ncols` before the rows are counted.
pub columns : Format → (column_width : ℕ) → ℕ
columns fmt column_width =
    let fit = if leb 1 column_width then fmt.terminal_width / (column_width + column_gap) else 1 in
    elim fmt.style_fmt [
      | style_long ↦ 1
      | style_single ↦ 1
      | style_auto ↦ fit
      | style_columns ↦ fit
    ]

-- `nrows` and `ncols` of the loops.
pub record Grid : Type 0 where
  pub nrows : ℕ
  pub ncols : ℕ

unfoldable pub grid : (ncols nfiles : ℕ) → Grid
grid ncols nfiles =
    let start = if ltb 1 ncols then nfiles / ncols else nfiles in
    let cols = if ltb 1 ncols then ncols else 1 in
    let up = if ltb (start * cols) nfiles then start + 1 else start in
    record { nrows = if ltb nfiles up then nfiles else up; ncols = cols }

-- What is called in the loops: `nexttabstop` and `list_single` of the entry i, and `newline`.
pub data Shown : Type 0 where
  entry : (i : ℕ) → Shown
  line_end : Shown

-- `for (k = from; k < from + count; k++)`, with what each round shows.
unfoldable pub for_each : (count from : ℕ) → (ℕ → List Shown) → List Shown
for_each zero from body = []
for_each (suc count) from body = body from ++ for_each count (from + 1) body

-- The index of the array in a row and a column.
pub cell : (disp_rows : Bool) → Grid → (row nc : ℕ) → ℕ
cell disp_rows g row nc = if disp_rows then row * g.ncols + nc else nc * g.nrows + row

unfoldable pub show_cell : (disp_rows : Bool) → Grid → (nfiles row nc : ℕ) → List Shown
unfolding cell
show_cell disp_rows g nfiles row nc =
    let i = cell disp_rows g row nc in if ltb i nfiles then entry i ∷ [] else []

unfoldable pub show_grid : (disp_rows : Bool) → Grid → (nfiles : ℕ) → List Shown
unfolding for_each show_cell
show_grid disp_rows g nfiles =
    for_each g.nrows 0
      (λ row. for_each g.ncols 0 (show_cell disp_rows g nfiles row) ++ line_end ∷ [])

unfoldable pub showfiles : Format → List Dnode → List Shown
unfolding longest columns grid show_grid
showfiles fmt [] = []
showfiles fmt (x ∷ dn) =
    let nfiles = length (x ∷ dn) in
    show_grid fmt.disp_rows (grid (columns fmt (longest fmt (x ∷ dn) 0)) nfiles) nfiles
