-- ===== src/Ls/Show/Table/Rows.antt =====
-- The loops of `showfiles` of src/ls.c: how many entries a row has, and that each row ends a line.
use mathlib.Core.List.{append_assoc}
use rmm.Base.{
  ℕ, zero, suc, ◌+◌, ◌≤◌, ◌≡◌, refl, arith, Bool, Bool-cases, inl, inr, ltb, List, [], ◌∷◌, ◌++◌,
}
use rmm.Ls.Layout.{Shown, entry, line_end, Grid, for_each, show_cell, cell}
use rmm.Ls.Screen.{Screen, newline}
use rmm.Ls.Show.Table.{RowsFit, drawn_calls}

cells_fit :
    (disp_rows : Bool) (g : Grid) (n row count from k : ℕ) (rest : List Shown)
    → count ≤ k
    → RowsFit n g.ncols g.ncols rest
    → RowsFit n g.ncols k (for_each count from (show_cell disp_rows g n row) ++ line_end ∷ rest)
unfolding for_each show_cell
cells_fit b g n row zero from k rest le fits = fits
cells_fit b g n row (suc count) from zero rest le fits = absurd (omega (arith, le))
cells_fit b g n row (suc count) from (suc k) rest le fits =
    elim (Bool-cases (ltb (cell b g row from) n)) [
      | inl listed ↦ rw listed (
        ground (arith, listed),
        cells_fit b g n row count (from + 1) k rest (omega (arith, le)) fits,
      )
      | inr skipped ↦
          rw skipped (cells_fit b g n row count (from + 1) (suc k) rest (omega (arith, le)) fits)
    ]

pub rows_fit :
    (disp_rows : Bool) (g : Grid) (n count from : ℕ)
    → RowsFit n g.ncols g.ncols (
        for_each count from
          (λ row. for_each g.ncols 0 (show_cell disp_rows g n row) ++ line_end ∷ []))
unfolding for_each
rows_fit b g n zero from = tt
rows_fit b g n (suc count) from =
    let cells : List Shown = for_each g.ncols 0 (show_cell b g n from) in
    let rest : List Shown =
      for_each count (from + 1)
        (λ row. for_each g.ncols 0 (show_cell b g n row) ++ line_end ∷ []) in
    rw (append_assoc cells (line_end ∷ []) rest)
      (cells_fit b g n from g.ncols 0 g.ncols rest (omega arith) (rows_fit b g n count (from + 1)))

-- After the end of a row the column is 0.
drawn_calls-append :
    (w : ℕ) (draw : ℕ → Screen → Screen) (xs ys : List Shown) (sc : Screen)
    → drawn_calls w draw (xs ++ ys) sc ≡ drawn_calls w draw ys (drawn_calls w draw xs sc)
unfolding drawn_calls
drawn_calls-append w draw [] ys sc = refl
drawn_calls-append w draw (entry i ∷ xs) ys sc = drawn_calls-append w draw xs ys _
drawn_calls-append w draw (line_end ∷ xs) ys sc = drawn_calls-append w draw xs ys _

newline-column : (sc : Screen) → (newline sc).column ≡ 0
unfolding newline
newline-column sc = elim (Bool-cases (ltb 0 sc.column)) [
  | inl shown ↦ rw shown refl
  | inr at_start ↦ rw at_start (ground (arith, at_start))
]

pub rows-column :
    (w : ℕ) (draw : ℕ → Screen → Screen) (body : ℕ → List Shown) (count from : ℕ) (sc : Screen)
    → sc.column ≡ 0
    → (drawn_calls w draw (for_each count from (λ row. body row ++ line_end ∷ [])) sc).column ≡ 0
unfolding for_each drawn_calls
rows-column w draw body zero from sc at = at
rows-column w draw body (suc count) from sc at =
    let rest : List Shown = for_each count (from + 1) (λ row. body row ++ line_end ∷ []) in
    rw
      (
        drawn_calls-append w draw (body from ++ line_end ∷ []) rest sc,
        drawn_calls-append w draw (body from) (line_end ∷ []) sc,
      )
      (rows-column w draw body count (from + 1) (newline (drawn_calls w draw (body from) sc))
        (newline-column (drawn_calls w draw (body from) sc)))
