-- ===== src/Ls/Show/Table.antt =====
-- The rows that the loops of `showfiles` of src/ls.c print are the lines of a table.
pub mod Rows
pub mod Files
use native.Mathlib.Nat.{mul-le-mul_left}
use mathlib.Core.List.{append_assoc, append-nil}
use rmm.Base.{
  ℕ, zero, suc, ◌+◌, ◌-◌, ◌*◌, ◌%◌, ◌^◌, ◌≤◌, ◌<◌, ◌≡◌, refl, sym, ap, ◌∙◌, arith, Bool, true,
  false, Bool-cases, inl, inr, ltb, if◌then◌else◌, Option, some, List, [], ◌∷◌, ◌++◌, length,
  length-append, All, All-append,
}
use rmm.Ls.Layout.{Shown, entry, line_end, column_gap}
use rmm.Ls.Screen.{Screen, nexttabstop, newline}
use rmm.Ls.Screen.Columns.{
  InRow, Narrow, append_text, row_text, row_text_bound, first_cell, later_cell,
}
use rmm.Ls.Show.{show}

-- A row of texts with its end; no texts are no line.
pub line : (width : ℕ) → List (List ℕ) → List ℕ
unfolding row_text
line width [] = []
line width (text ∷ row) = row_text width (text ∷ row) ++ 10 ∷ []

-- The lines that the calls stand for, with the texts that the row has so far.
pub table : (width : ℕ) → (texts : ℕ → List ℕ) → List Shown → (row : List (List ℕ)) → List ℕ
unfolding line row_text
table width texts [] row = row_text width row
table width texts (entry i ∷ calls) row = table width texts calls (row ++ texts i ∷ [])
table width texts (line_end ∷ calls) row = line width row ++ table width texts calls []

-- The calls list entries below n, at most k before the end of the row and m in each later row.
abbrev pub RowsFit : (n m k : ℕ) → List Shown → Type 0
RowsFit n m k [] = Unit
RowsFit n m zero (entry i ∷ calls) = ⊥
RowsFit n m (suc k) (entry i ∷ calls) = (i < n) × RowsFit n m k calls
RowsFit n m k (line_end ∷ calls) = RowsFit n m m calls

scaled : (a b c : ℕ) → b ≤ c → a * c < 2 ^ 15 → a * b < 2 ^ 15
scaled a b c le bound = grind (arith, mul-le-mul_left a le)

nexttabstop-bound : (w : ℕ) (sc : Screen) → sc.column < 2 ^ 16 → (nexttabstop w sc).column < 2 ^ 16
unfolding nexttabstop
nexttabstop-bound w sc bound = elim (Bool-cases (ltb 0 sc.column)) [
  | inl shown ↦ rw shown (omega arith)
  | inr at_start ↦ rw at_start bound
]

newline_lem :
    (width : ℕ) (row : List (List ℕ)) (base : List ℕ) (sc : Screen)
    → All (Narrow width) row
    → InRow width row base sc
    → InRow width [] (base ++ line width row) (newline sc)
unfolding newline line row_text
newline_lem width [] base sc narrow at =
    let at_start : ltb 0 sc.column ≡ false = ground (arith, at.column) in
    rw at_start record {
      out = at.out ∙ sym (append-nil (base ++ []));
      column = at.column;
      nexttab = λ some_cell. absurd (omega (arith, some_cell));
    }
newline_lem width (text ∷ row) base sc narrow at =
    let shown : ltb 0 sc.column ≡ true =
      ground (arith, at.column, row_text_bound width text row narrow) in
    rw shown record {
      out =
          ap (λ t. t ++ 10 ∷ []) at.out
          ∙ append_assoc base (row_text width (text ∷ row)) (10 ∷ [])
          ∙ sym (append-nil (base ++ (row_text width (text ∷ row) ++ 10 ∷ [])));
      column = refl;
      nexttab = λ some_cell. absurd (omega (arith, some_cell));
    }

-- The calls for a `draw` after which the process goes on.
pub drawn_calls : (column_width : ℕ) → (draw : ℕ → Screen → Screen) → List Shown → Screen → Screen
drawn_calls column_width draw [] sc = sc
drawn_calls column_width draw (entry i ∷ calls) sc =
    drawn_calls column_width draw calls (draw i (nexttabstop column_width sc))
drawn_calls column_width draw (line_end ∷ calls) sc =
    drawn_calls column_width draw calls (newline sc)

pub show-drawn_calls :
    (column_width : ℕ) (step : ℕ → Screen → Option Screen) (draw : ℕ → Screen → Screen)
    → ((i : ℕ) (sc : Screen) → step i sc ≡ some (draw i sc))
    → (calls : List Shown) (sc : Screen)
    → show column_width step calls sc ≡ some (drawn_calls column_width draw calls sc)
unfolding show drawn_calls
show-drawn_calls column_width step draw goes [] sc = refl
show-drawn_calls column_width step draw goes (entry i ∷ calls) sc =
    rw (show, goes i (nexttabstop column_width sc))
      (show-drawn_calls column_width step draw goes calls (draw i (nexttabstop column_width sc)))
show-drawn_calls column_width step draw goes (line_end ∷ calls) sc =
    show-drawn_calls column_width step draw goes calls (newline sc)

-- What the calls print, for a `draw` that prints the text of each entry.
module _ (w n m : ℕ) (texts : ℕ → List ℕ) (draw : ℕ → Screen → Screen)
    (drawn : (i : ℕ) (sc : Screen)
      → i < n
      → sc.column < 2 ^ 16
      → draw i sc ≡ append_text (texts i) sc)
    (narrow : (i : ℕ) → i < n → Narrow (w + column_gap) (texts i))
    (room : 1 < m → (w + column_gap) * m < 2 ^ 15) (word : w + column_gap < 2 ^ 16) where
  draw-bound : (i : ℕ) (sc : Screen) → i < n → sc.column < 2 ^ 16 → (draw i sc).column < 2 ^ 16
  unfolding append_text
  draw-bound i sc below bound = rw (drawn i sc below bound) (omega arith)

  cell_lem :
      (i : ℕ) (row : List (List ℕ)) (base : List ℕ) (sc : Screen)
      → i < n
      → length row < m
      → All (Narrow (w + column_gap)) row
      → sc.column < 2 ^ 16
      → InRow (w + column_gap) row base sc
      → InRow (w + column_gap) (row ++ texts i ∷ []) base (draw i (nexttabstop w sc))
  cell_lem i [] base sc below short narrow_row bound at =
      rw (drawn i (nexttabstop w sc) below (nexttabstop-bound w sc bound))
        (first_cell w (texts i) base sc (omega (arith, narrow i below, word)) at)
  cell_lem i (text ∷ row) base sc below short narrow_row bound at =
      let wide : (w + column_gap) * m < 2 ^ 15 = room (omega (arith, short)) in
      let fits : (w + column_gap) * (length (text ∷ row) + 1) < 2 ^ 15 =
        scaled (w + column_gap) (length (text ∷ row) + 1) m (omega (arith, short)) wide in
      rw (drawn i (nexttabstop w sc) below (nexttabstop-bound w sc bound)) (
        later_cell w (texts i) (text ∷ row) base sc (omega arith) narrow_row (narrow i below) fits
          at)

  pub show_lem :
      (calls : List Shown) (k : ℕ) (row : List (List ℕ)) (base : List ℕ) (sc : Screen)
      → RowsFit n m k calls
      → length row + k ≡ m
      → All (Narrow (w + column_gap)) row
      → sc.column < 2 ^ 16
      → InRow (w + column_gap) row base sc
      → (drawn_calls w draw calls sc).out ≡ base ++ table (w + column_gap) texts calls row
  unfolding drawn_calls table
  show_lem [] k row base sc fits count narrow_row bound at = at.out
  show_lem (entry i ∷ calls) zero row base sc fits count narrow_row bound at = elim fits [ ]
  show_lem (entry i ∷ calls) (suc k) row base sc (below, fits) count narrow_row bound at =
      let next = cell_lem i row base sc below (omega (arith, count)) narrow_row bound at in
      show_lem calls k (row ++ texts i ∷ []) base (draw i (nexttabstop w sc)) fits
        (omega (arith, length-append row (texts i ∷ []), count))
        ((All-append (Narrow (w + column_gap)) row (texts i ∷ [])).1
          (narrow_row, (narrow i below, tt)))
        (draw-bound i (nexttabstop w sc) below (nexttabstop-bound w sc bound)) next
  show_lem (line_end ∷ calls) k row base sc fits count narrow_row bound at =
      let ended = newline_lem (w + column_gap) row base sc narrow_row at in
      show_lem calls m [] (base ++ line (w + column_gap) row) (newline sc) fits (omega arith) tt
        (omega (arith, ended.column)) ended
      ∙ append_assoc base (line (w + column_gap) row) (table (w + column_gap) texts calls [])
