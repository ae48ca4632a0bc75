-- ===== src/Ls/Screen/Columns.antt =====
-- What `nexttabstop` of src/ls.c prints between the texts of a row.
use mathlib.Core.List.{append_assoc, append-nil}
use rmm.Base.{
  ℕ, ◌+◌, ◌-◌, ◌*◌, ◌%◌, ◌^◌, ◌≤◌, ◌<◌, ◌≡◌, refl, sym, ap, ◌∙◌, arith, true, false, leb, ltb, List,
  [], ◌∷◌, ◌++◌, length, length-append, length-replicate, All,
}
use rmm.Ls.Layout.{column_gap}
use rmm.Ls.Screen.{Screen, advance, put, nexttabstop, spaces, tab_gap, pad_right}

pub Screen-path :
    {sc sc' : Screen}
    → sc.out ≡ sc'.out
    → sc.column ≡ sc'.column
    → sc.nexttab ≡ sc'.nexttab
    → sc ≡ sc'
Screen-path p q r = λ i. record { out = p i; column = q i; nexttab = r i }

-- A text is printed and its characters are counted.
unfoldable pub append_text : List ℕ → Screen → Screen
append_text text sc = advance (length text) (put text sc)

pub append_text_append :
    (a b : List ℕ) (sc : Screen) → append_text b (append_text a sc) ≡ append_text (a ++ b) sc
unfolding append_text
append_text_append a b sc =
    Screen-path (append_assoc sc.out a b) (omega (arith, length-append a b)) refl

pub append_text_nil : (sc : Screen) → sc.column < 2 ^ 16 → append_text [] sc ≡ sc
unfolding append_text
append_text_nil sc bound = Screen-path (append-nil sc.out) (omega (arith, bound)) refl

-- The texts of a row, each in a column of a width.
pub padded : (width : ℕ) → List (List ℕ) → List ℕ
padded width [] = []
padded width (text ∷ row) = pad_right width text ++ padded width row

-- The same without the spaces after the last text.
unfoldable pub row_text : (width : ℕ) → List (List ℕ) → List ℕ
row_text width [] = []
row_text width (text ∷ []) = text
row_text width (text ∷ next ∷ row) = pad_right width text ++ row_text width (next ∷ row)

-- A text that leaves room for a space in its column, and is not empty.
abbrev pub Narrow : (width : ℕ) → List ℕ → Type 0
Narrow width text = (0 < length text) × (length text < width)

length-pad_right :
    (width : ℕ) (text : List ℕ) → length text ≤ width → length (pad_right width text) ≡ width
length-pad_right width text room = omega (
  arith,
  length-append text (spaces (width - length text)),
  length-replicate {A = ℕ} (width - length text) 32,
  room,
)

row_text-snoc :
    (width : ℕ) (row : List (List ℕ)) (text : List ℕ)
    → row_text width (row ++ text ∷ []) ≡ padded width row ++ text
unfolding row_text padded
row_text-snoc width [] text = refl
row_text-snoc width (first ∷ []) text =
    ap (λ t. t ++ text) (sym (append-nil (pad_right width first)))
row_text-snoc width (first ∷ next ∷ row) text =
    ap (λ t. pad_right width first ++ t) (row_text-snoc width (next ∷ row) text)
    ∙ sym (append_assoc (pad_right width first) (padded width (next ∷ row)) text)

-- How long a row is: less than its columns by the spaces that are left out.
pub row_text_bound :
    (width : ℕ) (text : List ℕ) (row : List (List ℕ))
    → All (Narrow width) (text ∷ row)
    → (0 < length (row_text width (text ∷ row)))
      × (length (row_text width (text ∷ row)) < width * length (text ∷ row))
unfolding row_text
row_text_bound width text [] narrow = (narrow.0.0, omega (arith, narrow.0.1))
row_text_bound width text (next ∷ row) narrow =
    let rest = row_text_bound width next row narrow.1 in
    let first = length-pad_right width text (omega (arith, narrow.0.1)) in
    let long = length-append (pad_right width text) (row_text width (next ∷ row)) in
    (omega (arith, rest, first, long), grind (arith, rest, first, long))

length-padded :
    (width : ℕ) (row : List (List ℕ))
    → All (Narrow width) row
    → length (padded width row) ≡ width * length row
unfolding padded
length-padded width [] narrow = omega arith
length-padded width (text ∷ row) narrow =
    let rest = length-padded width row narrow.1 in
    let first = length-pad_right width text (omega (arith, narrow.0.1)) in
    grind (arith, rest, first, length-append (pad_right width text) (padded width row))

replicate_diff : (a b : ℕ) → a ≡ b → spaces a ≡ spaces b
replicate_diff a b e = rw e

padded_lem :
    (width : ℕ) (text : List ℕ) (row : List (List ℕ))
    → All (Narrow width) (text ∷ row)
    → padded width (text ∷ row)
      ≡ row_text width (text ∷ row)
        ++ spaces (width * length (text ∷ row) - length (row_text width (text ∷ row)))
unfolding padded row_text
padded_lem width text [] narrow =
    append-nil (pad_right width text)
    ∙ ap (λ t. text ++ t)
        (replicate_diff (width - length text) (width * 1 - length text) (omega arith))
padded_lem width text (next ∷ row) narrow =
    let rest : List ℕ = row_text width (next ∷ row) in
    let first = length-pad_right width text (omega (arith, narrow.0.1)) in
    let long = length-append (pad_right width text) rest in
    let gap = width * length (next ∷ row) - length rest in
    let same : gap ≡ width * length (text ∷ next ∷ row) - length (pad_right width text ++ rest) =
      grind (arith, first, long) in
    ap (λ t. pad_right width text ++ t) (padded_lem width next row narrow.1)
    ∙ sym (append_assoc (pad_right width text) rest (spaces gap))
    ∙ ap (λ t. (pad_right width text ++ rest) ++ t) (replicate_diff gap _ same)

-- What is printed in a row, after the text `base`. The tab counts only when there is a cell before.
pub record InRow (width : ℕ) (row : List (List ℕ)) (base : List ℕ) (sc : Screen) : Type 0 where
  pub out : sc.out ≡ base ++ row_text width row
  pub column : sc.column ≡ length (row_text width row)
  pub nexttab : 0 < length row → sc.nexttab ≡ width * length row % 2 ^ 16

pub first_cell :
    (w : ℕ) (text base : List ℕ) (sc : Screen)
    → length text < 2 ^ 16
    → InRow (w + column_gap) [] base sc
    → InRow (w + column_gap) (text ∷ []) base (append_text text (nexttabstop w sc))
unfolding row_text append_text nexttabstop
first_cell w text base sc bound at =
    let none_yet : ltb 0 sc.column ≡ false = ground (arith, at.column) in
    rw none_yet record {
      out = ap (λ t. t ++ text) (at.out ∙ append-nil base);
      column = omega (arith, at.column, bound);
      nexttab = λ some_cell. omega (arith, at.column);
    }

pub later_cell :
    (w : ℕ) (text : List ℕ) (row : List (List ℕ)) (base : List ℕ) (sc : Screen)
    → 0 < length row
    → All (Narrow (w + column_gap)) row
    → Narrow (w + column_gap) text
    → (w + column_gap) * (length row + 1) < 2 ^ 15
    → InRow (w + column_gap) row base sc
    → InRow (w + column_gap) (row ++ text ∷ []) base (append_text text (nexttabstop w sc))
unfolding append_text nexttabstop
later_cell w text [] base sc some_cell narrow fits room at = absurd (omega (arith, some_cell))
later_cell w text (first ∷ row) base sc some_cell narrow fits room at =
    let width : ℕ = w + column_gap in
    let all_row : List (List ℕ) = first ∷ row in
    let so_far : List ℕ = row_text width all_row in
    let bound = row_text_bound width first row narrow in
    let cells : length (all_row ++ text ∷ []) ≡ length all_row + 1 =
      length-append all_row (text ∷ []) in
    let more : width * (length all_row + 1) ≡ width * length all_row + width = grind arith in
    let tab : sc.nexttab ≡ width * length all_row =
      omega (arith, at.nexttab some_cell, room, more) in
    let shown : ltb 0 sc.column ≡ true = ground (arith, at.column, bound) in
    let small : leb (2 ^ 15) sc.nexttab ≡ false = ground (arith, tab, room, more) in
    let behind : leb sc.nexttab sc.column ≡ false = ground (arith, tab, at.column, bound) in
    let gap : tab_gap sc ≡ width * length all_row - length (row_text width all_row) =
      rw (small, behind) (omega (arith, tab, at.column)) in
    let full : (sc.column + tab_gap sc) % 2 ^ 16 ≡ width * length all_row =
      omega (arith, gap, at.column, bound, room, more) in
    let long : length (row_text width (all_row ++ text ∷ []))
        ≡ width * length all_row + length text =
      omega (
        arith,
        ap length (row_text-snoc width all_row text),
        length-append (padded width all_row) text,
        length-padded width all_row narrow,
      ) in
    rw shown record {
      out =
          ap (λ t. (t ++ spaces (tab_gap sc)) ++ text) at.out
          ∙ ap (λ k. ((base ++ so_far) ++ spaces k) ++ text) gap
          ∙ ap (λ t. t ++ text)
              (append_assoc base so_far (spaces (width * length all_row - length so_far)))
          ∙ ap (λ t. (base ++ t) ++ text) (sym (padded_lem width first row narrow))
          ∙ append_assoc base (padded width all_row) text
          ∙ ap (λ t. base ++ t) (sym (row_text-snoc width all_row text));
      column = omega (arith, full, long, room, more, fits);
      nexttab = λ some. omega (arith, full, ap (λ k. width * k) cells, more);
    }
