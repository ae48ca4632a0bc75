-- ===== src/Ls/Show/Table/Files.antt =====
-- What `showfiles` of src/ls.c prints in the short format is a table of the entries.
use mathlib.Core.List.{append-nil}
use mathlib.Core.Option.{some-injective}
use rmm.Base.{
  ℕ, zero, suc, ◌+◌, ◌*◌, ◌%◌, ◌^◌, ◌≤◌, ◌<◌, ◌≡◌, refl, sym, ap, arith, Bool-cases, inl, inr, ltb,
  if◌then◌else◌, none, some, List, [], ◌∷◌, ◌++◌, length, All, get_elem?, Option, ◌∙◌, false,
}
use rmm.Ls.Layout.{
  Shown, column_gap, Grid, grid, for_each, show_cell, show_grid, showfiles, longest, entry_len,
  columns,
}
use rmm.Ls.Layout.Width.{Short, columns-fit}
use rmm.Ls.Options.{Options}
use rmm.Ls.Screen.{Screen}
use rmm.Ls.Screen.Columns.{InRow, Narrow, append_text, row_text}
use rmm.Ls.Print.{Full, World, list_bits}
use rmm.Ls.Show.{format_of, dnodes, tab_width, list_entry, print_files}
use rmm.Ls.Show.Cell.{Plain, cell_text, cell_text-bound, list_single-bits, list_single-text}
use rmm.Ls.Show.Table.Rows.{rows_fit, rows-column}
use rmm.Ls.Show.Table.{table, drawn_calls, show-drawn_calls, show_lem}

-- An entry whose number has at most seven digits, and whose name is there and not too long.
abbrev pub Listable : Options → Full → Type 0
Listable o e =
    (e.rest.st_ino < 10 ^ 7)
    × ((0 < length e.dnode.name) × (entry_len (format_of o) e.dnode + 2 < 2 ^ 15))

-- The text of the entry i.
pub text_at : Options → List Full → (i : ℕ) → List ℕ
unfolding cell_text
text_at o dn i = elim (get_elem? dn i) [ none ↦ [] | some e ↦ cell_text o e ]

-- An entry that can be listed, in a column that is wide enough.
abbrev Fitting : Options → (w : ℕ) → Full → Type 0
Fitting o w e = Listable o e × (entry_len (format_of o) e.dnode ≤ w)

shorts :
    (o : Options) (dn : List Full) → All (Listable o) dn → All (Short (format_of o)) (dnodes dn)
shorts o [] listable = tt
shorts o (e ∷ dn) listable =
    let bound : entry_len (format_of o) e.dnode + 2 < 2 ^ 15 = listable.0.1.1 in
    (omega (arith, bound), shorts o dn listable.1)

fitting :
    (o : Options) (w : ℕ) (dn : List Full)
    → All (Listable o) dn
    → All (λ x. entry_len (format_of o) x ≤ w) (dnodes dn)
    → All (Fitting o w) dn
fitting o w [] listable fits = tt
fitting o w (e ∷ dn) listable fits = ((listable.0, fits.0), fitting o w dn listable.1 fits.1)

entry_at :
    (P : Full → Type 0) (dn : List Full) (i : ℕ)
    → All P dn
    → i < length dn
    → (e : Full) × (get_elem? dn i ≡ some e) × P e
entry_at P [] i all below = absurd (omega (arith, below))
entry_at P (e ∷ dn) zero all below = (e, refl, all.0)
entry_at P (e ∷ dn) (suc i) all below = entry_at P dn i all.1 (omega (arith, below))

-- What is printed for an entry when no link is read.
pub draw_bits : (stale : ℕ) → World → Options → Option Full → Screen → Screen
draw_bits stale w o none sc = sc
draw_bits stale w o (some e) sc = list_bits stale w o e none sc

abbrev pub draw_entry : (stale : ℕ) → World → Options → List Full → (i : ℕ) → Screen → Screen
draw_entry stale w o dn i sc = draw_bits stale w o (get_elem? dn i) sc

list_entry-draw_bits :
    (stale : ℕ) (w : World) (o : Options) (e : Option Full) (sc : Screen)
    → o.list_symlink ≡ false
    → list_entry stale w o e sc ≡ some (draw_bits stale w o e sc)
unfolding list_entry draw_bits
list_entry-draw_bits stale w o none sc no_link = refl
list_entry-draw_bits stale w o (some e) sc no_link = list_single-bits stale w o e sc no_link

-- Without `LIST_SYMLINK` the process goes on behind `showfiles`.
pub print_files-returns :
    (stale : ℕ) (w : World) (o : Options) (dn : List Full) (sc : Screen)
    → o.list_symlink ≡ false
    → print_files stale w o dn sc
      ≡ some (
          drawn_calls
            (tab_width (longest (format_of o) (dnodes dn) 0))
            (draw_entry stale w o dn)
            (showfiles (format_of o) (dnodes dn))
            sc)
unfolding print_files
print_files-returns stale w o dn sc no_link =
    show-drawn_calls _ (λ i sc'. list_entry stale w o (get_elem? dn i) sc')
      (draw_entry stale w o dn)
      (λ i sc'. list_entry-draw_bits stale w o (get_elem? dn i) sc' no_link)
      (showfiles (format_of o) (dnodes dn)) sc

module _ (stale : ℕ) (world : World) (o : Options) (w : ℕ) (dn : List Full) (plain : Plain world o)
    (fits : All (Fitting o w) dn) where
  drawn :
      (i : ℕ) (sc : Screen)
      → i < length dn
      → sc.column < 2 ^ 16
      → draw_entry stale world o dn i sc ≡ append_text (text_at o dn i) sc
  unfolding draw_bits text_at
  drawn i sc below bound =
      let (e, found, fit) = entry_at (Fitting o w) dn i fits below in
      let same = sym (list_single-bits stale world o e sc plain.no_symlink) in
      rw (found, text_at)
        (some-injective _ _ (same ∙ list_single-text stale world o e sc plain bound fit.0.0))

  narrow : (i : ℕ) → i < length dn → Narrow (w + column_gap) (text_at o dn i)
  unfolding text_at
  narrow i below =
      let (e, found, fit) = entry_at (Fitting o w) dn i fits below in
      let size = cell_text-bound o e fit.0.0 fit.0.1.0 in
      let widest : entry_len (format_of o) e.dnode ≤ w = fit.1 in
      rw (found, text_at) (size.0, omega (arith, size.1, widest))

length-dnodes : (dn : List Full) → length (dnodes dn) ≡ length dn
length-dnodes [] = refl
length-dnodes (e ∷ dn) = ap suc (length-dnodes dn)

longest_pos :
    (o : Options) (e : Full) (w : ℕ)
    → Listable o e
    → entry_len (format_of o) e.dnode ≤ w
    → tab_width w ≡ w
longest_pos o e w listable fits = ground (arith, listable.1.0, fits)

longest_bound :
    (o : Options) (dn : List Full) (w : ℕ)
    → All (Listable o) dn
    → w + 2 < 2 ^ 15
    → longest (format_of o) (dnodes dn) w + 2 < 2 ^ 15
unfolding longest
longest_bound o [] w listable bound = bound
longest_bound o (e ∷ dn) w listable bound =
    let len = entry_len (format_of o) e.dnode in
    let small : len + 2 < 2 ^ 15 = listable.0.1.1 in
    longest_bound o dn (if ltb w len then len % 2 ^ 16 else w) listable.1
      (elim (Bool-cases (ltb w len)) [
        | inl longer ↦ rw longer (omega (arith, small))
        | inr shorter ↦ rw shorter bound
      ])

grid_room :
    (ncols n width : ℕ)
    → (1 < ncols → ncols * width < 2 ^ 15)
    → 1 < (grid ncols n).ncols
    → width * (grid ncols n).ncols < 2 ^ 15
unfolding grid
grid_room ncols n width room = elim (Bool-cases (ltb 1 ncols)) [
  | inl several ↦ rw several (λ more. grind (arith, room more))
  | inr one ↦ rw one (λ more. absurd (omega (arith, more)))
]

row_start : (width : ℕ) (sc : Screen) → sc.column ≡ 0 → InRow width [] sc.out sc
unfolding row_text
row_start width sc at = record {
  out = sym (append-nil sc.out);
  column = at;
  nexttab = λ some_cell. absurd (omega (arith, some_cell));
}

-- With tabs of a width the calls print their table in columns of another, and end a line.
abbrev Listed : ℕ → World → Options → List Full → (width tab : ℕ) → List Shown → Screen → Type 0
Listed stale w o dn width tab calls sc =
    let end = drawn_calls tab (draw_entry stale w o dn) calls sc in
    (end.out ≡ sc.out ++ table (width + column_gap) (text_at o dn) calls []) × (end.column ≡ 0)

-- The loops over the entries, when a column is as wide as the longest of them.
Listed-rows :
    (stale : ℕ) (w : World) (o : Options) (e : Full) (dn : List Full) (width : ℕ) (sc : Screen)
    → Plain w o
    → All (Fitting o width) (e ∷ dn)
    → width + column_gap < 2 ^ 15
    → (1 < columns (format_of o) width
        → columns (format_of o) width * (width + column_gap) < 2 ^ 15)
    → sc.column ≡ 0
    → Listed stale w o
        (e ∷ dn)
        width
        width
        (show_grid o.disp_rows
          (grid (columns (format_of o) width) (length (e ∷ dn)))
          (length (e ∷ dn)))
        sc
unfolding show_grid
Listed-rows stale w o e dn width sc plain fits word room at =
    let n : ℕ = length (e ∷ dn) in
    let g : Grid = grid (columns (format_of o) width) n in
    let draw : ℕ → Screen → Screen = draw_entry stale w o (e ∷ dn) in
    let cols : 1 < g.ncols → (width + column_gap) * g.ncols < 2 ^ 15 =
      grid_room (columns (format_of o) width) n (width + column_gap) room in
    (
      show_lem width n g.ncols (text_at o (e ∷ dn)) draw (drawn stale w o width (e ∷ dn) plain fits)
          (narrow stale w o width (e ∷ dn) plain fits) cols (omega (arith, word))
          (show_grid o.disp_rows g n) g.ncols [] sc.out sc (rows_fit o.disp_rows g n g.nrows 0)
          (omega arith) tt (omega (arith, at)) (row_start (width + column_gap) sc at),
      rows-column width draw (λ row. for_each g.ncols 0 (show_cell o.disp_rows g n row)) g.nrows 0
          sc at,
    )

showfiles-grid :
    (o : Options) (e : Full) (dn : List Full)
    → showfiles (format_of o) (dnodes (e ∷ dn))
      ≡ show_grid o.disp_rows
          (grid
            (columns (format_of o) (longest (format_of o) (dnodes (e ∷ dn)) 0))
            (length (e ∷ dn)))
          (length (e ∷ dn))
unfolding showfiles
showfiles-grid o e dn = rw (length-dnodes dn) refl

Listed-by :
    (stale : ℕ) (w : World) (o : Options) (dn : List Full) (width tab : ℕ)
    (calls grid_calls : List Shown)
    → (sc : Screen) → tab ≡ width
    → calls ≡ grid_calls
    → Listed stale w o dn width width grid_calls sc
    → Listed stale w o dn width tab calls sc
Listed-by stale w o dn width tab calls grid_calls sc p q lines = rw (p, q) lines

Listed-none :
    (stale : ℕ) (w : World) (o : Options) (sc : Screen) (width tab : ℕ)
    → sc.column ≡ 0
    → Listed stale w o [] width tab [] sc
unfolding drawn_calls table row_text
Listed-none stale w o sc width tab at = (sym (append-nil sc.out), at)

-- In the short format without colours, `showfiles` prints, from the start of a line and below the width
-- 2^15 of a terminal, the entries in lines: in each line every text but the last is filled up with
-- spaces to the width of the longest name, its number and the gap, and the last is followed by the
-- end of the line. The column is 0 again. This holds where no number of an entry has more than seven
-- digits and the names are not empty and their lengths below 2^15.
pub print_files-table :
    (stale : ℕ) (w : World) (o : Options) (dn : List Full) (sc : Screen)
    → Plain w o
    → All (Listable o) dn
    → o.terminal_width < 2 ^ 15
    → sc.column ≡ 0
    → let width = longest (format_of o) (dnodes dn) 0 + column_gap in
      let calls = showfiles (format_of o) (dnodes dn) in
      (end : Screen) × (print_files stale w o dn sc ≡ some end)
      × (end.out ≡ sc.out ++ table width (text_at o dn) calls [])
      × (end.column ≡ 0)
unfolding showfiles drawn_calls
print_files-table stale w o [] sc plain listable terminal at = (
  _,
  print_files-returns stale w o [] sc plain.no_symlink,
  (Listed-none stale w o sc (longest (format_of o) [] 0) (tab_width (longest (format_of o) [] 0))
      at).0,
  at,
)
print_files-table stale w o (e ∷ dn) sc plain listable terminal at =
    let width : ℕ = longest (format_of o) (dnodes (e ∷ dn)) 0 in
    let room = columns-fit (format_of o) (dnodes (e ∷ dn)) (shorts o (e ∷ dn) listable) in
    let word : width + column_gap < 2 ^ 15 = longest_bound o (e ∷ dn) 0 listable (omega arith) in
    let tab : tab_width width ≡ width = longest_pos o e width listable.0 room.0.0 in
    let lines =
      Listed-rows stale w o e dn width sc plain (fitting o width (e ∷ dn) listable room.0) word
        (λ several. omega (arith, room.1 several, terminal)) at in
    let listed =
      Listed-by stale w o (e ∷ dn) width (tab_width width) _ _ sc tab (showfiles-grid o e dn)
        lines in
    (_, print_files-returns stale w o (e ∷ dn) sc plain.no_symlink, listed.0, listed.1)
