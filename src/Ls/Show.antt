-- ===== src/Ls/Show.antt =====
-- `showfiles` of src/ls.c with what it prints: `nexttabstop`, `list_single` and `newline` in its loops.
pub mod Cell
pub mod Table
use rmm.Base.{ℕ, leb, if◌then◌else◌, Option, none, some, List, [], ◌∷◌, get_elem?, map, length}
use rmm.Ls.{Dnode}
use rmm.Ls.Layout.{Format, Shown, entry, line_end, longest, showfiles}
use rmm.Ls.Options.{Options}
use rmm.Ls.Screen.{Screen, newline, nexttabstop}
use rmm.Ls.Print.{Full, World, list_single}

-- What the layout reads of the options.
abbrev pub format_of : Options → Format
format_of o = record {
  list_ino = o.list_ino;
  list_blocks = o.list_blocks;
  disp_rows = o.disp_rows;
  style_fmt = o.style_fmt;
  terminal_width = o.terminal_width;
}

abbrev pub dnodes : List Full → List Dnode
dnodes dn = map (λ e. e.dnode) dn

-- `COLUMN_WIDTH`, which stands for a width of 0.
abbrev pub tab_width : (column_width : ℕ) → ℕ
tab_width column_width = if leb 1 column_width then column_width else 14

-- `list_single(dn[i])`, which prints nothing for `NULL`.
pub list_entry : (stale : ℕ) → World → Options → Option Full → Screen → Option Screen
unfolding list_single
list_entry stale w o none sc = some sc
list_entry stale w o (some e) sc = list_single stale w o e sc

-- The calls in the loops, in their order; `none` is a process that ends in one of them.
unfoldable pub show :
    (column_width : ℕ) → (draw : ℕ → Screen → Option Screen) → List Shown → Screen → Option Screen
unfolding newline nexttabstop
show column_width draw [] sc = some sc
show column_width draw (entry i ∷ calls) sc = elim (draw i (nexttabstop column_width sc)) [
  | none ↦ none
  | some sc' ↦ show column_width draw calls sc'
]
show column_width draw (line_end ∷ calls) sc = show column_width draw calls (newline sc)

unfoldable pub print_files : (stale : ℕ) → World → Options → List Full → Screen → Option Screen
unfolding list_entry
print_files stale w o dn sc =
    let calls = showfiles (format_of o) (dnodes dn) in
    let column_width = longest (format_of o) (dnodes dn) 0 in
    show (tab_width column_width) (λ i sc'. list_entry stale w o (get_elem? dn i) sc') calls sc
