-- ===== src/Examples/Printing.antt =====
-- src/ls.c: what is printed, and a tree of directories.
use rmm.Base.{
  ℕ, ◌+◌, ◌*◌, ◌%◌, ◌^◌, ◌≤◌, ◌≡◌, refl, arith, true, false, ◌==◌, if◌then◌else◌, Option, none,
  some, List, [], ◌∷◌, ◌++◌, length,
}
use rmm.Ls.{Dnode, Sign, plus}
use rmm.Ls.Names.{Stat}
use rmm.Ls.Options.{Options, start_options}
use rmm.Ls.Layout.{column_gap, longest, showfiles}
use rmm.Ls.Screen.{Screen, digits_of}
use rmm.Ls.Print.{Full, Rest, World, on, print_blocks, link_of, list_bits, list_single}
use rmm.Ls.Print.Blocks.{print_blocks-miscounts}
use rmm.Ls.Show.{show, print_files, format_of, dnodes}
use rmm.Ls.Show.Table.{table}
use rmm.Ls.Show.Table.Files.{text_at, print_files-table}
use rmm.Ls.Walk.{Lister}
use rmm.Ls.Show.Cell.{Plain}
use rmm.Ls.Nodes.{NodeAt, countfiles, dfree, blocks_of}
use rmm.Ls.Nodes.Leak.{dfree-leaks}
use rmm.Ls.Sort.{shellsort}
use rmm.Examples.Machine.{env, serving}
use rmm.Examples.Listing.{folder, file, strcmp}

abbrev rest : Rest
rest = record {
  st_ino = 5;
  st_blocks = 8;
  st_nlink = 1;
  st_uid = 0;
  st_gid = 0;
  major = 0;
  minor = 0;
}

abbrev dir_stat : Stat
dir_stat = record { st_mode = 4 * 4096; st_size = 0; st_atime = 0; st_ctime = 0; st_mtime = 0 }

abbrev file_stat : Stat
file_stat = record { st_mode = 8 * 4096; st_size = 3; st_atime = 0; st_ctime = 0; st_mtime = 0 }

-- A path of one byte, or of three: "." has the directory "./d", which has one file.
abbrev stat_of : List ℕ → Option Stat
stat_of (c ∷ []) = some dir_stat
stat_of (c ∷ d ∷ e ∷ []) = some dir_stat
stat_of path = some file_stat

abbrev names_in : List ℕ → Option (List (List ℕ))
names_in (c ∷ []) = some ((100 ∷ []) ∷ [])
names_in path = some ((102 ∷ []) ∷ [])

abbrev world : World
world = record {
  getpwuid = λ uid. none;
  getgrgid = λ gid. none;
  ctime = λ t. [];
  now = 0;
  stat = stat_of;
  lstat = stat_of;
  rest = λ path. rest;
  readlink = λ path bufsize. none;
  env = env;
  fuel = 10;
  self = 0;
  heap = serving;
  rounds = 3;
  opendir = names_in;
  show_color = false;
  strcmp = strcmp;
}

abbrev marked : Options
marked = record (start_options 80) { list_filetype = true; list_ino = true }

abbrev recursive : Options
recursive = record (start_options 80) { disp_recursive = true }

abbrev shown : Dnode → Full
shown x = record { dnode = x; fullname = x.name; rest = rest }

abbrev two : List Full
two = shown folder ∷ shown (file 99 20) ∷ []

abbrev blank : Screen
blank = record { out = []; column = 0; nexttab = 0 }

-- Two entries with their numbers, the directory with its mark, in one row.
abbrev row : List ℕ
row =
    32 ∷ 32 ∷ 32 ∷ 32 ∷ 32 ∷ 32 ∷ 53 ∷ 32 ∷ 97 ∷ 47 ∷ 32 ∷ 32 ∷ 32 ∷ 32 ∷ 32 ∷ 32 ∷ 32 ∷ 53 ∷ 32
    ∷ 99 ∷ 10 ∷ []

printed : Option Screen → List ℕ
printed none = []
printed (some sc) = sc.out

print_files_test : printed (print_files 0 world marked two blank) ≡ row
unfolding print_files show showfiles on digits_of list_single link_of list_bits printed
print_files_test = refl

plain : Plain world marked
plain = record {
  no_color = refl;
  no_blocks = refl;
  no_modebits = refl;
  no_nlinks = refl;
  no_id_name = refl;
  no_id_numeric = refl;
  no_size = refl;
  no_date_time = refl;
  no_fulltime = refl;
  no_symlink = refl;
  filename = refl;
}

print_files-table_example :
    let width = longest (format_of marked) (dnodes two) 0 + column_gap in
    let calls = showfiles (format_of marked) (dnodes two) in
    (end : Screen) × (print_files 0 world marked two blank ≡ some end)
    × (end.out ≡ blank.out ++ table width (text_at marked two) calls [])
    × (end.column ≡ 0)
print_files-table_example =
    print_files-table 0 world marked two blank plain
      ((omega arith, (omega arith, omega arith)), ((omega arith, (omega arith, omega arith)), tt))
      (omega arith) refl

print_blocks-miscounts_example :
    (text : List ℕ) × ((print_blocks marked (shown folder) blank).out ≡ blank.out ++ text)
    × (17 ≤ length text)
    × ((print_blocks marked (shown folder) blank).column ≡ (blank.column + 5) % 2 ^ 16)
print_blocks-miscounts_example = print_blocks-miscounts marked (shown folder) blank

-- A link, whose target is "b".
abbrev link : Full
link = record (shown folder) { dnode = record folder { st_mode = 10 * 4096 } }

abbrev linked_world : World
linked_world = record world { readlink = λ path bufsize. some (98 ∷ []) }

abbrev with_links : Options
with_links = record (start_options 80) { list_symlink = true }

abbrev tree : Lister
tree = record { world = world; options = recursive; stale = 0 }

abbrev cell_of : ℕ → NodeAt
cell_of addr = record { addr = addr; node = file addr 1 }

-- The chain 1, 2, 3.
abbrev next : ℕ → ℕ
next a = if a == 3 then 0 else a + 1

-- The name of the node a is at 10 * a.
abbrev name_at : ℕ → ℕ
name_at a = 10 * a

-- Every comparison asks for an exchange.
abbrev greater : NodeAt → NodeAt → Sign
greater x y = plus

dfree-leaks_example :
    (countfiles next 5 (cell_of 1 ∷ cell_of 2 ∷ cell_of 3 ∷ []) ≡ some 3)
    × ((least : NodeAt) × (others : List NodeAt) × (pre : List NodeAt) × (post : List NodeAt)
        × (shellsort greater (cell_of 1 ∷ cell_of 2 ∷ cell_of 3 ∷ []) ≡ some (least ∷ others))
        × (cell_of 1 ∷ cell_of 2 ∷ cell_of 3 ∷ [] ≡ pre ++ least ∷ post)
        × (dfree next name_at 5 90 (least ∷ others)
            ≡ some (blocks_of name_at (least ∷ post) ++ 90 ∷ [])))
dfree-leaks_example =
    dfree-leaks greater next name_at 5 90 (cell_of 1) (cell_of 2 ∷ cell_of 3 ∷ [])
      (omega arith, (refl, (omega arith, (refl, (omega arith, refl))))) (omega arith)
