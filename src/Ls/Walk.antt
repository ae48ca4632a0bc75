-- ===== src/Ls/Walk.antt =====
-- `showdirs` of src/ls.c and the end of `ls_main`: directories are read, sorted, printed and entered.
pub mod Reach
pub mod Sorted
pub mod Members
mod Parts
pub mod Opened
pub mod Main
use rmm.Base.{
  ℕ, zero, suc, ◌-◌, Bool, true, false, ◌&&◌, ◌||◌, ltb, if◌then◌else◌, Option, none, some, List,
  [], ◌∷◌, ◌++◌, length, map,
}
use rmm.Ls.{
  Dnode, Sign, sortcmp, Which, split_dir, split_file, split_subdir, splitdnarray, countdirs,
  countsubdirs,
}
use rmm.Ls.Names.{Setting, Entry, Chain, list_dir, my_stat, node_of}
use rmm.Ls.Options.{Options}
use rmm.Ls.Print.{Full, World}
use rmm.Ls.Screen.{Screen, put}
use rmm.Ls.Show.{print_files, dnodes}
use rmm.Ls.Sort.{shellsort}

-- The output, whether `status` is `EXIT_FAILURE`, and the calls of `opendir` so far.
pub record Run : Type 0 where
  pub screen : Screen
  pub failed : Bool
  pub opened : List (List ℕ)

-- The system, the options, and what `info` holds where it is not set.
pub record Lister : Type 0 where
  pub world : World
  pub options : Options
  pub stale : ℕ

abbrev pub setting_of : Lister → Setting
setting_of lister = record {
  disp_dot = lister.options.disp_dot;
  disp_hidden = lister.options.disp_hidden;
  follow_links = lister.options.follow_links;
  strcmp = lister.world.strcmp;
  stat = lister.world.stat;
  lstat = lister.world.lstat;
}

-- A node of the chain with all that was read of it.
abbrev pub full_of : Lister → Entry → Full
full_of lister cur = record {
  dnode = cur.node;
  fullname = cur.fullname;
  rest = lister.world.rest cur.fullname;
}

abbrev pub compare_full : Lister → Full → Full → Sign
compare_full lister d1 d2 =
    sortcmp lister.world.strcmp lister.options.sort_opts lister.options.sort_reverse d1.dnode
      d2.dnode

-- The entries in an array; `none` is a `NULL` that is read.
pub entries : List (Option Full) → Option (List Full)
entries [] = some []
entries (none ∷ dnp) = none
entries (some x ∷ dnp) = elim (entries dnp) [ none ↦ none | some dn ↦ some (x ∷ dn) ]

-- The array of one kind of entries, sorted.
pub sorted_part : Lister → Which → List Full → Option (List Full)
unfolding splitdnarray entries
sorted_part lister which dn = elim (splitdnarray (λ x. x.dnode) lister.world.strcmp dn which) [
  | none ↦ none
  | some dnp ↦ elim (entries dnp) [ none ↦ none | some part ↦ shellsort (compare_full lister) part ]
]

-- `none` is a process that ends while it prints.
pub show_all : Lister → List Full → Run → Option Run
unfolding print_files
show_all lister dn run = elim (print_files lister.stale lister.world lister.options dn run.screen) [
  | none ↦ none
  | some screen ↦ some (record run { screen = screen })
]

-- `printf("\n%s:\n", ...)`
pub label : Lister → Full → Run → Run
label lister dir run =
    if lister.options.disp_dirname || lister.options.disp_recursive
    then record run { screen = put (10 ∷ dir.fullname ++ 58 ∷ 10 ∷ []) run.screen }
    else run

-- The array that `list_dir` returns, and the run after it.
pub read_dir : Lister → (path : List ℕ) → Run → List Full × Run
unfolding list_dir
read_dir lister path run =
    let chain = list_dir (setting_of lister) path (lister.world.opendir path) run.failed in
    (
      map (full_of lister) chain.dn,
      record run { failed = chain.failed; opened = run.opened ++ path ∷ [] },
    )

-- The files of a directory, sorted and printed, and then its directories, for which `showdirs` is
-- called when there are any.
pub show_files : Lister → (List Full → Run → Option Run) → List Full → Run → Option Run
unfolding show_all sorted_part
show_files lister showdirs [] run = some run
show_files lister showdirs (first ∷ others) run =
    elim (shellsort (compare_full lister) (first ∷ others)) [
      | none ↦ none
      | some dn ↦ elim (show_all lister dn run) [
        | none ↦ none
        | some shown ↦
            elim (lister.options.disp_recursive
              && ltb 0 (countsubdirs lister.world.strcmp (dnodes dn))) [
                | false ↦ some shown
                | true ↦ elim (sorted_part lister split_subdir dn) [
                  | none ↦ none
                  | some dnd ↦ showdirs dnd shown
                ]
              ]
      ]
    ]

pub show_dir : Lister → (List Full → Run → Option Run) → Full → Run → Option Run
unfolding label read_dir show_files
show_dir lister showdirs dir run =
    let (subdnp, run') = read_dir lister dir.fullname (label lister dir run) in
    show_files lister showdirs subdnp run'

-- The loop over the directories.
pub each : (Full → Run → Option Run) → List Full → Run → Option Run
each step [] run = some run
each step (dir ∷ dirs) run = elim (step dir run) [ none ↦ none | some run' ↦ each step dirs run' ]

-- Without directories nothing is done. The fuel bounds how deep the calls of `showdirs` are nested.
pub showdirs : Lister → (fuel : ℕ) → List Full → Run → Option Run
unfolding show_dir each
showdirs lister fuel [] run = some run
showdirs lister zero (dir ∷ dirs) run = none
showdirs lister (suc fuel) (dir ∷ dirs) run =
    each (show_dir lister (showdirs lister fuel)) (dir ∷ dirs) run

-- The loop that stats the arguments, each before the chain so far.
unfoldable pub stat_args :
    Lister → (av : List (List ℕ)) → List Full → (failed : Bool) → List Full × Bool
stat_args lister [] dn failed = (dn, failed)
stat_args lister (path ∷ av) dn failed = elim (my_stat (setting_of lister) path) [
  | none ↦ stat_args lister av dn true
  | some st ↦
      let cur : Full = record {
        dnode = node_of path st;
        fullname = path;
        rest = lister.world.rest path;
      } in
      stat_args lister av (cur ∷ dn) failed
]

abbrev pub start_run : (failed : Bool) → Run
start_run failed = record {
  screen = record { out = []; column = 0; nexttab = 0 };
  failed = failed;
  opened = [];
}

-- `shellsort` and `showfiles` of one kind of the arguments, when there are any.
pub show_part : Lister → Which → List Full → Run → Option Run
unfolding sorted_part show_all
show_part lister which dnp run = elim (sorted_part lister which dnp) [
  | none ↦ none
  | some dn ↦ show_all lister dn run
]

-- `DISP_NOLIST`: the arguments are listed themselves. Without it, the files among them are listed
-- before the directories are entered.
pub list_by : Lister → (fuel : ℕ) → (nolist : Bool) → List Full → (failed : Bool) → Option Run
unfolding show_all show_part sorted_part showdirs
list_by lister fuel true dnp failed = elim (shellsort (compare_full lister) dnp) [
  | none ↦ none
  | some dn ↦ show_all lister dn (start_run failed)
]
list_by lister fuel false dnp failed =
    let dndirs = countdirs (dnodes dnp) in
    elim (if ltb 0 (length dnp - dndirs)
      then show_part lister split_file dnp (start_run failed)
      else some (start_run failed)) [
        | none ↦ none
        | some run ↦ elim (ltb 0 dndirs) [
          | false ↦ some run
          | true ↦ elim (sorted_part lister split_dir dnp) [
            | none ↦ none
            | some dnd ↦ showdirs lister fuel dnd run
          ]
        ]
      ]

-- `av`: the arguments, or "." when there are none.
abbrev pub args : List (List ℕ) → List (List ℕ)
args [] = (46 ∷ []) ∷ []
args (path ∷ av) = path ∷ av

-- The end of `ls_main`, from the arguments on.
pub list_args : Lister → (fuel : ℕ) → (av : List (List ℕ)) → Option Run
unfolding stat_args list_by
list_args lister fuel av =
    let (dnp, failed) = stat_args lister (args av) [] false in
    list_by lister fuel lister.options.disp_nolist dnp failed
