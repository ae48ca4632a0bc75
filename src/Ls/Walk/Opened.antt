-- ===== src/Ls/Walk/Opened.antt =====
-- `showdirs` of src/ls.c returns and opens the directories that are reached.
use mathlib.Core.List.{Memᴰ, append_assoc, append-nil}
use mathlib.Core.List.Memᴰ.{head, tail}
use rmm.Base.{
  ℕ, zero, suc, ◌≡◌, refl, sym, ap, subst, ◌∙◌, false, ◌&&◌, ◌||◌, Bool-cases, inl, inr, ltb,
  Option, some, List, [], ◌∷◌, ◌++◌, map, All,
}
use rmm.Ls.{split_subdir, countsubdirs}
use rmm.Ls.Names.Listed.{list_dir-dn}
use rmm.Ls.Print.{Full}
use rmm.Ls.Layout.{longest, showfiles}
use rmm.Ls.Screen.{Screen}
use rmm.Ls.Show.{dnodes, format_of, tab_width}
use rmm.Ls.Show.Table.{drawn_calls}
use rmm.Ls.Show.Table.Files.{draw_entry, print_files-returns}
use rmm.Ls.Sort.Moves.{Rearranged}
use rmm.Ls.Sort.Whole.{shellsort-returns}
use rmm.Ls.Walk.{
  Run, Lister, setting_of, full_of, compare_full, show_all, show_files, label, read_dir, show_dir,
  each, showdirs,
}
use rmm.Ls.Walk.Reach.{
  files, subdirs, Height, Same, Exact, Exact-nil, Exact-cons, Exact-dir, Opens, opens, no_more,
  Opens-cons,
}
use rmm.Ls.Walk.Members.{All-self, All-mem}
use rmm.Ls.Walk.Sorted.{sorted_part_lem}
use rmm.Ls.Walk.Parts.{parts-Same, Same-none, subdirs-none, and_first, Same-no_parts}

-- A run that returns, with the directories that it opened.
pub record Visits (lister : Lister) (dirs : List Full) (run : Run) (result : Option Run)
    : Type 0 where
  pub after : Run
  pub log : List (List ℕ)
  pub returns : result ≡ some after
  pub opened : after.opened ≡ run.opened ++ log
  pub exact : Exact lister dirs log
  pub order : Opens lister dirs log

Visits-each :
    (lister : Lister) (step : Full → Run → Option Run) (dirs : List Full) (run : Run)
    → ((e : Full) (start : Run) → Memᴰ e dirs → Visits lister (e ∷ []) start (step e start))
    → Visits lister dirs run (each step dirs run)
unfolding each
Visits-each lister step [] run visits = record {
  after = run;
  log = [];
  returns = refl;
  opened = sym (append-nil run.opened);
  exact = Exact-nil lister;
  order = no_more;
}
Visits-each lister step (dir ∷ dirs) run visits =
    let first = visits dir run (head refl) in
    let rest = Visits-each lister step dirs first.after (λ e start m. visits e start (tail m)) in
    record {
      after = rest.after;
      log = first.log ++ rest.log;
      returns = rw (each, first.returns) rest.returns;
      opened =
          rest.opened
          ∙ ap (λ l. l ++ rest.log) first.opened
          ∙ append_assoc run.opened first.log rest.log;
      exact = Exact-cons first.exact rest.exact;
      order = Opens-cons first.order rest.order;
    }

-- The recursive calls that a directory makes.
abbrev Enters : Lister → (path : List ℕ) → (List Full → Run → Option Run) → Type 0
Enters lister path showdirs =
    (dnd : List Full) (start : Run)
    → Same dnd (subdirs lister path)
    → Visits lister dnd start (showdirs dnd start)

Visits-none :
    (lister : Lister) (run after : Run) (result : Option Run)
    → result ≡ some after
    → after.opened ≡ run.opened
    → Visits lister [] run result
Visits-none lister run after result returns opened = record {
  after = after;
  log = [];
  returns = returns;
  opened = opened ∙ sym (append-nil run.opened);
  exact = Exact-nil lister;
  order = no_more;
}

abbrev drawn_screen : Lister → List Full → Screen → Screen
drawn_screen lister dn sc =
    drawn_calls (tab_width (longest (format_of lister.options) (dnodes dn) 0))
      (draw_entry lister.stale lister.world lister.options dn)
      (showfiles (format_of lister.options) (dnodes dn)) sc

-- Without `LIST_SYMLINK` the process goes on behind the files that it shows.
pub show_all-returns :
    (lister : Lister) (dn : List Full) (run : Run)
    → lister.options.list_symlink ≡ false
    → (shown : Run) × (show_all lister dn run ≡ some shown) × (shown.opened ≡ run.opened)
unfolding show_all
show_all-returns lister dn run no_link = (
  record run { screen = drawn_screen lister dn run.screen },
  rw (show_all, print_files-returns lister.stale lister.world lister.options dn run.screen no_link)
      refl,
  refl,
)

module _ (lister : Lister) (path : List ℕ) (showdirs' : List Full → Run → Option Run)
    (no_link : lister.options.list_symlink ≡ false) where
  -- The sorted files are shown and the directories among them are entered.
  Visits-sorted :
      (subdnp : List Full) (run : Run)
      → subdnp ≡ files lister path
      → Enters lister path showdirs'
      → (entered : List Full) × Same entered (subdirs lister path)
        × Visits lister entered run (show_files lister showdirs' subdnp run)
  unfolding show_files show_all subdirs
  Visits-sorted [] run is enters = (
    [],
    Same-none lister path (subdirs-none lister path is),
    Visits-none lister run run _ refl refl,
  )
  Visits-sorted (first ∷ others) run is enters =
      let (dn, sorted, r) = shellsort-returns (compare_full lister) (first ∷ others) in
      let (shown, printed, opened) = show_all-returns lister dn run no_link in
      elim (Bool-cases
        (lister.options.disp_recursive && ltb 0 (countsubdirs lister.world.strcmp (dnodes dn)))) [
          | inl several ↦
              let (dnd, part, s) = sorted_part_lem lister split_subdir dn in
              let same =
                parts-Same lister path dn dnd (and_first _ _ several)
                  (subst (λ l. Rearranged l dn) is r) s in
              let v = enters dnd shown same in
              (
                dnd,
                same,
                record {
                  after = v.after;
                  log = v.log;
                  returns = rw (show_files, sorted, printed, several, part) v.returns;
                  opened = v.opened ∙ ap (λ l. l ++ v.log) opened;
                  exact = v.exact;
                  order = v.order;
                },
              )
          | inr none_left ↦ (
            [],
            Same-no_parts lister path dn none_left (subst (λ l. Rearranged l dn) is r),
            Visits-none lister run shown _ (rw (show_files, sorted, printed, none_left) refl)
                opened,
          )
        ]

label-opened :
    (lister : Lister) (dir : Full) (run : Run) → (label lister dir run).opened ≡ run.opened
unfolding label
label-opened lister dir run =
    elim (Bool-cases (lister.options.disp_dirname || lister.options.disp_recursive)) [
      | inl labelled ↦ rw labelled refl
      | inr plain ↦ rw plain refl
    ]

read_dir-files :
    (lister : Lister) (path : List ℕ) (run : Run) → (read_dir lister path run).0 ≡ files lister path
unfolding read_dir files
read_dir-files lister path run =
    ap (map (full_of lister))
      (list_dir-dn (setting_of lister) path (lister.world.opendir path) run.failed false)

Visits-dir :
    (lister : Lister) (showdirs' : List Full → Run → Option Run) (dir : Full) (run : Run)
    → lister.options.list_symlink ≡ false
    → Enters lister dir.fullname showdirs'
    → Visits lister (dir ∷ []) run (show_dir lister showdirs' dir run)
unfolding show_dir read_dir
Visits-dir lister showdirs' dir run no_link enters =
    let path = dir.fullname in
    let labelled : Run = label lister dir run in
    let (entered, same, v) =
      Visits-sorted lister path showdirs' no_link (read_dir lister path labelled).0
        (read_dir lister path labelled).1 (read_dir-files lister path labelled) enters in
    record {
      after = v.after;
      log = path ∷ v.log;
      returns = v.returns;
      opened =
          v.opened
          ∙ append_assoc labelled.opened (path ∷ []) v.log
          ∙ ap (λ l. l ++ path ∷ v.log) (label-opened lister dir run);
      exact = Exact-dir same v.exact;
      order =
          subst (λ l. Opens lister (dir ∷ []) (path ∷ l)) (append-nil v.log)
            (opens same v.order no_more);
    }

-- `showdirs` returns, when no option asks for the targets of links and its fuel is above the height
-- of the directories, and it has opened, in addition, exactly the directories given and those that are entered from them: all directories
-- below them that are listed, but not ".", "..", and none without `DISP_RECURSIVE`.
pub showdirs-Visits :
    (lister : Lister) (fuel : ℕ) (dirs : List Full) (run : Run)
    → lister.options.list_symlink ≡ false
    → All (λ e. Height lister fuel e.fullname) dirs
    → Visits lister dirs run (showdirs lister fuel dirs run)
unfolding showdirs
showdirs-Visits lister fuel [] run no_link low = Visits-none lister run run (some run) refl refl
showdirs-Visits lister zero (dir ∷ dirs) run no_link low = elim low.0 [ ]
showdirs-Visits lister (suc fuel) (dir ∷ dirs) run no_link low =
    Visits-each lister (show_dir lister (showdirs lister fuel)) (dir ∷ dirs) run (λ e start m.
      let below : All (λ x. Height lister fuel x.fullname) (subdirs lister e.fullname) =
        All-mem (λ x. Height lister (suc fuel) x.fullname) low m in
      Visits-dir lister (showdirs lister fuel) e start no_link (λ dnd start' same.
        showdirs-Visits lister fuel dnd start' no_link (
          All-self (λ x. Height lister fuel x.fullname) dnd
            (λ x inside. All-mem (λ y. Height lister fuel y.fullname) below (same.to x inside)))))
