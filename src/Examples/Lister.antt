-- ===== src/Examples/Lister.antt =====
-- src/ls.c: texts, columns, options and a directory.
use rmm.Base.{
  ℕ, ◌+◌, ◌*◌, ◌%◌, ◌^◌, ◌<◌, ◌≡◌, refl, arith, Bool, true, false, Bool-cases, inl, inr, ltb, ◌==◌,
  if◌then◌else◌, ◌||◌, Option, some, List, [], ◌∷◌,
}
use mathlib.Core.List.{reverse}
use rmm.Ls.{Dnode, Strcmp, minus, nought, plus, sort_ctime, sort_size, sortcmp}
use rmm.Ls.Order.{key}
use rmm.Ls.Text.{mode_string, make_human_readable_str}
use rmm.Ls.Text.ReadMode.{read_mode, read_mode-mode_string}
use rmm.Ls.Text.Human.{Rounded, make_human_readable_str-Rounded}
use rmm.Ls.Layout.{style_long, style_columns, Format, showfiles}
use rmm.Ls.Layout.Once.{times, showfiles-once}
use rmm.Ls.Sort.{shellsort}
use rmm.Ls.Sort.Moves.{count}
use rmm.Ls.Sort.Ordered.{StepAt}
use rmm.Ls.Sort.Entries.{shellsort-sortcmp}
use rmm.Ls.Names.{Setting, Stat, list_dir}
use rmm.Ls.Names.Wanted.{TellsSame, same_text, expected, lost, list_dir-expected}
use rmm.Ls.Options.{
  time_change, Options, opt_l, opt_n, opt_c, opt_d, opt_R, start_options, switch, parse, precedence,
  options,
}
use rmm.Ls.Options.Precedence.{Settled, options-Settled}
use rmm.Examples.Listing.{folder, file, strcmp, strcmp-negate}

read_mode-mode_string_example : read_mode (mode_string 0x89ed) ≡ 0x9ed
read_mode-mode_string_example = read_mode-mode_string 0x89ed

make_human_readable_str-Rounded_example :
    Rounded (1536 * 1024 % 2 ^ 64) 0 (make_human_readable_str 1536 1024 0)
make_human_readable_str-Rounded_example = make_human_readable_str-Rounded 1536 1024 0 (omega arith)

abbrev three : List Dnode
three = file 99 20 ∷ folder ∷ file 98 10 ∷ []

-- A terminal with room for two columns of names of one character.
abbrev narrow : Format
narrow = record {
  list_ino = false;
  list_blocks = false;
  disp_rows = false;
  style_fmt = style_columns;
  terminal_width = 6;
}

showfiles-once_example : times 1 (showfiles narrow three) ≡ 1
showfiles-once_example = showfiles-once narrow three 1

shellsort-sortcmp_example :
    (dn' : List Dnode) × (shellsort (sortcmp strcmp sort_size true) three ≡ some dn')
    × ((test : Dnode → Bool) → count test dn' ≡ count test three)
    × ((i : ℕ) → i + 1 < 3 → StepAt (sortcmp strcmp sort_size true) dn' i)
unfolding key
shellsort-sortcmp_example =
    shellsort-sortcmp strcmp sort_size true three strcmp-negate
      (omega arith, (omega arith, (omega arith, tt)))

-- Every path has the same status.
abbrev regular : List ℕ → Option Stat
regular path =
    some (record { st_mode = 0x81a4; st_size = 1; st_atime = 0; st_ctime = 0; st_mtime = 0 })

abbrev plain_setting : Setting
plain_setting = record {
  disp_dot = false;
  disp_hidden = false;
  follow_links = false;
  strcmp = strcmp;
  stat = regular;
  lstat = regular;
}

-- The names ".", "b" and "c".
abbrev names : List (List ℕ)
names = (46 ∷ []) ∷ (98 ∷ []) ∷ (99 ∷ []) ∷ []

-- Compares byte by byte.
full_strcmp : Strcmp
full_strcmp [] [] = nought
full_strcmp [] (d ∷ t) = minus
full_strcmp (c ∷ s) [] = plus
full_strcmp (c ∷ s) (d ∷ t) = if c == d then full_strcmp s t else if ltb c d then minus else plus

full_strcmp-TellsSame : TellsSame full_strcmp
unfolding full_strcmp same_text
full_strcmp-TellsSame [] [] = refl
full_strcmp-TellsSame [] (d ∷ t) = refl
full_strcmp-TellsSame (c ∷ s) [] = refl
full_strcmp-TellsSame (c ∷ s) (d ∷ t) = elim (Bool-cases (c == d)) [
  | inl e ↦ rw e (full_strcmp-TellsSame s t)
  | inr ne ↦ elim (Bool-cases (ltb c d)) [
    | inl less ↦ rw (ne, less) refl
    | inr more ↦ rw (ne, more) refl
  ]
]

abbrev full_setting : Setting
full_setting = record plain_setting { strcmp = full_strcmp }

list_dir-expected_example :
    ((list_dir full_setting (97 ∷ []) (some names) false).dn
      ≡ reverse (expected full_setting (97 ∷ []) names))
    × ((list_dir full_setting (97 ∷ []) (some names) false).failed
        ≡ (false || lost full_setting (97 ∷ []) names))
list_dir-expected_example =
    list_dir-expected full_setting (97 ∷ []) names false full_strcmp-TellsSame
      (λ e. absurd (omega arith), (λ e. absurd (omega arith), (λ e. absurd (omega arith), tt)))

-- `ls -lncdR` with two arguments.
abbrev chosen_options : Options
chosen_options = record (start_options 79) {
  style_fmt = style_long;
  list_modebits = true;
  list_nlinks = true;
  list_id_numeric = true;
  list_size = true;
  list_date_time = true;
  list_symlink = true;
  disp_dirname = true;
  disp_nolist = true;
  sort_opts = sort_ctime;
  time_fmt = time_change;
}

options-Settled_example : Settled chosen_options
unfolding options parse switch precedence
options-Settled_example =
    options-Settled true 2 79 (opt_l ∷ opt_n ∷ opt_c ∷ opt_d ∷ opt_R ∷ []) chosen_options refl
