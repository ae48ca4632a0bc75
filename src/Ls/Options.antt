-- ===== src/Ls/Options.antt =====
-- The options of `ls_main` of src/ls.c and which of them take precedence.
pub mod Precedence
use rmm.Base.{
  ℕ, ◌%◌, ◌^◌, Bool, true, false, not, ◌&&◌, ltb, if◌then◌else◌, Option, none, some, List, [], ◌∷◌,
}
use rmm.Ls.{SortKey, sort_size, sort_atime, sort_ctime, sort_mtime, sort_name}
use rmm.Ls.Layout.{Style, style_auto, style_long, style_single, style_columns}

-- `time_fmt`
pub data TimeFmt : Type 0 where
  time_mod time_change time_access : TimeFmt

-- The variables that the options set; a field for each bit of `list_fmt` and of `disp_opts`.
pub record Options : Type 0 where
  pub style_fmt : Style
  pub list_ino : Bool
  pub list_blocks : Bool
  pub list_modebits : Bool
  pub list_nlinks : Bool
  pub list_id_name : Bool
  pub list_id_numeric : Bool
  pub list_size : Bool
  pub list_date_time : Bool
  pub list_fulltime : Bool
  pub list_filename : Bool
  pub list_symlink : Bool
  pub list_filetype : Bool
  pub list_exec : Bool
  pub disp_dirname : Bool
  pub disp_hidden : Bool
  pub disp_dot : Bool
  pub disp_nolist : Bool
  pub disp_recursive : Bool
  pub disp_rows : Bool
  pub sort_opts : SortKey
  pub sort_reverse : Bool
  pub time_fmt : TimeFmt
  pub follow_links : Bool
  pub ls_disp_hr : Bool
  pub tabstops : ℕ
  pub terminal_width : ℕ

-- Before the options, with the width of the terminal: `LIST_SHORT` and `DISP_NORMAL`.
abbrev pub start_options : (terminal_width : ℕ) → Options
start_options terminal_width = record {
  style_fmt = style_auto;
  list_ino = false;
  list_blocks = false;
  list_modebits = false;
  list_nlinks = false;
  list_id_name = false;
  list_id_numeric = false;
  list_size = false;
  list_date_time = false;
  list_fulltime = false;
  list_filename = true;
  list_symlink = false;
  list_filetype = false;
  list_exec = false;
  disp_dirname = false;
  disp_hidden = false;
  disp_dot = false;
  disp_nolist = false;
  disp_recursive = false;
  disp_rows = false;
  sort_opts = sort_name;
  sort_reverse = false;
  time_fmt = time_mod;
  follow_links = false;
  ls_disp_hr = false;
  tabstops = 2;
  terminal_width = terminal_width;
}

-- What `getopt` returns: a letter of its string, with `atoi(optarg)` for `T` and `w`, or another
-- character for an error. `SORT_VERSION` and `SORT_EXT` are sorted by name.
pub data Opt : Type 0 where
  opt_1 opt_A opt_a opt_C opt_d opt_g opt_i opt_l opt_n opt_s opt_x opt_F opt_p opt_R opt_r opt_S
        opt_v opt_X opt_e opt_c opt_u opt_t opt_L opt_h opt_k opt_error :
      Opt
  opt_T opt_w : (optarg : ℕ) → Opt

-- The `switch` over the options; `none` is the jump to the usage message.
unfoldable pub switch : Opt → Options → Option Options
switch opt_1 o = some (record o { style_fmt = style_single })
switch opt_A o = some (record o { disp_hidden = true })
switch opt_a o = some (record o { disp_hidden = true; disp_dot = true })
switch opt_C o = some (record o { style_fmt = style_columns })
switch opt_d o = some (record o { disp_nolist = true })
switch opt_g o = some o
switch opt_i o = some (record o { list_ino = true })
switch opt_l o = some (record o {
  style_fmt = style_long;
  list_modebits = true;
  list_nlinks = true;
  list_id_name = true;
  list_size = true;
  list_date_time = true;
  list_filename = true;
  list_symlink = true;
  ls_disp_hr = false;
})
switch opt_n o = some (record o { list_id_numeric = true })
switch opt_s o = some (record o { list_blocks = true })
switch opt_x o = some (record o {
  disp_dirname = false;
  disp_hidden = false;
  disp_dot = false;
  disp_nolist = false;
  disp_recursive = false;
  disp_rows = true;
})
switch opt_F o = some (record o { list_filetype = true; list_exec = true })
switch opt_p o = some (record o { list_filetype = true })
switch opt_R o = some (record o { disp_recursive = true })
switch opt_r o = some (record o { sort_reverse = true })
switch opt_S o = some (record o { sort_opts = sort_size })
switch opt_v o = some (record o { sort_opts = sort_name })
switch opt_X o = some (record o { sort_opts = sort_name })
switch opt_e o = some (record o { list_fulltime = true })
switch opt_c o = some (record o { time_fmt = time_change; sort_opts = sort_ctime })
switch opt_u o = some (record o { time_fmt = time_access; sort_opts = sort_atime })
switch opt_t o = some (record o { sort_opts = sort_mtime })
switch opt_L o = some (record o { follow_links = true })
switch (opt_T optarg) o = some (record o { tabstops = optarg % 2 ^ 16 })
switch (opt_w optarg) o = some (record o { terminal_width = optarg % 2 ^ 16 })
switch opt_h o = some (record o { ls_disp_hr = true })
switch opt_k o = some o
switch opt_error o = none

unfoldable pub parse : List Opt → Options → Option Options
unfolding switch
parse [] o = some o
parse (opt ∷ rest) o = elim (switch opt o) [ none ↦ none | some o' ↦ parse rest o' ]

abbrev pub is_long : Style → Bool
is_long style_long = true
is_long style_auto = false
is_long style_single = false
is_long style_columns = false

-- `style_fmt` after "choose a display format".
abbrev pub chosen_style : (isatty : Bool) → Style → Style
chosen_style isatty style_auto = if isatty then style_columns else style_single
chosen_style isatty style_long = style_long
chosen_style isatty style_single = style_single
chosen_style isatty style_columns = style_columns

abbrev pub time_key : TimeFmt → SortKey → SortKey
time_key time_mod sort_opts = sort_opts
time_key time_change sort_opts = sort_ctime
time_key time_access sort_opts = sort_atime

-- Which options take precedence, the display format, and the label of directories for more than one
-- argument, of which `ac` are given.
unfoldable pub precedence : (isatty : Bool) → (ac : ℕ) → Options → Options
precedence isatty ac o =
    let numeric = is_long o.style_fmt && o.list_id_numeric in
    record o {
      disp_recursive = o.disp_recursive && not o.disp_nolist;
      sort_opts = time_key o.time_fmt o.sort_opts;
      list_id_numeric = numeric;
      list_id_name = o.list_id_name && not numeric;
      style_fmt = chosen_style isatty o.style_fmt;
      disp_dirname = if ltb 1 ac then true else o.disp_dirname;
    }

unfoldable pub options : (isatty : Bool) → (ac terminal_width : ℕ) → List Opt → Option Options
unfolding parse precedence
options isatty ac terminal_width opts = elim (parse opts (start_options terminal_width)) [
  | none ↦ none
  | some o ↦ some (precedence isatty ac o)
]
