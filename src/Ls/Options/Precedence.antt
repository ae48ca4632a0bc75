-- ===== src/Ls/Options/Precedence.antt =====
-- The options of src/ls.c do not contradict each other in the end.
use mathlib.Core.Bool.{false≢true}
use mathlib.Core.Option.{some-injective}
use native.Mathlib.Omega.{arith}
use rmm.Base.{
  ℕ, ◌≡◌, ◌≢◌, refl, sym, ap, subst, ◌∙◌, inl, inr, Option-cases, Bool, true, false, not, ◌&&◌,
  ◌||◌, Option, none, some, List, [], ◌∷◌,
}
use rmm.Ls.{sort_atime, sort_ctime}
use rmm.Ls.Layout.{Style, style_auto, style_long, style_single, style_columns}
use rmm.Ls.Options.{
  Opt, opt_1, opt_C, opt_l, opt_A, opt_a, opt_d, opt_g, opt_i, opt_n, opt_s, opt_x, opt_F, opt_p,
  opt_R, opt_r, opt_S, opt_v, opt_X, opt_e, opt_c, opt_u, opt_t, opt_L, opt_h, opt_k, opt_T, opt_w,
  opt_error, chosen_style, time_key, time_change, time_access, Options, start_options, switch,
  parse, is_long, precedence, options,
}

-- What `ls_main` relies on when it begins to list.
pub record Settled (o : Options) : Type 0 where
  -- The format is one that prints.
  pub style : o.style_fmt ≢ style_auto
  -- A long list shows the owner, as a name or as a number, and no list shows both.
  pub owner : is_long o.style_fmt ≡ true → (o.list_id_name || o.list_id_numeric) ≡ true
  pub one_owner : (o.list_id_name && o.list_id_numeric) ≡ false
  -- A directory shown as itself is not listed below.
  pub depth : (o.disp_nolist && o.disp_recursive) ≡ false
  -- The time that is shown is the one that sorts.
  pub changed : o.time_fmt ≡ time_change → o.sort_opts ≡ sort_ctime
  pub accessed : o.time_fmt ≡ time_access → o.sort_opts ≡ sort_atime

-- The long style comes with the bits of `LIST_LONG`.
HasNames : Options → Type 0
HasNames o = is_long o.style_fmt ≡ true → o.list_id_name ≡ true

-- A property of what is returned, if anything is.
abbrev Holds : (Options → Type 0) → Option Options → Type 0
Holds P none = Unit
Holds P (some o) = P o

switch-HasNames : (opt : Opt) (o : Options) → HasNames o → Holds HasNames (switch opt o)
unfolding switch HasNames
switch-HasNames opt_1 o h = λ e. absurd (false≢true e)
switch-HasNames opt_C o h = λ e. absurd (false≢true e)
switch-HasNames opt_l o h = λ e. refl
switch-HasNames opt_A o h = h
switch-HasNames opt_a o h = h
switch-HasNames opt_d o h = h
switch-HasNames opt_g o h = h
switch-HasNames opt_i o h = h
switch-HasNames opt_n o h = h
switch-HasNames opt_s o h = h
switch-HasNames opt_x o h = h
switch-HasNames opt_F o h = h
switch-HasNames opt_p o h = h
switch-HasNames opt_R o h = h
switch-HasNames opt_r o h = h
switch-HasNames opt_S o h = h
switch-HasNames opt_v o h = h
switch-HasNames opt_X o h = h
switch-HasNames opt_e o h = h
switch-HasNames opt_c o h = h
switch-HasNames opt_u o h = h
switch-HasNames opt_t o h = h
switch-HasNames opt_L o h = h
switch-HasNames opt_h o h = h
switch-HasNames opt_k o h = h
switch-HasNames (opt_T optarg) o h = h
switch-HasNames (opt_w optarg) o h = h
switch-HasNames opt_error o h = tt

parse-HasNames : (opts : List Opt) (o : Options) → HasNames o → Holds HasNames (parse opts o)
unfolding parse
parse-HasNames [] o h = h
parse-HasNames (opt ∷ rest) o h =
    let step = switch-HasNames opt o h in
    elim (Option-cases (switch opt o)) [
      | inl stopped ↦ rw (parse, stopped) tt
      | inr (o', run) ↦ rw (parse, run) (parse-HasNames rest o' (subst (Holds HasNames) run step))
    ]

chosen_style-settled : (isatty : Bool) (s : Style) → chosen_style isatty s ≢ style_auto
chosen_style-settled true style_auto e = cc e
chosen_style-settled false style_auto e = cc e
chosen_style-settled isatty style_long e = cc e
chosen_style-settled isatty style_single e = cc e
chosen_style-settled isatty style_columns e = cc e

chosen_style-is_long : (isatty : Bool) (s : Style) → is_long (chosen_style isatty s) ≡ is_long s
chosen_style-is_long true style_auto = refl
chosen_style-is_long false style_auto = refl
chosen_style-is_long isatty style_long = refl
chosen_style-is_long isatty style_single = refl
chosen_style-is_long isatty style_columns = refl

one_of :
    (long name numeric : Bool)
    → (long ≡ true → name ≡ true)
    → long ≡ true
    → ((name && not (long && numeric)) || (long && numeric)) ≡ true
one_of long name numeric h e = ground (arith, h, e)

precedence-Settled :
    (isatty : Bool) (ac : ℕ) (o : Options) → HasNames o → Settled (precedence isatty ac o)
unfolding precedence HasNames
precedence-Settled isatty ac o h = record {
  style = chosen_style-settled isatty o.style_fmt;
  owner = λ e.
      one_of (is_long o.style_fmt) o.list_id_name o.list_id_numeric h
        (sym (chosen_style-is_long isatty o.style_fmt) ∙ e);
  one_owner = ground arith;
  depth = ground arith;
  changed = λ e. ap (λ t. time_key t o.sort_opts) e;
  accessed = λ e. ap (λ t. time_key t o.sort_opts) e;
}

-- With any list of options that `getopt` accepts, for a terminal or not and any number of arguments:
-- the display format is one that prints; a long list shows the owner, and no list shows it both as a
-- name and as a number; a directory that is shown as itself is not listed below; and the time that `-c`
-- or `-u` shows is the one that sorts.
pub options-Settled :
    (isatty : Bool) (ac terminal_width : ℕ) (opts : List Opt) (o : Options)
    → options isatty ac terminal_width opts ≡ some o
    → Settled o
unfolding options HasNames
options-Settled isatty ac terminal_width opts o run =
    let names = parse-HasNames opts (start_options terminal_width) (λ e. absurd (false≢true e)) in
    elim (Option-cases (parse opts (start_options terminal_width))) [
      | inl stopped ↦
          let none_left : options isatty ac terminal_width opts ≡ none =
            rw (options, stopped) refl in
          absurd (cc (run, none_left))
      | inr (o', parsed) ↦
          let settled = precedence-Settled isatty ac o' (subst (Holds HasNames) parsed names) in
          let same : some (precedence isatty ac o') ≡ some o =
            sym (rw (options, parsed) refl) ∙ run in
          subst Settled (some-injective _ _ same) settled
    ]
