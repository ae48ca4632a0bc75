-- ===== src/Ls/Print.antt =====
-- `list_single` of src/ls.c, which prints one entry, and its colours and names.
pub mod Blocks
pub mod Links
use rmm.Base.{
  ℕ, zero, suc, ◌+◌, ◌-◌, ◌*◌, ◌/◌, ◌%◌, ◌^◌, Bool, true, false, not, ◌&&◌, ◌||◌, ◌==◌, ltb, leb,
  if◌then◌else◌, Option, none, some, List, [], ◌∷◌, ◌++◌, length, take, drop, get_or,
}
use rmm.Alloc.{State, Env, Result, ok, exited, blocked, fault, out_of_fuel}
use rmm.Ls.{Dnode, Strcmp}
use rmm.Ls.Memory.{xreadlink}
use rmm.Ls.Names.{Stat}
use rmm.Ls.Text.{
  type_index, tests, s_isreg, mode_string, append_char, Text, zero_text, plain, tenths,
  make_human_readable_str,
}
use rmm.Ls.Options.{Options, TimeFmt, time_mod, time_change, time_access}
use rmm.Ls.Screen.{Screen, put, advance, decimal, pad_left, pad_right, space}

-- The fields of `dstat` that only the output reads.
pub record Rest : Type 0 where
  pub st_ino : ℕ
  pub st_blocks : ℕ
  pub st_nlink : ℕ
  pub st_uid : ℕ
  pub st_gid : ℕ
  pub major : ℕ
  pub minor : ℕ

-- A `struct dnode` with its `fullname`.
pub record Full : Type 0 where
  pub dnode : Dnode
  pub fullname : List ℕ
  pub rest : Rest

-- What the system answers: names of users and groups, the 26 bytes of `ctime`, the time, `stat` and
-- `lstat` with the rest of the fields that they give, the bytes that `readlink` writes into a buffer of
-- a size, the names in a directory, whether the output is a terminal, and `strcmp`. `xreadlink` takes
-- its buffers from the allocator: `env`, `fuel`, `self` and the state `heap` are what it runs in, and
-- `rounds` bounds its loop.
pub record World : Type 0 where
  pub getpwuid : ℕ → Option (List ℕ)
  pub getgrgid : ℕ → Option (List ℕ)
  pub ctime : ℕ → List ℕ
  pub now : ℕ
  pub stat : List ℕ → Option Stat
  pub lstat : List ℕ → Option Stat
  pub rest : List ℕ → Rest
  pub readlink : List ℕ → (bufsize : ℕ) → Option (List ℕ)
  pub env : Env
  pub fuel : ℕ
  pub self : ℕ
  pub heap : State
  pub rounds : ℕ
  pub opendir : List ℕ → Option (List (List ℕ))
  pub show_color : Bool
  pub strcmp : Strcmp

-- `info.st_mode` after a call that succeeds.
abbrev pub mode_of : Option Stat → Option ℕ
mode_of none = none
mode_of (some info) = some info.st_mode

-- The strings that `COLOR` and `ATTR` index.
abbrev pub colors : List ℕ
colors = 0 ∷ 35 ∷ 35 ∷ 35 ∷ 34 ∷ 0 ∷ 35 ∷ 35 ∷ 0 ∷ 0 ∷ 36 ∷ 0 ∷ 35 ∷ 0 ∷ 0 ∷ 32 ∷ []

abbrev pub attrs : List ℕ
attrs = 0 ∷ 0 ∷ 1 ∷ 0 ∷ 1 ∷ 0 ∷ 1 ∷ 0 ∷ 0 ∷ 0 ∷ 1 ∷ 0 ∷ 1 ∷ 0 ∷ 0 ∷ 1 ∷ []

-- `S_ISREG(mode) && (mode & (S_IXUSR | S_IXGRP | S_IXOTH))`
abbrev pub is_executable : ℕ → Bool
is_executable mode = s_isreg mode && tests mode (2 ^ 6 + 2 ^ 3 + 2 ^ 0)

-- Where these are called `errno` is 0, so that the first test of `fgcolor` fails.
unfoldable pub fgcolor : ℕ → ℕ
fgcolor mode =
    if is_executable mode
    then get_or colors (type_index 0xf000) 0
    else get_or colors (type_index mode) 0

unfoldable pub bgcolor : ℕ → ℕ
bgcolor mode =
    if is_executable mode
    then get_or attrs (type_index 0xf000) 0
    else get_or attrs (type_index mode) 0

-- `printf("\033[%d;%dm", bgcolor(mode), fgcolor(mode))` and `printf("\033[0m")`
abbrev pub color_on : ℕ → List ℕ
color_on mode = 27 ∷ 91 ∷ decimal (bgcolor mode) ++ 59 ∷ decimal (fgcolor mode) ++ 109 ∷ []

abbrev pub color_off : List ℕ
color_off = 27 ∷ 91 ∷ 48 ∷ 109 ∷ []

-- `my_getpwuid` and `my_getgrgid`
pub name_or_number : Option (List ℕ) → ℕ → List ℕ
name_or_number none id = pad_right 8 (decimal id) ++ space
name_or_number (some name) id = name

-- A text of `make_human_readable_str` as its bytes.
abbrev pub text_bytes : Text → List ℕ
text_bytes zero_text = 48 ∷ []
text_bytes (plain val) = decimal val
text_bytes (tenths val frac unit) = decimal val ++ 46 ∷ decimal frac ++ unit ∷ []

-- `ttime`
abbrev pub shown_time : TimeFmt → Dnode → ℕ
shown_time time_mod x = x.st_mtime
shown_time time_change x = x.st_ctime
shown_time time_access x = x.st_atime

-- A case of the `switch`, when its bit is set in `list_fmt`.
unfoldable pub on : Bool → (Screen → Screen) → Screen → Screen
on bit print sc = if bit then print sc else sc

pub print_blocks : Options → Full → Screen → Screen
print_blocks o e sc =
    let half = e.rest.st_blocks / 2 in
    let human = make_human_readable_str half 1024 (if o.ls_disp_hr then 0 else 1024) in
    advance 5 (
      put
        (pad_left 6 (text_bytes human)
          ++ space
          ++ pad_left 4 (decimal half)
          ++ space
          ++ pad_left 4 (decimal half)
          ++ space)
        sc)

pub print_id_name : World → Full → Screen → Screen
unfolding name_or_number
print_id_name w e sc =
    let user = name_or_number (w.getpwuid e.rest.st_uid) e.rest.st_uid in
    let group = name_or_number (w.getgrgid e.rest.st_gid) e.rest.st_gid in
    advance 17 (put (pad_right 8 (take 8 user) ++ space ++ pad_right 8 (take 8 group)) sc)

-- `S_ISBLK(mode) || S_ISCHR(mode)`
abbrev pub is_device : ℕ → Bool
is_device mode = (type_index mode == 6) || (type_index mode == 2)

pub print_size : Options → Full → Screen → Screen
print_size o e sc =
    let size = e.dnode.st_size in
    let text =
      if is_device e.dnode.st_mode
      then pad_left 4 (decimal e.rest.major) ++ 44 ∷ 32 ∷ pad_left 3 (decimal e.rest.minor) ++ space
      else if o.ls_disp_hr
      then pad_left 8 (text_bytes (make_human_readable_str size 1 0)) ++ space
      else pad_left 9 (decimal size) ++ space ++ pad_left 9 (decimal size) ++ space in
    advance 10 (put text sc)

-- Less than half a year old, and not from the future.
abbrev pub is_recent : (now ttime : ℕ) → Bool
is_recent now ttime = ltb now (ttime + 15768000) && ltb ttime (now + 900)

-- The case of `LIST_FULLTIME` and `LIST_DATE_TIME`.
pub print_time : World → Options → Full → Screen → Screen
print_time w o e sc =
    let ttime = shown_time o.time_fmt e.dnode in
    let filetime = w.ctime ttime in
    let date = pad_left 6 (take 6 (drop 4 filetime)) ++ space in
    let rest =
      if is_recent w.now ttime
      then pad_left 5 (take 5 (drop 11 filetime)) ++ space
      else space ++ pad_left 4 (take 4 (drop 20 filetime)) ++ space in
    if o.list_fulltime
    then advance 25 (put (pad_left 24 (take 24 filetime) ++ space) sc)
    else advance 13 (put (date ++ rest) sc)

unfoldable pub print_filename : World → Full → Screen → Screen
print_filename w e sc =
    let before : List ℕ = elim (mode_of (w.lstat e.fullname)) [
      | none ↦ []
      | some mode ↦ color_on mode
    ] in
    let name = e.dnode.name in
    let text = if w.show_color then before ++ name ++ color_off else name in
    advance (length name) (put text sc)

-- `info.st_mode` when the colours of a link are printed: of its target, or else what `info` held
-- before, from the `lstat` of the name or from nowhere.
abbrev pub link_info : (stale : ℕ) → World → Full → ℕ
link_info stale w e = elim (mode_of (w.stat e.fullname)) [
  | some mode ↦ mode
  | none ↦ elim (mode_of (w.lstat e.fullname)) [ some mode ↦ mode | none ↦ stale ]
]

-- `S_ISLNK(mode)`
abbrev pub s_islnk : ℕ → Bool
s_islnk mode = type_index mode == 10

-- The bytes from an address to the first 0, at most `n` of them.
pub string_at : (ℕ → ℕ) → (a n : ℕ) → List ℕ
string_at bytes a zero = []
string_at bytes a (suc n) = if bytes a == 0 then [] else bytes a ∷ string_at bytes (a + 1) n

-- What `xreadlink` returns: `NULL` or a text of at most `longest` bytes.
abbrev pub text_of : (longest : ℕ) → Result ℕ → Option (Option (List ℕ))
text_of longest (ok buf s) =
    if buf == 0 then some none else some (some (string_at s.bytes buf longest))
text_of longest exited = none
text_of longest blocked = none
text_of longest fault = none
text_of longest out_of_fuel = none

-- The target of a link, if one is printed. `none` is a process that ends in it.
unfoldable pub link_of : World → Options → Full → Option (Option (List ℕ))
unfolding string_at
link_of w o e =
    if o.list_symlink && s_islnk e.dnode.st_mode
    then text_of (80 * w.rounds)
        (xreadlink w.env w.fuel w.self (w.readlink e.fullname) w.rounds w.heap)
    else some none

unfoldable pub print_symlink :
    (stale : ℕ) → World → Full → (link : Option (List ℕ)) → Screen → Screen
print_symlink stale w e none sc = sc
print_symlink stale w e (some lpath) sc =
    let text =
      if w.show_color then color_on (link_info stale w e) ++ lpath ++ color_off else lpath in
    advance (length lpath + 4) (put (32 ∷ 45 ∷ 62 ∷ 32 ∷ text) sc)

-- `append` at the end of the loop: that of the link's target, when it has one.
unfoldable pub append_of : World → Options → Full → (link : Option (List ℕ)) → ℕ
unfolding append_char
append_of w o e link =
    let char = append_char o.list_filetype o.list_exec in
    elim link [
      | none ↦ char e.dnode.st_mode
      | some lpath ↦ elim (mode_of (w.stat e.fullname)) [
        | none ↦ char e.dnode.st_mode
        | some mode ↦ char mode
      ]
    ]

-- What the loop over the bits of `list_fmt` prints, from the lowest, when the link is read. No option
-- sets `LIST_DEV`.
unfoldable pub list_bits :
    (stale : ℕ) → World → Options → Full → (link : Option (List ℕ)) → Screen → Screen
unfolding print_blocks print_id_name print_size print_time print_filename print_symlink append_of
list_bits stale w o e link sc =
    let ino = λ (sc : Screen). advance 8 (put (pad_left 7 (decimal e.rest.st_ino) ++ space) sc) in
    let modebits =
      λ (sc : Screen). advance 10 (put (pad_right 10 (mode_string e.dnode.st_mode) ++ space) sc) in
    let nlinks =
      λ (sc : Screen). advance 10 (put (pad_left 4 (decimal e.rest.st_nlink) ++ space) sc) in
    let id_numeric = λ (sc : Screen). advance 17 (
      put (pad_right 8 (decimal e.rest.st_uid) ++ space ++ pad_right 8 (decimal e.rest.st_gid))
        sc) in
    let append = append_of w o e link in
    let filetype = λ (sc : Screen). if append == 0 then sc else advance 1 (put (append ∷ []) sc) in
    on o.list_filetype filetype (
      print_symlink stale w e link (
        on o.list_filename (print_filename w e) (
          on o.list_fulltime (print_time w o e) (
            on o.list_date_time (print_time w o e) (
              on o.list_size (print_size o e) (
                on o.list_id_numeric id_numeric (
                  on o.list_id_name (print_id_name w e) (
                    on o.list_nlinks nlinks (
                      on o.list_modebits modebits
                        (on o.list_blocks (print_blocks o e) (on o.list_ino ino sc)))))))))))

-- `none` is a process that ends in `xreadlink`.
unfoldable pub list_single : (stale : ℕ) → World → Options → Full → Screen → Option Screen
unfolding link_of list_bits
list_single stale w o e sc = elim (link_of w o e) [
  | none ↦ none
  | some link ↦ some (list_bits stale w o e link sc)
]
