-- ===== src/Ls/Names/Wanted.antt =====
-- What `list_dir` of src/ls.c is to list, described apart from its code.
use mathlib.Core.List.{reverse, reverse-append, append-nil, append_assoc}
use mathlib.Core.Bool.{or_assoc, or-true, or-false}
use rmm.Base.{
  ℕ, ◌-◌, ◌≡◌, refl, ap, ◌∙◌, arith, Bool, true, false, ◌&&◌, ◌||◌, not, Bool-cases, inl, inr, leb,
  if◌then◌else◌, Option, none, some, Option-cases, List, [], ◌∷◌, ◌++◌, length, get_or, All, ◌==◌,
}
use rmm.Ls.{Strcmp, is_nought, dot, dot_dot}
use rmm.Ls.Names.{
  Setting, Stat, Entry, Chain, node_of, is_listed, my_stat, last_char_is, slash_unless,
  concat_path_file, read_entry, read_entries, list_dir,
}
use rmm.Ls.Names.Listed.{IsName}
use rmm.Ls.Names.Paths.{skip_slashes-keeps, name_of-concat_path_file}

-- Byte by byte.
unfoldable pub same_text : List ℕ → List ℕ → Bool
same_text [] [] = true
same_text [] (d ∷ t) = false
same_text (c ∷ s) [] = false
same_text (c ∷ s) (d ∷ t) = (c == d) && same_text s t

-- `strcmp` answers 0 for the same text and for no other.
abbrev pub TellsSame : Strcmp → Type 0
TellsSame strcmp = (s t : List ℕ) → is_nought (strcmp s t) ≡ same_text s t

begins_dot : List ℕ → Bool
begins_dot [] = false
begins_dot (c ∷ name) = c == 46

-- "." and ".." are wanted with `DISP_DOT`, and a name that begins with a dot with `DISP_HIDDEN`.
wanted : (disp_dot disp_hidden : Bool) → (name : List ℕ) → Bool
unfolding begins_dot
wanted disp_dot disp_hidden name =
    let dots = same_text name dot || same_text name dot_dot in
    (not dots || disp_dot) && (not (begins_dot name) || disp_hidden)

ends_slash : List ℕ → Bool
ends_slash [] = false
ends_slash (c ∷ []) = c == 47
ends_slash (c ∷ d ∷ path) = ends_slash (d ∷ path)

-- The path of a name in a directory.
joined : (path name : List ℕ) → List ℕ
unfolding ends_slash
joined path name = path ++ ((if ends_slash path then [] else 47 ∷ []) ++ name)

-- `-L` follows links.
status : (follow : Bool) → (stat lstat : List ℕ → Option Stat) → List ℕ → Option Stat
status true stat lstat path = stat path
status false stat lstat path = lstat path

status_of : Setting → (path name : List ℕ) → Option Stat
unfolding status joined
status_of set path name = status set.follow_links set.stat set.lstat (joined path name)

-- What a name adds to the chain.
abbrev with_status : (path name : List ℕ) → Option Stat → List Entry
with_status path name none = []
with_status path name (some st) =
    record { fullname = joined path name; node = node_of name st } ∷ []

abbrev is_none : Option Stat → Bool
is_none none = true
is_none (some st) = false

-- The entries, in the order of the directory.
pub expected : Setting → (path : List ℕ) → List (List ℕ) → List Entry
unfolding wanted status_of
expected set path [] = []
expected set path (name ∷ names) =
    (if wanted set.disp_dot set.disp_hidden name
      then with_status path name (status_of set path name)
      else [])
    ++ expected set path names

-- A wanted name has no status.
pub lost : Setting → (path : List ℕ) → List (List ℕ) → Bool
unfolding wanted status_of
lost set path [] = false
lost set path (name ∷ names) =
    (wanted set.disp_dot set.disp_hidden name && is_none (status_of set path name))
    || lost set path names

begins_dot_lem : (name : List ℕ) → begins_dot name ≡ (get_or name 0 0 == 46)
unfolding begins_dot
begins_dot_lem [] = refl
begins_dot_lem (c ∷ name) = refl

three_tests :
    (a b h disp_dot disp_hidden : Bool)
    → (if a && not disp_dot
        then false
        else if b && not disp_dot
        then false
        else not (h && not disp_hidden))
      ≡ ((not (a || b) || disp_dot) && (not h || disp_hidden))
three_tests a b h disp_dot disp_hidden = ground arith

is_listed-wanted :
    (set : Setting) (name : List ℕ)
    → TellsSame set.strcmp
    → is_listed set name ≡ wanted set.disp_dot set.disp_hidden name
unfolding is_listed wanted
is_listed-wanted set name tells =
    rw (is_listed, wanted, tells name dot, tells name dot_dot, begins_dot_lem name)
      (three_tests (same_text name dot) (same_text name dot_dot) (get_or name 0 0 == 46)
        set.disp_dot set.disp_hidden)

last_byte :
    (c : ℕ) (path : List ℕ) → (get_or (c ∷ path) (length path) 0 == 47) ≡ ends_slash (c ∷ path)
unfolding ends_slash
last_byte c [] = refl
last_byte c (d ∷ path) = last_byte d path

slash_by :
    (b : Bool) (n : ℕ) → slash_unless (if b then some n else none) ≡ (if b then [] else 47 ∷ [])
slash_by true n = refl
slash_by false n = refl

last_slash :
    (path : List ℕ)
    → slash_unless (last_char_is path 47) ≡ (if ends_slash path then [] else 47 ∷ [])
unfolding last_char_is ends_slash
last_slash [] = refl
last_slash (c ∷ path) =
    let end : length (c ∷ path) - 1 ≡ length path = omega arith in
    let some_byte : leb 1 (length (c ∷ path)) ≡ true = ground arith in
    rw (last_char_is, end, some_byte, last_byte c path)
      (slash_by (ends_slash (c ∷ path)) (length path))

concat_path_file-joined :
    (path name : List ℕ) → IsName name → (concat_path_file path name).fullname ≡ joined path name
unfolding concat_path_file joined
concat_path_file-joined path name no_slash =
    rw (skip_slashes-keeps name no_slash, last_slash path, append_assoc) refl

status-by :
    (follow : Bool) (stat lstat : List ℕ → Option Stat) (path : List ℕ)
    → (if follow then stat path else lstat path) ≡ status follow stat lstat path
unfolding status
status-by true stat lstat path = refl
status-by false stat lstat path = refl

my_stat-status_of :
    (set : Setting) (path name : List ℕ)
    → IsName name
    → my_stat set (concat_path_file path name).fullname ≡ status_of set path name
unfolding my_stat status_of
my_stat-status_of set path name no_slash =
    rw (concat_path_file-joined path name no_slash)
      (status-by set.follow_links set.stat set.lstat (joined path name))

-- What one name adds, and whether it is lost.
abbrev added : Setting → (path name : List ℕ) → List Entry
added set path name =
    if wanted set.disp_dot set.disp_hidden name
    then with_status path name (status_of set path name)
    else []

abbrev lost_name : Setting → (path name : List ℕ) → Bool
lost_name set path name =
    wanted set.disp_dot set.disp_hidden name && is_none (status_of set path name)

read_entry-added :
    (set : Setting) (path name : List ℕ) (chain : Chain)
    → TellsSame set.strcmp
    → IsName name
    → read_entry set path name chain ≡ record {
      dn = added set path name ++ chain.dn;
      failed = chain.failed || lost_name set path name;
    }
unfolding read_entry
read_entry-added set path name chain tells no_slash =
    let shown = is_listed-wanted set name tells in
    let stat = my_stat-status_of set path name no_slash in
    let full = concat_path_file-joined path name no_slash in
    let own = name_of-concat_path_file path name no_slash in
    elim (Bool-cases (wanted set.disp_dot set.disp_hidden name)) [
      | inl want ↦ elim (Option-cases (status_of set path name)) [
        | inl missing ↦ rw (read_entry, shown, want, stat, missing, or-true chain.failed) refl
        | inr (st, found) ↦
            rw (read_entry, shown, want, stat, found, own, full, or-false chain.failed) refl
      ]
      | inr hidden ↦ rw (read_entry, shown, hidden, or-false chain.failed) refl
    ]

one_or_none :
    (b : Bool) (path name : List ℕ) (st : Option Stat)
    → reverse (if b then with_status path name st else [])
      ≡ (if b then with_status path name st else [])
one_or_none true path name (some st) = refl
one_or_none true path name none = refl
one_or_none false path name st = refl

read_entries-expected :
    (set : Setting) (path : List ℕ) (names : List (List ℕ)) (chain : Chain)
    → TellsSame set.strcmp
    → All IsName names
    → read_entries set path names chain ≡ record {
      dn = reverse (expected set path names) ++ chain.dn;
      failed = chain.failed || lost set path names;
    }
unfolding read_entries expected lost
read_entries-expected set path [] chain tells no_slash = rw (or-false chain.failed) refl
read_entries-expected set path (name ∷ names) chain tells no_slash =
    rw
      (
        read_entry-added set path name chain tells no_slash.0,
        read_entries-expected set path names _ tells no_slash.1,
        reverse-append (added set path name) (expected set path names),
        one_or_none (wanted set.disp_dot set.disp_hidden name) path name (status_of set path name),
        append_assoc,
        or_assoc,
      )
      refl

-- `list_dir` of a directory that can be read gives an entry with its path for each name that is wanted
-- and has a status, the last one that `readdir` gave first: "." and ".." are wanted only with `DISP_DOT`,
-- any name that begins with a dot only with `DISP_HIDDEN`, all others always, and the status is that of a
-- link's target when links are followed. The exit status becomes a failure exactly when a wanted name
-- has no status. This holds when `strcmp` tells the same text from others, and no name begins with a
-- slash.
pub list_dir-expected :
    (set : Setting) (path : List ℕ) (names : List (List ℕ)) (failed : Bool)
    → TellsSame set.strcmp
    → All IsName names
    → ((list_dir set path (some names) failed).dn ≡ reverse (expected set path names))
      × ((list_dir set path (some names) failed).failed ≡ (failed || lost set path names))
unfolding list_dir
list_dir-expected set path names failed tells no_slash =
    let e =
      read_entries-expected set path names (record { dn = []; failed = failed }) tells no_slash in
    (ap (λ c. c.dn) e ∙ append-nil (reverse (expected set path names)), ap (λ c. c.failed) e)
