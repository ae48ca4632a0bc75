-- ===== src/Ls/Names.antt =====
-- Names and directories of src/ls.c: `last_char_is`, `concat_path_file`, `my_stat` and `list_dir`.
pub mod Paths
pub mod Listed
pub mod Wanted
use rmm.Base.{
  ℕ, zero, suc, ◌+◌, ◌-◌, Bool, true, false, not, ◌&&◌, ◌==◌, leb, if◌then◌else◌, Option, none,
  some, List, [], ◌∷◌, ◌++◌, length, get_or, drop,
}
use rmm.Ls.{Dnode, Strcmp, is_nought, dot, dot_dot}

-- `last_char_is(s, c)`: the place of the last character when it is c. A string is its bytes without
-- the end, and the pointer is an index.
unfoldable pub last_char_is : List ℕ → (c : ℕ) → Option ℕ
last_char_is s c =
    if leb 1 (length s) && (get_or s (length s - 1) 0 == c) then some (length s - 1) else none

-- `while (*filename == '/') filename++;`
unfoldable pub skip_slashes : List ℕ → List ℕ
skip_slashes [] = []
skip_slashes (c ∷ filename) =
    let rest = skip_slashes filename in if c == 47 then rest else c ∷ filename

-- `outbuf`: the bytes asked of `xmalloc`, and those that `sprintf` writes, its last one the end.
pub record Outbuf : Type 0 where
  pub size : ℕ
  pub fullname : List ℕ
  pub written : List ℕ

abbrev pub slash_unless : Option ℕ → List ℕ
slash_unless none = 47 ∷ []
slash_unless (some lc) = []

abbrev pub one_unless : Option ℕ → ℕ
one_unless none = 1
one_unless (some lc) = 0

-- The path `NULL` stands for the empty one.
unfoldable pub concat_path_file : (path filename : List ℕ) → Outbuf
unfolding last_char_is skip_slashes
concat_path_file path filename =
    let lc = last_char_is path 47 in
    let rest = skip_slashes filename in
    let fullname = path ++ slash_unless lc ++ rest in
    record {
      size = length path + length rest + 1 + one_unless lc;
      fullname = fullname;
      written = fullname ++ 0 ∷ [];
    }

-- What `stat` and `lstat` answer, of which these fields are read here.
pub record Stat : Type 0 where
  pub st_mode : ℕ
  pub st_size : ℕ
  pub st_atime : ℕ
  pub st_ctime : ℕ
  pub st_mtime : ℕ

-- `cur`: `fullname`, with the node that its `name` and `dstat` make.
pub record Entry : Type 0 where
  pub fullname : List ℕ
  pub node : Dnode

-- The bits `DISP_DOT` and `DISP_HIDDEN`, `follow_links`, and the system's calls.
pub record Setting : Type 0 where
  pub disp_dot : Bool
  pub disp_hidden : Bool
  pub follow_links : Bool
  pub strcmp : Strcmp
  pub stat : List ℕ → Option Stat
  pub lstat : List ℕ → Option Stat

-- `my_stat`, without its message; `none` stands for -1.
unfoldable pub my_stat : Setting → (fullname : List ℕ) → Option Stat
my_stat set fullname = if set.follow_links then set.stat fullname else set.lstat fullname

-- The three tests of the loop of `list_dir`: the entry is not skipped.
unfoldable pub is_listed : Setting → (d_name : List ℕ) → Bool
is_listed set d_name =
    if is_nought (set.strcmp d_name dot) && not set.disp_dot
    then false
    else if is_nought (set.strcmp d_name dot_dot) && not set.disp_dot
    then false
    else not ((get_or d_name 0 0 == 46) && not set.disp_hidden)

-- The chain `dn` and whether `status` is `EXIT_FAILURE`.
pub record Chain : Type 0 where
  pub dn : List Entry
  pub failed : Bool

-- `cur->name` points into `fullname`.
abbrev pub name_of : (fullname d_name : List ℕ) → List ℕ
name_of fullname d_name = drop (length fullname - length d_name) fullname

abbrev pub node_of : (name : List ℕ) → Stat → Dnode
node_of name st = record {
  name = name;
  st_mode = st.st_mode;
  st_size = st.st_size;
  st_atime = st.st_atime;
  st_ctime = st.st_ctime;
  st_mtime = st.st_mtime;
}

-- One round of the loop.
unfoldable pub read_entry : Setting → (path d_name : List ℕ) → Chain → Chain
unfolding is_listed concat_path_file my_stat
read_entry set path d_name chain = elim (is_listed set d_name) [
  | false ↦ chain
  | true ↦
      let fullname = (concat_path_file path d_name).fullname in
      elim (my_stat set fullname) [
        | none ↦ record chain { failed = true }
        | some st ↦ record chain {
          dn =
              record { fullname = fullname; node = node_of (name_of fullname d_name) st }
              ∷ chain.dn;
        }
      ]
]

unfoldable pub read_entries : Setting → (path : List ℕ) → List (List ℕ) → Chain → Chain
unfolding read_entry
read_entries set path [] chain = chain
read_entries set path (d_name ∷ rest) chain =
    read_entries set path rest (read_entry set path d_name chain)

-- `list_dir`: `none` is a directory that `opendir` refuses, and `readdir` gives the names of another.
-- The array has the nodes of the chain in its order; `NULL` is the empty list.
unfoldable pub list_dir :
    Setting → (path : List ℕ) → Option (List (List ℕ)) → (failed : Bool) → Chain
unfolding read_entries
list_dir set path none failed = record { dn = []; failed = true }
list_dir set path (some names) failed =
    read_entries set path names (record { dn = []; failed = failed })
