-- ===== src/Ls.antt =====
-- The directory lister src/ls.c: entries, how they are counted and split, and their order.
pub mod Split
pub mod Order
pub mod Sort
pub mod Names
pub mod Options
pub mod Memory
pub mod Screen
pub mod Print
pub mod Show
pub mod Walk
pub mod Nodes
pub mod Text
pub mod Layout
use rmm.Base.{
  ℕ, zero, suc, ◌+◌, ◌-◌, ◌/◌, ◌%◌, ◌^◌, Bool, true, false, not, ◌&&◌, ◌==◌, ltb, if◌then◌else◌,
  Option, none, some, List, [], ◌∷◌, length, map, replicate,
}

-- `struct dnode` without `fullname` and `next`; of `dstat` the fields that the functions here read.
-- A name is its bytes; sizes and times are 64-bit words.
pub record Dnode : Type 0 where
  pub name : List ℕ
  pub st_mode : ℕ
  pub st_size : ℕ
  pub st_atime : ℕ
  pub st_ctime : ℕ
  pub st_mtime : ℕ

-- The sign of an `int`, which is all that the callers of `strcmp` and `sortcmp` read.
pub data Sign : Type 0 where
  minus nought plus : Sign

abbrev pub is_nought : Sign → Bool
is_nought minus = false
is_nought nought = true
is_nought plus = false

-- `S_ISDIR(mode)`
abbrev pub s_isdir : ℕ → Bool
s_isdir mode = mode / 4096 % 16 == 4

-- The names "." and ".."
abbrev pub dot : List ℕ
dot = 46 ∷ []

abbrev pub dot_dot : List ℕ
dot_dot = 46 ∷ 46 ∷ []

-- `strcmp` belongs to the C library: it is an argument.
abbrev pub Strcmp : Type 0
Strcmp = List ℕ → List ℕ → Sign

unfoldable pub is_subdir : Strcmp → Dnode → Bool
is_subdir strcmp dn =
    s_isdir dn.st_mode
    && not (is_nought (strcmp dn.name dot))
    && not (is_nought (strcmp dn.name dot_dot))

-- The loop of `countdirs` and `countsubdirs`, from the count so far.
pub count_if : (Dnode → Bool) → List Dnode → ℕ → ℕ
count_if test [] dirs = dirs
count_if test (x ∷ dn) dirs = count_if test dn (if test x then dirs + 1 else dirs)

-- An array of entries is a list, and `nfiles` is its length; the array `NULL` is the empty list.
pub countdirs : List Dnode → ℕ
unfolding count_if
countdirs dn = count_if (λ x. s_isdir x.st_mode) dn 0

pub countsubdirs : Strcmp → List Dnode → ℕ
unfolding count_if is_subdir
countsubdirs strcmp dn = count_if (is_subdir strcmp) dn 0

-- `dnalloc(num)`: slots that hold `NULL`.
pub dnalloc {ℓ} : {A : Type ℓ} → (num : ℕ) → List (Option A)
dnalloc num = replicate num none

-- `SPLIT_DIR`, `SPLIT_FILE`, `SPLIT_SUBDIR`
pub data Which : Type 0 where
  split_dir split_file split_subdir : Which

-- The three tests of the copying loop.
unfoldable pub selects : Strcmp → Which → Dnode → Bool
unfolding is_subdir
selects strcmp split_dir x = s_isdir x.st_mode
selects strcmp split_file x = not (s_isdir x.st_mode)
selects strcmp split_subdir x = is_subdir strcmp x

-- `dnp[d] = x`; `none` is a write outside the array.
pub store {ℓ} : {A : Type ℓ} → (d : ℕ) → A → List (Option A) → Option (List (Option A))
store d x [] = none
store zero x (slot ∷ dnp) = some (some x ∷ dnp)
store (suc d) x (slot ∷ dnp) = elim (store d x dnp) [ none ↦ none | some dnp' ↦ some (slot ∷ dnp') ]

pub copy_entries {ℓ} :
    {A : Type ℓ} → (A → Bool) → List A → (d : ℕ) → List (Option A) → Option (List (Option A))
unfolding store
copy_entries test [] d dnp = some dnp
copy_entries test (x ∷ dn) d dnp = elim (test x) [
  | true ↦ elim (store d x dnp) [ none ↦ none | some dnp' ↦ copy_entries test dn (d + 1) dnp' ]
  | false ↦ copy_entries test dn d dnp
]

-- How many slots `splitdnarray` asks for.
pub dncnt : Strcmp → Which → List Dnode → ℕ
unfolding countdirs countsubdirs
dncnt strcmp split_dir dn = countdirs dn
dncnt strcmp split_file dn = length dn - countdirs dn
dncnt strcmp split_subdir dn = countsubdirs strcmp dn

-- An array of records that hold the entries as `node` reads them.
pub splitdnarray {ℓ} :
    {A : Type ℓ} (node : A → Dnode) → Strcmp → List A → Which → Option (List (Option A))
unfolding copy_entries dnalloc dncnt selects
splitdnarray node strcmp [] which = some []
splitdnarray node strcmp (x ∷ dn) which =
    copy_entries (λ y. selects strcmp which (node y)) (x ∷ dn) 0
      (dnalloc (dncnt strcmp which (map node (x ∷ dn))))

-- `sort_opts`; every other value, `SORT_NAME` among them, sorts by name.
pub data SortKey : Type 0 where
  sort_size sort_atime sort_ctime sort_mtime sort_dir sort_name : SortKey

-- The sign of `(int)(a - b)` for 64-bit words: the upper half of the difference is lost.
abbrev pub int_diff : ℕ → ℕ → Sign
int_diff a b =
    let d = (a + 2 ^ 64 - b) % 2 ^ 32 in
    if d == 0 then nought else if ltb d (2 ^ 31) then plus else minus

abbrev pub bool_diff : Bool → Bool → Sign
bool_diff true true = nought
bool_diff true false = plus
bool_diff false true = minus
bool_diff false false = nought

pub key_diff : SortKey → Dnode → Dnode → Sign
key_diff sort_size d1 d2 = int_diff d1.st_size d2.st_size
key_diff sort_atime d1 d2 = int_diff d1.st_atime d2.st_atime
key_diff sort_ctime d1 d2 = int_diff d1.st_ctime d2.st_ctime
key_diff sort_mtime d1 d2 = int_diff d1.st_mtime d2.st_mtime
key_diff sort_dir d1 d2 = bool_diff (s_isdir d1.st_mode) (s_isdir d2.st_mode)
key_diff sort_name d1 d2 = nought

abbrev pub negate : Sign → Sign
negate minus = plus
negate nought = nought
negate plus = minus

-- Larger keys come first; equal keys leave it to `tie`.
pub decide : (dif tie : Sign) → Sign
decide plus tie = minus
decide minus tie = plus
decide nought tie = tie

pub sortcmp : Strcmp → SortKey → (reverse : Bool) → Dnode → Dnode → Sign
unfolding key_diff decide
sortcmp strcmp sort_opts reverse d1 d2 =
    let cmp = decide (key_diff sort_opts d1 d2) (strcmp d1.name d2.name) in
    if reverse then negate cmp else cmp
