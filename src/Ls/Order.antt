-- ===== src/Ls/Order.antt =====
-- The order in which src/ls.c sorts.
use rmm.Base.{ℕ, ◌+◌, ◌-◌, ◌%◌, ◌^◌, ◌<◌, ◌≡◌, ◌≢◌, refl, ap, arith, Bool, true, false, List}
use rmm.Ls.{
  Dnode, Strcmp, Sign, minus, nought, plus, negate, int_diff, bool_diff, s_isdir, SortKey,
  sort_size, sort_atime, sort_ctime, sort_mtime, sort_dir, sort_name, key_diff, decide, sortcmp,
}

-- The key of an entry as a 64-bit word. Sorting by directory and by name needs none.
unfoldable pub key : SortKey → Dnode → ℕ
key sort_size x = x.st_size
key sort_atime x = x.st_atime
key sort_ctime x = x.st_ctime
key sort_mtime x = x.st_mtime
key sort_dir x = 0
key sort_name x = 0

int_diff-negate :
    (a b : ℕ)
    → a < 2 ^ 64
    → b < 2 ^ 64
    → (a + 2 ^ 64 - b) % 2 ^ 32 ≢ 2 ^ 31
    → int_diff b a ≡ negate (int_diff a b)
int_diff-negate a b ha hb ne = ground arith

bool_diff-negate : (a b : Bool) → bool_diff b a ≡ negate (bool_diff a b)
bool_diff-negate true true = refl
bool_diff-negate true false = refl
bool_diff-negate false true = refl
bool_diff-negate false false = refl

negate-negate : (c : Sign) → negate (negate c) ≡ c
negate-negate minus = refl
negate-negate nought = refl
negate-negate plus = refl

-- The keys of two entries are words, and their difference does not end in 2^31.
pub record Comparable (sort_opts : SortKey) (d1 d2 : Dnode) : Type 0 where
  pub first : key sort_opts d1 < 2 ^ 64
  pub second : key sort_opts d2 < 2 ^ 64
  pub apart : (key sort_opts d1 + 2 ^ 64 - key sort_opts d2) % 2 ^ 32 ≢ 2 ^ 31

key_diff-negate :
    (k : SortKey) (d1 d2 : Dnode)
    → Comparable k d1 d2
    → key_diff k d2 d1 ≡ negate (key_diff k d1 d2)
unfolding key_diff key
key_diff-negate sort_size d1 d2 c = int_diff-negate d1.st_size d2.st_size c.first c.second c.apart
key_diff-negate sort_atime d1 d2 c =
    int_diff-negate d1.st_atime d2.st_atime c.first c.second c.apart
key_diff-negate sort_ctime d1 d2 c =
    int_diff-negate d1.st_ctime d2.st_ctime c.first c.second c.apart
key_diff-negate sort_mtime d1 d2 c =
    int_diff-negate d1.st_mtime d2.st_mtime c.first c.second c.apart
key_diff-negate sort_dir d1 d2 c = bool_diff-negate (s_isdir d1.st_mode) (s_isdir d2.st_mode)
key_diff-negate sort_name d1 d2 c = refl

decide-negate : (dif tie : Sign) → decide (negate dif) (negate tie) ≡ negate (decide dif tie)
unfolding decide
decide-negate minus tie = refl
decide-negate nought tie = refl
decide-negate plus tie = refl

-- With a `strcmp` that answers the other way round for its arguments exchanged, so does `sortcmp`, for
-- each key and either direction, when the keys are 64-bit words whose difference does not end in
-- 2^31: the `int` that it is cut down to is then not the least one.
pub sortcmp-negate :
    (strcmp : Strcmp) (sort_opts : SortKey) (reverse : Bool) (d1 d2 : Dnode)
    → ((s t : List ℕ) → strcmp t s ≡ negate (strcmp s t))
    → Comparable sort_opts d1 d2
    → sortcmp strcmp sort_opts reverse d2 d1 ≡ negate (sortcmp strcmp sort_opts reverse d1 d2)
unfolding sortcmp
sortcmp-negate strcmp k true d1 d2 flip c =
    rw (key_diff-negate k d1 d2 c, flip d1.name d2.name)
      (ap negate (decide-negate (key_diff k d1 d2) (strcmp d1.name d2.name)))
sortcmp-negate strcmp k false d1 d2 flip c =
    rw (key_diff-negate k d1 d2 c, flip d1.name d2.name)
      (decide-negate (key_diff k d1 d2) (strcmp d1.name d2.name))
