-- ===== src/Ls/Names/Paths.antt =====
-- `concat_path_file` of src/ls.c: its buffer and the name within.
use rmm.Base.{
  ℕ, ◌-◌, ◌≡◌, ◌≢◌, refl, arith, false, Option, none, some, List, [], ◌∷◌, ◌++◌, length,
  length-append, get_or, drop, ◌==◌,
}
use rmm.Ls.Names.{last_char_is, skip_slashes, slash_unless, one_unless, concat_path_file, name_of}

length-slash : (lc : Option ℕ) → length (slash_unless lc) ≡ one_unless lc
length-slash none = refl
length-slash (some lc) = refl

-- `sprintf` writes as many bytes as `concat_path_file` asks of `xmalloc`.
pub concat_path_file-fits :
    (path filename : List ℕ)
    → length (concat_path_file path filename).written ≡ (concat_path_file path filename).size
unfolding concat_path_file
concat_path_file-fits path filename =
    let lc = last_char_is path 47 in
    let rest = skip_slashes filename in
    omega (
      arith,
      length-append (path ++ slash_unless lc ++ rest) (0 ∷ []),
      length-append (path ++ slash_unless lc) rest,
      length-append path (slash_unless lc),
      length-slash lc,
    )

drop-append : (pre rest : List ℕ) → drop (length pre) (pre ++ rest) ≡ rest
drop-append [] rest = refl
drop-append (c ∷ pre) rest = drop-append pre rest

drop_rest : (pre rest : List ℕ) → drop (length (pre ++ rest) - length rest) (pre ++ rest) ≡ rest
drop_rest pre rest =
    let counted : length (pre ++ rest) - length rest ≡ length pre =
      omega (arith, length-append pre rest) in
    rw counted (drop-append pre rest)

pub skip_slashes-keeps : (d_name : List ℕ) → get_or d_name 0 0 ≢ 47 → skip_slashes d_name ≡ d_name
unfolding skip_slashes
skip_slashes-keeps [] ne = refl
skip_slashes-keeps (c ∷ cs) ne =
    let differs : (c == 47) ≡ false = ground (arith, ne) in rw differs refl

-- The name that `list_dir` finds in the path that it made is the entry's.
pub name_of-concat_path_file :
    (path d_name : List ℕ)
    → get_or d_name 0 0 ≢ 47
    → name_of (concat_path_file path d_name).fullname d_name ≡ d_name
unfolding concat_path_file
name_of-concat_path_file path d_name no_slash =
    rw (skip_slashes-keeps d_name no_slash)
      (drop_rest (path ++ slash_unless (last_char_is path 47)) d_name)
