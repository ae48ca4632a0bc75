-- ===== src/SizeClass.antt =====
-- The size classes of src/wlmalloc.c: the tables and `size2cls`.
pub mod BestFit
pub mod Generate
use rmm.Base.{ℕ, ◌+◌, ◌-◌, ◌/◌, ◌%◌, ◌^◌, List, [], ◌∷◌, leb, if◌then◌else◌, get_or}

-- `DEFAULT_CLASS_NUM`, `LARGE_CLASS`
abbrev pub default_class_num : ℕ
default_class_num = 29

abbrev pub large_class : ℕ
large_class = 31

-- The array has 32 entries; the last three are zero.
pub cls2size : List ℕ
cls2size =
    16 ∷ 24 ∷ 32 ∷ 40 ∷ 48 ∷ 56 ∷ 64 ∷ 72 ∷ 80 ∷ 88 ∷ 96 ∷ 104 ∷ 112 ∷ 120 ∷ 128 ∷ 192 ∷ 256 ∷ 384
    ∷ 512 ∷ 768 ∷ 1024 ∷ 1536 ∷ 2048 ∷ 3072 ∷ 4096 ∷ 6144 ∷ 8192 ∷ 12288 ∷ 16384 ∷ 0 ∷ 0 ∷ 0 ∷ []

pub sizemap8 : List ℕ
sizemap8 =
    0 ∷ 0 ∷ 1 ∷ 2 ∷ 3 ∷ 4 ∷ 5 ∷ 6 ∷ 7 ∷ 8 ∷ 9 ∷ 10 ∷ 11 ∷ 12 ∷ 13 ∷ 14 ∷ 15 ∷ 15 ∷ 15 ∷ 15 ∷ 15 ∷ 15
    ∷ 15 ∷ 15 ∷ 16 ∷ 16 ∷ 16 ∷ 16 ∷ 16 ∷ 16 ∷ 16 ∷ 16 ∷ 17 ∷ 17 ∷ 17 ∷ 17 ∷ 17 ∷ 17 ∷ 17 ∷ 17 ∷ 17
    ∷ 17 ∷ 17 ∷ 17 ∷ 17 ∷ 17 ∷ 17 ∷ 17 ∷ 18 ∷ 18 ∷ 18 ∷ 18 ∷ 18 ∷ 18 ∷ 18 ∷ 18 ∷ 18 ∷ 18 ∷ 18 ∷ 18
    ∷ 18 ∷ 18 ∷ 18 ∷ 18 ∷ []

pub sizemap256 : List ℕ
sizemap256 =
    0 ∷ 18 ∷ 19 ∷ 20 ∷ 21 ∷ 21 ∷ 22 ∷ 22 ∷ 23 ∷ 23 ∷ 23 ∷ 23 ∷ 24 ∷ 24 ∷ 24 ∷ 24 ∷ 25 ∷ 25 ∷ 25 ∷ 25
    ∷ 25 ∷ 25 ∷ 25 ∷ 25 ∷ 26 ∷ 26 ∷ 26 ∷ 26 ∷ 26 ∷ 26 ∷ 26 ∷ 26 ∷ 27 ∷ 27 ∷ 27 ∷ 27 ∷ 27 ∷ 27 ∷ 27
    ∷ 27 ∷ 27 ∷ 27 ∷ 27 ∷ 27 ∷ 27 ∷ 27 ∷ 27 ∷ 27 ∷ 28 ∷ 28 ∷ 28 ∷ 28 ∷ 28 ∷ 28 ∷ 28 ∷ 28 ∷ 28 ∷ 28
    ∷ 28 ∷ 28 ∷ 28 ∷ 28 ∷ 28 ∷ 28 ∷ []

-- `sz - 1` on `size_t`
pub less_one : ℕ → ℕ
less_one sz = (sz + 2 ^ 64 - 1) % 2 ^ 64

-- For `sz` between 1 and 16384 both indices are below 64; `wl_malloc` asks for no class of 0.
unfoldable pub size2cls : ℕ → ℕ
unfolding less_one sizemap8 sizemap256
size2cls sz =
    if leb sz 512
    then get_or sizemap8 (less_one sz / 8) 0
    else if leb sz 16384
    then get_or sizemap256 (less_one sz / 256) 0
    else large_class

-- The block size of a class.
unfoldable pub class_size : ℕ → ℕ
unfolding cls2size
class_size cls = get_or cls2size cls 0
