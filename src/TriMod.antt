-- ===== src/TriMod.antt =====
-- Triple modular redundancy, `tri_mod_*` of src/wlmalloc.c: three copies of an object, one behind the
-- other, and a vote among them.
pub mod Vote
pub mod Store
use rmm.Base.{
  ℕ, zero, suc, ◌+◌, ◌*◌, ◌%◌, ◌^◌, Bool, true, false, not, ◌&&◌, ◌||◌, ltb, ◌==◌, if◌then◌else◌,
}
use rmm.Alloc.{Env, Cmd, ◌>>=◌, ◌>>◌, pure, get, get_header}
use rmm.Alloc.Entry.{wl_malloc, wl_free, memcpy, on_bytes}

-- `memcmp(p, q, n) == 0`
pub mem_eq : (p q n : ℕ) → (ℕ → ℕ) → Bool
mem_eq p q zero m = true
mem_eq p q (suc n) m = (m (p + n) == m (q + n)) && mem_eq p q n m

unfoldable pub tri_mod_alloc : Env → (fuel self size : ℕ) → Cmd ℕ
tri_mod_alloc env fuel self size = wl_malloc env fuel self ((3 * size) % 2 ^ 64)

unfoldable pub tri_mod_free : Env → (self ptr : ℕ) → Cmd (Unit {0})
tri_mod_free env self ptr = wl_free env self ptr

-- `tri_mod_read` changes bytes alone: it returns a pointer and the bytes.
pub tri_mod_read : (ptr size : ℕ) → (ℕ → ℕ) → ℕ × (ℕ → ℕ)
unfolding mem_eq
tri_mod_read ptr size m =
    let ptr1 = ptr + size in
    let ptr2 = ptr + size + size in
    let same0 = mem_eq ptr ptr1 size m in
    let same1 = mem_eq ptr1 ptr2 size m in
    let same2 = mem_eq ptr2 ptr size m in
    if same0 && same1
    then (ptr, m)
    else if not same0 && (not same1 && not same2)
    then (0, m)
    else if same0
    then (ptr, memcpy ptr2 ptr size m)
    else if same1
    then (ptr, memcpy ptr ptr1 size m)
    else (ptr, memcpy ptr1 ptr size m)

-- What `tri_mod_write` returns: `(void *)-1`, or no value at all, since the body ends without a
-- `return` after the three copies.
pub data Written : Type 0 where
  refused no_value : Written

pub tri_mod_write : (ptr source size : ℕ) → Cmd Written
tri_mod_write ptr source size = do
  s ← get
  let header = get_header ptr
  if header == 0 || ltb (s.span header).blk_size ((size * 3) % 2 ^ 64) then pure refused else do
    on_bytes (memcpy ptr source size)
    on_bytes (memcpy (ptr + size) source size)
    on_bytes (memcpy (ptr + size + size) source size)
    pure no_value
