-- ===== src/Gc.antt =====
-- The state of the collector of src/wlgc.h and src/wlgc.c, its hash function, and its hash table of
-- tracked blocks. An `alloc_t` is known by its address, and `cell` is the memory of all of them. The
-- chain of a bucket, linked by `next`, is the list of its addresses.
pub mod Table
pub mod Insert
pub mod Mark
pub mod Sweep
pub mod Calls
use Prim.Native.Nat.{bit_xor, bit_and}
use rmm.Base.{
  ℕ, ◌+◌, ◌-◌, ◌*◌, ◌/◌, ◌%◌, ◌^◌, Bool, true, false, Option, none, some, List, [], ◌∷◌, ltb, leb,
  ◌==◌, if◌then◌else◌, update,
}

-- `uint64_t` arithmetic.
abbrev pub add64 : ℕ → ℕ → ℕ
add64 a b = (a + b) % 2 ^ 64

abbrev pub shl64 : ℕ → ℕ → ℕ
shl64 a k = (a * 2 ^ k) % 2 ^ 64

abbrev pub shr64 : ℕ → ℕ → ℕ
shr64 a k = a / 2 ^ k

abbrev pub not64 : ℕ → ℕ
not64 a = 2 ^ 64 - 1 - a

unfoldable pub hash_func : ℕ → ℕ
hash_func key =
    let a = add64 (not64 key) (shl64 key 21) in
    let b = bit_xor a (shr64 a 24) in
    let c = add64 (add64 b (shl64 b 3)) (shl64 b 8) in
    let d = bit_xor c (shr64 c 14) in
    let e = add64 (add64 d (shl64 d 2)) (shl64 d 4) in
    let f = bit_xor e (shr64 e 28) in add64 f (shl64 f 31)

-- `struct alloc_s` without `next`. The lowest bit of `size_tag` is the mark.
pub record Cell : Type 0 where
  pub p : ℕ
  pub size_tag : ℕ

-- `struct gc_s`, with `allocs` as the chain of each index, and two things outside it: the memory of
-- the `alloc_t`s, and the pointers given to `free`, the latest first. `table` is the address that
-- `allocs` points to. `calls` counts the calls of the system's allocator.
pub record Gc : Type 0 where
  pub bos : ℕ
  pub allocs : ℕ → List ℕ
  pub table : ℕ
  pub capacity : ℕ
  pub size : ℕ
  pub sweep_limit : ℕ
  pub gc_cnt : ℕ
  pub cell : ℕ → Cell
  pub freed : List ℕ
  pub calls : ℕ

-- The answers of the n-th call of the system's allocator.
pub record Libc : Type 0 where
  pub malloc : (call size : ℕ) → ℕ
  pub calloc : (call nmemb size : ℕ) → ℕ
  pub realloc : (call ptr size : ℕ) → ℕ

-- `DEFAULT_CAPACITY`
abbrev pub default_capacity : ℕ
default_capacity = 4096

-- `sizeof(alloc_t *)` and `sizeof(alloc_t)`
abbrev pub pointer_bytes : ℕ
pointer_bytes = 8

abbrev pub alloc_bytes : ℕ
alloc_bytes = 24

-- `size_tag & 0x1`, `size_tag & ~0x1`, `size_tag | 0x1`
abbrev pub is_marked : Cell → Bool
is_marked c = c.size_tag % 2 == 1

abbrev pub size_of : Cell → ℕ
size_of c = c.size_tag - c.size_tag % 2

abbrev pub mark_cell : Cell → Cell
mark_cell c = record c { size_tag = size_of c + 1 }

abbrev pub clear_cell : Cell → Cell
clear_cell c = record c { size_tag = size_of c }

-- `gc_init`; `frame` is `__builtin_frame_address(1)`. `SWEEP_FACTOR` is 0.5. It does not look at what
-- `calloc` answers: the chains stand for an array only where `table` is not 0.
unfoldable pub gc_init : Libc → ℕ → Gc → Gc
gc_init libc frame g = record g {
  bos = frame;
  capacity = default_capacity;
  allocs = λ i. [];
  table = libc.calloc g.calls default_capacity pointer_bytes;
  size = 0;
  sweep_limit = default_capacity / 2;
  gc_cnt = 0;
  calls = g.calls + 1;
}

unfoldable pub gc_need_collect : Gc → Bool
gc_need_collect g = ltb g.sweep_limit g.size

-- `gc.size > gc.capacity * LOAD_FACTOR`, with 0.7 as 7 / 10: the capacity is a power of two, so the
-- product is never a whole number, and the rounding of 0.7 does not decide the test.
unfoldable pub gc_need_resize : Gc → Bool
gc_need_resize g = ltb (7 * g.capacity) (10 * g.size)

-- `uint32_t index = hash_func((uint64_t)p) % gc.capacity`
unfoldable pub index_of : (capacity p : ℕ) → ℕ
index_of capacity p = hash_func p % capacity % 2 ^ 32

unfoldable pub search_chain : (ℕ → Cell) → ℕ → List ℕ → Option ℕ
search_chain cell p [] = none
search_chain cell p (a ∷ chain) = if (cell a).p == p then some a else search_chain cell p chain

unfoldable pub search : Gc → ℕ → Option ℕ
unfolding index_of search_chain
search g p = search_chain g.cell p (g.allocs (index_of g.capacity p))

-- The part of `register_alloc` behind its `malloc(sizeof(alloc_t))`, which gave `a`.
pub insert_alloc : (a p sz : ℕ) → Gc → Gc
unfolding index_of
insert_alloc a p sz g =
    let index = index_of g.capacity p in
    record g {
      cell = update g.cell a (record { p = p; size_tag = sz });
      allocs = update g.allocs index (a ∷ g.allocs index);
      size = g.size + 1;
    }

-- `none` is the fault of writing through a null `alloc`.
pub register_alloc : Libc → (p sz : ℕ) → Gc → Option Gc
unfolding insert_alloc
register_alloc libc p sz g =
    if p == 0
    then some g
    else let a = libc.malloc g.calls alloc_bytes in
      let g' = record g { calls = g.calls + 1 } in
      if a == 0 then none else some (insert_alloc a p sz g')
