-- ===== src/Gc/Calls.antt =====
-- The interface of src/wlgc.c: `gc_malloc`, `gc_calloc`, `gc_realloc` and `gc_free`.
pub mod Free
pub mod Malloc
pub mod Realloc
use rmm.Base.{ℕ, ◌+◌, ◌-◌, ◌*◌, ◌/◌, ◌%◌, ◌^◌, ◌||◌, Option, none, some, ◌∷◌, ◌==◌, if◌then◌else◌}
use rmm.Gc.{Gc, Libc, gc_need_collect, register_alloc, search}
use rmm.Gc.Sweep.{gc_collect, gc_free_alloc}

-- `ROUNDUP(size, 8)` on `size_t`
pub roundup8 : ℕ → ℕ
roundup8 size = (size + 8 + 2 ^ 64 - 1) % 2 ^ 64 / 8 * 8

-- What the caller's stack and memory look like at a call: `word` and `tos` of the mark phase.
pub record Roots : Type 0 where
  pub word : ℕ → ℕ
  pub tos : ℕ

-- `if(gc_need_collect()) gc_collect();`
unfoldable pub collect_if_needed : Libc → Roots → Gc → Option Gc
collect_if_needed libc r g = if gc_need_collect g then gc_collect libc r.word r.tos g else some g

-- `register_alloc(ret, sz); return ret;`
pub track : Libc → (ret sz : ℕ) → Gc → Option (ℕ × Gc)
track libc ret sz g = elim (register_alloc libc ret sz g) [ none ↦ none | some g' ↦ some (ret, g') ]

pub gc_malloc : Libc → Roots → (size : ℕ) → Gc → Option (ℕ × Gc)
unfolding roundup8 collect_if_needed track
gc_malloc libc r size g = if size == 0 then some (0, g) else elim (collect_if_needed libc r g) [
  | none ↦ none
  | some g' ↦
      let sz = roundup8 size in
      track libc (libc.malloc g'.calls sz) sz (record g' { calls = g'.calls + 1 })
]

pub gc_calloc : Libc → Roots → (nmemb size : ℕ) → Gc → Option (ℕ × Gc)
unfolding roundup8 collect_if_needed track
gc_calloc libc r nmemb size g =
    if nmemb == 0 || size == 0 then some (0, g) else elim (collect_if_needed libc r g) [
      | none ↦ none
      | some g' ↦
          let sz = roundup8 size in
          track libc (libc.calloc g'.calls nmemb sz) ((sz * nmemb) % 2 ^ 64)
            (record g' { calls = g'.calls + 1 })
    ]

-- The block that `ptr` was tracked with stays in the table.
pub gc_realloc : Libc → Roots → (ptr size : ℕ) → Gc → Option (ℕ × Gc)
unfolding roundup8 collect_if_needed track
gc_realloc libc r ptr size g =
    if size == 0 then some (0, g) else elim (collect_if_needed libc r g) [
      | none ↦ none
      | some g' ↦
          let sz = roundup8 size in
          track libc (libc.realloc g'.calls ptr sz) sz (record g' { calls = g'.calls + 1 })
    ]

-- A pointer that is not tracked is given to `free` all the same, with a warning.
pub gc_free : ℕ → Gc → Option Gc
gc_free ptr g = if ptr == 0 then some g else elim (search g ptr) [
  | some a ↦ gc_free_alloc a g
  | none ↦ some (record g { freed = ptr ∷ g.freed })
]

unfoldable pub gc_collected : Gc → ℕ
gc_collected g = g.gc_cnt
