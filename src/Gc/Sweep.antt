-- ===== src/Gc/Sweep.antt =====
-- The sweep phase of src/wlgc.c: `gc_free_alloc`, `gc_hash_resize`, `gc_sweep` and `gc_collect`.
pub mod Chain
pub mod Table
pub mod Rehash
mod Garbage
pub mod Exact
use Prim.Native.Nat.{bit_and}
use rmm.Base.{
  ℕ, zero, suc, ◌+◌, ◌-◌, ◌*◌, ◌/◌, ◌%◌, ◌^◌, Bool, true, false, ◌||◌, Option, none, some, List, [],
  ◌∷◌, ◌==◌, if◌then◌else◌, update,
}
use rmm.Gc.{
  Gc, Libc, Cell, pointer_bytes, hash_func, index_of, is_marked, clear_cell, gc_need_collect,
  gc_need_resize,
}
use rmm.Gc.Mark.{gc_mark, ◌>>=◌}

-- The first occurrence of `a` leaves the chain. A chain without it stays as it is, and a message
-- is logged.
unfoldable pub unlink : ℕ → List ℕ → List ℕ
unlink a [] = []
unlink a (x ∷ xs) = if x == a then xs else x ∷ unlink a xs

-- `--x` on `size_t`
abbrev pub dec64 : ℕ → ℕ
dec64 x = (x + 2 ^ 64 - 1) % 2 ^ 64

-- The rest of `gc_free_alloc`, for the chain at `index`. With an empty chain the code reads through
-- `NULL`: that is `none`.
unfoldable pub free_from : (chain : List ℕ) → (index a : ℕ) → Gc → Option Gc
unfolding unlink
free_from [] index a g = none
free_from (x ∷ xs) index a g = some (record g {
  allocs = update g.allocs index (unlink a (x ∷ xs));
  freed = a ∷ (g.cell a).p ∷ g.freed;
  size = dec64 g.size;
  gc_cnt = g.gc_cnt + 1;
})

unfoldable pub gc_free_alloc : ℕ → Gc → Option Gc
unfolding free_from
gc_free_alloc a g =
    let index = index_of g.capacity (g.cell a).p in free_from (g.allocs index) index a g

-- The blocks of one chain go to the front of their new chains.
unfoldable pub rehash_chain : (ℕ → Cell) → (new_cap : ℕ) → List ℕ → (ℕ → List ℕ) → ℕ → List ℕ
rehash_chain cell new_cap [] new_allocs = new_allocs
rehash_chain cell new_cap (a ∷ chain) new_allocs =
    let index = bit_and (hash_func (cell a).p) (new_cap - 1) % 2 ^ 32 in
    rehash_chain cell new_cap chain (update new_allocs index (a ∷ new_allocs index))

-- The chains below index `n`, in order.
unfoldable pub rehash : Gc → (new_cap n : ℕ) → ℕ → List ℕ
unfolding rehash_chain
rehash g new_cap zero = λ i. []
rehash g new_cap (suc n) = rehash_chain g.cell new_cap (g.allocs n) (rehash g new_cap n)

-- The rest of `gc_hash_resize`, with the array at `new_allocs`.
unfoldable pub resize_to : (new_allocs : ℕ) → Gc → Gc
unfolding rehash
resize_to new_allocs g =
    let new_cap = g.capacity * 2 in
    record g {
      allocs = rehash g new_cap g.capacity;
      table = new_allocs;
      freed = g.table ∷ g.freed;
      capacity = new_cap;
      sweep_limit = new_cap / 2;
      calls = g.calls + 1;
    }

-- `none` is the fault of writing through a null `new_allocs`: there is a block to write, since
-- `gc_sweep` grows the table only when `size` is above a limit.
unfoldable pub gc_hash_resize : Libc → Gc → Option Gc
unfolding resize_to
gc_hash_resize libc g =
    let new_allocs = libc.calloc g.calls (g.capacity * 2) pointer_bytes in
    if new_allocs == 0 then none else some (resize_to new_allocs g)

-- The blocks of one chain: `next` is read before a block is freed, so the chain is walked as it was.
unfoldable pub sweep_chain : List ℕ → Gc → Option Gc
unfolding gc_free_alloc
sweep_chain [] g = some g
sweep_chain (a ∷ chain) g = elim (is_marked (g.cell a)) [
  | true ↦ sweep_chain chain (record g { cell = update g.cell a (clear_cell (g.cell a)) })
  | false ↦ gc_free_alloc a g >>= λ g'. sweep_chain chain g'
]

-- The chains below index `n`, in order.
unfoldable pub sweep_chains : ℕ → Gc → Option Gc
unfolding sweep_chain
sweep_chains zero g = some g
sweep_chains (suc n) g = sweep_chains n g >>= λ g'. sweep_chain (g'.allocs n) g'

unfoldable pub gc_sweep : Libc → Gc → Option Gc
unfolding sweep_chains gc_hash_resize
gc_sweep libc g =
    if g.size == 0
    then some g
    else sweep_chains g.capacity g >>= λ g'.
        if gc_need_collect g' || gc_need_resize g' then gc_hash_resize libc g' else some g'

unfoldable pub gc_collect : Libc → (ℕ → ℕ) → (tos : ℕ) → Gc → Option Gc
unfolding gc_sweep
gc_collect libc word tos g = gc_mark word tos g >>= gc_sweep libc
