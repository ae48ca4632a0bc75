-- ===== src/Examples/Tables.antt =====
-- The collector of src/wlgc.c on a table with two blocks.
use rmm.Base.{
  ◌+◌, ◌≢◌, ℕ, ◌≡◌, refl, ◌↔◌, arith, [], ◌∷◌, ◌∈◌, if◌then◌else◌, ◌==◌, some, none, Option, subst,
}
use rmm.Gc.Insert.{Registered, register_alloc-Registered}
use rmm.Gc.{
  gc_need_collect, gc_need_resize, hash_func, search_chain, Gc, Libc, index_of, search,
  register_alloc,
}
use rmm.Gc.Table.{IsTable, IsClear, tracked, collect}
use rmm.Gc.Mark.{gc_mark, gc_mark_alloc, scan, set_mark}
use rmm.Gc.Mark.Graph.{Marked, SameTable}
use rmm.Gc.Mark.Exact.{IsLive, gc_mark_exact}
use rmm.Gc.Calls.{Roots, collect_if_needed, gc_malloc, gc_calloc, gc_realloc, gc_free}
use rmm.Gc.Calls.Malloc.{IsGood, Gives, Allocates, gc_malloc-Allocates}
use rmm.Gc.Calls.Realloc.{gc_realloc-tracks_twice}
use rmm.Gc.Calls.Free.{Freed, gc_free-Freed}
use rmm.Gc.Sweep.{
  free_from, gc_free_alloc, unlink, resize_to, gc_hash_resize, rehash, rehash_chain, sweep_chain,
  sweep_chains, gc_sweep, gc_collect,
}
use rmm.Gc.Sweep.Table.{SweptTable, sweep_chains-SweptTable}
use rmm.Gc.Sweep.Exact.{Collected, gc_collect-Collected}

-- The two `alloc_t`s stand at 100 and 101, in the one chain of the table; their blocks at 200 and 300.
abbrev two_blocks : Gc
two_blocks = record {
  bos = 60;
  allocs = λ _. 100 ∷ 101 ∷ [];
  table = 90;
  capacity = 1;
  size = 2;
  sweep_limit = 0;
  gc_cnt = 0;
  cell = λ a. record { p = if a == 100 then 200 else 300; size_tag = 16 };
  freed = [];
  calls = 0;
}

-- The stack holds the address of the first block.
abbrev word : ℕ → ℕ
word a = if a == 50 then 200 else 0

two_blocks-IsTable : IsTable two_blocks
unfolding index_of collect
two_blocks-IsTable = record {
  array = ground arith;
  positive = omega arith;
  placed = λ i a below m. omega arith;
  distinct = (refl, (refl, tt));
  counted = refl;
  word = omega arith;
}

two_blocks-IsClear : IsClear two_blocks
two_blocks-IsClear = λ a m. refl

-- The table can grow, and the third call gives the address of the second `alloc_t` again. There is no
-- memory for three blocks.
abbrev libc : Libc
libc = record {
  malloc = λ n sz. if n == 2 then 101 else 400;
  calloc = λ n c sz. if c == 2 then 600 else 0;
  realloc = λ n p sz. 0;
}

gc_collect-Collected_example :
    (h : Gc) × (gc_collect libc word 50 two_blocks ≡ some h) × Collected word 50 two_blocks h
gc_collect-Collected_example =
    gc_collect-Collected libc word 50 two_blocks 0 two_blocks-IsTable two_blocks-IsClear refl
      (λ call. ground arith)

gc_mark_exact_example :
    (g' : Gc) × (gc_mark word 50 two_blocks ≡ some g')
    × ((a : ℕ) → a ∈ tracked two_blocks → (Marked g' a ↔ IsLive word 50 two_blocks a))
    × SameTable two_blocks g'
gc_mark_exact_example = gc_mark_exact word 50 two_blocks two_blocks-IsTable two_blocks-IsClear

sweep_chains-SweptTable_example :
    (g' : Gc) × (sweep_chains 1 two_blocks ≡ some g') × SweptTable two_blocks g'
sweep_chains-SweptTable_example = sweep_chains-SweptTable two_blocks two_blocks-IsTable

register_alloc-Registered_example :
    (g' : Gc) × (register_alloc libc 500 24 two_blocks ≡ some g') × Registered 400 500 two_blocks g'
unfolding collect
register_alloc-Registered_example =
    register_alloc-Registered libc 500 24 two_blocks two_blocks-IsTable two_blocks-IsClear
      (ground arith) (ground arith) refl refl (omega arith)

two_blocks-IsGood : IsGood two_blocks
two_blocks-IsGood = record {
  table = two_blocks-IsTable;
  clear = two_blocks-IsClear;
  exponent = 0;
  power = refl;
}

abbrev roots : Roots
roots = record { word = word; tos = 50 }

-- The collection frees the second `alloc_t`, and the table grows.
Ready : Option Gc → Type 0
Ready none = Unit
Ready (some h) = Gives libc (record h { calls = h.calls + 1 })

ready : Ready (collect_if_needed libc roots two_blocks)
unfolding Ready collect_if_needed gc_need_collect gc_collect gc_mark gc_mark_alloc scan set_mark
    gc_sweep sweep_chains sweep_chain gc_free_alloc free_from unlink gc_hash_resize resize_to rehash
    rehash_chain hash_func index_of search search_chain collect gc_need_resize
ready = record { some_memory = ground arith; fresh = refl }

gc_malloc-Allocates_example :
    Allocates roots two_blocks (λ n. libc.malloc n 24) (gc_malloc libc roots 24 two_blocks)
    × Allocates roots two_blocks (λ n. 0) (gc_calloc libc roots 3 24 two_blocks)
    × Allocates roots two_blocks (λ n. 0) (gc_realloc libc roots 200 24 two_blocks)
unfolding collect Ready
gc_malloc-Allocates_example =
    gc_malloc-Allocates libc roots 200 3 24 two_blocks two_blocks-IsGood (ground arith)
      (ground arith) (omega arith) (λ call. ground arith) (λ h e. subst Ready e ready)

gc_free-Freed_example :
    (g' : Gc) × (gc_free 200 two_blocks ≡ some g')
    × IsTable g'
    × IsClear g'
    × Freed 200 two_blocks g'
gc_free-Freed_example = gc_free-Freed two_blocks 200 two_blocks-IsTable two_blocks-IsClear

-- `realloc` leaves the block at 200, and nothing is due to be collected.
abbrev in_place : Libc
in_place = record { malloc = λ n sz. 102; calloc = λ n c sz. 0; realloc = λ n p sz. p }

abbrev calm : Gc
calm = record two_blocks { sweep_limit = 10 }

gc_realloc-tracks_twice_example :
    (a : ℕ) × (g' : Gc) × (gc_realloc in_place roots 200 24 calm ≡ some (200, g'))
    × (a ≢ 100)
    × (a ∈ tracked g')
    × (100 ∈ tracked g')
    × ((g'.cell a).p ≡ 200)
    × ((g'.cell 100).p ≡ 200)
unfolding collect gc_need_collect search index_of
gc_realloc-tracks_twice_example =
    gc_realloc-tracks_twice in_place roots 200 24 100 calm
      (record {
        table = record {
          array = ground arith;
          positive = omega arith;
          placed = λ i a below m. omega arith;
          distinct = (refl, (refl, tt));
          counted = refl;
          word = omega arith;
        };
        clear = λ a m. refl;
        exponent = 0;
        power = refl;
      })
      (ground arith) (ground arith) (omega arith)
      (record { some_memory = ground arith; fresh = refl }) refl refl refl
