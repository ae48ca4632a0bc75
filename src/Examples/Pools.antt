-- ===== src/Examples/Pools.antt =====
-- The pool and the thread cache in concrete states.
use rmm.Base.{ℕ, ◌+◌, ◌*◌, ◌<◌, ◌≤◌, ◌≡◌, refl, arith, [], false}
use rmm.ListHead.{list_add_tail}
use rmm.ListHead.Chain.{IsRing}
use rmm.SizeClass.{default_class_num}
use rmm.Alloc.{
  State, ok, node, alloc_unit, span_size, tc_suspend, pool_lock, pool_free_list, pool_suspend,
}
use rmm.Alloc.GlobalPool.{global_init, acquire_span}
use rmm.Alloc.GlobalPool.Init.{IsPool, global_init-IsPool}
use rmm.Alloc.GlobalPool.Acquire.{Unlocked}
use rmm.Alloc.GlobalPool.Order.{Acquired, acquire_span-Acquired}
use rmm.Alloc.ThreadCache.{replace_available_span}
use rmm.Alloc.ThreadCache.Replace.{
  Installed, replace_available_span-carve, replace_available_span-forgets,
}
use rmm.Examples.Machine.{env, self, span_at, serving, empty_lists}

global_init-IsPool_example :
    (t : State) × (global_init env serving ≡ ok tt t)
    × IsPool t.pool
    × (t.pool.free_start ≡ t.pool.start)
    × (t.pool.end ≡ env.mmap serving.calls alloc_unit + alloc_unit)
    × (env.mmap serving.calls alloc_unit ≤ t.pool.start)
    × (t.pool.start < env.mmap serving.calls alloc_unit + span_size)
    × (t.locked (pool_lock env.pool_at) ≡ false)
    × IsRing t.links (pool_free_list env.pool_at) []
    × ((cls : ℕ) → cls < default_class_num → IsRing t.links (pool_suspend env.pool_at cls) [])
global_init-IsPool_example = global_init-IsPool env serving refl refl

-- An empty list of empty links.
idle : (h : ℕ) → IsRing empty_lists h []
idle h = record { chain = (refl, refl); apart = refl; distinct = tt }

serving-IsPool : IsPool serving.pool
serving-IsPool = record {
  start_aligned = refl;
  free_aligned = refl;
  start_le = omega arith;
  free_le = omega arith;
}

serving-Unlocked : Unlocked env serving 1 [] []
serving-Unlocked = record { lock = refl; suspend = idle _; free_list = idle _ }

-- A pool that is used up.
abbrev used_up : State
used_up = record serving {
  pool = record {
    start = span_at;
    end = span_at + 4 * span_size;
    free_start = span_at + 4 * span_size;
  };
}

acquire_span-Acquired_example : Acquired env 1 used_up [] [] (acquire_span env 1 used_up)
acquire_span-Acquired_example =
    acquire_span-Acquired env used_up 1 [] [] (omega arith)
      (record {
        start_aligned = refl;
        free_aligned = refl;
        start_le = omega arith;
        free_le = omega arith;
      })
      (record { lock = refl; suspend = idle _; free_list = idle _ }) (λ n rest e. absurd (cc e))

-- The span is on the pool's free list.
abbrev pool_freed : State
pool_freed = record serving {
  links = list_add_tail (node span_at) (pool_free_list env.pool_at) empty_lists;
}

replace_available_span-carve_example :
    (t : State) × (replace_available_span env 10 self self 1 serving ≡ ok tt t)
    × Installed t self 1 serving.pool.free_start
    × IsPool t.pool
    × (t.pool.free_start ≡ serving.pool.free_start + span_size)
replace_available_span-carve_example =
    replace_available_span-carve env serving 10 self 1 (omega arith) serving-IsPool (omega arith)
      (idle _) serving-Unlocked (idle _)

-- The thread has suspended the span, which has free blocks.
abbrev suspended : State
suspended = record serving { links = list_add_tail (node span_at) (tc_suspend self 1) empty_lists }

replace_available_span-forgets_example :
    (t : State) × (replace_available_span env 10 self self 1 suspended ≡ ok tt t)
    × (t.using self 1 ≡ suspended.pool.free_start)
    × IsRing t.links (tc_suspend self 1) []
    × (t.span span_at ≡ suspended.span span_at)
    × ((t.links.prev (node span_at) ≡ suspended.links.prev (node span_at))
        × (t.links.next (node span_at) ≡ suspended.links.next (node span_at)))
unfolding list_add_tail
replace_available_span-forgets_example =
    replace_available_span-forgets env suspended 10 self 1 (node span_at) [] [] (omega arith)
      serving-IsPool (omega arith) (record { chain = (refl, refl); apart = refl; distinct = tt })
      (record {
        lock = refl;
        suspend = record { chain = (refl, refl); apart = refl; distinct = tt };
        free_list = record { chain = (refl, refl); apart = refl; distinct = tt };
      })
      (record { chain = (refl, refl, (refl, refl)); apart = refl; distinct = (refl, tt) }) tt
      (omega arith) (omega arith) refl (λ c m. ground arith)
