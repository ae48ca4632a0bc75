-- ===== src/Examples/Calls.antt =====
-- The entry points of src/wlmalloc.c at a concrete state.
use rmm.Base.{List, ℕ, ◌+◌, ◌≤◌, ◌<◌, ◌≡◌, refl, arith, [], ◌∷◌, true}
use rmm.SizeClass.{class_size, size2cls}
use rmm.Alloc.{State, ok, blocked, pool_owner, pool_lock, roundup, page}
use rmm.Alloc.Blocks.{span_free_blk, is_suspend}
use rmm.Alloc.Blocks.Invariant.{IsSpan}
use rmm.Alloc.Blocks.Hand.{Handed}
use rmm.Alloc.GlobalPool.{acquire_span}
use rmm.Alloc.Entry.{calloc, wl_malloc, wl_free}
use rmm.Alloc.Entry.Contract.{Call, ask, give, Standing}
use rmm.Alloc.Entry.Calloc.{Calloced, calloc-Calloced}
use rmm.Alloc.Entry.RoundTrip.{Serves, Owned, wl_malloc-Handed, wl_malloc-wl_free}
use rmm.Alloc.Entry.Hazards.{span_free_blk-pool_stays_locked, wl_malloc-large_overruns}
use rmm.Examples.Machine.{
  env, self, span_at, first_blk, second_blk, header, serving, two_live, serving-IsSpan,
}

serving-Serves : Serves serving self span_at 20
unfolding size2cls
serving-Serves = record {
  ready = refl;
  some_size = omega arith;
  small = omega arith;
  current = refl;
  not_null = ground arith;
  class = refl;
  aligned = refl;
}

serving-Owned : Owned serving self span_at second_blk
serving-Owned = record { owner = refl; above = omega arith; below = omega arith; aligned = refl }

wl_malloc-Handed_example :
    (a : ℕ) × (t : State) × (wl_malloc env 10 self 20 serving ≡ ok a t)
    × Handed serving span_at two_live a t
    × (20 ≤ class_size (serving.span span_at).cls)
wl_malloc-Handed_example =
    wl_malloc-Handed env 10 self span_at 20 2 [] two_live serving serving-Serves serving-IsSpan
      (omega arith)

calloc-Calloced_example : Calloced serving span_at two_live 4 5 (calloc env 10 self 4 5 serving)
calloc-Calloced_example =
    calloc-Calloced env 10 self span_at 4 5 2 [] two_live serving (λ fits some. serving-Serves)
      serving-IsSpan (omega arith)

wl_malloc-wl_free_example :
    (t u : State) × (wl_free env self second_blk serving ≡ ok tt t)
    × (wl_malloc env 10 self 20 t ≡ ok second_blk u)
    × IsSpan u span_at 2 [] (second_blk ∷ first_blk ∷ [])
unfolding is_suspend
wl_malloc-wl_free_example =
    wl_malloc-wl_free env 10 self span_at second_blk 20 2 [] [] (first_blk ∷ []) serving
      serving-Serves serving-Owned serving-IsSpan refl

-- The same state, but the span has gone to the pool.
abbrev disowned : State
disowned = record serving { span = λ _. record header { owner = pool_owner } }

span_free_blk-pool_stays_locked_example :
    (t : State) × (span_free_blk env self span_at second_blk disowned ≡ ok tt t)
    × (t.locked (pool_lock env.pool_at) ≡ true)
    × (acquire_span env 1 t ≡ blocked)
span_free_blk-pool_stays_locked_example =
    span_free_blk-pool_stays_locked env self span_at second_blk 1 disowned refl (ground arith)
      (ground arith) refl

wl_malloc-large_overruns_example :
    (a : ℕ) × (t : State) × (wl_malloc env 10 self 20480 serving ≡ ok a t)
    × (a ≡ env.mmap serving.calls 20480 + 72)
    × (env.mmap serving.calls 20480 + roundup 20480 page < a + 20480)
unfolding roundup
wl_malloc-large_overruns_example =
    wl_malloc-large_overruns env 10 self 20480 serving refl (omega arith) (omega arith) refl

serving-Standing : Standing serving self span_at 1
serving-Standing = record {
  ready = refl;
  current = refl;
  not_null = ground arith;
  class = refl;
  owner = refl;
  state = refl;
  above = omega arith;
  below = omega arith;
  aligned = refl;
}

-- The client frees its second block and asks twice.
abbrev three_calls : List Call
three_calls = give 1 ∷ ask 20 ∷ ask 24 ∷ []
