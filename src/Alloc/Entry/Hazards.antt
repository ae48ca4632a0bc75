-- ===== src/Alloc/Entry/Hazards.antt =====
-- Calls of src/wlmalloc.c that do not do what they mean to.
use rmm.Base.{
  ◌∙◌, ℕ, ◌+◌, ◌%◌, ◌^◌, ◌<◌, ◌≡◌, ◌≢◌, refl, arith, ◌==◌, false, true, update, update_self,
  update_other, Bool-cases, inl, inr,
}
use rmm.SizeClass.BestFit.{size2cls_large}
use rmm.Alloc.{
  State, Span, Env, free, node, blk_list, large_owner, ok, blocked, pool_owner, pool_lock, tc_lock,
  page, roundup, span_bytes, map_failed, mutex_lock, mutex_unlock, syscall_alloc, pool_free_list,
}
use rmm.ListHead.{list_add}
use rmm.Alloc.Blocks.Retire.{moved_links}
use rmm.Alloc.Blocks.{inc32, give_back, span_free_blk}
use rmm.Alloc.Blocks.Release.{emptied}
use rmm.Alloc.GlobalPool.{acquire_span}
use rmm.Alloc.Entry.{wl_malloc, large_alloc}

-- Giving a block back always returns, and holds and frees no mutex.
give_back_total :
    (span blk list : ℕ) (s : State)
    → (t : State) × (give_back span blk list s ≡ ok tt t) × (t.locked ≡ s.locked)
unfolding give_back
give_back_total span blk list s =
    let r : Span = record (s.span span) { free_cnt = inc32 (s.span span).free_cnt } in
    let once = update s.span span r in
    elim (Bool-cases (emptied (s.span span))) [
      | inl full ↦ (
        record s {
          span = update once span (record r { state = free });
          links = moved_links (node span) list (blk_list span) blk s.links;
        },
        rw full,
        refl,
      )
      | inr stays ↦
          (record s { span = once; links = list_add blk (blk_list span) s.links }, rw stays, refl)
    ]

-- A thread frees a block of a span that went to the pool: the call returns, but it unlocks the
-- mutex of its own cache, so the pool's mutex stays held, and the next thread that asks the pool for
-- a span waits forever.
pub span_free_blk-pool_stays_locked :
    (env : Env) (self span blk cls : ℕ) (s : State)
    → (s.span span).owner ≡ pool_owner
    → self ≢ pool_owner
    → tc_lock self ≢ pool_lock env.pool_at
    → s.locked (pool_lock env.pool_at) ≡ false
    → (t : State) × (span_free_blk env self span blk s ≡ ok tt t)
      × (t.locked (pool_lock env.pool_at) ≡ true)
      × (acquire_span env cls t ≡ blocked)
unfolding span_free_blk acquire_span mutex_lock mutex_unlock
span_free_blk-pool_stays_locked env self span blk cls s owner self_ne lock_ne free_lock =
    let held : State = record s { locked = update s.locked (pool_lock env.pool_at) true } in
    let (u, run, same) = give_back_total span blk (pool_free_list env.pool_at) held in
    let other : (pool_owner == self) ≡ false = ground arith in
    let pooled : (pool_owner == pool_owner) ≡ true = refl in
    let t : State = record u { locked = update u.locked (tc_lock self) false } in
    let still : t.locked (pool_lock env.pool_at) ≡ true =
      update_other u.locked (tc_lock self) (pool_lock env.pool_at) false (ground arith)
      ∙ (rw same (update_self s.locked (pool_lock env.pool_at) true)) in
    (t, rw (owner, other, free_lock, run), still, rw still)

-- A request of more than 16384 bytes by a thread that is set up: the mapping has the size of the
-- request, and the block begins behind the header in it. So when the request leaves less than a
-- header's room in its last page, the block's end lies beyond the pages of the mapping.
pub wl_malloc-large_overruns :
    (env : Env) (fuel self sz : ℕ) (s : State)
    → s.thread_state self ≡ true
    → 16384 < sz
    → roundup sz page < sz + span_bytes
    → (env.mmap s.calls sz == map_failed) ≡ false
    → (a : ℕ) × (t : State) × (wl_malloc env fuel self sz s ≡ ok a t)
      × (a ≡ env.mmap s.calls sz + span_bytes)
      × (env.mmap s.calls sz + roundup sz page < a + sz)
unfolding wl_malloc large_alloc syscall_alloc
wl_malloc-large_overruns env fuel self sz s ready big tight mapped =
    let sized : (sz == 0) ≡ false = ground arith in
    let raw : ℕ = env.mmap s.calls sz in
    let header : Span = record (s.span raw) { owner = large_owner; blk_size = sz % 2 ^ 32 } in
    (
      raw + span_bytes,
      record s { calls = s.calls + 1; span = update s.span raw header },
      rw (ready, sized, size2cls_large sz big, mapped),
      refl,
      omega arith,
    )
