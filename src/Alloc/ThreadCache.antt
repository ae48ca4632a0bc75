-- ===== src/Alloc/ThreadCache.antt =====
-- The thread cache of src/wlmalloc.c: `thread_cache_init`, `replace_available_span`, `small_alloc`
-- and `thread_exit`. `self` is the address of the calling thread's `local_tcache`.
pub mod Search
pub mod Replace
pub mod Zones
pub mod Disown
pub mod Leave
pub mod Exit
pub mod Stale
use rmm.Base.{ℕ, zero, suc, ◌+◌, ◌-◌, ltb, Bool, true, false, not, ◌==◌, if◌then◌else◌, update}
use rmm.ListHead.{init_list_head, list_add_tail, list_del, list_empty, list_splice_tail}
use rmm.SizeClass.{default_class_num}
use rmm.Alloc.{
  State, Env, Cmd, in_use, suspend, out_of_fuel, ◌>>=◌, ◌>>◌, pure, get, modify, on_links, on_span,
  mutex_lock, mutex_unlock, mutex_init, node, span_of_node, tc_lock, tc_suspend, tc_free_list,
  pool_lock, pool_free_list, pool_suspend, pool_owner,
}
use rmm.Alloc.Blocks.{span_init, get_blk}
use rmm.Alloc.GlobalPool.{acquire_span, init_heads}

-- `tc->using[cls] = span`
abbrev pub set_using : (tc cls span : ℕ) → Cmd (Unit {0})
set_using tc cls span =
    modify λ s. record s { using = update s.using tc (update (s.using tc) cls span) }

-- The entries of `using` and `suspend` below `n`, reset one after the other.
reset_using : (self n : ℕ) → State → State
reset_using self zero s = s
reset_using self (suc n) s =
    let s' = reset_using self n s in
    record s' { using = update s'.using self (update (s'.using self) n 0) }

-- `pthread_setspecific` makes `thread_exit` run at the end of the thread.
unfoldable pub thread_cache_init : Env → ℕ → Cmd (Unit {0})
unfolding reset_using
thread_cache_init env self = do
  mutex_init env (tc_lock self)
  modify (reset_using self default_class_num)
  on_links (init_heads default_class_num (tc_suspend self))
  on_links (init_list_head (tc_free_list self))
  modify λ s. record s { thread_state = update s.thread_state self true }

-- `list_for_each_entry(span, head, node) if(span->free_cnt > 0) { list_del(&span->node); break; }`
pub unlink_available : (fuel pos head : ℕ) → Cmd (Unit {0})
unlink_available zero pos head = λ _. out_of_fuel
unlink_available (suc fuel) pos head = do
  s ← get
  if pos == head
      then pure tt
      else if ltb 0 (s.span (span_of_node pos)).free_cnt
      then on_links (list_del pos)
      else unlink_available fuel (s.links.next pos) head

-- The rest of the `do` block: a span from the thread's free list, or else from the pool.
pub next_span : Env → (self size_cls : ℕ) → Cmd ℕ
next_span env self size_cls = do
  s ← get
  if not (list_empty (tc_free_list self) s.links)
      then (do
        let span = span_of_node (s.links.next (tc_free_list self))
        on_links (list_del (node span))
        span_init span size_cls
        pure span)
      else acquire_span env size_cls

-- The new span is put in use.
pub install : (self tc size_cls span : ℕ) → Cmd (Unit {0})
install self tc size_cls span = do
  set_using self size_cls span
  on_span span λ r. record r { owner = tc; state = in_use }

-- The `break` of the first search ends only that loop, so the code goes on to the free list or to
-- the pool and forgets the span that it unlinked.
pub replace_available_span : Env → (fuel self tc size_cls : ℕ) → Cmd (Unit {0})
replace_available_span env fuel self tc size_cls = do
  s ← get
  if not (list_empty (tc_suspend self size_cls) s.links)
      then unlink_available fuel (s.links.next (tc_suspend self size_cls))
          (tc_suspend self size_cls)
      else pure tt
  span ← next_span env self size_cls
  install self tc size_cls span

unfoldable pub small_alloc : Env → (fuel self size_cls : ℕ) → Cmd ℕ
unfolding replace_available_span
small_alloc env fuel self size_cls = do
  s ← get
  let span = s.using self size_cls
  if span == 0
      then replace_available_span env fuel self self size_cls
      else if (s.span span).free_cnt == 0
      then (do
        on_span span λ r. record r { state = suspend }
        on_links (list_add_tail (node span) (tc_suspend self size_cls))
        replace_available_span env fuel self self size_cls)
      else pure tt
  s ← get
  get_blk (s.using self size_cls)

-- The spans in use join the suspended ones, class by class.
pub suspend_using : (self n : ℕ) → Cmd (Unit {0})
suspend_using self zero = pure tt
suspend_using self (suc n) = do
  suspend_using self n
  s ← get
  if not (s.using self n == 0)
      then on_links (list_add_tail (node (s.using self n)) (tc_suspend self n))
      else pure tt

-- `list_for_each_entry(span, head, node) span->owner = POOL_OWNER;`
pub disown : (fuel pos head : ℕ) → Cmd (Unit {0})
disown zero pos head = λ _. out_of_fuel
disown (suc fuel) pos head = do
  s ← get
  if pos == head then pure tt else do
    on_span (span_of_node pos) λ r. record r { owner = pool_owner }
    disown fuel (s.links.next pos) head

-- The suspended spans of the classes below `n` go to the pool.
pub give_suspended : Env → (fuel self n : ℕ) → Cmd (Unit {0})
unfolding disown
give_suspended env fuel self zero = pure tt
give_suspended env fuel self (suc n) = do
  give_suspended env fuel self n
  s ← get
  disown fuel (s.links.next (tc_suspend self n)) (tc_suspend self n)
  s ← get
  if not (list_empty (tc_suspend self n) s.links)
      then on_links (list_splice_tail (tc_suspend self n) (pool_suspend env.pool_at n))
      else pure tt

pub thread_exit : Env → (fuel self : ℕ) → Cmd (Unit {0})
unfolding suspend_using give_suspended
thread_exit env fuel self = do
  suspend_using self default_class_num
  mutex_lock (pool_lock env.pool_at)
  give_suspended env fuel self default_class_num
  on_links (list_splice_tail (tc_free_list self) (pool_free_list env.pool_at))
  mutex_unlock (pool_lock env.pool_at)
