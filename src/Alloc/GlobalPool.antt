-- ===== src/Alloc/GlobalPool.antt =====
-- The global pool of src/wlmalloc.c: `global_init` and `acquire_span`.
pub mod Init
pub mod Acquire
pub mod Order
use rmm.Base.{ℕ, zero, suc, ◌+◌, ◌-◌, ◌*◌, Bool, true, false, not, leb, ◌==◌, if◌then◌else◌}
use rmm.ListHead.{Links, init_list_head, list_del, list_empty}
use rmm.SizeClass.{default_class_num}
use rmm.Alloc.{
  State, Env, Cmd, exited, ◌>>=◌, ◌>>◌, pure, get, modify, on_links, mutex_lock, mutex_unlock,
  mutex_init, syscall_alloc, roundup, span_size, alloc_unit, map_failed, span_of_node, pool_lock,
  pool_free_list, pool_suspend,
}
use rmm.Alloc.Blocks.{span_init}

-- `for(int i = 0; i < n; i++) INIT_LIST_HEAD(&heads[i])`, the last entry first: the entries are
-- written apart from one another.
pub init_heads : ℕ → (ℕ → ℕ) → Links → Links
init_heads zero heads l = l
init_heads (suc n) heads l = init_list_head (heads n) (init_heads n heads l)

pub global_init : Env → Cmd (Unit {0})
unfolding init_heads
global_init env = do
  mutex_init env (pool_lock env.pool_at)
  raw ← syscall_alloc env alloc_unit
  if raw == map_failed then (λ _. exited) else do
    let start = roundup raw span_size
    modify λ s. record s {
      pool = record { start = start; end = raw + alloc_unit; free_start = start };
    }
    on_links (init_list_head (pool_free_list env.pool_at))
    on_links (init_heads default_class_num (pool_suspend env.pool_at))

-- `span = pool.free_start; pool.free_start += SPAN_SIZE; unlock; span_init`
pub carve : Env → ℕ → Cmd ℕ
carve env size_cls = do
  s ← get
  let span = s.pool.free_start
  modify λ s. record s { pool = record (s.pool) { free_start = s.pool.free_start + span_size } }
  mutex_unlock (pool_lock env.pool_at)
  span_init span size_cls
  pure span

-- The pool's last resort: more memory from the system, which has to follow what it has.
pub grow : Env → ℕ → Cmd ℕ
unfolding carve
grow env size_cls = do
  raw ← syscall_alloc env alloc_unit
  s ← get
  if not (raw == s.pool.end) then (λ _. exited) else do
    modify λ s. record s { pool = record (s.pool) { end = s.pool.end + alloc_unit } }
    carve env size_cls

unfoldable pub acquire_span : Env → ℕ → Cmd ℕ
unfolding carve grow
acquire_span env size_cls = do
  mutex_lock (pool_lock env.pool_at)
  s ← get
  let suspend = pool_suspend env.pool_at size_cls
  let free_list = pool_free_list env.pool_at
  if not (list_empty suspend s.links)
      then (do
        let span = span_of_node (s.links.next suspend)
        on_links (list_del (s.links.next suspend))
        mutex_unlock (pool_lock env.pool_at)
        pure span)
      else if not (list_empty free_list s.links)
      then (do
        let span = span_of_node (s.links.next free_list)
        on_links (list_del (s.links.next free_list))
        mutex_unlock (pool_lock env.pool_at)
        span_init span size_cls
        pure span)
      else if leb (s.pool.free_start + span_size) s.pool.end
      then carve env size_cls
      else grow env size_cls
