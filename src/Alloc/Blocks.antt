-- ===== src/Alloc/Blocks.antt =====
-- The blocks of one span: `span_init`, `get_blk` and `span_free_blk` of src/wlmalloc.c.
pub mod Layout
pub mod Invariant
pub mod Hand
pub mod Apart
pub mod Release
pub mod Retire
pub mod Overrun
use rmm.Base.{ℕ, ◌+◌, ◌-◌, ◌/◌, ◌%◌, ◌^◌, Bool, true, false, ◌&&◌, not, if◌then◌else◌, ◌==◌}
use rmm.ListHead.{init_list_head, list_add, list_add_tail, list_del, list_empty}
use rmm.SizeClass.{class_size}
use rmm.Alloc.{
  SpanState, in_use, suspend, free, State, Env, Cmd, ◌>>=◌, ◌>>◌, pure, get, on_links, on_span,
  mutex_lock, mutex_unlock, span_data_size, span_bytes, pool_owner, blk_list, node, tc_lock,
  tc_free_list, pool_lock, pool_free_list,
}

-- `x++` and `x--` on `uint32_t`
abbrev pub inc32 : ℕ → ℕ
inc32 x = (x + 1) % 2 ^ 32

abbrev pub dec32 : ℕ → ℕ
dec32 x = (x + 2 ^ 32 - 1) % 2 ^ 32

-- How many blocks of one size a span holds: `SPAN_DATA_SIZE / blk_size`.
abbrev pub blk_cnt : ℕ → ℕ
blk_cnt blk_size = span_data_size / blk_size

unfoldable pub span_init : ℕ → ℕ → Cmd (Unit {0})
span_init span size_cls = do
  on_span span λ s. record s {
    cls = size_cls;
    blk_size = class_size size_cls;
    free_cnt = blk_cnt (class_size size_cls);
    free_blk = span + span_bytes;
  }
  on_links (init_list_head (blk_list span))

unfoldable pub get_blk : ℕ → Cmd ℕ
get_blk span = do
  s ← get
  if not (list_empty (blk_list span) s.links)
      then (do
        let ret = s.links.next (blk_list span)
        on_links (list_del ret)
        on_span span λ r. record r { free_cnt = dec32 r.free_cnt }
        pure ret)
      else do
        let ret = (s.span span).free_blk
        on_span span
            λ r. record r { free_blk = r.free_blk + r.blk_size; free_cnt = dec32 r.free_cnt }
        pure ret

unfoldable pub is_suspend : SpanState → Bool
is_suspend in_use = false
is_suspend suspend = true
is_suspend free = false

-- The part that the three branches of `span_free_blk` share: a suspended span whose blocks are all
-- free again goes to `list`.
unfoldable pub give_back : (span blk list : ℕ) → Cmd (Unit {0})
unfolding is_suspend
give_back span blk list = do
  s ← get
  let r = record (s.span span) { free_cnt = inc32 (s.span span).free_cnt }
  on_span span λ _. r
  if is_suspend r.state && (r.free_cnt == blk_cnt r.blk_size)
      then (do
        on_links (list_del (node span))
        on_links (list_add_tail (node span) list)
        on_links (init_list_head (blk_list span))
        on_span span λ _. record r { state = free })
      else pure tt
  on_links (list_add blk (blk_list span))

-- `self` is the address of the calling thread's `local_tcache`. The middle branch unlocks
-- `local_tcache.lock`, and the last one uses the caller's own free list, as the source does.
unfoldable pub span_free_blk : Env → (self span blk : ℕ) → Cmd (Unit {0})
unfolding give_back
span_free_blk env self span blk = do
  s ← get
  let owner = (s.span span).owner
  if owner == self
      then give_back span blk (tc_free_list self)
      else if owner == pool_owner
      then (do
        mutex_lock (pool_lock env.pool_at)
        give_back span blk (pool_free_list env.pool_at)
        mutex_unlock (tc_lock self))
      else do
        mutex_lock (tc_lock owner)
        give_back span blk (tc_free_list self)
        mutex_unlock (tc_lock owner)
