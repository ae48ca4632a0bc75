-- ===== src/Alloc/Entry.antt =====
-- The entry points of src/wlmalloc.c: `wl_malloc` and `wl_free`, and the names of libc over them.
pub mod RoundTrip
pub mod Hazards
pub mod Contract
pub mod Kind
pub mod Refines
pub mod Calloc
pub mod Move
pub mod Classes
use rmm.Base.{
  ℕ, ◌+◌, ◌-◌, ◌*◌, ◌/◌, ◌%◌, ◌^◌, Bool, true, false, not, ◌&&◌, ◌||◌, ltb, leb, ◌==◌,
  if◌then◌else◌, update,
}
use rmm.SizeClass.{size2cls, default_class_num, large_class}
use rmm.Alloc.{
  State, Env, Cmd, exited, fault, ◌>>=◌, ◌>>◌, pure, get, modify, on_span, syscall_alloc,
  syscall_free, span_bytes, get_header, large_owner, map_failed,
}
use rmm.Alloc.Blocks.{span_free_blk}
use rmm.Alloc.GlobalPool.{global_init}
use rmm.Alloc.ThreadCache.{thread_cache_init, small_alloc}

-- `pthread_once` runs `global_init` for the first thread alone.
pub check_init : Env → ℕ → Cmd (Unit {0})
check_init env self = do
  s ← get
  if not (s.thread_state self)
      then (do
        if not s.init_once
            then (do modify λ s. record s { init_once = true }; global_init env)
            else pure tt
        thread_cache_init env self)
      else pure tt

-- `total` is computed and not used. A write through the failed mapping faults.
pub large_alloc : Env → ℕ → Cmd ℕ
large_alloc env sz = do
  raw ← syscall_alloc env sz
  if raw == map_failed then (λ _. fault) else do
    on_span raw λ r. record r { owner = large_owner; blk_size = sz % 2 ^ 32 }
    pure (raw + span_bytes)

pub wl_malloc : Env → (fuel self sz : ℕ) → Cmd ℕ
unfolding check_init large_alloc
wl_malloc env fuel self sz = do
  check_init env self
  if sz == 0 then pure 0 else do
    let size_cls = size2cls sz
    if ltb size_cls default_class_num
        then small_alloc env fuel self size_cls
        else if size_cls == large_class
        then large_alloc env sz
        else λ _. exited

-- `ptr < pool.start || pool.end < ptr`
abbrev pub outside : State → ℕ → Bool
outside s ptr = ltb ptr s.pool.start || ltb s.pool.end ptr

-- `munmap` of a large block, from its header on, with the size that the header has.
pub unmap : Env → ℕ → Cmd (Unit {0})
unmap env span = do
  s ← get
  r ← syscall_free env span (s.span span).blk_size
  if not (r == 0) then (λ _. exited) else pure tt

pub wl_free : Env → (self ptr : ℕ) → Cmd (Unit {0})
unfolding unmap
wl_free env self ptr = if ptr == 0 then pure tt else do
  s ← get
  if outside s ptr
      then unmap env (ptr - span_bytes)
      else span_free_blk env self (get_header ptr) ptr

-- `memset(p, c, n)` and `memcpy(dst, src, n)`
abbrev pub memset : (p c n : ℕ) → (ℕ → ℕ) → ℕ → ℕ
memset p c n m a = if leb p a && ltb a (p + n) then c else m a

abbrev pub memcpy : (dst src n : ℕ) → (ℕ → ℕ) → ℕ → ℕ
memcpy dst src n m a = if leb dst a && ltb a (dst + n) then m (src + (a - dst)) else m a

abbrev pub on_bytes : ((ℕ → ℕ) → ℕ → ℕ) → Cmd (Unit {0})
on_bytes f = modify λ s. record s { bytes = f s.bytes }

pub calloc : Env → (fuel self num nsize : ℕ) → Cmd ℕ
calloc env fuel self num nsize = if num == 0 || nsize == 0 then pure 0 else do
  let size = (num * nsize) % 2 ^ 64
  if not (size / num == nsize) then pure 0 else do
    ret ← wl_malloc env fuel self size
    if ret == 0 then pure 0 else do on_bytes (memset ret 0 size); pure ret

unfoldable pub realloc : Env → (fuel self p size : ℕ) → Cmd ℕ
unfolding unmap
realloc env fuel self p size = if p == 0 || size == 0 then pure 0 else do
  s ← get
  if outside s p
      then (do
        let span = p - span_bytes
        if leb size (s.span span).blk_size then pure p else do
          ret ← wl_malloc env fuel self size
          s ← get
          on_bytes (memcpy ret p (s.span span).blk_size)
          unmap env span
          pure ret)
      else do
        let span = get_header p
        if leb size (s.span span).blk_size then pure p else do
          ret ← wl_malloc env fuel self size
          if ret == 0 then pure ret else do
            s ← get
            on_bytes (memcpy ret p (s.span span).blk_size)
            wl_free env self p
            pure ret
