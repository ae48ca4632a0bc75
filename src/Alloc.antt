-- ===== src/Alloc.antt =====
-- The state of the allocator of src/wlmalloc.h and src/wlmalloc.c, and the commands on it. Structs
-- are addressed, with the layout of x86-64 (`pthread_mutex_t` has 40 bytes there). Each kind of
-- field has a memory of its own, indexed by the struct's address: list pointers, span headers, the
-- `using` arrays, and the bytes that callers own.
pub mod Blocks
pub mod GlobalPool
pub mod ThreadCache
pub mod Entry
use rmm.Base.{ℕ, ◌+◌, ◌-◌, ◌*◌, ◌/◌, ◌%◌, Bool, true, false, update, if◌then◌else◌, ◌==◌}
use rmm.ListHead.{Links}

-- `span_state_t`
pub data SpanState : Type 0 where
  in_use suspend free : SpanState

-- `struct span_s` without its two list heads, which stand in `Links`. `free_cnt` and `blk_size` are
-- `uint32_t`; pointers are addresses, and 0 is `NULL`.
pub record Span : Type 0 where
  pub owner : ℕ
  pub state : SpanState
  pub cls : ℕ
  pub blk_size : ℕ
  pub free_blk : ℕ
  pub free_cnt : ℕ

-- The scalar fields of `struct gpool_s`.
pub record Pool : Type 0 where
  pub start : ℕ
  pub end : ℕ
  pub free_start : ℕ

-- Everything that the allocator changes. `using tc cls` is `tc->using[cls]`; `locked m` says that
-- the mutex at `m` is held; `init_once` and `thread_state` are the two flags of the start-up.
-- `calls` counts the calls of `mmap` and `munmap`.
pub record State : Type 0 where
  pub links : Links
  pub span : ℕ → Span
  pub using : ℕ → ℕ → ℕ
  pub pool : Pool
  pub locked : ℕ → Bool
  pub init_once : Bool
  pub thread_state : ℕ → Bool
  pub bytes : ℕ → ℕ
  pub calls : ℕ

-- What the operating system and the loader decide: where the global `pool` stands, and the answers
-- of the n-th `mmap(sz)` and `munmap(pos, sz)`, and whether `pthread_mutex_init` fails.
pub record Env : Type 0 where
  pub pool_at : ℕ
  pub mmap : ℕ → ℕ → ℕ
  pub munmap : ℕ → ℕ → ℕ → ℕ
  pub mutex_init_fails : ℕ → Bool

-- `PAGE`, `SPAN_DATA_SIZE`, `sizeof(span_t)`, `SPAN_SIZE`, `ALLOC_UNIT`
abbrev pub page : ℕ
page = 4096

abbrev pub span_data_size : ℕ
span_data_size = 4 * page

abbrev pub span_bytes : ℕ
span_bytes = 72

abbrev pub span_size : ℕ
span_size = span_data_size + span_bytes

abbrev pub alloc_unit : ℕ
alloc_unit = 1024 * 1024 * 128

abbrev pub pool_owner : ℕ
pool_owner = 0xbbbb

abbrev pub large_owner : ℕ
large_owner = 0xaaaa

-- `(void *)-1`
abbrev pub map_failed : ℕ
map_failed = 0xffff_ffff_ffff_ffff

-- `&span->blk_list`, `&span->node`, and `list_entry(node, span_t, node)`
abbrev pub blk_list : ℕ → ℕ
blk_list span = span + 40

abbrev pub node : ℕ → ℕ
node span = span + 56

abbrev pub span_of_node : ℕ → ℕ
span_of_node n = n - 56

-- `&tc->lock`, `&tc->suspend[cls]`, `&tc->free_list`
abbrev pub tc_lock : ℕ → ℕ
tc_lock tc = tc

abbrev pub tc_suspend : ℕ → ℕ → ℕ
tc_suspend tc cls = tc + 272 + 16 * cls

abbrev pub tc_free_list : ℕ → ℕ
tc_free_list tc = tc + 736

-- `&pool.lock`, `&pool.free_list`, `&pool.suspend[cls]`
abbrev pub pool_lock : ℕ → ℕ
pool_lock pool = pool

abbrev pub pool_free_list : ℕ → ℕ
pool_free_list pool = pool + 64

abbrev pub pool_suspend : ℕ → ℕ → ℕ
pool_suspend pool cls = pool + 80 + 16 * cls

-- `GET_HEADER(ptr)`
unfoldable pub get_header : ℕ → ℕ
get_header ptr = ptr - ptr % span_size

-- `ROUNDUP(x, n)`
unfoldable pub roundup : ℕ → ℕ → ℕ
roundup x n = (x + n - 1) / n * n

-- A run returns, or ends the process by `exit(-1)`, waits forever for a mutex, reads through the
-- failed mapping, or meets a list longer than the fuel.
pub data Result (A : Type 0) : Type 0 where
  ok : A → State → Result A
  exited blocked fault out_of_fuel : Result A

abbrev pub Cmd : Type 0 → Type 0
Cmd A = State → Result A

abbrev pub and_then : {A B : Type 0} → Result A → (A → Cmd B) → Result B
and_then (ok a s) f = f a s
and_then exited f = exited
and_then blocked f = blocked
and_then fault f = fault
and_then out_of_fuel f = out_of_fuel

infixl 5 ◌>>=◌ ◌>>◌
abbrev pub ◌>>=◌ : {A B : Type 0} → Cmd A → (A → Cmd B) → Cmd B
◌>>=◌ m f s = and_then (m s) f

abbrev pub ◌>>◌ : {B : Type 0} → Cmd (Unit {0}) → Cmd B → Cmd B
m >> k = m >>= λ _. k

abbrev pub pure : {A : Type 0} → A → Cmd A
pure a s = ok a s

abbrev pub get : Cmd State
get s = ok s s

abbrev pub modify : (State → State) → Cmd (Unit {0})
modify f s = ok tt (f s)

abbrev pub on_links : (Links → Links) → Cmd (Unit {0})
on_links f s = ok tt (record s { links = f s.links })

-- `span->… = …`
abbrev pub on_span : ℕ → (Span → Span) → Cmd (Unit {0})
on_span p f s = ok tt (record s { span = update s.span p (f (s.span p)) })

-- `pthread_mutex_lock`, `pthread_mutex_unlock`
pub mutex_lock : ℕ → Cmd (Unit {0})
mutex_lock m s =
    if s.locked m then blocked else ok tt (record s { locked = update s.locked m true })

pub mutex_unlock : ℕ → Cmd (Unit {0})
mutex_unlock m s = ok tt (record s { locked = update s.locked m false })

-- `pthread_mutex_init`
pub mutex_init : Env → ℕ → Cmd (Unit {0})
mutex_init env m s =
    if env.mutex_init_fails m then exited else ok tt (record s { locked = update s.locked m false })

-- `syscall_alloc` and `syscall_free`
pub syscall_alloc : Env → ℕ → Cmd ℕ
syscall_alloc env sz s = ok (env.mmap s.calls sz) (record s { calls = s.calls + 1 })

unfoldable pub syscall_free : Env → ℕ → ℕ → Cmd ℕ
syscall_free env pos sz s = ok (env.munmap s.calls pos sz) (record s { calls = s.calls + 1 })
