-- ===== src/Ls/Memory.antt =====
-- The checked calls of src/ls.c to the allocator of src/wlmalloc.c, with which it is linked:
-- `xmalloc`, `xrealloc`, `xcalloc` and `xreadlink`.
use rmm.Base.{
  ℕ, zero, suc, ◌+◌, ◌≡◌, refl, Bool, true, false, not, ◌&&◌, ◌==◌, ltb, if◌then◌else◌, Option,
  none, some, List, [], ◌∷◌, length, update,
}
use rmm.Alloc.{State, Env, Cmd, exited, out_of_fuel, ◌>>=◌, ◌>>◌, pure}
use rmm.Alloc.Entry.{wl_malloc, calloc, realloc, on_bytes}

-- `if (ptr == NULL && size != 0) ERR_EXIT(...); return ptr;`
pub checked : (ptr : ℕ) → (some_size : Bool) → Cmd ℕ
checked ptr some_size = if (ptr == 0) && some_size then (λ _. exited) else pure ptr

pub xmalloc : Env → (fuel self size : ℕ) → Cmd ℕ
unfolding checked
xmalloc env fuel self size = do ptr ← wl_malloc env fuel self size; checked ptr (not (size == 0))

pub xrealloc : Env → (fuel self ptr size : ℕ) → Cmd ℕ
unfolding checked
xrealloc env fuel self ptr size = do
  ptr ← realloc env fuel self ptr size
  checked ptr (not (size == 0))

pub xcalloc : Env → (fuel self nmemb size : ℕ) → Cmd ℕ
unfolding checked
xcalloc env fuel self nmemb size = do
  ptr ← calloc env fuel self nmemb size
  checked ptr (not (nmemb == 0) && not (size == 0))

-- Bytes written from an address on.
pub write_bytes : (a : ℕ) → List ℕ → (ℕ → ℕ) → ℕ → ℕ
write_bytes a [] m = m
write_bytes a (c ∷ cs) m = write_bytes (a + 1) cs (update m a c)

-- The loop of `xreadlink` and what follows it. `readlink` gives the bytes that the system writes into
-- a buffer of a size, or -1. The loop runs on fuel.
pub grow_and_read :
    Env → (fuel self : ℕ) → (readlink : ℕ → Option (List ℕ)) → (rounds buf bufsize : ℕ) → Cmd ℕ
unfolding xrealloc write_bytes
grow_and_read env fuel self readlink zero buf bufsize = λ _. out_of_fuel
grow_and_read env fuel self readlink (suc rounds) buf bufsize = do
  buf ← xrealloc env fuel self buf (bufsize + 80)
  elim (readlink (bufsize + 80)) [
    | none ↦ pure 0
    | some bytes ↦ do
      on_bytes (write_bytes buf bytes)
      elim (ltb (bufsize + 80) (length bytes + 1)) [
        | true ↦ grow_and_read env fuel self readlink rounds buf (bufsize + 80)
        | false ↦ do on_bytes λ m. update m (buf + length bytes) 0; pure buf
      ]
  ]

pub xreadlink : Env → (fuel self : ℕ) → (readlink : ℕ → Option (List ℕ)) → (rounds : ℕ) → Cmd ℕ
unfolding grow_and_read
xreadlink env fuel self readlink rounds = grow_and_read env fuel self readlink rounds 0 0

-- Whatever the link and the state of the allocator, `xreadlink` ends the process in its first round.
pub xreadlink-exits :
    (env : Env) (fuel self : ℕ) (readlink : ℕ → Option (List ℕ)) (rounds : ℕ) (s : State)
    → xreadlink env fuel self readlink (suc rounds) s ≡ exited
unfolding xreadlink realloc
xreadlink-exits env fuel self readlink rounds s = refl
