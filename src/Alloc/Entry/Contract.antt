-- ===== src/Alloc/Entry/Contract.antt =====
-- What a client of `wl_malloc` and `wl_free` of src/wlmalloc.c may rely on, as an abstract allocator.
use rmm.Base.{
  ℕ, suc, ◌+◌, ◌-◌, ◌%◌, ◌≤◌, ◌<◌, ◌≡◌, ◌≢◌, ◌⊎◌, List, [], ◌∷◌, ◌++◌, true, length, take, drop,
  get_or, All,
}
use rmm.SizeClass.{size2cls}
use rmm.Alloc.{State, Env, Cmd, in_use, span_size, ◌>>=◌, ◌>>◌, pure}
use rmm.Alloc.Entry.{wl_malloc, wl_free}

-- A call of a client: `wl_malloc(sz)`, or `wl_free` of the k-th block that it holds.
pub data Call : Type 0 where
  ask : (sz : ℕ) → Call
  give : (k : ℕ) → Call

-- Two blocks of `size` bytes share no byte.
abbrev pub Clear : (size a b : ℕ) → Type 0
Clear size a b = (a + size ≤ b) ⊎ (b + size ≤ a)

-- The abstract allocator has blocks of `size` bytes between `low` and `high`. Its state is the list of
-- the blocks that the client holds, the latest first.
pub data Step (low high size : ℕ) (lives : List ℕ) : Call → List ℕ → Type 0 where
  asked :
      {sz a : ℕ}
      → sz ≤ size
      → low ≤ a
      → a + size ≤ high
      → All (Clear size a) lives
      → Step low high size lives (ask sz) (a ∷ lives)
  given :
      (a : ℕ) (xs ys : List ℕ)
      → lives ≡ xs ++ a ∷ ys
      → Step low high size lives (give (length xs)) (xs ++ ys)

pub data Steps (low high size : ℕ) : List ℕ → List Call → List ℕ → Type 0 where
  stop : {lives : List ℕ} → Steps low high size lives [] lives
  next :
      {call : Call} {calls : List Call} {lives after last : List ℕ}
      → Step low high size lives call after
      → Steps low high size after calls last
      → Steps low high size lives (call ∷ calls) last

-- The same calls of the code, from a client that holds `lives`.
unfoldable pub client : Env → (fuel self : ℕ) → List Call → List ℕ → Cmd (List ℕ)
client env fuel self [] lives = pure lives
client env fuel self (ask sz ∷ calls) lives = do
  a ← wl_malloc env fuel self sz
  client env fuel self calls (a ∷ lives)
client env fuel self (give k ∷ calls) lives = do
  wl_free env self (get_or lives k 0)
  client env fuel self calls (take k lives ++ drop (suc k) lives)

-- The calls that a span of `cap` blocks of a class can serve, when `n` of them are live.
abbrev pub Fits : (cap cls n : ℕ) → List Call → Type 0
Fits cap cls n [] = Unit
Fits cap cls n (ask sz ∷ calls) =
    (0 < sz) × (sz ≤ 16384) × (size2cls sz ≡ cls) × (n < cap) × Fits cap cls (suc n) calls
Fits cap cls n (give k ∷ calls) = (k < n) × Fits cap cls (n - 1) calls

-- The thread has been set up, owns the span at `p`, and has it in use for its class.
pub record Standing (s : State) (self p cls : ℕ) : Type 0 where
  pub ready : s.thread_state self ≡ true
  pub current : s.using self cls ≡ p
  pub not_null : p ≢ 0
  pub class : (s.span p).cls ≡ cls
  pub owner : (s.span p).owner ≡ self
  pub state : (s.span p).state ≡ in_use
  pub above : s.pool.start ≤ p
  pub below : p + span_size ≤ s.pool.end
  pub aligned : p % span_size ≡ 0
