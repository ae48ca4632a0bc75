-- ===== src/Alloc/Entry/Classes.antt =====
-- The spans that a thread has in use for several size classes of src/wlmalloc.c, and a client of all
-- of them.
pub mod Served
use rmm.Base.{
  ℕ, suc, ◌+◌, ◌-◌, ◌≤◌, ◌<◌, ◌≡◌, ◌≢◌, ◌⊎◌, Bool, true, List, [], ◌∷◌, ◌++◌, length, take, drop,
  get_or, ◌∈◌, update,
}
use rmm.SizeClass.{size2cls, class_size}
use rmm.Alloc.{State, Env, Cmd, ◌>>=◌, ◌>>◌, pure}
use rmm.Alloc.Blocks.{blk_cnt}
use rmm.Alloc.Blocks.Invariant.{IsSpan}
use rmm.Alloc.Blocks.Apart.{Apart}
use rmm.Alloc.Entry.{wl_malloc, wl_free}
use rmm.Alloc.Entry.Contract.{Standing}

-- A call of a client: `wl_malloc(sz)`, or `wl_free` of the k-th block that it holds of a class.
pub data ClassCall : Type 0 where
  want : (sz : ℕ) → ClassCall
  drop_blk : (cls k : ℕ) → ClassCall

-- The abstract allocator: its state is the blocks that the client holds, by class, and `on` has the
-- classes that it serves. A new block shares no byte with any block that the client holds.
pub data ClassStep (on : ℕ → Bool) (lives : ℕ → List ℕ) : ClassCall → (ℕ → List ℕ) → Type 0 where
  wanted :
      {sz : ℕ} (a : ℕ)
      → sz ≤ class_size (size2cls sz)
      → ((d b : ℕ)
          → on d ≡ true
          → b ∈ lives d
          → (a + class_size (size2cls sz) ≤ b) ⊎ (b + class_size d ≤ a))
      → ClassStep on lives (want sz) (update lives (size2cls sz) (a ∷ lives (size2cls sz)))
  dropped :
      (cls a : ℕ) (xs ys : List ℕ)
      → lives cls ≡ xs ++ a ∷ ys
      → ClassStep on lives (drop_blk cls (length xs)) (update lives cls (xs ++ ys))

pub data ClassSteps (on : ℕ → Bool) : (ℕ → List ℕ) → List ClassCall → (ℕ → List ℕ) → Type 0 where
  done : {lives : ℕ → List ℕ} → ClassSteps on lives [] lives
  then_step :
      {call : ClassCall} {calls : List ClassCall} {lives after last : ℕ → List ℕ}
      → ClassStep on lives call after
      → ClassSteps on after calls last
      → ClassSteps on lives (call ∷ calls) last

-- The same calls of the code.
pub class_client : Env → (fuel self : ℕ) → List ClassCall → (ℕ → List ℕ) → Cmd (ℕ → List ℕ)
class_client env fuel self [] lives = pure lives
class_client env fuel self (want sz ∷ calls) lives = do
  a ← wl_malloc env fuel self sz
  class_client env fuel self calls (update lives (size2cls sz) (a ∷ lives (size2cls sz)))
class_client env fuel self (drop_blk cls k ∷ calls) lives = do
  wl_free env self (get_or (lives cls) k 0)
  class_client env fuel self calls
      (update lives cls (take k (lives cls) ++ drop (suc k) (lives cls)))

-- The calls that the spans can serve, when n of the blocks of each class are live.
abbrev pub ClassFits : (on : ℕ → Bool) → (n : ℕ → ℕ) → List ClassCall → Type 0
ClassFits on n [] = Unit
ClassFits on n (want sz ∷ calls) =
    (0 < sz)
    × (sz ≤ 16384)
    × (on (size2cls sz) ≡ true)
    × (n (size2cls sz) < blk_cnt (class_size (size2cls sz)))
    × ClassFits on (update n (size2cls sz) (suc (n (size2cls sz)))) calls
ClassFits on n (drop_blk cls k ∷ calls) =
    (on cls ≡ true) × (k < n cls) × ClassFits on (update n cls (n cls - 1)) calls

-- A span in order with these live blocks.
pub record InOrder (s : State) (p : ℕ) (lives : List ℕ) : Type 0 where
  pub used : ℕ
  pub frees : List ℕ
  pub span : IsSpan s p used frees lives

-- The thread has the span at `at cls` in use for each class that is on, the spans are in order with
-- the client's blocks live, and no two of them overlap.
pub record Classes (s : State) (self : ℕ) (at : ℕ → ℕ) (on : ℕ → Bool) (lives : ℕ → List ℕ)
    : Type 0 where
  pub standing : (cls : ℕ) → on cls ≡ true → Standing s self (at cls) cls
  pub spans : (cls : ℕ) → on cls ≡ true → InOrder s (at cls) (lives cls)
  pub apart : (c d : ℕ) → on c ≡ true → on d ≡ true → c ≢ d → Apart (at c) (at d)
