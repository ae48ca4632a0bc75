-- ===== src/Gc/Mark/Exact.antt =====
-- The mark phase marks exactly the blocks that the stack reaches.
use rmm.Base.{ℕ, ◌+◌, ◌-◌, ◌≡◌, ◌↔◌, inl, inr, arith, some, ◌∈◌}
use rmm.Gc.{Gc, search}
use rmm.Gc.Table.{IsTable, IsClear, tracked, search-tracked}
use rmm.Gc.Mark.{gc_mark, gc_mark_alloc}
use rmm.Gc.Mark.Graph.{SameTable, SameTable-refl, Marked, Target, Reach, here, step}
use rmm.Gc.Mark.Reachable.{Spread, scan-Spread, gc_mark_alloc-Spread}
use rmm.Gc.Mark.Ends.{scan-Ends, gc_mark_alloc-Ends, unmarked-le-length}

-- The stack leads to the block `s`: a word on it, at any byte, is the block's address.
abbrev pub Root : (ℕ → ℕ) → ℕ → Gc → ℕ → Type 0
Root word tos g s = Target word g (g.bos + 1 - tos) tos s

-- The stack leads to a block from which memory leads to `a`.
pub record IsLive (word : ℕ → ℕ) (tos : ℕ) (g : Gc) (a : ℕ) : Type 0 where
  pub root : ℕ
  pub rooted : Root word tos g root
  pub path : Reach word g root a

module _ (word : ℕ → ℕ) (tos : ℕ) (g : Gc) (table : IsTable g) where
  cover : (p a : ℕ) → search g p ≡ some a → a ∈ tracked g
  cover p a found = (search-tracked g p a table.positive found).0

  -- A block that something leads to is in the table.
  pub IsLive-tracked : (a : ℕ) → IsLive word tos g a → a ∈ tracked g
  IsLive-tracked a live = go live.path
    where
      go : {b : ℕ} → Reach word g live.root b → b ∈ tracked g
      go here = cover _ live.root live.rooted.found
      go (step r e) = cover _ _ e.found

  Reach-Marked :
      (g' : Gc) {s a : ℕ}
      → IsClear g
      → Spread word g (Root word tos g) g g'
      → Root word tos g s
      → Reach word g s a
      → Marked g' a
  Reach-Marked g' {s} clear spread root here = spread.seeds s root
  Reach-Marked g' clear spread root (step {b} {c} r e) =
      spread.closed b c (Reach-Marked g' clear spread root r)
        (clear b (IsLive-tracked b (record { root = _; rooted = root; path = r }))) e

  -- From a table in order with no block marked, the mark phase ends. A block of the table is then
  -- marked exactly when the stack leads to it, directly or through the memory of other blocks, and
  -- nothing but marks has changed.
  pub gc_mark_exact :
      IsClear g
      → (g' : Gc) × (gc_mark word tos g ≡ some g')
        × ((a : ℕ) → a ∈ tracked g → (Marked g' a ↔ IsLive word tos g a))
        × SameTable g g'
  unfolding gc_mark
  gc_mark_exact clear =
      let (g', run) =
        scan-Ends word g (tracked g) cover (g.size + 1) (gc_mark_alloc word (g.size + 1))
          (gc_mark_alloc-Ends word g (tracked g) cover (g.size + 1)) (g.bos + 1 - tos) tos g
          (SameTable-refl g) (omega (arith, unmarked-le-length (tracked g) g, table.counted)) in
      let spread =
        scan-Spread word g (gc_mark_alloc word (g.size + 1))
          (gc_mark_alloc-Spread word g (g.size + 1)) (g.bos + 1 - tos) tos g g' (SameTable-refl g)
          run in
      (
        g',
        run,
        λ a m. (
          λ marked. elim (spread.sound a marked) [
            | inl before ↦ cc (clear a m)
            | inr (s, root, r) ↦ record { root = s; rooted = root; path = r }
          ],
          λ live. Reach-Marked g' clear spread live.rooted live.path,
        ),
        spread.same,
      )
