-- ===== src/Gc/Mark.antt =====
-- The mark phase of src/wlgc.c.
pub mod Graph
pub mod Reachable
pub mod Ends
pub mod Exact
use rmm.Base.{ℕ, zero, suc, ◌+◌, ◌-◌, Bool, true, false, Option, none, some, if◌then◌else◌, update}
use rmm.Gc.{Gc, Cell, is_marked, mark_cell, size_of, search}

-- `alloc->size_tag |= 0x1`
unfoldable pub set_mark : ℕ → Gc → Gc
set_mark a g = record g { cell = update g.cell a (mark_cell (g.cell a)) }

infixl 5 ◌>>=◌
abbrev pub ◌>>=◌ : Option Gc → (Gc → Option Gc) → Option Gc
none >>= f = none
some g >>= f = f g

-- The loops over memory: `n` addresses from `at` on are read as pointers, byte by byte, and what is
-- found in the table is visited. `word a` is the pointer in memory at `a`.
unfoldable pub scan : (ℕ → ℕ) → (ℕ → Gc → Option Gc) → (n at : ℕ) → Gc → Option Gc
scan word visit zero at g = some g
scan word visit (suc n) at g = elim (search g (word at)) [
  | none ↦ scan word visit n (at + 1) g
  | some a ↦ visit a g >>= λ g'. scan word visit n (at + 1) g'
]

-- The block is read up to the last pointer that fits in it: p1 <= p2 holds for size - 7 addresses.
-- `none` is the end of the fuel, which bounds the depth of the recursion.
unfoldable pub gc_mark_alloc : (ℕ → ℕ) → (fuel a : ℕ) → Gc → Option Gc
unfolding set_mark scan
gc_mark_alloc word zero a g = none
gc_mark_alloc word (suc fuel) a g =
    if is_marked (g.cell a)
    then some g
    else scan word (gc_mark_alloc word fuel) (size_of (g.cell a) - 7) (g.cell a).p (set_mark a g)

-- The stack from its top `tos` up to `gc.bos` holds the roots. One more level of recursion than
-- there are blocks is enough.
unfoldable pub gc_mark : (ℕ → ℕ) → (tos : ℕ) → Gc → Option Gc
unfolding gc_mark_alloc scan
gc_mark word tos g = scan word (gc_mark_alloc word (g.size + 1)) (g.bos + 1 - tos) tos g
