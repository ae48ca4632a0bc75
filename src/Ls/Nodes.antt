-- ===== src/Ls/Nodes.antt =====
-- The nodes of a directory in src/ls.c: `countfiles` and `dfree`, which follow the links of the chain
-- that `list_dir` made.
pub mod Leak
use rmm.Base.{
  ℕ, zero, suc, ◌+◌, ◌==◌, Bool, true, false, if◌then◌else◌, Option, none, some, List, [], ◌∷◌,
  ◌++◌,
}
use rmm.Ls.{Dnode}

-- A `struct dnode` with its address, which is not 0; `next` gives the `next` of an address.
pub record NodeAt : Type 0 where
  pub addr : ℕ
  pub node : Dnode

-- The loop of `countfiles`; `none` is fuel that is used up.
pub count_nodes : (next : ℕ → ℕ) → (fuel cur nfiles : ℕ) → Option ℕ
count_nodes next zero cur nfiles = none
count_nodes next (suc fuel) cur nfiles = elim (next cur == 0) [
  | true ↦ some (nfiles + 1)
  | false ↦ count_nodes next fuel (next cur) (nfiles + 1)
]

-- The array `NULL` is the empty list.
pub countfiles : (next : ℕ → ℕ) → (fuel : ℕ) → (dnp : List NodeAt) → Option ℕ
unfolding count_nodes
countfiles next fuel [] = some 0
countfiles next fuel (first ∷ dnp) = count_nodes next fuel first.addr 0

-- What is freed of the node at `cur`, whose `fullname` may be `NULL`.
abbrev pub freed_of : (fullname : ℕ → ℕ) → (cur : ℕ) → List ℕ
freed_of fullname cur = (if fullname cur == 0 then [] else fullname cur ∷ []) ++ cur ∷ []

-- The loop of `dfree`, with the addresses freed so far.
pub free_nodes : (next fullname : ℕ → ℕ) → (fuel cur : ℕ) → (freed : List ℕ) → Option (List ℕ)
free_nodes next fullname zero cur freed = none
free_nodes next fullname (suc fuel) cur freed = elim (cur == 0) [
  | true ↦ some freed
  | false ↦ free_nodes next fullname fuel (next cur) (freed ++ freed_of fullname cur)
]

-- The array is at `dnp_at`; `NULL` is the empty list.
pub dfree : (next fullname : ℕ → ℕ) → (fuel dnp_at : ℕ) → (dnp : List NodeAt) → Option (List ℕ)
unfolding free_nodes
dfree next fullname fuel dnp_at [] = some []
dfree next fullname fuel dnp_at (first ∷ dnp) = elim (free_nodes next fullname fuel first.addr []) [
  | none ↦ none
  | some freed ↦ some (freed ++ dnp_at ∷ [])
]

-- All that belongs to some nodes: their names and themselves.
pub blocks_of : (fullname : ℕ → ℕ) → List NodeAt → List ℕ
blocks_of fullname [] = []
blocks_of fullname (cur ∷ dn) = freed_of fullname cur.addr ++ blocks_of fullname dn
