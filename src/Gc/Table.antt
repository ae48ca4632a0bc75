-- ===== src/Gc/Table.antt =====
-- When the hash table of src/wlgc.c is in order, and what `search` finds in it.
use mathlib.Core.Option.{some-injective}
use rmm.Base.{
  subst, ℕ, zero, suc, ◌^◌, ◌<◌, ◌≡◌, ◌≢◌, arith, some, List, [], ◌∷◌, ◌++◌, ◌∈◌, has, has-append,
  length, Distinct, ◌==◌, ==_iff, Bool-cases, inl, inr, false,
}
use rmm.Gc.{Gc, Cell, index_of, search, search_chain, is_marked}

-- The chains below index `n`, one behind the other.
unfoldable pub collect : (ℕ → List ℕ) → ℕ → List ℕ
collect allocs zero = []
collect allocs (suc n) = collect allocs n ++ allocs n

-- The addresses of all `alloc_t`s in the table.
abbrev pub tracked : Gc → List ℕ
tracked g = collect g.allocs g.capacity

pub record IsTable (g : Gc) : Type 0 where
  pub array : g.table ≢ 0
  pub positive : 0 < g.capacity
  pub placed : (i a : ℕ) → i < g.capacity → a ∈ g.allocs i → index_of g.capacity (g.cell a).p ≡ i
  pub distinct : Distinct (tracked g)
  pub counted : g.size ≡ length (tracked g)
  pub word : g.size < 2 ^ 64

pub index-lt : (capacity p : ℕ) → 0 < capacity → index_of capacity p < capacity
unfolding index_of
index-lt capacity p h = grind arith

pub mem-collect : (allocs : ℕ → List ℕ) (n i a : ℕ) → i < n → a ∈ allocs i → a ∈ collect allocs n
unfolding collect
mem-collect allocs zero i a h m = absurd (omega arith)
mem-collect allocs (suc n) i a h m = elim (Bool-cases (i == n)) [
  | inl e ↦
      let here : a ∈ allocs n = subst (λ j. a ∈ allocs j) ((==_iff i n).0 e) m in
      ground (arith, has-append a (collect allocs n) (allocs n))
  | inr ne ↦
      ground (
        arith,
        has-append a (collect allocs n) (allocs n),
        mem-collect allocs n i a (ground arith) m,
      )
]

pub collect-mem :
    (allocs : ℕ → List ℕ) (n a : ℕ) → a ∈ collect allocs n → (i : ℕ) × (i < n) × (a ∈ allocs i)
unfolding collect
collect-mem allocs zero a m = cc
collect-mem allocs (suc n) a m = elim (Bool-cases (has a (allocs n))) [
  | inl here ↦ (n, omega arith, here)
  | inr out ↦
      let (i, h, m') =
        collect-mem allocs n a (ground (arith, has-append a (collect allocs n) (allocs n))) in
      (i, omega arith, m')
]

pub search_chain-some :
    (cell : ℕ → Cell) (p a : ℕ) (chain : List ℕ)
    → search_chain cell p chain ≡ some a
    → (a ∈ chain) × ((cell a).p ≡ p)
unfolding search_chain
search_chain-some cell p a [] e = cc
search_chain-some cell p a (x ∷ chain) e = elim (Bool-cases ((cell x).p == p)) [
  | inl hit ↦
      let same : x ≡ a = some-injective _ _ (rw (hit, search_chain) at e) in
      (rw same (ground arith), rw (← same) ((==_iff (cell x).p p).0 hit))
  | inr miss ↦
      let (m, q) = search_chain-some cell p a chain (rw (miss, search_chain) at e) in
      (ground arith, q)
]

-- What `search` finds is in the table and has that address.
pub search-tracked :
    (g : Gc) (p a : ℕ) → 0 < g.capacity → search g p ≡ some a → (a ∈ tracked g) × ((g.cell a).p ≡ p)
unfolding search
search-tracked g p a pos e =
    let i : ℕ = index_of g.capacity p in
    let (m, q) = search_chain-some g.cell p a (g.allocs i) e in
    (mem-collect g.allocs g.capacity i a (index-lt g.capacity p pos) m, q)

-- No block of the table is marked: the state between two collections.
abbrev pub IsClear : Gc → Type 0
IsClear g = (a : ℕ) → a ∈ tracked g → is_marked (g.cell a) ≡ false
