-- ===== src/Gc/Mark/Graph.antt =====
-- The blocks as a graph: which block the memory of another leads to. Marking does not change it.
use rmm.Base.{
  ℕ, ◌+◌, ◌-◌, ◌<◌, ◌≡◌, refl, ◌∙◌, arith, some, List, [], ◌∷◌, ◌==◌, true, false, Bool-cases, inl,
  inr, ==_iff, update_self, update_other,
}
use rmm.Gc.{Gc, Cell, is_marked, size_of, mark_cell, search, search_chain}
use rmm.Gc.Mark.{set_mark}

-- Two states of one table: the marks alone may differ.
pub record SameTable (g g' : Gc) : Type 0 where
  pub allocs : g'.allocs ≡ g.allocs
  pub capacity : g'.capacity ≡ g.capacity
  pub count : g'.size ≡ g.size
  pub bos : g'.bos ≡ g.bos
  pub array : g'.table ≡ g.table
  pub limit : g'.sweep_limit ≡ g.sweep_limit
  pub freed : g'.freed ≡ g.freed
  pub gc_cnt : g'.gc_cnt ≡ g.gc_cnt
  pub place : (a : ℕ) → (g'.cell a).p ≡ (g.cell a).p
  pub extent : (a : ℕ) → size_of (g'.cell a) ≡ size_of (g.cell a)

pub SameTable-refl : (g : Gc) → SameTable g g
SameTable-refl g = record {
  allocs = refl;
  capacity = refl;
  count = refl;
  bos = refl;
  array = refl;
  limit = refl;
  freed = refl;
  gc_cnt = refl;
  place = λ a. refl;
  extent = λ a. refl;
}

pub SameTable-trans : (g h k : Gc) → SameTable g h → SameTable h k → SameTable g k
SameTable-trans g h k s t = record {
  allocs = t.allocs ∙ s.allocs;
  capacity = t.capacity ∙ s.capacity;
  count = t.count ∙ s.count;
  bos = t.bos ∙ s.bos;
  array = t.array ∙ s.array;
  limit = t.limit ∙ s.limit;
  freed = t.freed ∙ s.freed;
  gc_cnt = t.gc_cnt ∙ s.gc_cnt;
  place = λ a. t.place a ∙ s.place a;
  extent = λ a. t.extent a ∙ s.extent a;
}

abbrev pub Marked : Gc → ℕ → Type 0
Marked g a = is_marked (g.cell a) ≡ true

pub size_of-mark_cell : (c : Cell) → size_of (mark_cell c) ≡ size_of c
size_of-mark_cell c = omega arith

pub is_marked-mark_cell : (c : Cell) → is_marked (mark_cell c) ≡ true
is_marked-mark_cell c = ground arith

pub set_mark-SameTable : (a : ℕ) (g : Gc) → SameTable g (set_mark a g)
unfolding set_mark
set_mark-SameTable a g = record {
  allocs = refl;
  capacity = refl;
  count = refl;
  bos = refl;
  array = refl;
  limit = refl;
  freed = refl;
  gc_cnt = refl;
  place = λ b. ground arith;
  extent = λ b. elim (Bool-cases (b == a)) [
    | inl e ↦ rw e (rw ((==_iff b a).0 e) (size_of-mark_cell (g.cell a)))
    | inr ne ↦ rw ne
  ];
}

pub set_mark-Marked : (a : ℕ) (g : Gc) → Marked (set_mark a g) a
unfolding set_mark
set_mark-Marked a g =
    rw (update_self g.cell a (mark_cell (g.cell a))) (is_marked-mark_cell (g.cell a))

pub set_mark-other : (a b : ℕ) (g : Gc) → (b == a) ≡ false → (set_mark a g).cell b ≡ g.cell b
unfolding set_mark
set_mark-other a b g ne = update_other g.cell a b (mark_cell (g.cell a)) ne

search_chain-same :
    (c d : ℕ → Cell) (p : ℕ) (chain : List ℕ)
    → ((a : ℕ) → (d a).p ≡ (c a).p)
    → search_chain d p chain ≡ search_chain c p chain
unfolding search_chain
search_chain-same c d p [] same = refl
search_chain-same c d p (a ∷ chain) same =
    let e = same a in rw (same a, search_chain-same c d p chain same)

pub search-same : (g g' : Gc) (p : ℕ) → SameTable g g' → search g' p ≡ search g p
unfolding search
search-same g g' p s = rw (s.allocs, s.capacity) (search_chain-same g.cell g'.cell p _ s.place)

-- What `n` addresses from `at` on lead to.
pub record Target (word : ℕ → ℕ) (g : Gc) (n at a : ℕ) : Type 0 where
  pub offset : ℕ
  pub inside : offset < n
  pub found : search g (word (at + offset)) ≡ some a

-- The memory of the block `a` holds the address of the block `b`.
abbrev pub Edge : (ℕ → ℕ) → Gc → ℕ → ℕ → Type 0
Edge word g a b = Target word g (size_of (g.cell a) - 7) (g.cell a).p b

pub data Reach (word : ℕ → ℕ) (g : Gc) (a : ℕ) : ℕ → Type 0 where
  here : Reach word g a a
  step : {b c : ℕ} → Reach word g a b → Edge word g b c → Reach word g a c

module _ {word : ℕ → ℕ} {g : Gc} where
  pub Reach-first : {a b c : ℕ} → Edge word g a b → Reach word g b c → Reach word g a c
  Reach-first e here = step here e
  Reach-first e (step r e') = step (Reach-first e r) e'
