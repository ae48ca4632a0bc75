-- ===== src/Gc/Insert.antt =====
-- A new block enters the hash table of src/wlgc.c: `register_alloc`.
use mathlib.Core.List.{append_assoc, append-nil}
use rmm.Base.{
  ℕ, zero, suc, ◌+◌, ◌%◌, ◌^◌, ◌≤◌, ◌<◌, ◌≡◌, ◌≢◌, ◌⊎◌, refl, inl, inr, arith, some, List, [], ◌∷◌,
  ◌++◌, ◌||◌, ◌∈◌, ◌∉◌, has, has-append, length, length-append, Distinct, Distinct-middle, ◌==◌,
  ==_iff, Bool-cases, false, update, update_self, update_other, ne_of_mem,
}
use rmm.Gc.{
  Gc, Cell, Libc, index_of, search, search_chain, insert_alloc, register_alloc, alloc_bytes,
}
use rmm.Gc.Table.{IsTable, IsClear, collect, tracked, mem-collect, index-lt}

collect-update_above :
    (f : ℕ → List ℕ) (n i : ℕ) (v : List ℕ) → n ≤ i → collect (update f i v) n ≡ collect f n
unfolding collect
collect-update_above f zero i v h = refl
collect-update_above f (suc n) i v h =
    let ne : (n == i) ≡ false = ground arith in rw (collect-update_above f n i v (omega arith), ne)

-- The chain of one index within all chains, and what a new chain there makes of them.
pub collect-update :
    (f : ℕ → List ℕ) (n i : ℕ)
    → i < n
    → (xs ys : List ℕ) × (collect f n ≡ xs ++ (f i ++ ys))
      × ((v : List ℕ) → collect (update f i v) n ≡ xs ++ (v ++ ys))
unfolding collect
collect-update f zero i h = absurd (omega arith)
collect-update f (suc n) i h = elim (Bool-cases (n == i)) [
  | inl e ↦
      let same : n ≡ i = (==_iff n i).0 e in
      (
        collect f n,
        [],
        rw (append-nil, same),
        λ v. rw (collect-update_above f n i v (omega arith), append-nil, e),
      )
  | inr ne ↦
      let (xs, ys, old, new) = collect-update f n i (ground arith) in
      (
        xs,
        ys ++ f n,
        rw (old, append_assoc, append_assoc),
        λ v. rw (new v, ne, append_assoc, append_assoc),
      )
]

-- The table after one block has been put first in the chain of `i`.
pub record Pushed (a : ℕ) (before after : List ℕ) : Type 0 where
  pub members : (x : ℕ) → has x after ≡ ((x == a) || has x before)
  pub count : length after ≡ length before + 1
  pub distinct : a ∉ before → Distinct before → Distinct after

pub collect-Pushed :
    (f : ℕ → List ℕ) (n i a : ℕ) → i < n → Pushed a (collect f n) (collect (update f i (a ∷ f i)) n)
collect-Pushed f n i a h =
    let (xs, ys, old, new) = collect-update f n i h in
    let rest = f i ++ ys in
    rw (old, new (a ∷ f i))
      (record {
        members = λ x. ground (arith, has-append x xs (a ∷ rest), has-append x xs rest);
        count = omega (arith, length-append xs (a ∷ rest), length-append xs rest);
        distinct = λ out d. (Distinct-middle a xs rest).1 (out, d);
      })

-- What is in a chain after the push is the new block or was there before.
pub pushed_mem :
    (f : ℕ → List ℕ) (i a j x : ℕ) → x ∈ update f i (a ∷ f i) j → (j ≡ i) × (x ≡ a) ⊎ (x ∈ f j)
pushed_mem f i a j x m = elim (Bool-cases (j == i)) [
  | inr ne ↦ inr (rw ne at m)
  | inl e ↦
      let m' : x ∈ a ∷ f i = rw e at m in
      let same : j ≡ i = (==_iff j i).0 e in
      elim (Bool-cases (x == a)) [
        | inl e' ↦ inl (same, (==_iff x a).0 e')
        | inr ne' ↦ inr (rw same (ground arith))
      ]
]

-- The table with a new block for `p` at `a`.
pub record Registered (a p : ℕ) (g g' : Gc) : Type 0 where
  pub table : IsTable g'
  pub clear : IsClear g'
  pub members : (x : ℕ) → has x (tracked g') ≡ ((x == a) || has x (tracked g))
  pub found : search g' p ≡ some a
  pub others : (x : ℕ) → x ∈ tracked g → g'.cell x ≡ g.cell x
  pub capacity : g'.capacity ≡ g.capacity

insert_alloc-Registered :
    (a p sz : ℕ) (g : Gc)
    → IsTable g
    → IsClear g
    → a ∉ tracked g
    → sz % 2 ≡ 0
    → g.size + 1 < 2 ^ 64
    → Registered a p g (insert_alloc a p sz g)
unfolding insert_alloc search
insert_alloc-Registered a p sz g t clear fresh even small =
    let i : ℕ = index_of g.capacity p in
    let below : i < g.capacity = index-lt g.capacity p t.positive in
    let s = collect-Pushed g.allocs g.capacity i a below in
    let new : Cell = record { p = p; size_tag = sz } in
    let old_cell : (x : ℕ) → x ∈ tracked g → update g.cell a new x ≡ g.cell x =
      λ x m. update_other g.cell a x new (ne_of_mem a x (tracked g) m fresh) in
    let hit : (update g.cell a new a).p ≡ p = rw (update_self g.cell a new) in
    record {
      table = record {
        array = t.array;
        positive = t.positive;
        placed = λ j x h m. elim (pushed_mem g.allocs i a j x m) [
          | inl (same, e) ↦ rw (e, update_self g.cell a new, same)
          | inr old ↦
              rw (old_cell x (mem-collect g.allocs g.capacity j x h old)) (t.placed j x h old)
        ];
        distinct = s.distinct fresh t.distinct;
        counted = omega (arith, s.count, t.counted);
        word = small;
      };
      clear = λ x m. elim (Bool-cases (x == a)) [
        | inl e ↦ rw e (ground arith)
        | inr ne ↦
            let m' : x ∈ tracked g = ground (arith, s.members x) in rw (old_cell x m') (clear x m')
      ];
      members = s.members;
      found =
          rw (search, update_self g.allocs i (a ∷ g.allocs i), search_chain, hit) (ground arith);
      others = old_cell;
      capacity = refl;
    }

-- `register_alloc` of a block at `p`, for which `malloc` gives an `alloc_t` that is not in the table
-- yet: the block is tracked, and `search` finds it before any older block of that address; all
-- other blocks stay tracked, with their cells; and the table stays in order, with no block marked
-- when the size is even.
pub register_alloc-Registered :
    (libc : Libc) (p sz : ℕ) (g : Gc)
    → IsTable g
    → IsClear g
    → p ≢ 0
    → libc.malloc g.calls alloc_bytes ≢ 0
    → libc.malloc g.calls alloc_bytes ∉ tracked g
    → sz % 2 ≡ 0
    → g.size + 1 < 2 ^ 64
    → (g' : Gc) × (register_alloc libc p sz g ≡ some g')
      × Registered (libc.malloc g.calls alloc_bytes) p g g'
unfolding register_alloc
register_alloc-Registered libc p sz g t clear some_block given fresh even small =
    let a : ℕ = libc.malloc g.calls alloc_bytes in
    let called : Gc = record g { calls = g.calls + 1 } in
    let block : (p == 0) ≡ false = ground arith in
    let got : (a == 0) ≡ false = ground arith in
    let t' : IsTable called = record {
      array = t.array;
      positive = t.positive;
      placed = t.placed;
      distinct = t.distinct;
      counted = t.counted;
      word = t.word;
    } in
    let r = insert_alloc-Registered a p sz called t' clear fresh even small in
    (
      insert_alloc a p sz called,
      rw (block, got),
      record {
        table = r.table;
        clear = r.clear;
        members = r.members;
        found = r.found;
        others = r.others;
        capacity = r.capacity;
      },
    )
