-- ===== src/Gc/Calls/Free.antt =====
-- `gc_free` of src/wlgc.c on a table in order.
use mathlib.Core.List.{append_assoc}
use rmm.Base.{
  ℕ, ◌+◌, ◌-◌, ◌<◌, ◌≡◌, ◌≢◌, refl, sym, ap, inl, inr, arith, none, some, List, [], ◌∷◌, ◌++◌, ◌∈◌,
  ◌∉◌, ◌&&◌, not, has, has-append, length, length-append, Distinct, Distinct-middle, ◌==◌, ==_iff,
  Bool-cases, Option-cases, update,
}
use rmm.Gc.{Gc, index_of, search}
use rmm.Gc.Table.{IsTable, IsClear, collect, tracked, index-lt, search_chain-some}
use rmm.Gc.Insert.{collect-update}
use rmm.Gc.Sweep.{gc_free_alloc, dec64}
use rmm.Gc.Sweep.Chain.{gc_free_alloc_lem}
use rmm.Gc.Calls.{gc_free}

-- A member of a list, with what stands before its first place and what behind.
mem_split :
    (a : ℕ) (xs : List ℕ) → a ∈ xs → (pre rest : List ℕ) × (xs ≡ pre ++ a ∷ rest) × (a ∉ pre)
mem_split a [] m = cc
mem_split a (x ∷ xs) m = elim (Bool-cases (a == x)) [
  | inl e ↦ ([], xs, ap (λ y. y ∷ xs) (sym ((==_iff a x).0 e)), refl)
  | inr ne ↦
      let (pre, rest, split, out) = mem_split a xs (ground arith) in
      (x ∷ pre, rest, ap (◌∷◌ x) split, ground arith)
]

-- The table after one block has left it.
pub record Removed (a : ℕ) (before after : List ℕ) : Type 0 where
  pub members : (x : ℕ) → has x after ≡ (not (x == a) && has x before)
  pub count : length after + 1 ≡ length before
  pub distinct : Distinct after

Removed-middle :
    (a : ℕ) (xs ys : List ℕ) → Distinct (xs ++ a ∷ ys) → Removed a (xs ++ a ∷ ys) (xs ++ ys)
Removed-middle a xs ys d =
    let (out, rest) = (Distinct-middle a xs ys).0 d in
    record {
      members = λ x. elim (Bool-cases (x == a)) [
        | inl e ↦ rw ((==_iff x a).0 e) (ground (arith, out))
        | inr ne ↦ ground (arith, has-append x xs (a ∷ ys), has-append x xs ys)
      ];
      count = omega (arith, length-append xs (a ∷ ys), length-append xs ys);
      distinct = rest;
    }

-- One chain loses a block, and with it the table.
collect-Removed :
    (f : ℕ → List ℕ) (n i a : ℕ) (pre rest : List ℕ)
    → i < n
    → f i ≡ pre ++ a ∷ rest
    → Distinct (collect f n)
    → Removed a (collect f n) (collect (update f i (pre ++ rest)) n)
collect-Removed f n i a pre rest h chain d =
    let (xs, ys, old, new) = collect-update f n i h in
    let around : collect f n ≡ (xs ++ pre) ++ a ∷ (rest ++ ys) =
      rw (old, chain, append_assoc, append_assoc) in
    let left : collect (update f i (pre ++ rest)) n ≡ (xs ++ pre) ++ (rest ++ ys) =
      rw (new (pre ++ rest), append_assoc, append_assoc) in
    rw (around, left) (Removed-middle a (xs ++ pre) (rest ++ ys) (rw around at d))

-- The three ways through `gc_free`.
pub data Freed (ptr : ℕ) (g g' : Gc) : Type 0 where
  ignored : ptr ≡ 0 → g' ≡ g → Freed ptr g g'
  untracked :
      ptr ≢ 0
      → search g ptr ≡ none
      → tracked g' ≡ tracked g
      → g'.freed ≡ ptr ∷ g.freed
      → Freed ptr g g'
  removed :
      (a : ℕ)
      → search g ptr ≡ some a
      → Removed a (tracked g) (tracked g')
      → g'.freed ≡ a ∷ ptr ∷ g.freed
      → g'.gc_cnt ≡ g.gc_cnt + 1
      → Freed ptr g g'

module _ (g : Gc) (ptr : ℕ) (t : IsTable g) (clear : IsClear g) where
  gc_free_tracked :
      (a : ℕ)
      → search g ptr ≡ some a
      → (g' : Gc) × (gc_free_alloc a g ≡ some g') × IsTable g' × IsClear g' × Freed ptr g g'
  unfolding search
  gc_free_tracked a found =
      let i : ℕ = index_of g.capacity ptr in
      let below : i < g.capacity = index-lt g.capacity ptr t.positive in
      let (inside, place) = search_chain-some g.cell ptr a (g.allocs i) found in
      let (pre, rest, chain, out) = mem_split a (g.allocs i) inside in
      let r = collect-Removed g.allocs g.capacity i a pre rest below chain t.distinct in
      let at_i : index_of g.capacity (g.cell a).p ≡ i = rw place in
      let one_less : dec64 g.size ≡ g.size - 1 = omega (arith, t.counted, t.word, r.count) in
      let g' : Gc = record g {
        allocs = update g.allocs i (pre ++ rest);
        freed = a ∷ (g.cell a).p ∷ g.freed;
        size = dec64 g.size;
        gc_cnt = g.gc_cnt + 1;
      } in
      (
        g',
        gc_free_alloc_lem g i a pre rest at_i chain out,
        record {
          array = t.array;
          positive = t.positive;
          placed = λ j x h m. t.placed j x h (elim (Bool-cases (j == i)) [
            | inl e ↦
                let m' : x ∈ pre ++ rest = rw e at m in
                let here : x ∈ g.allocs i =
                  rw chain (ground (arith, has-append x pre rest, has-append x pre (a ∷ rest))) in
                rw ((==_iff j i).0 e) here
            | inr ne ↦ rw ne at m
          ]);
          distinct = r.distinct;
          counted = omega (arith, one_less, t.counted, r.count);
          word = omega (arith, one_less, t.word);
        },
        λ x m. clear x (ground (arith, r.members x)),
        removed a found r (rw place) refl,
      )

  -- `gc_free` on a table in order always returns and leaves a table in order with no block marked.
  -- `NULL` is ignored; of a tracked pointer the newest block leaves the table, and it is given to
  -- `free` with its memory and counted; any other pointer is given to `free` as it is.
  pub gc_free-Freed :
      (g' : Gc) × (gc_free ptr g ≡ some g') × IsTable g' × IsClear g' × Freed ptr g g'
  unfolding gc_free
  gc_free-Freed = elim (Bool-cases (ptr == 0)) [
    | inl null ↦ (g, rw null, t, clear, ignored ((==_iff ptr 0).0 null) refl)
    | inr some_ptr ↦ elim (Option-cases (search g ptr)) [
      | inl missing ↦ (
        record g { freed = ptr ∷ g.freed },
        rw (some_ptr, missing),
        record {
          array = t.array;
          positive = t.positive;
          placed = t.placed;
          distinct = t.distinct;
          counted = t.counted;
          word = t.word;
        },
        clear,
        untracked (ground arith) missing refl refl,
      )
      | inr (a, found) ↦
          let (g', run, table, clear', freed) = gc_free_tracked a found in
          (g', rw (some_ptr, found) run, table, clear', freed)
    ]
  ]
