-- ===== src/Gc/Sweep/Rehash.antt =====
-- `gc_hash_resize` of src/wlgc.c keeps the table in order.
use mathlib.Core.List.{append_assoc, append-nil}
use Prim.Native.Nat.{bit_and}
use native.Mathlib.Nat.{pow-suc}
use rmm.Base.{
  ℕ, zero, suc, ◌-◌, ◌*◌, ◌%◌, ◌^◌, ◌<◌, ◌≡◌, ◌≢◌, refl, sym, ◌∙◌, inl, inr, arith, List, [], ◌∷◌,
  ◌++◌, ◌∈◌, ◌∉◌, has, has-append, length, length-append, Distinct, update, ne_of_mem,
}
use rmm.Gc.{Gc, Cell, index_of, hash_func}
use rmm.Gc.Table.{IsTable, collect, tracked, index-lt}
use rmm.Gc.Insert.{collect-Pushed, pushed_mem}
use rmm.Base.{bit_and_mask}
use rmm.Gc.Sweep.{rehash_chain, rehash, resize_to}
use rmm.Gc.Sweep.Table.{Distinct-parts}

-- The new chains hold the blocks `moved`, each once and in its place.
record Filled (capacity : ℕ) (cell : ℕ → Cell) (moved : List ℕ) (f : ℕ → List ℕ) : Type 0 where
  members : (x : ℕ) → has x (collect f capacity) ≡ has x moved
  count : length (collect f capacity) ≡ length moved
  distinct : Distinct (collect f capacity)
  placed : (i x : ℕ) → i < capacity → x ∈ f i → index_of capacity (cell x).p ≡ i

collect_empty : (n : ℕ) → collect (λ i. []) n ≡ []
unfolding collect
collect_empty zero = refl
collect_empty (suc n) = rw (collect_empty n)

module _ (capacity : ℕ) (cell : ℕ → Cell) (positive : 0 < capacity)
    (mask : (h : ℕ) → bit_and h (capacity - 1) ≡ h % capacity) where
  nothing-Filled : Filled capacity cell [] (λ i. [])
  nothing-Filled = record {
    members = λ x. rw (collect_empty capacity);
    count = rw (collect_empty capacity);
    distinct = rw (collect_empty capacity) tt;
    placed = λ i x h m. cc m;
  }

  move-Filled :
      (a : ℕ) (moved : List ℕ) (f : ℕ → List ℕ)
      → a ∉ moved
      → Filled capacity cell moved f
      → Filled capacity cell
          (moved ++ a ∷ [])
          (update f (index_of capacity (cell a).p) (a ∷ f (index_of capacity (cell a).p)))
  move-Filled a moved f fresh s =
      let i : ℕ = index_of capacity (cell a).p in
      let p = collect-Pushed f capacity i a (index-lt capacity (cell a).p positive) in
      record {
        members = λ x. ground (arith, p.members x, s.members x, has-append x moved (a ∷ []));
        count = omega (arith, p.count, s.count, length-append moved (a ∷ []));
        distinct = p.distinct (s.members a ∙ fresh) s.distinct;
        placed = λ j x h m. elim (pushed_mem f i a j x m) [
          | inl (same, e) ↦ rw (e, same)
          | inr old ↦ s.placed j x h old
        ];
      }

  rehash_chain-Filled :
      (chain moved : List ℕ) (f : ℕ → List ℕ)
      → Distinct chain
      → ((x : ℕ) → x ∈ chain → x ∉ moved)
      → Filled capacity cell moved f
      → Filled capacity cell (moved ++ chain) (rehash_chain cell capacity chain f)
  unfolding rehash_chain hash_func index_of
  rehash_chain-Filled [] moved f d apart s = rw append-nil s
  rehash_chain-Filled (a ∷ chain) moved f d apart s =
      let once = move-Filled a moved f (apart a (ground arith)) s in
      let later : (x : ℕ) → x ∈ chain → x ∉ moved ++ a ∷ [] =
        λ x m. ground (arith, apart x, has-append x moved (a ∷ []), ne_of_mem a x chain m d.0) in
      let joined : (moved ++ a ∷ []) ++ chain ≡ moved ++ a ∷ chain = rw append_assoc in
      rw (mask, ← joined)
        (rehash_chain-Filled chain (moved ++ a ∷ [])
          (update f (index_of capacity (cell a).p) (a ∷ f (index_of capacity (cell a).p))) d.1 later
          once)

  rehash-Filled :
      (g : Gc) (n : ℕ)
      → g.cell ≡ cell
      → Distinct (collect g.allocs n)
      → Filled capacity cell (collect g.allocs n) (rehash g capacity n)
  unfolding rehash collect
  rehash-Filled g zero same d = nothing-Filled
  rehash-Filled g (suc n) same d =
      let (dx, dy, apart) = Distinct-parts (collect g.allocs n) (g.allocs n) d in
      rw same (
        rehash_chain-Filled (g.allocs n) (collect g.allocs n) (rehash g capacity n) dy apart
          (rehash-Filled g n same dx))

-- When the capacity is a power of two, the growth doubles it and leaves a table in order with
-- the same blocks, each once and at the place where `search` looks for it.
pub resize_to-IsTable :
    (new_allocs : ℕ) (g : Gc) (k : ℕ)
    → IsTable g
    → g.capacity ≡ 2 ^ k
    → new_allocs ≢ 0
    → IsTable (resize_to new_allocs g)
      × ((resize_to new_allocs g).capacity ≡ 2 ^ suc k)
      × ((a : ℕ) → has a (tracked (resize_to new_allocs g)) ≡ has a (tracked g))
unfolding resize_to
resize_to-IsTable new_allocs g k t power some_array =
    let twice : g.capacity * 2 ≡ 2 ^ suc k = omega (arith, pow-suc 2 k, power) in
    let mask : (h : ℕ) → bit_and h (g.capacity * 2 - 1) ≡ h % (g.capacity * 2) =
      λ h. rw twice (bit_and_mask (suc k) h) in
    let s =
      rehash-Filled (g.capacity * 2) g.cell (omega (arith, t.positive)) mask g g.capacity refl
        t.distinct in
    (
      record {
        array = some_array;
        positive = omega (arith, t.positive);
        placed = s.placed;
        distinct = s.distinct;
        counted = t.counted ∙ sym s.count;
        word = t.word;
      },
      twice,
      s.members,
    )
