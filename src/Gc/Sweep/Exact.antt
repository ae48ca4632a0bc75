-- ===== src/Gc/Sweep/Exact.antt =====
-- A whole collection: `gc_collect` of src/wlgc.c.
use rmm.Base.{
  ◌≤◌, ◌*◌, ◌≢◌, ℕ, ◌+◌, ◌^◌, ◌≡◌, refl, sym, ◌∙◌, ap, subst, ◌↔◌, ◌⊎◌, inl, inr, arith, some, List,
  [], ◌∷◌, ◌∈◌, Bool-cases, false, length, ◌∉◌, ◌==◌, ◌||◌, ==_iff,
}
use rmm.Gc.{Gc, Libc, pointer_bytes, is_marked, size_of, gc_need_collect, gc_need_resize}
use rmm.Gc.Table.{IsTable, IsClear, tracked}
use rmm.Gc.Mark.{gc_mark}
use rmm.Gc.Mark.Graph.{SameTable}
use rmm.Gc.Mark.Exact.{IsLive, gc_mark_exact}
use rmm.Gc.Sweep.{sweep_chains, resize_to, gc_hash_resize, gc_sweep, gc_collect}
use rmm.Gc.Sweep.Chain.{keep, garbage}
use rmm.Gc.Sweep.Garbage.{garbage-dead, garbage-mem}
use rmm.Gc.Sweep.Rehash.{resize_to-IsTable}
use rmm.Gc.Sweep.Table.{sweep_chains-SweptTable, mem-keep, length-keep}

-- The collection that takes `g` to `h`: of the tracked blocks exactly the live ones are tracked
-- afterwards; each other one has been given to `free`, with its memory, and nothing else has but the
-- array that a grown table had; and the table is in order again, with no block marked.
pub record Collected (word : ℕ → ℕ) (tos : ℕ) (g h : Gc) : Type 0 where
  pub kept : (a : ℕ) → a ∈ tracked g → (a ∈ tracked h ↔ IsLive word tos g a)
  pub none_new : (a : ℕ) → a ∈ tracked h → a ∈ tracked g
  pub dead :
      (a : ℕ) → a ∈ tracked g → ¬ IsLive word tos g a → (a ∈ h.freed) × ((g.cell a).p ∈ h.freed)
  pub only_dead :
      (b : ℕ)
      → b ∈ h.freed
      → (b ∈ g.freed)
        ⊎ ((a : ℕ) × (a ∈ tracked g) × (¬ IsLive word tos g a) × ((b ≡ a) ⊎ (b ≡ (g.cell a).p)))
        ⊎ (b ≡ g.table) × (h.capacity ≡ g.capacity * 2)
  pub fewer : h.size ≤ g.size
  pub place : (a : ℕ) → (h.cell a).p ≡ (g.cell a).p
  pub extent : (a : ℕ) → size_of (h.cell a) ≡ size_of (g.cell a)
  pub capacity : (h.capacity ≡ g.capacity) ⊎ (h.capacity ≡ g.capacity * 2)
  pub count : h.gc_cnt + length (tracked h) ≡ g.gc_cnt + length (tracked g)
  pub table : IsTable h
  pub clear : IsClear h

-- Marks alone do not put a table out of order.
SameTable-IsTable : (g g' : Gc) → SameTable g g' → IsTable g → IsTable g'
SameTable-IsTable g g' s table =
    let same : tracked g' ≡ tracked g = rw (s.allocs, s.capacity) in
    record {
      array = rw s.array table.array;
      positive = rw s.capacity table.positive;
      placed = λ i a below m.
          rw (s.capacity, s.place a)
            (table.placed i a (rw s.capacity at below) (subst (λ f. a ∈ f i) s.allocs m));
      distinct = rw same table.distinct;
      counted = s.count ∙ table.counted ∙ ap length (sym same);
      word = rw s.count table.word;
    }

-- The sweep of the chains that follows the mark phase.
mark_sweep :
    (word : ℕ → ℕ) (tos : ℕ) (g : Gc)
    → IsTable g
    → IsClear g
    → (g' h : Gc) × (gc_mark word tos g ≡ some g')
      × (sweep_chains g'.capacity g' ≡ some h)
      × SameTable g g'
      × (h.capacity ≡ g.capacity)
      × (h.table ≡ g.table)
      × Collected word tos g h
mark_sweep word tos g table clear =
    let (g', run, live, s) = gc_mark_exact word tos g table clear in
    let same : tracked g' ≡ tracked g = rw (s.allocs, s.capacity) in
    let (h, run', t) = sweep_chains-SweptTable g' (SameTable-IsTable g g' s table) in
    (
      g',
      h,
      run,
      run',
      s,
      t.capacity ∙ s.capacity,
      t.array ∙ s.array,
      record {
        kept = λ a m. (
          λ stays.
              let marked : a ∈ keep g'.cell (tracked g') = subst (λ l. a ∈ l) t.kept stays in
              (live a m).0 (ground (arith, mem-keep g'.cell a (tracked g'))),
          λ path.
              let m' : a ∈ tracked g' = rw same m in
              subst (λ l. a ∈ l) (sym t.kept)
                (ground (arith, mem-keep g'.cell a (tracked g'), (live a m).1 path)),
        );
        none_new = λ a stays.
            let marked : a ∈ keep g'.cell (tracked g') = subst (λ l. a ∈ l) t.kept stays in
            subst (λ l. a ∈ l) same (ground (arith, mem-keep g'.cell a (tracked g')));
        dead = λ a m lost.
            let un : is_marked (g'.cell a) ≡ false = elim (Bool-cases (is_marked (g'.cell a))) [
              | inl marked ↦ absurd (lost ((live a m).0 marked))
              | inr un ↦ un
            ] in
            let (x, y) = garbage-dead g'.cell a (tracked g') g'.freed (rw same m) un in
            (
              rw t.freed x,
              rw t.freed (subst (λ q. q ∈ garbage g'.cell (tracked g') g'.freed) (s.place a) y),
            );
        only_dead = λ b m. elim (garbage-mem g'.cell b (tracked g') g'.freed (rw t.freed at m)) [
          | inl old ↦ inl (subst (λ l. b ∈ l) s.freed old)
          | inr (a, inside, un, which) ↦
              let m' : a ∈ tracked g = subst (λ l. a ∈ l) same inside in
              inr
                (inl (a, m', λ path. absurd (cc (un, (live a m').1 path)), rw (← s.place a) which))
        ];
        place = λ a. t.place a ∙ s.place a;
        extent = λ a. t.extent a ∙ s.extent a;
        capacity = inl (t.capacity ∙ s.capacity);
        fewer = omega (
          arith,
          t.table.counted,
          table.counted,
          ap length t.kept,
          ap length same,
          length-keep g'.cell (tracked g'),
        );
        count = omega (arith, t.total, s.gc_cnt, ap length t.kept, ap length same);
        table = t.table;
        clear = t.clear;
      },
    )

nothing_in : (a : ℕ) (xs : List ℕ) → length xs ≡ 0 → a ∉ xs
nothing_in a [] e = refl
nothing_in a (x ∷ xs) e = absurd (omega arith)

-- A collection of an empty table leaves the sweep out.
nothing-Collected :
    (word : ℕ → ℕ) (tos : ℕ) (g g' : Gc)
    → IsTable g
    → SameTable g g'
    → length (tracked g) ≡ 0
    → Collected word tos g g'
nothing-Collected word tos g g' table s idle =
    let same : tracked g' ≡ tracked g = rw (s.allocs, s.capacity) in
    record {
      kept = λ a m. cc (nothing_in a (tracked g) idle, m);
      none_new = λ a m. rw (← same) m;
      dead = λ a m lost. cc (nothing_in a (tracked g) idle, m);
      only_dead = λ b m. inl (rw s.freed at m);
      fewer = omega (arith, s.count);
      place = s.place;
      extent = s.extent;
      capacity = inl s.capacity;
      count = omega (arith, s.gc_cnt, ap length same);
      table = SameTable-IsTable g g' s table;
      clear = λ a m. cc (nothing_in a (tracked g) idle, rw same at m);
    }

before_growth :
    (word : ℕ → ℕ) (tos : ℕ) (g h : Gc) (b : ℕ)
    → h.capacity ≡ g.capacity
    → ((b ∈ g.freed)
        ⊎ ((a : ℕ) × (a ∈ tracked g) × (¬ IsLive word tos g a) × ((b ≡ a) ⊎ (b ≡ (g.cell a).p)))
        ⊎ (b ≡ g.table) × (h.capacity ≡ g.capacity * 2))
    → (b ∈ g.freed)
      ⊎ ((a : ℕ) × (a ∈ tracked g) × (¬ IsLive word tos g a) × ((b ≡ a) ⊎ (b ≡ (g.cell a).p)))
      ⊎ (b ≡ g.table) × (h.capacity * 2 ≡ g.capacity * 2)
before_growth word tos g h b same (inl old) = inl old
before_growth word tos g h b same (inr (inl dead)) = inr (inl dead)
before_growth word tos g h b same (inr (inr (array, grown))) =
    inr (inr (array, ap (λ n. n * 2) same))

-- The growth of the table at the end changes nothing of that.
resize-Collected :
    (word : ℕ → ℕ) (tos : ℕ) (new_allocs : ℕ) (g h : Gc) (k : ℕ)
    → h.capacity ≡ 2 ^ k
    → h.capacity ≡ g.capacity
    → h.table ≡ g.table
    → new_allocs ≢ 0
    → Collected word tos g h
    → Collected word tos g (resize_to new_allocs h)
unfolding resize_to
resize-Collected word tos new_allocs g h k power same array some_array c =
    let (table, _, members) = resize_to-IsTable new_allocs h k c.table power some_array in
    record {
      kept = λ a m. (
        λ stays. (c.kept a m).0 (sym (members a) ∙ stays),
        λ live. members a ∙ (c.kept a m).1 live,
      );
      none_new = λ a m. c.none_new a (sym (members a) ∙ m);
      dead = λ a m lost. let (x, y) = c.dead a m lost in (ground (arith, x), ground (arith, y));
      only_dead = λ b m. elim (Bool-cases (b == h.table)) [
        | inl e ↦ inr (inr ((==_iff b h.table).0 e ∙ array, ap (λ n. n * 2) same))
        | inr ne ↦ before_growth word tos g h b same (c.only_dead b (ground (arith, m)))
      ];
      fewer = c.fewer;
      place = c.place;
      extent = c.extent;
      capacity = inr (ap (λ n. n * 2) same);
      count = omega (arith, c.count, c.table.counted, table.counted);
      table = table;
      clear = λ a m. c.clear a (sym (members a) ∙ m);
    }

-- The system has memory for a table of twice the size.
abbrev pub RoomToGrow : Libc → Gc → Type 0
RoomToGrow libc g = (call : ℕ) → libc.calloc call (g.capacity * 2) pointer_bytes ≢ 0

-- From a table in order whose capacity is a power of two, with no block marked, `gc_collect` ends,
-- when the system has memory for a table of twice the size. Of the tracked blocks exactly those that
-- the stack reaches are still tracked; each other one has been given to `free`, with its memory, and
-- no other pointer has, but the array of the table when that has grown; and the table is in order
-- again with no block marked, whether or not it has grown.
pub gc_collect-Collected :
    (libc : Libc) (word : ℕ → ℕ) (tos : ℕ) (g : Gc) (k : ℕ)
    → IsTable g
    → IsClear g
    → g.capacity ≡ 2 ^ k
    → RoomToGrow libc g
    → (h : Gc) × (gc_collect libc word tos g ≡ some h) × Collected word tos g h
unfolding gc_collect gc_sweep gc_hash_resize
gc_collect-Collected libc word tos g k table clear power room =
    let (g', h, run, run', s, capacity, array, all) = mark_sweep word tos g table clear in
    elim (Bool-cases (g'.size == 0)) [
      | inr some_there ↦ elim (Bool-cases (gc_need_collect h || gc_need_resize h)) [
        | inl grow ↦
            let new_allocs : ℕ = libc.calloc h.calls (h.capacity * 2) pointer_bytes in
            let some_memory : new_allocs ≢ 0 = rw capacity (room h.calls) in
            let some_array : (new_allocs == 0) ≡ false = ground (arith, some_memory) in
            (
              resize_to new_allocs h,
              rw (run, some_there, run', grow, some_array) refl,
              resize-Collected word tos new_allocs g h k (capacity ∙ power) capacity array
                  some_memory all,
            )
        | inr stay ↦ (h, rw (run, some_there, run', stay), all)
      ]
      | inl idle ↦
          let none_there : length (tracked g) ≡ 0 = ground (arith, table.counted, s.count) in
          (g', rw (run, idle), nothing-Collected word tos g g' table s none_there)
    ]
