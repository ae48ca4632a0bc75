-- ===== src/Gc/Sweep/Table.antt =====
-- The sweep of the whole hash table.
use rmm.Base.{
  ℕ, zero, suc, ◌+◌, ◌^◌, ◌≤◌, ◌<◌, ◌≡◌, refl, sym, ◌∙◌, ap, subst, inl, inr, arith, some, List, [],
  ◌∷◌, ◌++◌, ◌∈◌, ◌∉◌, ◌&&◌, has, has-append, ◌==◌, Bool-cases, ==_iff, length, length-append,
  Distinct,
}
use rmm.Gc.{Gc, Cell, is_marked, size_of, index_of}
use rmm.Gc.Table.{IsTable, IsClear, collect, tracked}
use rmm.Gc.Sweep.{sweep_chains}
use rmm.Gc.Sweep.Chain.{keep, garbage, Cleared, Swept, keep-same, garbage-same, sweep_chain-Swept}

pub keep-append : (c : ℕ → Cell) (xs ys : List ℕ) → keep c (xs ++ ys) ≡ keep c xs ++ keep c ys
unfolding keep
keep-append c [] ys = refl
keep-append c (x ∷ xs) ys = rw (keep-append c xs ys) (ground arith)

garbage-append :
    (c : ℕ → Cell) (xs ys freed : List ℕ)
    → garbage c (xs ++ ys) freed ≡ garbage c ys (garbage c xs freed)
unfolding garbage
garbage-append c [] ys freed = refl
garbage-append c (x ∷ xs) ys freed = garbage-append c xs ys _

pub mem-keep :
    (c : ℕ → Cell) (a : ℕ) (xs : List ℕ) → has a (keep c xs) ≡ (has a xs && is_marked (c a))
unfolding keep
mem-keep c a [] = refl
mem-keep c a (x ∷ xs) = elim (Bool-cases (a == x)) [
  | inl e ↦
      let same : a ≡ x = (==_iff a x).0 e in
      elim (Bool-cases (is_marked (c x))) [
        | inl m ↦ rw (same, m) (ground arith)
        | inr un ↦ rw (same, un, mem-keep c x xs, un) (ground arith)
      ]
  | inr ne ↦ elim (Bool-cases (is_marked (c x))) [
    | inl m ↦ rw (m, ne) (mem-keep c a xs)
    | inr un ↦ rw (un, ne) (mem-keep c a xs)
  ]
]

pub length-keep : (c : ℕ → Cell) (xs : List ℕ) → length (keep c xs) ≤ length xs
unfolding keep
length-keep c [] = omega arith
length-keep c (x ∷ xs) = ground (arith, length-keep c xs)

keep-Distinct : (c : ℕ → Cell) (xs : List ℕ) → Distinct xs → Distinct (keep c xs)
unfolding keep
keep-Distinct c [] d = tt
keep-Distinct c (x ∷ xs) d = elim (Bool-cases (is_marked (c x))) [
  | inl m ↦ rw m (ground (arith, mem-keep c x xs), keep-Distinct c xs d.1)
  | inr un ↦ rw un (keep-Distinct c xs d.1)
]

pub Distinct-parts :
    (xs ys : List ℕ) → Distinct (xs ++ ys) → Distinct xs × Distinct ys × ((a : ℕ) → a ∈ ys → a ∉ xs)
Distinct-parts [] ys d = (tt, d, λ a m. refl)
Distinct-parts (x ∷ xs) ys d =
    let (dx, dy, apart) = Distinct-parts xs ys d.1 in
    let out = has-append x xs ys in
    (
      (ground arith, dx),
      dy,
      λ a m. elim (Bool-cases (a == x)) [
        | inl e ↦
            let x_in : x ∈ ys = subst (λ b. b ∈ ys) ((==_iff a x).0 e) m in absurd (ground arith)
        | inr ne ↦ ground (arith, apart a)
      ],
    )

-- The chains below index `n` have been swept.
pub record SweptBelow (n : ℕ) (g g' : Gc) : Type 0 where
  pub chains : (i : ℕ) → i < n → g'.allocs i ≡ keep g.cell (g.allocs i)
  pub above : (i : ℕ) → n ≤ i → g'.allocs i ≡ g.allocs i
  pub capacity : g'.capacity ≡ g.capacity
  pub limit : g'.sweep_limit ≡ g.sweep_limit
  pub bos : g'.bos ≡ g.bos
  pub array : g'.table ≡ g.table
  pub freed : g'.freed ≡ garbage g.cell (collect g.allocs n) g.freed
  pub count :
      length (collect g.allocs n) + g'.size ≡ g.size + length (keep g.cell (collect g.allocs n))
  pub total :
      g'.gc_cnt + length (keep g.cell (collect g.allocs n)) ≡ g.gc_cnt + length (collect g.allocs n)
  pub cells : Cleared (collect g.allocs n) g.cell g'.cell

Cleared-append :
    (xs ys : List ℕ) (c d e : ℕ → Cell) → Cleared xs c d → Cleared ys d e → Cleared (xs ++ ys) c e
Cleared-append xs ys c d e s t = record {
  place = λ b. t.place b ∙ s.place b;
  extent = λ b. t.extent b ∙ s.extent b;
  clean = λ b m. elim (Bool-cases (has b ys)) [
    | inl later ↦ t.clean b later
    | inr first ↦ rw (t.others b first) (s.clean b (ground (arith, has-append b xs ys)))
  ];
  others = λ b out.
      let apart = has-append b xs ys in t.others b (ground arith) ∙ s.others b (ground arith);
}

next_chain :
    (n : ℕ) (g h g' : Gc)
    → ((a : ℕ) → a ∈ g.allocs n → a ∉ collect g.allocs n)
    → SweptBelow n g h
    → Swept n [] (h.allocs n) h g'
    → SweptBelow (suc n) g g'
unfolding collect
next_chain n g h g' apart s t =
    let chain : h.allocs n ≡ g.allocs n = s.above n (omega arith) in
    let same : (b : ℕ) → b ∈ g.allocs n → h.cell b ≡ g.cell b =
      λ b m. s.cells.others b (apart b m) in
    let kept : keep h.cell (h.allocs n) ≡ keep g.cell (g.allocs n) =
      ap (keep h.cell) chain ∙ keep-same g.cell h.cell (g.allocs n) same in
    let xs : List ℕ = collect g.allocs n in
    let ys : List ℕ = g.allocs n in
    let long = length-append xs ys in
    let long_kept =
      ap length (keep-append g.cell xs ys) ∙ length-append (keep g.cell xs) (keep g.cell ys) in
    record {
      chains = λ i below. elim (Bool-cases (i == n)) [
        | inl e ↦ rw ((==_iff i n).0 e) (t.chain ∙ kept)
        | inr ne ↦ t.elsewhere i ne ∙ s.chains i (ground arith)
      ];
      above = λ i le. t.elsewhere i (ground arith) ∙ s.above i (omega arith);
      capacity = t.capacity ∙ s.capacity;
      limit = t.limit ∙ s.limit;
      bos = t.bos ∙ s.bos;
      array = t.array ∙ s.array;
      freed =
          t.freed
          ∙ (ap (λ l. garbage h.cell l h.freed) chain
              ∙ garbage-same g.cell h.cell ys h.freed same
              ∙ ap (garbage g.cell ys) s.freed
              ∙ sym (garbage-append g.cell xs ys g.freed));
      count = omega (arith, s.count, t.count, ap length kept, ap length chain, long, long_kept);
      total = omega (arith, s.total, t.total, ap length kept, ap length chain, long, long_kept);
      cells = Cleared-append xs ys g.cell h.cell g'.cell s.cells (rw chain at t.cells);
    }

sweep_chains-SweptBelow :
    (n : ℕ) (g : Gc)
    → ((i a : ℕ) → i < n → a ∈ g.allocs i → index_of g.capacity (g.cell a).p ≡ i)
    → Distinct (collect g.allocs n)
    → length (collect g.allocs n) ≤ g.size
    → g.size < 2 ^ 64
    → (g' : Gc) × (sweep_chains n g ≡ some g') × SweptBelow n g g'
unfolding sweep_chains collect garbage keep
sweep_chains-SweptBelow zero g placed distinct few small = (
  g,
  refl,
  record {
    chains = λ i h. absurd (omega arith);
    above = λ i h. refl;
    capacity = refl;
    limit = refl;
    bos = refl;
    array = refl;
    freed = refl;
    count = omega arith;
    total = omega arith;
    cells = record {
      place = λ b. refl;
      extent = λ b. refl;
      clean = λ b m. cc;
      others = λ b o. refl;
    };
  },
)
sweep_chains-SweptBelow (suc n) g placed distinct few small =
    let xs : List ℕ = collect g.allocs n in
    let ys : List ℕ = g.allocs n in
    let (dx, dy, apart) = Distinct-parts xs ys distinct in
    let long = length-append xs ys in
    let (h, run, s) =
      sweep_chains-SweptBelow n g (λ i a below m. placed i a (omega arith) m) dx (omega arith)
        small in
    let chain : h.allocs n ≡ ys = s.above n (omega arith) in
    let fewer = length-keep g.cell xs in
    let (g', run', t) =
      sweep_chain-Swept n [] (h.allocs n) h refl
        (λ a m. rw (s.capacity, s.cells.place a) (placed n a (omega arith) (rw chain at m)))
        (rw chain dy) (omega (arith, ap length chain, s.count)) (omega (arith, s.count)) in
    (g', rw (run) run', next_chain n g h g' apart s t)

collect-keep :
    (c : ℕ → Cell) (allocs allocs' : ℕ → List ℕ) (n : ℕ)
    → ((i : ℕ) → i < n → allocs' i ≡ keep c (allocs i))
    → collect allocs' n ≡ keep c (collect allocs n)
unfolding collect keep
collect-keep c allocs allocs' zero same = refl
collect-keep c allocs allocs' (suc n) same = rw (
  collect-keep c allocs allocs' n (λ i h. same i (omega arith)),
  same n (omega arith),
  keep-append,
)

-- What a sweep of the whole table that takes `g` to `g'` has done.
pub record SweptTable (g g' : Gc) : Type 0 where
  pub kept : tracked g' ≡ keep g.cell (tracked g)
  pub freed : g'.freed ≡ garbage g.cell (tracked g) g.freed
  pub total : g'.gc_cnt + length (keep g.cell (tracked g)) ≡ g.gc_cnt + length (tracked g)
  pub table : IsTable g'
  pub clear : IsClear g'
  pub capacity : g'.capacity ≡ g.capacity
  pub array : g'.table ≡ g.table
  pub place : (a : ℕ) → (g'.cell a).p ≡ (g.cell a).p
  pub extent : (a : ℕ) → size_of (g'.cell a) ≡ size_of (g.cell a)

-- The loop of `gc_sweep` over a table in order ends. It keeps exactly the marked blocks, in their
-- order, clears every mark, gives exactly the unmarked blocks to `free`, each after its memory, and
-- leaves a table in order; the number of freed blocks is counted.
pub sweep_chains-SweptTable :
    (g : Gc) → IsTable g → (g' : Gc) × (sweep_chains g.capacity g ≡ some g') × SweptTable g g'
sweep_chains-SweptTable g t =
    let (g', run, s) =
      sweep_chains-SweptBelow g.capacity g t.placed t.distinct (omega (arith, t.counted)) t.word in
    let kept : tracked g' ≡ keep g.cell (tracked g) =
      ap (collect g'.allocs) s.capacity
      ∙ collect-keep g.cell g.allocs g'.allocs g.capacity s.chains in
    (
      g',
      run,
      record {
        kept = kept;
        freed = s.freed;
        total = s.total;
        table = record {
          array = rw s.array t.array;
          positive = rw s.capacity t.positive;
          placed = λ i a below m.
              let below' : i < g.capacity = rw s.capacity at below in
              let in_kept : a ∈ keep g.cell (g.allocs i) =
                subst (λ l. a ∈ l) (s.chains i below') m in
              rw (s.capacity, s.cells.place a)
                (t.placed i a below' (ground (arith, mem-keep g.cell a (g.allocs i))));
          distinct = rw kept (keep-Distinct g.cell (tracked g) t.distinct);
          counted = omega (arith, s.count, t.counted, ap length kept);
          word = omega (arith, s.count, t.counted, t.word, length-keep g.cell (tracked g));
        };
        clear = λ a m.
            let in_kept : a ∈ keep g.cell (tracked g) = subst (λ l. a ∈ l) kept m in
            s.cells.clean a (ground (arith, mem-keep g.cell a (tracked g)));
        capacity = s.capacity;
        array = s.array;
        place = s.cells.place;
        extent = s.cells.extent;
      },
    )
