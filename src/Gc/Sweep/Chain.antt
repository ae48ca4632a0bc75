-- ===== src/Gc/Sweep/Chain.antt =====
-- The sweep of one chain of the hash table.
use rmm.Base.{
  ℕ, ◌+◌, ◌^◌, ◌≤◌, ◌<◌, ◌≡◌, refl, sym, ◌∙◌, ap, inl, inr, arith, some, List, [], ◌∷◌, ◌++◌, ◌∈◌,
  ◌∉◌, has, has-append, ◌==◌, true, false, Bool-cases, ==_iff, if◌then◌else◌, length, Distinct,
  Distinct-middle, update, ne_of_mem, subst, update_self, update_other,
}
use mathlib.Core.List.{append_assoc}
use rmm.Gc.{Gc, Cell, is_marked, size_of, clear_cell, index_of}
use rmm.Gc.Sweep.{unlink, gc_free_alloc, sweep_chain, dec64}

-- The marked blocks of a chain, in order.
unfoldable pub keep : (ℕ → Cell) → List ℕ → List ℕ
keep cell [] = []
keep cell (a ∷ chain) = if is_marked (cell a) then a ∷ keep cell chain else keep cell chain

-- What has been given to `free` after the unmarked blocks of a chain: of each its memory, and then
-- its `alloc_t`.
unfoldable pub garbage : (ℕ → Cell) → List ℕ → List ℕ → List ℕ
garbage cell [] freed = freed
garbage cell (a ∷ chain) freed =
    garbage cell chain (if is_marked (cell a) then freed else a ∷ (cell a).p ∷ freed)

-- Clearing the marks of the blocks `swept`, and nothing else.
pub record Cleared (swept : List ℕ) (c d : ℕ → Cell) : Type 0 where
  pub place : (b : ℕ) → (d b).p ≡ (c b).p
  pub extent : (b : ℕ) → size_of (d b) ≡ size_of (c b)
  pub clean : (b : ℕ) → b ∈ swept → is_marked (d b) ≡ false
  pub others : (b : ℕ) → b ∉ swept → d b ≡ c b

pub keep-same :
    (c d : ℕ → Cell) (chain : List ℕ)
    → ((b : ℕ) → b ∈ chain → d b ≡ c b)
    → keep d chain ≡ keep c chain
unfolding keep
keep-same c d [] same = refl
keep-same c d (a ∷ chain) same =
    rw (same a (ground arith), keep-same c d chain (λ b m. same b (ground arith)))

pub garbage-same :
    (c d : ℕ → Cell) (chain freed : List ℕ)
    → ((b : ℕ) → b ∈ chain → d b ≡ c b)
    → garbage d chain freed ≡ garbage c chain freed
unfolding garbage
garbage-same c d [] freed same = refl
garbage-same c d (a ∷ chain) freed same =
    rw (same a (ground arith)) (garbage-same c d chain _ (λ b m. same b (ground arith)))

unlink_lem : (a : ℕ) (pre rest : List ℕ) → a ∉ pre → unlink a (pre ++ a ∷ rest) ≡ pre ++ rest
unfolding unlink
unlink_lem a [] rest out = let e : (a == a) ≡ true = ground arith in rw e
unlink_lem a (x ∷ pre) rest out =
    let e : (x == a) ≡ false = ground arith in rw (e, unlink_lem a pre rest (ground arith))

-- A block that is at its place in the table is freed: it leaves its chain, and is counted.
pub gc_free_alloc_lem :
    (g : Gc) (i a : ℕ) (pre rest : List ℕ)
    → index_of g.capacity (g.cell a).p ≡ i
    → g.allocs i ≡ pre ++ a ∷ rest
    → a ∉ pre
    → gc_free_alloc a g
      ≡ some (record g {
        allocs = update g.allocs i (pre ++ rest);
        freed = a ∷ (g.cell a).p ∷ g.freed;
        size = dec64 g.size;
        gc_cnt = g.gc_cnt + 1;
      })
unfolding gc_free_alloc
gc_free_alloc_lem g i a [] rest at_i chain out = rw (at_i, chain, unlink_lem a [] rest out)
gc_free_alloc_lem g i a (x ∷ pre) rest at_i chain out =
    rw (at_i, chain, unlink_lem a (x ∷ pre) rest out)

-- The chain of index `i` was `pre ++ rest`, and the sweep went over `rest`.
pub record Swept (i : ℕ) (pre rest : List ℕ) (g g' : Gc) : Type 0 where
  pub chain : g'.allocs i ≡ pre ++ keep g.cell rest
  pub elsewhere : (j : ℕ) → (j == i) ≡ false → g'.allocs j ≡ g.allocs j
  pub capacity : g'.capacity ≡ g.capacity
  pub limit : g'.sweep_limit ≡ g.sweep_limit
  pub bos : g'.bos ≡ g.bos
  pub array : g'.table ≡ g.table
  pub freed : g'.freed ≡ garbage g.cell rest g.freed
  pub count : length rest + g'.size ≡ g.size + length (keep g.cell rest)
  pub total : g'.gc_cnt + length (keep g.cell rest) ≡ g.gc_cnt + length rest
  pub cells : Cleared rest g.cell g'.cell

clear_place : (a b : ℕ) (c : ℕ → Cell) → (update c a (clear_cell (c a)) b).p ≡ (c b).p
clear_place a b c = ground arith

clear_size : (c : Cell) → size_of (clear_cell c) ≡ size_of c
clear_size c = omega arith

clear_clean : (c : Cell) → is_marked (clear_cell c) ≡ false
clear_clean c = ground arith

clear_extent : (a b : ℕ) (c : ℕ → Cell) → size_of (update c a (clear_cell (c a)) b) ≡ size_of (c b)
clear_extent a b c = elim (Bool-cases (b == a)) [
  | inl e ↦ rw e (rw ((==_iff b a).0 e) (clear_size (c a)))
  | inr ne ↦ rw ne
]

Cleared-cons :
    (a : ℕ) (rest : List ℕ) (c d : ℕ → Cell)
    → a ∉ rest
    → Cleared rest (update c a (clear_cell (c a))) d
    → Cleared (a ∷ rest) c d
Cleared-cons a rest c d out s =
    let cleared = update c a (clear_cell (c a)) in
    record {
      place = λ b. s.place b ∙ clear_place a b c;
      extent = λ b. s.extent b ∙ clear_extent a b c;
      clean = λ b m. elim (Bool-cases (has b rest)) [
        | inl later ↦ s.clean b later
        | inr first ↦
            let e : b ≡ a = ground arith in
            rw (e, s.others a out, update_self c a (clear_cell (c a))) (clear_clean (c a))
      ];
      others =
          λ b o. s.others b (ground arith) ∙ update_other c a b (clear_cell (c a)) (ground arith);
    }

-- A marked block stays where it is, with its mark cleared.
keep_one :
    (i a : ℕ) (pre rest : List ℕ) (g g' : Gc)
    → is_marked (g.cell a) ≡ true
    → a ∉ rest
    → Swept i (pre ++ a ∷ []) rest (record g { cell = update g.cell a (clear_cell (g.cell a)) }) g'
    → Swept i pre (a ∷ rest) g g'
unfolding keep garbage
keep_one i a pre rest g g' marked out s =
    let cleared = update g.cell a (clear_cell (g.cell a)) in
    let same : (b : ℕ) → b ∈ rest → cleared b ≡ g.cell b =
      λ b m. update_other g.cell a b (clear_cell (g.cell a)) (ne_of_mem a b rest m out) in
    let kept : keep cleared rest ≡ keep g.cell rest = keep-same g.cell cleared rest same in
    record {
      chain =
          rw marked
            (s.chain ∙ append_assoc pre (a ∷ []) (keep cleared rest) ∙ ap (λ l. pre ++ a ∷ l) kept);
      elsewhere = s.elsewhere;
      capacity = s.capacity;
      limit = s.limit;
      bos = s.bos;
      array = s.array;
      freed = rw marked (s.freed ∙ garbage-same g.cell cleared rest g.freed same);
      count = rw marked (omega (arith, s.count, ap length kept));
      total = rw marked (omega (arith, s.total, ap length kept));
      cells = Cleared-cons a rest g.cell g'.cell out s.cells;
    }

-- An unmarked block is freed.
drop_one :
    (i a : ℕ) (pre rest : List ℕ) (g g' : Gc)
    → is_marked (g.cell a) ≡ false
    → 0 < g.size
    → g.size < 2 ^ 64
    → Swept i pre rest
        (record g {
          allocs = update g.allocs i (pre ++ rest);
          freed = a ∷ (g.cell a).p ∷ g.freed;
          size = dec64 g.size;
          gc_cnt = g.gc_cnt + 1;
        })
        g'
    → Swept i pre (a ∷ rest) g g'
unfolding keep garbage
drop_one i a pre rest g g' un pos small s = record {
  chain = rw un s.chain;
  elsewhere = λ j ne. s.elsewhere j ne ∙ update_other g.allocs i j (pre ++ rest) ne;
  capacity = s.capacity;
  limit = s.limit;
  bos = s.bos;
  array = s.array;
  freed = rw un s.freed;
  count = rw un (omega (arith, s.count));
  total = rw un (omega (arith, s.total));
  cells = record {
    place = s.cells.place;
    extent = s.cells.extent;
    clean = λ b m. elim (Bool-cases (has b rest)) [
      | inl later ↦ s.cells.clean b later
      | inr first ↦
          let e : b ≡ a = ground arith in
          rw e (subst (λ c. is_marked c ≡ false) (sym (s.cells.others a (rw e at first))) un)
    ];
    others = λ b out. s.cells.others b (ground arith);
  };
}

-- The sweep of a chain whose blocks are at their place keeps the marked ones in their order, with
-- their marks cleared, and frees the others.
pub sweep_chain-Swept :
    (i : ℕ) (pre rest : List ℕ) (g : Gc)
    → g.allocs i ≡ pre ++ rest
    → ((a : ℕ) → a ∈ rest → index_of g.capacity (g.cell a).p ≡ i)
    → Distinct (pre ++ rest)
    → length rest ≤ g.size
    → g.size < 2 ^ 64
    → (g' : Gc) × (sweep_chain rest g ≡ some g') × Swept i pre rest g g'
unfolding sweep_chain keep garbage
sweep_chain-Swept i pre [] g chain placed distinct few small = (
  g,
  refl,
  record {
    chain = chain;
    elsewhere = λ j ne. refl;
    capacity = refl;
    limit = refl;
    bos = refl;
    array = refl;
    freed = refl;
    count = omega arith;
    total = omega arith;
    cells = record {
      place = λ b. refl;
      extent = λ b. refl;
      clean = λ b m. cc;
      others = λ b o. refl;
    };
  },
)
sweep_chain-Swept i pre (a ∷ rest) g chain placed distinct few small =
    let (alone, _) = (Distinct-middle a pre rest).0 distinct in
    let apart = has-append a pre rest in
    elim (Bool-cases (is_marked (g.cell a))) [
      | inl marked ↦
          let h : Gc = record g { cell = update g.cell a (clear_cell (g.cell a)) } in
          let (g', run, s) =
            sweep_chain-Swept i (pre ++ a ∷ []) rest h
              (chain ∙ sym (append_assoc pre (a ∷ []) rest))
              (λ b m.
                rw
                  (update_other g.cell a b (clear_cell (g.cell a))
                    (ne_of_mem a b rest m (ground arith)))
                  (placed b (ground arith)))
              (rw append_assoc distinct) (omega arith) small in
          (g', rw (marked, sweep_chain) run, keep_one i a pre rest g g' marked (ground arith) s)
      | inr un ↦
          let h : Gc = record g {
            allocs = update g.allocs i (pre ++ rest);
            freed = a ∷ (g.cell a).p ∷ g.freed;
            size = dec64 g.size;
            gc_cnt = g.gc_cnt + 1;
          } in
          let freed =
            gc_free_alloc_lem g i a pre rest (placed a (ground arith)) chain (ground arith) in
          let (g', run, s) =
            sweep_chain-Swept i pre rest h (update_self g.allocs i (pre ++ rest))
              (λ b m. placed b (ground arith)) ((Distinct-middle a pre rest).0 distinct).1
              (omega arith) (omega arith) in
          (g', rw (un, sweep_chain, freed) run, drop_one i a pre rest g g' un (omega arith) small s)
    ]
