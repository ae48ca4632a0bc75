-- ===== src/Gc/Calls/Malloc.antt =====
-- `gc_malloc`, `gc_calloc` and `gc_realloc` of src/wlgc.c on a table in order.
use native.Mathlib.Nat.{pow-suc, mul_assoc}
use rmm.Base.{
  ℕ, suc, ◌+◌, ◌*◌, ◌/◌, ◌%◌, ◌^◌, ◌≤◌, ◌<◌, ◌≡◌, ◌≢◌, refl, ap, ◌∙◌, inl, inr, arith, Option, none,
  some, List, ◌∈◌, ◌∉◌, ◌||◌, has, ◌==◌, ==_iff, Bool-cases, false,
}
use rmm.Gc.{Gc, Libc, alloc_bytes, search, size_of, register_alloc, gc_need_collect}
use rmm.Gc.Table.{IsTable, IsClear, tracked}
use rmm.Gc.Insert.{register_alloc-Registered}
use rmm.Gc.Mark.Exact.{IsLive}
use rmm.Gc.Sweep.Exact.{RoomToGrow, gc_collect-Collected}
use rmm.Gc.Calls.{Roots, collect_if_needed, track, roundup8, gc_malloc, gc_calloc, gc_realloc}

-- The state of the collector between two calls.
pub record IsGood (g : Gc) : Type 0 where
  pub table : IsTable g
  pub clear : IsClear g
  pub exponent : ℕ
  pub power : g.capacity ≡ 2 ^ exponent

-- No live block was lost on the way from `g` to `h`, and no other block has come.
pub record Kept (r : Roots) (g h : Gc) : Type 0 where
  pub live : (a : ℕ) → a ∈ tracked g → IsLive r.word r.tos g a → a ∈ tracked h
  pub none_new : (a : ℕ) → a ∈ tracked h → a ∈ tracked g
  pub place : (a : ℕ) → (h.cell a).p ≡ (g.cell a).p
  pub extent : (a : ℕ) → size_of (h.cell a) ≡ size_of (g.cell a)
  pub fewer : h.size ≤ g.size

collect_if_needed-Kept :
    (libc : Libc) (r : Roots) (g : Gc)
    → IsGood g
    → RoomToGrow libc g
    → (h : Gc) × (collect_if_needed libc r g ≡ some h) × IsGood h × Kept r g h
unfolding collect_if_needed
collect_if_needed-Kept libc r g good room = elim (Bool-cases (gc_need_collect g)) [
  | inr idle ↦ (
    g,
    rw idle,
    good,
    record {
      live = λ a m path. m;
      none_new = λ a m. m;
      place = λ a. refl;
      extent = λ a. refl;
      fewer = omega arith;
    },
  )
  | inl needed ↦
      let (h, run, c) =
        gc_collect-Collected libc r.word r.tos g good.exponent good.table good.clear good.power
          room in
      (
        h,
        rw needed run,
        elim c.capacity [
          | inl same ↦ record {
            table = c.table;
            clear = c.clear;
            exponent = good.exponent;
            power = same ∙ good.power;
          }
          | inr twice ↦ record {
            table = c.table;
            clear = c.clear;
            exponent = suc good.exponent;
            power = omega (arith, twice, good.power, pow-suc 2 good.exponent);
          }
        ],
        record {
          live = λ a m path. (c.kept a m).1 path;
          none_new = c.none_new;
          place = c.place;
          extent = c.extent;
          fewer = c.fewer;
        },
      )
]

-- The next call of the system's allocator has memory for an `alloc_t`, and does not give out the
-- address of a tracked one.
pub record Gives (libc : Libc) (g : Gc) : Type 0 where
  pub some_memory : libc.malloc g.calls alloc_bytes ≢ 0
  pub fresh : libc.malloc g.calls alloc_bytes ∉ tracked g

-- So it is after the collection, if there is one, and the call for the block itself. The `alloc_t`s
-- that the collection has freed may be given out again.
abbrev pub GivesAfter : Libc → Roots → Gc → Type 0
GivesAfter libc r g =
    (h : Gc) → collect_if_needed libc r g ≡ some h → Gives libc (record h { calls = h.calls + 1 })

-- A call got `ret` from the system when the blocks `before` were tracked, and ended in `g'`: with memory, the new block is
-- tracked beside the others, and `search` finds it; without, the table is as it was.
pub data Tracks (ret : ℕ) (before : List ℕ) (g' : Gc) : Type 0 where
  no_memory : ret ≡ 0 → tracked g' ≡ before → Tracks ret before g'
  tracked_as :
      (a : ℕ)
      → ret ≢ 0
      → search g' ret ≡ some a
      → ((x : ℕ) → has x (tracked g') ≡ ((x == a) || has x before))
      → Tracks ret before g'

track-Tracks :
    (libc : Libc) (ret sz : ℕ) (h : Gc)
    → IsGood h
    → sz % 2 ≡ 0
    → h.size + 1 < 2 ^ 64
    → Gives libc h
    → (g' : Gc) × (track libc ret sz h ≡ some (ret, g')) × IsGood g' × Tracks ret (tracked h) g'
unfolding track register_alloc
track-Tracks libc ret sz h good even small gives = elim (Bool-cases (ret == 0)) [
  | inl null ↦ (h, rw (track, register_alloc, null), good, no_memory ((==_iff ret 0).0 null) refl)
  | inr there ↦
      let some_ret : ret ≢ 0 = λ e. cc ((==_iff ret 0).1 e, there) in
      let (g', run, s) =
        register_alloc-Registered libc ret sz h good.table good.clear some_ret gives.some_memory
          gives.fresh even small in
      (
        g',
        rw (track, run),
        record {
          table = s.table;
          clear = s.clear;
          exponent = good.exponent;
          power = s.capacity ∙ good.power;
        },
        tracked_as (libc.malloc h.calls alloc_bytes) some_ret s.found s.members,
      )
]

pub called-IsGood : (h : Gc) (n : ℕ) → IsGood h → IsGood (record h { calls = n })
called-IsGood h n good = record {
  table = record {
    array = good.table.array;
    positive = good.table.positive;
    placed = good.table.placed;
    distinct = good.table.distinct;
    counted = good.table.counted;
    word = good.table.word;
  };
  clear = good.clear;
  exponent = good.exponent;
  power = good.power;
}

-- What a call that starts from `g` does: it may collect, which leads to `h`, then gets `answer` from
-- the system, and ends in `g'`, which the table is in order in.
pub record Allocates (r : Roots) (g : Gc) (answer : ℕ → ℕ) (result : Option (ℕ × Gc)) : Type 0 where
  pub h : Gc
  pub g' : Gc
  pub run : result ≡ some (answer h.calls, g')
  pub good : IsGood g'
  pub kept : Kept r g h
  pub tracks : Tracks (answer h.calls) (tracked h) g'

abbrev allocate : Libc → Roots → (answer : ℕ → ℕ) → (sz : ℕ) → Gc → Option (ℕ × Gc)
allocate libc r answer sz g = elim (collect_if_needed libc r g) [
  | none ↦ none
  | some h ↦ track libc (answer h.calls) sz (record h { calls = h.calls + 1 })
]

allocate-Allocates :
    (libc : Libc) (r : Roots) (answer : ℕ → ℕ) (sz : ℕ) (g : Gc)
    → IsGood g
    → sz % 2 ≡ 0
    → g.size + 1 < 2 ^ 64
    → RoomToGrow libc g
    → GivesAfter libc r g
    → Allocates r g answer (allocate libc r answer sz g)
allocate-Allocates libc r answer sz g good even small room gives =
    let (h, run, good_h, kept) = collect_if_needed-Kept libc r g good room in
    let h' : Gc = record h { calls = h.calls + 1 } in
    let (g', run', good', tracks) =
      track-Tracks libc (answer h.calls) sz h' (called-IsGood h (h.calls + 1) good_h) even
        (omega (arith, kept.fewer)) (gives h run) in
    record {
      h = h;
      g' = g';
      run = rw (allocate, run) run';
      good = good';
      kept = kept;
      tracks = tracks;
    }

pub roundup8_even : (size : ℕ) → roundup8 size % 2 ≡ 0
unfolding roundup8
roundup8_even size = omega arith

product_even : (sz n : ℕ) → sz % 2 ≡ 0 → (sz * n) % 2 ^ 64 % 2 ≡ 0
product_even sz n even =
    let half : sz ≡ 2 * (sz / 2) = omega arith in
    let twice : sz * n ≡ 2 * (sz / 2 * n) = ap (λ x. x * n) half ∙ mul_assoc 2 (sz / 2) n in
    omega (arith, twice)

-- When the system has memory for a table of twice the size and for an `alloc_t`, then from a table in
-- order whose capacity is a power of two each of `gc_malloc`, `gc_calloc` and
-- `gc_realloc` of a size that is not 0 returns what the system answers, whether or not it collects:
-- no live block is lost, the new block is tracked, and the table is in order again.
pub gc_malloc-Allocates :
    (libc : Libc) (r : Roots) (ptr nmemb size : ℕ) (g : Gc)
    → IsGood g
    → nmemb ≢ 0
    → size ≢ 0
    → g.size + 1 < 2 ^ 64
    → RoomToGrow libc g
    → GivesAfter libc r g
    → Allocates r g (λ n. libc.malloc n (roundup8 size)) (gc_malloc libc r size g)
      × Allocates r g (λ n. libc.calloc n nmemb (roundup8 size)) (gc_calloc libc r nmemb size g)
      × Allocates r g (λ n. libc.realloc n ptr (roundup8 size)) (gc_realloc libc r ptr size g)
unfolding gc_malloc gc_calloc gc_realloc
gc_malloc-Allocates libc r ptr nmemb size g good some_nmemb some_size small room gives =
    let sized : (size == 0) ≡ false = ground arith in
    let counted : (nmemb == 0) ≡ false = ground arith in
    let sz : ℕ = roundup8 size in
    (
      rw sized (
          allocate-Allocates libc r (λ n. libc.malloc n sz) sz g good (roundup8_even size) small
            room gives),
      rw (counted, sized)
          (allocate-Allocates libc r (λ n. libc.calloc n nmemb sz) ((sz * nmemb) % 2 ^ 64) g good
            (product_even sz nmemb (roundup8_even size)) small room gives),
      rw sized (
          allocate-Allocates libc r (λ n. libc.realloc n ptr sz) sz g good (roundup8_even size)
            small room gives),
    )
