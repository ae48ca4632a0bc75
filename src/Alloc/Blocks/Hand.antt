-- ===== src/Alloc/Blocks/Hand.antt =====
-- `get_blk` hands out a block that nobody holds.
use rmm.Base.{
  All-append, ◌++◌, All-middle, Distinct-middle, ℕ, ◌+◌, ◌%◌, ◌≤◌, ◌<◌, ◌≡◌, arith, List, [], ◌∷◌,
  ◌∉◌, has-append,
}
use rmm.SizeClass.{class_size}
use rmm.SizeClass.BestFit.{class_size_bounds}
use rmm.Alloc.{State, ok, span_bytes, span_size, get_header}
use rmm.Alloc.Blocks.{get_blk}
use rmm.Alloc.Blocks.Layout.{IsBlock, blk_bounds, get_header_lem}
use rmm.Alloc.Blocks.Invariant.{IsSpan, OnlySpan, get_blk-bump, get_blk-freed}

-- What `get_blk` did on the span at `p`: it returned a block `a` that was not live, inside the span,
-- whose header `GET_HEADER` finds.
pub record Handed (s : State) (p : ℕ) (lives : List ℕ) (a : ℕ) (t : State) : Type 0 where
  pub used : ℕ
  pub frees : List ℕ
  pub span : IsSpan t p used frees (a ∷ lives)
  pub fresh : a ∉ lives
  pub above : p + span_bytes ≤ a
  pub fits : a + class_size (t.span p).cls ≤ p + span_size
  pub header : get_header a ≡ p
  pub only : OnlySpan p s t

pub block_inside :
    (t : State) (p used : ℕ) (frees lives : List ℕ) (a : ℕ)
    → IsSpan t p used frees (a ∷ lives)
    → (p + span_bytes ≤ a) × (a + class_size (t.span p).cls ≤ p + span_size) × (a ∉ lives)
block_inside t p used frees lives a inv =
    let sz : ℕ = class_size (t.span p).cls in
    let b : IsBlock p sz used a = ((All-middle (IsBlock p sz used) a frees lives).0 inv.blocks).0 in
    let (lo, hi) = blk_bounds p sz b.index (omega (arith, b.below, inv.room)) in
    let (out, _) = (Distinct-middle a frees lives).0 inv.distinct in
    (
      omega (arith, lo, b.place),
      omega (arith, hi, b.place),
      ground (arith, out, has-append a frees lives),
    )

-- `get_blk` on a span with free blocks returns one that is not live, inside the span; the span's
-- invariant holds again with that block live, and no other span's header changes.
pub get_blk-Handed :
    (s : State) (p used : ℕ) (frees lives : List ℕ)
    → p % span_size ≡ 0
    → IsSpan s p used frees lives
    → 0 < (s.span p).free_cnt
    → (a : ℕ) × (t : State) × (get_blk p s ≡ ok a t) × Handed s p lives a t
get_blk-Handed s p used [] lives aligned inv pos =
    let (t, run, after, _, only) = get_blk-bump s p used lives inv pos in
    let (lo, hi, out) = block_inside t p (used + 1) [] lives (s.span p).free_blk after in
    let wide = class_size_bounds (t.span p).cls after.known in
    (
      (s.span p).free_blk,
      t,
      run,
      record {
        used = used + 1;
        frees = [];
        span = after;
        fresh = out;
        above = lo;
        fits = hi;
        header = get_header_lem p _ aligned (omega arith) (omega arith);
        only = only;
      },
    )
get_blk-Handed s p used (b ∷ frees) lives aligned inv pos =
    let (t, run, after, _, only) = get_blk-freed s p used b frees lives inv pos in
    let (lo, hi, out) = block_inside t p used frees lives b after in
    let wide = class_size_bounds (t.span p).cls after.known in
    (
      b,
      t,
      run,
      record {
        used = used;
        frees = frees;
        span = after;
        fresh = out;
        above = lo;
        fits = hi;
        header = get_header_lem p _ aligned (omega arith) (omega arith);
        only = only;
      },
    )

-- The same of a live block anywhere among the live ones.
pub live_inside :
    (s : State) (p used : ℕ) (frees xs ys : List ℕ) (a : ℕ)
    → IsSpan s p used frees (xs ++ a ∷ ys)
    → (p + span_bytes ≤ a) × (a < p + span_size)
live_inside s p used frees xs ys a inv =
    let sz : ℕ = class_size (s.span p).cls in
    let wide = class_size_bounds (s.span p).cls inv.known in
    let (_, lives) = (All-append (IsBlock p sz used) frees (xs ++ a ∷ ys)).0 inv.blocks in
    let b : IsBlock p sz used a = ((All-middle (IsBlock p sz used) a xs ys).0 lives).0 in
    let (lo, hi) = blk_bounds p sz b.index (omega (arith, b.below, inv.room)) in
    (omega (arith, lo, b.place), omega (arith, hi, b.place))
