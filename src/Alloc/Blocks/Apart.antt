-- ===== src/Alloc/Blocks/Apart.antt =====
-- Work on one span leaves the blocks of the others alone.
use rmm.Base.{
  ℕ, ◌+◌, ◌≤◌, ◌<◌, ◌≡◌, ◌⊎◌, sym, subst, ap, arith, List, [], ◌∷◌, All, All-mono, All-append,
  All_at, not-mem_of_All,
}
use rmm.ListHead.Chain.{IsRing-frame, SameOutside}
use rmm.SizeClass.{class_size}
use rmm.SizeClass.BestFit.{class_size_bounds}
use rmm.Alloc.{State, ok, span_size, blk_list}
use rmm.Alloc.Blocks.{get_blk}
use rmm.Alloc.Blocks.Layout.{IsBlock, blk_bounds}
use rmm.Alloc.Blocks.Invariant.{Holds, IsSpan, get_blk-bump, get_blk-freed}

-- Two spans do not overlap.
abbrev pub Apart : (p q : ℕ) → Type 0
Apart p q = (p + span_size ≤ q) ⊎ (q + span_size ≤ p)

-- The address is in the span at `p`.
abbrev pub Within : (p c : ℕ) → Type 0
Within p c = (p ≤ c) × (c < p + span_size)

-- The list of freed blocks lies in the span.
pub frees-Within :
    (s : State) (p used : ℕ) (frees lives : List ℕ)
    → IsSpan s p used frees lives
    → All (Within p) (blk_list p ∷ frees)
frees-Within s p used frees lives inv =
    let sz : ℕ = class_size (s.span p).cls in
    let bounds = class_size_bounds (s.span p).cls inv.known in
    let blocks = ((All-append (IsBlock p sz used) frees lives).0 inv.blocks).0 in
    (
      (omega arith, omega arith),
      All-mono frees
          (λ c b.
            let (lo, hi) = blk_bounds p sz b.index (omega (arith, b.below, inv.room)) in
            (omega (arith, lo, b.place), omega (arith, hi, b.place, bounds)))
          blocks,
    )

-- The span at `p` is as it was when another span's header and links in it were written.
pub IsSpan-elsewhere :
    (s t : State) (p q used : ℕ) (frees lives cs : List ℕ)
    → IsSpan s p used frees lives
    → Apart p q
    → t.span p ≡ s.span p
    → SameOutside cs s.links t.links
    → All (Within q) cs
    → IsSpan t p used frees lives
IsSpan-elsewhere s t p q used frees lives cs inv apart same_header same within =
    let place = frees-Within s p used frees lives inv in
    subst (λ h. Holds h t.links p used frees lives) (sym same_header)
      (record {
        known = inv.known;
        size = inv.size;
        blocks = inv.blocks;
        distinct = inv.distinct;
        bump = inv.bump;
        room = inv.room;
        carved = inv.carved;
        count = inv.count;
        ring =
            IsRing-frame s.links t.links (blk_list p) frees cs same
              (λ c i. not-mem_of_All c cs within (λ b at e.
                let here = All_at (Within p) c (blk_list p ∷ frees) place i in
                absurd (omega (arith, at, e, here, apart))))
              inv.ring;
      })

-- `get_blk` writes to links in its own span only.
pub get_blk-links :
    (s : State) (p used a : ℕ) (frees lives : List ℕ) (t : State)
    → IsSpan s p used frees lives
    → 0 < (s.span p).free_cnt
    → get_blk p s ≡ ok a t
    → SameOutside (blk_list p ∷ frees) s.links t.links
get_blk-links s p used a [] lives t inv pos run =
    let (t', run', _, same, _) = get_blk-bump s p used lives inv pos in
    let e : t' ≡ t = cc (run, run') in
    subst (λ u. SameOutside (blk_list p ∷ []) s.links u.links) e
      (λ c out. (ap (λ l. l.next c) same, ap (λ l. l.prev c) same))
get_blk-links s p used a (x ∷ frees) lives t inv pos run =
    let (t', run', _, same, _) = get_blk-freed s p used x frees lives inv pos in
    let e : t' ≡ t = cc (run, run') in
    subst (λ u. SameOutside (blk_list p ∷ x ∷ frees) s.links u.links) e same
