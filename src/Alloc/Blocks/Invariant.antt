-- ===== src/Alloc/Blocks/Invariant.antt =====
-- The invariant of a span: each of its first blocks is either free, on `blk_list`, or live, in a
-- caller's hands; the others have not been handed out yet.
use rmm.Base.{
  All-middle, Distinct-middle, update_self, update_other, ℕ, ◌+◌, ◌≤◌, ◌<◌, ◌≡◌, refl, arith, List,
  [], ◌∷◌, ◌++◌, ◌∉◌, ◌==◌, true, false, length, Distinct, All, All-mono, not-mem_of_All, update,
}
use rmm.ListHead.{Links, init_list_head, list_del, list_empty}
use rmm.ListHead.Chain.{IsRing, SameOutside}
use rmm.ListHead.Insert.{init_list_head_lem}
use rmm.ListHead.Remove.{list_del_lem, list_empty_iff}
use rmm.ListHead.Splice.{not-empty}
use rmm.SizeClass.{class_size, default_class_num}
use rmm.SizeClass.BestFit.{class_size_bounds}
use rmm.Alloc.{State, Span, ok, span_bytes, blk_list}
use rmm.Alloc.Blocks.{span_init, get_blk, blk_cnt, dec32}
use rmm.Alloc.Blocks.Layout.{blk, blk_step, blk-le, IsBlock, IsBlock-mono}

-- `h` is the header of a span at `p`. `used` blocks have been handed out at some time; `frees`
-- are back.
pub record Holds (h : Span) (l : Links) (p used : ℕ) (frees lives : List ℕ) : Type 0 where
  pub known : h.cls < default_class_num
  pub size : h.blk_size ≡ class_size h.cls
  pub ring : IsRing l (blk_list p) frees
  pub blocks : All (IsBlock p (class_size h.cls) used) (frees ++ lives)
  pub distinct : Distinct (frees ++ lives)
  pub bump : h.free_blk ≡ blk p (class_size h.cls) used
  pub room : used ≤ blk_cnt (class_size h.cls)
  pub carved : length frees + length lives ≡ used
  pub count : h.free_cnt + length lives ≡ blk_cnt (class_size h.cls)

abbrev pub IsSpan : State → (p used : ℕ) → (frees lives : List ℕ) → Type 0
IsSpan s p = Holds (s.span p) s.links p

-- The spans other than the one at `p` keep their headers, and everything but spans and links stays.
pub record OnlySpan (p : ℕ) (s t : State) : Type 0 where
  pub others : (q : ℕ) → (q == p) ≡ false → t.span q ≡ s.span q
  pub using : t.using ≡ s.using
  pub pool : t.pool ≡ s.pool
  pub locked : t.locked ≡ s.locked
  pub bytes : t.bytes ≡ s.bytes
  pub thread_state : t.thread_state ≡ s.thread_state

-- `span_init` makes a span of the class with all its blocks free, none of them handed out yet.
pub span_init-IsSpan :
    (s : State) (p cls : ℕ)
    → cls < default_class_num
    → (t : State) × (span_init p cls s ≡ ok tt t)
      × IsSpan t p 0 [] []
      × ((t.span p).cls ≡ cls)
      × ((t.span p).owner ≡ (s.span p).owner)
      × SameOutside (blk_list p ∷ []) s.links t.links
      × OnlySpan p s t
unfolding span_init blk
span_init-IsSpan s p cls h =
    let lists = init_list_head_lem s.links (blk_list p) in
    let new : Span = record (s.span p) {
      cls = cls;
      blk_size = class_size cls;
      free_cnt = blk_cnt (class_size cls);
      free_blk = p + span_bytes;
    } in
    let at_p = update_self s.span p new in
    (
      record s { span = update s.span p new; links = init_list_head (blk_list p) s.links },
      refl,
      rw at_p (record {
        known = h;
        size = refl;
        ring = lists.0;
        blocks = tt;
        distinct = tt;
        bump = omega arith;
        room = omega arith;
        carved = refl;
        count = omega arith;
      }),
      rw at_p,
      rw at_p,
      lists.1,
      record {
        others = λ q ne. update_other s.span p q new ne;
        using = refl;
        pool = refl;
        locked = refl;
        bytes = refl;
        thread_state = refl;
      },
    )

pub blk_cnt_small : (sz : ℕ) → blk_cnt sz ≤ 16384
blk_cnt_small sz = omega arith

-- An address that is not among the carved blocks.
new_block : (p sz used : ℕ) (xs : List ℕ) → 0 < sz → All (IsBlock p sz used) xs → blk p sz used ∉ xs
new_block p sz used xs pos h =
    not-mem_of_All (blk p sz used) xs h
      λ b is. λ e. absurd (omega (arith, blk-le p sz is.index used is.below, is.place))

-- `get_blk` on a span without freed blocks takes the next block that was never handed out.
pub get_blk-bump :
    (s : State) (p used : ℕ) (lives : List ℕ)
    → IsSpan s p used [] lives
    → 0 < (s.span p).free_cnt
    → (t : State) × (get_blk p s ≡ ok (s.span p).free_blk t)
      × IsSpan t p (used + 1) [] ((s.span p).free_blk ∷ lives)
      × (t.links ≡ s.links)
      × OnlySpan p s t
unfolding get_blk
get_blk-bump s p used lives inv pos =
    let empty : list_empty (blk_list p) s.links ≡ true =
      (list_empty_iff s.links (blk_list p) [] inv.ring).1 refl in
    let sz : ℕ = class_size (s.span p).cls in
    let bounds = class_size_bounds (s.span p).cls inv.known in
    let new : Span = record (s.span p) {
      free_blk = (s.span p).free_blk + (s.span p).blk_size;
      free_cnt = dec32 (s.span p).free_cnt;
    } in
    let fresh = new_block p sz used lives (omega arith) inv.blocks in
    (
      record s { span = update s.span p new },
      rw empty,
      rw update_self (record {
        known = inv.known;
        size = inv.size;
        ring = inv.ring;
        blocks = (
          record { index = used; below = omega arith; place = inv.bump },
          All-mono lives (λ a. IsBlock-mono p sz used (used + 1) a (omega arith)) inv.blocks,
        );
        distinct = (rw inv.bump fresh, inv.distinct);
        bump = omega (arith, inv.bump, inv.size, blk_step p sz used);
        room = omega (arith, inv.count, inv.carved);
        carved = omega (arith, inv.carved);
        count = omega (arith, inv.count, blk_cnt_small sz);
      }),
      refl,
      record {
        others = λ q ne. update_other s.span p q new ne;
        using = refl;
        pool = refl;
        locked = refl;
        bytes = refl;
        thread_state = refl;
      },
    )

-- `get_blk` on a span with freed blocks takes the one that was freed last.
pub get_blk-freed :
    (s : State) (p used a : ℕ) (frees lives : List ℕ)
    → IsSpan s p used (a ∷ frees) lives
    → 0 < (s.span p).free_cnt
    → (t : State) × (get_blk p s ≡ ok a t)
      × IsSpan t p used frees (a ∷ lives)
      × SameOutside (blk_list p ∷ a ∷ frees) s.links t.links
      × OnlySpan p s t
unfolding get_blk
get_blk-freed s p used a frees lives inv pos =
    let some_free = not-empty s.links (blk_list p) a frees inv.ring in
    let sz : ℕ = class_size (s.span p).cls in
    let new : Span = record (s.span p) { free_cnt = dec32 (s.span p).free_cnt } in
    let (ring, same) = list_del_lem s.links (blk_list p) a [] frees inv.ring in
    (
      record s { span = update s.span p new; links = list_del a s.links },
      rw (some_free, inv.ring.chain.0),
      rw update_self (record {
        known = inv.known;
        size = inv.size;
        ring = ring;
        blocks = (All-middle (IsBlock p sz used) a frees lives).1 inv.blocks;
        distinct = (Distinct-middle a frees lives).1 inv.distinct;
        bump = inv.bump;
        room = inv.room;
        carved = omega (arith, inv.carved);
        count = omega (arith, inv.count, blk_cnt_small sz);
      }),
      same,
      record {
        others = λ q ne. update_other s.span p q new ne;
        using = refl;
        pool = refl;
        locked = refl;
        bytes = refl;
        thread_state = refl;
      },
    )
