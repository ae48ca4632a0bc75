-- ===== src/Alloc/Blocks/Overrun.antt =====
-- What `get_blk` does on a span that has no free block left.
use rmm.Base.{ℕ, ◌+◌, ◌-◌, ◌^◌, ◌≡◌, refl, arith, List, [], true, update, update_self}
use rmm.ListHead.{list_empty}
use rmm.ListHead.Remove.{list_empty_iff}
use rmm.SizeClass.{class_size}
use rmm.Alloc.{State, Span, ok, blk_list}
use rmm.Alloc.Blocks.{get_blk, blk_cnt, dec32}
use rmm.Alloc.Blocks.Layout.{blk}
use rmm.Alloc.Blocks.Invariant.{IsSpan}

-- A full span: every block is live. `get_blk` does not look at `free_cnt`: it returns the address
-- behind the last block, and the count of free blocks wraps to 2^32 - 1.
pub get_blk-full :
    (s : State) (p : ℕ) (lives : List ℕ)
    → IsSpan s p (blk_cnt (class_size (s.span p).cls)) [] lives
    → (t : State) × (get_blk p s
        ≡ ok (blk p (class_size (s.span p).cls) (blk_cnt (class_size (s.span p).cls))) t)
      × ((t.span p).free_cnt ≡ 2 ^ 32 - 1)
unfolding get_blk
get_blk-full s p lives inv =
    let empty : list_empty (blk_list p) s.links ≡ true =
      (list_empty_iff s.links (blk_list p) [] inv.ring).1 refl in
    let none_left : (s.span p).free_cnt ≡ 0 = omega (arith, inv.count, inv.carved) in
    let new : Span = record (s.span p) {
      free_blk = (s.span p).free_blk + (s.span p).blk_size;
      free_cnt = dec32 (s.span p).free_cnt;
    } in
    (
      record s { span = update s.span p new },
      rw (empty, inv.bump),
      rw (update_self s.span p new) (rw none_left),
    )
