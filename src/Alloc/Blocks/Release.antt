-- ===== src/Alloc/Blocks/Release.antt =====
-- The part of `span_free_blk` that its three branches share.
use rmm.Base.{
  ap, All-middle, Distinct-middle, All-append, ℕ, ◌≡◌, refl, arith, List, [], ◌∷◌, ◌++◌, ◌∉◌, ◌==◌,
  ◌&&◌, false, has-append, length-append, Distinct, update, update_self, update_other, All, Bool,
}
use rmm.ListHead.{list_add}
use rmm.ListHead.Chain.{SameOutside}
use rmm.ListHead.Insert.{list_add_lem}
use rmm.SizeClass.{class_size}
use rmm.Alloc.{State, Span, ok, blk_list}
use rmm.Alloc.Blocks.{give_back, get_blk, blk_cnt, inc32, is_suspend}
use rmm.Alloc.Blocks.Layout.{IsBlock, blk_above}
use rmm.Alloc.Blocks.Invariant.{IsSpan, OnlySpan, blk_cnt_small, get_blk-freed}

-- `span_free_blk` moves a span to a free list when this test passes.
abbrev pub emptied : Span → Bool
emptied h = is_suspend h.state && (inc32 h.free_cnt == blk_cnt h.blk_size)

All-regroup {ℓ κ} :
    {A : Type ℓ} (P : A → Type κ) (a : A) (fs xs ys : List A)
    → All P (fs ++ (xs ++ a ∷ ys))
    → All P (a ∷ fs ++ (xs ++ ys))
All-regroup P a fs xs ys h =
    let (front, back) = (All-append P fs (xs ++ a ∷ ys)).0 h in
    let (pa, rest) = (All-middle P a xs ys).0 back in
    (pa, (All-append P fs (xs ++ ys)).1 (front, rest))

Distinct-regroup :
    (a : ℕ) (fs xs ys : List ℕ) → Distinct (fs ++ (xs ++ a ∷ ys)) → Distinct (a ∷ fs ++ (xs ++ ys))
Distinct-regroup a [] xs ys d = (Distinct-middle a xs ys).0 d
Distinct-regroup a (f ∷ fs) xs ys d =
    let (out, rest) = Distinct-regroup a fs xs ys d.1 in
    let with_a = has-append f fs (xs ++ a ∷ ys) in
    let without = has-append f fs (xs ++ ys) in
    let inner = has-append f xs (a ∷ ys) in
    let inner' = has-append f xs ys in (ground arith, (ground arith, rest))

module _ (s : State) (p used a : ℕ) (frees xs ys : List ℕ)
    (inv : IsSpan s p used frees (xs ++ a ∷ ys)) where
  not-mem-frees : a ∉ blk_list p ∷ frees
  not-mem-frees =
      let sz : ℕ = class_size (s.span p).cls in
      let (out, _) = Distinct-regroup a frees xs ys inv.distinct in
      let is : IsBlock p sz used a = (All-regroup (IsBlock p sz used) a frees xs ys inv.blocks).0 in
      ground (arith, out, has-append a frees (xs ++ ys), blk_above p sz used a is)

  -- A live block given back to a span that stays where it is goes to the front of its free blocks,
  -- and the invariant of the span holds with the block no longer live.
  pub give_back-stays :
      (list : ℕ)
      → emptied (s.span p) ≡ false
      → (t : State) × (give_back p a list s ≡ ok tt t)
        × IsSpan t p used (a ∷ frees) (xs ++ ys)
        × SameOutside (a ∷ blk_list p ∷ frees) s.links t.links
        × OnlySpan p s t
        × ((t.span p).cls ≡ (s.span p).cls)
  unfolding give_back
  give_back-stays list stays =
      let sz : ℕ = class_size (s.span p).cls in
      let new : Span = record (s.span p) { free_cnt = inc32 (s.span p).free_cnt } in
      let (ring, same) = list_add_lem s.links (blk_list p) a frees inv.ring not-mem-frees in
      (
        record s { span = update s.span p new; links = list_add a (blk_list p) s.links },
        rw stays,
        rw update_self (record {
          known = inv.known;
          size = inv.size;
          ring = ring;
          blocks = All-regroup (IsBlock p sz used) a frees xs ys inv.blocks;
          distinct = Distinct-regroup a frees xs ys inv.distinct;
          bump = inv.bump;
          room = inv.room;
          carved = omega (arith, inv.carved, length-append xs (a ∷ ys), length-append xs ys);
          count =
              omega (
                arith,
                inv.count,
                length-append xs (a ∷ ys),
                length-append xs ys,
                blk_cnt_small sz,
              );
        }),
        same,
        record {
          others = λ q ne. update_other s.span p q new ne;
          using = refl;
          pool = refl;
          locked = refl;
          bytes = refl;
          thread_state = refl;
        },
        ap (λ (h : Span). h.cls) (update_self s.span p new),
      )

-- `free` of a block and then `malloc` of the same class give the same block again: after a live
-- block is given back, `get_blk` returns it.
pub get_blk-give_back :
    (s : State) (p used a list : ℕ) (frees xs ys : List ℕ)
    → IsSpan s p used frees (xs ++ a ∷ ys)
    → emptied (s.span p) ≡ false
    → (t u : State) × (give_back p a list s ≡ ok tt t)
      × (get_blk p t ≡ ok a u)
      × IsSpan u p used frees (a ∷ xs ++ ys)
get_blk-give_back s p used a list frees xs ys inv stays =
    let (t, run, after, _, _, _) = give_back-stays s p used a frees xs ys inv list stays in
    let few = after.carved in
    let (u, run', again, _, _) =
      get_blk-freed t p used a frees (xs ++ ys) after
        (omega (arith, after.count, after.carved, after.room)) in
    (t, u, run, run', again)
