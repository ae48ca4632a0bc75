-- ===== src/Alloc/ThreadCache/Stale.antt =====
-- src/wlmalloc.c: what becomes of the free list when a span that `replace_available_span` forgot is
-- emptied. Its node still points into the list of suspended spans.
use rmm.Base.{
  ℕ, ◌+◌, ◌-◌, ◌≡◌, ◌≢◌, refl, ◌∙◌, arith, true, false, ◌==◌, [], ◌∷◌, ◌∉◌, Distinct, update,
}
use rmm.ListHead.{
  Links, init_list_head, list_add, list_add_tail, list_del, list_add_between, list_del_between,
  list_empty,
}
use rmm.ListHead.Insert.{init_list_head_lem, list_add_lem}
use rmm.SizeClass.{class_size}
use rmm.ListHead.Chain.{IsRing}
use rmm.Alloc.{
  ◌>>=◌, ◌>>◌, pure, Cmd, on_links, Env, State, ok, blk_list, node, span_bytes, tc_free_list,
  tc_suspend,
}
use rmm.Alloc.Blocks.{span_init, blk_cnt, give_back}
use rmm.Alloc.Blocks.Release.{emptied}
use rmm.Alloc.Blocks.Retire.{given_back, give_back-given_back}
use rmm.Alloc.ThreadCache.{next_span}

-- The pointers that the steps below read: of the heads `f` of the free list and `q` of the suspended
-- spans, and of the nodes `a` and `x`.
record Before (l : Links) (f q a x : ℕ) : Type 0 where
  pub a_prev : l.prev a ≡ q
  pub a_next : l.next a ≡ q
  pub f_prev : l.prev f ≡ f
  pub x_prev : l.prev x ≡ a
  pub x_next : l.next x ≡ q

-- After `a` went to the free list.
record One (l : Links) (f q a x : ℕ) : Type 0 where
  pub f_next : l.next f ≡ a
  pub f_prev : l.prev f ≡ a
  pub a_prev : l.prev a ≡ f
  pub x_prev : l.prev x ≡ a
  pub x_next : l.next x ≡ q

-- After `x` went there, too: the list of suspended spans ends at `a`.
record Two (l : Links) (f q a : ℕ) : Type 0 where
  pub f_next : l.next f ≡ a
  pub a_prev : l.prev a ≡ f
  pub q_prev : l.prev q ≡ a

module _ (b u : ℕ) (l : Links) (alone : u ∉ b ∷ []) where
  -- The list of free blocks at `b` is reset and `u` put on it: this writes nowhere else.
  off_blocks :
      (c : ℕ)
      → c ∉ u ∷ b ∷ []
      → ((list_add u b (init_list_head b l)).next c ≡ l.next c)
        × ((list_add u b (init_list_head b l)).prev c ≡ l.prev c)
  off_blocks c off =
      let (ring, same) = init_list_head_lem l b in
      let (_, same') = list_add_lem (init_list_head b l) b u [] ring alone in
      let first = same c (ground (arith, off)) in
      let then_ = same' c off in (then_.0 ∙ first.0, then_.1 ∙ first.1)

first_links :
    (l : Links) (f q a x : ℕ)
    → Distinct (f ∷ q ∷ a ∷ x ∷ [])
    → Before l f q a x
    → One (list_add_tail a f (list_del a l)) f q a x
unfolding list_add_tail list_add_between list_del list_del_between
first_links l f q a x d at = record {
  f_next = ground (arith, d, at.a_prev, at.a_next, at.f_prev, at.x_prev, at.x_next);
  f_prev = ground (arith, d, at.a_prev, at.a_next, at.f_prev, at.x_prev, at.x_next);
  a_prev = ground (arith, d, at.a_prev, at.a_next, at.f_prev, at.x_prev, at.x_next);
  x_prev = ground (arith, d, at.a_prev, at.a_next, at.f_prev, at.x_prev, at.x_next);
  x_next = ground (arith, d, at.a_prev, at.a_next, at.f_prev, at.x_prev, at.x_next);
}

second_links :
    (l : Links) (f q a x : ℕ)
    → Distinct (f ∷ q ∷ a ∷ x ∷ [])
    → One l f q a x
    → Two (list_add_tail x f (list_del x l)) f q a
unfolding list_add_tail list_add_between list_del list_del_between
second_links l f q a x d at = record {
  f_next = ground (arith, d, at.f_next, at.f_prev, at.a_prev, at.x_prev, at.x_next);
  a_prev = ground (arith, d, at.f_next, at.f_prev, at.a_prev, at.x_prev, at.x_next);
  q_prev = ground (arith, d, at.f_next, at.f_prev, at.a_prev, at.x_prev, at.x_next);
}

-- A span is suspended: it comes behind `a`, on the free list.
third_links :
    (l : Links) (f q a z : ℕ)
    → Distinct (f ∷ q ∷ a ∷ z ∷ [])
    → Two l f q a
    → ((list_add_tail z q l).next f ≡ a)
      × ((list_add_tail z q l).prev a ≡ f)
      × ((list_add_tail z q l).next a ≡ z)
unfolding list_add_tail list_add_between
third_links l f q a z d at = (
  ground (arith, d, at.f_next, at.a_prev, at.q_prev),
  ground (arith, d, at.f_next, at.a_prev, at.q_prev),
  ground (arith, d, at.f_next, at.a_prev, at.q_prev),
)

-- What `next_span` takes from the free list, and its state after.
abbrev taken : (p k : ℕ) → State → State
taken p k s = record s {
  links = init_list_head (blk_list p) (list_del (node p) s.links);
  span = update s.span p (record (s.span p) {
    cls = k;
    blk_size = class_size k;
    free_cnt = blk_cnt (class_size k);
    free_blk = p + span_bytes;
  });
}

next_span-taken :
    (env : Env) (s : State) (self k p : ℕ)
    → s.links.next (tc_free_list self) ≡ node p
    → node p ≢ tc_free_list self
    → next_span env self k s ≡ ok p (taken p k s)
unfolding next_span span_init list_empty
next_span-taken env s self k p first ne =
    let other : (node p == tc_free_list self) ≡ false = ground (arith, ne) in
    let back : node p - 56 ≡ p = omega arith in rw (first, other, back) refl

taken_links :
    (l : Links) (f a b z : ℕ)
    → l.prev a ≡ f
    → l.next a ≡ z
    → f ∉ b ∷ []
    → (init_list_head b (list_del a l)).next f ≡ z
unfolding list_del list_del_between
taken_links l f a b z back ahead off =
    let (_, same) = init_list_head_lem (list_del a l) b in
    (same f off).0 ∙ ground (arith, back, ahead)

One-off :
    (l : Links) (f q a x b u : ℕ)
    → Distinct (f ∷ q ∷ a ∷ x ∷ b ∷ u ∷ [])
    → One l f q a x
    → One (list_add u b (init_list_head b l)) f q a x
One-off l f q a x b u d at =
    let off = off_blocks b u l (ground (arith, d)) in
    let at_f = off f (ground (arith, d)) in
    let at_a = off a (ground (arith, d)) in
    let at_x = off x (ground (arith, d)) in
    record {
      f_next = at_f.0 ∙ at.f_next;
      f_prev = at_f.1 ∙ at.f_prev;
      a_prev = at_a.1 ∙ at.a_prev;
      x_prev = at_x.1 ∙ at.x_prev;
      x_next = at_x.0 ∙ at.x_next;
    }

Two-off :
    (l : Links) (f q a b u : ℕ)
    → Distinct (f ∷ q ∷ a ∷ b ∷ u ∷ [])
    → Two l f q a
    → Two (list_add u b (init_list_head b l)) f q a
Two-off l f q a b u d at =
    let off = off_blocks b u l (ground (arith, d)) in
    let at_f = off f (ground (arith, d)) in
    let at_a = off a (ground (arith, d)) in
    let at_q = off q (ground (arith, d)) in
    record { f_next = at_f.0 ∙ at.f_next; a_prev = at_a.1 ∙ at.a_prev; q_prev = at_q.1 ∙ at.q_prev }

-- The addresses that the steps write to, and the blocks `u` and `v` that are freed last.
abbrev pub Apart : (self cls A X Z u v : ℕ) → Type 0
Apart self cls A X Z u v = Distinct (
    tc_free_list self
    ∷ tc_suspend self cls
    ∷ node A
    ∷ node X
    ∷ node Z
    ∷ blk_list A
    ∷ u
    ∷ blk_list X
    ∷ v
    ∷ [])

-- A thread with one suspended span A on its list, an empty free list, and a span X that
-- `replace_available_span` took off the list behind A: the node of X still points into it. All blocks
-- of A and X but one are free.
pub record Forgotten (s : State) (self cls A X : ℕ) : Type 0 where
  pub suspended : IsRing s.links (tc_suspend self cls) (node A ∷ [])
  pub own : IsRing s.links (tc_free_list self) []
  pub back : s.links.prev (node X) ≡ node A
  pub ahead : s.links.next (node X) ≡ tc_suspend self cls
  pub full_a : emptied (s.span A) ≡ true
  pub full_x : emptied (s.span X) ≡ true

-- The last blocks of A and X are freed, Z is suspended, and two spans are taken.
abbrev pub free_suspend_take : Env → (self cls A X Z u v k k' : ℕ) → Cmd (ℕ × ℕ)
free_suspend_take env self cls A X Z u v k k' = do
  give_back A u (tc_free_list self)
  give_back X v (tc_free_list self)
  on_links (list_add_tail (node Z) (tc_suspend self cls))
  first ← next_span env self k
  second ← next_span env self k'
  pure (first, second)

-- When the last blocks of A and of X have been freed and a span Z has been suspended, Z is behind A
-- on the free list: the second span that `next_span` takes is Z, all of whose blocks count as free
-- from then on, whichever are in use.
pub next_span-suspended :
    (env : Env) (s : State) (self cls A X Z u v k k' : ℕ)
    → Forgotten s self cls A X
    → Apart self cls A X Z u v
    → (t : State) × (free_suspend_take env self cls A X Z u v k k' s ≡ ok (A, Z) t)
      × ((t.span Z).free_cnt ≡ blk_cnt (class_size k'))
next_span-suspended env s self cls A X Z u v k k' h d =
    let f : ℕ = tc_free_list self in
    let q : ℕ = tc_suspend self cls in
    let s1 : State = given_back A u f s in
    let s2 : State = given_back X v f s1 in
    let s3 : State = record s2 { links = list_add_tail (node Z) q s2.links } in
    let before : Before s.links f q (node A) (node X) = record {
      a_prev = h.suspended.chain.1;
      a_next = h.suspended.chain.2.0;
      f_prev = h.own.chain.1;
      x_prev = h.back;
      x_next = h.ahead;
    } in
    let one : One s1.links f q (node A) (node X) =
      One-off _ f q (node A) (node X) (blk_list A) u (ground (arith, d))
        (first_links s.links f q (node A) (node X) (ground (arith, d)) before) in
    let two : Two s2.links f q (node A) =
      Two-off _ f q (node A) (blk_list X) v (ground (arith, d))
        (second_links s1.links f q (node A) (node X) (ground (arith, d)) one) in
    let three = third_links s2.links f q (node A) (node Z) (ground (arith, d)) two in
    let other : (X == A) ≡ false = ground (arith, d) in
    let full_x : emptied (s1.span X) ≡ true = rw other h.full_x in
    let taken_a = next_span-taken env s3 self k A three.0 (ground (arith, d)) in
    let s4 : State = taken A k s3 in
    let taken_z =
      next_span-taken env s4 self k' Z
        (taken_links s3.links f (node A) (blk_list A) (node Z) three.1 three.2 (ground (arith, d)))
        (ground (arith, d)) in
    let counts : ((taken Z k' s4).span Z).free_cnt ≡ blk_cnt (class_size k') = ground arith in
    (
      taken Z k' s4,
      rw
          (
            give_back-given_back s A u f h.full_a,
            give_back-given_back s1 X v f full_x,
            taken_a,
            taken_z,
          )
          refl,
      counts,
    )
