-- ===== src/Alloc/ThreadCache/Replace.antt =====
-- What `replace_available_span` of src/wlmalloc.c puts in use.
use rmm.Base.{
  ℕ, ◌+◌, ◌<◌, ◌≤◌, ◌≡◌, refl, arith, List, ◌∈◌, [], ◌∷◌, ◌++◌, ◌∉◌, ◌==◌, false, length, All,
  has-append, update, ◌∙◌, update_self, update_other,
}
use rmm.ListHead.{list_del}
use rmm.ListHead.Chain.{IsRing, Disjoint, IsRing-frame}
use rmm.ListHead.Remove.{list_del_lem, list_del-keeps, list_empty_iff}
use rmm.ListHead.Move.{Disjoint-flip, Disjoint-one, Disjoint-alone, not-mem_unlink}
use rmm.ListHead.Splice.{not-empty_middle}
use rmm.SizeClass.{default_class_num}
use rmm.Alloc.{
  State, Env, Span, ok, in_use, blk_list, span_of_node, tc_suspend, tc_free_list, pool_free_list,
  pool_suspend, span_size,
}
use rmm.Alloc.Blocks.Invariant.{IsSpan}
use rmm.Alloc.GlobalPool.Init.{IsPool}
use rmm.Alloc.GlobalPool.Acquire.{Unlocked, Carved, acquire_span-carve}
use rmm.Alloc.ThreadCache.{replace_available_span, next_span, install}
use rmm.Alloc.ThreadCache.Search.{IsFull, unlink_available_lem}

-- The span at `p` is the one in use for the class, with all its blocks free.
pub record Installed (s : State) (self cls p : ℕ) : Type 0 where
  pub using : s.using self cls ≡ p
  pub span : IsSpan s p 0 [] []
  pub class : (s.span p).cls ≡ cls
  pub owner : (s.span p).owner ≡ self
  pub state : (s.span p).state ≡ in_use

-- With nothing on the thread's free list, and nothing on the pool's lists, the next span is cut from
-- the pool; it is in use afterwards.
next_span-Installed :
    (env : Env) (s : State) (self cls : ℕ)
    → cls < default_class_num
    → IsPool s.pool
    → s.pool.free_start + span_size ≤ s.pool.end
    → IsRing s.links (tc_free_list self) []
    → Unlocked env s cls [] []
    → (u t : State) × (next_span env self cls s ≡ ok s.pool.free_start u)
      × (install self self cls s.pool.free_start u ≡ ok tt t)
      × Installed t self cls s.pool.free_start
      × Carved env s.pool.free_start s.links cls u
      × (t.pool ≡ u.pool)
      × (t.links ≡ u.links)
      × ((q : ℕ) → (q == s.pool.free_start) ≡ false → t.span q ≡ s.span q)
unfolding next_span install
next_span-Installed env s self cls known pool room own rest =
    let p : ℕ = s.pool.free_start in
    let (u, run, carved, others) = acquire_span-carve env s cls known pool rest room in
    let none_own = (list_empty_iff s.links (tc_free_list self) [] own).1 refl in
    let new : Span = record (u.span p) { owner = self; state = in_use } in
    let row = update (u.using self) cls p in
    let at_p = update_self u.span p new in
    (
      u,
      record u { using = update u.using self row; span = update u.span p new },
      rw (none_own, run),
      refl,
      record {
        using = rw (update_self u.using self row) (update_self (u.using self) cls p);
        span = rw at_p (record {
          known = carved.span.known;
          size = carved.span.size;
          ring = carved.span.ring;
          blocks = tt;
          distinct = tt;
          bump = carved.span.bump;
          room = carved.span.room;
          carved = carved.span.carved;
          count = carved.span.count;
        });
        class = rw at_p carved.cls_set;
        owner = rw at_p;
        state = rw at_p;
      },
      carved,
      refl,
      refl,
      λ q ne. update_other u.span p q new ne ∙ others q ne,
    )

-- With every list that it looks at empty, `replace_available_span` puts a new span in use, cut from
-- the pool, and the pool goes on behind it.
pub replace_available_span-carve :
    (env : Env) (s : State) (fuel self cls : ℕ)
    → cls < default_class_num
    → IsPool s.pool
    → s.pool.free_start + span_size ≤ s.pool.end
    → IsRing s.links (tc_free_list self) []
    → Unlocked env s cls [] []
    → IsRing s.links (tc_suspend self cls) []
    → (t : State) × (replace_available_span env fuel self self cls s ≡ ok tt t)
      × Installed t self cls s.pool.free_start
      × IsPool t.pool
      × (t.pool.free_start ≡ s.pool.free_start + span_size)
unfolding replace_available_span
replace_available_span-carve env s fuel self cls known pool room own rest suspended =
    let none_there = (list_empty_iff s.links (tc_suspend self cls) [] suspended).1 refl in
    let (u, t, run, run', installed, carved, same_pool, _, _) =
      next_span-Installed env s self cls known pool room own rest in
    (t, rw (none_there, run, run'), installed, rw same_pool carved.pool, rw same_pool carved.next)

-- Here the thread has a suspended span with a free block, the first such on its list at `n`. Yet a
-- new span is put in use: the suspended one keeps its header, free blocks included, and is taken off
-- the thread's list, while its node keeps its pointers into that list.
pub replace_available_span-forgets :
    (env : Env) (s : State) (fuel self cls n : ℕ) (before after : List ℕ)
    → cls < default_class_num
    → IsPool s.pool
    → s.pool.free_start + span_size ≤ s.pool.end
    → IsRing s.links (tc_free_list self) []
    → Unlocked env s cls [] []
    → IsRing s.links (tc_suspend self cls) (before ++ n ∷ after)
    → All (IsFull s.span) before
    → 0 < (s.span (span_of_node n)).free_cnt
    → length before < fuel
    → (span_of_node n == s.pool.free_start) ≡ false
    → Disjoint (tc_suspend self cls ∷ before ++ n ∷ after) (
        tc_free_list self
        ∷ pool_suspend env.pool_at cls
        ∷ pool_free_list env.pool_at
        ∷ blk_list s.pool.free_start
        ∷ [])
    → (t : State) × (replace_available_span env fuel self self cls s ≡ ok tt t)
      × (t.using self cls ≡ s.pool.free_start)
      × IsRing t.links (tc_suspend self cls) (before ++ after)
      × (t.span (span_of_node n) ≡ s.span (span_of_node n))
      × ((t.links.prev n ≡ s.links.prev n) × (t.links.next n ≡ s.links.next n))
unfolding replace_available_span
replace_available_span-forgets env s fuel self cls n before after known pool room own rest suspended
      full pos h ne apart =
    let q : ℕ = tc_suspend self cls in
    let all : List ℕ = q ∷ before ++ n ∷ after in
    let tops : List ℕ =
      tc_free_list self
      ∷ pool_suspend env.pool_at cls
      ∷ pool_free_list env.pool_at
      ∷ blk_list s.pool.free_start
      ∷ [] in
    let off = Disjoint-flip all tops apart in
    let some_there = not-empty_middle s.links q n before after suspended in
    let walk = (unlink_available_lem s fuel q n before after suspended full pos h).0 in
    let (ring, same) = list_del_lem s.links q n before after suspended in
    let s1 : State = record s { links = list_del n s.links } in
    let keeps : (h : ℕ) → h ∈ tops → IsRing s.links h [] → IsRing s1.links h [] =
      λ g i r. IsRing-frame s.links s1.links g [] all same (Disjoint-alone g all (off g i)) r in
    let own' : IsRing s1.links (tc_free_list self) [] =
      keeps (tc_free_list self) (ground arith) own in
    let rest' : Unlocked env s1 cls [] [] = record {
      lock = rest.lock;
      suspend = keeps (pool_suspend env.pool_at cls) (ground arith) rest.suspend;
      free_list = keeps (pool_free_list env.pool_at) (ground arith) rest.free_list;
    } in
    let (u, t, run, run', installed, carved, _, same_links, others) =
      next_span-Installed env s1 self cls known pool room own' rest' in
    let clear : blk_list s.pool.free_start ∉ q ∷ before ++ after =
      not-mem_unlink (blk_list s.pool.free_start) n (q ∷ before) after
        (off (blk_list s.pool.free_start) (ground arith)) in
    let still = list_del-keeps s.links q n before after suspended in
    let apart_n = apart n (ground (arith, has-append n before (n ∷ after))) in
    let kept_n = carved.lists n (ground (arith, apart_n)) in
    (
      t,
      rw (some_there, walk, run, run'),
      installed.using,
      rw same_links (
          IsRing-frame s1.links u.links q (before ++ after) (blk_list s.pool.free_start ∷ [])
            carved.lists (Disjoint-one (blk_list s.pool.free_start) (q ∷ before ++ after) clear)
            ring),
      others (span_of_node n) ne,
      rw same_links (kept_n.1 ∙ still.0, kept_n.0 ∙ still.1),
    )
