-- ===== src/Alloc/GlobalPool/Acquire.antt =====
-- What `acquire_span` of src/wlmalloc.c returns on each of its ways.
use rmm.Base.{
  ℕ, ◌+◌, ◌%◌, ◌≤◌, ◌<◌, ◌≡◌, refl, arith, List, ◌∉◌, [], ◌∷◌, ◌==◌, false, true, leb, update,
  ==_iff, update_self, ◌⊎◌, inl, inr, Bool-cases,
}
use rmm.ListHead.{Links, list_del}
use rmm.ListHead.Move.{Disjoint-one}
use rmm.ListHead.Chain.{IsRing, SameOutside, IsRing-frame}
use rmm.ListHead.Remove.{list_del_lem, list_empty_iff}
use rmm.ListHead.Splice.{not-empty}
use rmm.SizeClass.{default_class_num}
use rmm.Alloc.{
  State, Env, Pool, ok, exited, mutex_lock, mutex_unlock, syscall_alloc, span_size, alloc_unit,
  blk_list, pool_lock, pool_free_list, pool_suspend, span_of_node,
}
use rmm.Alloc.Blocks.Invariant.{IsSpan, span_init-IsSpan}
use rmm.Alloc.GlobalPool.{acquire_span, carve, grow}
use rmm.Alloc.GlobalPool.Init.{IsPool}

-- The way through `acquire_span`: the lists of the pool that it looks at, and whether the lock is free.
pub record Unlocked (env : Env) (s : State) (cls : ℕ) (suspended frees : List ℕ) : Type 0 where
  pub lock : s.locked (pool_lock env.pool_at) ≡ false
  pub suspend : IsRing s.links (pool_suspend env.pool_at cls) suspended
  pub free_list : IsRing s.links (pool_free_list env.pool_at) frees

-- A span was cut from the pool at `p`, which was the pool's `free_start`: it is aligned, the pool goes
-- on behind it, it is initialised with all its blocks free, and the lock is free again.
pub record Carved (env : Env) (p : ℕ) (l : Links) (cls : ℕ) (t : State) : Type 0 where
  pub span : IsSpan t p 0 [] []
  pub cls_set : (t.span p).cls ≡ cls
  pub aligned : p % span_size ≡ 0
  pub begins : t.pool.start ≤ p
  pub next : t.pool.free_start ≡ p + span_size
  pub inside : p + span_size ≤ t.pool.end
  pub pool : IsPool t.pool
  pub lock : t.locked (pool_lock env.pool_at) ≡ false
  pub lists : SameOutside (blk_list p ∷ []) l t.links

carve-Carved :
    (env : Env) (s : State) (cls : ℕ)
    → cls < default_class_num
    → IsPool s.pool
    → s.pool.free_start + span_size ≤ s.pool.end
    → (t : State) × (carve env cls s ≡ ok s.pool.free_start t)
      × Carved env s.pool.free_start s.links cls t
      × (t.pool.end ≡ s.pool.end)
      × ((q : ℕ) → (q == s.pool.free_start) ≡ false → t.span q ≡ s.span q)
unfolding carve mutex_unlock
carve-Carved env s cls known pool room =
    let p : ℕ = s.pool.free_start in
    let after : Pool = record (s.pool) { free_start = p + span_size } in
    let s' : State = record s {
      pool = after;
      locked = update s.locked (pool_lock env.pool_at) false;
    } in
    let (t, run, span, cls_set, _, lists, only) = span_init-IsSpan s' p cls known in
    (
      t,
      rw run,
      record {
        span = span;
        cls_set = cls_set;
        aligned = pool.free_aligned;
        begins = rw only.pool pool.start_le;
        next = rw only.pool;
        inside = rw only.pool room;
        pool = rw only.pool (record {
          start_aligned = pool.start_aligned;
          free_aligned = omega (arith, pool.free_aligned);
          start_le = omega (arith, pool.start_le);
          free_le = room;
        });
        lock = rw only.locked (update_self s.locked (pool_lock env.pool_at) false);
        lists = lists;
      },
      rw only.pool,
      only.others,
    )

module _ (env : Env) (s : State) (cls : ℕ) where
  -- A suspended span of the class comes first: `acquire_span` takes the oldest one off its list, and
  -- hands it on with its header as it was, whether or not it has a free block.
  pub acquire_span-suspended :
      (n : ℕ) (rest frees : List ℕ)
      → Unlocked env s cls (n ∷ rest) frees
      → (t : State) × (acquire_span env cls s ≡ ok (span_of_node n) t)
        × IsRing t.links (pool_suspend env.pool_at cls) rest
        × (t.span ≡ s.span)
        × (t.pool ≡ s.pool)
        × (t.locked (pool_lock env.pool_at) ≡ false)
  unfolding acquire_span mutex_lock mutex_unlock
  acquire_span-suspended n rest frees u =
      let some_there = not-empty s.links (pool_suspend env.pool_at cls) n rest u.suspend in
      let held = update s.locked (pool_lock env.pool_at) true in
      (
        record s { links = list_del n s.links; locked = update held (pool_lock env.pool_at) false },
        rw (u.lock, some_there, u.suspend.chain.0),
        (list_del_lem s.links (pool_suspend env.pool_at cls) n [] rest u.suspend).0,
        refl,
        refl,
        update_self held (pool_lock env.pool_at) false,
      )

  -- Without one, and with an empty free list, `acquire_span` cuts a new span from the pool.
  pub acquire_span-carve :
      cls < default_class_num
      → IsPool s.pool
      → Unlocked env s cls [] []
      → s.pool.free_start + span_size ≤ s.pool.end
      → (t : State) × (acquire_span env cls s ≡ ok s.pool.free_start t)
        × Carved env s.pool.free_start s.links cls t
        × ((q : ℕ) → (q == s.pool.free_start) ≡ false → t.span q ≡ s.span q)
  unfolding acquire_span mutex_lock
  acquire_span-carve known pool u room =
      let s' : State = record s { locked = update s.locked (pool_lock env.pool_at) true } in
      let (t, run, carved, _, others) = carve-Carved env s' cls known pool room in
      let none_suspended =
        (list_empty_iff s.links (pool_suspend env.pool_at cls) [] u.suspend).1 refl in
      let none_free = (list_empty_iff s.links (pool_free_list env.pool_at) [] u.free_list).1 refl in
      let fits : leb (s.pool.free_start + span_size) s.pool.end ≡ true = ground arith in
      (t, rw (u.lock, none_suspended, none_free, fits) run, carved, others)

  -- With the pool used up it asks the system for more, which has to be adjacent: then it cuts the
  -- span from the longer pool, and otherwise the process ends.
  pub acquire_span-grow :
      cls < default_class_num
      → IsPool s.pool
      → Unlocked env s cls [] []
      → s.pool.end < s.pool.free_start + span_size
      → ((env.mmap s.calls alloc_unit == s.pool.end) ≡ false) × (acquire_span env cls s ≡ exited)
        ⊎ (env.mmap s.calls alloc_unit ≡ s.pool.end)
          × ((t : State) × (acquire_span env cls s ≡ ok s.pool.free_start t)
              × Carved env s.pool.free_start s.links cls t
              × (t.pool.end ≡ s.pool.end + alloc_unit))
  unfolding acquire_span mutex_lock grow syscall_alloc
  acquire_span-grow known pool u full =
      let none_suspended =
        (list_empty_iff s.links (pool_suspend env.pool_at cls) [] u.suspend).1 refl in
      let none_free = (list_empty_iff s.links (pool_free_list env.pool_at) [] u.free_list).1 refl in
      let fits : leb (s.pool.free_start + span_size) s.pool.end ≡ false = ground arith in
      let held : State = record s {
        locked = update s.locked (pool_lock env.pool_at) true;
        calls = s.calls + 1;
        pool = record (s.pool) { end = s.pool.end + alloc_unit };
      } in
      let longer : IsPool held.pool = record {
        start_aligned = pool.start_aligned;
        free_aligned = pool.free_aligned;
        start_le = pool.start_le;
        free_le = omega (arith, pool.free_le);
      } in
      let (t, run, carved, end, _) =
        carve-Carved env held cls known longer (omega (arith, pool.free_le)) in
      elim (Bool-cases (env.mmap s.calls alloc_unit == s.pool.end)) [
        | inl adjacent ↦ inr (
          (==_iff (env.mmap s.calls alloc_unit) s.pool.end).0 adjacent,
          (t, rw (u.lock, none_suspended, none_free, fits, adjacent) run, carved, end),
        )
        | inr apart ↦ inl (apart, rw (u.lock, none_suspended, none_free, fits, apart))
      ]

  -- With no suspended span of the class, `acquire_span` takes the oldest span off the pool's free
  -- list and initialises it: all its blocks are free again.
  pub acquire_span-free :
      (n : ℕ) (rest : List ℕ)
      → cls < default_class_num
      → Unlocked env s cls [] (n ∷ rest)
      → blk_list (span_of_node n) ∉ pool_free_list env.pool_at ∷ rest
      → (t : State) × (acquire_span env cls s ≡ ok (span_of_node n) t)
        × IsRing t.links (pool_free_list env.pool_at) rest
        × IsSpan t (span_of_node n) 0 [] []
        × ((t.span (span_of_node n)).cls ≡ cls)
        × (t.pool ≡ s.pool)
        × (t.locked (pool_lock env.pool_at) ≡ false)
  unfolding acquire_span mutex_lock mutex_unlock
  acquire_span-free n rest known u out =
      let head : ℕ = pool_free_list env.pool_at in
      let none_suspended =
        (list_empty_iff s.links (pool_suspend env.pool_at cls) [] u.suspend).1 refl in
      let some_there = not-empty s.links head n rest u.free_list in
      let held = update s.locked (pool_lock env.pool_at) true in
      let s' : State = record s {
        links = list_del n s.links;
        locked = update held (pool_lock env.pool_at) false;
      } in
      let (t, run, span, cls_set, _, same, only) = span_init-IsSpan s' (span_of_node n) cls known in
      let left = (list_del_lem s.links head n [] rest u.free_list).0 in
      (
        t,
        rw (u.lock, none_suspended, some_there, u.free_list.chain.0, run),
        IsRing-frame s'.links t.links head rest (blk_list (span_of_node n) ∷ []) same
            (Disjoint-one (blk_list (span_of_node n)) (head ∷ rest) out) left,
        span,
        cls_set,
        only.pool,
        rw only.locked (update_self held (pool_lock env.pool_at) false),
      )
