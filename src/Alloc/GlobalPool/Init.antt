-- ===== src/Alloc/GlobalPool/Init.antt =====
-- The pool after `global_init` of src/wlmalloc.c.
use rmm.Base.{
  update, update_self, ℕ, zero, suc, ◌+◌, ◌%◌, ◌≤◌, ◌<◌, ◌≡◌, ◌≢◌, refl, arith, [], ◌∷◌, ◌==◌,
  false, ==_iff, Bool-cases, inl, inr,
}
use rmm.ListHead.{Links, init_list_head}
use rmm.ListHead.Chain.{IsRing, IsRing-frame}
use rmm.ListHead.Insert.{init_list_head_lem}
use rmm.ListHead.Move.{Disjoint-one}
use rmm.SizeClass.{default_class_num}
use rmm.Alloc.{
  State, Pool, Env, ok, mutex_init, syscall_alloc, roundup, span_size, alloc_unit, map_failed,
  pool_lock, pool_free_list, pool_suspend,
}
use rmm.Alloc.GlobalPool.{global_init, init_heads}
use rmm.Alloc.Blocks.Layout.{roundup_lem}

-- The pool's region: it starts and goes on at multiples of `SPAN_SIZE`, so that `GET_HEADER` finds
-- the spans cut from it.
pub record IsPool (pool : Pool) : Type 0 where
  pub start_aligned : pool.start % span_size ≡ 0
  pub free_aligned : pool.free_start % span_size ≡ 0
  pub start_le : pool.start ≤ pool.free_start
  pub free_le : pool.free_start ≤ pool.end

module _ (heads : ℕ → ℕ) (apart : (i j : ℕ) → i ≢ j → heads i ≢ heads j) where
  -- The loops over the list heads of an array leave each of them empty.
  pub init_heads-IsRing : (n i : ℕ) (l : Links) → i < n → IsRing (init_heads n heads l) (heads i) []
  unfolding init_heads
  init_heads-IsRing zero i l h = absurd (omega arith)
  init_heads-IsRing (suc n) i l h =
      let (ring, same) = init_list_head_lem (init_heads n heads l) (heads n) in
      elim (Bool-cases (i == n)) [
        | inl e ↦ rw ((==_iff i n).0 e) ring
        | inr ne ↦
            let ne' = apart n i (ground arith) in
            IsRing-frame (init_heads n heads l) (init_heads (suc n) heads l) (heads i) []
              (heads n ∷ []) same (Disjoint-one (heads n) (heads i ∷ []) (ground arith))
              (init_heads-IsRing n i l (ground arith))
      ]

-- An empty list stays empty while other heads are initialised.
pub init_heads-keeps :
    (heads : ℕ → ℕ) (n h : ℕ) (l : Links)
    → ((i : ℕ) → h ≢ heads i)
    → IsRing l h []
    → IsRing (init_heads n heads l) h []
unfolding init_heads
init_heads-keeps heads zero h l ne r = r
init_heads-keeps heads (suc n) h l ne r =
    let (_, same) = init_list_head_lem (init_heads n heads l) (heads n) in
    let ne' = ne n in
    IsRing-frame (init_heads n heads l) (init_heads (suc n) heads l) h [] (heads n ∷ []) same
      (Disjoint-one (heads n) (h ∷ []) (ground arith)) (init_heads-keeps heads n h l ne r)

-- When the mutex and the mapping succeed, `global_init` leaves an aligned pool that is all free, that
-- begins less than one span behind the mapping's start and ends with it, and whose lists are empty.
pub global_init-IsPool :
    (env : Env) (s : State)
    → env.mutex_init_fails (pool_lock env.pool_at) ≡ false
    → (env.mmap s.calls alloc_unit == map_failed) ≡ false
    → (t : State) × (global_init env s ≡ ok tt t)
      × IsPool t.pool
      × (t.pool.free_start ≡ t.pool.start)
      × (t.pool.end ≡ env.mmap s.calls alloc_unit + alloc_unit)
      × (env.mmap s.calls alloc_unit ≤ t.pool.start)
      × (t.pool.start < env.mmap s.calls alloc_unit + span_size)
      × (t.locked (pool_lock env.pool_at) ≡ false)
      × IsRing t.links (pool_free_list env.pool_at) []
      × ((cls : ℕ) → cls < default_class_num → IsRing t.links (pool_suspend env.pool_at cls) [])
unfolding global_init mutex_init syscall_alloc
global_init-IsPool env s m_ok raw_ok =
    let raw : ℕ = env.mmap s.calls alloc_unit in
    let start : ℕ = roundup raw span_size in
    let (aligned, above, near) = roundup_lem raw span_size (omega arith) in
    let l : Links = init_list_head (pool_free_list env.pool_at) s.links in
    let (free_list, _) = init_list_head_lem s.links (pool_free_list env.pool_at) in
    (
      record s {
        locked = update s.locked (pool_lock env.pool_at) false;
        calls = s.calls + 1;
        pool = record { start = start; end = raw + alloc_unit; free_start = start };
        links = init_heads default_class_num (pool_suspend env.pool_at) l;
      },
      rw (m_ok, raw_ok),
      record {
        start_aligned = aligned;
        free_aligned = aligned;
        start_le = omega arith;
        free_le = omega (arith, near);
      },
      refl,
      refl,
      above,
      near,
      update_self s.locked (pool_lock env.pool_at) false,
      init_heads-keeps (pool_suspend env.pool_at) default_class_num (pool_free_list env.pool_at) l
          (λ i. omega arith) free_list,
      λ cls h.
          init_heads-IsRing (pool_suspend env.pool_at) (λ i j ne. omega arith) default_class_num cls
            l h,
    )
