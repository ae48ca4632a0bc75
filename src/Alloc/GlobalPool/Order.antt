-- ===== src/Alloc/GlobalPool/Order.antt =====
-- `acquire_span` of src/wlmalloc.c on all of its ways: where it looks first, and what it does then.
use rmm.Base.{
  ℕ, ◌+◌, ◌≤◌, ◌<◌, ◌≡◌, refl, arith, List, [], ◌∷◌, ◌∉◌, inl, inr, leb, Bool-cases, false, ◌==◌,
}
use rmm.ListHead.Chain.{IsRing}
use rmm.SizeClass.{default_class_num}
use rmm.Alloc.{
  State, Env, Result, ok, exited, span_size, alloc_unit, blk_list, pool_lock, pool_free_list,
  pool_suspend, span_of_node,
}
use rmm.Alloc.Blocks.Invariant.{IsSpan}
use rmm.Alloc.GlobalPool.{acquire_span}
use rmm.Alloc.GlobalPool.Acquire.{
  Unlocked, Carved, acquire_span-suspended, acquire_span-free, acquire_span-carve,
  acquire_span-grow,
}
use rmm.Alloc.GlobalPool.Init.{IsPool}

-- What `acquire_span` does, from `s`, with the pool's suspended spans of the class and its free spans.
pub data Acquired (env : Env) (cls : ℕ) (s : State)
    : (suspended frees : List ℕ) → Result ℕ → Type 0 where
  -- The oldest suspended span, as it was.
  suspended_first :
      {n : ℕ} {rest frees : List ℕ} (t : State)
      → IsRing t.links (pool_suspend env.pool_at cls) rest
      → t.span ≡ s.span
      → t.pool ≡ s.pool
      → t.locked (pool_lock env.pool_at) ≡ false
      → Acquired env cls s (n ∷ rest) frees (ok (span_of_node n) t)
  -- The oldest free span, initialised for the class.
  free_next :
      {n : ℕ} {rest : List ℕ} (t : State)
      → IsRing t.links (pool_free_list env.pool_at) rest
      → IsSpan t (span_of_node n) 0 [] []
      → (t.span (span_of_node n)).cls ≡ cls
      → t.pool ≡ s.pool
      → t.locked (pool_lock env.pool_at) ≡ false
      → Acquired env cls s [] (n ∷ rest) (ok (span_of_node n) t)
  -- A new span from the memory that the pool has left.
  cut :
      (t : State)
      → s.pool.free_start + span_size ≤ s.pool.end
      → Carved env s.pool.free_start s.links cls t
      → Acquired env cls s [] [] (ok s.pool.free_start t)
  -- A new span after the pool has grown by memory of the system that is next to it.
  grown :
      (t : State)
      → s.pool.end < s.pool.free_start + span_size
      → env.mmap s.calls alloc_unit ≡ s.pool.end
      → Carved env s.pool.free_start s.links cls t
      → t.pool.end ≡ s.pool.end + alloc_unit
      → Acquired env cls s [] [] (ok s.pool.free_start t)
  -- The end of the process, when the system's memory is somewhere else.
  elsewhere :
      s.pool.end < s.pool.free_start + span_size
      → (env.mmap s.calls alloc_unit == s.pool.end) ≡ false
      → Acquired env cls s [] [] exited

-- From a pool in order with its mutex free, `acquire_span` gives the oldest suspended span of the
-- class as it was; without one the oldest free span, initialised; without that a new span, cut from
-- the memory that the pool has left; and otherwise it grows the pool by adjacent memory first, or ends
-- the process when the system's memory is not adjacent. The mutex is free again whenever it returns.
pub acquire_span-Acquired :
    (env : Env) (s : State) (cls : ℕ) (suspended frees : List ℕ)
    → cls < default_class_num
    → IsPool s.pool
    → Unlocked env s cls suspended frees
    → ((n : ℕ) (rest : List ℕ)
        → frees ≡ n ∷ rest
        → blk_list (span_of_node n) ∉ pool_free_list env.pool_at ∷ rest)
    → Acquired env cls s suspended frees (acquire_span env cls s)
acquire_span-Acquired env s cls (n ∷ rest) frees known pool u apart =
    let (t, run, ring, spans, same, lock) = acquire_span-suspended env s cls n rest frees u in
    rw run (suspended_first t ring spans same lock)
acquire_span-Acquired env s cls [] (n ∷ rest) known pool u apart =
    let (t, run, ring, span, class, same, lock) =
      acquire_span-free env s cls n rest known u (apart n rest refl) in
    rw run (free_next t ring span class same lock)
acquire_span-Acquired env s cls [] [] known pool u apart =
    elim (Bool-cases (leb (s.pool.free_start + span_size) s.pool.end)) [
      | inl fits ↦
          let room : s.pool.free_start + span_size ≤ s.pool.end = ground (arith, fits) in
          let (t, run, carved, _) = acquire_span-carve env s cls known pool u room in
          rw run (cut t room carved)
      | inr full ↦
          let over : s.pool.end < s.pool.free_start + span_size = ground (arith, full) in
          elim (acquire_span-grow env s cls known pool u over) [
            | inl (apart_from, run) ↦ rw run (elsewhere over apart_from)
            | inr (adjacent, (t, run, carved, end)) ↦ rw run (grown t over adjacent carved end)
          ]
    ]
