-- ===== src/Alloc/ThreadCache/Exit.antt =====
-- `thread_exit` of src/wlmalloc.c gives a thread's spans to the pool.
use rmm.Base.{
  ℕ, ◌+◌, ◌≤◌, ◌<◌, ◌≡◌, ◌≢◌, refl, sym, subst, arith, true, false, Bool-cases, inl, inr, ◌==◌,
  ==_iff, ltb, List, [], ◌∷◌, ◌++◌, All, length, length-append, update,
}
use rmm.ListHead.{Links, list_splice_tail}
use rmm.ListHead.Chain.{IsRing}
use rmm.SizeClass.{default_class_num}
use rmm.Alloc.{
  State, Span, Env, ok, node, span_of_node, tc_suspend, tc_free_list, pool_suspend, pool_free_list,
  pool_lock, pool_owner, mutex_lock, mutex_unlock,
}
use rmm.Alloc.ThreadCache.{thread_exit}
use rmm.Alloc.ThreadCache.Zones.{Pair, Joined-frame, Pair-splice}
use rmm.Alloc.ThreadCache.Leave.{
  in_use_of, Lists, held, Loose, suspend_using-Lists, give_suspended-Given,
}
use rmm.Alloc.ThreadCache.Disown.{given_spans, given_spans-owned, given_spans-other}

-- The spans of a class that the thread leaves: those suspended, and then the one in use.
abbrev pub leaves : State → (self : ℕ) → (ℕ → List ℕ) → ℕ → List ℕ
leaves s self suspended i = suspended i ++ in_use_of s self i

-- What `thread_exit` does, from `s` to `t`.
pub record Exited (env : Env) (self : ℕ) (suspended pools : ℕ → List ℕ) (free pool_free : List ℕ)
    (s t : State) : Type 0 where
  -- Behind the pool's suspended spans of a class come the thread's.
  pub suspended_spans :
      (i : ℕ)
      → i < default_class_num
      → IsRing t.links (pool_suspend env.pool_at i) (pools i ++ leaves s self suspended i)
  -- Behind the pool's free spans come the thread's.
  pub free_spans : IsRing t.links (pool_free_list env.pool_at) (pool_free ++ free)
  -- The pool owns the spans that were suspended or in use.
  pub owned :
      (i : ℕ)
      → i < default_class_num
      → All (λ c. (t.span (span_of_node c)).owner ≡ pool_owner) (leaves s self suspended i)
  -- Every other header is as before.
  pub others :
      (p : ℕ)
      → ((i : ℕ)
          → i < default_class_num
          → All (λ c. p ≢ span_of_node c) (leaves s self suspended i))
      → t.span p ≡ s.span p
  -- No mutex is held that was free.
  pub locks : (m : ℕ) → t.locked m ≡ s.locked m

module _ (zone : ℕ → ℕ) (env : Env) (self : ℕ) where
  -- The lists with the spans in use behind the suspended ones.
  Lists-leaves :
      (l : Links) (s : State) (suspended pools : ℕ → List ℕ) (free pool_free : List ℕ)
      → Lists zone env self default_class_num l
          (held zone env self default_class_num s suspended default_class_num)
          pools
          free
          pool_free
      → Lists zone env self default_class_num l (leaves s self suspended) pools free pool_free
  Lists-leaves l s suspended pools free pool_free lists = record {
    pairs = λ i below.
        let inside : ltb i default_class_num ≡ true = ground (arith, below) in
        subst (λ xs. Pair zone l i (tc_suspend self i) (pool_suspend env.pool_at i) xs (pools i))
          (rw inside refl) (lists.pairs i below);
    free_pair = lists.free_pair;
  }

  length-leaves :
      (s : State) (suspended : ℕ → List ℕ) (i : ℕ)
      → length (leaves s self suspended i) ≤ length (suspended i) + 1
  length-leaves s suspended i = elim (Bool-cases (s.using self i == 0)) [
    | inl none ↦ rw none (omega (arith, length-append (suspended i) []))
    | inr some ↦ rw some (omega (arith, length-append (suspended i) (node (s.using self i) ∷ [])))
  ]

  -- `thread_exit` returns, when the pool's mutex is free, the thread's lists and the pool's are in
  -- order and apart, no span in use is on a list, and the fuel is above the lengths of the lists: the
  -- pool's lists have all the spans of the thread, each behind their own, and the pool owns those that
  -- were suspended or in use; no other header and no mutex changes, so the free spans keep their owner.
  pub thread_exit-Exited :
      (fuel : ℕ) (s : State) (suspended pools : ℕ → List ℕ) (free pool_free : List ℕ)
      → Lists zone env self default_class_num s.links suspended pools free pool_free
      → Loose zone env self default_class_num s suspended
      → s.locked (pool_lock env.pool_at) ≡ false
      → ((i : ℕ) → i < default_class_num → length (suspended i) + 1 < fuel)
      → (t : State) × (thread_exit env fuel self s ≡ ok tt t)
        × Exited env self suspended pools free pool_free s t
  unfolding thread_exit mutex_lock mutex_unlock
  thread_exit-Exited fuel s suspended pools free pool_free lists loose unlocked enough =
      let n : ℕ = default_class_num in
      let p : ℕ = pool_lock env.pool_at in
      let (l1, run1, held1) =
        suspend_using-Lists zone env self n s suspended pools free pool_free lists loose n
          (omega arith) in
      let lists1 = Lists-leaves l1 s suspended pools free pool_free held1 in
      let s1 : State = record s { links = l1; locked = update s.locked p true } in
      let (l2, run2, given) =
        give_suspended-Given zone env self n s1 fuel (leaves s self suspended) pools free pool_free
          lists1 (λ i below. omega (arith, length-leaves s suspended i, enough i below)) n
          (omega arith) in
      let (joined, agree) =
        Pair-splice zone l2 n (tc_free_list self) (pool_free_list env.pool_at) free pool_free
          given.free_pair in
      let spans : ℕ → Span = given_spans (leaves s self suspended) n s.span in
      let t : State = record s {
        links = list_splice_tail (tc_free_list self) (pool_free_list env.pool_at) l2;
        span = spans;
        locked = update (update s.locked p true) p false;
      } in
      (
        t,
        rw (run1, unlocked, run2) refl,
        record {
          suspended_spans = λ i below.
              (Joined-frame zone i (pool_suspend env.pool_at i)
                (pools i ++ leaves s self suspended i) agree (omega (arith, below))
                (given.joined i below)).ring;
          free_spans = joined.ring;
          owned = λ i below. given_spans-owned (leaves s self suspended) s.span n i below;
          others = λ q apart. given_spans-other (leaves s self suspended) s.span n q apart;
          locks = λ m. elim (Bool-cases (m == p)) [
            | inl e ↦ rw e (sym (subst (λ q. s.locked q ≡ false) (sym ((==_iff m p).0 e)) unlocked))
            | inr e ↦ rw e refl
          ];
        },
      )
