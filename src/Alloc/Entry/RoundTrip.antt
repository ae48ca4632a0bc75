-- ===== src/Alloc/Entry/RoundTrip.antt =====
-- `wl_malloc` and `wl_free` of src/wlmalloc.c on the span that a thread has in use.
use rmm.Base.{
  ℕ, ◌+◌, ◌%◌, ◌≤◌, ◌<◌, ◌≡◌, ◌≢◌, arith, List, ◌∷◌, ◌++◌, ◌==◌, ◌∙◌, false, true, ltb, ==_iff,
}
use rmm.SizeClass.{size2cls, class_size, default_class_num}
use rmm.SizeClass.BestFit.{size2cls-IsBest}
use rmm.Alloc.{State, Env, ok, span_size, get_header, tc_free_list}
use rmm.Alloc.Blocks.{get_blk, span_free_blk, give_back}
use rmm.Alloc.Blocks.Layout.{get_header_lem}
use rmm.Alloc.Blocks.Invariant.{IsSpan, OnlySpan, get_blk-freed}
use rmm.Alloc.Blocks.Hand.{Handed, get_blk-Handed, live_inside}
use rmm.Alloc.Blocks.Release.{emptied, give_back-stays}
use rmm.Alloc.ThreadCache.{small_alloc}
use rmm.Alloc.Entry.{wl_malloc, wl_free, outside}

-- The thread has been set up, and the span at `p` is the one that it has in use for requests of
-- `sz` bytes.
pub record Serves (s : State) (self p sz : ℕ) : Type 0 where
  pub ready : s.thread_state self ≡ true
  pub some_size : 0 < sz
  pub small : sz ≤ 16384
  pub current : s.using self (size2cls sz) ≡ p
  pub not_null : p ≢ 0
  pub class : (s.span p).cls ≡ size2cls sz
  pub aligned : p % span_size ≡ 0

-- `wl_malloc` is then `get_blk` on that span.
pub wl_malloc-get_blk :
    (env : Env) (fuel self p sz : ℕ) (s : State)
    → Serves s self p sz
    → 0 < (s.span p).free_cnt
    → wl_malloc env fuel self sz s ≡ get_blk p s
unfolding wl_malloc small_alloc
wl_malloc-get_blk env fuel self p sz s v pos =
    let sized : (sz == 0) ≡ false = ground (arith, v.some_size) in
    let best = size2cls-IsBest sz v.some_size v.small in
    let small : ltb (size2cls sz) default_class_num ≡ true = ground (arith, best.small) in
    let there : (p == 0) ≡ false = ground (arith, v.not_null) in
    let some_free : ((s.span p).free_cnt == 0) ≡ false = ground arith in
    rw (v.ready, sized, small, v.current, there, some_free, v.current)

-- A thread that is set up asks for 1 to 16384 bytes, and its span in use for that size has a free
-- block: `wl_malloc` returns a block that is not live, inside the span, with room for the bytes
-- asked for, whose header `GET_HEADER` finds, and touches no other span.
pub wl_malloc-Handed :
    (env : Env) (fuel self p sz used : ℕ) (frees lives : List ℕ) (s : State)
    → Serves s self p sz
    → IsSpan s p used frees lives
    → 0 < (s.span p).free_cnt
    → (a : ℕ) × (t : State) × (wl_malloc env fuel self sz s ≡ ok a t)
      × Handed s p lives a t
      × (sz ≤ class_size (s.span p).cls)
wl_malloc-Handed env fuel self p sz used frees lives s v inv pos =
    let (a, t, run, handed) = get_blk-Handed s p used frees lives v.aligned inv pos in
    let best = size2cls-IsBest sz v.some_size v.small in
    (a, t, wl_malloc-get_blk env fuel self p sz s v pos ∙ run, handed, rw v.class best.fits)

-- `a` is a block of the pool, live in the span at `p`, which belongs to the calling thread.
pub record Owned (s : State) (self p a : ℕ) : Type 0 where
  pub owner : (s.span p).owner ≡ self
  pub above : s.pool.start ≤ p
  pub below : p + span_size ≤ s.pool.end
  pub aligned : p % span_size ≡ 0

-- Then `wl_free` of a live block is `give_back` to the thread's own free list.
pub wl_free-give_back :
    (env : Env) (self p a used : ℕ) (frees xs ys : List ℕ) (s : State)
    → Owned s self p a
    → IsSpan s p used frees (xs ++ a ∷ ys)
    → wl_free env self a s ≡ give_back p a (tc_free_list self) s
unfolding wl_free span_free_blk
wl_free-give_back env self p a used frees xs ys s o inv =
    let (lo, hi) = live_inside s p used frees xs ys a inv in
    let some_block : (a == 0) ≡ false = ground arith in
    let within : outside s a ≡ false = ground (arith, o.above, o.below) in
    let header : get_header a ≡ p = get_header_lem p a o.aligned (omega arith) hi in
    let own : ((s.span p).owner == self) ≡ true = (==_iff (s.span p).owner self).1 o.owner in
    rw (some_block, within, header, own)

-- A thread frees a live block of a span that it owns, and the span is not a suspended one that this
-- empties: `wl_free` puts the block back, first among the free ones, and touches no other span.
pub wl_free-own :
    (env : Env) (self p a used : ℕ) (frees xs ys : List ℕ) (s : State)
    → Owned s self p a
    → IsSpan s p used frees (xs ++ a ∷ ys)
    → emptied (s.span p) ≡ false
    → (t : State) × (wl_free env self a s ≡ ok tt t)
      × IsSpan t p used (a ∷ frees) (xs ++ ys)
      × OnlySpan p s t
      × ((t.span p).cls ≡ (s.span p).cls)
wl_free-own env self p a used frees xs ys s o inv stays =
    let (t, run, after, _, only, cls) =
      give_back-stays s p used a frees xs ys inv (tc_free_list self) stays in
    (t, wl_free-give_back env self p a used frees xs ys s o inv ∙ run, after, only, cls)

-- Memory is reused at once: when a thread frees a live block of its span in use, which it owns and
-- which is not a suspended one that this empties, and then asks for a size of the same class,
-- `wl_malloc` returns that very block.
pub wl_malloc-wl_free :
    (env : Env) (fuel self p a sz used : ℕ) (frees xs ys : List ℕ) (s : State)
    → Serves s self p sz
    → Owned s self p a
    → IsSpan s p used frees (xs ++ a ∷ ys)
    → emptied (s.span p) ≡ false
    → (t u : State) × (wl_free env self a s ≡ ok tt t)
      × (wl_malloc env fuel self sz t ≡ ok a u)
      × IsSpan u p used frees (a ∷ xs ++ ys)
wl_malloc-wl_free env fuel self p a sz used frees xs ys s v o inv stays =
    let (t, run, after, only, cls) = wl_free-own env self p a used frees xs ys s o inv stays in
    let v' : Serves t self p sz = record {
      ready = rw only.thread_state v.ready;
      some_size = v.some_size;
      small = v.small;
      current = rw only.using v.current;
      not_null = v.not_null;
      class = cls ∙ v.class;
      aligned = v.aligned;
    } in
    let pos : 0 < (t.span p).free_cnt = omega (arith, after.count, after.carved, after.room) in
    let (u, run', again, _, _) = get_blk-freed t p used a frees (xs ++ ys) after pos in
    (t, u, run, wl_malloc-get_blk env fuel self p sz t v' pos ∙ run', again)
