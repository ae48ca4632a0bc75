-- ===== src/Alloc/Entry/Move.antt =====
-- `realloc` of src/wlmalloc.c when it has to move a block.
use rmm.Base.{
  ℕ, ◌+◌, ◌<◌, ◌≡◌, refl, sym, ap, ◌∙◌, arith, true, false, ◌&&◌, ◌==◌, leb, ltb, List, ◌∷◌, ◌++◌,
}
use rmm.Alloc.{State, Env, ok, get_header, blk_list, tc_free_list}
use rmm.Alloc.Blocks.{get_blk}
use rmm.Alloc.Blocks.Layout.{get_header_lem}
use rmm.Alloc.Blocks.Invariant.{IsSpan}
use rmm.Alloc.Blocks.Hand.{live_inside}
use rmm.Alloc.Blocks.Release.{emptied, give_back-stays}
use rmm.Alloc.Blocks.Apart.{Apart, frees-Within, IsSpan-elsewhere, get_blk-links}
use rmm.Alloc.Entry.{realloc, memcpy, outside}
use rmm.Alloc.Entry.RoundTrip.{
  Serves, Owned, wl_malloc-get_blk, wl_malloc-Handed, wl_free-give_back,
}

copied : (dst src n i : ℕ) (m : ℕ → ℕ) → i < n → memcpy dst src n m (dst + i) ≡ m (src + i)
copied dst src n i m below =
    let inside : (leb dst (dst + i) && ltb (dst + i) (dst + n)) ≡ true = ground arith in
    rw inside (ap (λ k. m (src + k)) (omega arith))

-- What `realloc` of the live block `a` of the span at `p` does when the span at `q` has the room: it
-- returns a block `b` of the span at `q` that was not live.
pub record Moved (s : State) (p q a used : ℕ) (frees lives lives' : List ℕ) (b : ℕ) (u : State)
    : Type 0 where
  -- The bytes of the old block are in the new one.
  pub content : (i : ℕ) → i < (s.span p).blk_size → u.bytes (b + i) ≡ s.bytes (a + i)
  -- The old block is free, and the first that is handed out again.
  pub old : IsSpan u p used (a ∷ frees) lives
  -- The new one is live.
  pub used' : ℕ
  pub frees' : List ℕ
  pub new : IsSpan u q used' frees' (b ∷ lives')

module _ (env : Env) (fuel self p q a size used used' : ℕ) (frees xs ys frees' lives' : List ℕ)
    (s : State) where
  -- `realloc` to a size that the block does not have returns, when the thread owns the span of the
  -- block, which this does not empty while it is suspended, and another span serves the new size: the
  -- bytes move to a new block, the old one is freed, and both spans are in order.
  pub realloc-Moved :
      Owned s self p a
      → IsSpan s p used frees (xs ++ a ∷ ys)
      → emptied (s.span p) ≡ false
      → Serves s self q size
      → IsSpan s q used' frees' lives'
      → 0 < (s.span q).free_cnt
      → Apart p q
      → (s.span p).blk_size < size
      → (b : ℕ) × (u : State) × (realloc env fuel self a size s ≡ ok b u)
        × Moved s p q a used frees (xs ++ ys) lives' b u
  unfolding realloc
  realloc-Moved own inv stays serves inv' some_free apart grows =
      let (b, t, run, handed, room) =
        wl_malloc-Handed env fuel self q size used' frees' lives' s serves inv' some_free in
      let got : get_blk q s ≡ ok b t =
        sym (wl_malloc-get_blk env fuel self q size s serves some_free) ∙ run in
      let links = get_blk-links s q used' b frees' lives' t inv' some_free got in
      let differs : (p == q) ≡ false = ground (arith, apart) in
      let header : t.span p ≡ s.span p = handed.only.others p differs in
      let inv_t : IsSpan t p used frees (xs ++ a ∷ ys) =
        IsSpan-elsewhere s t p q used frees (xs ++ a ∷ ys) (blk_list q ∷ frees') inv apart header
          links (frees-Within s q used' frees' lives' inv') in
      let t' : State = record t { bytes = memcpy b a (t.span p).blk_size t.bytes } in
      let own' : Owned t' self p a = record {
        owner = rw header own.owner;
        above = rw handed.only.pool own.above;
        below = rw handed.only.pool own.below;
        aligned = own.aligned;
      } in
      let (u, freed, old, links', only, _) =
        give_back-stays t' p used a frees xs ys inv_t (tc_free_list self) (rw header stays) in
      let free_run = wl_free-give_back env self p a used frees xs ys t' own' inv_t ∙ freed in
      let (lo, hi) = live_inside s p used frees xs ys a inv in
      let some_block : (a == 0) ≡ false = ground (arith, lo) in
      let some_size : (size == 0) ≡ false = ground (arith, serves.some_size) in
      let within : outside s a ≡ false = ground (arith, own.above, own.below, lo, hi) in
      let head : get_header a ≡ p = get_header_lem p a own.aligned (omega (arith, lo)) hi in
      let short : leb size (s.span p).blk_size ≡ false = ground (arith, grows) in
      let not_null : (b == 0) ≡ false = ground (arith, handed.above) in
      (
        b,
        u,
        rw (some_block, some_size, within, head, short, run, not_null, free_run) refl,
        record {
          content = λ i below. rw only.bytes (
              copied b a (t.span p).blk_size i t.bytes (rw header below)
              ∙ ap (λ m. m (a + i)) handed.only.bytes);
          old = old;
          used' = handed.used;
          frees' = handed.frees;
          new =
              let place = frees-Within s p used frees (xs ++ a ∷ ys) inv in
              IsSpan-elsewhere t' u q p handed.used handed.frees (b ∷ lives')
                (a ∷ blk_list p ∷ frees) handed.span (omega (arith, apart))
                (only.others q (ground (arith, apart))) links' ((omega (arith, lo), hi), place);
        },
      )
