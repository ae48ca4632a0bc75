-- ===== src/Alloc/Entry/Refines.antt =====
-- `wl_malloc` and `wl_free` of src/wlmalloc.c keep to the abstract allocator over any sequence of
-- calls on the span that a thread has in use.
use rmm.Base.{
  ℕ, zero, suc, ◌+◌, ◌-◌, ◌≤◌, ◌<◌, ◌≡◌, refl, sym, ap, arith, List, [], ◌∷◌, ◌++◌, ◌∙◌, false,
  subst, length, length-append, take, drop, get_or, All, All-append,
}
use rmm.ListHead.Chain.{SameOutside}
use rmm.SizeClass.{size2cls, class_size}
use rmm.Alloc.{State, Env, ok, blk_list, span_bytes, span_size, tc_free_list}
use rmm.Alloc.Blocks.{get_blk, blk_cnt, is_suspend}
use rmm.Alloc.Blocks.Layout.{IsBlock}
use rmm.Alloc.Blocks.Invariant.{IsSpan, OnlySpan}
use rmm.Alloc.Blocks.Release.{emptied, give_back-stays}
use rmm.Alloc.Blocks.Apart.{get_blk-links}
use rmm.Alloc.Entry.{wl_malloc, wl_free}
use rmm.Alloc.Entry.RoundTrip.{
  Serves, Owned, wl_malloc-Handed, wl_malloc-get_blk, wl_free-give_back,
}
use rmm.Alloc.Entry.Kind.{
  Clear-All, SameKind, Standing-kept, state_or, get_blk-SameKind, give_back-SameKind,
}
use rmm.Alloc.Entry.Contract.{
  Call, ask, give, Clear, Step, asked, given, Steps, stop, next, client, Fits, Standing,
}

-- A list with one of its elements in the middle.
pub around :
    (k : ℕ) (lives : List ℕ)
    → k < length lives
    → (lives ≡ take k lives ++ get_or lives k 0 ∷ drop (suc k) lives) × (length (take k lives) ≡ k)
around k [] h = absurd (omega arith)
around zero (x ∷ lives) h = (refl, refl)
around (suc k) (x ∷ lives) h =
    let (split, long) = around k lives (omega arith) in (ap (◌∷◌ x) split, ap suc long)

module _ (env : Env) (fuel self p cls : ℕ) where
  abbrev size : ℕ
  size = class_size cls

  abbrev low : ℕ
  low = p + span_bytes

  abbrev high : ℕ
  high = p + span_size

  pub ask-Step :
      (s : State) (sz used : ℕ) (frees lives : List ℕ)
      → Standing s self p cls
      → IsSpan s p used frees lives
      → 0 < sz
      → sz ≤ 16384
      → size2cls sz ≡ cls
      → length lives < blk_cnt (class_size cls)
      → (a : ℕ) × (t : State) × (used' : ℕ) × (frees' : List ℕ) × (wl_malloc env fuel self sz s
          ≡ ok a t)
        × Step low high size lives (ask sz) (a ∷ lives)
        × IsSpan t p used' frees' (a ∷ lives)
        × Standing t self p cls
        × OnlySpan p s t
        × SameOutside (blk_list p ∷ frees) s.links t.links
  ask-Step s sz used frees lives st inv some small of_class room =
      let v : Serves s self p sz = record {
        ready = st.ready;
        some_size = some;
        small = small;
        current = rw of_class st.current;
        not_null = st.not_null;
        class = st.class ∙ sym of_class;
        aligned = st.aligned;
      } in
      let cnt = ap class_size st.class in
      let pos : 0 < (s.span p).free_cnt = omega (arith, inv.count, ap blk_cnt cnt) in
      let (a, t, run, handed, fits) =
        wl_malloc-Handed env fuel self p sz used frees lives s v inv pos in
      let run' : get_blk p s ≡ ok a t = sym (wl_malloc-get_blk env fuel self p sz s v pos) ∙ run in
      let kind : SameKind (s.span p) (t.span p) =
        subst (λ r. SameKind (s.span p) ((state_or r s).span p)) run' (get_blk-SameKind s p) in
      let same : class_size (t.span p).cls ≡ size = ap class_size (kind.class ∙ st.class) in
      let (_, both) =
        (All-append (IsBlock p (class_size (t.span p).cls) handed.used) handed.frees (a ∷ lives)).0
          handed.span.blocks in
      let clear =
        Clear-All p (class_size (t.span p).cls) handed.used a lives both.0 both.1 handed.fresh in
      (
        a,
        t,
        handed.used,
        handed.frees,
        run,
        asked (omega (arith, fits, cnt)) handed.above (omega (arith, handed.fits, same))
            (subst (λ n. All (Clear n a) lives) same clear),
        handed.span,
        Standing-kept s t self p cls st kind handed.only,
        handed.only,
        get_blk-links s p used a frees lives t inv pos run',
      )

  pub give-Step :
      (s : State) (used k : ℕ) (frees lives : List ℕ)
      → Standing s self p cls
      → IsSpan s p used frees lives
      → k < length lives
      → (t : State) × (wl_free env self (get_or lives k 0) s ≡ ok tt t)
        × Step low high size lives (give k) (take k lives ++ drop (suc k) lives)
        × IsSpan t p used (get_or lives k 0 ∷ frees) (take k lives ++ drop (suc k) lives)
        × Standing t self p cls
        × OnlySpan p s t
        × SameOutside (get_or lives k 0 ∷ blk_list p ∷ frees) s.links t.links
  unfolding is_suspend
  give-Step s used k frees lives st inv below =
      let (split, long) = around k lives below in
      let a : ℕ = get_or lives k 0 in
      let xs : List ℕ = take k lives in
      let ys : List ℕ = drop (suc k) lives in
      let inv' : IsSpan s p used frees (xs ++ a ∷ ys) =
        subst (λ l. IsSpan s p used frees l) split inv in
      let o : Owned s self p a = record {
        owner = st.owner;
        above = st.above;
        below = st.below;
        aligned = st.aligned;
      } in
      let stays : emptied (s.span p) ≡ false = rw (st.state, is_suspend) in
      let (t, run', after, outside, only, _) =
        give_back-stays s p used a frees xs ys inv' (tc_free_list self) stays in
      let run = wl_free-give_back env self p a used frees xs ys s o inv' ∙ run' in
      let kind : SameKind (s.span p) (t.span p) =
        subst (λ r. SameKind (s.span p) ((state_or r s).span p)) run'
          (give_back-SameKind s p a (tc_free_list self) stays) in
      (
        t,
        run,
        subst (λ n. Step low high size lives (give n) (xs ++ ys)) long (given a xs ys split),
        after,
        Standing-kept s t self p cls st kind only,
        only,
        outside,
      )

  pub length-give :
      (k : ℕ) (lives : List ℕ)
      → k < length lives
      → length (take k lives ++ drop (suc k) lives) ≡ length lives - 1
  length-give k lives below =
      let (split, long) = around k lives below in
      omega (
        arith,
        ap length split,
        length-append (take k lives) (drop (suc k) lives),
        length-append (take k lives) (get_or lives k 0 ∷ drop (suc k) lives),
      )

  -- Over any sequence of calls that the span can serve, the code returns each time, and does what the
  -- abstract allocator may do: it hands out large enough blocks between the span's header and its end
  -- that share no byte with a block that the client holds, and takes back the block that it is given.
  -- In the end the span is in order again, with just the client's blocks live.
  pub client-Steps :
      (calls : List Call) (s : State) (used : ℕ) (frees lives : List ℕ)
      → Standing s self p cls
      → IsSpan s p used frees lives
      → Fits (blk_cnt size) cls (length lives) calls
      → (last : List ℕ) × (t : State) × (used' : ℕ) × (frees' : List ℕ) × (client env fuel self
            calls lives s
          ≡ ok last t)
        × Steps low high size lives calls last
        × IsSpan t p used' frees' last
        × Standing t self p cls
  unfolding client
  client-Steps [] s used frees lives st inv fit = (lives, s, used, frees, refl, stop, inv, st)
  client-Steps (ask sz ∷ calls) s used frees lives st inv fit =
      let (a, t, used1, frees1, run, step, inv1, st1, _, _) =
        ask-Step s sz used frees lives st inv fit.0 fit.1 fit.2 fit.3 in
      let (last, u, used2, frees2, run', steps, inv2, st2) =
        client-Steps calls t used1 frees1 (a ∷ lives) st1 inv1 fit.4 in
      (last, u, used2, frees2, rw run run', next step steps, inv2, st2)
  client-Steps (give k ∷ calls) s used frees lives st inv fit =
      let (t, run, step, inv1, st1, _, _) = give-Step s used k frees lives st inv fit.0 in
      let (last, u, used2, frees2, run', steps, inv2, st2) =
        client-Steps calls t used (get_or lives k 0 ∷ frees) (take k lives ++ drop (suc k) lives)
          st1 inv1 (rw (length-give k lives fit.0) fit.1) in
      (last, u, used2, frees2, rw run run', next step steps, inv2, st2)
