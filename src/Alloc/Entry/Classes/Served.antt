-- ===== src/Alloc/Entry/Classes/Served.antt =====
-- `wl_malloc` and `wl_free` of src/wlmalloc.c keep to the abstract allocator for all size classes.
use rmm.Base.{
  ℕ, suc, ◌+◌, ◌-◌, ◌≤◌, ◌<◌, ◌≡◌, ◌≢◌, ◌⊎◌, inl, inr, refl, sym, ap, subst, arith, Bool, true,
  false, Bool-cases, ==_iff, ◌==◌, List, [], ◌∷◌, ◌++◌, length, take, drop, get_or, ◌∈◌, update,
  All, All_at, All-append,
}
use rmm.ListHead.Chain.{SameOutside}
use rmm.SizeClass.{size2cls, class_size}
use rmm.Alloc.{State, Env, ok, span_bytes, span_size, blk_list}
use rmm.Alloc.Blocks.{blk_cnt}
use rmm.Alloc.Blocks.Layout.{IsBlock, blk_bounds}
use rmm.Alloc.Blocks.Invariant.{OnlySpan}
use rmm.Alloc.Blocks.Apart.{Apart, Within, frees-Within, IsSpan-elsewhere}
use rmm.Alloc.Entry.{wl_malloc, wl_free}
use rmm.Alloc.Entry.Contract.{Call, Standing, Clear, Step, asked, given, ask, give}
use rmm.Alloc.Entry.Refines.{ask-Step, give-Step, around, length-give}
use rmm.Alloc.Entry.Classes.{
  ClassCall, want, drop_blk, ClassStep, wanted, dropped, ClassSteps, done, then_step, class_client,
  ClassFits, InOrder, Classes,
}

Standing-other :
    (s t : State) (self p q d : ℕ)
    → Standing s self q d
    → (q == p) ≡ false
    → OnlySpan p s t
    → Standing t self q d
Standing-other s t self p q d st ne only = record {
  ready = rw only.thread_state st.ready;
  current = rw only.using st.current;
  not_null = st.not_null;
  class = rw (only.others q ne) st.class;
  owner = rw (only.others q ne) st.owner;
  state = rw (only.others q ne) st.state;
  above = rw only.pool st.above;
  below = rw only.pool st.below;
  aligned = st.aligned;
}

InOrder-other :
    (s t : State) (p q : ℕ) (lives cs : List ℕ)
    → InOrder s q lives
    → Apart q p
    → (q == p) ≡ false
    → OnlySpan p s t
    → SameOutside cs s.links t.links
    → All (Within p) cs
    → InOrder t q lives
InOrder-other s t p q lives cs o apart ne only same within = record {
  used = o.used;
  frees = o.frees;
  span =
      IsSpan-elsewhere s t q p o.used o.frees lives cs o.span apart (only.others q ne) same within;
}

-- A property of all classes after the blocks of one have changed.
update_all :
    (on : ℕ → Bool) (lives : ℕ → List ℕ) (cls : ℕ) (l : List ℕ) (P : ℕ → List ℕ → Type 0)
    → P cls l
    → ((d : ℕ) → on d ≡ true → (d == cls) ≡ false → P d (lives d))
    → (d : ℕ) → on d ≡ true
    → P d (update lives cls l d)
update_all on lives cls l P here others d is_on = elim (Bool-cases (d == cls)) [
  | inl same ↦ rw same (subst (λ c. P c l) (sym ((==_iff d cls).0 same)) here)
  | inr differs ↦ rw differs (others d is_on differs)
]

differs_ne : (d c : ℕ) → (d == c) ≡ false → d ≢ c
differs_ne d c e = ground (arith, e)

Apart-differs : (p q : ℕ) → Apart p q → (p == q) ≡ false
Apart-differs p q apart = ground (arith, apart)

Clear-spans :
    (p q a b m n : ℕ)
    → p + span_bytes ≤ a
    → a + m ≤ p + span_size
    → q ≤ b
    → b + n ≤ q + span_size
    → Apart q p
    → (a + m ≤ b) ⊎ (b + n ≤ a)
Clear-spans p q a b m n low high low' high' (inl before) = inr (omega (arith, before))
Clear-spans p q a b m n low high low' high' (inr behind) = inl (omega (arith, behind))

module _ (self : ℕ) (at : ℕ → ℕ) (on : ℕ → Bool) where
  -- Work on the span of one class keeps the others as they are.
  Classes-step :
      (s t : State) (lives : ℕ → List ℕ) (cls : ℕ) (l cs : List ℕ)
      → Classes s self at on lives
      → on cls ≡ true
      → Standing t self (at cls) cls
      → InOrder t (at cls) l
      → OnlySpan (at cls) s t
      → SameOutside cs s.links t.links
      → All (Within (at cls)) cs
      → Classes t self at on (update lives cls l)
  Classes-step s t lives cls l cs c is_on st here only same within = record {
    standing = λ d d_on. elim (Bool-cases (d == cls)) [
      | inl e ↦ subst (λ x. Standing t self (at x) x) (sym ((==_iff d cls).0 e)) st
      | inr ne ↦
          let apart = c.apart d cls d_on is_on (differs_ne d cls ne) in
          Standing-other s t self (at cls) (at d) d (c.standing d d_on)
            (Apart-differs (at d) (at cls) apart) only
    ];
    spans =
        update_all on lives cls l (λ d ls. InOrder t (at d) ls) here
          (λ d d_on ne.
            let apart = c.apart d cls d_on is_on (differs_ne d cls ne) in
            InOrder-other s t (at cls) (at d) (lives d) cs (c.spans d d_on) apart
              (Apart-differs (at d) (at cls) apart) only same within);
    apart = c.apart;
  }

  -- A live block lies in its span.
  live_within :
      (s : State) (p d b : ℕ) (lives : List ℕ)
      → InOrder s p lives
      → (s.span p).cls ≡ d
      → b ∈ lives
      → (p ≤ b) × (b + class_size d ≤ p + span_size)
  live_within s p d b lives o class inside =
      let sz : ℕ = class_size (s.span p).cls in
      let blocks = ((All-append (IsBlock p sz o.used) o.frees lives).0 o.span.blocks).1 in
      let is : IsBlock p sz o.used b = All_at (IsBlock p sz o.used) b lives blocks inside in
      let (lo, hi) = blk_bounds p sz is.index (omega (arith, is.below, o.span.room)) in
      (omega (arith, lo, is.place), omega (arith, hi, is.place, ap class_size class))

  -- A block of one class is clear of all the client's blocks.
  Clear-each :
      (s : State) (lives : ℕ → List ℕ) (cls a : ℕ)
      → Classes s self at on lives
      → on cls ≡ true
      → at cls + span_bytes ≤ a
      → a + class_size cls ≤ at cls + span_size
      → All (Clear (class_size cls) a) (lives cls)
      → (d b : ℕ) → on d ≡ true
      → b ∈ lives d
      → (a + class_size cls ≤ b) ⊎ (b + class_size d ≤ a)
  Clear-each s lives cls a c is_on low high clear d b d_on inside = elim (Bool-cases (d == cls)) [
    | inl e ↦
        let same : d ≡ cls = (==_iff d cls).0 e in
        let inside' : b ∈ lives cls = subst (λ x. b ∈ lives x) same inside in
        subst (λ x. (a + class_size cls ≤ b) ⊎ (b + class_size x ≤ a)) (sym same)
          (All_at (Clear (class_size cls) a) b (lives cls) clear inside')
    | inr ne ↦
        let apart = c.apart d cls d_on is_on (differs_ne d cls ne) in
        let within =
          live_within s (at d) d b (lives d) (c.spans d d_on) (c.standing d d_on).class inside in
        Clear-spans (at cls) (at d) a b (class_size cls) (class_size d) low high within.0 within.1
          apart
  ]

-- What a step says of the block that it hands out.
abbrev Facts : (low high size : ℕ) (lives : List ℕ) → Call → List ℕ → Type 0
Facts low high size lives (ask sz) [] = Unit
Facts low high size lives (ask sz) (a ∷ after) =
    (sz ≤ size) × (low ≤ a) × (a + size ≤ high) × All (Clear size a) lives
Facts low high size lives (give k) after = Unit

Step-Facts :
    {low high size : ℕ} {lives : List ℕ} {call : Call} {after : List ℕ}
    → Step low high size lives call after
    → Facts low high size lives call after
Step-Facts (asked fits above below clear) = (fits, above, below, clear)
Step-Facts (given a xs ys split) = tt

-- The lengths after the blocks of one class have changed.
lengths_update :
    (on : ℕ → Bool) (n : ℕ → ℕ) (lives : ℕ → List ℕ) (cls m : ℕ) (l : List ℕ)
    → ((c : ℕ) → on c ≡ true → n c ≡ length (lives c))
    → m ≡ length l
    → (c : ℕ) → on c ≡ true
    → update n cls m c ≡ length (update lives cls l c)
lengths_update on n lives cls m l same e c c_on = elim (Bool-cases (c == cls)) [
  | inl here ↦ rw here e
  | inr ne ↦ rw ne (same c c_on)
]

module _ (env : Env) (fuel self : ℕ) (at : ℕ → ℕ) (on : ℕ → Bool) where
  want-Step :
      (s : State) (lives : ℕ → List ℕ) (sz : ℕ)
      → Classes s self at on lives
      → 0 < sz
      → sz ≤ 16384
      → on (size2cls sz) ≡ true
      → length (lives (size2cls sz)) < blk_cnt (class_size (size2cls sz))
      → (a : ℕ) × (t : State) × (wl_malloc env fuel self sz s ≡ ok a t)
        × ClassStep on lives (want sz) (update lives (size2cls sz) (a ∷ lives (size2cls sz)))
        × Classes t self at on (update lives (size2cls sz) (a ∷ lives (size2cls sz)))
  want-Step s lives sz c some small is_on room =
      let cls : ℕ = size2cls sz in
      let o = c.spans cls is_on in
      let (a, t, used, frees, run, step, inv, st, only, same) =
        ask-Step env fuel self (at cls) cls s sz o.used o.frees (lives cls) (c.standing cls is_on)
          o.span some small refl room in
      let (fits, low, high, clear) = Step-Facts step in
      (
        a,
        t,
        run,
        wanted a fits (Clear-each self at on s lives cls a c is_on low high clear),
        Classes-step self at on s t lives cls (a ∷ lives cls) (blk_list (at cls) ∷ o.frees) c is_on
            st (record { used = used; frees = frees; span = inv }) only same
            (frees-Within s (at cls) o.used o.frees (lives cls) o.span),
      )

  drop_blk-Step :
      (s : State) (lives : ℕ → List ℕ) (cls k : ℕ)
      → Classes s self at on lives
      → on cls ≡ true
      → k < length (lives cls)
      → (t : State) × (wl_free env self (get_or (lives cls) k 0) s ≡ ok tt t)
        × ClassStep on lives
            (drop_blk cls k)
            (update lives cls (take k (lives cls) ++ drop (suc k) (lives cls)))
        × Classes t self at on (update lives cls (take k (lives cls) ++ drop (suc k) (lives cls)))
  drop_blk-Step s lives cls k c is_on below =
      let o = c.spans cls is_on in
      let a : ℕ = get_or (lives cls) k 0 in
      let xs : List ℕ = take k (lives cls) in
      let ys : List ℕ = drop (suc k) (lives cls) in
      let (split, long) = around k (lives cls) below in
      let (t, run, step, inv, st, only, same) =
        give-Step env fuel self (at cls) cls s o.used k o.frees (lives cls) (c.standing cls is_on)
          o.span below in
      let after : InOrder t (at cls) (xs ++ ys) = record {
        used = o.used;
        frees = a ∷ o.frees;
        span = inv;
      } in
      let within = frees-Within s (at cls) o.used o.frees (lives cls) o.span in
      let within_t = frees-Within t (at cls) o.used (a ∷ o.frees) (xs ++ ys) inv in
      (
        t,
        run,
        subst (λ n. ClassStep on lives (drop_blk cls n) (update lives cls (xs ++ ys))) long
            (dropped cls a xs ys split),
        Classes-step self at on s t lives cls (xs ++ ys) (a ∷ blk_list (at cls) ∷ o.frees) c is_on
            st after only same (within_t.1.0, within),
      )

  -- Over any sequence of calls for several size classes that the spans in use can serve, the code
  -- returns each time and does what the abstract allocator may do: each new block has room for the
  -- bytes asked for and shares no byte with a block of any class that the client holds, and a block
  -- that is given back is taken. In the end all these spans are in order, with just the client's
  -- blocks live.
  pub class_client-Steps :
      (calls : List ClassCall) (s : State) (lives : ℕ → List ℕ) (n : ℕ → ℕ)
      → Classes s self at on lives
      → ((c : ℕ) → on c ≡ true → n c ≡ length (lives c))
      → ClassFits on n calls
      → (last : ℕ → List ℕ) × (t : State) × (class_client env fuel self calls lives s ≡ ok last t)
        × ClassSteps on lives calls last
        × Classes t self at on last
  unfolding class_client
  class_client-Steps [] s lives n c same fit = (lives, s, refl, done, c)
  class_client-Steps (want sz ∷ calls) s lives n c same fit =
      let cls : ℕ = size2cls sz in
      let (some, small, is_on, room, rest) = fit in
      let (a, t, run, step, c') =
        want-Step s lives sz c some small is_on (omega (arith, room, same cls is_on)) in
      let (last, u, run', steps, c'') =
        class_client-Steps calls t (update lives cls (a ∷ lives cls)) (update n cls (suc (n cls)))
          c'
          (lengths_update on n lives cls (suc (n cls)) (a ∷ lives cls) same
            (ap suc (same cls is_on)))
          rest in
      (last, u, rw run run', then_step step steps, c'')
  class_client-Steps (drop_blk cls k ∷ calls) s lives n c same fit =
      let (is_on, below, rest) = fit in
      let inside : k < length (lives cls) = omega (arith, below, same cls is_on) in
      let left : List ℕ = take k (lives cls) ++ drop (suc k) (lives cls) in
      let (t, run, step, c') = drop_blk-Step s lives cls k c is_on inside in
      let (last, u, run', steps, c'') =
        class_client-Steps calls t (update lives cls left) (update n cls (n cls - 1)) c'
          (lengths_update on n lives cls (n cls - 1) left same (
            omega
              (arith, length-give env fuel self (at cls) cls k (lives cls) inside, same cls is_on)))
          rest in
      (last, u, rw run run', then_step step steps, c'')
