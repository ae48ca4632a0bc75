-- ===== src/Gc/Mark/Reachable.antt =====
-- What one run of the marking loops has marked: no more than what its starting points reach, and
-- with each new block all that it leads to.
use mathlib.Core.Option.{some-injective}
use mathlib.Core.Path.{subst₂}
use rmm.Base.{
  ℕ, zero, suc, ◌+◌, ◌-◌, ◌<◌, ◌≡◌, refl, sym, ◌∙◌, ◌⊎◌, inl, inr, arith, Option, none, some,
  Option-cases, ◌==◌, false, Bool-cases, ==_iff, ap, subst,
}
use rmm.Gc.{Gc, is_marked, size_of, search}
use rmm.Gc.Mark.{gc_mark_alloc, scan, set_mark}
use rmm.Gc.Mark.Graph.{
  SameTable, SameTable-trans, Marked, set_mark-SameTable, set_mark-Marked, set_mark-other,
  search-same, Target, Edge, Reach, here, Reach-first,
}

-- `g0` is the table when marking starts; it fixes the graph.
module _ (word : ℕ → ℕ) (g0 : Gc) where
  -- From `g` to `g'` blocks reachable from those in `From` were marked, with all that they lead to.
  pub record Spread (From : ℕ → Type 0) (g g' : Gc) : Type 0 where
    pub same : SameTable g0 g'
    pub grows : (x : ℕ) → Marked g x → Marked g' x
    pub sound : (x : ℕ) → Marked g' x → Marked g x ⊎ ((s : ℕ) × From s × Reach word g0 s x)
    pub closed :
        (x y : ℕ) → Marked g' x → is_marked (g.cell x) ≡ false → Edge word g0 x y → Marked g' y
    pub seeds : (s : ℕ) → From s → Marked g' s

  -- One run after another.
  module _ (From To Both : ℕ → Type 0) (g h k : Gc) (split : (s : ℕ) → Both s → From s ⊎ To s)
      (left : (s : ℕ) → From s → Both s) (right : (s : ℕ) → To s → Both s) where
    then_sound :
        Spread From g h
        → Spread To h k
        → (x : ℕ) → Marked k x
        → Marked g x ⊎ ((s : ℕ) × Both s × Reach word g0 s x)
    then_sound a b x m = elim (b.sound x m) [
      | inr (s, to, r) ↦ inr (s, right s to, r)
      | inl m' ↦ elim (a.sound x m') [
        | inl m0 ↦ inl m0
        | inr (s, from, r) ↦ inr (s, left s from, r)
      ]
    ]

    then_closed :
        Spread From g h
        → Spread To h k
        → (x y : ℕ) → Marked k x
        → is_marked (g.cell x) ≡ false
        → Edge word g0 x y
        → Marked k y
    then_closed a b x y m un e = elim (Bool-cases (is_marked (h.cell x))) [
      | inl before ↦ b.grows y (a.closed x y before un e)
      | inr later ↦ b.closed x y m later e
    ]

    then_seeds : Spread From g h → Spread To h k → (s : ℕ) → Both s → Marked k s
    then_seeds a b s both = elim (split s both) [
      | inl from ↦ b.grows s (a.seeds s from)
      | inr to ↦ b.seeds s to
    ]

    and_then : Spread From g h → Spread To h k → Spread Both g k
    and_then a b = record {
      same = b.same;
      grows = λ x m. b.grows x (a.grows x m);
      sound = then_sound a b;
      closed = then_closed a b;
      seeds = then_seeds a b;
    }

  -- `visit` marks what its argument reaches.
  abbrev pub Visits : (ℕ → Gc → Option Gc) → Type 0
  Visits visit =
      (a : ℕ) (g g' : Gc) → SameTable g0 g → visit a g ≡ some g' → Spread (λ s. s ≡ a) g g'

  Target-first : (n at s : ℕ) → search g0 (word at) ≡ some s → Target word g0 (suc n) at s
  Target-first n at s found =
      let e : at + 0 ≡ at = omega arith in
      record { offset = 0; inside = omega arith; found = rw e found }

  Target-later : (n at s : ℕ) → Target word g0 n (at + 1) s → Target word g0 (suc n) at s
  Target-later n at s t =
      let e : at + (t.offset + 1) ≡ at + 1 + t.offset = omega arith in
      record { offset = t.offset + 1; inside = omega (arith, t.inside); found = rw e t.found }

  Target-split :
      (n at s : ℕ)
      → Target word g0 (suc n) at s
      → (search g0 (word at) ≡ some s) ⊎ Target word g0 n (at + 1) s
  Target-split n at s t = go t.offset t.inside t.found
    where
      go :
          (k : ℕ)
          → k < suc n
          → search g0 (word (at + k)) ≡ some s
          → (search g0 (word at) ≡ some s) ⊎ Target word g0 n (at + 1) s
      go zero h found = let e : at + 0 ≡ at = omega arith in inl (rw e at found)
      go (suc k) h found =
          let e : at + suc k ≡ at + 1 + k = omega arith in
          inr (record { offset = k; inside = omega arith; found = rw e at found })

  no-Target : (at s : ℕ) → ¬ Target word g0 0 at s
  no-Target at s t = absurd (omega (arith, t.inside))

  -- Where nothing is found, the targets are those of the rest.
  skip :
      (n at : ℕ) (g g' : Gc)
      → search g0 (word at) ≡ none
      → Spread (Target word g0 n (at + 1)) g g'
      → Spread (Target word g0 (suc n) at) g g'
  skip n at g g' miss a = record {
    same = a.same;
    grows = a.grows;
    sound = λ x m. elim (a.sound x m) [
      | inl m0 ↦ inl m0
      | inr (s, t, r) ↦ inr (s, Target-later n at s t, r)
    ];
    closed = a.closed;
    seeds = λ s t. elim (Target-split n at s t) [ inl found ↦ cc | inr t' ↦ a.seeds s t' ];
  }

  no_loop : (at : ℕ) (g : Gc) → SameTable g0 g → Spread (Target word g0 0 at) g g
  no_loop at g like = record {
    same = like;
    grows = λ x m. m;
    sound = λ x m. inl m;
    closed = λ x y m un e. cc;
    seeds = λ s t. absurd (no-Target at s t);
  }

  -- A loop over memory spreads from what the addresses lead to.
  pub scan-Spread :
      (visit : ℕ → Gc → Option Gc)
      → Visits visit
      → (n at : ℕ) (g g' : Gc) → SameTable g0 g
      → scan word visit n at g ≡ some g'
      → Spread (Target word g0 n at) g g'
  unfolding scan
  scan-Spread visit visits zero at g g' like run =
      subst (λ k. Spread (Target word g0 0 at) g k) (some-injective _ _ run) (no_loop at g like)
  scan-Spread visit visits (suc n) at g g' like run = elim (Option-cases (search g0 (word at))) [
    | inl miss ↦
        let miss' : search g (word at) ≡ none = search-same g0 g (word at) like ∙ miss in
        skip n at g g' miss
          (scan-Spread visit visits n (at + 1) g g' like (rw (miss', scan) at run))
    | inr (a, hit) ↦
        let hit' : search g (word at) ≡ some a = search-same g0 g (word at) like ∙ hit in
        elim (Option-cases (visit a g)) [
          | inl stopped ↦ cc (rw (hit', scan, stopped) at run)
          | inr (h, went) ↦
              let first = visits a g h like went in
              let rest =
                scan-Spread visit visits n (at + 1) h g' first.same
                  (rw (hit', scan, went) at run) in
              and_then (λ s. s ≡ a) (Target word g0 n (at + 1)) (Target word g0 (suc n) at) g h g'
                (λ s t. elim (Target-split n at s t) [
                  | inl found ↦ inl (some-injective _ _ (sym found ∙ hit))
                  | inr t' ↦ inr t'
                ])
                (λ s e. Target-first n at s (hit ∙ ap some (sym e))) (Target-later n at) first rest
        ]
  ]

  -- A block that is marked already.
  idle : (a : ℕ) (g : Gc) → SameTable g0 g → Marked g a → Spread (λ s. s ≡ a) g g
  idle a g like m = record {
    same = like;
    grows = λ x m'. m';
    sound = λ x m'. inl m';
    closed = λ x y m' un e. cc;
    seeds = λ s e. rw e m;
  }

  -- A block that is marked, and then the loop over its memory.
  module _ (a : ℕ) (g g' : Gc) (like : SameTable g0 g)
      (rest : Spread
        (Target word g0 (size_of (g0.cell a) - 7) (g0.cell a).p)
        (set_mark a g)
        g') where
    fresh_mark : (x : ℕ) → Marked (set_mark a g) x → Marked g x ⊎ (x ≡ a)
    fresh_mark x m = elim (Bool-cases (x == a)) [
      | inl e ↦ inr ((==_iff x a).0 e)
      | inr ne ↦ inl (rw (set_mark-other a x g ne) at m)
    ]

    mark_block : Spread (λ s. s ≡ a) g g'
    mark_block = record {
      same = rest.same;
      grows = λ x m. rest.grows x (elim (Bool-cases (x == a)) [
        | inl e ↦ rw ((==_iff x a).0 e) (set_mark-Marked a g)
        | inr ne ↦ rw (set_mark-other a x g ne) m
      ]);
      sound = λ x m. elim (rest.sound x m) [
        | inr (s, t, r) ↦ inr (a, refl, Reach-first t r)
        | inl m' ↦ elim (fresh_mark x m') [
          | inl before ↦ inl before
          | inr e ↦ inr (a, refl, rw e here)
        ]
      ];
      closed = λ x y m un e. elim (Bool-cases (x == a)) [
        | inl same_block ↦ rest.seeds y (rw ((==_iff x a).0 same_block) at e)
        | inr ne ↦ rest.closed x y m (rw (set_mark-other a x g ne) un) e
      ];
      seeds = λ s e. rw e (rest.grows a (set_mark-Marked a g));
    }

  -- `gc_mark_alloc` marks its block and spreads from it.
  pub gc_mark_alloc-Spread : (fuel : ℕ) → Visits (gc_mark_alloc word fuel)
  unfolding gc_mark_alloc
  gc_mark_alloc-Spread zero a g g' like run = cc
  gc_mark_alloc-Spread (suc fuel) a g g' like run = elim (Bool-cases (is_marked (g.cell a))) [
    | inl old ↦
        subst (λ k. Spread (λ s. s ≡ a) g k) (some-injective _ _ (rw (old, gc_mark_alloc) at run))
          (idle a g like old)
    | inr new ↦
        let like' = SameTable-trans g0 g (set_mark a g) like (set_mark-SameTable a g) in
        let rest =
          scan-Spread (gc_mark_alloc word fuel) (gc_mark_alloc-Spread fuel) (size_of (g.cell a) - 7)
            (g.cell a).p (set_mark a g) g' like' (rw (new, gc_mark_alloc) at run) in
        mark_block a g g' like (
          subst₂ (λ (n at : ℕ). Spread (Target word g0 (n - 7) at) (set_mark a g) g')
            (like.extent a) (like.place a) rest)
  ]
