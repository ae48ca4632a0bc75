-- ===== src/Gc/Mark/Ends.antt =====
-- The recursion of the mark phase ends: each level marks one more block.
use rmm.Base.{
  ℕ, zero, suc, ◌+◌, ◌-◌, ◌≤◌, ◌<◌, ◌≡◌, refl, ◌∙◌, inl, inr, arith, Option, some, Option-cases,
  List, [], ◌∷◌, ◌∈◌, ◌==◌, false, Bool-cases, ==_iff, if◌then◌else◌, length,
}
use rmm.Gc.{Gc, is_marked, size_of, search}
use rmm.Gc.Mark.{gc_mark_alloc, scan, set_mark}
use rmm.Gc.Mark.Graph.{
  SameTable, SameTable-trans, Marked, set_mark-SameTable, set_mark-Marked, set_mark-other,
  search-same,
}
use rmm.Gc.Mark.Reachable.{gc_mark_alloc-Spread}

-- How many of these blocks are not marked.
abbrev pub unmarked : List ℕ → Gc → ℕ
unmarked [] g = 0
unmarked (a ∷ l) g = (if is_marked (g.cell a) then 0 else 1) + unmarked l g

pub unmarked-le-length : (l : List ℕ) (g : Gc) → unmarked l g ≤ length l
unmarked-le-length [] g = omega arith
unmarked-le-length (a ∷ l) g = ground (arith, unmarked-le-length l g)

unmarked_mono :
    (l : List ℕ) (g h : Gc) → ((x : ℕ) → Marked g x → Marked h x) → unmarked l h ≤ unmarked l g
unmarked_mono [] g h grows = omega arith
unmarked_mono (a ∷ l) g h grows = ground (arith, grows a, unmarked_mono l g h grows)

set_mark-grows : (a : ℕ) (g : Gc) (x : ℕ) → Marked g x → Marked (set_mark a g) x
set_mark-grows a g x m = elim (Bool-cases (x == a)) [
  | inl e ↦ rw ((==_iff x a).0 e) (set_mark-Marked a g)
  | inr ne ↦ rw (set_mark-other a x g ne) m
]

unmarked-set_mark :
    (l : List ℕ) (a : ℕ) (g : Gc)
    → a ∈ l
    → is_marked (g.cell a) ≡ false
    → unmarked l (set_mark a g) < unmarked l g
unmarked-set_mark [] a g m un = cc
unmarked-set_mark (x ∷ xs) a g m un = elim (Bool-cases (x == a)) [
  | inl e ↦
      let now = set_mark-Marked a g in
      let fewer = unmarked_mono xs g (set_mark a g) (set_mark-grows a g) in
      rw ((==_iff x a).0 e, now, un) (omega arith)
  | inr ne ↦
      let fewer = unmarked-set_mark xs a g (ground arith) un in
      rw (set_mark-other a x g ne) (omega arith)
]

-- `l` holds every block that a pointer can lead to.
module _ (word : ℕ → ℕ) (g0 : Gc) (l : List ℕ)
    (cover : (p a : ℕ) → search g0 p ≡ some a → a ∈ l) where
  abbrev pub Ends : ℕ → (ℕ → Gc → Option Gc) → Type 0
  Ends fuel visit =
      (a : ℕ) (g : Gc)
      → SameTable g0 g
      → a ∈ l
      → unmarked l g < fuel
      → (g' : Gc) × (visit a g ≡ some g') × SameTable g0 g' × ((x : ℕ) → Marked g x → Marked g' x)

  pub scan-Ends :
      (fuel : ℕ) (visit : ℕ → Gc → Option Gc)
      → Ends fuel visit
      → (n at : ℕ) (g : Gc) → SameTable g0 g
      → unmarked l g < fuel
      → (g' : Gc) × (scan word visit n at g ≡ some g')
  unfolding scan
  scan-Ends fuel visit ends zero at g like h = (g, refl)
  scan-Ends fuel visit ends (suc n) at g like h = elim (Option-cases (search g0 (word at))) [
    | inl miss ↦
        let (g', run) = scan-Ends fuel visit ends n (at + 1) g like h in
        (g', rw (search-same g0 g (word at) like ∙ miss, scan) run)
    | inr (a, hit) ↦
        let (k, went, like', grows) = ends a g like (cover (word at) a hit) h in
        let fewer = unmarked_mono l g k grows in
        let (g', run) = scan-Ends fuel visit ends n (at + 1) k like' (omega arith) in
        (g', rw (search-same g0 g (word at) like ∙ hit, scan, went) run)
  ]

  pub gc_mark_alloc-Ends : (fuel : ℕ) → Ends fuel (gc_mark_alloc word fuel)
  unfolding gc_mark_alloc
  gc_mark_alloc-Ends zero a g like m h = absurd (omega arith)
  gc_mark_alloc-Ends (suc fuel) a g like m h = elim (Bool-cases (is_marked (g.cell a))) [
    | inl old ↦ (g, rw old, like, λ x mx. mx)
    | inr new ↦
        let like' = SameTable-trans g0 g (set_mark a g) like (set_mark-SameTable a g) in
        let fewer = unmarked-set_mark l a g m new in
        let (g', run) =
          scan-Ends fuel (gc_mark_alloc word fuel) (gc_mark_alloc-Ends fuel)
            (size_of (g.cell a) - 7) (g.cell a).p (set_mark a g) like' (omega arith) in
        let whole : gc_mark_alloc word (suc fuel) a g ≡ some g' = rw new run in
        let spread = gc_mark_alloc-Spread word g0 (suc fuel) a g g' like whole in
        (g', whole, spread.same, spread.grows)
  ]
