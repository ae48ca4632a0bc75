-- ===== src/Gc/Sweep/Garbage.antt =====
-- What the sweep of src/wlgc.c gives to `free`.
use rmm.Base.{ℕ, ◌≡◌, ◌⊎◌, inl, inr, arith, List, [], ◌∷◌, ◌∈◌, Bool-cases, false, ◌==◌, ==_iff}
use rmm.Gc.{Cell, is_marked}
use rmm.Gc.Sweep.Chain.{garbage}

-- What was given to `free` before is still among it.
garbage-keeps : (c : ℕ → Cell) (b : ℕ) (xs freed : List ℕ) → b ∈ freed → b ∈ garbage c xs freed
unfolding garbage
garbage-keeps c b [] freed m = m
garbage-keeps c b (x ∷ xs) freed m =
    garbage-keeps c b xs _
      (elim (Bool-cases (is_marked (c x))) [ inl m_x ↦ rw m_x m | inr un ↦ rw un (ground arith) ])

pub garbage-dead :
    (c : ℕ → Cell) (a : ℕ) (xs freed : List ℕ)
    → a ∈ xs
    → is_marked (c a) ≡ false
    → (a ∈ garbage c xs freed) × ((c a).p ∈ garbage c xs freed)
unfolding garbage
garbage-dead c a [] freed m dead = cc
garbage-dead c a (x ∷ xs) freed m dead = elim (Bool-cases (a == x)) [
  | inl e ↦
      let same : a ≡ x = (==_iff a x).0 e in
      let dead' : is_marked (c x) ≡ false = rw same at dead in
      rw (same, dead')
        (
          garbage-keeps c x xs (x ∷ (c x).p ∷ freed) (ground arith),
          garbage-keeps c (c x).p xs (x ∷ (c x).p ∷ freed) (ground arith),
        )
  | inr ne ↦ garbage-dead c a xs _ (ground arith) dead
]

-- What has been given to `free` was given before, or is an unmarked block, or its memory.
pub garbage-mem :
    (c : ℕ → Cell) (b : ℕ) (xs freed : List ℕ)
    → b ∈ garbage c xs freed
    → (b ∈ freed) ⊎ (a : ℕ) × (a ∈ xs) × (is_marked (c a) ≡ false) × ((b ≡ a) ⊎ (b ≡ (c a).p))
unfolding garbage
garbage-mem c b [] freed m = inl m
garbage-mem c b (x ∷ xs) freed m = elim (garbage-mem c b xs _ m) [
  | inr (a, inside, dead, which) ↦ inr (a, ground arith, dead, which)
  | inl old ↦ elim (Bool-cases (is_marked (c x))) [
    | inl m_x ↦ inl (rw m_x at old)
    | inr un ↦
        let old' : b ∈ x ∷ (c x).p ∷ freed = rw un at old in
        elim (Bool-cases (b == x)) [
          | inl e ↦ inr (x, ground arith, un, inl ((==_iff b x).0 e))
          | inr ne ↦ elim (Bool-cases (b == (c x).p)) [
            | inl e ↦ inr (x, ground arith, un, inr ((==_iff b (c x).p).0 e))
            | inr ne' ↦ inl (ground arith)
          ]
        ]
  ]
]
