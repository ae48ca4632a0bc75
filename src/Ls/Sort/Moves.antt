-- ===== src/Ls/Sort/Moves.antt =====
-- The loops of `shellsort` of src/ls.c end, stay inside the array and only rearrange it.
use mathlib.Core.Option.{some-injective}
use rmm.Base.{
  ℕ, zero, suc, ◌+◌, ◌-◌, ◌≤◌, ◌<◌, ◌≡◌, ◌≢◌, refl, sym, subst, ◌∙◌, arith, Bool, true, false,
  Bool-cases, inl, inr, ltb, if◌then◌else◌, some, List, [], ◌∷◌, length, get_elem?, set, length-set,
  get_elem?-set_ne, get_elem?-set_self, All,
}
use rmm.Ls.{Sign}
use rmm.Ls.Sort.{in_order, sift, pass}

module _ {A : Type 0} where
  -- How many elements pass a test.
  unfoldable pub count : (A → Bool) → List A → ℕ
  count test [] = 0
  count test (x ∷ xs) = (if test x then 1 else 0) + count test xs

  -- The same elements, each as often, as every test counts them.
  pub record Rearranged (dn dn' : List A) : Type 1 where
    pub size : length dn' ≡ length dn
    pub counts : (test : A → Bool) → count test dn' ≡ count test dn
    pub keeps : (P : A → Type 0) → All P dn → All P dn'
    pub back : (P : A → Type 0) → All P dn' → All P dn

module _ {A : Type 0} where
  pub Rearranged-refl : (dn : List A) → Rearranged dn dn
  Rearranged-refl dn = record {
    size = refl;
    counts = λ test. refl;
    keeps = λ P h. h;
    back = λ P h. h;
  }

  pub Rearranged-trans :
      {dn dn' dn'' : List A} → Rearranged dn dn' → Rearranged dn' dn'' → Rearranged dn dn''
  Rearranged-trans r s = record {
    size = s.size ∙ r.size;
    counts = λ test. s.counts test ∙ r.counts test;
    keeps = λ P h. s.keeps P (r.keeps P h);
    back = λ P h. r.back P (s.back P h);
  }

  count-set :
      (test : A → Bool) (dn : List A) (i : ℕ) (old new : A)
      → get_elem? dn i ≡ some old
      → count test (set dn i new) + (if test old then 1 else 0)
        ≡ count test dn + (if test new then 1 else 0)
  unfolding count
  count-set test [] i old new at = absurd (cc at)
  count-set test (x ∷ dn) zero old new at = rw (some-injective x old at) (omega arith)
  count-set test (x ∷ dn) (suc i) old new at = omega (arith, count-set test dn i old new at)

  All-set :
      (P : A → Type 0) (dn : List A) (i : ℕ) (new : A) → P new → All P dn → All P (set dn i new)
  All-set P [] i new p h = tt
  All-set P (x ∷ dn) zero new p h = (p, h.1)
  All-set P (x ∷ dn) (suc i) new p h = (h.0, All-set P dn i new p h.1)

  pub All_get :
      (P : A → Type 0) (dn : List A) (i : ℕ) (a : A) → get_elem? dn i ≡ some a → All P dn → P a
  All_get P [] i a at h = absurd (cc at)
  All_get P (x ∷ dn) zero a at h = subst P (some-injective x a at) h.0
  All_get P (x ∷ dn) (suc i) a at h = All_get P dn i a at h.1

  pub get_elem?-in : (dn : List A) (i : ℕ) → i < length dn → (a : A) × (get_elem? dn i ≡ some a)
  get_elem?-in [] i lt = absurd (omega arith)
  get_elem?-in (x ∷ dn) zero lt = (x, refl)
  get_elem?-in (x ∷ dn) (suc i) lt = get_elem?-in dn i (omega arith)

  get_elem?-bound : (dn : List A) (i : ℕ) (a : A) → get_elem? dn i ≡ some a → i < length dn
  get_elem?-bound [] i a at = absurd (cc at)
  get_elem?-bound (x ∷ dn) zero a at = omega arith
  get_elem?-bound (x ∷ dn) (suc i) a at = omega (arith, get_elem?-bound dn i a at)

  All-unset :
      (P : A → Type 0) (dn : List A) (i : ℕ) (old new : A)
      → get_elem? dn i ≡ some old
      → P old
      → All P (set dn i new)
      → All P dn
  All-unset P [] i old new at p h = tt
  All-unset P (x ∷ dn) zero old new at p h = (subst P (sym (some-injective x old at)) p, h.1)
  All-unset P (x ∷ dn) (suc i) old new at p h = (h.0, All-unset P dn i old new at p h.1)

  -- Two elements exchanged.
  pub swap-Rearranged :
      (dn : List A) (i j : ℕ) (a b : A)
      → i ≢ j
      → get_elem? dn i ≡ some a
      → get_elem? dn j ≡ some b
      → Rearranged dn (set (set dn i b) j a)
  swap-Rearranged dn i j a b ne at_i at_j =
      let still : get_elem? (set dn i b) j ≡ some b = get_elem?-set_ne dn b ne ∙ at_j in
      record {
        size = length-set (set dn i b) j a ∙ length-set dn i b;
        counts = λ test.
            omega (arith, count-set test (set dn i b) j b a still, count-set test dn i a b at_i);
        keeps = λ P h.
            All-set P (set dn i b) j a (All_get P dn i a at_i h)
              (All-set P dn i b (All_get P dn j b at_j h) h);
        back = λ P h.
            let dn' = set (set dn i b) j a in
            let at_i' : get_elem? dn' i ≡ some b =
              get_elem?-set_ne (set dn i b) a (λ e. ne (sym e))
              ∙ get_elem?-set_self dn i b (get_elem?-bound dn i a at_i) in
            let at_j' : get_elem? dn' j ≡ some a =
              get_elem?-set_self (set dn i b) j a (get_elem?-bound (set dn i b) j b still) in
            All-unset P dn i a b at_i (All_get P dn' j a at_j' h)
              (All-unset P (set dn i b) j b a still (All_get P dn' i b at_i' h) h);
      }

  -- Two elements exchanged, as the loop over `j` does it.
  abbrev pub exchanged : (dn : List A) (i j : ℕ) (a b : A) → List A
  exchanged dn i j a b = set (set dn i b) j a

-- What the loop over `j` does from `j`, as a relation between the arrays before and after.
pub data Sifted {A : Type 0} (cmp : A → A → Sign) (gap : ℕ) : ℕ → List A → List A → Type 0 where
  stop :
      (j : ℕ) (dn : List A) (a b : A)
      → get_elem? dn j ≡ some a
      → get_elem? dn (j + gap) ≡ some b
      → in_order (cmp a b) ≡ true
      → Sifted cmp gap j dn dn
  last :
      (j : ℕ) (dn : List A) (a b : A)
      → get_elem? dn j ≡ some a
      → get_elem? dn (j + gap) ≡ some b
      → in_order (cmp a b) ≡ false
      → j < gap
      → Sifted cmp gap j dn (exchanged dn j (j + gap) a b)
  more :
      (j : ℕ) (dn dn' : List A) (a b : A)
      → get_elem? dn j ≡ some a
      → get_elem? dn (j + gap) ≡ some b
      → in_order (cmp a b) ≡ false
      → (lower : ℕ) → j ≡ lower + gap
      → Sifted cmp gap lower (exchanged dn j (j + gap) a b) dn'
      → Sifted cmp gap j dn dn'

module _ {A : Type 0} (cmp : A → A → Sign) (gap : ℕ) (some_gap : 0 < gap) where
  -- The fuel is above j, and the places that the loop reads are in the array.
  pub sift-Sifted :
      (fuel j : ℕ) (dn : List A)
      → j < fuel
      → j + gap < length dn
      → (dn' : List A) × (sift cmp gap fuel j dn ≡ some dn') × Sifted cmp gap j dn dn'
  unfolding sift
  sift-Sifted zero j dn enough inside = absurd (omega arith)
  sift-Sifted (suc fuel) j dn enough inside =
      let (a, at_j) = get_elem?-in dn j (omega arith) in
      let (b, at_gap) = get_elem?-in dn (j + gap) inside in
      let swapped = swap-Rearranged dn j (j + gap) a b (omega arith) at_j at_gap in
      rw (sift, at_j, at_gap)
        (elim (Bool-cases (in_order (cmp a b))) [
          | inl halt ↦ rw halt (dn, refl, stop j dn a b at_j at_gap halt)
          | inr go ↦ rw go (elim (Bool-cases (ltb j gap)) [
            | inl end ↦ rw end (_, refl, last j dn a b at_j at_gap go (ground arith))
            | inr rest ↦
                let (dn', run, sifted) =
                  sift-Sifted fuel (j - gap) (exchanged dn j (j + gap) a b) (ground arith)
                    (ground (arith, swapped.size)) in
                rw rest (dn', run, more j dn dn' a b at_j at_gap go (j - gap) (ground arith) sifted)
          ])
        ])

  pub Sifted-Rearranged : {j : ℕ} {dn dn' : List A} → Sifted cmp gap j dn dn' → Rearranged dn dn'
  Sifted-Rearranged (stop j dn a b at_j at_gap halt) = Rearranged-refl dn
  Sifted-Rearranged (last j dn a b at_j at_gap go end) =
      swap-Rearranged dn j (j + gap) a b (omega arith) at_j at_gap
  Sifted-Rearranged (more j dn dn' a b at_j at_gap go lower down sifted) =
      Rearranged-trans (swap-Rearranged dn j (j + gap) a b (omega arith) at_j at_gap)
        (Sifted-Rearranged sifted)

  -- The loop over `i`, up to the end of the array.
  pub pass-returns :
      (rounds i : ℕ) (dn : List A)
      → gap ≤ i
      → i + rounds ≡ length dn
      → (dn' : List A) × (pass cmp gap rounds i dn ≡ some dn') × Rearranged dn dn'
  unfolding pass
  pass-returns zero i dn low at_end = (dn, refl, Rearranged-refl dn)
  pass-returns (suc rounds) i dn low at_end =
      let (mid, run, sifted) = sift-Sifted (i + 1) (i - gap) dn (omega arith) (omega arith) in
      let r = Sifted-Rearranged sifted in
      let (dn', rest, r') = pass-returns rounds (i + 1) mid (omega arith) (omega (arith, r.size)) in
      (dn', rw (pass, run) rest, Rearranged-trans r r')
