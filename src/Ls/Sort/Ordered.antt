-- ===== src/Ls/Sort/Ordered.antt =====
-- `shellsort` of src/ls.c sorts.
use rmm.Base.{
  ℕ, ◌+◌, ◌<◌, ◌≡◌, ◌≢◌, sym, ap, subst, ◌∙◌, arith, true, false, Bool-cases, inl, inr, ◌==◌,
  ==_iff, Option, some, List, length, get_elem?, set, length-set, get_elem?-set_ne,
  get_elem?-set_self, All,
}
use rmm.Ls.{Sign}
use rmm.Ls.Sort.{in_order}
use rmm.Ls.Sort.Moves.{swap-Rearranged, All_get, exchanged, Sifted, stop, last, more}

module _ {A : Type 0} (cmp : A → A → Sign) where
  -- Two places of an array, when both are inside it, are in order.
  abbrev pub Le : Option A → Option A → Type 0
  Le o p = (a b : A) → o ≡ some a → p ≡ some b → in_order (cmp a b) ≡ true

  -- The places k and k + 1 are in order.
  abbrev pub StepAt : List A → ℕ → Type 0
  StepAt dn k = Le (get_elem? dn k) (get_elem? dn (k + 1))

  -- A comparison of elements with P that never answers "greater" both ways.
  abbrev pub IsTotal : (A → Type 0) → Type 0
  IsTotal P = (a b : A) → P a → P b → in_order (cmp a b) ≡ false → in_order (cmp b a) ≡ true

  -- The prefix up to the place i is in order but for the places j and j + 1; without the element at
  -- j + 1 it is in order.
  pub record Almost (dn : List A) (i j : ℕ) : Type 0 where
    pub steps : (k : ℕ) → k < i → k ≢ j → StepAt dn k
    pub over : j + 1 < i → Le (get_elem? dn j) (get_elem? dn (j + 2))

  Le-cong : {o o' p p' : Option A} → o' ≡ o → p' ≡ p → Le o p → Le o' p'
  Le-cong same_o same_p le a b at_o at_p = le a b (sym same_o ∙ at_o) (sym same_p ∙ at_p)

  Le-some : {a b : A} → in_order (cmp a b) ≡ true → Le (some a) (some b)
  Le-some ordered x y at_x at_y = cc (ordered, at_x, at_y)

  -- What stands where after the exchange of the places j and j + 1.
  record Exchange (dn dn' : List A) (j : ℕ) (a b : A) : Type 0 where
    first : get_elem? dn' j ≡ some b
    second : get_elem? dn' (j + 1) ≡ some a
    other : (k : ℕ) → k ≢ j → k ≢ j + 1 → get_elem? dn' k ≡ get_elem? dn k

  exchanged-Exchange :
      (dn : List A) (j : ℕ) (a b : A)
      → j + 1 < length dn
      → Exchange dn (exchanged dn j (j + 1) a b) j a b
  exchanged-Exchange dn j a b inside = record {
    first = get_elem?-set_ne (set dn j b) a (omega arith) ∙ get_elem?-set_self dn j b (omega arith);
    second = get_elem?-set_self (set dn j b) (j + 1) a (omega (arith, length-set dn j b));
    other = λ k ne ne'.
        get_elem?-set_ne (set dn j b) a (λ e. ne' (sym e))
        ∙ get_elem?-set_ne dn b (λ e. ne (sym e));
  }

  -- The steps after an exchange, but for the one below j.
  Exchange-steps :
      (dn dn' : List A) (i j : ℕ) (a b : A)
      → Almost dn i j
      → Exchange dn dn' j a b
      → get_elem? dn j ≡ some a
      → in_order (cmp b a) ≡ true
      → (k : ℕ) → k < i
      → k + 1 ≢ j
      → StepAt dn' k
  Exchange-steps dn dn' i j a b almost e at_j flipped k below ne = elim (Bool-cases (k == j)) [
    | inl same ↦
        subst (λ n. StepAt dn' n) (sym ((==_iff k j).0 same))
          (Le-cong e.first e.second (Le-some flipped))
    | inr ne_j ↦ elim (Bool-cases (k == j + 1)) [
      | inl same ↦
          let k_is : k ≡ j + 1 = (==_iff k (j + 1)).0 same in
          let two : j + 1 + 1 ≡ j + 2 = omega arith in
          let untouched : get_elem? dn' (j + 1 + 1) ≡ get_elem? dn (j + 2) =
            e.other (j + 1 + 1) (omega arith) (omega arith) ∙ ap (get_elem? dn) two in
          subst (λ n. StepAt dn' n) (sym k_is)
            (Le-cong (e.second ∙ sym at_j) untouched (almost.over (omega (arith, k_is))))
      | inr ne_next ↦
          Le-cong (e.other k (ground arith) (ground arith)) (e.other (k + 1) ne (ground arith))
            (almost.steps k below (ground arith))
    ]
  ]

  -- The invariant one place lower.
  Exchange-Almost :
      (dn dn' : List A) (i j lower : ℕ) (a b : A)
      → Almost dn i j
      → Exchange dn dn' j a b
      → get_elem? dn j ≡ some a
      → j ≡ lower + 1
      → j < i
      → in_order (cmp b a) ≡ true
      → Almost dn' i lower
  Exchange-Almost dn dn' i j lower a b almost e at_j down below flipped = record {
    steps = λ k k_below ne.
        Exchange-steps dn dn' i j a b almost e at_j flipped k k_below (omega (arith, ne));
    over = λ more.
        let moved : get_elem? dn' (lower + 2) ≡ get_elem? dn (lower + 1) =
          ap (get_elem? dn') (omega (arith, down)) ∙ e.second ∙ sym at_j ∙ ap (get_elem? dn) down in
        Le-cong (e.other lower (omega arith) (omega arith)) moved
          (almost.steps lower (omega arith) (omega arith));
  }

  -- One run of the loop over `j` puts the element at i in its place.
  pub Sifted-steps :
      (P : A → Type 0)
      → IsTotal P
      → {j : ℕ} {dn dn' : List A} → Sifted cmp 1 j dn dn'
      → (i : ℕ) → j < i
      → i < length dn
      → All P dn
      → Almost dn i j
      → (k : ℕ) → k < i
      → StepAt dn' k
  Sifted-steps P total (stop j dn a b at_j at_next halt) i below inside all almost k k_below =
      elim (Bool-cases (k == j)) [
        | inl same ↦
            subst (λ n. StepAt dn n) (sym ((==_iff k j).0 same))
              (Le-cong at_j at_next (Le-some halt))
        | inr ne ↦ almost.steps k k_below (ground arith)
      ]
  Sifted-steps P total (last j dn a b at_j at_next go end) i below inside all almost k k_below =
      Exchange-steps dn (exchanged dn j (j + 1) a b) i j a b almost
        (exchanged-Exchange dn j a b (omega arith)) at_j
        (total a b (All_get P dn j a at_j all) (All_get P dn (j + 1) b at_next all) go) k k_below
        (omega arith)
  Sifted-steps P total (more j dn dn' a b at_j at_next go lower down sifted) i below inside all
        almost k k_below =
      let flipped = total a b (All_get P dn j a at_j all) (All_get P dn (j + 1) b at_next all) go in
      let swapped = swap-Rearranged dn j (j + 1) a b (omega arith) at_j at_next in
      Sifted-steps P total sifted i (omega arith) (omega (arith, swapped.size))
        (swapped.keeps P all)
        (Exchange-Almost dn (exchanged dn j (j + 1) a b) i j lower a b almost
          (exchanged-Exchange dn j a b (omega arith)) at_j down below flipped)
        k k_below
