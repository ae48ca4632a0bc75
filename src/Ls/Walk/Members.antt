-- ===== src/Ls/Walk/Members.antt =====
-- Members of the lists that `showdirs` of src/ls.c rearranges and chooses from.
use mathlib.Core.List.{Memᴰ}
use mathlib.Core.List.Memᴰ.{head, tail}
use rmm.Base.{
  ◌≡◌, refl, sym, ap, subst, ◌∙◌, arith, ◌&&◌, Bool, true, Bool-cases, inl, inr, List, [], ◌∷◌, All,
}
use rmm.Ls.Sort.Moves.{Rearranged, count}
use rmm.Ls.Split.{chosen}

module _ {A : Type 0} where
  pub All-self : (P : A → Type 0) (xs : List A) → ((x : A) → Memᴰ x xs → P x) → All P xs
  All-self P [] h = tt
  All-self P (x ∷ xs) h = (h x (head refl), All-self P xs (λ y m. h y (tail m)))

  pub All-mem : (P : A → Type 0) {x : A} {xs : List A} → All P xs → Memᴰ x xs → P x
  All-mem P h (head is) = subst P (sym is) h.0
  All-mem P h (tail m) = All-mem P h.1 m

  pub Rearranged-mem : {xs ys : List A} {x : A} → Rearranged xs ys → Memᴰ x xs → Memᴰ x ys
  Rearranged-mem {ys = ys} r m =
      All-mem (λ y. Memᴰ y ys) (r.back (λ y. Memᴰ y ys) (All-self (λ y. Memᴰ y ys) ys (λ y h. h))) m

  pub Rearranged-mem_back : {xs ys : List A} {x : A} → Rearranged xs ys → Memᴰ x ys → Memᴰ x xs
  Rearranged-mem_back {xs = xs} r m =
      All-mem (λ y. Memᴰ y xs) (r.keeps (λ y. Memᴰ y xs) (All-self (λ y. Memᴰ y xs) xs (λ y h. h)))
        m

  cons_mem :
      (test : A → Bool) (xs : List A) {x y : A} {kept : List A}
      → test y ≡ true
      → Memᴰ x (y ∷ kept)
      → (Memᴰ x kept → Memᴰ x xs × (test x ≡ true))
      → Memᴰ x (y ∷ xs) × (test x ≡ true)
  cons_mem test xs hit (head is) later = (head is, ap test is ∙ hit)
  cons_mem test xs hit (tail m) later = let (inside, passes) = later m in (tail inside, passes)

  pub chosen-mem :
      (test : A → Bool) (xs : List A) {x : A}
      → Memᴰ x (chosen test xs)
      → Memᴰ x xs × (test x ≡ true)
  unfolding chosen
  chosen-mem test [] m = elim m [ ]
  chosen-mem test (y ∷ xs) m = elim (Bool-cases (test y)) [
    | inl hit ↦ cons_mem test xs hit (rw hit at m) (λ later. chosen-mem test xs later)
    | inr miss ↦ let (inside, passes) = chosen-mem test xs (rw miss at m) in (tail inside, passes)
  ]

  pub mem-chosen :
      (test : A → Bool) (xs : List A) {x : A} → Memᴰ x xs → test x ≡ true → Memᴰ x (chosen test xs)
  unfolding chosen
  mem-chosen test [] m hit = elim m [ ]
  mem-chosen test (y ∷ xs) (head is) hit = rw (sym (ap test is) ∙ hit) (head is)
  mem-chosen test (y ∷ xs) (tail m) hit = elim (Bool-cases (test y)) [
    | inl kept ↦ rw kept (tail (mem-chosen test xs m hit))
    | inr skipped ↦ rw skipped (mem-chosen test xs m hit)
  ]

  -- What a test counts among the chosen elements.
  pub count-chosen :
      (choose test : A → Bool) (xs : List A)
      → count test (chosen choose xs) ≡ count (λ x. choose x && test x) xs
  unfolding chosen count
  count-chosen choose test [] = refl
  count-chosen choose test (x ∷ xs) = elim (Bool-cases (choose x)) [
    | inl hit ↦ rw hit (omega (arith, count-chosen choose test xs))
    | inr miss ↦ rw miss (omega (arith, count-chosen choose test xs))
  ]
