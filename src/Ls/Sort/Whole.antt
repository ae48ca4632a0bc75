-- ===== src/Ls/Sort/Whole.antt =====
-- `shellsort` of src/ls.c as a whole: its last pass sorts.
use rmm.Base.{
  ℕ, zero, suc, ◌+◌, ◌-◌, ◌/◌, ◌≤◌, ◌<◌, ◌≡◌, refl, sym, subst, arith, false, Bool-cases, inl, inr,
  ◌==◌, ==_iff, ltb, some, List, length, All,
}
use rmm.Ls.{Sign}
use rmm.Ls.Sort.{pass, gaps, shellsort}
use rmm.Ls.Sort.Moves.{
  Rearranged, Rearranged-refl, Rearranged-trans, sift-Sifted, Sifted-Rearranged, pass-returns,
}
use rmm.Ls.Sort.Ordered.{IsTotal, StepAt, Almost, Sifted-steps}

module _ {A : Type 0} (cmp : A → A → Sign) where
  -- The last round over `gap`, which is 1, sorts the array.
  pass-sorts :
      (P : A → Type 0)
      → IsTotal cmp P
      → (rounds i : ℕ) (dn : List A) → 1 ≤ i
      → i + rounds ≡ length dn
      → All P dn
      → ((k : ℕ) → k + 1 < i → StepAt cmp dn k)
      → (dn' : List A) × (pass cmp 1 rounds i dn ≡ some dn')
        × Rearranged dn dn'
        × ((k : ℕ) → k + 1 < length dn → StepAt cmp dn' k)
  unfolding pass
  pass-sorts P total zero i dn low at_end all steps =
      (dn, refl, Rearranged-refl dn, λ k below. steps k (omega arith))
  pass-sorts P total (suc rounds) i dn low at_end all steps =
      let (mid, run, sifted) =
        sift-Sifted cmp 1 (omega arith) (i + 1) (i - 1) dn (omega arith) (omega arith) in
      let r = Sifted-Rearranged cmp 1 (omega arith) sifted in
      let almost : Almost cmp dn i (i - 1) = record {
        steps = λ k below ne. steps k (omega (arith, ne));
        over = λ more. absurd (omega arith);
      } in
      let done = Sifted-steps cmp P total sifted i (omega arith) (omega arith) all almost in
      let (dn', rest, r', sorted) =
        pass-sorts P total rounds (i + 1) mid (omega arith) (omega (arith, r.size)) (r.keeps P all)
          (λ k below. done k (omega arith)) in
      (dn', rw (pass, run) rest, Rearranged-trans r r', λ k below. sorted k (omega (arith, r.size)))

  gaps-zero : (fuel gap : ℕ) (dn : List A) → 0 < fuel → gap ≡ 0 → gaps cmp fuel gap dn ≡ some dn
  unfolding gaps
  gaps-zero zero gap dn some_fuel is_zero = absurd (omega arith)
  gaps-zero (suc fuel) gap dn some_fuel is_zero = rw is_zero refl

  gaps-sorts :
      (P : A → Type 0)
      → IsTotal cmp P
      → (fuel gap : ℕ) (dn : List A) → 0 < gap
      → gap < fuel
      → gap ≤ length dn
      → All P dn
      → (dn' : List A) × (gaps cmp fuel gap dn ≡ some dn')
        × Rearranged dn dn'
        × ((k : ℕ) → k + 1 < length dn → StepAt cmp dn' k)
  unfolding gaps
  gaps-sorts P total zero gap dn pos enough room all = absurd (omega arith)
  gaps-sorts P total (suc fuel) gap dn pos enough room all =
      let going : (gap == 0) ≡ false = ground arith in
      elim (Bool-cases (gap == 1)) [
        | inl is_one ↦
            let (dn', run, r, sorted) =
              pass-sorts P total (length dn - 1) 1 dn (omega arith) (omega arith) all
                (λ k below. absurd (omega arith)) in
            let is : gap ≡ 1 = (==_iff gap 1).0 is_one in
            let run' : pass cmp gap (length dn - gap) gap dn ≡ some dn' =
              subst (λ g. pass cmp g (length dn - g) g dn ≡ some dn') (sym is) run in
            (
              dn',
              rw (gaps, going, run')
                  (gaps-zero fuel (gap / 2) dn' (omega (arith, is)) (omega (arith, is))),
              r,
              sorted,
            )
        | inr above ↦
            let (mid, run, r) =
              pass-returns cmp gap pos (length dn - gap) gap dn (omega arith) (omega arith) in
            let (dn', rest, r', sorted) =
              gaps-sorts P total fuel (gap / 2) mid (ground arith) (ground arith)
                (omega (arith, r.size)) (r.keeps P all) in
            (
              dn',
              rw (gaps, going, run) rest,
              Rearranged-trans r r',
              λ k below. sorted k (omega (arith, r.size)),
            )
      ]

  -- `shellsort` ends within the array, rearranges it, and leaves neighbours in order.
  pub shellsort-sorts :
      (P : A → Type 0)
      → IsTotal cmp P
      → (dn : List A) → All P dn
      → (dn' : List A) × (shellsort cmp dn ≡ some dn')
        × Rearranged dn dn'
        × ((k : ℕ) → k + 1 < length dn → StepAt cmp dn' k)
  unfolding shellsort
  shellsort-sorts P total dn all = elim (Bool-cases (ltb (length dn) 2)) [
    | inl short ↦
        rw (shellsort, short)
          (dn, refl, Rearranged-refl dn, λ k below. absurd (ground (arith, short)))
    | inr long ↦
        rw (shellsort, long)
          (gaps-sorts P total (length dn) (length dn / 2) dn (ground (arith, long))
            (ground (arith, long)) (omega arith) all)
  ]

  gaps-returns :
      (fuel gap : ℕ) (dn : List A)
      → gap < fuel
      → gap ≤ length dn
      → (dn' : List A) × (gaps cmp fuel gap dn ≡ some dn') × Rearranged dn dn'
  unfolding gaps
  gaps-returns zero gap dn enough room = absurd (omega arith)
  gaps-returns (suc fuel) gap dn enough room = elim (Bool-cases (gap == 0)) [
    | inl ended ↦ rw (gaps, ended) (dn, refl, Rearranged-refl dn)
    | inr going ↦
        let (mid, run, r) =
          pass-returns cmp gap (ground (arith, going)) (length dn - gap) gap dn (omega arith)
            (omega arith) in
        let (dn', rest, r') =
          gaps-returns fuel (gap / 2) mid (ground (arith, going)) (ground (arith, r.size)) in
        (dn', rw (gaps, going, run) rest, Rearranged-trans r r')
  ]

  -- With any comparison `shellsort` ends within the array and rearranges it.
  pub shellsort-returns :
      (dn : List A) → (dn' : List A) × (shellsort cmp dn ≡ some dn') × Rearranged dn dn'
  unfolding shellsort
  shellsort-returns dn = elim (Bool-cases (ltb (length dn) 2)) [
    | inl short ↦ rw (shellsort, short) (dn, refl, Rearranged-refl dn)
    | inr long ↦
        rw (shellsort, long)
          (gaps-returns (length dn) (length dn / 2) dn (ground (arith, long)) (omega arith))
  ]
