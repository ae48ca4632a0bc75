-- ===== src/Ls/Layout/Once.antt =====
-- `showfiles` of src/ls.c lists each entry once.
use rmm.Base.{
  ℕ, zero, suc, ◌+◌, ◌*◌, ◌≤◌, ◌<◌, ◌≡◌, ◌≢◌, refl, ◌∙◌, arith, Bool, true, false, Bool-cases,
  ==_iff, inl, inr, ltb, ◌==◌, if◌then◌else◌, List, [], ◌∷◌, ◌++◌, length,
}
use rmm.Ls.{Dnode}
use rmm.Ls.Layout.Place.{cell-Place, grid-covers}
use rmm.Ls.Layout.{
  Format, Grid, grid, Shown, entry, line_end, for_each, cell, show_cell, show_grid, columns,
  longest, showfiles,
}

-- How often the entry k is listed.
pub times : (k : ℕ) → List Shown → ℕ
times k [] = 0
times k (entry i ∷ out) = (if i == k then 1 else 0) + times k out
times k (line_end ∷ out) = times k out

times-append : (k : ℕ) (xs ys : List Shown) → times k (xs ++ ys) ≡ times k xs + times k ys
unfolding times
times-append k [] ys = omega arith
times-append k (entry i ∷ xs) ys = omega (arith, times-append k xs ys)
times-append k (line_end ∷ xs) ys = times-append k xs ys

-- No round lists the entry.
times-for_each_none :
    (k count from : ℕ) (body : ℕ → List Shown)
    → ((j : ℕ) → from ≤ j → j < from + count → times k (body j) ≡ 0)
    → times k (for_each count from body) ≡ 0
unfolding for_each times
times-for_each_none k zero from body none = refl
times-for_each_none k (suc count) from body none =
    let rest =
      times-for_each_none k count (from + 1) body (λ j ge lt. none j (omega arith) (omega arith)) in
    omega (
      arith,
      times-append k (body from) (for_each count (from + 1) body),
      none from (omega arith) (omega arith),
      rest,
    )

-- One round lists the entry once and the others do not.
times-for_each_one :
    (k count from j : ℕ) (body : ℕ → List Shown)
    → from ≤ j
    → j < from + count
    → times k (body j) ≡ 1
    → ((i : ℕ) → i < from + count → i ≢ j → times k (body i) ≡ 0)
    → times k (for_each count from body) ≡ 1
unfolding for_each times
times-for_each_one k zero from j body ge lt once others = absurd (omega arith)
times-for_each_one k (suc count) from j body ge lt once others =
    let split = times-append k (body from) (for_each count (from + 1) body) in
    elim (Bool-cases (from == j)) [
      | inl same ↦
          let e : from ≡ j = (==_iff from j).0 same in
          let rest = times-for_each_none k count (from + 1) body (λ i low high.
            others i (omega arith) (λ same_index. absurd (omega (arith, e, low, same_index)))) in
          let first : times k (body from) ≡ 1 = rw e once in omega (arith, split, rest, first)
      | inr differs ↦
          let ne : from ≢ j = ground arith in
          let rest =
            times-for_each_one k count (from + 1) j body (omega (arith, ne)) (omega arith) once
              (λ i high. others i (omega arith)) in
          omega (arith, split, rest, others from (omega arith) ne)
    ]

times-show_cell_here :
    (disp_rows : Bool) (g : Grid) (nfiles row nc k : ℕ)
    → cell disp_rows g row nc ≡ k
    → k < nfiles
    → times k (show_cell disp_rows g nfiles row nc) ≡ 1
unfolding times show_cell
times-show_cell_here b g nfiles row nc k here below =
    let inside : ltb k nfiles ≡ true = ground arith in
    let same : (k == k) ≡ true = ground arith in rw (here, inside, same) refl

times-show_cell_elsewhere :
    (disp_rows : Bool) (g : Grid) (nfiles row nc k : ℕ)
    → cell disp_rows g row nc ≢ k
    → times k (show_cell disp_rows g nfiles row nc) ≡ 0
unfolding times show_cell
times-show_cell_elsewhere b g nfiles row nc k elsewhere =
    let differs : (cell b g row nc == k) ≡ false = ground arith in
    elim (Bool-cases (ltb (cell b g row nc) nfiles)) [
      | inl e ↦ rw (e, differs) refl
      | inr e ↦ rw e refl
    ]

times-show_cell_beyond :
    (disp_rows : Bool) (g : Grid) (nfiles row nc k : ℕ)
    → nfiles ≤ k
    → times k (show_cell disp_rows g nfiles row nc) ≡ 0
unfolding times show_cell
times-show_cell_beyond b g nfiles row nc k beyond =
    elim (Bool-cases (ltb (cell b g row nc) nfiles)) [
      | inl e ↦ let differs : (cell b g row nc == k) ≡ false = ground arith in rw (e, differs) refl
      | inr e ↦ rw e refl
    ]

times-line : (k : ℕ) (xs : List Shown) → times k (xs ++ line_end ∷ []) ≡ times k xs
unfolding times
times-line k xs = omega (arith, times-append k xs (line_end ∷ []))

times-show_grid :
    (disp_rows : Bool) (g : Grid) (nfiles k : ℕ)
    → nfiles ≤ g.nrows * g.ncols
    → times k (show_grid disp_rows g nfiles) ≡ (if ltb k nfiles then 1 else 0)
unfolding show_grid
times-show_grid b g nfiles k covered =
    let row_of : ℕ → List Shown = λ row. for_each g.ncols 0 (show_cell b g nfiles row) in
    let line : ℕ → List Shown = λ row. row_of row ++ line_end ∷ [] in
    elim (Bool-cases (ltb k nfiles)) [
      | inl e ↦
          let below : k < nfiles = ground arith in
          let p = cell-Place b g k (omega (arith, below, covered)) in
          let once : times k (row_of p.row) ≡ 1 =
            times-for_each_one k g.ncols 0 p.nc (show_cell b g nfiles p.row) (omega arith)
              (omega (arith, p.nc_bound))
              (times-show_cell_here b g nfiles p.row p.nc k p.here below)
              (λ c bound ne.
                times-show_cell_elsewhere b g nfiles p.row c k
                  (λ at. ne (p.only p.row c p.row_bound (omega (arith, bound)) at).1)) in
          let others : (r : ℕ) → r < 0 + g.nrows → r ≢ p.row → times k (line r) ≡ 0 = λ r bound ne.
            times-line k (row_of r)
            ∙ times-for_each_none k g.ncols 0 (show_cell b g nfiles r) (λ c low high.
              times-show_cell_elsewhere b g nfiles r c k
                (λ at. ne (p.only r c (omega (arith, bound)) (omega (arith, high)) at).0)) in
          rw e (
            times-for_each_one k g.nrows 0 p.row line (omega arith) (omega (arith, p.row_bound))
              (times-line k (row_of p.row) ∙ once) others)
      | inr e ↦
          let beyond : nfiles ≤ k = ground arith in
          rw e (
            times-for_each_none k g.nrows 0 line (λ r low high.
              times-line k (row_of r)
              ∙ times-for_each_none k g.ncols 0 (show_cell b g nfiles r)
                  (λ c low high. times-show_cell_beyond b g nfiles r c k beyond)))
    ]

-- Each entry of the array is listed once, and no other index, in columns and in rows, for each width
-- of the terminal and of the names.
pub showfiles-once :
    (fmt : Format) (dn : List Dnode) (k : ℕ)
    → times k (showfiles fmt dn) ≡ (if ltb k (length dn) then 1 else 0)
unfolding showfiles times
showfiles-once fmt [] k = ground arith
showfiles-once fmt (x ∷ dn) k =
    let nfiles : ℕ = length (x ∷ dn) in
    let ncols : ℕ = columns fmt (longest fmt (x ∷ dn) 0) in
    times-show_grid fmt.disp_rows (grid ncols nfiles) nfiles k (grid-covers ncols nfiles)
