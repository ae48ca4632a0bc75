-- ===== src/Ls/Layout/Place.antt =====
-- The rows and columns of `showfiles` of src/ls.c: each index below the product has one place.
use native.Mathlib.Nat.{lt-div-mul-add, div-add-mod, mod-lt, div-lt_iff_lt-mul, div-eq_of_lt-le}
use rmm.Base.{
  ℕ, zero, suc, ◌+◌, ◌*◌, ◌/◌, ◌%◌, ◌≤◌, ◌<◌, ◌≡◌, sym, arith, Bool, true, false, Bool-cases, inl,
  inr, ltb, if◌then◌else◌,
}
use rmm.Ls.Layout.{Grid, grid, cell}

-- Where an entry stands.
pub record Place (disp_rows : Bool) (g : Grid) (k : ℕ) : Type 0 where
  pub row : ℕ
  pub nc : ℕ
  pub row_bound : row < g.nrows
  pub nc_bound : nc < g.ncols
  pub here : cell disp_rows g row nc ≡ k
  pub only : (r c : ℕ) → r < g.nrows → c < g.ncols → cell disp_rows g r c ≡ k → (r ≡ row) × (c ≡ nc)

div_unique : (n q r k : ℕ) → r < n → q * n + r ≡ k → (q ≡ k / n) × (r ≡ k % n)
div_unique n q r k lt e =
    let quotient = div-eq_of_lt-le {k = q} n {m = k} (omega (arith, e)) (grind (arith, e)) in
    let split = div-add-mod k n in (sym quotient, grind (arith, quotient, split))

factors_pos : (a b k : ℕ) → k < a * b → (0 < a) × (0 < b)
factors_pos zero b k below = absurd (omega (arith, below))
factors_pos (suc a) zero k below = absurd (omega (arith, below))
factors_pos (suc a) (suc b) k below = (omega arith, omega arith)

pub cell-Place : (disp_rows : Bool) (g : Grid) (k : ℕ) → k < g.nrows * g.ncols → Place disp_rows g k
unfolding cell
cell-Place true g k below =
    let some : 0 < g.ncols = (factors_pos g.nrows g.ncols k below).1 in
    record {
      row = k / g.ncols;
      nc = k % g.ncols;
      row_bound = (div-lt_iff_lt-mul some).1 below;
      nc_bound = mod-lt k some;
      here = grind (arith, div-add-mod k g.ncols);
      only = λ r c r_bound c_bound at. div_unique g.ncols r c k c_bound at;
    }
cell-Place false g k below =
    let some : 0 < g.nrows = (factors_pos g.nrows g.ncols k below).0 in
    record {
      row = k % g.nrows;
      nc = k / g.nrows;
      row_bound = mod-lt k some;
      nc_bound = (div-lt_iff_lt-mul some).1 (grind (arith, below));
      here = grind (arith, div-add-mod k g.nrows);
      only = λ r c r_bound c_bound at. let (q, m) = div_unique g.nrows c r k r_bound at in (m, q);
    }

at_least_itself : (n cols : ℕ) → 0 < cols → n ≤ n * cols
at_least_itself n zero pos = absurd (omega arith)
at_least_itself n (suc cols) pos = grind arith

-- The last two adjustments of the rows.
capped :
    (n rows cols : ℕ) → 0 < cols → n ≤ rows * cols → n ≤ (if ltb n rows then n else rows) * cols
capped n rows cols pos enough = elim (Bool-cases (ltb n rows)) [
  | inl e ↦ rw e (at_least_itself n cols pos)
  | inr e ↦ rw e enough
]

rounded :
    (n start cols : ℕ)
    → n ≤ (start + 1) * cols
    → n ≤ (if ltb (start * cols) n then start + 1 else start) * cols
rounded n start cols enough = elim (Bool-cases (ltb (start * cols) n)) [
  | inl e ↦ rw e enough
  | inr e ↦ rw e (ground arith)
]

pub grid-covers :
    (ncols nfiles : ℕ) → nfiles ≤ (grid ncols nfiles).nrows * (grid ncols nfiles).ncols
unfolding grid
grid-covers ncols nfiles = elim (Bool-cases (ltb 1 ncols)) [
  | inl e ↦
      let pos : 0 < ncols = ground arith in
      let above = lt-div-mul-add {a = nfiles} {b = ncols} pos in
      rw e (
        capped nfiles
          (if ltb (nfiles / ncols * ncols) nfiles then nfiles / ncols + 1 else nfiles / ncols) ncols
          pos (rounded nfiles (nfiles / ncols) ncols (grind (arith, above))))
  | inr e ↦ rw e (
      capped nfiles (if ltb (nfiles * 1) nfiles then nfiles + 1 else nfiles) 1 (omega arith)
        (rounded nfiles nfiles 1 (omega arith)))
]
