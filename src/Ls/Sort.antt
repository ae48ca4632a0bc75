-- ===== src/Ls/Sort.antt =====
-- `shellsort` of src/ls.c, with the comparison as an argument.
pub mod Moves
pub mod Ordered
pub mod Whole
pub mod Entries
use rmm.Base.{
  ℕ, zero, suc, ◌+◌, ◌-◌, ◌/◌, Bool, true, false, ◌==◌, ltb, Option, none, some, List, length,
  get_elem?, set,
}
use rmm.Ls.{Sign, minus, nought, plus}

-- `sortcmp(...) <= 0`
abbrev pub in_order : Sign → Bool
in_order minus = true
in_order nought = true
in_order plus = false

module _ {A : Type 0} (cmp : A → A → Sign) (gap : ℕ) where
  -- The loop over `j`. `none` stands for a read outside the array and for fuel that is used up.
  pub sift : (fuel j : ℕ) → List A → Option (List A)
  sift zero j dn = none
  sift (suc fuel) j dn = elim (get_elem? dn j) [
    | none ↦ none
    | some a ↦ elim (get_elem? dn (j + gap)) [
      | none ↦ none
      | some b ↦ elim (in_order (cmp a b)) [
        | true ↦ some dn
        | false ↦ elim (ltb j gap) [
          | true ↦ some (set (set dn j b) (j + gap) a)
          | false ↦ sift fuel (j - gap) (set (set dn j b) (j + gap) a)
        ]
      ]
    ]
  ]

  -- The loop over `i`, with `count` rounds from `i`.
  pub pass : (count i : ℕ) → List A → Option (List A)
  unfolding sift
  pass zero i dn = some dn
  pass (suc count) i dn = elim (sift (i + 1) (i - gap) dn) [
    | none ↦ none
    | some dn' ↦ pass count (i + 1) dn'
  ]

module _ {A : Type 0} (cmp : A → A → Sign) where
  -- The loop over `gap`.
  pub gaps : (fuel gap : ℕ) → List A → Option (List A)
  unfolding pass
  gaps zero gap dn = none
  gaps (suc fuel) gap dn = elim (gap == 0) [
    | true ↦ some dn
    | false ↦ elim (pass cmp gap (length dn - gap) gap dn) [
      | none ↦ none
      | some dn' ↦ gaps fuel (gap / 2) dn'
    ]
  ]

  -- The fuel is the size, which is above every gap.
  pub shellsort : List A → Option (List A)
  unfolding gaps
  shellsort dn = elim (ltb (length dn) 2) [
    | true ↦ some dn
    | false ↦ gaps (length dn) (length dn / 2) dn
  ]
