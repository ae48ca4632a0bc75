-- ===== src/SizeClass/BestFit.antt =====
-- `size2cls` picks the smallest class whose blocks are large enough.
use rmm.Base.{
  false, Bool-cases, inl, inr, ℕ, zero, suc, ◌+◌, ◌-◌, ◌*◌, ◌/◌, ◌%◌, ◌≤◌, ◌<◌, ◌≡◌, refl, ◌⊎◌,
  Bool, true, ◌&&◌, ◌||◌, arith, leb, ltb, ◌==◌, get_or, all_below, all_below_sound,
}
use rmm.SizeClass.{
  sizemap8, sizemap256, size2cls, class_size, less_one, default_class_num, large_class,
}

-- Class `c` is the best for each of the sizes lo + 1, ..., hi.
abbrev serves : ℕ → ℕ → ℕ → Bool
serves c lo hi =
    ltb c default_class_num && leb hi (class_size c) && (c == 0 || leb (class_size (c - 1)) lo)

sizemap8_table : all_below 64 (λ i. serves (get_or sizemap8 i 0) (i * 8) (i * 8 + 8)) ≡ true
unfolding all_below class_size sizemap8
sizemap8_table = refl

sizemap256_table :
    all_below 64 (λ i. ltb i 2 || serves (get_or sizemap256 i 0) (i * 256) (i * 256 + 256)) ≡ true
unfolding all_below class_size sizemap256
sizemap256_table = refl

-- The classes ascend.
class_size_table : all_below 29 (λ c. ltb (class_size c) (class_size (c + 1)) || c == 28) ≡ true
unfolding all_below class_size
class_size_table = refl

class_size_step : (c : ℕ) → c < 28 → class_size c < class_size (c + 1)
class_size_step c h = ground (arith, all_below_sound 29 _ c class_size_table (omega arith))

pub class_size_mono : (c d : ℕ) → c + d < 29 → class_size c ≤ class_size (c + d)
class_size_mono c zero h = ground arith
class_size_mono c (suc d) h = ground (arith, class_size_step (c + d), class_size_mono c d)

pub record IsBest (sz c : ℕ) : Type 0 where
  pub small : c < default_class_num
  pub fits : sz ≤ class_size c
  pub tight : (c ≡ 0) ⊎ (class_size (c - 1) < sz)

serves-IsBest : (c lo hi sz : ℕ) → serves c lo hi ≡ true → lo < sz → sz ≤ hi → IsBest sz c
serves-IsBest c lo hi sz e p q = ground arith

less_one_lem : (sz : ℕ) → 0 < sz → sz ≤ 16384 → less_one sz ≡ sz - 1
unfolding less_one
less_one_lem sz pos h = omega arith

size2cls_small : (sz : ℕ) → 0 < sz → sz ≤ 512 → size2cls sz ≡ get_or sizemap8 ((sz - 1) / 8) 0
unfolding size2cls
size2cls_small sz pos h =
    let e : leb sz 512 ≡ true = ground arith in rw (e, less_one_lem sz pos (omega arith))

size2cls_middle :
    (sz : ℕ) → 512 < sz → sz ≤ 16384 → size2cls sz ≡ get_or sizemap256 ((sz - 1) / 256) 0
unfolding size2cls
size2cls_middle sz pos h =
    let big : leb sz 512 ≡ false = ground arith in
    let e : leb sz 16384 ≡ true = ground arith in rw (big, e, less_one_lem sz (omega arith) h)

ltb_two : (i : ℕ) (b : Bool) → 2 ≤ i → (ltb i 2 || b) ≡ true → b ≡ true
ltb_two i b h e = ground arith

-- For a request of 1 to 16384 bytes `size2cls` answers the smallest of the 29 classes whose blocks
-- hold the request: the blocks are large enough, and those of the class below are too small.
pub size2cls-IsBest : (sz : ℕ) → 0 < sz → sz ≤ 16384 → IsBest sz (size2cls sz)
size2cls-IsBest sz pos h = elim (Bool-cases (leb sz 512)) [
  | inl small ↦
      let i : ℕ = (sz - 1) / 8 in
      rw (size2cls_small sz pos (ground arith)) (
        serves-IsBest _ (i * 8) (i * 8 + 8) sz
          (all_below_sound 64 _ i sizemap8_table (ground arith)) (omega arith) (omega arith))
  | inr big ↦
      let i : ℕ = (sz - 1) / 256 in
      rw (size2cls_middle sz (ground arith) h) (
        serves-IsBest _ (i * 256) (i * 256 + 256) sz
          (ltb_two i _ (ground arith) (all_below_sound 64 _ i sizemap256_table (ground arith)))
          (omega arith) (omega arith))
]

-- A larger request gets the large class.
pub size2cls_large : (sz : ℕ) → 16384 < sz → size2cls sz ≡ large_class
unfolding size2cls
size2cls_large sz h =
    let big : leb sz 512 ≡ false = ground arith in
    let e : leb sz 16384 ≡ false = ground arith in rw (big, e)

class_size_bounds_table :
    all_below 29 (λ c. leb 16 (class_size c) && leb (class_size c) 16384 && class_size c % 8 == 0)
    ≡ true
unfolding all_below class_size
class_size_bounds_table = refl

-- Every block holds the two pointers of a list node, and fits a span.
pub class_size_bounds :
    (c : ℕ)
    → c < default_class_num
    → (16 ≤ class_size c) × (class_size c ≤ 16384) × (class_size c % 8 ≡ 0)
class_size_bounds c h = ground (arith, all_below_sound 29 _ c class_size_bounds_table h)
