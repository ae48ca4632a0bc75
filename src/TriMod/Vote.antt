-- ===== src/TriMod/Vote.antt =====
-- The vote of `tri_mod_read`.
use rmm.Base.{
  ℕ, zero, suc, ◌+◌, ◌-◌, ◌≤◌, ◌<◌, ◌≡◌, ◌≢◌, refl, sym, ap, ◌∙◌, ◌↔◌, ◌⊎◌, inl, inr, arith, true,
  false, ltb, leb, ◌==◌, Bool-cases, ==_iff,
}
use rmm.Alloc.Entry.{memcpy}
use rmm.TriMod.{mem_eq, tri_mod_read}

-- The `n` bytes at `p` are those of `v`.
abbrev pub IsCopy : (ℕ → ℕ) → (p n : ℕ) → (ℕ → ℕ) → Type 0
IsCopy m p n v = (i : ℕ) → i < n → m (p + i) ≡ v i

-- `memcmp` answers 0 exactly when the bytes agree.
pub mem_eq_iff :
    (p q n : ℕ) (m : ℕ → ℕ) → (mem_eq p q n m ≡ true) ↔ ((i : ℕ) → i < n → m (p + i) ≡ m (q + i))
unfolding mem_eq
mem_eq_iff p q zero m = (λ e i h. absurd (omega arith), λ h. refl)
mem_eq_iff p q (suc n) m =
    let (to, back) = mem_eq_iff p q n m in
    (
      λ e i h. elim (Bool-cases (i == n)) [
        | inl last ↦ rw ((==_iff i n).0 last) (ground arith)
        | inr other ↦ to (ground arith) i (ground arith)
      ],
      λ h.
          let last = h n (omega arith) in
          let rest = back (λ i below. h i (omega arith)) in ground arith,
    )

pub memcpy_inside :
    (dst src n i : ℕ) (m : ℕ → ℕ) → i < n → memcpy dst src n m (dst + i) ≡ m (src + i)
memcpy_inside dst src n i m h =
    let e : dst + i - dst ≡ i = omega arith in
    let lo : leb dst (dst + i) ≡ true = ground arith in
    let hi : ltb (dst + i) (dst + n) ≡ true = ground arith in rw (lo, hi, e)

pub memcpy_outside :
    (dst src n a : ℕ) (m : ℕ → ℕ) → (a < dst) ⊎ (dst + n ≤ a) → memcpy dst src n m a ≡ m a
memcpy_outside dst src n a m h = ground arith

-- All three copies are `v`, and no byte outside them has changed.
pub record IsMended (m : ℕ → ℕ) (ptr n : ℕ) (v m' : ℕ → ℕ) : Type 0 where
  pub first : IsCopy m' ptr n v
  pub second : IsCopy m' (ptr + n) n v
  pub third : IsCopy m' (ptr + n + n) n v
  pub rest : (a : ℕ) → (a < ptr) ⊎ (ptr + n + n + n ≤ a) → m' a ≡ m a

module _ (m v : ℕ → ℕ) (ptr n : ℕ) where
  mend_third :
      IsCopy m ptr n v → IsCopy m (ptr + n) n v → IsMended m ptr n v (memcpy (ptr + n + n) ptr n m)
  mend_third c d = record {
    first = λ i h. memcpy_outside (ptr + n + n) ptr n (ptr + i) m (inl (omega arith)) ∙ c i h;
    second = λ i h. memcpy_outside (ptr + n + n) ptr n (ptr + n + i) m (inl (omega arith)) ∙ d i h;
    third = λ i h. memcpy_inside (ptr + n + n) ptr n i m h ∙ c i h;
    rest = λ a o. memcpy_outside (ptr + n + n) ptr n a m (omega arith);
  }

  mend_first :
      IsCopy m (ptr + n) n v
      → IsCopy m (ptr + n + n) n v
      → IsMended m ptr n v (memcpy ptr (ptr + n) n m)
  mend_first c d = record {
    first = λ i h. memcpy_inside ptr (ptr + n) n i m h ∙ c i h;
    second = λ i h. memcpy_outside ptr (ptr + n) n (ptr + n + i) m (inr (omega arith)) ∙ c i h;
    third = λ i h. memcpy_outside ptr (ptr + n) n (ptr + n + n + i) m (inr (omega arith)) ∙ d i h;
    rest = λ a o. memcpy_outside ptr (ptr + n) n a m (omega arith);
  }

  mend_second :
      IsCopy m ptr n v → IsCopy m (ptr + n + n) n v → IsMended m ptr n v (memcpy (ptr + n) ptr n m)
  mend_second c d = record {
    first = λ i h. memcpy_outside (ptr + n) ptr n (ptr + i) m (inl (omega arith)) ∙ c i h;
    second = λ i h. memcpy_inside (ptr + n) ptr n i m h ∙ c i h;
    third = λ i h. memcpy_outside (ptr + n) ptr n (ptr + n + n + i) m (inr (omega arith)) ∙ d i h;
    rest = λ a o. memcpy_outside (ptr + n) ptr n a m (omega arith);
  }

-- Two of the three copies are `v`.
pub data Majority (m : ℕ → ℕ) (ptr n : ℕ) (v : ℕ → ℕ) : Type 0 where
  third_lost : IsCopy m ptr n v → IsCopy m (ptr + n) n v → Majority m ptr n v
  first_lost : IsCopy m (ptr + n) n v → IsCopy m (ptr + n + n) n v → Majority m ptr n v
  second_lost : IsCopy m ptr n v → IsCopy m (ptr + n + n) n v → Majority m ptr n v

-- The two blocks of `n` bytes have the same bytes.
abbrev pub SameBytes : (ℕ → ℕ) → (p q n : ℕ) → Type 0
SameBytes m p q n = (i : ℕ) → i < n → m (p + i) ≡ m (q + i)

intact :
    (m v : ℕ → ℕ) (ptr n : ℕ)
    → IsCopy m ptr n v
    → IsCopy m (ptr + n) n v
    → IsCopy m (ptr + n + n) n v
    → IsMended m ptr n v m
intact m v ptr n c d e = record { first = c; second = d; third = e; rest = λ a o. refl }

module _ (m v : ℕ → ℕ) (ptr n : ℕ) where
  agree : (p q : ℕ) → IsCopy m p n v → IsCopy m q n v → mem_eq p q n m ≡ true
  agree p q c d = (mem_eq_iff p q n m).1 (λ i h. c i h ∙ sym (d i h))

  copy_right : (p q : ℕ) → mem_eq p q n m ≡ true → IsCopy m p n v → IsCopy m q n v
  copy_right p q e c i h = sym ((mem_eq_iff p q n m).0 e i h) ∙ c i h

  copy_left : (p q : ℕ) → mem_eq p q n m ≡ true → IsCopy m q n v → IsCopy m p n v
  copy_left p q e c i h = (mem_eq_iff p q n m).0 e i h ∙ c i h

  -- As long as two of the three copies hold the value `v`, whatever the other one holds,
  -- `tri_mod_read` returns the pointer that it was given, all three copies hold `v` afterwards, and
  -- no byte outside them has changed.
  pub tri_mod_read-mends :
      Majority m ptr n v → (m' : ℕ → ℕ) × (tri_mod_read ptr n m ≡ (ptr, m')) × IsMended m ptr n v m'
  unfolding tri_mod_read
  tri_mod_read-mends (third_lost c d) =
      let e0 = agree ptr (ptr + n) c d in
      elim (Bool-cases (mem_eq (ptr + n) (ptr + n + n) n m)) [
        | inl e1 ↦ (m, rw (e0, e1), intact m v ptr n c d (copy_right (ptr + n) (ptr + n + n) e1 d))
        | inr e1 ↦ (memcpy (ptr + n + n) ptr n m, rw (e0, e1), mend_third m v ptr n c d)
      ]
  tri_mod_read-mends (first_lost c d) =
      let e1 = agree (ptr + n) (ptr + n + n) c d in
      elim (Bool-cases (mem_eq ptr (ptr + n) n m)) [
        | inl e0 ↦ (m, rw (e0, e1), intact m v ptr n (copy_left ptr (ptr + n) e0 c) c d)
        | inr e0 ↦ (memcpy ptr (ptr + n) n m, rw (e0, e1), mend_first m v ptr n c d)
      ]
  tri_mod_read-mends (second_lost c d) =
      let e2 = agree (ptr + n + n) ptr d c in
      elim (Bool-cases (mem_eq ptr (ptr + n) n m)) [
        | inl e0 ↦
            let second = copy_right ptr (ptr + n) e0 c in
            let e1 = agree (ptr + n) (ptr + n + n) second d in
            (m, rw (e0, e1), intact m v ptr n c second d)
        | inr e0 ↦ elim (Bool-cases (mem_eq (ptr + n) (ptr + n + n) n m)) [
          | inl e1 ↦
              let second = copy_left (ptr + n) (ptr + n + n) e1 d in
              (memcpy ptr (ptr + n) n m, rw (e0, e1), mend_first m v ptr n second d)
          | inr e1 ↦ (memcpy (ptr + n) ptr n m, rw (e0, e1, e2), mend_second m v ptr n c d)
        ]
      ]

differ : (m : ℕ → ℕ) (p q n : ℕ) → ¬ SameBytes m p q n → mem_eq p q n m ≡ false
differ m p q n ne = elim (Bool-cases (mem_eq p q n m)) [
  | inl e ↦ absurd (ne ((mem_eq_iff p q n m).0 e))
  | inr e ↦ e
]

-- When no two copies agree, `tri_mod_read` returns `NULL` and changes nothing.
tri_mod_read-differ :
    (m : ℕ → ℕ) (ptr n : ℕ)
    → ¬ SameBytes m ptr (ptr + n) n
    → ¬ SameBytes m (ptr + n) (ptr + n + n) n
    → ¬ SameBytes m (ptr + n + n) ptr n
    → tri_mod_read ptr n m ≡ (0, m)
unfolding tri_mod_read
tri_mod_read-differ m ptr n d0 d1 d2 = rw (
  differ m ptr (ptr + n) n d0,
  differ m (ptr + n) (ptr + n + n) n d1,
  differ m (ptr + n + n) ptr n d2,
)

-- No two of the copies agree.
abbrev pub AllDiffer : (ℕ → ℕ) → (ptr n : ℕ) → Type 0
AllDiffer m ptr n =
    ¬ SameBytes m ptr (ptr + n) n
    × ¬ SameBytes m (ptr + n) (ptr + n + n) n
    × ¬ SameBytes m (ptr + n + n) ptr n

-- With a majority the pointer comes back, which is not `NULL`.
Majority-keeps :
    (m v : ℕ → ℕ) (ptr n : ℕ) → ptr ≢ 0 → (tri_mod_read ptr n m).0 ≡ 0 → ¬ Majority m ptr n v
Majority-keeps m v ptr n some_ptr null two =
    let (m', run, mended) = tri_mod_read-mends m v ptr n two in
    some_ptr (sym (ap (λ r. r.0) run) ∙ null)

-- `tri_mod_read` of a pointer that is not `NULL` returns `NULL` exactly when no two of the three copies
-- agree, and then it changes nothing.
pub tri_mod_read-null :
    (m : ℕ → ℕ) (ptr n : ℕ)
    → ptr ≢ 0
    → ((tri_mod_read ptr n m).0 ≡ 0 ↔ AllDiffer m ptr n)
      × (AllDiffer m ptr n → tri_mod_read ptr n m ≡ (0, m))
tri_mod_read-null m ptr n some_ptr = (
  (
    λ null. (
      λ same.
          Majority-keeps m (λ i. m (ptr + i)) ptr n some_ptr null
            (third_lost (λ i h. refl) (λ i h. sym (same i h))),
      λ same.
          Majority-keeps m (λ i. m (ptr + n + i)) ptr n some_ptr null
            (first_lost (λ i h. refl) (λ i h. sym (same i h))),
      λ same.
          Majority-keeps m (λ i. m (ptr + i)) ptr n some_ptr null (second_lost (λ i h. refl) same),
    ),
    λ d. ap (λ r. r.0) (tri_mod_read-differ m ptr n d.0 d.1 d.2),
  ),
  λ d. tri_mod_read-differ m ptr n d.0 d.1 d.2,
)
