-- ===== src/TriMod/Store.antt =====
-- `tri_mod_write` and what a later `tri_mod_read` gets.
use rmm.Base.{
  ℕ, ◌+◌, ◌*◌, ◌%◌, ◌^◌, ◌≤◌, ◌<◌, ◌≡◌, ◌≢◌, ◌∙◌, ◌⊎◌, inl, inr, arith, true, false, ltb, ◌==◌,
  Bool-cases,
}
use rmm.Alloc.{State, ok, get_header}
use rmm.Alloc.Entry.{memcpy}
use rmm.TriMod.{tri_mod_read, tri_mod_write, refused, no_value}
use rmm.TriMod.Vote.{
  IsMended, Majority, first_lost, second_lost, third_lost, memcpy_inside, memcpy_outside,
  tri_mod_read-mends,
}

-- A block with room for three objects of `size` bytes, and a source that lies outside it.
pub record Writable (s : State) (ptr source size : ℕ) : Type 0 where
  pub header : get_header ptr ≢ 0
  pub room : 3 * size ≤ (s.span (get_header ptr)).blk_size
  pub word : 3 * size < 2 ^ 64
  pub apart : (source + size ≤ ptr) ⊎ (ptr + size + size + size ≤ source)

-- The memory after the three copies.
abbrev pub tripled : (ptr source size : ℕ) → (ℕ → ℕ) → ℕ → ℕ
tripled ptr source size m =
    memcpy (ptr + size + size) source size
      (memcpy (ptr + size) source size (memcpy ptr source size m))

module _ (ptr source size : ℕ) (m : ℕ → ℕ)
    (apart : (source + size ≤ ptr) ⊎ (ptr + size + size + size ≤ source)) where
  abbrev m1 : ℕ → ℕ
  m1 = memcpy ptr source size m

  abbrev m2 : ℕ → ℕ
  m2 = memcpy (ptr + size) source size m1

  source_after1 : (i : ℕ) → i < size → m1 (source + i) ≡ m (source + i)
  source_after1 i h = memcpy_outside ptr source size (source + i) m (omega arith)

  source_after2 : (i : ℕ) → i < size → m2 (source + i) ≡ m (source + i)
  source_after2 i h =
      memcpy_outside (ptr + size) source size (source + i) m1 (omega arith) ∙ source_after1 i h

  tripled-IsMended : IsMended m ptr size (λ i. m (source + i)) (tripled ptr source size m)
  tripled-IsMended = record {
    first = λ i h.
        memcpy_outside (ptr + size + size) source size (ptr + i) m2 (inl (omega arith))
        ∙ memcpy_outside (ptr + size) source size (ptr + i) m1 (inl (omega arith))
        ∙ memcpy_inside ptr source size i m h;
    second = λ i h.
        memcpy_outside (ptr + size + size) source size (ptr + size + i) m2 (inl (omega arith))
        ∙ memcpy_inside (ptr + size) source size i m1 h
        ∙ source_after1 i h;
    third = λ i h. memcpy_inside (ptr + size + size) source size i m2 h ∙ source_after2 i h;
    rest = λ a o.
        memcpy_outside (ptr + size + size) source size a m2 (omega arith)
        ∙ memcpy_outside (ptr + size) source size a m1 (omega arith)
        ∙ memcpy_outside ptr source size a m (omega arith);
  }

-- In a block with room for it, `tri_mod_write` makes all three copies equal to the source and changes
-- no other byte.
pub tri_mod_write-IsMended :
    (s : State) (ptr source size : ℕ)
    → Writable s ptr source size
    → (t : State) × (tri_mod_write ptr source size s ≡ ok no_value t)
      × IsMended s.bytes ptr size (λ i. s.bytes (source + i)) t.bytes
unfolding tri_mod_write
tri_mod_write-IsMended s ptr source size w =
    let there : (get_header ptr == 0) ≡ false = ground (arith, w.header) in
    let fits : ltb (s.span (get_header ptr)).blk_size ((size * 3) % 2 ^ 64) ≡ false =
      ground (arith, w.room, w.word) in
    (
      record s { bytes = tripled ptr source size s.bytes },
      rw (there, fits),
      tripled-IsMended ptr source size s.bytes w.apart,
    )

-- In a block that is too small for three copies nothing is written.
pub tri_mod_write-refused :
    (s : State) (ptr source size : ℕ)
    → 3 * size < 2 ^ 64
    → (s.span (get_header ptr)).blk_size < 3 * size
    → tri_mod_write ptr source size s ≡ ok refused s
unfolding tri_mod_write
tri_mod_write-refused s ptr source size word small =
    let fits : ltb (s.span (get_header ptr)).blk_size ((size * 3) % 2 ^ 64) ≡ true = ground arith in
    elim (Bool-cases (get_header ptr == 0)) [ inl e ↦ rw e | inr e ↦ rw (e, fits) ]

-- The `n` bytes at `p` are as they were.
abbrev pub Kept : (m0 m : ℕ → ℕ) → (p n : ℕ) → Type 0
Kept m0 m p n = (i : ℕ) → i < n → m (p + i) ≡ m0 (p + i)

-- An upset leaves two of the three copies as they were.
pub data Upset (m0 : ℕ → ℕ) (ptr n : ℕ) (m : ℕ → ℕ) : Type 0 where
  in_first : Kept m0 m (ptr + n) n → Kept m0 m (ptr + n + n) n → Upset m0 ptr n m
  in_second : Kept m0 m ptr n → Kept m0 m (ptr + n + n) n → Upset m0 ptr n m
  in_third : Kept m0 m ptr n → Kept m0 m (ptr + n) n → Upset m0 ptr n m

Upset-Majority :
    (m0 m v m1 : ℕ → ℕ) (ptr n : ℕ) → IsMended m1 ptr n v m0 → Upset m0 ptr n m → Majority m ptr n v
Upset-Majority m0 m v m1 ptr n w (in_first a b) =
    first_lost (λ i h. a i h ∙ w.second i h) (λ i h. b i h ∙ w.third i h)
Upset-Majority m0 m v m1 ptr n w (in_second a b) =
    second_lost (λ i h. a i h ∙ w.first i h) (λ i h. b i h ∙ w.third i h)
Upset-Majority m0 m v m1 ptr n w (in_third a b) =
    third_lost (λ i h. a i h ∙ w.first i h) (λ i h. b i h ∙ w.second i h)

-- What `tri_mod_write` stored survives an upset of any one copy: `tri_mod_read` then returns the
-- pointer, and leaves all three copies with the bytes that were written.
pub tri_mod_read-tri_mod_write :
    (s : State) (ptr source size : ℕ) (upset : ℕ → ℕ)
    → Writable s ptr source size
    → ((t : State) → tri_mod_write ptr source size s ≡ ok no_value t → Upset t.bytes ptr size upset)
    → (m' : ℕ → ℕ) × (tri_mod_read ptr size upset ≡ (ptr, m'))
      × IsMended upset ptr size (λ i. s.bytes (source + i)) m'
tri_mod_read-tri_mod_write s ptr source size upset w damage =
    let (t, run, stored) = tri_mod_write-IsMended s ptr source size w in
    let v = λ (i : ℕ). s.bytes (source + i) in
    tri_mod_read-mends upset v ptr size
      (Upset-Majority t.bytes upset v s.bytes ptr size stored (damage t run))
