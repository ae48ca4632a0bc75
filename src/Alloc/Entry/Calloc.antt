-- ===== src/Alloc/Entry/Calloc.antt =====
-- `calloc` of src/wlmalloc.c.
use native.Mathlib.Nat.{div-eq_of_eq-mul_right, div-lt_iff_lt-mul}
use rmm.Base.{
  ℕ, ◌+◌, ◌*◌, ◌/◌, ◌%◌, ◌^◌, ◌≤◌, ◌<◌, ◌≡◌, ◌⊎◌, refl, arith, true, false, ◌||◌, Bool-cases, inl,
  inr, ◌==◌, ==_iff, ltb, List,
}
use rmm.SizeClass.{class_size}
use rmm.Alloc.{State, Env, Result, ok}
use rmm.Alloc.Blocks.Invariant.{IsSpan}
use rmm.Alloc.Blocks.Hand.{Handed}
use rmm.Alloc.Entry.{calloc, memset}
use rmm.Alloc.Entry.RoundTrip.{Serves, wl_malloc-Handed}

memset_inside : (p c n i : ℕ) (m : ℕ → ℕ) → i < n → memset p c n m (p + i) ≡ c
memset_inside p c n i m below = ground arith

memset_outside : (p c n a : ℕ) (m : ℕ → ℕ) → (a < p) ⊎ (p + n ≤ a) → memset p c n m a ≡ m a
memset_outside p c n a m out = ground arith

-- Memory that holds 0 at `n` addresses from `a`, and elsewhere what it held in `m`.
pub record Zeroed (m : ℕ → ℕ) (a n : ℕ) (m' : ℕ → ℕ) : Type 0 where
  pub zeros : (i : ℕ) → i < n → m' (a + i) ≡ 0
  pub rest : (b : ℕ) → (b < a) ⊎ (a + n ≤ b) → m' b ≡ m b

-- What `calloc(num, nsize)` does on the span at `p`: nothing is asked for, or the product has more
-- than 64 bits, and the answer is `NULL`; or it hands out a block with room for the product, cleared.
pub data Calloced (s : State) (p : ℕ) (lives : List ℕ) (num nsize : ℕ) (result : Result ℕ)
    : Type 0 where
  nothing : (num ≡ 0) ⊎ (nsize ≡ 0) → result ≡ ok 0 s → Calloced s p lives num nsize result
  overflow : 2 ^ 64 ≤ num * nsize → result ≡ ok 0 s → Calloced s p lives num nsize result
  cleared :
      (a : ℕ) (t : State) (m' : ℕ → ℕ)
      → num * nsize < 2 ^ 64
      → result ≡ ok a (record t { bytes = m' })
      → Handed s p lives a t
      → num * nsize ≤ class_size (s.span p).cls
      → Zeroed s.bytes a (num * nsize) m'
      → Calloced s p lives num nsize result

-- The division finds out whether the product was cut down.
product-fits : (num nsize : ℕ) → 0 < num → num * nsize / num ≡ nsize
product-fits num nsize pos = div-eq_of_eq-mul_right pos refl

product-cut : (num nsize : ℕ) → 0 < num → 2 ^ 64 ≤ num * nsize → num * nsize % 2 ^ 64 / num < nsize
product-cut num nsize pos cut = (div-lt_iff_lt-mul pos).1 (omega (arith, cut))

-- `calloc` on the span in use: every branch, when the span can serve the product if it is neither 0
-- nor more than 64 bits.
pub calloc-Calloced :
    (env : Env) (fuel self p num nsize used : ℕ) (frees lives : List ℕ) (s : State)
    → (num * nsize < 2 ^ 64 → 0 < num * nsize → Serves s self p (num * nsize))
    → IsSpan s p used frees lives
    → 0 < (s.span p).free_cnt
    → Calloced s p lives num nsize (calloc env fuel self num nsize s)
unfolding calloc
calloc-Calloced env fuel self p num nsize used frees lives s serves inv some_free =
    elim (Bool-cases (num == 0 || (nsize == 0))) [
      | inl none ↦ nothing (ground arith) (rw none refl)
      | inr some ↦
          let pos : 0 < num = ground arith in
          let pos' : 0 < nsize = ground arith in
          elim (Bool-cases (ltb (num * nsize) (2 ^ 64))) [
            | inl e ↦
                let fits : num * nsize < 2 ^ 64 = ground arith in
                let whole : num * nsize % 2 ^ 64 ≡ num * nsize = omega (arith, fits) in
                let exact : (num * nsize / num == nsize) ≡ true =
                  (==_iff (num * nsize / num) nsize).1 (product-fits num nsize pos) in
                let v = serves fits (grind arith) in
                let (a, t, run, handed, room) =
                  wl_malloc-Handed env fuel self p (num * nsize) used frees lives s v inv
                    some_free in
                let not_null : (a == 0) ≡ false = ground (arith, handed.above) in
                cleared a t (memset a 0 (num * nsize) t.bytes) fits
                  (rw (some, whole, exact, run, not_null) refl) handed room
                  (rw handed.only.bytes (record {
                    zeros = λ i below. memset_inside a 0 (num * nsize) i s.bytes below;
                    rest = λ b out. memset_outside a 0 (num * nsize) b s.bytes out;
                  }))
            | inr e ↦
                let cut : 2 ^ 64 ≤ num * nsize = ground arith in
                let differs : (num * nsize % 2 ^ 64 / num == nsize) ≡ false =
                  ground (arith, product-cut num nsize pos cut) in
                overflow cut (rw (some, differs) refl)
          ]
    ]
