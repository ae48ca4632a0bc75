-- ===== src/Ls/Text/Human.antt =====
-- How the numbers of `make_human_readable_str` of src/ls.c are rounded.
use native.Mathlib.Nat.{pow-suc, div-div-eq-div-mul, div-le_self, lt-div-mul-add, mod-add-div}
use rmm.Base.{
  ℕ, zero, suc, ◌+◌, ◌-◌, ◌*◌, ◌/◌, ◌%◌, ◌^◌, ◌≤◌, ◌<◌, ◌≡◌, ◌≢◌, refl, sym, arith, true, false,
  Bool-cases, inl, inr, ◌==◌, ==_iff, leb, get_or,
}
use rmm.Ls.Text.{
  Text, zero_text, plain, tenths, zero_and_units, Scaled, scale_step, scale, show_scaled,
  make_human_readable_str,
}

-- What is to be printed for the product `val` that is not zero: below 1024 the value itself; and
-- otherwise, with the k-th of the units k, M, G and T, the tenths that are nearest to val / 1024^k
-- when the digits below 1024^(k - 1) are left out. A unit below T leaves less than 1024 units.
pub data Human (val : ℕ) : Text → Type 0 where
  small : val < 1024 → Human val (plain val)
  scaled :
      (k v frac : ℕ)
      → k < 4
      → 1024 ≤ val / 1024 ^ k
      → (k < 3 → val / 1024 ^ k / 1024 < 1024)
      → 10 * v + frac ≡ (10 * (val / 1024 ^ k) + 512) / 1024
      → frac < 10
      → Human val (tenths v frac (get_or zero_and_units (k + 2) 0))

-- The state after k + 1 rounds.
record At (val k : ℕ) (s : Scaled) : Type 0 where
  value : s.val ≡ val / 1024 ^ k / 1024
  frac : s.frac ≡ (val / 1024 ^ k % 1024 * 10 + 512) / 1024
  u : s.u ≡ k + 2
  in_tenths : s.in_tenths ≡ true
  more : 1024 ≤ val / 1024 ^ k

-- The end of the loop, with no unit left or less than 1024 units.
record Ended (val : ℕ) (s : Scaled) : Type 0 where
  k : ℕ
  bound : k < 4
  at_k : At val k s
  done : k < 3 → s.val < 1024

step-At : (val k : ℕ) (s : Scaled) → At val k s → 1024 ≤ s.val → At val (suc k) (scale_step s)
unfolding scale_step
step-At val k s a enough =
    let power : 1024 ^ suc k ≡ 1024 ^ k * 1024 = omega (arith, pow-suc 1024 k) in
    let same : val / 1024 ^ suc k ≡ s.val =
      rw (power, a.value) (sym (div-div-eq-div-mul val (1024 ^ k) 1024)) in
    record {
      value = rw same refl;
      frac = rw same refl;
      u = omega (arith, a.u);
      in_tenths = refl;
      more = rw same enough;
    }

scale-Ended :
    (rounds val k : ℕ) (s : Scaled) → At val k s → rounds + k ≡ 3 → Ended val (scale rounds s)
unfolding scale
scale-Ended zero val k s a count = record {
  k = k;
  bound = omega arith;
  at_k = a;
  done = λ lt. absurd (omega arith);
}
scale-Ended (suc rounds) val k s a count = elim (Bool-cases (leb 1024 s.val)) [
  | inl e ↦ rw e (
      scale-Ended rounds val (suc k) (scale_step s) (step-At val k s a (ground arith))
        (omega arith))
  | inr e ↦ rw e (record { k = k; bound = omega arith; at_k = a; done = λ lt. ground arith })
]

tenths_of : (w : ℕ) → 10 * (w / 1024) + (w % 1024 * 10 + 512) / 1024 ≡ (10 * w + 512) / 1024
tenths_of w = omega arith

at_most_ten : (w : ℕ) → (w % 1024 * 10 + 512) / 1024 ≤ 10
at_most_ten w = omega arith

show_scaled-Human : (val : ℕ) (s : Scaled) → val < 2 ^ 64 → Ended val s → Human val (show_scaled s)
unfolding show_scaled
show_scaled-Human val s word e =
    let a = e.at_k in
    let w : ℕ = val / 1024 ^ e.k in
    let short : s.val < 2 ^ 64 - 1 = omega (arith, a.value, div-le_self val (1024 ^ e.k)) in
    let below : e.k < 3 → w / 1024 < 1024 = λ lt. omega (arith, a.value, e.done lt) in
    let sum : 10 * s.val + s.frac ≡ (10 * w + 512) / 1024 =
      omega (arith, a.value, a.frac, tenths_of w) in
    let ten : s.frac ≤ 10 = omega (arith, a.frac, at_most_ten w) in
    rw (a.in_tenths, a.u)
      (elim (Bool-cases (leb 10 s.frac)) [
        | inl up ↦ rw up (
            scaled e.k ((s.val + 1) % 2 ^ 64) 0 e.bound a.more below
              (let full : s.frac ≡ 10 = ground (arith, ten, up) in omega (arith, short, sum, full))
              (omega arith))
        | inr same ↦ rw same (scaled e.k s.val s.frac e.bound a.more below sum (ground arith))
      ])

scale-on :
    (rounds : ℕ) (s : Scaled)
    → leb 1024 s.val ≡ true
    → scale (suc rounds) s ≡ scale rounds (scale_step s)
unfolding scale
scale-on rounds s e = rw e

scale-off : (rounds : ℕ) (s : Scaled) → leb 1024 s.val ≡ false → scale (suc rounds) s ≡ s
unfolding scale
scale-off rounds s e = rw e

-- The state before the loop.
abbrev start : ℕ → Scaled
start val = record { val = val; frac = 0; u = 1; in_tenths = false }

start-At : (val : ℕ) → 1024 ≤ val → At val 0 (scale_step (start val))
unfolding scale_step
start-At val big =
    let whole : val / 1024 ^ 0 ≡ val = omega arith in
    record {
      value = rw whole refl;
      frac = rw whole refl;
      u = refl;
      in_tenths = refl;
      more = rw whole big;
    }

scaled-Human : (val : ℕ) → val < 2 ^ 64 → Human val (show_scaled (scale 4 (start val)))
unfolding show_scaled
scaled-Human val word = elim (Bool-cases (leb 1024 val)) [
  | inl big ↦ rw (scale-on 3 (start val) big) (
      show_scaled-Human val (scale 3 (scale_step (start val))) word
        (scale-Ended 3 val 0 (scale_step (start val)) (start-At val (ground arith)) refl))
  | inr little ↦ rw (scale-off 3 (start val) little) (small (ground arith))
]

-- What is printed for the product `val` and a display unit: "0" for zero; in units of 1024 when there
-- is no display unit; and otherwise the product divided by it, to the nearest whole.
pub data Rounded (val display_unit : ℕ) : Text → Type 0 where
  nothing : val ≡ 0 → Rounded val display_unit zero_text
  human : (text : Text) → display_unit ≡ 0 → Human val text → Rounded val display_unit text
  nearest :
      (q : ℕ)
      → display_unit ≢ 0
      → 2 * val < (2 * q + 1) * display_unit
      → 2 * q * display_unit ≤ 2 * val + display_unit
      → Rounded val display_unit (plain q)

divided-nearest :
    (val display_unit : ℕ)
    → display_unit ≢ 0
    → val + display_unit / 2 < 2 ^ 64
    → Rounded val display_unit (plain ((val + display_unit / 2) % 2 ^ 64 / display_unit))
divided-nearest val display_unit some_unit no_overflow =
    let q : ℕ = (val + display_unit / 2) / display_unit in
    let word : (val + display_unit / 2) % 2 ^ 64 ≡ val + display_unit / 2 =
      omega (arith, no_overflow) in
    let above =
      lt-div-mul-add {a = val + display_unit / 2} {b = display_unit} (omega (arith, some_unit)) in
    let split = mod-add-div (val + display_unit / 2) display_unit in
    rw word (nearest q some_unit (grind (arith, above)) (grind (arith, split)))

-- What `make_human_readable_str` prints stands for the product in 64 bits. In the unit 1024^k, k above
-- 0, it is the tenth that is nearest to the product without its part below 1024^(k - 1): for k above 1
-- not always the tenth nearest to the product itself. In a display unit it is the nearest whole, when half a display unit can be added to it
-- without overflow.
pub make_human_readable_str-Rounded :
    (size block_size display_unit : ℕ)
    → size * block_size % 2 ^ 64 + display_unit / 2 < 2 ^ 64
    → Rounded
        (size * block_size % 2 ^ 64)
        display_unit
        (make_human_readable_str size block_size display_unit)
unfolding make_human_readable_str
make_human_readable_str-Rounded size block_size display_unit no_overflow =
    let val : ℕ = size * block_size % 2 ^ 64 in
    elim (Bool-cases (val == 0)) [
      | inl e ↦ rw e (nothing ((==_iff val 0).0 e))
      | inr some ↦ rw some (elim (Bool-cases (display_unit == 0)) [
        | inl none ↦ rw none (
            human (show_scaled (scale 4 (start val))) ((==_iff display_unit 0).0 none)
              (scaled-Human val (omega arith)))
        | inr unit ↦ rw unit (divided-nearest val display_unit (ground (arith, unit)) no_overflow)
      ])
    ]
