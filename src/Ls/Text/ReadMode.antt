-- ===== src/Ls/Text/ReadMode.antt =====
-- Reading the permissions back from the string of `mode_string` of src/ls.c.
use Prim.Native.Nat.{bit_and}
use native.Mathlib.Nat.{one-le-pow}
use mathlib.Core.Bool.{true≢false}
use rmm.Base.{
  ℕ, ◌+◌, ◌*◌, ◌/◌, ◌%◌, ◌^◌, ◌<◌, ◌≡◌, refl, arith, Bool, true, false, not, ◌||◌, ◌==◌,
  if◌then◌else◌, List, [], ◌∷◌, zero, suc, length, bit_and_pow, bit_and_mask,
}
use rmm.Ls.Text.{tests, mode_char, mode_chars, mode_string}

-- The permission that a character shows, and the special bit that it shows.
pub shown : ℕ → ℕ
shown c = if c == 114 || (c == 119) || (c == 120) || (c == 115) || (c == 116) then 1 else 0

pub special : ℕ → ℕ
special c = if c == 115 || (c == 83) || (c == 116) || (c == 84) then 1 else 0

-- The bits of the characters, the last of which is bit 0; each third one has a special bit.
pub read_chars : List ℕ → ℕ
unfolding shown special
read_chars [] = 0
read_chars (c ∷ cs) = shown c * 2 ^ length cs + special c * 2 ^ (9 + length cs / 3) + read_chars cs

pub read_mode : List ℕ → ℕ
unfolding read_chars
read_mode [] = 0
read_mode (type_char ∷ cs) = read_chars cs

tests_zero : (mode : ℕ) → tests mode 0 ≡ false
tests_zero mode = ground (arith, bit_and_mask 0 mode)

abbrev number : Bool → ℕ
number b = if b then 1 else 0

number_nonzero : (q p x : ℕ) → 0 < p → q < 2 → x ≡ q * p → number (not (x == 0)) ≡ q
number_nonzero zero p x pos small e = ground arith
number_nonzero (suc zero) p x pos small e = ground arith
number_nonzero (suc (suc q)) p x pos small e = absurd (omega arith)

tests_bit : (mode k : ℕ) → number (tests mode (2 ^ k)) ≡ mode / 2 ^ k % 2
tests_bit mode k =
    number_nonzero (mode / 2 ^ k % 2) (2 ^ k) (bit_and mode (2 ^ k)) (one-le-pow k 2 (omega arith))
      (omega arith) (bit_and_pow k mode)

-- What a character shows, from its tests: s of the special bit and b of the bit.
abbrev Reads : (c s b : ℕ) → Type 0
Reads c s b = (shown c ≡ b) × (special c ≡ s)

read_r :
    (s b : Bool)
    → s ≡ false
    → Reads (if s then (if b then 46 else 46) else if b then 114 else 45) 0 (number b)
unfolding shown special
read_r true b e = absurd (true≢false e)
read_r false true e = (refl, refl)
read_r false false e = (refl, refl)

read_w :
    (s b : Bool)
    → s ≡ false
    → Reads (if s then (if b then 46 else 46) else if b then 119 else 45) 0 (number b)
unfolding shown special
read_w true b e = absurd (true≢false e)
read_w false true e = (refl, refl)
read_w false false e = (refl, refl)

read_x :
    (s b : Bool)
    → Reads (if s then (if b then 115 else 83) else if b then 120 else 45) (number s) (number b)
unfolding shown special
read_x true true = (refl, refl)
read_x true false = (refl, refl)
read_x false true = (refl, refl)
read_x false false = (refl, refl)

read_t :
    (s b : Bool)
    → Reads (if s then (if b then 116 else 84) else if b then 120 else 45) (number s) (number b)
unfolding shown special
read_t true true = (refl, refl)
read_t true false = (refl, refl)
read_t false true = (refl, refl)
read_t false false = (refl, refl)

-- The nine characters of `mode_string` show the nine permissions and the three special bits: reading
-- them back gives the mode without its type.
pub read_mode-mode_string : (mode : ℕ) → read_mode (mode_string mode) ≡ mode % 4096
unfolding read_mode mode_string read_chars mode_chars mode_char
read_mode-mode_string mode =
    let plain = tests_zero mode in
    omega (
      arith,
      read_r (tests mode 0) (tests mode (2 ^ 8)) plain,
      read_w (tests mode 0) (tests mode (2 ^ 7)) plain,
      read_x (tests mode (2 ^ 11)) (tests mode (2 ^ 6)),
      read_r (tests mode 0) (tests mode (2 ^ 5)) plain,
      read_w (tests mode 0) (tests mode (2 ^ 4)) plain,
      read_x (tests mode (2 ^ 10)) (tests mode (2 ^ 3)),
      read_r (tests mode 0) (tests mode (2 ^ 2)) plain,
      read_w (tests mode 0) (tests mode (2 ^ 1)) plain,
      read_t (tests mode (2 ^ 9)) (tests mode (2 ^ 0)),
      tests_bit mode 0,
      tests_bit mode 1,
      tests_bit mode 2,
      tests_bit mode 3,
      tests_bit mode 4,
      tests_bit mode 5,
      tests_bit mode 6,
      tests_bit mode 7,
      tests_bit mode 8,
      tests_bit mode 9,
      tests_bit mode 10,
      tests_bit mode 11,
    )
