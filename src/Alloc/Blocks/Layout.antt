-- ===== src/Alloc/Blocks/Layout.antt =====
-- Where the blocks of a span lie, and `GET_HEADER` of src/wlmalloc.h.
use rmm.Base.{ℕ, ◌+◌, ◌*◌, ◌/◌, ◌%◌, ◌≤◌, ◌<◌, ◌≡◌, arith}
use rmm.Alloc.{span_data_size, span_bytes, span_size, get_header, roundup}
use rmm.Alloc.Blocks.{blk_cnt}

-- The address of the k-th block of size `sz` in the span at `p`.
unfoldable pub blk : (p sz k : ℕ) → ℕ
blk p sz k = p + span_bytes + k * sz

mul_below : (k n sz : ℕ) → k < n → k * sz + sz ≤ n * sz
mul_below k n sz h = grind arith

pub blk_step : (p sz k : ℕ) → blk p sz (k + 1) ≡ blk p sz k + sz
unfolding blk
blk_step p sz k = grind arith

pub blk-le : (p sz k n : ℕ) → k < n → blk p sz k + sz ≤ blk p sz n
unfolding blk
blk-le p sz k n h = omega (arith, mul_below k n sz h)

cnt_fits : (sz k : ℕ) → k < blk_cnt sz → k * sz + sz ≤ span_data_size
cnt_fits sz k h = grind (arith, mul_below k (span_data_size / sz) sz h)

-- A block lies between the header and the end of its span.
pub blk_bounds :
    (p sz k : ℕ)
    → k < blk_cnt sz
    → (p + span_bytes ≤ blk p sz k) × (blk p sz k + sz ≤ p + span_size)
unfolding blk
blk_bounds p sz k h = omega (arith, cnt_fits sz k h)

-- `GET_HEADER` takes any address from the span's first byte to its last to the span.
pub get_header_lem : (p a : ℕ) → p % span_size ≡ 0 → p ≤ a → a < p + span_size → get_header a ≡ p
unfolding get_header
get_header_lem p a aligned lo hi = omega arith

-- `ROUNDUP(x, n)` is the least multiple of `n` that is not below `x`.
pub roundup_lem :
    (x n : ℕ) → 0 < n → (roundup x n % n ≡ 0) × (x ≤ roundup x n) × (roundup x n < x + n)
unfolding roundup
roundup_lem x n pos = grind arith

-- A block of the span at `p`, one of the first `n`.
pub record IsBlock (p sz n a : ℕ) : Type 0 where
  pub index : ℕ
  pub below : index < n
  pub place : a ≡ blk p sz index

pub IsBlock-mono : (p sz n m a : ℕ) → n ≤ m → IsBlock p sz n a → IsBlock p sz m a
IsBlock-mono p sz n m a h b = record { index = b.index; below = omega arith; place = b.place }

pub blk_above : (p sz n a : ℕ) → IsBlock p sz n a → p + span_bytes ≤ a
unfolding blk
blk_above p sz n a b = omega (arith, b.place)
