-- ===== src/Examples/Copies.antt =====
-- Three copies of eight bytes in a block of 24.
use rmm.Base.{◌↔◌, ℕ, subst, sym, ◌∙◌, ◌+◌, ◌≡◌, inl, arith, if◌then◌else◌, ◌==◌}
use rmm.Alloc.{State, ok, get_header}
use rmm.TriMod.{no_value, tri_mod_read, tri_mod_write}
use rmm.TriMod.Vote.{third_lost, IsMended, tri_mod_read-mends, AllDiffer, tri_mod_read-null}
use rmm.TriMod.Store.{Writable, Upset, in_third, tri_mod_write-IsMended, tri_mod_read-tri_mod_write}
use rmm.Examples.Machine.{first_blk, serving}

-- Each byte is 7, but one of the third copy.
abbrev upset : ℕ → ℕ
upset a = if a == first_blk + 17 then 8 else 7

abbrev seven : ℕ → ℕ
seven i = 7

tri_mod_read-mends_example :
    (m' : ℕ → ℕ) × (tri_mod_read first_blk 8 upset ≡ (first_blk, m'))
    × IsMended upset first_blk 8 seven m'
tri_mod_read-mends_example =
    tri_mod_read-mends upset seven first_blk 8
      (third_lost (λ i h. ground arith) (λ i h. ground arith))

serving-Writable : Writable serving first_blk 7000 8
unfolding get_header
serving-Writable = record {
  header = ground arith;
  room = omega arith;
  word = omega arith;
  apart = inl (omega arith);
}

tri_mod_write-IsMended_example :
    (t : State) × (tri_mod_write first_blk 7000 8 serving ≡ ok no_value t)
    × IsMended serving.bytes first_blk 8 (λ i. serving.bytes (7000 + i)) t.bytes
tri_mod_write-IsMended_example = tri_mod_write-IsMended serving first_blk 7000 8 serving-Writable

-- Every byte is another.
abbrev all_apart : ℕ → ℕ
all_apart a = a

tri_mod_read-null_example :
    ((tri_mod_read first_blk 8 all_apart).0 ≡ 0 ↔ AllDiffer all_apart first_blk 8)
    × (AllDiffer all_apart first_blk 8 → tri_mod_read first_blk 8 all_apart ≡ (0, all_apart))
tri_mod_read-null_example = tri_mod_read-null all_apart first_blk 8 (ground arith)

-- What has been written differs from `upset` in the third copy only.
damage :
    (t : State)
    → tri_mod_write first_blk 7000 8 serving ≡ ok no_value t
    → Upset t.bytes first_blk 8 upset
damage t run =
    let (t', run', mended) = tri_mod_write-IsMended serving first_blk 7000 8 serving-Writable in
    let same : t' ≡ t = cc (run, run') in
    subst (λ u. Upset u.bytes first_blk 8 upset) same
      (in_third (λ i h. ground arith ∙ sym (mended.first i h))
        (λ i h. ground arith ∙ sym (mended.second i h)))

tri_mod_read-tri_mod_write_example :
    (m' : ℕ → ℕ) × (tri_mod_read first_blk 8 upset ≡ (first_blk, m'))
    × IsMended upset first_blk 8 (λ i. serving.bytes (7000 + i)) m'
tri_mod_read-tri_mod_write_example =
    tri_mod_read-tri_mod_write serving first_blk 7000 8 upset serving-Writable damage
