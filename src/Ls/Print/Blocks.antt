-- ===== src/Ls/Print/Blocks.antt =====
-- `list_single` of src/ls.c counts fewer columns than it prints for the blocks and the links.
use rmm.Base.{
  ℕ, ◌+◌, ◌-◌, ◌/◌, ◌%◌, ◌^◌, ◌≤◌, ◌≡◌, refl, arith, if◌then◌else◌, List, ◌++◌, length,
  length-append, length-replicate,
}
use rmm.Ls.Options.{Options}
use rmm.Ls.Screen.{Screen, decimal, pad_left, space, spaces}
use rmm.Ls.Print.{Full, print_blocks, text_bytes}
use rmm.Ls.Text.{make_human_readable_str}

pad_left-bound : (width : ℕ) (text : List ℕ) → width ≤ length (pad_left width text)
pad_left-bound width text = omega (
  arith,
  length-append (spaces (width - length text)) text,
  length-replicate {A = ℕ} (width - length text) 32,
)

-- With `LIST_BLOCKS` at least 17 characters are printed, the blocks three times, but the column moves
-- on by 5.
pub print_blocks-miscounts :
    (o : Options) (e : Full) (sc : Screen)
    → (text : List ℕ) × ((print_blocks o e sc).out ≡ sc.out ++ text)
      × (17 ≤ length text)
      × ((print_blocks o e sc).column ≡ (sc.column + 5) % 2 ^ 16)
unfolding print_blocks
print_blocks-miscounts o e sc =
    let half = e.rest.st_blocks / 2 in
    let human = make_human_readable_str half 1024 (if o.ls_disp_hr then 0 else 1024) in
    let first = pad_left 6 (text_bytes human) in
    let second = pad_left 4 (decimal half) in
    (
      _,
      refl,
      omega (
        arith,
        length-append (first ++ space ++ second ++ space ++ second) space,
        length-append (first ++ space ++ second ++ space) second,
        length-append (first ++ space ++ second) space,
        length-append (first ++ space) second,
        length-append first space,
        pad_left-bound 6 (text_bytes human),
        pad_left-bound 4 (decimal half),
      ),
      refl,
    )
