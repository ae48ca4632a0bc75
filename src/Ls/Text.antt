-- ===== src/Ls/Text.antt =====
-- The texts that src/ls.c makes: `mode_string`, `append_char` and `make_human_readable_str`.
pub mod ReadMode
pub mod Human
use Prim.Native.Nat.{bit_and}
use rmm.Base.{
  ℕ, zero, suc, ◌+◌, ◌-◌, ◌*◌, ◌/◌, ◌%◌, ◌^◌, Bool, true, false, not, ◌&&◌, ◌||◌, ◌==◌, leb, ltb,
  if◌then◌else◌, List, [], ◌∷◌, get_or,
}

-- The string that `TYPECHAR` indexes, and the one of `APPCHAR`.
abbrev pub type_chars : List ℕ
type_chars = 48 ∷ 112 ∷ 99 ∷ 67 ∷ 100 ∷ 63 ∷ 98 ∷ 66 ∷ 45 ∷ 63 ∷ 108 ∷ 63 ∷ 115 ∷ 63 ∷ 63 ∷ 63 ∷ []

abbrev pub app_chars : List ℕ
app_chars = 0 ∷ 124 ∷ 0 ∷ 0 ∷ 47 ∷ 0 ∷ 0 ∷ 0 ∷ 0 ∷ 0 ∷ 64 ∷ 0 ∷ 61 ∷ 0 ∷ 0 ∷ 0 ∷ []

-- `TYPEINDEX(mode)`
abbrev pub type_index : ℕ → ℕ
type_index mode = mode / 4096 % 16

-- `mode & mask`, as a condition.
abbrev pub tests : (mode mask : ℕ) → Bool
tests mode mask = not (bit_and mode mask == 0)

-- `SBIT` and `MBIT`
abbrev pub sbit : List ℕ
sbit = 0 ∷ 0 ∷ 2 ^ 11 ∷ 0 ∷ 0 ∷ 2 ^ 10 ∷ 0 ∷ 0 ∷ 2 ^ 9 ∷ []

abbrev pub mbit : List ℕ
mbit = 2 ^ 8 ∷ 2 ^ 7 ∷ 2 ^ 6 ∷ 2 ^ 5 ∷ 2 ^ 4 ∷ 2 ^ 3 ∷ 2 ^ 2 ∷ 2 ^ 1 ∷ 2 ^ 0 ∷ []

-- `MODE1`, `MODE0`, `SMODE1` and `SMODE0`
abbrev pub mode1 : List ℕ
mode1 = 114 ∷ 119 ∷ 120 ∷ 114 ∷ 119 ∷ 120 ∷ 114 ∷ 119 ∷ 120 ∷ []

abbrev pub mode0 : List ℕ
mode0 = 45 ∷ 45 ∷ 45 ∷ 45 ∷ 45 ∷ 45 ∷ 45 ∷ 45 ∷ 45 ∷ []

abbrev pub smode1 : List ℕ
smode1 = 46 ∷ 46 ∷ 115 ∷ 46 ∷ 46 ∷ 115 ∷ 46 ∷ 46 ∷ 116 ∷ []

abbrev pub smode0 : List ℕ
smode0 = 46 ∷ 46 ∷ 83 ∷ 46 ∷ 46 ∷ 83 ∷ 46 ∷ 46 ∷ 84 ∷ []

-- `buf[i + 1]` of `mode_string`.
pub mode_char : (mode i : ℕ) → ℕ
mode_char mode i =
    let set = tests mode (get_or mbit i 0) in
    if tests mode (get_or sbit i 0)
    then (if set then get_or smode1 i 0 else get_or smode0 i 0)
    else (if set then get_or mode1 i 0 else get_or mode0 i 0)

-- The rounds of the loop from `i`, `count` of them.
pub mode_chars : (mode i count : ℕ) → List ℕ
unfolding mode_char
mode_chars mode i zero = []
mode_chars mode i (suc count) = mode_char mode i ∷ mode_chars mode (i + 1) count

-- The ten characters of the string.
pub mode_string : ℕ → List ℕ
unfolding mode_chars
mode_string mode = get_or type_chars (type_index mode) 0 ∷ mode_chars mode 0 9

-- `S_ISREG(mode)`
abbrev pub s_isreg : ℕ → Bool
s_isreg mode = mode / 4096 % 16 == 8

-- `append_char`, with the bits `LIST_FILETYPE` and `LIST_EXEC` of `list_fmt`.
unfoldable pub append_char : (list_filetype list_exec : Bool) (mode : ℕ) → ℕ
append_char list_filetype list_exec mode =
    if not list_filetype
    then 0
    else if list_exec && s_isreg mode && tests mode (2 ^ 6 + 2 ^ 3 + 2 ^ 0)
    then 42
    else get_or app_chars (type_index mode) 0

-- What `make_human_readable_str` prints: the string "0", `%Lu` of a value, or `%Lu.%d%c` of a value,
-- tenths and a character.
pub data Text : Type 0 where
  zero_text : Text
  plain : (val : ℕ) → Text
  tenths : (val frac unit : ℕ) → Text

-- `zero_and_units`
abbrev pub zero_and_units : List ℕ
zero_and_units = 48 ∷ 0 ∷ 107 ∷ 77 ∷ 71 ∷ 84 ∷ []

-- The state of the loop: `frac` and whether `f` is `fmt_tenths`, with `val` and the index of `u`.
pub record Scaled : Type 0 where
  pub val : ℕ
  pub frac : ℕ
  pub u : ℕ
  pub in_tenths : Bool

pub scale_step : Scaled → Scaled
scale_step s = record {
  val = s.val / 1024;
  frac = (s.val % 1024 * 10 + 512) / 1024;
  u = s.u + 1;
  in_tenths = true;
}

-- The loop; `rounds` counts the units that `u` can still be moved over.
pub scale : (rounds : ℕ) → Scaled → Scaled
unfolding scale_step
scale zero s = s
scale (suc rounds) s = let rest = scale rounds (scale_step s) in if leb 1024 s.val then rest else s

-- The end of the function: the round up, and what is printed.
pub show_scaled : Scaled → Text
show_scaled s =
    let up = leb 10 s.frac in
    let val = if up then (s.val + 1) % 2 ^ 64 else s.val in
    let frac = if up then 0 else s.frac in
    if s.in_tenths then tenths val frac (get_or zero_and_units s.u 0) else plain val

pub make_human_readable_str : (size block_size display_unit : ℕ) → Text
unfolding scale show_scaled
make_human_readable_str size block_size display_unit =
    let val = size * block_size % 2 ^ 64 in
    if val == 0
    then zero_text
    else if not (display_unit == 0)
    then plain ((val + display_unit / 2) % 2 ^ 64 / display_unit)
    else show_scaled (scale 4 (record { val = val; frac = 0; u = 1; in_tenths = false }))
