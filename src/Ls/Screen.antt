-- ===== src/Ls/Screen.antt =====
-- The output of src/ls.c: `newline` and `nexttabstop`, with the count of columns that they keep, and
-- the conversions of `printf` that the code uses.
pub mod Columns
use rmm.Base.{
  ℕ, zero, suc, ◌+◌, ◌-◌, ◌/◌, ◌%◌, ◌^◌, Bool, true, false, ◌||◌, ◌==◌, ltb, leb, if◌then◌else◌,
  List, [], ◌∷◌, ◌++◌, length, take, replicate,
}
use rmm.Ls.Layout.{column_gap}

-- What has been printed, `column`, and the `nexttab` of `nexttabstop`. Both count modulo 2^16;
-- `nexttab` is a signed number.
pub record Screen : Type 0 where
  pub out : List ℕ
  pub column : ℕ
  pub nexttab : ℕ

-- `printf` of a text that is ready.
abbrev pub put : List ℕ → Screen → Screen
put text sc = record sc { out = sc.out ++ text }

-- `column += n`
abbrev pub advance : ℕ → Screen → Screen
advance n sc = record sc { column = (sc.column + n) % 2 ^ 16 }

unfoldable pub newline : Screen → Screen
newline sc =
    if ltb 0 sc.column
    then record { out = sc.out ++ 10 ∷ []; column = 0; nexttab = sc.nexttab }
    else sc

abbrev pub spaces : ℕ → List ℕ
spaces n = replicate n 32

-- `n` of `nexttabstop`; a negative difference is less than 1 as well.
abbrev pub tab_gap : Screen → ℕ
tab_gap sc =
    if leb (2 ^ 15) sc.nexttab || leb sc.nexttab sc.column then 1 else sc.nexttab - sc.column

unfoldable pub nexttabstop : (column_width : ℕ) → Screen → Screen
nexttabstop column_width sc =
    let n = tab_gap sc in
    let sc' = if ltb 0 sc.column then advance n (put (spaces n) sc) else sc in
    record sc' { nexttab = (sc'.column + column_width + column_gap) % 2 ^ 16 }

-- `%ld`: the decimal digits of a number, of at most `fuel` digits.
unfoldable pub digits_of : (fuel n : ℕ) → List ℕ
digits_of zero n = []
digits_of (suc fuel) n =
    let rest = digits_of fuel (n / 10) in
    if n / 10 == 0 then (48 + n % 10) ∷ [] else rest ++ (48 + n % 10) ∷ []

-- A 64-bit number has at most 20 digits.
abbrev pub decimal : ℕ → List ℕ
decimal n = digits_of 20 n

-- `%8s`, `%-8s`, and with a precision `%8.8s`.
abbrev pub pad_left : (width : ℕ) → List ℕ → List ℕ
pad_left width text = spaces (width - length text) ++ text

abbrev pub pad_right : (width : ℕ) → List ℕ → List ℕ
pad_right width text = text ++ spaces (width - length text)

abbrev pub space : List ℕ
space = 32 ∷ []
