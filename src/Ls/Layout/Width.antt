-- ===== src/Ls/Layout/Width.antt =====
-- The columns that `showfiles` of src/ls.c chooses fit the terminal.
use native.Mathlib.Nat.{mod-add-div}
use rmm.Base.{
  ℕ, ◌+◌, ◌*◌, ◌/◌, ◌%◌, ◌^◌, ◌≤◌, ◌<◌, arith, Bool-cases, inl, inr, ltb, leb, if◌then◌else◌, List,
  [], ◌∷◌, All,
}
use rmm.Ls.{Dnode}
use rmm.Ls.Layout.{
  Format, style_auto, style_long, style_single, style_columns, entry_len, column_gap, longest,
  columns,
}

-- Each entry is as wide as the column at most.
abbrev Fits : Format → (column_width : ℕ) → Dnode → Type 0
Fits fmt column_width x = entry_len fmt x ≤ column_width

-- An entry whose length is a number of 16 bits.
abbrev pub Short : Format → Dnode → Type 0
Short fmt x = entry_len fmt x < 2 ^ 16

longest-grows :
    (fmt : Format) (dn : List Dnode) (w : ℕ)
    → All (Short fmt) dn
    → (w ≤ longest fmt dn w) × All (Fits fmt (longest fmt dn w)) dn
unfolding longest
longest-grows fmt [] w short = (omega arith, tt)
longest-grows fmt (x ∷ dn) w short =
    let next : ℕ = if ltb w (entry_len fmt x) then entry_len fmt x % 2 ^ 16 else w in
    let (grown, rest) = longest-grows fmt dn next short.1 in
    let bound : entry_len fmt x < 2 ^ 16 = short.0 in
    let room : (w ≤ next) × (entry_len fmt x ≤ next) = elim (Bool-cases (ltb w (entry_len fmt x))) [
      | inl e ↦ rw e (ground arith)
      | inr e ↦ rw e (ground arith)
    ] in
    (omega (arith, room, grown), (omega (arith, room, grown), rest))

fit_room :
    (width w : ℕ)
    → 1 < (if leb 1 w then width / (w + column_gap) else 1)
    → (if leb 1 w then width / (w + column_gap) else 1) * (w + column_gap) ≤ width
fit_room width w several = elim (Bool-cases (leb 1 w)) [
  | inl e ↦ let split = mod-add-div width (w + column_gap) in rw e (grind (arith, split))
  | inr e ↦ absurd (ground (arith, several))
]

columns-room :
    (fmt : Format) (w : ℕ)
    → 1 < columns fmt w
    → columns fmt w * (w + column_gap) ≤ fmt.terminal_width
unfolding columns
columns-room fmt w =
    elim fmt.style_fmt
      as (λ s.
        1 < columns (record fmt { style_fmt = s }) w
        → columns (record fmt { style_fmt = s }) w * (w + column_gap) ≤ fmt.terminal_width) [
          | style_long ↦ λ several. absurd (omega (arith, several))
          | style_single ↦ λ several. absurd (omega (arith, several))
          | style_auto ↦ fit_room fmt.terminal_width w
          | style_columns ↦ fit_room fmt.terminal_width w
        ]

-- Each entry with its extra fields is at most as wide as a column, and where there is more than one
-- column the columns with their gaps fit the terminal, when the entries' widths are numbers of 16 bits.
pub columns-fit :
    (fmt : Format) (dn : List Dnode)
    → All (Short fmt) dn
    → All (λ x. entry_len fmt x ≤ longest fmt dn 0) dn
      × (1 < columns fmt (longest fmt dn 0)
          → columns fmt (longest fmt dn 0) * (longest fmt dn 0 + column_gap) ≤ fmt.terminal_width)
columns-fit fmt dn short = ((longest-grows fmt dn 0 short).1, columns-room fmt (longest fmt dn 0))
