-- ===== src/Ls/Show/Cell.antt =====
-- What `list_single` of src/ls.c prints of an entry in the short format.
use rmm.Base.{
  ℕ, zero, suc, ◌+◌, ◌-◌, ◌*◌, ◌/◌, ◌%◌, ◌^◌, ◌≤◌, ◌<◌, ◌≡◌, refl, sym, ap, ◌∙◌, arith, Bool, true,
  false, Bool-cases, inl, inr, ◌==◌, if◌then◌else◌, none, some, List, [], ◌∷◌, ◌++◌, length,
  length-append, length-replicate,
}
use rmm.Ls.Text.{append_char}
use rmm.Ls.Options.{Options}
use rmm.Ls.Screen.{Screen, digits_of, decimal, pad_left, space, spaces, put, advance}
use rmm.Ls.Screen.Columns.{append_text, append_text_append, append_text_nil}
use rmm.Ls.Print.{
  Full, World, on, link_of, append_of, print_filename, print_symlink, list_bits, list_single,
}

more_digits : (k n : ℕ) → (n / 10 == 0) ≡ false → n / 10 < 10 ^ k → 0 < k
more_digits zero n more bound = absurd (ground (arith, more, bound))
more_digits (suc k) n more bound = omega arith

digits_bound : (fuel k n : ℕ) → 0 < k → n < 10 ^ k → length (digits_of fuel n) ≤ k
unfolding digits_of
digits_bound zero k n pos bound = omega arith
digits_bound (suc fuel) zero n pos bound = absurd (omega (arith, pos))
digits_bound (suc fuel) (suc k) n pos bound =
    let grown : 10 ^ suc k ≡ 10 * 10 ^ k = grind arith in
    let rest : n / 10 < 10 ^ k = omega (arith, grown, bound) in
    elim (Bool-cases (n / 10 == 0)) [
      | inl last ↦ rw last (omega arith)
      | inr more ↦
          let some_digit : 0 < k = more_digits k n more rest in
          let shorter = digits_bound fuel k (n / 10) some_digit rest in
          rw more
            (omega (arith, length-append (digits_of fuel (n / 10)) ((48 + n % 10) ∷ []), shorter))
    ]

length-pad_left :
    (width : ℕ) (text : List ℕ) → length text ≤ width → length (pad_left width text) ≡ width
length-pad_left width text room = omega (
  arith,
  length-append (spaces (width - length text)) text,
  length-replicate {A = ℕ} (width - length text) 32,
  room,
)

-- The short format: an entry's name, with its number (`-i`) and its mark (`-F`, `-p`), in no colour.
pub record Plain (w : World) (o : Options) : Type 0 where
  pub no_color : w.show_color ≡ false
  pub no_blocks : o.list_blocks ≡ false
  pub no_modebits : o.list_modebits ≡ false
  pub no_nlinks : o.list_nlinks ≡ false
  pub no_id_name : o.list_id_name ≡ false
  pub no_id_numeric : o.list_id_numeric ≡ false
  pub no_size : o.list_size ≡ false
  pub no_date_time : o.list_date_time ≡ false
  pub no_fulltime : o.list_fulltime ≡ false
  pub no_symlink : o.list_symlink ≡ false
  pub filename : o.list_filename ≡ true

-- The number of the entry, and its mark.
pub number_of : Options → Full → List ℕ
number_of o e = if o.list_ino then pad_left 7 (decimal e.rest.st_ino) ++ space else []

pub mark_of : Options → Full → List ℕ
mark_of o e =
    let mark = append_char o.list_filetype o.list_exec e.dnode.st_mode in
    if mark == 0 then [] else mark ∷ []

unfoldable pub cell_text : Options → Full → List ℕ
unfolding number_of mark_of
cell_text o e = (number_of o e ++ e.dnode.name) ++ mark_of o e

length-number :
    (o : Options) (e : Full)
    → e.rest.st_ino < 10 ^ 7
    → length (number_of o e) ≡ (if o.list_ino then 8 else 0)
unfolding number_of
length-number o e bound =
    let digits = digits_bound 20 7 e.rest.st_ino (omega arith) bound in
    elim (Bool-cases o.list_ino) [
      | inl shown ↦ rw shown (
          omega (
            arith,
            length-append (pad_left 7 (decimal e.rest.st_ino)) space,
            length-pad_left 7 (decimal e.rest.st_ino) digits,
          ))
      | inr hidden ↦ rw hidden refl
    ]

-- The text of an entry is its name with at most the number and one character more.
pub cell_text-bound :
    (o : Options) (e : Full)
    → e.rest.st_ino < 10 ^ 7
    → 0 < length e.dnode.name
    → (0 < length (cell_text o e))
      × (length (cell_text o e) ≤ length e.dnode.name + (if o.list_ino then 8 else 0) + 1)
unfolding cell_text mark_of
cell_text-bound o e bound named =
    let mark = append_char o.list_filetype o.list_exec e.dnode.st_mode in
    let number = length-number o e bound in
    let first = length-append (number_of o e) e.dnode.name in
    let whole = length-append (number_of o e ++ e.dnode.name) (mark_of o e) in
    let short : length (mark_of o e) ≤ 1 = elim (Bool-cases (mark == 0)) [
      | inl no_mark ↦ rw no_mark (omega arith)
      | inr marked ↦ rw marked (omega arith)
    ] in
    (omega (arith, first, whole, named), omega (arith, number, first, whole, short))

ino_lem :
    (o : Options) (e : Full) (sc : Screen)
    → sc.column < 2 ^ 16
    → e.rest.st_ino < 10 ^ 7
    → on o.list_ino (λ s. advance 8 (put (pad_left 7 (decimal e.rest.st_ino) ++ space) s)) sc
      ≡ append_text (number_of o e) sc
unfolding number_of append_text on
ino_lem o e sc room bound =
    let digits = digits_bound 20 7 e.rest.st_ino (omega arith) bound in
    let long : length (pad_left 7 (decimal e.rest.st_ino) ++ space) ≡ 8 = omega (
      arith,
      length-append (pad_left 7 (decimal e.rest.st_ino)) space,
      length-pad_left 7 (decimal e.rest.st_ino) digits,
    ) in
    elim (Bool-cases o.list_ino) [
      | inl shown ↦ rw (shown, long) refl
      | inr hidden ↦ rw hidden (sym (append_text_nil sc room))
    ]

-- Without `LIST_SYMLINK` no link is read.
pub list_single-bits :
    (stale : ℕ) (w : World) (o : Options) (e : Full) (sc : Screen)
    → o.list_symlink ≡ false
    → list_single stale w o e sc ≡ some (list_bits stale w o e none sc)
unfolding list_single link_of
list_single-bits stale w o e sc no_link = rw (list_single, link_of, no_link) refl

print_filename_lem :
    (w : World) (e : Full) (sc : Screen)
    → w.show_color ≡ false
    → print_filename w e sc ≡ append_text e.dnode.name sc
unfolding print_filename append_text
print_filename_lem w e sc no_color = rw no_color refl

skip :
    {bit : Bool} {sc sc' : Screen} (print : Screen → Screen)
    → bit ≡ false
    → sc' ≡ sc
    → on bit print sc' ≡ sc
unfolding on
skip print off e = rw off e

taken :
    {bit : Bool} {sc sc' : Screen} (print : Screen → Screen)
    → bit ≡ true
    → sc' ≡ sc
    → on bit print sc' ≡ print sc
unfolding on
taken print set e = rw (set, e) refl

print_char :
    (char : ℕ) (sc : Screen)
    → sc.column < 2 ^ 16
    → (if char == 0 then sc else advance 1 (put (char ∷ []) sc))
      ≡ append_text (if char == 0 then [] else char ∷ []) sc
unfolding append_text
print_char char sc room = elim (Bool-cases (char == 0)) [
  | inl nothing ↦ rw nothing (sym (append_text_nil sc room))
  | inr char_set ↦ rw char_set refl
]

no_mark : (o : Options) (e : Full) → o.list_filetype ≡ false → mark_of o e ≡ []
unfolding mark_of append_char
no_mark o e hidden = rw hidden refl

-- The character that the last bit prints.
mark_lem :
    (w : World) (o : Options) (e : Full) (sc : Screen)
    → sc.column < 2 ^ 16
    → on o.list_filetype
        (λ s.
          if append_of w o e none == 0 then s else advance 1 (put (append_of w o e none ∷ []) s))
        sc
      ≡ append_text (mark_of o e) sc
unfolding mark_of append_of
mark_lem w o e sc room = elim (Bool-cases o.list_filetype) [
  | inl shown ↦
      let mark = append_char o.list_filetype o.list_exec e.dnode.st_mode in
      taken _ shown refl ∙ print_char mark sc room
  | inr hidden ↦ skip _ hidden refl ∙ sym (append_text_nil sc room) ∙ rw (no_mark o e hidden)
]

pub list_single-text :
    (stale : ℕ) (w : World) (o : Options) (e : Full) (sc : Screen)
    → Plain w o
    → sc.column < 2 ^ 16
    → e.rest.st_ino < 10 ^ 7
    → list_single stale w o e sc ≡ some (append_text (cell_text o e) sc)
unfolding list_bits cell_text append_text print_symlink
list_single-text stale w o e sc p room bound =
    let numbered : Screen = append_text (number_of o e) sc in
    let named : Screen = append_text (number_of o e ++ e.dnode.name) sc in
    let first : on o.list_ino _ sc ≡ numbered = ino_lem o e sc room bound in
    let small : named.column < 2 ^ 16 = omega arith in
    let before = skip _ p.no_fulltime (
      skip _ p.no_date_time (
        skip _ p.no_size (
          skip _ p.no_id_numeric (
            skip _ p.no_id_name
              (skip _ p.no_nlinks (skip _ p.no_modebits (skip _ p.no_blocks first))))))) in
    let last : Screen → Screen = λ s.
      on o.list_filetype
        (λ t.
          if append_of w o e none == 0 then t else advance 1 (put (append_of w o e none ∷ []) t))
        s in
    list_single-bits stale w o e sc p.no_symlink
    ∙ ap some (
        ap last (
          taken _ p.filename before
          ∙ print_filename_lem w e numbered p.no_color
          ∙ append_text_append (number_of o e) e.dnode.name sc)
        ∙ mark_lem w o e named small
        ∙ append_text_append (number_of o e ++ e.dnode.name) (mark_of o e) sc)
