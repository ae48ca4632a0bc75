-- ===== src/Ls/Sort/Entries.antt =====
-- `shellsort` of src/ls.c on entries, with its comparison `sortcmp`.
use rmm.Base.{ℕ, ◌+◌, ◌^◌, ◌<◌, ◌≡◌, refl, arith, Bool, true, false, some, List, length, All}
use rmm.Ls.{Dnode, Strcmp, Sign, minus, nought, plus, negate, SortKey, sortcmp}
use rmm.Ls.Order.{key, sortcmp-negate}
use rmm.Ls.Sort.{in_order, shellsort}
use rmm.Ls.Sort.Moves.{count}
use rmm.Ls.Sort.Ordered.{IsTotal, StepAt}
use rmm.Ls.Sort.Whole.{shellsort-sorts}

negated-in_order : (c d : Sign) → d ≡ negate c → in_order c ≡ false → in_order d ≡ true
negated-in_order minus d e out = absurd (cc out)
negated-in_order nought d e out = absurd (cc out)
negated-in_order plus d e out = rw e refl

-- Keys of 31 bits: their differences are within an `int`.
abbrev pub SmallKey : SortKey → Dnode → Type 0
SmallKey k x = key k x < 2 ^ 31

sortcmp-IsTotal :
    (strcmp : Strcmp) (k : SortKey) (reverse : Bool)
    → ((s t : List ℕ) → strcmp t s ≡ negate (strcmp s t))
    → IsTotal (sortcmp strcmp k reverse) (SmallKey k)
sortcmp-IsTotal strcmp k reverse flip a b small_a small_b out =
    negated-in_order (sortcmp strcmp k reverse a b) (sortcmp strcmp k reverse b a)
      (sortcmp-negate strcmp k reverse a b flip
        (record { first = omega arith; second = omega arith; apart = λ e. absurd (omega arith) }))
      out

-- `shellsort` with `sortcmp` returns, within the array: the same entries, counted by any test, in an
-- order in which no entry is greater than the next. This is for each key and either direction, with a
-- `strcmp` that answers the other way round for its arguments exchanged, and with keys below 2^31.
pub shellsort-sortcmp :
    (strcmp : Strcmp) (k : SortKey) (reverse : Bool) (dn : List Dnode)
    → ((s t : List ℕ) → strcmp t s ≡ negate (strcmp s t))
    → All (SmallKey k) dn
    → (dn' : List Dnode) × (shellsort (sortcmp strcmp k reverse) dn ≡ some dn')
      × ((test : Dnode → Bool) → count test dn' ≡ count test dn)
      × ((i : ℕ) → i + 1 < length dn → StepAt (sortcmp strcmp k reverse) dn' i)
shellsort-sortcmp strcmp k reverse dn flip small =
    let (dn', run, r, steps) =
      shellsort-sorts (sortcmp strcmp k reverse) (SmallKey k)
        (sortcmp-IsTotal strcmp k reverse flip) dn small in
    (dn', run, r.counts, steps)
