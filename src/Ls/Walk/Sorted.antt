-- ===== src/Ls/Walk/Sorted.antt =====
-- What `showdirs` of src/ls.c sorts: `shellsort` returns for every comparison, also of a part.
use rmm.Base.{◌≡◌, refl, some, List, [], ◌∷◌}
use rmm.Ls.{Which, selects}
use rmm.Ls.Print.{Full}
use rmm.Ls.Sort.Moves.{Rearranged}
use rmm.Ls.Sort.Whole.{shellsort-returns}
use rmm.Ls.Split.{chosen, filled, splitdnarray-filled}
use rmm.Ls.Walk.{Lister, compare_full, entries, sorted_part}

entries-filled : (dn : List Full) → entries (filled dn) ≡ some dn
unfolding entries filled
entries-filled [] = refl
entries-filled (x ∷ dn) = rw (entries-filled dn) refl

-- The entries that a part is made of.
abbrev pub part_of : Lister → Which → List Full → List Full
part_of lister which dn = chosen (λ x. selects lister.world.strcmp which x.dnode) dn

pub sorted_part_lem :
    (lister : Lister) (which : Which) (dn : List Full)
    → (dnd : List Full) × (sorted_part lister which dn ≡ some dnd)
      × Rearranged (part_of lister which dn) dnd
unfolding sorted_part
sorted_part_lem lister which dn =
    let (dnd, run, r) = shellsort-returns (compare_full lister) (part_of lister which dn) in
    (
      dnd,
      rw
          (
            sorted_part,
            splitdnarray-filled (λ x. x.dnode) lister.world.strcmp dn which,
            entries-filled (part_of lister which dn),
          )
          run,
      r,
    )
