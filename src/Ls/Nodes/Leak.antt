-- ===== src/Ls/Nodes/Leak.antt =====
-- `dfree` of src/ls.c after `shellsort`: which nodes it frees.
use mathlib.Core.List.{Memᴰ, append_assoc, append-nil}
use mathlib.Core.List.Memᴰ.{head, tail}
use rmm.Base.{
  ℕ, zero, suc, ◌+◌, ◌<◌, ◌≡◌, ◌≢◌, refl, sym, ap, subst, ◌∙◌, arith, true, false, ◌==◌, some, List,
  [], ◌∷◌, ◌++◌, length, length-append,
}
use rmm.Ls.{Sign}
use rmm.Ls.Sort.{shellsort}
use rmm.Ls.Sort.Moves.{Rearranged}
use rmm.Ls.Sort.Whole.{shellsort-returns}
use rmm.Ls.Walk.Members.{Rearranged-mem_back}
use rmm.Ls.Nodes.{NodeAt, count_nodes, countfiles, free_nodes, freed_of, dfree, blocks_of}

-- Along a chain of links from an address, whose last next is 0.
abbrev pub Linked : (next : ℕ → ℕ) → List NodeAt → Type 0
Linked next [] = Unit
Linked next (cur ∷ []) = (cur.addr ≢ 0) × (next cur.addr ≡ 0)
Linked next (cur ∷ later ∷ dn) =
    (cur.addr ≢ 0) × ((next cur.addr ≡ later.addr) × Linked next (later ∷ dn))

Linked-first :
    (next : ℕ → ℕ) (cur : NodeAt) (dn : List NodeAt) → Linked next (cur ∷ dn) → cur.addr ≢ 0
Linked-first next cur [] linked = linked.0
Linked-first next cur (later ∷ dn) linked = linked.0

module _ (next fullname : ℕ → ℕ) where
  free_go :
      (cur : NodeAt) (dn : List NodeAt) (fuel : ℕ) (freed : List ℕ)
      → Linked next (cur ∷ dn)
      → free_nodes next fullname (suc fuel) cur.addr freed
        ≡ free_nodes next fullname fuel (next cur.addr) (freed ++ freed_of fullname cur.addr)
  unfolding free_nodes
  free_go cur dn fuel freed linked =
      let first = Linked-first next cur dn linked in
      let some_node : (cur.addr == 0) ≡ false = ground (arith, first) in
      rw (free_nodes, some_node) refl

  free_nodes-all :
      (cur : NodeAt) (dn : List NodeAt) (fuel : ℕ) (freed : List ℕ)
      → Linked next (cur ∷ dn)
      → length dn + 1 < fuel
      → free_nodes next fullname fuel cur.addr freed ≡ some (freed ++ blocks_of fullname (cur ∷ dn))
  unfolding free_nodes blocks_of
  free_nodes-all cur dn zero freed linked enough = absurd (omega (arith, enough))
  free_nodes-all cur dn (suc zero) freed linked enough = absurd (omega (arith, enough))
  free_nodes-all cur [] (suc (suc fuel)) freed linked enough =
      let own = freed_of fullname cur.addr in
      free_go cur [] (suc fuel) freed linked
      ∙ ap (λ a. free_nodes next fullname (suc fuel) a (freed ++ own)) linked.1
      ∙ ap some (ap (λ l. freed ++ l) (sym (append-nil own)))
  free_nodes-all cur (later ∷ dn) (suc (suc fuel)) freed linked enough =
      let own = freed_of fullname cur.addr in
      free_go cur (later ∷ dn) (suc fuel) freed linked
      ∙ ap (λ a. free_nodes next fullname (suc fuel) a (freed ++ own)) linked.1.0
      ∙ free_nodes-all later dn (suc fuel) (freed ++ own) linked.1.1 (omega (arith, enough))
      ∙ ap some (append_assoc freed own (blocks_of fullname (later ∷ dn)))

count_nodes-all :
    (next : ℕ → ℕ) (cur : NodeAt) (dn : List NodeAt) (fuel nfiles : ℕ)
    → Linked next (cur ∷ dn)
    → length dn < fuel
    → count_nodes next fuel cur.addr nfiles ≡ some (nfiles + length (cur ∷ dn))
unfolding count_nodes
count_nodes-all next cur dn zero nfiles linked enough = absurd (omega (arith, enough))
count_nodes-all next cur [] (suc fuel) nfiles linked enough =
    let ended : (next cur.addr == 0) ≡ true = ground (arith, linked.1) in
    rw (count_nodes, ended) refl
count_nodes-all next cur (later ∷ dn) (suc fuel) nfiles linked enough =
    let first = Linked-first next later dn linked.1.1 in
    let going : (next cur.addr == 0) ≡ false = ground (arith, first, linked.1.0) in
    rw (count_nodes, going) refl
    ∙ ap (λ a. count_nodes next fuel a (nfiles + 1)) linked.1.0
    ∙ count_nodes-all next later dn fuel (nfiles + 1) linked.1.1 (omega (arith, enough))
    ∙ ap some (omega arith)

Linked-suffix :
    (next : ℕ → ℕ) (pre : List NodeAt) (cur : NodeAt) (post : List NodeAt)
    → Linked next (pre ++ cur ∷ post)
    → Linked next (cur ∷ post)
Linked-suffix next [] cur post linked = linked
Linked-suffix next (x ∷ []) cur post linked = linked.1.1
Linked-suffix next (x ∷ y ∷ pre) cur post linked = Linked-suffix next (y ∷ pre) cur post linked.1.1

split_at :
    {cur : NodeAt} {dn : List NodeAt}
    → Memᴰ cur dn
    → (pre : List NodeAt) × (post : List NodeAt) × (dn ≡ pre ++ cur ∷ post)
split_at {dn = []} m = elim m [ ]
split_at {dn = x ∷ dn} (head is) = ([], dn, ap (λ y. y ∷ dn) (sym is))
split_at {dn = x ∷ dn} (tail m) =
    let (pre, post, e) = split_at m in (x ∷ pre, post, ap (λ l. x ∷ l) e)

sorted_first :
    (cmp : NodeAt → NodeAt → Sign) (next fullname : ℕ → ℕ) (fuel dnp_at : ℕ) (first : NodeAt)
    (chain dn : List NodeAt)
    → Linked next (first ∷ chain)
    → length chain + 1 < fuel
    → shellsort cmp (first ∷ chain) ≡ some dn
    → Rearranged (first ∷ chain) dn
    → (least : NodeAt) × (rest : List NodeAt) × (pre : List NodeAt) × (post : List NodeAt)
      × (shellsort cmp (first ∷ chain) ≡ some (least ∷ rest))
      × (first ∷ chain ≡ pre ++ least ∷ post)
      × (dfree next fullname fuel dnp_at (least ∷ rest)
          ≡ some (blocks_of fullname (least ∷ post) ++ dnp_at ∷ []))
unfolding dfree
sorted_first cmp next fullname fuel dnp_at first chain [] linked enough sorted r =
    absurd (omega (arith, r.size))
sorted_first cmp next fullname fuel dnp_at first chain (least ∷ rest) linked enough sorted r =
    let (pre, post, e) = split_at (Rearranged-mem_back r (head refl)) in
    let size : length (first ∷ chain) ≡ length pre + length (least ∷ post) =
      ap length e ∙ length-append pre (least ∷ post) in
    (
      least,
      rest,
      pre,
      post,
      sorted,
      e,
      rw
          (
            dfree,
            free_nodes-all next fullname least post fuel []
                (Linked-suffix next pre least post (subst (Linked next) e linked))
                (omega (arith, size, enough)),
          )
          refl,
    )

-- Before the sort `countfiles` counts all nodes of the chain. After it `dfree` begins with the entry
-- that comes first in the order, and frees this node and those behind it in the chain, with their names,
-- and the array: the nodes before it and their names are not freed. The fuel is above the number of nodes.
pub dfree-leaks :
    (cmp : NodeAt → NodeAt → Sign) (next fullname : ℕ → ℕ) (fuel dnp_at : ℕ) (first : NodeAt)
    (chain : List NodeAt)
    → Linked next (first ∷ chain)
    → length chain + 1 < fuel
    → (countfiles next fuel (first ∷ chain) ≡ some (length (first ∷ chain)))
      × ((least : NodeAt) × (rest : List NodeAt) × (pre : List NodeAt) × (post : List NodeAt)
          × (shellsort cmp (first ∷ chain) ≡ some (least ∷ rest))
          × (first ∷ chain ≡ pre ++ least ∷ post)
          × (dfree next fullname fuel dnp_at (least ∷ rest)
              ≡ some (blocks_of fullname (least ∷ post) ++ dnp_at ∷ [])))
unfolding countfiles dfree
dfree-leaks cmp next fullname fuel dnp_at first chain linked enough =
    let (dn, sorted, r) = shellsort-returns cmp (first ∷ chain) in
    (
      count_nodes-all next first chain fuel 0 linked (omega (arith, enough))
          ∙ ap some (omega arith),
      sorted_first cmp next fullname fuel dnp_at first chain dn linked enough sorted r,
    )
