-- ===== src/Examples/Leaving.antt =====
-- A thread that ends with a span in use and a suspended one.
use rmm.Base.{
  ℕ, ◌+◌, ◌-◌, ◌*◌, ◌/◌, ◌<◌, ◌≡◌, refl, sym, subst, arith, Bool-cases, inl, inr, leb,
  if◌then◌else◌, ◌==◌, ==_iff, List, [], ◌∷◌, ◌∉◌, length,
}
use rmm.ListHead.{list_add_tail}
use rmm.ListHead.Chain.{IsRing, IsRing-frame, SameOutside}
use rmm.ListHead.Insert.{list_add_tail_lem}
use rmm.SizeClass.{default_class_num}
use rmm.Alloc.{State, ok, node, span_size, tc_suspend, tc_free_list, pool_suspend, pool_free_list}
use rmm.Alloc.ThreadCache.{thread_exit}
use rmm.Alloc.ThreadCache.Zones.{Pair}
use rmm.Alloc.ThreadCache.Leave.{Lists, Loose}
use rmm.Alloc.ThreadCache.Exit.{Exited, thread_exit-Exited}
use rmm.Examples.Machine.{env, self, span_at, serving, empty_lists}

-- The node of a suspended span of the class 2.
abbrev other_node : ℕ
other_node = node (span_at + span_size)

abbrev suspended : ℕ → List ℕ
suspended i = if i == 2 then other_node ∷ [] else []

abbrev leaving : State
leaving = record serving { links = list_add_tail other_node (tc_suspend self 2) empty_lists }

-- On which list an address is.
abbrev zone : ℕ → ℕ
zone c =
    if c == node span_at
    then 2
    else if c == other_node
    then 4
    else if leb 5272 c
    then 2 * ((c - 5272) / 16)
    else if c == 1064
    then 59
    else 2 * ((c - 1080) / 16) + 1

idle : (h : ℕ) → IsRing empty_lists h []
idle h = record { chain = (refl, refl); apart = refl; distinct = tt }

added :
    IsRing leaving.links (tc_suspend self 2) (other_node ∷ [])
    × SameOutside (other_node ∷ tc_suspend self 2 ∷ []) empty_lists leaving.links
added =
    list_add_tail_lem empty_lists (tc_suspend self 2) other_node [] (idle (tc_suspend self 2)) refl

still_idle : (h : ℕ) → h ∉ other_node ∷ tc_suspend self 2 ∷ [] → IsRing leaving.links h []
still_idle h out =
    IsRing-frame empty_lists leaving.links h [] (other_node ∷ tc_suspend self 2 ∷ []) added.1
      (λ c i. ground (arith, out, i)) (idle h)

zone_mine : (i : ℕ) → i < 30 → zone (tc_suspend self i) ≡ 2 * i
zone_mine i below = ground arith

zone_pools : (i : ℕ) → i < 29 → zone (pool_suspend env.pool_at i) ≡ 2 * i + 1
zone_pools i below = ground arith

leaving-Lists : Lists zone env self default_class_num leaving.links suspended (λ _. []) [] []
leaving-Lists = record {
  pairs = λ i below. elim (Bool-cases (i == 2)) [
    | inl e ↦
        subst
          (λ j.
            Pair zone leaving.links j (tc_suspend self j) (pool_suspend env.pool_at j) (suspended j)
              [])
          (sym ((==_iff i 2).0 e))
          (record {
            mine = added.0;
            pools = still_idle _ refl;
            mine_zone = (refl, (refl, tt));
            pools_zone = (refl, tt);
          })
    | inr ne ↦ rw ne (record {
      mine = still_idle (tc_suspend self i) (ground arith);
      pools = still_idle (pool_suspend env.pool_at i) (ground arith);
      mine_zone = (zone_mine i (omega (arith, below)), tt);
      pools_zone = (zone_pools i below, tt);
    })
  ];
  free_pair = record {
    mine = still_idle (tc_free_list self) refl;
    pools = still_idle (pool_free_list env.pool_at) refl;
    mine_zone = (refl, tt);
    pools_zone = (refl, tt);
  };
}

leaving-Loose : Loose zone env self default_class_num leaving suspended
leaving-Loose i below some = elim (Bool-cases (i == 1)) [
  | inl e ↦
      subst
        (λ j.
          (zone (node (leaving.using self j)) ≡ 2 * j)
          × (node (leaving.using self j) ∉ tc_suspend self j ∷ suspended j))
        (sym ((==_iff i 1).0 e)) (refl, refl)
  | inr ne ↦ absurd (some (rw ne refl))
]

enough : (i : ℕ) → i < default_class_num → length (suspended i) + 1 < 3
enough i below = ground arith

thread_exit-Exited_example :
    (t : State) × (thread_exit env 3 self leaving ≡ ok tt t)
    × Exited env self suspended (λ _. []) [] [] leaving t
thread_exit-Exited_example =
    thread_exit-Exited zone env self 3 leaving suspended (λ _. []) [] [] leaving-Lists leaving-Loose
      refl enough
