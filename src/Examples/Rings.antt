-- ===== src/Examples/Rings.antt =====
-- The lists of src/list.h at concrete links.
use rmm.Base.{ℕ, refl, List, [], ◌∷◌}
use rmm.ListHead.{Links, list_add_tail}
use rmm.ListHead.Chain.{IsRing}
use rmm.Examples.Machine.{empty_lists}

-- 1 heads the list 11, 12; 2 heads the list 21.
abbrev two_lists : Links
two_lists = list_add_tail 21 2 (list_add_tail 12 1 (list_add_tail 11 1 empty_lists))

abbrev first_list : List ℕ
first_list = 11 ∷ 12 ∷ []

first_ring : IsRing two_lists 1 (11 ∷ 12 ∷ [])
unfolding list_add_tail
first_ring = record {
  chain = (refl, refl, (refl, refl, (refl, refl)));
  apart = refl;
  distinct = (refl, (refl, tt));
}

second_ring : IsRing two_lists 2 (21 ∷ [])
unfolding list_add_tail
second_ring = record { chain = (refl, refl, (refl, refl)); apart = refl; distinct = (refl, tt) }
