-- ===== src/Examples/Blocks.antt =====
-- The blocks of one span, in concrete states.
use rmm.Base.{◌+◌, ◌^◌, ◌-◌, ◌≡◌, refl, arith, [], ◌∷◌}
use rmm.ListHead.{list_add_tail}
use rmm.ListHead.Chain.{IsRing}
use rmm.SizeClass.{class_size}
use rmm.Alloc.{State, ok, suspend, free, blk_list, node, tc_suspend, tc_free_list}
use rmm.Alloc.Blocks.{get_blk, give_back, is_suspend, blk_cnt}
use rmm.Alloc.Blocks.Layout.{blk}
use rmm.Alloc.Blocks.Invariant.{IsSpan, OnlySpan}
use rmm.Alloc.Blocks.Retire.{Movable, give_back-moves}
use rmm.Alloc.Blocks.Overrun.{get_blk-full}
use rmm.Examples.Machine.{self, span_at, first_blk, header, serving, empty_lists}

-- The span is suspended, alone on the thread's list, and one of its 682 blocks is live.
abbrev last_live : State
last_live = record serving {
  links = list_add_tail (node span_at) (tc_suspend self 1) empty_lists;
  span = λ _. record header { state = suspend; free_cnt = 681 };
}

last_live-Movable :
    Movable last_live span_at (tc_suspend self 1) (tc_free_list self) first_blk [] [] []
unfolding list_add_tail
last_live-Movable = record {
  suspended = record { chain = (refl, refl, (refl, refl)); apart = refl; distinct = (refl, tt) };
  target = record { chain = (refl, refl); apart = refl; distinct = tt };
  apart = λ c m. ground arith;
  block = refl;
  head_off_suspended = refl;
  head_off_target = refl;
  block_off_suspended = refl;
  block_off_target = refl;
}

give_back-moves_example :
    (t : State) × (give_back span_at first_blk (tc_free_list self) last_live ≡ ok tt t)
    × IsRing t.links (tc_suspend self 1) []
    × IsRing t.links (tc_free_list self) (node span_at ∷ [])
    × IsRing t.links (blk_list span_at) (first_blk ∷ [])
    × ((t.span span_at).state ≡ free)
    × ((t.span span_at).free_cnt ≡ blk_cnt (t.span span_at).blk_size)
    × OnlySpan span_at last_live t
unfolding is_suspend
give_back-moves_example =
    give_back-moves last_live span_at (tc_suspend self 1) first_blk (tc_free_list self) [] [] []
      refl last_live-Movable

-- A span of the largest class has one block, and that is live.
abbrev full : State
full = record serving {
  span = λ _. record {
    owner = self;
    state = suspend;
    cls = 28;
    blk_size = 16384;
    free_blk = span_at + 72 + 16384;
    free_cnt = 0;
  };
}

full-IsSpan : IsSpan full span_at 1 [] (first_blk ∷ [])
unfolding class_size blk
full-IsSpan = record {
  known = omega arith;
  size = refl;
  ring = record { chain = (refl, refl); apart = refl; distinct = tt };
  blocks = (record { index = 0; below = omega arith; place = refl }, tt);
  distinct = (refl, tt);
  bump = refl;
  room = omega arith;
  carved = refl;
  count = refl;
}

get_blk-full_example :
    (t : State) × (get_blk span_at full
      ≡ ok (blk span_at (class_size 28) (blk_cnt (class_size 28))) t)
    × ((t.span span_at).free_cnt ≡ 2 ^ 32 - 1)
unfolding class_size
get_blk-full_example = get_blk-full full span_at (first_blk ∷ []) full-IsSpan
