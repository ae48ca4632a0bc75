-- ===== src/Examples/Losing.antt =====
-- A thread with a suspended span and one that `replace_available_span` forgot.
use rmm.Base.{ℕ, ◌+◌, ◌*◌, ◌≡◌, refl}
use rmm.ListHead.{list_add_tail, list_del, list_add_between, list_del_between}
use rmm.SizeClass.{class_size}
use rmm.Alloc.{State, ok, suspend, node, span_size, tc_suspend}
use rmm.Alloc.Blocks.{blk_cnt, is_suspend}
use rmm.Alloc.ThreadCache.Stale.{Forgotten, free_suspend_take, next_span-suspended}
use rmm.Examples.Machine.{env, self, span_at, header, serving, empty_lists}

-- Two more spans behind the first.
abbrev lost_at : ℕ
lost_at = span_at + span_size

abbrev full_at : ℕ
full_at = span_at + 2 * span_size

-- Both spans were suspended, and the second one is unlinked. Of either one block is live.
abbrev losing : State
losing = record serving {
  links = list_del (node lost_at) (
      list_add_tail (node lost_at) (tc_suspend self 1)
        (list_add_tail (node span_at) (tc_suspend self 1) empty_lists));
  span = λ _. record header { state = suspend; free_cnt = 681 };
}

losing-Forgotten : Forgotten losing self 1 span_at lost_at
unfolding list_add_tail list_add_between list_del list_del_between is_suspend
losing-Forgotten = record {
  suspended = record { chain = (refl, refl, (refl, refl)); apart = refl; distinct = (refl, tt) };
  own = record { chain = (refl, refl); apart = refl; distinct = tt };
  back = refl;
  ahead = refl;
  full_a = refl;
  full_x = refl;
}

next_span-suspended_example :
    (t : State) × (free_suspend_take env self 1 span_at lost_at full_at
        (span_at + 72)
        (lost_at + 72)
        2
        3
        losing
      ≡ ok (span_at, full_at) t)
    × ((t.span full_at).free_cnt ≡ blk_cnt (class_size 3))
next_span-suspended_example =
    next_span-suspended env losing self 1 span_at lost_at full_at (span_at + 72) (lost_at + 72) 2 3
      losing-Forgotten (refl, (refl, (refl, (refl, (refl, (refl, (refl, (refl, (refl, tt)))))))))
