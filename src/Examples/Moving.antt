-- ===== src/Examples/Moving.antt =====
-- A block that grows from one span into another.
use rmm.Base.{ℕ, ◌+◌, ◌≡◌, refl, arith, inl, if◌then◌else◌, ◌==◌, [], ◌∷◌}
use rmm.SizeClass.{class_size, size2cls}
use rmm.Alloc.{State, Span, ok, in_use, span_size}
use rmm.Alloc.Blocks.{is_suspend}
use rmm.Alloc.Blocks.Layout.{blk}
use rmm.Alloc.Blocks.Invariant.{IsSpan}
use rmm.Alloc.Entry.{realloc}
use rmm.Alloc.Entry.RoundTrip.{Serves, Owned}
use rmm.Alloc.Entry.Move.{Moved, realloc-Moved}
use rmm.Examples.Machine.{env, self, span_at, first_blk, second_blk, header, serving, two_live}

-- The next span, of the class for 40 bytes, with no block handed out.
abbrev next_at : ℕ
next_at = span_at + span_size

abbrev next_header : Span
next_header = record {
  owner = self;
  state = in_use;
  cls = 3;
  blk_size = 40;
  free_blk = next_at + 72;
  free_cnt = 409;
}

abbrev growing : State
growing = record serving {
  span = λ p. if p == next_at then next_header else header;
  using = λ _ cls. if cls == 1 then span_at else if cls == 3 then next_at else 0;
}

growing-Owned : Owned growing self span_at second_blk
growing-Owned = record { owner = refl; above = omega arith; below = omega arith; aligned = refl }

growing-Serves : Serves growing self next_at 40
unfolding size2cls
growing-Serves = record {
  ready = refl;
  some_size = omega arith;
  small = omega arith;
  current = refl;
  not_null = ground arith;
  class = refl;
  aligned = refl;
}

growing-IsSpan : IsSpan growing span_at 2 [] two_live
unfolding class_size blk
growing-IsSpan = record {
  known = omega arith;
  size = refl;
  ring = record { chain = (refl, refl); apart = refl; distinct = tt };
  blocks = (
    record { index = 1; below = omega arith; place = refl },
    (record { index = 0; below = omega arith; place = refl }, tt),
  );
  distinct = (refl, (refl, tt));
  bump = refl;
  room = omega arith;
  carved = refl;
  count = refl;
}

next-IsSpan : IsSpan growing next_at 0 [] []
unfolding class_size blk
next-IsSpan = record {
  known = omega arith;
  size = refl;
  ring = record { chain = (refl, refl); apart = refl; distinct = tt };
  blocks = tt;
  distinct = tt;
  bump = refl;
  room = omega arith;
  carved = refl;
  count = refl;
}

realloc-Moved_example :
    (b : ℕ) × (u : State) × (realloc env 10 self second_blk 40 growing ≡ ok b u)
    × Moved growing span_at next_at second_blk 2 [] (first_blk ∷ []) [] b u
unfolding is_suspend
realloc-Moved_example =
    realloc-Moved env 10 self span_at next_at second_blk 40 2 0 [] [] (first_blk ∷ []) [] [] growing
      growing-Owned growing-IsSpan refl growing-Serves next-IsSpan (omega arith) (inl (omega arith))
      (omega arith)
