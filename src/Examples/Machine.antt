-- ===== src/Examples/Machine.antt =====
-- A concrete machine on which the allocator runs.
use rmm.Base.{ℕ, ◌+◌, ◌*◌, refl, arith, true, false, if◌then◌else◌, ◌==◌, List, [], ◌∷◌}
use rmm.ListHead.{Links}
use rmm.SizeClass.{class_size}
use rmm.Alloc.{State, Span, Env, in_use, alloc_unit, span_size}
use rmm.Alloc.Blocks.Layout.{blk}
use rmm.Alloc.Blocks.Invariant.{IsSpan}

-- `pool` stands at 1000, and each mapping follows the one before.
abbrev pub env : Env
env = record {
  pool_at = 1000;
  mmap = λ n sz. 0x1000_0000 + n * alloc_unit;
  munmap = λ n p sz. 0;
  mutex_init_fails = λ _. false;
}

-- The thread cache of the running thread, and the address of a span.
abbrev pub self : ℕ
self = 5000

abbrev pub span_at : ℕ
span_at = 16384 * span_size

-- Every address is the head of an empty list.
abbrev pub empty_lists : Links
empty_lists = record { prev = λ x. x; next = λ x. x }

-- A span of the class for 24 bytes. Its first two blocks have been handed out and are live.
abbrev pub header : Span
header = record {
  owner = self;
  state = in_use;
  cls = 1;
  blk_size = 24;
  free_blk = span_at + 120;
  free_cnt = 680;
}

abbrev pub first_blk : ℕ
first_blk = span_at + 72

abbrev pub second_blk : ℕ
second_blk = span_at + 96

-- The thread uses that span for its class. A pool of four spans begins with it.
abbrev pub serving : State
serving = record {
  links = empty_lists;
  span = λ _. header;
  using = λ _ cls. if cls == 1 then span_at else 0;
  pool = record {
    start = span_at;
    end = span_at + 4 * span_size;
    free_start = span_at + span_size;
  };
  locked = λ _. false;
  init_once = true;
  thread_state = λ _. true;
  bytes = λ a. 7;
  calls = 0;
}

abbrev pub two_live : List ℕ
two_live = second_blk ∷ first_blk ∷ []

pub serving-IsSpan : IsSpan serving span_at 2 [] two_live
unfolding class_size blk
serving-IsSpan = record {
  known = omega arith;
  size = refl;
  ring = record { chain = (refl, refl); apart = refl; distinct = tt };
  blocks = (
    record { index = 1; below = omega arith; place = refl },
    (record { index = 0; below = omega arith; place = refl }, tt),
  );
  distinct = (refl, (refl, tt));
  bump = refl;
  room = omega arith;
  carved = refl;
  count = refl;
}
