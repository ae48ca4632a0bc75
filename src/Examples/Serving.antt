-- ===== src/Examples/Serving.antt =====
-- A thread that has a span in use for each of two size classes.
use rmm.Base.{
  ℕ, ◌+◌, ◌*◌, ◌≡◌, refl, sym, subst, arith, Bool, true, ◌||◌, ◌==◌, ==_iff, Bool-cases, inl, inr,
  if◌then◌else◌, List, [], ◌∷◌, length,
}
use rmm.SizeClass.{size2cls, class_size}
use rmm.Alloc.{State, Span, ok, span_size}
use rmm.Alloc.Blocks.Layout.{blk}
use rmm.Alloc.Blocks.Invariant.{IsSpan}
use rmm.Alloc.Entry.Contract.{Standing}
use rmm.Alloc.Entry.Classes.{ClassCall, want, drop_blk, ClassSteps, class_client, InOrder, Classes}
use rmm.Alloc.Entry.Classes.Served.{class_client-Steps}
use rmm.Examples.Machine.{env, self, span_at, header, serving, two_live}

abbrev other_at : ℕ
other_at = span_at + 2 * span_size

-- A span of the class for 32 bytes, with all its blocks free.
abbrev other_header : Span
other_header = record header { cls = 2; blk_size = 32; free_blk = other_at + 72; free_cnt = 512 }

abbrev two_spans : State
two_spans = record serving {
  span = λ p. if p == other_at then other_header else header;
  using = λ _ cls. if cls == 1 then span_at else if cls == 2 then other_at else 0;
}

abbrev at : ℕ → ℕ
at cls = if cls == 1 then span_at else other_at

abbrev on : ℕ → Bool
on cls = (cls == 1) || (cls == 2)

abbrev held : ℕ → List ℕ
held cls = if cls == 1 then two_live else []

first-IsSpan : IsSpan two_spans span_at 2 [] two_live
unfolding class_size blk
first-IsSpan = record {
  known = omega arith;
  size = refl;
  ring = record { chain = (refl, refl); apart = refl; distinct = tt };
  blocks = (
    record { index = 1; below = omega arith; place = refl },
    (record { index = 0; below = omega arith; place = refl }, tt),
  );
  distinct = (refl, (refl, tt));
  bump = refl;
  room = omega arith;
  carved = refl;
  count = refl;
}

second-IsSpan : IsSpan two_spans other_at 0 [] []
unfolding class_size blk
second-IsSpan = record {
  known = omega arith;
  size = refl;
  ring = record { chain = (refl, refl); apart = refl; distinct = tt };
  blocks = tt;
  distinct = tt;
  bump = refl;
  room = omega arith;
  carved = refl;
  count = refl;
}

first-Standing : Standing two_spans self span_at 1
first-Standing = record {
  ready = refl;
  current = refl;
  not_null = ground arith;
  class = refl;
  owner = refl;
  state = refl;
  above = omega arith;
  below = omega arith;
  aligned = refl;
}

second-Standing : Standing two_spans self other_at 2
second-Standing = record {
  ready = refl;
  current = refl;
  not_null = ground arith;
  class = refl;
  owner = refl;
  state = refl;
  above = omega arith;
  below = omega arith;
  aligned = refl;
}

-- A property of both classes.
both : (P : ℕ → Type 0) → P 1 → P 2 → (cls : ℕ) → on cls ≡ true → P cls
both P one two cls is_on = elim (Bool-cases (cls == 1)) [
  | inl e ↦ subst P (sym ((==_iff cls 1).0 e)) one
  | inr ne ↦ let e : cls ≡ 2 = ground (arith, ne, is_on) in subst P (sym e) two
]

two_spans-Classes : Classes two_spans self at on held
two_spans-Classes = record {
  standing = both (λ cls. Standing two_spans self (at cls) cls) first-Standing second-Standing;
  spans =
      both (λ cls. InOrder two_spans (at cls) (held cls))
        (record { used = 2; frees = []; span = first-IsSpan })
        (record { used = 0; frees = []; span = second-IsSpan });
  apart = λ c d c_on d_on ne. ground (arith, c_on, d_on, ne);
}

-- The client asks for 30 bytes, gives back its second block of 24 and asks for 24.
abbrev mixed_calls : List ClassCall
mixed_calls = want 30 ∷ drop_blk 1 1 ∷ want 24 ∷ []

class_client-Steps_example :
    (last : ℕ → List ℕ) × (t : State) × (class_client env 10 self mixed_calls held two_spans
      ≡ ok last t)
    × ClassSteps on held mixed_calls last
    × Classes t self at on last
unfolding size2cls class_size
class_client-Steps_example =
    class_client-Steps env 10 self at on mixed_calls two_spans held (λ c. length (held c))
      two_spans-Classes (λ c is_on. refl)
      (
        omega arith,
        omega arith,
        refl,
        omega arith,
        (refl, omega arith, (omega arith, omega arith, refl, omega arith, tt)),
      )
