-- ===== src/Alloc/Entry/Kind.antt =====
-- What `wl_malloc` and `wl_free` of src/wlmalloc.c keep of a span that is in use.
use rmm.Base.{
  ltb, ℕ, ◌≡◌, ◌≢◌, refl, sym, ap, inl, inr, arith, List, [], ◌∷◌, ◌∉◌, ◌∙◌, false, ==_iff, All,
  update_self, Bool-cases,
}
use rmm.ListHead.{list_empty}
use rmm.Alloc.{Result, exited, blocked, fault, out_of_fuel, State, Span, ok, blk_list}
use rmm.Alloc.Blocks.{get_blk, give_back}
use rmm.Alloc.Blocks.Layout.{IsBlock, blk, blk-le}
use rmm.Alloc.Blocks.Invariant.{OnlySpan}
use rmm.Alloc.Blocks.Release.{emptied}
use rmm.Alloc.Entry.Contract.{Clear, Standing}

-- What neither call changes in the header of the span.
pub record SameKind (h g : Span) : Type 0 where
  pub class : g.cls ≡ h.cls
  pub owner : g.owner ≡ h.owner
  pub state : g.state ≡ h.state

pub Standing-kept :
    (s t : State) (self p cls : ℕ)
    → Standing s self p cls
    → SameKind (s.span p) (t.span p)
    → OnlySpan p s t
    → Standing t self p cls
Standing-kept s t self p cls st k only = record {
  ready = rw only.thread_state st.ready;
  current = rw only.using st.current;
  not_null = st.not_null;
  class = k.class ∙ st.class;
  owner = k.owner ∙ st.owner;
  state = k.state ∙ st.state;
  above = rw only.pool st.above;
  below = rw only.pool st.below;
  aligned = st.aligned;
}

abbrev pub state_or : {A : Type 0} → Result A → State → State
state_or (ok a t) s = t
state_or exited s = s
state_or blocked s = s
state_or fault s = s
state_or out_of_fuel s = s

pub get_blk-SameKind : (s : State) (p : ℕ) → SameKind (s.span p) ((state_or (get_blk p s) s).span p)
unfolding get_blk
get_blk-SameKind s p = elim (Bool-cases (list_empty (blk_list p) s.links)) [
  | inl e ↦ rw (e, update_self) (record { class = refl; owner = refl; state = refl })
  | inr ne ↦ rw (ne, update_self) (record { class = refl; owner = refl; state = refl })
]

pub give_back-SameKind :
    (s : State) (p a list : ℕ)
    → emptied (s.span p) ≡ false
    → SameKind (s.span p) ((state_or (give_back p a list s) s).span p)
unfolding give_back
give_back-SameKind s p a list stays =
    rw (stays, update_self) (record { class = refl; owner = refl; state = refl })

Clear-blocks :
    (p sz used a b : ℕ) → IsBlock p sz used a → IsBlock p sz used b → a ≢ b → Clear sz a b
Clear-blocks p sz used a b x y ne = elim (Bool-cases (ltb x.index y.index)) [
  | inl lt ↦ inl (omega (arith, blk-le p sz x.index y.index (ground arith), x.place, y.place))
  | inr ge ↦ elim (Bool-cases (ltb y.index x.index)) [
    | inl lt ↦ inr (omega (arith, blk-le p sz y.index x.index (ground arith), x.place, y.place))
    | inr ge' ↦
        let same : x.index ≡ y.index = ground arith in
        absurd (ne (x.place ∙ ap (blk p sz) same ∙ sym y.place))
  ]
]

pub Clear-All :
    (p sz used a : ℕ) (lives : List ℕ)
    → IsBlock p sz used a
    → All (IsBlock p sz used) lives
    → a ∉ lives
    → All (Clear sz a) lives
Clear-All p sz used a [] x bs out = tt
Clear-All p sz used a (b ∷ lives) x bs out =
    let ne : a ≢ b = λ e. cc ((==_iff a b).1 e, out) in
    (Clear-blocks p sz used a b x bs.0 ne, Clear-All p sz used a lives x bs.1 (ground arith))
