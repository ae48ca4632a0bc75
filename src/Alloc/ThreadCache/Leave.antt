-- ===== src/Alloc/ThreadCache/Leave.antt =====
-- The steps of `thread_exit` of src/wlmalloc.c.
use mathlib.Core.List.{append-nil}
use rmm.Base.{
  ℕ, zero, suc, ◌*◌, ◌≤◌, ◌<◌, ◌≡◌, ◌≢◌, refl, sym, subst, ◌∙◌, arith, true, false, not, Bool-cases,
  inl, inr, ◌==◌, ==_iff, ltb, if◌then◌else◌, List, [], ◌∷◌, ◌++◌, ◌∉◌, length,
}
use rmm.ListHead.{Links, list_add_tail, list_splice_tail, list_empty}
use rmm.ListHead.Splice.{list_splice_tail-empty}
use rmm.Alloc.{
  on_links, pure, State, Env, ok, node, tc_suspend, tc_free_list, pool_suspend, pool_free_list,
}
use rmm.Alloc.ThreadCache.{suspend_using, give_suspended}
use rmm.Alloc.ThreadCache.Disown.{disowned, disown-disowned, given_spans}
use rmm.Alloc.ThreadCache.Zones.{
  Agree, Pair, Joined, Pair-frame, Joined-frame, Pair-add, Pair-splice,
}

-- The node of the span in use of a class, if there is one.
abbrev pub in_use_of : State → (self i : ℕ) → List ℕ
in_use_of s self i = if s.using self i == 0 then [] else node (s.using self i) ∷ []

module _ (zone : ℕ → ℕ) (env : Env) (self top : ℕ) where
  -- The lists that the thread leaves: the suspended spans of each class, and the free ones, which
  -- stand at the index `top`; and those of the pool.
  pub record Lists (l : Links) (suspended pools : ℕ → List ℕ) (free pool_free : List ℕ)
      : Type 0 where
    pub pairs :
        (i : ℕ)
        → i < top
        → Pair zone l i (tc_suspend self i) (pool_suspend env.pool_at i) (suspended i) (pools i)
    pub free_pair : Pair zone l top (tc_free_list self) (pool_free_list env.pool_at) free pool_free

  -- The i-th two lists.
  abbrev pub PairAt : Links → (ℕ → List ℕ) → (i : ℕ) → List ℕ → Type 0
  PairAt l pools i xs = Pair zone l i (tc_suspend self i) (pool_suspend env.pool_at i) xs (pools i)

  -- The suspended spans after the classes below n, with the spans in use.
  abbrev pub held : (s : State) → (ℕ → List ℕ) → (n i : ℕ) → List ℕ
  held s suspended n i = if ltb i n then suspended i ++ in_use_of s self i else suspended i

  -- A span in use is on no list.
  abbrev pub Loose : (s : State) → (ℕ → List ℕ) → Type 0
  Loose s suspended =
      (i : ℕ)
      → i < top
      → s.using self i ≢ 0
      → (zone (node (s.using self i)) ≡ 2 * i)
        × (node (s.using self i) ∉ tc_suspend self i ∷ suspended i)

  -- One list of the thread changed.
  Lists-change :
      {l l' : Links} {suspended pools : ℕ → List ℕ} {free pool_free : List ℕ} (n : ℕ)
      (suspended' : ℕ → List ℕ)
      → Lists l suspended pools free pool_free
      → n < top
      → Agree zone n l l'
      → PairAt l' pools n (suspended' n)
      → ((i : ℕ) → i ≢ n → suspended' i ≡ suspended i)
      → Lists l' suspended' pools free pool_free
  Lists-change {l} {l'} {suspended} {pools} {free} {pool_free} n suspended' lists below agree
        changed same =
      record {
        pairs = λ i i_below. elim (Bool-cases (i == n)) [
          | inl e ↦ subst (λ j. PairAt l' pools j (suspended' j)) (sym ((==_iff i n).0 e)) changed
          | inr differs ↦
              let ne : i ≢ n = ground arith in
              subst (λ xs. PairAt l' pools i xs) (sym (same i ne))
                (Pair-frame zone i (tc_suspend self i) (pool_suspend env.pool_at i) (suspended i)
                  (pools i) agree ne (lists.pairs i i_below))
        ];
        free_pair =
            Pair-frame zone top (tc_free_list self) (pool_free_list env.pool_at) free pool_free
              agree (omega (arith, below)) lists.free_pair;
      }

  held_other :
      (s : State) (suspended : ℕ → List ℕ) (n i : ℕ)
      → i ≢ n
      → held s suspended (suc n) i ≡ held s suspended n i
  held_other s suspended n i ne = ground arith

  held_before : (s : State) (suspended : ℕ → List ℕ) (n : ℕ) → held s suspended n n ≡ suspended n
  held_before s suspended n = ground arith

  held_after :
      (s : State) (suspended : ℕ → List ℕ) (n : ℕ)
      → held s suspended (suc n) n ≡ suspended n ++ in_use_of s self n
  held_after s suspended n = let inside : ltb n (suc n) ≡ true = ground arith in rw inside refl

  pub suspend_using-Lists :
      (s : State) (suspended pools : ℕ → List ℕ) (free pool_free : List ℕ)
      → Lists s.links suspended pools free pool_free
      → Loose s suspended
      → (n : ℕ) → n ≤ top
      → (l' : Links) × (suspend_using self n s ≡ ok tt (record s { links = l' }))
        × Lists l' (held s suspended n) pools free pool_free
  unfolding suspend_using
  suspend_using-Lists s suspended pools free pool_free lists loose zero below = (
    s.links,
    refl,
    record {
      pairs = λ i i_below.
          let none_yet : ltb i 0 ≡ false = ground arith in rw none_yet (lists.pairs i i_below);
      free_pair = lists.free_pair;
    },
  )
  suspend_using-Lists s suspended pools free pool_free lists loose (suc n) below =
      let (l1, run, lists1) =
        suspend_using-Lists s suspended pools free pool_free lists loose n (omega arith) in
      let here =
        subst (λ xs. PairAt l1 pools n xs) (held_before s suspended n)
          (lists1.pairs n (omega arith)) in
      elim (Bool-cases (s.using self n == 0)) [
        | inl none ↦ (
          l1,
          rw (run, none) refl,
          Lists-change n (held s suspended (suc n)) lists1 (omega arith) (λ c ne. (refl, refl))
              (subst (λ xs. PairAt l1 pools n xs)
                (sym (held_after s suspended n ∙ rw none (append-nil (suspended n)))) here)
              (held_other s suspended n),
        )
        | inr some ↦
            let x : ℕ = node (s.using self n) in
            let (zoned, apart) = loose n (omega arith) (ground arith) in
            let (added, agree) =
              Pair-add zone l1 n (tc_suspend self n) (pool_suspend env.pool_at n) x (suspended n)
                (pools n) here zoned apart in
            (
              list_add_tail x (tc_suspend self n) l1,
              rw (run, some) refl,
              Lists-change n (held s suspended (suc n)) lists1 (omega arith) agree
                  (subst (λ xs. PairAt (list_add_tail x (tc_suspend self n) l1) pools n xs)
                    (sym (held_after s suspended n ∙ rw some refl)) added)
                  (held_other s suspended n),
            )
      ]

  -- The suspended spans of the classes below n have gone to the pool.
  pub record Given (l : Links) (suspended pools : ℕ → List ℕ) (free pool_free : List ℕ) (n : ℕ)
      : Type 0 where
    pub joined :
        (i : ℕ) → i < n → Joined zone l i (pool_suspend env.pool_at i) (pools i ++ suspended i)
    pub left : (i : ℕ) → n ≤ i → i < top → PairAt l pools i (suspended i)
    pub free_pair : Pair zone l top (tc_free_list self) (pool_free_list env.pool_at) free pool_free

  Given-next :
      {l : Links} {suspended pools : ℕ → List ℕ} {free pool_free : List ℕ} (n : ℕ)
      → n < top
      → Given l suspended pools free pool_free n
      → Given
          (list_splice_tail (tc_suspend self n) (pool_suspend env.pool_at n) l)
          suspended
          pools
          free
          pool_free
          (suc n)
  Given-next {l} {suspended} {pools} {free} {pool_free} n below g =
      let l' : Links = list_splice_tail (tc_suspend self n) (pool_suspend env.pool_at n) l in
      let (joined, agree) =
        Pair-splice zone l n (tc_suspend self n) (pool_suspend env.pool_at n) (suspended n)
          (pools n) (g.left n (omega arith) below) in
      record {
        joined = λ i i_below. elim (Bool-cases (i == n)) [
          | inl e ↦
              subst (λ j. Joined zone l' j (pool_suspend env.pool_at j) (pools j ++ suspended j))
                (sym ((==_iff i n).0 e)) joined
          | inr differs ↦
              Joined-frame zone i (pool_suspend env.pool_at i) (pools i ++ suspended i) agree
                (ground arith) (g.joined i (ground arith))
        ];
        left = λ i low i_below.
            Pair-frame zone i (tc_suspend self i) (pool_suspend env.pool_at i) (suspended i)
              (pools i) agree (omega arith) (g.left i (omega arith) i_below);
        free_pair =
            Pair-frame zone top (tc_free_list self) (pool_free_list env.pool_at) free pool_free
              agree (omega arith) g.free_pair;
      }

  splice_if_any :
      (m h : ℕ) (s : State)
      → (if not (list_empty m s.links) then on_links (list_splice_tail m h) else pure tt) s
        ≡ ok tt (record s { links = list_splice_tail m h s.links })
  splice_if_any m h s = elim (Bool-cases (list_empty m s.links)) [
    | inl e ↦ rw (e, list_splice_tail-empty s.links m h e) refl
    | inr e ↦ rw e refl
  ]

  pub give_suspended-Given :
      (s : State) (fuel : ℕ) (suspended pools : ℕ → List ℕ) (free pool_free : List ℕ)
      → Lists s.links suspended pools free pool_free
      → ((i : ℕ) → i < top → length (suspended i) < fuel)
      → (n : ℕ) → n ≤ top
      → (l' : Links) × (give_suspended env fuel self n s
          ≡ ok tt (record s { links = l'; span = given_spans suspended n s.span }))
        × Given l' suspended pools free pool_free n
  unfolding give_suspended given_spans
  give_suspended-Given s fuel suspended pools free pool_free lists enough zero below = (
    s.links,
    refl,
    record {
      joined = λ i i_below. absurd (omega arith);
      left = λ i low i_below. lists.pairs i i_below;
      free_pair = lists.free_pair;
    },
  )
  give_suspended-Given s fuel suspended pools free pool_free lists enough (suc n) below =
      let (l1, run, g) =
        give_suspended-Given s fuel suspended pools free pool_free lists enough n (omega arith) in
      let s1 : State = record s { links = l1; span = given_spans suspended n s.span } in
      let ring = (g.left n (omega arith) (omega arith)).mine in
      let walk =
        disown-disowned s1 fuel (tc_suspend self n) (tc_suspend self n) (suspended n) ring.chain
          ring.apart (enough n (omega arith)) in
      let s2 : State = record s1 { span = disowned (suspended n) s1.span } in
      (
        list_splice_tail (tc_suspend self n) (pool_suspend env.pool_at n) l1,
        rw (run, walk) (splice_if_any (tc_suspend self n) (pool_suspend env.pool_at n) s2),
        Given-next n (omega arith) g,
      )
