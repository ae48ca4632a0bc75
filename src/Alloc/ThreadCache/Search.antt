-- ===== src/Alloc/ThreadCache/Search.antt =====
-- The search of `replace_available_span` in src/wlmalloc.c for a suspended span with free blocks.
use rmm.Base.{
  ℕ, zero, suc, ◌<◌, ◌≡◌, arith, List, [], ◌∷◌, ◌++◌, ◌∉◌, ◌==◌, false, true, ltb, length, All,
}
use rmm.ListHead.{list_del}
use rmm.ListHead.Chain.{Chain, IsRing}
use rmm.ListHead.Remove.{list_del_lem}
use rmm.Alloc.{State, Span, ok, span_of_node}
use rmm.Alloc.ThreadCache.{unlink_available}

-- The span of this node has no free block.
abbrev pub IsFull : (ℕ → Span) → ℕ → Type 0
IsFull spans n = (spans (span_of_node n)).free_cnt ≡ 0

unlink_available_walk :
    (s : State) (fuel a head n : ℕ) (before after : List ℕ)
    → Chain s.links a (before ++ n ∷ after) head
    → head ∉ before ++ n ∷ after
    → All (IsFull s.span) before
    → 0 < (s.span (span_of_node n)).free_cnt
    → length before < fuel
    → unlink_available fuel (s.links.next a) head s
      ≡ ok tt (record s { links = list_del n s.links })
unfolding unlink_available
unlink_available_walk s zero a head n before after c out full pos h = absurd (omega arith)
unlink_available_walk s (suc fuel) a head n [] after c out full pos h =
    let other : (n == head) ≡ false = ground arith in
    let some_free : ltb 0 (s.span (span_of_node n)).free_cnt ≡ true = ground arith in
    rw (c.0, other, some_free)
unlink_available_walk s (suc fuel) a head n (x ∷ before) after c out full pos h =
    let other : (x == head) ≡ false = ground arith in
    let no_free : ltb 0 (s.span (span_of_node x)).free_cnt ≡ false = ground (arith, full.0) in
    rw (c.0, other, no_free)
      (unlink_available_walk s fuel x head n before after c.2 (ground arith) full.1 pos
        (omega arith))

-- The search unlinks the first suspended span that has a free block, and changes no header.
pub unlink_available_lem :
    (s : State) (fuel head n : ℕ) (before after : List ℕ)
    → IsRing s.links head (before ++ n ∷ after)
    → All (IsFull s.span) before
    → 0 < (s.span (span_of_node n)).free_cnt
    → length before < fuel
    → (unlink_available fuel (s.links.next head) head s
        ≡ ok tt (record s { links = list_del n s.links }))
      × IsRing (list_del n s.links) head (before ++ after)
unlink_available_lem s fuel head n before after r full pos h = (
  unlink_available_walk s fuel head head n before after r.chain r.apart full pos h,
  (list_del_lem s.links head n before after r).0,
)

unlink_available_none :
    (s : State) (fuel a head : ℕ) (xs : List ℕ)
    → Chain s.links a xs head
    → head ∉ xs
    → All (IsFull s.span) xs
    → length xs < fuel
    → unlink_available fuel (s.links.next a) head s ≡ ok tt s
unfolding unlink_available
unlink_available_none s zero a head xs c out full h = absurd (omega arith)
unlink_available_none s (suc fuel) a head [] c out full h =
    let same : (head == head) ≡ true = ground arith in rw (c.0, same)
unlink_available_none s (suc fuel) a head (x ∷ xs) c out full h =
    let other : (x == head) ≡ false = ground arith in
    let no_free : ltb 0 (s.span (span_of_node x)).free_cnt ≡ false = ground (arith, full.0) in
    rw (c.0, other, no_free)
      (unlink_available_none s fuel x head xs c.2 (ground arith) full.1 (omega arith))

-- When every suspended span is full, the search ends without a change.
pub unlink_available-full :
    (s : State) (fuel head : ℕ) (xs : List ℕ)
    → IsRing s.links head xs
    → All (IsFull s.span) xs
    → length xs < fuel
    → unlink_available fuel (s.links.next head) head s ≡ ok tt s
unlink_available-full s fuel head xs r full h =
    unlink_available_none s fuel head head xs r.chain r.apart full h
