-- ===== src/Alloc/ThreadCache/Disown.antt =====
-- The owners of spans that `thread_exit` of src/wlmalloc.c gives to the pool.
use rmm.Base.{
  ℕ, zero, suc, ◌<◌, ◌≡◌, ◌≢◌, refl, sym, subst, ◌∙◌, arith, true, false, Bool-cases, inl, inr,
  ◌==◌, ==_iff, List, [], ◌∷◌, ◌∉◌, All, All-mono, length, update,
}
use rmm.ListHead.Chain.{Chain}
use rmm.Alloc.{State, Span, ok, span_of_node, pool_owner}
use rmm.Alloc.ThreadCache.{disown}

-- The owner of the spans of these nodes.
pub disowned : List ℕ → (ℕ → Span) → ℕ → Span
disowned [] spans = spans
disowned (c ∷ xs) spans =
    disowned xs
      (update spans (span_of_node c) (record (spans (span_of_node c)) { owner = pool_owner }))

pub disown-disowned :
    (s : State) (fuel a head : ℕ) (xs : List ℕ)
    → Chain s.links a xs head
    → head ∉ xs
    → length xs < fuel
    → disown fuel (s.links.next a) head s ≡ ok tt (record s { span = disowned xs s.span })
unfolding disown disowned
disown-disowned s zero a head xs c out enough = absurd (omega arith)
disown-disowned s (suc fuel) a head [] c out enough =
    let same : (head == head) ≡ true = ground arith in rw (c.0, same)
disown-disowned s (suc fuel) a head (x ∷ xs) c out enough =
    let other : (x == head) ≡ false = ground arith in
    let s' : State = record s {
      span =
          update s.span (span_of_node x) (record (s.span (span_of_node x)) { owner = pool_owner });
    } in
    rw (c.0, other) (disown-disowned s' fuel x head xs c.2 (ground arith) (omega arith))

disowned-owner :
    (xs : List ℕ) (spans : ℕ → Span) (p : ℕ)
    → (spans p).owner ≡ pool_owner
    → (disowned xs spans p).owner ≡ pool_owner
unfolding disowned
disowned-owner [] spans p owned = owned
disowned-owner (c ∷ xs) spans p owned =
    disowned-owner xs _ p
      (elim (Bool-cases (p == span_of_node c)) [ inl e ↦ rw e refl | inr e ↦ rw e owned ])

disowned-members :
    (xs : List ℕ) (spans : ℕ → Span)
    → All (λ c. (disowned xs spans (span_of_node c)).owner ≡ pool_owner) xs
unfolding disowned
disowned-members [] spans = tt
disowned-members (c ∷ xs) spans =
    let same : (span_of_node c == span_of_node c) ≡ true = ground arith in
    (disowned-owner xs _ (span_of_node c) (rw same refl), disowned-members xs _)

disowned-other :
    (xs : List ℕ) (spans : ℕ → Span) (p : ℕ)
    → All (λ c. p ≢ span_of_node c) xs
    → disowned xs spans p ≡ spans p
unfolding disowned
disowned-other [] spans p apart = refl
disowned-other (c ∷ xs) spans p apart =
    let other : (p == span_of_node c) ≡ false = ground (arith, apart.0) in
    disowned-other xs _ p apart.1 ∙ rw other refl

-- The headers after the suspended spans of the classes below n have a new owner.
unfoldable pub given_spans : (suspended : ℕ → List ℕ) → (n : ℕ) → (ℕ → Span) → ℕ → Span
given_spans suspended zero spans = spans
given_spans suspended (suc n) spans = disowned (suspended n) (given_spans suspended n spans)

pub given_spans-owned :
    (xs : ℕ → List ℕ) (spans : ℕ → Span) (n i : ℕ)
    → i < n
    → All (λ c. (given_spans xs n spans (span_of_node c)).owner ≡ pool_owner) (xs i)
unfolding given_spans
given_spans-owned xs spans zero i below = absurd (omega arith)
given_spans-owned xs spans (suc n) i below = elim (Bool-cases (i == n)) [
  | inl e ↦
      subst
        (λ j. All (λ c. (given_spans xs (suc n) spans (span_of_node c)).owner ≡ pool_owner) (xs j))
        (sym ((==_iff i n).0 e)) (disowned-members (xs n) (given_spans xs n spans))
  | inr ne ↦
      All-mono (xs i)
        (λ c owned. disowned-owner (xs n) (given_spans xs n spans) (span_of_node c) owned)
        (given_spans-owned xs spans n i (ground arith))
]

pub given_spans-other :
    (xs : ℕ → List ℕ) (spans : ℕ → Span) (n p : ℕ)
    → ((i : ℕ) → i < n → All (λ c. p ≢ span_of_node c) (xs i))
    → given_spans xs n spans p ≡ spans p
unfolding given_spans
given_spans-other xs spans zero p apart = refl
given_spans-other xs spans (suc n) p apart =
    disowned-other (xs n) (given_spans xs n spans) p (apart n (omega arith))
    ∙ given_spans-other xs spans n p (λ i below. apart i (omega arith))
