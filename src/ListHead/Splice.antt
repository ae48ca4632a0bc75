-- ===== src/ListHead/Splice.antt =====
-- `list_splice_tail` of src/list.h joins two lists, each used as a queue.
use mathlib.Core.List.{append-nil}
use rmm.Base.{
  Bool-cases, inl, inr, ℕ, ◌≡◌, refl, ◌≢◌, true, false, List, [], ◌∷◌, ◌++◌, arith, ◌∉◌, ◌∈◌, has,
  Distinct, has-append,
}
use rmm.ListHead.{Links, list_splice_tail, list_splice_between, list_empty}
use rmm.ListHead.Chain.{Chain, IsRing, Disjoint, last, last_mem, last_mem_cons, prev-last}
use rmm.ListHead.Remove.{list_empty_iff}

module _ (l l' : Links) where
  -- The front part of the joined list: only the `next` of its last node changes.
  Chain-front :
      (a b p x : ℕ) (ys xs : List ℕ)
      → Chain l a ys b
      → p ≡ last a ys
      → Distinct (a ∷ ys)
      → ((c : ℕ) → c ∈ a ∷ ys → c ≢ p → l'.next c ≡ l.next c)
      → ((c : ℕ) → c ∈ ys → l'.prev c ≡ l.prev c)
      → l'.next p ≡ x
      → l'.prev x ≡ p
      → Chain l' x xs b
      → Chain l' a (ys ++ x ∷ xs) b
  Chain-front a b p x [] xs c e d same_next same_prev en ep rest =
      (ground arith, ground arith, rest)
  Chain-front a b p x (y ∷ ys) xs c e d same_next same_prev en ep rest =
      let p_mem = last_mem a y ys in
      (
        ground (arith, same_next a),
        ground (arith, same_prev y),
        Chain-front y b p x ys xs c.2 e d.1 (λ f i ne. same_next f (ground arith) ne)
            (λ f i. same_prev f (ground arith)) en ep rest,
      )

  -- The back part: its last node leads to the new end.
  Chain-redirect :
      (x m b q : ℕ) (xs : List ℕ)
      → Chain l x xs m
      → q ≡ last x xs
      → Distinct (x ∷ xs)
      → ((c : ℕ) → c ∈ x ∷ xs → c ≢ q → l'.next c ≡ l.next c)
      → ((c : ℕ) → c ∈ xs → l'.prev c ≡ l.prev c)
      → l'.next q ≡ b
      → l'.prev b ≡ q
      → Chain l' x xs b
  Chain-redirect x m b q [] c e d same_next same_prev en ep = (ground arith, ground arith)
  Chain-redirect x m b q (y ∷ ys) c e d same_next same_prev en ep =
      let q_mem = last_mem x y ys in
      (
        ground (arith, same_next x),
        ground (arith, same_prev y),
        Chain-redirect y m b q ys c.2 e d.1 (λ f i ne. same_next f (ground arith) ne)
            (λ f i. same_prev f (ground arith)) en ep,
      )

Distinct-append :
    (xs ys : List ℕ) → Distinct xs → Distinct ys → Disjoint xs ys → Distinct (xs ++ ys)
Distinct-append [] ys dx dy apart = dy
Distinct-append (x ∷ xs) ys dx dy apart = (
  ground (arith, has-append x xs ys, apart x),
  Distinct-append xs ys dx.1 dy (λ c i. apart c (ground arith)),
)

-- The chain after the four writes of a splice at the tail.
Chain-splice :
    (l : Links) (m h x : ℕ) (xs ys : List ℕ)
    → IsRing l m (x ∷ xs)
    → IsRing l h ys
    → Disjoint (m ∷ x ∷ xs) (h ∷ ys)
    → Chain (list_splice_between m (l.prev h) h l) h (ys ++ x ∷ xs) h
unfolding list_splice_between
Chain-splice l m h x xs ys r s apart =
    let l' = list_splice_between m (l.prev h) h l in
    let p = prev-last l h h ys s.chain in
    let q = prev-last l m m (x ∷ xs) r.chain in
    let p_mem = last_mem_cons h ys in
    let q_mem = last_mem_cons x xs in
    let q_apart = apart (l.prev m) (ground arith) in
    let x_apart = apart x (ground arith) in
    Chain-front l l' h h (l.prev h) x ys xs s.chain p (s.apart, s.distinct)
      (λ c i ne. ground (arith, r.chain, apart c))
      (λ c i. ground (arith, r.chain, apart c, s.apart)) (ground (arith, r.chain))
      (ground (arith, r.chain))
      (Chain-redirect l l' x m h (l.prev m) xs r.chain.2 q r.distinct
        (λ c i ne. ground (arith, r.chain, apart c))
        (λ c i. ground (arith, r.chain, apart c, r.distinct)) (ground (arith, r.chain))
        (ground (arith, r.chain)))

pub not-empty : (l : Links) (m x : ℕ) (xs : List ℕ) → IsRing l m (x ∷ xs) → list_empty m l ≡ false
unfolding list_empty
not-empty l m x xs r = ground (arith, r.chain, r.apart)

-- Two disjoint lists, read the other way round.
mem_flip : (m c : ℕ) (xs ys : List ℕ) → Disjoint (m ∷ xs) ys → c ∈ ys → c ∉ m ∷ xs
mem_flip m c xs ys apart i = elim (Bool-cases (has c (m ∷ xs))) [
  | inl yes_mem ↦ cc (apart c yes_mem)
  | inr no_mem ↦ no_mem
]

-- `list_splice_tail` appends the nodes of `list` to those of `head`, in order.
pub list_splice_tail_lem :
    (l : Links) (m h : ℕ) (xs ys : List ℕ)
    → IsRing l m xs
    → IsRing l h ys
    → Disjoint (m ∷ xs) (h ∷ ys)
    → IsRing (list_splice_tail m h l) h (ys ++ xs)
unfolding list_splice_tail
list_splice_tail_lem l m h [] ys r s apart = rw ((list_empty_iff l m [] r).1 refl, append-nil) s
list_splice_tail_lem l m h (x ∷ xs) ys r s apart = rw (not-empty l m x xs r) (record {
  chain = Chain-splice l m h x xs ys r s apart;
  apart = ground (arith, has-append h ys (x ∷ xs), s.apart, mem_flip m h (x ∷ xs) (h ∷ ys) apart);
  distinct =
      Distinct-append ys (x ∷ xs) s.distinct r.distinct
        (λ c i. ground (arith, mem_flip m c (x ∷ xs) (h ∷ ys) apart));
})

pub not-empty_middle :
    (l : Links) (m n : ℕ) (before after : List ℕ)
    → IsRing l m (before ++ n ∷ after)
    → list_empty m l ≡ false
not-empty_middle l m n [] after r = not-empty l m n after r
not-empty_middle l m n (x ∷ before) after r = not-empty l m x (before ++ n ∷ after) r

-- A splice writes only to the nodes and heads of the two lists.
pub list_splice_tail-same :
    (l : Links) (m h : ℕ) (xs ys : List ℕ)
    → IsRing l m xs
    → IsRing l h ys
    → (c : ℕ) → c ∉ m ∷ xs
    → c ∉ h ∷ ys
    → ((list_splice_tail m h l).next c ≡ l.next c) × ((list_splice_tail m h l).prev c ≡ l.prev c)
unfolding list_splice_tail list_splice_between
list_splice_tail-same l m h [] ys r s c out out' =
    rw ((list_empty_iff l m [] r).1 refl) (refl, refl)
list_splice_tail-same l m h (x ∷ xs) ys r s c out out' =
    let p = prev-last l h h ys s.chain in
    let q = prev-last l m m (x ∷ xs) r.chain in
    let p_mem = last_mem_cons h ys in
    let q_mem = last_mem_cons x xs in
    rw (not-empty l m x xs r) (ground (arith, r.chain), ground (arith, r.chain))

pub list_splice_tail-empty :
    (l : Links) (m h : ℕ) → list_empty m l ≡ true → list_splice_tail m h l ≡ l
unfolding list_splice_tail
list_splice_tail-empty l m h e = rw e refl
