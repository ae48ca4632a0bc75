-- ===== src/ListHead/Chain.antt =====
-- What a circular list of src/list.h stands for: the addresses of its nodes, in order.
use rmm.Base.{ℕ, ◌≡◌, List, [], ◌∷◌, arith, ◌∉◌, ◌∈◌, Distinct}
use rmm.ListHead.{Links}

-- From `a` the pointers lead through `xs` to `b`, forwards and backwards.
abbrev pub Chain : Links → ℕ → List ℕ → ℕ → Type 0
Chain l a [] b = (l.next a ≡ b) × (l.prev b ≡ a)
Chain l a (x ∷ xs) b = (l.next a ≡ x) × (l.prev x ≡ a) × Chain l x xs b

-- `head` is a list head, and `xs` are the nodes on its list.
pub record IsRing (l : Links) (head : ℕ) (xs : List ℕ) : Type 0 where
  pub chain : Chain l head xs head
  pub apart : head ∉ xs
  pub distinct : Distinct xs

abbrev pub last : ℕ → List ℕ → ℕ
last a [] = a
last a (x ∷ xs) = last x xs

pub last_mem : (a x : ℕ) (xs : List ℕ) → last x xs ∈ x ∷ xs
last_mem a x [] = ground arith
last_mem a x (y ∷ xs) = ground (arith, last_mem x y xs)

pub prev-last : (l : Links) (a b : ℕ) (xs : List ℕ) → Chain l a xs b → l.prev b ≡ last a xs
prev-last l a b [] c = c.1
prev-last l a b (x ∷ xs) c = prev-last l x b xs c.2

-- A chain survives writes elsewhere.
pub Chain-frame :
    (l l' : Links) (a b : ℕ) (xs : List ℕ)
    → ((c : ℕ) → c ∈ a ∷ xs → l'.next c ≡ l.next c)
    → ((c : ℕ) → c ∈ b ∷ xs → l'.prev c ≡ l.prev c)
    → Chain l a xs b
    → Chain l' a xs b
Chain-frame l l' a b [] n p c = ground (arith, n a, p b)
Chain-frame l l' a b (x ∷ xs) n p c = (
  ground (arith, n a),
  ground (arith, p x),
  Chain-frame l l' x b xs (λ d i. n d (ground arith)) (λ d i. p d (ground arith)) c.2,
)

pub last_mem_cons : (a : ℕ) (xs : List ℕ) → last a xs ∈ a ∷ xs
last_mem_cons a [] = ground arith
last_mem_cons a (x ∷ xs) = ground (arith, last_mem a x xs)

-- `l'` differs from `l` at most at the addresses `cs`.
abbrev pub SameOutside : List ℕ → Links → Links → Type 0
SameOutside cs l l' = (c : ℕ) → c ∉ cs → (l'.next c ≡ l.next c) × (l'.prev c ≡ l.prev c)

abbrev pub Disjoint : List ℕ → List ℕ → Type 0
Disjoint xs ys = (c : ℕ) → c ∈ xs → c ∉ ys

-- A list survives writes to addresses that are none of its own.
pub IsRing-frame :
    (l l' : Links) (h : ℕ) (xs cs : List ℕ)
    → SameOutside cs l l'
    → Disjoint (h ∷ xs) cs
    → IsRing l h xs
    → IsRing l' h xs
IsRing-frame l l' h xs cs same apart r = record {
  chain =
      Chain-frame l l' h h xs (λ c i. (same c (apart c i)).0) (λ c i. (same c (apart c i)).1)
        r.chain;
  apart = r.apart;
  distinct = r.distinct;
}
