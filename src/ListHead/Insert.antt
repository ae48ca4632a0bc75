-- ===== src/ListHead/Insert.antt =====
-- `list_add` and `list_add_tail` of src/list.h put one node at either end.
use rmm.Base.{ℕ, ◌≡◌, refl, List, [], ◌∷◌, ◌++◌, arith, ◌∉◌, Distinct, has-append, Distinct-snoc}
use rmm.ListHead.{Links, init_list_head, list_add, list_add_tail, list_add_between}
use rmm.ListHead.Chain.{
  Chain, IsRing, SameOutside, last, last_mem, last_mem_cons, prev-last, Chain-frame,
}

-- `INIT_LIST_HEAD` makes an empty list of `head`, and writes nowhere else.
pub init_list_head_lem :
    (l : Links) (head : ℕ)
    → IsRing (init_list_head head l) head [] × SameOutside (head ∷ []) l (init_list_head head l)
unfolding init_list_head
init_list_head_lem l head = (
  record { chain = (ground arith, ground arith); apart = refl; distinct = tt },
  λ c out. (ground arith, ground arith),
)

-- The chain of a list after `list_add`.
Chain-list_add :
    (l : Links) (h x : ℕ) (xs : List ℕ)
    → IsRing l h xs
    → x ∉ h ∷ xs
    → Chain (list_add x h l) h (x ∷ xs) h
unfolding list_add
Chain-list_add l h x [] r out = ground (arith, r.chain)
Chain-list_add l h x (y ∷ ys) r out = (
  ground (arith, r.chain),
  ground (arith, r.chain),
  (
    ground (arith, r.chain),
    ground (arith, r.chain),
    Chain-frame l (list_add x h l) y h ys (λ c i. ground (arith, r.chain, r.apart))
        (λ c i. ground (arith, r.chain, r.apart, r.distinct)) r.chain.2,
  ),
)

list_add-same :
    (l : Links) (h x : ℕ) (xs : List ℕ)
    → IsRing l h xs
    → SameOutside (x ∷ h ∷ xs) l (list_add x h l)
unfolding list_add
list_add-same l h x [] r c out = (ground (arith, r.chain), ground (arith, r.chain))
list_add-same l h x (y ∷ ys) r c out = (ground (arith, r.chain), ground (arith, r.chain))

-- `list_add` puts a new node first, and writes only to the new node, the head and the old nodes.
pub list_add_lem :
    (l : Links) (h x : ℕ) (xs : List ℕ)
    → IsRing l h xs
    → x ∉ h ∷ xs
    → IsRing (list_add x h l) h (x ∷ xs) × SameOutside (x ∷ h ∷ xs) l (list_add x h l)
list_add_lem l h x xs r out = (
  record {
    chain = Chain-list_add l h x xs r out;
    apart = ground (arith, r.apart);
    distinct = (ground arith, r.distinct);
  },
  list_add-same l h x xs r,
)

-- A node inserted between the last node of a chain and its end.
Chain-insert_last :
    (l : Links) (a b p x : ℕ) (xs : List ℕ)
    → Chain l a xs b
    → p ≡ last a xs
    → a ∉ xs
    → b ∉ xs
    → Distinct xs
    → x ∉ a ∷ b ∷ xs
    → Chain (list_add_between x p b l) a (xs ++ x ∷ []) b
unfolding list_add_between
Chain-insert_last l a b p x [] c e a_out b_out d out = ground arith
Chain-insert_last l a b p x (y ∷ ys) c e a_out b_out d out =
    let far = last_mem a y ys in
    (
      ground arith,
      ground arith,
      Chain-insert_last l y b p x ys c.2 e d.0 (ground arith) d.1 (ground arith),
    )

list_add_tail-same :
    (l : Links) (h x : ℕ) (xs : List ℕ)
    → IsRing l h xs
    → SameOutside (x ∷ h ∷ xs) l (list_add_tail x h l)
unfolding list_add_tail
list_add_tail-same l h x xs r c out =
    let p = prev-last l h h xs r.chain in
    let i = last_mem_cons h xs in (ground (arith, p, i), ground (arith, p, i))

-- `list_add_tail` puts a new node last, and writes only to the new node, the head and the old nodes.
pub list_add_tail_lem :
    (l : Links) (h x : ℕ) (xs : List ℕ)
    → IsRing l h xs
    → x ∉ h ∷ xs
    → IsRing (list_add_tail x h l) h (xs ++ x ∷ [])
      × SameOutside (x ∷ h ∷ xs) l (list_add_tail x h l)
unfolding list_add_tail
list_add_tail_lem l h x xs r out = (
  record {
    chain =
        Chain-insert_last l h h (l.prev h) x xs r.chain (prev-last l h h xs r.chain) r.apart r.apart
          r.distinct (ground arith);
    apart = rw has-append (ground (arith, r.apart));
    distinct = Distinct-snoc x xs (ground arith) r.distinct;
  },
  list_add_tail-same l h x xs r,
)
