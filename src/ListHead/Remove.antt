-- ===== src/ListHead/Remove.antt =====
-- `list_del` and `list_empty` of src/list.h.
use rmm.Base.{
  ℕ, ◌≡◌, ◌≢◌, refl, subst, ◌↔◌, true, List, [], ◌∷◌, ◌++◌, arith, ◌∉◌, ◌∈◌, Distinct, has-append,
}
use rmm.ListHead.{Links, list_del, list_del_between, list_empty}
use rmm.ListHead.Chain.{Chain, IsRing, SameOutside, last, last_mem, last_mem_cons, Chain-frame}

-- `list_empty` answers whether a list has no nodes.
pub list_empty_iff :
    (l : Links) (h : ℕ) (xs : List ℕ) → IsRing l h xs → (list_empty h l ≡ true) ↔ (xs ≡ [])
unfolding list_empty
list_empty_iff l h [] r = (λ _. refl, λ _. ground (arith, r.chain))
list_empty_iff l h (x ∷ xs) r = (λ e. ground (arith, r.chain, r.apart), λ e. cc)

abbrev pub first : List ℕ → ℕ → ℕ
first [] b = b
first (x ∷ xs) b = x

first_mem : (xs : List ℕ) (b : ℕ) → first xs b ∈ b ∷ xs
first_mem [] b = ground arith
first_mem (x ∷ xs) b = ground arith

next-first : (l : Links) (a b : ℕ) (xs : List ℕ) → Chain l a xs b → l.next a ≡ first xs b
next-first l a b [] c = c.0
next-first l a b (x ∷ xs) c = c.0

-- The two pointers of a node in the middle of a chain.
Chain-middle :
    (l : Links) (a b x : ℕ) (xs ys : List ℕ)
    → Chain l a (xs ++ x ∷ ys) b
    → (l.prev x ≡ last a xs) × (l.next x ≡ first ys b)
Chain-middle l a b x [] ys c = (c.1, next-first l x b ys c.2)
Chain-middle l a b x (y ∷ xs) ys c = Chain-middle l y b x xs ys c.2

Chain-unlink :
    (l : Links) (a b p x : ℕ) (xs ys : List ℕ)
    → Chain l a (xs ++ x ∷ ys) b
    → p ≡ last a xs
    → a ∉ xs ++ x ∷ ys
    → b ∉ xs ++ x ∷ ys
    → Distinct (xs ++ x ∷ ys)
    → Chain (list_del_between p (first ys b) l) a (xs ++ ys) b
unfolding list_del_between
Chain-unlink l a b p x [] [] c e a_out b_out d = ground arith
Chain-unlink l a b p x [] (y ∷ ys) c e a_out b_out d = (
  ground arith,
  ground arith,
  Chain-frame l (list_del_between p y l) y b ys (λ f i. ground arith) (λ f i. ground arith) c.2.2,
)
Chain-unlink l a b p x (z ∷ zs) ys c e a_out b_out d =
    let p_mem = last_mem a z zs in
    let n_mem = first_mem ys b in
    let a_apart = has-append a zs (x ∷ ys) in
    let z_apart = has-append z zs (x ∷ ys) in
    (ground arith, ground arith, Chain-unlink l z b p x zs ys c.2 e d.0 (ground arith) d.1)

Distinct-unlink : (x : ℕ) (xs ys : List ℕ) → Distinct (xs ++ x ∷ ys) → Distinct (xs ++ ys)
Distinct-unlink x [] ys d = d.1
Distinct-unlink x (z ∷ zs) ys d =
    (ground (arith, has-append z zs (x ∷ ys), has-append z zs ys), Distinct-unlink x zs ys d.1)

-- `list_del` takes exactly the given node out of its list, wherever it stands, keeps the order of
-- the others, and writes only to the head and the nodes of that list.
pub list_del_lem :
    (l : Links) (h x : ℕ) (xs ys : List ℕ)
    → IsRing l h (xs ++ x ∷ ys)
    → IsRing (list_del x l) h (xs ++ ys) × SameOutside (h ∷ xs ++ x ∷ ys) l (list_del x l)
unfolding list_del
list_del_lem l h x xs ys r =
    let (p, n) = Chain-middle l h h x xs ys r.chain in
    (
      record {
        chain = rw n (Chain-unlink l h h (l.prev x) x xs ys r.chain p r.apart r.apart r.distinct);
        apart = ground (arith, r.apart, has-append h xs (x ∷ ys), has-append h xs ys);
        distinct = Distinct-unlink x xs ys r.distinct;
      },
      λ c out.
          let p_mem = last_mem_cons h xs in
          let n_mem = first_mem ys h in
          let apart = has-append c xs (x ∷ ys) in (ground arith, ground arith),
    )

middle_off : (x : ℕ) (xs ys : List ℕ) → Distinct (xs ++ x ∷ ys) → (x ∉ xs) × (x ∉ ys)
middle_off x [] ys d = (refl, d.0)
middle_off x (z ∷ zs) ys d =
    let (left, right) = middle_off x zs ys d.1 in
    let apart = has-append z zs (x ∷ ys) in (ground (arith, d.0, left, apart), right)

not_there : (x y : ℕ) (xs : List ℕ) → y ≡ x → y ∈ xs → x ∉ xs → ⊥
not_there x y xs e inside outside = absurd (cc (subst (λ z. z ∈ xs) e inside, outside))

-- The node that `list_del` takes out keeps its pointers into the list.
pub list_del-keeps :
    (l : Links) (h x : ℕ) (xs ys : List ℕ)
    → IsRing l h (xs ++ x ∷ ys)
    → ((list_del x l).prev x ≡ l.prev x) × ((list_del x l).next x ≡ l.next x)
unfolding list_del list_del_between
list_del-keeps l h x xs ys r =
    let (back, ahead) = Chain-middle l h h x xs ys r.chain in
    let (left, right) = middle_off x xs ys r.distinct in
    let head_off = has-append h xs (x ∷ ys) in
    let p_mem = last_mem_cons h xs in
    let n_mem = first_mem ys h in
    let apart = r.apart in
    let p_off : last h xs ≢ x = λ e.
      absurd (not_there x (last h xs) (h ∷ xs) e p_mem (ground (arith, left, head_off, apart))) in
    let n_off : first ys h ≢ x = λ e.
      absurd (not_there x (first ys h) (h ∷ ys) e n_mem (ground (arith, right, head_off, apart))) in
    (ground (arith, back, ahead, p_off, n_off), ground (arith, back, ahead, p_off, n_off))
