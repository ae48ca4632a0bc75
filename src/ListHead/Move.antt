-- ===== src/ListHead/Move.antt =====
-- A node that moves from one list to another: `list_del`, then `list_add_tail`.
use rmm.Base.{
  ℕ, refl, Distinct-middle, List, [], ◌∷◌, ◌++◌, arith, ◌∉◌, ◌∈◌, has, has-append, Bool-cases, inl,
  inr,
}
use rmm.ListHead.{Links, list_del, list_add_tail}
use rmm.ListHead.Chain.{IsRing, Disjoint, IsRing-frame}
use rmm.ListHead.Insert.{list_add_tail_lem}
use rmm.ListHead.Remove.{list_del_lem}

pub Disjoint-flip : (xs ys : List ℕ) → Disjoint xs ys → Disjoint ys xs
Disjoint-flip xs ys apart c i = elim (Bool-cases (has c xs)) [
  | inl in_xs ↦ cc (apart c in_xs)
  | inr out ↦ out
]

not-mem_pair : (a b c : ℕ) (xs : List ℕ) → a ∉ xs → b ∉ xs → c ∈ a ∷ b ∷ [] → c ∉ xs
not-mem_pair a b c [] p q i = refl
not-mem_pair a b c (x ∷ xs) p q i = ground (arith, not-mem_pair a b c xs)

pub Disjoint-pair : (a b : ℕ) (xs : List ℕ) → a ∉ xs → b ∉ xs → Disjoint xs (a ∷ b ∷ [])
Disjoint-pair a b xs p q = Disjoint-flip (a ∷ b ∷ []) xs (λ c i. not-mem_pair a b c xs p q i)

pub Disjoint-one : (a : ℕ) (xs : List ℕ) → a ∉ xs → Disjoint xs (a ∷ [])
Disjoint-one a xs p = Disjoint-flip (a ∷ []) xs (λ c i. not-mem_pair a a c xs p p (ground arith))

pub Disjoint-alone : (a : ℕ) (xs : List ℕ) → a ∉ xs → Disjoint (a ∷ []) xs
Disjoint-alone a xs p c i = not-mem_pair a a c xs p p (ground arith)

pub not-mem_unlink :
    (a n : ℕ) (before after : List ℕ) → a ∉ before ++ n ∷ after → a ∉ before ++ after
not-mem_unlink a n before after out =
    ground (arith, has-append a before (n ∷ after), has-append a before after)

module _ (l : Links) (q g n : ℕ) (before after moved : List ℕ)
    (from : IsRing l q (before ++ n ∷ after)) (into : IsRing l g moved)
    (apart : Disjoint (q ∷ before ++ n ∷ after) (g ∷ moved)) where
  -- The node leaves the one list and is the last of the other; the other nodes keep their places.
  pub move_lem :
      IsRing (list_add_tail n g (list_del n l)) q (before ++ after)
      × IsRing (list_add_tail n g (list_del n l)) g (moved ++ n ∷ [])
  move_lem =
      let all : List ℕ = q ∷ before ++ n ∷ after in
      let (left, same) = list_del_lem l q n before after from in
      let there : IsRing (list_del n l) g moved =
        IsRing-frame l (list_del n l) g moved all same (Disjoint-flip all (g ∷ moved) apart) into in
      let n_out : n ∉ g ∷ moved = apart n (ground (arith, has-append n before (n ∷ after))) in
      let (joined, same') = list_add_tail_lem (list_del n l) g n moved there n_out in
      let (alone, _) = (Distinct-middle n before after).0 from.distinct in
      let q_apart = from.apart in
      (
        IsRing-frame (list_del n l) (list_add_tail n g (list_del n l)) q (before ++ after)
            (n ∷ g ∷ moved) same'
            (λ c i. ground (
              arith,
              apart c,
              has-append c before (n ∷ after),
              has-append c before after,
              has-append q before (n ∷ after),
              alone,
            ))
            left,
        joined,
      )
