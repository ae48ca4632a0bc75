-- ===== src/Alloc/ThreadCache/Zones.antt =====
-- The lists of the thread and of the pool between which `thread_exit` of src/wlmalloc.c moves spans.
-- A zone of an address says on which list it is: 2 * i for the thread's i-th list and 2 * i + 1 for
-- the pool's.
use rmm.Base.{
  ℕ, ◌+◌, ◌*◌, ◌/◌, ◌≡◌, ◌≢◌, sym, ap, ◌∙◌, arith, List, [], ◌∷◌, ◌++◌, ◌∈◌, ◌∉◌, All, All-mono,
  All_at, All-append, not-mem_of_All,
}
use rmm.ListHead.{Links, list_add_tail, list_splice_tail}
use rmm.ListHead.Chain.{IsRing, Disjoint, Chain-frame}
use rmm.ListHead.Insert.{list_add_tail_lem}
use rmm.ListHead.Splice.{list_splice_tail_lem, list_splice_tail-same}

-- Two rings whose nodes are not of one kind share no node.
Ring-agree :
    (l l' : Links) (h : ℕ) (xs : List ℕ)
    → ((c : ℕ) → c ∈ h ∷ xs → (l'.next c ≡ l.next c) × (l'.prev c ≡ l.prev c))
    → IsRing l h xs
    → IsRing l' h xs
Ring-agree l l' h xs same r = record {
  chain = Chain-frame l l' h h xs (λ c i. (same c i).0) (λ c i. (same c i).1) r.chain;
  apart = r.apart;
  distinct = r.distinct;
}

module _ (zone : ℕ → ℕ) where
  -- The links differ at most at addresses of the i-th two lists.
  abbrev pub Agree : ℕ → Links → Links → Type 0
  Agree i l l' = (c : ℕ) → zone c / 2 ≢ i → (l'.next c ≡ l.next c) × (l'.prev c ≡ l.prev c)

  -- The i-th list of the thread, with head m, and that of the pool, with head h.
  pub record Pair (l : Links) (i m h : ℕ) (xs ys : List ℕ) : Type 0 where
    pub mine : IsRing l m xs
    pub pools : IsRing l h ys
    pub mine_zone : All (λ c. zone c ≡ 2 * i) (m ∷ xs)
    pub pools_zone : All (λ c. zone c ≡ 2 * i + 1) (h ∷ ys)

  -- The list of the pool after the two are joined.
  pub record Joined (l : Links) (i h : ℕ) (zs : List ℕ) : Type 0 where
    pub ring : IsRing l h zs
    pub ring_zone : All (λ c. zone c / 2 ≡ i) (h ∷ zs)

  Ring-elsewhere :
      {l l' : Links} {j : ℕ} (i h : ℕ) (xs : List ℕ)
      → Agree j l l'
      → i ≢ j
      → All (λ c. zone c / 2 ≡ i) (h ∷ xs)
      → IsRing l h xs
      → IsRing l' h xs
  Ring-elsewhere {l} {l'} {j} i h xs agree ne home r =
      Ring-agree l l' h xs
        (λ c m. agree c (λ e. ne (sym (All_at (λ a. zone a / 2 ≡ i) c (h ∷ xs) home m) ∙ e))) r

  even_half : (i : ℕ) (xs : List ℕ) → All (λ c. zone c ≡ 2 * i) xs → All (λ c. zone c / 2 ≡ i) xs
  even_half i xs h = All-mono xs (λ c e. omega (arith, e)) h

  odd_half : (i : ℕ) (xs : List ℕ) → All (λ c. zone c ≡ 2 * i + 1) xs → All (λ c. zone c / 2 ≡ i) xs
  odd_half i xs h = All-mono xs (λ c e. omega (arith, e)) h

  pub Pair-frame :
      {l l' : Links} {j : ℕ} (i m h : ℕ) (xs ys : List ℕ)
      → Agree j l l'
      → i ≢ j
      → Pair l i m h xs ys
      → Pair l' i m h xs ys
  Pair-frame i m h xs ys agree ne p = record {
    mine = Ring-elsewhere i m xs agree ne (even_half i (m ∷ xs) p.mine_zone) p.mine;
    pools = Ring-elsewhere i h ys agree ne (odd_half i (h ∷ ys) p.pools_zone) p.pools;
    mine_zone = p.mine_zone;
    pools_zone = p.pools_zone;
  }

  pub Joined-frame :
      {l l' : Links} {j : ℕ} (i h : ℕ) (zs : List ℕ)
      → Agree j l l'
      → i ≢ j
      → Joined l i h zs
      → Joined l' i h zs
  Joined-frame i h zs agree ne p = record {
    ring = Ring-elsewhere i h zs agree ne p.ring_zone p.ring;
    ring_zone = p.ring_zone;
  }

  outside : (i c : ℕ) (xs : List ℕ) → All (λ a. zone a / 2 ≡ i) xs → zone c / 2 ≢ i → c ∉ xs
  outside i c xs home ne = not-mem_of_All c xs home (λ b at e. ne (ap (λ a. zone a / 2) e ∙ at))

  -- A node of the thread's zone goes to the end of its list.
  pub Pair-add :
      (l : Links) (i m h x : ℕ) (xs ys : List ℕ)
      → Pair l i m h xs ys
      → zone x ≡ 2 * i
      → x ∉ m ∷ xs
      → Pair (list_add_tail x m l) i m h (xs ++ x ∷ []) ys × Agree i l (list_add_tail x m l)
  Pair-add l i m h x xs ys p home out =
      let (ring, same) = list_add_tail_lem l m x xs p.mine out in
      let here : All (λ c. zone c ≡ 2 * i) (x ∷ m ∷ xs) = (home, p.mine_zone) in
      (
        record {
          mine = ring;
          pools =
              Ring-agree l (list_add_tail x m l) h ys
                (λ c inside. same c (
                  not-mem_of_All c (x ∷ m ∷ xs) here (λ b at e. absurd (
                    omega (
                      arith,
                      at,
                      ap zone e,
                      All_at (λ a. zone a ≡ 2 * i + 1) c (h ∷ ys) p.pools_zone inside,
                    )))))
                p.pools;
          mine_zone = (
            p.mine_zone.0,
            (All-append (λ c. zone c ≡ 2 * i) xs (x ∷ [])).1 (p.mine_zone.1, (home, tt)),
          );
          pools_zone = p.pools_zone;
        },
        λ c ne. same c (outside i c (x ∷ m ∷ xs) (even_half i (x ∷ m ∷ xs) here) ne),
      )

  -- A splice writes only to addresses of the two lists.
  splice-Agree :
      (l : Links) (i m h : ℕ) (xs ys : List ℕ)
      → Pair l i m h xs ys
      → Agree i l (list_splice_tail m h l)
  splice-Agree l i m h xs ys p c ne =
      list_splice_tail-same l m h xs ys p.mine p.pools c
        (outside i c (m ∷ xs) (even_half i (m ∷ xs) p.mine_zone) ne)
        (outside i c (h ∷ ys) (odd_half i (h ∷ ys) p.pools_zone) ne)

  pub Pair-splice :
      (l : Links) (i m h : ℕ) (xs ys : List ℕ)
      → Pair l i m h xs ys
      → Joined (list_splice_tail m h l) i h (ys ++ xs) × Agree i l (list_splice_tail m h l)
  Pair-splice l i m h xs ys p =
      let apart : Disjoint (m ∷ xs) (h ∷ ys) = λ c inside.
        not-mem_of_All c (h ∷ ys) p.pools_zone (λ b at e. absurd (
          omega
            (arith, at, ap zone e, All_at (λ a. zone a ≡ 2 * i) c (m ∷ xs) p.mine_zone inside))) in
      (
        record {
          ring = list_splice_tail_lem l m h xs ys p.mine p.pools apart;
          ring_zone =
              let mine = even_half i (m ∷ xs) p.mine_zone in
              let pools = odd_half i (h ∷ ys) p.pools_zone in
              (pools.0, (All-append (λ c. zone c / 2 ≡ i) ys xs).1 (pools.1, mine.1));
        },
        splice-Agree l i m h xs ys p,
      )
