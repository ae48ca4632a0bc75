-- ===== src/Alloc/Blocks/Retire.antt =====
-- A suspended span whose last live block is freed goes to a free list.
use rmm.Base.{
  ℕ, ◌≡◌, refl, arith, List, [], ◌∷◌, ◌++◌, ◌∉◌, true, update, update_self, update_other, ◌∙◌,
}
use rmm.ListHead.{Links, init_list_head, list_add, list_add_tail, list_del}
use rmm.ListHead.Chain.{IsRing, Disjoint, IsRing-frame}
use rmm.ListHead.Insert.{init_list_head_lem, list_add_lem}
use rmm.ListHead.Move.{move_lem, Disjoint-one, Disjoint-pair}
use rmm.Alloc.{State, Span, ok, free, blk_list, node}
use rmm.Alloc.Blocks.{give_back, blk_cnt, inc32}
use rmm.Alloc.Blocks.Invariant.{OnlySpan}
use rmm.Alloc.Blocks.Release.{emptied}

-- The list operations of the move: the span's node `n` from the list at `q` to the one at `g`, the
-- list of free blocks at `b` emptied, and the block `a` put on it.
abbrev pub moved_links : (n g b a : ℕ) → Links → Links
moved_links n g b a l = list_add a b (init_list_head b (list_add_tail n g (list_del n l)))

module _ (l : Links) (q g n b a : ℕ) (before after moved : List ℕ)
    (from : IsRing l q (before ++ n ∷ after)) (into : IsRing l g moved)
    (apart : Disjoint (q ∷ before ++ n ∷ after) (g ∷ moved)) where
  -- A list that both `b` and `a` are no part of.
  clear_of :
      (m : Links) (h : ℕ) (xs : List ℕ)
      → a ∉ b ∷ []
      → b ∉ h ∷ xs
      → a ∉ h ∷ xs
      → IsRing m h xs
      → IsRing (list_add a b (init_list_head b m)) h xs
  clear_of m h xs ab out out' r =
      let (ring, same) = init_list_head_lem m b in
      let (_, same') = list_add_lem (init_list_head b m) b a [] ring ab in
      let r' =
        IsRing-frame m (init_list_head b m) h xs (b ∷ []) same (Disjoint-one b (h ∷ xs) out) r in
      IsRing-frame (init_list_head b m) (list_add a b (init_list_head b m)) h xs (a ∷ b ∷ []) same'
        (Disjoint-pair a b (h ∷ xs) out' out) r'

  pub moved_links_lem :
      a ∉ b ∷ []
      → b ∉ q ∷ before ++ after
      → b ∉ g ∷ moved ++ n ∷ []
      → a ∉ q ∷ before ++ after
      → a ∉ g ∷ moved ++ n ∷ []
      → IsRing (moved_links n g b a l) q (before ++ after)
        × IsRing (moved_links n g b a l) g (moved ++ n ∷ [])
        × IsRing (moved_links n g b a l) b (a ∷ [])
  moved_links_lem ab bq bg aq ag =
      let (left, joined) = move_lem l q g n before after moved from into apart in
      let m : Links = list_add_tail n g (list_del n l) in
      (
        clear_of m q (before ++ after) ab bq aq left,
        clear_of m g (moved ++ n ∷ []) ab bg ag joined,
        (list_add_lem (init_list_head b m) b a [] (init_list_head_lem m b).0 ab).0,
      )

emptied_count : (h : Span) → emptied h ≡ true → inc32 h.free_cnt ≡ blk_cnt h.blk_size
emptied_count h full = ground arith

-- The lists at the start of a move of the span at `p` from the list at `q` to the one at `list`, with
-- the freed block `a`: no address is part of two of them.
pub record Movable (s : State) (p q list a : ℕ) (before after moved : List ℕ) : Type 0 where
  pub suspended : IsRing s.links q (before ++ node p ∷ after)
  pub target : IsRing s.links list moved
  pub apart : Disjoint (q ∷ before ++ node p ∷ after) (list ∷ moved)
  pub block : a ∉ blk_list p ∷ []
  pub head_off_suspended : blk_list p ∉ q ∷ before ++ after
  pub head_off_target : blk_list p ∉ list ∷ moved ++ node p ∷ []
  pub block_off_suspended : a ∉ q ∷ before ++ after
  pub block_off_target : a ∉ list ∷ moved ++ node p ∷ []

-- When the last live block of a suspended span is freed, the span leaves the list of suspended spans
-- for the end of the free list, its state becomes `FREE`, its free count is the number of its
-- blocks, and no other span's header changes. The reset list of free blocks holds just that block.
pub give_back-moves :
    (s : State) (p q a list : ℕ) (before after moved : List ℕ)
    → emptied (s.span p) ≡ true
    → Movable s p q list a before after moved
    → (t : State) × (give_back p a list s ≡ ok tt t)
      × IsRing t.links q (before ++ after)
      × IsRing t.links list (moved ++ node p ∷ [])
      × IsRing t.links (blk_list p) (a ∷ [])
      × ((t.span p).state ≡ free)
      × ((t.span p).free_cnt ≡ blk_cnt (t.span p).blk_size)
      × OnlySpan p s t
unfolding give_back
give_back-moves s p q a list before after moved full m =
    let r : Span = record (s.span p) { free_cnt = inc32 (s.span p).free_cnt } in
    let r' : Span = record r { state = free } in
    let once = update s.span p r in
    let (left, joined, freed) =
      moved_links_lem s.links q list (node p) (blk_list p) a before after moved m.suspended m.target
        m.apart m.block m.head_off_suspended m.head_off_target m.block_off_suspended
        m.block_off_target in
    (
      record s {
        span = update once p r';
        links = moved_links (node p) list (blk_list p) a s.links;
      },
      rw full,
      left,
      joined,
      freed,
      rw (update_self once p r'),
      rw (update_self once p r') (emptied_count (s.span p) full),
      record {
        others = λ x ne. update_other once p x r' ne ∙ update_other s.span p x r ne;
        using = refl;
        pool = refl;
        locked = refl;
        bytes = refl;
        thread_state = refl;
      },
    )

-- The state after the last live block of a suspended span is freed.
abbrev pub given_back : (p a list : ℕ) → State → State
given_back p a list s =
    let r = record (s.span p) { free_cnt = inc32 (s.span p).free_cnt } in
    record s {
      span = update (update s.span p r) p (record r { state = free });
      links = moved_links (node p) list (blk_list p) a s.links;
    }

pub give_back-given_back :
    (s : State) (p a list : ℕ)
    → emptied (s.span p) ≡ true
    → give_back p a list s ≡ ok tt (given_back p a list s)
unfolding give_back
give_back-given_back s p a list full = rw full
