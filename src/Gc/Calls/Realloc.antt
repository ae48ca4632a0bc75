-- ===== src/Gc/Calls/Realloc.antt =====
-- `gc_realloc` of src/wlgc.c on a tracked block that the system leaves where it is.
use rmm.Base.{ℕ, ◌+◌, ◌^◌, ◌<◌, ◌≡◌, ◌≢◌, sym, subst, ◌∙◌, ap, arith, some, ◌∈◌, ◌==◌, false}
use rmm.Gc.{Gc, Libc, alloc_bytes, search, gc_need_collect}
use rmm.Gc.Table.{tracked, search-tracked}
use rmm.Gc.Insert.{register_alloc-Registered}
use rmm.Gc.Calls.{Roots, collect_if_needed, track, roundup8, gc_realloc}
use rmm.Gc.Calls.Malloc.{IsGood, Gives, called-IsGood, roundup8_even}

-- A tracked block is resized in place, and no collection is due: afterwards two `alloc_t`s of the
-- table have its address, the old one and a new one.
pub gc_realloc-tracks_twice :
    (libc : Libc) (r : Roots) (ptr size b : ℕ) (g : Gc)
    → IsGood g
    → size ≢ 0
    → ptr ≢ 0
    → g.size + 1 < 2 ^ 64
    → Gives libc (record g { calls = g.calls + 1 })
    → gc_need_collect g ≡ false
    → search g ptr ≡ some b
    → libc.realloc g.calls ptr (roundup8 size) ≡ ptr
    → (a : ℕ) × (g' : Gc) × (gc_realloc libc r ptr size g ≡ some (ptr, g'))
      × (a ≢ b)
      × (a ∈ tracked g')
      × (b ∈ tracked g')
      × ((g'.cell a).p ≡ ptr)
      × ((g'.cell b).p ≡ ptr)
unfolding gc_realloc collect_if_needed track
gc_realloc-tracks_twice libc r ptr size b g good some_size some_ptr small gives idle found
      in_place =
    let sized : (size == 0) ≡ false = ground arith in
    let h : Gc = record g { calls = g.calls + 1 } in
    let good' = called-IsGood g (g.calls + 1) good in
    let a : ℕ = libc.malloc h.calls alloc_bytes in
    let (inside, place) = search-tracked g ptr b good.table.positive found in
    let (g', run, s) =
      register_alloc-Registered libc ptr (roundup8 size) h good'.table good'.clear some_ptr
        gives.some_memory gives.fresh (roundup8_even size) small in
    let (new, new_place) = search-tracked g' ptr a s.table.positive s.found in
    (
      a,
      g',
      rw (sized, idle, in_place, track, run, in_place),
      λ e. cc (subst (λ x. x ∈ tracked g) (sym e) inside, gives.fresh),
      new,
      ground (arith, s.members b),
      new_place,
      ap (λ c. c.p) (s.others b inside) ∙ place,
    )
