-- ===== src/SizeClass/Generate.antt =====
-- src/sizeclass.c: the program that prints the size-class tables.
use rmm.Base.{
  ℕ, ◌+◌, ◌*◌, ◌/◌, ◌-◌, ◌<◌, ◌≡◌, refl, Option, some, none, leb, ltb, ◌==◌, ◌&&◌, true, false,
  Bool, ◌^◌, if◌then◌else◌, List, get_or, set, replicate, while, all_below, all_below_sound, arith,
}
use rmm.SizeClass.{cls2size, sizemap8, sizemap256}

-- The three global arrays and the locals `curcls` and `cursize`.
pub record Gen : Type 0 where
  pub cls2size : List ℕ
  pub size2cls8 : List ℕ
  pub size2cls512 : List ℕ
  pub curcls : ℕ
  pub cursize : ℕ

-- `cls2size[curcls++] = v`
put_size : ℕ → Gen → Gen
put_size v g = record g { cls2size = set g.cls2size g.curcls v; curcls = g.curcls + 1 }

-- Each loop runs at most 64 rounds.
abbrev rounds : ℕ
rounds = 64

small_steps : Gen → Option Gen
unfolding put_size while
small_steps g =
    while rounds (λ s. leb s.cursize 128)
      (λ s. record (put_size s.cursize s) { cursize = s.cursize + 8 })
      (record g { curcls = 0; cursize = 16 })

big_steps : Gen → Option Gen
unfolding put_size while
big_steps g =
    while rounds (λ s. ltb s.cursize (2 ^ 14))
      (λ s.
        let s' = put_size (s.cursize * 2) (put_size (s.cursize + s.cursize / 2) s) in
        record s' { cursize = s.cursize * 2 })
      (record g { cursize = 128 })

-- `if(cursize > cls2size[curcls]) curcls++;`
next_class : Gen → Gen
next_class s =
    if ltb (get_or s.cls2size s.curcls 0) s.cursize then record s { curcls = s.curcls + 1 } else s

fill8 : Gen → Gen
unfolding next_class
fill8 s =
    let s' = next_class s in
    record s' {
      size2cls8 = set s'.size2cls8 ((s'.cursize - 1) / 8) s'.curcls;
      cursize = s'.cursize + 8;
    }

fill512 : Gen → Gen
unfolding next_class
fill512 s =
    let s' = next_class s in
    record s' {
      size2cls512 = set s'.size2cls512 ((s'.cursize - 1) / 256) s'.curcls;
      cursize = s'.cursize + 256;
    }

infixl 5 ◌>>=◌
abbrev ◌>>=◌ : {A B : Type 0} → Option A → (A → Option B) → Option B
none >>= f = none
some a >>= f = f a

gen_cls2size : Gen → Option Gen
unfolding small_steps big_steps
gen_cls2size g = do s ← small_steps g; big_steps s

gen_size2cls : Gen → Option Gen
unfolding fill8 fill512 while
gen_size2cls g = do
  s ← while rounds (λ s. leb s.cursize 512) fill8 (record g { curcls = 0; cursize = 16 })
  while rounds (λ s. leb s.cursize (2 ^ 14)) fill512 (record s { cursize = 512 })

-- `main` of sizeclass.c without `show`; globals begin as zeros.
pub generate : Option Gen
unfolding gen_cls2size gen_size2cls
generate = do
  s ← gen_cls2size (record {
    cls2size = replicate 64 0;
    size2cls8 = replicate 128 0;
    size2cls512 = replicate 128 0;
    curcls = 0;
    cursize = 0;
  })
  gen_size2cls s

-- The generated tables at one index.
pub Agrees : Option Gen → ℕ → Type 0
Agrees none i = ⊥
Agrees (some g) i =
    (get_or g.cls2size i 0 ≡ get_or cls2size i 0)
    × (get_or g.size2cls8 i 0 ≡ get_or sizemap8 i 0)
    × (get_or g.size2cls512 i 0 ≡ get_or sizemap256 i 0)

agrees : Option Gen → ℕ → Bool
agrees none i = false
agrees (some g) i =
    (get_or g.cls2size i 0 == get_or cls2size i 0)
    && (get_or g.size2cls8 i 0 == get_or sizemap8 i 0)
    && (get_or g.size2cls512 i 0 == get_or sizemap256 i 0)

agrees-Agrees : (o : Option Gen) (i : ℕ) → agrees o i ≡ true → Agrees o i
unfolding agrees Agrees
agrees-Agrees none i e = cc
agrees-Agrees (some g) i e = ground arith

agrees_table : all_below 64 (λ i. agrees generate i) ≡ true
unfolding agrees generate all_below cls2size sizemap8 sizemap256
agrees_table = refl

-- The loops of sizeclass.c end, and what they print are the tables of wlmalloc.c: each of the 64
-- entries of the two maps, and each entry of `cls2size` (zero behind the last class).
pub generate-Agrees : (i : ℕ) → i < 64 → Agrees generate i
generate-Agrees i h =
    agrees-Agrees generate i (all_below_sound 64 (λ i. agrees generate i) i agrees_table h)
