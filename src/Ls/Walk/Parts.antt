-- ===== src/Ls/Walk/Parts.antt =====
-- Which directories `showdirs` of src/ls.c enters from a directory.
use rmm.Base.{
  ℕ, ◌≡◌, refl, sym, subst, ◌∙◌, arith, Bool, true, false, ◌&&◌, Bool-cases, inl, inr, ltb, List,
  [], ◌∷◌, length,
}
use rmm.Ls.{split_subdir, dncnt, countsubdirs, selects}
use rmm.Ls.Print.{Full}
use rmm.Ls.Show.{dnodes}
use rmm.Ls.Sort.Moves.{Rearranged, Rearranged-refl}
use rmm.Ls.Split.{chosen, dncnt-chosen, chosen-map}
use rmm.Ls.Walk.{Lister}
use rmm.Ls.Walk.Reach.{files, subdirs, Same}
use rmm.Ls.Walk.Members.{Rearranged-mem, Rearranged-mem_back, chosen-mem, mem-chosen, count-chosen}
use rmm.Ls.Walk.Sorted.{part_of}

-- The directories of the sorted files are those of the files.
pub parts-Same :
    (lister : Lister) (path : List ℕ) (dn dnd : List Full)
    → lister.options.disp_recursive ≡ true
    → Rearranged (files lister path) dn
    → Rearranged (part_of lister split_subdir dn) dnd
    → Same dnd (subdirs lister path)
unfolding subdirs
parts-Same lister path dn dnd recursive r s =
    let test : Full → Bool = λ x. selects lister.world.strcmp split_subdir x.dnode in
    let choose = count-chosen test in
    rw recursive record {
      to = λ e m.
          let (inside, hit) = chosen-mem test dn (Rearranged-mem_back s m) in
          mem-chosen test (files lister path) (Rearranged-mem_back r inside) hit;
      from = λ e m.
          let (inside, hit) = chosen-mem test (files lister path) m in
          Rearranged-mem s (mem-chosen test dn (Rearranged-mem r inside) hit);
      counts = λ p.
          s.counts p
          ∙ choose p dn
          ∙ r.counts (λ x. test x && p x)
          ∙ sym (choose p (files lister path));
    }

pub Same-none :
    (lister : Lister) (path : List ℕ) → subdirs lister path ≡ [] → Same [] (subdirs lister path)
Same-none lister path e = rw e record { to = λ x m. m; from = λ x m. m; counts = λ test. refl }

pub and_first : (a b : Bool) → (a && b) ≡ true → a ≡ true
and_first true b e = refl
and_first false b e = absurd (cc e)

pub length_nil : {A : Type 0} (xs : List A) → length xs ≡ 0 → xs ≡ []
length_nil [] e = refl
length_nil (x ∷ xs) e = absurd (omega (arith, e))

countsubdirs-part :
    (lister : Lister) (dn : List Full)
    → countsubdirs lister.world.strcmp (dnodes dn) ≡ length (part_of lister split_subdir dn)
unfolding dncnt
countsubdirs-part lister dn =
    dncnt-chosen lister.world.strcmp split_subdir (dnodes dn)
    ∙ chosen-map (selects lister.world.strcmp split_subdir) (λ x. x.dnode) dn

pub subdirs-none :
    (lister : Lister) (path : List ℕ) → [] ≡ files lister path → subdirs lister path ≡ []
unfolding subdirs chosen
subdirs-none lister path empty = elim (Bool-cases lister.options.disp_recursive) [
  | inl recursive ↦ rw (subdirs, recursive, sym empty) refl
  | inr flat ↦ rw (subdirs, flat) refl
]

pub Same-no_parts :
    (lister : Lister) (path : List ℕ) (dn : List Full)
    → (lister.options.disp_recursive && ltb 0 (countsubdirs lister.world.strcmp (dnodes dn)))
      ≡ false
    → Rearranged (files lister path) dn
    → Same [] (subdirs lister path)
unfolding subdirs
Same-no_parts lister path dn none_left r = elim (Bool-cases lister.options.disp_recursive) [
  | inl recursive ↦
      let zero_parts : length (part_of lister split_subdir dn) ≡ 0 =
        ground (arith, none_left, recursive, countsubdirs-part lister dn) in
      parts-Same lister path dn [] recursive r (
        subst (λ l. Rearranged (part_of lister split_subdir dn) l)
          (length_nil (part_of lister split_subdir dn) zero_parts)
          (Rearranged-refl (part_of lister split_subdir dn)))
  | inr flat ↦ Same-none lister path (rw (subdirs, flat) refl)
]
