-- ===== src/Ls/Split.antt =====
-- `splitdnarray` of src/ls.c fills the array that it allocates.
use mathlib.Core.List.{append_assoc}
use rmm.Base.{
  ℕ, suc, ◌+◌, ◌≡◌, refl, ap, ◌∙◌, map, arith, Bool, true, false, not, Bool-cases, inl, inr,
  if◌then◌else◌, Option, none, some, List, [], ◌∷◌, ◌++◌, length, length-append, replicate,
}
use rmm.Ls.{
  Dnode, Strcmp, Which, split_dir, split_file, split_subdir, s_isdir, is_subdir, selects, store,
  copy_entries, dnalloc, dncnt, count_if, countdirs, countsubdirs, splitdnarray,
}

-- The entries that pass a test, in order.
unfoldable pub chosen {ℓ} : {A : Type ℓ} → (A → Bool) → List A → List A
chosen test [] = []
chosen test (x ∷ dn) = if test x then x ∷ chosen test dn else chosen test dn

-- An array whose slots all hold an entry.
unfoldable pub filled {ℓ} : {A : Type ℓ} → List A → List (Option A)
filled [] = []
filled (x ∷ dn) = some x ∷ filled dn

count_if-chosen :
    (test : Dnode → Bool) (dn : List Dnode) (k : ℕ)
    → count_if test dn k ≡ k + length (chosen test dn)
unfolding count_if chosen
count_if-chosen test [] k = omega arith
count_if-chosen test (x ∷ dn) k = elim (Bool-cases (test x)) [
  | inl hit ↦ rw hit (omega (arith, count_if-chosen test dn (k + 1)))
  | inr miss ↦ rw miss (count_if-chosen test dn k)
]

chosen-not :
    (test : Dnode → Bool) (dn : List Dnode)
    → length (chosen test dn) + length (chosen (λ x. not (test x)) dn) ≡ length dn
unfolding chosen
chosen-not test [] = refl
chosen-not test (x ∷ dn) = elim (Bool-cases (test x)) [
  | inl hit ↦ rw hit (omega (arith, chosen-not test dn))
  | inr miss ↦ rw miss (omega (arith, chosen-not test dn))
]

count_from_zero :
    (test : Dnode → Bool) (dn : List Dnode) → count_if test dn 0 ≡ length (chosen test dn)
count_from_zero test dn = omega (arith, count_if-chosen test dn 0)

pub dncnt-chosen :
    (strcmp : Strcmp) (which : Which) (dn : List Dnode)
    → dncnt strcmp which dn ≡ length (chosen (selects strcmp which) dn)
unfolding dncnt selects countdirs countsubdirs
dncnt-chosen strcmp split_dir dn = count_from_zero (λ x. s_isdir x.st_mode) dn
dncnt-chosen strcmp split_file dn =
    omega
      (arith, count_from_zero (λ x. s_isdir x.st_mode) dn, chosen-not (λ x. s_isdir x.st_mode) dn)
dncnt-chosen strcmp split_subdir dn = count_from_zero (is_subdir strcmp) dn

pub chosen-map {ℓ} :
    {A : Type ℓ} (test : Dnode → Bool) (node : A → Dnode) (dn : List A)
    → length (chosen test (map node dn)) ≡ length (chosen (λ x. test (node x)) dn)
unfolding chosen
chosen-map test node [] = refl
chosen-map test node (x ∷ dn) = elim (Bool-cases (test (node x))) [
  | inl hit ↦ rw hit (ap suc (chosen-map test node dn))
  | inr miss ↦ rw miss (chosen-map test node dn)
]

store_lem {ℓ} :
    {A : Type ℓ} (x : A) (pre rest : List (Option A))
    → store (length pre) x (pre ++ none ∷ rest) ≡ some (pre ++ some x ∷ rest)
unfolding store
store_lem x [] rest = refl
store_lem x (slot ∷ pre) rest = rw (store_lem x pre rest)

copy_entries-hit {ℓ} :
    {A : Type ℓ} (test : A → Bool) (x : A) (dn : List A) (d : ℕ) (dnp dnp' : List (Option A))
    → test x ≡ true
    → store d x dnp ≡ some dnp'
    → copy_entries test (x ∷ dn) d dnp ≡ copy_entries test dn (d + 1) dnp'
unfolding copy_entries
copy_entries-hit test x dn d dnp dnp' hit stored = rw (copy_entries, hit, stored)

copy_entries-miss {ℓ} :
    {A : Type ℓ} (test : A → Bool) (x : A) (dn : List A) (d : ℕ) (dnp : List (Option A))
    → test x ≡ false
    → copy_entries test (x ∷ dn) d dnp ≡ copy_entries test dn d dnp
unfolding copy_entries
copy_entries-miss test x dn d dnp miss = rw (copy_entries, miss)

abbrev room {ℓ} : {A : Type ℓ} → (A → Bool) → List A → List (Option A)
room test dn = replicate (length (chosen test dn)) none

copy_entries_lem {ℓ} :
    {A : Type ℓ} (test : A → Bool) (dn : List A) (d : ℕ) (pre : List (Option A))
    → d ≡ length pre
    → copy_entries test dn d (pre ++ room test dn) ≡ some (pre ++ filled (chosen test dn))
unfolding copy_entries chosen filled
copy_entries_lem test [] d pre e = refl
copy_entries_lem test (x ∷ dn) d pre e = elim (Bool-cases (test x)) [
  | inl hit ↦
      let copied : chosen test (x ∷ dn) ≡ x ∷ chosen test dn = rw hit in
      let next = pre ++ some x ∷ [] in
      let long : d + 1 ≡ length next = omega (arith, length-append pre (some x ∷ []), e) in
      let stored : store d x (pre ++ none ∷ room test dn) ≡ some (next ++ room test dn) =
        rw (e, append_assoc) (store_lem x pre (room test dn)) in
      rw copied (
        copy_entries-hit test x dn d (pre ++ none ∷ room test dn) (next ++ room test dn) hit stored
        ∙ copy_entries_lem test dn (d + 1) next long
        ∙ rw append_assoc)
  | inr miss ↦
      let skipped : chosen test (x ∷ dn) ≡ chosen test dn = rw miss in
      rw skipped (
        copy_entries-miss test x dn d (pre ++ room test dn) miss ∙ copy_entries_lem test dn d pre e)
]

-- `splitdnarray` asks for exactly as many slots as it fills, and writes no other: what it returns are
-- the directories, the other entries, or the directories but "." and "..", all of them and in order.
pub splitdnarray-filled {ℓ} :
    {A : Type ℓ} (node : A → Dnode) (strcmp : Strcmp) (dn : List A) (which : Which)
    → splitdnarray node strcmp dn which
      ≡ some (filled (chosen (λ x. selects strcmp which (node x)) dn))
unfolding splitdnarray dnalloc chosen filled
splitdnarray-filled node strcmp [] which = refl
splitdnarray-filled node strcmp (x ∷ dn) which =
    let test : _ → Bool = λ y. selects strcmp which (node y) in
    rw
      (
        dncnt-chosen strcmp which (map node (x ∷ dn)),
        chosen-map (selects strcmp which) node (x ∷ dn),
      )
      (copy_entries_lem test (x ∷ dn) 0 [] refl)
