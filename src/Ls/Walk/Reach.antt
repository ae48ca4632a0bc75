-- ===== src/Ls/Walk/Reach.antt =====
-- The directories below some directories, for `showdirs` of src/ls.c.
use mathlib.Core.List.{Memᴰ, append-nil}
use mathlib.Core.List.Memᴰ.{head, tail, append_left, append_right}
use rmm.Base.{
  ℕ, zero, suc, ◌≡◌, refl, sym, ap, subst, ◌∙◌, ◌⊎◌, Bool, false, inl, inr, if◌then◌else◌, List, [],
  ◌∷◌, ◌++◌, map, All,
}
use rmm.Ls.{split_subdir}
use rmm.Ls.Names.{list_dir}
use rmm.Ls.Print.{Full}
use rmm.Ls.Sort.Moves.{count}
use rmm.Ls.Walk.{Lister, setting_of, full_of}
use rmm.Ls.Walk.Sorted.{part_of}

-- The entries that are listed of a directory, and the directories among them that are entered:
-- none without `DISP_RECURSIVE`, and neither "." nor "..".
unfoldable pub files : Lister → (path : List ℕ) → List Full
files lister path =
    map (full_of lister) (list_dir (setting_of lister) path (lister.world.opendir path) false).dn

unfoldable pub subdirs : Lister → (path : List ℕ) → List Full
unfolding files
subdirs lister path =
    if lister.options.disp_recursive then part_of lister split_subdir (files lister path) else []

-- A directory with less than n levels of directories below it.
abbrev pub Height : Lister → (n : ℕ) → (path : List ℕ) → Type 0
Height lister zero path = ⊥
Height lister (suc n) path = All (λ e. Height lister n e.fullname) (subdirs lister path)

-- One of the directories, or one that is entered from there.
pub data Reach (lister : Lister) : (dirs : List Full) → (path : List ℕ) → Type 0 where
  given :
      {dirs : List Full} {path : List ℕ} (e : Full)
      → Memᴰ e dirs
      → path ≡ e.fullname
      → Reach lister dirs path
  below :
      {dirs : List Full} {path : List ℕ} (e : Full)
      → Memᴰ e dirs
      → Reach lister (subdirs lister e.fullname) path
      → Reach lister dirs path

-- The same members, each as often, as every test counts them.
pub record Same (xs ys : List Full) : Type 0 where
  pub to : (e : Full) → Memᴰ e xs → Memᴰ e ys
  pub from : (e : Full) → Memᴰ e ys → Memᴰ e xs
  pub counts : (test : Full → Bool) → count test xs ≡ count test ys

-- The directories are opened in their order, each once for each time that it is given, and each is
-- followed by those that are entered from it, in some order, before the next.
pub data Opens (lister : Lister) : (dirs : List Full) → (log : List (List ℕ)) → Type 0 where
  no_more : Opens lister [] []
  opens :
      {dir : Full} {dirs entered : List Full} {inner later : List (List ℕ)}
      → Same entered (subdirs lister dir.fullname)
      → Opens lister entered inner
      → Opens lister dirs later
      → Opens lister (dir ∷ dirs) (dir.fullname ∷ inner ++ later)

-- The log of a run has exactly the directories that are reached.
pub record Exact (lister : Lister) (dirs : List Full) (log : List (List ℕ)) : Type 0 where
  pub only : (path : List ℕ) → Memᴰ path log → Reach lister dirs path
  pub all : (path : List ℕ) → Reach lister dirs path → Memᴰ path log

pub Reach-mono :
    {lister : Lister} {xs ys : List Full} {path : List ℕ}
    → ((e : Full) → Memᴰ e xs → Memᴰ e ys)
    → Reach lister xs path
    → Reach lister ys path
Reach-mono to (given e member same) = given e (to e member) same
Reach-mono to (below e member reach) = below e (to e member) reach

mem_append : {A : Type 0} (a : A) (xs ys : List A) → Memᴰ a (xs ++ ys) → Memᴰ a xs ⊎ Memᴰ a ys
mem_append a [] ys m = inr m
mem_append a (x ∷ xs) ys (head e) = inl (head e)
mem_append a (x ∷ xs) ys (tail m) = elim (mem_append a xs ys m) [
  | inl left ↦ inl (tail left)
  | inr right ↦ inr right
]

Reach-none : {lister : Lister} {path : List ℕ} → Reach lister [] path → ⊥
Reach-none (given e member same) = elim member [ ]
Reach-none (below e member reach) = elim member [ ]

pub Exact-nil : (lister : Lister) → Exact lister [] []
Exact-nil lister = record {
  only = λ path m. elim m [ ];
  all = λ path reach. absurd (Reach-none reach);
}

Reach-cons :
    {lister : Lister} {e : Full} {dirs : List Full} {path : List ℕ}
    → Reach lister (e ∷ dirs) path
    → Reach lister (e ∷ []) path ⊎ Reach lister dirs path
Reach-cons (given x (head is) same) = inl (given x (head is) same)
Reach-cons (given x (tail member) same) = inr (given x member same)
Reach-cons (below x (head is) reach) = inl (below x (head is) reach)
Reach-cons (below x (tail member) reach) = inr (below x member reach)

pub Exact-cons :
    {lister : Lister} {e : Full} {dirs : List Full} {first rest : List (List ℕ)}
    → Exact lister (e ∷ []) first
    → Exact lister dirs rest
    → Exact lister (e ∷ dirs) (first ++ rest)
Exact-cons {first = first} {rest = rest} here there = record {
  only = λ path m. elim (mem_append path first rest m) [
    | inl left ↦
        Reach-mono
          (λ x member. elim member [
            | head is ↦ head is
            | tail none_left ↦ absurd (elim none_left [ ])
          ])
          (here.only path left)
    | inr right ↦ Reach-mono (λ x member. tail member) (there.only path right)
  ];
  all = λ path reach. elim (Reach-cons reach) [
    | inl left ↦ append_left rest (here.all path left)
    | inr right ↦ append_right first (there.all path right)
  ];
}

Reach-dir :
    {lister : Lister} {e : Full} {path : List ℕ}
    → Reach lister (e ∷ []) path
    → (path ≡ e.fullname) ⊎ Reach lister (subdirs lister e.fullname) path
Reach-dir (given x (head is) same) = inl (same ∙ ap (λ y. y.fullname) is)
Reach-dir (given x (tail none_left) same) = elim none_left [ ]
Reach-dir {lister} {path = path} (below x (head is) reach) =
    inr (subst (λ y. Reach lister (subdirs lister y.fullname) path) is reach)
Reach-dir (below x (tail none_left) reach) = elim none_left [ ]

-- A directory is opened and then those that are entered from it.
pub Exact-dir :
    {lister : Lister} {e : Full} {entered : List Full} {log : List (List ℕ)}
    → Same entered (subdirs lister e.fullname)
    → Exact lister entered log
    → Exact lister (e ∷ []) (e.fullname ∷ log)
Exact-dir {e = e} same exact = record {
  only = λ path m. elim m [
    | head is ↦ given e (head refl) is
    | tail later ↦ below e (head refl) (Reach-mono same.to (exact.only path later))
  ];
  all = λ path reach. elim (Reach-dir reach) [
    | inl is ↦ head is
    | inr lower ↦ tail (exact.all path (Reach-mono same.from lower))
  ];
}

pub Opens-cons :
    {lister : Lister} {e : Full} {dirs : List Full} {first rest : List (List ℕ)}
    → Opens lister (e ∷ []) first
    → Opens lister dirs rest
    → Opens lister (e ∷ dirs) (first ++ rest)
Opens-cons {lister} {e} {dirs} {rest = rest} (opens {inner = inner} same lower no_more) later =
    subst (λ l. Opens lister (e ∷ dirs) (e.fullname ∷ l ++ rest)) (sym (append-nil inner))
      (opens same lower later)
