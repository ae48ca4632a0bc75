-- ===== src/Ls/Names/Listed.antt =====
-- The chain that `list_dir` of src/ls.c makes.
use rmm.Base.{
  ℕ, ◌≡◌, ◌≢◌, refl, ap, Bool, Bool-cases, inl, inr, Option, none, some, Option-cases, List, [],
  ◌∷◌, get_or,
}
use rmm.Ls.Names.{
  Setting, Entry, Chain, is_listed, my_stat, concat_path_file, read_entry, read_entries, list_dir,
}

-- A name of a directory does not begin with a slash.
abbrev pub IsName : List ℕ → Type 0
IsName d_name = get_or d_name 0 0 ≢ 47

same_head : (x : Entry) {xs ys : List Entry} → xs ≡ ys → x ∷ xs ≡ x ∷ ys
same_head x e = ap (λ dn. x ∷ dn) e

-- The chain does not depend on the status before.
read_entry-dn :
    (set : Setting) (path d_name : List ℕ) (chain chain' : Chain)
    → chain.dn ≡ chain'.dn
    → (read_entry set path d_name chain).dn ≡ (read_entry set path d_name chain').dn
unfolding read_entry
read_entry-dn set path d_name chain chain' e = elim (Bool-cases (is_listed set d_name)) [
  | inl shown ↦ elim (Option-cases (my_stat set (concat_path_file path d_name).fullname)) [
    | inl missing ↦ rw (read_entry, shown, missing) e
    | inr (st, found) ↦ rw (read_entry, shown, found) (same_head _ e)
  ]
  | inr hidden ↦ rw (read_entry, hidden) e
]

read_entries-dn :
    (set : Setting) (path : List ℕ) (names : List (List ℕ)) (chain chain' : Chain)
    → chain.dn ≡ chain'.dn
    → (read_entries set path names chain).dn ≡ (read_entries set path names chain').dn
unfolding read_entries
read_entries-dn set path [] chain chain' e = e
read_entries-dn set path (d_name ∷ names) chain chain' e =
    read_entries-dn set path names (read_entry set path d_name chain)
      (read_entry set path d_name chain') (read_entry-dn set path d_name chain chain' e)

pub list_dir-dn :
    (set : Setting) (path : List ℕ) (dir : Option (List (List ℕ))) (failed failed' : Bool)
    → (list_dir set path dir failed).dn ≡ (list_dir set path dir failed').dn
unfolding list_dir
list_dir-dn set path none failed failed' = refl
list_dir-dn set path (some names) failed failed' = read_entries-dn set path names _ _ refl
