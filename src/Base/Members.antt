-- ===== src/Base/Members.antt =====
-- Membership of addresses in lists, as a test, and memory as a function that is updated.
use Prim.Native.Nat.{ℕ}
use mathlib.Core.Path.{◌≡◌, refl, sym, subst}
use mathlib.Core.Logic.{◌≢◌, ◌↔◌, inl, inr}
use mathlib.Core.Bool.{Bool, true, false, ◌||◌, or_assoc, false≢true}
use mathlib.Core.List.{List, [], ◌∷◌, ◌++◌}
use native.Mathlib.Omega.{arith}
use rmm.Base.Tests.{◌==◌, if◌then◌else◌, Bool-cases, ==_iff}

abbrev pub has : ℕ → List ℕ → Bool
has a [] = false
has a (x ∷ xs) = (a == x) || has a xs

infix 40 ◌∈◌ ◌∉◌
abbrev pub ◌∈◌ : ℕ → List ℕ → Type 0
a ∈ xs = has a xs ≡ true

abbrev pub ◌∉◌ : ℕ → List ℕ → Type 0
a ∉ xs = has a xs ≡ false

-- No address twice.
abbrev pub Distinct : List ℕ → Type 0
Distinct [] = Unit
Distinct (x ∷ xs) = (x ∉ xs) × Distinct xs

pub has-append : (a : ℕ) (xs ys : List ℕ) → has a (xs ++ ys) ≡ (has a xs || has a ys)
has-append a [] ys = refl
has-append a (x ∷ xs) ys = rw (has-append a xs ys, or_assoc)

-- A cell of memory overwritten.
abbrev pub update {ℓ} : {A : Type ℓ} → (ℕ → A) → ℕ → A → ℕ → A
update f a v b = if b == a then v else f b

pub Distinct-snoc : (x : ℕ) (xs : List ℕ) → x ∉ xs → Distinct xs → Distinct (xs ++ x ∷ [])
Distinct-snoc x [] out d = (refl, tt)
Distinct-snoc x (y ∷ ys) out d =
    (rw has-append (ground (arith, out)), Distinct-snoc x ys (ground (arith, out)) d.1)

abbrev pub All {ℓ κ} : {A : Type ℓ} → (A → Type κ) → List A → Type κ
All P [] = Unit
All P (x ∷ xs) = P x × All P xs

pub All-mono {ℓ κ} :
    {A : Type ℓ} {P Q : A → Type κ} (xs : List A) → ((a : A) → P a → Q a) → All P xs → All Q xs
All-mono [] f h = tt
All-mono (x ∷ xs) f h = (f x h.0, All-mono xs f h.1)

-- What holds for no member: an address with `¬ P a` is not in a list whose members have `P`.
pub not-mem_of_All {κ} :
    {P : ℕ → Type κ} (a : ℕ) (xs : List ℕ) → All P xs → ((b : ℕ) → P b → a ≢ b) → a ∉ xs
not-mem_of_All a [] h no_eq = refl
not-mem_of_All a (x ∷ xs) h no_eq =
    let ne = no_eq x h.0 in ground (arith, not-mem_of_All a xs h.1 no_eq)

pub All_at {κ} : (P : ℕ → Type κ) (a : ℕ) (xs : List ℕ) → All P xs → a ∈ xs → P a
All_at P a [] h i = absurd (false≢true i)
All_at P a (x ∷ xs) h i = elim (Bool-cases (a == x)) [
  | inl e ↦ subst P (sym ((==_iff a x).0 e)) h.0
  | inr ne ↦ All_at P a xs h.1 (ground arith)
]

pub All-append {ℓ κ} :
    {A : Type ℓ} (P : A → Type κ) (xs ys : List A) → All P (xs ++ ys) ↔ (All P xs × All P ys)
All-append P [] ys = (λ h. (tt, h), λ h. h.1)
All-append P (x ∷ xs) ys =
    let (to, back) = All-append P xs ys in
    (λ h. ((h.0, (to h.1).0), (to h.1).1), λ h. (h.0.0, back (h.0.1, h.1)))

pub update_self {ℓ} : {A : Type ℓ} (f : ℕ → A) (a : ℕ) (v : A) → update f a v a ≡ v
update_self f a v = ground arith

pub update_other {ℓ} :
    {A : Type ℓ} (f : ℕ → A) (a b : ℕ) (v : A) → (b == a) ≡ false → update f a v b ≡ f b
update_other f a b v ne = rw ne

-- One member moved from the middle to the front.
pub All-middle {ℓ κ} :
    {A : Type ℓ} (P : A → Type κ) (a : A) (xs ys : List A)
    → All P (xs ++ a ∷ ys) ↔ All P (a ∷ xs ++ ys)
All-middle P a [] ys = (λ h. h, λ h. h)
All-middle P a (x ∷ xs) ys =
    let (to, back) = All-middle P a xs ys in
    (λ h. ((to h.1).0, (h.0, (to h.1).1)), λ h. (h.1.0, back (h.0, h.1.1)))

pub Distinct-middle : (a : ℕ) (xs ys : List ℕ) → Distinct (xs ++ a ∷ ys) ↔ Distinct (a ∷ xs ++ ys)
Distinct-middle a [] ys = (λ h. h, λ h. h)
Distinct-middle a (x ∷ xs) ys =
    let (to, back) = Distinct-middle a xs ys in
    let with_a = has-append x xs (a ∷ ys) in
    let without = has-append x xs ys in
    (
      λ h. let (out, d) = to h.1 in (ground arith, (ground arith, d)),
      λ h. (ground arith, back (ground arith, h.1.1)),
    )

pub ne_of_mem : (a b : ℕ) (xs : List ℕ) → b ∈ xs → a ∉ xs → (b == a) ≡ false
ne_of_mem a b xs i out = elim (Bool-cases (b == a)) [
  | inl e ↦ cc (subst (λ c. c ∈ xs) ((==_iff b a).0 e) i)
  | inr ne ↦ ne
]
