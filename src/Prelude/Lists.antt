-- ===== src/Prelude/Lists.antt =====
-- Lists measured by native numbers, predicates on their items, and `Array.prototype` methods.
use Prim.Native.Nat.{ℕ, zero, suc}
use mathlib.Core.Path.{◌≡◌, refl, ap, sym, ◌∙◌}
use mathlib.Core.Bool.{Bool, true, false, ◌||◌, false≢true, Bool-set}
use mathlib.Core.Option.{Option, none, some}
use mathlib.Core.Logic.{∥∥₁_elim, ◌↔◌, inl, inr}
use mathlib.Core.Logic.Or
use mathlib.Core.HLevel.{×_prop}
use mathlib.Core.List.{Perm, Permᴰ, Mem, Mem-prop, mem-cons, not-mem-nil, List, [], ◌∷◌, ◌++◌}
use native.Mathlib.Omega.{arith}
use uni_llm.Prelude.Tests.{Bool-cases, if◌then◌else◌}

module _ {ℓ} {A : Type ℓ} where
  abbrev pub length : List A → ℕ
  length [] = 0
  length (x ∷ xs) = suc (length xs)

  abbrev pub take : ℕ → List A → List A
  take zero xs = []
  take (suc n) [] = []
  take (suc n) (x ∷ xs) = x ∷ take n xs

  -- The item at a place, with the others.
  abbrev pub take_out : ℕ → List A → Option (A × List A)
  take_out n [] = none
  take_out zero (x ∷ xs) = some (x, xs)
  take_out (suc n) (x ∷ xs) = elim (take_out n xs) [ none ↦ none | some q ↦ some (q.0, x ∷ q.1) ]

  -- `xs.find(p)`
  abbrev pub find_first : (A → Bool) → List A → Option A
  find_first p [] = none
  find_first p (x ∷ xs) = if p x then some x else find_first p xs

  -- `xs.filter(p)`
  abbrev pub keep : (A → Bool) → List A → List A
  keep p [] = []
  keep p (x ∷ xs) = if p x then x ∷ keep p xs else keep p xs

  -- `xs.some(p)`
  abbrev pub is_nil : List A → Bool
  is_nil [] = true
  is_nil (x ∷ xs) = false

  abbrev pub some_of : (A → Bool) → List A → Bool
  some_of p [] = false
  some_of p (x ∷ xs) = p x || some_of p xs

  pub find_first-found :
      (p : A → Bool) (xs : List A)
      → some_of p xs ≡ true
      → (x : A) × (find_first p xs ≡ some x) × (p x ≡ true)
  find_first-found p [] h = absurd (false≢true h)
  find_first-found p (x ∷ xs) h = elim (Bool-cases (p x)) [
    | inl e ↦ rw e (x, refl, e)
    | inr e ↦ rw e (find_first-found p xs (rw e at h))
  ]

  pub append-nil_lem : (xs : List A) → xs ++ [] ≡ xs
  append-nil_lem [] = refl
  append-nil_lem (x ∷ xs) = ap (λ t. x ∷ t) (append-nil_lem xs)

abbrev pub All {ℓ κ} : {A : Type ℓ} → (A → Type κ) → List A → Type κ
All P [] = Unit
All P (x ∷ xs) = P x × All P xs

pub All-append {ℓ κ} :
    {A : Type ℓ} (P : A → Type κ) (xs ys : List A) → All P xs → All P ys → All P (xs ++ ys)
All-append P [] ys hx hy = hy
All-append P (x ∷ xs) ys hx hy = (hx.0, All-append P xs ys hx.1 hy)

pub mem-keep {ℓ} :
    {A : Type ℓ} (p : A → Bool) (a : A) (xs : List A)
    → Mem a (keep p xs) ↔ (Mem a xs × (p a ≡ true))
mem-keep p a [] = (λ m. absurd (not-mem-nil m), λ c. absurd (not-mem-nil c.0))
mem-keep p a (x ∷ xs) = elim (Bool-cases (p x)) [
  | inl hit ↦ rw hit (
    λ m.
        Or.elim (×_prop Mem-prop (Bool-set _ _)) (mem-cons.0 m)
          (λ e. (mem-cons.1 (Or.inl e), rw e hit))
          (λ i. let (j, q) = (mem-keep p a xs).0 i in (mem-cons.1 (Or.inr j), q)),
    λ c.
        Or.elim Mem-prop (mem-cons.0 c.0) (λ e. mem-cons.1 (Or.inl e))
          (λ i. mem-cons.1 (Or.inr ((mem-keep p a xs).1 (i, c.1)))),
  )
  | inr miss ↦ rw miss (
    λ m. let (j, q) = (mem-keep p a xs).0 m in (mem-cons.1 (Or.inr j), q),
    λ c.
        Or.elim Mem-prop (mem-cons.0 c.0) (λ e. absurd (false≢true (sym miss ∙ ap p (sym e) ∙ c.1)))
          (λ i. (mem-keep p a xs).1 (i, c.1)),
  )
]

pub All-imp {ℓ κ μ} :
    {A : Type ℓ} {P : A → Type κ} {Q : A → Type μ} (f : (a : A) → P a → Q a) (xs : List A)
    → All P xs
    → All Q xs
All-imp f [] h = tt
All-imp f (x ∷ xs) h = (f x h.0, All-imp f xs h.1)

Permᴰ-some_of {ℓ} :
    {A : Type ℓ} (p : A → Bool) {xs ys : List A} → Permᴰ xs ys → some_of p xs ≡ some_of p ys
Permᴰ-some_of p Permᴰ.nil = refl
Permᴰ-some_of p (Permᴰ.cons e d) = rw (e, Permᴰ-some_of p d) refl
Permᴰ-some_of p (Permᴰ.swap e f) = rw (e, f) (ground arith)
Permᴰ-some_of p (Permᴰ.trans d e) = Permᴰ-some_of p d ∙ Permᴰ-some_of p e

pub Perm-some_of {ℓ} :
    {A : Type ℓ} (p : A → Bool) {xs ys : List A} → Perm xs ys → some_of p xs ≡ some_of p ys
Perm-some_of p d = ∥∥₁_elim d (Bool-set _ _) (Permᴰ-some_of p)
