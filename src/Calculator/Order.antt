-- ===== src/Calculator/Order.antt =====
-- The comparison table of web/src/app/calculator/page.tsx is ordered by cost and complete.
use mathlib.Core.List.{Perm}
use mathlib.Core.List.Perm
use uni_llm.Prelude.{All, Bool-cases, List, [], inl, inr, true, ◌∷◌, ◌≡◌}
use uni_llm.Double.{Double}
use uni_llm.Calculator.{
  CalculatorPage, Priced, costs_more, insert_priced, priced, sort_priced, sorted_models,
}

module _ (d : Double) where
  -- Each row costs at most as much as the next one.
  abbrev pub IsAscending : List (Priced d) → Type 0
  IsAscending [] = Unit
  IsAscending (x ∷ []) = Unit
  IsAscending (x ∷ y ∷ ys) = (d.le x.cost_per_req y.cost_per_req ≡ true) × IsAscending (y ∷ ys)

  abbrev pub HasFiniteCost : Priced d → Type 0
  HasFiniteCost x = d.IsFinite x.cost_per_req

  insert_priced-perm : (x : Priced d) (ys : List (Priced d)) → Perm (insert_priced d x ys) (x ∷ ys)
  unfolding insert_priced
  insert_priced-perm x [] = Perm.refl _
  insert_priced-perm x (y ∷ ys) = elim (Bool-cases (costs_more d x y)) [
    | inl e ↦ rw e (Perm.trans (Perm.cons y (insert_priced-perm x ys)) (Perm.swap x y ys))
    | inr e ↦ rw e (Perm.refl _)
  ]

  sort_priced-perm : (xs : List (Priced d)) → Perm (sort_priced d xs) xs
  unfolding sort_priced
  sort_priced-perm [] = Perm.refl _
  sort_priced-perm (x ∷ xs) =
      Perm.trans (insert_priced-perm x (sort_priced d xs)) (Perm.cons x (sort_priced-perm xs))

  insert_priced-finite :
      (x : Priced d) (ys : List (Priced d))
      → HasFiniteCost x
      → All HasFiniteCost ys
      → All HasFiniteCost (insert_priced d x ys)
  unfolding insert_priced
  insert_priced-finite x [] f g = (f, tt)
  insert_priced-finite x (y ∷ ys) f g = elim (Bool-cases (costs_more d x y)) [
    | inl e ↦ rw e (g.0, insert_priced-finite x ys f g.1)
    | inr e ↦ rw e (f, g)
  ]

  insert_priced-IsAscending :
      (x : Priced d) (ys : List (Priced d))
      → HasFiniteCost x
      → All HasFiniteCost ys
      → IsAscending ys
      → IsAscending (insert_priced d x ys)
  unfolding insert_priced
  insert_priced-IsAscending x [] f g a = tt
  insert_priced-IsAscending x (y ∷ []) f g a = elim (Bool-cases (costs_more d x y)) [
    | inl e ↦ rw e (d.sub_pos _ _ f g.0 e, tt)
    | inr e ↦ rw e (d.sub_not_pos _ _ f g.0 e, tt)
  ]
  insert_priced-IsAscending x (y ∷ z ∷ zs) f g a =
      let rest = insert_priced-IsAscending x (z ∷ zs) f g.1 a.1 in
      elim (Bool-cases (costs_more d x y)) [
        | inl e ↦ elim (Bool-cases (costs_more d x z)) [
          | inl k ↦ rw (e, k) (a.0, (rw k at rest))
          | inr k ↦ rw (e, k) (d.sub_pos _ _ f g.0 e, (d.sub_not_pos _ _ f g.1.0 k, a.1))
        ]
        | inr e ↦ rw e (d.sub_not_pos _ _ f g.0 e, a)
      ]

  sort_priced-finite :
      (xs : List (Priced d)) → All HasFiniteCost xs → All HasFiniteCost (sort_priced d xs)
  unfolding sort_priced
  sort_priced-finite [] f = tt
  sort_priced-finite (x ∷ xs) f =
      insert_priced-finite x (sort_priced d xs) f.0 (sort_priced-finite xs f.1)

  sort_priced-IsAscending :
      (xs : List (Priced d)) → All HasFiniteCost xs → IsAscending (sort_priced d xs)
  unfolding sort_priced
  sort_priced-IsAscending [] f = tt
  sort_priced-IsAscending (x ∷ xs) f =
      insert_priced-IsAscending x (sort_priced d xs) f.0 (sort_priced-finite xs f.1)
        (sort_priced-IsAscending xs f.1)

  -- If no cost overflows, the table has exactly the models of the catalog with their costs, each as often
  -- as the catalog, and no row costs more than the next.
  pub sorted_models_lem :
      (p : CalculatorPage d)
      → All HasFiniteCost (priced d p)
      → IsAscending (sorted_models d p) × Perm (sorted_models d p) (priced d p)
  unfolding sorted_models
  sorted_models_lem p f = (sort_priced-IsAscending _ f, sort_priced-perm _)
