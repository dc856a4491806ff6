-- ===== src/Playground/Choice.antt =====
-- The model that the page of web/src/app/playground/page.tsx has chosen when its list arrives.
use text.Mathlib.TextPositions.{eq_refl}
use uni_llm.Prelude.{
  Bool-cases, List, String, [], ap, false, if◌then◌else◌, inl, inr, refl, true, ◌∙◌, ◌∷◌, ◌≡◌, ◌⊎◌,
}
use uni_llm.I18n.Shape.{Messages}
use uni_llm.Playground.{Page, list_includes, load_models, models_loaded, pick_model, run, step}

kept_or_first :
    (m i : String) (ids : List String)
    → list_includes (if list_includes m (i ∷ ids) then m else i) (i ∷ ids) ≡ true
kept_or_first m i ids = elim (Bool-cases (list_includes m (i ∷ ids))) [
  | inl e ↦ ap (λ b. list_includes (if b then m else i) (i ∷ ids)) e ∙ e
  | inr e ↦ ap (λ b. list_includes (if b then m else i) (i ∷ ids)) e ∙ rw (eq_refl i)
]

-- If the chosen model has not changed since the list was asked for, it is on the list once that has
-- arrived, unless the list is empty, when it stays as it was.
pub load_models-IsListed :
    (ids : List String) (p : Page)
    → ((ids ≡ []) × ((load_models p.model ids p).model ≡ p.model))
      ⊎ (list_includes (load_models p.model ids p).model ids ≡ true)
unfolding load_models
load_models-IsListed [] p = inl (refl, refl)
load_models-IsListed (i ∷ ids) p = inr (kept_or_first p.model i ids)

-- A model that the user picks while the list is loading is replaced by the first of the list, even if it
-- is on the list itself, when the model chosen before is not.
pub stale_choice_lost :
    (t : Messages) (content_of : String → String) (picked captured i : String) (ids : List String)
    (p : Page)
    → list_includes captured (i ∷ ids) ≡ false
    → (run t content_of (pick_model picked ∷ models_loaded captured (i ∷ ids) ∷ []) p).model ≡ i
unfolding run step load_models
stale_choice_lost t content_of picked captured i ids p e = rw e
