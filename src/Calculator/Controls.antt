-- ===== src/Calculator/Controls.antt =====
-- What can be pressed on the calculator page of web/src/app/calculator/page.tsx.
use mathlib.Core.List.{append-nil}
use uni_llm.Prelude.{String, [], if◌then◌else◌, map, refl, ◌∷◌, ◌≡◌}
use uni_llm.I18n.Shape.{Messages}
use uni_llm.Double.{Double}
use uni_llm.Markup.Clicks.{clicks, clicks-beside, clicks-each_none, clicks-each_one, clicks-if_else}
use uni_llm.Calculator.{CalculatorPage, Priced, select_model, sorted_models}
use uni_llm.Calculator.View.{calculator_view, comparison, fields, model_row, results}

module _ (d : Double) (number_text : d.Number → String) (t : Messages) where
  clicks-fields : (p : CalculatorPage d) → clicks (fields d number_text t p) ≡ []
  unfolding fields
  clicks-fields p = rw (clicks-each_none p.models _ (λ m. refl)) refl

  clicks-results : (p : CalculatorPage d) → clicks (results d number_text t p) ≡ []
  unfolding results
  clicks-results p = refl

  clicks-model_row :
      (p : CalculatorPage d) (m : Priced d)
      → clicks (model_row d number_text t p m) ≡ select_model m.info.id ∷ []
  unfolding model_row
  clicks-model_row p m = refl

  clicks-comparison :
      (p : CalculatorPage d)
      → clicks (comparison d number_text t p)
        ≡ map (λ (m : Priced d). select_model m.info.id) (sorted_models d p)
  unfolding comparison
  clicks-comparison p =
      rw (append-nil, append-nil, append-nil, append-nil)
        (clicks-each_one (sorted_models d p) _ _ (clicks-model_row p))

  -- On the calculator page, once the models have come or failed to come, what can be clicked below the
  -- header are the rows of the comparison, in the order of their costs, and each row selects its own model.
  -- While the models are loading there is nothing to click on.
  pub clicks-calculator_view :
      (p : CalculatorPage d)
      → clicks (calculator_view d number_text t p) ≡ (
          if p.loading
          then []
          else map (λ (m : Priced d). select_model m.info.id) (sorted_models d p))
  unfolding calculator_view
  clicks-calculator_view p =
      rw (append-nil, append-nil)
        (clicks-if_else p.loading _ _ _ refl (
          rw (clicks-beside (fields d number_text t p), clicks-fields, clicks-results)
            (clicks-comparison p)))
