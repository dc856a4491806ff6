-- ===== src/Calculator/Selection.antt =====
-- The selected model of web/src/app/calculator/page.tsx.
use text.Mathlib.TextPositions.{eq_refl}
use uni_llm.Prelude.{
  List, [], find_first-found, inl, inr, none, refl, some_of, true, ◌===◌, ◌∷◌, ◌≡◌, ◌≢◌, ◌⊎◌,
}
use uni_llm.Double.{Double}
use uni_llm.Catalog.{ModelInfo}
use uni_llm.Calculator.{CalculatorPage, Edit, edit, receive_models, selected_model}
use uni_llm.Net.{ok}

module _ (d : Double) where
  -- The model that is selected is one of the list, or the list is empty.
  abbrev pub HasSelection : CalculatorPage d → Type 0
  HasSelection p = (p.models ≡ []) ⊎ (selected_model d p ≢ none)

  -- The controls offer the identifiers of listed models only.
  abbrev pub IsOffered : Edit d → CalculatorPage d → Type 0
  IsOffered (Edit.select_model id) p = some_of (λ m. m.id === id) p.models ≡ true
  IsOffered _ p = Unit

  receive_models-HasSelection :
      (models : List (ModelInfo d.Number)) (p : CalculatorPage d)
      → HasSelection (receive_models d (ok models) p)
  unfolding receive_models selected_model
  receive_models-HasSelection [] p = inl refl
  receive_models-HasSelection (m ∷ ms) p = inr (rw (eq_refl m.id) (λ e. cc))

  edit-HasSelection :
      (e : Edit d) (p : CalculatorPage d)
      → IsOffered e p
      → HasSelection p
      → HasSelection (edit d e p)
  unfolding edit selected_model
  edit-HasSelection (Edit.select_model id) p o h =
      let (m, found, same) = find_first-found (λ m. m.id === id) p.models o in
      inr (rw found (λ e. cc))
  edit-HasSelection (Edit.input v) p o h = h
  edit-HasSelection (Edit.output v) p o h = h
  edit-HasSelection (Edit.requests v) p o h = h

  unfoldable pub edit_all : List (Edit d) → CalculatorPage d → CalculatorPage d
  edit_all [] p = p
  edit_all (e ∷ es) p = edit_all es (edit d e p)

  -- Each edit of the list is offered by the page at hand.
  abbrev pub AreOffered : List (Edit d) → CalculatorPage d → Type 0
  AreOffered [] p = Unit
  AreOffered (e ∷ es) p = IsOffered e p × AreOffered es (edit d e p)

  edit_all-HasSelection :
      (es : List (Edit d)) (p : CalculatorPage d)
      → AreOffered es p
      → HasSelection p
      → HasSelection (edit_all es p)
  unfolding edit_all
  edit_all-HasSelection [] p o h = h
  edit_all-HasSelection (e ∷ es) p o h =
      edit_all-HasSelection es (edit d e p) o.1 (edit-HasSelection e p o.0 h)

  -- After the catalog has been loaded and through any edits that the controls offer, some listed model is
  -- selected, unless the catalog is empty.
  pub loaded-HasSelection :
      (models : List (ModelInfo d.Number)) (es : List (Edit d)) (p : CalculatorPage d)
      → AreOffered es (receive_models d (ok models) p)
      → HasSelection (edit_all es (receive_models d (ok models) p))
  loaded-HasSelection models es p o =
      edit_all-HasSelection es (receive_models d (ok models) p) o
        (receive_models-HasSelection models p)
