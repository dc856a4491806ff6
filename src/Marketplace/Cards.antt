-- ===== src/Marketplace/Cards.antt =====
-- The cards of the models page of web/src/app/models/page.tsx.
use mathlib.Core.List.{append-nil}
use uni_llm.Prelude.{Bool, List, String, [], ap, if◌then◌else◌, map, refl, ◌++◌, ◌∙◌, ◌∷◌, ◌≡◌}
use uni_llm.I18n.Shape.{Messages}
use uni_llm.Double.{Double}
use uni_llm.Catalog.{ModelInfo}
use uni_llm.Markup.Clicks.{
  texts_in, texts_in-beside, texts_in-beside_none, texts_in-each_none, texts_in-each_one,
  texts_in-if_else, texts_in-if_nil, texts_in-if_none,
}
use uni_llm.Marketplace.{Filters, filtered, vendors}
use uni_llm.Marketplace.View.{api_example, card, filter_bar, models_view}

module _ (d : Double) (number_text : d.Number → String) (to_lower : String → String)
    (t : Messages) where
  texts_in-card :
      (m : ModelInfo d.Number) → texts_in "h3" (card d number_text to_lower t m) ≡ m.id ∷ []
  unfolding card
  texts_in-card m =
      ap (λ l. m.id ∷ l)
        (append-nil _ ∙ append-nil _ ∙ search (texts_in-beside_none, texts_in-if_none))

  texts_in-filter_bar :
      (f : Filters) (models : List (ModelInfo d.Number))
      → texts_in "h3" (filter_bar d number_text to_lower t f models) ≡ []
  unfolding filter_bar
  texts_in-filter_bar f models = rw (texts_in-each_none "h3" (vendors models) _ (λ v. refl)) refl

  texts_in-api_example :
      (f : Filters) (models : List (ModelInfo d.Number))
      → texts_in "h3" (api_example d number_text to_lower t f models) ≡ t.models.quick_start ∷ []
  unfolding api_example
  texts_in-api_example f models = refl

  -- The titles on the models page are the identifiers of the models that pass the filters, one card each and
  -- in their order, before the title of the example; while the models are loading there is the latter alone.
  pub texts_in-models_view :
      (f : Filters) (models : List (ModelInfo d.Number)) (loading : Bool)
      → texts_in "h3" (models_view d number_text to_lower t f models loading)
        ≡ (if loading
            then []
            else map (λ (m : ModelInfo d.Number). m.id) (filtered to_lower f models))
          ++ t.models.quick_start ∷ []
  unfolding models_view
  texts_in-models_view f models loading =
      rw
        (
          append-nil,
          append-nil,
          texts_in-beside "h3" (filter_bar d number_text to_lower t f models),
          texts_in-filter_bar,
          texts_in-beside,
          texts_in-api_example,
        )
        (ap (λ l. l ++ t.models.quick_start ∷ [])
          (texts_in-if_else "h3" loading _ _ _ refl (
            texts_in-if_nil "h3" (filtered to_lower f models) _ _ _ refl (
              append-nil _
              ∙ texts_in-each_one "h3" (filtered to_lower f models) _ _ texts_in-card))))
