-- ===== src/Catalog.antt =====
-- The model catalog as the pages read it, and the colours of its vendors. The three pages that show it
-- (web/src/app/page.tsx, models/page.tsx and calculator/page.tsx) declare the same shape and colours.
use uni_llm.Api
use uni_llm.Prelude.{
  Bool, List, Option, String, [], false, lookup, or_else, take, text_or, true, ◌∷◌,
}
use uni_llm.Net.{Host, Session, err, ok}

-- `interface ModelInfo`, over the type of numbers.
pub record ModelInfo (Number : Type 0) : Type 0 where
  pub id : String
  pub vendor : String
  pub input_price_per_1m : Number
  pub output_price_per_1m : Number
  pub max_tokens : Number
  pub supports_stream : Bool
  pub supports_tools : Bool
  pub supports_vision : Bool

-- `VENDOR_COLORS`
abbrev pub vendor_colors : List (String × String)
vendor_colors =
    ("Anthropic", "#d97706")
    ∷ ("Google", "#2563eb")
    ∷ ("OpenAI", "#10b981")
    ∷ ("DeepSeek", "#8b5cf6")
    ∷ ("Alibaba", "#ff6a00")
    ∷ ("Meta", "#1877f2")
    ∷ ("Mistral", "#f43f5e")
    ∷ []

-- Colours of its own alone: a name that every object inherits, like `constructor`, has none here.
unfoldable pub get_vendor_color : String → String
get_vendor_color vendor = or_else (lookup vendor vendor_colors) "#737373"

-- `model.vendor || "Other"`
unfoldable pub get_vendor : {Number : Type 0} → ModelInfo Number → String
get_vendor m = text_or m.vendor "Other"

-- A loaded page of the catalog: `data.models || []`. What `data.models` holds is the parameter `read`,
-- with `none` for a falsy value.
module _ (h : Host) (read : h.Json → Option (List (ModelInfo h.Number))) where
  pub record CatalogView : Type 0 where
    pub models : List (ModelInfo h.Number)
    pub loaded : Bool

  unfoldable pub catalog_empty : CatalogView
  catalog_empty = record { models = []; loaded = false }

  -- `loadModels` of the home page and of the models page: an exception leaves the list as it is.
  unfoldable pub load_catalog : CatalogView → Session h → CatalogView × Session h
  load_catalog v s =
      let (result, s') = Api.get_model_catalog h s in
      (
        elim result [
          | ok j ↦ record { models = or_else (read j) []; loaded = true }
          | err _ ↦ record v { loaded = true }
        ],
        s',
      )

-- `models.slice(0, 6)` of the home page
unfoldable pub preview : {Number : Type 0} → List (ModelInfo Number) → List (ModelInfo Number)
preview models = take 6 models
