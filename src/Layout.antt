-- ===== src/Layout.antt =====
-- web/src/app/layout.tsx and web/src/app/providers.tsx: the frame of every page. `ThemeProvider` is of the
-- package next-themes; `I18nProvider` is that of web/src/lib/i18n/index.tsx.
use uni_llm.Prelude.{String, [], false, true, ◌∷◌}
use uni_llm.Markup.{View, attr, flag, tag}

pub record Metadata : Type 0 where
  pub title : String
  pub description : String

abbrev pub metadata : Metadata
metadata = record {
  title = "UniLLM - Multi-Model AI API Platform";
  description = "One API for all leading AI models";
}

module _ {E : Type 0} where
  -- `Providers`
  unfoldable pub providers : View E → View E
  providers children =
      tag "ThemeProvider"
        (attr "attribute" "data-theme"
          ∷ attr "defaultTheme" "dark"
          ∷ flag "enableSystem" false
          ∷ attr "storageKey" "unillm-theme"
          ∷ [])
        (tag "I18nProvider" [] children)

  -- `RootLayout`
  unfoldable pub root_layout : View E → View E
  root_layout children =
      tag "html" (attr "lang" "en" ∷ flag "suppressHydrationWarning" true ∷ [])
        (tag "body" [] (providers children))
