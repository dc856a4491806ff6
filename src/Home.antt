-- ===== src/Home.antt =====
-- What the home page of web/src/app/page.tsx shows; Catalog loads its models.
pub mod Intro
use uni_llm.Prelude.{
  Bool, List, [], false, if◌then◌else◌, is_nil, map, not, take, text_or, true, ◌++◌, ◌<+>◌, ◌∷◌,
}
use uni_llm.I18n.Shape.{Messages}
use uni_llm.Markup.{View, attr, each, flag, nothing, on, say, style, tag, when, ◌<&>◌}
use uni_llm.Double.{Double}
use uni_llm.Catalog.{ModelInfo, get_vendor, get_vendor_color, preview}
use uni_llm.Home.Intro.{HomeEvent, features_section, footer, hero, paint, stats_section}

module _ (d : Double) where
  open d use {Number}

  -- A line of the price table; `is_later` is `i > 0`.
  pub record Line : Type 0 where
    pub info : ModelInfo Number
    pub is_later : Bool

  abbrev pub lines_of : List (ModelInfo Number) → List Line
  lines_of [] = []
  lines_of (m ∷ ms) =
      record { info = m; is_later = false } ∷ map (λ x. record { info = x; is_later = true }) ms

  unfoldable pub preview_card : Messages → ModelInfo Number → View HomeEvent
  preview_card t m =
      tag "div"
        (attr "className" "rounded-xl p-5 flex flex-col gap-3"
          ∷ style (("background", "var(--card)") ∷ ("border", "1px solid var(--border)") ∷ [])
          ∷ [])
        ((tag "div" (attr "className" "flex items-start justify-between gap-2" ∷ []) (
            (tag "h3"
              (attr "className" "text-sm font-semibold leading-tight break-all font-mono" ∷ [])
              (say m.id))
            <&> (tag "span"
                (attr "className" "text-xs px-2 py-0.5 rounded-full font-medium shrink-0"
                  ∷ style (
                      ("background", ((get_vendor_color (get_vendor m)) <+> "20"))
                      ∷ ("color", get_vendor_color (get_vendor m))
                      ∷ ("border", ("1px solid " <+> (get_vendor_color (get_vendor m)) <+> "40"))
                      ∷ [])
                  ∷ [])
                (say (get_vendor m)))))
          <&> (tag "div" (attr "className" "flex gap-4 text-sm" ∷ []) (
              (tag "div" [] (
                (tag "div" (attr "className" "text-[var(--muted)] text-xs mb-0.5" ∷ [])
                  (say t.home.input))
                <&> (tag "div" (attr "className" "font-mono" ∷ []) (
                    (say "$")
                    <&> (say (d.to_fixed 2 m.input_price_per_1m))
                    <&> (tag "span" (attr "className" "text-[var(--muted)] text-xs" ∷ [])
                        ((say " ") <&> (say t.home.per_million)))))))
              <&> (tag "div" [] (
                  (tag "div" (attr "className" "text-[var(--muted)] text-xs mb-0.5" ∷ [])
                    (say t.home.output))
                  <&> (tag "div" (attr "className" "font-mono" ∷ []) (
                      (say "$")
                      <&> (say (d.to_fixed 2 m.output_price_per_1m))
                      <&> (tag "span" (attr "className" "text-[var(--muted)] text-xs" ∷ [])
                          ((say " ") <&> (say t.home.per_million))))))))))

  unfoldable pub models_section : Messages → List (ModelInfo Number) → Bool → View HomeEvent
  models_section t models loaded =
      tag "section"
        (attr "className" "border-y" ∷ style (("borderColor", "var(--border)") ∷ []) ∷ [])
        (tag "div" (attr "className" "max-w-5xl mx-auto px-6 py-20" ∷ []) (
          (tag "h2" (attr "className" "text-2xl md:text-3xl font-bold text-center mb-3" ∷ [])
            (say t.home.models_title))
          <&> (tag "p"
              (attr "className" "text-[var(--muted)] text-center mb-12 max-w-xl mx-auto" ∷ [])
              (say t.home.models_subtitle))
          <&> (if (not loaded)
              then tag "div" (attr "className" "text-center py-12 text-[var(--muted)]" ∷ [])
                  (say t.home.loading_models)
              else (if (is_nil (preview models))
                  then tag "div" (attr "className" "text-center py-12 text-[var(--muted)]" ∷ [])
                      (say t.home.no_models)
                  else (tag "div"
                      (attr "className" "grid grid-cols-1 md:grid-cols-2 lg:grid-cols-3 gap-4 mb-8"
                        ∷ [])
                      (each (preview models) (λ m. preview_card t m)))
                    <&> (tag "div" (attr "className" "text-center" ∷ []) (
                        tag "a"
                          (attr "href" "/models"
                            ∷ attr "className" "text-sm font-medium transition-colors"
                            ∷ style (("color", "var(--primary)") ∷ [])
                            ∷ [])
                          ((say t.home.view_all_models) <&> (say " →"))))))))

  unfoldable pub price_row : Line → View HomeEvent
  price_row m =
      tag "tr"
        (style ((if m.is_later then ("borderTop", "1px solid var(--border)") ∷ [] else []) ++ [])
          ∷ [])
        ((tag "td" (attr "className" "px-5 py-3.5" ∷ []) (
            (tag "span" (attr "className" "font-mono text-sm" ∷ []) (say m.info.id))
            <&> (tag "span"
                (attr "className" "ml-2 text-xs px-1.5 py-0.5 rounded"
                  ∷ style (
                      ("color", get_vendor_color (text_or m.info.vendor "Other"))
                      ∷ ("opacity", "0.8")
                      ∷ [])
                  ∷ [])
                (say (text_or m.info.vendor "Other")))))
          <&> (tag "td" (attr "className" "px-5 py-3.5 text-right font-mono" ∷ [])
              ((say "$") <&> (say (d.to_fixed 2 m.info.input_price_per_1m))))
          <&> (tag "td" (attr "className" "px-5 py-3.5 text-right font-mono" ∷ [])
              ((say "$") <&> (say (d.to_fixed 2 m.info.output_price_per_1m)))))

  unfoldable pub price_body : Messages → List (ModelInfo Number) → View HomeEvent
  price_body t models = tag "tbody" [] (
      (each (lines_of (if is_nil models then [] else take 6 models)) (λ m. price_row m))
      <&> (when (is_nil models) (
          tag "tr" [] (
            tag "td"
              (attr "colSpan" "3"
                ∷ attr "className" "px-5 py-8 text-center text-[var(--muted)]"
                ∷ [])
              (say t.home.pricing_loading)))))

  unfoldable pub pricing_section : Messages → List (ModelInfo Number) → View HomeEvent
  pricing_section t models = tag "section" (attr "className" "max-w-5xl mx-auto px-6 py-20" ∷ []) (
      (tag "h2" (attr "className" "text-2xl md:text-3xl font-bold text-center mb-3" ∷ [])
        (say t.home.pricing_title))
      <&> (tag "p" (attr "className" "text-[var(--muted)] text-center mb-12 max-w-xl mx-auto" ∷ [])
          (say t.home.pricing_subtitle))
      <&> (tag "div"
          (attr "className" "rounded-xl overflow-hidden mb-10"
            ∷ style (("background", "var(--card)") ∷ ("border", "1px solid var(--border)") ∷ [])
            ∷ [])
          (tag "table" (attr "className" "w-full text-sm" ∷ []) (
            (tag "thead" [] (
              tag "tr"
                (attr "className" "text-left text-[var(--muted)]"
                  ∷ style (("borderBottom", "1px solid var(--border)") ∷ [])
                  ∷ [])
                ((tag "th" (attr "className" "px-5 py-4 font-medium" ∷ [])
                    (say t.home.pricing_model))
                  <&> (tag "th" (attr "className" "px-5 py-4 font-medium text-right" ∷ [])
                      (say t.home.pricing_input))
                  <&> (tag "th" (attr "className" "px-5 py-4 font-medium text-right" ∷ [])
                      (say t.home.pricing_output)))))
            <&> (price_body t models))))
      <&> (tag "div" (attr "className" "text-center" ∷ []) (
          tag "a"
            (attr "href" "/login"
              ∷ attr "className"
                  "inline-block px-6 py-3 rounded-lg font-medium text-white text-sm transition-colors"
              ∷ style (("background", "var(--primary)") ∷ [])
              ∷ on "onMouseEnter" (paint "var(--primary-hover)")
              ∷ on "onMouseLeave" (paint "var(--primary)")
              ∷ [])
            (say t.home.start_free_credit))))

  unfoldable pub home_view : Messages → List (ModelInfo Number) → Bool → View HomeEvent
  home_view t models loaded = tag "div" (attr "className" "min-h-screen" ∷ []) (
      (tag "SiteHeader" (flag "sticky" true ∷ []) nothing)
      <&> (hero t)
      <&> (stats_section t)
      <&> (features_section t)
      <&> (models_section t models loaded)
      <&> (pricing_section t models)
      <&> (footer t))
