-- ===== src/Marketplace/View.antt =====
-- What the models page of web/src/app/models/page.tsx shows.
use uni_llm.Prelude.{Bool, List, String, [], if◌then◌else◌, is_nil, text_or, ◌<+>◌, ◌∷◌}
use uni_llm.I18n.Shape.{Messages}
use uni_llm.Markup.{View, attr, each, nothing, on_value, say, style, tag, when, ◌<&>◌}
use uni_llm.Double.{Double}
use uni_llm.Catalog.{ModelInfo, get_vendor, get_vendor_color}
use uni_llm.Marketplace.{
  Choice, Filters, filtered, set_capability, set_search, set_vendor, subtitle, vendors,
}

-- `filtered[0]?.id || …`
abbrev first_shown : {Number : Type 0} → List (ModelInfo Number) → String
first_shown [] = "claude-sonnet-4-6"
first_shown (m ∷ ms) = text_or m.id "claude-sonnet-4-6"

-- `number_text` is the text that a number is shown as.
module _ (d : Double) (number_text : d.Number → String) (to_lower : String → String) where
  open d use {Number, of_nat, to_fixed}

  unfoldable pub filter_bar : Messages → Filters → List (ModelInfo Number) → View Choice
  filter_bar t f models = tag "div" (attr "className" "flex flex-wrap gap-3 mb-6" ∷ []) (
      (tag "input"
        (attr "type" "text"
          ∷ attr "placeholder" t.models.search_placeholder
          ∷ attr "value" f.search
          ∷ on_value "onChange" set_search
          ∷ attr "className" "px-3 py-2 rounded-lg text-sm flex-1 min-w-[200px] outline-none"
          ∷ style (
              ("background", "var(--card)")
              ∷ ("border", "1px solid var(--border)")
              ∷ ("color", "var(--foreground)")
              ∷ [])
          ∷ [])
        nothing)
      <&> (tag "select"
          (attr "value" f.vendor_filter
            ∷ on_value "onChange" set_vendor
            ∷ attr "className" "px-3 py-2 rounded-lg text-sm outline-none cursor-pointer"
            ∷ style (
                ("background", "var(--card)")
                ∷ ("border", "1px solid var(--border)")
                ∷ ("color", "var(--foreground)")
                ∷ [])
            ∷ [])
          ((tag "option" (attr "value" "all" ∷ []) (say t.models.all_vendors))
            <&> (each (vendors models) (λ v. tag "option" (attr "value" v ∷ []) (say v)))))
      <&> (tag "select"
          (attr "value" f.cap_filter
            ∷ on_value "onChange" set_capability
            ∷ attr "className" "px-3 py-2 rounded-lg text-sm outline-none cursor-pointer"
            ∷ style (
                ("background", "var(--card)")
                ∷ ("border", "1px solid var(--border)")
                ∷ ("color", "var(--foreground)")
                ∷ [])
            ∷ [])
          ((tag "option" (attr "value" "all" ∷ []) (say t.models.all_capabilities))
            <&> (tag "option" (attr "value" "vision" ∷ []) (say t.models.vision))
            <&> (tag "option" (attr "value" "tools" ∷ []) (say t.models.tools))
            <&> (tag "option" (attr "value" "stream" ∷ []) (say t.models.streaming)))))

  unfoldable pub card : Messages → ModelInfo Number → View Choice
  card t m =
      tag "div"
        (attr "className"
            "rounded-xl p-5 flex flex-col gap-3 hover:border-[var(--primary)] transition-colors"
          ∷ style (("background", "var(--card)") ∷ ("border", "1px solid var(--border)") ∷ [])
          ∷ [])
        ((tag "div" (attr "className" "flex items-start justify-between gap-2" ∷ []) (
            (tag "h3" (attr "className" "text-base font-semibold leading-tight break-all" ∷ [])
              (say m.id))
            <&> (tag "span"
                (attr "className" "text-xs px-2 py-0.5 rounded-full font-medium shrink-0"
                  ∷ style (
                      ("background", ((get_vendor_color (get_vendor m)) <+> "20"))
                      ∷ ("color", get_vendor_color (get_vendor m))
                      ∷ ("border", ("1px solid " <+> (get_vendor_color (get_vendor m)) <+> "40"))
                      ∷ [])
                  ∷ [])
                (say (get_vendor m)))))
          <&> (tag "div" (attr "className" "flex gap-4 text-sm" ∷ []) (
              (tag "div" [] (
                (tag "div" (attr "className" "text-[var(--muted)] text-xs mb-0.5" ∷ [])
                  (say t.models.input))
                <&> (tag "div" (attr "className" "font-mono" ∷ []) (
                    (say "$")
                    <&> (say (to_fixed 2 m.input_price_per_1m))
                    <&> (tag "span" (attr "className" "text-[var(--muted)] text-xs" ∷ [])
                        (say " /1M"))))))
              <&> (tag "div" [] (
                  (tag "div" (attr "className" "text-[var(--muted)] text-xs mb-0.5" ∷ [])
                    (say t.models.output))
                  <&> (tag "div" (attr "className" "font-mono" ∷ []) (
                      (say "$")
                      <&> (say (to_fixed 2 m.output_price_per_1m))
                      <&> (tag "span" (attr "className" "text-[var(--muted)] text-xs" ∷ [])
                          (say " /1M"))))))
              <&> (tag "div" [] (
                  (tag "div" (attr "className" "text-[var(--muted)] text-xs mb-0.5" ∷ [])
                    (say t.models.max_tokens))
                  <&> (tag "div" (attr "className" "font-mono" ∷ []) (
                      say (
                        if d.le (of_nat 1000) m.max_tokens
                        then to_fixed 0 (d.div m.max_tokens (of_nat 1000)) <+> "K"
                        else number_text m.max_tokens)))))))
          <&> (tag "div" (attr "className" "flex flex-wrap gap-1.5 mt-auto" ∷ []) (
              (when m.supports_stream (
                tag "span"
                  (attr "className" "text-xs px-2 py-0.5 rounded"
                    ∷ style (
                        ("background", "var(--success)15")
                        ∷ ("color", "var(--success)")
                        ∷ ("border", "1px solid var(--success)30")
                        ∷ [])
                    ∷ [])
                  (say t.models.streaming)))
              <&> (when m.supports_tools (
                  tag "span"
                    (attr "className" "text-xs px-2 py-0.5 rounded"
                      ∷ style (
                          ("background", "var(--primary)15")
                          ∷ ("color", "var(--primary)")
                          ∷ ("border", "1px solid var(--primary)30")
                          ∷ [])
                      ∷ [])
                    (say t.models.tools)))
              <&> (when m.supports_vision (
                  tag "span"
                    (attr "className" "text-xs px-2 py-0.5 rounded"
                      ∷ style (
                          ("background", "var(--warning)15")
                          ∷ ("color", "var(--warning)")
                          ∷ ("border", "1px solid var(--warning)30")
                          ∷ [])
                      ∷ [])
                    (say t.models.vision))))))

  unfoldable pub api_example : Messages → Filters → List (ModelInfo Number) → View Choice
  api_example t f models =
      tag "div"
        (attr "className" "mt-8 rounded-xl p-5"
          ∷ style (("background", "var(--card)") ∷ ("border", "1px solid var(--border)") ∷ [])
          ∷ [])
        ((tag "h3" (attr "className" "text-sm font-semibold mb-3" ∷ []) (say t.models.quick_start))
          <&> (tag "pre"
              (attr "className" "text-xs overflow-x-auto p-4 rounded-lg"
                ∷ style (("background", "var(--background)") ∷ [])
                ∷ [])
              (say (
                "curl https://your-domain.com/v1/chat/completions \\\n  -H \"Authorization: Bearer YOUR_API_KEY\" \\\n  -H \"Content-Type: application/json\" \\\n  -d '{\n    \"model\": \""
                <+> (first_shown (filtered to_lower f models))
                <+> "\",\n    \"messages\": [{\"role\": \"user\", \"content\": \"Hello!\"}]\n  }'"))))

  unfoldable pub models_view : Messages → Filters → List (ModelInfo Number) → Bool → View Choice
  models_view t f models loading = tag "div" (attr "className" "min-h-screen" ∷ []) (
      (tag "SiteHeader" (attr "activeNav" "models" ∷ []) nothing)
      <&> (tag "div" (attr "className" "max-w-6xl mx-auto p-6" ∷ []) (
          (tag "div" (attr "className" "mb-6" ∷ []) (
            (tag "h2" (attr "className" "text-2xl font-bold mb-1" ∷ []) (say t.models.title))
            <&> (tag "p" (attr "className" "text-[var(--muted)] text-sm" ∷ [])
                (say (subtitle t models)))))
          <&> (filter_bar t f models)
          <&> (if loading
              then tag "div" (attr "className" "text-center py-20 text-[var(--muted)]" ∷ [])
                  (say t.models.loading)
              else (if (is_nil (filtered to_lower f models))
                  then tag "div" (attr "className" "text-center py-20 text-[var(--muted)]" ∷ [])
                      (say t.models.no_results)
                  else tag "div"
                      (attr "className" "grid grid-cols-1 md:grid-cols-2 lg:grid-cols-3 gap-4" ∷ [])
                      (each (filtered to_lower f models) (λ m. card t m))))
          <&> (api_example t f models))))
