-- ===== src/Calculator/View.antt =====
-- What the calculator page of web/src/app/calculator/page.tsx shows.
use uni_llm.Prelude.{String, [], if◌then◌else◌, text_or, ◌++◌, ◌<+>◌, ◌===◌, ◌∷◌}
use uni_llm.I18n.Shape.{Messages}
use uni_llm.Markup.{View, attr, each, nothing, on, on_value, say, style, tag, ◌<&>◌}
use uni_llm.Double.{Double}
use uni_llm.Catalog.{get_vendor_color}
use uni_llm.Calculator.{
  CalculatorPage, Edit, Priced, cost_per_request, daily_cost, format_cost, input, monthly_cost,
  output, requests, select_model, sorted_models, yearly_cost,
}

-- `number_text` is the text that a number is shown as.
module _ (d : Double) (number_text : d.Number → String) where
  open d use {Number, mul, of_nat, to_fixed}

  -- `m.costPerReq * requestsPerDay`
  abbrev daily_of : CalculatorPage d → Priced d → Number
  daily_of p m = mul m.cost_per_req p.requests_per_day

  abbrev vendor_color : Priced d → String
  vendor_color m = get_vendor_color (text_or m.info.vendor "Other")

  unfoldable pub fields : Messages → CalculatorPage d → View (Edit d)
  fields t p =
      tag "div" (attr "className" "grid grid-cols-1 md:grid-cols-2 lg:grid-cols-4 gap-4 mb-6" ∷ [])
        ((tag "div" [] (
            (tag "label" (attr "className" "text-xs text-[var(--muted)] mb-1.5 block" ∷ [])
              (say t.calculator.select_model))
            <&> (tag "select"
                (attr "value" p.selected_model_id
                  ∷ on_value "onChange" select_model
                  ∷ attr "className"
                      "w-full px-3 py-2 rounded-lg text-sm outline-none cursor-pointer"
                  ∷ style (
                      ("background", "var(--background)")
                      ∷ ("border", "1px solid var(--border)")
                      ∷ ("color", "var(--foreground)")
                      ∷ [])
                  ∷ [])
                (each p.models (λ m.
                  tag "option" (attr "value" m.id ∷ [])
                    ((say m.id) <&> (say " (") <&> (say m.vendor) <&> (say ")")))))))
          <&> (tag "div" [] (
              (tag "label" (attr "className" "text-xs text-[var(--muted)] mb-1.5 block" ∷ [])
                (say t.calculator.input_tokens_per_request))
              <&> (tag "input"
                  (attr "type" "number"
                    ∷ attr "min" "0"
                    ∷ attr "value" (number_text p.input_tokens)
                    ∷ on_value "onChange" input
                    ∷ attr "className" "w-full px-3 py-2 rounded-lg text-sm outline-none"
                    ∷ style (
                        ("background", "var(--background)")
                        ∷ ("border", "1px solid var(--border)")
                        ∷ ("color", "var(--foreground)")
                        ∷ [])
                    ∷ [])
                  nothing)))
          <&> (tag "div" [] (
              (tag "label" (attr "className" "text-xs text-[var(--muted)] mb-1.5 block" ∷ [])
                (say t.calculator.output_tokens_per_request))
              <&> (tag "input"
                  (attr "type" "number"
                    ∷ attr "min" "0"
                    ∷ attr "value" (number_text p.output_tokens)
                    ∷ on_value "onChange" output
                    ∷ attr "className" "w-full px-3 py-2 rounded-lg text-sm outline-none"
                    ∷ style (
                        ("background", "var(--background)")
                        ∷ ("border", "1px solid var(--border)")
                        ∷ ("color", "var(--foreground)")
                        ∷ [])
                    ∷ [])
                  nothing)))
          <&> (tag "div" [] (
              (tag "label" (attr "className" "text-xs text-[var(--muted)] mb-1.5 block" ∷ [])
                (say t.calculator.requests_per_day))
              <&> (tag "input"
                  (attr "type" "number"
                    ∷ attr "min" "0"
                    ∷ attr "value" (number_text p.requests_per_day)
                    ∷ on_value "onChange" requests
                    ∷ attr "className" "w-full px-3 py-2 rounded-lg text-sm outline-none"
                    ∷ style (
                        ("background", "var(--background)")
                        ∷ ("border", "1px solid var(--border)")
                        ∷ ("color", "var(--foreground)")
                        ∷ [])
                    ∷ [])
                  nothing))))

  unfoldable pub results : Messages → CalculatorPage d → View (Edit d)
  results t p = tag "div" (attr "className" "grid grid-cols-2 md:grid-cols-4 gap-4" ∷ []) (
      (tag "div"
        (attr "className" "rounded-lg p-4" ∷ style (("background", "var(--background)") ∷ []) ∷ [])
        ((tag "div" (attr "className" "text-xs text-[var(--muted)] mb-1" ∷ [])
            (say t.calculator.cost_per_request))
          <&> (tag "div" (attr "className" "text-lg font-mono font-semibold" ∷ [])
              (say (format_cost d (cost_per_request d p))))))
      <&> (tag "div"
          (attr "className" "rounded-lg p-4"
            ∷ style (("background", "var(--background)") ∷ [])
            ∷ [])
          ((tag "div" (attr "className" "text-xs text-[var(--muted)] mb-1" ∷ [])
              (say t.calculator.daily_cost))
            <&> (tag "div" (attr "className" "text-lg font-mono font-semibold" ∷ [])
                (say (format_cost d (daily_cost d p))))))
      <&> (tag "div"
          (attr "className" "rounded-lg p-4"
            ∷ style (("background", "var(--background)") ∷ [])
            ∷ [])
          ((tag "div" (attr "className" "text-xs text-[var(--muted)] mb-1" ∷ [])
              (say t.calculator.monthly_cost))
            <&> (tag "div"
                (attr "className" "text-lg font-mono font-semibold text-[var(--primary)]" ∷ [])
                (say (format_cost d (monthly_cost d p))))))
      <&> (tag "div"
          (attr "className" "rounded-lg p-4"
            ∷ style (("background", "var(--background)") ∷ [])
            ∷ [])
          ((tag "div" (attr "className" "text-xs text-[var(--muted)] mb-1" ∷ [])
              (say t.calculator.yearly_cost))
            <&> (tag "div" (attr "className" "text-lg font-mono font-semibold" ∷ [])
                (say (format_cost d (yearly_cost d p)))))))

  unfoldable pub model_row : Messages → CalculatorPage d → Priced d → View (Edit d)
  model_row t p m =
      tag "tr"
        (attr "className" "cursor-pointer hover:bg-[var(--background)] transition-colors"
          ∷ style (
              ("borderBottom", "1px solid var(--border)")
                ∷ (if (m.info.id === p.selected_model_id)
                    then ("background", "var(--primary)10") ∷ []
                    else [])
              ++ ((
                "borderLeft",
                (if (m.info.id === p.selected_model_id)
                    then "3px solid var(--primary)"
                    else "3px solid transparent"),
              )
                  ∷ []))
          ∷ on "onClick" (select_model m.info.id)
          ∷ [])
        ((tag "td" (attr "className" "px-5 py-2.5 font-medium" ∷ []) (say m.info.id))
          <&> (tag "td" (attr "className" "px-5 py-2.5" ∷ []) (
              tag "span"
                (attr "className" "text-xs px-2 py-0.5 rounded-full font-medium"
                  ∷ style (
                      ("background", ((vendor_color m) <+> "20"))
                      ∷ ("color", vendor_color m)
                      ∷ ("border", ("1px solid " <+> (vendor_color m) <+> "40"))
                      ∷ [])
                  ∷ [])
                (say (text_or m.info.vendor "Other"))))
          <&> (tag "td" (attr "className" "px-5 py-2.5 text-right font-mono" ∷ [])
              ((say "$") <&> (say (to_fixed 2 m.info.input_price_per_1m))))
          <&> (tag "td" (attr "className" "px-5 py-2.5 text-right font-mono" ∷ [])
              ((say "$") <&> (say (to_fixed 2 m.info.output_price_per_1m))))
          <&> (tag "td" (attr "className" "px-5 py-2.5 text-right font-mono" ∷ [])
              (say (format_cost d m.cost_per_req)))
          <&> (tag "td" (attr "className" "px-5 py-2.5 text-right font-mono" ∷ [])
              (say (format_cost d (daily_of p m))))
          <&> (tag "td" (attr "className" "px-5 py-2.5 text-right font-mono" ∷ [])
              (say (format_cost d (mul (daily_of p m) (of_nat 30))))))

  unfoldable pub comparison : Messages → CalculatorPage d → View (Edit d)
  comparison t p =
      tag "div"
        (attr "className" "rounded-xl overflow-hidden"
          ∷ style (("background", "var(--card)") ∷ ("border", "1px solid var(--border)") ∷ [])
          ∷ [])
        ((tag "div" (attr "className" "px-5 py-4" ∷ []) (
            tag "h3" (attr "className" "text-sm font-semibold" ∷ [])
              (say t.calculator.compare_title)))
          <&> (tag "div" (attr "className" "overflow-x-auto" ∷ []) (
              tag "table" (attr "className" "w-full text-sm" ∷ []) (
                (tag "thead" [] (
                  tag "tr"
                    (attr "className" "text-xs text-[var(--muted)] text-left"
                      ∷ style (
                          ("borderTop", "1px solid var(--border)")
                          ∷ ("borderBottom", "1px solid var(--border)")
                          ∷ [])
                      ∷ [])
                    ((tag "th" (attr "className" "px-5 py-2.5 font-medium" ∷ [])
                        (say t.calculator.col_model))
                      <&> (tag "th" (attr "className" "px-5 py-2.5 font-medium" ∷ [])
                          (say t.calculator.col_vendor))
                      <&> (tag "th" (attr "className" "px-5 py-2.5 font-medium text-right" ∷ [])
                          (say t.calculator.col_input))
                      <&> (tag "th" (attr "className" "px-5 py-2.5 font-medium text-right" ∷ [])
                          (say t.calculator.col_output))
                      <&> (tag "th" (attr "className" "px-5 py-2.5 font-medium text-right" ∷ [])
                          (say t.calculator.col_per_request))
                      <&> (tag "th" (attr "className" "px-5 py-2.5 font-medium text-right" ∷ [])
                          (say t.calculator.col_daily))
                      <&> (tag "th" (attr "className" "px-5 py-2.5 font-medium text-right" ∷ [])
                          (say t.calculator.col_monthly)))))
                <&> (tag "tbody" [] (each (sorted_models d p) (λ m. model_row t p m)))))))

  unfoldable pub calculator_view : Messages → CalculatorPage d → View (Edit d)
  calculator_view t p = tag "div" (attr "className" "min-h-screen" ∷ []) (
      (tag "SiteHeader" (attr "activeNav" "calculator" ∷ []) nothing)
      <&> (tag "div" (attr "className" "max-w-6xl mx-auto p-6" ∷ []) (
          (tag "div" (attr "className" "mb-6" ∷ []) (
            (tag "h2" (attr "className" "text-2xl font-bold mb-1" ∷ []) (say t.calculator.title))
            <&> (tag "p" (attr "className" "text-[var(--muted)] text-sm" ∷ [])
                (say t.calculator.subtitle))))
          <&> (if p.loading
              then tag "div" (attr "className" "text-center py-20 text-[var(--muted)]" ∷ [])
                  (say t.calculator.loading)
              else (tag "div"
                  (attr "className" "rounded-xl p-6 mb-6"
                    ∷ style
                        (("background", "var(--card)") ∷ ("border", "1px solid var(--border)") ∷ [])
                    ∷ [])
                  ((fields t p) <&> (results t p)))
                <&> (comparison t p)))))
