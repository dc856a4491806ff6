-- ===== src/UsageChart/View.antt =====
-- What web/src/components/UsageChart.tsx shows, for a page with the events `E`.
use uni_llm.Prelude.{List, String, [], if◌then◌else◌, is_nil, ◌<+>◌, ◌∷◌}
use uni_llm.I18n.Shape.{Messages}
use uni_llm.Markup.{View, attr, each, say, style, tag, ◌<&>◌}
use uni_llm.Double.{Double}
use uni_llm.UsageChart.{DailyData, bar_height, max_cost, max_reqs}

-- `number_text` is the text that a number is shown as.
module _ {E : Type 0} (d : Double) (number_text : d.Number → String) where
  open d use {to_fixed}

  unfoldable pub request_chart : Messages → List (DailyData d) → View E
  request_chart t days = tag "div" [] (
      (tag "div" (attr "className" "text-xs text-[var(--muted)] mb-2" ∷ [])
        (say t.dashboard.chart_daily_requests))
      <&> (tag "div" (attr "className" "flex items-end gap-[2px] h-24" ∷ []) (
          each days (λ day.
            tag "div"
              (attr "className" "flex-1 rounded-t transition-all group relative"
                ∷ style (
                    (
                      "height",
                      ((number_text (bar_height d (max_reqs d days) day.requests)) <+> "%"),
                    )
                    ∷ ("background", "var(--primary)")
                    ∷ ("minWidth", "4")
                    ∷ [])
                ∷ [])
              (tag "div"
                (attr "className"
                    "absolute bottom-full left-1/2 -translate-x-1/2 mb-1 hidden group-hover:block z-10"
                  ∷ [])
                (tag "div"
                  (attr "className" "px-2 py-1 rounded text-xs whitespace-nowrap"
                    ∷ style
                        (("background", "var(--card)") ∷ ("border", "1px solid var(--border)") ∷ [])
                    ∷ [])
                  ((say day.date)
                    <&> (say ": ")
                    <&> (say (number_text day.requests))
                    <&> (say " reqs"))))))))

  unfoldable pub cost_chart : Messages → List (DailyData d) → View E
  cost_chart t days = tag "div" [] (
      (tag "div" (attr "className" "text-xs text-[var(--muted)] mb-2" ∷ [])
        (say t.dashboard.chart_daily_cost))
      <&> (tag "div" (attr "className" "flex items-end gap-[2px] h-24" ∷ []) (
          each days (λ day.
            tag "div"
              (attr "className" "flex-1 rounded-t transition-all group relative"
                ∷ style (
                    ("height", ((number_text (bar_height d (max_cost d days) day.cost)) <+> "%"))
                    ∷ ("background", "var(--success)")
                    ∷ ("minWidth", "4")
                    ∷ [])
                ∷ [])
              (tag "div"
                (attr "className"
                    "absolute bottom-full left-1/2 -translate-x-1/2 mb-1 hidden group-hover:block z-10"
                  ∷ [])
                (tag "div"
                  (attr "className" "px-2 py-1 rounded text-xs whitespace-nowrap"
                    ∷ style
                        (("background", "var(--card)") ∷ ("border", "1px solid var(--border)") ∷ [])
                    ∷ [])
                  ((say day.date) <&> (say ": $") <&> (say (to_fixed 4 day.cost)))))))))

  unfoldable pub charts : Messages → List (DailyData d) → View E
  charts t days =
      tag "div" (attr "className" "space-y-4" ∷ []) ((request_chart t days) <&> (cost_chart t days))

  unfoldable pub usage_chart : Messages → List (DailyData d) → View E
  usage_chart t days =
      if is_nil days
      then tag "p" (attr "className" "text-sm text-[var(--muted)]" ∷ []) (say t.dashboard.no_usage)
      else charts t days
