-- ===== src/Dashboard/Panels.antt =====
-- The panels of the tabs of web/src/app/dashboard/page.tsx.
use uni_llm.Prelude.{
  List, Option, String, [], if◌then◌else◌, is_nil, map, none, some, truthy, ◌<+>◌, ◌===◌, ◌∷◌,
}
use uni_llm.I18n.Shape.{Messages}
use uni_llm.Markup.{View, attr, each, nothing, on, on_value, say, style, tag, when, ◌<&>◌}
use uni_llm.Double.{Double}
use uni_llm.Dashboard.{ApiKey, DashboardPage, Day, Summary}
use uni_llm.UsageChart.{DailyData}
use uni_llm.UsageChart.View.{usage_chart}
use uni_llm.RecentLogs.View.{log_view}
use uni_llm.Dashboard.Actions.{
  Action, create_key, delete_key, submit_password, type_key_name, type_new, type_old,
}

-- An absent colour is left out.
abbrev color_style : Option String → List (String × String)
color_style none = []
color_style (some c) = ("color", c) ∷ []

-- `number_text` is the text that a number is shown as; the others are `toLocaleString` of a number and of
-- a date, and `toLocaleDateString`.
module _ (d : Double) (number_text locale_text : d.Number → String)
    (date_text date_time_text : String → String) where
  abbrev daily_of : Day d.Number → DailyData d
  daily_of x = record { date = x.date; requests = x.requests; tokens = x.tokens; cost = x.cost }

  unfoldable pub stat_card : String → String → Option String → View (Action d.Number)
  stat_card label value color =
      tag "div"
        (attr "className" "rounded-xl p-4"
          ∷ style (("background", "var(--card)") ∷ ("border", "1px solid var(--border)") ∷ [])
          ∷ [])
        ((tag "div" (attr "className" "text-xs text-[var(--muted)] mb-1" ∷ []) (say label))
          <&> (tag "div" (attr "className" "text-xl font-bold" ∷ style (color_style color) ∷ [])
              (say value)))

  unfoldable pub stat_cards : Messages → Summary d.Number → View (Action d.Number)
  stat_cards t s = tag "div" (attr "className" "grid grid-cols-2 md:grid-cols-4 gap-4 mb-6" ∷ []) (
      (stat_card t.dashboard.stats.total_requests (locale_text s.total_requests) none)
      <&> (stat_card t.dashboard.stats.total_tokens (locale_text s.total_tokens) none)
      <&> (stat_card t.dashboard.stats.total_cost ("$" <+> d.to_fixed 4 s.total_cost) none)
      <&> (stat_card t.dashboard.stats.today_cost ("$" <+> d.to_fixed 4 s.today_cost) none)
      <&> (stat_card t.dashboard.stats.avg_latency ((d.to_fixed 1 s.avg_latency) <+> "s") none)
      <&> (stat_card t.dashboard.stats.success_rate ((d.to_fixed 1 s.success_rate) <+> "%") (
          some
            (if (d.le (d.of_nat 99) s.success_rate) then "var(--success)" else "var(--warning)"))))

  unfoldable pub model_table : Messages → DashboardPage d.Number → View (Action d.Number)
  model_table t p = tag "table" (attr "className" "w-full text-sm" ∷ []) (
      (tag "thead" [] (
        tag "tr" (attr "className" "text-left text-[var(--muted)]" ∷ []) (
          (tag "th" (attr "className" "pb-3" ∷ []) (say t.logs.col_model))
          <&> (tag "th" (attr "className" "pb-3 text-right" ∷ [])
              (say t.dashboard.stats.total_requests))
          <&> (tag "th" (attr "className" "pb-3 text-right" ∷ []) (say t.logs.col_tokens))
          <&> (tag "th" (attr "className" "pb-3 text-right" ∷ []) (say t.logs.col_cost))
          <&> (tag "th" (attr "className" "pb-3 text-right" ∷ []) (say t.logs.col_latency)))))
      <&> (tag "tbody" [] (
          each p.models (λ m.
            tag "tr"
              (attr "className" "border-t" ∷ style (("borderColor", "var(--border)") ∷ []) ∷ [])
              ((tag "td" (attr "className" "py-3 font-mono" ∷ []) (say m.model_name))
                <&> (tag "td" (attr "className" "py-3 text-right" ∷ [])
                    (say (number_text m.requests)))
                <&> (tag "td" (attr "className" "py-3 text-right" ∷ [])
                    (say (locale_text m.total_tokens)))
                <&> (tag "td" (attr "className" "py-3 text-right" ∷ [])
                    ((say "$") <&> (say (d.to_fixed 6 m.total_cost))))
                <&> (tag "td" (attr "className" "py-3 text-right" ∷ [])
                    ((say (d.to_fixed 1 m.avg_latency)) <&> (say "s"))))))))

  unfoldable pub overview_panel :
      Messages → Summary d.Number → DashboardPage d.Number → View (Action d.Number)
  overview_panel t s p =
      (stat_cards t s)
      <&> (tag "div"
          (attr "className" "rounded-xl p-5 mb-6"
            ∷ style (("background", "var(--card)") ∷ ("border", "1px solid var(--border)") ∷ [])
            ∷ [])
          ((tag "h3" (attr "className" "text-sm font-semibold mb-4 text-[var(--muted)]" ∷ [])
              (say t.dashboard.usage_trend))
            <&> (usage_chart d number_text t (map daily_of p.daily))))
      <&> (tag "div"
          (attr "className" "rounded-xl p-5"
            ∷ style (("background", "var(--card)") ∷ ("border", "1px solid var(--border)") ∷ [])
            ∷ [])
          ((tag "h3" (attr "className" "text-sm font-semibold mb-4 text-[var(--muted)]" ∷ [])
              (say t.dashboard.usage_by_model))
            <&> (if (is_nil p.models)
                then tag "p" (attr "className" "text-sm text-[var(--muted)]" ∷ [])
                    (say t.dashboard.no_usage)
                else model_table t p)))

  unfoldable pub logs_panel : Messages → DashboardPage d.Number → View (Action d.Number)
  logs_panel t p =
      tag "div"
        (attr "className" "rounded-xl p-5"
          ∷ style (("background", "var(--card)") ∷ ("border", "1px solid var(--border)") ∷ [])
          ∷ [])
        ((tag "h3" (attr "className" "text-sm font-semibold mb-4 text-[var(--muted)]" ∷ [])
            (say t.dashboard.recent_requests))
          <&> (log_view d number_text date_time_text t p.recent_logs))

  unfoldable pub key_row : Messages → ApiKey d.Number → View (Action d.Number)
  key_row t k =
      tag "tr" (attr "className" "border-t" ∷ style (("borderColor", "var(--border)") ∷ []) ∷ []) (
        (tag "td" (attr "className" "py-3" ∷ []) (say k.name))
        <&> (tag "td" (attr "className" "py-3 font-mono text-[var(--muted)]" ∷ [])
            ((say k.key_prefix) <&> (say "...")))
        <&> (tag "td" (attr "className" "py-3" ∷ []) (say k.scope))
        <&> (tag "td" (attr "className" "py-3 text-[var(--muted)]" ∷ [])
            (say (date_text k.created_at)))
        <&> (tag "td" (attr "className" "py-3 text-right" ∷ []) (
            tag "button"
              (on "onClick" (delete_key k.id)
                ∷ attr "className" "text-xs px-2 py-1 rounded"
                ∷ style (("color", "var(--danger)") ∷ [])
                ∷ [])
              (say t.common.delete))))

  unfoldable pub key_table : Messages → DashboardPage d.Number → View (Action d.Number)
  key_table t p = tag "table" (attr "className" "w-full text-sm" ∷ []) (
      (tag "thead" [] (
        tag "tr" (attr "className" "text-left text-[var(--muted)]" ∷ []) (
          (tag "th" (attr "className" "pb-3" ∷ []) (say t.dashboard.col_name))
          <&> (tag "th" (attr "className" "pb-3" ∷ []) (say t.dashboard.col_key))
          <&> (tag "th" (attr "className" "pb-3" ∷ []) (say t.dashboard.col_scope))
          <&> (tag "th" (attr "className" "pb-3" ∷ []) (say t.dashboard.col_created))
          <&> (tag "th" (attr "className" "pb-3 text-right" ∷ []) (say t.common.action)))))
      <&> (tag "tbody" [] (each p.keys (λ k. key_row t k))))

  unfoldable pub keys_panel : Messages → DashboardPage d.Number → View (Action d.Number)
  keys_panel t p =
      tag "div"
        (attr "className" "rounded-xl p-5"
          ∷ style (("background", "var(--card)") ∷ ("border", "1px solid var(--border)") ∷ [])
          ∷ [])
        ((tag "h3" (attr "className" "text-sm font-semibold mb-4 text-[var(--muted)]" ∷ [])
            (say t.dashboard.api_keys))
          <&> (tag "div" (attr "className" "flex gap-2 mb-4" ∷ []) (
              (tag "input"
                (attr "value" p.new_key_name
                  ∷ on_value "onChange" type_key_name
                  ∷ attr "placeholder" t.dashboard.key_name_placeholder
                  ∷ attr "className" "flex-1 px-3 py-2 rounded-lg text-sm outline-none"
                  ∷ style (
                      ("background", "var(--background)")
                      ∷ ("border", "1px solid var(--border)")
                      ∷ [])
                  ∷ on "onEnter" create_key
                  ∷ [])
                nothing)
              <&> (tag "button"
                  (on "onClick" create_key
                    ∷ attr "className" "px-4 py-2 rounded-lg text-sm font-medium text-white"
                    ∷ style (("background", "var(--primary)") ∷ [])
                    ∷ [])
                  (say t.common.create))))
          <&> (when (truthy p.new_key_result) (
              tag "div"
                (attr "className" "mb-4 p-3 rounded-lg text-sm"
                  ∷ style (
                      ("background", "rgba(34,197,94,0.1)")
                      ∷ ("border", "1px solid var(--success)")
                      ∷ [])
                  ∷ [])
                ((tag "p"
                    (attr "className" "mb-1 font-medium"
                      ∷ style (("color", "var(--success)") ∷ [])
                      ∷ [])
                    (say t.dashboard.key_created_hint))
                  <&> (tag "code" (attr "className" "block font-mono text-xs break-all" ∷ [])
                      (say p.new_key_result)))))
          <&> (if (is_nil p.keys)
              then tag "p" (attr "className" "text-sm text-[var(--muted)]" ∷ [])
                  (say t.dashboard.no_api_keys)
              else key_table t p))

  unfoldable pub settings_panel : Messages → DashboardPage d.Number → View (Action d.Number)
  settings_panel t p =
      tag "div"
        (attr "className" "rounded-xl p-5 max-w-md"
          ∷ style (("background", "var(--card)") ∷ ("border", "1px solid var(--border)") ∷ [])
          ∷ [])
        ((tag "h3" (attr "className" "text-sm font-semibold mb-4 text-[var(--muted)]" ∷ [])
            (say t.dashboard.change_password))
          <&> (tag "div" (attr "className" "flex flex-col gap-3" ∷ []) (
              (tag "input"
                (attr "type" "password"
                  ∷ attr "value" p.old_pwd
                  ∷ on_value "onChange" type_old
                  ∷ attr "placeholder" t.dashboard.current_password
                  ∷ attr "className" "px-3 py-2 rounded-lg text-sm outline-none"
                  ∷ style (
                      ("background", "var(--background)")
                      ∷ ("border", "1px solid var(--border)")
                      ∷ [])
                  ∷ [])
                nothing)
              <&> (tag "input"
                  (attr "type" "password"
                    ∷ attr "value" p.new_pwd
                    ∷ on_value "onChange" type_new
                    ∷ attr "placeholder" t.dashboard.new_password
                    ∷ attr "className" "px-3 py-2 rounded-lg text-sm outline-none"
                    ∷ style (
                        ("background", "var(--background)")
                        ∷ ("border", "1px solid var(--border)")
                        ∷ [])
                    ∷ [])
                  nothing)
              <&> (tag "button"
                  (on "onClick" submit_password
                    ∷ attr "className" "px-4 py-2 rounded-lg text-sm font-medium text-white w-fit"
                    ∷ style (("background", "var(--primary)") ∷ [])
                    ∷ [])
                  (say t.dashboard.update_password))
              <&> (when (truthy p.pwd_msg) (
                  tag "p"
                    (attr "className" "text-sm"
                      ∷ style (
                          (
                            "color",
                            (if (p.pwd_msg === t.dashboard.password_changed)
                                then "var(--success)"
                                else "var(--danger)"),
                          )
                          ∷ [])
                      ∷ [])
                    (say p.pwd_msg))))))
