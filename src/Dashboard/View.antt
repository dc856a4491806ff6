-- ===== src/Dashboard/View.antt =====
-- What the dashboard of web/src/app/dashboard/page.tsx shows.
use uni_llm.Prelude.{String, [], if◌then◌else◌, none, some, ◌<+>◌, ◌∷◌}
use uni_llm.I18n.Shape.{Messages}
use uni_llm.Markup.{View, attr, each, nothing, on, say, style, tag, when, ◌<&>◌}
use uni_llm.Double.{Double}
use uni_llm.Dashboard.{DashboardPage, Summary, Tab}
use uni_llm.Dashboard.Panels.{keys_panel, logs_panel, overview_panel, settings_panel}
use uni_llm.Dashboard.Actions.{Action, is_tab, show_tab, tabs}

-- `number_text` is the text that a number is shown as; the others are `toLocaleString` of a number and of
-- a date, and `toLocaleDateString`.
module _ (d : Double) (number_text locale_text : d.Number → String)
    (date_text date_time_text : String → String) where
  unfoldable pub tab_bar : Messages → DashboardPage d.Number → View (Action d.Number)
  tab_bar t p = tag "div" (attr "className" "flex gap-4 mb-6" ∷ []) (
      each tabs (λ tab_key.
        tag "button"
          (on "onClick" (show_tab tab_key)
            ∷ attr "className" "px-4 py-2 rounded-lg text-sm font-medium transition-colors"
            ∷ style (
                ("background", (if (is_tab p.tab tab_key) then "var(--primary)" else "var(--card)"))
                ∷ (
                  "border",
                  ("1px solid "
                      <+> ((if (is_tab p.tab tab_key) then "var(--primary)" else "var(--border)"))),
                )
                ∷ [])
            ∷ [])
          (say (
            if (is_tab tab_key Tab.overview)
            then t.dashboard.tabs.overview
            else (if (is_tab tab_key Tab.logs)
                then t.dashboard.tabs.logs
                else (if (is_tab tab_key Tab.keys)
                    then t.dashboard.tabs.keys
                    else t.dashboard.tabs.settings))))))

  unfoldable pub loaded_view :
      Messages → Summary d.Number → DashboardPage d.Number → View (Action d.Number)
  loaded_view t s p = tag "div" (attr "className" "min-h-screen" ∷ []) (
      (tag "SiteHeader" (attr "balance" (number_text s.balance) ∷ []) nothing)
      <&> (tag "div" (attr "className" "max-w-6xl mx-auto p-6" ∷ []) (
          (tab_bar t p)
          <&> (when (is_tab p.tab Tab.overview)
              (overview_panel d number_text locale_text date_text date_time_text t s p))
          <&> (when (is_tab p.tab Tab.logs)
              (logs_panel d number_text locale_text date_text date_time_text t p))
          <&> (when (is_tab p.tab Tab.keys)
              (keys_panel d number_text locale_text date_text date_time_text t p))
          <&> (when (is_tab p.tab Tab.settings)
              (settings_panel d number_text locale_text date_text date_time_text t p)))))

  unfoldable pub loading_view : Messages → View (Action d.Number)
  loading_view t =
      tag "div" (attr "className" "min-h-screen flex items-center justify-center" ∷ [])
        (tag "div" (attr "className" "text-[var(--muted)]" ∷ []) (say t.common.loading))

  unfoldable pub dashboard_view : Messages → DashboardPage d.Number → View (Action d.Number)
  dashboard_view t p = elim p.summary [ none ↦ loading_view t | some s ↦ loaded_view t s p ]
