-- ===== src/Dashboard/Controls.antt =====
-- What can be pressed on the dashboard of web/src/app/dashboard/page.tsx.
use mathlib.Core.List.{append-nil}
use uni_llm.Prelude.{
  List, Option, String, [], ap, is_nil, map, none, refl, some, truthy, ◌++◌, ◌∙◌, ◌∷◌, ◌≡◌,
}
use uni_llm.I18n.Shape.{Messages}
use uni_llm.Double.{Double}
use uni_llm.Markup.Clicks.{
  clicks, clicks-beside, clicks-beside_left, clicks-beside_none, clicks-each_none, clicks-each_one,
  clicks-if_nil, clicks-if_none,
}
use uni_llm.UsageChart.{DailyData}
use uni_llm.UsageChart.View.{charts, cost_chart, request_chart, usage_chart}
use uni_llm.RecentLogs.View.{log_rows, log_view}
use uni_llm.Dashboard.{
  ApiKey, DashboardPage, LogEntry, Summary, Tab, keys, logs, overview, settings,
}
use uni_llm.Dashboard.Panels.{
  key_row, key_table, keys_panel, logs_panel, model_table, overview_panel, settings_panel,
  stat_card, stat_cards,
}
use uni_llm.Dashboard.View.{dashboard_view, loaded_view, loading_view, tab_bar}
use uni_llm.Dashboard.Actions.{Action, create_key, delete_key, show_tab, submit_password, tabs}

module _ {E : Type 0} (d : Double) (number_text : d.Number → String)
    (date_text : String → String) where
  clicks-usage_chart :
      (t : Messages) (days : List (DailyData d))
      → clicks {E = E} (usage_chart d number_text t days) ≡ []
  unfolding usage_chart charts request_chart cost_chart
  clicks-usage_chart t days = search (clicks-beside_none, clicks-if_none, clicks-each_none)

  clicks-log_view :
      (t : Messages) (entries : List (LogEntry d.Number))
      → clicks {E = E} (log_view d number_text date_text t entries) ≡ []
  unfolding log_view log_rows
  clicks-log_view t entries = search (clicks-beside_none, clicks-if_none, clicks-each_none)

module _ (d : Double) (number_text locale_text : d.Number → String)
    (date_text date_time_text : String → String) (t : Messages) where
  clicks-model_table :
      (p : DashboardPage d.Number)
      → clicks (model_table d number_text locale_text date_text date_time_text t p) ≡ []
  unfolding model_table
  clicks-model_table p = rw (clicks-each_none p.models _ (λ m. refl)) refl

  clicks-overview_panel :
      (s : Summary d.Number) (p : DashboardPage d.Number)
      → clicks (overview_panel d number_text locale_text date_text date_time_text t s p) ≡ []
  unfolding overview_panel stat_cards stat_card
  clicks-overview_panel s p =
      rw (clicks-usage_chart, clicks-if_none (is_nil p.models) _ _ refl (clicks-model_table p)) refl

  clicks-logs_panel :
      (p : DashboardPage d.Number)
      → clicks (logs_panel d number_text locale_text date_text date_time_text t p) ≡ []
  unfolding logs_panel
  clicks-logs_panel p = rw clicks-log_view refl

  clicks-key_table :
      (p : DashboardPage d.Number)
      → clicks (key_table d number_text locale_text date_text date_time_text t p)
        ≡ map (λ (k : ApiKey d.Number). delete_key k.id) p.keys
  unfolding key_table
  clicks-key_table p =
      rw (append-nil, append-nil) (clicks-each_one p.keys _ _ (λ k. unfold key_row in refl))

  clicks-keys_panel :
      (p : DashboardPage d.Number)
      → clicks (keys_panel d number_text locale_text date_text date_time_text t p)
        ≡ create_key ∷ map (λ (k : ApiKey d.Number). delete_key k.id) p.keys
  unfolding keys_panel
  clicks-keys_panel p =
      ap (λ l. create_key ∷ l)
        (append-nil _
          ∙ search (clicks-beside_left, clicks-if_none, clicks-if_nil, clicks-key_table))

  clicks-settings_panel :
      (p : DashboardPage d.Number)
      → clicks (settings_panel d number_text locale_text date_text date_time_text t p)
        ≡ submit_password ∷ []
  unfolding settings_panel
  clicks-settings_panel p =
      ap (λ l. submit_password ∷ l)
        (append-nil _ ∙ append-nil _ ∙ clicks-if_none (truthy p.pwd_msg) _ _ refl refl)

  clicks-tab_bar :
      (p : DashboardPage d.Number)
      → clicks (tab_bar d number_text locale_text date_text date_time_text t p) ≡ map show_tab tabs
  unfolding tab_bar
  clicks-tab_bar p = refl

  -- What the panel of the chosen tab offers.
  abbrev pub tab_clicks : Tab → DashboardPage d.Number → List (Action d.Number)
  tab_clicks chosen p = elim chosen [
    | overview ↦ []
    | logs ↦ []
    | keys ↦ create_key ∷ map (λ (k : ApiKey d.Number). delete_key k.id) p.keys
    | settings ↦ submit_password ∷ []
  ]

  clicks-loaded_view :
      (s : Summary d.Number) (p : DashboardPage d.Number) (x : Tab)
      → p.tab ≡ x
      → clicks (loaded_view d number_text locale_text date_text date_time_text t s p)
        ≡ map show_tab tabs ++ tab_clicks x p
  unfolding loaded_view
  clicks-loaded_view s p overview e = simp (
    e, append-nil, clicks-beside, clicks-tab_bar, clicks-overview_panel, clicks-logs_panel,
    clicks-keys_panel, clicks-settings_panel,
  )
  clicks-loaded_view s p logs e = simp (
    e, append-nil, clicks-beside, clicks-tab_bar, clicks-overview_panel, clicks-logs_panel,
    clicks-keys_panel, clicks-settings_panel,
  )
  clicks-loaded_view s p keys e = simp (
    e, append-nil, clicks-beside, clicks-tab_bar, clicks-overview_panel, clicks-logs_panel,
    clicks-keys_panel, clicks-settings_panel,
  )
  clicks-loaded_view s p settings e = simp (
    e, append-nil, clicks-beside, clicks-tab_bar, clicks-overview_panel, clicks-logs_panel,
    clicks-keys_panel, clicks-settings_panel,
  )

  -- The dashboard offers nothing to click on below the header until its data is loaded. Then it offers the
  -- four tabs and what belongs to the chosen one: on the keys, the creation of a key and the deletion of
  -- each key of the list, in its order; on the settings, the change of the password; on the others, nothing.
  pub clicks-dashboard_view :
      (p : DashboardPage d.Number)
      → clicks (dashboard_view d number_text locale_text date_text date_time_text t p)
        ≡ elim p.summary [ none ↦ [] | some _ ↦ map show_tab tabs ++ tab_clicks p.tab p ]
  unfolding dashboard_view loading_view
  clicks-dashboard_view p = go p.summary
    where
      go :
          (o : Option (Summary d.Number))
          → clicks (elim o [
            | none ↦ loading_view d number_text locale_text date_text date_time_text t
            | some s ↦ loaded_view d number_text locale_text date_text date_time_text t s p
          ])
            ≡ elim o [ none ↦ [] | some _ ↦ map show_tab tabs ++ tab_clicks p.tab p ]
      go none = refl
      go (some s) = clicks-loaded_view s p p.tab refl
