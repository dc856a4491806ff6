-- ===== src/Admin/View.antt =====
-- What the administration page of web/src/app/admin/page.tsx shows.
use uni_llm.Prelude.{String, [], if◌then◌else◌, none, some, text_or, true, ◌<+>◌, ◌∷◌}
use uni_llm.I18n.Shape.{Messages}
use uni_llm.Markup.{View, attr, each, flag, nothing, on, say, style, tag, when, ◌<&>◌}
use uni_llm.Double.{Double}
use uni_llm.Admin.{AdminPage, AdminTab, Stats}
use uni_llm.Admin.Actions.{AdminAction, is_admin_tab, show_tab, tab_items}
use uni_llm.Admin.Panels.{keys_panel, models_panel, overview_panel, providers_panel, users_panel}

-- `number_text` is the text that a number is shown as; the others are `toLocaleString` and
-- `toLocaleDateString`.
module _ (d : Double) (number_text locale_text : d.Number → String)
    (date_text : String → String) where
  unfoldable pub tab_bar : Messages → AdminPage d.Number → View (AdminAction d.Number)
  tab_bar t p = tag "div" (attr "className" "flex gap-2 mb-6 flex-wrap" ∷ []) (
      each (tab_items t) (λ item.
        tag "button"
          (on "onClick" (show_tab item.key)
            ∷ attr "className" "px-4 py-2 rounded-lg text-sm font-medium"
            ∷ style (
                (
                  "background",
                  (if (is_admin_tab p.tab item.key) then "var(--primary)" else "var(--card)"),
                )
                ∷ (
                  "border",
                  ("1px solid "
                      <+> ((if (is_admin_tab p.tab item.key)
                          then "var(--primary)"
                          else "var(--border)"))),
                )
                ∷ [])
            ∷ [])
          (say item.label)))

  unfoldable pub loaded_view :
      Messages → Stats d.Number → AdminPage d.Number → View (AdminAction d.Number)
  loaded_view t s p = tag "div" (attr "className" "min-h-screen" ∷ []) (
      (tag "SiteHeader" (flag "adminBadge" true ∷ []) nothing)
      <&> (tag "div" (attr "className" "max-w-6xl mx-auto p-6" ∷ []) (
          (tab_bar t p)
          <&> (when (is_admin_tab p.tab AdminTab.overview)
              (overview_panel d number_text locale_text date_text t s))
          <&> (when (is_admin_tab p.tab AdminTab.users)
              (users_panel d number_text locale_text date_text t p))
          <&> (when (is_admin_tab p.tab AdminTab.providers)
              (providers_panel d number_text locale_text date_text t p))
          <&> (when (is_admin_tab p.tab AdminTab.models)
              (models_panel d number_text locale_text date_text t p))
          <&> (when (is_admin_tab p.tab AdminTab.keys)
              (keys_panel d number_text locale_text date_text t p)))))

  unfoldable pub waiting_view : Messages → AdminPage d.Number → View (AdminAction d.Number)
  waiting_view t p =
      tag "div" (attr "className" "min-h-screen flex items-center justify-center" ∷ []) (
        tag "div" (attr "className" "text-[var(--muted)]" ∷ [])
          (say (text_or p.error t.admin.loading)))

  unfoldable pub admin_view : Messages → AdminPage d.Number → View (AdminAction d.Number)
  admin_view t p = elim p.stats [ none ↦ waiting_view t p | some s ↦ loaded_view t s p ]
