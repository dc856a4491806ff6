-- ===== src/Admin/Panels.antt =====
-- The panels of the tabs of web/src/app/admin/page.tsx.
use uni_llm.Prelude.{
  Bool, String, [], find_first, if◌then◌else◌, is_nil, none, some, text_or, ◌&&◌, ◌<+>◌, ◌===◌, ◌∷◌,
}
use uni_llm.I18n.Shape.{Messages}
use uni_llm.Markup.{View, attr, each, on, on_value, say, style, tag, when, ◌<&>◌}
use uni_llm.Double.{Double}
use uni_llm.Admin.Actions.{
  AdminAction, submit_balance, submit_key, switch_model, switch_provider, type_delta,
  type_key_provider, type_key_rpm, type_key_value, type_reason, type_user_id,
}
use uni_llm.Admin.{AdminModel, AdminPage, ProviderInfo, ProviderKeyInfo, Stats, User}
use uni_llm.Admin.Parts.{card, input_field, panel, status_badge}

-- `number_text` is the text that a number is shown as; the others are `toLocaleString` and
-- `toLocaleDateString`.
module _ (d : Double) (number_text locale_text : d.Number → String)
    (date_text : String → String) where
  -- `===` between numbers that are not NaN.
  abbrev same_number : d.Number → d.Number → Bool
  same_number a b = d.le a b && d.le b a

  -- `providers.find(…)?.name || k.provider_id`
  abbrev pub provider_name : AdminPage d.Number → ProviderKeyInfo d.Number → String
  provider_name p k =
      elim (find_first (λ (x : ProviderInfo d.Number). same_number x.id k.provider_id)
        p.providers) [
          | none ↦ number_text k.provider_id
          | some x ↦ text_or x.name (number_text k.provider_id)
        ]

  unfoldable pub overview_panel : Messages → Stats d.Number → View (AdminAction d.Number)
  overview_panel t s = tag "div" (attr "className" "grid grid-cols-2 md:grid-cols-5 gap-4" ∷ []) (
      (card t.admin.stats.total_users (number_text s.total_users))
      <&> (card t.admin.stats.total_requests (locale_text s.total_requests))
      <&> (card t.admin.stats.total_cost ("$" <+> (d.to_fixed 4 s.total_cost)))
      <&> (card t.admin.stats.total_tokens (locale_text s.total_tokens))
      <&> (card t.admin.stats.active_keys (number_text s.active_keys)))

  unfoldable pub balance_form : Messages → AdminPage d.Number → View (AdminAction d.Number)
  balance_form t p = tag "div" (attr "className" "flex gap-2 mb-4 flex-wrap items-end" ∷ []) (
      (input_field t.admin.user_id p.bal_user_id type_user_id "ID" "w-20")
      <&> (input_field t.admin.amount p.bal_delta type_delta "10" "w-24")
      <&> (input_field t.admin.reason p.bal_reason type_reason "top-up" "flex-1")
      <&> (tag "button"
          (on "onClick" submit_balance
            ∷ attr "className" "px-4 py-2 rounded-lg text-sm font-medium text-white"
            ∷ style (("background", "var(--primary)") ∷ [])
            ∷ [])
          (say t.admin.add_balance)))

  unfoldable pub user_row : User d.Number → View (AdminAction d.Number)
  user_row u =
      tag "tr" (attr "className" "border-t" ∷ style (("borderColor", "var(--border)") ∷ []) ∷ []) (
        (tag "td" (attr "className" "py-2" ∷ []) (say (number_text u.id)))
        <&> (tag "td" (attr "className" "py-2 font-mono text-xs" ∷ []) (say u.email))
        <&> (tag "td" (attr "className" "py-2" ∷ []) (say u.name))
        <&> (tag "td" (attr "className" "py-2" ∷ []) (
            tag "span"
              (attr "className" "text-xs px-1.5 py-0.5 rounded"
                ∷ style (
                    (
                      "background",
                      (if (u.role === "admin")
                          then "rgba(239,68,68,0.15)"
                          else "rgba(59,130,246,0.15)"),
                    )
                    ∷ (
                      "color",
                      (if (u.role === "admin") then "var(--danger)" else "var(--primary)"),
                    )
                    ∷ [])
                ∷ [])
              (say u.role)))
        <&> (tag "td" (attr "className" "py-2 text-right font-mono" ∷ [])
            ((say "$") <&> (say (d.to_fixed 2 u.balance))))
        <&> (tag "td" (attr "className" "py-2 text-[var(--muted)] text-xs" ∷ [])
            (say (date_text u.created_at))))

  unfoldable pub users_panel : Messages → AdminPage d.Number → View (AdminAction d.Number)
  users_panel t p = panel t.admin.user_management (
      (balance_form t p)
      <&> (tag "table" (attr "className" "w-full text-sm" ∷ []) (
          (tag "thead" [] (
            tag "tr" (attr "className" "text-left text-[var(--muted)]" ∷ []) (
              (tag "th" (attr "className" "pb-2" ∷ []) (say t.admin.col_id))
              <&> (tag "th" (attr "className" "pb-2" ∷ []) (say t.admin.col_email))
              <&> (tag "th" (attr "className" "pb-2" ∷ []) (say t.admin.col_name))
              <&> (tag "th" (attr "className" "pb-2" ∷ []) (say t.admin.col_role))
              <&> (tag "th" (attr "className" "pb-2 text-right" ∷ []) (say t.admin.col_balance))
              <&> (tag "th" (attr "className" "pb-2" ∷ []) (say t.admin.col_joined)))))
          <&> (tag "tbody" [] (each p.users (λ u. user_row u))))))

  unfoldable pub provider_row : Messages → ProviderInfo d.Number → View (AdminAction d.Number)
  provider_row t x =
      tag "tr" (attr "className" "border-t" ∷ style (("borderColor", "var(--border)") ∷ []) ∷ []) (
        (tag "td" (attr "className" "py-2" ∷ []) (say (number_text x.id)))
        <&> (tag "td" (attr "className" "py-2 font-medium" ∷ []) (say x.name))
        <&> (tag "td" (attr "className" "py-2 font-mono text-xs text-[var(--muted)]" ∷ [])
            (say x.base_url))
        <&> (tag "td" (attr "className" "py-2" ∷ []) (status_badge t x.is_active))
        <&> (tag "td" (attr "className" "py-2 text-right" ∷ []) (
            tag "button"
              (on "onClick" (switch_provider x.id x.is_active)
                ∷ attr "className" "text-xs px-2 py-1 rounded"
                ∷ style
                    (("color", (if x.is_active then "var(--danger)" else "var(--success)")) ∷ [])
                ∷ [])
              (say (if x.is_active then t.common.disable else t.common.enable)))))

  unfoldable pub providers_panel : Messages → AdminPage d.Number → View (AdminAction d.Number)
  providers_panel t p = panel t.admin.providers_title (
      tag "table" (attr "className" "w-full text-sm" ∷ []) (
        (tag "thead" [] (
          tag "tr" (attr "className" "text-left text-[var(--muted)]" ∷ []) (
            (tag "th" (attr "className" "pb-2" ∷ []) (say t.admin.col_id))
            <&> (tag "th" (attr "className" "pb-2" ∷ []) (say t.admin.col_name))
            <&> (tag "th" (attr "className" "pb-2" ∷ []) (say t.admin.col_base_url))
            <&> (tag "th" (attr "className" "pb-2" ∷ []) (say t.common.status))
            <&> (tag "th" (attr "className" "pb-2 text-right" ∷ []) (say t.common.action)))))
        <&> (tag "tbody" [] (each p.providers (λ x. provider_row t x)))))

  unfoldable pub model_row : Messages → AdminModel d.Number → View (AdminAction d.Number)
  model_row t m =
      tag "tr" (attr "className" "border-t" ∷ style (("borderColor", "var(--border)") ∷ []) ∷ []) (
        (tag "td" (attr "className" "py-2 font-mono" ∷ []) (say m.public_name))
        <&> (tag "td" (attr "className" "py-2 font-mono text-xs text-[var(--muted)]" ∷ [])
            (say m.upstream_model))
        <&> (tag "td" (attr "className" "py-2 text-right" ∷ [])
            ((say "$") <&> (say (d.to_fixed 2 m.input_price_per_1m))))
        <&> (tag "td" (attr "className" "py-2 text-right" ∷ [])
            ((say "$") <&> (say (d.to_fixed 2 m.output_price_per_1m))))
        <&> (tag "td" (attr "className" "py-2 text-right" ∷ []) (say (locale_text m.max_tokens)))
        <&> (tag "td" (attr "className" "py-2" ∷ []) (status_badge t m.is_active))
        <&> (tag "td" (attr "className" "py-2 text-right" ∷ []) (
            tag "button"
              (on "onClick" (switch_model m.id m.is_active)
                ∷ attr "className" "text-xs px-2 py-1 rounded"
                ∷ style
                    (("color", (if m.is_active then "var(--danger)" else "var(--success)")) ∷ [])
                ∷ [])
              (say (if m.is_active then t.common.disable else t.common.enable)))))

  unfoldable pub models_panel : Messages → AdminPage d.Number → View (AdminAction d.Number)
  models_panel t p = panel t.admin.models_title (
      tag "table" (attr "className" "w-full text-sm" ∷ []) (
        (tag "thead" [] (
          tag "tr" (attr "className" "text-left text-[var(--muted)]" ∷ []) (
            (tag "th" (attr "className" "pb-2" ∷ []) (say t.admin.col_public_name))
            <&> (tag "th" (attr "className" "pb-2" ∷ []) (say t.admin.col_upstream))
            <&> (tag "th" (attr "className" "pb-2 text-right" ∷ []) (say "Input $/1M"))
            <&> (tag "th" (attr "className" "pb-2 text-right" ∷ []) (say "Output $/1M"))
            <&> (tag "th" (attr "className" "pb-2 text-right" ∷ []) (say t.admin.col_max_tokens))
            <&> (tag "th" (attr "className" "pb-2" ∷ []) (say t.common.status))
            <&> (tag "th" (attr "className" "pb-2 text-right" ∷ []) (say t.common.action)))))
        <&> (tag "tbody" [] (each p.models (λ m. model_row t m)))))

  unfoldable pub key_form : Messages → AdminPage d.Number → View (AdminAction d.Number)
  key_form t p = tag "div" (attr "className" "flex gap-2 mb-4 flex-wrap items-end" ∷ []) (
      (tag "div" (attr "className" "w-32" ∷ []) (
        (tag "label" (attr "className" "block text-xs text-[var(--muted)] mb-1" ∷ [])
          (say t.admin.provider_id))
        <&> (tag "select"
            (attr "value" p.new_key_provider_id
              ∷ on_value "onChange" type_key_provider
              ∷ attr "className" "w-full px-3 py-2 rounded-lg text-sm outline-none"
              ∷ style (
                  ("background", "var(--background)")
                  ∷ ("border", "1px solid var(--border)")
                  ∷ ("color", "var(--foreground)")
                  ∷ [])
              ∷ [])
            ((tag "option" (attr "value" "" ∷ []) (say t.admin.select_provider))
              <&> (each p.providers (λ x.
                  tag "option" (attr "value" (number_text x.id) ∷ [])
                    ((say x.name) <&> (say " (") <&> (say (number_text x.id)) <&> (say ")"))))))))
      <&> (input_field t.admin.api_key p.new_key_value type_key_value "sk-..." "flex-1")
      <&> (input_field t.admin.rpm p.new_key_rpm type_key_rpm "60" "w-20")
      <&> (tag "button"
          (on "onClick" submit_key
            ∷ attr "className" "px-4 py-2 rounded-lg text-sm font-medium text-white"
            ∷ style (("background", "var(--primary)") ∷ [])
            ∷ [])
          (say t.admin.add_key)))

  unfoldable pub key_row :
      Messages → AdminPage d.Number → ProviderKeyInfo d.Number → View (AdminAction d.Number)
  key_row t p k =
      tag "tr" (attr "className" "border-t" ∷ style (("borderColor", "var(--border)") ∷ []) ∷ []) (
        (tag "td" (attr "className" "py-2" ∷ []) (say (number_text k.id)))
        <&> (tag "td" (attr "className" "py-2" ∷ []) (say (provider_name p k)))
        <&> (tag "td" (attr "className" "py-2 font-mono text-xs text-[var(--muted)]" ∷ [])
            (say k.key_prefix))
        <&> (tag "td" (attr "className" "py-2 text-right" ∷ []) (say (number_text k.rpm)))
        <&> (tag "td" (attr "className" "py-2" ∷ []) (status_badge t k.is_active)))

  unfoldable pub keys_panel : Messages → AdminPage d.Number → View (AdminAction d.Number)
  keys_panel t p = panel t.admin.keys_title (
      (key_form t p)
      <&> (tag "table" (attr "className" "w-full text-sm" ∷ []) (
          (tag "thead" [] (
            tag "tr" (attr "className" "text-left text-[var(--muted)]" ∷ []) (
              (tag "th" (attr "className" "pb-2" ∷ []) (say t.admin.col_id))
              <&> (tag "th" (attr "className" "pb-2" ∷ []) (say t.admin.col_provider))
              <&> (tag "th" (attr "className" "pb-2" ∷ []) (say t.admin.col_key_prefix))
              <&> (tag "th" (attr "className" "pb-2 text-right" ∷ []) (say t.admin.rpm))
              <&> (tag "th" (attr "className" "pb-2" ∷ []) (say t.common.status)))))
          <&> (tag "tbody" [] (
              (each p.provider_keys (λ k. key_row t p k))
              <&> (when (is_nil p.provider_keys) (
                  tag "tr" [] (
                    tag "td"
                      (attr "colSpan" "5"
                        ∷ attr "className" "py-4 text-center text-[var(--muted)] text-sm"
                        ∷ [])
                      (say t.admin.no_provider_keys)))))))))
