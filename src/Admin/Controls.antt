-- ===== src/Admin/Controls.antt =====
-- What can be pressed on the administration page of web/src/app/admin/page.tsx.
use mathlib.Core.List.{append-nil}
use uni_llm.Prelude.{List, Option, String, [], is_nil, map, none, refl, some, ◌++◌, ◌∷◌, ◌≡◌}
use uni_llm.I18n.Shape.{Messages}
use uni_llm.Double.{Double}
use uni_llm.Markup.{each}
use uni_llm.Markup.Clicks.{clicks, clicks-beside, clicks-each_none, clicks-each_one, clicks-if_none}
use uni_llm.Admin.{AdminModel, AdminPage, AdminTab, ProviderInfo, ProviderKeyInfo, Stats, User}
use uni_llm.Admin.Actions.{
  AdminAction, TabItem, show_tab, submit_balance, submit_key, switch_model, switch_provider,
  tab_items,
}
use uni_llm.Admin.Parts.{card, input_field, panel, status_badge}
use uni_llm.Admin.Panels.{
  balance_form, key_form, key_row, keys_panel, model_row, models_panel, overview_panel,
  provider_row, providers_panel, user_row, users_panel,
}
use uni_llm.Admin.View.{admin_view, loaded_view, tab_bar, waiting_view}

module _ (d : Double) (number_text locale_text : d.Number → String) (date_text : String → String)
    (t : Messages) where
  clicks-overview_panel :
      (s : Stats d.Number) → clicks (overview_panel d number_text locale_text date_text t s) ≡ []
  unfolding overview_panel card
  clicks-overview_panel s = refl

  clicks-balance_form :
      (p : AdminPage d.Number)
      → clicks (balance_form d number_text locale_text date_text t p) ≡ submit_balance ∷ []
  unfolding balance_form input_field
  clicks-balance_form p = refl

  clicks-user_row :
      (u : User d.Number) → clicks (user_row d number_text locale_text date_text u) ≡ []
  unfolding user_row
  clicks-user_row u = refl

  clicks-key_row :
      (p : AdminPage d.Number) (k : ProviderKeyInfo d.Number)
      → clicks (key_row d number_text locale_text date_text t p k) ≡ []
  unfolding key_row status_badge
  clicks-key_row p k = refl

  clicks-users_panel :
      (p : AdminPage d.Number)
      → clicks (users_panel d number_text locale_text date_text t p) ≡ submit_balance ∷ []
  unfolding users_panel panel
  clicks-users_panel p =
      rw
        (
          clicks-beside (balance_form d number_text locale_text date_text t p),
          clicks-balance_form,
          clicks-each_none p.users _ clicks-user_row,
        )
        refl

  clicks-providers_panel :
      (p : AdminPage d.Number)
      → clicks (providers_panel d number_text locale_text date_text t p)
        ≡ map (λ (x : ProviderInfo d.Number). switch_provider x.id x.is_active) p.providers
  unfolding providers_panel panel
  clicks-providers_panel p =
      rw (append-nil, append-nil, append-nil)
        (clicks-each_one p.providers _ _ (λ x. unfold provider_row status_badge in refl))

  clicks-models_panel :
      (p : AdminPage d.Number)
      → clicks (models_panel d number_text locale_text date_text t p)
        ≡ map (λ (m : AdminModel d.Number). switch_model m.id m.is_active) p.models
  unfolding models_panel panel
  clicks-models_panel p =
      rw (append-nil, append-nil, append-nil)
        (clicks-each_one p.models _ _ (λ m. unfold model_row status_badge in refl))

  clicks-key_form :
      (p : AdminPage d.Number)
      → clicks (key_form d number_text locale_text date_text t p) ≡ submit_key ∷ []
  unfolding key_form input_field
  clicks-key_form p = rw (clicks-each_none p.providers _ (λ x. refl)) refl

  clicks-keys_panel :
      (p : AdminPage d.Number)
      → clicks (keys_panel d number_text locale_text date_text t p) ≡ submit_key ∷ []
  unfolding keys_panel panel
  clicks-keys_panel p =
      rw
        (
          clicks-beside (key_form d number_text locale_text date_text t p),
          clicks-key_form,
          clicks-beside (each p.provider_keys _),
          clicks-each_none p.provider_keys _ (clicks-key_row p),
          clicks-if_none (is_nil p.provider_keys) _ _ refl refl,
        )
        refl

  clicks-tab_bar :
      (p : AdminPage d.Number)
      → clicks (tab_bar d number_text locale_text date_text t p)
        ≡ map (λ (i : TabItem). show_tab i.key) (tab_items t)
  unfolding tab_bar
  clicks-tab_bar p = refl

  -- What the panel of the chosen tab offers.
  abbrev pub tab_clicks : AdminTab → AdminPage d.Number → List (AdminAction d.Number)
  tab_clicks chosen p = elim chosen [
    | AdminTab.overview ↦ []
    | AdminTab.users ↦ submit_balance ∷ []
    | AdminTab.providers ↦
        map (λ (x : ProviderInfo d.Number). switch_provider x.id x.is_active) p.providers
    | AdminTab.models ↦ map (λ (m : AdminModel d.Number). switch_model m.id m.is_active) p.models
    | AdminTab.keys ↦ submit_key ∷ []
  ]

  clicks-loaded_view :
      (s : Stats d.Number) (p : AdminPage d.Number) (x : AdminTab)
      → p.tab ≡ x
      → clicks (loaded_view d number_text locale_text date_text t s p)
        ≡ map (λ (i : TabItem). show_tab i.key) (tab_items t) ++ tab_clicks x p
  unfolding loaded_view
  clicks-loaded_view s p AdminTab.overview e = simp (
    e, append-nil, clicks-beside, clicks-tab_bar, clicks-overview_panel, clicks-users_panel,
    clicks-providers_panel, clicks-models_panel, clicks-keys_panel,
  )
  clicks-loaded_view s p AdminTab.users e = simp (
    e, append-nil, clicks-beside, clicks-tab_bar, clicks-overview_panel, clicks-users_panel,
    clicks-providers_panel, clicks-models_panel, clicks-keys_panel,
  )
  clicks-loaded_view s p AdminTab.providers e = simp (
    e, append-nil, clicks-beside, clicks-tab_bar, clicks-overview_panel, clicks-users_panel,
    clicks-providers_panel, clicks-models_panel, clicks-keys_panel,
  )
  clicks-loaded_view s p AdminTab.models e = simp (
    e, append-nil, clicks-beside, clicks-tab_bar, clicks-overview_panel, clicks-users_panel,
    clicks-providers_panel, clicks-models_panel, clicks-keys_panel,
  )
  clicks-loaded_view s p AdminTab.keys e = simp (
    e, append-nil, clicks-beside, clicks-tab_bar, clicks-overview_panel, clicks-users_panel,
    clicks-providers_panel, clicks-models_panel, clicks-keys_panel,
  )

  -- The administration page offers nothing to click on below the header until its data is loaded. Then it
  -- offers the five tabs and what belongs to the chosen one: for the users, the change of a balance; for the
  -- providers and the models, a switch of each one, in the order of the list and with its present state; for
  -- the keys, the addition of a key; on the overview, nothing.
  pub clicks-admin_view :
      (p : AdminPage d.Number)
      → clicks (admin_view d number_text locale_text date_text t p) ≡ elim p.stats [
        | none ↦ []
        | some _ ↦ map (λ (i : TabItem). show_tab i.key) (tab_items t) ++ tab_clicks p.tab p
      ]
  unfolding admin_view waiting_view
  clicks-admin_view p = go p.stats
    where
      go :
          (o : Option (Stats d.Number))
          → clicks (elim o [
            | none ↦ waiting_view d number_text locale_text date_text t p
            | some s ↦ loaded_view d number_text locale_text date_text t s p
          ])
            ≡ elim o [
              | none ↦ []
              | some _ ↦ map (λ (i : TabItem). show_tab i.key) (tab_items t) ++ tab_clicks p.tab p
            ]
      go none = refl
      go (some s) = clicks-loaded_view s p p.tab refl
