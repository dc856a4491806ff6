-- ===== src/Tests/Screens.antt =====
-- What the pages offer, for some states of theirs.
use uni_llm.Admin
use uni_llm.Admin.Controls
use uni_llm.Prelude.{
  List, [], false, if◌then◌else◌, map, none, show_nat, some, true, ℕ, ◌++◌, ◌∷◌, ◌≡◌,
}
use uni_llm.I18n.Catalogs.{en}
use uni_llm.Catalog.{ModelInfo}
use uni_llm.Markup.Clicks.{clicks, texts_in}
use uni_llm.Playground.{Page, clear, first_render, is_blocked, send}
use uni_llm.Playground.View.{chat_view}
use uni_llm.Playground.Controls.{clicks-chat_view}
use uni_llm.Dashboard.{ApiKey, DashboardPage, Tab, first_dashboard}
use uni_llm.Dashboard.View.{dashboard_view}
use uni_llm.Dashboard.Controls.{clicks-dashboard_view, tab_clicks}
use uni_llm.Marketplace.{filtered, no_filters}
use uni_llm.Marketplace.View.{models_view}
use uni_llm.Marketplace.Cards.{texts_in-models_view}
use uni_llm.Tests.Fixtures.{naturals}
use uni_llm.Admin.{AdminPage, AdminTab, first_admin, models, providers}
use uni_llm.Admin.Actions.{AdminAction, TabItem, tab_items}
use uni_llm.Admin.View.{admin_view}
use uni_llm.Admin.Controls.{clicks-admin_view}
use uni_llm.Dashboard.Actions.{Action, tabs}

abbrev waiting : Page
waiting = record (first_render none) { api_key = "sk-1"; input = "Hi"; streaming = true }

clicks-chat_view_example :
    clicks (chat_view en waiting) ≡ clear ∷ (if is_blocked waiting then [] else send ∷ [])
clicks-chat_view_example = clicks-chat_view en waiting

abbrev small : ModelInfo ℕ
small = record {
  id = "small";
  vendor = "OpenAI";
  input_price_per_1m = 2;
  output_price_per_1m = 8;
  max_tokens = 8000;
  supports_stream = true;
  supports_tools = false;
  supports_vision = false;
}

abbrev two_models : List (ModelInfo ℕ)
two_models = small ∷ record small { id = "other"; vendor = "" } ∷ []

texts_in-models_view_example :
    texts_in "h3" (models_view naturals show_nat (λ s. s) en no_filters two_models false)
    ≡ (if false
        then []
        else map (λ (m : ModelInfo ℕ). m.id) (filtered (λ s. s) no_filters two_models))
      ++ en.models.quick_start ∷ []
texts_in-models_view_example =
    texts_in-models_view naturals show_nat (λ s. s) en no_filters two_models false

abbrev a_key : ApiKey ℕ
a_key = record {
  id = 3;
  name = "ci";
  key_prefix = "sk-1";
  scope = "full";
  is_active = true;
  last_used = "";
  created_at = "";
}

abbrev on_keys : DashboardPage ℕ
on_keys = record first_dashboard {
  tab = Tab.keys;
  keys = a_key ∷ [];
  summary = some (record {
    total_requests = 0;
    total_tokens = 0;
    total_cost = 0;
    avg_latency = 0;
    success_rate = 0;
    today_cost = 0;
    balance = 0;
  });
}

clicks-dashboard_view_example :
    clicks (dashboard_view naturals show_nat show_nat (λ s. s) (λ s. s) en on_keys)
    ≡ elim on_keys.summary [
      | none ↦ []
      | some _ ↦
          map Action.show_tab tabs
          ++ tab_clicks naturals show_nat show_nat (λ s. s) (λ s. s) en on_keys.tab on_keys
    ]
clicks-dashboard_view_example =
    clicks-dashboard_view naturals show_nat show_nat (λ s. s) (λ s. s) en on_keys

abbrev on_providers : AdminPage ℕ
on_providers = record first_admin {
  tab = AdminTab.providers;
  providers = record { id = 2; name = "openai"; base_url = ""; is_active = true } ∷ [];
  stats = some (record {
    total_users = 1;
    total_requests = 0;
    total_cost = 0;
    total_tokens = 0;
    active_keys = 1;
  });
}

clicks-admin_view_example :
    clicks (admin_view naturals show_nat show_nat (λ s. s) en on_providers)
    ≡ elim on_providers.stats [
      | none ↦ []
      | some _ ↦
          map (λ (i : TabItem). AdminAction.show_tab i.key) (tab_items en)
          ++ Admin.Controls.tab_clicks naturals show_nat show_nat
              (λ s. s)
              en
              on_providers.tab
              on_providers
    ]
clicks-admin_view_example = clicks-admin_view naturals show_nat show_nat (λ s. s) en on_providers
