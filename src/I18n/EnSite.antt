-- ===== src/I18n/EnSite.antt =====
-- The English messages, web/src/lib/i18n/messages/en.ts, the first sections.
use uni_llm.I18n.Shape.{
  CalculatorMessages, CommonMessages, DashboardMessages, HomeFeaturesMessages, HomeMessages,
  LocaleMessages, LoginMessages, ModelsMessages, NavMessages, ThemeMessages,
}

abbrev pub en_nav : NavMessages
en_nav = record {
  models = "Models";
  playground = "Playground";
  docs = "Docs";
  calculator = "Calculator";
  sign_in = "Sign In";
  dashboard = "Dashboard";
  logout = "Logout";
}

abbrev pub en_theme : ThemeMessages
en_theme = record {
  switch_to_light = "Switch to light mode";
  switch_to_dark = "Switch to dark mode";
}

abbrev pub en_locale : LocaleMessages
en_locale = record { label = "Language" }

abbrev pub en_home_features : HomeFeaturesMessages
en_home_features = record {
  openai = record {
    title = "OpenAI Compatible";
    description =
        "Drop-in replacement for the OpenAI SDK. Just change the base URL and you're ready to go.";
  };
  pricing = record {
    title = "Transparent Pricing";
    description =
        "Pay only for tokens used. See costs in real-time on your dashboard with per-request breakdowns.";
  };
  multi_vendor = record {
    title = "Multi-Vendor";
    description =
        "Access Anthropic, Google, DeepSeek, and more from a single API key. No separate accounts needed.";
  };
  failover = record {
    title = "Built-in Failover";
    description =
        "Auto-retry with circuit breaker protection. Your app stays up even when providers go down.";
  };
  dashboard = record {
    title = "Real-time Dashboard";
    description =
        "Monitor usage, costs, and latency live. Track every request with detailed logging.";
  };
  dev_first = record {
    title = "Developer First";
    description =
        "Full API docs, interactive playground, and SDK support. Ship faster with tools built for devs.";
  };
}

abbrev pub en_home : HomeMessages
en_home = record {
  hero_title = "One API for All Leading";
  hero_title_highlight = "AI Models";
  hero_subtitle =
      "Access Claude, Gemini, DeepSeek and more through a single OpenAI-compatible API. No vendor lock-in, transparent pricing, instant setup.";
  get_started = "Get Started Free";
  view_models = "View Models";
  terminal = "Terminal";
  stats_models = "Models";
  stats_vendors = "Vendors";
  stats_uptime = "Uptime";
  stats_latency = "Latency";
  features_title = "Everything You Need";
  features_subtitle =
      "A complete platform to integrate AI models into your product, without the complexity.";
  models_title = "Available Models";
  models_subtitle =
      "Access the best models from every major provider, all through one consistent API.";
  loading_models = "Loading models...";
  no_models = "No models available at the moment.";
  view_all_models = "View All Models";
  input = "Input";
  output = "Output";
  per_million = "/1M";
  pricing_title = "Simple, Transparent Pricing";
  pricing_subtitle = "Pay per token. No monthly fees. No minimums.";
  pricing_model = "Model";
  pricing_input = "Input / 1M tokens";
  pricing_output = "Output / 1M tokens";
  pricing_loading = "Pricing data loading...";
  start_free_credit = "Start with $1 Free Credit";
  footer = "Built for developers.";
  features = en_home_features;
}

abbrev pub en_login : LoginMessages
en_login = record {
  tagline = "One API for all leading AI models";
  sign_in = "Sign In";
  create_account = "Create Account";
  name = "Name";
  email = "Email";
  password = "Password";
  name_placeholder = "Your name";
  email_placeholder = "you@example.com";
  password_placeholder = "Min 8 characters";
  loading = "...";
  has_account = "Already have an account?";
  no_account = "Don't have an account?";
  register = "Register";
  failed = "Failed";
}

abbrev pub en_models : ModelsMessages
en_models = record {
  title = "Model Marketplace";
  subtitle =
      "{count} models available across {vendors} vendors. All accessible via a single OpenAI-compatible API.";
  search_placeholder = "Search models...";
  all_vendors = "All Vendors";
  all_capabilities = "All Capabilities";
  vision = "Vision";
  tools = "Function Calling";
  streaming = "Streaming";
  loading = "Loading models...";
  no_results = "No models match your filters.";
  input = "Input";
  output = "Output";
  max_tokens = "Max Tokens";
  quick_start = "Quick Start";
}

abbrev pub en_calculator : CalculatorMessages
en_calculator = record {
  title = "Cost Calculator";
  subtitle = "Estimate your API costs based on expected usage";
  select_model = "Model";
  input_tokens_per_request = "Input tokens per request";
  output_tokens_per_request = "Output tokens per request";
  requests_per_day = "Requests per day";
  cost_per_request = "Cost per Request";
  daily_cost = "Daily Cost";
  monthly_cost = "Monthly Cost (30d)";
  yearly_cost = "Yearly Cost (365d)";
  compare_title = "Model Comparison (sorted by cost)";
  col_model = "Model";
  col_vendor = "Vendor";
  col_input = "Input $/1M";
  col_output = "Output $/1M";
  col_per_request = "Cost/Request";
  col_daily = "Daily Cost";
  col_monthly = "Monthly Cost";
  loading = "Loading models...";
}

abbrev pub en_common : CommonMessages
en_common = record {
  loading = "Loading...";
  failed = "Failed";
  delete = "Delete";
  create = "Create";
  enable = "Enable";
  disable = "Disable";
  active = "active";
  disabled = "disabled";
  action = "Action";
  status = "Status";
  confirm_delete_key = "Delete this API key?";
}

abbrev pub en_dashboard : DashboardMessages
en_dashboard = record {
  balance = "Balance";
  tabs = record { overview = "Overview"; logs = "Logs"; keys = "API Keys"; settings = "Settings" };
  stats = record {
    total_requests = "Total Requests";
    total_tokens = "Total Tokens";
    total_cost = "Total Cost";
    today_cost = "Today Cost";
    avg_latency = "Avg Latency";
    success_rate = "Success Rate";
  };
  usage_trend = "USAGE TREND";
  usage_by_model = "USAGE BY MODEL";
  no_usage = "No usage yet";
  recent_requests = "RECENT REQUESTS";
  api_keys = "API KEYS";
  key_name_placeholder = "Key name (e.g. production)";
  key_created_hint = "Key created! Copy it now — it won't be shown again.";
  no_api_keys = "No API keys yet";
  col_name = "Name";
  col_key = "Key";
  col_scope = "Scope";
  col_created = "Created";
  change_password = "CHANGE PASSWORD";
  current_password = "Current password";
  new_password = "New password (min 8 characters)";
  update_password = "Update Password";
  password_changed = "Password changed successfully";
  chart_daily_requests = "Daily Requests (last 30 days)";
  chart_daily_cost = "Daily Cost (last 30 days)";
}
