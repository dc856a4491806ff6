-- ===== src/I18n/EnConsole.antt =====
-- The English messages, web/src/lib/i18n/messages/en.ts, the other sections.
use uni_llm.I18n.Shape.{
  AdminMessages, DocsMessages, LogsMessages, PlaygroundMessages, StatusMessages,
}

abbrev pub en_playground : PlaygroundMessages
en_playground = record {
  title = "Playground";
  api_key = "API Key";
  api_key_placeholder = "Paste your API key (sk-...)";
  model = "Model";
  clear = "Clear";
  system_prompt = "System Prompt";
  system_prompt_placeholder = "System prompt...";
  empty_hint = "Send a message to get started";
  role_you = "You";
  role_assistant = "Assistant";
  thinking = "Thinking...";
  message_placeholder = "Type a message...";
  need_api_key = "Select an API key first";
  send = "Send";
  empty_response = "(empty response)";
  request_failed = "Request failed";
  default_system_prompt = "You are a helpful assistant.";
  error_prefix = "Error:";
}

abbrev pub en_docs : DocsMessages
en_docs = record {
  title = "API Documentation";
  sdk_intro =
      "UniLLM is compatible with any OpenAI SDK or HTTP client. Select your preferred language below.";
  sections = record {
    quickstart = "Quick Start";
    auth = "Authentication";
    chat = "Chat Completions";
    models = "List Models";
    streaming = "Streaming";
    sdks = "SDK Examples";
    functions = "Function Calling";
    errors = "Error Codes";
    ratelimits = "Rate Limits";
    pricing = "Pricing";
  };
  sdk_examples = "SDK Examples";
  copy = "Copy";
  copied = "Copied!";
}

abbrev pub en_admin : AdminMessages
en_admin = record {
  badge = "Admin";
  loading = "Loading admin panel...";
  tabs = record {
    overview = "Overview";
    users = "Users";
    providers = "Providers";
    models = "Models";
    keys = "Provider Keys";
  };
  stats = record {
    total_users = "Total Users";
    total_requests = "Total Requests";
    total_cost = "Total Cost";
    total_tokens = "Total Tokens";
    active_keys = "Active Keys";
  };
  user_management = "USER MANAGEMENT";
  user_id = "User ID";
  amount = "Amount ($)";
  reason = "Reason";
  add_balance = "Add Balance";
  col_id = "ID";
  col_email = "Email";
  col_name = "Name";
  col_role = "Role";
  col_balance = "Balance";
  col_joined = "Joined";
  providers_title = "PROVIDERS";
  col_base_url = "Base URL";
  models_title = "MODEL CONFIGURATIONS";
  col_public_name = "Public Name";
  col_upstream = "Upstream Model";
  col_max_tokens = "Max Tokens";
  keys_title = "UPSTREAM API KEYS";
  provider_id = "Provider ID";
  select_provider = "Select...";
  api_key = "API Key";
  rpm = "RPM";
  add_key = "Add Key";
  col_provider = "Provider";
  col_key_prefix = "Key Prefix";
  no_provider_keys = "No provider keys configured";
}

abbrev pub en_status : StatusMessages
en_status = record {
  title = "UniLLM Status";
  subtitle = "Real-time provider health monitoring";
  fetch_error = "Failed to fetch status";
  last_updated = "Last updated";
  auto_refresh = "Auto-refreshes every 30 seconds";
  overall = "Overall Status";
  providers = "Providers";
  latency = "Latency";
  circuit = "Circuit";
  no_data = "No provider data available";
  operational = "All Systems Operational";
  degraded = "Some Systems Degraded";
  circuit_label = "circuit";
}

abbrev pub en_logs : LogsMessages
en_logs = record {
  no_requests = "No requests yet";
  col_time = "Time";
  col_model = "Model";
  col_tokens = "Tokens";
  col_cost = "Cost";
  col_latency = "Latency";
  col_status = "Status";
}
