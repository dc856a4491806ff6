-- ===== src/I18n/Shape/Console.antt =====
-- The messages of the pages behind the login, as web/src/lib/i18n/messages/en.ts nests them.
use Prim.Native.String.{String}

pub record CommonMessages : Type 0 where
  pub loading : String
  pub failed : String
  pub delete : String
  pub create : String
  pub enable : String
  pub disable : String
  pub active : String
  pub disabled : String
  pub action : String
  pub status : String
  pub confirm_delete_key : String

pub record DashboardTabsMessages : Type 0 where
  pub overview : String
  pub logs : String
  pub keys : String
  pub settings : String

pub record DashboardStatsMessages : Type 0 where
  pub total_requests : String
  pub total_tokens : String
  pub total_cost : String
  pub today_cost : String
  pub avg_latency : String
  pub success_rate : String

pub record DashboardMessages : Type 0 where
  pub balance : String
  pub tabs : DashboardTabsMessages
  pub stats : DashboardStatsMessages
  pub usage_trend : String
  pub usage_by_model : String
  pub no_usage : String
  pub recent_requests : String
  pub api_keys : String
  pub key_name_placeholder : String
  pub key_created_hint : String
  pub no_api_keys : String
  pub col_name : String
  pub col_key : String
  pub col_scope : String
  pub col_created : String
  pub change_password : String
  pub current_password : String
  pub new_password : String
  pub update_password : String
  pub password_changed : String
  pub chart_daily_requests : String
  pub chart_daily_cost : String

pub record PlaygroundMessages : Type 0 where
  pub title : String
  pub api_key : String
  pub api_key_placeholder : String
  pub model : String
  pub clear : String
  pub system_prompt : String
  pub system_prompt_placeholder : String
  pub empty_hint : String
  pub role_you : String
  pub role_assistant : String
  pub thinking : String
  pub message_placeholder : String
  pub need_api_key : String
  pub send : String
  pub empty_response : String
  pub request_failed : String
  pub default_system_prompt : String
  pub error_prefix : String

pub record DocsSectionsMessages : Type 0 where
  pub quickstart : String
  pub auth : String
  pub chat : String
  pub models : String
  pub streaming : String
  pub sdks : String
  pub functions : String
  pub errors : String
  pub ratelimits : String
  pub pricing : String

pub record DocsMessages : Type 0 where
  pub title : String
  pub sdk_intro : String
  pub sections : DocsSectionsMessages
  pub sdk_examples : String
  pub copy : String
  pub copied : String

pub record AdminTabsMessages : Type 0 where
  pub overview : String
  pub users : String
  pub providers : String
  pub models : String
  pub keys : String

pub record AdminStatsMessages : Type 0 where
  pub total_users : String
  pub total_requests : String
  pub total_cost : String
  pub total_tokens : String
  pub active_keys : String

pub record AdminMessages : Type 0 where
  pub badge : String
  pub loading : String
  pub tabs : AdminTabsMessages
  pub stats : AdminStatsMessages
  pub user_management : String
  pub user_id : String
  pub amount : String
  pub reason : String
  pub add_balance : String
  pub col_id : String
  pub col_email : String
  pub col_name : String
  pub col_role : String
  pub col_balance : String
  pub col_joined : String
  pub providers_title : String
  pub col_base_url : String
  pub models_title : String
  pub col_public_name : String
  pub col_upstream : String
  pub col_max_tokens : String
  pub keys_title : String
  pub provider_id : String
  pub select_provider : String
  pub api_key : String
  pub rpm : String
  pub add_key : String
  pub col_provider : String
  pub col_key_prefix : String
  pub no_provider_keys : String

pub record StatusMessages : Type 0 where
  pub title : String
  pub subtitle : String
  pub fetch_error : String
  pub last_updated : String
  pub auto_refresh : String
  pub overall : String
  pub providers : String
  pub latency : String
  pub circuit : String
  pub no_data : String
  pub operational : String
  pub degraded : String
  pub circuit_label : String

pub record LogsMessages : Type 0 where
  pub no_requests : String
  pub col_time : String
  pub col_model : String
  pub col_tokens : String
  pub col_cost : String
  pub col_latency : String
  pub col_status : String
