-- ===== src/I18n/Shape/Site.antt =====
-- The messages of the public pages, as web/src/lib/i18n/messages/en.ts nests them.
use Prim.Native.String.{String}

pub record NavMessages : Type 0 where
  pub models : String
  pub playground : String
  pub docs : String
  pub calculator : String
  pub sign_in : String
  pub dashboard : String
  pub logout : String

pub record ThemeMessages : Type 0 where
  pub switch_to_light : String
  pub switch_to_dark : String

pub record LocaleMessages : Type 0 where
  pub label : String

pub record FeatureMessages : Type 0 where
  pub title : String
  pub description : String

pub record HomeFeaturesMessages : Type 0 where
  pub openai : FeatureMessages
  pub pricing : FeatureMessages
  pub multi_vendor : FeatureMessages
  pub failover : FeatureMessages
  pub dashboard : FeatureMessages
  pub dev_first : FeatureMessages

pub record HomeMessages : Type 0 where
  pub hero_title : String
  pub hero_title_highlight : String
  pub hero_subtitle : String
  pub get_started : String
  pub view_models : String
  pub terminal : String
  pub stats_models : String
  pub stats_vendors : String
  pub stats_uptime : String
  pub stats_latency : String
  pub features_title : String
  pub features_subtitle : String
  pub models_title : String
  pub models_subtitle : String
  pub loading_models : String
  pub no_models : String
  pub view_all_models : String
  pub input : String
  pub output : String
  pub per_million : String
  pub pricing_title : String
  pub pricing_subtitle : String
  pub pricing_model : String
  pub pricing_input : String
  pub pricing_output : String
  pub pricing_loading : String
  pub start_free_credit : String
  pub footer : String
  pub features : HomeFeaturesMessages

pub record LoginMessages : Type 0 where
  pub tagline : String
  pub sign_in : String
  pub create_account : String
  pub name : String
  pub email : String
  pub password : String
  pub name_placeholder : String
  pub email_placeholder : String
  pub password_placeholder : String
  pub loading : String
  pub has_account : String
  pub no_account : String
  pub register : String
  pub failed : String

pub record ModelsMessages : Type 0 where
  pub title : String
  pub subtitle : String
  pub search_placeholder : String
  pub all_vendors : String
  pub all_capabilities : String
  pub vision : String
  pub tools : String
  pub streaming : String
  pub loading : String
  pub no_results : String
  pub input : String
  pub output : String
  pub max_tokens : String
  pub quick_start : String

pub record CalculatorMessages : Type 0 where
  pub title : String
  pub subtitle : String
  pub select_model : String
  pub input_tokens_per_request : String
  pub output_tokens_per_request : String
  pub requests_per_day : String
  pub cost_per_request : String
  pub daily_cost : String
  pub monthly_cost : String
  pub yearly_cost : String
  pub compare_title : String
  pub col_model : String
  pub col_vendor : String
  pub col_input : String
  pub col_output : String
  pub col_per_request : String
  pub col_daily : String
  pub col_monthly : String
  pub loading : String
