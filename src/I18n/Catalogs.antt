-- ===== src/I18n/Catalogs.antt =====
-- The two message catalogs of web/src/lib/i18n/messages/, whole.
use uni_llm.I18n.Shape.{Messages}
use uni_llm.I18n.EnSite.{
  en_calculator, en_common, en_dashboard, en_home, en_locale, en_login, en_models, en_nav, en_theme,
}
use uni_llm.I18n.EnConsole.{en_admin, en_docs, en_logs, en_playground, en_status}
use uni_llm.I18n.ZhSite.{
  zh_calculator, zh_common, zh_dashboard, zh_home, zh_locale, zh_login, zh_models, zh_nav, zh_theme,
}
use uni_llm.I18n.ZhConsole.{zh_admin, zh_docs, zh_logs, zh_playground, zh_status}

abbrev pub en : Messages
en = record {
  nav = en_nav;
  theme = en_theme;
  locale = en_locale;
  home = en_home;
  login = en_login;
  models = en_models;
  calculator = en_calculator;
  common = en_common;
  dashboard = en_dashboard;
  playground = en_playground;
  docs = en_docs;
  admin = en_admin;
  status = en_status;
  logs = en_logs;
}

abbrev pub zh_cn : Messages
zh_cn = record {
  nav = zh_nav;
  theme = zh_theme;
  locale = zh_locale;
  home = zh_home;
  login = zh_login;
  models = zh_models;
  calculator = zh_calculator;
  common = zh_common;
  dashboard = zh_dashboard;
  playground = zh_playground;
  docs = zh_docs;
  admin = zh_admin;
  status = zh_status;
  logs = zh_logs;
}
