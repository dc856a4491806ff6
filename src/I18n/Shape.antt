-- ===== src/I18n/Shape.antt =====
-- The shape of the message catalogs, `typeof en` of web/src/lib/i18n/messages/en.ts: one record for
-- each nested object.
mod Site
mod Console
pub use Site.{
  NavMessages, ThemeMessages, LocaleMessages, FeatureMessages, HomeFeaturesMessages, HomeMessages,
  LoginMessages, ModelsMessages, CalculatorMessages,
}
pub use Console.{
  CommonMessages, DashboardTabsMessages, DashboardStatsMessages, DashboardMessages,
  PlaygroundMessages, DocsSectionsMessages, DocsMessages, AdminTabsMessages, AdminStatsMessages,
  AdminMessages, StatusMessages, LogsMessages,
}

pub record Messages : Type 0 where
  pub nav : NavMessages
  pub theme : ThemeMessages
  pub locale : LocaleMessages
  pub home : HomeMessages
  pub login : LoginMessages
  pub models : ModelsMessages
  pub calculator : CalculatorMessages
  pub common : CommonMessages
  pub dashboard : DashboardMessages
  pub playground : PlaygroundMessages
  pub docs : DocsMessages
  pub admin : AdminMessages
  pub status : StatusMessages
  pub logs : LogsMessages
