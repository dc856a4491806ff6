-- ===== src/Preferences.antt =====
-- The two controls of web/src/components/PreferencesBar.tsx: ThemeToggle.tsx and LocaleSwitcher.tsx.
-- The theme is kept by the package next-themes: what `resolvedTheme` holds is an argument, with
-- `none` for `undefined`, and `setTheme` is the value that a click hands to it.
pub mod Switches
pub mod View
use uni_llm.Prelude.{
  Bool, List, Option, String, [], false, if◌then◌else◌, map, none, not, some, true, ◌===◌, ◌∷◌,
}
use uni_llm.I18n.Shape.{Messages}
use uni_llm.I18n.{Locale, Provider, choose, en_locale, locale_label, zh_cn_locale}

pub record ThemeButton : Type 0 where
  pub icon : String
  pub label : String
  pub next_theme : String

abbrev pub is_dark : Option String → Bool
is_dark none = true
is_dark (some theme) = not (theme === "light")

-- `ThemeToggle`: before its effect a button without a function, then one that changes the theme.
unfoldable pub theme_toggle : Messages → Bool → Option String → Option ThemeButton
theme_toggle t mounted resolved =
    if not mounted
    then none
    else some (record {
      icon = if is_dark resolved then "☀" else "☾";
      label = if is_dark resolved then t.theme.switch_to_light else t.theme.switch_to_dark;
      next_theme = if is_dark resolved then "light" else "dark";
    })

pub record LocaleButton : Type 0 where
  pub locale : Locale
  pub active : Bool
  pub label : String

abbrev pub same_locale : Locale → Locale → Bool
same_locale en_locale en_locale = true
same_locale zh_cn_locale zh_cn_locale = true
same_locale _ _ = false

-- `LOCALES`
abbrev pub locales : List Locale
locales = en_locale ∷ zh_cn_locale ∷ []

abbrev pub buttons_of : Locale → List LocaleButton
buttons_of shown =
    map (λ l. record { locale = l; active = same_locale shown l; label = locale_label l }) locales

unfoldable pub locale_buttons : Provider → List LocaleButton
locale_buttons p = buttons_of p.locale

-- A click on a button of `LocaleSwitcher`.
unfoldable pub press_locale : LocaleButton → Provider → Provider
press_locale b p = choose b.locale p
