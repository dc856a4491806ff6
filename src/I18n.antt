-- ===== src/I18n.antt =====
-- web/src/lib/i18n/: the locales, and the provider that keeps the chosen one.
-- React runs the effects of a component in order after a render, and again after a render in which
-- one of their dependencies has changed: `mounted_provider` and `choose` are written so.
pub mod Shape
mod EnSite
mod EnConsole
mod ZhSite
mod ZhConsole
pub mod Catalogs
pub mod Persistence
use uni_llm.Prelude.{
  Bool, List, Option, String, [], false, if◌then◌else◌, none, some, true, ◌===◌, ◌∷◌,
}
use uni_llm.Net.{Browser, Outcome, err, get_item, ok, set_item}
use uni_llm.I18n.Shape.{Messages}
use uni_llm.I18n.Catalogs.{en, zh_cn}

pub data Locale : Type 0 where
  en_locale zh_cn_locale : Locale

abbrev pub locale_storage_key : String
locale_storage_key = "unillm-locale"

abbrev pub default_locale : Locale
default_locale = en_locale

-- The text that stands for a locale in the storage.
abbrev pub locale_tag : Locale → String
locale_tag en_locale = "en"
locale_tag zh_cn_locale = "zh-CN"

abbrev pub locale_label : Locale → String
locale_label en_locale = "EN"
locale_label zh_cn_locale = "中文"

abbrev pub messages_map : Locale → Messages
messages_map en_locale = en
messages_map zh_cn_locale = zh_cn

-- `readStoredLocale`
unfoldable pub read_stored_locale : Browser → Locale
read_stored_locale b =
    if b.has_window
    then elim (get_item locale_storage_key b) [
      | none ↦ default_locale
      | some stored ↦
          if stored === "en"
          then en_locale
          else if stored === "zh-CN"
          then zh_cn_locale
          else default_locale
    ]
    else default_locale

-- The state of `I18nProvider`, with what it writes: the storage and `document.documentElement.lang`.
pub record Provider : Type 0 where
  pub locale : Locale
  pub mounted : Bool
  pub browser : Browser
  pub lang : String

-- The first render.
unfoldable pub first_render : Browser → String → Provider
first_render b lang = record { locale = default_locale; mounted = false; browser = b; lang = lang }

-- `setLocaleState(readStoredLocale()); setMounted(true);`
unfoldable pub mount_effect : Provider → Provider
mount_effect p = record p { locale = read_stored_locale p.browser; mounted = true }

-- The effect with the dependencies `[locale, mounted]`.
unfoldable pub persist_effect : Provider → Provider
persist_effect p =
    if p.mounted
    then record p {
      lang = locale_tag p.locale;
      browser = set_item locale_storage_key (locale_tag p.locale) p.browser;
    }
    else p

unfoldable pub set_locale : Locale → Provider → Provider
set_locale l p = record p { locale = l }

-- After the first render both effects run with its values, where `mounted` is false, and the state
-- that the first one has set takes effect in the next render, after which the second runs again.
unfoldable pub mounted_provider : Browser → String → Provider
unfolding first_render mount_effect persist_effect
mounted_provider b lang = persist_effect (mount_effect (persist_effect (first_render b lang)))

-- A choice of the user, and the effect of the render that it causes.
unfoldable pub choose : Locale → Provider → Provider
unfolding set_locale persist_effect
choose l p = persist_effect (set_locale l p)

unfoldable pub choose_all : List Locale → Provider → Provider
unfolding choose
choose_all [] p = p
choose_all (l ∷ ls) p = choose_all ls (choose l p)

-- `value.t` of the context
abbrev pub messages_of : Provider → Messages
messages_of p = messages_map p.locale

-- `useI18n`: the context, or an exception outside a provider.
unfoldable pub use_i18n : Option Provider → Outcome Provider
use_i18n none = err "useI18n must be used within I18nProvider"
use_i18n (some p) = ok p
