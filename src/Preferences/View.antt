-- ===== src/Preferences/View.antt =====
-- What web/src/components/PreferencesBar.tsx, ThemeToggle.tsx and LocaleSwitcher.tsx show. The events are
-- what a click hands to `setTheme` or `setLocale`.
use uni_llm.Prelude.{
  Bool, List, Option, String, [], false, if◌then◌else◌, map, none, not, refl, some, true, ◌∷◌, ◌≡◌,
}
use uni_llm.I18n.Shape.{Messages}
use uni_llm.I18n.{Locale, locale_label}
use uni_llm.Markup.{View, attr, each, flag, nothing, on, say, style, tag, ◌<&>◌}
use uni_llm.Markup.Clicks.{clicks}
use uni_llm.Preferences.{is_dark, locales, same_locale, theme_toggle}

module _ {E : Type 0} (set_theme : String → E) (set_locale : Locale → E) where
  -- `ThemeToggle`; `none` is a theme that is `undefined`.
  unfoldable pub theme_view : Messages → Bool → Option String → View E
  theme_view t mounted resolved =
      if not mounted
      then tag "button"
          (attr "type" "button"
            ∷ attr "className" "w-9 h-9 rounded-lg"
            ∷ style (("border", "1px solid var(--border)") ∷ [])
            ∷ flag "aria-hidden" true
            ∷ [])
          nothing
      else let dark = is_dark resolved in
        tag "button"
          (attr "type" "button"
            ∷ on "onClick" (set_theme (if dark then "light" else "dark"))
            ∷ attr "className"
                "w-9 h-9 rounded-lg flex items-center justify-center text-base transition-colors hover:opacity-80"
            ∷ style (
                ("border", "1px solid var(--border)")
                ∷ ("background", "var(--card)")
                ∷ ("color", "var(--foreground)")
                ∷ [])
            ∷ attr "aria-label" (if dark then t.theme.switch_to_light else t.theme.switch_to_dark)
            ∷ attr "title" (if dark then t.theme.switch_to_light else t.theme.switch_to_dark)
            ∷ [])
          (say (if dark then "☀" else "☾"))

  unfoldable pub locale_button : Locale → Locale → View E
  locale_button chosen loc =
      let active = same_locale chosen loc in
      tag "button"
        (attr "type" "button"
          ∷ on "onClick" (set_locale loc)
          ∷ attr "className" "px-2.5 py-1.5 transition-colors"
          ∷ style (
              ("background", if active then "var(--primary)" else "var(--card)")
              ∷ ("color", if active then "#fff" else "var(--muted)")
              ∷ [])
          ∷ [])
        (say (locale_label loc))

  -- `LocaleSwitcher`
  unfoldable pub locale_view : Messages → Locale → View E
  locale_view t chosen =
      tag "div"
        (attr "className" "flex rounded-lg overflow-hidden text-xs font-medium"
          ∷ style (("border", "1px solid var(--border)") ∷ [])
          ∷ attr "role" "group"
          ∷ attr "aria-label" t.locale.label
          ∷ [])
        (each locales (locale_button chosen))

  -- `PreferencesBar`
  unfoldable pub preferences_view : Messages → Bool → Option String → Locale → View E
  preferences_view t mounted resolved chosen =
      tag "div" (attr "className" "flex items-center gap-2" ∷ [])
        (theme_view t mounted resolved <&> locale_view t chosen)

  -- What can be pressed in the bar: the theme button once it is mounted, and each locale.
  abbrev pub bar_clicks : Messages → Bool → Option String → List E
  bar_clicks t mounted resolved = elim (theme_toggle t mounted resolved) [
    | none ↦ map set_locale locales
    | some b ↦ set_theme b.next_theme ∷ map set_locale locales
  ]

  pub clicks-preferences_view :
      (t : Messages) (mounted : Bool) (resolved : Option String) (chosen : Locale)
      → clicks (preferences_view t mounted resolved chosen) ≡ bar_clicks t mounted resolved
  unfolding preferences_view theme_view locale_view locale_button theme_toggle
  clicks-preferences_view t false resolved chosen = refl
  clicks-preferences_view t true resolved chosen = refl
