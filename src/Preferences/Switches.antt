-- ===== src/Preferences/Switches.antt =====
-- What a click on the controls of web/src/components/PreferencesBar.tsx leads to.
use uni_llm.Prelude.{String, [], ap, inl, inr, keep, refl, some, true, ◌∙◌, ◌∷◌, ◌≡◌, ◌≢◌, ◌⊎◌}
use uni_llm.I18n.Shape.{Messages}
use uni_llm.I18n.{Locale, Provider, en_locale, locale_label, zh_cn_locale}
use uni_llm.Preferences.{
  LocaleButton, ThemeButton, buttons_of, locale_buttons, press_locale, theme_toggle,
}
use uni_llm.I18n.Persistence.{locale-choose}

-- Once the bar is mounted, with the light or the dark theme on the page, a click on the theme button asks
-- for the other of the two, and a second click asks for the first one again.
pub theme_round_trip :
    (t : Messages) (theme : String)
    → (theme ≡ "light") ⊎ (theme ≡ "dark")
    → (b : ThemeButton) × (c : ThemeButton) × (theme_toggle t true (some theme) ≡ some b)
      × (theme_toggle t true (some b.next_theme) ≡ some c)
      × (b.next_theme ≢ theme)
      × (c.next_theme ≡ theme)
unfolding theme_toggle
theme_round_trip t theme (inl e) = rw e (_, _, refl, refl, (λ k. cc), refl)
theme_round_trip t theme (inr e) = rw e (_, _, refl, refl, (λ k. cc), refl)

only_active :
    (l : Locale)
    → keep (λ (c : LocaleButton). c.active) (buttons_of l)
      ≡ record { locale = l; active = true; label = locale_label l } ∷ []
only_active en_locale = refl
only_active zh_cn_locale = refl

-- After a click on a button of the locale switcher, exactly the button of that locale is active.
pub pressed_is_active :
    (b : LocaleButton) (p : Provider)
    → keep (λ (c : LocaleButton). c.active) (locale_buttons (press_locale b p))
      ≡ record { locale = b.locale; active = true; label = locale_label b.locale } ∷ []
unfolding press_locale locale_buttons
pressed_is_active b p =
    ap (λ l. keep (λ (c : LocaleButton). c.active) (buttons_of l)) (locale-choose b.locale p)
    ∙ only_active b.locale
