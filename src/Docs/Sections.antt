-- ===== src/Docs/Sections.antt =====
-- What the side bar of web/src/app/docs/page.tsx offers, and what it leads to.
use mathlib.Core.Logic.Or
use uni_llm.Prelude.{
  All, List, String, [], if◌then◌else◌, keep, lookup, map, refl, some, some_of, true, ◌===◌, ◌∷◌,
  ◌≡◌,
}
use uni_llm.I18n.{Locale, en_locale, messages_map, zh_cn_locale}
use uni_llm.Docs.{
  Choice, Content, DocsPage, LanguageTab, SdkLanguage, SdkView, Section, active_section, content,
  examples, label_of, press_button, sdk_section, section_label, sections, show_language,
  show_section, text,
}
use uni_llm.Docs.Markdown.{markdown}
use uni_llm.I18n.Shape.{Messages}

-- What a button leads to: the section with that identifier.
abbrev pub IsOffered : Choice → Type 0
IsOffered (show_section id) = some_of (λ (s : Section). s.id === id) sections ≡ true
IsOffered (show_language l) = Unit

unfoldable pub press_all : List Choice → DocsPage → DocsPage
press_all [] p = p
press_all (c ∷ cs) p = press_all cs (press_button c p)

abbrev HasSection : DocsPage → Type 0
HasSection p = some_of (λ (s : Section). s.id === p.active) sections ≡ true

-- What a section shows.
abbrev pub shown_for : Messages → SdkLanguage → Section → Content
shown_for t l s =
    if s.id === "sdks" then examples (sdk_section t l) else text (markdown (content s))

-- The tabs that are marked.
abbrev pub active_tabs : SdkView → List SdkLanguage
active_tabs v =
    map (λ (b : LanguageTab). b.selects) (keep (λ (b : LanguageTab). b.is_active) v.tabs)

-- In every locale each section has a label of the catalog, and its button makes it the active section.
pub sections_lem :
    (l : Locale) (p : DocsPage)
    → All
        (λ (s : Section).
          ((label : String) × (label_of (messages_map l) s.id ≡ some label)
            × (section_label (messages_map l) s.id ≡ label))
          × (active_section (press_button (show_section s.id) p) ≡ some s))
        sections
unfolding sections label_of section_label active_section press_button lookup
sections_lem en_locale p = (
  ((_, refl, refl), refl),
  (
    ((_, refl, refl), refl),
    (
      ((_, refl, refl), refl),
      (
        ((_, refl, refl), refl),
        (
          ((_, refl, refl), refl),
          (
            ((_, refl, refl), refl),
            (
              ((_, refl, refl), refl),
              (((_, refl, refl), refl), (((_, refl, refl), refl), (((_, refl, refl), refl), tt))),
            ),
          ),
        ),
      ),
    ),
  ),
)
sections_lem zh_cn_locale p = (
  ((_, refl, refl), refl),
  (
    ((_, refl, refl), refl),
    (
      ((_, refl, refl), refl),
      (
        ((_, refl, refl), refl),
        (
          ((_, refl, refl), refl),
          (
            ((_, refl, refl), refl),
            (
              ((_, refl, refl), refl),
              (((_, refl, refl), refl), (((_, refl, refl), refl), (((_, refl, refl), refl), tt))),
            ),
          ),
        ),
      ),
    ),
  ),
)
