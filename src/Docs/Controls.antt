-- ===== src/Docs/Controls.antt =====
-- What can be pressed on the documentation page of web/src/app/docs/page.tsx.
use mathlib.Core.List.{append-nil}
use uni_llm.Prelude.{List, [], map, refl, ◌++◌, ◌∙◌, ◌≡◌}
use uni_llm.I18n.Shape.{Messages}
use uni_llm.Markup.Clicks.{
  clicks, clicks-beside, clicks-beside_none, clicks-each_none, clicks-each_one, clicks-if_none,
}
use uni_llm.Docs.{
  Choice, Content, DocsPage, SdkLanguage, Section, main_content, sdk_languages, sections,
  show_language, show_section,
}
use uni_llm.Docs.Inline.{Part, code_span, plain, strong_span}
use uni_llm.Docs.Markdown.{Block, code_block, heading, paragraph, subheading, table}
use uni_llm.Docs.Blocks.{
  block_view, code_part, code_view, heading_view, paragraph_view, part_view, subheading_view,
  table_view,
}
use uni_llm.Docs.View.{content_view, docs_view, sdk_view, side_nav, trailing}

clicks-part_view : (p : Part) → clicks (part_view p) ≡ []
unfolding part_view code_part
clicks-part_view (plain s) = refl
clicks-part_view (code_span s) = refl
clicks-part_view (strong_span s) = refl

clicks-block_view : (b : Block) → clicks (block_view b) ≡ []
unfolding block_view code_view heading_view subheading_view table_view paragraph_view
clicks-block_view (code_block lang lines) =
    append-nil _ ∙ search (clicks-beside_none, clicks-if_none)
clicks-block_view (heading title) = refl
clicks-block_view (subheading title) = refl
clicks-block_view (table headers rows) =
    rw
      (
        clicks-each_none headers _ (λ h. refl),
        clicks-each_none rows _ (λ r. append-nil _ ∙ clicks-each_none r _ (λ c. refl)),
      )
      refl
clicks-block_view (paragraph parts) = rw (clicks-each_none parts _ clicks-part_view) refl

clicks-sdk_view :
    (t : Messages) (l : SdkLanguage) → clicks (sdk_view t l) ≡ map show_language sdk_languages
unfolding sdk_view
clicks-sdk_view t l = refl

clicks-side_nav :
    (t : Messages) (p : DocsPage)
    → clicks (side_nav t p) ≡ map (λ (s : Section). show_section s.id) sections
unfolding side_nav
clicks-side_nav t p = append-nil _ ∙ clicks-each_one sections _ _ (λ s. refl)

-- What the content offers: the languages, if it is the examples.
abbrev pub offered : Content → List Choice
offered (Content.examples v) = map show_language sdk_languages
offered _ = []

clicks-content_view :
    (t : Messages) (l : SdkLanguage) (c : Content) → clicks (content_view t l c) ≡ offered c
unfolding content_view
clicks-content_view t l Content.nothing = refl
clicks-content_view t l (Content.examples v) = clicks-sdk_view t l
clicks-content_view t l (Content.text bs) = clicks-each_none bs _ clicks-block_view

-- On the documentation page a button for each section can be pressed, in their order, and, on the section of
-- the examples alone, one for each language; there is no other.
pub clicks-docs_view :
    (t : Messages) (p : DocsPage)
    → clicks (docs_view t p)
      ≡ map (λ (s : Section). show_section s.id) sections ++ offered (main_content t p)
unfolding docs_view trailing
clicks-docs_view t p = simp (append-nil, clicks-beside, clicks-side_nav, clicks-content_view)
