-- ===== src/Docs/View.antt =====
-- What the documentation page of web/src/app/docs/page.tsx shows. The node that the header is given stands
-- among its children.
use uni_llm.Prelude.{[], if◌then◌else◌, ◌===◌, ◌∷◌}
use uni_llm.I18n.Shape.{Messages}
use uni_llm.Markup.{View, attr, each, nothing, on, say, style, tag, ◌<&>◌}
use uni_llm.Docs.Blocks.{block_view}
use uni_llm.Docs.{
  Choice, Content, DocsPage, SdkLanguage, main_content, sdk_examples, sdk_languages, sdk_name,
  section_label, sections, show_language, show_section,
}

unfoldable pub sdk_view : Messages → SdkLanguage → View Choice
sdk_view t selected = tag "div" [] (
    (tag "h2" (attr "className" "text-xl font-bold mb-4 mt-2" ∷ []) (say t.docs.sdk_examples))
    <&> (tag "p"
        (attr "className" "text-sm mb-4 leading-relaxed"
          ∷ style (("color", "var(--muted)") ∷ [])
          ∷ [])
        (say
          "UniLLM is compatible with any OpenAI SDK or HTTP client. Select your preferred language below."))
    <&> (tag "div"
        (attr "className" "flex flex-wrap gap-1 mb-4 p-1 rounded-lg"
          ∷ style (("background", "var(--card)") ∷ ("border", "1px solid var(--border)") ∷ [])
          ∷ [])
        (each sdk_languages (λ lang.
          tag "button"
            (on "onClick" (show_language lang)
              ∷ attr "className" "px-3 py-1.5 rounded text-xs font-medium transition-colors"
              ∷ style (
                  (
                    "background",
                    (if (sdk_name selected === sdk_name lang)
                        then "var(--primary)"
                        else "transparent"),
                  )
                  ∷ (
                    "color",
                    (if (sdk_name selected === sdk_name lang) then "white" else "var(--muted)"),
                  )
                  ∷ [])
              ∷ [])
            (say (sdk_name lang)))))
    <&> (tag "pre"
        (attr "className" "rounded-lg p-4 text-xs overflow-x-auto mb-4 font-mono"
          ∷ style (("background", "#1a1a2e") ∷ ("border", "1px solid var(--border)") ∷ [])
          ∷ [])
        ((tag "div" (attr "className" "text-[10px] text-[var(--muted)] mb-2 uppercase" ∷ [])
            (say ((sdk_examples selected).lang)))
          <&> (tag "code" [] (say ((sdk_examples selected).code))))))

unfoldable pub trailing : Messages → View Choice
trailing t =
    tag "span" (attr "className" "text-sm text-[var(--muted)] hidden sm:inline" ∷ [])
      (say t.docs.title)

unfoldable pub side_nav : Messages → DocsPage → View Choice
side_nav t p =
    tag "nav"
      (attr "className" "w-48 shrink-0 border-r p-4 space-y-1"
        ∷ style (("borderColor", "var(--border)") ∷ [])
        ∷ [])
      (each sections (λ s.
        tag "button"
          (on "onClick" (show_section s.id)
            ∷ attr "className"
                "block w-full text-left px-3 py-1.5 rounded text-sm transition-colors"
            ∷ style (
                ("background", (if (p.active === s.id) then "var(--primary)" else "transparent"))
                ∷ ("color", (if (p.active === s.id) then "white" else "var(--muted)"))
                ∷ [])
            ∷ [])
          (say (section_label t s.id))))

-- What stands in `<main>`, for the selected language.
unfoldable pub content_view : Messages → SdkLanguage → Content → View Choice
content_view t selected Content.nothing = nothing
content_view t selected (Content.examples v) = sdk_view t selected
content_view t selected (Content.text bs) = each bs block_view

unfoldable pub docs_view : Messages → DocsPage → View Choice
docs_view t p = tag "div" (attr "className" "min-h-screen flex flex-col" ∷ []) (
    (tag "SiteHeader" (attr "activeNav" "docs" ∷ []) (trailing t))
    <&> (tag "div" (attr "className" "flex flex-1 max-w-6xl mx-auto w-full" ∷ []) (
        (side_nav t p)
        <&> (tag "main" (attr "className" "flex-1 p-8 max-w-3xl" ∷ [])
            (content_view t p.sdk_lang (main_content t p))))))
