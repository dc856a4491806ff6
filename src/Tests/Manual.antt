-- ===== src/Tests/Manual.antt =====
-- The properties of the documentation page, on short texts.
use uni_llm.Prelude.{All, List, String, [], join_lines, length, refl, ◌++◌, ◌<◌, ◌∷◌, ◌≡◌}
use uni_llm.Docs.{Choice, go, show_language, show_section}
use uni_llm.Docs.Inline.{
  code_span, find_match, match_here, open_span, plain, render_inline, strong_span,
}
use uni_llm.Docs.Markdown.{
  Block, blocks_of, code_block, heading, markdown, next_block, paragraph, subheading, table,
}
use uni_llm.Docs.Spans.{Reads, render_inline_lem}
use uni_llm.Docs.Loop.{blocks_of-next}
use uni_llm.Docs.Print.{IsPrintable, markdown-print_all, print_all}
use uni_llm.Docs.Source.{source_all}

abbrev remark : String
remark = "Send `a` or **b**, not ``."

render_inline_lem_example :
    (source_all (render_inline remark) ≡ remark) × Reads remark (render_inline remark)
render_inline_lem_example = render_inline_lem remark

remark_parts :
    render_inline remark
    ≡ plain "Send " ∷ code_span "a" ∷ plain " or " ∷ strong_span "b" ∷ plain ", not ``." ∷ []
unfolding render_inline find_match match_here open_span
remark_parts = refl

abbrev manual : List Block
manual =
    heading "Use"
    ∷ paragraph (plain "Send " ∷ code_span "a" ∷ plain "." ∷ [])
    ∷ code_block "json" ("{" ∷ "  1" ∷ "}" ∷ [])
    ∷ table ("Code" ∷ "Meaning" ∷ []) (("401" ∷ "No key" ∷ []) ∷ [])
    ∷ subheading "More"
    ∷ []

manual-IsPrintable : All IsPrintable manual
manual-IsPrintable = search

markdown-print_all_example : markdown (join_lines (print_all manual)) ≡ manual
markdown-print_all_example = markdown-print_all manual manual-IsPrintable search

abbrev below_title : List String
below_title = "a | b" ∷ "---|---" ∷ "1 | 2" ∷ "" ∷ []

blocks_of-next_example :
    (blocks_of ("a | b" ∷ "---|---" ∷ "1 | 2" ∷ "" ∷ [])
      ≡ (next_block "a | b" ("---|---" ∷ "1 | 2" ∷ "" ∷ [])).0
        ++ blocks_of (next_block "a | b" ("---|---" ∷ "1 | 2" ∷ "" ∷ [])).1)
    × (length {A = String} (next_block "a | b" ("---|---" ∷ "1 | 2" ∷ "" ∷ [])).1
        < length {A = String} ("a | b" ∷ "---|---" ∷ "1 | 2" ∷ "" ∷ []))
blocks_of-next_example = blocks_of-next "a | b" ("---|---" ∷ "1 | 2" ∷ "" ∷ [])

abbrev presses : List Choice
presses = show_section "sdks" ∷ show_language go ∷ []
