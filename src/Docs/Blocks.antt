-- ===== src/Docs/Blocks.antt =====
-- The elements that `MarkdownContent` and `renderInline` of web/src/app/docs/page.tsx push.
use uni_llm.Prelude.{List, String, [], join_lines, truthy, ◌∷◌}
use uni_llm.Markup.{View, attr, each, say, style, tag, when, ◌<&>◌}
use uni_llm.Docs.{Choice}
use uni_llm.Docs.Inline.{Part, code_span, plain, strong_span}
use uni_llm.Docs.Markdown.{Block, code_block, heading, paragraph, subheading, table}

unfoldable pub code_part : String → View Choice
code_part found =
    tag "code"
      (attr "className" "px-1 py-0.5 rounded text-xs font-mono"
        ∷ style (("background", "var(--card)") ∷ ("border", "1px solid var(--border)") ∷ [])
        ∷ [])
      (say found)

unfoldable pub part_view : Part → View Choice
part_view (plain s) = say s
part_view (code_span s) = code_part s
part_view (strong_span s) = tag "strong" [] (say s)

unfoldable pub code_view : String → List String → View Choice
code_view lang lines =
    tag "pre"
      (attr "className" "rounded-lg p-4 text-xs overflow-x-auto mb-4 font-mono"
        ∷ style (("background", "#1a1a2e") ∷ ("border", "1px solid var(--border)") ∷ [])
        ∷ [])
      ((when (truthy lang) (
          tag "div" (attr "className" "text-[10px] text-[var(--muted)] mb-2 uppercase" ∷ [])
            (say lang)))
        <&> (tag "code" [] (say (join_lines lines))))

unfoldable pub heading_view : String → View Choice
heading_view title = tag "h2" (attr "className" "text-xl font-bold mb-4 mt-2" ∷ []) (say title)

unfoldable pub subheading_view : String → View Choice
subheading_view title =
    tag "h3" (attr "className" "text-base font-semibold mb-3 mt-4" ∷ []) (say title)

unfoldable pub table_view : List String → List (List String) → View Choice
table_view headers rows = tag "div" (attr "className" "overflow-x-auto mb-4" ∷ []) (
    tag "table" (attr "className" "w-full text-sm" ∷ []) (
      (tag "thead" [] (
        tag "tr" (attr "className" "text-left text-[var(--muted)]" ∷ [])
          (each headers (λ h. tag "th" (attr "className" "pb-2 pr-4" ∷ []) (say h)))))
      <&> (tag "tbody" [] (
          each rows (λ row.
            tag "tr"
              (attr "className" "border-t" ∷ style (("borderColor", "var(--border)") ∷ []) ∷ [])
              (each row (λ cell.
                tag "td" (attr "className" "py-2 pr-4 font-mono text-xs" ∷ []) (say cell))))))))

unfoldable pub paragraph_view : List Part → View Choice
paragraph_view parts =
    tag "p" (attr "className" "text-sm mb-3 leading-relaxed" ∷ []) (each parts part_view)

unfoldable pub block_view : Block → View Choice
block_view (code_block lang lines) = code_view lang lines
block_view (heading title) = heading_view title
block_view (subheading title) = subheading_view title
block_view (table headers rows) = table_view headers rows
block_view (paragraph parts) = paragraph_view parts
