-- ===== src/Docs/Markdown.antt =====
-- `MarkdownContent` of web/src/app/docs/page.tsx: the blocks of a text. The position `i` in the array of
-- lines is the list of the lines that are left. Docs/Blocks has the markup of a block.
use Prim.Native.Char.{code}
use Prim.Native.String.{[] as no_text, ◌∷◌ as char_then}
use uni_llm.Prelude.{
  Bool, List, String, [], cons_line, false, if◌then◌else◌, includes, keep, length, map, none, some,
  split_lines, starts_with, strip_prefix, suc, trim, truthy, zero, ℕ, ◌&&◌, ◌++◌, ◌==◌, ◌∷◌,
}
use uni_llm.Docs.Inline.{Part, render_inline}

-- `<pre>` with its language ("" if none is shown), `<h2>`, `<h3>`, `<table>` and `<p>`.
pub data Block : Type 0 where
  code_block : (lang : String) (lines : List String) → Block
  heading subheading : String → Block
  table : (headers : List String) (rows : List (List String)) → Block
  paragraph : List Part → Block

-- The lines up to the closing fence, and those behind it.
unfoldable pub take_code : List String → List String × List String
take_code [] = ([], [])
take_code (l ∷ ls) =
    let (lines, rest) = take_code ls in if starts_with l "```" then ([], ls) else (l ∷ lines, rest)

-- `line.split("|")`
unfoldable pub split_bar : String → List String
split_bar no_text = "" ∷ []
split_bar (char_then c s) = if code c == 124 then "" ∷ split_bar s else cons_line c (split_bar s)

-- `line.split("|").filter(Boolean).map((h) => h.trim())`
unfoldable pub cells : String → List String
unfolding split_bar
cells line = map trim (keep truthy (split_bar line))

unfoldable pub take_rows : List String → List (List String) × List String
unfolding cells
take_rows [] = ([], [])
take_rows (l ∷ ls) =
    let (rows, rest) = take_rows ls in
    if includes l "|" then (cells l ∷ rows, rest) else ([], l ∷ ls)

-- `lines[i + 1]?.includes("---")`
unfoldable pub is_rule_next : List String → Bool
is_rule_next [] = false
is_rule_next (l ∷ ls) = includes l "---"

abbrev pub tail : List String → List String
tail [] = []
tail (l ∷ ls) = ls

-- A line that is no fence, no heading and no table.
unfoldable pub paragraph_of : String → List Block
paragraph_of line = if truthy (trim line) then paragraph (render_inline line) ∷ [] else []

unfoldable pub table_of : String → List String → List Block × List String
table_of line ls = let (rows, rest) = take_rows (tail ls) in (table (cells line) rows ∷ [], rest)

unfoldable pub fence_of : String → List String → List Block × List String
fence_of lang ls = let (lines, rest) = take_code ls in (code_block (trim lang) lines ∷ [], rest)

-- One round of the loop, at the line `line` before `ls`: the elements that it pushes, and the lines
-- that are left.
unfoldable pub next_block : String → List String → List Block × List String
unfolding take_code cells take_rows is_rule_next paragraph_of table_of fence_of
next_block line ls = elim (strip_prefix "```" line) [
  | some lang ↦ fence_of lang ls
  | none ↦ elim (strip_prefix "## " line) [
    | some title ↦ (heading title ∷ [], ls)
    | none ↦ elim (strip_prefix "### " line) [
      | some title ↦ (subheading title ∷ [], ls)
      | none ↦
          if includes line "|" && is_rule_next ls then table_of line ls else (paragraph_of line, ls)
    ]
  ]
]

unfoldable pub blocks_loop : ℕ → List String → List Block
unfolding next_block
blocks_loop zero ls = []
blocks_loop (suc f) [] = []
blocks_loop (suc f) (l ∷ ls) = let (made, rest) = next_block l ls in made ++ blocks_loop f rest

-- Each round takes a line, so the number of lines is enough.
unfoldable pub blocks_of : List String → List Block
unfolding blocks_loop
blocks_of ls = blocks_loop (length ls) ls

unfoldable pub markdown : String → List Block
unfolding blocks_of
markdown content = blocks_of (split_lines content)
