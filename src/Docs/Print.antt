-- ===== src/Docs/Print.antt =====
-- Markdown text that `MarkdownContent` of web/src/app/docs/page.tsx reads as these blocks.
use Prim.Native.Char.{code}
use Prim.Native.String.{[] as no_text, ◌∷◌ as char_then}
use text.Mathlib.TextLemmas.{nil-append, cons-append}
use mathlib.Core.List.{append_assoc}
use uni_llm.Prelude.{
  All, List, NoBreak, String, [], ap, arith, false, includes, is_empty, join_lines, keep, map, none,
  refl, split_lines-join_lines, starts_with, strip_prefix, trim, truthy, ◌++◌, ◌<+>◌, ◌==◌, ◌∙◌,
  ◌∷◌, ◌≡◌,
}
use uni_llm.Docs.Inline.{render_inline}
use uni_llm.Docs.Markdown.{
  Block, blocks_of, cells, code_block, fence_of, heading, markdown, next_block, paragraph,
  split_bar, subheading, table, table_of, take_code, take_rows,
}
use uni_llm.Docs.Loop.{blocks_of-next}
use uni_llm.Docs.Pieces.{IsPieces, render_inline-source_all}
use uni_llm.Docs.Source.{source_all}

abbrev pub fence : String → String
fence lang = char_then "`" (char_then "`" (char_then "`" lang))

-- The cells of a row, each with a bar behind it.
abbrev pub bars : List String → String
bars [] = ""
bars (c ∷ cs) = c <+> char_then "|" (bars cs)

abbrev pub row : List String → String
row cs = char_then "|" (bars cs)

-- The lines of a block.
abbrev pub print : Block → List String
print (code_block lang lines) = fence lang ∷ (lines ++ fence "" ∷ [])
print (heading s) = char_then "#" (char_then "#" (char_then " " s)) ∷ []
print (subheading s) = char_then "#" (char_then "#" (char_then "#" (char_then " " s))) ∷ []
print (table headers rows) = row headers ∷ "|---|" ∷ map row rows
print (paragraph parts) = source_all parts ∷ []

-- Blocks with an empty line behind each.
abbrev pub print_all : List Block → List String
print_all [] = []
print_all (b ∷ bs) = print b ++ "" ∷ print_all bs

abbrev pub NoBar : String → Type 0
NoBar no_text = Unit
NoBar (char_then c s) = (code c == 124 ≡ false) × NoBar s

abbrev pub IsCell : String → Type 0
IsCell c = NoBar c × (is_empty c ≡ false) × (trim c ≡ c)

-- A line that opens no fence, no heading and no table, and is not blank.
abbrev pub IsPlainLine : String → Type 0
IsPlainLine l =
    (strip_prefix "```" l ≡ none)
    × (strip_prefix "## " l ≡ none)
    × (strip_prefix "### " l ≡ none)
    × (includes l "|" ≡ false)
    × (is_empty (trim l) ≡ false)

-- What can be written so: the language of a code is trimmed and its lines open no fence, cells are
-- trimmed, not empty and without bars, and the pieces of a paragraph are in order and make a plain line.
abbrev pub IsPrintable : Block → Type 0
IsPrintable (code_block lang lines) =
    (trim lang ≡ lang) × All (λ l. starts_with l "```" ≡ false) lines
IsPrintable (heading s) = Unit
IsPrintable (subheading s) = Unit
IsPrintable (table headers rows) = All IsCell headers × All (All IsCell) rows
IsPrintable (paragraph parts) = IsPlainLine (source_all parts) × IsPieces parts

take_code-print :
    (lines rest : List String)
    → All (λ l. starts_with l "```" ≡ false) lines
    → take_code (lines ++ fence "" ∷ rest) ≡ (lines, rest)
unfolding take_code
take_code-print [] rest h = refl
take_code-print (l ∷ ls) rest h = ground (arith, take_code-print ls rest h.1)

split_bar-cell : (c t : String) → NoBar c → split_bar (c <+> char_then "|" t) ≡ c ∷ split_bar t
unfolding split_bar
split_bar-cell no_text t h = rw nil-append refl
split_bar-cell (char_then c s) t h = rw (cons-append, h.0) (rw (split_bar-cell s t h.1) refl)

cells-bars : (cs : List String) → All IsCell cs → map trim (keep truthy (split_bar (bars cs))) ≡ cs
unfolding split_bar
cells-bars [] h = refl
cells-bars (c ∷ cs) h =
    rw (split_bar-cell c (bars cs) h.0.0) (rw h.0.1 (rw (h.0.2, cells-bars cs h.1) refl))

cells-row : (cs : List String) → All IsCell cs → cells (row cs) ≡ cs
unfolding cells split_bar
cells-row cs h = cells-bars cs h

take_rows-print :
    (rows : List (List String)) (rest : List String)
    → All (All IsCell) rows
    → take_rows (map row rows ++ "" ∷ rest) ≡ (rows, "" ∷ rest)
unfolding take_rows
take_rows-print [] rest h = refl
take_rows-print (r ∷ rs) rest h =
    ap (λ c. (c ∷ (take_rows (map row rs ++ "" ∷ rest)).0, (take_rows (map row rs ++ "" ∷ rest)).1))
      (cells-row r h.0)
    ∙ ap (λ (q : List (List String) × List String). (r ∷ q.0, q.1)) (take_rows-print rs rest h.1)

blocks_of-blank : (rest : List String) → blocks_of ("" ∷ rest) ≡ blocks_of rest
blocks_of-blank rest = (blocks_of-next "" rest).0 ∙ unfold next_block in refl

-- A round at the first line of a block makes the block, and stops at the empty line.
read_back :
    (line : String) (ls : List String) (b : Block) (rest : List String)
    → next_block line ls ≡ (b ∷ [], "" ∷ rest)
    → blocks_of (line ∷ ls) ≡ b ∷ blocks_of rest
read_back line ls b rest e =
    (blocks_of-next line ls).0
    ∙ ap (λ (q : List Block × List String). q.0 ++ blocks_of q.1) e
    ∙ ap (λ bs. b ∷ bs) (blocks_of-blank rest)

-- A round that makes a block of its line alone.
read_line :
    (line : String) (b : Block) (rest : List String)
    → next_block line ("" ∷ rest) ≡ (b ∷ [], "" ∷ rest)
    → blocks_of (line ∷ "" ∷ rest) ≡ b ∷ blocks_of rest
read_line line b rest e = read_back line ("" ∷ rest) b rest e

plain_line :
    (l : String) (ls : List String)
    → IsPlainLine l
    → next_block l ls ≡ (paragraph (render_inline l) ∷ [], ls)
unfolding next_block
plain_line l ls (a, b, c, d, e) = rw (a, b, c, d, next_block) (rw e refl)

fence_line :
    (lang : String) (lines rest : List String)
    → trim lang ≡ lang
    → All (λ l. starts_with l "```" ≡ false) lines
    → next_block (fence lang) ((lines ++ fence "" ∷ []) ++ "" ∷ rest)
      ≡ (code_block lang lines ∷ [], "" ∷ rest)
unfolding next_block fence_of
fence_line lang lines rest h k =
    ap (next_block (fence lang)) (append_assoc lines (fence "" ∷ []) ("" ∷ rest))
    ∙ ap (λ (q : List String × List String). (code_block (trim lang) q.0 ∷ [], q.1))
        (take_code-print lines ("" ∷ rest) k)
    ∙ ap (λ l. (code_block l lines ∷ [], "" ∷ rest)) h

table_line :
    (headers : List String) (rows : List (List String)) (rest : List String)
    → All IsCell headers
    → All (All IsCell) rows
    → next_block (row headers) ("|---|" ∷ (map row rows ++ "" ∷ rest))
      ≡ (table headers rows ∷ [], "" ∷ rest)
unfolding next_block table_of
table_line headers rows rest h k =
    ap (λ (q : List (List String) × List String). (table (cells (row headers)) q.0 ∷ [], q.1))
      (take_rows-print rows rest k)
    ∙ ap (λ c. (table c rows ∷ [], "" ∷ rest)) (cells-row headers h)

blocks_of-print :
    (b : Block) (rest : List String)
    → IsPrintable b
    → blocks_of (print b ++ "" ∷ rest) ≡ b ∷ blocks_of rest
blocks_of-print (code_block lang lines) rest (h, k) =
    read_back (fence lang) ((lines ++ fence "" ∷ []) ++ "" ∷ rest) (code_block lang lines) rest
      (fence_line lang lines rest h k)
blocks_of-print (heading s) rest h = read_line _ (heading s) rest (unfold next_block in refl)
blocks_of-print (subheading s) rest h = read_line _ (subheading s) rest (unfold next_block in refl)
blocks_of-print (table headers rows) rest (h, k) =
    read_back (row headers) ("|---|" ∷ (map row rows ++ "" ∷ rest)) (table headers rows) rest
      (table_line headers rows rest h k)
blocks_of-print (paragraph parts) rest (h, k) =
    read_line (source_all parts) (paragraph parts) rest (
      plain_line (source_all parts) ("" ∷ rest) h
      ∙ ap (λ ps. (paragraph ps ∷ [], "" ∷ rest)) (render_inline-source_all parts k))

blocks_of-print_all : (bs : List Block) → All IsPrintable bs → blocks_of (print_all bs) ≡ bs
blocks_of-print_all [] h = unfold blocks_of in refl
blocks_of-print_all (b ∷ bs) h =
    blocks_of-print b (print_all bs) h.0 ∙ ap (λ cs. b ∷ cs) (blocks_of-print_all bs h.1)

markdown-join_lines : (ls : List String) → All NoBreak ls → markdown (join_lines ls) ≡ blocks_of ls
unfolding markdown
markdown-join_lines [] h = unfold blocks_of in refl
markdown-join_lines (l ∷ ls) h = ap blocks_of (split_lines-join_lines l ls h.0 h.1)

-- Blocks that are written as Markdown, with an empty line behind each, are read back as they were, if no
-- line has a line feed and the blocks can be written so: the language of a code is trimmed and no line of
-- it begins with a fence; each cell of a table is trimmed, is not empty and has no bar; the line of a
-- paragraph is not blank, begins with no fence and no mark of a heading and has no bar, its pieces are not
-- empty, its plain texts have no mark and do not touch each other, and the text of a span does not have the
-- character of its own mark.
pub markdown-print_all :
    (bs : List Block)
    → All IsPrintable bs
    → All NoBreak (print_all bs)
    → markdown (join_lines (print_all bs)) ≡ bs
markdown-print_all bs h k = markdown-join_lines (print_all bs) k ∙ blocks_of-print_all bs h
