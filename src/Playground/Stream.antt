-- ===== src/Playground/Stream.antt =====
-- The reader loop of `handleSend` in web/src/app/playground/page.tsx: server-sent events, line by line.
use uni_llm.Prelude.{
  List, String, [], if◌then◌else◌, none, some, split_lines, strip_prefix, trim, truthy, ◌<+>◌,
  ◌===◌, ◌∷◌,
}

-- `fullText`, and the text that `setStreamText` last showed.
pub record Reading : Type 0 where
  pub full : String
  pub shown : String

module _ (content_of : String → String) where
  -- What a line adds: nothing unless it is a data line other than the end mark and holds a content.
  unfoldable pub line_delta : String → String
  line_delta line = elim (strip_prefix "data: " line) [
    | none ↦ ""
    | some rest ↦ if trim rest === "[DONE]" then "" else content_of (trim rest)
  ]

  unfoldable pub feed_line : Reading → String → Reading
  feed_line r line =
      let delta = line_delta line in
      if truthy delta then record { full = r.full <+> delta; shown = r.full <+> delta } else r

  unfoldable pub feed_lines : Reading → List String → Reading
  feed_lines r [] = r
  feed_lines r (l ∷ ls) = feed_lines (feed_line r l) ls

  -- One chunk: its lines in order.
  unfoldable pub feed : Reading → String → Reading
  feed r chunk = feed_lines r (split_lines chunk)

  unfoldable pub feed_all : Reading → List String → Reading
  feed_all r [] = r
  feed_all r (c ∷ cs) = feed_all (feed r c) cs
