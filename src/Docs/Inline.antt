-- ===== src/Docs/Inline.antt =====
-- `renderInline` of web/src/app/docs/page.tsx: the code spans and the strong spans of a paragraph.
-- The regular expression /`([^`]+)`|\*\*([^*]+)\*\*/g matches at a place if a run of other characters
-- stands between two marks; a run ends at the next mark character, so there is no choice to try again.
use Prim.Native.Char.{Char, code}
use mathlib.Core.Option
use Prim.Native.String.{[] as no_text, ◌∷◌ as char_then}
use uni_llm.Prelude.{
  List, Option, String, [], if◌then◌else◌, is_empty, none, some, strip_prefix, suc, zero, ℕ, ◌++◌,
  ◌==◌, ◌∷◌,
}

-- A piece of the result: a text, `<code>` or `<strong>`.
pub data Part : Type 0 where
  plain code_span strong_span : String → Part

-- What `[^m]+` takes for a mark character `m`, and what it leaves.
unfoldable pub run_until : ℕ → String → String × String
run_until m no_text = ("", "")
run_until m (char_then c s) =
    let (run, rest) = run_until m s in
    if code c == m then ("", char_then c s) else (char_then c run, rest)

-- The end of a span: its run is not empty, and the closing mark follows.
unfoldable pub close_span : (String → Part) → String → String × String → Option (Part × String)
close_span make mark (run, rest) =
    if is_empty run then none else Option.map (λ after. (make run, after)) (strip_prefix mark rest)

-- A span with a mark, where the text behind the opening mark is given; the mark's character is 96 or 42.
unfoldable pub open_span : (String → Part) → String → ℕ → Option String → Option (Part × String)
unfolding run_until close_span
open_span make mark m none = none
open_span make mark m (some behind) = close_span make mark (run_until m behind)

unfoldable pub or_span : Option (Part × String) → Option (Part × String) → Option (Part × String)
or_span none other = other
or_span (some found) other = some found

-- A match that begins at the head of the text, with the text behind it.
unfoldable pub match_here : String → Option (Part × String)
unfolding or_span
match_here s =
    or_span (open_span code_span "`" 96 (strip_prefix "`" s))
      (open_span strong_span "**" 42 (strip_prefix "**" s))

pub record Found : Type 0 where
  pub before : String
  pub part : Part
  pub after : String

abbrev pub found_later : Char → Option Found → Option Found
found_later c none = none
found_later c (some f) = some (record f { before = char_then c f.before })

abbrev pub found_here : Option (Part × String) → Option Found → Option Found
found_here none later = later
found_here (some (p, after)) later = some (record { before = ""; part = p; after = after })

-- `regex.exec(text)`: the first match from the left.
unfoldable pub find_match : String → Option Found
find_match no_text = none
find_match (char_then c s) = found_here (match_here (char_then c s)) (found_later c (find_match s))

-- A text between two matches, if there is any.
abbrev pub plain_part : String → List Part
plain_part s = if is_empty s then [] else plain s ∷ []

abbrev pub text_length : String → ℕ
text_length no_text = 0
text_length (char_then c s) = suc (text_length s)

-- The loop, on the text from `lastIndex` on.
unfoldable pub inline_loop : ℕ → String → List Part
inline_loop zero s = plain_part s
inline_loop (suc f) s = elim (find_match s) [
  | none ↦ plain_part s
  | some found ↦ plain_part found.before ++ found.part ∷ inline_loop f found.after
]

-- Each match takes characters, so the length of the text is enough.
unfoldable pub render_inline : String → List Part
unfolding inline_loop
render_inline s = inline_loop (text_length s) s
