-- ===== src/Playground/Cuts.antt =====
-- How the reader of web/src/app/playground/page.tsx depends on where the network cuts the stream.
use text.Mathlib.TextLemmas.{nil-append, append-nil, append_assoc as text_append_assoc}
use uni_llm.Prelude.{
  Bool-cases, List, NoBreak, NoBreak-append, String, [], ap, arith, false, if◌then◌else◌, inl, inr,
  is_empty, is_empty_iff, map, none, refl, split_lines, split_lines-NoBreak, split_lines-append,
  strip_prefix, strip_prefix-append, sym, trim, ◌++◌, ◌<+>◌, ◌===◌, ◌∙◌, ◌∷◌, ◌≡◌,
}
use uni_llm.Playground.Stream.{Reading, feed, feed_all, feed_line, feed_lines, line_delta}

-- The stream as one text, with a line feed behind each part.
abbrev pub joined : List String → String
joined [] = ""
joined (b ∷ bs) = b <+> ("\n" <+> joined bs)

data_NoBreak : NoBreak "data: "
data_NoBreak = (refl, (refl, (refl, (refl, (refl, (refl, tt))))))

module _ (content_of : String → String) where
  -- All that the lines add, in order.
  transcript : List String → String
  transcript [] = ""
  transcript (l ∷ ls) = line_delta content_of l <+> transcript ls

  transcript-append :
      (ls ms : List String) → transcript (ls ++ ms) ≡ transcript ls <+> transcript ms
  unfolding transcript
  transcript-append [] ms = sym (nil-append _)
  transcript-append (l ∷ ls) ms =
      ap (λ s. line_delta content_of l <+> s) (transcript-append ls ms)
      ∙ sym (text_append_assoc (line_delta content_of l) (transcript ls) (transcript ms))

  full-feed_line :
      (r : Reading) (l : String)
      → (feed_line content_of r l).full ≡ r.full <+> line_delta content_of l
  unfolding feed_line
  full-feed_line r l = elim (Bool-cases (is_empty (line_delta content_of l))) [
    | inl e ↦ rw (e, (is_empty_iff (line_delta content_of l)).0 e) (sym (append-nil r.full))
    | inr e ↦ rw e
  ]

  full-feed_lines :
      (r : Reading) (ls : List String)
      → (feed_lines content_of r ls).full ≡ r.full <+> transcript ls
  unfolding feed_lines transcript
  full-feed_lines r [] = sym (append-nil r.full)
  full-feed_lines r (l ∷ ls) =
      full-feed_lines (feed_line content_of r l) ls
      ∙ ap (λ s. s <+> transcript ls) (full-feed_line r l)
      ∙ text_append_assoc r.full (line_delta content_of l) (transcript ls)

  transcript-blank : transcript ("" ∷ []) ≡ ""
  unfolding transcript line_delta
  transcript-blank = refl

  full-feed :
      (r : Reading) (chunk : String)
      → (feed content_of r chunk).full ≡ r.full <+> transcript (split_lines chunk)
  unfolding feed
  full-feed r chunk = full-feed_lines r (split_lines chunk)

  transcript-line :
      (b : String) → transcript (split_lines (b <+> "\n")) ≡ transcript (split_lines b)
  transcript-line b =
      ap transcript (split_lines-append b "")
      ∙ transcript-append (split_lines b) ("" ∷ [])
      ∙ ap (λ s. transcript (split_lines b) <+> s) transcript-blank
      ∙ append-nil _

  -- As long as every chunk ends with a line, the text that the reader collects does not depend on the
  -- cuts: it is the text of the whole stream read at once.
  pub feed_all-joined :
      (r : Reading) (bodies : List String)
      → (feed_all content_of r (map (λ b. b <+> "\n") bodies)).full
        ≡ (feed content_of r (joined bodies)).full
  unfolding feed_all
  feed_all-joined r [] =
      sym (full-feed r "" ∙ ap (λ s. r.full <+> s) transcript-blank ∙ append-nil r.full)
  feed_all-joined r (b ∷ bs) =
      let first = feed content_of r (b <+> "\n") in
      let line = transcript (split_lines b) in
      let rest = transcript (split_lines (joined bs)) in
      feed_all-joined first bs
      ∙ full-feed first (joined bs)
      ∙ ap (λ s. s <+> rest) (full-feed r (b <+> "\n") ∙ ap (λ s. r.full <+> s) (transcript-line b))
      ∙ text_append_assoc r.full line rest
      ∙ ap (λ s. r.full <+> s) (sym (transcript-append (split_lines b) (split_lines (joined bs))))
      ∙ ap (λ ls. r.full <+> transcript ls) (sym (split_lines-append b (joined bs)))
      ∙ sym (full-feed r (joined (b ∷ bs)))

  line_delta-data :
      (x : String)
      → line_delta content_of ("data: " <+> x)
        ≡ (if trim x === "[DONE]" then "" else content_of (trim x))
  unfolding line_delta
  line_delta-data x = rw (strip_prefix-append "data: " x, line_delta)

  feed_line-blank :
      (r : Reading) (l : String) → line_delta content_of l ≡ "" → feed_line content_of r l ≡ r
  unfolding feed_line
  feed_line-blank r l e = rw e

  feed-data :
      (r : Reading) (x : String)
      → NoBreak x
      → content_of (trim x) ≡ ""
      → feed content_of r ("data: " <+> x) ≡ r
  unfolding feed feed_lines
  feed-data r x nx ex =
      rw (split_lines-NoBreak _ (NoBreak-append "data: " x data_NoBreak nx))
        (feed_line-blank r ("data: " <+> x) (line_delta-data x ∙ ground arith))

  feed-no_data :
      (r : Reading) (y : String)
      → NoBreak y
      → strip_prefix "data: " y ≡ none
      → feed content_of r (y <+> "\n") ≡ r
  unfolding feed feed_lines
  feed-no_data r y ny ey = rw (split_lines-append y "") (
      rw (split_lines-NoBreak y ny) (
        ap (λ q. feed_line content_of q "")
          (feed_line-blank r y (unfold line_delta in rw (ey, line_delta)))
        ∙ feed_line-blank r "" (unfold line_delta in refl)))

  whole_line :
      (x y : String)
      → NoBreak x
      → NoBreak y
      → (trim (x <+> y) === "[DONE]") ≡ false
      → transcript (split_lines ("data: " <+> (x <+> y))) ≡ content_of (trim (x <+> y))
  unfolding transcript
  whole_line x y nx ny nd =
      rw
        (split_lines-NoBreak _
          (NoBreak-append "data: " (x <+> y) data_NoBreak (NoBreak-append x y nx ny)))
        (append-nil _ ∙ line_delta-data (x <+> y) ∙ rw nd)

  -- A data line that the network cuts in two is lost: if its first half alone holds no content and
  -- the second half does not look like a data line, the reader adds nothing. Read in one piece, the
  -- line adds its content.
  pub cut_line_lost :
      (r : Reading) (x y : String)
      → NoBreak x
      → NoBreak y
      → content_of (trim x) ≡ ""
      → strip_prefix "data: " y ≡ none
      → (trim (x <+> y) === "[DONE]") ≡ false
      → (feed_all content_of r (("data: " <+> x) ∷ (y <+> "\n") ∷ []) ≡ r)
        × ((feed content_of r (("data: " <+> (x <+> y)) <+> "\n")).full
            ≡ r.full <+> content_of (trim (x <+> y)))
  unfolding feed_all
  cut_line_lost r x y nx ny ex ey nd = (
    ap (λ q. feed content_of q (y <+> "\n")) (feed-data r x nx ex) ∙ feed-no_data r y ny ey,
    full-feed r (("data: " <+> (x <+> y)) <+> "\n")
        ∙ ap (λ s. r.full <+> s)
            (transcript-line ("data: " <+> (x <+> y)) ∙ whole_line x y nx ny nd),
  )
