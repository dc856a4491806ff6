-- ===== src/Docs/Spans.antt =====
-- `renderInline` of web/src/app/docs/page.tsx loses nothing and takes every span.
use Prim.Native.String.{[] as no_text, ◌∷◌ as char_then}
use text.Mathlib.TextLemmas.{nil-append, cons-append}
use uni_llm.Prelude.{
  Bool-cases, List, Option, Option-cases, String, ap, arith, false, inl, inr, is_empty, none, refl,
  some, strip_prefix, suc, zero, ℕ, ◌++◌, ◌+◌, ◌<+>◌, ◌<◌, ◌∷◌, ◌≡◌, ◌≤◌,
}
use uni_llm.Docs.Inline.{
  Found, Part, close_span, code_span, find_match, inline_loop, match_here, open_span, plain,
  plain_part, render_inline, run_until, strong_span, text_length,
}
use uni_llm.Docs.Source.{
  find_match-source, inline_loop-none, inline_loop-some, source, source-inline_loop, source_all,
}

-- A piece that a match makes: a span with something in it.
abbrev pub IsSpan : Part → Type 0
IsSpan (plain s) = ⊥
IsSpan (code_span s) = is_empty s ≡ false
IsSpan (strong_span s) = is_empty s ≡ false

close_span-IsSpan :
    (make : String → Part) (mark : String) (found : String × String) (p : Part) (r : String)
    → ((s : String) → is_empty s ≡ false → IsSpan (make s))
    → close_span make mark found ≡ some (p, r)
    → IsSpan p
unfolding close_span
close_span-IsSpan make mark (run, rest) p r makes h = elim (Bool-cases (is_empty run)) [
  | inl e ↦ absurd (ground arith)
  | inr e ↦ elim (Option-cases (strip_prefix mark rest)) [
    | inl n ↦ absurd (ground arith)
    | inr (after, f) ↦ let same : p ≡ make run = ground arith in rw same (makes run e)
  ]
]

open_span-IsSpan :
    (make : String → Part) (mark : String) (m : ℕ) (o : Option String) (p : Part) (r : String)
    → ((s : String) → is_empty s ≡ false → IsSpan (make s))
    → open_span make mark m o ≡ some (p, r)
    → IsSpan p
unfolding open_span
open_span-IsSpan make mark m none p r makes h = cc
open_span-IsSpan make mark m (some s) p r makes h =
    close_span-IsSpan make mark (run_until m s) p r makes h

match_here-IsSpan : (s : String) (p : Part) (r : String) → match_here s ≡ some (p, r) → IsSpan p
unfolding match_here
match_here-IsSpan s p r h = elim (Option-cases (open_span code_span "`" 96 (strip_prefix "`" s))) [
  | inl n ↦ open_span-IsSpan strong_span "**" 42 (strip_prefix "**" s) p r (λ t e. e) (ground arith)
  | inr (found, f) ↦
      open_span-IsSpan code_span "`" 96 (strip_prefix "`" s) p r (λ t e. e) (ground arith)
]

find_match-IsSpan : (s : String) (f : Found) → find_match s ≡ some f → IsSpan f.part
unfolding find_match
find_match-IsSpan no_text f h = cc
find_match-IsSpan (char_then c s) f h = elim (Option-cases (match_here (char_then c s))) [
  | inr ((p, r), e) ↦
      let same : f.part ≡ p = ground arith in rw same (match_here-IsSpan (char_then c s) p r e)
  | inl n ↦ elim (Option-cases (find_match s)) [
    | inl none_later ↦ absurd (ground arith)
    | inr (g, e) ↦ let same : f.part ≡ g.part = ground arith in rw same (find_match-IsSpan s g e)
  ]
]

text_length-append : (s t : String) → text_length (s <+> t) ≡ text_length s + text_length t
text_length-append no_text t = rw nil-append (omega arith)
text_length-append (char_then c s) t = rw cons-append (omega (arith, text_length-append s t))

source_pos : (p : Part) → IsSpan p → 0 < text_length (source p)
source_pos (plain s) h = absurd h
source_pos (code_span s) h = rw text_length-append (omega arith)
source_pos (strong_span s) h = rw text_length-append (omega arith)

-- The loop goes forward: what is left behind a match is shorter.
after-shorter :
    (s : String) (f : Found) → find_match s ≡ some f → text_length f.after < text_length s
after-shorter s f h = omega (
  arith,
  ap text_length (find_match-source s f h),
  text_length-append f.before (source f.part <+> f.after),
  text_length-append (source f.part) f.after,
  source_pos f.part (find_match-IsSpan s f h),
)

find_match-short : (s : String) → text_length s ≤ 0 → find_match s ≡ none
unfolding find_match
find_match-short no_text h = refl
find_match-short (char_then c s) h = absurd (omega arith)

-- How a text is read, without a bound on the matches: to its end if there is no match; else the text
-- before the first match, the span matched, which is not empty, and what is read behind it.
pub data Reads : String → List Part → Type 0 where
  ends : {s : String} → find_match s ≡ none → Reads s (plain_part s)
  takes :
      {s : String} {ps : List Part} (f : Found)
      → find_match s ≡ some f
      → IsSpan f.part
      → Reads f.after ps
      → Reads s (plain_part f.before ++ f.part ∷ ps)

inline_loop-Reads : (n : ℕ) (s : String) → text_length s ≤ n → Reads s (inline_loop n s)
inline_loop-Reads zero s h = let n = find_match-short s h in rw (inline_loop-none zero s n) (ends n)
inline_loop-Reads (suc n) s h = elim (Option-cases (find_match s)) [
  | inl e ↦ rw (inline_loop-none (suc n) s e) (ends e)
  | inr (f, e) ↦
      let shorter = after-shorter s f e in
      rw (inline_loop-some n s f e)
        (takes f e (find_match-IsSpan s f e) (inline_loop-Reads n f.after (omega arith)))
]

-- The pieces of a paragraph, written out with their marks, are its text. They are read as `Reads` says,
-- match after match from the left until there is none: so the loop ends, with every match taken.
pub render_inline_lem :
    (s : String) → (source_all (render_inline s) ≡ s) × Reads s (render_inline s)
unfolding render_inline
render_inline_lem s =
    (source-inline_loop (text_length s) s, inline_loop-Reads (text_length s) s (omega arith))
