-- ===== src/Docs/Source.antt =====
-- What `renderInline` of web/src/app/docs/page.tsx finds stands in the text as it was found.
use Prim.Native.Char.{Char, code}
use Prim.Native.String.{[] as no_text, ◌∷◌ as char_then}
use text.Mathlib.TextEquality.{Char-path}
use text.Mathlib.TextLemmas.{nil-append, cons-append, append-nil, append_assoc}
use uni_llm.Prelude.{
  Bool-cases, List, Option-cases, String, [], ap, arith, inl, inr, is_empty, none, refl, some,
  strip_prefix, suc, sym, true, zero, ℕ, ◌++◌, ◌<+>◌, ◌==◌, ◌∙◌, ◌∷◌, ◌≡◌,
}
use uni_llm.Docs.Inline.{
  Found, Part, close_span, code_span, find_match, inline_loop, match_here, open_span, plain,
  plain_part, run_until, strong_span,
}

-- What a piece stands for in the text of the paragraph.
abbrev pub source : Part → String
source (plain s) = s
source (code_span s) = "`" <+> (s <+> "`")
source (strong_span s) = "**" <+> (s <+> "**")

abbrev pub source_all : List Part → String
source_all [] = ""
source_all (p ∷ ps) = source p <+> source_all ps

same_char : (c d : Char) → (code c == code d) ≡ true → c ≡ d
same_char c d h = Char-path c d (ground arith)

strip_prefix-source : (p s r : String) → strip_prefix p s ≡ some r → p <+> r ≡ s
strip_prefix-source no_text s r h = nil-append r ∙ ground arith
strip_prefix-source (char_then c p) no_text r h = cc
strip_prefix-source (char_then c p) (char_then d s) r h = elim (Bool-cases (code c == code d)) [
  | inl e ↦
      cons-append c p r
      ∙ rw (same_char c d e) (ap (λ t. char_then d t) (strip_prefix-source p s r (rw e at h)))
  | inr e ↦ absurd (ground arith)
]

run_until-source : (m : ℕ) (s : String) → (run_until m s).0 <+> (run_until m s).1 ≡ s
unfolding run_until
run_until-source m no_text = refl
run_until-source m (char_then c s) = elim (Bool-cases (code c == m)) [
  | inl e ↦ rw e (nil-append (char_then c s))
  | inr e ↦ rw e (
      cons-append c (run_until m s).0 (run_until m s).1
      ∙ ap (λ t. char_then c t) (run_until-source m s))
]

close_span-source :
    (make : String → Part) (mark : String) (run rest : String) (p : Part) (r : String)
    → ((s : String) → source (make s) ≡ mark <+> (s <+> mark))
    → close_span make mark (run, rest) ≡ some (p, r)
    → source p <+> r ≡ mark <+> (run <+> rest)
unfolding close_span
close_span-source make mark run rest p r means h = elim (Bool-cases (is_empty run)) [
  | inl e ↦ absurd (ground arith)
  | inr e ↦ elim (Option-cases (strip_prefix mark rest)) [
    | inl n ↦ absurd (ground arith)
    | inr (after, f) ↦
        let same : p ≡ make run = ground arith in
        let left : r ≡ after = ground arith in
        ap (λ q. source q <+> r) same
        ∙ ap (λ t. t <+> r) (means run)
        ∙ append_assoc mark (run <+> mark) r
        ∙ ap (λ t. mark <+> t) (append_assoc run mark r)
        ∙ ap (λ t. mark <+> (run <+> t))
            (ap (λ t. mark <+> t) left ∙ strip_prefix-source mark rest after f)
  ]
]

open_span-source :
    (make : String → Part) (mark : String) (m : ℕ) (s : String) (p : Part) (r : String)
    → ((t : String) → source (make t) ≡ mark <+> (t <+> mark))
    → open_span make mark m (strip_prefix mark s) ≡ some (p, r)
    → source p <+> r ≡ s
unfolding open_span
open_span-source make mark m s p r means h = elim (Option-cases (strip_prefix mark s)) [
  | inl n ↦ absurd (ground arith)
  | inr (behind, f) ↦
      close_span-source make mark (run_until m behind).0 (run_until m behind).1 p r means
        (rw f at h)
      ∙ ap (λ t. mark <+> t) (run_until-source m behind)
      ∙ strip_prefix-source mark s behind f
]

match_here-source :
    (s : String) (p : Part) (r : String) → match_here s ≡ some (p, r) → source p <+> r ≡ s
unfolding match_here
match_here-source s p r h = elim (Option-cases (open_span code_span "`" 96 (strip_prefix "`" s))) [
  | inl n ↦ open_span-source strong_span "**" 42 s p r (λ t. refl) (ground arith)
  | inr (found, f) ↦ open_span-source code_span "`" 96 s p r (λ t. refl) (ground arith)
]

-- The text of a match, put together again.
abbrev pub whole : Found → String
whole f = f.before <+> (source f.part <+> f.after)

pub find_match-source : (s : String) (f : Found) → find_match s ≡ some f → whole f ≡ s
unfolding find_match
find_match-source no_text f h = cc
find_match-source (char_then c s) f h = elim (Option-cases (match_here (char_then c s))) [
  | inr ((p, r), e) ↦
      let same : f ≡ record { before = ""; part = p; after = r } = ground arith in
      ap whole same ∙ nil-append _ ∙ match_here-source (char_then c s) p r e
  | inl n ↦ elim (Option-cases (find_match s)) [
    | inl none_later ↦ absurd (ground arith)
    | inr (g, e) ↦
        let same : f ≡ record g { before = char_then c g.before } = ground arith in
        ap whole same ∙ cons-append c g.before _ ∙ ap (λ t. char_then c t) (find_match-source s g e)
  ]
]

source-plain_part : (s : String) → source_all (plain_part s) ≡ s
source-plain_part no_text = refl
source-plain_part (char_then c s) = append-nil (char_then c s)

source_all-append : (ps qs : List Part) → source_all (ps ++ qs) ≡ source_all ps <+> source_all qs
source_all-append [] qs = sym (nil-append _)
source_all-append (p ∷ ps) qs =
    ap (λ t. source p <+> t) (source_all-append ps qs)
    ∙ sym (append_assoc (source p) (source_all ps) (source_all qs))

pub inline_loop-none : (f : ℕ) (s : String) → find_match s ≡ none → inline_loop f s ≡ plain_part s
unfolding inline_loop
inline_loop-none zero s e = refl
inline_loop-none (suc f) s e = rw (e, inline_loop)

pub inline_loop-some :
    (f : ℕ) (s : String) (m : Found)
    → find_match s ≡ some m
    → inline_loop (suc f) s ≡ plain_part m.before ++ m.part ∷ inline_loop f m.after
unfolding inline_loop
inline_loop-some f s m e = rw (e, inline_loop)

pub source-inline_loop : (f : ℕ) (s : String) → source_all (inline_loop f s) ≡ s
source-inline_loop zero s = unfold inline_loop in source-plain_part s
source-inline_loop (suc f) s = elim (Option-cases (find_match s)) [
  | inl n ↦ ap source_all (inline_loop-none (suc f) s n) ∙ source-plain_part s
  | inr (g, e) ↦
      ap source_all (inline_loop-some f s g e)
      ∙ source_all-append (plain_part g.before) (g.part ∷ inline_loop f g.after)
      ∙ ap (λ t. t <+> (source g.part <+> source_all (inline_loop f g.after)))
          (source-plain_part g.before)
      ∙ ap (λ t. g.before <+> (source g.part <+> t)) (source-inline_loop f g.after)
      ∙ find_match-source s g e
]
