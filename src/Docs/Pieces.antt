-- ===== src/Docs/Pieces.antt =====
-- Pieces of a paragraph that `renderInline` of web/src/app/docs/page.tsx reads back from their text.
use Prim.Native.Char.{Char, code}
use Prim.Native.String.{[] as no_text, ◌∷◌ as char_then}
use text.Mathlib.TextLemmas.{nil-append, cons-append, append-nil, append_assoc}
use uni_llm.Prelude.{
  List, String, [], ap, arith, false, is_empty, none, refl, some, true, ℕ, ◌++◌, ◌<+>◌, ◌==◌, ◌∙◌,
  ◌∷◌, ◌≡◌,
}
use uni_llm.Docs.Inline.{
  Found, Part, close_span, code_span, find_match, match_here, open_span, plain, plain_part,
  render_inline, run_until, strong_span,
}
use uni_llm.Docs.Source.{source, source_all}
use uni_llm.Docs.Spans.{Reads, ends, render_inline_lem, takes}

-- The text does not have the character `m`.
abbrev pub Lacks : ℕ → String → Type 0
Lacks m no_text = Unit
Lacks m (char_then c s) = (code c == m ≡ false) × Lacks m s

-- The list does not begin with a plain text.
abbrev pub BeginsMarked : List Part → Type 0
BeginsMarked (plain s ∷ ps) = ⊥
BeginsMarked _ = Unit

-- What a span may hold, by its mark.
abbrev pub IsMarked : Part → Type 0
IsMarked (plain s) = ⊥
IsMarked (code_span s) = (is_empty s ≡ false) × Lacks 96 s
IsMarked (strong_span s) = (is_empty s ≡ false) × Lacks 42 s

-- No piece is empty, plain texts have neither a backtick nor an asterisk and do not touch each other, and
-- the text of a span does not have the character of its mark.
abbrev pub IsPieces : List Part → Type 0
IsPieces [] = Unit
IsPieces (plain s ∷ ps) =
    ((is_empty s ≡ false) × Lacks 96 s × Lacks 42 s) × BeginsMarked ps × IsPieces ps
IsPieces (p ∷ ps) = IsMarked p × IsPieces ps

run_until-Lacks :
    (m : ℕ) (s : String) (c : Char) (rest : String)
    → Lacks m s
    → code c == m ≡ true
    → run_until m (s <+> char_then c rest) ≡ (s, char_then c rest)
unfolding run_until
run_until-Lacks m no_text c rest h e = rw nil-append (rw e refl)
run_until-Lacks m (char_then d s) c rest h e =
    rw cons-append (rw (h.0, run_until-Lacks m s c rest h.1 e) refl)

match_here-code :
    (s rest : String)
    → is_empty s ≡ false
    → Lacks 96 s
    → match_here (char_then "`" (s <+> char_then "`" rest)) ≡ some (code_span s, rest)
unfolding match_here open_span close_span
match_here-code s rest e h = rw (run_until-Lacks 96 s "`" rest h refl) (rw e refl)

match_here-strong :
    (s rest : String)
    → is_empty s ≡ false
    → Lacks 42 s
    → match_here (char_then "*" (char_then "*" (s <+> char_then "*" (char_then "*" rest))))
      ≡ some (strong_span s, rest)
unfolding match_here open_span close_span
match_here-strong s rest e h = rw (run_until-Lacks 42 s "*" (char_then "*" rest) h refl) (rw e refl)

match_here-plain :
    (c : Char) (s : String)
    → code c == 96 ≡ false
    → code c == 42 ≡ false
    → match_here (char_then c s) ≡ none
unfolding match_here open_span
match_here-plain c s e f =
    let a : (code "`" == code c) ≡ false = ground arith in
    let b : (code "*" == code c) ≡ false = ground arith in rw (a, b) refl

source-code :
    (s rest : String) → source (code_span s) <+> rest ≡ char_then "`" (s <+> char_then "`" rest)
source-code s rest =
    append_assoc "`" (s <+> "`") rest
    ∙ cons-append "`" "" _
    ∙ ap (λ t. char_then "`" t)
        (nil-append _
          ∙ append_assoc s "`" rest
          ∙ ap (λ t. s <+> t)
              (cons-append "`" "" rest ∙ ap (λ t. char_then "`" t) (nil-append rest)))

stars : (t : String) → "**" <+> t ≡ char_then "*" (char_then "*" t)
stars t =
    cons-append "*" "*" t
    ∙ ap (λ u. char_then "*" u) (cons-append "*" "" t ∙ ap (λ u. char_then "*" u) (nil-append t))

source-strong :
    (s rest : String)
    → source (strong_span s) <+> rest
      ≡ char_then "*" (char_then "*" (s <+> char_then "*" (char_then "*" rest)))
source-strong s rest =
    append_assoc "**" (s <+> "**") rest
    ∙ stars ((s <+> "**") <+> rest)
    ∙ ap (λ t. char_then "*" (char_then "*" t))
        (append_assoc s "**" rest ∙ ap (λ t. s <+> t) (stars rest))

find_match-here :
    (c : Char) (s : String) (p : Part) (rest : String)
    → match_here (char_then c s) ≡ some (p, rest)
    → find_match (char_then c s) ≡ some (record { before = ""; part = p; after = rest })
unfolding find_match
find_match-here c s p rest e = rw e refl

find_match-marked :
    (p : Part) (rest : String)
    → IsMarked p
    → find_match (source p <+> rest) ≡ some (record { before = ""; part = p; after = rest })
find_match-marked (plain s) rest h = absurd h
find_match-marked (code_span s) rest h =
    ap find_match (source-code s rest)
    ∙ find_match-here "`" _ (code_span s) rest (match_here-code s rest h.0 h.1)
find_match-marked (strong_span s) rest h =
    ap find_match (source-strong s rest)
    ∙ find_match-here "*" _ (strong_span s) rest (match_here-strong s rest h.0 h.1)

-- The first match is the first span behind a text without marks.
find_match-behind :
    (b : String) (p : Part) (rest : String)
    → Lacks 96 b
    → Lacks 42 b
    → IsMarked p
    → find_match (b <+> (source p <+> rest)) ≡ some (record { before = b; part = p; after = rest })
unfolding find_match
find_match-behind no_text p rest h k m = ap find_match (nil-append _) ∙ find_match-marked p rest m
find_match-behind (char_then c b) p rest h k m = rw cons-append (
    rw (match_here-plain c (b <+> (source p <+> rest)) h.0 k.0)
      (rw (find_match-behind b p rest h.1 k.1 m) refl))

find_match-Lacks : (s : String) → Lacks 96 s → Lacks 42 s → find_match s ≡ none
unfolding find_match
find_match-Lacks no_text h k = refl
find_match-Lacks (char_then c s) h k =
    rw (match_here-plain c s h.0 k.0) (rw (find_match-Lacks s h.1 k.1) refl)

Reads-none : (s : String) (qs : List Part) → find_match s ≡ none → Reads s qs → qs ≡ plain_part s
Reads-none s qs e (ends n) = refl
Reads-none s qs e (takes f h m r) = cc

Reads-some :
    (s : String) (qs ps : List Part) (g : Found)
    → find_match s ≡ some g
    → ((rs : List Part) → Reads g.after rs → rs ≡ ps)
    → Reads s qs
    → qs ≡ plain_part g.before ++ g.part ∷ ps
Reads-some s qs ps g e next (ends n) = cc
Reads-some s qs ps g e next (takes f h m r) =
    let same : f ≡ g = ground arith in let left = next _ (rw same at r) in rw (same, left) refl

plain_part-full : (s : String) → is_empty s ≡ false → plain_part s ≡ plain s ∷ []
plain_part-full s e = rw e refl

-- What is read of a text that begins with a span, given how the rest is read.
Reads-behind :
    (b : String) (p : Part) (ps qs : List Part)
    → Lacks 96 b
    → Lacks 42 b
    → IsMarked p
    → ((rs : List Part) → Reads (source_all ps) rs → rs ≡ ps)
    → Reads (b <+> (source p <+> source_all ps)) qs
    → qs ≡ plain_part b ++ p ∷ ps
Reads-behind b p ps qs h k m next r =
    Reads-some _ qs ps _ (find_match-behind b p (source_all ps) h k m) next r

Reads-marked :
    (p : Part) (ps qs : List Part)
    → IsMarked p
    → ((rs : List Part) → Reads (source_all ps) rs → rs ≡ ps)
    → Reads (source p <+> source_all ps) qs
    → qs ≡ p ∷ ps
Reads-marked p ps qs m next r = Reads-some _ qs ps _ (find_match-marked p (source_all ps) m) next r

Reads-source_all : (ps qs : List Part) → IsPieces ps → Reads (source_all ps) qs → qs ≡ ps
Reads-source_all [] qs h r = Reads-none "" qs (unfold find_match in refl) r
Reads-source_all (plain s ∷ []) qs ((e, a, b), h, l) r =
    Reads-none s qs (find_match-Lacks s a b) (rw append-nil at r) ∙ plain_part-full s e
Reads-source_all (plain s ∷ plain u ∷ ps) qs (k, h, l) r = absurd h
Reads-source_all (plain s ∷ code_span u ∷ ps) qs ((e, a, b), h, (m, l)) r =
    Reads-behind s (code_span u) ps qs a b m (λ rs t. Reads-source_all ps rs l t) r
    ∙ ap (λ t. t ++ code_span u ∷ ps) (plain_part-full s e)
Reads-source_all (plain s ∷ strong_span u ∷ ps) qs ((e, a, b), h, (m, l)) r =
    Reads-behind s (strong_span u) ps qs a b m (λ rs t. Reads-source_all ps rs l t) r
    ∙ ap (λ t. t ++ strong_span u ∷ ps) (plain_part-full s e)
Reads-source_all (code_span u ∷ ps) qs (m, l) r =
    Reads-marked (code_span u) ps qs m (λ rs t. Reads-source_all ps rs l t) r
Reads-source_all (strong_span u ∷ ps) qs (m, l) r =
    Reads-marked (strong_span u) ps qs m (λ rs t. Reads-source_all ps rs l t) r

-- Such pieces are read back from their text.
pub render_inline-source_all : (ps : List Part) → IsPieces ps → render_inline (source_all ps) ≡ ps
render_inline-source_all ps h =
    Reads-source_all ps (render_inline (source_all ps)) h (render_inline_lem (source_all ps)).1
