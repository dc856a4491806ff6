-- ===== src/Prelude/Lines.antt =====
-- Cutting a text into lines, and putting lines together.
use Prim.Native.Char.{Char, code}
use Prim.Native.String.{String, [] as no_text, ◌∷◌ as char_then}
use text.Mathlib.TextLemmas.{nil-append, cons-append}
use mathlib.Core.Path.{◌≡◌, refl, ap, ◌∙◌}
use mathlib.Core.Bool.{false}
use mathlib.Core.Logic.{inl, inr}
use mathlib.Core.List.{List, [], ◌∷◌, ◌++◌}
use uni_llm.Prelude.Tests.{Bool-cases, ◌==◌}
use uni_llm.Prelude.Text.{◌<+>◌, split_lines, join_lines}
use uni_llm.Prelude.Lists.{All}

split_lines-cons : (s : String) → (l : String) × (ls : List String) × (split_lines s ≡ l ∷ ls)
split_lines-cons no_text = ("", [], refl)
split_lines-cons (char_then c s) = elim (Bool-cases (code c == 10)) [
  | inl e ↦ ("", split_lines s, rw e)
  | inr e ↦ let (l, ls, p) = split_lines-cons s in (char_then c l, ls, rw (e, p))
]

newline : Char
newline = "\n"

newline-append : (t : String) → "\n" <+> t ≡ char_then newline t
unfolding newline
newline-append t = cons-append newline no_text t ∙ ap (λ s. char_then newline s) (nil-append t)

-- Cutting at a line feed cuts the list of lines.
pub split_lines-append :
    (s t : String) → split_lines (s <+> ("\n" <+> t)) ≡ split_lines s ++ split_lines t
unfolding newline
split_lines-append no_text t = rw (nil-append, newline-append)
split_lines-append (char_then c s) t = elim (Bool-cases (code c == 10)) [
  | inl e ↦ rw (cons-append, e) (ap (λ ls. "" ∷ ls) (split_lines-append s t))
  | inr e ↦
      let (l, ls, p) = split_lines-cons s in
      rw (cons-append, e) (rw (split_lines-append s t) (rw p refl))
]

abbrev pub NoBreak : String → Type 0
NoBreak no_text = Unit
NoBreak (char_then c s) = (code c == 10 ≡ false) × NoBreak s

pub split_lines-NoBreak : (s : String) → NoBreak s → split_lines s ≡ s ∷ []
split_lines-NoBreak no_text h = refl
split_lines-NoBreak (char_then c s) h = rw h.0 (rw (split_lines-NoBreak s h.1) refl)

pub NoBreak-append : (s t : String) → NoBreak s → NoBreak t → NoBreak (s <+> t)
NoBreak-append no_text t h k = rw nil-append k
NoBreak-append (char_then c s) t h k = rw cons-append (h.0, NoBreak-append s t h.1 k)

-- Lines without a line feed survive being joined and cut again.
pub split_lines-join_lines :
    (l : String) (ls : List String)
    → NoBreak l
    → All NoBreak ls
    → split_lines (join_lines (l ∷ ls)) ≡ l ∷ ls
split_lines-join_lines l [] h k = split_lines-NoBreak l h
split_lines-join_lines l (m ∷ ls) h k =
    split_lines-append l (join_lines (m ∷ ls))
    ∙ ap (λ first. first ++ split_lines (join_lines (m ∷ ls))) (split_lines-NoBreak l h)
    ∙ ap (λ rest. l ∷ rest) (split_lines-join_lines m ls k.0 k.1)
