-- ===== src/Prelude/Text.antt =====
-- Methods of `String.prototype` that the sources call, over the native text.
use Prim.Native.Nat.{ℕ}
use native.Mathlib.Omega.{arith}
use text.Mathlib.TextLemmas.{nil-append, cons-append}
use Prim.Native.Char.{Char, code}
use Prim.Native.String.{String, [], ◌∷◌, ◌++◌}
use mathlib.Core.Path.{◌≡◌, refl, ap}
use mathlib.Core.Logic.{◌↔◌}
use mathlib.Core.Bool.{Bool, true, false, not, ◌&&◌, ◌||◌}
use mathlib.Core.Option.{Option, none, some}
use mathlib.Core.List.{List, [] as nil, ◌∷◌ as cons}
use uni_llm.Prelude.Tests.{if◌then◌else◌, leb, ◌==◌}

-- `` `${s}${t}` ``
infixr 65 ◌<+>◌
abbrev pub ◌<+>◌ : String → String → String
s <+> t = s ++ t

-- The rest of the text behind a prefix, if it starts with that prefix.
abbrev pub strip_prefix : String → String → Option String
strip_prefix [] s = some s
strip_prefix (p ∷ ps) [] = none
strip_prefix (p ∷ ps) (c ∷ cs) = if code p == code c then strip_prefix ps cs else none

-- `s.startsWith(p)`
abbrev pub starts_with : String → String → Bool
starts_with s p = elim (strip_prefix p s) [ none ↦ false | some _ ↦ true ]

-- `s.includes(p)`
abbrev pub includes : String → String → Bool
includes [] p = starts_with [] p
includes (c ∷ cs) p = starts_with (c ∷ cs) p || includes cs p

-- `s.replace(p, r)` for a text `p`: the first occurrence.
abbrev pub replace_first : String → String → String → String
replace_first p r [] = elim (strip_prefix p []) [ none ↦ [] | some rest ↦ r ++ rest ]
replace_first p r (c ∷ cs) = elim (strip_prefix p (c ∷ cs)) [
  | none ↦ c ∷ replace_first p r cs
  | some rest ↦ r ++ rest
]

-- WhiteSpace and LineTerminator of ECMAScript.
abbrev pub is_space : Char → Bool
is_space ch =
    let c = code ch in
    (leb 9 c && leb c 13)
    || c == 32
    || c == 160
    || c == 5760
    || (leb 8192 c && leb c 8202)
    || c == 8232
    || c == 8233
    || c == 8239
    || c == 8287
    || c == 12288
    || c == 65279

abbrev pub trim_start : String → String
trim_start [] = []
trim_start (c ∷ cs) = if is_space c then trim_start cs else c ∷ cs

-- A blank tail is dropped as a whole: the head is kept if it is no space or if something is left.
abbrev pub cons_trimmed : Char → String → String
cons_trimmed c [] = if is_space c then [] else c ∷ []
cons_trimmed c (d ∷ ds) = c ∷ d ∷ ds

abbrev pub trim_end : String → String
trim_end [] = []
trim_end (c ∷ cs) = cons_trimmed c (trim_end cs)

-- `s.trim()`
abbrev pub trim : String → String
trim s = trim_end (trim_start s)

abbrev pub is_empty : String → Bool
is_empty [] = true
is_empty (c ∷ cs) = false

-- A text as a condition: the empty text is falsy.
abbrev pub truthy : String → Bool
truthy s = not (is_empty s)

-- `s || d`
abbrev pub text_or : String → String → String
text_or [] d = d
text_or (c ∷ cs) d = c ∷ cs

abbrev pub cons_line : Char → List String → List String
cons_line c nil = cons (c ∷ []) nil
cons_line c (cons l ls) = cons (c ∷ l) ls

-- `s.split("\n")`
abbrev pub split_lines : String → List String
split_lines [] = cons [] nil
split_lines (c ∷ cs) =
    if code c == 10 then cons [] (split_lines cs) else cons_line c (split_lines cs)

-- `ls.join("\n")`
abbrev pub join_lines : List String → String
join_lines nil = ""
join_lines (cons l nil) = l
join_lines (cons l (cons k ls)) = l <+> ("\n" <+> join_lines (cons k ls))

pub is_empty_iff : (s : String) → (is_empty s ≡ true) ↔ (s ≡ "")
is_empty_iff [] = (λ _. refl, λ _. refl)
is_empty_iff (c ∷ s) = (λ h. cc, λ e. cc)

same_code : (n : ℕ) → (n == n) ≡ true
same_code n = ground arith

pub strip_prefix-append : (p s : String) → strip_prefix p (p <+> s) ≡ some s
strip_prefix-append [] s = ap some (nil-append s)
strip_prefix-append (c ∷ p) s = rw cons-append (rw same_code (strip_prefix-append p s))
