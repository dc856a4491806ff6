-- ===== src/Marketplace/Subtitle.antt =====
-- The subtitle of web/src/app/models/page.tsx in both languages.
use Prim.Native.Char.{Char, code}
use Prim.Native.String.{[] as no_text, ◌∷◌ as char_then}
use text.Mathlib.TextLemmas.{nil-append, cons-append}
use uni_llm.Prelude.{
  Bool, List, String, ap, arith, is_decimal, length, not, refl, replace_first, show_nat,
  show_nat-is_decimal, some, strip_prefix, strip_prefix-append, sym, true, ◌&&◌, ◌<+>◌, ◌==◌, ◌∙◌,
  ◌≡◌,
}
use uni_llm.Catalog.{ModelInfo}
use uni_llm.I18n.{Locale, en_locale, messages_map, zh_cn_locale}
use uni_llm.Marketplace.{subtitle, vendors}

-- No `{` stands in the text.
abbrev no_brace : String → Bool
no_brace no_text = true
no_brace (char_then c s) = not (code c == 123) && no_brace s

-- A placeholder is not found before it begins.
replace_first-skip :
    (s t r : String)
    → no_brace s ≡ true
    → replace_first "{vendors}" r (s <+> t) ≡ s <+> replace_first "{vendors}" r t
replace_first-skip no_text t r h = rw (nil-append, nil-append)
replace_first-skip (char_then c s) t r h =
    simp cons-append (ground (arith, replace_first-skip s t r))

replace_first-found :
    (p s r rest : String) → strip_prefix p s ≡ some rest → replace_first p r s ≡ r <+> rest
replace_first-found p no_text r rest e = rw (e, replace_first)
replace_first-found p (char_then c s) r rest e = rw (e, replace_first)

subtitle_filled :
    (n v before rest : String)
    → no_brace n ≡ true
    → no_brace before ≡ true
    → replace_first "{vendors}" v (n <+> (before <+> ("{vendors}" <+> rest)))
      ≡ n <+> (before <+> (v <+> rest))
subtitle_filled n v before rest hn hb =
    replace_first-skip n (before <+> ("{vendors}" <+> rest)) v hn
    ∙ ap (λ s. n <+> s)
        (replace_first-skip before ("{vendors}" <+> rest) v hb
          ∙ ap (λ s. before <+> s)
              (replace_first-found "{vendors}" ("{vendors}" <+> rest) v rest
                (strip_prefix-append "{vendors}" rest)))

no_brace-decimal : (s : String) → is_decimal s ≡ true → no_brace s ≡ true
no_brace-decimal no_text h = refl
no_brace-decimal (char_then c s) h = ground (arith, no_brace-decimal s)

-- The subtitle that each language should show for these two numbers.
abbrev pub expected_subtitle : Locale → String → String → String
expected_subtitle en_locale n v =
    n
    <+> (" models available across "
        <+> (v <+> " vendors. All accessible via a single OpenAI-compatible API."))
expected_subtitle zh_cn_locale n v =
    "共 " <+> (n <+> (" 个模型、" <+> (v <+> " 家厂商，均可通过统一的 OpenAI 兼容 API 访问。")))

opening : Char
opening = "共"

blank : Char
blank = " "

-- The text that begins the Chinese subtitle, character by character.
opened : (t : String) → "共 " <+> t ≡ char_then opening (char_then blank t)
unfolding opening blank
opened t =
    cons-append opening (char_then blank no_text) t
    ∙ ap (λ s. char_then opening s)
        (cons-append blank no_text t ∙ ap (λ s. char_then blank s) (nil-append t))

-- In both languages both placeholders of the subtitle are filled, with the number of models and the
-- number of vendors, and the rest of the message stays as it is.
pub subtitle_lem :
    {Number : Type 0} (l : Locale) (models : List (ModelInfo Number))
    → subtitle (messages_map l) models
      ≡ expected_subtitle l (show_nat (length models)) (show_nat (length (vendors models)))
unfolding subtitle opening blank
subtitle_lem en_locale models =
    subtitle_filled (show_nat (length models)) (show_nat (length (vendors models)))
      " models available across " " vendors. All accessible via a single OpenAI-compatible API."
      (no_brace-decimal (show_nat (length models)) (show_nat-is_decimal (length models))) refl
subtitle_lem zh_cn_locale models =
    let n = show_nat (length models) in
    let v = show_nat (length (vendors models)) in
    let rest : String = " 家厂商，均可通过统一的 OpenAI 兼容 API 访问。" in
    ap (replace_first "{vendors}" v) (sym (opened (n <+> (" 个模型、" <+> ("{vendors}" <+> rest)))))
    ∙ replace_first-skip "共 " (n <+> (" 个模型、" <+> ("{vendors}" <+> rest))) v refl
    ∙ ap (λ s. "共 " <+> s)
        (subtitle_filled n v " 个模型、" rest (no_brace-decimal n (show_nat-is_decimal (length models)))
          refl)
