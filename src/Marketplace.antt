-- ===== src/Marketplace.antt =====
-- web/src/app/models/page.tsx: the list of models with its three filters.
-- `String.prototype.toLowerCase` follows the Unicode tables and is the parameter `to_lower`.
-- Default `sort` compares UTF-16 units; the native order compares code points, which agrees on texts
-- without characters beyond U+FFFF.
pub mod Filter
pub mod Vendors
pub mod Subtitle
pub mod View
pub mod Cards
use Prim.Native.String.{compare as text_compare}
use Prim.Native.Nat.{Ordering}
use uni_llm.Prelude.{
  Bool, List, String, [], false, if◌then◌else◌, includes, keep, length, map, not, replace_first,
  show_nat, some_of, true, truthy, ◌&&◌, ◌===◌, ◌∷◌,
}
use uni_llm.Catalog.{ModelInfo, get_vendor}
use uni_llm.I18n.Shape.{Messages}

pub record Filters : Type 0 where
  pub search : String
  pub vendor_filter : String
  pub cap_filter : String

-- The filters of the first render.
abbrev pub no_filters : Filters
no_filters = record { search = ""; vendor_filter = "all"; cap_filter = "all" }

-- What a control sets.
pub data Choice : Type 0 where
  set_search set_vendor set_capability : String → Choice

unfoldable pub choose : Choice → Filters → Filters
choose (set_search v) f = record f { search = v }
choose (set_vendor v) f = record f { vendor_filter = v }
choose (set_capability v) f = record f { cap_filter = v }

module _ {Number : Type 0} (to_lower : String → String) where
  -- The body of the callback of `models.filter`.
  unfoldable pub shown : Filters → ModelInfo Number → Bool
  shown f m =
      if truthy f.search && not (includes (to_lower m.id) (to_lower f.search))
      then false
      else if not (f.vendor_filter === "all") && not (get_vendor m === f.vendor_filter)
      then false
      else if f.cap_filter === "vision" && not m.supports_vision
      then false
      else if f.cap_filter === "tools" && not m.supports_tools
      then false
      else if f.cap_filter === "stream" && not m.supports_stream
      then false
      else true

  unfoldable pub filtered : Filters → List (ModelInfo Number) → List (ModelInfo Number)
  filtered f models = keep (shown f) models

abbrev pub contains : String → List String → Bool
contains v = some_of (λ w. w === v)

-- `Array.from(new Set(xs))`: the first occurrence of each text, in order.
unfoldable pub distinct_after : List String → List String → List String
distinct_after seen [] = []
distinct_after seen (x ∷ xs) =
    if contains x seen then distinct_after seen xs else x ∷ distinct_after (x ∷ seen) xs

abbrev pub text_lt : String → String → Bool
text_lt s t = elim (text_compare s t) [ Ordering.lt ↦ true | _ ↦ false ]

unfoldable pub insert_text : String → List String → List String
insert_text x [] = x ∷ []
insert_text x (y ∷ ys) = if text_lt y x then y ∷ insert_text x ys else x ∷ y ∷ ys

-- `xs.sort()`
unfoldable pub sort_texts : List String → List String
unfolding insert_text
sort_texts [] = []
sort_texts (x ∷ xs) = insert_text x (sort_texts xs)

unfoldable pub vendors : {Number : Type 0} → List (ModelInfo Number) → List String
unfolding distinct_after
vendors models = sort_texts (distinct_after [] (map get_vendor models))

-- `t.models.subtitle` with its two numbers put in.
unfoldable pub subtitle : {Number : Type 0} → Messages → List (ModelInfo Number) → String
subtitle t models =
    replace_first "{vendors}" (show_nat (length (vendors models)))
      (replace_first "{count}" (show_nat (length models)) t.models.subtitle)
